-- ===== src/Server/Start.antt =====
-- server.cc: `main` up to the call of `RunAfsServer`, and the paths that are served from then on.
use afs_like_file_system.Common.{◌+◌, ◌<◌, ◌≡◌, ◌++◌, length, take, take_all, arith}
use afs_like_file_system.Machine.{Bytes}
use afs_like_file_system.Paths.{strncat, max_path_length, get_server_path}

-- `strncpy(root_path, argv[1], MAX_PATH_LENGTH);`. The result is the root of the handlers; if all of
-- its MAX_PATH_LENGTH bytes are taken, there is no final zero behind it in the array.
unfoldable pub server_main : Bytes → Bytes
server_main argument = take max_path_length argument

-- Where the argument and the path fit a buffer together, the file is that of the path below the
-- argument.
pub get_server_path-server_main :
    (path argument : Bytes)
    → length argument + length path < max_path_length
    → get_server_path path (server_main argument) ≡ argument ++ path
unfolding get_server_path server_main strncat
get_server_path-server_main path argument fits = rw (
  take_all max_path_length argument (omega arith),
  take_all max_path_length argument (omega arith),
  take_all max_path_length path (omega arith),
)
