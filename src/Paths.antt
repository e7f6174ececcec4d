-- ===== src/Paths.antt =====
-- commonheaders.h: the paths that the server and the client build in buffers of
-- MAX_PATH_LENGTH bytes. A path is the C string without its final zero.
pub mod Bounds
pub mod Collisions
use afs_like_file_system.Common.{ℕ, [], ◌++◌, take, ◌∷◌}
use afs_like_file_system.Machine.{Bytes}

abbrev pub max_path_length : ℕ
max_path_length = 1000

-- `strncat(dst, src, n)` appends at most `n` bytes of `src`; it is not told the size of `dst`.
unfoldable pub strncat : Bytes → Bytes → ℕ → Bytes
strncat dst src n = dst ++ take n src

abbrev pub tmp_suffix : Bytes
tmp_suffix = b'_' ∷ b't' ∷ b'm' ∷ b'p' ∷ []

unfoldable pub get_server_path : Bytes → Bytes → Bytes
unfolding strncat
get_server_path clientpath root_path =
    let server_path : Bytes = strncat [] root_path max_path_length in
    strncat server_path clientpath max_path_length

unfoldable pub get_local_path : Bytes → Bytes → Bytes
unfolding strncat
get_local_path file_path cache_path =
    let client_path : Bytes = strncat [] cache_path max_path_length in
    strncat client_path file_path max_path_length

unfoldable pub get_local_tmp_path : Bytes → Bytes → Bytes
unfolding strncat
get_local_tmp_path file_path cache_path =
    let client_path : Bytes = strncat [] cache_path max_path_length in
    let with_file : Bytes = strncat client_path file_path max_path_length in
    strncat with_file tmp_suffix max_path_length
