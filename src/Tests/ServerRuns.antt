-- ===== src/Tests/ServerRuns.antt =====
-- The handlers of the server on a small file system in memory.
use afs_like_file_system.Common.{◌≡◌, ◌↔◌, refl, [], ◌∷◌, some, pos}
use afs_like_file_system.Machine.{Bytes}
use afs_like_file_system.Paths.{get_server_path}
use afs_like_file_system.Posix.Laws.{same_bytes}
use afs_like_file_system.Protocol.{status_ok, unavailable, PathReq, ModeReq, StoreReq}
use afs_like_file_system.Server.{
  afs_create, afs_store, afs_getattr, afs_unlink, afs_chmod, afs_mkdir, afs_rmdir, afs_fetch,
  afs_ls,
}
use afs_like_file_system.Server.Process.{Host}
use afs_like_file_system.Server.Replies.{Fails, status_only_from_mkdir}
use afs_like_file_system.Tests.Memory.{Memory, memory, view, zeroed}

-- "/srv", "/a", "hey"
abbrev root : Bytes
root = b'/' ∷ b's' ∷ b'r' ∷ b'v' ∷ []

abbrev file_a : Bytes
file_a = b'/' ∷ b'a' ∷ []

abbrev server_a : Bytes
server_a = b'/' ∷ b's' ∷ b'r' ∷ b'v' ∷ b'/' ∷ b'a' ∷ []

abbrev hey : Bytes
hey = b'h' ∷ b'e' ∷ b'y' ∷ []

-- A server with the one file /srv/a, which holds four bytes.
abbrev host : Host Memory
host = record {
  os = record {
    paths = (server_a, some 1) ∷ [];
    content = λ i. b'l' ∷ b'o' ∷ b'n' ∷ b'g' ∷ [];
    descriptors = [];
    stamp = 5;
  };
  error_number = 0;
}

path_of_a : get_server_path file_a root ≡ server_a
unfolding get_server_path
path_of_a = refl

a_exists : (view host.os).entry (get_server_path file_a root) ≡ some 1
unfolding get_server_path same_bytes
a_exists = refl

abbrev on_a : PathReq
on_a = record { path = file_a }

abbrev mode_on_a : ModeReq
mode_on_a = record { path = file_a; mode = 0o700 }

abbrev store_on_a : StoreReq
store_on_a = record { path = file_a; size = pos 3; buf = hey }

status_only_from_mkdir_example :
    ((afs_create memory zeroed root on_a host).0.0 ≡ status_ok)
    × ((afs_store memory zeroed root store_on_a host).0.0 ≡ status_ok)
    × ((afs_getattr memory zeroed root on_a host).0.0 ≡ status_ok)
    × ((afs_unlink memory zeroed root on_a host).0.0 ≡ status_ok)
    × ((afs_chmod memory zeroed root mode_on_a host).0.0 ≡ status_ok)
    × ((afs_rmdir memory zeroed root on_a host).0.0 ≡ status_ok)
    × ((afs_fetch memory zeroed root on_a host).0.0 ≡ status_ok)
    × ((afs_ls memory zeroed root on_a host).0.0 ≡ status_ok)
    × (((afs_mkdir memory zeroed root mode_on_a host).0.0 ≡ unavailable)
        ↔ Fails (memory.mkdir (get_server_path file_a root) 0o700 host.os).0)
status_only_from_mkdir_example =
    status_only_from_mkdir memory zeroed root host on_a mode_on_a store_on_a
