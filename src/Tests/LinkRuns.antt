-- ===== src/Tests/LinkRuns.antt =====
-- A client and the server of server.cc over a link, each with a small file system in memory.
use afs_like_file_system.Common.{ℕ, ◌≡◌, refl, [], ◌∷◌, some, ℤ, pos, arith, ltb_ℤ}
use afs_like_file_system.Machine.{Bytes}
use afs_like_file_system.Paths.{get_server_path, get_local_path}
use afs_like_file_system.Cache.Table.{init_ht, key_of, get, put}
use afs_like_file_system.Posix.{mode_770, done}
use afs_like_file_system.Posix.Laws.{same_bytes}
use afs_like_file_system.Client.Process.{Client}
use afs_like_file_system.Client.Transfer.{append_rdwr}
use afs_like_file_system.Client.Files.{afs_open}
use afs_like_file_system.Client.Down.{fresh_client}
use afs_like_file_system.Client.Open.{rest_of_open}
use afs_like_file_system.Link.{Link, connect}
use afs_like_file_system.Link.Consistency.{open_compares_nanoseconds}
use afs_like_file_system.Tests.Memory.{Memory, memory, stat_of, fresh_fd, zeroed}

-- "/cache", "/srv", "/a", and the file's names below the two directories
abbrev cache_path : Bytes
cache_path = b'/' ∷ b'c' ∷ b'a' ∷ b'c' ∷ b'h' ∷ b'e' ∷ []

abbrev root : Bytes
root = b'/' ∷ b's' ∷ b'r' ∷ b'v' ∷ []

abbrev file_a : Bytes
file_a = b'/' ∷ b'a' ∷ []

abbrev cached_a : Bytes
cached_a = b'/' ∷ b'c' ∷ b'a' ∷ b'c' ∷ b'h' ∷ b'e' ∷ b'/' ∷ b'a' ∷ []

abbrev server_a : Bytes
server_a = b'/' ∷ b's' ∷ b'r' ∷ b'v' ∷ b'/' ∷ b'a' ∷ []

abbrev hey : Bytes
hey = b'h' ∷ b'e' ∷ b'y' ∷ []

abbrev disk : Bytes → ℕ → Memory
disk p stamp = record {
  paths = (p, some 1) ∷ [];
  content = λ i. hey;
  descriptors = [];
  stamp = stamp;
}

-- A client whose table has `time` for the file, and whose server changed it at `stamp`.
abbrev linked : ℤ → ℕ → Client Memory (Link Memory)
linked time stamp =
    fresh_client (disk cached_a 0)
      (
        record { server = record { os = disk server_a stamp; error_number = 0 }; deliveries = [] },
        0,
      )
      (put init_ht (key_of file_a) time) []

abbrev stale : Client Memory (Link Memory)
stale = linked (pos 7) 5

abbrev opened_cache : Memory
opened_cache = (memory.open_file cached_a append_rdwr mode_770 (disk cached_a 0)).1

cache_opened :
    memory.open_file (get_local_path file_a cache_path) append_rdwr mode_770 (disk cached_a 0)
    ≡ (done 3, opened_cache)
unfolding get_local_path same_bytes fresh_fd
cache_opened = refl

server_found :
    memory.lstat (get_server_path file_a root) (disk server_a 5)
    ≡ (done (stat_of (disk server_a 5) 1), disk server_a 5)
unfolding get_server_path same_bytes
server_found = refl

abbrev decides : Client Memory (Link Memory) → Client Memory (Link Memory)
decides c = record c {
  os = opened_cache;
  net = record c.net { deliveries = [] };
  retries = 1;
  interval = 1000;
}

open_compares_nanoseconds_example :
    afs_open memory (connect memory zeroed root) zeroed cache_path file_a (pos 0) stale
    ≡ rest_of_open memory
        (connect memory zeroed root)
        zeroed
        cache_path
        file_a
        (pos 0)
        (pos 3)
        (ltb_ℤ (get stale.ht file_a) (pos 5))
        (decides stale)
open_compares_nanoseconds_example =
    open_compares_nanoseconds memory zeroed root cache_path file_a stale cache_opened refl
      server_found (omega arith) (pos 0)
