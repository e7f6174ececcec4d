-- ===== src/Tests/FetchRuns.antt =====
-- The opening of a file that the cache lacks, over a link to a server with the file.
use afs_like_file_system.Common.{ℕ, ◌≡◌, ◌≢◌, refl, [], ◌∷◌, some, ℤ, pos, ◌++◌, arith}
use afs_like_file_system.Machine.{Bytes}
use afs_like_file_system.Paths.{get_local_path, get_server_path}
use afs_like_file_system.Cache.Table.{init_ht, key_of, get, put}
use afs_like_file_system.Cache.Invariant.{init_ht-IsValid}
use afs_like_file_system.Cache.Database.{dump_text}
use afs_like_file_system.Posix.Laws.{Vacant, same_bytes}
use afs_like_file_system.Client.Process.{Client, ok, database_path}
use afs_like_file_system.Client.Files.{afs_open}
use afs_like_file_system.Client.Down.{fresh_client}
use afs_like_file_system.Client.Release.{stored_client}
use afs_like_file_system.Link.{Link, connect}
use afs_like_file_system.Link.Release.{used_link}
use afs_like_file_system.Link.Refill.{Fetched}
use afs_like_file_system.Link.Fetch.{open_fetches_missing}
use afs_like_file_system.Tests.Memory.{Memory, memory, view, memory-IsHealthy, zeroed}

-- "/c", "/s" and "/a"
abbrev cache_path : Bytes
cache_path = b'/' ∷ b'c' ∷ []

abbrev root : Bytes
root = b'/' ∷ b's' ∷ []

abbrev file_a : Bytes
file_a = b'/' ∷ b'a' ∷ []

-- The database alone.
abbrev cache_disk : Memory
cache_disk = record {
  paths = (cache_path ++ database_path, some 2) ∷ [];
  content = λ i. [];
  descriptors = [];
  stamp = 0;
}

abbrev server_disk : Memory
server_disk = record {
  paths = (root ++ file_a, some 1) ∷ [];
  content = λ i. b'o' ∷ b'l' ∷ b'd' ∷ b'e' ∷ b'r' ∷ [];
  descriptors = [];
  stamp = 9;
}

abbrev client : Client Memory (Link Memory)
client =
    fresh_client cache_disk
      (record { server = record { os = server_disk; error_number = 0 }; deliveries = [] }, 0)
      init_ht []

copy_absent : Vacant (view cache_disk) (get_local_path file_a cache_path)
unfolding get_local_path same_bytes
copy_absent = (refl, refl)

database_there : (view cache_disk).entry (get_local_path database_path cache_path) ≡ some 2
unfolding get_local_path same_bytes
database_there = refl

file_there : (view server_disk).entry (get_server_path file_a root) ≡ some 1
unfolding get_server_path same_bytes
file_there = refl

copy_not_database : get_local_path database_path cache_path ≢ get_local_path file_a cache_path
unfolding get_local_path
copy_not_database e = cc

open_fetches_missing_example :
    (os server_os : Memory) × (e d k : ℕ) × (time : ℤ) × (afs_open memory
        (connect memory zeroed root)
        zeroed
        cache_path
        file_a
        (pos 0)
        client
      ≡ ok
          (pos 0, pos d)
          (stored_client memory
            (connect memory zeroed root)
            cache_path
            file_a
            os
            (used_link memory view memory-IsHealthy zeroed root cache_path file_a server_os
              client.net)
            time
            (record client { error_number = e })))
    × Fetched memory view memory-IsHealthy zeroed root cache_path file_a os d k 2
        (b'o' ∷ b'l' ∷ b'd' ∷ b'e' ∷ b'r' ∷ [])
        (dump_text (put init_ht (key_of file_a) time))
    × (get (put init_ht (key_of file_a) time) file_a ≡ time)
    × (time ≡ pos (memory-IsHealthy.modified server_os 1))
open_fetches_missing_example =
    open_fetches_missing memory view memory-IsHealthy zeroed root cache_path file_a client (pos 0) 2
      1 copy_absent database_there copy_not_database init_ht-IsValid.wide refl file_there
      (omega arith)
