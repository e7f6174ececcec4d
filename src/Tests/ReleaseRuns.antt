-- ===== src/Tests/ReleaseRuns.antt =====
-- The release of a modified copy, over a link to a server with the file.
use afs_like_file_system.Posix.{o_rdwr}
use afs_like_file_system.Common.{◌≡◌, ◌≢◌, refl, [], ◌∷◌, some, ℤ, pos, length, ◌++◌, true, arith}
use afs_like_file_system.Machine.{Bytes}
use afs_like_file_system.Paths.{get_local_path, get_server_path}
use afs_like_file_system.Cache.Hash.{htablesize, hashfilename, index_of_key}
use afs_like_file_system.Cache.Table.{init_ht, key_of, get, put}
use afs_like_file_system.Cache.Database.{dump_text}
use afs_like_file_system.Posix.Laws.{same_bytes}
use afs_like_file_system.Server.RoundTrip.{FileIs}
use afs_like_file_system.Client.Process.{Client, ok, database_path}
use afs_like_file_system.Client.Files.{modified_flag, afs_release}
use afs_like_file_system.Client.Down.{fresh_client}
use afs_like_file_system.Client.Release.{stored_client}
use afs_like_file_system.Link.{Link, connect}
use afs_like_file_system.Link.Release.{used_link, release_stores_copy}
use afs_like_file_system.Tests.Memory.{Memory, memory, view, memory-IsHealthy, zeroed}

-- "/c", "/s" and "/a"
abbrev cache_path : Bytes
cache_path = b'/' ∷ b'c' ∷ []

abbrev root : Bytes
root = b'/' ∷ b's' ∷ []

abbrev file_a : Bytes
file_a = b'/' ∷ b'a' ∷ []

-- The copy "/c/a", open as descriptor 3, and the database.
abbrev cache_disk : Memory
cache_disk = record {
  paths = (cache_path ++ file_a, some 1) ∷ (cache_path ++ database_path, some 2) ∷ [];
  content = λ i. b'n' ∷ b'e' ∷ b'w' ∷ [];
  descriptors = (pos 3, some (record { ino = 1; offset = 0; append = true; access = o_rdwr })) ∷ [];
  stamp = 0;
}

abbrev server_disk : Memory
server_disk = record {
  paths = (root ++ file_a, some 1) ∷ [];
  content = λ i. b'o' ∷ b'l' ∷ b'd' ∷ b'e' ∷ b'r' ∷ [];
  descriptors = [];
  stamp = 9;
}

abbrev client : Client Memory (Link Memory)
client =
    fresh_client cache_disk
      (record { server = record { os = server_disk; error_number = 0 }; deliveries = [] }, 0)
      (put init_ht (key_of file_a) modified_flag) []

copy_there : (view cache_disk).entry (get_local_path file_a cache_path) ≡ some 1
unfolding get_local_path same_bytes
copy_there = refl

database_there : (view cache_disk).entry (get_local_path database_path cache_path) ≡ some 2
unfolding get_local_path same_bytes
database_there = refl

file_there : (view server_disk).entry (get_server_path file_a root) ≡ some 1
unfolding get_server_path same_bytes
file_there = refl

marked : get client.ht file_a ≡ modified_flag
unfolding get put init_ht hashfilename index_of_key
marked = refl

wide : length client.ht ≡ htablesize
unfolding put init_ht hashfilename index_of_key
wide = refl

release_stores_copy_example :
    (os server_os : Memory) × (time : ℤ) × (afs_release memory
        (connect memory zeroed root)
        zeroed
        cache_path
        file_a
        (pos 3)
        client
      ≡ ok (pos 0) (
          stored_client memory
            (connect memory zeroed root)
            cache_path
            file_a
            os
            (used_link memory view memory-IsHealthy zeroed root cache_path file_a server_os
              client.net)
            time
            client))
    × FileIs memory view memory-IsHealthy zeroed root file_a server_os
        (get_server_path file_a root)
        1
        (b'n' ∷ b'e' ∷ b'w' ∷ [])
    × (get (put client.ht (key_of file_a) time) file_a ≡ time)
    × (time ≡ pos (memory-IsHealthy.modified server_os 1))
    × (time ≢ modified_flag)
    × ((view os).content 2 ≡ dump_text (put client.ht (key_of file_a) time))
release_stores_copy_example =
    release_stores_copy memory view memory-IsHealthy zeroed root cache_path file_a client (pos 3)
      (record { ino = 1; offset = 0; append = true; access = o_rdwr }) 1 2 1 refl copy_there
      database_there (omega arith) wide marked refl file_there
