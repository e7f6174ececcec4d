-- ===== src/Tests/DatabaseRuns.antt =====
-- A server with a file "/database.txt".
use afs_like_file_system.Common.{ℕ, ◌≡◌, refl, [], ◌∷◌, ◌++◌, some, pos, negsuc, arith}
use afs_like_file_system.Paths.{get_local_path, get_server_path}
use afs_like_file_system.Cache.Hash.{hashfilename, index_of_key}
use afs_like_file_system.Cache.Table.{init_ht, get}
use afs_like_file_system.Posix.Laws.{same_bytes}
use afs_like_file_system.Fuse.{client_main}
use afs_like_file_system.Client.Process.{Client, ok, crash, database_path}
use afs_like_file_system.Client.Files.{afs_open}
use afs_like_file_system.Client.Down.{fresh_client}
use afs_like_file_system.Link.{Link}
use afs_like_file_system.Link.Database.{server_time, opened_database_crashes}
use afs_like_file_system.Tests.Memory.{Memory, memory, view, memory-IsHealthy, zeroed}
use afs_like_file_system.Tests.Stage.{reader_cache, root, new, reader_disk, link_of, stub, reader}

abbrev named_disk : Memory
named_disk = record {
  paths = (root ++ database_path, some 1) ∷ [];
  content = λ i. new;
  descriptors = [];
  stamp = 9;
}

abbrev named : Client Memory (Link Memory)
named = fresh_client reader_disk (link_of named_disk [], 0) init_ht []

abbrev named_time : ℕ
named_time = server_time memory view memory-IsHealthy zeroed root reader_cache named

nine : named_time ≡ 9
unfolding get_server_path same_bytes
nine = refl

no_time : get init_ht database_path ≡ negsuc 0
unfolding get init_ht hashfilename index_of_key
no_time = refl

database_here : (view reader_disk).entry (get_local_path database_path reader_cache) ≡ some 2
unfolding get_local_path same_bytes
database_here = refl

named_there : (view named_disk).entry (get_server_path database_path root) ≡ some 1
unfolding get_server_path same_bytes
named_there = refl

opened_database_crashes_example :
    (c' : Client Memory (Link Memory)) × (d : ℕ) × (afs_open memory stub zeroed reader_cache
        database_path
        (pos 0)
        named
      ≡ ok (pos 0, pos d) c')
    × (client_main memory stub reader_cache (record reader { os = c'.os }) ≡ crash)
opened_database_crashes_example =
    opened_database_crashes memory view memory-IsHealthy zeroed root reader_cache named reader
      (pos 0) 2 1 b'n' (b'e' ∷ b'w' ∷ []) database_here refl refl named_there refl
      ((λ e. ground arith), ((λ e. ground arith), ((λ e. ground arith), tt))) (omega arith)
      (omega (arith, nine)) (rw no_time (omega (arith, nine)))
