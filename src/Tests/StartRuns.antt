-- ===== src/Tests/StartRuns.antt =====
-- The start of a client whose cache has the database of an earlier one.
use afs_like_file_system.Common.{◌≡◌, refl, [], ◌∷◌, some, pos, ◌++◌, take, arith}
use afs_like_file_system.Machine.{Bytes, to_long-InLong}
use afs_like_file_system.Paths.{get_local_path, max_path_length}
use afs_like_file_system.Cache.Hash.{hashfilename}
use afs_like_file_system.Cache.Table.{Table, init_ht, key_of, get, put}
use afs_like_file_system.Cache.Valid.{IsValid}
use afs_like_file_system.Cache.Invariant.{init_ht-IsValid, put-IsValid}
use afs_like_file_system.Cache.Database.{dump_text}
use afs_like_file_system.Posix.Laws.{same_bytes}
use afs_like_file_system.Client.Process.{Client, ok, database_path}
use afs_like_file_system.Client.Down.{fresh_client}
use afs_like_file_system.Fuse.{client_main}
use afs_like_file_system.Fuse.Restart.{restart_restores_times}
use afs_like_file_system.Tests.Memory.{Memory, memory, view, memory-IsHealthy}
use afs_like_file_system.Tests.ClientRuns.{fixed}

-- "/c" and "/a"
abbrev cache_dir : Bytes
cache_dir = b'/' ∷ b'c' ∷ []

abbrev file_a : Bytes
file_a = b'/' ∷ b'a' ∷ []

abbrev earlier_table : Table
earlier_table = put init_ht (key_of file_a) (pos 7)

abbrev cache_disk : Memory
cache_disk = record {
  paths = (cache_dir ++ database_path, some 1) ∷ [];
  content = λ i. dump_text earlier_table;
  descriptors = [];
  stamp = 0;
}

abbrev client : Client Memory (Unit {0})
client = fresh_client cache_disk (tt, 0) [] []

database_there :
    (view cache_disk).entry (get_local_path database_path (take max_path_length cache_dir)) ≡ some 1
unfolding get_local_path same_bytes
database_there = refl

restart_restores_times_example :
    (c' : Client Memory (Unit {0})) × (client_main memory fixed cache_dir client ≡ ok tt c')
    × IsValid c'.ht
    × ((path : Bytes) → get c'.ht path ≡ get earlier_table path)
    × ((view c'.os).content 1 ≡ dump_text earlier_table)
restart_restores_times_example =
    restart_restores_times memory view memory-IsHealthy fixed cache_dir client earlier_table 1
      database_there refl
      (put-IsValid init_ht init_ht-IsValid (key_of file_a) (pos 7)
        (to_long-InLong (hashfilename file_a)) (omega arith))
