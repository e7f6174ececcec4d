-- ===== src/Tests/WriteRuns.antt =====
-- A write and a read of a cached copy, in a cache with the copy of one file and the database.
use afs_like_file_system.Common.{
  ℤ, ◌==◌, false, drop, length, ℕ, ◌≡◌, ◌≢◌, refl, [], ◌∷◌, some, pos, take, arith,
}
use afs_like_file_system.Machine.{Bytes}
use afs_like_file_system.Paths.{get_local_path, get_local_tmp_path}
use afs_like_file_system.Cache.Table.{init_ht, key_of, put}
use afs_like_file_system.Cache.Database.{dump_text}
use afs_like_file_system.Posix.Laws.{Vacant, Descriptor, same_bytes, splice}
use afs_like_file_system.Client.Process.{Client, ok, database_path}
use afs_like_file_system.Client.Files.{modified_flag, afs_read, afs_write}
use afs_like_file_system.Posix.Changes.{Unchanged}
use afs_like_file_system.Posix.Sessions.{Opened, opened_at}
use afs_like_file_system.Client.Read.{plain_rdonly, read_returns_slice}
use afs_like_file_system.Client.Down.{fresh_client}
use afs_like_file_system.Client.Write.{write_replaces_copy}
use afs_like_file_system.Tests.Memory.{Memory, memory, view, memory-IsHealthy, zeroed}
use afs_like_file_system.Tests.ClientRuns.{fixed}

-- "/c", "/a", "/c/a" and "/c/database.txt"
abbrev cache_path : Bytes
cache_path = b'/' ∷ b'c' ∷ []

abbrev file_a : Bytes
file_a = b'/' ∷ b'a' ∷ []

abbrev cached_a : Bytes
cached_a = b'/' ∷ b'c' ∷ b'/' ∷ b'a' ∷ []

abbrev cached_database : Bytes
cached_database = b'/' ∷ b'c' ∷ database_path

abbrev hey : Bytes
hey = b'h' ∷ b'e' ∷ b'y' ∷ []

abbrev cache_disk : Memory
cache_disk = record {
  paths = (cached_a, some 1) ∷ (cached_database, some 2) ∷ [];
  content = λ i. hey;
  descriptors = [];
  stamp = 0;
}

abbrev client : Client Memory (Unit {0})
client = fresh_client cache_disk (tt, 0) init_ht []

copy_there : (view cache_disk).entry (get_local_path file_a cache_path) ≡ some 1
unfolding get_local_path same_bytes
copy_there = refl

tmp_absent : Vacant (view cache_disk) (get_local_tmp_path file_a cache_path)
unfolding get_local_tmp_path same_bytes
tmp_absent = (refl, refl)

database_there : (view cache_disk).entry (get_local_path database_path cache_path) ≡ some 2
unfolding get_local_path same_bytes
database_there = refl

copy_not_database : get_local_path database_path cache_path ≢ get_local_path file_a cache_path
unfolding get_local_path
copy_not_database e = cc

tmp_not_database : get_local_path database_path cache_path ≢ get_local_tmp_path file_a cache_path
unfolding get_local_path get_local_tmp_path
tmp_not_database e = cc

write_replaces_copy_example :
    let ht = put init_ht (key_of file_a) modified_flag in
    (os : Memory) × (k : ℕ) × (afs_write memory fixed zeroed cache_path file_a hey 2 5 client
      ≡ ok (pos 2) (record client { os = os; ht = ht }))
    × ((view os).entry (get_local_path file_a cache_path) ≡ some k)
    × ((view os).content k ≡ splice hey 5 (take 2 hey))
    × Vacant (view os) (get_local_tmp_path file_a cache_path)
    × ((view os).entry (get_local_path database_path cache_path) ≡ some 2)
    × ((view os).content 2 ≡ dump_text ht)
    × ((2 == k) ≡ false)
    × ((fd : ℤ) (o : Descriptor)
        → (view cache_disk).opened fd ≡ some o
        → (view os).opened fd ≡ some o)
write_replaces_copy_example =
    write_replaces_copy memory view memory-IsHealthy fixed zeroed cache_path file_a client hey hey 2
      5 1 2 copy_there refl tmp_absent database_there copy_not_database tmp_not_database
      (omega arith) (omega arith) (omega arith)

read_returns_slice_example :
    let got = take 5 (drop 1 hey) in
    (os : Memory) × (d : ℕ) × (afs_read memory fixed zeroed cache_path file_a 5 1 client
      ≡ ok (pos (length got), got, pos d) (record client { os = os }))
    × Unchanged (view cache_disk) (view os)
    × Opened (view cache_disk) (view os) d (opened_at plain_rdonly 1)
read_returns_slice_example =
    read_returns_slice memory view memory-IsHealthy fixed zeroed cache_path file_a client 1 5 1
      copy_there (omega arith)
