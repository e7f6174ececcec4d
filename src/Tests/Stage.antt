-- ===== src/Tests/Stage.antt =====
-- Two caches and a server on small disks, with a link between them.
use afs_like_file_system.Posix.{o_rdwr}
use afs_like_file_system.Common.{
  ℕ, ◌^◌, ◌<◌, ◌≤ℤ◌, ◌≡◌, ◌≢◌, refl, List, [], ◌∷◌, some, pos, length, ◌++◌, true, arith,
}
use afs_like_file_system.Machine.{Bytes}
use afs_like_file_system.Paths.{get_local_path, get_local_tmp_path, get_server_path}
use afs_like_file_system.Cache.Hash.{htablesize, hashfilename, index_of_key}
use afs_like_file_system.Cache.Table.{Table, init_ht, key_of, get, put}
use afs_like_file_system.Posix.Laws.{Vacant, same_bytes}
use afs_like_file_system.Client.Process.{Stub, Client, database_path}
use afs_like_file_system.Client.Files.{modified_flag}
use afs_like_file_system.Client.Down.{fresh_client}
use afs_like_file_system.Link.{Delivery, Link, connect}
use afs_like_file_system.Link.Stale.{remote_time}
use afs_like_file_system.Tests.Memory.{Memory, memory, view, memory-IsHealthy, zeroed}

-- "/c", "/r", "/s", "/a", "new" and "older"
abbrev pub writer_cache : Bytes
writer_cache = b'/' ∷ b'c' ∷ []

abbrev pub reader_cache : Bytes
reader_cache = b'/' ∷ b'r' ∷ []

abbrev pub root : Bytes
root = b'/' ∷ b's' ∷ []

abbrev pub file_a : Bytes
file_a = b'/' ∷ b'a' ∷ []

abbrev pub new : Bytes
new = b'n' ∷ b'e' ∷ b'w' ∷ []

abbrev pub older : Bytes
older = b'o' ∷ b'l' ∷ b'd' ∷ b'e' ∷ b'r' ∷ []

-- The copy "/c/a", open as descriptor 3, and the database.
abbrev pub writer_disk : Memory
writer_disk = record {
  paths = (writer_cache ++ file_a, some 1) ∷ (writer_cache ++ database_path, some 2) ∷ [];
  content = λ i. new;
  descriptors = (pos 3, some (record { ino = 1; offset = 0; append = true; access = o_rdwr })) ∷ [];
  stamp = 0;
}

-- The database alone.
abbrev pub reader_disk : Memory
reader_disk = record {
  paths = (reader_cache ++ database_path, some 2) ∷ [];
  content = λ i. [];
  descriptors = [];
  stamp = 0;
}

abbrev pub server_disk : Memory
server_disk = record {
  paths = (root ++ file_a, some 1) ∷ [];
  content = λ i. older;
  descriptors = [];
  stamp = 9;
}

abbrev pub link_of : Memory → List Delivery → Link Memory
link_of disk deliveries = record {
  server = record { os = disk; error_number = 0 };
  deliveries = deliveries;
}

abbrev pub empty_disk : Memory
empty_disk = record { paths = []; content = λ i. []; descriptors = []; stamp = 9 }

abbrev pub writer : Table → Client Memory (Link Memory)
writer ht = fresh_client writer_disk (link_of server_disk [], 0) ht []

abbrev pub marked_table : Table
marked_table = put init_ht (key_of file_a) modified_flag

abbrev pub reader : Client Memory (Link Memory)
reader = fresh_client reader_disk (link_of server_disk [], 0) init_ht []

abbrev pub stub : Stub
stub = connect memory zeroed root

pub copy_there : (view writer_disk).entry (get_local_path file_a writer_cache) ≡ some 1
unfolding get_local_path same_bytes
copy_there = refl

pub tmp_absent : Vacant (view writer_disk) (get_local_tmp_path file_a writer_cache)
unfolding get_local_tmp_path same_bytes
tmp_absent = (refl, refl)

pub database_there : (view writer_disk).entry (get_local_path database_path writer_cache) ≡ some 2
unfolding get_local_path same_bytes
database_there = refl

pub not_copy : get_local_path database_path writer_cache ≢ get_local_path file_a writer_cache
unfolding get_local_path
not_copy e = cc

pub not_tmp : get_local_path database_path writer_cache ≢ get_local_tmp_path file_a writer_cache
unfolding get_local_path get_local_tmp_path
not_tmp e = cc

pub copy_absent : Vacant (view reader_disk) (get_local_path file_a reader_cache)
unfolding get_local_path same_bytes
copy_absent = (refl, refl)

pub reader_database : (view reader_disk).entry (get_local_path database_path reader_cache) ≡ some 2
unfolding get_local_path same_bytes
reader_database = refl

pub not_reader_copy : get_local_path database_path reader_cache ≢ get_local_path file_a reader_cache
unfolding get_local_path
not_reader_copy e = cc

pub file_there : (view server_disk).entry (get_server_path file_a root) ≡ some 1
unfolding get_server_path same_bytes
file_there = refl

pub file_nowhere : Vacant (view empty_disk) (get_server_path file_a root)
file_nowhere = (refl, refl)

pub marked : get marked_table file_a ≡ modified_flag
unfolding get put init_ht hashfilename index_of_key
marked = refl

pub wide : length marked_table ≡ htablesize
unfolding put init_ht hashfilename index_of_key
wide = refl

-- The table has a later time than the server.
abbrev pub timed_table : Table
timed_table = put init_ht (key_of file_a) (pos 10)

pub timed : get timed_table file_a ≡ pos 10
unfolding get put init_ht hashfilename index_of_key
timed = refl

pub unmarked : get timed_table file_a ≢ modified_flag
unmarked e = let t : pos 10 ≡ modified_flag = rw timed at e in cc

abbrev pub server_nanoseconds : ℕ
server_nanoseconds =
    remote_time memory view memory-IsHealthy zeroed root writer_cache file_a (writer init_ht)

pub server_nine : server_nanoseconds ≡ 9
unfolding get_server_path same_bytes
server_nine = refl

pub server_time : server_nanoseconds < 10 ^ 9
server_time = omega (arith, server_nine)

pub server_not_newer : pos server_nanoseconds ≤ℤ pos 10
server_not_newer = omega (arith, server_nine)
