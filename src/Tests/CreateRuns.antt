-- ===== src/Tests/CreateRuns.antt =====
-- Creations of "/a", on a server that has room for it and on one that refuses it.
use afs_like_file_system.Common.{ℕ, ◌≡◌, refl, [], some, pos, if◌then◌else◌, arith, true}
use afs_like_file_system.Paths.{get_local_path, get_server_path}
use afs_like_file_system.Cache.Table.{Table, init_ht, get, put, key_of}
use afs_like_file_system.Cache.Invariant.{init_ht-IsValid}
use afs_like_file_system.Cache.Database.{dump_text}
use afs_like_file_system.Posix.{Posix, failed, done, mode_770}
use afs_like_file_system.Posix.Laws.{same_bytes}
use afs_like_file_system.Client.Process.{Client, ok, database_path}
use afs_like_file_system.Server.{create_rdonly}
use afs_like_file_system.Client.Transfer
use afs_like_file_system.Client.Transfer.{create_append_rdwr}
use afs_like_file_system.Client.Down.{fresh_client}
use afs_like_file_system.Link.{Link, connect}
use afs_like_file_system.Link.Create.{Created, create_makes_both, failed_create_positive}
use afs_like_file_system.Tests.Memory.{Memory, memory, view, memory-IsHealthy, zeroed, fresh_fd}
use afs_like_file_system.Tests.Stage.{
  root, file_a, reader_cache, reader_disk, empty_disk, link_of, stub, copy_absent, reader_database,
  not_reader_copy, file_nowhere,
}

abbrev client : Client Memory (Link Memory)
client = fresh_client reader_disk (link_of empty_disk [], 0) init_ht []

create_makes_both_example :
    (c' : Client Memory (Link Memory)) × (d m time : ℕ) × (Transfer.afs_create memory stub
        reader_cache file_a
        (pos 0)
        client
      ≡ ok (pos 0, pos d) c')
    × Created memory view memory-IsHealthy zeroed root reader_cache file_a c'.os d 2
        (dump_text c'.ht)
    × ((view c'.net.server.os).entry (get_server_path file_a root) ≡ some m)
    × ((view c'.net.server.os).content m ≡ [])
    × (get c'.ht file_a ≡ pos time)
    × (time ≡ memory-IsHealthy.modified c'.net.server.os m)
create_makes_both_example =
    create_makes_both memory view memory-IsHealthy zeroed root reader_cache file_a client (pos 0) 2
      copy_absent reader_database not_reader_copy init_ht-IsValid.wide refl file_nowhere

-- The file system in memory, but nobody may open the server's "/s/a".
abbrev refusing : Posix
refusing = record memory {
  open_file = λ p flags mode m.
      if same_bytes p (get_server_path file_a root)
      then (failed 13, m)
      else memory.open_file p flags mode m;
}

refused :
    refusing.open_file (get_server_path file_a root) create_rdonly mode_770 empty_disk
    ≡ (failed 13, empty_disk)
unfolding same_bytes get_server_path
refused = refl

abbrev opened_disk : Memory
opened_disk =
    (refusing.open_file (get_local_path file_a reader_cache) create_append_rdwr mode_770
      reader_disk).1

opened :
    refusing.open_file (get_local_path file_a reader_cache) create_append_rdwr mode_770 reader_disk
    ≡ (done 3, opened_disk)
unfolding same_bytes get_local_path get_server_path fresh_fd
opened = refl

abbrev zero_table : Table
zero_table = put init_ht (key_of file_a) (pos 0)

abbrev dumped_disk : Memory
dumped_disk =
    (refusing.fopen_write (get_local_path database_path reader_cache) (dump_text zero_table)
      opened_disk).1

dumped :
    refusing.fopen_write
      (get_local_path database_path reader_cache)
      (dump_text zero_table)
      opened_disk
    ≡ (true, dumped_disk)
unfolding same_bytes get_local_path get_server_path
dumped = refl

failed_create_positive_example :
    (c' : Client Memory (Link Memory)) × (Transfer.afs_create refusing
        (connect refusing zeroed root)
        reader_cache
        file_a
        (pos 0)
        client
      ≡ ok (pos 13, pos 3) c')
    × (c'.os ≡ dumped_disk)
    × (c'.net.server.os ≡ empty_disk)
    × (get c'.ht file_a ≡ pos 0)
failed_create_positive_example =
    failed_create_positive refusing zeroed root file_a reader_cache client (pos 0) opened refl
      refused (omega arith) dumped init_ht-IsValid.wide
