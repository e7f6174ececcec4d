-- ===== src/Tests/OpenRuns.antt =====
-- Openings of a path whose copy is stale, fresh or written to.
use afs_like_file_system.Posix.{o_rdwr}
use afs_like_file_system.Common.{ℕ, ◌≡◌, refl, none, some, pos, true, arith, ltb_ℤ}
use afs_like_file_system.Cache.Table.{init_ht, get}
use afs_like_file_system.Cache.Invariant.{init_ht-IsValid}
use afs_like_file_system.Cache.Database.{dump_text}
use afs_like_file_system.Paths.{get_local_path, get_server_path}
use afs_like_file_system.Client.Names
use afs_like_file_system.Client.Process.{Client, ok}
use afs_like_file_system.Client.Files.{afs_open, afs_write}
use afs_like_file_system.Link.{Link}
use afs_like_file_system.Link.CloseToOpen.{with_server}
use afs_like_file_system.Link.Removed.{CopyIs, left_of, removed_file_opens}
use afs_like_file_system.Link.Refill.{Fetched}
use afs_like_file_system.Link.Stale.{open_refreshes_copy, open_keeps_fresh}
use afs_like_file_system.Link.Unsaved.{reopen_loses_write}
use afs_like_file_system.Tests.Memory.{Memory, memory, view, memory-IsHealthy, zeroed}
use afs_like_file_system.Tests.Stage.{
  writer_cache, root, file_a, new, older, writer_disk, writer, marked_table, stub, copy_there,
  tmp_absent, database_there, not_copy, not_tmp, file_there, marked, wide, timed_table, timed,
  server_time, server_not_newer,
}

open_refreshes_copy_example :
    (c' : Client Memory (Link Memory)) × (d time : ℕ) × (afs_open memory stub zeroed writer_cache
        file_a
        (pos 0)
        (writer marked_table)
      ≡ ok (pos 0, pos d) c')
    × Fetched memory view memory-IsHealthy zeroed root writer_cache file_a c'.os d 1 2 older
        (dump_text c'.ht)
    × (get c'.ht file_a ≡ pos time)
    × (time ≡ memory-IsHealthy.modified c'.net.server.os 1)
open_refreshes_copy_example =
    open_refreshes_copy memory view memory-IsHealthy zeroed root writer_cache file_a
      (writer marked_table) (pos 0) 1 2 1 copy_there database_there refl wide refl refl file_there
      (omega arith) server_time (rw marked (omega arith))

open_keeps_fresh_example :
    (c' : Client Memory (Link Memory)) × (d : ℕ) × (afs_open memory stub zeroed writer_cache file_a
        (pos 0)
        (writer timed_table)
      ≡ ok (pos 0, pos d) c')
    × ((view writer_disk).opened (pos d) ≡ none)
    × ((view c'.os).opened (pos d)
        ≡ some (record { ino = 1; offset = 0; append = true; access = o_rdwr }))
    × ((k : ℕ) → (view c'.os).content k ≡ new)
    × (c'.ht ≡ timed_table)
open_keeps_fresh_example =
    open_keeps_fresh memory view memory-IsHealthy zeroed root writer_cache file_a
      (writer timed_table) (pos 0) 1 1 copy_there refl file_there server_time
      (rw timed server_not_newer)

reopen_loses_write_example :
    (c1 c2 : Client Memory (Link Memory)) × (d k time : ℕ) × (afs_write memory stub zeroed
        writer_cache file_a new 2 1
        (writer init_ht)
      ≡ ok (pos 2) c1)
    × (afs_open memory stub zeroed writer_cache file_a (pos 0) c1 ≡ ok (pos 0, pos d) c2)
    × Fetched memory view memory-IsHealthy zeroed root writer_cache file_a c2.os d k 2 older
        (dump_text c2.ht)
    × (get c2.ht file_a ≡ pos time)
    × (time ≡ memory-IsHealthy.modified c2.net.server.os 1)
reopen_loses_write_example =
    reopen_loses_write memory view memory-IsHealthy zeroed root writer_cache file_a (writer init_ht)
      (pos 0) new 2 1 1 2 1 copy_there tmp_absent database_there not_copy not_tmp (omega arith)
      (omega arith) (omega arith) init_ht-IsValid.wide refl refl file_there (omega arith)
      server_time

-- Two clients with the same copy; the number in the table of the second one is after that of the
-- stat.
removed_file_opens_example :
    (removed opened : Client Memory (Link Memory)) × (d : ℕ) × (Names.afs_unlink memory stub
        writer_cache file_a
        (writer init_ht)
      ≡ ok (pos 0) removed)
    × ((view removed.os).entry (get_local_path file_a writer_cache) ≡ none)
    × ((view removed.net.server.os).entry (get_server_path file_a root) ≡ none)
    × (get removed.ht file_a ≡ get init_ht file_a)
    × (afs_open memory stub zeroed writer_cache file_a
          (pos 0)
          (with_server removed.net.server (writer timed_table))
        ≡ ok (pos 0, pos d) opened)
    × CopyIs memory view memory-IsHealthy zeroed root file_a writer_cache opened.os d 1
        (left_of (ltb_ℤ (get timed_table file_a) (pos 0)) new)
removed_file_opens_example =
    removed_file_opens memory view memory-IsHealthy zeroed root file_a writer_cache writer_cache
      (writer init_ht) (writer timed_table) (pos 0) 1 1 1 2 copy_there refl file_there copy_there
      database_there refl refl refl
