-- ===== src/Tests/CloseRuns.antt =====
-- What the server gets and does not get: releases, losses, listings and truncations.
use afs_like_file_system.Common.{ℕ, ◌≡◌, refl, [], ◌∷◌, ℤ, pos, arith}
use afs_like_file_system.Cache.Table.{init_ht, get}
use afs_like_file_system.Cache.Invariant.{init_ht-IsValid}
use afs_like_file_system.Cache.Database.{dump_text}
use afs_like_file_system.Server.{afs_ls}
use afs_like_file_system.Client.Process.{Client, ok}
use afs_like_file_system.Client.Files.{afs_open, afs_release}
use afs_like_file_system.Client.Names.{afs_truncate}
use afs_like_file_system.Client.Transfer
use afs_like_file_system.Client.Transfer.{afs_store}
use afs_like_file_system.Client.Down.{fresh_client}
use afs_like_file_system.Client.Unmarked.{SameButDisk, truncate_not_stored}
use afs_like_file_system.Link.{Link, request_lost, reply_lost}
use afs_like_file_system.Link.Refill.{Fetched}
use afs_like_file_system.Link.Fetch.{open_invents_file}
use afs_like_file_system.Link.Losses.{Stored, store_survives_losses}
use afs_like_file_system.Link.Listing.{listing_hides_failure}
use afs_like_file_system.Tests.Memory.{Memory, memory, view, memory-IsHealthy, zeroed}
use afs_like_file_system.Tests.Stage.{
  writer_cache, reader_cache, root, file_a, new, writer_disk, reader_disk, server_disk, link_of,
  empty_disk, writer, stub, database_there, copy_absent, reader_database, not_reader_copy,
  file_there, file_nowhere, timed_table, unmarked,
}

store_survives_losses_example :
    let c =
      fresh_client writer_disk
        (link_of server_disk (request_lost ∷ reply_lost ∷ request_lost ∷ []), 0)
        init_ht
        [] in
    (time : ℤ) × (c' : Client Memory (Link Memory)) × (afs_store memory stub writer_cache file_a new
        (pos 3)
        c
      ≡ ok (pos 0) c')
    × Stored memory view memory-IsHealthy zeroed root writer_cache file_a new init_ht 1 2 time [] c'
store_survives_losses_example =
    store_survives_losses memory view memory-IsHealthy zeroed root writer_cache file_a new
      (request_lost ∷ reply_lost ∷ request_lost ∷ []) []
      (fresh_client writer_disk
        (link_of server_disk (request_lost ∷ reply_lost ∷ request_lost ∷ []), 0) init_ht [])
      1 2 (tt, (tt, (tt, tt))) (omega arith) refl refl refl (omega arith) file_there database_there

open_invents_file_example :
    let c = fresh_client reader_disk (link_of empty_disk [], 0) init_ht [] in
    (c' : Client Memory (Link Memory)) × (d k : ℕ) × (afs_open memory stub zeroed reader_cache
        file_a
        (pos 0)
        c
      ≡ ok (pos 0, pos d) c')
    × Fetched memory view memory-IsHealthy zeroed root reader_cache file_a c'.os d k 2 []
        (dump_text c'.ht)
    × (get c'.ht file_a ≡ pos 0)
open_invents_file_example =
    open_invents_file memory view memory-IsHealthy zeroed root reader_cache file_a
      (fresh_client reader_disk (link_of empty_disk [], 0) init_ht []) (pos 0) 2 copy_absent
      reader_database not_reader_copy init_ht-IsValid.wide refl file_nowhere

listing_hides_failure_example :
    Transfer.afs_ls memory stub writer_cache file_a (writer init_ht)
    ≡ ok
        (pos 0, [])
        (record (writer init_ht) {
          net = record {
            server =
                (afs_ls memory zeroed root
                  (record { path = file_a })
                  (link_of server_disk []).server).1;
            deliveries = [];
          };
        })
listing_hides_failure_example =
    listing_hides_failure memory zeroed root writer_cache file_a (writer init_ht) refl

truncate_not_stored_example :
    (rc : ℤ) × (c1 c2 : Client Memory (Link Memory)) × (afs_truncate memory stub writer_cache file_a
        (pos 0)
        (writer timed_table)
      ≡ ok rc c1)
    × (afs_release memory stub zeroed writer_cache file_a (pos 3) c1 ≡ ok (pos 0) c2)
    × SameButDisk (writer timed_table) c2
truncate_not_stored_example =
    truncate_not_stored memory stub zeroed writer_cache file_a (pos 0) (pos 3) (writer timed_table)
      unmarked
