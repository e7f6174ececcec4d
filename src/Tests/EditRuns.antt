-- ===== src/Tests/EditRuns.antt =====
-- Clients that edit their copies and release them.
use afs_like_file_system.Posix.{o_rdwr}
use afs_like_file_system.Common.{ℕ, ◌≡◌, refl, List, [], ◌∷◌, pos, true, false, arith}
use afs_like_file_system.Cache.Table.{init_ht}
use afs_like_file_system.Cache.Invariant.{init_ht-IsValid}
use afs_like_file_system.Posix.Laws.{Descriptor}
use afs_like_file_system.Client.Process.{Client, ok}
use afs_like_file_system.Client.Edits.{
  Edit, write, read, count, bytes, edit_all, edited_all, results_of, unsaved_after, AllFit,
  IsEdited,
}
use afs_like_file_system.Client.Files.{afs_open, afs_read, afs_release}
use afs_like_file_system.Link.{Link}
use afs_like_file_system.Link.CloseToOpen.{with_server}
use afs_like_file_system.Link.LastClose.{ServerHas, last_close_wins}
use afs_like_file_system.Link.Sharing.{edits_reach_reader}
use afs_like_file_system.Tests.Memory.{Memory, memory, view, memory-IsHealthy, zeroed}
use afs_like_file_system.Tests.Stage.{
  writer_cache, reader_cache, root, file_a, new, older, writer, reader, stub, copy_there,
  tmp_absent, not_copy, not_tmp, database_there, copy_absent, reader_database, not_reader_copy,
  file_there,
}

abbrev open_copy : Descriptor
open_copy = record { ino = 1; offset = 0; append = true; access = o_rdwr }

-- The client before its edits.
writer_now :
    IsEdited memory view memory-IsHealthy stub zeroed writer_cache file_a not_copy not_tmp
      (pos 3)
      open_copy
      2
      (writer init_ht)
      new
      false
writer_now = record {
  number = 1;
  entry_at = copy_there;
  text_at = refl;
  short = omega arith;
  no_tmp = tmp_absent;
  database_at = database_there;
  held = refl;
  wide = init_ht-IsValid.wide;
  marked = λ e. cc;
}

-- A write at 1, a read of all, a write of nothing and a write at the end; the copy is "new" before
-- them.
abbrev edits : List Edit
edits = write new 2 1 ∷ read 9 0 ∷ write new 0 0 ∷ write older 2 3 ∷ []

edits-AllFit : AllFit edits
edits-AllFit = (
  (omega arith, omega arith),
  (tt, ((omega arith, omega arith), ((omega arith, omega arith), tt))),
)

edits_reach_reader_example :
    (edited released opened done : Client Memory (Link Memory)) × (d d' : ℕ) × (edit_all memory stub
        zeroed writer_cache file_a edits
        (writer init_ht)
      ≡ ok
          (count (pos 2)
            ∷ bytes (pos 3) (b'n' ∷ b'n' ∷ b'e' ∷ [])
            ∷ count (pos 0)
            ∷ count (pos 2)
            ∷ [])
          edited)
    × (afs_release memory stub zeroed writer_cache file_a (pos 3) edited ≡ ok (pos 0) released)
    × (afs_open memory stub zeroed reader_cache file_a
          (pos 0)
          (with_server released.net.server reader)
        ≡ ok (pos 0, pos d) opened)
    × (afs_read memory stub zeroed reader_cache file_a 4 1 opened
        ≡ ok (pos 4, b'n' ∷ b'e' ∷ b'o' ∷ b'l' ∷ [], pos d') done)
unfolding results_of edited_all unsaved_after
edits_reach_reader_example =
    edits_reach_reader memory view memory-IsHealthy zeroed root writer_cache reader_cache file_a
      not_copy not_tmp (writer init_ht) reader (pos 3) (pos 0) open_copy 2 2 1 edits new false 4 1
      writer_now edits-AllFit refl refl file_there
      (record {
        no_copy = copy_absent;
        database_at = reader_database;
        own_file = not_reader_copy;
        wide = init_ht-IsValid.wide;
        answers = refl;
      })

-- The second client writes "old" at the start of its copy.
last_close_wins_example :
    (a1 a2 b1 b2 : Client Memory (Link Memory)) × (edit_all memory stub zeroed writer_cache file_a
        edits
        (writer init_ht)
      ≡ ok
          (count (pos 2)
            ∷ bytes (pos 3) (b'n' ∷ b'n' ∷ b'e' ∷ [])
            ∷ count (pos 0)
            ∷ count (pos 2)
            ∷ [])
          a1)
    × (edit_all memory stub zeroed writer_cache file_a (write older 3 0 ∷ []) (writer init_ht)
        ≡ ok (count (pos 3) ∷ []) b1)
    × (afs_release memory stub zeroed writer_cache file_a (pos 3) a1 ≡ ok (pos 0) a2)
    × ServerHas memory view memory-IsHealthy zeroed root file_a a2 1
        (b'n' ∷ b'n' ∷ b'e' ∷ b'o' ∷ b'l' ∷ [])
    × (afs_release memory stub zeroed writer_cache file_a (pos 3) (with_server a2.net.server b1)
        ≡ ok (pos 0) b2)
    × ServerHas memory view memory-IsHealthy zeroed root file_a b2 1 (b'o' ∷ b'l' ∷ b'd' ∷ [])
unfolding results_of edited_all unsaved_after
last_close_wins_example =
    last_close_wins memory view memory-IsHealthy zeroed root file_a writer_cache writer_cache
      not_copy not_tmp not_copy not_tmp (writer init_ht) (writer init_ht) (pos 3) (pos 3) open_copy
      open_copy 2 2 1 edits (write older 3 0 ∷ []) new new false false writer_now writer_now
      edits-AllFit ((omega arith, omega arith), tt) refl refl refl refl file_there
