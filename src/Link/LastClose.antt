-- ===== src/Link/LastClose.antt =====
-- Two clients that edit copies of one file at the same time.
use afs_like_file_system.Common.{ℕ, ◌≡◌, ◌≢◌, List, Bool, true, some, ℤ, pos}
use afs_like_file_system.Machine.{Bytes}
use afs_like_file_system.Paths.{get_local_path, get_local_tmp_path}
use afs_like_file_system.Posix.{Posix, Indeterminate}
use afs_like_file_system.Posix.Laws.{Files, Descriptor, IsHealthy}
use afs_like_file_system.Server.RoundTrip.{FileIs, server_path}
use afs_like_file_system.Client.Process.{Stub, Client, ok, database_path}
use afs_like_file_system.Client.Edits.{
  Edit, edit_all, edited_all, results_of, unsaved_after, AllFit, IsEdited, edit_all-refines,
}
use afs_like_file_system.Client.Files.{afs_release}
use afs_like_file_system.Link.{Link, connect, next, answered}
use afs_like_file_system.Link.CloseToOpen.{with_server}
use afs_like_file_system.Link.Release.{release_stores_copy}

module _ (P : Posix) (view : P.State → Files) (healthy : IsHealthy P view) (uninit : Indeterminate)
    (root path : Bytes) where
  abbrev stub : Stub
  stub = connect P uninit root

  abbrev remote : Bytes
  remote = server_path P view healthy uninit root path

  -- The server has the file, with these bytes.
  abbrev pub ServerHas : Client P.State (Link P.State) → ℕ → Bytes → Type 0
  ServerHas c m text = FileIs P view healthy uninit root path c.net.server.os remote m text

  module _ (cache_a cache_b : Bytes)
      (own_a : get_local_path database_path cache_a ≢ get_local_path path cache_a)
      (no_tmp_a : get_local_path database_path cache_a ≢ get_local_tmp_path path cache_a)
      (own_b : get_local_path database_path cache_b ≢ get_local_path path cache_b)
      (no_tmp_b : get_local_path database_path cache_b ≢ get_local_tmp_path path cache_b) where
    -- The disks of two clients and of their server work, and the requests are answered. Each client
    -- has an open copy of a file of the server, with less than 2 ^ 31 bytes, makes any sequence of
    -- writes, which end below 2 ^ 31, and reads, with something to be stored at their end, and
    -- releases the file, the second one after the first. All of these calls succeed. Each client
    -- gets what its own edits of a string of bytes give; the file on the server holds exactly the
    -- string of the first client after its release, and exactly that of the second one in the end.
    pub last_close_wins :
        (a b : Client P.State (Link P.State)) (fh_a fh_b : ℤ) (o_a o_b : Descriptor) (j_a j_b m : ℕ)
        (es_a es_b : List Edit) (text_a text_b : Bytes) (dirty_a dirty_b : Bool)
        → IsEdited P view healthy stub uninit cache_a path own_a no_tmp_a fh_a o_a j_a a text_a
            dirty_a
        → IsEdited P view healthy stub uninit cache_b path own_b no_tmp_b fh_b o_b j_b b text_b
            dirty_b
        → AllFit es_a
        → AllFit es_b
        → unsaved_after es_a dirty_a ≡ true
        → unsaved_after es_b dirty_b ≡ true
        → next a.net.deliveries ≡ answered
        → next b.net.deliveries ≡ answered
        → (view a.net.server.os).entry remote ≡ some m
        → (a1 a2 b1 b2 : Client P.State (Link P.State)) × (edit_all P stub uninit cache_a path es_a
              a
            ≡ ok (results_of es_a text_a) a1)
          × (edit_all P stub uninit cache_b path es_b b ≡ ok (results_of es_b text_b) b1)
          × (afs_release P stub uninit cache_a path fh_a a1 ≡ ok (pos 0) a2)
          × ServerHas a2 m (edited_all es_a text_a)
          × (afs_release P stub uninit cache_b path fh_b (with_server a2.net.server b1)
              ≡ ok (pos 0) b2)
          × ServerHas b2 m (edited_all es_b text_b)
    last_close_wins a b fh_a fh_b o_a o_b j_a j_b m es_a es_b text_a text_b dirty_a dirty_b at_a
          at_b fit_a fit_b unsaved_a unsaved_b answers_a answers_b there =
        let (a1, ran_a, now_a, net_a) =
          edit_all-refines P view healthy stub uninit cache_a path own_a no_tmp_a fh_a o_a j_a es_a
            a text_a dirty_a at_a fit_a in
        let (b1, ran_b, now_b, net_b) =
          edit_all-refines P view healthy stub uninit cache_b path own_b no_tmp_b fh_b o_b j_b es_b
            b text_b dirty_b at_b fit_b in
        let (os_a, server_a, time_a, released_a, file_a, timed_a, stamped_a, clear_a, saved_a) =
          release_stores_copy P view healthy uninit root cache_a path a1 fh_a o_a now_a.number j_a m
            now_a.held now_a.entry_at now_a.database_at (rw now_a.text_at now_a.short) now_a.wide
            (now_a.marked unsaved_a) (rw net_a answers_a) (rw net_a there) in
        let host = record a1.net.server { os = server_a } in
        let answers_b1 : next b1.net.deliveries ≡ answered = rw net_b answers_b in
        let (os_b, server_b, time_b, released_b, file_b, timed_b, stamped_b, clear_b, saved_b) =
          release_stores_copy P view healthy uninit root cache_b path (with_server host b1) fh_b o_b
            now_b.number j_b m now_b.held now_b.entry_at now_b.database_at
            (rw now_b.text_at now_b.short) now_b.wide (now_b.marked unsaved_b) answers_b1
            file_a.0 in
        (
          a1,
          _,
          b1,
          _,
          ran_a,
          ran_b,
          released_a,
          rw now_a.text_at at file_a,
          released_b,
          rw now_b.text_at at file_b,
        )
