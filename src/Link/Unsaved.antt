-- ===== src/Link/Unsaved.antt =====
-- A copy that is written to and then opened again before it is released.
use afs_like_file_system.Common.{
  ℕ, ◌<◌, ◌≤◌, ◌^◌, ◌≡◌, ◌≢◌, ◌∙◌, refl, arith, some, ℤ, pos, length, ==ℤ_refl,
}
use afs_like_file_system.Machine.{Bytes}
use afs_like_file_system.Paths.{get_local_path, get_local_tmp_path}
use afs_like_file_system.Cache.Hash.{htablesize}
use afs_like_file_system.Cache.Table.{key_of, get, put}
use afs_like_file_system.Cache.Lookup.{get-put, length-put}
use afs_like_file_system.Cache.Database.{dump_text}
use afs_like_file_system.Posix.{Posix, Indeterminate}
use afs_like_file_system.Posix.Laws.{Files, IsHealthy, Vacant}
use afs_like_file_system.Server.RoundTrip.{server_path}
use afs_like_file_system.Client.Process.{Stub, Client, ok, database_path}
use afs_like_file_system.Client.Files.{modified_flag, afs_open, afs_write}
use afs_like_file_system.Client.Write.{write_replaces_copy}
use afs_like_file_system.Link.{Link, connect, next, later, answered}
use afs_like_file_system.Link.Refill.{Fetched}
use afs_like_file_system.Link.Stale.{remote_time, open_refreshes_copy}

module _ (P : Posix) (view : P.State → Files) (healthy : IsHealthy P view) (uninit : Indeterminate)
    (root cache_path path : Bytes) where
  abbrev stub : Stub
  stub = connect P uninit root

  abbrev copy_path : Bytes
  copy_path = get_local_path path cache_path

  abbrev database : Bytes
  database = get_local_path database_path cache_path

  -- The disks of the client and of the server work; the cache has a copy of the path and the
  -- database, on other paths than the temporary file, which it has not, but a place for it; the
  -- server has the file, with less than 2 ^ 31 bytes, and answers two requests. A write to the copy
  -- of more than no and less than 2 ^ 31 bytes returns their number. If the path is then opened
  -- again before it is released, the call returns 0 and a descriptor on a copy that holds exactly
  -- the bytes of the server's file: what was written is gone, and the table has the nanoseconds of
  -- the time of the server's file in place of the mark.
  pub reopen_loses_write :
      (c : Client P.State (Link P.State)) (fh : ℤ) (buffer : Bytes) (size offset i j m : ℕ)
      → (view c.os).entry copy_path ≡ some i
      → Vacant (view c.os) (get_local_tmp_path path cache_path)
      → (view c.os).entry database ≡ some j
      → database ≢ copy_path
      → database ≢ get_local_tmp_path path cache_path
      → 0 < size
      → size ≤ length buffer
      → size < 2 ^ 31
      → length c.ht ≡ htablesize
      → next c.net.deliveries ≡ answered
      → next (later c.net.deliveries) ≡ answered
      → (view c.net.server.os).entry (server_path P view healthy uninit root path) ≡ some m
      → length ((view c.net.server.os).content m) < 2 ^ 31
      → remote_time P view healthy uninit root cache_path path c < 10 ^ 9
      → (c1 c2 : Client P.State (Link P.State)) × (d k time : ℕ) × (afs_write P stub uninit
            cache_path path buffer size offset c
          ≡ ok (pos size) c1)
        × (afs_open P stub uninit cache_path path fh c1 ≡ ok (pos 0, pos d) c2)
        × Fetched P view healthy uninit root cache_path path c2.os d k j
            ((view c.net.server.os).content m)
            (dump_text c2.ht)
        × (get c2.ht path ≡ pos time)
        × (time ≡ healthy.modified c2.net.server.os m)
  reopen_loses_write c fh buffer size offset i j m here absent there dc dt some_bytes le fits wide
        answers answers' at_server small below =
      let (os, k, written, entry, text, gone, db, saved, jk, kept) =
        write_replaces_copy P view healthy stub uninit cache_path path c ((view c.os).content i)
          buffer size offset i j here refl absent there dc dt some_bytes le fits in
      let ht = put c.ht (key_of path) modified_flag in
      let c1 : Client P.State (Link P.State) = record c { os = os; ht = ht } in
      let marked : get ht path ≡ modified_flag =
        get-put c.ht path path modified_flag wide ∙ rw (==ℤ_refl (key_of path)) in
      let (c2, d, time, opened, fetched, timed, stamped) =
        open_refreshes_copy P view healthy uninit root cache_path path c1 fh k j m entry db jk
          (length-put c.ht (key_of path) modified_flag ∙ wide) answers answers' at_server small
          below (rw marked (omega arith)) in
      (c1, c2, d, k, time, written, opened, fetched, timed, stamped)
