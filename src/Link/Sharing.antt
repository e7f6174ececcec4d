-- ===== src/Link/Sharing.antt =====
-- From the edits of one client to the reads of another.
use afs_like_file_system.Common.{
  ℕ, ◌<◌, ◌^◌, ◌≡◌, ◌≢◌, ◌∙◌, refl, List, Bool, true, some, ℤ, pos, length, take, drop, length-take,
  length-drop, arith,
}
use afs_like_file_system.Machine.{Bytes}
use afs_like_file_system.Paths.{get_local_path, get_local_tmp_path}
use afs_like_file_system.Cache.Hash.{htablesize}
use afs_like_file_system.Posix.{Posix, Indeterminate}
use afs_like_file_system.Posix.Laws.{Files, Descriptor, IsHealthy, Vacant}
use afs_like_file_system.Server.RoundTrip.{server_path}
use afs_like_file_system.Client.Process.{Stub, Client, ok, database_path}
use afs_like_file_system.Client.Edits.{
  Edit, edit_all, edited_all, results_of, unsaved_after, AllFit, IsEdited, edit_all-refines,
}
use afs_like_file_system.Client.Files.{afs_open, afs_read, afs_release}
use afs_like_file_system.Client.Read.{read_returns_slice}
use afs_like_file_system.Link.{Link, connect, next, answered}
use afs_like_file_system.Link.CloseToOpen.{with_server, close_to_open}

slice_same :
    (text other : Bytes) (size offset : ℕ)
    → text ≡ other
    → take size (drop offset text) ≡ take size (drop offset other)
slice_same text other size offset e = rw e

module _ (P : Posix) (view : P.State → Files) (healthy : IsHealthy P view) (uninit : Indeterminate)
    (root writer_cache reader_cache path : Bytes)
    (not_copy : get_local_path database_path writer_cache ≢ get_local_path path writer_cache)
    (not_tmp : get_local_path database_path writer_cache
      ≢ get_local_tmp_path path writer_cache) where
  abbrev stub : Stub
  stub = connect P uninit root

  -- What the reader has: its database, a place for a copy of the path but none there, and a
  -- connection that answers.
  pub record IsReader (c : Client P.State (Link P.State)) (j : ℕ) : Type 0 where
    pub no_copy : Vacant (view c.os) (get_local_path path reader_cache)
    pub database_at : (view c.os).entry (get_local_path database_path reader_cache) ≡ some j
    pub own_file : get_local_path database_path reader_cache ≢ get_local_path path reader_cache
    pub wide : length c.ht ≡ htablesize
    pub answers : next c.net.deliveries ≡ answered

  -- The disks of two clients and of their server work, and the requests are answered. The writer
  -- has an open copy of a file of the server, with less than 2 ^ 31 bytes. It makes any sequence of
  -- writes, which end below 2 ^ 31, and reads, and releases the file; one of the writes, or one
  -- before them that is not stored yet, is of more than no bytes. Then the reader, whose cache
  -- lacks the file but has a place for it, opens it and reads at any offset. All of these calls
  -- succeed. The writer gets what the same edits of a string of bytes give, and the reader a slice
  -- of the string that they leave.
  pub edits_reach_reader :
      (writer reader : Client P.State (Link P.State)) (fh fh' : ℤ) (o : Descriptor) (j j' m : ℕ)
      (es : List Edit) (text : Bytes) (dirty : Bool) (size offset : ℕ)
      → IsEdited P view healthy stub uninit writer_cache path not_copy not_tmp fh o j writer text
          dirty
      → AllFit es
      → unsaved_after es dirty ≡ true
      → next writer.net.deliveries ≡ answered
      → (view writer.net.server.os).entry (server_path P view healthy uninit root path) ≡ some m
      → IsReader reader j'
      → let got = take size (drop offset (edited_all es text)) in
        (edited released opened done : Client P.State (Link P.State)) × (d d' : ℕ) × (edit_all P
            stub uninit writer_cache path es writer
          ≡ ok (results_of es text) edited)
        × (afs_release P stub uninit writer_cache path fh edited ≡ ok (pos 0) released)
        × (afs_open P stub uninit reader_cache path fh' (with_server released.net.server reader)
            ≡ ok (pos 0, pos d) opened)
        × (afs_read P stub uninit reader_cache path size offset opened
            ≡ ok (pos (length got), got, pos d') done)
  edits_reach_reader writer reader fh fh' o j j' m es text dirty size offset now fit unsaved answers
        remote r =
      let (c1, ran, now1, net1) =
        edit_all-refines P view healthy stub uninit writer_cache path not_copy not_tmp fh o j es
          writer text dirty now fit in
      let text1 = edited_all es text in
      let short1 : length ((view c1.os).content now1.number) < 2 ^ 31 =
        rw now1.text_at now1.short in
      let (c2, c3, d, k, released, opened, fetched) =
        close_to_open P view healthy uninit root writer_cache reader_cache path c1 reader fh fh' o
          now1.number j j' m now1.held now1.entry_at now1.database_at short1 now1.wide
          (now1.marked unsaved) (rw net1 answers) (rw net1 remote) r.no_copy r.database_at
          r.own_file r.wide r.answers in
      let same : take size (drop offset ((view c3.os).content k)) ≡ take size (drop offset text1) =
        slice_same ((view c3.os).content k) text1 size offset (fetched.text_at ∙ now1.text_at) in
      let short : length (take size (drop offset ((view c3.os).content k))) < 2 ^ 31 = rw same (
        omega
          (arith, length-take size (drop offset text1), length-drop offset text1, now1.short)) in
      let (os, d', read, kept, session) =
        read_returns_slice P view healthy stub uninit reader_cache path c3 k size offset
          fetched.entry_at short in
      (c1, c2, c3, record c3 { os = os }, d, d', ran, released, opened, read ∙ rw same refl)
