-- ===== src/Client/Read.antt =====
-- What afs_read returns, where the cache's disk works.
use afs_like_file_system.Common.{
  ℕ, ◌<◌, ◌^◌, ◌≡◌, ◌∙◌, refl, some, pos, arith, length, take, drop, false, ltb_ℤ,
}
use afs_like_file_system.Machine.{Bytes, to_i32_fits}
use afs_like_file_system.Paths.{get_local_path}
use afs_like_file_system.Posix.{Posix, Indeterminate, OpenFlags, o_rdonly}
use afs_like_file_system.Posix.Laws.{Files, IsHealthy}
use afs_like_file_system.Posix.Changes.{Unchanged}
use afs_like_file_system.Posix.Sessions.{Opened, opened_at, opens_there}
use afs_like_file_system.Client.Process.{Stub, Client, ok, ◌>>=◌, bind-ok, call-done}
use afs_like_file_system.Client.Files.{afs_read}

abbrev pub plain_rdonly : OpenFlags
plain_rdonly = record { access = o_rdonly; creat = false; trunc = false; append = false }

not_negative : (n : ℕ) → ltb_ℤ (pos n) (pos 0) ≡ false
not_negative n = ground arith

module _ (P : Posix) (view : P.State → Files) (healthy : IsHealthy P view) (R : Stub)
    (uninit : Indeterminate) (cache_path path : Bytes) where
  -- On a cache whose disk works, reading `size` bytes at an offset of a cached copy returns the
  -- bytes that the copy has there, fewer at its end, and their number, if it is below 2 ^ 31. The
  -- handle is a descriptor that was free before and that the operation leaves open on the copy; no
  -- file, no path and no other descriptor is changed, and the client is as it was but for its file
  -- system.
  pub read_returns_slice :
      (c : Client P.State R.Net) (i size offset : ℕ)
      → (view c.os).entry (get_local_path path cache_path) ≡ some i
      → let got = take size (drop offset ((view c.os).content i)) in
        length got < 2 ^ 31
        → (os : P.State) × (d : ℕ) × (afs_read P R uninit cache_path path size offset c
            ≡ ok (pos (length got), got, pos d) (record c { os = os }))
          × Unchanged (view c.os) (view os)
          × Opened (view c.os) (view os) d (opened_at plain_rdonly i)
  unfolding afs_read
  read_returns_slice c i size offset here small =
      let at = λ (os : P.State). record c { os = os } in
      let client_path = get_local_path path cache_path in
      let got = take size (drop offset ((view c.os).content i)) in
      let counted : ltb_ℤ (pos (length got)) (pos 0) ≡ false = not_negative (length got) in
      let o = opened_at plain_rdonly i in
      let (before, s1, e1, z1, v1) = healthy.lstat c.os client_path i here in
      let (d, s2, e2, same2, session) =
        opens_there P view healthy s1 client_path plain_rdonly 0 i (rw v1 here) refl in
      let (s3, e3, v3) = healthy.pread s2 (pos d) size offset o session.held tt in
      let same : (view s2).content i ≡ (view c.os).content i = same2.contents i ∙ rw v1 refl in
      let here3 : (view s3).entry client_path ≡ some i =
        rw v3 (same2.entries client_path ∙ rw v1 here) in
      let (after, s4, e4, z4, v4) = healthy.lstat s3 client_path i here3 in
      (
        s4,
        d,
        bind-ok _ _ c (at s1) (some before) (call-done _ c e1)
            ∙ bind-ok _ _ (at s1) (at s2) (some d) (call-done _ (at s1) e2)
            ∙ bind-ok _ _ (at s2) (at s3) (some got) (call-done _ (at s2) (rw same at e3))
            ∙ bind-ok _ _ (at s3) (at s4) (some after) (call-done _ (at s3) e4)
            ∙ (unfold ◌>>=◌ in rw (to_i32_fits (length got) small, counted)),
        record {
          places = λ q. rw (v4, v3) (same2.places q ∙ rw v1 refl);
          entries = λ q. rw (v4, v3) (same2.entries q ∙ rw v1 refl);
          contents = λ k. rw (v4, v3) (same2.contents k ∙ rw v1 refl);
        },
        record {
          free = rw v1 at session.free;
          held = rw (v4, v3) session.held;
          others = λ fd ne. rw (v4, v3) (session.others fd ne ∙ rw v1 refl);
        },
      )
