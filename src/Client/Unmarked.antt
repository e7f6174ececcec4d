-- ===== src/Client/Unmarked.antt =====
-- The release of a path that is not marked as modified.
use afs_like_file_system.Common.{
  sym, Option, ℕ, ◌≡◌, ◌≢◌, ◌∙◌, refl, none, some, ℤ, pos, false, ◌==ℤ◌, ==ℤ_iff, Bool-cases, inl,
  inr,
}
use afs_like_file_system.Machine.{Bytes}
use afs_like_file_system.Paths.{get_local_path}
use afs_like_file_system.Cache.Table.{get}
use afs_like_file_system.Posix.{Posix, Indeterminate, Sys, done, failed}
use afs_like_file_system.Client.Process.{
  Stub, Client, ok, call, option_case, call-done, call-failed, ◌>>=◌, bind-ok,
}
use afs_like_file_system.Client.Release.{get_mtime-done, pure-done}
use afs_like_file_system.Client.Names.{zero_or_errno, afs_truncate}
use afs_like_file_system.Client.Files.{modified_flag, afs_release}

-- Two clients that differ at most in their file system and in errno.
pub record SameButDisk {Os Net : Type 0} (c c' : Client Os Net) : Type 0 where
  pub net : c'.net ≡ c.net
  pub ht : c'.ht ≡ c.ht
  pub retries : c'.retries ≡ c.retries
  pub interval : c'.interval ≡ c.interval
  pub sleeps : c'.sleeps ≡ c.sleeps

same :
    {Os Net : Type 0} {c : Client Os Net} {os : Os} {e : ℕ}
    → SameButDisk c (record c { os = os; error_number = e })
same = record { net = refl; ht = refl; retries = refl; interval = refl; sleeps = refl }

not_marked : (time : ℤ) → time ≢ modified_flag → (time ==ℤ modified_flag) ≡ false
not_marked time h = elim (Bool-cases (time ==ℤ modified_flag)) [
  | inl e ↦ absurd (h ((==ℤ_iff time modified_flag).0 e))
  | inr e ↦ e
]

module _ (P : Posix) (R : Stub) (uninit : Indeterminate) (cache_path path : Bytes) where
  -- A system call changes the file system and errno alone.
  call-SameButDisk :
      {A : Type 0} (f : P.State → Sys A × P.State) (c : Client P.State R.Net)
      → (a : Option A) × (c' : Client P.State R.Net) × (call f c ≡ ok a c') × SameButDisk c c'
  call-SameButDisk f c = by_outcome (f c.os) refl
    where
      by_outcome :
          (r : Sys _ × P.State)
          → f c.os ≡ r
          → (a : Option _) × (c' : Client P.State R.Net) × (call f c ≡ ok a c') × SameButDisk c c'
      by_outcome (done a, s) e = (some a, record c { os = s }, call-done f c e, same)
      by_outcome (failed x, s) e =
          (none, record c { os = s; error_number = x }, call-failed f c e, same)

  zero_or_errno-ends :
      (res : Option ℕ) (c : Client P.State R.Net)
      → (rc : ℤ) × (zero_or_errno P R cache_path res c ≡ ok rc c)
  unfolding option_case ◌>>=◌
  zero_or_errno-ends none c = (_, refl)
  zero_or_errno-ends (some r) c = (_, refl)

  truncate_ends :
      (size : ℤ) (c : Client P.State R.Net)
      → (rc : ℤ) × (c' : Client P.State R.Net) × (afs_truncate P R cache_path path size c
          ≡ ok rc c')
        × SameButDisk c c'
  unfolding afs_truncate
  truncate_ends size c =
      let (res, c', e, same) =
        call-SameButDisk (P.truncate (get_local_path path cache_path) size) c in
      let (rc, e') = zero_or_errno-ends res c' in (rc, c', bind-ok _ _ c c' res e ∙ e', same)

  release_ends :
      (fh : ℤ) (c : Client P.State R.Net)
      → get c.ht path ≢ modified_flag
      → (c' : Client P.State R.Net) × (afs_release P R uninit cache_path path fh c ≡ ok (pos 0) c')
        × SameButDisk c c'
  unfolding afs_release
  release_ends fh c unmarked =
      let (found, c', e, same) = call-SameButDisk (P.lstat (get_local_path path cache_path)) c in
      let plain : (get c'.ht path ==ℤ modified_flag) ≡ false =
        rw same.ht (not_marked (get c.ht path) unmarked) in
      (
        c',
        bind-ok _ _ c c' found e
            ∙ bind-ok _ _ c' c' (get c'.ht path) (get_mtime-done c' path refl)
            ∙ rw plain (pure-done c' (pos 0)),
        same,
      )

  -- Whatever the file system and the connection do: if the path is not marked as modified, then
  -- truncating the file and releasing it ends, the release returns 0, and neither reaches the server:
  -- connection, table and retry counters are as they were.
  pub truncate_not_stored :
      (size fh : ℤ) (c : Client P.State R.Net)
      → get c.ht path ≢ modified_flag
      → (rc : ℤ) × (c1 c2 : Client P.State R.Net) × (afs_truncate P R cache_path path size c
          ≡ ok rc c1)
        × (afs_release P R uninit cache_path path fh c1 ≡ ok (pos 0) c2)
        × SameButDisk c c2
  truncate_not_stored size fh c unmarked =
      let (rc, c1, e1, s1) = truncate_ends size c in
      let (c2, e2, s2) = release_ends fh c1 (λ h. unmarked (rw (sym s1.ht) h)) in
      (
        rc,
        c1,
        c2,
        e1,
        e2,
        record {
          net = s2.net ∙ s1.net;
          ht = s2.ht ∙ s1.ht;
          retries = s2.retries ∙ s1.retries;
          interval = s2.interval ∙ s1.interval;
          sleeps = s2.sleeps ∙ s1.sleeps;
        },
      )
