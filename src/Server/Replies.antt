-- ===== src/Server/Replies.antt =====
-- What the handlers report of the calls that they make.
use afs_like_file_system.Common.{◌≡◌, ◌↔◌, ℤ, pos, arith}
use afs_like_file_system.Machine.{Bytes, to_i32}
use afs_like_file_system.Paths.{get_server_path}
use afs_like_file_system.Posix.{Posix, Indeterminate, Sys, done, failed}
use afs_like_file_system.Protocol.{status_ok, unavailable, PathReq, ModeReq, StoreReq}
use afs_like_file_system.Server.Process.{Host}
use afs_like_file_system.Server.{
  afs_create, afs_store, afs_getattr, afs_unlink, afs_chmod, afs_mkdir, afs_rmdir, afs_fetch,
  afs_ls,
}

-- 0 for a call that succeeds, and else its error number, as `int`.
abbrev pub code {ℓ} : {A : Type ℓ} → Sys A → ℤ
code (done a) = pos 0
code (failed e) = to_i32 e

abbrev pub Fails {ℓ} : {A : Type ℓ} → Sys A → Type 0
Fails (done a) = ⊥
Fails (failed e) = Unit

module _ (P : Posix) (uninit : Indeterminate) (root : Bytes) (h : Host P.State) where
  -- The replies to the four calls on names carry 0 if the system call succeeded and its error
  -- number otherwise.
  pub name_calls_report :
      (r : PathReq) (m : ModeReq)
      → ((afs_unlink P uninit root r h).0.1.error
          ≡ code (P.unlink (get_server_path r.path root) h.os).0)
        × ((afs_rmdir P uninit root r h).0.1.error
            ≡ code (P.rmdir (get_server_path r.path root) h.os).0)
        × ((afs_chmod P uninit root m h).0.1.error
            ≡ code (P.chmod (get_server_path m.path root) m.mode h.os).0)
        × ((afs_mkdir P uninit root m h).0.1.error
            ≡ code (P.mkdir (get_server_path m.path root) m.mode h.os).0)
  unfolding afs_unlink afs_rmdir afs_chmod afs_mkdir
  name_calls_report r m = (ground arith, ground arith, ground arith, ground arith)

  -- The status is OK whatever happens, but for `mkdir`, which is `UNAVAILABLE` exactly when the
  -- system call fails.
  pub status_only_from_mkdir :
      (r : PathReq) (m : ModeReq) (s : StoreReq)
      → ((afs_create P uninit root r h).0.0 ≡ status_ok)
        × ((afs_store P uninit root s h).0.0 ≡ status_ok)
        × ((afs_getattr P uninit root r h).0.0 ≡ status_ok)
        × ((afs_unlink P uninit root r h).0.0 ≡ status_ok)
        × ((afs_chmod P uninit root m h).0.0 ≡ status_ok)
        × ((afs_rmdir P uninit root r h).0.0 ≡ status_ok)
        × ((afs_fetch P uninit root r h).0.0 ≡ status_ok)
        × ((afs_ls P uninit root r h).0.0 ≡ status_ok)
        × (((afs_mkdir P uninit root m h).0.0 ≡ unavailable)
            ↔ Fails (P.mkdir (get_server_path m.path root) m.mode h.os).0)
  unfolding afs_create afs_store afs_getattr afs_unlink afs_chmod afs_rmdir afs_fetch afs_ls
      afs_mkdir
  status_only_from_mkdir r m s = (
    ground arith,
    ground arith,
    ground arith,
    ground arith,
    ground arith,
    ground arith,
    ground arith,
    ground arith,
    ground arith,
  )
