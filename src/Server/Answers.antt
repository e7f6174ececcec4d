-- ===== src/Server/Answers.antt =====
-- The replies of the handlers, given what the system calls that they make return.
use afs_like_file_system.Common.{ℕ, ◌<◌, ◌^◌, ◌≡◌, pos, negsuc, arith}
use afs_like_file_system.Machine.{Bytes, to_i32, to_i32_fits}
use afs_like_file_system.Paths.{get_server_path}
use afs_like_file_system.Posix.{Posix, Indeterminate, Stat, done, failed, mode_770}
use afs_like_file_system.Protocol.{status_ok, create_res, error_res, fetch_reply, getattr_res}
use afs_like_file_system.Server.{
  create_rdonly, plain_rdwr, getattr_reply, afs_create, afs_fetch, afs_getattr, afs_unlink,
}
use afs_like_file_system.Server.Process.{Host}

module _ (P : Posix) (uninit : Indeterminate) (root path : Bytes) (h : Host P.State) where
  pub created_reply :
      {d r : ℕ} {st : Stat} {s1 s2 s3 : P.State}
      → P.open_file (get_server_path path root) create_rdonly mode_770 h.os ≡ (done d, s1)
      → P.lstat (get_server_path path root) s1 ≡ (done st, s2)
      → P.close (pos d) s2 ≡ (done r, s3)
      → afs_create P uninit root (record { path = path }) h
        ≡ ((status_ok, record { ack = pos 0; time = pos st.st_mtime_nsec }), record h { os = s3 })
  unfolding afs_create
  created_reply opened stated closed = ground arith

  module _ {e : ℕ} {s : P.State} where
    pub failed_reply :
        P.open_file (get_server_path path root) create_rdonly mode_770 h.os ≡ (failed e, s)
        → e < 2 ^ 31
        → afs_create P uninit root (record { path = path }) h
          ≡ ((status_ok, record create_res { ack = pos e }), record { os = s; error_number = e })
    unfolding afs_create
    failed_reply refused small = let fits : to_i32 e ≡ pos e = to_i32_fits e small in ground arith

    pub missing_reply :
        P.open_file (get_server_path path root) plain_rdwr 0 h.os ≡ (failed e, s)
        → afs_fetch P uninit root (record { path = path }) h ≡ (
          (status_ok, record fetch_reply { error = negsuc 0 }),
          record { os = s; error_number = e },
        )
    unfolding afs_fetch
    missing_reply missing = ground arith

    pub attributes_missing :
        P.lstat (get_server_path path root) h.os ≡ (failed e, s)
        → afs_getattr P uninit root (record { path = path }) h ≡ (
          (status_ok, record getattr_res { err = to_i32 e }),
          record { os = s; error_number = e },
        )
    unfolding afs_getattr
    attributes_missing missing = ground arith

    pub unlink_missing_reply :
        P.unlink (get_server_path path root) h.os ≡ (failed e, s)
        → afs_unlink P uninit root (record { path = path }) h
          ≡ ((status_ok, record { error = to_i32 e }), record { os = s; error_number = e })
    unfolding afs_unlink
    unlink_missing_reply missing = ground arith

  pub attributes_found :
      {st : Stat} {s : P.State}
      → P.lstat (get_server_path path root) h.os ≡ (done st, s)
      → afs_getattr P uninit root (record { path = path }) h
        ≡ ((status_ok, getattr_reply P uninit root st), record h { os = s })
  unfolding afs_getattr
  attributes_found found = ground arith

  pub unlink_reply :
      {r : ℕ} {s : P.State}
      → P.unlink (get_server_path path root) h.os ≡ (done r, s)
      → afs_unlink P uninit root (record { path = path }) h
        ≡ ((status_ok, error_res), record h { os = s })
  unfolding afs_unlink
  unlink_reply gone = ground arith
