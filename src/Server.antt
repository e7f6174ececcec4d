-- ===== src/Server.antt =====
-- server.cc: the handlers of `AfsServiceImplementation`. Each is given a request and the server's
-- host, and returns its status with the reply, and the host after it. What it prints is left out.
pub mod Answers
pub mod Effects
pub mod Process
pub mod Replies
pub mod Refinement
pub mod RoundTrip
pub mod Served
pub mod Service
pub mod Start
pub mod Threads
pub mod Tracking
use afs_like_file_system.Common.{
  ℕ, List, [], ◌∷◌, Option, none, some, true, false, ℤ, pos, negsuc, map,
}
use afs_like_file_system.Machine.{Bytes, to_u32, to_i32, to_size, ℤ_to_i32, fill}
use afs_like_file_system.Paths.{get_server_path}
use afs_like_file_system.Posix.{
  create_trunc_rdwr, Posix, Indeterminate, Stat, OpenFlags, o_rdonly, o_rdwr, mode_770, stat_or,
  bytes_or_empty,
}
use afs_like_file_system.Protocol.{
  Status, status_ok, unavailable, PathReq, ModeReq, StoreReq, CreateRes, StoreRes, ErrorRes,
  FetchReply, LsRes, GetattrRes, create_res, store_res, error_res, fetch_reply, ls_res, getattr_res,
}
use afs_like_file_system.Server.Process.{Host, M, pure, ◌>>=◌, ◌>>◌, call, errno}

abbrev pub create_rdonly : OpenFlags
create_rdonly = record { access = o_rdonly; creat = true; trunc = false; append = false }

abbrev pub plain_rdwr : OpenFlags
plain_rdwr = record { access = o_rdwr; creat = false; trunc = false; append = false }

module _ (P : Posix) (uninit : Indeterminate) (root_path : Bytes) where
  unfoldable pub afs_create : PathReq → M P.State (Status × CreateRes)
  afs_create request = do
    let path = get_server_path request.path root_path
    fd ← call (P.open_file path create_rdonly mode_770)
    elim fd [
      | none ↦ do e ← errno; pure (status_ok, record create_res { ack = to_i32 e })
      | some d ↦ do
        res ← call (P.lstat path)
        let stats = stat_or uninit.stat res
        closed ← call (P.close (pos d))
        pure (status_ok, record { ack = pos 0; time = pos stats.st_mtime_nsec })
    ]

  unfoldable pub afs_store : StoreReq → M P.State (Status × StoreRes)
  afs_store request = do
    let path = get_server_path request.path root_path
    fd ← call (P.open_file path create_trunc_rdwr mode_770)
    elim fd [
      | none ↦ do e ← errno; pure (status_ok, record store_res { error = to_i32 e })
      | some d ↦ do
        written ← call (P.write (pos d) request.buf (to_size request.size))
        res ← call (P.lstat path)
        let stats = stat_or uninit.stat res
        closed ← call (P.close (pos d))
        pure (status_ok, record { error = pos 0; time = pos stats.st_mtime_nsec })
    ]

  -- The attributes in the widths of the message. `mtime` is given the nanoseconds.
  abbrev pub getattr_reply : Stat → GetattrRes
  getattr_reply stats = record {
    ino = to_u32 stats.st_ino;
    mode = to_i32 stats.st_mode;
    nlink = to_u32 stats.st_nlink;
    uid = to_u32 stats.st_uid;
    gid = to_u32 stats.st_gid;
    size = pos stats.st_size;
    blksize = pos stats.st_blksize;
    blocks = pos stats.st_blocks;
    atime = ℤ_to_i32 stats.st_atime;
    mtime = to_i32 stats.st_mtime_nsec;
    ctime = ℤ_to_i32 stats.st_ctime;
    err = pos 0;
  }

  unfoldable pub afs_getattr : PathReq → M P.State (Status × GetattrRes)
  afs_getattr request = do
    let path = get_server_path request.path root_path
    res ← call (P.lstat path)
    elim res [
      | none ↦ do e ← errno; pure (status_ok, record getattr_res { err = to_i32 e })
      | some stats ↦ pure (status_ok, getattr_reply stats)
    ]

  -- The end of the three handlers that set `error` and answer OK all the same.
  abbrev error_or_zero : Option ℕ → M P.State (Status × ErrorRes)
  error_or_zero none = do e ← errno; pure (status_ok, record { error = to_i32 e })
  error_or_zero (some res) = pure (status_ok, error_res)

  unfoldable pub afs_unlink : PathReq → M P.State (Status × ErrorRes)
  afs_unlink request = do
    let path = get_server_path request.path root_path
    res ← call (P.unlink path)
    error_or_zero res

  unfoldable pub afs_chmod : ModeReq → M P.State (Status × ErrorRes)
  afs_chmod request = do
    let path = get_server_path request.path root_path
    res ← call (P.chmod path request.mode)
    error_or_zero res

  unfoldable pub afs_mkdir : ModeReq → M P.State (Status × ErrorRes)
  afs_mkdir request = do
    let path = get_server_path request.path root_path
    res ← call (P.mkdir path request.mode)
    elim res [
      | none ↦ do e ← errno; pure (unavailable, record { error = to_i32 e })
      | some r ↦ pure (status_ok, error_res)
    ]

  unfoldable pub afs_rmdir : PathReq → M P.State (Status × ErrorRes)
  afs_rmdir request = do
    let path = get_server_path request.path root_path
    res ← call (P.rmdir path)
    error_or_zero res

  unfoldable pub afs_fetch : PathReq → M P.State (Status × FetchReply)
  afs_fetch request = do
    let path = get_server_path request.path root_path
    fd ← call (P.open_file path plain_rdwr 0)
    elim fd [
      | none ↦ pure (status_ok, record fetch_reply { error = negsuc 0 })
      | some d ↦ do
        first ← call (P.fstat (pos d))
        let info = stat_or uninit.stat first
        at ← call (P.lseek (pos d) 0)
        got ← call (P.read (pos d) info.st_size)
        let buf = fill (bytes_or_empty got) (uninit.malloc info.st_size)
        second ← call (P.fstat (pos d))
        let stats = stat_or uninit.stat second
        closed ← call (P.close (pos d))
        pure (
          status_ok,
          record {
            error = pos 0;
            size = to_i32 info.st_size;
            buf = buf;
            time = pos stats.st_mtime_nsec;
          },
        )
    ]

  abbrev pub ls_entry : Bytes → LsRes
  ls_entry name = record { error = pos 0; name = name }

  -- The messages that the handler writes to the stream, in order.
  unfoldable pub afs_ls : PathReq → M P.State (Status × List LsRes)
  afs_ls request = do
    let path = get_server_path request.path root_path
    dp ← call (P.list_directory path)
    elim dp [
      | none ↦ pure (status_ok, record ls_res { error = negsuc 0 } ∷ [])
      | some names ↦ elim names [
        | [] ↦ pure (status_ok, record ls_res { error = negsuc 0 } ∷ [])
        | de ∷ more ↦ pure (status_ok, map ls_entry (de ∷ more))
      ]
    ]
