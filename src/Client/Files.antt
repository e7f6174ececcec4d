-- ===== src/Client/Files.antt =====
-- The operations on the cached copy of an open file: afs_open, afs_read, afs_write, afs_fsync and
-- afs_release.
use afs_like_file_system.Common.{
  ℕ, Bool, true, false, Option, none, some, ℤ, pos, negsuc, neg_ℕ, ltb_ℤ, ltb, ◌==ℤ◌, length,
  if◌then◌else◌,
}
use afs_like_file_system.Machine.{Bytes, to_i32, to_size, fill}
use afs_like_file_system.Paths.{get_local_path, get_local_tmp_path}
use afs_like_file_system.Cache.Table.{key_of}
use afs_like_file_system.Posix.{
  create_trunc_rdwr, Posix, Indeterminate, o_rdonly, mode_770, fd_of, stat_or, bytes_or_empty,
}
use afs_like_file_system.Client.Process.{
  Stub, M, pure, option_case, ◌>>=◌, ◌>>◌, errno, call, get_mtime, put_mtime, dump,
}
use afs_like_file_system.Client.Transfer.{
  create_append_rdwr, append_rdwr, afs_fetch, afs_getattr, afs_store,
}

-- The mark of a copy that was written to, -12345678.
abbrev pub modified_flag : ℤ
modified_flag = negsuc 12345677

-- The result of a call that transfers bytes, in an `int`.
abbrev pub int_of : Option ℕ → ℤ
int_of none = negsuc 0
int_of (some n) = to_i32 n

abbrev pub count_of : Option Bytes → ℤ
count_of none = negsuc 0
count_of (some got) = to_i32 (length got)

abbrev pub enoent : ℕ
enoent = 2

module _ (P : Posix) (R : Stub) (uninit : Indeterminate) (cache_path : Bytes) where
  -- The first half of `afs_open`: the descriptor, and whether a new copy is to be fetched. A stat
  -- that `afs_getattr` did not fill is read all the same.
  unfoldable pub open_cached : Bytes → M P.State R.Net (ℤ × Bool)
  open_cached path = do
    let client_path = get_local_path path cache_path
    first ← call (P.open_file client_path append_rdwr mode_770)
    option_case first
        (do fd ← call (P.open_file client_path create_append_rdwr mode_770); pure (fd_of fd, true))
        λ d. do
          remote ← afs_getattr P R cache_path path uninit.stat
          cached ← get_mtime path
          pure (pos d, ltb_ℤ cached (remote.1).st_mtime)

  -- The branches on what `afs_fetch` returned.
  unfoldable pub fill_copy : ℤ → ℤ × Bytes × ℤ → M P.State R.Net (Option ℤ)
  fill_copy fd (rc, buf, size) =
      if ltb_ℤ rc (pos 0)
      then pure (some (neg_ℕ enoent))
      else do written ← call (P.write fd buf (to_size size)); synced ← call (P.fsync fd); pure none

  -- The second half: the copy is emptied and fetched. The result is what `afs_open` returns early,
  -- if it does.
  unfoldable pub fetch_copy : Bytes → ℤ → M P.State R.Net (Option ℤ)
  fetch_copy path fd = do
    cut ← call (P.ftruncate fd 0)
    option_case cut (do e ← errno; pure (some (neg_ℕ e)))
        λ r. do
          fetched ← afs_fetch P R cache_path path uninit.pointee (negsuc 1)
          fill_copy fd fetched

  -- The end of `afs_open`, for what the fetch returned early.
  unfoldable pub finish_open : Bytes → ℤ → ℤ → Option ℤ → M P.State R.Net (ℤ × ℤ)
  finish_open path fh fd early =
      option_case early
        (do info ← call (P.lstat (get_local_path path cache_path)); pure (pos 0, fd))
        λ rc. pure (rc, fh)

  -- The result with `file_info->fh`, which is `fh` before the call.
  unfoldable pub afs_open : Bytes → ℤ → M P.State R.Net (ℤ × ℤ)
  afs_open path fh = do
    opened ← open_cached path
    early ← (if opened.1 then fetch_copy path opened.0 else pure none)
    finish_open path fh opened.0 early

  -- The result with the bytes that were read and `file_info->fh`.
  unfoldable pub afs_read : Bytes → ℕ → ℕ → M P.State R.Net (ℤ × Bytes × ℤ)
  afs_read path size offset = do
    let client_path = get_local_path path cache_path
    before ← call (P.lstat client_path)
    fd ← call (
        P.open_file client_path
          (record { access = o_rdonly; creat = false; trunc = false; append = false }) 0)
    got ← call (P.pread (fd_of fd) size offset)
    after ← call (P.lstat client_path)
    let ret_code = count_of got
    if ltb_ℤ ret_code (pos 0)
        then (do e ← errno; pure (neg_ℕ e, bytes_or_empty got, fd_of fd))
        else pure (ret_code, bytes_or_empty got, fd_of fd)

  unfoldable pub afs_fsync : Bool → ℤ → M P.State R.Net ℤ
  afs_fsync isdatasync fh = do
    res ← (if isdatasync then call (P.fdatasync fh) else call (P.fsync fh))
    option_case res (do e ← errno; pure (neg_ℕ e)) λ r. pure (pos 0)

  -- The body of `if (size > 0)`: the copy with the change goes to the temporary file, which takes the
  -- place of the copy, and the path is marked.
  unfoldable pub write_copy : Bytes → Bytes → ℕ → ℕ → M P.State R.Net ℤ
  write_copy path buffer size offset = do
    let client_tmp_path = get_local_tmp_path path cache_path
    let client_path = get_local_path path cache_path
    fd ← call (P.open_file client_tmp_path create_trunc_rdwr mode_770)
    found ← call (P.lstat client_path)
    let info = stat_or uninit.stat found
    fd_main ← call (P.open_file client_path append_rdwr mode_770)
    got ← call (P.read (fd_of fd_main) info.st_size)
    let buf = fill (bytes_or_empty got) (uninit.malloc info.st_size)
    copied ← call (P.write (fd_of fd) buf info.st_size)
    closed_main ← call (P.close (fd_of fd_main))
    written ← call (P.pwrite (fd_of fd) buffer size offset)
    synced ← call (P.fsync (fd_of fd))
    closed ← call (P.close (fd_of fd))
    removed ← call (P.remove client_path)
    renamed ← call (P.rename client_tmp_path client_path)
    put_mtime (key_of path) modified_flag
    dump P cache_path
    let ret_code = int_of written
    if ret_code ==ℤ negsuc 0 then (do e ← errno; pure (neg_ℕ e)) else pure ret_code

  unfoldable pub afs_write : Bytes → Bytes → ℕ → ℕ → M P.State R.Net ℤ
  afs_write path buffer size offset =
      if ltb 0 size then write_copy path buffer size offset else pure (pos 0)

  -- The body of the test for the mark. What `afs_store` returns is dropped.
  unfoldable pub flush_copy : Bytes → ℤ → ℕ → M P.State R.Net ℤ
  flush_copy path fh size = do
    let client_path = get_local_path path cache_path
    rc ← call (P.close fh)
    fd ← call (P.open_file client_path append_rdwr mode_770)
    got ← call (P.read (fd_of fd) size)
    let buffer = fill (bytes_or_empty got) (uninit.malloc size)
    stored ← afs_store P R cache_path path buffer (to_i32 size)
    option_case rc (pure (negsuc 0)) λ r. pure (pos 0)

  unfoldable pub afs_release : Bytes → ℤ → M P.State R.Net ℤ
  afs_release path fh = do
    let client_path = get_local_path path cache_path
    found ← call (P.lstat client_path)
    let info = stat_or uninit.stat found
    modified ← get_mtime path
    if modified ==ℤ modified_flag then flush_copy path fh info.st_size else pure (pos 0)
