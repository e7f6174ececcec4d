-- ===== src/Client/Names.antt =====
-- The operations on names and attributes: afs_truncate, afs_chown and afs_utimens act on the cached
-- copy alone; afs_unlink, afs_chmod, afs_mkdir and afs_rmdir call the server.
use afs_like_file_system.Common.{ℕ, Option, ℤ, pos, neg, neg_ℕ}
use afs_like_file_system.Machine.{Bytes}
use afs_like_file_system.Paths.{get_local_path}
use afs_like_file_system.Posix.{Posix, Timespec}
use afs_like_file_system.Protocol.{ErrorRes, error_res}
use afs_like_file_system.Client.Process.{Stub, M, pure, option_case, ◌>>=◌, errno, call, rpc}

module _ (P : Posix) (R : Stub) (cache_path : Bytes) where
  -- `if (res == -1) return -errno; return 0;`
  abbrev pub zero_or_errno : Option ℕ → M P.State R.Net ℤ
  zero_or_errno res = option_case res (do e ← errno; pure (neg_ℕ e)) λ r. pure (pos 0)

  -- `if (status.ok()) return 0; else return -reply.error();`, where the reply is still the fresh one.
  abbrev zero_or_reply : Option ErrorRes → M P.State R.Net ℤ
  zero_or_reply status = option_case status (pure (neg error_res.error)) λ reply. pure (pos 0)

  unfoldable pub afs_truncate : Bytes → ℤ → M P.State R.Net ℤ
  afs_truncate path size = do
    let client_path = get_local_path path cache_path
    res ← call (P.truncate client_path size)
    zero_or_errno res

  unfoldable pub afs_chown : Bytes → ℕ → ℕ → M P.State R.Net ℤ
  afs_chown path uid gid = do
    let client_path = get_local_path path cache_path
    res ← call (P.lchown client_path uid gid)
    zero_or_errno res

  unfoldable pub afs_utimens : Bytes → Timespec → Timespec → M P.State R.Net ℤ
  afs_utimens path atime mtime = do
    let client_path = get_local_path path cache_path
    res ← call (P.utimensat client_path atime mtime)
    zero_or_errno res

  unfoldable pub afs_unlink : Bytes → M P.State R.Net ℤ
  afs_unlink path = do
    let client_path = get_local_path path cache_path
    res ← call (P.unlink client_path)
    status ← rpc R (R.unlink (record { path = path }))
    zero_or_reply status

  unfoldable pub afs_chmod : Bytes → ℕ → M P.State R.Net ℤ
  afs_chmod path mode = do
    let client_path = get_local_path path cache_path
    res ← call (P.chmod client_path mode)
    status ← rpc R (R.chmod (record { path = path; mode = mode }))
    zero_or_reply status

  -- Both branches return, so the local `mkdir` behind them is never made.
  unfoldable pub afs_mkdir : Bytes → ℕ → M P.State R.Net ℤ
  afs_mkdir path mode = do
    status ← rpc R (R.mkdir (record { path = path; mode = mode }))
    zero_or_reply status

  unfoldable pub afs_rmdir : Bytes → M P.State R.Net ℤ
  afs_rmdir path = do
    let client_path = get_local_path path cache_path
    res ← call (P.rmdir client_path)
    status ← rpc R (R.rmdir (record { path = path }))
    zero_or_reply status
