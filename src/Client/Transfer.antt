-- ===== src/Client/Transfer.antt =====
-- The operations that exchange files and attributes with the server: afs_create, afs_fetch,
-- afs_getattr, afs_store and afs_ls. A result is `return` with what is stored through pointers.
use afs_like_file_system.Common.{
  List, [], ◌∷◌, not, true, false, Option, none, some, ℤ, pos, negsuc, neg, neg_ℕ, take, ◌==ℤ◌,
  if◌then◌else◌,
}
use afs_like_file_system.Machine.{Bytes, to_size, ℤ_to_u32}
use afs_like_file_system.Paths.{get_local_path}
use afs_like_file_system.Cache.Table.{key_of}
use afs_like_file_system.Posix.{Posix, Stat, OpenFlags, o_rdwr, mode_770}
use afs_like_file_system.Protocol.{StoreReq, StoreRes, FetchReply, LsRes, GetattrRes, store_res}
use afs_like_file_system.Client.Process.{
  Stub, M, pure, option_case, abort, rpc_stream, ◌>>=◌, ◌>>◌, errno, call, rpc, put_mtime, dump,
}
use afs_like_file_system.Client.Retry.{reset_retries, retry_loop, max_attempts}

abbrev pub create_append_rdwr : OpenFlags
create_append_rdwr = record { access = o_rdwr; creat = true; trunc = false; append = true }

abbrev pub append_rdwr : OpenFlags
append_rdwr = record { access = o_rdwr; creat = false; trunc = false; append = true }

-- The names that the loop hands to `filler`.
unfoldable pub filled_names : List LsRes → List Bytes
filled_names [] = []
filled_names (reply ∷ more) =
    let rest = filled_names more in if reply.error ==ℤ pos 0 then reply.name ∷ rest else rest

module _ (P : Posix) (R : Stub) (cache_path : Bytes) where
  -- The result with `fi->fh`, which is `fh` before the call.
  unfoldable pub afs_create : Bytes → ℤ → M P.State R.Net (ℤ × ℤ)
  afs_create path fh = do
    let client_path = get_local_path path cache_path
    fd ← call (P.open_file client_path create_append_rdwr mode_770)
    option_case fd (do e ← errno; pure (neg_ℕ e, fh))
        λ d. do
          status ← rpc R (R.create (record { path = path }))
          option_case status (do e ← errno; pure (neg_ℕ e, pos d))
              λ reply. do
                put_mtime (key_of path) reply.time
                dump P cache_path
                pure (reply.ack, pos d)

  -- One round of the loop of `afs_fetch`.
  unfoldable pub fetch_attempt : Bytes → M P.State R.Net (Option FetchReply)
  fetch_attempt path = do
    status ← rpc R (R.fetch (record { path = path }))
    option_case status (pure none) λ reply. do
      reset_retries
      put_mtime (key_of path) reply.time
      dump P cache_path
      pure (some reply)

  -- The result with `*buf` and `*size`, which are `buf` and `size` before the call.
  unfoldable pub afs_fetch : Bytes → Bytes → ℤ → M P.State R.Net (ℤ × Bytes × ℤ)
  afs_fetch path buf size = do
    result ← retry_loop max_attempts (fetch_attempt path)
    option_case result (do e ← errno; pure (neg_ℕ e, buf, size))
        λ reply. pure (pos 0, reply.buf, reply.size)

  -- `memset` and the assignments: the server's `mtime` becomes the seconds.
  abbrev pub stat_of_reply : GetattrRes → Stat
  stat_of_reply reply = record {
    st_ino = reply.ino;
    st_mode = ℤ_to_u32 reply.mode;
    st_nlink = reply.nlink;
    st_uid = reply.uid;
    st_gid = reply.gid;
    st_size = to_size reply.size;
    st_blksize = to_size reply.blksize;
    st_blocks = to_size reply.blocks;
    st_atime = reply.atime;
    st_mtime = reply.mtime;
    st_mtime_nsec = 0;
    st_ctime = reply.ctime;
  }

  unfoldable pub getattr_attempt : Bytes → M P.State R.Net (Option GetattrRes)
  getattr_attempt path = do
    status ← rpc R (R.getattr (record { path = path }))
    option_case status (pure none) λ reply. do reset_retries; pure (some reply)

  -- The result with `*stats`, which is `stats` before the call.
  unfoldable pub afs_getattr : Bytes → Stat → M P.State R.Net (ℤ × Stat)
  afs_getattr path stats = do
    result ← retry_loop max_attempts (getattr_attempt path)
    option_case result (do e ← errno; pure (neg_ℕ e, stats))
        λ reply.
          if not (reply.err ==ℤ pos 0)
          then pure (neg reply.err, stats)
          else pure (pos 0, stat_of_reply reply)

  unfoldable pub store_attempt : Bytes → StoreReq → M P.State R.Net (Option StoreRes)
  store_attempt path request = do
    status ← rpc R (R.store request)
    option_case status (pure none) λ reply. do
      reset_retries
      put_mtime (key_of path) reply.time
      dump P cache_path
      pure (some reply)

  -- `std::string(buf, size)` throws `std::length_error` for a negative `size`.
  unfoldable pub afs_store : Bytes → Bytes → ℤ → M P.State R.Net ℤ
  afs_store path buf (negsuc n) = abort
  afs_store path buf (pos size) = do
    let request : StoreReq = record { path = path; size = pos size; buf = take size buf }
    result ← retry_loop max_attempts (store_attempt path request)
    option_case result (pure (neg store_res.error)) λ reply. pure reply.error

  unfoldable pub afs_ls : Bytes → M P.State R.Net (ℤ × List Bytes)
  afs_ls path = do
    stream ← rpc_stream R (R.ls (record { path = path }))
    let names = filled_names stream.0
    if stream.1 then pure (pos 0, names) else do e ← errno; pure (neg_ℕ e, names)
