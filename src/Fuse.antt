-- ===== src/Fuse.antt =====
-- client.cc: the FUSE operations of the client, and its `main` up to the call of `fuse_main`, which
-- then calls the operations one after the other (`-s`) as the kernel asks for them.
pub mod Session
pub mod Restart
use afs_like_file_system.Common.{ℕ, List, Bool, Option, none, some, ℤ, pos, take}
use afs_like_file_system.Machine.{Bytes}
use afs_like_file_system.Paths.{get_local_path, max_path_length}
use afs_like_file_system.Cache.Table.{init_ht}
use afs_like_file_system.Posix.{Posix, Indeterminate, Stat, Timespec, mode_770, fd_of}
use afs_like_file_system.Client.Process.{
  Stub, Client, M, ok, pure, ◌>>=◌, ◌>>◌, call, database_path, read_from_database,
}
use afs_like_file_system.Client.Transfer.{create_append_rdwr, afs_create, afs_getattr, afs_ls}
use afs_like_file_system.Client.Names.{
  afs_truncate, afs_chown, afs_utimens, afs_unlink, afs_chmod, afs_mkdir, afs_rmdir,
}
use afs_like_file_system.Client.Files.{afs_open, afs_read, afs_write, afs_fsync, afs_release}

-- A call of one of the operations that `client_fuse_operations` sets. A `fi->fh` before the call is
-- an argument.
pub data Request : Type 0 where
  create : Bytes → ℤ → Request
  write : Bytes → Bytes → ℕ → ℕ → Request
  read : Bytes → ℕ → ℕ → Request
  readdir : Bytes → Request
  open_file : Bytes → ℤ → Request
  getattr : Bytes → Stat → Request
  release : Bytes → ℤ → Request
  mknod : Bytes → ℕ → ℕ → Request
  truncate : Bytes → ℤ → Request
  chown : Bytes → ℕ → ℕ → Request
  utimens : Bytes → Timespec → Timespec → Request
  chmod : Bytes → ℕ → Request
  fsync : Bytes → Bool → ℤ → Request
  unlink : Bytes → Request
  mkdir : Bytes → ℕ → Request
  rmdir : Bytes → Request

-- What FUSE gets back: the result, with the handle, the bytes, the names or the attributes.
pub data Reply : Type 0 where
  result : ℤ → Reply
  opened : ℤ × ℤ → Reply
  bytes_read : ℤ × Bytes × ℤ → Reply
  entries : ℤ × List Bytes → Reply
  attributes : ℤ × Stat → Reply

module _ (P : Posix) (R : Stub) (uninit : Indeterminate) (cache_path : Bytes) where
  abbrev reply_with : {A : Type 0} → (A → Reply) → M P.State R.Net A → M P.State R.Net Reply
  reply_with f m = do a ← m; pure (f a)

  unfoldable pub client_oper : Request → M P.State R.Net Reply
  client_oper (create path fh) = reply_with opened (afs_create P R cache_path path fh)
  client_oper (write path buffer size offset) =
      reply_with result (afs_write P R uninit cache_path path buffer size offset)
  client_oper (read path size offset) =
      reply_with bytes_read (afs_read P R uninit cache_path path size offset)
  client_oper (readdir path) = reply_with entries (afs_ls P R cache_path path)
  client_oper (open_file path fh) = reply_with opened (afs_open P R uninit cache_path path fh)
  client_oper (getattr path stats) = reply_with attributes (afs_getattr P R cache_path path stats)
  client_oper (release path fh) = reply_with result (afs_release P R uninit cache_path path fh)
  client_oper (mknod path mode dev) = pure (result (pos 0))
  client_oper (truncate path size) = reply_with result (afs_truncate P R cache_path path size)
  client_oper (chown path uid gid) = reply_with result (afs_chown P R cache_path path uid gid)
  client_oper (utimens path atime mtime) =
      reply_with result (afs_utimens P R cache_path path atime mtime)
  client_oper (chmod path mode) = reply_with result (afs_chmod P R cache_path path mode)
  client_oper (fsync path isdatasync fh) =
      reply_with result (afs_fsync P R uninit cache_path isdatasync fh)
  client_oper (unlink path) = reply_with result (afs_unlink P R cache_path path)
  client_oper (mkdir path mode) = reply_with result (afs_mkdir P R cache_path path mode)
  client_oper (rmdir path) = reply_with result (afs_rmdir P R cache_path path)

module _ (P : Posix) (R : Stub) where
  -- `init_ht();`
  unfoldable pub init_table : M P.State R.Net (Unit {0})
  init_table c = ok tt (record c { ht = init_ht })

  -- `main`, from the resolved path of its last argument to the start of FUSE.
  unfoldable pub client_main : Bytes → M P.State R.Net (Unit {0})
  client_main resolved = do
    let cache_path = take max_path_length resolved
    let client_path = get_local_path database_path cache_path
    fd ← call (P.open_file client_path create_append_rdwr mode_770)
    closed ← call (P.close (fd_of fd))
    init_table
    read_from_database P cache_path
