-- ===== src/Client/Operations.antt =====
-- The invariant of the client through each of its operations.
use afs_like_file_system.Common.{ℕ, Option, Bool, ℤ, arith}
use afs_like_file_system.Machine.{Bytes, InLong}
use afs_like_file_system.Posix.{Posix, Indeterminate, Timespec}
use afs_like_file_system.Protocol.{CreateRes}
use afs_like_file_system.Client.Process.{Stub, option_case}
use afs_like_file_system.Client.Keeps.{
  Keeps, keeps_rules, Keeps-put_mtime, Keeps-bind, Keeps-call, Keeps-option_case,
}
use afs_like_file_system.Client.Ready.{
  IsStub, key_of-InLong, Keeps-bind_rpc, Keeps-afs_fetch, Keeps-afs_getattr, Keeps-afs_store,
}
use afs_like_file_system.Client.Transfer.{afs_create, afs_ls}
use afs_like_file_system.Client.Names.{
  afs_truncate, afs_chown, afs_utimens, afs_unlink, afs_chmod, afs_mkdir, afs_rmdir,
}
use afs_like_file_system.Client.Files.{
  modified_flag, open_cached, fill_copy, fetch_copy, finish_open, afs_open, afs_read, afs_fsync,
  write_copy, afs_write, flush_copy, afs_release,
}

modified_flag-InLong : InLong modified_flag
modified_flag-InLong = omega arith

ruleset operation_rules = (
  keeps_rules, Keeps-put_mtime, key_of-InLong, modified_flag-InLong, Keeps-afs_fetch,
  Keeps-afs_getattr, Keeps-afs_store,
)

module _ (P : Posix) (R : Stub) (cache_path path : Bytes) where
  pub Keeps-afs_truncate : (size : ℤ) → Keeps 1 (afs_truncate P R cache_path path size)
  unfolding afs_truncate
  Keeps-afs_truncate size = search operation_rules depth 9

  pub Keeps-afs_chown : (uid gid : ℕ) → Keeps 1 (afs_chown P R cache_path path uid gid)
  unfolding afs_chown
  Keeps-afs_chown uid gid = search operation_rules depth 9

  pub Keeps-afs_utimens :
      (atime mtime : Timespec) → Keeps 1 (afs_utimens P R cache_path path atime mtime)
  unfolding afs_utimens
  Keeps-afs_utimens atime mtime = search operation_rules depth 9

  pub Keeps-afs_unlink : Keeps 1 (afs_unlink P R cache_path path)
  unfolding afs_unlink
  Keeps-afs_unlink = search operation_rules depth 9

  pub Keeps-afs_chmod : (mode : ℕ) → Keeps 1 (afs_chmod P R cache_path path mode)
  unfolding afs_chmod
  Keeps-afs_chmod mode = search operation_rules depth 9

  pub Keeps-afs_mkdir : (mode : ℕ) → Keeps 1 (afs_mkdir P R cache_path path mode)
  unfolding afs_mkdir
  Keeps-afs_mkdir mode = search operation_rules depth 9

  pub Keeps-afs_rmdir : Keeps 1 (afs_rmdir P R cache_path path)
  unfolding afs_rmdir
  Keeps-afs_rmdir = search operation_rules depth 9

  pub Keeps-afs_ls : Keeps 1 (afs_ls P R cache_path path)
  unfolding afs_ls
  Keeps-afs_ls = search operation_rules depth 9

module _ (P : Posix) (R : Stub) (stub : IsStub R) (uninit : Indeterminate)
    (cache_path path : Bytes) where
  Keeps-open_cached : Keeps 1 (open_cached P R uninit cache_path path)
  unfolding open_cached
  Keeps-open_cached = search operation_rules depth 12

  Keeps-fill_copy : (fd : ℤ) (f : ℤ × Bytes × ℤ) → Keeps 1 (fill_copy P R uninit cache_path fd f)
  unfolding fill_copy
  Keeps-fill_copy fd (rc, buf, size) = search operation_rules depth 12

  Keeps-fetch_copy : (fd : ℤ) → Keeps 1 (fetch_copy P R uninit cache_path path fd)
  unfolding fetch_copy
  Keeps-fetch_copy fd = search (operation_rules, Keeps-fill_copy) depth 12

  Keeps-finish_open :
      (fh fd : ℤ) (early : Option ℤ) → Keeps 1 (finish_open P R uninit cache_path path fh fd early)
  unfolding finish_open
  Keeps-finish_open fh fd early = search operation_rules depth 12

  pub Keeps-afs_open : (fh : ℤ) → Keeps 1 (afs_open P R uninit cache_path path fh)
  unfolding afs_open
  Keeps-afs_open fh =
      search (operation_rules, Keeps-open_cached, Keeps-fetch_copy, Keeps-finish_open) depth 12

  pub Keeps-afs_read : (size offset : ℕ) → Keeps 1 (afs_read P R uninit cache_path path size offset)
  unfolding afs_read
  Keeps-afs_read size offset = search operation_rules depth 16

  pub Keeps-afs_fsync :
      (isdatasync : Bool) (fh : ℤ) → Keeps 1 (afs_fsync P R uninit cache_path isdatasync fh)
  unfolding afs_fsync
  Keeps-afs_fsync isdatasync fh = search operation_rules depth 12

  Keeps-write_copy :
      (buffer : Bytes) (size offset : ℕ)
      → Keeps 1 (write_copy P R uninit cache_path path buffer size offset)
  unfolding write_copy
  Keeps-write_copy buffer size offset = search operation_rules depth 40

  pub Keeps-afs_write :
      (buffer : Bytes) (size offset : ℕ)
      → Keeps 1 (afs_write P R uninit cache_path path buffer size offset)
  unfolding afs_write
  Keeps-afs_write buffer size offset = search (operation_rules, Keeps-write_copy) depth 12

  Keeps-flush_copy : (fh : ℤ) (size : ℕ) → Keeps 1 (flush_copy P R uninit cache_path path fh size)
  unfolding flush_copy
  Keeps-flush_copy fh size = search operation_rules depth 20

  pub Keeps-afs_release : (fh : ℤ) → Keeps 1 (afs_release P R uninit cache_path path fh)
  unfolding afs_release
  Keeps-afs_release fh = search (operation_rules, Keeps-flush_copy) depth 12

  pub Keeps-afs_create : (fh : ℤ) → Keeps 1 (afs_create P R cache_path path fh)
  unfolding afs_create option_case
  Keeps-afs_create fh = Keeps-bind 1 _ _ (Keeps-call 1 _) λ fd.
      Keeps-option_case 1 fd _ _ (search operation_rules) λ d.
        Keeps-bind_rpc R 1 _ _ (λ (r : CreateRes). InLong r.time) (stub.create_time _)
          (search operation_rules) (λ reply in_long. search operation_rules depth 12)
