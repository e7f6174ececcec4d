-- ===== src/Posix.antt =====
-- What the program calls and does not implement: the POSIX file system, under the names of its
-- calls, and the values that C leaves indeterminate. A call returns its result, or the error number
-- that it fails with, and the file system after it; it says nothing of `errno`, which the callers
-- set.
pub mod Changes
pub mod Laws
pub mod Sessions
pub mod Splice
use afs_like_file_system.Common.{
  true, false, ℕ, ◌≡◌, List, [], Bool, Option, none, some, ℤ, pos, negsuc, length,
}
use afs_like_file_system.Machine.{Bytes}

pub data Sys {ℓ} (A : Type ℓ) : Type ℓ where
  done : A → Sys A
  failed : ℕ → Sys A

-- `struct stat`, with the two parts of `st_mtim`.
pub record Stat : Type 0 where
  pub st_ino : ℕ
  pub st_mode : ℕ
  pub st_nlink : ℕ
  pub st_uid : ℕ
  pub st_gid : ℕ
  pub st_size : ℕ
  pub st_blksize : ℕ
  pub st_blocks : ℕ
  pub st_atime : ℤ
  pub st_mtime : ℤ
  pub st_mtime_nsec : ℕ
  pub st_ctime : ℤ

pub data Access : Type 0 where
  o_rdonly o_wronly o_rdwr : Access

-- The flags of `open` that the program uses.
pub record OpenFlags : Type 0 where
  pub access : Access
  pub creat : Bool
  pub trunc : Bool
  pub append : Bool

pub record Timespec : Type 0 where
  pub tv_sec : ℤ
  pub tv_nsec : ℤ

-- `list_directory` is `opendir` with the names that `readdir` returns until it returns none.
-- `fopen_read` is `fopen(path, "r")` with all that is read until the end, and `fopen_write` is
-- `fopen(path, "w")` with all that is printed until `fclose`; `none` and `false` are a null stream.
pub record Posix : Type 1 where
  pub State : Type 0
  pub open_file : Bytes → OpenFlags → ℕ → State → Sys ℕ × State
  pub close : ℤ → State → Sys ℕ × State
  pub read : ℤ → ℕ → State → Sys Bytes × State
  pub pread : ℤ → ℕ → ℕ → State → Sys Bytes × State
  pub write : ℤ → Bytes → ℕ → State → Sys ℕ × State
  pub pwrite : ℤ → Bytes → ℕ → ℕ → State → Sys ℕ × State
  pub lseek : ℤ → ℕ → State → Sys ℕ × State
  pub ftruncate : ℤ → ℕ → State → Sys ℕ × State
  pub truncate : Bytes → ℤ → State → Sys ℕ × State
  pub fsync : ℤ → State → Sys ℕ × State
  pub fdatasync : ℤ → State → Sys ℕ × State
  pub lstat : Bytes → State → Sys Stat × State
  pub fstat : ℤ → State → Sys Stat × State
  pub unlink : Bytes → State → Sys ℕ × State
  pub remove : Bytes → State → Sys ℕ × State
  pub rename : Bytes → Bytes → State → Sys ℕ × State
  pub mkdir : Bytes → ℕ → State → Sys ℕ × State
  pub rmdir : Bytes → State → Sys ℕ × State
  pub chmod : Bytes → ℕ → State → Sys ℕ × State
  pub lchown : Bytes → ℕ → ℕ → State → Sys ℕ × State
  pub utimensat : Bytes → Timespec → Timespec → State → Sys ℕ × State
  pub list_directory : Bytes → State → Sys (List Bytes) × State
  pub fopen_read : Bytes → State → Option Bytes × State
  pub fopen_write : Bytes → Bytes → State → Bool × State

-- What the C program may find in storage that it never wrote: a local `struct stat`, fresh memory of
-- `malloc`, and the bytes that an uninitialised `char *` points to.
pub record Indeterminate : Type 0 where
  pub stat : Stat
  pub malloc : ℕ → Bytes
  pub pointee : Bytes
  pub malloc_length : (n : ℕ) → length (malloc n) ≡ n

-- S_IRWXU | S_IRWXG
abbrev pub mode_770 : ℕ
mode_770 = 0o770

abbrev pub create_trunc_rdwr : OpenFlags
create_trunc_rdwr = record { access = o_rdwr; creat = true; trunc = true; append = false }

-- A file descriptor as C holds it: -1 after a failure.
abbrev pub fd_of : Option ℕ → ℤ
fd_of none = negsuc 0
fd_of (some fd) = pos fd

abbrev pub stat_or : Stat → Option Stat → Stat
stat_or old none = old
stat_or old (some st) = st

abbrev pub bytes_or_empty : Option Bytes → Bytes
bytes_or_empty none = []
bytes_or_empty (some got) = got
