-- ===== src/Client/Results.antt =====
-- What the operations on names report to the kernel.
use afs_like_file_system.Common.{ℕ, ◌≡◌, ℤ, pos, arith}
use afs_like_file_system.Machine.{Bytes}
use afs_like_file_system.Posix.{Posix}
use afs_like_file_system.Client.Process.{Stub, Client, Outcome, ok, crash, spent, ◌>>=◌}
use afs_like_file_system.Client.Names.{afs_unlink, afs_chmod, afs_mkdir, afs_rmdir}

-- The step returns, and its result is 0.
abbrev pub ReturnsZero : {S : Type 0} → Outcome S ℤ → Type 0
ReturnsZero (ok rc c) = rc ≡ pos 0
ReturnsZero crash = ⊥
ReturnsZero spent = ⊥

module _ (P : Posix) (R : Stub) (cache_path path : Bytes) (c : Client P.State R.Net) where
  -- Removing a file or a directory, making a directory and changing a mode return 0 in every case:
  -- whether or not the local call fails, whether or not the server answers, and whatever error
  -- number the server's reply holds.
  pub name_calls_return_zero :
      (mode : ℕ)
      → ReturnsZero (afs_unlink P R cache_path path c)
        × ReturnsZero (afs_rmdir P R cache_path path c)
        × ReturnsZero (afs_chmod P R cache_path path mode c)
        × ReturnsZero (afs_mkdir P R cache_path path mode c)
  unfolding afs_unlink afs_rmdir afs_chmod afs_mkdir ◌>>=◌
  name_calls_return_zero mode = (ground arith, ground arith, ground arith, ground arith)
