-- ===== src/Server/Process.antt =====
-- A process on a host: the file system and the thread's `errno`, and a state monad over them.
use afs_like_file_system.Common.{ℕ, Option, none, some}
use afs_like_file_system.Posix.{Sys, done, failed}

pub record Host (Os : Type 0) : Type 0 where
  pub os : Os
  pub error_number : ℕ

abbrev pub M : Type 0 → Type 0 → Type 0
M Os A = Host Os → A × Host Os

module _ {Os : Type 0} where
  abbrev pub pure : {A : Type 0} → A → M Os A
  pure a h = (a, h)

  infixl 5 ◌>>=◌ ◌>>◌
  abbrev pub ◌>>=◌ : {A B : Type 0} → M Os A → (A → M Os B) → M Os B
  ◌>>=◌ m f h = let (a, h') = m h in f a h'

  abbrev pub ◌>>◌ : {B : Type 0} → M Os (Unit {0}) → M Os B → M Os B
  m >> k = m >>= λ _. k

  abbrev pub errno : M Os ℕ
  errno h = (h.error_number, h)

  -- The two outcomes of a call as C sees them: `none` is -1, with `errno` set.
  abbrev pub settle : {A : Type 0} → Sys A × Os → M Os (Option A)
  settle (done a, s) h = (some a, record h { os = s })
  settle (failed e, s) h = (none, record { os = s; error_number = e })

  abbrev pub call : {A : Type 0} → (Os → Sys A × Os) → M Os (Option A)
  call f h = settle (f h.os) h
