-- ===== src/Client/Keeps.antt =====
-- Invariants of the client's steps, one rule for each way to build a step.
use afs_like_file_system.Common.{ℕ, ◌≡◌, Option, none, some, Bool, true, false, if◌then◌else◌}
use afs_like_file_system.Machine.{Bytes, InLong}
use afs_like_file_system.Common.{ℤ}
use afs_like_file_system.Posix.{Posix, Sys, done, failed}
use afs_like_file_system.Cache.Valid.{IsValid}
use afs_like_file_system.Cache.Invariant.{put-IsValid}
use afs_like_file_system.Client.Process.{
  Stub, Client, Outcome, ok, crash, spent, M, pure, ◌>>=◌, option_case, errno, call, settle, rpc,
  rpc_stream, get_mtime, put_mtime, abort, dump, settle_dump,
}

-- The table is valid, and the members of `AfsClient` have the values given. Nothing is said of the
-- file system, the connection and `errno`.
pub record HasRetries {Os Net : Type 0} (n : ℕ) (c : Client Os Net) : Type 0 where
  pub valid : IsValid c.ht
  pub retries_at : c.retries ≡ n
  pub interval_at : c.interval ≡ 1000

-- Between two operations.
abbrev pub IsReady : {Os Net : Type 0} → Client Os Net → Type 0
IsReady c = HasRetries 1 c

-- The fuel has not run out, and `P` holds if the step has returned.
abbrev pub Ends : {S A : Type 0} → (S → Type 0) → Outcome S A → Type 0
Ends P (ok a c) = P c
Ends P crash = Unit
Ends P spent = ⊥

pub record Keeps {Os Net A : Type 0} (n : ℕ) (m : M Os Net A) : Type 0 where
  pub at : (c : Client Os Net) → HasRetries n c → Ends (HasRetries n) (m c)

module _ {Os Net A : Type 0} where
  pub Keeps-pure : (n : ℕ) (a : A) → Keeps {Os = Os} {Net = Net} n (pure a)
  unfolding pure
  Keeps-pure n a = record { at = λ c h. h }

  pub Keeps-abort : (n : ℕ) → Keeps {Os = Os} {Net = Net} {A = A} n abort
  unfolding abort
  Keeps-abort n = record { at = λ c h. tt }

  Ends-settle :
      (n : ℕ) (r : Sys A × Os) (c : Client Os Net)
      → HasRetries n c
      → Ends (HasRetries n) (settle r c)
  Ends-settle n (done a, s) c h = record {
    valid = h.valid;
    retries_at = h.retries_at;
    interval_at = h.interval_at;
  }
  Ends-settle n (failed e, s) c h = record {
    valid = h.valid;
    retries_at = h.retries_at;
    interval_at = h.interval_at;
  }

  pub Keeps-call : (n : ℕ) (f : Os → Sys A × Os) → Keeps {Net = Net} n (call f)
  unfolding call
  Keeps-call n f = record { at = λ c h. Ends-settle n (f c.os) c h }

  pub Keeps-if :
      (n : ℕ) (b : Bool) (m k : M Os Net A) → Keeps n m → Keeps n k → Keeps n (if b then m else k)
  Keeps-if n true m k km kk = km
  Keeps-if n false m k km kk = kk

module _ {Os Net : Type 0} where
  pub Keeps-errno : (n : ℕ) → Keeps {Os = Os} {Net = Net} n errno
  unfolding errno
  Keeps-errno n = record { at = λ c h. h }

  pub Keeps-get_mtime : (n : ℕ) (path : Bytes) → Keeps {Os = Os} {Net = Net} n (get_mtime path)
  unfolding get_mtime
  Keeps-get_mtime n path = record { at = λ c h. h }

  pub Keeps-put_mtime :
      (n : ℕ) (key timestamp : ℤ)
      → InLong key
      → InLong timestamp
      → Keeps {Os = Os} {Net = Net} n (put_mtime key timestamp)
  unfolding put_mtime
  Keeps-put_mtime n key timestamp hk ht = record {
    at = λ c h. record {
      valid = put-IsValid c.ht h.valid key timestamp hk ht;
      retries_at = h.retries_at;
      interval_at = h.interval_at;
    };
  }

module _ {Os Net A B : Type 0} where
  Ends-bind :
      (n : ℕ) (r : Outcome (Client Os Net) A) (f : A → M Os Net B)
      → Ends (HasRetries n) r
      → ((a : A) → Keeps n (f a))
      → Ends (HasRetries n) (elim r [ ok a c ↦ f a c | crash ↦ crash | spent ↦ spent ])
  Ends-bind n (ok a c) f h k = (k a).at c h
  Ends-bind n crash f h k = tt
  Ends-bind n spent f h k = h

  pub Keeps-bind :
      (n : ℕ) (m : M Os Net A) (f : A → M Os Net B)
      → Keeps n m
      → ((a : A) → Keeps n (f a))
      → Keeps n (m >>= f)
  unfolding ◌>>=◌
  Keeps-bind n m f km kf = record { at = λ c h. Ends-bind n (m c) f (km.at c h) kf }

  pub Keeps-option_case :
      (n : ℕ) (o : Option A) (absent : M Os Net B) (present : A → M Os Net B)
      → Keeps n absent
      → ((a : A) → Keeps n (present a))
      → Keeps n (option_case o absent present)
  unfolding option_case
  Keeps-option_case n none absent present ka kp = ka
  Keeps-option_case n (some a) absent present ka kp = kp a

module _ {Os A : Type 0} (R : Stub) where
  pub Keeps-rpc : (n : ℕ) (f : R.Net → Option A × R.Net) → Keeps {Os = Os} n (rpc R f)
  unfolding rpc
  Keeps-rpc n f = record {
    at = λ c h. record { valid = h.valid; retries_at = h.retries_at; interval_at = h.interval_at };
  }

  pub Keeps-rpc_stream : (n : ℕ) (f : R.Net → A × R.Net) → Keeps {Os = Os} n (rpc_stream R f)
  unfolding rpc_stream
  Keeps-rpc_stream n f = record {
    at = λ c h. record { valid = h.valid; retries_at = h.retries_at; interval_at = h.interval_at };
  }

module _ (P : Posix) {Net : Type 0} where
  Ends-settle_dump :
      (n : ℕ) (r : Bool × P.State) (c : Client P.State Net)
      → HasRetries n c
      → Ends (HasRetries n) (settle_dump P r c)
  unfolding settle_dump
  Ends-settle_dump n (true, s) c h = record {
    valid = h.valid;
    retries_at = h.retries_at;
    interval_at = h.interval_at;
  }
  Ends-settle_dump n (false, s) c h = tt

  pub Keeps-dump : (n : ℕ) (cache_path : Bytes) → Keeps n (dump P {Net = Net} cache_path)
  unfolding dump
  Keeps-dump n cache_path = record { at = λ c h. Ends-settle_dump n _ c h }

pub ruleset keeps_rules = (
  Keeps-pure, Keeps-abort, Keeps-call, Keeps-if, Keeps-errno, Keeps-get_mtime, Keeps-bind,
  Keeps-option_case, Keeps-rpc, Keeps-rpc_stream, Keeps-dump,
)
