-- ===== src/Client/Ready.antt =====
-- Every operation of the client keeps the table valid, comes to an end, and leaves `retries` and
-- `interval` as it found them.
use afs_like_file_system.Common.{
  ℕ, ◌≡◌, refl, Option, none, some, Bool, true, false, ℤ, pos, negsuc,
}
use afs_like_file_system.Machine.{Bytes, InLong, to_long-InLong}
use afs_like_file_system.Cache.Hash.{hashfilename}
use afs_like_file_system.Cache.Table.{key_of}
use afs_like_file_system.Cache.Invariant.{put-IsValid}
use afs_like_file_system.Posix.{Posix, Stat}
use afs_like_file_system.Protocol.{PathReq, StoreReq, CreateRes, StoreRes, FetchReply, GetattrRes}
use afs_like_file_system.Client.Process.{
  Stub, Client, M, pure, ◌>>=◌, option_case, rpc, dump, put_mtime, settle_dump,
}
use afs_like_file_system.Client.Retry.{reset_retries, retry_loop, max_attempts}
use afs_like_file_system.Client.Retry.Laws.{IsAttempt, AttemptEnds, Keeps-retry_loop}
use afs_like_file_system.Client.Keeps.{HasRetries, IsReady, Ends, Keeps, keeps_rules}
use afs_like_file_system.Client.Transfer.{
  fetch_attempt, getattr_attempt, store_attempt, afs_fetch, afs_getattr, afs_store,
}

-- The field `time` of a reply is an `int64`.
pub record IsStub (R : Stub) : Type 0 where
  pub create_time :
      (q : PathReq) (n : R.Net) (r : CreateRes) → (R.create q n).0 ≡ some r → InLong r.time
  pub fetch_time :
      (q : PathReq) (n : R.Net) (r : FetchReply) → (R.fetch q n).0 ≡ some r → InLong r.time
  pub store_time :
      (q : StoreReq) (n : R.Net) (r : StoreRes) → (R.store q n).0 ≡ some r → InLong r.time

pub key_of-InLong : (path : Bytes) → InLong (key_of path)
key_of-InLong path = to_long-InLong (hashfilename path)

-- What a reply is known to be may be used in the rest of the step.
module _ {Os A B : Type 0} (R : Stub) where
  Ends-reply :
      (n : ℕ) (o : Option A) (k : Option A → M Os R.Net B) (good : A → Type 0) (c : Client Os R.Net)
      → HasRetries n c
      → ((a : A) → o ≡ some a → good a)
      → Keeps n (k none)
      → ((a : A) → good a → Keeps n (k (some a)))
      → Ends (HasRetries n) (k o c)
  Ends-reply n none k good c h sound absent present = absent.at c h
  Ends-reply n (some a) k good c h sound absent present = (present a (sound a refl)).at c h

  pub Keeps-bind_rpc :
      (n : ℕ) (f : R.Net → Option A × R.Net) (k : Option A → M Os R.Net B) (good : A → Type 0)
      → ((net : R.Net) (a : A) → (f net).0 ≡ some a → good a)
      → Keeps n (k none)
      → ((a : A) → good a → Keeps n (k (some a)))
      → Keeps n (rpc R f >>= k)
  unfolding rpc ◌>>=◌
  Keeps-bind_rpc n f k good sound absent present = record {
    at = λ c h.
        Ends-reply n (f c.net).0 k good _
          (record { valid = h.valid; retries_at = h.retries_at; interval_at = h.interval_at })
          (sound c.net) absent present;
  }

module _ (P : Posix) {A Net : Type 0} where
  AttemptEnds-dump :
      (n : ℕ) (a : A) (r : Bool × P.State) (c : Client P.State Net)
      → IsReady c
      → AttemptEnds n ((settle_dump P r >>= λ _. pure (some a)) c)
  unfolding settle_dump ◌>>=◌
  AttemptEnds-dump n a (true, s) c h = record {
    valid = h.valid;
    retries_at = h.retries_at;
    interval_at = h.interval_at;
  }
  AttemptEnds-dump n a (false, s) c h = tt

module _ (P : Posix) (R : Stub) (cache_path path : Bytes) where
  -- A reply of `afs_fetch` or `afs_store`: reset, `put`, `dump`, return.
  AttemptEnds-reply :
      {A : Type 0} (n : ℕ) (o : Option A) (time : A → ℤ) (c : Client P.State R.Net)
      → HasRetries n c
      → ((a : A) → o ≡ some a → InLong (time a))
      → AttemptEnds n (
          option_case o
            (pure none)
            (λ a. reset_retries >>= λ _.
              put_mtime (key_of path) (time a) >>= λ _. dump P cache_path >>= λ _. pure (some a))
            c)
  unfolding option_case reset_retries put_mtime dump ◌>>=◌
  AttemptEnds-reply n none time c h sound = h
  AttemptEnds-reply n (some a) time c h sound = AttemptEnds-dump P n a _ _ (record {
    valid = put-IsValid c.ht h.valid (key_of path) (time a) (key_of-InLong path) (sound a refl);
    retries_at = refl;
    interval_at = refl;
  })

  fetch_attempt-IsAttempt : IsStub R → IsAttempt (fetch_attempt P R cache_path path)
  unfolding fetch_attempt rpc ◌>>=◌
  fetch_attempt-IsAttempt stub = record {
    at = λ n c h.
        AttemptEnds-reply n _ (λ (r : FetchReply). r.time) _
          (record { valid = h.valid; retries_at = h.retries_at; interval_at = h.interval_at })
          (stub.fetch_time _ c.net);
  }

  store_attempt-IsAttempt :
      (request : StoreReq) → IsStub R → IsAttempt (store_attempt P R cache_path path request)
  unfolding store_attempt rpc ◌>>=◌
  store_attempt-IsAttempt request stub = record {
    at = λ n c h.
        AttemptEnds-reply n _ (λ (r : StoreRes). r.time) _
          (record { valid = h.valid; retries_at = h.retries_at; interval_at = h.interval_at })
          (stub.store_time request c.net);
  }

  AttemptEnds-attributes :
      (n : ℕ) (o : Option GetattrRes) (c : Client P.State R.Net)
      → HasRetries n c
      → AttemptEnds n (option_case o (pure none) (λ a. reset_retries >>= λ _. pure (some a)) c)
  unfolding option_case reset_retries ◌>>=◌
  AttemptEnds-attributes n none c h = h
  AttemptEnds-attributes n (some a) c h = record {
    valid = h.valid;
    retries_at = refl;
    interval_at = refl;
  }

  getattr_attempt-IsAttempt : IsAttempt (getattr_attempt P R cache_path path)
  unfolding getattr_attempt rpc ◌>>=◌
  getattr_attempt-IsAttempt = record {
    at = λ n c h.
        AttemptEnds-attributes n _ _
          (record { valid = h.valid; retries_at = h.retries_at; interval_at = h.interval_at });
  }

  -- The three loops.
  Keeps-getattr_loop : Keeps 1 (retry_loop max_attempts (getattr_attempt P R cache_path path))
  Keeps-getattr_loop = Keeps-retry_loop _ getattr_attempt-IsAttempt

  Keeps-fetch_loop :
      IsStub R → Keeps 1 (retry_loop max_attempts (fetch_attempt P R cache_path path))
  Keeps-fetch_loop stub = Keeps-retry_loop _ (fetch_attempt-IsAttempt stub)

  Keeps-store_loop :
      (q : StoreReq)
      → IsStub R
      → Keeps 1 (retry_loop max_attempts (store_attempt P R cache_path path q))
  Keeps-store_loop q stub = Keeps-retry_loop _ (store_attempt-IsAttempt q stub)

module _ (P : Posix) (R : Stub) (stub : IsStub R) (cache_path path : Bytes) where
  pub Keeps-afs_fetch : (buf : Bytes) (size : ℤ) → Keeps 1 (afs_fetch P R cache_path path buf size)
  unfolding afs_fetch
  Keeps-afs_fetch buf size = search (keeps_rules, Keeps-fetch_loop) depth 9

  pub Keeps-afs_getattr : (stats : Stat) → Keeps 1 (afs_getattr P R cache_path path stats)
  unfolding afs_getattr
  Keeps-afs_getattr stats = search (keeps_rules, Keeps-getattr_loop) depth 9

  pub Keeps-afs_store : (buf : Bytes) (size : ℤ) → Keeps 1 (afs_store P R cache_path path buf size)
  unfolding afs_store
  Keeps-afs_store buf (negsuc n) = search keeps_rules
  Keeps-afs_store buf (pos size) = search (keeps_rules, Keeps-store_loop) depth 9
