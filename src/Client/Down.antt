-- ===== src/Client/Down.antt =====
-- The operations with a loop, when no call of the stub is answered.
use afs_like_file_system.Common.{
  ℕ, zero, suc, ◌≡◌, refl, List, [], ◌∷◌, ◌++◌, Option, none, ℤ, pos, neg_ℕ, ◌∙◌, take, fun_ext,
}
use afs_like_file_system.Machine.{Bytes}
use afs_like_file_system.Cache.Table.{Table}
use afs_like_file_system.Posix.{Posix, Stat}
use afs_like_file_system.Protocol.{PathReq, StoreReq}
use afs_like_file_system.Client.Process.{
  Stub, Client, ok, M, rpc, option_case, ◌>>=◌, pure, bind-ok,
}
use afs_like_file_system.Client.Retry.{retry_req, after_attempt, retry_loop, max_attempts}
use afs_like_file_system.Client.Transfer.{
  fetch_attempt, getattr_attempt, store_attempt, afs_fetch, afs_getattr, afs_store,
}

-- The pauses between six rounds, in milliseconds, the last one first: 20 seconds together.
abbrev pub all_pauses : List ℕ
all_pauses = 6000 ∷ 5000 ∷ 4000 ∷ 3000 ∷ 2000 ∷ []

-- A client whose retry counters are fresh.
abbrev pub fresh_client : {Os Net : Type 0} → Os → Net × ℕ → Table → List ℕ → Client Os Net
fresh_client os (net, e) ht sleeps = record {
  os = os;
  net = net;
  error_number = e;
  ht = ht;
  retries = 1;
  interval = 1000;
  sleeps = sleeps;
}

abbrev pub repeat {ℓ} : {A : Type ℓ} → ℕ → (A → A) → A → A
repeat zero f a = a
repeat (suc n) f a = repeat n f (f a)

-- One call that is not answered: what it does to the connection and to `errno`.
abbrev pub unanswered : {A : Type 0} (R : Stub) → (R.Net → Option A × R.Net) → R.Net × ℕ → R.Net × ℕ
unanswered R f (net, e) = let n = (f net).1 in (n, R.errno_after n e)

-- No call of these three kinds is answered.
pub record IsDown (R : Stub) : Type 0 where
  pub no_fetch : (q : PathReq) (n : R.Net) → (R.fetch q n).0 ≡ none
  pub no_getattr : (q : PathReq) (n : R.Net) → (R.getattr q n).0 ≡ none
  pub no_store : (q : StoreReq) (n : R.Net) → (R.store q n).0 ≡ none

-- The effect of a failed attempt on the client.
abbrev touch :
    {Os A : Type 0} (R : Stub) (f : R.Net → Option A × R.Net) → Client Os R.Net → Client Os R.Net
touch R f c = record c {
  net = (f c.net).1;
  error_number = R.errno_after (f c.net).1 c.error_number;
}

module _ {Os A B : Type 0} (R : Stub) (f : R.Net → Option A × R.Net) where
  failing_attempt :
      (k : Option A → M Os R.Net (Option B))
      → ((n : R.Net) → (f n).0 ≡ none)
      → k none ≡ pure none
      → (rpc R f >>= k) ≡ (λ c. ok none (touch R f c))
  unfolding rpc ◌>>=◌
  failing_attempt k down e = fun_ext λ c. rw (down c.net, e)

  -- Six rounds, five pauses, and no result.
  failing_loop :
      (attempt : M Os R.Net (Option B)) (os : Os) (n : R.Net × ℕ) (ht : Table) (sleeps : List ℕ)
      → attempt ≡ (λ c. ok none (touch R f c))
      → retry_loop max_attempts attempt (fresh_client os n ht sleeps)
        ≡ ok none (fresh_client os (repeat 6 (unanswered R f) n) ht (all_pauses ++ sleeps))
  unfolding retry_loop after_attempt retry_req ◌>>=◌
  failing_loop attempt os n ht sleeps e = rw e

module _ (P : Posix) (R : Stub) (down : IsDown R) (cache_path path : Bytes) where
  getattr_fails :
      getattr_attempt P R cache_path path
      ≡ (λ c. ok none (touch R (R.getattr (record { path = path })) c))
  unfolding getattr_attempt option_case
  getattr_fails = failing_attempt R _ _ (down.no_getattr _) refl

  fetch_fails :
      fetch_attempt P R cache_path path
      ≡ (λ c. ok none (touch R (R.fetch (record { path = path })) c))
  unfolding fetch_attempt option_case
  fetch_fails = failing_attempt R _ _ (down.no_fetch _) refl

  store_fails :
      (request : StoreReq)
      → store_attempt P R cache_path path request ≡ (λ c. ok none (touch R (R.store request) c))
  unfolding store_attempt option_case
  store_fails request = failing_attempt R _ _ (down.no_store request) refl

  -- With no answer from the server, and from fresh counters, the three operations with a loop, for
  -- a size that is not negative, call it exactly six times, pause for 20 seconds in all and come
  -- back with fresh counters, with the cache's files and the table as they were. `afs_getattr` and
  -- `afs_fetch` return the negated `errno` and store nothing through their pointers; `afs_store`
  -- returns 0, as if the file had been stored.
  pub unanswered_operations :
      (os : P.State) (n : R.Net × ℕ) (ht : Table) (sleeps : List ℕ) (stats : Stat) (buf : Bytes)
      (size : ℤ) (data_out : Bytes) (count : ℕ)
      → let request : PathReq = record { path = path } in
        let store : StoreReq = record {
          path = path;
          size = pos count;
          buf = take count data_out;
        } in
        let after = λ (n' : R.Net × ℕ). fresh_client os n' ht (all_pauses ++ sleeps) in
        let g = repeat 6 (unanswered R (R.getattr request)) n in
        let f = repeat 6 (unanswered R (R.fetch request)) n in
        let s = repeat 6 (unanswered R (R.store store)) n in
        (afs_getattr P R cache_path path stats (fresh_client os n ht sleeps)
          ≡ ok (neg_ℕ g.1, stats) (after g))
        × (afs_fetch P R cache_path path buf size (fresh_client os n ht sleeps)
            ≡ ok (neg_ℕ f.1, buf, size) (after f))
        × (afs_store P R cache_path path data_out (pos count) (fresh_client os n ht sleeps)
            ≡ ok (pos 0) (after s))
  unfolding afs_getattr afs_fetch afs_store
  unanswered_operations os n ht sleeps stats buf size data_out count =
      let request : PathReq = record { path = path } in
      let store : StoreReq = record { path = path; size = pos count; buf = take count data_out } in
      (
        bind-ok _ _ _ _ none (failing_loop R (R.getattr request) _ os n ht sleeps getattr_fails)
            ∙ (unfold ◌>>=◌ in refl),
        bind-ok _ _ _ _ none (failing_loop R (R.fetch request) _ os n ht sleeps fetch_fails)
            ∙ (unfold ◌>>=◌ in refl),
        bind-ok _ _ _ _ none (failing_loop R (R.store store) _ os n ht sleeps (store_fails store))
            ∙ (unfold ◌>>=◌ in refl),
      )
