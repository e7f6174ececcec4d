-- ===== src/Client/Retry/Laws.antt =====
-- How often the loops call the stub, and how long they wait.
use native.Mathlib.Decide.{dec_le}
use afs_like_file_system.Common.{
  ℕ, zero, suc, ◌+◌, ◌<◌, ◌≤◌, ◌≡◌, refl, ap, Option, none, some, true, false, ltb, arith,
}
use afs_like_file_system.Client.Process.{Client, Outcome, ok, crash, spent, M, ◌>>=◌}
use afs_like_file_system.Client.Retry.{retry_req, after_attempt, retry_loop, max_attempts}
use afs_like_file_system.Client.Keeps.{HasRetries, IsReady, Ends, Keeps}

module _ {Os Net A : Type 0} where
  -- An attempt that succeeds resets the members; one that fails leaves them alone.
  abbrev pub AttemptEnds : ℕ → Outcome (Client Os Net) (Option A) → Type 0
  AttemptEnds n (ok none c) = HasRetries n c
  AttemptEnds n (ok (some a) c) = IsReady c
  AttemptEnds n crash = Unit
  AttemptEnds n spent = ⊥

  pub record IsAttempt (attempt : M Os Net (Option A)) : Type 0 where
    pub at : (n : ℕ) (c : Client Os Net) → HasRetries n c → AttemptEnds n (attempt c)

  retry_again :
      (n : ℕ) (rest : M Os Net (Option A)) (c : Client Os Net)
      → HasRetries n c
      → n ≤ 5
      → ((c' : Client Os Net) → HasRetries (n + 1) c' → Ends IsReady (rest c'))
      → Ends IsReady (after_attempt rest none c)
  unfolding after_attempt retry_req ◌>>=◌
  retry_again n rest c h le k =
      let e : ltb 5 c.retries ≡ false = ground arith in
      rw (e, Ends)
        (k _ (record {
          valid = h.valid;
          retries_at = ap (λ (r : ℕ). r + 1) h.retries_at;
          interval_at = h.interval_at;
        }))

  retry_over :
      (n : ℕ) (rest : M Os Net (Option A)) (c : Client Os Net)
      → HasRetries n c
      → 5 < n
      → Ends IsReady (after_attempt rest none c)
  unfolding after_attempt retry_req ◌>>=◌
  retry_over n rest c h lt =
      let e : ltb 5 c.retries ≡ true = ground arith in
      rw (e, Ends) (record { valid = h.valid; retries_at = refl; interval_at = refl })

  loop_round :
      (n rounds : ℕ) (rest : M Os Net (Option A)) (r : Outcome (Client Os Net) (Option A))
      → AttemptEnds n r
      → ((c : Client Os Net) → n ≤ 5 → HasRetries (n + 1) c → Ends IsReady (rest c))
      → Ends IsReady (elim r [ ok a c ↦ after_attempt rest a c | crash ↦ crash | spent ↦ spent ])
  unfolding after_attempt retry_req ◌>>=◌
  loop_round n rounds rest (ok none c) h k = elim (dec_le n 5) [
    | yes p ↦ retry_again n rest c h p (λ c'. k c' p)
    | no p ↦ retry_over n rest c h (omega arith)
  ]
  loop_round n rounds rest (ok (some a) c) h k = h
  loop_round n rounds rest crash h k = tt
  loop_round n rounds rest spent h k = absurd h

  -- From `retries = n` the loop ends within `7 - n` rounds, and leaves the members as they are
  -- between two operations.
  pub retry_loop-Ends :
      (rounds n : ℕ) (attempt : M Os Net (Option A)) (c : Client Os Net)
      → IsAttempt attempt
      → 0 < rounds
      → 7 ≤ n + rounds
      → HasRetries n c
      → Ends IsReady (retry_loop rounds attempt c)
  unfolding retry_loop ◌>>=◌
  retry_loop-Ends zero n attempt c good pos enough h = absurd (omega arith)
  retry_loop-Ends (suc rounds) n attempt c good pos enough h =
      loop_round n rounds (retry_loop rounds attempt) (attempt c) (good.at n c h)
        (λ c' le h'. retry_loop-Ends rounds (n + 1) attempt c' good (omega arith) (omega arith) h')

  -- A loop of an operation, from a client between two operations.
  pub Keeps-retry_loop :
      (attempt : M Os Net (Option A))
      → IsAttempt attempt
      → Keeps 1 (retry_loop max_attempts attempt)
  Keeps-retry_loop attempt good = record {
    at = λ c h. retry_loop-Ends max_attempts 1 attempt c good (omega arith) (omega arith) h;
  }
