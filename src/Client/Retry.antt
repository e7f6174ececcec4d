-- ===== src/Client/Retry.antt =====
-- `retry_req` and the `do … while (retry_req(is_ok))` loops around the calls of the stub.
pub mod Laws
use afs_like_file_system.Common.{
  ℕ, zero, suc, ◌+◌, ◌*◌, Bool, true, false, Option, none, some, ◌||◌, ◌∷◌, ltb, if◌then◌else◌,
}
use afs_like_file_system.Client.Process.{Client, M, ok, spent, pure, option_case, ◌>>=◌, ◌>>◌}

module _ {Os Net : Type 0} where
  -- `retries = 1; interval = 1000;`
  unfoldable pub reset_retries : M Os Net (Unit {0})
  reset_retries c = ok tt (record c { retries = 1; interval = 1000 })

  unfoldable pub retry_req : Bool → M Os Net Bool
  retry_req is_ok c =
      if is_ok || ltb 5 c.retries
      then ok false (record c { retries = 1; interval = 1000 })
      else let retries = c.retries + 1 in
        ok true (record c { retries = retries; sleeps = (c.interval * retries) ∷ c.sleeps })

  -- The test at the end of a round: `rest` is the loop from its next round on.
  unfoldable pub after_attempt : {A : Type 0} → M Os Net (Option A) → Option A → M Os Net (Option A)
  after_attempt rest result =
      option_case result (do again ← retry_req false; if again then rest else pure none)
        λ a. pure (some a)

  -- The loop over an attempt that returns from the function with `some`.
  unfoldable pub retry_loop : {A : Type 0} → ℕ → M Os Net (Option A) → M Os Net (Option A)
  retry_loop zero attempt = λ c. spent
  retry_loop (suc rounds) attempt = do
    result ← attempt
    after_attempt (retry_loop rounds attempt) result

-- The fuel of the loops: `retries` goes from 1 to 6 and the test fails past 5.
abbrev pub max_attempts : ℕ
max_attempts = 6
