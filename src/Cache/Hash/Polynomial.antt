-- ===== src/Cache/Hash/Polynomial.antt =====
-- The hash of a path as a number, without the loop.
use native.Mathlib.Nat.{add-mul, mul_assoc, pow-succ'}
use afs_like_file_system.Common.{
  ℕ, ◌+◌, ◌*◌, ◌%◌, ◌^◌, ◌/◌, suc, ◌<◌, ◌≡◌, ◌∙◌, ap, sym, [], ◌∷◌, arith, length, ◌-◌, leb,
  if◌then◌else◌,
}
use afs_like_file_system.Machine.{Bytes}
use afs_like_file_system.Cache.Hash.{char_value, hash_step, hash_loop, hashfilename}

-- A byte as a signed digit modulo 2 ^ 64: from 128 on it counts 256 less.
unfoldable pub signed_digit : ℕ → ℕ
signed_digit b = if leb 128 b then (2 ^ 64 + b) - 256 else b

-- The bytes as the signed digits of a number in base 33.
unfoldable pub weighted : Bytes → ℕ
weighted [] = 0
weighted (b ∷ str) = signed_digit b * 33 ^ length str + weighted str

char_value-signed_digit : (b : ℕ) → char_value b ≡ signed_digit b
unfolding signed_digit
char_value-signed_digit b = ground arith

hash_step_mod : (hash b : ℕ) → hash_step hash b ≡ (hash * 33 + char_value b) % 2 ^ 64
hash_step_mod hash b = omega arith

-- Reducing the hash early makes no difference.
reduce_early : (x w c : ℕ) → (x % 2 ^ 64 * w + c) % 2 ^ 64 ≡ (x * w + c) % 2 ^ 64
reduce_early x w c =
    let whole : x ≡ x % 2 ^ 64 + 2 ^ 64 * (x / 2 ^ 64) = omega arith in
    let spread : x * w ≡ x % 2 ^ 64 * w + 2 ^ 64 * (x / 2 ^ 64 * w) =
      ap (λ (t : ℕ). t * w) whole
      ∙ add-mul (x % 2 ^ 64) (2 ^ 64 * (x / 2 ^ 64)) w
      ∙ ap (λ (t : ℕ). x % 2 ^ 64 * w + t) (mul_assoc (2 ^ 64) (x / 2 ^ 64) w) in
    omega (arith, spread)

step_weight :
    (hash b n w : ℕ)
    → (hash_step hash b * 33 ^ n + w) % 2 ^ 64
      ≡ (hash * 33 ^ suc n + (char_value b * 33 ^ n + w)) % 2 ^ 64
step_weight hash b n w =
    let spread : (hash * 33 + char_value b) * 33 ^ n ≡ hash * 33 ^ suc n + char_value b * 33 ^ n =
      add-mul (hash * 33) (char_value b) (33 ^ n)
      ∙ ap (λ (t : ℕ). t + char_value b * 33 ^ n)
          (mul_assoc hash 33 (33 ^ n) ∙ ap (λ (t : ℕ). hash * t) (sym (pow-succ' 33 n))) in
    ap (λ (t : ℕ). (t * 33 ^ n + w) % 2 ^ 64) (hash_step_mod hash b)
    ∙ reduce_early (hash * 33 + char_value b) (33 ^ n) w
    ∙ ap (λ (t : ℕ). (t + w) % 2 ^ 64) spread
    ∙ omega arith

hash_loop-weighted :
    (str : Bytes) (hash : ℕ)
    → hash < 2 ^ 64
    → hash_loop hash str ≡ (hash * 33 ^ length str + weighted str) % 2 ^ 64
unfolding hash_loop weighted
hash_loop-weighted [] hash h = omega arith
hash_loop-weighted (b ∷ str) hash h =
    hash_loop-weighted str (hash_step hash b) (omega arith)
    ∙ step_weight hash b (length str) (weighted str)
    ∙ ap (λ c. (hash * 33 ^ suc (length str) + (c * 33 ^ length str + weighted str)) % 2 ^ 64)
        (char_value-signed_digit b)

-- The hash of a path is the number that its characters, which are signed, spell in base 33 behind
-- 5381, modulo 2 ^ 64: the loop's early reductions lose nothing.
pub hashfilename-weighted :
    (str : Bytes) → hashfilename str ≡ (5381 * 33 ^ length str + weighted str) % 2 ^ 64
unfolding hashfilename
hashfilename-weighted str = hash_loop-weighted str 5381 (omega arith)
