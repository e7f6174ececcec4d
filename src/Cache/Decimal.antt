-- ===== src/Cache/Decimal.antt =====
-- What the C library does for the database file: `%ld` of `fprintf`, and `atol`.
use native.Mathlib.Nat.{pow-suc}
use afs_like_file_system.Common.{
  ℕ, zero, suc, ◌+◌, ◌-◌, ◌*◌, ◌/◌, ◌%◌, ◌^◌, ◌<◌, ◌≡◌, refl, ◌∙◌, [], ◌∷◌, ◌++◌, Bool, true, false,
  ◌&&◌, ◌||◌, ltb, leb, ◌==◌, if◌then◌else◌, ℤ, pos, negsuc, neg_ℕ, All, arith, Bool-cases, inl,
  inr, ==_iff,
}
use afs_like_file_system.Machine.{Bytes, InLong}

-- The decimal digits of `n` in front of `out`; 20 rounds are enough for every `long`.
pub emit : ℕ → ℕ → Bytes → Bytes
emit zero n out = out
emit (suc rounds) n out =
    let rest = emit rounds (n / 10) ((b'0' + n % 10) ∷ out) in if n == 0 then out else rest

abbrev pub long_digits : ℕ
long_digits = 20

-- `%ld`
unfoldable pub format_long : ℤ → Bytes
unfolding emit
format_long (pos zero) = b'0' ∷ []
format_long (pos (suc n)) = emit long_digits (suc n) []
format_long (negsuc n) = b'-' ∷ emit long_digits (suc n) []

abbrev is_digit : ℕ → Bool
is_digit c = leb b'0' c && leb c b'9'

-- `isspace` in the C locale.
abbrev is_space : ℕ → Bool
is_space c = c == 32 || (leb 9 c && leb c 13)

-- The number that the leading digits spell behind `n`.
pub scan_digits : Bytes → ℕ → ℕ
scan_digits [] n = n
scan_digits (c ∷ s) n =
    let rest = scan_digits s (n * 10 + (c - b'0')) in if is_digit c then rest else n

-- Out of the range of `long` the result is its nearest end.
abbrev clamp_pos : ℕ → ℤ
clamp_pos n = if ltb n (2 ^ 63) then pos n else pos (2 ^ 63 - 1)

abbrev clamp_neg : ℕ → ℤ
clamp_neg n = if leb n (2 ^ 63) then neg_ℕ n else negsuc (2 ^ 63 - 1)

signed_number : Bytes → ℤ
unfolding scan_digits
signed_number [] = pos 0
signed_number (c ∷ s) =
    if c == b'-'
    then clamp_neg (scan_digits s 0)
    else if c == b'+'
    then clamp_pos (scan_digits s 0)
    else clamp_pos (scan_digits (c ∷ s) 0)

skip_space : Bytes → Bytes
skip_space [] = []
skip_space (c ∷ s) = let rest = skip_space s in if is_space c then rest else c ∷ s

unfoldable pub atol : Bytes → ℤ
unfolding signed_number skip_space
atol s = signed_number (skip_space s)

-- What `%ld` prints: digits and the sign.
abbrev pub is_number_byte : ℕ → Bool
is_number_byte c = is_digit c || c == b'-'

abbrev IsDigits : Bytes → Type 0
IsDigits = All (λ c. is_digit c ≡ true)

emit-IsDigits : (rounds n : ℕ) (out : Bytes) → IsDigits out → IsDigits (emit rounds n out)
unfolding emit
emit-IsDigits zero n out h = h
emit-IsDigits (suc rounds) n out h = elim (Bool-cases (n == 0)) [
  | inl e ↦ rw e h
  | inr e ↦ rw e (emit-IsDigits rounds (n / 10) ((b'0' + n % 10) ∷ out) (ground arith, h))
]

-- Reading the digits of `n` in front of `out` is reading `out` behind `n`.
scan_digits-emit :
    (rounds n : ℕ) (out : Bytes)
    → n < 10 ^ rounds
    → scan_digits (emit rounds n out) 0 ≡ scan_digits out n
unfolding emit scan_digits
scan_digits-emit zero n out h = let e : n ≡ 0 = omega arith in rw e
scan_digits-emit (suc rounds) n out h = elim (Bool-cases (n == 0)) [
  | inl e ↦ let z : n ≡ 0 = (==_iff n 0).0 e in rw z
  | inr e ↦ rw e (
      scan_digits-emit rounds (n / 10) ((b'0' + n % 10) ∷ out) (omega (arith, pow-suc 10 rounds))
      ∙ ground arith)
]

emit-append :
    (rounds n : ℕ) (out rest : Bytes) → emit rounds n out ++ rest ≡ emit rounds n (out ++ rest)
unfolding emit
emit-append zero n out rest = refl
emit-append (suc rounds) n out rest =
    ground (arith, emit-append rounds (n / 10) ((b'0' + n % 10) ∷ out) rest)

abbrev StartsDigit : Bytes → Type 0
StartsDigit [] = ⊥
StartsDigit (c ∷ s) = is_digit c ≡ true

-- No digit follows at once.
abbrev pub Stops : Bytes → Type 0
Stops [] = Unit
Stops (c ∷ s) = is_digit c ≡ false

emit-StartsDigit : (rounds n : ℕ) (out : Bytes) → StartsDigit out → StartsDigit (emit rounds n out)
unfolding emit
emit-StartsDigit zero n out h = h
emit-StartsDigit (suc rounds) n out h = elim (Bool-cases (n == 0)) [
  | inl e ↦ rw e h
  | inr e ↦ rw e (emit-StartsDigit rounds (n / 10) ((b'0' + n % 10) ∷ out) (ground arith))
]

emit-StartsDigit_pos : (rounds n : ℕ) (out : Bytes) → 0 < n → StartsDigit (emit (suc rounds) n out)
unfolding emit
emit-StartsDigit_pos rounds n out h = elim (Bool-cases (n == 0)) [
  | inl e ↦ let z : n ≡ 0 = (==_iff n 0).0 e in absurd (omega arith)
  | inr e ↦ rw e (emit-StartsDigit rounds (n / 10) ((b'0' + n % 10) ∷ out) (ground arith))
]

atol_digits : (s : Bytes) → StartsDigit s → atol s ≡ clamp_pos (scan_digits s 0)
unfolding atol
atol_digits [] h = absurd h
atol_digits (c ∷ s) h = ground arith

scan_digits-Stops : (s : Bytes) (n : ℕ) → Stops s → scan_digits s n ≡ n
unfolding scan_digits
scan_digits-Stops [] n h = refl
scan_digits-Stops (c ∷ s) n h = rw h

atol-emit :
    (n : ℕ) (rest : Bytes)
    → n < 2 ^ 63
    → Stops rest
    → 0 < n
    → atol (emit long_digits n [] ++ rest) ≡ pos n
atol-emit n rest fits stops positive =
    rw
      (
        emit-append long_digits n [] rest,
        atol_digits (emit long_digits n rest) (emit-StartsDigit_pos 19 n rest positive),
        scan_digits-emit long_digits n rest (omega arith),
        scan_digits-Stops rest n stops,
      )
      (ground arith)

-- `atol` reads back every `long` from its print, whatever follows that is no digit.
pub atol-format_long :
    (z : ℤ) (rest : Bytes) → InLong z → Stops rest → atol (format_long z ++ rest) ≡ z
unfolding format_long
atol-format_long (pos zero) rest fits stops =
    atol_digits (b'0' ∷ rest) refl ∙ (unfold scan_digits in rw (scan_digits-Stops rest 0 stops))
atol-format_long (pos (suc n)) rest fits stops =
    atol-emit (suc n) rest (omega arith) stops (omega arith)
atol-format_long (negsuc n) rest fits stops = rw (emit-append long_digits (suc n) [] rest) (
    unfold atol in
    rw
      (
        scan_digits-emit long_digits (suc n) rest (omega arith),
        scan_digits-Stops rest (suc n) stops,
      )
      (ground arith))

digits-number_bytes : (s : Bytes) → IsDigits s → All (λ c. is_number_byte c ≡ true) s
digits-number_bytes [] h = tt
digits-number_bytes (c ∷ s) h = (rw h.0, digits-number_bytes s h.1)

-- A printed `long` is made of digits and the sign.
pub format_long-number_bytes : (z : ℤ) → All (λ c. is_number_byte c ≡ true) (format_long z)
unfolding format_long
format_long-number_bytes (pos zero) = (refl, tt)
format_long-number_bytes (pos (suc n)) =
    digits-number_bytes _ (emit-IsDigits long_digits (suc n) [] tt)
format_long-number_bytes (negsuc n) =
    (refl, digits-number_bytes _ (emit-IsDigits long_digits (suc n) [] tt))
