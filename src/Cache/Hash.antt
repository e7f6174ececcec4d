-- ===== src/Cache/Hash.antt =====
-- `hashfilename` (djb2 over 64 bits) and `hashtableindex`. `char` is signed, as on x86-64.
pub mod Polynomial
use afs_like_file_system.Common.{
  ℕ, ◌+◌, ◌-◌, ◌*◌, ◌/◌, ◌%◌, ◌^◌, ◌<◌, ◌≡◌, refl, [], ◌∷◌, ◌++◌, arith, ltb, bit_xor, ℤ,
  if◌then◌else◌,
}
use afs_like_file_system.Machine.{Bytes, ℤ_to_u32}

abbrev pub htablesize : ℕ
htablesize = 100

-- `int c = *str`, as the summand that it is in `unsigned long` arithmetic.
abbrev pub char_value : ℕ → ℕ
char_value b = if ltb b 128 then b else 2 ^ 64 - 256 + b

-- `hash = ((hash << 5) + hash) + c`
abbrev pub hash_step : ℕ → ℕ → ℕ
hash_step hash b = ((hash * 2 ^ 5 % 2 ^ 64 + hash) % 2 ^ 64 + char_value b) % 2 ^ 64

pub hash_loop : ℕ → Bytes → ℕ
hash_loop hash [] = hash
hash_loop hash (b ∷ str) = hash_loop (hash_step hash b) str

unfoldable pub hashfilename : Bytes → ℕ
unfolding hash_loop
hashfilename str = hash_loop 5381 str

-- One round of mixing, `((x >> 16) ^ x) * 0x45d9f3b`.
mix : ℕ → ℕ
mix x = bit_xor (x / 2 ^ 16) x * 0x45d9f3b % 2 ^ 32

unfoldable pub hashtableindex : ℕ → ℕ
unfolding mix
hashtableindex x = let x' = mix (mix x) in bit_xor (x' / 2 ^ 16) x' % htablesize

-- The slot of a `long` key: the conversion to `unsigned int` keeps its low 32 bits.
unfoldable pub index_of_key : ℤ → ℕ
unfolding hashtableindex
index_of_key key = hashtableindex (ℤ_to_u32 key)

pub index_of_key-lt : (key : ℤ) → index_of_key key < htablesize
unfolding index_of_key
index_of_key-lt key = omega arith

hash_loop-lt : (str : Bytes) (hash : ℕ) → hash < 2 ^ 64 → hash_loop hash str < 2 ^ 64
unfolding hash_loop
hash_loop-lt [] hash h = h
hash_loop-lt (b ∷ str) hash h = hash_loop-lt str (hash_step hash b) (omega arith)

pub hashfilename-lt : (str : Bytes) → hashfilename str < 2 ^ 64
unfolding hashfilename
hashfilename-lt str = hash_loop-lt str 5381 (omega arith)

hash_loop-append :
    (s t : Bytes) (hash : ℕ) → hash_loop hash (s ++ t) ≡ hash_loop (hash_loop hash s) t
unfolding hash_loop
hash_loop-append [] t hash = refl
hash_loop-append (b ∷ s) t hash = hash_loop-append s t (hash_step hash b)

-- Of two bytes below 128, one more on the first makes up for 33 less on the second.
hash_pair :
    (hash a b : ℕ)
    → a + 1 < 128
    → b + 33 < 128
    → hash_step (hash_step hash a) (b + 33) ≡ hash_step (hash_step hash (a + 1)) b
hash_pair hash a b ha hb = ground arith

-- Paths that differ only in two neighbouring ASCII characters, of which the first is one more and
-- the second 33 less, have the same hash, whatever stands before and behind them.
pub hashfilename_collides :
    (prefix suffix : Bytes) (a b : ℕ)
    → a + 1 < 128
    → b + 33 < 128
    → hashfilename (prefix ++ (a ∷ (b + 33) ∷ suffix))
      ≡ hashfilename (prefix ++ ((a + 1) ∷ b ∷ suffix))
unfolding hashfilename hash_loop
hashfilename_collides prefix suffix a b ha hb = rw (
  hash_loop-append prefix (a ∷ (b + 33) ∷ suffix) 5381,
  hash_loop-append prefix ((a + 1) ∷ b ∷ suffix) 5381,
  hash_pair (hash_loop 5381 prefix) a b ha hb,
)
