-- ===== src/Machine.antt =====
-- The C types that the program converts between: a signed value is a ℤ, an unsigned one a ℕ, and
-- a conversion wraps modulo the width of its target. Bytes are numbers below 256, and a C string is
-- the list of its bytes without the final zero.
use afs_like_file_system.Common.{
  ℕ, ◌-◌, ◌^◌, ◌%◌, ◌<◌, ◌≤◌, ◌≡◌, List, ◌++◌, arith, ltb, ℤ, pos, negsuc, ◌≤ℤ◌, length, drop,
  length-append, length-drop, if◌then◌else◌,
}

abbrev pub Bytes : Type 0
Bytes = List ℕ

-- (uint32_t)n, (unsigned int)n
abbrev pub to_u32 : ℕ → ℕ
to_u32 n = n % 2 ^ 32

-- The signed reading of a bit pattern of 32 bits: (int)n.
abbrev pub to_i32 : ℕ → ℤ
to_i32 n = let w = n % 2 ^ 32 in if ltb w (2 ^ 31) then pos w else negsuc (2 ^ 32 - w - 1)

-- The signed reading of a bit pattern of 64 bits: (long)n.
abbrev pub to_long : ℕ → ℤ
to_long n = let w = n % 2 ^ 64 in if ltb w (2 ^ 63) then pos w else negsuc (2 ^ 64 - w - 1)

-- (size_t)z and (unsigned int)z of a signed z.
abbrev pub to_size : ℤ → ℕ
to_size (pos n) = n % 2 ^ 64
to_size (negsuc n) = 2 ^ 64 - 1 - n % 2 ^ 64

abbrev pub ℤ_to_u32 : ℤ → ℕ
ℤ_to_u32 (pos n) = n % 2 ^ 32
ℤ_to_u32 (negsuc n) = 2 ^ 32 - 1 - n % 2 ^ 32

-- (int)z of a wider signed z.
abbrev pub ℤ_to_i32 : ℤ → ℤ
ℤ_to_i32 z = to_i32 (ℤ_to_u32 z)

-- The range of `long`.
abbrev pub InLong : ℤ → Type 0
InLong z = (negsuc (2 ^ 63 - 1) ≤ℤ z) × (z ≤ℤ pos (2 ^ 63 - 1))

pub to_long-InLong : (n : ℕ) → InLong (to_long n)
to_long-InLong n = ground arith

-- Distinct bit patterns are distinct `long`s.
pub to_long-injective : (m n : ℕ) → m < 2 ^ 64 → n < 2 ^ 64 → to_long m ≡ to_long n → m ≡ n
to_long-injective m n hm hn e = ground arith

-- A conversion to `int` is exact below 2 ^ 31, and gets back to the same size.
pub to_i32_fits : (n : ℕ) → n < 2 ^ 31 → to_i32 n ≡ pos n
to_i32_fits n h = ground arith

pub to_size-to_i32 : (n : ℕ) → n < 2 ^ 31 → to_size (to_i32 n) ≡ n
to_size-to_i32 n h = ground arith

-- What a buffer holds after `got` was read to its start: the rest keeps what was there.
abbrev pub fill : Bytes → Bytes → Bytes
fill got memory = got ++ drop (length got) memory

pub length-fill :
    (got memory : Bytes) → length got ≤ length memory → length (fill got memory) ≡ length memory
length-fill got memory h =
    omega (arith, length-append got (drop (length got) memory), length-drop (length got) memory)
