-- ===== src/Cache/Database/Lines.antt =====
-- One printed record, read back.
use afs_like_file_system.Common.{
  ℕ, sym, ◌≡◌, ◌≢◌, ◌∙◌, refl, ap, List, [], ◌∷◌, ◌++◌, none, some, All, arith, ℤ, true,
  append_assoc, append-nil,
}
use afs_like_file_system.Machine.{Bytes, InLong}
use afs_like_file_system.Cache.Table.{HashNode, Table, put}
use afs_like_file_system.Cache.Valid.{LongNode}
use afs_like_file_system.Cache.Decimal.{
  format_long, atol, atol-format_long, is_number_byte, format_long-number_bytes,
}
use afs_like_file_system.Cache.Database.{
  record_text, get_lines, strdup, strsep, free_rest, put_tokens, load_line,
}

-- No newline, no zero and no comma.
abbrev pub IsPlain : ℕ → Type 0
IsPlain c = (c ≢ b'\n') × (c ≢ 0) × (c ≢ b',')

-- No newline and no zero.
abbrev pub InLine : ℕ → Type 0
InLine c = (c ≢ b'\n') × (c ≢ 0)

pub All-append {ℓ κ} :
    {A : Type ℓ} (P : A → Type κ) (xs ys : List A) → All P xs → All P ys → All P (xs ++ ys)
All-append P [] ys hx hy = hy
All-append P (x ∷ xs) ys hx hy = (hx.0, All-append P xs ys hx.1 hy)

All-weaken {ℓ κ} :
    {A : Type ℓ} (P Q : A → Type κ) (xs : List A) → ((x : A) → P x → Q x) → All P xs → All Q xs
All-weaken P Q [] f h = tt
All-weaken P Q (x ∷ xs) f h = (f x h.0, All-weaken P Q xs f h.1)

format_long-IsPlain : (z : ℤ) → All IsPlain (format_long z)
format_long-IsPlain z =
    All-weaken (λ c. is_number_byte c ≡ true) IsPlain (format_long z)
      (λ c h. (λ e. ground arith, λ e. ground arith, λ e. ground arith))
      (format_long-number_bytes z)

pub record_text-InLine : (n : HashNode) → All InLine (record_text n)
unfolding record_text
record_text-InLine n =
    let plain = λ (z : ℤ).
      All-weaken IsPlain InLine (format_long z) (λ c h. (h.0, h.1)) (format_long-IsPlain z) in
    All-append InLine (format_long n.key) (b',' ∷ format_long n.value) (plain n.key)
      ((ground arith, ground arith), plain n.value)

-- `getline` cuts behind the first newline.
pub get_lines-append :
    (s rest : Bytes)
    → All InLine s
    → get_lines (s ++ (b'\n' ∷ rest)) ≡ (s ++ (b'\n' ∷ [])) ∷ get_lines rest
unfolding get_lines
get_lines-append [] rest h = refl
get_lines-append (c ∷ s) rest h = rw (get_lines-append s rest h.1) (ground (arith, h.0.0))

strdup-InLine : (s : Bytes) → All InLine s → strdup (s ++ (b'\n' ∷ [])) ≡ s ++ (b'\n' ∷ [])
unfolding strdup
strdup-InLine [] h = refl
strdup-InLine (c ∷ s) h = rw (strdup-InLine s h.1) (ground (arith, h.0.1))

strsep_comma : (s rest : Bytes) → All IsPlain s → strsep (s ++ (b',' ∷ rest)) ≡ (s, some rest)
unfolding strsep
strsep_comma [] rest h = refl
strsep_comma (c ∷ s) rest h = rw (strsep_comma s rest h.1) (ground (arith, h.0.2))

strsep_end : (s : Bytes) → All IsPlain s → strsep (s ++ (b'\n' ∷ [])) ≡ (s ++ (b'\n' ∷ []), none)
unfolding strsep
strsep_end [] h = refl
strsep_end (c ∷ s) h = rw (strsep_end s h.1) (ground (arith, h.0.2))

atol-format_long_alone : (z : ℤ) → InLong z → atol (format_long z) ≡ z
atol-format_long_alone z h = ap atol (sym (append-nil (format_long z))) ∙ atol-format_long z [] h tt

-- The line of a node, whatever its numbers, is read back as two tokens.
pub load_line-tokens :
    (n : HashNode) (ht : Table)
    → load_line (record_text n ++ (b'\n' ∷ [])) ht
      ≡ some (put ht (atol (format_long n.key)) (atol (format_long n.value ++ (b'\n' ∷ []))))
unfolding load_line record_text put_tokens free_rest
load_line-tokens n ht =
    rw
      (
        strdup-InLine (record_text n) (record_text-InLine n),
        append_assoc (format_long n.key) (b',' ∷ format_long n.value) (b'\n' ∷ []),
        strsep_comma (format_long n.key) (format_long n.value ++ (b'\n' ∷ []))
            (format_long-IsPlain n.key),
      )
      (rw (strsep_end (format_long n.value) (format_long-IsPlain n.value)))

-- The line of a node, read back, puts the node's value under its key.
pub load_line-record_text :
    (n : HashNode) (ht : Table)
    → LongNode n
    → load_line (record_text n ++ (b'\n' ∷ [])) ht ≡ some (put ht n.key n.value)
load_line-record_text n ht (hk, hv) =
    load_line-tokens n ht
    ∙ rw (atol-format_long n.value (b'\n' ∷ []) hv refl, atol-format_long_alone n.key hk)
