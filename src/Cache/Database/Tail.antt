-- ===== src/Cache/Database/Tail.antt =====
-- A database file with other text behind the table's.
use mathlib.Core.List.{flatten}
use afs_like_file_system.Common.{
  ℕ, ◌≡◌, ◌≢◌, refl, List, [], ◌∷◌, ◌++◌, none, map, All, arith, ◌==◌, Bool-cases, inl, inr,
}
use afs_like_file_system.Machine.{Bytes}
use afs_like_file_system.Cache.Table.{Chain, Table, init_ht}
use afs_like_file_system.Cache.Database.{
  dump_text, get_lines, strdup, strsep, put_tokens, load_line, load_lines, load_text,
}
use afs_like_file_system.Cache.Database.Lines.{load_line-tokens}
use afs_like_file_system.Cache.Database.RoundTrip.{line_text, get_lines-dump_text}

abbrev pub NoComma : ℕ → Type 0
NoComma c = c ≢ b','

-- The first line of a text without commas has none.
first_line :
    (c : ℕ) (s : Bytes)
    → All NoComma (c ∷ s)
    → (line : Bytes) × (lines : List Bytes) × (get_lines (c ∷ s) ≡ line ∷ lines) × All NoComma line
unfolding get_lines
first_line c [] h = elim (Bool-cases (c == b'\n')) [
  | inl e ↦ (c ∷ [], [], rw e, (h.0, tt))
  | inr e ↦ (c ∷ [], [], rw e, (h.0, tt))
]
first_line c (b ∷ s) h =
    let (line, lines, got, none_in) = first_line b s h.1 in
    elim (Bool-cases (c == b'\n')) [
      | inl e ↦ (c ∷ [], get_lines (b ∷ s), rw e, (h.0, tt))
      | inr e ↦ (c ∷ line, lines, rw (e, got), (h.0, none_in))
    ]

strdup-NoComma : (s : Bytes) → All NoComma s → All NoComma (strdup s)
unfolding strdup
strdup-NoComma [] h = tt
strdup-NoComma (c ∷ s) h = elim (Bool-cases (c == 0)) [
  | inl e ↦ rw e tt
  | inr e ↦ rw e (h.0, strdup-NoComma s h.1)
]

strsep-NoComma : (s : Bytes) → All NoComma s → strsep s ≡ (s, none)
unfolding strsep
strsep-NoComma [] h = refl
strsep-NoComma (c ∷ s) h = rw (strsep-NoComma s h.1) (ground (arith, h.0))

load_line-NoComma : (line : Bytes) (ht : Table) → All NoComma line → load_line line ht ≡ none
unfolding load_line put_tokens
load_line-NoComma line ht h = rw (strsep-NoComma (strdup line) (strdup-NoComma line h))

load_lines-NoComma :
    (c : ℕ) (s : Bytes) (ht : Table)
    → All NoComma (c ∷ s)
    → load_lines (get_lines (c ∷ s)) ht ≡ none
unfolding load_lines
load_lines-NoComma c s ht h =
    let (line, lines, got, none_in) = first_line c s h in
    rw (got, load_line-NoComma line ht none_in, load_lines)

load_lines_behind :
    (es : Chain) (more : List Bytes) (ht : Table)
    → ((ht' : Table) → load_lines more ht' ≡ none)
    → load_lines (map line_text es ++ more) ht ≡ none
unfolding load_lines
load_lines_behind [] more ht h = h ht
load_lines_behind (n ∷ es) more ht h =
    rw (load_line-tokens n ht, load_lines) (load_lines_behind es more _ h)

-- A text behind that of a table, not empty and without a comma, cannot be read: the second token of
-- its first line is a null pointer.
pub load_text-NoComma :
    (ht : Table) (c : ℕ) (s : Bytes)
    → All NoComma (c ∷ s)
    → load_text (dump_text ht ++ (c ∷ s)) init_ht ≡ none
unfolding load_text
load_text-NoComma ht c s h =
    rw (get_lines-dump_text ht (c ∷ s)) (
      load_lines_behind (flatten ht) (get_lines (c ∷ s)) init_ht
        λ ht'. load_lines-NoComma c s ht' h)
