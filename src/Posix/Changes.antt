-- ===== src/Posix/Changes.antt =====
-- What a sequence of calls does to the files by their paths: nothing, a file that is put, a path
-- that is dropped.
use afs_like_file_system.Common.{
  ℕ, ◌≡◌, ◌∙◌, refl, sym, ap, Bool, true, false, ◌==◌, ==_iff, Option, none, some, ℤ, Bool-cases,
  ◌⊎◌, inl, inr, if◌then◌else◌, arith,
}
use afs_like_file_system.Machine.{Bytes}
use afs_like_file_system.Posix.Laws.{Files, same_bytes, same_bytes_iff}

abbrev pub text_of : (ℕ → Bytes) → Option ℕ → Option Bytes
text_of content none = none
text_of content (some i) = some (content i)

-- The bytes under a path.
abbrev pub text_at : Files → Bytes → Option Bytes
text_at f p = text_of f.content (f.entry p)

-- A function from paths, changed at one path.
abbrev pub update : (Bytes → Option Bytes) → Bytes → Option Bytes → Bytes → Option Bytes
update m p v q = if same_bytes q p then v else m q

-- No file has two paths.
abbrev pub Alone : Files → Type 0
Alone f = (p q : Bytes) (i : ℕ) → f.entry p ≡ some i → f.entry q ≡ some i → p ≡ q

abbrev pub SameOpened : Files → Files → Type 0
SameOpened f f' = (fd : ℤ) → f'.opened fd ≡ f.opened fd

pub record Unchanged (f f' : Files) : Type 0 where
  pub places : (q : Bytes) → f'.place q ≡ f.place q
  pub entries : (q : Bytes) → f'.entry q ≡ f.entry q
  pub contents : (k : ℕ) → f'.content k ≡ f.content k

-- The path has file number `i` with the bytes `b`, and no other path had that number.
pub record Puts (f f' : Files) (p : Bytes) (i : ℕ) (b : Bytes) : Type 0 where
  pub places : (q : Bytes) → f'.place q ≡ f.place q
  pub entries : (q : Bytes) → f'.entry q ≡ (if same_bytes q p then some i else f.entry q)
  pub contents : (k : ℕ) → (k == i) ≡ false → f'.content k ≡ f.content k
  pub text : f'.content i ≡ b
  pub own : (q : Bytes) → f.entry q ≡ some i → q ≡ p

pub record Drops (f f' : Files) (p : Bytes) : Type 0 where
  pub places : (q : Bytes) → f'.place q ≡ f.place q
  pub entries : (q : Bytes) → f'.entry q ≡ (if same_bytes q p then none else f.entry q)
  pub contents : (k : ℕ) → f'.content k ≡ f.content k

module _ (f f' : Files) where
  pub text_at-Unchanged : Unchanged f f' → (q : Bytes) → text_at f' q ≡ text_at f q
  text_at-Unchanged same q = by_entry (f.entry q) refl
    where
      by_entry : (e : Option ℕ) → f.entry q ≡ e → text_at f' q ≡ text_at f q
      by_entry none e = rw (same.entries q, e)
      by_entry (some i) e = rw (same.entries q, e, same.contents i)

  pub Alone-Unchanged : Unchanged f f' → Alone f → Alone f'
  Alone-Unchanged same alone p q i ep eq =
      alone p q i (sym (same.entries p) ∙ ep) (sym (same.entries q) ∙ eq)

  module _ (p : Bytes) where
    pub text_at-Drops : Drops f f' p → (q : Bytes) → text_at f' q ≡ update (text_at f) p none q
    text_at-Drops drops q = elim (Bool-cases (same_bytes q p)) [
      | inl here ↦ rw (drops.entries q, here)
      | inr other ↦ by_entry (f.entry q) refl other
    ]
      where
        by_entry :
            (e : Option ℕ)
            → f.entry q ≡ e
            → same_bytes q p ≡ false
            → text_at f' q ≡ update (text_at f) p none q
        by_entry none e other = rw (drops.entries q, other, e)
        by_entry (some i) e other = rw (drops.entries q, other, e, drops.contents i)

    pub Alone-Drops : Drops f f' p → Alone f → Alone f'
    Alone-Drops drops alone a b i ea eb = alone a b i (kept a ea) (kept b eb)
      where
        kept : (q : Bytes) → f'.entry q ≡ some i → f.entry q ≡ some i
        kept q e = ground (arith, drops.entries q)

    module _ (i : ℕ) (b : Bytes) (puts : Puts f f' p i b) where
      other_number :
          (q : Bytes) (k : ℕ) → same_bytes q p ≡ false → f.entry q ≡ some k → (k == i) ≡ false
      other_number q k other e = elim (Bool-cases (k == i)) [
        | inl same ↦
            let here : q ≡ p = puts.own q (e ∙ ap some ((==_iff k i).0 same)) in
            absurd (clash ((same_bytes_iff q p).1 here) other)
        | inr ne ↦ ne
      ]
        where
          clash : {x : Bool} → x ≡ true → x ≡ false → ⊥
          clash h h' = cc

      pub text_at-Puts : (q : Bytes) → text_at f' q ≡ update (text_at f) p (some b) q
      text_at-Puts q = elim (Bool-cases (same_bytes q p)) [
        | inl here ↦ rw (puts.entries q, here, puts.text)
        | inr other ↦ by_entry (f.entry q) refl other
      ]
        where
          by_entry :
              (e : Option ℕ)
              → f.entry q ≡ e
              → same_bytes q p ≡ false
              → text_at f' q ≡ update (text_at f) p (some b) q
          by_entry none e other = rw (puts.entries q, other, e)
          by_entry (some k) e other =
              rw (puts.entries q, other, e, puts.contents k (other_number q k other e))

      at_path : (q : Bytes) → same_bytes q p ≡ true → f'.entry q ≡ some i
      at_path q here = puts.entries q ∙ rw here

      elsewhere : (q : Bytes) → same_bytes q p ≡ false → f'.entry q ≡ f.entry q
      elsewhere q other = puts.entries q ∙ rw other

      some_injective : {k l : ℕ} → some k ≡ some l → k ≡ l
      some_injective e = cc

      -- A path that has the number `k` afterwards is `p`, and the number that of `p`, or had it
      -- before.
      was_at :
          (q : Bytes) (k : ℕ) → f'.entry q ≡ some k → ((q ≡ p) × (i ≡ k)) ⊎ (f.entry q ≡ some k)
      was_at q k e = elim (Bool-cases (same_bytes q p)) [
        | inl here ↦ inl ((same_bytes_iff q p).0 here, some_injective (sym (at_path q here) ∙ e))
        | inr other ↦ inr (sym (elsewhere q other) ∙ e)
      ]

      pub Alone-Puts : Alone f → Alone f'
      Alone-Puts alone a c k ea ec = by_place (was_at a k ea) (was_at c k ec)
        where
          by_place :
              ((a ≡ p) × (i ≡ k)) ⊎ (f.entry a ≡ some k)
              → ((c ≡ p) × (i ≡ k)) ⊎ (f.entry c ≡ some k)
              → a ≡ c
          by_place (inl (x, y)) (inl (x', y')) = x ∙ sym x'
          by_place (inl (x, y)) (inr h) = x ∙ sym (puts.own c (h ∙ ap some (sym y)))
          by_place (inr h) (inl (x, y)) = puts.own a (h ∙ ap some (sym y)) ∙ sym x
          by_place (inr h) (inr h') = alone a c k h h'
