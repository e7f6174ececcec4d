-- ===== src/Cache/Valid.antt =====
-- The table as a finite map from keys to values, and the invariant of its layout.
use afs_like_file_system.Common.{
  ℕ, ◌+◌, ◌≤◌, ◌<◌, ◌≡◌, ◌≢◌, refl, List, [], ◌∷◌, Option, none, some, ℤ, ◌==ℤ◌, ==ℤ_iff, ==ℤ_refl,
  length, get_or, set, All, arith, if◌then◌else◌, zero, suc, Bool-cases, inl, inr,
}
use afs_like_file_system.Machine.{InLong}
use afs_like_file_system.Cache.Hash.{htablesize, index_of_key}
use afs_like_file_system.Cache.Table.{HashNode, Chain, Table, not_found, scan_chain, put_chain, put}

-- The value under a key, if the chain has the key.
unfoldable pub find : ℤ → Chain → Option ℤ
find q [] = none
find q (n ∷ c) = if q ==ℤ n.key then some n.value else find q c

unfoldable pub count : ℤ → Chain → ℕ
count q [] = 0
count q (n ∷ c) = (if q ==ℤ n.key then 1 else 0) + count q c

-- The map that the table stands for.
unfoldable pub view : Table → ℤ → Option ℤ
unfolding find
view ht q = find q (get_or ht (index_of_key q) [])

abbrev pub or_not_found : Option ℤ → ℤ
or_not_found none = not_found
or_not_found (some v) = v

abbrev pub LongNode : HashNode → Type 0
LongNode n = InLong n.key × InLong n.value

-- `wide`: the array has its length. `placed`: a key stands at most once, in the chain of its slot.
-- `longs`: keys and values are in the range of `long`.
pub record IsValid (ht : Table) : Type 0 where
  pub wide : length ht ≡ htablesize
  pub once : (q : ℤ) → count q (get_or ht (index_of_key q) []) ≤ 1
  pub placed : (q : ℤ) (i : ℕ) → i ≢ index_of_key q → count q (get_or ht i []) ≡ 0
  pub longs : All (All LongNode) ht

module _ {ℓ} {A : Type ℓ} where
  pub get_or-set_self :
      (xs : List A) (i : ℕ) (v d : A) → i < length xs → get_or (set xs i v) i d ≡ v
  get_or-set_self [] i v d h = absurd (omega arith)
  get_or-set_self (x ∷ xs) zero v d h = refl
  get_or-set_self (x ∷ xs) (suc i) v d h = get_or-set_self xs i v d (omega arith)

  pub get_or-set_ne :
      (xs : List A) (i j : ℕ) (v d : A) → j ≢ i → get_or (set xs i v) j d ≡ get_or xs j d
  get_or-set_ne [] i j v d h = refl
  get_or-set_ne (x ∷ xs) zero zero v d h = absurd (h refl)
  get_or-set_ne (x ∷ xs) zero (suc j) v d h = refl
  get_or-set_ne (x ∷ xs) (suc i) zero v d h = refl
  get_or-set_ne (x ∷ xs) (suc i) (suc j) v d h = get_or-set_ne xs i j v d (λ e. h (omega arith))

  pub All-set {κ} :
      (P : A → Type κ) (xs : List A) (i : ℕ) (v : A) → All P xs → P v → All P (set xs i v)
  All-set P [] i v h p = h
  All-set P (x ∷ xs) zero v h p = (p, h.1)
  All-set P (x ∷ xs) (suc i) v h p = (h.0, All-set P xs i v h.1 p)

  pub All-get_or {κ} :
      (P : A → Type κ) (xs : List A) (i : ℕ) (d : A) → All P xs → P d → P (get_or xs i d)
  All-get_or P [] i d h p = p
  All-get_or P (x ∷ xs) zero d h p = h.0
  All-get_or P (x ∷ xs) (suc i) d h p = All-get_or P xs i d h.1 p

-- `put` writes one chain, whether or not that chain was empty.
pub put-set :
    (ht : Table) (k v : ℤ)
    → put ht k v ≡ set ht (index_of_key k) (put_chain k v (get_or ht (index_of_key k) []))
unfolding put
put-set ht k v = ground arith

pub scan_chain-find : (q : ℤ) (c : Chain) → scan_chain q c ≡ or_not_found (find q c)
unfolding scan_chain find
scan_chain-find q [] = refl
scan_chain-find q (n ∷ c) = ground (arith, scan_chain-find q c)

pub find-put_chain :
    (q k v : ℤ) (c : Chain) → find q (put_chain k v c) ≡ (if q ==ℤ k then some v else find q c)
unfolding find put_chain
find-put_chain q k v [] = refl
find-put_chain q k v (n ∷ c) =
    ground (arith, ==ℤ_iff q k, ==ℤ_iff q n.key, ==ℤ_iff k n.key, find-put_chain q k v c)

pub count-put_chain_self : (k v : ℤ) (c : Chain) → count k c ≤ 1 → count k (put_chain k v c) ≤ 1
unfolding count put_chain
count-put_chain_self k v [] h = rw ==ℤ_refl (omega arith)
count-put_chain_self k v (n ∷ c) h = ground (arith, count-put_chain_self k v c)

pub count-put_chain_ne : (q k v : ℤ) (c : Chain) → q ≢ k → count q (put_chain k v c) ≡ count q c
unfolding count put_chain
count-put_chain_ne q k v [] h = ground (arith, ==ℤ_iff q k)
count-put_chain_ne q k v (n ∷ c) h = ground (arith, count-put_chain_ne q k v c)

pub longs-put_chain :
    (k v : ℤ) (c : Chain) → All LongNode c → InLong k → InLong v → All LongNode (put_chain k v c)
unfolding put_chain
longs-put_chain k v [] h hk hv = ((hk, hv), tt)
longs-put_chain k v (n ∷ c) h hk hv = elim (Bool-cases (k ==ℤ n.key)) [
  | inl e ↦ rw e ((h.0.0, hv), h.1)
  | inr e ↦ rw e (h.0, longs-put_chain k v c h.1 hk hv)
]
