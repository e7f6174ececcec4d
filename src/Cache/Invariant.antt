-- ===== src/Cache/Invariant.antt =====
-- The invariant of the table holds when it is fresh, and `put` keeps it.
use afs_like_file_system.Common.{
  ℕ, ◌≢◌, ℕ_cases, ◌≤◌, ◌<◌, ◌≡◌, sym, ◌∙◌, [], ℤ, ◌==ℤ◌, ==ℤ_iff, length, get_or, All, arith,
  length-replicate, get_or-replicate, replicate, Bool-cases, inl, inr, zero, suc, ap,
}
use afs_like_file_system.Machine.{InLong}
use afs_like_file_system.Cache.Hash.{htablesize, index_of_key, index_of_key-lt}
use afs_like_file_system.Cache.Table.{Chain, Table, init_ht, put_chain, put}
use afs_like_file_system.Cache.Valid.{
  count, IsValid, get_or-set_self, get_or-set_ne, All-set, All-get_or, put-set,
  count-put_chain_self, count-put_chain_ne, longs-put_chain, LongNode,
}
use afs_like_file_system.Cache.Lookup.{length-put}

All-replicate {ℓ κ} : {A : Type ℓ} (P : A → Type κ) (n : ℕ) (a : A) → P a → All P (replicate n a)
All-replicate P zero a h = tt
All-replicate P (suc n) a h = (h, All-replicate P n a h)

-- The fresh table is valid.
pub init_ht-IsValid : IsValid init_ht
unfolding init_ht count
init_ht-IsValid = record {
  wide = length-replicate {A = Chain} htablesize [];
  once = λ q. rw (get_or-replicate {A = Chain} htablesize (index_of_key q) []) (omega arith);
  placed = λ q i h. rw (get_or-replicate {A = Chain} htablesize i []);
  longs = All-replicate (All LongNode) htablesize [] tt;
}

module _ (ht : Table) (valid : IsValid ht) (k v : ℤ) where
  inside : index_of_key k < length ht
  inside = omega (arith, index_of_key-lt k, valid.wide)

  count-put_slot :
      (q : ℤ)
      → count q (get_or (put ht k v) (index_of_key k) [])
        ≡ count q (put_chain k v (get_or ht (index_of_key k) []))
  count-put_slot q = rw (
    put-set ht k v,
    get_or-set_self ht (index_of_key k) (put_chain k v (get_or ht (index_of_key k) [])) [] inside,
  )

  count-put_other :
      (q : ℤ) (i : ℕ)
      → i ≢ index_of_key k
      → count q (get_or (put ht k v) i []) ≡ count q (get_or ht i [])
  count-put_other q i h = rw (
    put-set ht k v,
    get_or-set_ne ht (index_of_key k) i (put_chain k v (get_or ht (index_of_key k) [])) [] h,
  )

  put_once : (q : ℤ) → count q (get_or (put ht k v) (index_of_key q) []) ≤ 1
  put_once q = elim (Bool-cases (q ==ℤ k)) [
    | inl e ↦
        let same : q ≡ k = (==ℤ_iff q k).0 e in
        rw (same, count-put_slot k) (count-put_chain_self k v _ (valid.once k))
    | inr e ↦ elim (ℕ_cases (index_of_key q) (index_of_key k)) [
      | inl p ↦
          rw (p, count-put_slot q, count-put_chain_ne q k v _ (λ s. cc ((==ℤ_iff q k).1 s)))
            (rw p at (valid.once q))
      | inr p ↦ rw (count-put_other q (index_of_key q) p) (valid.once q)
    ]
  ]

  put_placed : (q : ℤ) (i : ℕ) → i ≢ index_of_key q → count q (get_or (put ht k v) i []) ≡ 0
  put_placed q i h = elim (ℕ_cases i (index_of_key k)) [
    | inl p ↦
        rw (p, count-put_slot q, count-put_chain_ne q k v _ (λ s. h (p ∙ ap index_of_key (sym s))))
          (rw p at (valid.placed q i h))
    | inr p ↦ rw (count-put_other q i p) (valid.placed q i h)
  ]

  -- A valid table is valid after `put` of a key and a value in the range of `long`: a key keeps
  -- standing at most once, in the chain of its slot, whichever of the three ways `put` takes, and
  -- keys and values stay in the range of `long`.
  pub put-IsValid : InLong k → InLong v → IsValid (put ht k v)
  put-IsValid hk hv = record {
    wide = length-put ht k v ∙ valid.wide;
    once = put_once;
    placed = put_placed;
    longs = rw (put-set ht k v) (
        All-set (All LongNode) ht (index_of_key k) (put_chain k v (get_or ht (index_of_key k) []))
          valid.longs
          (longs-put_chain k v _ (All-get_or (All LongNode) ht (index_of_key k) [] valid.longs tt)
            hk hv));
  }
