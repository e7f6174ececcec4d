-- ===== src/Cache/Lookup.antt =====
-- `get` and `put` against the map that the table stands for.
use afs_like_file_system.Common.{
  ◌≢◌, ◌⊎◌, ℕ_cases, ◌<◌, ◌≡◌, ◌∙◌, [], some, ℤ, ◌==ℤ◌, ==ℤ_iff, length, get_or, set, arith,
  if◌then◌else◌, length-set, false, Bool-cases, inl, inr,
}
use afs_like_file_system.Machine.{Bytes}
use afs_like_file_system.Cache.Hash.{htablesize, index_of_key, index_of_key-lt}
use afs_like_file_system.Cache.Table.{Table, key_of, get, put_chain, put}
use afs_like_file_system.Cache.Valid.{
  find, view, or_not_found, get_or-set_self, get_or-set_ne, put-set, scan_chain-find,
  find-put_chain,
}

-- `get` reads the map at the key of the path, and answers -1 where there is nothing.
pub get-view :
    (ht : Table) (filename : Bytes) → get ht filename ≡ or_not_found (view ht (key_of filename))
unfolding get view
get-view ht filename = scan_chain-find (key_of filename) _

-- `put` changes the map at its key and nowhere else.
pub view-put :
    (ht : Table) (k v q : ℤ)
    → length ht ≡ htablesize
    → view (put ht k v) q ≡ (if q ==ℤ k then some v else view ht q)
unfolding view
view-put ht k v q wide =
    let old = get_or ht (index_of_key k) [] in
    let inside : index_of_key k < length ht = omega (arith, index_of_key-lt k) in
    rw (put-set ht k v) (elim (Bool-cases (q ==ℤ k)) [
      | inl e ↦
          let same : q ≡ k = (==ℤ_iff q k).0 e in
          rw (same, get_or-set_self ht (index_of_key k) (put_chain k v old) [] inside)
            (find-put_chain k k v old)
      | inr e ↦ rw e (other (ℕ_cases (index_of_key q) (index_of_key k)) e inside)
    ])
  where
    other :
        (index_of_key q ≡ index_of_key k) ⊎ (index_of_key q ≢ index_of_key k)
        → (q ==ℤ k) ≡ false
        → index_of_key k < length ht
        → find q (
            get_or
              (set ht (index_of_key k) (put_chain k v (get_or ht (index_of_key k) [])))
              (index_of_key q)
              [])
          ≡ find q (get_or ht (index_of_key q) [])
    other (inl p) e inside =
        rw
          (
            p,
            get_or-set_self ht (index_of_key k) (put_chain k v (get_or ht (index_of_key k) [])) []
                inside,
          )
          (find-put_chain q k v (get_or ht (index_of_key k) []) ∙ rw e)
    other (inr p) e inside = rw (
        get_or-set_ne ht (index_of_key k) (index_of_key q)
          (put_chain k v (get_or ht (index_of_key k) [])) [] p)

-- In a table of the full length, `get` after a `put` under the hash of a path answers the time put
-- for every path with the same key, and for the others what it answered before.
pub get-put :
    (ht : Table) (written asked : Bytes) (v : ℤ)
    → length ht ≡ htablesize
    → get (put ht (key_of written) v) asked
      ≡ (if key_of asked ==ℤ key_of written then v else get ht asked)
get-put ht written asked v wide =
    rw
      (
        get-view (put ht (key_of written) v) asked,
        get-view ht asked,
        view-put ht (key_of written) v (key_of asked) wide,
      )
      (ground arith)

pub length-put : (ht : Table) (k v : ℤ) → length (put ht k v) ≡ length ht
length-put ht k v =
    rw (put-set ht k v)
      (length-set ht (index_of_key k) (put_chain k v (get_or ht (index_of_key k) [])))
