-- ===== src/Cache/Database/RoundTrip.antt =====
-- The database file, read back whole.
use mathlib.Core.List.{flatten}
use afs_like_file_system.Common.{
  ℕ, zero, suc, ◌+◌, ◌≤◌, ◌≡◌, ◌≢◌, ◌∙◌, refl, ap, List, [], ◌∷◌, ◌++◌, Option, none, some, map,
  foldl, All, arith, ℤ, length, get_or, append_assoc, append-nil, get_or-replicate,
}
use afs_like_file_system.Machine.{Bytes}
use afs_like_file_system.Cache.Hash.{htablesize, index_of_key}
use afs_like_file_system.Cache.Table.{HashNode, Chain, Table, init_ht, put}
use afs_like_file_system.Cache.Valid.{find, count, view, IsValid, LongNode}
use afs_like_file_system.Cache.Lookup.{view-put, length-put}
use afs_like_file_system.Cache.Invariant.{init_ht-IsValid, put-IsValid}
use afs_like_file_system.Cache.Database.{
  record_text, dump_chain, dump_text, get_lines, load_lines, load_text,
}
use afs_like_file_system.Cache.Database.Lines.{
  All-append, record_text-InLine, get_lines-append, load_line-record_text,
}

abbrev pub line_text : HashNode → Bytes
line_text n = record_text n ++ (b'\n' ∷ [])

abbrev put_node : Table → HashNode → Table
put_node ht n = put ht n.key n.value

get_lines-dump_chain :
    (c : Chain) (rest : Bytes)
    → get_lines (dump_chain c ++ rest) ≡ map line_text c ++ get_lines rest
unfolding dump_chain
get_lines-dump_chain [] rest = refl
get_lines-dump_chain (n ∷ c) rest = rw (
  append_assoc (record_text n) (b'\n' ∷ dump_chain c) rest,
  get_lines-append (record_text n) (dump_chain c ++ rest) (record_text-InLine n),
  get_lines-dump_chain c rest,
)

map-append_lines : (c d : Chain) → map line_text (c ++ d) ≡ map line_text c ++ map line_text d
map-append_lines [] d = refl
map-append_lines (n ∷ c) d = ap (λ r. line_text n ∷ r) (map-append_lines c d)

pub get_lines-dump_text :
    (ht : Table) (rest : Bytes)
    → get_lines (dump_text ht ++ rest) ≡ map line_text (flatten ht) ++ get_lines rest
unfolding dump_text flatten
get_lines-dump_text [] rest = refl
get_lines-dump_text (c ∷ ht) rest = rw (
  append_assoc (dump_chain c) (dump_text ht) rest,
  get_lines-dump_chain c (dump_text ht ++ rest),
  get_lines-dump_text ht rest,
  map-append_lines c (flatten ht),
  append_assoc (map line_text c) (map line_text (flatten ht)) (get_lines rest),
)

load_lines-map :
    (es : Chain) (more : List Bytes) (ht : Table)
    → All LongNode es
    → load_lines (map line_text es ++ more) ht ≡ load_lines more (foldl put_node ht es)
unfolding load_lines
load_lines-map [] more ht h = refl
load_lines-map (n ∷ es) more ht h =
    rw (load_line-record_text n ht h.0, load_lines) (load_lines-map es more (put_node ht n) h.1)

All-flatten : (ht : Table) → All (All LongNode) ht → All LongNode (flatten ht)
unfolding flatten
All-flatten [] h = tt
All-flatten (c ∷ ht) h = All-append LongNode c (flatten ht) h.0 (All-flatten ht h.1)

abbrev override : Option ℤ → Option ℤ → Option ℤ
override none old = old
override (some v) old = some v

override-none : (o : Option ℤ) → override o none ≡ o
override-none none = refl
override-none (some v) = refl

find-eq-none : (q : ℤ) (c : Chain) → count q c ≡ 0 → find q c ≡ none
unfolding find count
find-eq-none q [] h = refl
find-eq-none q (n ∷ c) h = ground (arith, find-eq-none q c)

view-foldl :
    (q : ℤ) (es : Chain) (ht : Table)
    → length ht ≡ htablesize
    → count q es ≤ 1
    → view (foldl put_node ht es) q ≡ override (find q es) (view ht q)
unfolding find count
view-foldl q [] ht wide h = refl
view-foldl q (n ∷ es) ht wide h =
    view-foldl q es (put_node ht n) (length-put ht n.key n.value ∙ wide) (omega arith)
    ∙ ground (arith, view-put ht n.key n.value q wide, find-eq-none q es)

find-append : (q : ℤ) (a b : Chain) → find q (a ++ b) ≡ override (find q a) (find q b)
unfolding find
find-append q [] b = refl
find-append q (n ∷ a) b = ground (arith, find-append q a b)

count-append : (q : ℤ) (a b : Chain) → count q (a ++ b) ≡ count q a + count q b
unfolding count
count-append q [] b = omega arith
count-append q (n ∷ a) b = omega (arith, count-append q a b)

flatten_empty :
    (q : ℤ) (bs : List Chain) → ((j : ℕ) → count q (get_or bs j []) ≡ 0) → count q (flatten bs) ≡ 0
unfolding flatten count
flatten_empty q [] h = refl
flatten_empty q (c ∷ bs) h =
    omega (arith, count-append q c (flatten bs), h 0, flatten_empty q bs (λ j. h (suc j)))

-- A key that stands in at most one chain is found in the whole as it is found there.
flatten-slot :
    (q : ℤ) (bs : List Chain) (i : ℕ)
    → ((j : ℕ) → j ≢ i → count q (get_or bs j []) ≡ 0)
    → (find q (flatten bs) ≡ find q (get_or bs i []))
      × (count q (flatten bs) ≡ count q (get_or bs i []))
unfolding flatten
flatten-slot q [] i h = (refl, refl)
flatten-slot q (c ∷ bs) zero h =
    let rest = flatten_empty q bs (λ j. h (suc j) (λ e. ground arith)) in
    (
      find-append q c (flatten bs) ∙ rw (find-eq-none q (flatten bs) rest) (ground arith),
      omega (arith, count-append q c (flatten bs)),
    )
flatten-slot q (c ∷ bs) (suc i) h =
    let here = h 0 (λ e. ground arith) in
    let rest = flatten-slot q bs i (λ j n. h (suc j) (λ e. n (omega arith))) in
    (
      find-append q c (flatten bs) ∙ rw (find-eq-none q c here) rest.0,
      omega (arith, count-append q c (flatten bs)),
    )

foldl-IsValid :
    (es : Chain) (ht : Table) → IsValid ht → All LongNode es → IsValid (foldl put_node ht es)
foldl-IsValid [] ht valid h = valid
foldl-IsValid (n ∷ es) ht valid h =
    foldl-IsValid es (put_node ht n) (put-IsValid ht valid n.key n.value h.0.0 h.0.1) h.1

view-init_ht : (q : ℤ) → view init_ht q ≡ none
unfolding view init_ht find
view-init_ht q = ap (find q) (get_or-replicate {A = Chain} htablesize (index_of_key q) [])

-- The text that `dump` writes for a valid table, read into a fresh table, is accepted and gives a
-- valid table in which every key has the value that it had, and no other key has one.
pub load_text-dump_text :
    (ht : Table)
    → IsValid ht
    → (ht' : Table) × (load_text (dump_text ht) init_ht ≡ some ht')
      × IsValid ht'
      × ((q : ℤ) → view ht' q ≡ view ht q)
unfolding get_lines load_lines load_text view
load_text-dump_text ht valid =
    let longs = All-flatten ht valid.longs in
    (
      foldl put_node init_ht (flatten ht),
      loaded longs,
      foldl-IsValid (flatten ht) init_ht init_ht-IsValid longs,
      λ q.
          let slot = flatten-slot q ht (index_of_key q) (valid.placed q) in
          view-foldl q (flatten ht) init_ht init_ht-IsValid.wide
            (omega (arith, slot.1, valid.once q))
          ∙ rw (view-init_ht q, slot.0) (override-none _),
    )
  where
    loaded :
        All LongNode (flatten ht)
        → load_lines (get_lines (dump_text ht)) init_ht ≡ some (foldl put_node init_ht (flatten ht))
    loaded longs =
        let lines : get_lines (dump_text ht) ≡ map line_text (flatten ht) ++ get_lines [] =
          rw (append-nil (dump_text ht)) at (get_lines-dump_text ht []) in
        rw lines (load_lines-map (flatten ht) [] init_ht longs)
