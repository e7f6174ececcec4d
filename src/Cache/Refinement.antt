-- ===== src/Cache/Refinement.antt =====
-- The table, over any number of starts of the client, against a map from keys to times.
use afs_like_file_system.Common.{
  ◌≡◌, ◌∙◌, refl, List, [], ◌∷◌, Option, none, some, ℤ, ◌==ℤ◌, All, if◌then◌else◌, get_or-replicate,
}
use afs_like_file_system.Machine.{Bytes, InLong, to_long-InLong}
use afs_like_file_system.Cache.Hash.{htablesize, hashfilename, index_of_key}
use afs_like_file_system.Cache.Table.{Chain, Table, init_ht, key_of, get, put}
use afs_like_file_system.Cache.Valid.{view, or_not_found, IsValid}
use afs_like_file_system.Cache.Lookup.{get-view, view-put}
use afs_like_file_system.Cache.Invariant.{init_ht-IsValid, put-IsValid}
use afs_like_file_system.Cache.Database.{dump_text, load_text}
use afs_like_file_system.Cache.Database.RoundTrip.{load_text-dump_text}

-- What the client does with the table: it puts a time for a path, asks for it, or is started again
-- from the text that it dumped last.
pub data Call : Type 0 where
  put_time : Bytes → ℤ → Call
  get_time : Bytes → Call
  restart : Call

abbrev pub IsLongCall : Call → Type 0
IsLongCall (put_time path time) = InLong time
IsLongCall (get_time path) = Unit
IsLongCall restart = Unit

-- The answers to the calls of `get`, and the table afterwards; `none` is a crash of the start.
unfoldable pub run_table : List Call → Table → Option (List ℤ × Table)
run_table [] ht = some ([], ht)
run_table (put_time path time ∷ calls) ht = run_table calls (put ht (key_of path) time)
run_table (get_time path ∷ calls) ht = elim (run_table calls ht) [
  | none ↦ none
  | some (answers, ht') ↦ some (get ht path ∷ answers, ht')
]
run_table (restart ∷ calls) ht = elim (load_text (dump_text ht) init_ht) [
  | none ↦ none
  | some ht' ↦ run_table calls ht'
]

abbrev pub Times : Type 0
Times = ℤ → Option ℤ

abbrev pub update : Times → ℤ → ℤ → Times
update times k v q = if q ==ℤ k then some v else times q

-- The same calls on a map that never forgets.
unfoldable pub run_times : List Call → Times → List ℤ × Times
run_times [] times = ([], times)
run_times (put_time path time ∷ calls) times = run_times calls (update times (key_of path) time)
run_times (get_time path ∷ calls) times =
    let (answers, times') = run_times calls times in
    (or_not_found (times (key_of path)) ∷ answers, times')
run_times (restart ∷ calls) times = run_times calls times

-- The table is valid and stands for the map.
pub record Tracks (ht : Table) (times : Times) : Type 0 where
  pub valid : IsValid ht
  pub same : (q : ℤ) → view ht q ≡ times q

-- The fresh table stands for the map without an entry.
pub Tracks-init_ht : Tracks init_ht (λ q. none)
unfolding init_ht view
Tracks-init_ht = record {
  valid = init_ht-IsValid;
  same = λ q. rw (get_or-replicate {A = Chain} htablesize (index_of_key q) []) refl;
}

Tracks-put :
    (ht : Table) (times : Times) (path : Bytes) (time : ℤ)
    → InLong time
    → Tracks ht times
    → Tracks (put ht (key_of path) time) (update times (key_of path) time)
Tracks-put ht times path time long tracks = record {
  valid = put-IsValid ht tracks.valid (key_of path) time (to_long-InLong (hashfilename path)) long;
  same = λ q. view-put ht (key_of path) time q tracks.valid.wide ∙ rw (tracks.same q);
}

-- From a table that stands for a map, any sequence of calls whose times are `long` runs to its end:
-- every `get` answers as the map does, and the table afterwards stands for the map afterwards,
-- however often the client was started again in between.
pub run_table-refines :
    (calls : List Call) (ht : Table) (times : Times)
    → All IsLongCall calls
    → Tracks ht times
    → (ht' : Table) × (run_table calls ht ≡ some ((run_times calls times).0, ht'))
      × Tracks ht' (run_times calls times).1
unfolding run_table run_times
run_table-refines [] ht times h tracks = (ht, refl, tracks)
run_table-refines (put_time path time ∷ calls) ht times h tracks =
    run_table-refines calls _ _ h.1 (Tracks-put ht times path time h.0 tracks)
run_table-refines (get_time path ∷ calls) ht times h tracks =
    let (ht', e, t) = run_table-refines calls ht times h.1 tracks in
    (ht', rw (e, get-view ht path, tracks.same (key_of path)), t)
run_table-refines (restart ∷ calls) ht times h tracks =
    let (loaded, e, valid, same) = load_text-dump_text ht tracks.valid in
    let t : Tracks loaded times = record { valid = valid; same = λ q. same q ∙ tracks.same q } in
    let (ht', e', t') = run_table-refines calls loaded times h.1 t in
    (ht', rw (e, run_table) e', t')
