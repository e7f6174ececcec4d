-- ===== src/Server/Threads/Races.antt =====
-- What a thread in STORE and a thread in FETCH of one file end with, however their calls interleave.
use afs_like_file_system.Common.{
  ℕ, ◌≡◌, ◌≢◌, List, [], ◌∷◌, some, pos, inl, inr, length, arith, ◌<◌, ◌≤◌, ◌^◌,
}
use afs_like_file_system.Machine.{Bytes, to_i32}
use afs_like_file_system.Posix.{Posix, Indeterminate}
use afs_like_file_system.Posix.Laws.{Files, IsHealthy}
use afs_like_file_system.Protocol.{PathReq, StoreReq, Status, status_ok, StoreRes, FetchReply}
use afs_like_file_system.Server.Threads.{
  System, Turn, store_turn, fetch_turn, store_end, fetch_end, turn, run, start,
}
use afs_like_file_system.Server.Threads.Invariant.{
  store_descriptor, fetch_descriptor, StoreOk, FetchOk, StoreOk-IsVersion, StoreOk-frame,
  FetchOk-frame, StoreOk-opened, FetchOk-opened, Mixed,
}
use afs_like_file_system.Server.Threads.Progress.{
  turns_of_store, turns_of_fetch, run-store_left, run-fetch_left, store_ended, fetch_ended,
}
use afs_like_file_system.Server.Threads.Steps.{remote, stored, fetched, store_moves, fetch_moves}

module _ (P : Posix) (view : P.State → Files) (healthy : IsHealthy P view) (uninit : Indeterminate)
    (root path old new : Bytes) (i : ℕ) (small : length new < 2 ^ 31) where
  abbrev remote_path : Bytes
  remote_path = remote P view healthy uninit root path old new i small

  abbrev stored_request : StoreReq
  stored_request = stored P view healthy uninit root path old new i small

  abbrev fetched_request : PathReq
  fetched_request = fetched P view healthy uninit root path old new i small

  abbrev moves : Turn → System P.State → System P.State
  moves = turn P uninit root stored_request fetched_request

  abbrev pub runs : List Turn → System P.State → System P.State
  runs = run P uninit root stored_request fetched_request

  record InStep (w : System P.State) : Type 0 where
    entry_at : (view w.os).entry remote_path ≡ some i
    store_at : StoreOk uninit old new i w.store (view w.os)
    fetch_at : FetchOk uninit old new i w.fetch (view w.os)
    apart : (d : ℕ) → store_descriptor w.store ≡ some d → fetch_descriptor w.fetch ≢ some d

  InStep-turn : (t : Turn) (w : System P.State) → InStep w → InStep (moves t w)
  unfolding turn
  InStep-turn store_turn w ok =
      let ((t, s), e, (here, store_at, own)) =
        store_moves P view healthy uninit root path old new i small w.store w.os ok.entry_at
          ok.store_at in
      let kept : (d : ℕ)
          → fetch_descriptor w.fetch ≡ some d
          → (view s).opened (pos d) ≡ (view w.os).opened (pos d) =
        λ d f.
          own.frame d (FetchOk-opened uninit old new i w.fetch (view w.os) d ok.fetch_at f)
            (λ x. ok.apart d x f) in
      let w' : System P.State = record w { store = t; os = s } in
      let next : InStep w' = record {
        entry_at = here;
        store_at = store_at;
        fetch_at = FetchOk-frame uninit old new i w.fetch (view w.os) (view s) kept ok.fetch_at;
        apart = λ d x f. elim (own.gained d x) [
          | inl before ↦ ok.apart d before f
          | inr free ↦ FetchOk-opened uninit old new i w.fetch (view w.os) d ok.fetch_at f free
        ];
      } in
      rw e next
  InStep-turn fetch_turn w ok =
      let version = StoreOk-IsVersion uninit old new i w.store (view w.os) ok.store_at in
      let ((t, s), e, (here, fetch_at, own, text)) =
        fetch_moves P view healthy uninit root path old new i small w.fetch w.os ok.entry_at version
          ok.fetch_at in
      let kept : (d : ℕ)
          → store_descriptor w.store ≡ some d
          → (view s).opened (pos d) ≡ (view w.os).opened (pos d) =
        λ d x.
          own.frame d (StoreOk-opened uninit old new i w.store (view w.os) d ok.store_at x)
            (ok.apart d x) in
      let w' : System P.State = record w { fetch = t; os = s } in
      let next : InStep w' = record {
        entry_at = here;
        store_at =
            StoreOk-frame uninit old new i w.store (view w.os) (view s) text kept ok.store_at;
        fetch_at = fetch_at;
        apart = λ d x f. elim (own.gained d f) [
          | inl before ↦ ok.apart d x before
          | inr free ↦ StoreOk-opened uninit old new i w.store (view w.os) d ok.store_at x free
        ];
      } in
      rw e next

  InStep-run : (turns : List Turn) (w : System P.State) → InStep w → InStep (runs turns w)
  unfolding run
  InStep-run [] w ok = ok
  InStep-run (t ∷ turns) w ok = InStep-run turns (moves t w) (InStep-turn t w ok)

  ends :
      (w : System P.State) (r : Status × StoreRes) (q : Status × FetchReply)
      → InStep w
      → w.store ≡ store_end r
      → w.fetch ≡ fetch_end q
      → StoreOk uninit old new i (store_end r) (view w.os)
        × FetchOk uninit old new i (fetch_end q) (view w.os)
  ends w r q ok e e' = (rw e at ok.store_at, rw e' at ok.fetch_at)

  -- On a server whose disk works and has the file with the old bytes, let one thread run STORE with
  -- new bytes, less than 2 ^ 31 of them, and another one FETCH. After any order of turns with at
  -- least four of the first and six of the second, both have ended with status OK and no error, and
  -- the file holds exactly the new bytes. The bytes that FETCH replies are those of the file at one
  -- time, cut at its size at another, over memory that nothing was written to; each time the file
  -- was as before, empty, or as stored.
  pub store_races_fetch :
      (s : P.State) (turns : List Turn)
      → (view s).entry remote_path ≡ some i
      → (view s).content i ≡ old
      → 4 ≤ turns_of_store turns
      → 6 ≤ turns_of_fetch turns
      → let w = runs turns (start s) in
        (r : Status × StoreRes) × (q : Status × FetchReply) × (w.store ≡ store_end r)
        × (w.fetch ≡ fetch_end q)
        × ((view w.os).content i ≡ new)
        × (r.0 ≡ status_ok)
        × (r.1.error ≡ pos 0)
        × (q.0 ≡ status_ok)
        × (q.1.error ≡ pos 0)
        × (size : ℕ) × (q.1.size ≡ to_i32 size)
        × Mixed uninit old new i size q.1.buf
  store_races_fetch s turns here text stores fetches =
      let w = runs turns (start s) in
      let begun : InStep (start s) = record {
        entry_at = here;
        store_at = text;
        fetch_at = tt;
        apart = λ d e. cc;
      } in
      let ok = InStep-run turns (start s) begun in
      let left = run-store_left P uninit root stored_request fetched_request turns (start s) in
      let left' = run-fetch_left P uninit root stored_request fetched_request turns (start s) in
      let (r, e) = store_ended w.store (omega (arith, left)) in
      let (q, e') = fetch_ended w.fetch (omega (arith, left')) in
      let ((content, status, error), (status', error', size, sized, mixed)) = ends w r q ok e e' in
      (r, q, e, e', content, status, error, status', error', size, sized, mixed)
