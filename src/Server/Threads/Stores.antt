-- ===== src/Server/Threads/Stores.antt =====
-- What a file holds after two threads in STORE, however their calls interleave.
use afs_like_file_system.Common.{
  ℕ, ◌≡◌, ◌≢◌, ◌∙◌, refl, sym, ap, List, [], ◌∷◌, ◌++◌, Bool, true, false, if◌then◌else◌, some, pos,
  inl, inr, length, drop, arith, ◌<◌, ◌≤◌, ◌^◌, ◌+◌,
}
use afs_like_file_system.Machine.{Bytes}
use afs_like_file_system.Paths.{get_server_path}
use afs_like_file_system.Posix.{Posix, Indeterminate}
use afs_like_file_system.Posix.Laws.{Files, IsHealthy}
use afs_like_file_system.Protocol.{Status, status_ok, StoreRes, StoreReq}
use afs_like_file_system.Server.Threads.{StoreThread, store_end}
use afs_like_file_system.Server.Threads.Invariant.{store_descriptor}
use afs_like_file_system.Server.Threads.Outline.{
  Outline, outline_turn, outline_run, IsOutcome, Possible-run, AfterFirst, AfterFirst-run,
}
use afs_like_file_system.Server.Threads.Progress.{store_ended}
use afs_like_file_system.Server.Threads.Pair.{
  Side, first_turn, second_turn, Pair, start_pair, turns_of_first, turns_of_second, pair_turn,
  pair_run, pair_run-first_left, pair_run-second_left,
}
use afs_like_file_system.Server.Threads.Stages.{
  waiting, written, stage_of, InSession, InSession-frame, InSession-opened, request_of,
  thread_moves, whole,
}

-- The call has ended, with status OK and no error.
abbrev pub Succeeded : StoreThread → Type 0
Succeeded t = (r : Status × StoreRes) × (t ≡ store_end r) × (r.0 ≡ status_ok) × (r.1.error ≡ pos 0)

-- Both threads open the file, in either order; then the one with `a` writes.
abbrev pub tearing_turns : Bool → List Side
tearing_turns first_opens =
    if first_opens
    then first_turn ∷ second_turn ∷ first_turn ∷ []
    else second_turn ∷ first_turn ∷ first_turn ∷ []

module _ (P : Posix) (view : P.State → Files) (healthy : IsHealthy P view) (uninit : Indeterminate)
    (root path a b : Bytes) (i : ℕ) (small_a : length a < 2 ^ 31)
    (small_b : length b < 2 ^ 31) where
  abbrev request : Bytes → StoreReq
  request = request_of P view healthy uninit root path i

  abbrev pub runs_pair : List Side → Pair P.State → Pair P.State
  runs_pair = pair_run P uninit root (request a) (request b)

  -- The threads are where the outline says, and the file has its bytes.
  record InOutline (w : Pair P.State) (m : Outline) : Type 0 where
    entry_at : (view w.os).entry (get_server_path path root) ≡ some i
    first_at : InSession i w.first (view w.os)
    second_at : InSession i w.second (view w.os)
    apart : (d : ℕ) → store_descriptor w.first ≡ some d → store_descriptor w.second ≢ some d
    first_stage : stage_of w.first ≡ m.one
    second_stage : stage_of w.second ≡ m.other
    bytes : (view w.os).content i ≡ m.text

  InOutline-turn :
      (t : Side) (w : Pair P.State) (m : Outline)
      → InOutline w m
      → InOutline (pair_turn P uninit root (request a) (request b) t w) (outline_turn a b t m)
  unfolding pair_turn outline_turn
  InOutline-turn first_turn w m ok =
      let ((t, s), e, (here, session, own, stage, text)) =
        thread_moves P view healthy uninit root path i a w.first w.os small_a ok.entry_at
          ok.first_at in
      let kept : (d : ℕ)
          → store_descriptor w.second ≡ some d
          → (view s).opened (pos d) ≡ (view w.os).opened (pos d) =
        λ d x.
          own.frame d (InSession-opened i w.second (view w.os) d ok.second_at x)
            (λ y. ok.apart d y x) in
      let w' : Pair P.State = record w { first = t; os = s } in
      let next : InOutline w' (outline_turn a b first_turn m) = record {
        entry_at = here;
        first_at = session;
        second_at = InSession-frame i w.second (view w.os) (view s) kept ok.second_at;
        apart = λ d x y. elim (own.gained d x) [
          | inl before ↦ ok.apart d before y
          | inr free ↦ InSession-opened i w.second (view w.os) d ok.second_at y free
        ];
        first_stage = rw ok.first_stage at stage;
        second_stage = ok.second_stage;
        bytes = rw (ok.first_stage, ok.bytes) at text;
      } in
      rw e next
  InOutline-turn second_turn w m ok =
      let ((t, s), e, (here, session, own, stage, text)) =
        thread_moves P view healthy uninit root path i b w.second w.os small_b ok.entry_at
          ok.second_at in
      let kept : (d : ℕ)
          → store_descriptor w.first ≡ some d
          → (view s).opened (pos d) ≡ (view w.os).opened (pos d) =
        λ d x.
          own.frame d (InSession-opened i w.first (view w.os) d ok.first_at x) (ok.apart d x) in
      let w' : Pair P.State = record w { second = t; os = s } in
      let next : InOutline w' (outline_turn a b second_turn m) = record {
        entry_at = here;
        first_at = InSession-frame i w.first (view w.os) (view s) kept ok.first_at;
        second_at = session;
        apart = λ d x y. elim (own.gained d y) [
          | inl before ↦ ok.apart d x before
          | inr free ↦ InSession-opened i w.first (view w.os) d ok.first_at x free
        ];
        first_stage = ok.first_stage;
        second_stage = rw ok.second_stage at stage;
        bytes = rw (ok.second_stage, ok.bytes) at text;
      } in
      rw e next

  InOutline-run :
      (turns : List Side) (w : Pair P.State) (m : Outline)
      → InOutline w m
      → InOutline (runs_pair turns w) (outline_run a b turns m)
  unfolding pair_run outline_run
  InOutline-run [] w m ok = ok
  InOutline-run (t ∷ turns) w m ok = InOutline-run turns _ _ (InOutline-turn t w m ok)

  succeeded :
      (t : StoreThread) (f : Files) (r : Status × StoreRes)
      → InSession i t f
      → t ≡ store_end r
      → Succeeded t
  succeeded t f r session e =
      let (status, error) : (r.0 ≡ status_ok) × (r.1.error ≡ pos 0) = rw e at session in
      (r, e, status, error)

  -- What the run comes to, by the outline.
  pair_ends :
      (s : P.State) (turns : List Side)
      → (view s).entry (get_server_path path root) ≡ some i
      → 4 ≤ turns_of_first turns
      → 4 ≤ turns_of_second turns
      → let w = runs_pair turns (start_pair s) in
        let m : Outline =
          outline_run a b turns
            (record { one = waiting; other = waiting; text = (view s).content i }) in
        Succeeded w.first
        × Succeeded w.second
        × (m.one ≡ written)
        × (m.other ≡ written)
        × ((view w.os).content i ≡ m.text)
  pair_ends s turns here firsts seconds =
      let w = runs_pair turns (start_pair s) in
      let begun : InOutline (start_pair s)
          (record { one = waiting; other = waiting; text = (view s).content i }) =
        record {
          entry_at = here;
          first_at = tt;
          second_at = tt;
          apart = λ d e. cc;
          first_stage = refl;
          second_stage = refl;
          bytes = refl;
        } in
      let ok = InOutline-run turns (start_pair s) _ begun in
      let left = pair_run-first_left P uninit root (request a) (request b) turns (start_pair s) in
      let left' = pair_run-second_left P uninit root (request a) (request b) turns (start_pair s) in
      let (r, e) = store_ended w.first (omega (arith, left)) in
      let (q, e') = store_ended w.second (omega (arith, left')) in
      (
        succeeded w.first (view w.os) r ok.first_at e,
        succeeded w.second (view w.os) q ok.second_at e',
        sym (rw e at ok.first_stage),
        sym (rw e' at ok.second_stage),
        ok.bytes,
      )

  -- On a server whose disk works and has the file, let two threads run STORE for its path, with the
  -- bytes `a` and `b`, less than 2 ^ 31 each. After any order of turns with at least four of each,
  -- both calls have ended with status OK and no error, and the file holds `a`, or `b`, or one of
  -- them written over the start of the other.
  pub store_races_store :
      (s : P.State) (turns : List Side)
      → (view s).entry (get_server_path path root) ≡ some i
      → 4 ≤ turns_of_first turns
      → 4 ≤ turns_of_second turns
      → let w = runs_pair turns (start_pair s) in
        Succeeded w.first × Succeeded w.second × IsOutcome a b ((view w.os).content i)
  store_races_store s turns here firsts seconds =
      let (first, second, e, e', text) = pair_ends s turns here firsts seconds in
      let possible =
        Possible-run a b turns
          (record { one = waiting; other = waiting; text = (view s).content i }) tt in
      (first, second, rw text (rw (e, e') at possible))

  -- The outline after these turns and any others.
  torn_outline :
      (first_opens : Bool) (rest : List Side) (text : Bytes)
      → let m =
          outline_run a b
            (tearing_turns first_opens ++ rest)
            (record { one = waiting; other = waiting; text = text }) in
        AfterFirst a b m.one m.other m.text
  unfolding outline_run outline_turn
  torn_outline true rest text = AfterFirst-run a b rest _ (whole a)
  torn_outline false rest text = AfterFirst-run a b rest _ (whole a)

  enough_turns :
      (first_opens : Bool) (rest : List Side)
      → 2 ≤ turns_of_first rest
      → 3 ≤ turns_of_second rest
      → (4 ≤ turns_of_first (tearing_turns first_opens ++ rest))
        × (4 ≤ turns_of_second (tearing_turns first_opens ++ rest))
  unfolding turns_of_first turns_of_second
  enough_turns true rest firsts seconds = (omega (arith, firsts), omega (arith, seconds))
  enough_turns false rest firsts seconds = (omega (arith, firsts), omega (arith, seconds))

  -- Under the same conditions, if both threads open the file, in either order, before either writes,
  -- and the one with `a` then writes first, then after any order of further turns that lets both
  -- calls end, both report success, and the file holds `b` followed by what `a` has beyond the
  -- length of `b`: if `a` is longer, that is what neither of the two stored.
  pub stores_mix_bytes :
      (first_opens : Bool) (rest : List Side) (s : P.State)
      → (view s).entry (get_server_path path root) ≡ some i
      → 2 ≤ turns_of_first rest
      → 3 ≤ turns_of_second rest
      → let w = runs_pair (tearing_turns first_opens ++ rest) (start_pair s) in
        Succeeded w.first × Succeeded w.second × ((view w.os).content i ≡ b ++ drop (length b) a)
  stores_mix_bytes first_opens rest s here firsts seconds =
      let (enough, enough') = enough_turns first_opens rest firsts seconds in
      let (first, second, e, e', text) =
        pair_ends s (tearing_turns first_opens ++ rest) here enough enough' in
      let torn = torn_outline first_opens rest ((view s).content i) in
      (first, second, text ∙ (rw (e, e') at torn) ∙ ap (λ (n : ℕ). b ++ drop n a) at_start)
    where
      at_start : 0 + length b ≡ length b
      at_start = omega arith
