-- ===== src/Server/Threads/Torn.antt =====
-- A FETCH that reads while a STORE has the file emptied.
use afs_like_file_system.Common.{
  ℕ, zero, suc, ◌≡◌, ◌≢◌, ◌∙◌, refl, sym, ap, List, [], ◌∷◌, ◌++◌, ◌≤◌, Bool, true, arith,
  if◌then◌else◌, Option, none, some, pos, false, ◌==ℤ◌, ==ℤ_refl, ==_iff, length, take, drop,
}
use afs_like_file_system.Machine.{Bytes, fill, to_i32}
use afs_like_file_system.Paths.{get_server_path}
use afs_like_file_system.Posix.{
  o_rdwr, Posix, Indeterminate, Stat, done, create_trunc_rdwr, mode_770,
}
use afs_like_file_system.Posix.Laws.{Files, Descriptor, IsHealthy}
use afs_like_file_system.Protocol.{Status, status_ok, FetchReply, PathReq, StoreReq}
use afs_like_file_system.Server.{plain_rdwr}
use afs_like_file_system.Server.Threads.{
  FetchThread, fetch_open, fetch_fstat, fetch_lseek, fetch_read, fetch_again, fetch_close, System,
  Turn, store_turn, fetch_turn, fetch_end, store_step, fetch_step, turn, run, start,
}
use afs_like_file_system.Server.Threads.Invariant.{other_number}
use afs_like_file_system.Server.Threads.Progress.{
  fetch_left, turns_of_fetch, fetch_ended, run-fetch_left,
}

clash : {A : Type 0} {x : Option A} {a : A} → x ≡ some a → x ≢ none
clash e e' = cc

-- Nothing that is read leaves the memory as it was.
fill_nothing : (n : ℕ) (memory : Bytes) → fill (take n []) memory ≡ memory
fill_nothing zero memory = refl
fill_nothing (suc n) memory = refl

-- FETCH has the size, STORE opens the file, in front of the lseek or behind it, and FETCH reads.
abbrev pub torn_turns : Bool → List Turn
torn_turns late =
    if late
    then fetch_turn ∷ fetch_turn ∷ fetch_turn ∷ store_turn ∷ fetch_turn ∷ []
    else fetch_turn ∷ fetch_turn ∷ store_turn ∷ fetch_turn ∷ fetch_turn ∷ []

-- What the rest of FETCH replies of the size and the bytes.
abbrev Carries : ℕ → Bytes → FetchThread → Type 0
Carries n b fetch_open = ⊥
Carries n b (fetch_fstat d) = ⊥
Carries n b (fetch_lseek d st) = ⊥
Carries n b (fetch_read d st) = ⊥
Carries n b (fetch_again d st buf) = (st.st_size ≡ n) × (buf ≡ b)
Carries n b (fetch_close d st buf st') = (st.st_size ≡ n) × (buf ≡ b)
Carries n b (fetch_end q) =
    (q.0 ≡ status_ok) × (q.1.error ≡ pos 0) × (q.1.size ≡ to_i32 n) × (q.1.buf ≡ b)

module _ (P : Posix) (view : P.State → Files) (healthy : IsHealthy P view) (uninit : Indeterminate)
    (root path old new : Bytes) (i : ℕ) where
  abbrev remote : Bytes
  remote = get_server_path path root

  abbrev stored : StoreReq
  stored = record { path = path; size = pos (length new); buf = new }

  abbrev fetched : PathReq
  fetched = record { path = path }

  Carries-step :
      (n : ℕ) (b : Bytes) (t : FetchThread) (s : P.State)
      → Carries n b t
      → Carries n b (fetch_step P uninit root fetched t s).0
  unfolding fetch_step
  Carries-step n b fetch_open s h = absurd h
  Carries-step n b (fetch_fstat d) s h = absurd h
  Carries-step n b (fetch_lseek d st) s h = absurd h
  Carries-step n b (fetch_read d st) s h = absurd h
  Carries-step n b (fetch_again d st buf) s h = h
  Carries-step n b (fetch_close d st buf st') s (size, text) = (refl, refl, ap to_i32 size, text)
  Carries-step n b (fetch_end q) s h = h

  Carries-run :
      (n : ℕ) (b : Bytes) (turns : List Turn) (w : System P.State)
      → Carries n b w.fetch
      → Carries n b (run P uninit root stored fetched turns w).fetch
  unfolding run turn
  Carries-run n b [] w h = h
  Carries-run n b (store_turn ∷ turns) w h = Carries-run n b turns _ h
  Carries-run n b (fetch_turn ∷ turns) w h =
      Carries-run n b turns _ (Carries-step n b w.fetch w.os h)

  run-append :
      (turns rest : List Turn) (w : System P.State)
      → run P uninit root stored fetched (turns ++ rest) w
        ≡ run P uninit root stored fetched rest (run P uninit root stored fetched turns w)
  unfolding run
  run-append [] rest w = refl
  run-append (t ∷ turns) rest w = run-append turns rest _

  -- FETCH after its read.
  Torn : Bool → P.State → Type 0
  Torn late s =
      (d : ℕ) × (st : Stat) × ((run P uninit root stored fetched (torn_turns late) (start s)).fetch
        ≡ fetch_again d st (uninit.malloc (length old)))
      × (st.st_size ≡ length old)

  late_run :
      {s s1 s2 s3 s4 s5 : P.State} {d d' : ℕ} {st : Stat} {got : Bytes}
      → P.open_file remote plain_rdwr 0 s ≡ (done d, s1)
      → P.fstat (pos d) s1 ≡ (done st, s2)
      → P.lseek (pos d) 0 s2 ≡ (done 0, s3)
      → P.open_file remote create_trunc_rdwr mode_770 s3 ≡ (done d', s4)
      → P.read (pos d) st.st_size s4 ≡ (done got, s5)
      → (run P uninit root stored fetched (torn_turns true) (start s)).fetch
        ≡ fetch_again d st (fill got (uninit.malloc st.st_size))
  unfolding run turn store_step fetch_step
  late_run e1 e2 e3 e4 e5 = rw (e1, e2, e3, e4, e5) refl

  early_run :
      {s s1 s2 s3 s4 s5 : P.State} {d d' : ℕ} {st : Stat} {got : Bytes}
      → P.open_file remote plain_rdwr 0 s ≡ (done d, s1)
      → P.fstat (pos d) s1 ≡ (done st, s2)
      → P.open_file remote create_trunc_rdwr mode_770 s2 ≡ (done d', s3)
      → P.lseek (pos d) 0 s3 ≡ (done 0, s4)
      → P.read (pos d) st.st_size s4 ≡ (done got, s5)
      → (run P uninit root stored fetched (torn_turns false) (start s)).fetch
        ≡ fetch_again d st (fill got (uninit.malloc st.st_size))
  unfolding run turn store_step fetch_step
  early_run e1 e2 e3 e4 e5 = rw (e1, e2, e3, e4, e5) refl

  -- A read from an empty file into memory for the old bytes.
  reads_nothing :
      (n : ℕ) (content : Bytes)
      → content ≡ []
      → n ≡ length old
      → fill (take n (drop 0 content)) (uninit.malloc n) ≡ uninit.malloc (length old)
  reads_nothing n content empty sized =
      rw (empty, sized) (fill_nothing (length old) (uninit.malloc (length old)))

  torn :
      (late : Bool) (s : P.State)
      → (view s).entry remote ≡ some i
      → (view s).content i ≡ old
      → Torn late s
  unfolding Torn
  torn late s here text =
      let (d, s1, e1, free, v1) = healthy.open_existing s remote plain_rdwr 0 i here in
      let o : Descriptor = record { ino = i; offset = 0; append = false; access = o_rdwr } in
      let held1 : (view s1).opened (pos d) ≡ some o = rw (v1, ==ℤ_refl (pos d)) in
      let (st, s2, e2, size, v2) = healthy.fstat s1 (pos d) o held1 in
      let held2 : (view s2).opened (pos d) ≡ some o = rw v2 held1 in
      let here2 : (view s2).entry remote ≡ some i = rw (v2, v1) here in
      let sized : st.st_size ≡ length old = size ∙ rw v1 (ap length text) in
      (d, st, by_order late d st s1 s2 e1 e2 sized held2 here2, sized)
    where
      apart :
          (s : P.State) (d d' : ℕ) (o : Descriptor)
          → (view s).opened (pos d) ≡ some o
          → (view s).opened (pos d') ≡ none
          → (pos d ==ℤ pos d') ≡ false
      apart s d d' o held free =
          other_number d' d
            (λ e. clash (held ∙ refl) (ap (λ (n : ℕ). (view s).opened (pos n)) (sym e) ∙ free))

      by_order :
          (late : Bool) (d : ℕ) (st : Stat) (s1 s2 : P.State)
          → P.open_file remote plain_rdwr 0 s ≡ (done d, s1)
          → P.fstat (pos d) s1 ≡ (done st, s2)
          → st.st_size ≡ length old
          → (view s2).opened (pos d)
            ≡ some (record { ino = i; offset = 0; append = false; access = o_rdwr })
          → (view s2).entry remote ≡ some i
          → (run P uninit root stored fetched (torn_turns late) (start s)).fetch
            ≡ fetch_again d st (uninit.malloc (length old))
      by_order true d st s1 s2 e1 e2 sized held2 here2 =
          let o : Descriptor = record { ino = i; offset = 0; append = false; access = o_rdwr } in
          let (s3, e3, v3) = healthy.lseek s2 (pos d) 0 o held2 in
          let held3 : (view s3).opened (pos d) ≡ some o = rw (v3, ==ℤ_refl (pos d)) in
          let (d', s4, e4, free', v4) =
            healthy.open_existing s3 remote create_trunc_rdwr mode_770 i (rw v3 here2) in
          let empty4 : (view s4).content i ≡ [] = rw (v4, (==_iff i i).1 refl) in
          let held4 : (view s4).opened (pos d) ≡ some o =
            rw (v4, apart s3 d d' o held3 free') held3 in
          let (s5, e5, v5) = healthy.read s4 (pos d) st.st_size o held4 tt in
          late_run e1 e2 e3 e4 e5
          ∙ ap (fetch_again d st) (reads_nothing st.st_size ((view s4).content i) empty4 sized)
      by_order false d st s1 s2 e1 e2 sized held2 here2 =
          let o : Descriptor = record { ino = i; offset = 0; append = false; access = o_rdwr } in
          let (d', s3, e3, free', v3) =
            healthy.open_existing s2 remote create_trunc_rdwr mode_770 i here2 in
          let empty3 : (view s3).content i ≡ [] = rw (v3, (==_iff i i).1 refl) in
          let held3 : (view s3).opened (pos d) ≡ some o =
            rw (v3, apart s2 d d' o held2 free') held2 in
          let (s4, e4, v4) = healthy.lseek s3 (pos d) 0 o held3 in
          let held4 : (view s4).opened (pos d) ≡ some o = rw (v4, ==ℤ_refl (pos d)) in
          let (s5, e5, v5) = healthy.read s4 (pos d) st.st_size o held4 tt in
          early_run e1 e2 e3 e4 e5
          ∙ ap (fetch_again d st)
              (reads_nothing st.st_size ((view s4).content i) (rw v4 empty3) sized)

  -- On a server whose disk works and has the file with the old bytes, let STORE open the file, which
  -- empties it, after FETCH has asked for the size, in front of its lseek or behind it, and let STORE
  -- make no other call before FETCH reads. After any order of further turns with at least two of
  -- FETCH, this has ended with status OK and no error, with the size of the old bytes, and all the
  -- bytes that it replies are what malloc gave: memory of the server that nothing was written to.
  pub fetch_sends_unwritten_memory :
      (late : Bool) (rest : List Turn) (s : P.State)
      → (view s).entry remote ≡ some i
      → (view s).content i ≡ old
      → 2 ≤ turns_of_fetch rest
      → let w = run P uninit root stored fetched (torn_turns late ++ rest) (start s) in
        (q : Status × FetchReply) × (w.fetch ≡ fetch_end q)
        × (q.0 ≡ status_ok)
        × (q.1.error ≡ pos 0)
        × (q.1.size ≡ to_i32 (length old))
        × (q.1.buf ≡ uninit.malloc (length old))
  unfolding Torn
  fetch_sends_unwritten_memory late rest s here text enough =
      let w1 = run P uninit root stored fetched (torn_turns late) (start s) in
      let (d, st, at, sized) = torn late s here text in
      let begun : Carries (length old) (uninit.malloc (length old)) w1.fetch =
        rw at (sized, refl) in
      let carried = Carries-run (length old) (uninit.malloc (length old)) rest w1 begun in
      let left = run-fetch_left P uninit root stored fetched rest w1 in
      let two : fetch_left w1.fetch ≡ 2 = ap fetch_left at in
      let (q, ended) =
        fetch_ended (run P uninit root stored fetched rest w1).fetch (omega (arith, left, two)) in
      let (status, error, size, buf) : (q.0 ≡ status_ok)
          × (q.1.error ≡ pos 0)
          × (q.1.size ≡ to_i32 (length old))
          × (q.1.buf ≡ uninit.malloc (length old)) =
        rw ended at carried in
      (
        q,
        ap (λ (w : System P.State). w.fetch) (run-append (torn_turns late) rest (start s)) ∙ ended,
        status,
        error,
        size,
        buf,
      )
