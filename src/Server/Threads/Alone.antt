-- ===== src/Server/Threads/Alone.antt =====
-- Threads that take turns one handler after the other do what the handlers do.
use afs_like_file_system.Common.{arith, ℕ, ◌≡◌, ◌∙◌, ap, negsuc, refl, List, [], ◌∷◌, ◌++◌, pos}
use afs_like_file_system.Machine.{to_i32, Bytes, to_size, fill}
use afs_like_file_system.Paths.{get_server_path}
use afs_like_file_system.Posix.{
  bytes_or_empty, create_trunc_rdwr, Posix, Indeterminate, Stat, Sys, done, failed, mode_770,
  stat_or,
}
use afs_like_file_system.Protocol.{fetch_reply, store_res, status_ok, PathReq, StoreReq}
use afs_like_file_system.Server.{plain_rdwr, afs_store, afs_fetch}
use afs_like_file_system.Server.Process.{Host, settle}
use afs_like_file_system.Server.Threads.{
  System, start, store_turn, fetch_turn, Turn, run, turn, store_step, fetch_step, store_open,
  store_end, fetch_open, fetch_end, StoreThread, FetchThread, value_of,
}

-- What a call leaves, in terms of its result.
settled :
    {Os A : Type 0} (r : Sys A × Os) (h : Host Os)
    → (e : ℕ) × (settle r h ≡ (value_of r.0, record { os = r.1; error_number = e }))
settled (done a, s) h = (h.error_number, refl)
settled (failed e, s) h = (e, refl)

abbrev pub store_turns : List Turn
store_turns = store_turn ∷ store_turn ∷ store_turn ∷ store_turn ∷ []

abbrev pub fetch_turns : List Turn
fetch_turns = fetch_turn ∷ fetch_turn ∷ fetch_turn ∷ fetch_turn ∷ fetch_turn ∷ fetch_turn ∷ []

module _ (P : Posix) (uninit : Indeterminate) (root_path : Bytes) (stored : StoreReq)
    (fetched : PathReq) where
  abbrev StoresAlone : Host P.State → FetchThread → Type 0
  StoresAlone h t =
      run P uninit root_path stored fetched store_turns
        (record { store = store_open; fetch = t; os = h.os })
      ≡ (record {
        store = store_end (afs_store P uninit root_path stored h).0;
        fetch = t;
        os = (afs_store P uninit root_path stored h).1.os;
      })

  store_after :
      (h : Host P.State) {d : ℕ} {s : P.State}
      → P.open_file (get_server_path stored.path root_path) create_trunc_rdwr mode_770 h.os
        ≡ (done d, s)
      → let s1 = (P.write (pos d) stored.buf (to_size stored.size) s).1 in
        let (res, s2) = P.lstat (get_server_path stored.path root_path) s1 in
        (e : ℕ) × (afs_store P uninit root_path stored h ≡ (
          (
            status_ok,
            record { error = pos 0; time = pos (stat_or uninit.stat (value_of res)).st_mtime_nsec },
          ),
          record { os = (P.close (pos d) s2).1; error_number = e },
        ))
  unfolding afs_store
  store_after h {d} {s} o =
      let s1 = (P.write (pos d) stored.buf (to_size stored.size) s).1 in
      let s2 = (P.lstat (get_server_path stored.path root_path) s1).1 in
      let (e1, q1) =
        settled (P.write (pos d) stored.buf (to_size stored.size) s) (record h { os = s }) in
      let (e2, q2) =
        settled (P.lstat (get_server_path stored.path root_path) s1)
          (record { os = s1; error_number = e1 }) in
      let (e3, q3) = settled (P.close (pos d) s2) (record { os = s2; error_number = e2 }) in
      (e3, ground arith)

  store_failed :
      (h : Host P.State) {e : ℕ} {s : P.State}
      → P.open_file (get_server_path stored.path root_path) create_trunc_rdwr mode_770 h.os
        ≡ (failed e, s)
      → afs_store P uninit root_path stored h
        ≡ ((status_ok, record store_res { error = to_i32 e }), record { os = s; error_number = e })
  unfolding afs_store
  store_failed h o = ground arith

  store_alone : (h : Host P.State) (t : FetchThread) → StoresAlone h t
  unfolding run turn store_step afs_store
  store_alone h t =
      by_open (P.open_file (get_server_path stored.path root_path) create_trunc_rdwr mode_770 h.os)
        refl
    where
      by_open :
          (r : Sys ℕ × P.State)
          → P.open_file (get_server_path stored.path root_path) create_trunc_rdwr mode_770 h.os ≡ r
          → StoresAlone h t
      by_open (failed e, s) o = rw (store_failed h o, o) refl
      by_open (done d, s) o = let (e, after) = store_after h o in rw (after, o) refl

  module _ (h : Host P.State) {d : ℕ} {s : P.State}
      (opened : P.open_file (get_server_path fetched.path root_path) plain_rdwr 0 h.os
        ≡ (done d, s)) where
    abbrev first : Sys Stat × P.State
    first = P.fstat (pos d) s

    abbrev info : Stat
    info = stat_or uninit.stat (value_of first.0)

    abbrev rewound : P.State
    rewound = (P.lseek (pos d) 0 first.1).1

    abbrev got : Sys Bytes × P.State
    got = P.read (pos d) info.st_size rewound

    abbrev second : Sys Stat × P.State
    second = P.fstat (pos d) got.1

    fetch_after :
        (e : ℕ) × (afs_fetch P uninit root_path fetched h ≡ (
          (
            status_ok,
            record {
              error = pos 0;
              size = to_i32 info.st_size;
              buf = fill (bytes_or_empty (value_of got.0)) (uninit.malloc info.st_size);
              time = pos (stat_or uninit.stat (value_of second.0)).st_mtime_nsec;
            },
          ),
          record { os = (P.close (pos d) second.1).1; error_number = e },
        ))
    unfolding afs_fetch
    fetch_after =
        let (e1, q1) = settled first (record h { os = s }) in
        let (e2, q2) =
          settled (P.lseek (pos d) 0 first.1) (record { os = first.1; error_number = e1 }) in
        let (e3, q3) = settled got (record { os = rewound; error_number = e2 }) in
        let (e4, q4) = settled second (record { os = got.1; error_number = e3 }) in
        let (e5, q5) =
          settled (P.close (pos d) second.1) (record { os = second.1; error_number = e4 }) in
        (e5, ground arith)

  fetch_failed :
      (h : Host P.State) {e : ℕ} {s : P.State}
      → P.open_file (get_server_path fetched.path root_path) plain_rdwr 0 h.os ≡ (failed e, s)
      → afs_fetch P uninit root_path fetched h ≡ (
        (status_ok, record fetch_reply { error = negsuc 0 }),
        record { os = s; error_number = e },
      )
  unfolding afs_fetch
  fetch_failed h o = ground arith

  abbrev FetchesAlone : Host P.State → StoreThread → Type 0
  FetchesAlone h t =
      run P uninit root_path stored fetched fetch_turns
        (record { store = t; fetch = fetch_open; os = h.os })
      ≡ (record {
        store = t;
        fetch = fetch_end (afs_fetch P uninit root_path fetched h).0;
        os = (afs_fetch P uninit root_path fetched h).1.os;
      })

  fetch_alone : (h : Host P.State) (t : StoreThread) → FetchesAlone h t
  unfolding run turn fetch_step afs_fetch
  fetch_alone h t =
      by_open (P.open_file (get_server_path fetched.path root_path) plain_rdwr 0 h.os) refl
    where
      by_open :
          (r : Sys ℕ × P.State)
          → P.open_file (get_server_path fetched.path root_path) plain_rdwr 0 h.os ≡ r
          → FetchesAlone h t
      by_open (failed e, s) o = rw (fetch_failed h o, o) refl
      by_open (done d, s) o = let (e, after) = fetch_after h o in rw (after, o) refl

  run-append :
      (turns more : List Turn) (w : System P.State)
      → run P uninit root_path stored fetched (turns ++ more) w
        ≡ run P uninit root_path stored fetched more (run P uninit root_path stored fetched turns w)
  unfolding run
  run-append [] more w = refl
  run-append (t ∷ turns) more w = run-append turns more _

  -- Whatever the file system does: if the thread in STORE makes its four system calls before the
  -- thread in FETCH makes its six, then the replies and the file system are those of the two
  -- handlers, one after the other.
  pub sequential_schedule :
      (h : Host P.State)
      → let (reply, h1) = afs_store P uninit root_path stored h in
        let (reply', h2) = afs_fetch P uninit root_path fetched h1 in
        run P uninit root_path stored fetched (store_turns ++ fetch_turns) (start h.os)
        ≡ (record { store = store_end reply; fetch = fetch_end reply'; os = h2.os })
  sequential_schedule h =
      let (reply, h1) = afs_store P uninit root_path stored h in
      run-append store_turns fetch_turns (start h.os)
      ∙ ap (run P uninit root_path stored fetched fetch_turns) (store_alone h fetch_open)
      ∙ fetch_alone h1 (store_end reply)
