-- ===== src/Server/Threads/Steps.antt =====
-- Every step of a thread in STORE or FETCH keeps what it stands for, where the disk works.
use afs_like_file_system.Common.{
  ℕ, ◌≡◌, ◌∙◌, refl, sym, ap, [], none, some, true, false, pos, ==ℤ_refl, length, take, ◌==◌,
  ==_iff, ◌<◌, ◌^◌, ◌+◌,
}
use afs_like_file_system.Machine.{Bytes, fill, to_i32}
use afs_like_file_system.Paths.{get_server_path}
use afs_like_file_system.Posix.{o_rdwr, Posix, Indeterminate}
use afs_like_file_system.Posix.Laws.{Files, IsHealthy}
use afs_like_file_system.Protocol.{status_ok, PathReq, StoreReq}
use afs_like_file_system.Server.{plain_rdwr}
use afs_like_file_system.Server.Threads.{
  StoreThread, FetchThread, store_open, store_write, store_lstat, store_close, store_end,
  fetch_open, fetch_fstat, fetch_lseek, fetch_read, fetch_again, fetch_close, fetch_end, store_step,
  fetch_step,
}
use afs_like_file_system.Server.Threads.Stages.{
  Stage, waiting, emptied, written, stage_of, next_stage, next_text, whole, InSession, thread_moves,
}
use afs_like_file_system.Server.Threads.Invariant.{
  IsVersion, store_descriptor, fetch_descriptor, StoreOk, FetchOk, OwnStep, OwnStep-same,
  OwnStep-set, OwnStep-closed, OwnStep-opened,
}

module _ (P : Posix) (view : P.State → Files) (healthy : IsHealthy P view) (uninit : Indeterminate)
    (root path old new : Bytes) (i : ℕ) (small : length new < 2 ^ 31) where
  abbrev pub remote : Bytes
  remote = get_server_path path root

  abbrev pub stored : StoreReq
  stored = record { path = path; size = pos (length new); buf = new }

  abbrev pub fetched : PathReq
  fetched = record { path = path }

  abbrev pub StoreMoved : P.State → StoreThread → StoreThread × P.State → Type 0
  StoreMoved s t (t', s') =
      ((view s').entry remote ≡ some i)
      × StoreOk uninit old new i t' (view s')
      × OwnStep (view s) (view s') (store_descriptor t) (store_descriptor t')

  abbrev pub FetchMoved : P.State → FetchThread → FetchThread × P.State → Type 0
  FetchMoved s t (t', s') =
      ((view s').entry remote ≡ some i)
      × FetchOk uninit old new i t' (view s')
      × OwnStep (view s) (view s') (fetch_descriptor t) (fetch_descriptor t')
      × ((view s').content i ≡ (view s).content i)

  ii : (i == i) ≡ true
  ii = (==_iff i i).1 refl

  -- What the file holds at a stage of the only STORE.
  version_at : Stage → Bytes
  version_at waiting = old
  version_at emptied = []
  version_at written = new

  next_version :
      (stage : Stage) → next_text new stage (version_at stage) ≡ version_at (next_stage stage)
  unfolding version_at
  next_version waiting = refl
  next_version emptied = whole new
  next_version written = refl

  session_in : (t : StoreThread) (f : Files) → StoreOk uninit old new i t f → InSession i t f
  session_in store_open f ok = tt
  session_in (store_write d) f ok = ok.1
  session_in (store_lstat d) f (text, at, held) = (at, held)
  session_in (store_close d st) f (text, at, held) = (at, held)
  session_in (store_end r) f (text, status, error) = (status, error)

  text_in :
      (t : StoreThread) (f : Files)
      → StoreOk uninit old new i t f
      → f.content i ≡ version_at (stage_of t)
  unfolding version_at
  text_in store_open f ok = ok
  text_in (store_write d) f ok = ok.0
  text_in (store_lstat d) f ok = ok.0
  text_in (store_close d st) f ok = ok.0
  text_in (store_end r) f ok = ok.0

  StoreOk-stage :
      (t : StoreThread) (f : Files)
      → InSession i t f
      → f.content i ≡ version_at (stage_of t)
      → StoreOk uninit old new i t f
  unfolding version_at
  StoreOk-stage store_open f session text = text
  StoreOk-stage (store_write d) f session text = (text, session)
  StoreOk-stage (store_lstat d) f (at, held) text = (text, at, held)
  StoreOk-stage (store_close d st) f (at, held) text = (text, at, held)
  StoreOk-stage (store_end r) f (status, error) text = (text, status, error)

  pub store_moves :
      (t : StoreThread) (s : P.State)
      → (view s).entry remote ≡ some i
      → StoreOk uninit old new i t (view s)
      → (r : StoreThread × P.State) × (store_step P uninit root stored t s ≡ r) × StoreMoved s t r
  store_moves t s here ok =
      let ((t', s'), e, (here', session, own, stage, text)) =
        thread_moves P view healthy uninit root path i new t s small here
          (session_in t (view s) ok) in
      let text' : (view s').content i ≡ version_at (stage_of t') =
        text
        ∙ ap (next_text new (stage_of t)) (text_in t (view s) ok)
        ∙ next_version (stage_of t)
        ∙ ap version_at (sym stage) in
      ((t', s'), e, (here', StoreOk-stage t' (view s') session text', own))

  pub fetch_moves :
      (t : FetchThread) (s : P.State)
      → (view s).entry remote ≡ some i
      → IsVersion old new ((view s).content i)
      → FetchOk uninit old new i t (view s)
      → (r : FetchThread × P.State) × (fetch_step P uninit root fetched t s ≡ r) × FetchMoved s t r
  unfolding fetch_step
  fetch_moves fetch_open s here version ok =
      let (d, s', e, free, v) = healthy.open_existing s remote plain_rdwr 0 i here in
      (
        (fetch_fstat d, s'),
        rw e,
        (
          rw v here,
          rw (v, ==ℤ_refl (pos d)),
          OwnStep-opened (view s) (view s') d
              (some (record { ino = i; offset = 0; append = false; access = o_rdwr })) (λ x. rw v)
              free,
          rw v,
        ),
      )
  fetch_moves (fetch_fstat d) s here version held =
      let (st, s', e, size, v) = healthy.fstat s (pos d) _ held in
      (
        (fetch_lseek d st, s'),
        rw e,
        (
          rw v here,
          (rw v held, ((view s).content i, version, size)),
          OwnStep-same (view s) (view s') (some d) v,
          rw v,
        ),
      )
  fetch_moves (fetch_lseek d info) s here version (held, sized) =
      let (s', e, v) = healthy.lseek s (pos d) 0 _ held in
      (
        (fetch_read d info, s'),
        rw e,
        (
          rw v here,
          (rw (v, ==ℤ_refl (pos d)), sized),
          OwnStep-set (view s) (view s') d
              (some (record { ino = i; offset = 0; append = false; access = o_rdwr })) (λ x. rw v),
          rw v,
        ),
      )
  fetch_moves (fetch_read d info) s here version (held, (seen, seen_version, size)) =
      let (s', e, v) = healthy.read s (pos d) info.st_size _ held tt in
      (
        (
          fetch_again d info
              (fill (take info.st_size ((view s).content i)) (uninit.malloc info.st_size)),
          s',
        ),
        rw e,
        (
          rw v here,
          (
            (0 + length (take info.st_size ((view s).content i)), rw (v, ==ℤ_refl (pos d))),
            (seen, (view s).content i, seen_version, version, size, refl),
          ),
          OwnStep-set (view s) (view s') d
              (some (record {
                ino = i;
                offset = 0 + length (take info.st_size ((view s).content i));
                append = false;
                access = o_rdwr;
              }))
              (λ x. rw v),
          rw v,
        ),
      )
  fetch_moves (fetch_again d info buf) s here version ((at, held), mixed) =
      let (st, s', e, size, v) = healthy.fstat s (pos d) _ held in
      (
        (fetch_close d info buf st, s'),
        rw e,
        (rw v here, ((at, rw v held), mixed), OwnStep-same (view s) (view s') (some d) v, rw v),
      )
  fetch_moves (fetch_close d info buf stats) s here version ((at, held), mixed) =
      let (s', e, v) = healthy.close s (pos d) _ held in
      (
        (
          fetch_end (
            status_ok,
            record {
              error = pos 0;
              size = to_i32 info.st_size;
              buf = buf;
              time = pos stats.st_mtime_nsec;
            },
          ),
          s',
        ),
        rw e,
        (
          rw v here,
          (refl, refl, info.st_size, refl, mixed),
          OwnStep-closed (view s) (view s') d none (λ x. rw v),
          rw v,
        ),
      )
  fetch_moves (fetch_end r) s here version ok =
      ((fetch_end r, s), refl, (here, ok, OwnStep-same (view s) (view s) none refl, refl))
