-- ===== src/Server/Threads/Stages.antt =====
-- What STORE does to its file, one system call at a time: it empties it, then writes at its start.
use afs_like_file_system.Common.{
  ℕ, ◌+◌, ◌<◌, ◌^◌, ◌≡◌, ◌≢◌, ◌∙◌, refl, [], some, none, pos, true, false, ◌==◌, ==_iff, ==ℤ_refl,
  length, take, take_all, arith,
}
use afs_like_file_system.Machine.{Bytes}
use afs_like_file_system.Paths.{get_server_path}
use afs_like_file_system.Posix.{o_rdwr, create_trunc_rdwr, Posix, Indeterminate, mode_770}
use afs_like_file_system.Posix.Laws.{splice_whole, write_size, splice, Files, Descriptor, IsHealthy}
use afs_like_file_system.Protocol.{status_ok, StoreReq}
use afs_like_file_system.Server.Threads.{
  StoreThread, store_open, store_write, store_lstat, store_close, store_end, store_step,
}
use afs_like_file_system.Server.Threads.Invariant.{
  store_descriptor, OwnStep, OwnStep-same, OwnStep-set, OwnStep-closed, OwnStep-opened,
}

pub data Stage : Type 0 where
  waiting emptied written : Stage

abbrev pub stage_of : StoreThread → Stage
stage_of store_open = waiting
stage_of (store_write d) = emptied
stage_of (store_lstat d) = written
stage_of (store_close d st) = written
stage_of (store_end r) = written

abbrev pub next_stage : Stage → Stage
next_stage waiting = emptied
next_stage emptied = written
next_stage written = written

-- The file's bytes after the next call.
abbrev pub next_text : Bytes → Stage → Bytes → Bytes
next_text new waiting text = []
next_text new emptied text = splice text 0 new
next_text new written text = text

-- A write at the start of an empty file.
pub whole : (new : Bytes) → splice [] 0 new ≡ new
whole new = rw (take_all (length new) new (omega arith)) at (splice_whole new)

abbrev pub OpenOn : ℕ → Files → ℕ → ℕ → Type 0
OpenOn i f d at =
    f.opened (pos d) ≡ some (record { ino = i; offset = at; append = false; access = o_rdwr })

-- The thread has its descriptor, or has reported success.
abbrev pub InSession : ℕ → StoreThread → Files → Type 0
InSession i store_open f = Unit
InSession i (store_write d) f = OpenOn i f d 0
InSession i (store_lstat d) f = (at : ℕ) × OpenOn i f d at
InSession i (store_close d st) f = (at : ℕ) × OpenOn i f d at
InSession i (store_end r) f = (r.0 ≡ status_ok) × (r.1.error ≡ pos 0)

pub InSession-frame :
    (i : ℕ) (t : StoreThread) (f f' : Files)
    → ((d : ℕ) → store_descriptor t ≡ some d → f'.opened (pos d) ≡ f.opened (pos d))
    → InSession i t f
    → InSession i t f'
InSession-frame i store_open f f' o h = tt
InSession-frame i (store_write d) f f' o h = o d refl ∙ h
InSession-frame i (store_lstat d) f f' o (at, held) = (at, o d refl ∙ held)
InSession-frame i (store_close d st) f f' o (at, held) = (at, o d refl ∙ held)
InSession-frame i (store_end r) f f' o h = h

pub InSession-opened :
    (i : ℕ) (t : StoreThread) (f : Files) (d : ℕ)
    → InSession i t f
    → store_descriptor t ≡ some d
    → f.opened (pos d) ≢ none
InSession-opened i store_open f d h e free = cc
InSession-opened i (store_write x) f d h e free = cc
InSession-opened i (store_lstat x) f d (at, held) e free = cc
InSession-opened i (store_close x st) f d (at, held) e free = cc
InSession-opened i (store_end r) f d h e free = cc

module _ (P : Posix) (view : P.State → Files) (healthy : IsHealthy P view) (uninit : Indeterminate)
    (root path : Bytes) (i : ℕ) where
  abbrev pub request_of : Bytes → StoreReq
  request_of new = record { path = path; size = pos (length new); buf = new }

  abbrev pub Moved : Bytes → P.State → StoreThread → StoreThread × P.State → Type 0
  Moved new s t (t', s') =
      ((view s').entry (get_server_path path root) ≡ some i)
      × InSession i t' (view s')
      × OwnStep (view s) (view s') (store_descriptor t) (store_descriptor t')
      × (stage_of t' ≡ next_stage (stage_of t))
      × ((view s').content i ≡ next_text new (stage_of t) ((view s).content i))

  ii : (i == i) ≡ true
  ii = (==_iff i i).1 refl

  pub thread_moves :
      (new : Bytes) (t : StoreThread) (s : P.State)
      → length new < 2 ^ 31
      → (view s).entry (get_server_path path root) ≡ some i
      → InSession i t (view s)
      → (r : StoreThread × P.State) × (store_step P uninit root (request_of new) t s ≡ r)
        × Moved new s t r
  unfolding store_step
  thread_moves new store_open s small here ok =
      let (d, s', e, free, v) =
        healthy.open_existing s (get_server_path path root) create_trunc_rdwr mode_770 i here in
      let o : Descriptor = record { ino = i; offset = 0; append = false; access = o_rdwr } in
      (
        (store_write d, s'),
        rw e,
        (
          rw v here,
          rw (v, ==ℤ_refl (pos d)),
          OwnStep-opened (view s) (view s') d (some o) (λ x. rw v) free,
          refl,
          rw (v, ii),
        ),
      )
  thread_moves new (store_write d) s small here held =
      let o : Descriptor = record { ino = i; offset = 0; append = false; access = o_rdwr } in
      let (s', e, v) = healthy.write s (pos d) new (length new) o held tt (omega arith) in
      let o' : Descriptor = record o { offset = 0 + length (take (length new) new) } in
      (
        (store_lstat d, s'),
        rw (write_size P new small e),
        (
          rw v here,
          (0 + length (take (length new) new), rw (v, ==ℤ_refl (pos d))),
          OwnStep-set (view s) (view s') d (some o') (λ x. rw v),
          refl,
          rw (v, ii, take_all (length new) new (omega arith)),
        ),
      )
  thread_moves new (store_lstat d) s small here (at, held) =
      let (st, s', e, size, v) = healthy.lstat s (get_server_path path root) i here in
      (
        (store_close d st, s'),
        rw e,
        (rw v here, (at, rw v held), OwnStep-same (view s) (view s') (some d) v, refl, rw v),
      )
  thread_moves new (store_close d st) s small here (at, held) =
      let (s', e, v) = healthy.close s (pos d) _ held in
      (
        (store_end (status_ok, record { error = pos 0; time = pos st.st_mtime_nsec }), s'),
        rw e,
        (rw v here, (refl, refl), OwnStep-closed (view s) (view s') d none (λ x. rw v), refl, rw v),
      )
  thread_moves new (store_end r) s small here ok =
      ((store_end r, s), refl, (here, ok, OwnStep-same (view s) (view s) none refl, refl, refl))
