-- ===== src/Server/Threads/Progress.antt =====
-- How many turns the two threads need.
use afs_like_file_system.Common.{ℕ, ◌+◌, ◌-◌, ◌≤◌, ◌≡◌, refl, List, [], ◌∷◌, arith}
use afs_like_file_system.Posix.{Posix, Indeterminate, Sys, done, failed}
use afs_like_file_system.Machine.{Bytes}
use afs_like_file_system.Protocol.{Status, PathReq, StoreReq, StoreRes, FetchReply}
use afs_like_file_system.Server.Threads.{
  StoreThread, FetchThread, System, Turn, store_turn, fetch_turn, store_open, store_write,
  store_lstat, store_close, store_end, fetch_open, fetch_fstat, fetch_lseek, fetch_read,
  fetch_again, fetch_close, fetch_end, store_step, fetch_step, store_opened, fetch_opened, turn,
  run,
}

abbrev pub store_left : StoreThread → ℕ
store_left store_open = 4
store_left (store_write d) = 3
store_left (store_lstat d) = 2
store_left (store_close d st) = 1
store_left (store_end r) = 0

abbrev pub fetch_left : FetchThread → ℕ
fetch_left fetch_open = 6
fetch_left (fetch_fstat d) = 5
fetch_left (fetch_lseek d st) = 4
fetch_left (fetch_read d st) = 3
fetch_left (fetch_again d st b) = 2
fetch_left (fetch_close d st b st') = 1
fetch_left (fetch_end r) = 0

unfoldable pub turns_of_store : List Turn → ℕ
turns_of_store [] = 0
turns_of_store (store_turn ∷ turns) = 1 + turns_of_store turns
turns_of_store (fetch_turn ∷ turns) = turns_of_store turns

unfoldable pub turns_of_fetch : List Turn → ℕ
turns_of_fetch [] = 0
turns_of_fetch (store_turn ∷ turns) = turns_of_fetch turns
turns_of_fetch (fetch_turn ∷ turns) = 1 + turns_of_fetch turns

pub store_ended : (t : StoreThread) → store_left t ≤ 0 → (r : Status × StoreRes) × (t ≡ store_end r)
store_ended store_open h = absurd (omega arith)
store_ended (store_write d) h = absurd (omega arith)
store_ended (store_lstat d) h = absurd (omega arith)
store_ended (store_close d st) h = absurd (omega arith)
store_ended (store_end r) h = (r, refl)

pub fetch_ended :
    (t : FetchThread) → fetch_left t ≤ 0 → (r : Status × FetchReply) × (t ≡ fetch_end r)
fetch_ended fetch_open h = absurd (omega arith)
fetch_ended (fetch_fstat d) h = absurd (omega arith)
fetch_ended (fetch_lseek d st) h = absurd (omega arith)
fetch_ended (fetch_read d st) h = absurd (omega arith)
fetch_ended (fetch_again d st b) h = absurd (omega arith)
fetch_ended (fetch_close d st b st') h = absurd (omega arith)
fetch_ended (fetch_end r) h = (r, refl)

module _ (P : Posix) (uninit : Indeterminate) (root : Bytes) (stored : StoreReq)
    (fetched : PathReq) where
  store_opened-left : (r : Sys ℕ × P.State) → store_left (store_opened P uninit root r).0 ≤ 3
  store_opened-left (done d, s) = omega arith
  store_opened-left (failed e, s) = omega arith

  fetch_opened-left : (r : Sys ℕ × P.State) → fetch_left (fetch_opened P uninit root r).0 ≤ 5
  fetch_opened-left (done d, s) = omega arith
  fetch_opened-left (failed e, s) = omega arith

  pub store_step-left :
      (t : StoreThread) (s : P.State)
      → store_left (store_step P uninit root stored t s).0 ≤ store_left t - 1
  unfolding store_step
  store_step-left store_open s = store_opened-left _
  store_step-left (store_write d) s = omega arith
  store_step-left (store_lstat d) s = omega arith
  store_step-left (store_close d st) s = omega arith
  store_step-left (store_end r) s = omega arith

  fetch_step-left :
      (t : FetchThread) (s : P.State)
      → fetch_left (fetch_step P uninit root fetched t s).0 ≤ fetch_left t - 1
  unfolding fetch_step
  fetch_step-left fetch_open s = fetch_opened-left _
  fetch_step-left (fetch_fstat d) s = omega arith
  fetch_step-left (fetch_lseek d st) s = omega arith
  fetch_step-left (fetch_read d st) s = omega arith
  fetch_step-left (fetch_again d st b) s = omega arith
  fetch_step-left (fetch_close d st b st') s = omega arith
  fetch_step-left (fetch_end r) s = omega arith

  pub run-store_left :
      (turns : List Turn) (w : System P.State)
      → store_left (run P uninit root stored fetched turns w).store
        ≤ store_left w.store - turns_of_store turns
  unfolding run turn turns_of_store
  run-store_left [] w = omega arith
  run-store_left (store_turn ∷ turns) w =
      let rest = run-store_left turns (turn P uninit root stored fetched store_turn w) in
      let one = store_step-left w.store w.os in omega (arith, rest, one)
  run-store_left (fetch_turn ∷ turns) w = run-store_left turns _

  pub run-fetch_left :
      (turns : List Turn) (w : System P.State)
      → fetch_left (run P uninit root stored fetched turns w).fetch
        ≤ fetch_left w.fetch - turns_of_fetch turns
  unfolding run turn turns_of_fetch
  run-fetch_left [] w = omega arith
  run-fetch_left (store_turn ∷ turns) w = run-fetch_left turns _
  run-fetch_left (fetch_turn ∷ turns) w =
      let rest = run-fetch_left turns (turn P uninit root stored fetched fetch_turn w) in
      let one = fetch_step-left w.fetch w.os in omega (arith, rest, one)
