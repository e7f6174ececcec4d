-- ===== src/Server/Threads/Pair.antt =====
-- Two threads in STORE of one path, at once.
use afs_like_file_system.Common.{ℕ, ◌+◌, ◌-◌, ◌≤◌, List, [], ◌∷◌, arith}
use afs_like_file_system.Posix.{Posix, Indeterminate}
use afs_like_file_system.Machine.{Bytes}
use afs_like_file_system.Protocol.{StoreReq}
use afs_like_file_system.Server.Threads.{StoreThread, store_open, store_step}
use afs_like_file_system.Server.Threads.Progress.{store_left, store_step-left}

pub data Side : Type 0 where
  first_turn second_turn : Side

pub record Pair (Os : Type 0) : Type 0 where
  pub first : StoreThread
  pub second : StoreThread
  pub os : Os

abbrev pub start_pair : {Os : Type 0} → Os → Pair Os
start_pair s = record { first = store_open; second = store_open; os = s }

unfoldable pub turns_of_first : List Side → ℕ
turns_of_first [] = 0
turns_of_first (first_turn ∷ turns) = 1 + turns_of_first turns
turns_of_first (second_turn ∷ turns) = turns_of_first turns

unfoldable pub turns_of_second : List Side → ℕ
turns_of_second [] = 0
turns_of_second (first_turn ∷ turns) = turns_of_second turns
turns_of_second (second_turn ∷ turns) = 1 + turns_of_second turns

module _ (P : Posix) (uninit : Indeterminate) (root : Bytes) (one other : StoreReq) where
  unfoldable pub pair_turn : Side → Pair P.State → Pair P.State
  pair_turn first_turn w =
      let (t, s) = store_step P uninit root one w.first w.os in record w { first = t; os = s }
  pair_turn second_turn w =
      let (t, s) = store_step P uninit root other w.second w.os in record w { second = t; os = s }

  unfoldable pub pair_run : List Side → Pair P.State → Pair P.State
  pair_run [] w = w
  pair_run (t ∷ turns) w = pair_run turns (pair_turn t w)

  pub pair_run-first_left :
      (turns : List Side) (w : Pair P.State)
      → store_left (pair_run turns w).first ≤ store_left w.first - turns_of_first turns
  unfolding pair_run pair_turn turns_of_first
  pair_run-first_left [] w = omega arith
  pair_run-first_left (first_turn ∷ turns) w =
      let rest = pair_run-first_left turns (pair_turn first_turn w) in
      let step = store_step-left P uninit root one (record { path = [] }) w.first w.os in
      omega (arith, rest, step)
  pair_run-first_left (second_turn ∷ turns) w = pair_run-first_left turns _

  pub pair_run-second_left :
      (turns : List Side) (w : Pair P.State)
      → store_left (pair_run turns w).second ≤ store_left w.second - turns_of_second turns
  unfolding pair_run pair_turn turns_of_second
  pair_run-second_left [] w = omega arith
  pair_run-second_left (first_turn ∷ turns) w = pair_run-second_left turns _
  pair_run-second_left (second_turn ∷ turns) w =
      let rest = pair_run-second_left turns (pair_turn second_turn w) in
      let step = store_step-left P uninit root other (record { path = [] }) w.second w.os in
      omega (arith, rest, step)
