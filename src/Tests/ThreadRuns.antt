-- ===== src/Tests/ThreadRuns.antt =====
-- A STORE and a FETCH of "/a" on two threads of a server, in three orders.
use afs_like_file_system.Common.{
  ℕ, true, false, ◌≡◌, ◌<◌, ◌^◌, refl, [], ◌∷◌, ◌++◌, List, pos, length, arith,
}
use afs_like_file_system.Machine.{to_i32}
use afs_like_file_system.Protocol.{Status, status_ok, PathReq, StoreReq, StoreRes, FetchReply}
use afs_like_file_system.Server.Process.{Host}
use afs_like_file_system.Server.Threads.{
  Turn, store_turn, fetch_turn, store_end, fetch_end, start, run,
}
use afs_like_file_system.Server.Threads.Invariant.{Mixed}
use afs_like_file_system.Server.Threads.Progress.{turns_of_store, turns_of_fetch}
use afs_like_file_system.Server.Threads.Races.{runs, store_races_fetch}
use afs_like_file_system.Server.Threads.Outline.{IsOutcome}
use afs_like_file_system.Server.Threads.Pair.{
  Side, first_turn, second_turn, start_pair, turns_of_first, turns_of_second,
}
use afs_like_file_system.Server.Threads.Stores.{
  Succeeded, runs_pair, tearing_turns, store_races_store, stores_mix_bytes,
}
use afs_like_file_system.Server.Threads.Torn.{torn_turns, fetch_sends_unwritten_memory}
use afs_like_file_system.Tests.Memory.{Memory, memory, view, memory-IsHealthy, zeroed}
use afs_like_file_system.Tests.Stage.{root, file_a, new, older, server_disk, file_there}

abbrev store_new : StoreReq
store_new = record { path = file_a; size = pos 3; buf = new }

abbrev fetch_a : PathReq
fetch_a = record { path = file_a }

abbrev host : Host Memory
host = record { os = server_disk; error_number = 0 }

-- FETCH reads between the opening and the write of STORE.
abbrev mixed_turns : List Turn
mixed_turns =
    store_turn ∷ fetch_turn ∷ fetch_turn ∷ store_turn ∷ fetch_turn ∷ fetch_turn ∷ store_turn
    ∷ fetch_turn ∷ store_turn ∷ fetch_turn ∷ []

short : length new < 2 ^ 31
short = omega arith

store_races_fetch_example :
    let w =
      runs memory view memory-IsHealthy zeroed root file_a older new 1 short mixed_turns
        (start server_disk) in
    (r : Status × StoreRes) × (q : Status × FetchReply) × (w.store ≡ store_end r)
    × (w.fetch ≡ fetch_end q)
    × ((view w.os).content 1 ≡ new)
    × (r.0 ≡ status_ok)
    × (r.1.error ≡ pos 0)
    × (q.0 ≡ status_ok)
    × (q.1.error ≡ pos 0)
    × (size : ℕ) × (q.1.size ≡ to_i32 size)
    × Mixed zeroed older new 1 size q.1.buf
unfolding turns_of_store turns_of_fetch
store_races_fetch_example =
    store_races_fetch memory view memory-IsHealthy zeroed root file_a older new 1 short server_disk
      mixed_turns file_there refl (omega arith) (omega arith)

-- STORE writes before FETCH closes the file.
abbrev torn_rest : List Turn
torn_rest = store_turn ∷ fetch_turn ∷ store_turn ∷ fetch_turn ∷ store_turn ∷ []

fetch_sends_unwritten_memory_example :
    let w =
      run memory zeroed root store_new fetch_a (torn_turns true ++ torn_rest) (start server_disk) in
    (q : Status × FetchReply) × (w.fetch ≡ fetch_end q)
    × (q.0 ≡ status_ok)
    × (q.1.error ≡ pos 0)
    × (q.1.size ≡ to_i32 5)
    × (q.1.buf ≡ 0 ∷ 0 ∷ 0 ∷ 0 ∷ 0 ∷ [])
unfolding turns_of_fetch
fetch_sends_unwritten_memory_example =
    fetch_sends_unwritten_memory memory view memory-IsHealthy zeroed root file_a older new 1 true
      torn_rest server_disk file_there refl (omega arith)

-- The two threads take turns, the second one first, after it has emptied the file.
abbrev pair_turns : List Side
pair_turns =
    second_turn ∷ second_turn ∷ first_turn ∷ first_turn ∷ second_turn ∷ first_turn ∷ second_turn
    ∷ first_turn ∷ []

old_short : length older < 2 ^ 31
old_short = omega arith

store_races_store_example :
    let w =
      runs_pair memory view memory-IsHealthy zeroed root file_a older new 1 old_short short
        pair_turns
        (start_pair server_disk) in
    Succeeded w.first × Succeeded w.second × IsOutcome older new ((view w.os).content 1)
unfolding turns_of_first turns_of_second
store_races_store_example =
    store_races_store memory view memory-IsHealthy zeroed root file_a older new 1 old_short short
      server_disk pair_turns file_there (omega arith) (omega arith)

-- The second thread writes at once, and each of them ends.
abbrev tearing_rest : List Side
tearing_rest = second_turn ∷ first_turn ∷ second_turn ∷ second_turn ∷ first_turn ∷ []

-- One thread stores "older", the other one "new"; the file then holds "newer".
stores_mix_bytes_example :
    let w =
      runs_pair memory view memory-IsHealthy zeroed root file_a older new 1 old_short short
        (tearing_turns false ++ tearing_rest)
        (start_pair server_disk) in
    Succeeded w.first
    × Succeeded w.second
    × ((view w.os).content 1 ≡ b'n' ∷ b'e' ∷ b'w' ∷ b'e' ∷ b'r' ∷ [])
unfolding turns_of_first turns_of_second
stores_mix_bytes_example =
    stores_mix_bytes memory view memory-IsHealthy zeroed root file_a older new 1 old_short short
      false tearing_rest server_disk file_there (omega arith) (omega arith)
