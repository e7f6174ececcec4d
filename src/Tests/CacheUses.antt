-- ===== src/Tests/CacheUses.antt =====
-- A sequence of calls of the table, and a path whose bytes are signed characters.
use afs_like_file_system.Common.{
  ◌≡◌, List, [], ◌∷◌, none, some, pos, negsuc, ◌+◌, ◌*◌, ◌^◌, ◌%◌, arith,
}
use afs_like_file_system.Machine.{Bytes}
use afs_like_file_system.Cache.Hash.{hashfilename}
use afs_like_file_system.Cache.Hash.Polynomial.{weighted, hashfilename-weighted}
use afs_like_file_system.Cache.Table.{Table, init_ht}
use afs_like_file_system.Cache.Refinement.{
  Call, put_time, get_time, restart, run_table, run_times, Tracks, Tracks-init_ht,
  run_table-refines,
}

-- "/a" and "/é", whose second character is two negative ones
abbrev file_a : Bytes
file_a = b'/' ∷ b'a' ∷ []

abbrev file_e : Bytes
file_e = b'/' ∷ 195 ∷ 169 ∷ []

hashfilename-weighted_example : hashfilename file_e ≡ (5381 * 33 ^ 3 + weighted file_e) % 2 ^ 64
hashfilename-weighted_example = hashfilename-weighted file_e

abbrev calls : List Call
calls =
    get_time file_a
    ∷ put_time file_a (pos 7)
    ∷ put_time file_e (pos 8)
    ∷ restart
    ∷ get_time file_e
    ∷ put_time file_a (negsuc 1)
    ∷ restart
    ∷ get_time file_a
    ∷ []

run_table-refines_example :
    (ht : Table) × (run_table calls init_ht ≡ some ((run_times calls (λ q. none)).0, ht))
    × Tracks ht (run_times calls (λ q. none)).1
run_table-refines_example =
    run_table-refines calls init_ht (λ q. none)
      (tt, (omega arith, (omega arith, (tt, (tt, (omega arith, (tt, (tt, tt)))))))) Tracks-init_ht
