-- ===== src/Tests/ClientRuns.antt =====
-- The client on a small cache in memory, with a server that is silent and with one that always
-- answers the same.
use afs_like_file_system.Common.{
  ℕ, ◌≡◌, refl, List, [], ◌∷◌, none, some, true, false, pos, neg_ℕ, take, arith,
}
use afs_like_file_system.Machine.{Bytes}
use afs_like_file_system.Cache.Table.{init_ht}
use afs_like_file_system.Cache.Invariant.{init_ht-IsValid}
use afs_like_file_system.Protocol.{
  PathReq, StoreReq, create_res, store_res, error_res, fetch_reply, getattr_res,
}
use afs_like_file_system.Client.Process.{Stub, Client, ok}
use afs_like_file_system.Client.Transfer.{afs_fetch, afs_getattr, afs_store}
use afs_like_file_system.Client.Names.{afs_unlink, afs_chmod, afs_mkdir, afs_rmdir}
use afs_like_file_system.Client.Keeps.{Ends, IsReady}
use afs_like_file_system.Client.Ready.{IsStub}
use afs_like_file_system.Client.Down.{
  all_pauses, fresh_client, repeat, unanswered, IsDown, unanswered_operations,
}
use afs_like_file_system.Client.Results.{ReturnsZero, name_calls_return_zero}
use afs_like_file_system.Fuse.{Request, create, write, read, release, open_file}
use afs_like_file_system.Fuse.Session.{session, session-IsReady}
use afs_like_file_system.Tests.Memory.{Memory, memory, zeroed}

-- "/cache", "/a" and its copy "/cache/a"
abbrev cache_path : Bytes
cache_path = b'/' ∷ b'c' ∷ b'a' ∷ b'c' ∷ b'h' ∷ b'e' ∷ []

abbrev file_a : Bytes
file_a = b'/' ∷ b'a' ∷ []

abbrev cached_a : Bytes
cached_a = b'/' ∷ b'c' ∷ b'a' ∷ b'c' ∷ b'h' ∷ b'e' ∷ b'/' ∷ b'a' ∷ []

abbrev hey : Bytes
hey = b'h' ∷ b'e' ∷ b'y' ∷ []

abbrev disk : Bytes → ℕ → Memory
disk p stamp = record {
  paths = (p, some 1) ∷ [];
  content = λ i. hey;
  descriptors = [];
  stamp = stamp;
}

-- A server that never answers.
abbrev silent : Stub
silent = record {
  Net = Unit;
  create = λ q n. (none, n);
  store = λ q n. (none, n);
  fetch = λ q n. (none, n);
  getattr = λ q n. (none, n);
  unlink = λ q n. (none, n);
  chmod = λ q n. (none, n);
  mkdir = λ q n. (none, n);
  rmdir = λ q n. (none, n);
  ls = λ q n. (([], false), n);
  errno_after = λ n e. e;
}

silent-IsDown : IsDown silent
silent-IsDown = record { no_fetch = λ q n. refl; no_getattr = λ q n. refl; no_store = λ q n. refl }

abbrev get_a : PathReq
get_a = record { path = file_a }

abbrev store_a : StoreReq
store_a = record { path = file_a; size = pos 2; buf = take 2 hey }

unanswered_operations_example :
    let after = λ (n : Unit {0} × ℕ). fresh_client (disk cached_a 0) n init_ht all_pauses in
    let g = repeat 6 (unanswered silent (silent.getattr get_a)) (tt, 4) in
    let f = repeat 6 (unanswered silent (silent.fetch get_a)) (tt, 4) in
    let s = repeat 6 (unanswered silent (silent.store store_a)) (tt, 4) in
    (afs_getattr memory silent cache_path file_a zeroed.stat
        (fresh_client (disk cached_a 0) (tt, 4) init_ht [])
      ≡ ok (neg_ℕ g.1, zeroed.stat) (after g))
    × (afs_fetch memory silent cache_path file_a []
          (pos 0)
          (fresh_client (disk cached_a 0) (tt, 4) init_ht [])
        ≡ ok (neg_ℕ f.1, [], pos 0) (after f))
    × (afs_store memory silent cache_path file_a hey
          (pos 2)
          (fresh_client (disk cached_a 0) (tt, 4) init_ht [])
        ≡ ok (pos 0) (after s))
unanswered_operations_example =
    unanswered_operations memory silent silent-IsDown cache_path file_a (disk cached_a 0) (tt, 4)
      init_ht [] zeroed.stat [] (pos 0) hey 2

name_calls_return_zero_example :
    let c : Client Memory (Unit {0}) = fresh_client (disk cached_a 0) (tt, 4) init_ht [] in
    ReturnsZero (afs_unlink memory silent cache_path file_a c)
    × ReturnsZero (afs_rmdir memory silent cache_path file_a c)
    × ReturnsZero (afs_chmod memory silent cache_path file_a 0o700 c)
    × ReturnsZero (afs_mkdir memory silent cache_path file_a 0o700 c)
name_calls_return_zero_example =
    name_calls_return_zero memory silent cache_path file_a
      (fresh_client (disk cached_a 0) (tt, 4) init_ht []) 0o700

-- A server that answers every call in the same way.
abbrev pub fixed : Stub
fixed = record {
  Net = Unit;
  create = λ q n. (some (record create_res { time = pos 5 }), n);
  store = λ q n. (some (record store_res { time = pos 6 }), n);
  fetch = λ q n. (some (record fetch_reply { size = pos 3; buf = hey; time = pos 7 }), n);
  getattr = λ q n. (some (record getattr_res { mtime = pos 7 }), n);
  unlink = λ q n. (some error_res, n);
  chmod = λ q n. (some error_res, n);
  mkdir = λ q n. (some error_res, n);
  rmdir = λ q n. (some error_res, n);
  ls = λ q n. (([], true), n);
  errno_after = λ n e. e;
}

fixed-IsStub : IsStub fixed
fixed-IsStub = record {
  create_time = λ q n r e. ground arith;
  fetch_time = λ q n r e. ground arith;
  store_time = λ q n r e. ground arith;
}

abbrev requests : List Request
requests =
    create file_a (pos 0)
    ∷ write file_a hey 3 0
    ∷ release file_a (pos 3)
    ∷ open_file file_a (pos 0)
    ∷ read file_a 3 0
    ∷ []

session-IsReady_example :
    let c : Client Memory (Unit {0}) = fresh_client (disk cached_a 0) (tt, 0) init_ht [] in
    Ends IsReady (session memory fixed zeroed cache_path requests c)
session-IsReady_example =
    session-IsReady memory fixed fixed-IsStub zeroed cache_path requests
      (fresh_client (disk cached_a 0) (tt, 0) init_ht [])
      (record { valid = init_ht-IsValid; retries_at = refl; interval_at = refl })
