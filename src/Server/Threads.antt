-- ===== src/Server/Threads.antt =====
-- server.cc: gRPC runs the handlers on several threads. A call of STORE and a call of FETCH for one
-- path, cut at their system calls: a turn of a thread is its next system call, with the code up to
-- the one after it.
pub mod Alone
pub mod Invariant
pub mod Stages
pub mod Steps
pub mod Stores
pub mod Outline
pub mod Pair
pub mod Progress
pub mod Races
pub mod Torn
use afs_like_file_system.Common.{ℕ, List, [], ◌∷◌, Option, none, some, ℤ, pos, negsuc}
use afs_like_file_system.Machine.{Bytes, to_i32, to_size, fill}
use afs_like_file_system.Paths.{get_server_path}
use afs_like_file_system.Posix.{
  create_trunc_rdwr, Posix, Indeterminate, Stat, Sys, done, failed, mode_770, stat_or,
  bytes_or_empty,
}
use afs_like_file_system.Protocol.{
  Status, status_ok, PathReq, StoreReq, StoreRes, FetchReply, store_res, fetch_reply,
}
use afs_like_file_system.Server.{plain_rdwr}

-- Where a thread in afs_STORE stands, with its variables.
pub data StoreThread : Type 0 where
  store_open : StoreThread
  store_write : ℕ → StoreThread
  store_lstat : ℕ → StoreThread
  store_close : ℕ → Stat → StoreThread
  store_end : Status × StoreRes → StoreThread

-- Where a thread in afs_FETCH stands: `info`, then `buf`, then `stats`.
pub data FetchThread : Type 0 where
  fetch_open : FetchThread
  fetch_fstat : ℕ → FetchThread
  fetch_lseek : ℕ → Stat → FetchThread
  fetch_read : ℕ → Stat → FetchThread
  fetch_again : ℕ → Stat → Bytes → FetchThread
  fetch_close : ℕ → Stat → Bytes → Stat → FetchThread
  fetch_end : Status × FetchReply → FetchThread

-- The result of a call as C sees it.
abbrev pub value_of : {A : Type 0} → Sys A → Option A
value_of (done a) = some a
value_of (failed e) = none

pub data Turn : Type 0 where
  store_turn fetch_turn : Turn

pub record System (Os : Type 0) : Type 0 where
  pub store : StoreThread
  pub fetch : FetchThread
  pub os : Os

module _ (P : Posix) (uninit : Indeterminate) (root_path : Bytes) where
  abbrev pub store_opened : Sys ℕ × P.State → StoreThread × P.State
  store_opened (done fd, s) = (store_write fd, s)
  store_opened (failed e, s) = (store_end (status_ok, record store_res { error = to_i32 e }), s)

  unfoldable pub store_step : StoreReq → StoreThread → P.State → StoreThread × P.State
  store_step request store_open s =
      store_opened
        (P.open_file (get_server_path request.path root_path) create_trunc_rdwr mode_770 s)
  store_step request (store_write fd) s =
      let (written, s') = P.write (pos fd) request.buf (to_size request.size) s in
      (store_lstat fd, s')
  store_step request (store_lstat fd) s =
      let (res, s') = P.lstat (get_server_path request.path root_path) s in
      (store_close fd (stat_or uninit.stat (value_of res)), s')
  store_step request (store_close fd stats) s =
      let (closed, s') = P.close (pos fd) s in
      (store_end (status_ok, record { error = pos 0; time = pos stats.st_mtime_nsec }), s')
  store_step request (store_end reply) s = (store_end reply, s)

  abbrev pub fetch_opened : Sys ℕ × P.State → FetchThread × P.State
  fetch_opened (done fd, s) = (fetch_fstat fd, s)
  fetch_opened (failed e, s) = (fetch_end (status_ok, record fetch_reply { error = negsuc 0 }), s)

  unfoldable pub fetch_step : PathReq → FetchThread → P.State → FetchThread × P.State
  fetch_step request fetch_open s =
      fetch_opened (P.open_file (get_server_path request.path root_path) plain_rdwr 0 s)
  fetch_step request (fetch_fstat fd) s =
      let (res, s') = P.fstat (pos fd) s in
      (fetch_lseek fd (stat_or uninit.stat (value_of res)), s')
  fetch_step request (fetch_lseek fd info) s =
      let (at, s') = P.lseek (pos fd) 0 s in (fetch_read fd info, s')
  fetch_step request (fetch_read fd info) s =
      let (got, s') = P.read (pos fd) info.st_size s in
      (fetch_again fd info (fill (bytes_or_empty (value_of got)) (uninit.malloc info.st_size)), s')
  fetch_step request (fetch_again fd info buf) s =
      let (res, s') = P.fstat (pos fd) s in
      (fetch_close fd info buf (stat_or uninit.stat (value_of res)), s')
  fetch_step request (fetch_close fd info buf stats) s =
      let (closed, s') = P.close (pos fd) s in
      (
        fetch_end (
          status_ok,
          record {
            error = pos 0;
            size = to_i32 info.st_size;
            buf = buf;
            time = pos stats.st_mtime_nsec;
          },
        ),
        s',
      )
  fetch_step request (fetch_end reply) s = (fetch_end reply, s)

  module _ (stored : StoreReq) (fetched : PathReq) where
    unfoldable pub turn : Turn → System P.State → System P.State
    turn store_turn w =
        let (t, s) = store_step stored w.store w.os in record w { store = t; os = s }
    turn fetch_turn w =
        let (t, s) = fetch_step fetched w.fetch w.os in record w { fetch = t; os = s }

    -- The turns in the order in which the threads are scheduled.
    unfoldable pub run : List Turn → System P.State → System P.State
    run [] w = w
    run (t ∷ turns) w = run turns (turn t w)

-- Both threads before their first call.
abbrev pub start : {Os : Type 0} → Os → System Os
start s = record { store = store_open; fetch = fetch_open; os = s }
