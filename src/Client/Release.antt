-- ===== src/Client/Release.antt =====
-- afs_store and afs_release when the server answers at once and the cache's disk works.
use afs_like_file_system.Common.{
  ℕ, ◌<◌, ◌^◌, ◌≡◌, ◌∙◌, refl, some, ℤ, pos, arith, length, take_all, true,
}
use afs_like_file_system.Machine.{Bytes, to_i32, fill}
use afs_like_file_system.Paths.{get_local_path}
use afs_like_file_system.Cache.Table.{key_of, get, put}
use afs_like_file_system.Cache.Database.{dump_text}
use afs_like_file_system.Posix.{Posix, Indeterminate, Stat, done, mode_770}
use afs_like_file_system.Protocol.{StoreReq, StoreRes}
use afs_like_file_system.Client.Process.{
  Stub, Client, ok, pure, option_case, get_mtime, database_path, ◌>>=◌, bind-ok, call-done,
  put_mtime-done, dump-done, rpc-done,
}
use afs_like_file_system.Client.Retry.{reset_retries, after_attempt, retry_loop, max_attempts}
use afs_like_file_system.Client.Transfer.{append_rdwr, store_attempt, afs_store}
use afs_like_file_system.Client.Files.{modified_flag, flush_copy, afs_release}

module _ {Os Net : Type 0} where
  pub reset_retries-done :
      (c : Client Os Net) → reset_retries c ≡ ok tt (record c { retries = 1; interval = 1000 })
  unfolding reset_retries
  reset_retries-done c = refl

  pub pure-done : {A : Type 0} (c : Client Os Net) (a : A) → pure a c ≡ ok a c
  unfolding pure
  pure-done c a = refl

  pub get_mtime-done :
      (c : Client Os Net) (path : Bytes) {time : ℤ}
      → get c.ht path ≡ time
      → get_mtime path c ≡ ok time c
  unfolding get_mtime
  get_mtime-done c path e = rw e

module _ (P : Posix) (R : Stub) (cache_path path : Bytes) where
  abbrev pub client_database : Bytes
  client_database = get_local_path database_path cache_path

  -- The client after a store that was answered.
  abbrev pub stored_client : P.State → R.Net → ℤ → Client P.State R.Net → Client P.State R.Net
  stored_client os net time c = record {
    os = os;
    net = net;
    error_number = R.errno_after net c.error_number;
    ht = put c.ht (key_of path) time;
    retries = 1;
    interval = 1000;
    sleeps = c.sleeps;
  }

  module _ (c : Client P.State R.Net) (request : StoreReq) {reply : StoreRes} {net : R.Net}
      {os : P.State} (answered : R.store request c.net ≡ (some reply, net))
      (dumped : P.fopen_write client_database (dump_text (put c.ht (key_of path) reply.time)) c.os
        ≡ (true, os)) where
    pub store_attempt-done :
        store_attempt P R cache_path path request c
        ≡ ok (some reply) (stored_client os net reply.time c)
    unfolding store_attempt option_case
    store_attempt-done =
        let c1 = record c { net = net; error_number = R.errno_after net c.error_number } in
        let c2 = record c1 { retries = 1; interval = 1000 } in
        let c3 = record c2 { ht = put c.ht (key_of path) reply.time } in
        bind-ok _ _ c c1 (some reply) (rpc-done R (R.store request) c answered)
        ∙ bind-ok _ _ c1 c2 tt (reset_retries-done c1)
        ∙ bind-ok _ _ c2 c3 tt (put_mtime-done c2 (key_of path) reply.time)
        ∙ bind-ok _ _ c3 (stored_client os net reply.time c) tt (dump-done P cache_path c3 dumped)
        ∙ pure-done _ (some reply)

    store_loop-done :
        retry_loop max_attempts (store_attempt P R cache_path path request) c
        ≡ ok (some reply) (stored_client os net reply.time c)
    unfolding retry_loop after_attempt option_case
    store_loop-done =
        bind-ok _ _ c (stored_client os net reply.time c) (some reply) store_attempt-done
        ∙ (unfold ◌>>=◌ in refl)

  pub afs_store-done :
      (c : Client P.State R.Net) (buf : Bytes) {reply : StoreRes} {net : R.Net} {os : P.State}
      → R.store (record { path = path; size = pos (length buf); buf = buf }) c.net
        ≡ (some reply, net)
      → P.fopen_write client_database (dump_text (put c.ht (key_of path) reply.time)) c.os
        ≡ (true, os)
      → afs_store P R cache_path path buf (pos (length buf)) c
        ≡ ok reply.error (stored_client os net reply.time c)
  unfolding afs_store
  afs_store-done c buf {reply} {net} {os} answered dumped =
      rw (take_all (length buf) buf (omega arith)) (
        bind-ok _ _ c (stored_client os net reply.time c) (some reply)
          (store_loop-done c _ answered dumped)
        ∙ (unfold ◌>>=◌ in refl))

  -- The calls of afs_release on a marked copy whose store is answered.
  pub release_run :
      (uninit : Indeterminate) (c : Client P.State R.Net) (fh : ℤ) (copy : Bytes) {st : Stat}
      {r e : ℕ} {s1 s2 s3 s4 s5 : P.State} {reply : StoreRes} {net : R.Net}
      → length copy < 2 ^ 31
      → get c.ht path ≡ modified_flag
      → P.lstat (get_local_path path cache_path) c.os ≡ (done st, s1)
      → P.close fh s1 ≡ (done r, s2)
      → P.open_file (get_local_path path cache_path) append_rdwr mode_770 s2 ≡ (done e, s3)
      → P.read (pos e) st.st_size s3 ≡ (done copy, s4)
      → fill copy (uninit.malloc st.st_size) ≡ copy
      → to_i32 st.st_size ≡ pos (length copy)
      → R.store (record { path = path; size = pos (length copy); buf = copy }) c.net
        ≡ (some reply, net)
      → P.fopen_write client_database (dump_text (put c.ht (key_of path) reply.time)) s4
        ≡ (true, s5)
      → afs_release P R uninit cache_path path fh c ≡ ok (pos 0) (stored_client s5 net reply.time c)
  unfolding afs_release flush_copy
  release_run uninit c fh copy {st} {r} {e} {s1} {s2} {s3} {s4} {s5} {reply} {net} small marked e1
        e2 e3 e4 filled exact answered dumped =
      let at = λ (os : P.State). record c { os = os } in
      bind-ok _ _ c (at s1) (some st) (call-done _ c e1)
      ∙ bind-ok _ _ (at s1) (at s1) modified_flag (get_mtime-done (at s1) path marked)
      ∙ bind-ok _ _ (at s1) (at s2) (some r) (call-done _ (at s1) e2)
      ∙ bind-ok _ _ (at s2) (at s3) (some e) (call-done _ (at s2) e3)
      ∙ bind-ok _ _ (at s3) (at s4) (some copy) (call-done _ (at s3) e4)
      ∙ bind-ok _ _ (at s4) (stored_client s5 net reply.time c) reply.error
          (rw (filled, exact) (afs_store-done (at s4) copy answered dumped))
      ∙ (unfold ◌>>=◌ in refl)
