-- ===== src/Client/Missing.antt =====
-- How afs_open fills a copy, when the server answers the fetch at once, and a file that the cache
-- lacks.
use afs_like_file_system.Common.{ℕ, ◌≡◌, ◌∙◌, refl, true, none, some, ℤ, pos, negsuc}
use afs_like_file_system.Machine.{Bytes, to_size}
use afs_like_file_system.Paths.{get_local_path}
use afs_like_file_system.Cache.Table.{key_of, put}
use afs_like_file_system.Cache.Database.{dump_text}
use afs_like_file_system.Posix.{Posix, Indeterminate, Stat, done, failed, mode_770}
use afs_like_file_system.Protocol.{PathReq, FetchReply}
use afs_like_file_system.Client.Process.{
  Stub, Client, ok, option_case, ◌>>=◌, bind-ok, call-done, call-failed, put_mtime-done, dump-done,
  rpc-done,
}
use afs_like_file_system.Client.Retry.{after_attempt, retry_loop, max_attempts}
use afs_like_file_system.Client.Transfer.{append_rdwr, create_append_rdwr, fetch_attempt, afs_fetch}
use afs_like_file_system.Client.Files.{open_cached, fill_copy, fetch_copy, finish_open, afs_open}
use afs_like_file_system.Client.Open.{rest_of_open}
use afs_like_file_system.Client.Release.{
  client_database, stored_client, reset_retries-done, pure-done,
}

module _ (P : Posix) (R : Stub) (cache_path path : Bytes) where
  abbrev fetch_request : PathReq
  fetch_request = record { path = path }

  module _ (c : Client P.State R.Net) {reply : FetchReply} {net : R.Net} {os : P.State}
      (answered : R.fetch fetch_request c.net ≡ (some reply, net))
      (dumped : P.fopen_write
          (client_database P R cache_path path)
          (dump_text (put c.ht (key_of path) reply.time))
          c.os
        ≡ (true, os)) where
    abbrev fetched_client : Client P.State R.Net
    fetched_client = stored_client P R cache_path path os net reply.time c

    fetch_attempt-done : fetch_attempt P R cache_path path c ≡ ok (some reply) fetched_client
    unfolding fetch_attempt option_case
    fetch_attempt-done =
        let c1 = record c { net = net; error_number = R.errno_after net c.error_number } in
        let c2 = record c1 { retries = 1; interval = 1000 } in
        let c3 = record c2 { ht = put c.ht (key_of path) reply.time } in
        bind-ok _ _ c c1 (some reply) (rpc-done R (R.fetch fetch_request) c answered)
        ∙ bind-ok _ _ c1 c2 tt (reset_retries-done c1)
        ∙ bind-ok _ _ c2 c3 tt (put_mtime-done c2 (key_of path) reply.time)
        ∙ bind-ok _ _ c3 fetched_client tt (dump-done P cache_path c3 dumped)
        ∙ pure-done _ (some reply)

    fetch_loop-done :
        retry_loop max_attempts (fetch_attempt P R cache_path path) c
        ≡ ok (some reply) fetched_client
    unfolding retry_loop after_attempt option_case
    fetch_loop-done =
        bind-ok _ _ c fetched_client (some reply) fetch_attempt-done ∙ (unfold ◌>>=◌ in refl)

    afs_fetch-done :
        (buf : Bytes) (size : ℤ)
        → afs_fetch P R cache_path path buf size c
          ≡ ok (pos 0, reply.buf, reply.size) fetched_client
    unfolding afs_fetch
    afs_fetch-done buf size =
        bind-ok _ _ c fetched_client (some reply) fetch_loop-done ∙ (unfold ◌>>=◌ in refl)

  -- The calls of afs_open from the branch of fetchNewCopy on.
  pub refill_run :
      (uninit : Indeterminate) (c : Client P.State R.Net) (fh : ℤ) {d : ℕ} {st : Stat} {r1 r2 n : ℕ}
      {s2 s3 s4 s5 s6 : P.State} {reply : FetchReply} {net : R.Net}
      → P.ftruncate (pos d) 0 c.os ≡ (done r1, s2)
      → R.fetch fetch_request c.net ≡ (some reply, net)
      → P.fopen_write
          (client_database P R cache_path path)
          (dump_text (put c.ht (key_of path) reply.time))
          s2
        ≡ (true, s3)
      → P.write (pos d) reply.buf (to_size reply.size) s3 ≡ (done n, s4)
      → P.fsync (pos d) s4 ≡ (done r2, s5)
      → P.lstat (get_local_path path cache_path) s5 ≡ (done st, s6)
      → rest_of_open P R uninit cache_path path fh (pos d) true c
        ≡ ok (pos 0, pos d) (stored_client P R cache_path path s6 net reply.time c)
  unfolding fetch_copy fill_copy finish_open option_case
  refill_run uninit c fh {d} {st} {r1} {r2} {n} {s2} {s3} {s4} {s5} {s6} {reply} {net} e2 answered
        e3 e4 e5 e6 =
      let at = λ (os : P.State). record c { os = os } in
      let after = λ (os : P.State). stored_client P R cache_path path os net reply.time c in
      let filling =
        bind-ok _ _ c (at s2) (some r1) (call-done _ c e2)
        ∙ bind-ok _ _ (at s2) (after s3) (pos 0, reply.buf, reply.size)
            (afs_fetch-done (at s2) answered e3 uninit.pointee (negsuc 1))
        ∙ bind-ok _ _ (after s3) (after s4) (some n) (call-done _ (after s3) e4)
        ∙ bind-ok _ _ (after s4) (after s5) (some r2) (call-done _ (after s4) e5)
        ∙ pure-done (after s5) none in
      bind-ok _ _ c (after s5) none filling
      ∙ bind-ok _ _ (after s5) (after s6) (some st) (call-done _ (after s5) e6)
      ∙ pure-done (after s6) (pos 0, pos d)

  -- The client after both calls of `open`, of which the first one fails.
  abbrev pub created_client : P.State → ℕ → Client P.State R.Net → Client P.State R.Net
  created_client os e c = record c { os = os; error_number = e }

  -- afs_open of a file that is not in the cache, up to the branch of fetchNewCopy.
  pub missing_run :
      (uninit : Indeterminate) (c : Client P.State R.Net) (fh : ℤ) {e d : ℕ} {s0 s1 : P.State}
      → P.open_file (get_local_path path cache_path) append_rdwr mode_770 c.os ≡ (failed e, s0)
      → P.open_file (get_local_path path cache_path) create_append_rdwr mode_770 s0 ≡ (done d, s1)
      → afs_open P R uninit cache_path path fh c
        ≡ rest_of_open P R uninit cache_path path fh (pos d) true (created_client s1 e c)
  unfolding afs_open open_cached option_case
  missing_run uninit c fh {e} {d} {s0} {s1} e0 e1 =
      bind-ok _ _ c (created_client s1 e c) (pos d, true)
        (bind-ok _ _ c (created_client s0 e c) none (call-failed _ c e0)
          ∙ bind-ok _ _ (created_client s0 e c) (created_client s1 e c) (some d)
              (call-done _ (created_client s0 e c) e1)
          ∙ pure-done (created_client s1 e c) (pos d, true))
