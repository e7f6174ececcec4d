-- ===== src/Client/Open.antt =====
-- When `afs_open` fetches a new copy.
use afs_like_file_system.Common.{
  ℕ, ◌≡◌, ◌∙◌, refl, none, some, Bool, false, ℤ, pos, neg, ◌==ℤ◌, ltb_ℤ, if◌then◌else◌,
}
use afs_like_file_system.Machine.{Bytes}
use afs_like_file_system.Paths.{get_local_path}
use afs_like_file_system.Cache.Table.{get}
use afs_like_file_system.Posix.{Posix, Indeterminate, Stat, done, mode_770}
use afs_like_file_system.Protocol.{PathReq, GetattrRes}
use afs_like_file_system.Client.Process.{
  Stub, Client, ok, M, pure, option_case, ◌>>=◌, bind-ok, call-done,
}
use afs_like_file_system.Client.Retry.{reset_retries, after_attempt, retry_loop, max_attempts}
use afs_like_file_system.Client.Transfer.{append_rdwr, stat_of_reply, getattr_attempt, afs_getattr}
use afs_like_file_system.Client.Files.{open_cached, fetch_copy, finish_open, afs_open}

module _ (P : Posix) (R : Stub) (uninit : Indeterminate) (cache_path path : Bytes) where
  abbrev request : PathReq
  request = record { path = path }

  -- The client after the first call of the stub was answered.
  abbrev pub answered_client : P.State → R.Net → Client P.State R.Net → Client P.State R.Net
  answered_client os net c = record c {
    os = os;
    net = net;
    error_number = R.errno_after net c.error_number;
    retries = 1;
    interval = 1000;
  }

  getattr_loop_answered :
      (c : Client P.State R.Net) {reply : GetattrRes} {net : R.Net}
      → R.getattr request c.net ≡ (some reply, net)
      → retry_loop max_attempts (getattr_attempt P R cache_path path) c
        ≡ ok (some reply) (answered_client c.os net c)
  unfolding retry_loop after_attempt getattr_attempt reset_retries ◌>>=◌
  getattr_loop_answered c e = rw (e, ◌>>=◌)

  pub afs_getattr_answered :
      (c : Client P.State R.Net) {reply : GetattrRes} {net : R.Net} (stats : Stat)
      → R.getattr request c.net ≡ (some reply, net)
      → reply.err ≡ pos 0
      → afs_getattr P R cache_path path stats c
        ≡ ok (pos 0, stat_of_reply P R cache_path reply) (answered_client c.os net c)
  unfolding afs_getattr
  afs_getattr_answered c {reply} stats e none_err =
      bind-ok _ _ _ _ (some reply) (getattr_loop_answered c e) ∙ (unfold ◌>>=◌ in rw none_err refl)

  open_cached_decides :
      (c : Client P.State R.Net) {d : ℕ} {os : P.State} {reply : GetattrRes} {net : R.Net}
      → P.open_file (get_local_path path cache_path) append_rdwr mode_770 c.os ≡ (done d, os)
      → R.getattr request c.net ≡ (some reply, net)
      → reply.err ≡ pos 0
      → open_cached P R uninit cache_path path c
        ≡ ok (pos d, ltb_ℤ (get c.ht path) reply.mtime) (answered_client os net c)
  unfolding open_cached option_case
  open_cached_decides c {d} {os} {reply} opened answered none_err =
      bind-ok _ _ c (record c { os = os }) (some d) (call-done _ c opened)
      ∙ bind-ok _ _ _ _ (pos 0, stat_of_reply P R cache_path reply)
          (afs_getattr_answered (record c { os = os }) uninit.stat answered none_err)
      ∙ (unfold ◌>>=◌ in refl)

  -- The rest of `afs_open` once it is known whether to fetch.
  abbrev pub rest_of_open : ℤ → ℤ → Bool → M P.State R.Net (ℤ × ℤ)
  rest_of_open fh fd fetch =
      (if fetch then fetch_copy P R uninit cache_path path fd else pure none) >>= λ early.
      finish_open P R uninit cache_path path fh fd early

  -- If the cache has a file for the path and the server answers with its attributes, `afs_open`
  -- fetches exactly when the server's time, as it is sent, is greater than the one in the table. It
  -- asks the server once, and changes neither the table nor a file before that decision.
  pub open_decides :
      (c : Client P.State R.Net) (fh : ℤ) {d : ℕ} {os : P.State} {reply : GetattrRes} {net : R.Net}
      → P.open_file (get_local_path path cache_path) append_rdwr mode_770 c.os ≡ (done d, os)
      → R.getattr request c.net ≡ (some reply, net)
      → reply.err ≡ pos 0
      → afs_open P R uninit cache_path path fh c
        ≡ rest_of_open fh (pos d) (ltb_ℤ (get c.ht path) reply.mtime) (answered_client os net c)
  unfolding afs_open
  open_decides c fh {d} {os} {reply} {net} opened answered none_err =
      bind-ok _ _ _ (answered_client os net c) (pos d, ltb_ℤ (get c.ht path) reply.mtime)
        (open_cached_decides c opened answered none_err)

  afs_getattr_refused :
      (c : Client P.State R.Net) {reply : GetattrRes} {net : R.Net} (stats : Stat)
      → R.getattr request c.net ≡ (some reply, net)
      → (reply.err ==ℤ pos 0) ≡ false
      → afs_getattr P R cache_path path stats c
        ≡ ok (neg reply.err, stats) (answered_client c.os net c)
  unfolding afs_getattr
  afs_getattr_refused c {reply} stats e refused =
      bind-ok _ _ _ _ (some reply) (getattr_loop_answered c e) ∙ (unfold ◌>>=◌ in rw refused refl)

  open_cached_refused :
      (c : Client P.State R.Net) {d : ℕ} {os : P.State} {reply : GetattrRes} {net : R.Net}
      → P.open_file (get_local_path path cache_path) append_rdwr mode_770 c.os ≡ (done d, os)
      → R.getattr request c.net ≡ (some reply, net)
      → (reply.err ==ℤ pos 0) ≡ false
      → open_cached P R uninit cache_path path c
        ≡ ok (pos d, ltb_ℤ (get c.ht path) uninit.stat.st_mtime) (answered_client os net c)
  unfolding open_cached option_case
  open_cached_refused c {d} {os} {reply} opened answered refused =
      bind-ok _ _ c (record c { os = os }) (some d) (call-done _ c opened)
      ∙ bind-ok _ _ _ _ (neg reply.err, uninit.stat)
          (afs_getattr_refused (record c { os = os }) uninit.stat answered refused)
      ∙ (unfold ◌>>=◌ in refl)

  -- If the server answers that it has no attributes, `afs_open` compares the table with the time of a
  -- `struct stat` that nothing was written to.
  pub refused_open_decides :
      (c : Client P.State R.Net) (fh : ℤ) {d : ℕ} {os : P.State} {reply : GetattrRes} {net : R.Net}
      → P.open_file (get_local_path path cache_path) append_rdwr mode_770 c.os ≡ (done d, os)
      → R.getattr request c.net ≡ (some reply, net)
      → (reply.err ==ℤ pos 0) ≡ false
      → afs_open P R uninit cache_path path fh c
        ≡ rest_of_open fh
            (pos d)
            (ltb_ℤ (get c.ht path) uninit.stat.st_mtime)
            (answered_client os net c)
  unfolding afs_open
  refused_open_decides c fh {d} {os} {reply} {net} opened answered refused =
      bind-ok _ _ _ (answered_client os net c) (pos d, ltb_ℤ (get c.ht path) uninit.stat.st_mtime)
        (open_cached_refused c opened answered refused)
