-- ===== src/Link/Losses.antt =====
-- A store whose first requests or replies are lost.
use afs_like_file_system.Common.{
  ℕ, suc, zero, ◌+◌, ◌≤◌, ◌<◌, ◌^◌, ◌≡◌, ◌∙◌, refl, ap, List, [], ◌∷◌, ◌++◌, none, some, Option, ℤ,
  pos, arith, length, take_all, All, true, false, ltb, ==_iff, ◌*◌,
}
use afs_like_file_system.Machine.{Bytes}
use afs_like_file_system.Paths.{get_local_path}
use afs_like_file_system.Cache.Table.{Table, key_of, put}
use afs_like_file_system.Cache.Database.{dump_text}
use afs_like_file_system.Posix.{Posix, Indeterminate}
use afs_like_file_system.Posix.Laws.{Files, IsHealthy}
use afs_like_file_system.Protocol.{StoreReq}
use afs_like_file_system.Server.RoundTrip.{
  FileIs, server_path, store_request, store_calls, store_run,
}
use afs_like_file_system.Client.Process.{
  Stub, Client, ok, M, option_case, database_path, ◌>>=◌, bind-ok, rpc-done,
}
use afs_like_file_system.Client.Retry.{retry_req, after_attempt, retry_loop, max_attempts}
use afs_like_file_system.Client.Transfer.{store_attempt, afs_store}
use afs_like_file_system.Client.Release.{store_attempt-done}
use afs_like_file_system.Link.{
  Delivery, Link, connect, next, later, answered, request_lost, reply_lost,
}
use afs_like_file_system.Link.Release.{store_answered}

abbrev pub IsLost : Delivery → Type 0
IsLost answered = ⊥
IsLost request_lost = Unit
IsLost reply_lost = Unit

-- The client after a round that failed and the pause behind it.
abbrev paused : {Os Net : Type 0} → Client Os Net → Client Os Net
paused c = record c { retries = c.retries + 1; sleeps = (c.interval * (c.retries + 1)) ∷ c.sleeps }

retry_req-paused :
    {Os Net : Type 0} (c : Client Os Net) → c.retries ≤ 5 → retry_req false c ≡ ok true (paused c)
unfolding retry_req
retry_req-paused c le = let again : ltb 5 c.retries ≡ false = ground (arith, le) in rw again

module _ {Os Net A : Type 0} where
  failed_round :
      (rounds : ℕ) (attempt : M Os Net (Option A)) (c c' : Client Os Net)
      → attempt c ≡ ok none c'
      → c'.retries ≤ 5
      → retry_loop (suc rounds) attempt c ≡ retry_loop rounds attempt (paused c')
  unfolding retry_loop after_attempt option_case retry_req
  failed_round rounds attempt c c' e le =
      bind-ok _ _ c c' none e ∙ bind-ok _ _ c' (paused c') true (retry_req-paused c' le)

  last_round :
      (rounds : ℕ) (attempt : M Os Net (Option A)) (c c' : Client Os Net) (a : A)
      → attempt c ≡ ok (some a) c'
      → retry_loop (suc rounds) attempt c ≡ ok (some a) c'
  unfolding retry_loop after_attempt option_case
  last_round rounds attempt c c' a e = bind-ok _ _ c c' (some a) e ∙ (unfold ◌>>=◌ in refl)

lost_attempt :
    (P : Posix) (R : Stub) (cache_path path : Bytes) (c : Client P.State R.Net) (request : StoreReq)
    {net : R.Net}
    → R.store request c.net ≡ (none, net)
    → store_attempt P R cache_path path request c
      ≡ ok none (record c { net = net; error_number = R.errno_after net c.error_number })
unfolding store_attempt option_case
lost_attempt P R cache_path path c request {net} e =
    bind-ok _ _ c (record c { net = net; error_number = R.errno_after net c.error_number }) none
      (rpc-done R (R.store request) c e)
    ∙ (unfold ◌>>=◌ in refl)

module _ (P : Posix) (view : P.State → Files) (healthy : IsHealthy P view) (uninit : Indeterminate)
    (root cache_path path copy : Bytes) where
  abbrev stub : Stub
  stub = connect P uninit root

  abbrev remote : Bytes
  remote = server_path P view healthy uninit root path

  abbrev request : StoreReq
  request = store_request P view healthy uninit root path copy

  abbrev database : Bytes
  database = get_local_path database_path cache_path

  -- A store that is lost, before or after it was carried out, leaves the file on the server.
  lost_store :
      (link : Link P.State) (d : Delivery) (more : List Delivery) (m : ℕ)
      → length copy < 2 ^ 31
      → link.deliveries ≡ d ∷ more
      → IsLost d
      → (view link.server.os).entry remote ≡ some m
      → (link' : Link P.State) × (stub.store request link ≡ (none, link'))
        × (link'.deliveries ≡ more)
        × ((view link'.server.os).entry remote ≡ some m)
  lost_store link answered more m small e lost here = absurd lost
  lost_store link request_lost more m small e lost here =
      (record { server = link.server; deliveries = more }, rw e, refl, here)
  lost_store link reply_lost more m small e lost here =
      let (d, st, s1, s2, s3, s4, a1, a2, a3, a4, file, stamped) =
        store_calls P view healthy uninit root path link.server.os copy m here in
      let ran = store_run P view healthy uninit root path link.server copy small a1 a2 a3 a4 in
      (
        record { server = record link.server { os = s4 }; deliveries = more },
        rw (e, ran),
        refl,
        file.0,
      )

  -- What a store leaves behind, from a client with the table `ht`.
  pub record Stored (ht : Table) (m j : ℕ) (time : ℤ) (rest : List Delivery)
      (c : Client P.State (Link P.State)) : Type 0 where
    pub file : FileIs P view healthy uninit root path c.net.server.os remote m copy
    pub timed : time ≡ pos (healthy.modified c.net.server.os m)
    pub table : c.ht ≡ put ht (key_of path) time
    pub saved : (view c.os).content j ≡ dump_text (put ht (key_of path) time)
    pub fresh : (c.retries ≡ 1) × (c.interval ≡ 1000)
    pub used : c.net.deliveries ≡ later rest

  answered_round :
      (rest : List Delivery) (rounds : ℕ) (c : Client P.State (Link P.State)) (m j : ℕ)
      → length copy < 2 ^ 31
      → c.net.deliveries ≡ rest
      → next rest ≡ answered
      → (view c.net.server.os).entry remote ≡ some m
      → (view c.os).entry database ≡ some j
      → (time : ℤ) × (c' : Client P.State (Link P.State)) × (retry_loop
            (suc rounds)
            (store_attempt P stub cache_path path request)
            c
          ≡ ok (some (record { error = pos 0; time = time })) c')
        × Stored c.ht m j time rest c'
  answered_round rest rounds c m j small e delivered here there =
      let (d, st, s1, s2, s3, s4, a1, a2, a3, a4, file, stamped) =
        store_calls P view healthy uninit root path c.net.server.os copy m here in
      let ran = store_run P view healthy uninit root path c.net.server copy small a1 a2 a3 a4 in
      let time : ℤ = pos st.st_mtime_nsec in
      let (s5, e5, v5) =
        healthy.fopen_write c.os database (dump_text (put c.ht (key_of path) time)) j there in
      let sent =
        store_answered P view healthy uninit root cache_path path c.net copy (rw e delivered) ran in
      (
        time,
        _,
        last_round rounds _ c _ _ (store_attempt-done P stub cache_path path c request sent e5),
        record {
          file = file;
          timed = ap pos stamped;
          table = refl;
          saved = rw (v5, (==_iff j j).1 refl);
          fresh = (refl, refl);
          used = ap later e;
        },
      )

  store_loop :
      (losses rest : List Delivery) (rounds : ℕ) (c : Client P.State (Link P.State)) (m j : ℕ)
      → All IsLost losses
      → length copy < 2 ^ 31
      → c.net.deliveries ≡ losses ++ rest
      → next rest ≡ answered
      → length losses < rounds
      → c.retries + length losses ≤ 6
      → (view c.net.server.os).entry remote ≡ some m
      → (view c.os).entry database ≡ some j
      → (time : ℤ) × (c' : Client P.State (Link P.State)) × (retry_loop rounds
            (store_attempt P stub cache_path path request)
            c
          ≡ ok (some (record { error = pos 0; time = time })) c')
        × Stored c.ht m j time rest c'
  store_loop losses rest zero c m j lost small e delivered fuel few here there =
      absurd (omega arith)
  store_loop [] rest (suc rounds) c m j lost small e delivered fuel few here there =
      answered_round rest rounds c m j small e delivered here there
  store_loop (d ∷ losses) rest (suc rounds) c m j lost small e delivered fuel few here there =
      let (link, sent, left, here') = lost_store c.net d (losses ++ rest) m small e lost.0 here in
      let c1 = record c { net = link } in
      let (time, c', run, stored) =
        store_loop losses rest rounds (paused c1) m j lost.1 small left delivered (omega arith)
          (omega arith) here' there in
      (
        time,
        c',
        failed_round rounds _ c c1 (lost_attempt P stub cache_path path c request sent)
              (omega arith)
            ∙ run,
        stored,
      )

  -- The disks of the client and of the server work, and the server has the file. If at most five
  -- requests or replies are lost and the next call is answered, then afs_store of less than 2 ^ 31
  -- bytes, from fresh counters, returns 0: the file on the server holds exactly the bytes, however
  -- often they were stored, the table and the database have the nanoseconds of the time that the
  -- file on the server has now, and the counters are fresh again.
  pub store_survives_losses :
      (losses rest : List Delivery) (c : Client P.State (Link P.State)) (m j : ℕ)
      → All IsLost losses
      → length losses ≤ 5
      → c.net.deliveries ≡ losses ++ rest
      → next rest ≡ answered
      → c.retries ≡ 1
      → length copy < 2 ^ 31
      → (view c.net.server.os).entry remote ≡ some m
      → (view c.os).entry database ≡ some j
      → (time : ℤ) × (c' : Client P.State (Link P.State)) × (afs_store P stub cache_path path copy
            (pos (length copy))
            c
          ≡ ok (pos 0) c')
        × Stored c.ht m j time rest c'
  unfolding afs_store option_case
  store_survives_losses losses rest c m j lost few e delivered fresh small here there =
      let (time, c', run, stored) =
        store_loop losses rest max_attempts c m j lost small e delivered (omega arith) (omega arith)
          here there in
      (
        time,
        c',
        rw (take_all (length copy) copy (omega arith)) (
            bind-ok _ _ c c' (some (record { error = pos 0; time = time })) run
            ∙ (unfold ◌>>=◌ in refl)),
        stored,
      )
