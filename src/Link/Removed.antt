-- ===== src/Link/Removed.antt =====
-- A file that one client removes, and that another one has in its cache.
use afs_like_file_system.Common.{
  ℕ, ◌≡◌, ◌∙◌, refl, [], none, some, true, false, ℤ, pos, ltb_ℤ, ◌==◌, ==ℤ_refl, Bool,
}
use afs_like_file_system.Machine.{Bytes}
use afs_like_file_system.Paths.{get_local_path}
use afs_like_file_system.Cache.Table.{get, key_of, put}
use afs_like_file_system.Cache.Database.{dump_text}
use afs_like_file_system.Posix.{o_rdwr, Posix, Indeterminate, done, failed, mode_770}
use afs_like_file_system.Posix.Laws.{enoent, Files, IsHealthy, Vacant, same_bytes_refl}
use afs_like_file_system.Protocol.{error_res, getattr_res}
use afs_like_file_system.Server.{plain_rdwr}
use afs_like_file_system.Server.Answers.{unlink_reply, attributes_missing}
use afs_like_file_system.Server.RoundTrip.{server_path}
use afs_like_file_system.Client.Process.{
  Stub, Client, ok, option_case, database_path, bind-ok, call-done, rpc-done,
}
use afs_like_file_system.Client.Names
use afs_like_file_system.Client.Transfer.{append_rdwr}
use afs_like_file_system.Client.Files.{afs_open}
use afs_like_file_system.Client.Missing.{refill_run}
use afs_like_file_system.Client.Open.{answered_client, rest_of_open, refused_open_decides}
use afs_like_file_system.Client.Release.{pure-done}
use afs_like_file_system.Link.{Link, connect, next, later, answered}
use afs_like_file_system.Link.CloseToOpen.{with_server}
use afs_like_file_system.Link.Fetch.{missing_answered}
use afs_like_file_system.Link.Refill.{refill_calls}
use afs_like_file_system.Link.Stale.{kept_run}

-- What opening makes of the old bytes, by whether a fetch was decided on.
abbrev pub left_of : Bool → Bytes → Bytes
left_of true text = []
left_of false text = text

module _ (P : Posix) (view : P.State → Files) (healthy : IsHealthy P view) (uninit : Indeterminate)
    (root path : Bytes) where
  abbrev remote : Bytes
  remote = server_path P view healthy uninit root path

  abbrev stub : Stub
  stub = connect P uninit root

  unlink_run :
      (cache_path : Bytes) (c : Client P.State (Link P.State)) {r r' : ℕ} {s s' : P.State}
      → P.unlink (get_local_path path cache_path) c.os ≡ (done r, s)
      → next c.net.deliveries ≡ answered
      → P.unlink remote c.net.server.os ≡ (done r', s')
      → (e : ℕ) × (Names.afs_unlink P stub cache_path path c
          ≡ ok (pos 0) (record c {
            os = s;
            net = record {
              server = record c.net.server { os = s' };
              deliveries = later c.net.deliveries;
            };
            error_number = e;
          }))
  unfolding Names.afs_unlink option_case
  unlink_run cache_path c {r} {r'} {s} {s'} local delivered far =
      let link : Link P.State = record {
        server = record c.net.server { os = s' };
        deliveries = later c.net.deliveries;
      } in
      let ran = unlink_reply P uninit root path c.net.server far in
      let sent : stub.unlink (record { path = path }) c.net ≡ (some error_res, link) =
        rw (delivered, ran) refl in
      let c1 : Client P.State (Link P.State) = record c { os = s } in
      let c2 : Client P.State (Link P.State) = record c1 {
        net = link;
        error_number = stub.errno_after link c1.error_number;
      } in
      (
        c2.error_number,
        bind-ok _ _ c c1 (some r) (call-done _ c local)
            ∙ bind-ok _ _ c1 c2 (some error_res)
                (rpc-done stub (stub.unlink (record { path = path })) c1 sent)
            ∙ pure-done c2 (pos 0),
      )

  getattr_missing :
      (link : Link P.State) {os : P.State}
      → next link.deliveries ≡ answered
      → P.lstat remote link.server.os ≡ (failed enoent, os)
      → stub.getattr (record { path = path }) link ≡ (
        some (record getattr_res { err = pos enoent }),
        record {
          server = record { os = os; error_number = enoent };
          deliveries = later link.deliveries;
        },
      )
  getattr_missing link delivered missing =
      rw (delivered, attributes_missing P uninit root path link.server missing) refl

  -- The copy is open as descriptor `d`, with these bytes.
  pub record CopyIs (cache_path : Bytes) (s : P.State) (d i : ℕ) (text : Bytes) : Type 0 where
    pub entry_at : (view s).entry (get_local_path path cache_path) ≡ some i
    pub text_at : (view s).content i ≡ text
    pub at : ℕ
    pub open_at :
        (view s).opened (pos d)
        ≡ some (record { ino = i; offset = at; append = true; access = o_rdwr })

  module _ (cache_path : Bytes) where
    abbrev copy_path : Bytes
    copy_path = get_local_path path cache_path

    abbrev StillOpens : Client P.State (Link P.State) → ℤ → ℕ → Bool → Type 0
    StillOpens c fh i newer =
        (c' : Client P.State (Link P.State)) × (d : ℕ) × (afs_open P stub uninit cache_path path fh
            c
          ≡ ok (pos 0, pos d) c')
        × CopyIs cache_path c'.os d i (left_of newer ((view c.os).content i))

    -- The end of `afs_open`, with a descriptor that is open on the copy.
    rest_of_opening :
        (newer : Bool) (c : Client P.State (Link P.State)) (fh : ℤ) (d i j : ℕ)
        → (view c.os).opened (pos d)
          ≡ some (record { ino = i; offset = 0; append = true; access = o_rdwr })
        → (view c.os).entry copy_path ≡ some i
        → (view c.os).entry (get_local_path database_path cache_path) ≡ some j
        → (j == i) ≡ false
        → next c.net.deliveries ≡ answered
        → Vacant (view c.net.server.os) remote
        → (c' : Client P.State (Link P.State)) × (rest_of_open P stub uninit cache_path path fh
              (pos d)
              newer
              c
            ≡ ok (pos 0, pos d) c')
          × CopyIs cache_path c'.os d i (left_of newer ((view c.os).content i))
    rest_of_opening false c fh d i j held here there ji delivered nowhere =
        let (st, s2, e2, size, v2) = healthy.lstat c.os copy_path i here in
        (
          record c { os = s2 },
          kept_run P stub uninit cache_path path c fh (pos d) e2,
          record { entry_at = rw v2 here; text_at = rw v2 refl; at = 0; open_at = rw v2 held },
        )
    rest_of_opening true c fh d i j held here there ji delivered nowhere =
        let (x, s, missing, v) =
          healthy.open_missing c.net.server.os remote plain_rdwr 0 nowhere refl in
        let sent =
          missing_answered P view healthy uninit root cache_path path c.net delivered missing in
        let (st, s2, s3, s4, s5, s6, e2, e3, e4, e5, e6, fetched) =
          refill_calls P view healthy uninit root cache_path path c.os []
            (dump_text (put c.ht (key_of path) (pos 0))) d i j 0 held here there ji in
        (
          _,
          refill_run P stub cache_path path uninit c fh e2 sent e3 e4 e5 e6,
          record {
            entry_at = fetched.entry_at;
            text_at = fetched.text_at;
            at = fetched.at;
            open_at = fetched.open_at;
          },
        )

    pub gone_opens :
        (c : Client P.State (Link P.State)) (fh : ℤ) (i j : ℕ)
        → (view c.os).entry copy_path ≡ some i
        → (view c.os).entry (get_local_path database_path cache_path) ≡ some j
        → (j == i) ≡ false
        → next c.net.deliveries ≡ answered
        → next (later c.net.deliveries) ≡ answered
        → Vacant (view c.net.server.os) remote
        → StillOpens c fh i (ltb_ℤ (get c.ht path) uninit.stat.st_mtime)
    gone_opens c fh i j here there ji delivered delivered' nowhere =
        let (d, s1, e1, free, v1) =
          healthy.open_existing c.os copy_path append_rdwr mode_770 i here in
        let (so, found, vo) = healthy.lstat_missing c.net.server.os remote nowhere in
        let link : Link P.State = record {
          server = record { os = so; error_number = enoent };
          deliveries = later c.net.deliveries;
        } in
        let newer = ltb_ℤ (get c.ht path) uninit.stat.st_mtime in
        let c1 = answered_client P stub uninit cache_path path s1 link c in
        let text1 : (view s1).content i ≡ (view c.os).content i = rw v1 refl in
        let (c', ran, copy) =
          rest_of_opening newer c1 fh d i j (rw (v1, ==ℤ_refl (pos d))) (rw v1 here) (rw v1 there)
            ji delivered' (rw vo nowhere) in
        (
          c',
          d,
          refused_open_decides P stub uninit cache_path path c fh e1
                (getattr_missing c.net delivered found) refl
              ∙ ran,
          rw text1 at copy,
        )

  -- The disks of both clients and of the server work, the server has the file, each client has a
  -- copy of it, the second one a database in another file, and the requests are answered. One
  -- client removes the file; then the other one opens it. Removing returns 0, and takes the path
  -- from the cache and from the server, but not its time from the table. Opening returns 0 too,
  -- with a descriptor on the old copy. If the number in its table is less than the modification
  -- time of a `struct stat` that nothing was written to, then the copy is empty now, and otherwise
  -- it has its old bytes.
  pub removed_file_opens :
      (cache_path cache_path' : Bytes) (c other : Client P.State (Link P.State)) (fh : ℤ)
      (i m i' j' : ℕ)
      → (view c.os).entry (get_local_path path cache_path) ≡ some i
      → next c.net.deliveries ≡ answered
      → (view c.net.server.os).entry remote ≡ some m
      → (view other.os).entry (get_local_path path cache_path') ≡ some i'
      → (view other.os).entry (get_local_path database_path cache_path') ≡ some j'
      → (j' == i') ≡ false
      → next other.net.deliveries ≡ answered
      → next (later other.net.deliveries) ≡ answered
      → (removed opened : Client P.State (Link P.State)) × (d : ℕ) × (Names.afs_unlink P stub
            cache_path path c
          ≡ ok (pos 0) removed)
        × ((view removed.os).entry (get_local_path path cache_path) ≡ none)
        × ((view removed.net.server.os).entry remote ≡ none)
        × (get removed.ht path ≡ get c.ht path)
        × (afs_open P stub uninit cache_path' path fh (with_server removed.net.server other)
            ≡ ok (pos 0, pos d) opened)
        × CopyIs cache_path' opened.os d i'
            (left_of (ltb_ℤ (get other.ht path) uninit.stat.st_mtime) ((view other.os).content i'))
  removed_file_opens cache_path cache_path' c other fh i m i' j' here delivered far here' there' ji
        delivered' later' =
      let (s, e1, v1) = healthy.unlink c.os (get_local_path path cache_path) i here in
      let (s', e2, v2) = healthy.unlink c.net.server.os remote m far in
      let (e, ran) = unlink_run cache_path c e1 delivered e2 in
      let nowhere : Vacant (view s') remote =
        (rw (v2, same_bytes_refl remote), rw v2 (healthy.placed c.net.server.os remote m far)) in
      let host = record c.net.server { os = s' } in
      let (opened, d, opens, copy) =
        gone_opens cache_path' (with_server host other) fh i' j' here' there' ji delivered' later'
          nowhere in
      (
        _,
        opened,
        d,
        ran,
        rw (v1, same_bytes_refl (get_local_path path cache_path)),
        nowhere.0,
        refl,
        opens,
        copy,
      )
