-- ===== src/Link/Create.antt =====
-- A file that the client creates, in its cache and on the server.
use afs_like_file_system.Common.{
  ℕ, ◌<◌, ◌^◌, ◌≡◌, ◌≢◌, ◌∙◌, refl, sym, [], some, true, false, ℤ, pos, arith, ==ℤ_refl, ==_iff,
  ◌==◌, length,
}
use afs_like_file_system.Machine.{Bytes}
use afs_like_file_system.Paths.{get_local_path, get_server_path}
use afs_like_file_system.Cache.Hash.{htablesize}
use afs_like_file_system.Cache.Table.{key_of, get, put}
use afs_like_file_system.Cache.Lookup.{get-put}
use afs_like_file_system.Cache.Database.{dump_text}
use afs_like_file_system.Posix.{o_rdwr, o_rdonly, Posix, Indeterminate, done, failed, mode_770}
use afs_like_file_system.Posix.Laws.{
  Files, IsHealthy, Vacant, same_bytes_refl, same_bytes_ne, fresh_number,
}
use afs_like_file_system.Protocol.{CreateRes, status_ok}
use afs_like_file_system.Server.{create_rdonly, afs_create}
use afs_like_file_system.Server.Answers.{created_reply, failed_reply}
use afs_like_file_system.Server.Process.{Host}
use afs_like_file_system.Client.Process.{
  Stub, Client, ok, option_case, database_path, bind-ok, call-done, rpc-done, put_mtime-done,
  dump-done,
}
use afs_like_file_system.Client.Release.{pure-done}
use afs_like_file_system.Client.Transfer
use afs_like_file_system.Client.Transfer.{create_append_rdwr}
use afs_like_file_system.Link.{Link, connect, next, later, answered}

module _ (P : Posix) (R : Stub) (cache_path path : Bytes) where
  -- The client after a creation that was answered.
  abbrev pub creating_client : P.State → R.Net → ℤ → Client P.State R.Net → Client P.State R.Net
  creating_client os net time c = record c {
    os = os;
    net = net;
    error_number = R.errno_after net c.error_number;
    ht = put c.ht (key_of path) time;
  }

  create_run :
      (c : Client P.State R.Net) (fh : ℤ) {d : ℕ} {s1 s2 : P.State} {reply : CreateRes}
      {net : R.Net}
      → P.open_file (get_local_path path cache_path) create_append_rdwr mode_770 c.os ≡ (done d, s1)
      → R.create (record { path = path }) c.net ≡ (some reply, net)
      → P.fopen_write
          (get_local_path database_path cache_path)
          (dump_text (put c.ht (key_of path) reply.time))
          s1
        ≡ (true, s2)
      → Transfer.afs_create P R cache_path path fh c
        ≡ ok (reply.ack, pos d) (creating_client s2 net reply.time c)
  unfolding Transfer.afs_create option_case
  create_run c fh {d} {s1} {s2} {reply} {net} e1 sent e2 =
      let c1 = record c { os = s1 } in
      let c2 = record c1 { net = net; error_number = R.errno_after net c.error_number } in
      let c3 = record c2 { ht = put c.ht (key_of path) reply.time } in
      bind-ok _ _ c c1 (some d) (call-done _ c e1)
      ∙ bind-ok _ _ c1 c2 (some reply) (rpc-done R (R.create (record { path = path })) c1 sent)
      ∙ bind-ok _ _ c2 c3 tt (put_mtime-done c2 (key_of path) reply.time)
      ∙ bind-ok _ _ c3 (creating_client s2 net reply.time c) tt (dump-done P cache_path c3 e2)
      ∙ pure-done _ (reply.ack, pos d)

module _ (P : Posix) (uninit : Indeterminate) (root path : Bytes) where
  create_answered :
      (link : Link P.State) {reply : CreateRes} {host : Host P.State}
      → next link.deliveries ≡ answered
      → afs_create P uninit root (record { path = path }) link.server ≡ ((status_ok, reply), host)
      → (connect P uninit root).create (record { path = path }) link
        ≡ (some reply, record { server = host; deliveries = later link.deliveries })
  create_answered link delivered ran = rw (delivered, ran)

  -- If the client opens its copy and writes its database, and the server answers but cannot create
  -- the file, with the error number `e`, then afs_CREATE returns `e` itself, which is no negative
  -- number as that of an error should be, with the descriptor of the copy; the table has the time 0
  -- for the path, and that is in the database.
  pub failed_create_positive :
      (cache_path : Bytes) (c : Client P.State (Link P.State)) (fh : ℤ) {d e : ℕ}
      {s1 s2 r : P.State}
      → P.open_file (get_local_path path cache_path) create_append_rdwr mode_770 c.os ≡ (done d, s1)
      → next c.net.deliveries ≡ answered
      → P.open_file (get_server_path path root) create_rdonly mode_770 c.net.server.os
        ≡ (failed e, r)
      → e < 2 ^ 31
      → P.fopen_write
          (get_local_path database_path cache_path)
          (dump_text (put c.ht (key_of path) (pos 0)))
          s1
        ≡ (true, s2)
      → length c.ht ≡ htablesize
      → (c' : Client P.State (Link P.State)) × (Transfer.afs_create P
            (connect P uninit root)
            cache_path
            path
            fh
            c
          ≡ ok (pos e, pos d) c')
        × (c'.os ≡ s2)
        × (c'.net.server.os ≡ r)
        × (get c'.ht path ≡ pos 0)
  failed_create_positive cache_path c fh opened delivered refused number dumped wide =
      let sent =
        create_answered c.net delivered
          (failed_reply P uninit root path c.net.server refused number) in
      (
        _,
        create_run P (connect P uninit root) cache_path path c fh opened sent dumped,
        refl,
        refl,
        get-put c.ht path path (pos 0) wide ∙ rw (==ℤ_refl (key_of path)),
      )

module _ (P : Posix) (view : P.State → Files) (healthy : IsHealthy P view) (uninit : Indeterminate)
    (root cache_path path : Bytes) where
  abbrev copy_path : Bytes
  copy_path = get_local_path path cache_path

  abbrev database : Bytes
  database = get_local_path database_path cache_path

  abbrev remote : Bytes
  remote = get_server_path path root

  -- The path has an empty file, and the database is as told.
  pub record Created (s : P.State) (d j : ℕ) (table : Bytes) : Type 0 where
    pub number : ℕ
    pub entry_at : (view s).entry copy_path ≡ some number
    pub empty_at : (view s).content number ≡ []
    pub open_at :
        (view s).opened (pos d)
        ≡ some (record { ino = number; offset = 0; append = true; access = o_rdwr })
    pub table_at : (view s).content j ≡ table

  local_calls :
      (s : P.State) (j : ℕ) (table : Bytes)
      → Vacant (view s) copy_path
      → (view s).entry database ≡ some j
      → database ≢ copy_path
      → (d : ℕ) × (s1 s2 : P.State) × (P.open_file copy_path create_append_rdwr mode_770 s
          ≡ (done d, s1))
        × (P.fopen_write database table s1 ≡ (true, s2))
        × Created s2 d j table
  local_calls s j table absent there apart =
      let (d, k, s1, e1, free, fresh, v1) =
        healthy.open_new s copy_path create_append_rdwr mode_770 absent refl in
      let there1 : (view s1).entry database ≡ some j =
        rw (v1, same_bytes_ne database copy_path apart) there in
      let jk : (j == k) ≡ false = fresh_number (view s) database k j fresh there in
      let kj : (k == j) ≡ false = ground (arith, jk) in
      let (s2, e2, v2) = healthy.fopen_write s1 database table j there1 in
      (
        d,
        s1,
        s2,
        e1,
        e2,
        record {
          number = k;
          entry_at = rw (v2, v1, same_bytes_refl copy_path);
          empty_at = rw (v2, kj, v1, (==_iff k k).1 refl);
          open_at = rw (v2, v1, ==ℤ_refl (pos d));
          table_at = rw (v2, (==_iff j j).1 refl);
        },
      )

  -- The disks of the client and of the server work, neither the cache nor the server has the path,
  -- though both have a place for it, the cache has the database, and the request is answered. Then
  -- afs_CREATE returns 0 and a descriptor on a new, empty copy, and the server has a new, empty
  -- file. The table has the nanoseconds of the time of the server's file for the path, and the
  -- database holds the text of the table.
  pub create_makes_both :
      (c : Client P.State (Link P.State)) (fh : ℤ) (j : ℕ)
      → Vacant (view c.os) copy_path
      → (view c.os).entry database ≡ some j
      → database ≢ copy_path
      → length c.ht ≡ htablesize
      → next c.net.deliveries ≡ answered
      → Vacant (view c.net.server.os) remote
      → (c' : Client P.State (Link P.State)) × (d m time : ℕ) × (Transfer.afs_create P
            (connect P uninit root)
            cache_path
            path
            fh
            c
          ≡ ok (pos 0, pos d) c')
        × Created c'.os d j (dump_text c'.ht)
        × ((view c'.net.server.os).entry remote ≡ some m)
        × ((view c'.net.server.os).content m ≡ [])
        × (get c'.ht path ≡ pos time)
        × (time ≡ healthy.modified c'.net.server.os m)
  create_makes_both c fh j absent there apart wide delivered nowhere =
      let (d', m, r1, a1, free, fresh, w1) =
        healthy.open_new c.net.server.os remote create_rdonly mode_770 nowhere refl in
      let here1 : (view r1).entry remote ≡ some m = rw (w1, same_bytes_refl remote) in
      let held1 : (view r1).opened (pos d')
          ≡ some (record { ino = m; offset = 0; append = false; access = o_rdonly }) =
        rw (w1, ==ℤ_refl (pos d')) in
      let (st, r2, a2, size, w2) = healthy.lstat r1 remote m here1 in
      let (r3, a3, w3) =
        healthy.close r2 (pos d')
          (record { ino = m; offset = 0; append = false; access = o_rdonly }) (rw w2 held1) in
      let sent =
        create_answered P uninit root path c.net delivered
          (created_reply P uninit root path c.net.server a1 a2 a3) in
      let time = st.st_mtime_nsec in
      let (d, s1, s2, e1, e2, made) =
        local_calls c.os j (dump_text (put c.ht (key_of path) (pos time))) absent there apart in
      (
        _,
        d,
        m,
        time,
        create_run P (connect P uninit root) cache_path path c fh e1 sent e2,
        made,
        rw (w3, w2) here1,
        rw (w3, w2, w1, (==_iff m m).1 refl),
        get-put c.ht path path (pos time) wide ∙ rw (==ℤ_refl (key_of path)),
        healthy.lstat_time r1 r2 remote m st here1 a2
            ∙ sym (healthy.close_time r2 r3 (pos d') 0 m a3),
      )
