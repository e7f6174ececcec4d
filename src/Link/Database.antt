-- ===== src/Link/Database.antt =====
-- A file of the mounted tree that is called as the client's own database.
use afs_like_file_system.Common.{
  ℕ, ◌+◌, ◌<◌, ◌^◌, ◌≡◌, ◌∙◌, ◌<ℤ◌, ◌++◌, refl, ap, some, pos, arith, length, take, true, ltb_ℤ,
  ◌==◌, ==_iff, ==ℤ_refl, take_all, ◌∷◌, All, none, ℤ,
}
use afs_like_file_system.Machine.{Bytes}
use afs_like_file_system.Paths.{get_local_path, max_path_length}
use afs_like_file_system.Cache.Table.{init_ht, key_of, get, put}
use afs_like_file_system.Cache.Database.{dump_text, load_text}
use afs_like_file_system.Cache.Database.Tail.{NoComma, load_text-NoComma}
use afs_like_file_system.Posix.{o_rdwr, Posix, Indeterminate, Stat, Sys, done, mode_770}
use afs_like_file_system.Posix.Laws.{write_size, Files, Descriptor, IsHealthy}
use afs_like_file_system.Posix.Splice.{splice_end}
use afs_like_file_system.Server.RoundTrip.{server_path}
use afs_like_file_system.Client.Process.{Client, ok, crash, database_path}
use afs_like_file_system.Client.Transfer.{append_rdwr}
use afs_like_file_system.Client.Files.{afs_open}
use afs_like_file_system.Client.Missing.{refill_run}
use afs_like_file_system.Client.Release.{stored_client}
use afs_like_file_system.Fuse.{client_main}
use afs_like_file_system.Fuse.Restart.{broken_start}
use afs_like_file_system.Link.{Link, connect, next, later, answered}
use afs_like_file_system.Link.Release.{used_link}
use afs_like_file_system.Link.Consistency.{open_compares_nanoseconds}
use afs_like_file_system.Link.Fetch.{server_replies}
use afs_like_file_system.Link.Stale.{nanoseconds_of, newer_lem, remote_time}

module _ (P : Posix) (view : P.State → Files) (healthy : IsHealthy P view) (uninit : Indeterminate)
    (root cache_path : Bytes) where
  abbrev database : Bytes
  database = get_local_path database_path cache_path

  abbrev remote : Bytes
  remote = server_path P view healthy uninit root database_path

  -- The calls of a fetch whose copy is the database.
  mixing_calls :
      (s : P.State) (text table : Bytes) (d i : ℕ)
      → (view s).opened (pos d)
        ≡ some (record { ino = i; offset = 0; append = true; access = o_rdwr })
      → (view s).entry database ≡ some i
      → (st : Stat) × (s2 s3 s4 s5 s6 : P.State) × (P.ftruncate (pos d) 0 s ≡ (done 0, s2))
        × (P.fopen_write database table s2 ≡ (true, s3))
        × (P.write (pos d) text (length text) s3 ≡ (done (length text), s4))
        × (P.fsync (pos d) s4 ≡ (done 0, s5))
        × (P.lstat database s5 ≡ (done st, s6))
        × ((view s6).entry database ≡ some i)
        × ((view s6).content i ≡ table ++ text)
  mixing_calls s text table d i held here =
      let o : Descriptor = record { ino = i; offset = 0; append = true; access = o_rdwr } in
      let ii : (i == i) ≡ true = (==_iff i i).1 refl in
      let (s2, e2, v2) = healthy.ftruncate s (pos d) 0 o held tt (omega arith) in
      let (s3, e3, v3) = healthy.fopen_write s2 database table i (rw v2 here) in
      let table3 : (view s3).content i ≡ table = rw (v3, ii) in
      let held3 : (view s3).opened (pos d) ≡ some o = rw (v3, v2) held in
      let (s4, e4, v4) = healthy.write s3 (pos d) text (length text) o held3 tt (omega arith) in
      let all : take (length text) text ≡ text = take_all (length text) text (omega arith) in
      let mixed4 : (view s4).content i ≡ table ++ text =
        rw (v4, ii, table3, all) (splice_end table text) in
      let held4 : (view s4).opened (pos d)
          ≡ some (record o {
            offset = length ((view s3).content i) + length (take (length text) text);
          }) =
        rw (v4, ==ℤ_refl (pos d)) in
      let here4 : (view s4).entry database ≡ some i = rw (v4, v3, v2) here in
      let (s5, e5, v5) = healthy.fsync s4 (pos d) _ held4 in
      let (st, s6, e6, size, v6) = healthy.lstat s5 database i (rw v5 here4) in
      (st, s2, s3, s4, s5, s6, e2, e3, e4, e5, e6, rw (v6, v5) here4, rw (v6, v5) mixed4)

  -- The disks of the client and of the server work, the server has a file "/database.txt", with
  -- less than 2 ^ 31 bytes, and answers two requests. If the nanoseconds of its modification time
  -- are more than the number in the table, then opening "/database.txt" returns 0. The copy, which
  -- is the database of the client, then holds the text of the table with the bytes of the server's
  -- file behind it.
  pub open_mixes_database :
      (c : Client P.State (Link P.State)) (fh : ℤ) (i m : ℕ)
      → (view c.os).entry database ≡ some i
      → next c.net.deliveries ≡ answered
      → next (later c.net.deliveries) ≡ answered
      → (view c.net.server.os).entry remote ≡ some m
      → length ((view c.net.server.os).content m) < 2 ^ 31
      → remote_time P view healthy uninit root cache_path database_path c < 10 ^ 9
      → get c.ht database_path
        <ℤ pos (remote_time P view healthy uninit root cache_path database_path c)
      → (c' : Client P.State (Link P.State)) × (d : ℕ) × (afs_open P
            (connect P uninit root)
            uninit
            cache_path
            database_path
            fh
            c
          ≡ ok (pos 0, pos d) c')
        × ((view c'.os).entry database ≡ some i)
        × ((view c'.os).content i ≡ dump_text c'.ht ++ (view c.net.server.os).content m)
  open_mixes_database c fh i m here answers answers' at_server small below older =
      let (d, s1, e1, free, v1) = healthy.open_existing c.os database append_rdwr mode_770 i here in
      let held1 : (view s1).opened (pos d)
          ≡ some (record { ino = i; offset = 0; append = true; access = o_rdwr }) =
        rw (v1, ==ℤ_refl (pos d)) in
      let (st, so, found, size, vo) = healthy.lstat c.net.server.os remote m at_server in
      let same : remote_time P view healthy uninit root cache_path database_path c
          ≡ st.st_mtime_nsec =
        ap (λ (r : Sys Stat × P.State). nanoseconds_of r.0) found in
      let newer : ltb_ℤ (get c.ht database_path) (pos st.st_mtime_nsec) ≡ true =
        newer_lem (get c.ht database_path)
          (remote_time P view healthy uninit root cache_path database_path c) st.st_mtime_nsec older
          same in
      let link : Link P.State = record {
        server = record c.net.server { os = so };
        deliveries = later c.net.deliveries;
      } in
      let text = (view so).content m in
      let text_at : text ≡ (view c.net.server.os).content m = rw vo in
      let (sf, time, sent, timed) =
        server_replies P view healthy uninit root cache_path database_path link m answers'
          (rw vo at_server) (rw text_at small) in
      let table = dump_text (put c.ht (key_of database_path) (pos time)) in
      let (rst, s2, s3, s4, s5, s6, e2, e3, e4, e5, e6, there, mixed) =
        mixing_calls s1 text table d i held1 (rw v1 here) in
      let c1 : Client P.State (Link P.State) = record c {
        os = s1;
        net = link;
        retries = 1;
        interval = 1000;
      } in
      (
        stored_client P (connect P uninit root) cache_path database_path s6
            (used_link P view healthy uninit root cache_path database_path sf link) (pos time) c1,
        d,
        open_compares_nanoseconds P uninit root cache_path database_path c e1 answers found
              (rw same at below) fh
            ∙ rw newer (
                refill_run P (connect P uninit root) cache_path database_path uninit c1 fh e2 sent
                  e3 (write_size P text (rw text_at small) e4) e5 e6),
        there,
        mixed ∙ ap (λ (b : Bytes). table ++ b) text_at,
      )

module _ (P : Posix) (view : P.State → Files) (healthy : IsHealthy P view) (uninit : Indeterminate)
    (root resolved : Bytes) where
  abbrev cache : Bytes
  cache = take max_path_length resolved

  abbrev pub server_time : Client P.State (Link P.State) → ℕ
  server_time c = remote_time P view healthy uninit root cache database_path c

  -- The disks of the client and of the server work, the cache directory has the client's database,
  -- the server has a file "/database.txt", with less than 2 ^ 31 bytes, one at least, and no comma
  -- among them, and answers two requests. If the nanoseconds of its modification time are more than
  -- the number in the table, then opening "/database.txt" returns 0, and a client that is started
  -- on that disk afterwards crashes.
  pub opened_database_crashes :
      (c next_start : Client P.State (Link P.State)) (fh : ℤ) (i m b : ℕ) (more : Bytes)
      → (view c.os).entry (get_local_path database_path cache) ≡ some i
      → next c.net.deliveries ≡ answered
      → next (later c.net.deliveries) ≡ answered
      → (view c.net.server.os).entry (server_path P view healthy uninit root database_path) ≡ some m
      → (view c.net.server.os).content m ≡ b ∷ more
      → All NoComma (b ∷ more)
      → length (b ∷ more) < 2 ^ 31
      → server_time c < 10 ^ 9
      → get c.ht database_path <ℤ pos (server_time c)
      → (c' : Client P.State (Link P.State)) × (d : ℕ) × (afs_open P
            (connect P uninit root)
            uninit
            cache
            database_path
            fh
            c
          ≡ ok (pos 0, pos d) c')
        × (client_main P (connect P uninit root) resolved (record next_start { os = c'.os })
            ≡ crash)
  opened_database_crashes c next_start fh i m b more here answers answers' at_server text no_comma
        small below older =
      let (c', d, opened, there, mixed) =
        open_mixes_database P view healthy uninit root cache c fh i m here answers answers'
          at_server (rw text small) below older in
      let broken : load_text ((view c'.os).content i) init_ht ≡ none =
        rw (mixed, text) (load_text-NoComma c'.ht b more no_comma) in
      (
        c',
        d,
        opened,
        broken_start P view healthy (connect P uninit root) resolved
            (record next_start { os = c'.os }) i there broken,
      )
