-- ===== src/Link/Stale.antt =====
-- What afs_open does to a copy that the cache has, where both disks work.
use afs_like_file_system.Common.{
  ℕ, ◌<◌, ◌^◌, ◌≡◌, ◌∙◌, ◌<ℤ◌, ◌≤ℤ◌, refl, ap, some, none, ℤ, pos, arith, length, true, false,
  ltb_ℤ, ◌==◌, ==ℤ_refl,
}
use afs_like_file_system.Machine.{Bytes}
use afs_like_file_system.Paths.{get_local_path}
use afs_like_file_system.Cache.Hash.{htablesize}
use afs_like_file_system.Cache.Table.{key_of, get, put}
use afs_like_file_system.Cache.Lookup.{get-put}
use afs_like_file_system.Cache.Database.{dump_text}
use afs_like_file_system.Posix.{o_rdwr, Posix, Indeterminate, Stat, Sys, done, failed, mode_770}
use afs_like_file_system.Posix.Laws.{write_size, Files, IsHealthy}
use afs_like_file_system.Server.RoundTrip.{server_path}
use afs_like_file_system.Client.Process.{
  Stub, option_case, Client, ok, database_path, call-done, bind-ok,
}
use afs_like_file_system.Client.Transfer.{append_rdwr}
use afs_like_file_system.Client.Files.{finish_open, afs_open}
use afs_like_file_system.Client.Missing.{refill_run}
use afs_like_file_system.Client.Release.{pure-done, stored_client}
use afs_like_file_system.Link.{Link, connect, next, later, answered}
use afs_like_file_system.Client.Open.{rest_of_open}
use afs_like_file_system.Link.Release.{used_link}
use afs_like_file_system.Link.Consistency.{open_compares_nanoseconds}
use afs_like_file_system.Link.Refill.{Fetched, refill_calls}
use afs_like_file_system.Link.Fetch.{server_replies}

-- The nanoseconds that a call of lstat finds.
abbrev pub nanoseconds_of : Sys Stat → ℕ
nanoseconds_of (done st) = st.st_mtime_nsec
nanoseconds_of (failed e) = 0

pub newer_lem : (entry : ℤ) (n m : ℕ) → entry <ℤ pos n → n ≡ m → ltb_ℤ entry (pos m) ≡ true
newer_lem entry n m h e = ground arith

kept_lem : (entry : ℤ) (n m : ℕ) → pos n ≤ℤ entry → n ≡ m → ltb_ℤ entry (pos m) ≡ false
kept_lem entry n m h e = ground arith

pub kept_run :
    (P : Posix) (R : Stub) (uninit : Indeterminate) (cache_path path : Bytes)
    (c : Client P.State R.Net) (fh fd : ℤ) {st : Stat} {s : P.State}
    → P.lstat (get_local_path path cache_path) c.os ≡ (done st, s)
    → rest_of_open P R uninit cache_path path fh fd false c ≡ ok (pos 0, fd) (record c { os = s })
unfolding finish_open option_case
kept_run P R uninit cache_path path c fh fd {st} {s} e =
    bind-ok _ _ c c none (pure-done c none)
    ∙ bind-ok _ _ c (record c { os = s }) (some st) (call-done _ c e)
    ∙ pure-done (record c { os = s }) (pos 0, fd)

module _ (P : Posix) (view : P.State → Files) (healthy : IsHealthy P view) (uninit : Indeterminate)
    (root cache_path path : Bytes) where
  abbrev copy_path : Bytes
  copy_path = get_local_path path cache_path

  abbrev database : Bytes
  database = get_local_path database_path cache_path

  abbrev remote : Bytes
  remote = server_path P view healthy uninit root path

  -- The nanoseconds of the file's modification time on the server.
  abbrev pub remote_time : Client P.State (Link P.State) → ℕ
  remote_time c = nanoseconds_of (P.lstat remote c.net.server.os).0

  Fetched-text :
      {s : P.State} {d i j : ℕ} {text other table : Bytes}
      → text ≡ other
      → Fetched P view healthy uninit root cache_path path s d i j text table
      → Fetched P view healthy uninit root cache_path path s d i j other table
  Fetched-text e fetched = rw e at fetched

  -- The disks of the client and of the server work, the cache has a copy of the path and the
  -- database, which are two files, the server has the file, with less than 2 ^ 31 bytes, and
  -- answers two requests. If the nanoseconds of its modification time are more than the number in
  -- the table, then opening the path returns 0 and a descriptor that is open on the copy, which
  -- holds exactly the bytes of the server's file, whatever it held before. The table has the
  -- nanoseconds of the time of the server's file, and the database holds the text of the table.
  pub open_refreshes_copy :
      (c : Client P.State (Link P.State)) (fh : ℤ) (i j m : ℕ)
      → (view c.os).entry copy_path ≡ some i
      → (view c.os).entry database ≡ some j
      → (j == i) ≡ false
      → length c.ht ≡ htablesize
      → next c.net.deliveries ≡ answered
      → next (later c.net.deliveries) ≡ answered
      → (view c.net.server.os).entry remote ≡ some m
      → length ((view c.net.server.os).content m) < 2 ^ 31
      → remote_time c < 10 ^ 9
      → get c.ht path <ℤ pos (remote_time c)
      → (c' : Client P.State (Link P.State)) × (d time : ℕ) × (afs_open P
            (connect P uninit root)
            uninit
            cache_path
            path
            fh
            c
          ≡ ok (pos 0, pos d) c')
        × Fetched P view healthy uninit root cache_path path c'.os d i j
            ((view c.net.server.os).content m)
            (dump_text c'.ht)
        × (get c'.ht path ≡ pos time)
        × (time ≡ healthy.modified c'.net.server.os m)
  open_refreshes_copy c fh i j m here there ji wide answers answers' at_server small below older =
      let (d, s1, e1, free, v1) =
        healthy.open_existing c.os copy_path append_rdwr mode_770 i here in
      let open1 : (view s1).opened (pos d)
          ≡ some (record { ino = i; offset = 0; append = true; access = o_rdwr }) =
        rw (v1, ==ℤ_refl (pos d)) in
      let (st, so, found, size, vo) = healthy.lstat c.net.server.os remote m at_server in
      let text = (view c.net.server.os).content m in
      let same : remote_time c ≡ st.st_mtime_nsec =
        ap (λ (r : Sys Stat × P.State). nanoseconds_of r.0) found in
      let newer : ltb_ℤ (get c.ht path) (pos st.st_mtime_nsec) ≡ true =
        newer_lem (get c.ht path) (remote_time c) st.st_mtime_nsec older same in
      let link : Link P.State = record {
        server = record c.net.server { os = so };
        deliveries = later c.net.deliveries;
      } in
      let text_at : (view so).content m ≡ text = rw vo in
      let (sf, time, sent, timed) =
        server_replies P view healthy uninit root cache_path path link m answers' (rw vo at_server)
          (rw text_at small) in
      let (rst, s2, s3, s4, s5, s6, e2, e3, e4, e5, e6, fetched) =
        refill_calls P view healthy uninit root cache_path path s1 ((view so).content m)
          (dump_text (put c.ht (key_of path) (pos time))) d i j 0 open1 (rw v1 here) (rw v1 there)
          ji in
      let fits = write_size P ((view so).content m) (rw text_at small) e4 in
      let c1 : Client P.State (Link P.State) = record c {
        os = s1;
        net = link;
        retries = 1;
        interval = 1000;
      } in
      let c2 : Client P.State (Link P.State) =
        stored_client P (connect P uninit root) cache_path path s6
          (used_link P view healthy uninit root cache_path path sf link) (pos time) c1 in
      (
        c2,
        d,
        time,
        open_compares_nanoseconds P uninit root cache_path path c e1 answers found
              (rw same at below) fh
            ∙ rw newer (
                refill_run P (connect P uninit root) cache_path path uninit c1 fh e2 sent e3 fits e5
                  e6),
        Fetched-text text_at fetched,
        get-put c.ht path path (pos time) wide ∙ rw (==ℤ_refl (key_of path)),
        timed,
      )

  -- The disks of the client and of the server work, the cache has a copy of the path, and the
  -- server has the file and answers the request. If the nanoseconds of its modification time are no
  -- more than the number in the table, then opening the path returns 0 and a new descriptor that is
  -- open on the copy. No file of the cache has other bytes than before, and the table is as it was.
  pub open_keeps_fresh :
      (c : Client P.State (Link P.State)) (fh : ℤ) (i m : ℕ)
      → (view c.os).entry copy_path ≡ some i
      → next c.net.deliveries ≡ answered
      → (view c.net.server.os).entry remote ≡ some m
      → remote_time c < 10 ^ 9
      → pos (remote_time c) ≤ℤ get c.ht path
      → (c' : Client P.State (Link P.State)) × (d : ℕ) × (afs_open P
            (connect P uninit root)
            uninit
            cache_path
            path
            fh
            c
          ≡ ok (pos 0, pos d) c')
        × ((view c.os).opened (pos d) ≡ none)
        × ((view c'.os).opened (pos d)
            ≡ some (record { ino = i; offset = 0; append = true; access = o_rdwr }))
        × ((k : ℕ) → (view c'.os).content k ≡ (view c.os).content k)
        × (c'.ht ≡ c.ht)
  open_keeps_fresh c fh i m here answers at_server below older =
      let (d, s1, e1, free, v1) =
        healthy.open_existing c.os copy_path append_rdwr mode_770 i here in
      let (st, so, found, size, vo) = healthy.lstat c.net.server.os remote m at_server in
      let same : remote_time c ≡ st.st_mtime_nsec =
        ap (λ (r : Sys Stat × P.State). nanoseconds_of r.0) found in
      let kept : ltb_ℤ (get c.ht path) (pos st.st_mtime_nsec) ≡ false =
        kept_lem (get c.ht path) (remote_time c) st.st_mtime_nsec older same in
      let link : Link P.State = record {
        server = record c.net.server { os = so };
        deliveries = later c.net.deliveries;
      } in
      let c1 : Client P.State (Link P.State) = record c {
        os = s1;
        net = link;
        retries = 1;
        interval = 1000;
      } in
      let (st', s2, e2, size', v2) = healthy.lstat s1 copy_path i (rw v1 here) in
      (
        record c1 { os = s2 },
        d,
        open_compares_nanoseconds P uninit root cache_path path c e1 answers found
              (rw same at below) fh
            ∙ rw kept (kept_run P (connect P uninit root) uninit cache_path path c1 fh (pos d) e2),
        free,
        rw (v2, v1, ==ℤ_refl (pos d)),
        λ k. rw (v2, v1),
        refl,
      )
