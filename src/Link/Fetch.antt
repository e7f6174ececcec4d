-- ===== src/Link/Fetch.antt =====
-- A file of the server on its way to the cache.
use afs_like_file_system.Common.{
  ℕ, ◌<◌, ◌^◌, ◌≡◌, ◌≢◌, ◌∙◌, refl, ap, [], some, ℤ, pos, negsuc, arith, length, ==ℤ_refl,
}
use afs_like_file_system.Machine.{Bytes}
use afs_like_file_system.Paths.{get_local_path}
use afs_like_file_system.Cache.Hash.{htablesize}
use afs_like_file_system.Cache.Table.{key_of, get, put}
use afs_like_file_system.Cache.Lookup.{get-put}
use afs_like_file_system.Cache.Database.{dump_text}
use afs_like_file_system.Posix.{Posix, Indeterminate, failed}
use afs_like_file_system.Posix.Laws.{Files, IsHealthy, Vacant}
use afs_like_file_system.Protocol.{FetchReply, fetch_reply, status_ok}
use afs_like_file_system.Server.{plain_rdwr, afs_fetch}
use afs_like_file_system.Server.Answers.{missing_reply}
use afs_like_file_system.Server.RoundTrip.{server_path, fetch_calls, fetch_run}
use afs_like_file_system.Client.Process.{Client, ok, database_path}
use afs_like_file_system.Client.Files.{afs_open}
use afs_like_file_system.Client.Release.{stored_client}
use afs_like_file_system.Link.{Link, connect, next, later, answered}
use afs_like_file_system.Link.Release.{used_link}
use afs_like_file_system.Link.Refill.{Fetched, fill_missing}

module _ (P : Posix) (view : P.State → Files) (healthy : IsHealthy P view) (uninit : Indeterminate)
    (root cache_path path : Bytes) where
  abbrev copy_path : Bytes
  copy_path = get_local_path path cache_path

  abbrev database : Bytes
  database = get_local_path database_path cache_path

  fetch_answered :
      (link : Link P.State) {reply : FetchReply} {os : P.State}
      → next link.deliveries ≡ answered
      → afs_fetch P uninit root (record { path = path }) link.server
        ≡ ((status_ok, reply), record link.server { os = os })
      → (connect P uninit root).fetch (record { path = path }) link
        ≡ (some reply, used_link P view healthy uninit root cache_path path os link)
  fetch_answered link delivered run = rw (delivered, run)

  pub missing_answered :
      (link : Link P.State) {e : ℕ} {os : P.State}
      → next link.deliveries ≡ answered
      → P.open_file (server_path P view healthy uninit root path) plain_rdwr 0 link.server.os
        ≡ (failed e, os)
      → (connect P uninit root).fetch (record { path = path }) link ≡ (
        some (record fetch_reply { error = negsuc 0 }),
        record {
          server = record { os = os; error_number = e };
          deliveries = later link.deliveries;
        },
      )
  missing_answered link delivered missing =
      rw (delivered, missing_reply P uninit root path link.server missing)

  -- The handler's reply for a file that the server has.
  pub server_replies :
      (link : Link P.State) (m : ℕ)
      → next link.deliveries ≡ answered
      → (view link.server.os).entry (server_path P view healthy uninit root path) ≡ some m
      → length ((view link.server.os).content m) < 2 ^ 31
      → let text = (view link.server.os).content m in
        (server_os : P.State) × (time : ℕ) × ((connect P uninit root).fetch
            (record { path = path })
            link
          ≡ (
            some (record { error = pos 0; size = pos (length text); buf = text; time = pos time }),
            used_link P view healthy uninit root cache_path path server_os link,
          ))
        × (time ≡ healthy.modified server_os m)
  server_replies link m delivered remote small =
      let text = (view link.server.os).content m in
      let (sd, sst, st', r1, r2, r3, r4, r5, r6, b1, b2, b3, b4, b5, b6, size, file, timed) =
        fetch_calls P view healthy uninit root path link.server.os text m (remote, refl) in
      let ran =
        fetch_run P view healthy uninit root path link.server text small b1 b2 b3 b4 b5 b6 size in
      (r6, st'.st_mtime_nsec, fetch_answered link delivered ran, timed)

  -- The disks of the client and of the server work, the cache has the database and a place for a
  -- copy of the path, but none there, and the server has the file, with less than 2 ^ 31 bytes, and
  -- answers the request. Opening the path then returns 0 and a descriptor that is open on a copy
  -- with exactly the bytes of the server's file. The table has the nanoseconds of the time of the
  -- server's file for the path, and the database holds the text of the table.
  pub open_fetches_missing :
      (c : Client P.State (Link P.State)) (fh : ℤ) (j m : ℕ)
      → Vacant (view c.os) copy_path
      → (view c.os).entry database ≡ some j
      → database ≢ copy_path
      → length c.ht ≡ htablesize
      → next c.net.deliveries ≡ answered
      → (view c.net.server.os).entry (server_path P view healthy uninit root path) ≡ some m
      → length ((view c.net.server.os).content m) < 2 ^ 31
      → (os server_os : P.State) × (e d k : ℕ) × (time : ℤ) × (afs_open P
            (connect P uninit root)
            uninit
            cache_path
            path
            fh
            c
          ≡ ok
              (pos 0, pos d)
              (stored_client P
                (connect P uninit root)
                cache_path
                path
                os
                (used_link P view healthy uninit root cache_path path server_os c.net)
                time
                (record c { error_number = e })))
        × Fetched P view healthy uninit root cache_path path os d k j
            ((view c.net.server.os).content m)
            (dump_text (put c.ht (key_of path) time))
        × (get (put c.ht (key_of path) time) path ≡ time)
        × (time ≡ pos (healthy.modified server_os m))
  open_fetches_missing c fh j m absent there apart wide delivered remote small =
      let (server_os, time, answers, timed) = server_replies c.net m delivered remote small in
      let (os, e, d, k, ran, fetched) =
        fill_missing P view healthy uninit root cache_path path c fh j absent there apart answers
          refl small in
      (
        os,
        server_os,
        e,
        d,
        k,
        pos time,
        ran,
        fetched,
        get-put c.ht path path (pos time) wide ∙ rw (==ℤ_refl (key_of path)),
        ap pos timed,
      )

  -- The same for a file that neither the cache nor the server has, though both have a place for it:
  -- the server answers OK with an error that the client does not look at. Opening returns 0 and a
  -- descriptor that is open on a new, empty copy, and the table has the time 0 for the path.
  pub open_invents_file :
      (c : Client P.State (Link P.State)) (fh : ℤ) (j : ℕ)
      → Vacant (view c.os) copy_path
      → (view c.os).entry database ≡ some j
      → database ≢ copy_path
      → length c.ht ≡ htablesize
      → next c.net.deliveries ≡ answered
      → Vacant (view c.net.server.os) (server_path P view healthy uninit root path)
      → (c' : Client P.State (Link P.State)) × (d k : ℕ) × (afs_open P
            (connect P uninit root)
            uninit
            cache_path
            path
            fh
            c
          ≡ ok (pos 0, pos d) c')
        × Fetched P view healthy uninit root cache_path path c'.os d k j [] (dump_text c'.ht)
        × (get c'.ht path ≡ pos 0)
  open_invents_file c fh j absent there apart wide delivered nowhere =
      let remote = server_path P view healthy uninit root path in
      let (x, s, missing, v) =
        healthy.open_missing c.net.server.os remote plain_rdwr 0 nowhere refl in
      let answers = missing_answered c.net delivered missing in
      let (os, e, d, k, ran, fetched) =
        fill_missing P view healthy uninit root cache_path path c fh j absent there apart answers
          refl (omega arith) in
      (_, d, k, ran, fetched, get-put c.ht path path (pos 0) wide ∙ rw (==ℤ_refl (key_of path)))
