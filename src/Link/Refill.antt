-- ===== src/Link/Refill.antt =====
-- The client's side of a fetch: the copy is emptied and filled.
use afs_like_file_system.Common.{
  ℕ, ◌+◌, ◌<◌, ◌^◌, ◌≡◌, ◌≢◌, ◌∙◌, refl, [], some, ℤ, pos, arith, length, take, true, false,
  ==ℤ_refl, ==_iff, ◌==◌,
}
use afs_like_file_system.Machine.{Bytes, to_size}
use afs_like_file_system.Paths.{get_local_path}
use afs_like_file_system.Cache.Table.{key_of, put}
use afs_like_file_system.Cache.Database.{dump_text}
use afs_like_file_system.Posix.{o_rdwr, Posix, Indeterminate, Stat, done, failed, mode_770}
use afs_like_file_system.Posix.Laws.{
  Files, Descriptor, IsHealthy, Vacant, same_bytes, same_bytes_refl, same_bytes_ne, fresh_number,
  splice_whole,
}
use afs_like_file_system.Protocol.{FetchReply}
use afs_like_file_system.Client.Process.{Client, ok, database_path}
use afs_like_file_system.Client.Transfer.{append_rdwr, create_append_rdwr}
use afs_like_file_system.Client.Files.{afs_open}
use afs_like_file_system.Client.Missing.{refill_run, missing_run}
use afs_like_file_system.Client.Release.{stored_client}
use afs_like_file_system.Link.{Link, connect}

module _ (P : Posix) (view : P.State → Files) (healthy : IsHealthy P view) (uninit : Indeterminate)
    (root cache_path path : Bytes) where
  abbrev copy_path : Bytes
  copy_path = get_local_path path cache_path

  abbrev database : Bytes
  database = get_local_path database_path cache_path

  -- The copy is open as descriptor `d` and holds `text`; the database holds `table`.
  pub record Fetched (s : P.State) (d k j : ℕ) (text table : Bytes) : Type 0 where
    pub entry_at : (view s).entry copy_path ≡ some k
    pub text_at : (view s).content k ≡ text
    pub table_at : (view s).content j ≡ table
    pub at : ℕ
    pub open_at :
        (view s).opened (pos d)
        ≡ some (record { ino = k; offset = at; append = true; access = o_rdwr })

  -- The client's calls around the fetch, from a descriptor that is open on the copy.
  pub refill_calls :
      (s : P.State) (text table : Bytes) (d k j at : ℕ)
      → (view s).opened (pos d)
        ≡ some (record { ino = k; offset = at; append = true; access = o_rdwr })
      → (view s).entry copy_path ≡ some k
      → (view s).entry database ≡ some j
      → (j == k) ≡ false
      → (st : Stat) × (s2 s3 s4 s5 s6 : P.State) × (P.ftruncate (pos d) 0 s ≡ (done 0, s2))
        × (P.fopen_write database table s2 ≡ (true, s3))
        × (P.write (pos d) text (length text) s3 ≡ (done (length text), s4))
        × (P.fsync (pos d) s4 ≡ (done 0, s5))
        × (P.lstat copy_path s5 ≡ (done st, s6))
        × Fetched s6 d k j text table
  refill_calls s text table d k j at open1 here1 there1 jk =
      let o : Descriptor = record { ino = k; offset = at; append = true; access = o_rdwr } in
      let kk : (k == k) ≡ true = (==_iff k k).1 refl in
      let jj : (j == j) ≡ true = (==_iff j j).1 refl in
      let kj : (k == j) ≡ false = ground (arith, jk) in
      let (s2, e2, v2) = healthy.ftruncate s (pos d) 0 o open1 tt (omega arith) in
      let (s3, e3, v3) = healthy.fopen_write s2 database table j (rw v2 there1) in
      let empty3 : (view s3).content k ≡ [] = rw (v3, kj, v2, kk) in
      let open3 : (view s3).opened (pos d) ≡ some o = rw (v3, v2) open1 in
      let here3 : (view s3).entry copy_path ≡ some k = rw (v3, v2) here1 in
      let table3 : (view s3).content j ≡ table = rw (v3, jj) in
      let (s4, e4, v4) = healthy.write s3 (pos d) text (length text) o open3 tt (omega arith) in
      let text4 : (view s4).content k ≡ text = rw (v4, kk, empty3) (splice_whole text) in
      let o4 : Descriptor = record o {
        offset = length ((view s3).content k) + length (take (length text) text);
      } in
      let open4 : (view s4).opened (pos d) ≡ some o4 = rw (v4, ==ℤ_refl (pos d)) in
      let (s5, e5, v5) = healthy.fsync s4 (pos d) o4 open4 in
      let (st, s6, e6, size, v6) = healthy.lstat s5 copy_path k (rw (v5, v4) here3) in
      let fetched : Fetched s6 d k j text table = record {
        entry_at = rw (v6, v5, v4) here3;
        text_at = rw (v6, v5) text4;
        table_at = rw (v6, v5, v4, jk) table3;
        at = length ((view s3).content k) + length (take (length text) text);
        open_at = rw (v6, v5) open4;
      } in
      (st, s2, s3, s4, s5, s6, e2, e3, e4, e5, e6, fetched)

  -- The two calls of `open` for a file that the cache lacks.
  creating_calls :
      (s : P.State) (j : ℕ)
      → Vacant (view s) copy_path
      → (view s).entry database ≡ some j
      → database ≢ copy_path
      → (e d k : ℕ) × (s0 s1 : P.State) × (P.open_file copy_path append_rdwr mode_770 s
          ≡ (failed e, s0))
        × (P.open_file copy_path create_append_rdwr mode_770 s0 ≡ (done d, s1))
        × ((view s1).opened (pos d)
            ≡ some (record { ino = k; offset = 0; append = true; access = o_rdwr }))
        × ((view s1).entry copy_path ≡ some k)
        × ((view s1).entry database ≡ some j)
        × ((j == k) ≡ false)
  creating_calls s j absent there apart =
      let (e, s0, e0, v0) = healthy.open_missing s copy_path append_rdwr mode_770 absent refl in
      let there0 : (view s0).entry database ≡ some j = rw v0 there in
      let (d, k, s1, e1, free, fresh, v1) =
        healthy.open_new s0 copy_path create_append_rdwr mode_770 (rw v0 absent) refl in
      let dc : same_bytes database copy_path ≡ false = same_bytes_ne database copy_path apart in
      (
        e,
        d,
        k,
        s0,
        s1,
        e0,
        e1,
        rw (v1, ==ℤ_refl (pos d)),
        rw (v1, same_bytes_refl copy_path),
        rw (v1, dc) there0,
        fresh_number (view s0) database k j fresh there0,
      )

  -- A fetch of `text` that is answered fills a copy that the cache lacked.
  pub fill_missing :
      (c : Client P.State (Link P.State)) (fh : ℤ) (j : ℕ) {reply : FetchReply} {net : Link P.State}
      → Vacant (view c.os) copy_path
      → (view c.os).entry database ≡ some j
      → database ≢ copy_path
      → (connect P uninit root).fetch (record { path = path }) c.net ≡ (some reply, net)
      → reply.size ≡ pos (length reply.buf)
      → length reply.buf < 2 ^ 31
      → (os : P.State) × (e d k : ℕ) × (afs_open P
            (connect P uninit root)
            uninit
            cache_path
            path
            fh
            c
          ≡ ok
              (pos 0, pos d)
              (stored_client P
                (connect P uninit root)
                cache_path
                path
                os
                net
                reply.time
                (record c { error_number = e })))
        × Fetched os d k j reply.buf (dump_text (put c.ht (key_of path) reply.time))
  fill_missing c fh j {reply} {net} absent there apart answers sized small =
      let (e, d, k, s0, s1, e0, e1, open1, here1, there1, jk) =
        creating_calls c.os j absent there apart in
      let (st, s2, s3, s4, s5, s6, e2, e3, e4, e5, e6, fetched) =
        refill_calls s1 reply.buf (dump_text (put c.ht (key_of path) reply.time)) d k j 0 open1
          here1 there1 jk in
      let fits : to_size reply.size ≡ length reply.buf = rw sized (omega arith) in
      let write_all : P.write (pos d) reply.buf (to_size reply.size) s3
          ≡ (done (length reply.buf), s4) =
        rw fits e4 in
      let c1 = record c { os = s1; error_number = e } in
      (
        s6,
        e,
        d,
        k,
        missing_run P (connect P uninit root) cache_path path uninit c fh e0 e1
            ∙ refill_run P (connect P uninit root) cache_path path uninit c1 fh e2 answers e3
                write_all e5 e6,
        fetched,
      )
