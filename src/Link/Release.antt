-- ===== src/Link/Release.antt =====
-- A modified copy on its way back to the server.
use afs_like_file_system.Common.{
  ℕ, ◌<◌, ◌^◌, ◌≡◌, ◌≢◌, ◌∙◌, refl, ap, some, ℤ, pos, arith, length, take, take_all, true, ==ℤ_refl,
  ==_iff,
}
use afs_like_file_system.Machine.{Bytes, to_i32, to_i32_fits, fill}
use afs_like_file_system.Paths.{get_local_path}
use afs_like_file_system.Cache.Hash.{htablesize}
use afs_like_file_system.Cache.Table.{key_of, get, put}
use afs_like_file_system.Cache.Lookup.{get-put}
use afs_like_file_system.Cache.Database.{dump_text}
use afs_like_file_system.Posix.{o_rdwr, Posix, Indeterminate, Stat, done, mode_770}
use afs_like_file_system.Posix.Laws.{Files, Descriptor, IsHealthy, fill_exact}
use afs_like_file_system.Protocol.{StoreRes, status_ok}
use afs_like_file_system.Server.{afs_store}
use afs_like_file_system.Server.RoundTrip.{FileIs, server_path, store_calls, store_run}
use afs_like_file_system.Client.Process.{Client, ok, database_path}
use afs_like_file_system.Client.Transfer.{append_rdwr}
use afs_like_file_system.Client.Files.{modified_flag, afs_release}
use afs_like_file_system.Client.Release.{stored_client, release_run}
use afs_like_file_system.Link.{Link, connect, next, later, answered}

module _ (P : Posix) (view : P.State → Files) (healthy : IsHealthy P view) (uninit : Indeterminate)
    (root cache_path path : Bytes) where
  abbrev copy_path : Bytes
  copy_path = get_local_path path cache_path

  abbrev database : Bytes
  database = get_local_path database_path cache_path

  -- The system calls of the client in front of the store.
  reading_calls :
      (s : P.State) (fh : ℤ) (o : Descriptor) (i j : ℕ)
      → (view s).opened fh ≡ some o
      → (view s).entry copy_path ≡ some i
      → (view s).entry database ≡ some j
      → let copy = (view s).content i in
        (st : Stat) × (e : ℕ) × (s1 s2 s3 s4 : P.State) × (P.lstat copy_path s ≡ (done st, s1))
        × (P.close fh s1 ≡ (done 0, s2))
        × (P.open_file copy_path append_rdwr mode_770 s2 ≡ (done e, s3))
        × (P.read (pos e) (length copy) s3 ≡ (done copy, s4))
        × (st.st_size ≡ length copy)
        × ((view s4).entry database ≡ some j)
  reading_calls s fh o i j held here there =
      let copy = (view s).content i in
      let (st, s1, e1, size, v1) = healthy.lstat s copy_path i here in
      let (s2, e2, v2) = healthy.close s1 fh o (rw v1 held) in
      let here2 : (view s2).entry copy_path ≡ some i = rw (v2, v1) here in
      let (e, s3, e3, free, v3) = healthy.open_existing s2 copy_path append_rdwr mode_770 i here2 in
      let o3 : Descriptor = record { ino = i; offset = 0; append = true; access = o_rdwr } in
      let main3 : (view s3).opened (pos e) ≡ some o3 = rw (v3, ==ℤ_refl (pos e)) in
      let text3 : (view s3).content i ≡ copy = rw (v3, v2, v1) in
      let (s4, e4, v4) = healthy.read s3 (pos e) (length copy) o3 main3 tt in
      let got : take (length copy) ((view s3).content i) ≡ copy =
        rw text3 (take_all (length copy) copy (omega arith)) in
      (st, e, s1, s2, s3, s4, e1, e2, e3, rw got at e4, size, rw (v4, v3, v2, v1) there)

  -- The link after a request that was answered.
  abbrev pub used_link : P.State → Link P.State → Link P.State
  used_link os link = record {
    server = record link.server { os = os };
    deliveries = later link.deliveries;
  }

  pub store_answered :
      (link : Link P.State) (copy : Bytes) {reply : StoreRes} {os : P.State}
      → next link.deliveries ≡ answered
      → afs_store P uninit root
          (record { path = path; size = pos (length copy); buf = copy })
          link.server
        ≡ ((status_ok, reply), record link.server { os = os })
      → (connect P uninit root).store
          (record { path = path; size = pos (length copy); buf = copy })
          link
        ≡ (some reply, used_link os link)
  store_answered link copy delivered run = rw (delivered, run)

  -- The disks of the client and of the server work, the server has the file and answers the request.
  -- Releasing a copy that is marked as modified and holds less than 2 ^ 31 bytes returns 0. The file
  -- on the server then holds exactly the copy; the table, and with it the database, has the
  -- nanoseconds of the time that this file has now in place of the mark.
  pub release_stores_copy :
      (c : Client P.State (Link P.State)) (fh : ℤ) (o : Descriptor) (i j m : ℕ)
      → (view c.os).opened fh ≡ some o
      → (view c.os).entry copy_path ≡ some i
      → (view c.os).entry database ≡ some j
      → length ((view c.os).content i) < 2 ^ 31
      → length c.ht ≡ htablesize
      → get c.ht path ≡ modified_flag
      → next c.net.deliveries ≡ answered
      → (view c.net.server.os).entry (server_path P view healthy uninit root path) ≡ some m
      → (os server_os : P.State) × (time : ℤ) × (afs_release P
            (connect P uninit root)
            uninit
            cache_path
            path
            fh
            c
          ≡ ok (pos 0) (
              stored_client P
                (connect P uninit root)
                cache_path
                path
                os
                (used_link server_os c.net)
                time
                c))
        × FileIs P view healthy uninit root path server_os
            (server_path P view healthy uninit root path)
            m
            ((view c.os).content i)
        × (get (put c.ht (key_of path) time) path ≡ time)
        × (time ≡ pos (healthy.modified server_os m))
        × (time ≢ modified_flag)
        × ((view os).content j ≡ dump_text (put c.ht (key_of path) time))
  release_stores_copy c fh o i j m held here there small wide marked delivered remote =
      let copy = (view c.os).content i in
      let (st, e, s1, s2, s3, s4, e1, e2, e3, e4, size, there4) =
        reading_calls c.os fh o i j held here there in
      let (d, sst, r1, r2, r3, r4, a1, a2, a3, a4, file, stamped) =
        store_calls P view healthy uninit root path c.net.server.os copy m remote in
      let ran = store_run P view healthy uninit root path c.net.server copy small a1 a2 a3 a4 in
      let time : ℤ = pos sst.st_mtime_nsec in
      let (s5, e5, v5) =
        healthy.fopen_write s4 database (dump_text (put c.ht (key_of path) time)) j there4 in
      let filled : fill copy (uninit.malloc st.st_size) ≡ copy =
        fill_exact copy (uninit.malloc st.st_size) (uninit.malloc_length st.st_size ∙ size) in
      let read_all : P.read (pos e) st.st_size s3 ≡ (done copy, s4) = rw size e4 in
      let exact : to_i32 st.st_size ≡ pos (length copy) =
        rw size (to_i32_fits (length copy) small) in
      (
        s5,
        r4,
        time,
        release_run P (connect P uninit root) cache_path path uninit c fh copy small marked e1 e2 e3
            read_all filled exact (store_answered c.net copy delivered ran) e5,
        file,
        get-put c.ht path path time wide ∙ rw (==ℤ_refl (key_of path)),
        ap pos stamped,
        λ h. ground (arith, h),
        rw (v5, (==_iff j j).1 refl),
      )
