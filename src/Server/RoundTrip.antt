-- ===== src/Server/RoundTrip.antt =====
-- A file that is stored on the server and fetched from it.
use afs_like_file_system.Common.{
  ℕ, ◌<◌, ◌^◌, ◌%◌, ◌≡◌, ◌∙◌, refl, ap, [], some, ℤ, pos, arith, length, ==_iff,
}
use afs_like_file_system.Machine.{Bytes, to_i32, to_i32_fits, fill}
use afs_like_file_system.Paths.{get_server_path}
use afs_like_file_system.Posix.{create_trunc_rdwr, Posix, Indeterminate, Stat, done, mode_770}
use afs_like_file_system.Posix.Laws.{fill_exact, Files, IsHealthy}
use afs_like_file_system.Posix.Sessions.{Opened-open, opens_there}
use afs_like_file_system.Protocol.{status_ok, StoreReq}
use afs_like_file_system.Server.Process.{Host}
use afs_like_file_system.Server.{plain_rdwr, afs_store, afs_fetch}
use afs_like_file_system.Server.Effects.{rest_of_store, rest_of_fetch}

module _ (P : Posix) (view : P.State → Files) (healthy : IsHealthy P view) (uninit : Indeterminate)
    (root path : Bytes) where
  abbrev pub server_path : Bytes
  server_path = get_server_path path root

  abbrev pub store_request : Bytes → StoreReq
  store_request buf = record { path = path; size = pos (length buf); buf = buf }

  -- What a file system says of a path: its file's number and contents.
  abbrev pub FileIs : P.State → Bytes → ℕ → Bytes → Type 0
  FileIs s p i b = ((view s).entry p ≡ some i) × ((view s).content i ≡ b)

  -- The system calls of `afs_store`, one after the other.
  pub store_calls :
      (s : P.State) (buf : Bytes) (i : ℕ)
      → (view s).entry server_path ≡ some i
      → (d : ℕ) × (st : Stat) × (s1 s2 s3 s4 : P.State) × (P.open_file server_path create_trunc_rdwr
            mode_770 s
          ≡ (done d, s1))
        × (P.write (pos d) buf (length buf) s1 ≡ (done (length buf), s2))
        × (P.lstat server_path s2 ≡ (done st, s3))
        × (P.close (pos d) s3 ≡ (done 0, s4))
        × FileIs s4 server_path i buf
        × (st.st_mtime_nsec ≡ healthy.modified s4 i)
  store_calls s buf i here =
      let (d, s1, e1, free, v1) =
        healthy.open_existing s server_path create_trunc_rdwr mode_770 i here in
      let empty : (view s1).content i ≡ [] = rw v1 (rw ((==_iff i i).1 refl)) in
      let here1 : (view s1).entry server_path ≡ some i = rw v1 here in
      let session = Opened-open (view s) (view s1) server_path create_trunc_rdwr d i free v1 in
      let (st, s2, s3, s4, e2, e3, e4, new, shut, timed) =
        rest_of_store P view healthy server_path (view s) d i s1 buf here1 empty session in
      (d, st, s1, s2, s3, s4, e1, e2, e3, e4, (new.entries server_path ∙ here1, new.text), timed)

  -- The handler makes these calls and reports their success.
  pub store_run :
      (h : Host P.State) (buf : Bytes) {d : ℕ} {st : Stat} {s1 s2 s3 s4 : P.State}
      → length buf < 2 ^ 31
      → P.open_file server_path create_trunc_rdwr mode_770 h.os ≡ (done d, s1)
      → P.write (pos d) buf (length buf) s1 ≡ (done (length buf), s2)
      → P.lstat server_path s2 ≡ (done st, s3)
      → P.close (pos d) s3 ≡ (done 0, s4)
      → afs_store P uninit root (store_request buf) h
        ≡ ((status_ok, record { error = pos 0; time = pos st.st_mtime_nsec }), record h { os = s4 })
  unfolding afs_store
  store_run h buf small e1 e2 e3 e4 =
      let fits : length buf % 2 ^ 64 ≡ length buf = omega arith in ground arith

  -- The system calls of `afs_fetch`.
  pub fetch_calls :
      (s : P.State) (buf : Bytes) (i : ℕ)
      → FileIs s server_path i buf
      → (d : ℕ) × (st st' : Stat) × (s1 s2 s3 s4 s5 s6 : P.State) × (P.open_file server_path
            plain_rdwr 0 s
          ≡ (done d, s1))
        × (P.fstat (pos d) s1 ≡ (done st, s2))
        × (P.lseek (pos d) 0 s2 ≡ (done 0, s3))
        × (P.read (pos d) (length buf) s3 ≡ (done buf, s4))
        × (P.fstat (pos d) s4 ≡ (done st', s5))
        × (P.close (pos d) s5 ≡ (done 0, s6))
        × (st.st_size ≡ length buf)
        × FileIs s6 server_path i buf
        × (st'.st_mtime_nsec ≡ healthy.modified s6 i)
  fetch_calls s buf i (here, text) =
      let (d, s1, e1, same1, session) =
        opens_there P view healthy s server_path plain_rdwr 0 i here refl in
      let (st, st', s2, s3, s4, s5, s6, e2, e3, e4, e5, e6, size, same, shut, timed) =
        rest_of_fetch P view healthy server_path (view s) d i s1 session in
      let held : (view s1).content i ≡ buf = same1.contents i ∙ text in
      (
        d,
        st,
        st',
        s1,
        s2,
        s3,
        s4,
        s5,
        s6,
        e1,
        e2,
        e3,
        rw held at e4,
        e5,
        e6,
        size ∙ ap length held,
        (same.entries server_path ∙ same1.entries server_path ∙ here, same.contents i ∙ held),
        timed,
      )

  pub fetch_run :
      (h : Host P.State) (buf : Bytes) {d : ℕ} {st st' : Stat} {s1 s2 s3 s4 s5 s6 : P.State}
      → length buf < 2 ^ 31
      → P.open_file server_path plain_rdwr 0 h.os ≡ (done d, s1)
      → P.fstat (pos d) s1 ≡ (done st, s2)
      → P.lseek (pos d) 0 s2 ≡ (done 0, s3)
      → P.read (pos d) (length buf) s3 ≡ (done buf, s4)
      → P.fstat (pos d) s4 ≡ (done st', s5)
      → P.close (pos d) s5 ≡ (done 0, s6)
      → st.st_size ≡ length buf
      → afs_fetch P uninit root (record { path = path }) h ≡ (
        (
          status_ok,
          record {
            error = pos 0;
            size = pos (length buf);
            buf = buf;
            time = pos st'.st_mtime_nsec;
          },
        ),
        record h { os = s6 },
      )
  unfolding afs_fetch
  fetch_run h buf {d} {st} {s3 = s3} {s4 = s4} small e1 e2 e3 e4 e5 e6 size =
      let filled : fill buf (uninit.malloc st.st_size) ≡ buf =
        fill_exact buf (uninit.malloc st.st_size) (uninit.malloc_length st.st_size ∙ size) in
      let read_all : P.read (pos d) st.st_size s3 ≡ (done buf, s4) = rw size e4 in
      let exact : to_i32 st.st_size ≡ pos (length buf) = rw size (to_i32_fits (length buf) small) in
      ground arith

  -- On a server whose disk works, storing a buffer of less than 2 ^ 31 bytes in a file that exists,
  -- and then fetching the file, gives the buffer back with its size; both calls report no error, and
  -- the file holds exactly the buffer, whatever it held before.
  pub fetch-store :
      (h : Host P.State) (buf : Bytes) (i : ℕ)
      → (view h.os).entry server_path ≡ some i
      → length buf < 2 ^ 31
      → (stored fetched : Host P.State) × (t t' : ℤ) × (afs_store P uninit root
            (store_request buf)
            h
          ≡ ((status_ok, record { error = pos 0; time = t }), stored))
        × (afs_fetch P uninit root (record { path = path }) stored ≡ (
          (status_ok, record { error = pos 0; size = pos (length buf); buf = buf; time = t' }),
          fetched,
        ))
        × FileIs fetched.os server_path i buf
  fetch-store h buf i here small =
      let (d, st, s1, s2, s3, s4, a1, a2, a3, a4, file, timed) = store_calls h.os buf i here in
      let (e, sf, sf', r1, r2, r3, r4, r5, r6, b1, b2, b3, b4, b5, b6, size, file', timed') =
        fetch_calls s4 buf i file in
      (
        record h { os = s4 },
        record h { os = r6 },
        pos st.st_mtime_nsec,
        pos sf'.st_mtime_nsec,
        store_run h buf small a1 a2 a3 a4,
        fetch_run (record h { os = s4 }) buf small b1 b2 b3 b4 b5 b6 size,
        file',
      )
