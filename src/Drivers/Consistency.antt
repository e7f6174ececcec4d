-- ===== src/Drivers/Consistency.antt =====
-- What cacheconsistencytest.c reads on a disk that works.
use afs_like_file_system.Common.{
  ℕ, ◌+◌, ◌≡◌, ◌∙◌, refl, ap, sym, [], ◌∷◌, ◌++◌, Option, none, some, false, true, pos, ==ℤ_refl,
  length, take, drop, take_all, length-append, arith, ==_iff,
}
use afs_like_file_system.Machine.{Bytes, fill}
use afs_like_file_system.Posix.{o_rdwr, Posix, Indeterminate, done}
use afs_like_file_system.Posix.Laws.{
  Files, Descriptor, IsHealthy, splice, same_bytes_refl, fill_exact,
}
use afs_like_file_system.Posix.Splice.{slice-splice}
use afs_like_file_system.Server.Process.{Host}
use afs_like_file_system.Drivers.{create_rdwr, client_1, client_2, client_w, client_r_2, run_tests}

module _ (P : Posix) (view : P.State → Files) (healthy : IsHealthy P view) (uninit : Indeterminate)
    (mode : ℕ) (path : Bytes) where
  abbrev InPlace : P.State → Type 0
  InPlace s = (view s).place path ≡ true

  -- The file can be opened, whether it is there or not.
  created :
      (s : P.State)
      → InPlace s
      → (d i : ℕ) × (s' : P.State) × (P.open_file path create_rdwr mode s ≡ (done d, s'))
        × ((view s').opened (pos d)
            ≡ some (record { ino = i; offset = 0; append = false; access = o_rdwr }))
        × ((view s').entry path ≡ some i)
  created s in_place = by_entry ((view s).entry path) refl
    where
      by_entry :
          (entry : Option ℕ)
          → (view s).entry path ≡ entry
          → (d i : ℕ) × (s' : P.State) × (P.open_file path create_rdwr mode s ≡ (done d, s'))
            × ((view s').opened (pos d)
                ≡ some (record { ino = i; offset = 0; append = false; access = o_rdwr }))
            × ((view s').entry path ≡ some i)
      by_entry none absent =
          let (d, i, s', e, free, fresh, v) =
            healthy.open_new s path create_rdwr mode (absent, in_place) refl in
          (d, i, s', e, rw (v, ==ℤ_refl (pos d)), rw (v, same_bytes_refl path))
      by_entry (some i) here =
          let (d, s', e, free, v) = healthy.open_existing s path create_rdwr mode i here in
          (d, i, s', e, rw (v, ==ℤ_refl (pos d)), rw v here)

  writes :
      (h : Host P.State) (literal : Bytes) (beyond : ℕ)
      → length literal ≡ 11
      → InPlace h.os
      → (s' : P.State) × (i : ℕ) × (old : Bytes) × (client_w P uninit mode literal beyond path h
          ≡ (tt, record h { os = s' }))
        × ((view s').entry path ≡ some i)
        × ((view s').content i ≡ splice old 0 (literal ++ (beyond ∷ [])))
  unfolding client_w
  writes h literal beyond eleven in_place =
      let text = literal ++ (beyond ∷ []) in
      let twelve : length text ≡ 12 = length-append literal (beyond ∷ []) ∙ omega (arith, eleven) in
      let (d, i, s1, e1, held1, here1) = created h.os in_place in
      let o : Descriptor = record { ino = i; offset = 0; append = false; access = o_rdwr } in
      let (s2, e2, v2) = healthy.lseek s1 (pos d) 0 o held1 in
      let held2 : (view s2).opened (pos d) ≡ some o = rw (v2, ==ℤ_refl (pos d)) in
      let (s3, e3, v3) = healthy.write s2 (pos d) text 12 o held2 tt (omega (arith, twelve)) in
      let o3 : Descriptor = record o { offset = 0 + length (take 12 text) } in
      let held3 : (view s3).opened (pos d) ≡ some o3 = rw (v3, ==ℤ_refl (pos d)) in
      let (s4, e4, v4) = healthy.close s3 (pos d) o3 held3 in
      let whole : take 12 text ≡ text = take_all 12 text (omega (arith, twelve)) in
      (
        s4,
        i,
        (view s2).content i,
        ground arith,
        rw (v4, v3, v2) here1,
        rw (v4, v3, (==_iff i i).1 refl, whole),
      )

  reads :
      (h : Host P.State) (text old : Bytes) (i : ℕ)
      → length text ≡ 12
      → (view h.os).entry path ≡ some i
      → (view h.os).content i ≡ splice old 0 text
      → (s' : P.State) × (client_r_2 P uninit mode path h ≡ (text, record h { os = s' }))
        × ((view s').entry path ≡ some i)
        × ((view s').content i ≡ splice old 0 text)
  unfolding client_r_2
  reads h text old i twelve here content =
      let (d, s1, e1, free, v1) = healthy.open_existing h.os path create_rdwr mode i here in
      let o : Descriptor = record { ino = i; offset = 0; append = false; access = o_rdwr } in
      let held1 : (view s1).opened (pos d) ≡ some o = rw (v1, ==ℤ_refl (pos d)) in
      let (s2, e2, v2) = healthy.read s1 (pos d) 12 o held1 tt in
      let got : take 12 (drop 0 ((view s1).content i)) ≡ text =
        rw (v1, content)
          (ap (λ (n : ℕ). take n (drop 0 (splice old 0 text))) (sym twelve)
            ∙ slice-splice old text 0) in
      let read_all : P.read (pos d) 12 s1 ≡ (done text, s2) = rw got at e2 in
      let o2 : Descriptor = record o {
        offset = 0 + length (take 12 (drop 0 ((view s1).content i)));
      } in
      let held2 : (view s2).opened (pos d) ≡ some o2 = rw (v2, ==ℤ_refl (pos d)) in
      let (s3, e3, v3) = healthy.close s2 (pos d) o2 held2 in
      let filled : fill text (uninit.malloc 12) ≡ text =
        fill_exact text (uninit.malloc 12) (uninit.malloc_length 12 ∙ sym twelve) in
      (s3, ground arith, rw (v3, v2, v1) here, rw (v3, v2, v1) content)

  -- On a disk that works, on a path that names a file, whatever it held before and whether it was
  -- there or not: run_tests reads "client_w_2" with its zero and the byte that lies behind the
  -- literal, which is what its second writer wrote; the file holds that at its start, over other
  -- bytes.
  pub run_tests_read_last :
      (h : Host P.State) (beyond_1 beyond_2 : ℕ)
      → InPlace h.os
      → (s : P.State) × (i : ℕ) × (old : Bytes) × (run_tests P uninit mode beyond_1 beyond_2 path h
          ≡ (client_2 ++ (beyond_2 ∷ []), record h { os = s }))
        × ((view s).entry path ≡ some i)
        × ((view s).content i ≡ splice old 0 (client_2 ++ (beyond_2 ∷ [])))
  unfolding run_tests
  run_tests_read_last h beyond_1 beyond_2 in_place =
      let (s1, i1, old1, e1, here1, text1) = writes h client_1 beyond_1 refl in_place in
      let (s2, i2, old2, e2, here2, text2) =
        writes (record h { os = s1 }) client_2 beyond_2 refl (healthy.placed s1 path i1 here1) in
      let (s3, e3, here3, text3) =
        reads (record h { os = s2 }) (client_2 ++ (beyond_2 ∷ [])) old2 i2 refl here2 text2 in
      (s3, i2, old2, rw (e1, e2) e3, here3, text3)
