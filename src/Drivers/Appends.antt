-- ===== src/Drivers/Appends.antt =====
-- What write_performance.cpp and scale_test_write.c do to a file, on a disk that works.
use afs_like_file_system.Common.{
  ℕ, zero, suc, ◌+◌, ◌≡◌, ◌∙◌, refl, sym, ap, [], ◌∷◌, ◌++◌, Bool, some, true, false, pos, ==ℤ_refl,
  length, take, take_all, drop, ◌==◌, arith, ==_iff, append-nil,
}
use afs_like_file_system.Machine.{Bytes}
use afs_like_file_system.Paths.{get_server_path}
use afs_like_file_system.Posix.{o_rdwr, Posix, Indeterminate}
use afs_like_file_system.Posix.Laws.{splice_whole, Files, Descriptor, IsHealthy}
use afs_like_file_system.Posix.Splice.{splice_end}
use afs_like_file_system.Server.Process.{Host}
use afs_like_file_system.Drivers.{
  append_flags, append_text, append_round, append_rounds, stars, stars_1, creat_flags, creat_mode,
  protocol_perf_2, write_performance, scale_test_write,
}

-- The bytes, so many times.
unfoldable pub times : ℕ → Bytes → Bytes
times zero b = []
times (suc n) b = b ++ times n b

append_assoc : (a b c : Bytes) → (a ++ b) ++ c ≡ a ++ (b ++ c)
append_assoc [] b c = refl
append_assoc (x ∷ a) b c = ap (λ l. x ∷ l) (append_assoc a b c)

module _ (P : Posix) (view : P.State → Files) (healthy : IsHealthy P view) (uninit : Indeterminate)
    (mode : ℕ) where
  -- The path has the file, with these bytes.
  abbrev pub Holds : P.State → Bytes → ℕ → Bytes → Type 0
  Holds s path i b = ((view s).entry path ≡ some i) × ((view s).content i ≡ b)

  round_appends :
      (h : Host P.State) (creat : Bool) (str path : Bytes) (count i : ℕ) (old : Bytes)
      → count ≡ length str
      → Holds h.os path i old
      → (s : P.State) × (append_round P uninit mode creat str count path h
          ≡ (tt, record h { os = s }))
        × Holds s path i (old ++ str)
  unfolding append_round
  round_appends h creat str path count i old whole (here, text) =
      let (d, s1, e1, free, v1) =
        healthy.open_existing h.os path (append_flags creat) mode i here in
      let o : Descriptor = record { ino = i; offset = 0; append = true; access = o_rdwr } in
      let held1 : (view s1).opened (pos d) ≡ some o = rw (v1, ==ℤ_refl (pos d)) in
      let (s2, e2, v2) = healthy.write s1 (pos d) str count o held1 tt (omega (arith, whole)) in
      let o2 : Descriptor = record o {
        offset = length ((view s1).content i) + length (take count str);
      } in
      let held2 : (view s2).opened (pos d) ≡ some o2 = rw (v2, ==ℤ_refl (pos d)) in
      let (s3, e3, v3) = healthy.fsync s2 (pos d) o2 held2 in
      let held3 : (view s3).opened (pos d) ≡ some o2 = rw v3 held2 in
      let (s4, e4, v4) = healthy.close s3 (pos d) o2 held3 in
      let all : take count str ≡ str = take_all count str (omega (arith, whole)) in
      (
        s4,
        ground arith,
        (
          rw (v4, v3, v2, v1) here,
          rw (v4, v3, v2, (==_iff i i).1 refl, all, v1, text) (splice_end old str),
        ),
      )

  rounds_append :
      (n : ℕ) (h : Host P.State) (str path : Bytes) (i : ℕ) (old : Bytes)
      → Holds h.os path i old
      → (s : P.State) × (append_rounds P uninit mode n str path h ≡ (tt, record h { os = s }))
        × Holds s path i (old ++ times n str)
  unfolding append_rounds times
  rounds_append zero h str path i old (here, text) =
      (h.os, refl, (here, text ∙ sym (append-nil old)))
  rounds_append (suc n) h str path i old holds =
      let (s1, e1, holds1) = round_appends h true str path (length str) i old refl holds in
      let (s2, e2, kept) = rounds_append n (record h { os = s1 }) str path i (old ++ str) holds1 in
      (s2, rw e1 e2, (kept.0, kept.1 ∙ append_assoc old str (times n str)))

  perf_2_replaces :
      (h : Host P.State) (argument : Bytes) (i : ℕ) (old : Bytes)
      → Holds h.os (get_server_path [] argument) i old
      → (s : P.State) × (protocol_perf_2 P uninit mode argument h ≡ (tt, record h { os = s }))
        × Holds s (get_server_path [] argument) i stars_1
  unfolding protocol_perf_2
  perf_2_replaces h argument i old (here, text) =
      let path = get_server_path [] argument in
      let ii : (i == i) ≡ true = (==_iff i i).1 refl in
      let (st, s1, e1, size, v1) = healthy.lstat h.os path i here in
      let (c, s2, e2, free, v2) =
        healthy.open_existing s1 path creat_flags creat_mode i (rw v1 here) in
      let here2 : (view s2).entry path ≡ some i = rw (v2, v1) here in
      let (d, s3, e3, free', v3) = healthy.open_existing s2 path (append_flags true) mode i here2 in
      let o : Descriptor = record { ino = i; offset = 0; append = true; access = o_rdwr } in
      let held3 : (view s3).opened (pos d) ≡ some o = rw (v3, ==ℤ_refl (pos d)) in
      let (s4, e4, v4) = healthy.read s3 (pos d) st.st_size o held3 tt in
      let o4 : Descriptor = record o {
        offset = 0 + length (take st.st_size (drop 0 ((view s3).content i)));
      } in
      let held4 : (view s4).opened (pos d) ≡ some o4 = rw (v4, ==ℤ_refl (pos d)) in
      let empty4 : (view s4).content i ≡ [] = rw (v4, v3, v2, ii) in
      let (s5, e5, v5) =
        healthy.write s4 (pos d) stars_1 (length stars_1) o4 held4 tt (omega arith) in
      let o5 : Descriptor = record o4 {
        offset = length ((view s4).content i) + length (take (length stars_1) stars_1);
      } in
      let held5 : (view s5).opened (pos d) ≡ some o5 = rw (v5, ==ℤ_refl (pos d)) in
      let (s6, e6, v6) = healthy.fsync s5 (pos d) o5 held5 in
      let (s7, e7, v7) = healthy.close s6 (pos d) o5 (rw v6 held5) in
      (
        s7,
        ground arith,
        (rw (v7, v6, v5, v4, v3) here2, rw (v7, v6, v5, ii, empty4) (splice_whole stars_1)),
      )

  -- On a disk that works and has the file of the argument: write_performance puts the stars and
  -- their zero four times behind its bytes, and scale_test_write "append" with its zero once; both
  -- leave the bytes before as they were. The second protocol driver leaves its own stars alone.
  pub drivers_append :
      (h : Host P.State) (argument : Bytes) (i : ℕ) (old : Bytes)
      → Holds h.os (get_server_path [] argument) i old
      → (s1 s2 s3 : P.State) × (write_performance P uninit mode argument h
          ≡ (tt, record h { os = s1 }))
        × Holds s1 (get_server_path [] argument) i (old ++ times 4 stars)
        × (scale_test_write P uninit mode argument h ≡ (tt, record h { os = s2 }))
        × Holds s2 (get_server_path [] argument) i (old ++ append_text)
        × (protocol_perf_2 P uninit mode argument h ≡ (tt, record h { os = s3 }))
        × Holds s3 (get_server_path [] argument) i stars_1
  unfolding write_performance scale_test_write
  drivers_append h argument i old (here, text) =
      let path = get_server_path [] argument in
      let (st, s, e, size, v) = healthy.lstat h.os path i here in
      let holds : Holds s path i old = (rw v here, rw v text) in
      let (s1, e1, kept1) = rounds_append 4 (record h { os = s }) stars path i old holds in
      let (s2, e2, kept2) =
        round_appends (record h { os = s }) false append_text path 7 i old refl holds in
      let (s3, e3, kept3) = perf_2_replaces h argument i old (here, text) in
      (s1, s2, s3, rw e e1, kept1, rw e e2, kept2, e3, kept3)
