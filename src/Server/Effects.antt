-- ===== src/Server/Effects.antt =====
-- The system calls that the handlers make on a descriptor that they have opened, to its closing.
use afs_like_file_system.Common.{
  ℕ, ◌+◌, ◌≡◌, ◌∙◌, refl, sym, [], some, ℤ, pos, arith, length, take, drop, ==_iff, ==ℤ_refl,
  take_all, ◌==ℤ◌, false,
}
use afs_like_file_system.Machine.{Bytes}
use afs_like_file_system.Posix.{create_trunc_rdwr, Posix, Stat, done}
use afs_like_file_system.Posix.Laws.{splice_whole, Files, Descriptor, IsHealthy}
use afs_like_file_system.Posix.Changes.{SameOpened, Unchanged}
use afs_like_file_system.Posix.Sessions.{Opened, Rewrites, opened_at, closes}
use afs_like_file_system.Server.{plain_rdwr}

-- A descriptor that is moved, or that a call leaves as it is.
Opened-moved :
    (f g h : Files) (d : ℕ) (o o' : Descriptor)
    → Opened f g d o
    → h.opened (pos d) ≡ some o'
    → ((fd : ℤ) → (fd ==ℤ pos d) ≡ false → h.opened fd ≡ g.opened fd)
    → Opened f h d o'
Opened-moved f g h d o o' session held others = record {
  free = session.free;
  held = held;
  others = λ fd ne. others fd ne ∙ session.others fd ne;
}

module _ (P : Posix) (view : P.State → Files) (healthy : IsHealthy P view) (p : Bytes) (f : Files)
    (d i : ℕ) where
  pub rest_of_create :
      (s1 : P.State) {o : Descriptor}
      → (view s1).entry p ≡ some i
      → Opened f (view s1) d o
      → (st : Stat) × (s2 s3 : P.State) × (P.lstat p s1 ≡ (done st, s2))
        × (P.close (pos d) s2 ≡ (done 0, s3))
        × Unchanged (view s1) (view s3)
        × SameOpened f (view s3)
        × (st.st_mtime_nsec ≡ healthy.modified s3 i)
  rest_of_create s1 {o} here session =
      let (st, s2, e2, size, v2) = healthy.lstat s1 p i here in
      let (s3, e3, same, shut) = closes P view healthy f s2 d o (rw v2 session) in
      (
        st,
        s2,
        s3,
        e2,
        e3,
        rw v2 at same,
        shut,
        healthy.lstat_time s1 s2 p i st here e2 ∙ sym (healthy.close_time s2 s3 (pos d) 0 i e3),
      )

  pub rest_of_store :
      (s1 : P.State) (buf : Bytes)
      → (view s1).entry p ≡ some i
      → (view s1).content i ≡ []
      → Opened f (view s1) d (opened_at create_trunc_rdwr i)
      → (st : Stat) × (s2 s3 s4 : P.State) × (P.write (pos d) buf (length buf) s1
          ≡ (done (length buf), s2))
        × (P.lstat p s2 ≡ (done st, s3))
        × (P.close (pos d) s3 ≡ (done 0, s4))
        × Rewrites (view s1) (view s4) i buf
        × SameOpened f (view s4)
        × (st.st_mtime_nsec ≡ healthy.modified s4 i)
  rest_of_store s1 buf here empty session =
      let o = opened_at create_trunc_rdwr i in
      let o2 : Descriptor = record o { offset = 0 + length (take (length buf) buf) } in
      let (s2, e2, v2) =
        healthy.write s1 (pos d) buf (length buf) o session.held tt (omega arith) in
      let here2 : (view s2).entry p ≡ some i = rw v2 here in
      let session2 : Opened f (view s2) d o2 =
        Opened-moved f (view s1) (view s2) d o o2 session (rw v2 (rw (==ℤ_refl (pos d))))
          λ fd ne. rw v2 (rw ne) in
      let (st, s3, s4, e3, e4, same, shut, timed) = rest_of_create s2 here2 session2 in
      (
        st,
        s2,
        s3,
        s4,
        e2,
        e3,
        e4,
        record {
          places = λ q. same.places q ∙ rw v2 refl;
          entries = λ q. same.entries q ∙ rw v2 refl;
          contents = λ k ne. same.contents k ∙ rw v2 (rw ne);
          text = same.contents i ∙ rw v2 (rw (empty, (==_iff i i).1 refl) (splice_whole buf));
        },
        shut,
        timed,
      )

  pub rest_of_fetch :
      (s1 : P.State)
      → Opened f (view s1) d (opened_at plain_rdwr i)
      → let text = (view s1).content i in
        (st st' : Stat) × (s2 s3 s4 s5 s6 : P.State) × (P.fstat (pos d) s1 ≡ (done st, s2))
        × (P.lseek (pos d) 0 s2 ≡ (done 0, s3))
        × (P.read (pos d) (length text) s3 ≡ (done text, s4))
        × (P.fstat (pos d) s4 ≡ (done st', s5))
        × (P.close (pos d) s5 ≡ (done 0, s6))
        × (st.st_size ≡ length text)
        × Unchanged (view s1) (view s6)
        × SameOpened f (view s6)
        × (st'.st_mtime_nsec ≡ healthy.modified s6 i)
  rest_of_fetch s1 session =
      let o = opened_at plain_rdwr i in
      let text = (view s1).content i in
      let (st, s2, e2, size, v2) = healthy.fstat s1 (pos d) o session.held in
      let (s3, e3, v3) = healthy.lseek s2 (pos d) 0 o (rw v2 session.held) in
      let at3 : (view s3).opened (pos d) ≡ some o = rw v3 (rw (==ℤ_refl (pos d))) in
      let (s4, e4, v4) = healthy.read s3 (pos d) (length text) o at3 tt in
      let o4 : Descriptor = record o {
        offset = 0 + length (take (length text) (drop 0 ((view s3).content i)));
      } in
      let at4 : (view s4).opened (pos d) ≡ some o4 = rw v4 (rw (==ℤ_refl (pos d))) in
      let (st', s5, e5, size', v5) = healthy.fstat s4 (pos d) o4 at4 in
      let session5 : Opened f (view s5) d o4 =
        Opened-moved f (view s1) (view s5) d o o4 session (rw v5 at4)
          λ fd ne. rw (v5, v4) (rw ne (rw v3 (rw ne (rw v2 refl)))) in
      let (s6, e6, same, shut) = closes P view healthy f s5 d o4 session5 in
      let text3 : (view s3).content i ≡ text = rw (v3, v2) refl in
      let got : take (length text) ((view s3).content i) ≡ text =
        rw text3 (take_all (length text) text (omega arith)) in
      (
        st,
        st',
        s2,
        s3,
        s4,
        s5,
        s6,
        e2,
        e3,
        rw got at e4,
        e5,
        e6,
        size,
        record {
          places = λ q. same.places q ∙ rw (v5, v4, v3, v2) refl;
          entries = λ q. same.entries q ∙ rw (v5, v4, v3, v2) refl;
          contents = λ k. same.contents k ∙ rw (v5, v4, v3, v2) refl;
        },
        shut,
        healthy.fstat_time s4 s5 (pos d) o4 st' at4 e5
            ∙ sym (healthy.close_time s5 s6 (pos d) 0 i e6),
      )
