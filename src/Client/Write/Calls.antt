-- ===== src/Client/Write/Calls.antt =====
-- The system calls of afs_write on a disk that works: first those that copy the file to the temporary
-- one, then those that change it and put it in the file's place.
use afs_like_file_system.Common.{
  ℤ, ℕ, ◌+◌, ◌≤◌, ◌≡◌, ◌∙◌, refl, sym, ap, [], none, some, pos, arith, length, take, true, false,
  ◌==◌, ==_iff, ◌==ℤ◌, ==ℤ_iff, ==ℤ_refl, take_all, Bool-cases, inl, inr,
}
use afs_like_file_system.Machine.{Bytes}
use afs_like_file_system.Posix.{o_rdwr, create_trunc_rdwr, Posix, Stat, done, mode_770}
use afs_like_file_system.Posix.Laws.{
  same_bytes_refl, fresh_number, Files, Descriptor, IsHealthy, Vacant, same_bytes, splice,
  splice_whole,
}
use afs_like_file_system.Client.Transfer.{append_rdwr}

-- The cached file, the temporary file and the database are three paths.
pub record Apart (client tmp db : Bytes) : Type 0 where
  pub client_tmp : same_bytes client tmp ≡ false
  pub tmp_client : same_bytes tmp client ≡ false
  pub db_tmp : same_bytes db tmp ≡ false
  pub db_client : same_bytes db client ≡ false

module _ (P : Posix) (view : P.State → Files) (healthy : IsHealthy P view) (client tmp db : Bytes)
    (apart : Apart client tmp db) where
  -- The temporary file is open and holds `text`.
  pub record Copied (s : P.State) (d i k j : ℕ) (text : Bytes) : Type 0 where
    pub tmp_at : (view s).entry tmp ≡ some k
    pub client_at : (view s).entry client ≡ some i
    pub db_at : (view s).entry db ≡ some j
    pub text_at : (view s).content k ≡ text
    pub at : ℕ
    pub open_at :
        (view s).opened (pos d)
        ≡ some (record { ino = k; offset = at; append = false; access = o_rdwr })

  other_descriptor :
      (f : Files) (fd : ℤ) (e : ℕ) (o : Descriptor)
      → f.opened fd ≡ some o
      → f.opened (pos e) ≡ none
      → (fd ==ℤ pos e) ≡ false
  other_descriptor f fd e o hd he = elim (Bool-cases (fd ==ℤ pos e)) [
    | inl same ↦
        let p : fd ≡ pos e = (==ℤ_iff fd (pos e)).0 same in
        absurd (clash (sym hd ∙ ap f.opened p ∙ he))
    | inr e ↦ e
  ]
    where
      clash : some o ≡ none → ⊥
      clash h = cc

  -- What is open in the first state is another descriptor than `d`, and open in the second state.
  abbrev KeepsOthers : Files → Files → ℕ → Type 0
  KeepsOthers f f' d =
      (fd : ℤ) (o : Descriptor)
      → f.opened fd ≡ some o
      → ((fd ==ℤ pos d) ≡ false) × (f'.opened fd ≡ some o)

  -- The first half: the temporary file is made, and the file copied to it.
  pub copy_calls :
      (s : P.State) (old : Bytes) (i j : ℕ)
      → (view s).entry client ≡ some i
      → (view s).content i ≡ old
      → Vacant (view s) tmp
      → (view s).entry db ≡ some j
      → (d e k : ℕ) × (st : Stat) × (s1 s2 s3 s4 s5 s6 : P.State) × (P.open_file tmp
            create_trunc_rdwr mode_770 s
          ≡ (done d, s1))
        × (P.lstat client s1 ≡ (done st, s2))
        × (P.open_file client append_rdwr mode_770 s2 ≡ (done e, s3))
        × (P.read (pos e) (length old) s3 ≡ (done old, s4))
        × (P.write (pos d) old (length old) s4 ≡ (done (length old), s5))
        × (P.close (pos e) s5 ≡ (done 0, s6))
        × (st.st_size ≡ length old)
        × ((j == k) ≡ false)
        × KeepsOthers (view s) (view s6) d
        × Copied s6 d i k j old
  copy_calls s old i j here text absent there =
      let (d, k, s1, e1, free1, fresh, v1) =
        healthy.open_new s tmp create_trunc_rdwr mode_770 absent refl in
      let o : Descriptor = record { ino = k; offset = 0; append = false; access = o_rdwr } in
      let ik : (i == k) ≡ false = fresh_number (view s) client k i fresh here in
      let jk : (j == k) ≡ false = fresh_number (view s) db k j fresh there in
      let kk : (k == k) ≡ true = (==_iff k k).1 refl in
      let here1 : (view s1).entry client ≡ some i = rw (v1, apart.client_tmp) here in
      let there1 : (view s1).entry db ≡ some j = rw (v1, apart.db_tmp) there in
      let made1 : (view s1).entry tmp ≡ some k = rw (v1, same_bytes_refl tmp) in
      let old1 : (view s1).content i ≡ old = rw (v1, ik) text in
      let empty1 : (view s1).content k ≡ [] = rw (v1, kk) in
      let open1 : (view s1).opened (pos d) ≡ some o = rw (v1, ==ℤ_refl (pos d)) in
      let (st, s2, e2, size, v2) = healthy.lstat s1 client i here1 in
      let (e, s3, e3, free3, v3) =
        healthy.open_existing s2 client append_rdwr mode_770 i (rw v2 here1) in
      let o3 : Descriptor = record { ino = i; offset = 0; append = true; access = o_rdwr } in
      let de : (pos d ==ℤ pos e) ≡ false =
        other_descriptor (view s2) (pos d) e o (rw v2 open1) free3 in
      let ed : (pos e ==ℤ pos d) ≡ false = ground (arith, de) in
      let here3 : (view s3).entry client ≡ some i = rw (v3, v2) here1 in
      let there3 : (view s3).entry db ≡ some j = rw (v3, v2) there1 in
      let made3 : (view s3).entry tmp ≡ some k = rw (v3, v2) made1 in
      let old3 : (view s3).content i ≡ old = rw (v3, v2) old1 in
      let empty3 : (view s3).content k ≡ [] = rw (v3, v2) empty1 in
      let open3 : (view s3).opened (pos d) ≡ some o = rw (v3, v2, de) open1 in
      let main3 : (view s3).opened (pos e) ≡ some o3 = rw (v3, ==ℤ_refl (pos e)) in
      let (s4, e4, v4) = healthy.read s3 (pos e) (length old) o3 main3 tt in
      let got : take (length old) ((view s3).content i) ≡ old =
        rw old3 (take_all (length old) old (omega arith)) in
      let open4 : (view s4).opened (pos d) ≡ some o = rw (v4, de) open3 in
      let main4 = record o3 { offset = 0 + length (take (length old) ((view s3).content i)) } in
      let open4e : (view s4).opened (pos e) ≡ some main4 = rw (v4, ==ℤ_refl (pos e)) in
      let (s5, e5, v5) = healthy.write s4 (pos d) old (length old) o open4 tt (omega arith) in
      let open5e : (view s5).opened (pos e) ≡ some main4 = rw (v5, ed) open4e in
      let (s6, e6, v6) = healthy.close s5 (pos e) main4 open5e in
      let text6 : (view s6).content k ≡ old = rw (v6, v5, kk, v4, empty3) (splice_whole old) in
      let others : KeepsOthers (view s) (view s6) d = λ fd o' held.
        let fd_d = other_descriptor (view s) fd d o' held free1 in
        let held2 : (view s2).opened fd ≡ some o' = rw (v2, v1, fd_d) held in
        let fd_e = other_descriptor (view s2) fd e o' held2 free3 in
        (fd_d, rw (v6, fd_e, v5, fd_d, v4, fd_e, v3, fd_e) held2) in
      (
        d,
        e,
        k,
        st,
        s1,
        s2,
        s3,
        s4,
        s5,
        s6,
        e1,
        e2,
        e3,
        rw got at e4,
        e5,
        e6,
        size ∙ ap length old1,
        jk,
        others,
        record {
          tmp_at = rw (v6, v5, v4) made3;
          client_at = rw (v6, v5, v4) here3;
          db_at = rw (v6, v5, v4) there3;
          text_at = text6;
          at = 0 + length (take (length old) old);
          open_at = rw (v6, de, v5, ==ℤ_refl (pos d));
        },
      )

  -- The file holds `new`, the temporary file is gone, and the database holds `text`.
  pub record Replaced (s : P.State) (k j : ℕ) (new text : Bytes) : Type 0 where
    pub client_at : (view s).entry client ≡ some k
    pub new_at : (view s).content k ≡ new
    pub tmp_gone : Vacant (view s) tmp
    pub db_at : (view s).entry db ≡ some j
    pub text_at : (view s).content j ≡ text

  -- The second half: the temporary file is changed and takes the place of the file, and the database
  -- is written.
  pub replace_calls :
      (s : P.State) (d i k j : ℕ) (old buffer : Bytes) (size offset : ℕ) (text : Bytes)
      → Copied s d i k j old
      → (j == k) ≡ false
      → size ≤ length buffer
      → (s1 s2 s3 s4 s5 s6 : P.State) × (P.pwrite (pos d) buffer size offset s ≡ (done size, s1))
        × (P.fsync (pos d) s1 ≡ (done 0, s2))
        × (P.close (pos d) s2 ≡ (done 0, s3))
        × (P.remove client s3 ≡ (done 0, s4))
        × (P.rename tmp client s4 ≡ (done 0, s5))
        × (P.fopen_write db text s5 ≡ (true, s6))
        × ((fd : ℤ) (o : Descriptor)
            → (fd ==ℤ pos d) ≡ false
            → (view s).opened fd ≡ some o
            → (view s6).opened fd ≡ some o)
        × Replaced s6 k j (splice old offset (take size buffer)) text
  replace_calls s d i k j old buffer size offset text copied jk le =
      let kk : (k == k) ≡ true = (==_iff k k).1 refl in
      let jj : (j == j) ≡ true = (==_iff j j).1 refl in
      let kj : (k == j) ≡ false = ground (arith, jk) in
      let new = splice old offset (take size buffer) in
      let o : Descriptor = record {
        ino = k;
        offset = copied.at;
        append = false;
        access = o_rdwr;
      } in
      let (s1, e1, v1) = healthy.pwrite s (pos d) buffer size offset o copied.open_at tt refl le in
      let new1 : (view s1).content k ≡ new = rw (v1, kk, copied.text_at) in
      let (s2, e2, v2) = healthy.fsync s1 (pos d) o (rw v1 copied.open_at) in
      let (s3, e3, v3) = healthy.close s2 (pos d) o (rw (v2, v1) copied.open_at) in
      let tmp3 : (view s3).entry tmp ≡ some k = rw (v3, v2, v1) copied.tmp_at in
      let client3 : (view s3).entry client ≡ some i = rw (v3, v2, v1) copied.client_at in
      let db3 : (view s3).entry db ≡ some j = rw (v3, v2, v1) copied.db_at in
      let new3 : (view s3).content k ≡ new = rw (v3, v2) new1 in
      let (s4, e4, v4) = healthy.remove s3 client i client3 in
      let tmp4 : (view s4).entry tmp ≡ some k = rw (v4, apart.tmp_client) tmp3 in
      let free4 : (view s4).place client ≡ true = rw v4 (healthy.placed s3 client i client3) in
      let (s5, e5, v5) = healthy.rename s4 tmp client k tmp4 free4 in
      let db5 : (view s5).entry db ≡ some j =
        rw (v5, apart.db_client, apart.db_tmp, v4, apart.db_client) db3 in
      let new5 : (view s5).content k ≡ new = rw (v5, v4) new3 in
      let (s6, e6, v6) = healthy.fopen_write s5 db text j db5 in
      (
        s1,
        s2,
        s3,
        s4,
        s5,
        s6,
        e1,
        e2,
        e3,
        e4,
        e5,
        e6,
        λ fd o' other held. rw (v6, v5, v4, v3, other, v2, v1) held,
        record {
          client_at = rw (v6, v5, same_bytes_refl client);
          new_at = rw (v6, kj) new5;
          tmp_gone = (
            rw (v6, v5, apart.tmp_client, same_bytes_refl tmp),
            rw (v6, v5, v4) (healthy.placed s3 tmp k tmp3),
          );
          db_at = rw v6 db5;
          text_at = rw (v6, jj);
        },
      )
