-- ===== src/Client/Write.antt =====
-- What afs_write leaves in the cache, where its disk works.
pub mod Calls
use afs_like_file_system.Common.{
  ◌==◌, ℕ, ◌+◌, ◌≤◌, ◌<◌, ◌^◌, ◌≡◌, ◌≢◌, ◌∙◌, refl, sym, ap, List, [], none, some, ℤ, pos, negsuc,
  arith, length, take, true, false, ltb,
}
use afs_like_file_system.Machine.{Bytes, to_i32, to_i32_fits, fill}
use afs_like_file_system.Paths.{get_local_path, get_local_tmp_path}
use afs_like_file_system.Paths.Bounds.{length-get_local_tmp_path}
use afs_like_file_system.Cache.Table.{key_of, put}
use afs_like_file_system.Cache.Database.{dump_text}
use afs_like_file_system.Posix.{Posix, Indeterminate, Stat, done, create_trunc_rdwr, mode_770}
use afs_like_file_system.Posix.Laws.{
  Descriptor, same_bytes_ne, Files, IsHealthy, Vacant, splice, fill_exact,
}
use afs_like_file_system.Client.Process.{
  Stub, Client, Outcome, ok, M, pure, option_case, call, put_mtime, dump, settle_dump,
  database_path, ◌>>=◌, bind-ok, call-done, put_mtime-done, dump-done,
}
use afs_like_file_system.Client.Transfer.{append_rdwr}
use afs_like_file_system.Client.Files.{modified_flag, write_copy, afs_write}
use afs_like_file_system.Client.Write.Calls.{Apart, Copied, Replaced, copy_calls, replace_calls}

tmp_ne :
    (path cache_path : Bytes) → get_local_path path cache_path ≢ get_local_tmp_path path cache_path
tmp_ne path cache_path e =
    let same = ap length e in omega (arith, same, length-get_local_tmp_path path cache_path)

module _ (P : Posix) (R : Stub) (uninit : Indeterminate) (cache_path path : Bytes) where
  abbrev client_path : Bytes
  client_path = get_local_path path cache_path

  abbrev client_tmp_path : Bytes
  client_tmp_path = get_local_tmp_path path cache_path

  abbrev client_database : Bytes
  client_database = get_local_path database_path cache_path

  -- The client after the write.
  abbrev pub written_client : P.State → Client P.State R.Net → Client P.State R.Net
  written_client os c = record c { os = os; ht = put c.ht (key_of path) modified_flag }

  -- The operation makes these calls, one after the other.
  write_run :
      (c : Client P.State R.Net) (old buffer : Bytes) (size offset : ℕ) {d e : ℕ} {st : Stat}
      {s1 s2 s3 s4 s5 s6 t1 t2 t3 t4 t5 t6 : P.State}
      → size < 2 ^ 31
      → P.open_file client_tmp_path create_trunc_rdwr mode_770 c.os ≡ (done d, s1)
      → P.lstat client_path s1 ≡ (done st, s2)
      → P.open_file client_path append_rdwr mode_770 s2 ≡ (done e, s3)
      → P.read (pos e) st.st_size s3 ≡ (done old, s4)
      → P.write (pos d) (fill old (uninit.malloc st.st_size)) st.st_size s4
        ≡ (done (length old), s5)
      → P.close (pos e) s5 ≡ (done 0, s6)
      → P.pwrite (pos d) buffer size offset s6 ≡ (done size, t1)
      → P.fsync (pos d) t1 ≡ (done 0, t2)
      → P.close (pos d) t2 ≡ (done 0, t3)
      → P.remove client_path t3 ≡ (done 0, t4)
      → P.rename client_tmp_path client_path t4 ≡ (done 0, t5)
      → P.fopen_write client_database (dump_text (put c.ht (key_of path) modified_flag)) t5
        ≡ (true, t6)
      → write_copy P R uninit cache_path path buffer size offset c
        ≡ ok (pos size) (written_client t6 c)
  unfolding write_copy
  write_run c old buffer size offset {d} {e} {st} {s1} {s2} {s3} {s4} {s5} {s6} {t1} {t2} {t3} {t4}
        {t5} {t6} small e1 e2 e3 e4 e5 e6 f1 f2 f3 f4 f5 f6 =
      let at = λ (os : P.State). record c { os = os } in
      bind-ok _ _ c (at s1) (some d) (call-done _ c e1)
      ∙ bind-ok _ _ (at s1) (at s2) (some st) (call-done _ (at s1) e2)
      ∙ bind-ok _ _ (at s2) (at s3) (some e) (call-done _ (at s2) e3)
      ∙ bind-ok _ _ (at s3) (at s4) (some old) (call-done _ (at s3) e4)
      ∙ bind-ok _ _ (at s4) (at s5) (some (length old)) (call-done _ (at s4) e5)
      ∙ bind-ok _ _ (at s5) (at s6) (some 0) (call-done _ (at s5) e6)
      ∙ bind-ok _ _ (at s6) (at t1) (some size) (call-done _ (at s6) f1)
      ∙ bind-ok _ _ (at t1) (at t2) (some 0) (call-done _ (at t1) f2)
      ∙ bind-ok _ _ (at t2) (at t3) (some 0) (call-done _ (at t2) f3)
      ∙ bind-ok _ _ (at t3) (at t4) (some 0) (call-done _ (at t3) f4)
      ∙ bind-ok _ _ (at t4) (at t5) (some 0) (call-done _ (at t4) f5)
      ∙ bind-ok _ _ (at t5) (written_client t5 c) tt
          (put_mtime-done (at t5) (key_of path) modified_flag)
      ∙ bind-ok _ _ (written_client t5 c) (written_client t6 c) tt
          (dump-done P cache_path (written_client t5 c) f6)
      ∙ (unfold ◌>>=◌ in rw (to_i32_fits size small))

  write_nonempty :
      (c : Client P.State R.Net) (buffer : Bytes) (size offset : ℕ)
      → 0 < size
      → afs_write P R uninit cache_path path buffer size offset c
        ≡ write_copy P R uninit cache_path path buffer size offset c
  unfolding afs_write
  write_nonempty c buffer size offset h = let t : ltb 0 size ≡ true = ground (arith, h) in rw t

module _ (P : Posix) (view : P.State → Files) (healthy : IsHealthy P view) (R : Stub)
    (uninit : Indeterminate) (cache_path path : Bytes) where
  abbrev copy_at : Bytes
  copy_at = get_local_path path cache_path

  abbrev tmp_at : Bytes
  tmp_at = get_local_tmp_path path cache_path

  abbrev database_at : Bytes
  database_at = get_local_path database_path cache_path

  paths-Apart : database_at ≢ copy_at → database_at ≢ tmp_at → Apart copy_at tmp_at database_at
  paths-Apart h t = record {
    client_tmp = same_bytes_ne _ _ (tmp_ne path cache_path);
    tmp_client = same_bytes_ne _ _ (λ e. tmp_ne path cache_path (sym e));
    db_tmp = same_bytes_ne _ _ t;
    db_client = same_bytes_ne _ _ h;
  }

  -- On a cache whose disk works, let the cached copy of the path and the database exist, on other
  -- paths than the temporary file, which does not, in a place where a file can be made. Writing
  -- `size` bytes, more than none and less than 2 ^ 31 of them, at an offset returns `size`. The
  -- copy then holds its old bytes with the new ones at the offset, and the temporary file is gone;
  -- the path is marked in the table, and the database holds the text of that table, in a file of
  -- its own. What was open before is open as it was.
  pub write_replaces_copy :
      (c : Client P.State R.Net) (old buffer : Bytes) (size offset i j : ℕ)
      → (view c.os).entry copy_at ≡ some i
      → (view c.os).content i ≡ old
      → Vacant (view c.os) tmp_at
      → (view c.os).entry database_at ≡ some j
      → database_at ≢ copy_at
      → database_at ≢ tmp_at
      → 0 < size
      → size ≤ length buffer
      → size < 2 ^ 31
      → let ht = put c.ht (key_of path) modified_flag in
        (os : P.State) × (k : ℕ) × (afs_write P R uninit cache_path path buffer size offset c
          ≡ ok (pos size) (record c { os = os; ht = ht }))
        × ((view os).entry copy_at ≡ some k)
        × ((view os).content k ≡ splice old offset (take size buffer))
        × Vacant (view os) tmp_at
        × ((view os).entry database_at ≡ some j)
        × ((view os).content j ≡ dump_text ht)
        × ((j == k) ≡ false)
        × ((fd : ℤ) (o : Descriptor)
            → (view c.os).opened fd ≡ some o
            → (view os).opened fd ≡ some o)
  write_replaces_copy c old buffer size offset i j here text absent there dc dt some_bytes le
        small =
      let apart = paths-Apart dc dt in
      let (
        d, e, k, st, s1, s2, s3, s4, s5, s6, e1, e2, e3, e4, e5, e6, st_size, jk, others, copied,
      ) =
        copy_calls P view healthy copy_at tmp_at database_at apart c.os old i j here text absent
          there in
      let (t1, t2, t3, t4, t5, t6, f1, f2, f3, f4, f5, f6, kept, done_all) =
        replace_calls P view healthy copy_at tmp_at database_at apart s6 d i k j old buffer size
          offset (dump_text (put c.ht (key_of path) modified_flag)) copied jk le in
      let filled : fill old (uninit.malloc st.st_size) ≡ old =
        fill_exact old (uninit.malloc st.st_size) (uninit.malloc_length st.st_size ∙ st_size) in
      let read_all : P.read (pos e) st.st_size s3 ≡ (done old, s4) = rw st_size e4 in
      let write_all : P.write (pos d) (fill old (uninit.malloc st.st_size)) st.st_size s4
          ≡ (done (length old), s5) =
        rw (filled, st_size) e5 in
      (
        t6,
        k,
        write_nonempty P R uninit cache_path path c buffer size offset some_bytes
            ∙ write_run P R uninit cache_path path c old buffer size offset small e1 e2 e3 read_all
                write_all e6 f1 f2 f3 f4 f5 f6,
        done_all.client_at,
        done_all.new_at,
        done_all.tmp_gone,
        done_all.db_at,
        done_all.text_at,
        jk,
        λ fd o held. let (other, held6) = others fd o held in kept fd o other held6,
      )
