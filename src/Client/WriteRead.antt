-- ===== src/Client/WriteRead.antt =====
-- A read behind a write.
use afs_like_file_system.Common.{
  ℕ, ◌≤◌, ◌<◌, ◌^◌, ◌≡◌, ◌≢◌, ◌∙◌, refl, ap, sym, some, ℤ, pos, arith, length, take, drop,
  length-take,
}
use afs_like_file_system.Machine.{Bytes}
use afs_like_file_system.Paths.{get_local_path, get_local_tmp_path}
use afs_like_file_system.Cache.Table.{key_of, put}
use afs_like_file_system.Posix.{Posix, Indeterminate}
use afs_like_file_system.Posix.Splice.{slice-splice}
use afs_like_file_system.Posix.Laws.{Files, IsHealthy, Vacant, splice}
use afs_like_file_system.Client.Process.{Stub, Client, Outcome, ok, database_path}
use afs_like_file_system.Client.Files.{modified_flag, afs_read, afs_write}
use afs_like_file_system.Client.Write.{write_replaces_copy}
use afs_like_file_system.Client.Read.{read_returns_slice}

reply_same :
    {S : Type 0} (got b : Bytes) (size : ℕ) (d : ℤ) (s : S)
    → got ≡ b
    → length b ≡ size
    → ◌≡◌ {A = Outcome S (ℤ × Bytes × ℤ)} (ok (pos (length got), got, d) s) (ok (pos size, b, d) s)
reply_same got b size d s e n = rw (e, n)

module _ (P : Posix) (view : P.State → Files) (healthy : IsHealthy P view) (R : Stub)
    (uninit : Indeterminate) (cache_path path : Bytes) where
  abbrev copy_at : Bytes
  copy_at = get_local_path path cache_path

  abbrev database_at : Bytes
  database_at = get_local_path database_path cache_path

  -- A read of the bytes that a write put into the copy.
  pub reads_written :
      (c : Client P.State R.Net) (old b : Bytes) (size offset k : ℕ)
      → (view c.os).entry copy_at ≡ some k
      → (view c.os).content k ≡ splice old offset b
      → length b ≡ size
      → size < 2 ^ 31
      → (os : P.State) × (d : ℕ) × (afs_read P R uninit cache_path path size offset c
          ≡ ok (pos size, b, pos d) (record c { os = os }))
  reads_written c old b size offset k entry text count small =
      let got : take size (drop offset ((view c.os).content k)) ≡ b = rw text (
        ap (λ (n : ℕ). take n (drop offset (splice old offset b))) (sym count)
        ∙ slice-splice old b offset) in
      let (os, d, ran, same, session) =
        read_returns_slice P view healthy R uninit cache_path path c k size offset entry
          (rw (got, count) small) in
      (os, d, ran ∙ reply_same _ _ size (pos d) _ got count)

  -- On a cache whose disk works, let the cached copy of the path and the database exist, on other
  -- paths than the temporary file, which does not, in a place where a file can be made. After a
  -- write of `size` bytes, more than none and less than 2 ^ 31 of them, at an offset, a read of as
  -- many bytes at that offset returns them.
  pub read_after_write :
      (c : Client P.State R.Net) (buffer : Bytes) (size offset i j : ℕ)
      → (view c.os).entry copy_at ≡ some i
      → Vacant (view c.os) (get_local_tmp_path path cache_path)
      → (view c.os).entry database_at ≡ some j
      → database_at ≢ copy_at
      → database_at ≢ get_local_tmp_path path cache_path
      → 0 < size
      → size ≤ length buffer
      → size < 2 ^ 31
      → (c1 c2 : Client P.State R.Net) × (d : ℕ) × (afs_write P R uninit cache_path path buffer size
            offset c
          ≡ ok (pos size) c1)
        × (afs_read P R uninit cache_path path size offset c1
            ≡ ok (pos size, take size buffer, pos d) c2)
  read_after_write c buffer size offset i j here absent there dc dt some_bytes le small =
      let (os, k, written, entry, text, gone, db, saved, jk, kept) =
        write_replaces_copy P view healthy R uninit cache_path path c ((view c.os).content i) buffer
          size offset i j here refl absent there dc dt some_bytes le small in
      let count : length (take size buffer) ≡ size = omega (arith, length-take size buffer) in
      let c1 : Client P.State R.Net = record c {
        os = os;
        ht = put c.ht (key_of path) modified_flag;
      } in
      let (os', d, ran) =
        reads_written c1 ((view c.os).content i) (take size buffer) size offset k entry text count
          small in
      (c1, record c1 { os = os' }, d, written, ran)
