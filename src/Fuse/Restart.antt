-- ===== src/Fuse/Restart.antt =====
-- The start of a client whose database holds the table of an earlier one.
use afs_like_file_system.Common.{ℕ, ◌≡◌, ◌∙◌, refl, sym, none, some, pos, true, take, ==ℤ_refl}
use afs_like_file_system.Machine.{Bytes}
use afs_like_file_system.Paths.{get_local_path, max_path_length}
use afs_like_file_system.Cache.Table.{Table, init_ht, get, key_of}
use afs_like_file_system.Cache.Valid.{IsValid}
use afs_like_file_system.Cache.Lookup.{get-view}
use afs_like_file_system.Cache.Database.{dump_text, load_text}
use afs_like_file_system.Cache.Database.RoundTrip.{load_text-dump_text}
use afs_like_file_system.Posix.{o_rdwr, Posix, mode_770}
use afs_like_file_system.Posix.Laws.{Files, Descriptor, IsHealthy}
use afs_like_file_system.Client.Process.{
  Stub, Client, ok, crash, database_path, read_from_database, settle_load, bind-ok, call-done,
}
use afs_like_file_system.Client.Transfer.{create_append_rdwr}
use afs_like_file_system.Fuse.{init_table, client_main}

module _ (P : Posix) (view : P.State → Files) (healthy : IsHealthy P view) (R : Stub)
    (resolved : Bytes) where
  abbrev cache_path : Bytes
  cache_path = take max_path_length resolved

  abbrev database : Bytes
  database = get_local_path database_path cache_path

  read_done :
      (c : Client P.State R.Net) (content : Bytes) (ht : Table) {os : P.State}
      → P.fopen_read database c.os ≡ (some content, os)
      → load_text content c.ht ≡ some ht
      → read_from_database P cache_path c ≡ ok tt (record c { os = os; ht = ht })
  unfolding read_from_database settle_load
  read_done c content ht e loaded = rw e (rw (loaded, settle_load))

  init_table-done :
      (c : Client P.State R.Net) → init_table P R c ≡ ok tt (record c { ht = init_ht })
  unfolding init_table
  init_table-done c = refl

  read_crashes :
      (c : Client P.State R.Net) (content : Bytes) {os : P.State}
      → P.fopen_read database c.os ≡ (some content, os)
      → load_text content c.ht ≡ none
      → read_from_database P cache_path c ≡ crash
  unfolding read_from_database settle_load
  read_crashes c content e broken = rw e (rw (broken, settle_load))

  -- The start up to the reading of the database, where it exists.
  start_reads :
      (c : Client P.State R.Net) (j : ℕ)
      → (view c.os).entry database ≡ some j
      → (s2 s3 : P.State) × (client_main P R resolved c
          ≡ read_from_database P cache_path (record c { os = s2; ht = init_ht }))
        × (P.fopen_read database s2 ≡ (some ((view c.os).content j), s3))
        × ((view s3).content j ≡ (view c.os).content j)
  unfolding client_main
  start_reads c j there =
      let (d, s1, e1, free, v1) =
        healthy.open_existing c.os database create_append_rdwr mode_770 j there in
      let o : Descriptor = record { ino = j; offset = 0; append = true; access = o_rdwr } in
      let open1 : (view s1).opened (pos d) ≡ some o = rw (v1, ==ℤ_refl (pos d)) in
      let (s2, e2, v2) = healthy.close s1 (pos d) o open1 in
      let there2 : (view s2).entry database ≡ some j = rw (v2, v1) there in
      let text2 : (view s2).content j ≡ (view c.os).content j = rw (v2, v1) refl in
      let (s3, e3, v3) = healthy.fopen_read s2 database j there2 in
      let at = λ (os : P.State). record c { os = os } in
      let c2 = record (at s2) { ht = init_ht } in
      (
        s2,
        s3,
        bind-ok _ _ c (at s1) (some d) (call-done _ c e1)
            ∙ bind-ok _ _ (at s1) (at s2) (some 0) (call-done _ (at s1) e2)
            ∙ bind-ok _ _ (at s2) c2 tt (init_table-done (at s2)),
        rw text2 at e3,
        rw v3 text2,
      )

  -- A client whose database cannot be read does not start.
  pub broken_start :
      (c : Client P.State R.Net) (j : ℕ)
      → (view c.os).entry database ≡ some j
      → load_text ((view c.os).content j) init_ht ≡ none
      → client_main P R resolved c ≡ crash
  broken_start c j there broken =
      let (s2, s3, started, read, same) = start_reads c j there in
      started
      ∙ read_crashes (record c { os = s2; ht = init_ht }) ((view c.os).content j) read broken

  -- Where the cache's disk works and its database holds the text of a valid table, the client starts:
  -- whatever its table held before, it is then valid and gives every path the time that the dumped
  -- table gave it. The database is as it was.
  pub restart_restores_times :
      (c : Client P.State R.Net) (ht : Table) (j : ℕ)
      → (view c.os).entry database ≡ some j
      → (view c.os).content j ≡ dump_text ht
      → IsValid ht
      → (c' : Client P.State R.Net) × (client_main P R resolved c ≡ ok tt c')
        × IsValid c'.ht
        × ((path : Bytes) → get c'.ht path ≡ get ht path)
        × ((view c'.os).content j ≡ dump_text ht)
  restart_restores_times c ht j there text valid =
      let (s2, s3, started, read, same) = start_reads c j there in
      let (ht', loaded, valid', agree) = load_text-dump_text ht valid in
      let c2 = record c { os = s2; ht = init_ht } in
      (
        record c { os = s3; ht = ht' },
        started ∙ read_done c2 (dump_text ht) ht' (rw text at read) loaded,
        valid',
        λ path. get-view ht' path ∙ rw (agree (key_of path)) (sym (get-view ht path)),
        same ∙ text,
      )
