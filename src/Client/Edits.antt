-- ===== src/Client/Edits.antt =====
-- Any number of writes and reads of one open path, against one string of bytes.
use afs_like_file_system.Common.{
  ℕ, ◌+◌, ◌<◌, ◌≤◌, ◌^◌, ◌≡◌, ◌≢◌, ◌∙◌, refl, zero, suc, List, [], ◌∷◌, Bool, true, false, some, ℤ,
  pos, length, take, drop, length-take, length-drop, arith, ==ℤ_refl, ◌||◌,
}
use afs_like_file_system.Machine.{Bytes}
use afs_like_file_system.Paths.{get_local_path, get_local_tmp_path}
use afs_like_file_system.Cache.Hash.{htablesize}
use afs_like_file_system.Cache.Table.{key_of, get, put}
use afs_like_file_system.Cache.Lookup.{get-put, length-put}
use afs_like_file_system.Posix.{Posix, Indeterminate}
use afs_like_file_system.Posix.Laws.{Files, Descriptor, IsHealthy, Vacant, splice}
use afs_like_file_system.Posix.Sessions.{Opened-kept, opened_at}
use afs_like_file_system.Posix.Splice.{length-splice-lt}
use afs_like_file_system.Client.Process.{Stub, Client, M, ok, pure, ◌>>=◌, database_path, bind-ok}
use afs_like_file_system.Client.Files.{modified_flag, afs_read, afs_write}
use afs_like_file_system.Client.Read.{plain_rdonly, read_returns_slice}
use afs_like_file_system.Client.Release.{pure-done}
use afs_like_file_system.Client.Write.{write_replaces_copy}

pub data Edit : Type 0 where
  write : Bytes → ℕ → ℕ → Edit
  read : ℕ → ℕ → Edit

pub data Result : Type 0 where
  count : ℤ → Result
  bytes : ℤ → Bytes → Result

module _ (P : Posix) (R : Stub) (uninit : Indeterminate) (cache_path path : Bytes) where
  unfoldable pub edit : Edit → M P.State R.Net Result
  edit (write buffer size offset) = do
    rc ← afs_write P R uninit cache_path path buffer size offset
    pure (count rc)
  edit (read size offset) = do
    got ← afs_read P R uninit cache_path path size offset
    pure (bytes got.0 got.1)

  unfoldable pub edit_all : List Edit → M P.State R.Net (List Result)
  edit_all [] = pure []
  edit_all (e ∷ es) = do result ← edit e; results ← edit_all es; pure (result ∷ results)

-- The string of bytes after an edit.
abbrev pub edited : Edit → Bytes → Bytes
edited (write buffer zero offset) text = text
edited (write buffer (suc n) offset) text = splice text offset (take (suc n) buffer)
edited (read size offset) text = text

abbrev pub result_of : Edit → Bytes → Result
result_of (write buffer size offset) text = count (pos size)
result_of (read size offset) text =
    let got = take size (drop offset text) in bytes (pos (length got)) got

-- Whether the edit writes anything.
abbrev pub writes : Edit → Bool
writes (write buffer zero offset) = false
writes (write buffer (suc n) offset) = true
writes (read size offset) = false

unfoldable pub edited_all : List Edit → Bytes → Bytes
edited_all [] text = text
edited_all (e ∷ es) text = edited_all es (edited e text)

unfoldable pub results_of : List Edit → Bytes → List Result
results_of [] text = []
results_of (e ∷ es) text = result_of e text ∷ results_of es (edited e text)

-- Whether something is not stored after the edits, if `dirty` says so before them.
unfoldable pub unsaved_after : List Edit → Bool → Bool
unsaved_after [] dirty = dirty
unsaved_after (e ∷ es) dirty = unsaved_after es (writes e || dirty)

-- A write gives a buffer of at least its size, and ends below 2 ^ 31.
abbrev pub Fits : Edit → Type 0
Fits (write buffer size offset) = (size ≤ length buffer) × (offset + size < 2 ^ 31)
Fits (read size offset) = Unit

abbrev pub AllFit : List Edit → Type 0
AllFit [] = Unit
AllFit (e ∷ es) = Fits e × AllFit es

module _ (P : Posix) (view : P.State → Files) (healthy : IsHealthy P view) (R : Stub)
    (uninit : Indeterminate) (cache_path path : Bytes)
    (not_copy : get_local_path database_path cache_path ≢ get_local_path path cache_path)
    (not_tmp : get_local_path database_path cache_path ≢ get_local_tmp_path path cache_path)
    (fh : ℤ) (o : Descriptor) (j : ℕ) where
  -- The copy is open and has these bytes, and the database and no temporary file are there; the
  -- path is marked if the flag says so.
  pub record IsEdited (c : Client P.State R.Net) (text : Bytes) (dirty : Bool) : Type 0 where
    pub number : ℕ
    pub entry_at : (view c.os).entry (get_local_path path cache_path) ≡ some number
    pub text_at : (view c.os).content number ≡ text
    pub short : length text < 2 ^ 31
    pub no_tmp : Vacant (view c.os) (get_local_tmp_path path cache_path)
    pub database_at : (view c.os).entry (get_local_path database_path cache_path) ≡ some j
    pub held : (view c.os).opened fh ≡ some o
    pub wide : length c.ht ≡ htablesize
    pub marked : dirty ≡ true → get c.ht path ≡ modified_flag

  abbrev Runs : Edit → Client P.State R.Net → Bytes → Bool → Type 0
  Runs e c text dirty =
      (c' : Client P.State R.Net) × (edit P R uninit cache_path path e c ≡ ok (result_of e text) c')
      × IsEdited c' (edited e text) (writes e || dirty)
      × (c'.net ≡ c.net)

  write_one :
      (buffer : Bytes) (size offset : ℕ) (c : Client P.State R.Net) (text : Bytes) (dirty : Bool)
      → IsEdited c text dirty
      → Fits (write buffer size offset)
      → Runs (write buffer size offset) c text dirty
  unfolding edit afs_write
  write_one buffer zero offset c text dirty now (le, fits) =
      (c, bind-ok _ _ c c (pos 0) (pure-done c (pos 0)) ∙ pure-done c (count (pos 0)), now, refl)
  write_one buffer (suc n) offset c text dirty now (le, fits) =
      let size : ℕ = suc n in
      let (os, k, ran, entry, text', gone, db, saved, jk, kept) =
        write_replaces_copy P view healthy R uninit cache_path path c text buffer size offset
          now.number j now.entry_at now.text_at now.no_tmp now.database_at not_copy not_tmp
          (omega arith) le (omega (arith, fits)) in
      let ht = put c.ht (key_of path) modified_flag in
      let c1 : Client P.State R.Net = record c { os = os; ht = ht } in
      let counted : length (take size buffer) ≡ size = omega (arith, length-take size buffer, le) in
      (
        c1,
        bind-ok _ _ c c1 (pos size) ran ∙ pure-done c1 (count (pos size)),
        record {
          number = k;
          entry_at = entry;
          text_at = text';
          short =
              length-splice-lt text (take size buffer) offset (2 ^ 31) now.short
                (omega (arith, counted, fits));
          no_tmp = gone;
          database_at = db;
          held = kept fh o now.held;
          wide = length-put c.ht (key_of path) modified_flag ∙ now.wide;
          marked = λ e. get-put c.ht path path modified_flag now.wide ∙ rw (==ℤ_refl (key_of path));
        },
        refl,
      )

  read_one :
      (size offset : ℕ) (c : Client P.State R.Net) (text : Bytes) (dirty : Bool)
      → IsEdited c text dirty
      → Runs (read size offset) c text dirty
  unfolding edit
  read_one size offset c text dirty now =
      let got = take size (drop offset ((view c.os).content now.number)) in
      let same : got ≡ take size (drop offset text) = rw now.text_at refl in
      let short : length got < 2 ^ 31 =
        rw same (
          omega (arith, length-take size (drop offset text), length-drop offset text, now.short)) in
      let (os, d, ran, kept, session) =
        read_returns_slice P view healthy R uninit cache_path path c now.number size offset
          now.entry_at short in
      let c1 : Client P.State R.Net = record c { os = os } in
      (
        c1,
        bind-ok _ _ c c1 (pos (length got), got, pos d) ran
            ∙ pure-done c1 (bytes (pos (length got)) got)
            ∙ rw same refl,
        record {
          number = now.number;
          entry_at = kept.entries (get_local_path path cache_path) ∙ now.entry_at;
          text_at = kept.contents now.number ∙ now.text_at;
          short = now.short;
          no_tmp = (
            kept.entries (get_local_tmp_path path cache_path) ∙ now.no_tmp.0,
            kept.places (get_local_tmp_path path cache_path) ∙ now.no_tmp.1,
          );
          database_at = kept.entries (get_local_path database_path cache_path) ∙ now.database_at;
          held =
              Opened-kept (view c.os) (view os) d (opened_at plain_rdonly now.number) o fh session
                now.held;
          wide = now.wide;
          marked = now.marked;
        },
        refl,
      )

  edit_one :
      (e : Edit) (c : Client P.State R.Net) (text : Bytes) (dirty : Bool)
      → IsEdited c text dirty
      → Fits e
      → Runs e c text dirty
  edit_one (write buffer size offset) c text dirty now fits =
      write_one buffer size offset c text dirty now fits
  edit_one (read size offset) c text dirty now fits = read_one size offset c text dirty now

  -- On a cache whose disk works, let the path have an open copy of less than 2 ^ 31 bytes, a
  -- database of its own, and no temporary file. Any sequence of writes and reads of the path, whose
  -- writes end below 2 ^ 31, succeeds, and each of them returns what the same edit of a string of
  -- bytes gives. Afterwards the copy is open as before, and has the bytes of that string. The path
  -- is marked if it was, or if a write was of more than no bytes. Nothing is sent.
  pub edit_all-refines :
      (es : List Edit) (c : Client P.State R.Net) (text : Bytes) (dirty : Bool)
      → IsEdited c text dirty
      → AllFit es
      → (c' : Client P.State R.Net) × (edit_all P R uninit cache_path path es c
          ≡ ok (results_of es text) c')
        × IsEdited c' (edited_all es text) (unsaved_after es dirty)
        × (c'.net ≡ c.net)
  unfolding edit_all results_of edited_all unsaved_after
  edit_all-refines [] c text dirty now fits = (c, pure-done c [], now, refl)
  edit_all-refines (e ∷ es) c text dirty now (fits, rest) =
      let (c1, ran, now1, net1) = edit_one e c text dirty now fits in
      let (c2, ran2, now2, net2) =
        edit_all-refines es c1 (edited e text) (writes e || dirty) now1 rest in
      (
        c2,
        bind-ok _ _ c c1 (result_of e text) ran
            ∙ bind-ok _ _ c1 c2 (results_of es (edited e text)) ran2
            ∙ pure-done c2 (result_of e text ∷ results_of es (edited e text)),
        now2,
        net2 ∙ net1,
      )
