-- ===== src/Posix/Laws.antt =====
-- The documented behaviour of the calls on regular files, on a disk with room and without faults:
-- what each call does to paths, file contents and open descriptors. A state is seen through a view;
-- a law gives the result of a call, and the view after it as a change of the view before.
use afs_like_file_system.Common.{
  refl, ap, ◌∙◌, ==_iff, Bool-cases, inl, inr, take_all, drop_all, append-nil, ℕ, ◌+◌, ◌-◌, ◌≤◌,
  ◌<◌, ◌^◌, ◌≡◌, ◌≢◌, ◌↔◌, [], ◌∷◌, ◌++◌, Bool, true, false, ◌&&◌, ◌==◌, Option, none, some, ℤ, pos,
  ◌==ℤ◌, length, take, drop, replicate, if◌then◌else◌, arith,
}
use afs_like_file_system.Machine.{Bytes, fill, to_size}
use afs_like_file_system.Posix.{
  Access, o_rdonly, o_wronly, o_rdwr, failed, Posix, done, Stat, OpenFlags,
}

-- An open file description: the file, the offset, whether writes go to the end, and the access.
pub record Descriptor : Type 0 where
  pub ino : ℕ
  pub offset : ℕ
  pub append : Bool
  pub access : Access

abbrev pub CanRead : Access → Type 0
CanRead o_rdonly = Unit
CanRead o_wronly = ⊥
CanRead o_rdwr = Unit

abbrev pub CanWrite : Access → Type 0
CanWrite o_rdonly = ⊥
CanWrite o_wronly = Unit
CanWrite o_rdwr = Unit

-- `place`: the path names a file, whether it is there or not. It is no directory, the directory
-- that it is in is there, and it is the one spelling under which the view knows the file: without
-- `//`, `.`, `..`, links, or a slash at its end.
pub record Files : Type 0 where
  pub entry : Bytes → Option ℕ
  pub place : Bytes → Bool
  pub content : ℕ → Bytes
  pub opened : ℤ → Option Descriptor

-- Nothing is there, and a file can be made there.
abbrev pub Vacant : Files → Bytes → Type 0
Vacant f p = (f.entry p ≡ none) × (f.place p ≡ true)

unfoldable pub same_bytes : Bytes → Bytes → Bool
same_bytes [] [] = true
same_bytes [] (b ∷ t) = false
same_bytes (a ∷ s) [] = false
same_bytes (a ∷ s) (b ∷ t) = a == b && same_bytes s t

pub same_bytes_iff : (s t : Bytes) → (same_bytes s t ≡ true) ↔ (s ≡ t)
unfolding same_bytes
same_bytes_iff [] [] = ground arith
same_bytes_iff [] (b ∷ t) = ground arith
same_bytes_iff (a ∷ s) [] = ground arith
same_bytes_iff (a ∷ s) (b ∷ t) = ground (arith, same_bytes_iff s t)

pub same_bytes_refl : (s : Bytes) → same_bytes s s ≡ true
same_bytes_refl s = (same_bytes_iff s s).1 refl

pub same_bytes_ne : (s t : Bytes) → s ≢ t → same_bytes s t ≡ false
same_bytes_ne s t h = elim (Bool-cases (same_bytes s t)) [
  | inl e ↦ absurd (h ((same_bytes_iff s t).0 e))
  | inr e ↦ e
]

-- A file number that no path had is not the number of a path.
pub fresh_number :
    (f : Files) (p : Bytes) (k i : ℕ)
    → ((q : Bytes) → f.entry q ≢ some k)
    → f.entry p ≡ some i
    → (i == k) ≡ false
fresh_number f p k i fresh h = elim (Bool-cases (i == k)) [
  | inl e ↦ absurd (fresh p (h ∙ ap some ((==_iff i k).0 e)))
  | inr e ↦ e
]

-- `n` bytes from offset `at` on are `b`; a hole in front of them reads as zeros.
abbrev pub splice : Bytes → ℕ → Bytes → Bytes
splice old at b = take at (old ++ replicate (at - length old) 0) ++ (b ++ drop (at + length b) old)

pub splice_whole : (buf : Bytes) → splice [] 0 (take (length buf) buf) ≡ buf
splice_whole buf =
    rw (take_all (length buf) buf (omega arith), drop_all {A = ℕ} (0 + length buf) [] (omega arith))
      (append-nil buf)

-- A read that fills its buffer leaves nothing of what was there.
pub fill_exact : (got memory : Bytes) → length memory ≡ length got → fill got memory ≡ got
fill_exact got memory h = rw (drop_all {A = ℕ} (length got) memory (omega arith)) (append-nil got)

abbrev pub link_path : Files → Bytes → Option ℕ → Files
link_path f p i = record f { entry = λ q. if same_bytes q p then i else f.entry q }

abbrev pub set_content : Files → ℕ → Bytes → Files
set_content f i b = record f { content = λ j. if j == i then b else f.content j }

abbrev pub set_opened : Files → ℤ → Option Descriptor → Files
set_opened f fd o = record f { opened = λ e. if e ==ℤ fd then o else f.opened e }

abbrev pub at_end : Files → Descriptor → ℕ
at_end f o = if o.append then length (f.content o.ino) else o.offset

abbrev pub open_view : Files → ℕ → ℕ → OpenFlags → Files
open_view f d i flags =
    set_opened (if flags.trunc then set_content f i [] else f) (pos d)
      (some (record { ino = i; offset = 0; append = flags.append; access = flags.access }))

abbrev pub write_view : Files → ℤ → Descriptor → Bytes → Files
write_view f fd o b =
    set_opened (set_content f o.ino (splice (f.content o.ino) (at_end f o) b)) fd
      (some (record o { offset = at_end f o + length b }))

-- A size of less than 2 ^ 31 is the same number as size_t.
pub write_size :
    (P : Posix) (text : Bytes) {d : ℕ} {s s' : P.State}
    → length text < 2 ^ 31
    → P.write (pos d) text (length text) s ≡ (done (length text), s')
    → P.write (pos d) text (to_size (pos (length text))) s ≡ (done (length text), s')
write_size P text small e =
    let fits : to_size (pos (length text)) ≡ length text = omega arith in rw fits e

-- ENOENT
abbrev pub enoent : ℕ
enoent = 2

-- `open_existing`: a free descriptor at offset 0. `write`, `pwrite` and `read` transfer all that they
-- can: a regular file gives no short counts but at its end. `modified` is the nanoseconds of the time
-- of a file's last change, as `lstat` and `fstat` tell it; closing a descriptor does not change it.
pub record IsHealthy (P : Posix) (view : P.State → Files) : Type 0 where
  pub placed :
      (s : P.State) (p : Bytes) (i : ℕ) → (view s).entry p ≡ some i → (view s).place p ≡ true
  pub modified : P.State → ℕ → ℕ
  pub lstat_time :
      (s s' : P.State) (p : Bytes) (i : ℕ) (st : Stat)
      → (view s).entry p ≡ some i
      → P.lstat p s ≡ (done st, s')
      → st.st_mtime_nsec ≡ modified s' i
  pub fstat_time :
      (s s' : P.State) (fd : ℤ) (o : Descriptor) (st : Stat)
      → (view s).opened fd ≡ some o
      → P.fstat fd s ≡ (done st, s')
      → st.st_mtime_nsec ≡ modified s' o.ino
  pub close_time :
      (s s' : P.State) (fd : ℤ) (n k : ℕ)
      → P.close fd s ≡ (done n, s')
      → modified s' k ≡ modified s k
  pub open_existing :
      (s : P.State) (p : Bytes) (flags : OpenFlags) (mode i : ℕ)
      → (view s).entry p ≡ some i
      → (d : ℕ) × (s' : P.State) × (P.open_file p flags mode s ≡ (done d, s'))
        × ((view s).opened (pos d) ≡ none)
        × (view s' ≡ open_view (view s) d i flags)
  pub open_new :
      (s : P.State) (p : Bytes) (flags : OpenFlags) (mode : ℕ)
      → Vacant (view s) p
      → flags.creat ≡ true
      → (d i : ℕ) × (s' : P.State) × (P.open_file p flags mode s ≡ (done d, s'))
        × ((view s).opened (pos d) ≡ none)
        × ((q : Bytes) → (view s).entry q ≢ some i)
        × (view s' ≡ open_view (link_path (set_content (view s) i []) p (some i)) d i flags)
  pub open_missing :
      (s : P.State) (p : Bytes) (flags : OpenFlags) (mode : ℕ)
      → Vacant (view s) p
      → flags.creat ≡ false
      → (e : ℕ) × (s' : P.State) × (P.open_file p flags mode s ≡ (failed e, s'))
        × (view s' ≡ view s)
  pub ftruncate :
      (s : P.State) (fd : ℤ) (n : ℕ) (o : Descriptor)
      → (view s).opened fd ≡ some o
      → CanWrite o.access
      → n ≤ length ((view s).content o.ino)
      → (s' : P.State) × (P.ftruncate fd n s ≡ (done 0, s'))
        × (view s' ≡ set_content (view s) o.ino (take n ((view s).content o.ino)))
  pub write :
      (s : P.State) (fd : ℤ) (b : Bytes) (n : ℕ) (o : Descriptor)
      → (view s).opened fd ≡ some o
      → CanWrite o.access
      → n ≤ length b
      → (s' : P.State) × (P.write fd b n s ≡ (done n, s'))
        × (view s' ≡ write_view (view s) fd o (take n b))
  pub pwrite :
      (s : P.State) (fd : ℤ) (b : Bytes) (n at : ℕ) (o : Descriptor)
      → (view s).opened fd ≡ some o
      → CanWrite o.access
      → o.append ≡ false
      → n ≤ length b
      → (s' : P.State) × (P.pwrite fd b n at s ≡ (done n, s'))
        × (view s' ≡ set_content (view s) o.ino (splice ((view s).content o.ino) at (take n b)))
  pub read :
      (s : P.State) (fd : ℤ) (n : ℕ) (o : Descriptor)
      → (view s).opened fd ≡ some o
      → CanRead o.access
      → let got = take n (drop o.offset ((view s).content o.ino)) in
        (s' : P.State) × (P.read fd n s ≡ (done got, s'))
        × (view s' ≡ set_opened (view s) fd (some (record o { offset = o.offset + length got })))
  pub pread :
      (s : P.State) (fd : ℤ) (n at : ℕ) (o : Descriptor)
      → (view s).opened fd ≡ some o
      → CanRead o.access
      → (s' : P.State) × (P.pread fd n at s
          ≡ (done (take n (drop at ((view s).content o.ino))), s'))
        × (view s' ≡ view s)
  pub lseek :
      (s : P.State) (fd : ℤ) (at : ℕ) (o : Descriptor)
      → (view s).opened fd ≡ some o
      → (s' : P.State) × (P.lseek fd at s ≡ (done at, s'))
        × (view s' ≡ set_opened (view s) fd (some (record o { offset = at })))
  pub lstat :
      (s : P.State) (p : Bytes) (i : ℕ)
      → (view s).entry p ≡ some i
      → (st : Stat) × (s' : P.State) × (P.lstat p s ≡ (done st, s'))
        × (st.st_size ≡ length ((view s).content i))
        × (view s' ≡ view s)
  pub fstat :
      (s : P.State) (fd : ℤ) (o : Descriptor)
      → (view s).opened fd ≡ some o
      → (st : Stat) × (s' : P.State) × (P.fstat fd s ≡ (done st, s'))
        × (st.st_size ≡ length ((view s).content o.ino))
        × (view s' ≡ view s)
  pub fsync :
      (s : P.State) (fd : ℤ) (o : Descriptor)
      → (view s).opened fd ≡ some o
      → (s' : P.State) × (P.fsync fd s ≡ (done 0, s')) × (view s' ≡ view s)
  pub close :
      (s : P.State) (fd : ℤ) (o : Descriptor)
      → (view s).opened fd ≡ some o
      → (s' : P.State) × (P.close fd s ≡ (done 0, s')) × (view s' ≡ set_opened (view s) fd none)
  pub remove :
      (s : P.State) (p : Bytes) (i : ℕ)
      → (view s).entry p ≡ some i
      → (s' : P.State) × (P.remove p s ≡ (done 0, s')) × (view s' ≡ link_path (view s) p none)
  pub unlink :
      (s : P.State) (p : Bytes) (i : ℕ)
      → (view s).entry p ≡ some i
      → (s' : P.State) × (P.unlink p s ≡ (done 0, s')) × (view s' ≡ link_path (view s) p none)
  pub unlink_missing :
      (s : P.State) (p : Bytes)
      → Vacant (view s) p
      → (s' : P.State) × (P.unlink p s ≡ (failed enoent, s')) × (view s' ≡ view s)
  pub lstat_missing :
      (s : P.State) (p : Bytes)
      → Vacant (view s) p
      → (s' : P.State) × (P.lstat p s ≡ (failed enoent, s')) × (view s' ≡ view s)
  pub rename :
      (s : P.State) (p q : Bytes) (i : ℕ)
      → (view s).entry p ≡ some i
      → (view s).place q ≡ true
      → (s' : P.State) × (P.rename p q s ≡ (done 0, s'))
        × (view s' ≡ link_path (link_path (view s) p none) q (some i))
  pub fopen_write :
      (s : P.State) (p text : Bytes) (i : ℕ)
      → (view s).entry p ≡ some i
      → (s' : P.State) × (P.fopen_write p text s ≡ (true, s'))
        × (view s' ≡ set_content (view s) i text)
  pub fopen_read :
      (s : P.State) (p : Bytes) (i : ℕ)
      → (view s).entry p ≡ some i
      → (s' : P.State) × (P.fopen_read p s ≡ (some ((view s).content i), s')) × (view s' ≡ view s)
