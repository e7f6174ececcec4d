-- ===== src/Tests/Memory.antt =====
-- A file system in memory that meets the laws: the functions of `Posix` over a view with a supply of
-- file numbers and descriptors. Calls that the tests do not make fail.
use Prim.Native.Nat.{max}
use afs_like_file_system.Common.{
  ℕ, ◌+◌, ◌<◌, ◌≤◌, ◌≡◌, ◌==◌, ◌==ℤ◌, pos_part, refl, sym, ap, ◌∙◌, List, [], ◌∷◌, Bool, true,
  Option, none, some, ℤ, pos, negsuc, length, take, drop, replicate, if◌then◌else◌, arith,
  length-replicate, Bool-cases, inl, inr,
}
use afs_like_file_system.Machine.{Bytes}
use afs_like_file_system.Posix.{Posix, Indeterminate, Sys, done, failed, Stat, OpenFlags}
use afs_like_file_system.Posix.Laws.{
  Descriptor, Files, same_bytes, splice, at_end, open_view, IsHealthy,
}

-- Paths and descriptors are kept as lists of changes, the newest first. `stamp` is the nanoseconds of
-- every modification time.
pub record Memory : Type 0 where
  pub paths : List (Bytes × Option ℕ)
  pub content : ℕ → Bytes
  pub descriptors : List (ℤ × Option Descriptor)
  pub stamp : ℕ

abbrev pub path_at : List (Bytes × Option ℕ) → Bytes → Option ℕ
path_at [] q = none
path_at ((p, i) ∷ l) q = if same_bytes q p then i else path_at l q

abbrev pub descriptor_at : List (ℤ × Option Descriptor) → ℤ → Option Descriptor
descriptor_at [] e = none
descriptor_at ((fd, o) ∷ l) e = if e ==ℤ fd then o else descriptor_at l e

abbrev pub view : Memory → Files
view m = record {
  entry = path_at m.paths;
  place = λ p. true;
  content = m.content;
  opened = descriptor_at m.descriptors;
}

-- A number above every file number, and one above every descriptor.
unfoldable pub fresh_ino : List (Bytes × Option ℕ) → ℕ
fresh_ino [] = 1
fresh_ino ((p, none) ∷ l) = fresh_ino l
fresh_ino ((p, some i) ∷ l) = max (i + 1) (fresh_ino l)

unfoldable pub fresh_fd : List (ℤ × Option Descriptor) → ℕ
fresh_fd [] = 3
fresh_fd ((fd, o) ∷ l) = max (pos_part fd + 1) (fresh_fd l)

path_at-lt :
    (l : List (Bytes × Option ℕ)) (q : Bytes) (i : ℕ) → path_at l q ≡ some i → i < fresh_ino l
unfolding fresh_ino
path_at-lt [] q i h = cc
path_at-lt ((p, none) ∷ l) q i h = ground (arith, path_at-lt l q i)
path_at-lt ((p, some j) ∷ l) q i h = ground (arith, path_at-lt l q i)

descriptor_at-fresh :
    (l : List (ℤ × Option Descriptor)) (d : ℕ) → fresh_fd l ≤ d → descriptor_at l (pos d) ≡ none
unfolding fresh_fd
descriptor_at-fresh [] d h = refl
descriptor_at-fresh ((pos e, o) ∷ l) d h = ground (arith, descriptor_at-fresh l d)
descriptor_at-fresh ((negsuc e, o) ∷ l) d h = descriptor_at-fresh l d (omega arith)

abbrev set_path : Memory → Bytes → Option ℕ → Memory
set_path m p i = record m { paths = (p, i) ∷ m.paths }

abbrev put_content : Memory → ℕ → Bytes → Memory
put_content m i b = record m { content = λ j. if j == i then b else m.content j }

abbrev set_descriptor : Memory → ℤ → Option Descriptor → Memory
set_descriptor m fd o = record m { descriptors = (fd, o) ∷ m.descriptors }

abbrev pub stat_of : Memory → ℕ → Stat
stat_of m i = record {
  st_ino = i;
  st_mode = 0o100770;
  st_nlink = 1;
  st_uid = 0;
  st_gid = 0;
  st_size = length (m.content i);
  st_blksize = 4096;
  st_blocks = 8;
  st_atime = pos 0;
  st_mtime = pos 100;
  st_mtime_nsec = m.stamp;
  st_ctime = pos 0;
}

abbrev open_at : Memory → OpenFlags → ℕ → Sys ℕ × Memory
open_at m flags i =
    let d = fresh_fd m.descriptors in
    (
      done d,
      set_descriptor (if flags.trunc then put_content m i [] else m) (pos d)
          (some (record { ino = i; offset = 0; append = flags.append; access = flags.access })),
    )

abbrev mem_open : Bytes → OpenFlags → ℕ → Memory → Sys ℕ × Memory
mem_open p flags mode m = elim (path_at m.paths p) [
  | some i ↦ open_at m flags i
  | none ↦
      let i = fresh_ino m.paths in
      if flags.creat
      then open_at (set_path (put_content m i []) p (some i)) flags i
      else (failed 2, m)
]

abbrev on_fd : {A : Type 0} → ℤ → (Descriptor → Memory → Sys A × Memory) → Memory → Sys A × Memory
on_fd fd f m = elim (descriptor_at m.descriptors fd) [ none ↦ (failed 9, m) | some o ↦ f o m ]

abbrev on_path : {A : Type 0} → Bytes → (ℕ → Memory → Sys A × Memory) → Memory → Sys A × Memory
on_path p f m = elim (path_at m.paths p) [ none ↦ (failed 2, m) | some i ↦ f i m ]

abbrev unsupported : {A : Type 0} → Memory → Sys A × Memory
unsupported m = (failed 38, m)

abbrev drop_path : Bytes → Memory → Sys ℕ × Memory
drop_path p = on_path p λ i m. (done 0, set_path m p none)

abbrev mem_fopen_read : Bytes → Memory → Option Bytes × Memory
mem_fopen_read p m = elim (path_at m.paths p) [
  | none ↦ (none, m)
  | some i ↦ (some (m.content i), m)
]

abbrev mem_fopen_write : Bytes → Bytes → Memory → Bool × Memory
mem_fopen_write p text m = elim (path_at m.paths p) [
  | none ↦ let i = fresh_ino m.paths in (true, set_path (put_content m i text) p (some i))
  | some i ↦ (true, put_content m i text)
]

abbrev pub memory : Posix
memory = record {
  State = Memory;
  open_file = mem_open;
  close = λ fd. on_fd fd λ o m. (done 0, set_descriptor m fd none);
  read = λ fd n. on_fd fd λ o m.
      let got = take n (drop o.offset (m.content o.ino)) in
      (done got, set_descriptor m fd (some (record o { offset = o.offset + length got })));
  pread = λ fd n at. on_fd fd λ o m. (done (take n (drop at (m.content o.ino))), m);
  write = λ fd b n. on_fd fd λ o m.
      let at = at_end (view m) o in
      (
        done n,
        set_descriptor (put_content m o.ino (splice (m.content o.ino) at (take n b))) fd
            (some (record o { offset = at + length (take n b) })),
      );
  pwrite = λ fd b n at.
      on_fd fd λ o m. (done n, put_content m o.ino (splice (m.content o.ino) at (take n b)));
  lseek = λ fd at. on_fd fd λ o m. (done at, set_descriptor m fd (some (record o { offset = at })));
  ftruncate = λ fd n. on_fd fd λ o m. (done 0, put_content m o.ino (take n (m.content o.ino)));
  truncate = λ p n. unsupported;
  fsync = λ fd. on_fd fd λ o m. (done 0, m);
  fdatasync = λ fd. on_fd fd λ o m. (done 0, m);
  lstat = λ p. on_path p λ i m. (done (stat_of m i), m);
  fstat = λ fd. on_fd fd λ o m. (done (stat_of m o.ino), m);
  unlink = drop_path;
  remove = drop_path;
  rename = λ p q. on_path p λ i m. (done 0, set_path (set_path m p none) q (some i));
  mkdir = λ p mode. unsupported;
  rmdir = λ p. unsupported;
  chmod = λ p mode. on_path p λ i m. (done 0, m);
  lchown = λ p uid gid. unsupported;
  utimensat = λ p a b. unsupported;
  list_directory = λ p. unsupported;
  fopen_read = mem_fopen_read;
  fopen_write = mem_fopen_write;
}

-- Storage that C never wrote, read as zeros here.
abbrev pub zeroed : Indeterminate
zeroed = record {
  stat = record {
    st_ino = 0;
    st_mode = 0;
    st_nlink = 0;
    st_uid = 0;
    st_gid = 0;
    st_size = 0;
    st_blksize = 0;
    st_blocks = 0;
    st_atime = pos 0;
    st_mtime = pos 0;
    st_mtime_nsec = 0;
    st_ctime = pos 0;
  };
  malloc = λ n. replicate n 0;
  pointee = [];
  malloc_length = λ n. length-replicate n 0;
}

abbrev done_or : Stat → Sys Stat → Stat
done_or st (done st') = st'
done_or st (failed e) = st

view-open_at :
    (m : Memory) (flags : OpenFlags) (i : ℕ)
    → view (open_at m flags i).1 ≡ open_view (view m) (fresh_fd m.descriptors) i flags
view-open_at m flags i = elim (Bool-cases flags.trunc) [ inl e ↦ rw e | inr e ↦ rw e ]

timed :
    {m m' : Memory} {i : ℕ} {st : Stat}
    → ◌≡◌ {A = Sys Stat × Memory} (done (stat_of m i), m) (done st, m')
    → st.st_mtime_nsec ≡ m'.stamp
timed {m} {m'} {i} {st} e =
    let same : stat_of m i ≡ st = ap (λ (r : Sys Stat × Memory). done_or (stat_of m i) r.0) e in
    let here : m ≡ m' = ap (λ (r : Sys Stat × Memory). r.1) e in
    ap (λ (x : Stat). x.st_mtime_nsec) (sym same) ∙ ap (λ (x : Memory). x.stamp) here

close-stamp :
    (m : Memory) (fd : ℤ) (m' : Memory) (n : ℕ) (o : Option Descriptor)
    → descriptor_at m.descriptors fd ≡ o
    → memory.close fd m ≡ (done n, m')
    → m'.stamp ≡ m.stamp
close-stamp m fd m' n none h e =
    let ran : ◌≡◌ {A = Sys ℕ × Memory} (failed 9, m) (done n, m') = sym (rw (h, on_fd) refl) ∙ e in
    ap (λ (r : Sys ℕ × Memory). r.1.stamp) (sym ran)
close-stamp m fd m' n (some o) h e =
    let ran : ◌≡◌ {A = Sys ℕ × Memory} (done 0, set_descriptor m fd none) (done n, m') =
      sym (rw (h, on_fd) refl) ∙ e in
    ap (λ (r : Sys ℕ × Memory). r.1.stamp) (sym ran)

-- The laws hold in every state.
pub memory-IsHealthy : IsHealthy memory view
memory-IsHealthy = record {
  placed = λ s p i h. refl;
  modified = λ s i. s.stamp;
  lstat_time = λ s s' p i st h e. timed {m = s} {i = i} (sym (rw (h, on_path) refl) ∙ e);
  fstat_time = λ s s' fd o st h e. timed {m = s} {i = o.ino} (sym (rw (h, on_fd) refl) ∙ e);
  close_time = λ s s' fd n k e. close-stamp s fd s' n (descriptor_at s.descriptors fd) refl e;
  open_existing = λ s p flags mode i h. (
    fresh_fd s.descriptors,
    (open_at s flags i).1,
    rw (h, mem_open),
    descriptor_at-fresh s.descriptors _ (omega arith),
    view-open_at s flags i,
  );
  open_new = λ s p flags mode h creates.
      let i = fresh_ino s.paths in
      let made = set_path (put_content s i []) p (some i) in
      (
        fresh_fd s.descriptors,
        i,
        (open_at made flags i).1,
        rw (h.0, mem_open, creates),
        descriptor_at-fresh s.descriptors _ (omega arith),
        λ q e. omega (arith, path_at-lt s.paths q i e),
        view-open_at made flags i,
      );
  open_missing = λ s p flags mode h plain. (2, s, rw (h.0, mem_open, plain), refl);
  ftruncate = λ s fd n o h w le. ((memory.ftruncate fd n s).1, rw (h, on_fd), rw (h, on_fd));
  write = λ s fd b n o h w le. ((memory.write fd b n s).1, rw (h, on_fd), rw (h, on_fd));
  pwrite = λ s fd b n at o h w a le. ((memory.pwrite fd b n at s).1, rw (h, on_fd), rw (h, on_fd));
  read = λ s fd n o h r. ((memory.read fd n s).1, rw (h, on_fd), rw (h, on_fd));
  pread = λ s fd n at o h r. (s, rw (h, on_fd), refl);
  lseek = λ s fd at o h. ((memory.lseek fd at s).1, rw (h, on_fd), rw (h, on_fd));
  lstat = λ s p i h. (stat_of s i, s, rw (h, on_path), refl, refl);
  fstat = λ s fd o h. (stat_of s o.ino, s, rw (h, on_fd), refl, refl);
  fsync = λ s fd o h. (s, rw (h, on_fd), refl);
  close = λ s fd o h. (set_descriptor s fd none, rw (h, on_fd), refl);
  remove = λ s p i h. (set_path s p none, rw (h, on_path), refl);
  unlink = λ s p i h. (set_path s p none, rw (h, on_path), refl);
  unlink_missing = λ s p h. (s, rw (h.0, on_path), refl);
  lstat_missing = λ s p h. (s, rw (h.0, on_path), refl);
  rename = λ s p q i h free. (set_path (set_path s p none) q (some i), rw (h, on_path), refl);
  fopen_write = λ s p text i h. (put_content s i text, rw (h, mem_fopen_write), refl);
  fopen_read = λ s p i h. (s, rw (h, mem_fopen_read), refl);
}
