-- ===== src/Drivers.antt =====
-- The programs that are run on a mounted directory: cacheconsistencytest.c, those of
-- AFS_performance and the two of AFS_scale. What they print and measure is left out, but for the
-- bytes that the consistency test reads, and so are its pause of 30 seconds and the exit without an
-- argument. `open` with O_CREAT is called without a mode: `mode` is what it finds in its place.
pub mod Consistency
pub mod Appends
use afs_like_file_system.Common.{
  ℕ, zero, suc, ◌+◌, ◌*◌, ◌==◌, Bool, true, false, List, [], ◌∷◌, ◌++◌, ℤ, pos, length, take,
  get_or, replicate, if◌then◌else◌, ◌-◌,
}
use afs_like_file_system.Machine.{Bytes, fill}
use afs_like_file_system.Paths.{get_server_path}
use afs_like_file_system.Posix.{
  Posix, Indeterminate, OpenFlags, o_rdwr, o_wronly, fd_of, stat_or, bytes_or_empty,
}
use afs_like_file_system.Server.Process.{M, pure, ◌>>=◌, ◌>>◌, call}

-- O_CREAT | O_RDWR
abbrev pub create_rdwr : OpenFlags
create_rdwr = record { access = o_rdwr; creat = true; trunc = false; append = false }

-- O_RDWR | O_APPEND, with O_CREAT or without
abbrev pub append_flags : Bool → OpenFlags
append_flags creat = record { access = o_rdwr; creat = creat; trunc = false; append = true }

-- The literals "client_w_1", "client_w_2" and "append", with their final zeros.
abbrev pub client_1 : Bytes
client_1 = b'c' ∷ b'l' ∷ b'i' ∷ b'e' ∷ b'n' ∷ b't' ∷ b'_' ∷ b'w' ∷ b'_' ∷ b'1' ∷ 0 ∷ []

abbrev pub client_2 : Bytes
client_2 = b'c' ∷ b'l' ∷ b'i' ∷ b'e' ∷ b'n' ∷ b't' ∷ b'_' ∷ b'w' ∷ b'_' ∷ b'2' ∷ 0 ∷ []

abbrev pub append_text : Bytes
append_text = b'a' ∷ b'p' ∷ b'p' ∷ b'e' ∷ b'n' ∷ b'd' ∷ 0 ∷ []

-- Stars, and the zero that ends them.
unfoldable pub star_text : ℕ → Bytes
star_text size = replicate size b'*' ++ (0 ∷ [])

-- 100 MiB of write_performance.cpp, and 1 MiB of protocol_perf-part2.cpp
abbrev pub stars : Bytes
stars = star_text (1 * 100 * 1024 * 1024)

abbrev pub stars_1 : Bytes
stars_1 = star_text (1 * 1024 * 1024)

-- What `creat` opens with, and the mode that it is given: O_RDWR | O_APPEND | O_CREAT.
abbrev pub creat_flags : OpenFlags
creat_flags = record { access = o_wronly; creat = true; trunc = true; append = false }

abbrev pub creat_mode : ℕ
creat_mode = 0o2102

-- `main` of cacheconsistencytest.c puts a slash behind an argument that has characters and none at
-- its end.
abbrev pub tester_path : Bytes → Bytes
tester_path argument =
    if get_or argument (length argument - 1) 0 == b'/' then argument else argument ++ (b'/' ∷ [])

module _ (P : Posix) (uninit : Indeterminate) (mode : ℕ) where
  -- The writes of 12 bytes take one more than the literal has: `beyond` is that byte.
  unfoldable pub client_w : Bytes → ℕ → Bytes → M P.State (Unit {0})
  client_w literal beyond path = do
    fd ← call (P.open_file path create_rdwr mode)
    at ← call (P.lseek (fd_of fd) 0)
    written ← call (P.write (fd_of fd) (literal ++ (beyond ∷ [])) 12)
    closed ← call (P.close (fd_of fd))
    pure tt

  abbrev pub client_w_1 : ℕ → Bytes → M P.State (Unit {0})
  client_w_1 = client_w client_1

  abbrev pub client_w_2 : ℕ → Bytes → M P.State (Unit {0})
  client_w_2 = client_w client_2

  unfoldable pub client_r_2 : Bytes → M P.State Bytes
  client_r_2 path = do
    fd ← call (P.open_file path create_rdwr mode)
    let readbuf = uninit.malloc 12
    got ← call (P.read (fd_of fd) 12)
    closed ← call (P.close (fd_of fd))
    pure (fill (bytes_or_empty got) readbuf)

  unfoldable pub run_tests : ℕ → ℕ → Bytes → M P.State Bytes
  run_tests beyond_1 beyond_2 path = do
    client_w_1 beyond_1 path
    client_w_2 beyond_2 path
    client_r_2 path

  abbrev pub tester_main : ℕ → ℕ → Bytes → M P.State Bytes
  tester_main beyond_1 beyond_2 argument = run_tests beyond_1 beyond_2 (tester_path argument)

  -- The body of the loops that write: `creat` tells whether O_CREAT is given.
  unfoldable pub append_round : Bool → Bytes → ℕ → Bytes → M P.State (Unit {0})
  append_round creat str count path = do
    fd ← call (P.open_file path (append_flags creat) mode)
    written ← call (P.write (fd_of fd) str count)
    synced ← call (P.fsync (fd_of fd))
    closed ← call (P.close (fd_of fd))
    pure tt

  unfoldable pub append_rounds : ℕ → Bytes → Bytes → M P.State (Unit {0})
  append_rounds zero str path = pure tt
  append_rounds (suc times) str path =
      append_round true str (length str) path >> append_rounds times str path

  -- write_performance.cpp; strlen(str) + 1 is the whole of `stars`.
  unfoldable pub write_performance : Bytes → M P.State (Unit {0})
  write_performance argument = do
    let path = get_server_path [] argument
    info ← call (P.lstat path)
    append_rounds 4 stars path

  -- scale_test_write.c
  unfoldable pub scale_test_write : Bytes → M P.State (Unit {0})
  scale_test_write argument = do
    let path = get_server_path [] argument
    info ← call (P.lstat path)
    append_round false append_text 7 path

  -- read_performance.cpp and scale_test_read.c; the first one leaves the file open.
  unfoldable pub read_performance : Bytes → M P.State (Unit {0})
  read_performance argument = do
    let path = get_server_path [] argument
    info ← call (P.lstat path)
    fd ← call (P.open_file path (append_flags true) mode)
    pure tt

  unfoldable pub scale_test_read : Bytes → M P.State (Unit {0})
  scale_test_read argument = do
    let path = get_server_path [] argument
    info ← call (P.lstat path)
    fd ← call (P.open_file path (append_flags false) mode)
    closed ← call (P.close (fd_of fd))
    pure tt

  -- protocol_perf-part1.cpp: the file is opened twice.
  unfoldable pub protocol_perf : Bytes → M P.State (Unit {0})
  protocol_perf argument = do
    let path = get_server_path [] argument
    info ← call (P.lstat path)
    first ← call (P.open_file path (append_flags true) mode)
    closed ← call (P.close (fd_of first))
    second ← call (P.open_file path (append_flags true) mode)
    closed2 ← call (P.close (fd_of second))
    pure tt

  -- protocol_perf-part2.cpp: the size is asked for before `creat` empties the file.
  unfoldable pub protocol_perf_2 : Bytes → M P.State (Unit {0})
  protocol_perf_2 argument = do
    let path = get_server_path [] argument
    found ← call (P.lstat path)
    let info = stat_or uninit.stat found
    created ← call (P.open_file path creat_flags creat_mode)
    fd ← call (P.open_file path (append_flags true) mode)
    got ← call (P.read (fd_of fd) info.st_size)
    written ← call (P.write (fd_of fd) stars_1 (length stars_1))
    synced ← call (P.fsync (fd_of fd))
    closed ← call (P.close (fd_of fd))
    pure tt
