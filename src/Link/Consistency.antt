-- ===== src/Link/Consistency.antt =====
-- Cache consistency, as the client and the server come to it together.
use afs_like_file_system.Common.{ℕ, ◌≡◌, ◌∙◌, ◌<◌, ◌^◌, refl, some, true, ℤ, pos, ltb_ℤ, arith}
use afs_like_file_system.Machine.{Bytes, to_i32_fits}
use afs_like_file_system.Paths.{get_local_path, get_server_path}
use afs_like_file_system.Cache.Table.{get}
use afs_like_file_system.Posix.{Posix, Indeterminate, Stat, done, mode_770}
use afs_like_file_system.Server.{getattr_reply}
use afs_like_file_system.Server.Answers.{attributes_found}
use afs_like_file_system.Client.Process.{Client}
use afs_like_file_system.Client.Transfer.{append_rdwr}
use afs_like_file_system.Client.Files.{modified_flag, afs_open}
use afs_like_file_system.Client.Open.{answered_client, rest_of_open, open_decides}
use afs_like_file_system.Link.{Link, connect, next, later, answered}

module _ (P : Posix) (uninit : Indeterminate) (root cache_path path : Bytes) where
  -- The link after a request that was answered.
  abbrev answered_link : P.State → Link P.State → Link P.State
  answered_link os link = record {
    server = record link.server { os = os };
    deliveries = later link.deliveries;
  }

  getattr_answered :
      (link : Link P.State) {st : Stat} {os : P.State}
      → next link.deliveries ≡ answered
      → P.lstat (get_server_path path root) link.server.os ≡ (done st, os)
      → (connect P uninit root).getattr (record { path = path }) link
        ≡ (some (getattr_reply P uninit root st), answered_link os link)
  getattr_answered link e found = rw (e, attributes_found P uninit root path link.server found)

  -- The client has a cached copy, its request for the attributes is answered, and the server has the
  -- file, with times whose nanoseconds are below a second.
  module _ (c : Client P.State (Link P.State)) {d : ℕ} {os server_os : P.State} {st : Stat}
      (opened : P.open_file (get_local_path path cache_path) append_rdwr mode_770 c.os
        ≡ (done d, os))
      (delivered : next c.net.deliveries ≡ answered)
      (found : P.lstat (get_server_path path root) c.net.server.os ≡ (done st, server_os))
      (nanoseconds : st.st_mtime_nsec < 10 ^ 9) where
    -- The client when it decides.
    abbrev pub deciding : Client P.State (Link P.State)
    deciding =
        answered_client P (connect P uninit root) uninit cache_path path os
          (answered_link server_os c.net) c

    -- If the cache has a copy, and the server answers and has the file, with nanoseconds below a
    -- second, then `afs_open` fetches exactly when the nanoseconds of the server's modification time
    -- are more than the number in the table. The seconds of that time make no difference.
    pub open_compares_nanoseconds :
        (fh : ℤ)
        → afs_open P (connect P uninit root) uninit cache_path path fh c
          ≡ rest_of_open P
              (connect P uninit root)
              uninit
              cache_path
              path
              fh
              (pos d)
              (ltb_ℤ (get c.ht path) (pos st.st_mtime_nsec))
              deciding
    open_compares_nanoseconds fh =
        open_decides P (connect P uninit root) uninit cache_path path c fh opened
          (getattr_answered c.net delivered found) refl
        ∙ rw (to_i32_fits st.st_mtime_nsec (omega arith))

    -- Under the same conditions, if the table has the mark of a copy that was written to and not yet
    -- stored, then `afs_open` takes the branch that empties the copy and fetches it again.
    pub modified_copy_refetched :
        (fh : ℤ)
        → get c.ht path ≡ modified_flag
        → afs_open P (connect P uninit root) uninit cache_path path fh c
          ≡ rest_of_open P (connect P uninit root) uninit cache_path path fh (pos d) true deciding
    modified_copy_refetched fh marked = open_compares_nanoseconds fh ∙ rw marked (ground arith)
