-- ===== src/Link/CloseToOpen.antt =====
-- Two clients of one server: what one client releases, the other one opens.
use afs_like_file_system.Common.{ℕ, ◌<◌, ◌^◌, ◌≡◌, ◌≢◌, some, ℤ, pos, length}
use afs_like_file_system.Machine.{Bytes}
use afs_like_file_system.Paths.{get_local_path}
use afs_like_file_system.Cache.Hash.{htablesize}
use afs_like_file_system.Cache.Table.{get}
use afs_like_file_system.Cache.Database.{dump_text}
use afs_like_file_system.Posix.{Posix, Indeterminate}
use afs_like_file_system.Posix.Laws.{Files, Descriptor, IsHealthy, Vacant}
use afs_like_file_system.Server.Process.{Host}
use afs_like_file_system.Server.RoundTrip.{server_path}
use afs_like_file_system.Client.Process.{Stub, Client, ok, database_path}
use afs_like_file_system.Client.Files.{modified_flag, afs_open, afs_release}
use afs_like_file_system.Link.{Link, connect, next, answered}
use afs_like_file_system.Link.Release.{release_stores_copy}
use afs_like_file_system.Link.Refill.{Fetched}
use afs_like_file_system.Link.Fetch.{open_fetches_missing}

-- The client, when the server's host is this one.
abbrev pub with_server : {Os : Type 0} → Host Os → Client Os (Link Os) → Client Os (Link Os)
with_server host c = record c { net = record c.net { server = host } }

module _ (P : Posix) (view : P.State → Files) (healthy : IsHealthy P view) (uninit : Indeterminate)
    (root writer_cache reader_cache path : Bytes) where
  abbrev stub : Stub
  stub = connect P uninit root

  -- All three disks work, and the requests are answered. The writer has a modified copy of a file
  -- of the server open and releases it, with less than 2 ^ 31 bytes; then the reader, whose cache
  -- lacks the file but has a place for it, opens it. Both calls return 0, and the reader's
  -- descriptor is open on a copy with exactly the bytes of the writer's copy.
  pub close_to_open :
      (writer reader : Client P.State (Link P.State)) (fh fh' : ℤ) (o : Descriptor) (i j j' m : ℕ)
      → (view writer.os).opened fh ≡ some o
      → (view writer.os).entry (get_local_path path writer_cache) ≡ some i
      → (view writer.os).entry (get_local_path database_path writer_cache) ≡ some j
      → length ((view writer.os).content i) < 2 ^ 31
      → length writer.ht ≡ htablesize
      → get writer.ht path ≡ modified_flag
      → next writer.net.deliveries ≡ answered
      → (view writer.net.server.os).entry (server_path P view healthy uninit root path) ≡ some m
      → Vacant (view reader.os) (get_local_path path reader_cache)
      → (view reader.os).entry (get_local_path database_path reader_cache) ≡ some j'
      → get_local_path database_path reader_cache ≢ get_local_path path reader_cache
      → length reader.ht ≡ htablesize
      → next reader.net.deliveries ≡ answered
      → (writer' reader' : Client P.State (Link P.State)) × (d k : ℕ) × (afs_release P stub uninit
            writer_cache path fh writer
          ≡ ok (pos 0) writer')
        × (afs_open P stub uninit reader_cache path fh' (with_server writer'.net.server reader)
            ≡ ok (pos 0, pos d) reader')
        × Fetched P view healthy uninit root reader_cache path reader'.os d k j'
            ((view writer.os).content i)
            (dump_text reader'.ht)
  close_to_open writer reader fh fh' o i j j' m held here there small wide marked answers remote
        absent there' apart wide' answers' =
      let (os, server_os, time, released, file, timed, stamped, clear, saved) =
        release_stores_copy P view healthy uninit root writer_cache path writer fh o i j m held here
          there small wide marked answers remote in
      let host : Host P.State = record writer.net.server { os = server_os } in
      let (os', server_os', e, d, k, time', opened, fetched, timed', stamped') =
        open_fetches_missing P view healthy uninit root reader_cache path (with_server host reader)
          fh' j' m absent there' apart wide' answers' file.0 (rw file.1 small) in
      (_, _, d, k, released, opened, rw file.1 at fetched)
