-- ===== src/Link/Listing.antt =====
-- A directory of the server, as the client lists it.
use afs_like_file_system.Common.{◌≡◌, ◌∙◌, refl, ap, List, [], ◌∷◌, map, pos, negsuc, arith}
use afs_like_file_system.Machine.{Bytes}
use afs_like_file_system.Paths.{get_server_path}
use afs_like_file_system.Posix.{Posix, Indeterminate, Sys, done, failed}
use afs_like_file_system.Protocol.{LsRes, ls_res}
use afs_like_file_system.Server.{afs_ls, ls_entry}
use afs_like_file_system.Server.Process.{Host}
use afs_like_file_system.Client.Process.{Client, ok, rpc_stream, ◌>>=◌}
use afs_like_file_system.Client.Transfer
use afs_like_file_system.Client.Transfer.{filled_names}
use afs_like_file_system.Link.{Link, connect, next, later, answered}

-- What a listing of a directory gives, where nothing tells a failure from an empty directory.
abbrev pub names_or_empty : Sys (List Bytes) → List Bytes
names_or_empty (done names) = names
names_or_empty (failed e) = []

module _ (P : Posix) (uninit : Indeterminate) (root cache_path path : Bytes) where
  filled_entries : (names : List Bytes) → filled_names (map (ls_entry P uninit root) names) ≡ names
  unfolding filled_names
  filled_entries [] = refl
  filled_entries (n ∷ names) = ap (λ l. n ∷ l) (filled_entries names)

  -- The messages of the handler, by the outcome of the listing.
  replies : Sys (List Bytes) → List LsRes
  replies (done []) = record ls_res { error = negsuc 0 } ∷ []
  replies (done (n ∷ names)) = map (ls_entry P uninit root) (n ∷ names)
  replies (failed e) = record ls_res { error = negsuc 0 } ∷ []

  handler_replies :
      (h : Host P.State)
      → (afs_ls P uninit root (record { path = path }) h).0.1
        ≡ replies (P.list_directory (get_server_path path root) h.os).0
  unfolding afs_ls replies
  handler_replies h = by_outcome (P.list_directory (get_server_path path root) h.os) refl
    where
      by_outcome :
          (r : Sys (List Bytes) × P.State)
          → P.list_directory (get_server_path path root) h.os ≡ r
          → (afs_ls P uninit root (record { path = path }) h).0.1 ≡ replies r.0
      by_outcome (done [], s) e = ground arith
      by_outcome (done (n ∷ names), s) e = ground arith
      by_outcome (failed x, s) e = ground arith

  filled_replies : (r : Sys (List Bytes)) → filled_names (replies r) ≡ names_or_empty r
  unfolding replies filled_names
  filled_replies (done []) = refl
  filled_replies (done (n ∷ names)) = ap (λ l. n ∷ l) (filled_entries names)
  filled_replies (failed e) = refl

  handler_names :
      (h : Host P.State)
      → filled_names (afs_ls P uninit root (record { path = path }) h).0.1
        ≡ names_or_empty (P.list_directory (get_server_path path root) h.os).0
  handler_names h =
      ap filled_names (handler_replies h)
      ∙ filled_replies (P.list_directory (get_server_path path root) h.os).0

  -- If the request is answered, afs_ls returns 0 and hands over exactly the names that the server
  -- finds in the directory, in its order; where the server cannot list it, it returns 0 as well,
  -- with no name. The rest of the client is as it was.
  pub listing_hides_failure :
      (c : Client P.State (Link P.State))
      → next c.net.deliveries ≡ answered
      → Transfer.afs_ls P (connect P uninit root) cache_path path c
        ≡ ok
            (pos 0, names_or_empty (P.list_directory (get_server_path path root) c.net.server.os).0)
            (record c {
              net = record {
                server = (afs_ls P uninit root (record { path = path }) c.net.server).1;
                deliveries = later c.net.deliveries;
              };
            })
  unfolding Transfer.afs_ls rpc_stream ◌>>=◌
  listing_hides_failure c delivered = rw (delivered, handler_names c.net.server)
