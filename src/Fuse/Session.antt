-- ===== src/Fuse/Session.antt =====
-- Any sequence of requests to the client.
use afs_like_file_system.Common.{List, [], ◌∷◌}
use afs_like_file_system.Machine.{Bytes}
use afs_like_file_system.Posix.{Posix, Indeterminate}
use afs_like_file_system.Client.Process.{Stub, Client, M, pure, ◌>>=◌}
use afs_like_file_system.Client.Keeps.{IsReady, Ends, Keeps, Keeps-bind, Keeps-pure}
use afs_like_file_system.Client.Ready.{IsStub, Keeps-afs_getattr}
use afs_like_file_system.Client.Operations.{
  Keeps-afs_truncate, Keeps-afs_chown, Keeps-afs_utimens, Keeps-afs_unlink, Keeps-afs_chmod,
  Keeps-afs_mkdir, Keeps-afs_rmdir, Keeps-afs_ls, Keeps-afs_open, Keeps-afs_read, Keeps-afs_fsync,
  Keeps-afs_write, Keeps-afs_release, Keeps-afs_create,
}
use afs_like_file_system.Fuse.{Request, Reply, create, client_oper}

ruleset request_rules = (
  Keeps-bind, Keeps-pure, Keeps-afs_getattr, Keeps-afs_truncate, Keeps-afs_chown, Keeps-afs_utimens,
  Keeps-afs_unlink, Keeps-afs_chmod, Keeps-afs_mkdir, Keeps-afs_rmdir, Keeps-afs_ls, Keeps-afs_open,
  Keeps-afs_read, Keeps-afs_fsync, Keeps-afs_write, Keeps-afs_release, Keeps-afs_create,
)

module _ (P : Posix) (R : Stub) (uninit : Indeterminate) (cache_path : Bytes) where
  -- The requests one after the other.
  unfoldable pub session : List Request → M P.State R.Net (List Reply)
  session [] = pure []
  session (request ∷ more) = do
    reply ← client_oper P R uninit cache_path request
    replies ← session more
    pure (reply ∷ replies)

module _ (P : Posix) (R : Stub) (stub : IsStub R) (uninit : Indeterminate)
    (cache_path : Bytes) where
  Keeps-client_oper : (request : Request) → Keeps 1 (client_oper P R uninit cache_path request)
  unfolding client_oper
  Keeps-client_oper (create path fh) = search request_rules
  Keeps-client_oper request = search request_rules

  Keeps-session : (requests : List Request) → Keeps 1 (session P R uninit cache_path requests)
  unfolding session
  Keeps-session [] = search request_rules
  Keeps-session (request ∷ more) =
      Keeps-bind 1 _ _ (Keeps-client_oper request)
        λ reply. Keeps-bind 1 _ _ (Keeps-session more) λ replies. Keeps-pure 1 (reply ∷ replies)

  -- From a client with a valid table and fresh retry counters, whatever the file system and the
  -- connection answer (times being `int64`), every sequence of requests comes to an end: no loop
  -- goes past its six rounds. Unless the process crashes on the way, the table is valid afterwards
  -- and the counters are fresh.
  pub session-IsReady :
      (requests : List Request) (c : Client P.State R.Net)
      → IsReady c
      → Ends IsReady (session P R uninit cache_path requests c)
  session-IsReady requests c ready = (Keeps-session requests).at c ready
