-- ===== src/Link.antt =====
-- A client and its server: the stub whose calls run the handlers of server.cc on the server's host.
-- A call may be answered, or be lost before or after its handler has run; the environment decides
-- by a list, and answers when that is used up. The reply reaches the client only with status OK.
pub mod Consistency
pub mod Release
pub mod Removed
pub mod Refill
pub mod Fetch
pub mod Losses
pub mod CloseToOpen
pub mod Sharing
pub mod LastClose
pub mod Listing
pub mod Create
pub mod Database
pub mod Stale
pub mod Unsaved
use afs_like_file_system.Common.{ℕ, List, [], ◌∷◌, Option, none, some, Bool, true, false}
use afs_like_file_system.Machine.{Bytes}
use afs_like_file_system.Posix.{Posix, Indeterminate}
use afs_like_file_system.Protocol.{Status, status_ok, unavailable, LsRes}
use afs_like_file_system.Server
use afs_like_file_system.Server.Process.{Host, M}
use afs_like_file_system.Client.Process.{Stub}

pub data Delivery : Type 0 where
  answered request_lost reply_lost : Delivery

pub record Link (Os : Type 0) : Type 0 where
  pub server : Host Os
  pub deliveries : List Delivery

abbrev pub next : List Delivery → Delivery
next [] = answered
next (d ∷ more) = d

abbrev pub later : List Delivery → List Delivery
later [] = []
later (d ∷ more) = more

abbrev only_ok : {A : Type 0} → Status × A → Option A
only_ok (status_ok, reply) = some reply
only_ok (unavailable, reply) = none

module _ {Os : Type 0} where
  abbrev transmit : {A : Type 0} → Delivery → M Os (Status × A) → Host Os → Option A × Host Os
  transmit answered handler h = let (r, h') = handler h in (only_ok r, h')
  transmit request_lost handler h = (none, h)
  transmit reply_lost handler h = let (r, h') = handler h in (none, h')

  abbrev pub deliver : {A : Type 0} → M Os (Status × A) → Link Os → Option A × Link Os
  deliver handler link =
      let (reply, h) = transmit (next link.deliveries) handler link.server in
      (reply, record { server = h; deliveries = later link.deliveries })

  abbrev stream : Delivery → M Os (Status × List LsRes) → Host Os → (List LsRes × Bool) × Host Os
  stream answered handler h = let (r, h') = handler h in ((r.1, true), h')
  stream request_lost handler h = (([], false), h)
  stream reply_lost handler h = let (r, h') = handler h in (([], false), h')

  abbrev pub deliver_stream : M Os (Status × List LsRes) → Link Os → (List LsRes × Bool) × Link Os
  deliver_stream handler link =
      let (reply, h) = stream (next link.deliveries) handler link.server in
      (reply, record { server = h; deliveries = later link.deliveries })

module _ (P : Posix) (uninit : Indeterminate) (root_path : Bytes) where
  abbrev pub connect : Stub
  connect = record {
    Net = Link P.State;
    create = λ q. deliver (Server.afs_create P uninit root_path q);
    store = λ q. deliver (Server.afs_store P uninit root_path q);
    fetch = λ q. deliver (Server.afs_fetch P uninit root_path q);
    getattr = λ q. deliver (Server.afs_getattr P uninit root_path q);
    unlink = λ q. deliver (Server.afs_unlink P uninit root_path q);
    chmod = λ q. deliver (Server.afs_chmod P uninit root_path q);
    mkdir = λ q. deliver (Server.afs_mkdir P uninit root_path q);
    rmdir = λ q. deliver (Server.afs_rmdir P uninit root_path q);
    ls = λ q. deliver_stream (Server.afs_ls P uninit root_path q);
    errno_after = λ n e. e;
  }
