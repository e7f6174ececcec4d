-- ===== src/Server/Service.antt =====
-- The service as its clients see it, and what it promises: a store of byte strings by path.
use afs_like_file_system.Common.{
  ◌<◌, ◌^◌, ◌≡◌, Bool, true, List, [], ◌∷◌, Option, none, some, ℤ, pos, ◌==ℤ◌, length,
  if◌then◌else◌,
}
use afs_like_file_system.Machine.{Bytes}
use afs_like_file_system.Paths.{get_server_path}
use afs_like_file_system.Posix.{Posix, Indeterminate}
use afs_like_file_system.Posix.Changes.{update}
use afs_like_file_system.Server.{afs_create, afs_store, afs_getattr, afs_unlink, afs_fetch}
use afs_like_file_system.Server.Process.{Host}

pub data Request : Type 0 where
  create : Bytes → Request
  store : Bytes → Bytes → Request
  fetch : Bytes → Request
  getattr : Bytes → Request
  unlink : Bytes → Request

pub data Answer : Type 0 where
  finished : Answer
  file : ℤ → Bytes → Answer
  size : ℤ → Answer
  refused : Answer

-- A client takes a reply whose error field is 0, and nothing of another.
abbrev pub accept : ℤ → Answer → Answer
accept error answer = if error ==ℤ pos 0 then answer else refused

module _ (P : Posix) (uninit : Indeterminate) (root : Bytes) where
  -- One request, put to its handler.
  unfoldable pub serve : Request → Host P.State → Answer × Host P.State
  serve (create path) h =
      let (answer, h') = afs_create P uninit root (record { path = path }) h in
      (accept answer.1.ack finished, h')
  serve (store path buf) h =
      let (answer, h') =
        afs_store P uninit root (record { path = path; size = pos (length buf); buf = buf }) h in
      (accept answer.1.error finished, h')
  serve (fetch path) h =
      let (answer, h') = afs_fetch P uninit root (record { path = path }) h in
      (accept answer.1.error (file answer.1.size answer.1.buf), h')
  serve (getattr path) h =
      let (answer, h') = afs_getattr P uninit root (record { path = path }) h in
      (accept answer.1.err (size answer.1.size), h')
  serve (unlink path) h =
      let (answer, h') = afs_unlink P uninit root (record { path = path }) h in
      (accept answer.1.error finished, h')

  -- Requests of any clients, in the order in which they come.
  unfoldable pub serve_all : List Request → Host P.State → List Answer × Host P.State
  serve_all [] h = ([], h)
  serve_all (r ∷ rs) h =
      let (answer, h1) = serve r h in let (answers, h2) = serve_all rs h1 in (answer ∷ answers, h2)

-- The bytes of each path, as the server names it.
abbrev pub Store : Type 0
Store = Bytes → Option Bytes

abbrev bytes_or_new : Option Bytes → Bytes
bytes_or_new none = []
bytes_or_new (some text) = text

abbrev pub file_answer : Option Bytes → Answer
file_answer none = refused
file_answer (some text) = file (pos (length text)) text

abbrev pub size_answer : Option Bytes → Answer
size_answer none = refused
size_answer (some text) = size (pos (length text))

abbrev pub drop_answer : Option Bytes → Answer
drop_answer none = refused
drop_answer (some text) = finished

module _ (root : Bytes) where
  -- What a request does to the store, with what it answers. Creating keeps the bytes of a path that
  -- is there.
  unfoldable pub promise : Request → Store → Answer × Store
  promise (create path) m =
      let key = get_server_path path root in (finished, update m key (some (bytes_or_new (m key))))
  promise (store path buf) m = (finished, update m (get_server_path path root) (some buf))
  promise (fetch path) m = (file_answer (m (get_server_path path root)), m)
  promise (getattr path) m = (size_answer (m (get_server_path path root)), m)
  promise (unlink path) m =
      let key = get_server_path path root in (drop_answer (m key), update m key none)

  unfoldable pub promise_all : List Request → Store → List Answer × Store
  promise_all [] m = ([], m)
  promise_all (r ∷ rs) m =
      let (answer, m1) = promise r m in
      let (answers, m2) = promise_all rs m1 in (answer ∷ answers, m2)

-- The request names a place for a file, and stores less than 2 ^ 31 bytes.
module _ (root : Bytes) (placed : Bytes → Bool) where
  abbrev InPlace : Bytes → Type 0
  InPlace path = placed (get_server_path path root) ≡ true

  abbrev pub Admissible : Request → Type 0
  Admissible (create path) = InPlace path
  Admissible (store path buf) = InPlace path × (length buf < 2 ^ 31)
  Admissible (fetch path) = InPlace path
  Admissible (getattr path) = InPlace path
  Admissible (unlink path) = InPlace path

  abbrev pub AllAdmissible : List Request → Type 0
  AllAdmissible [] = Unit
  AllAdmissible (r ∷ rs) = Admissible r × AllAdmissible rs
