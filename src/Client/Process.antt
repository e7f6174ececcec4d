-- ===== src/Client/Process.antt =====
-- The client's process: its file system, the connection, `errno`, the hash table of the header, the
-- two members of `AfsClient`, and the pauses that it has made. A step may end the process.
use afs_like_file_system.Common.{
  ◌≡◌, refl, ℕ, List, [], ◌∷◌, Option, none, some, Bool, true, false, ℤ,
}
use afs_like_file_system.Machine.{Bytes}
use afs_like_file_system.Paths.{get_local_path}
use afs_like_file_system.Cache.Table.{Table, put, get}
use afs_like_file_system.Cache.Database.{dump_text, load_text}
use afs_like_file_system.Posix.{Sys, done, failed, Posix}
use afs_like_file_system.Protocol.{
  PathReq, ModeReq, StoreReq, CreateRes, StoreRes, ErrorRes, FetchReply, LsRes, GetattrRes,
}

-- The stub that gRPC generates. A call gives the reply if its status is OK; otherwise the reply that
-- the caller holds is left as it was. `afs_ls` gives the messages that were read and whether the
-- final status is OK. `errno_after` is what the call leaves in `errno`.
pub record Stub : Type 1 where
  pub Net : Type 0
  pub create : PathReq → Net → Option CreateRes × Net
  pub store : StoreReq → Net → Option StoreRes × Net
  pub fetch : PathReq → Net → Option FetchReply × Net
  pub getattr : PathReq → Net → Option GetattrRes × Net
  pub unlink : PathReq → Net → Option ErrorRes × Net
  pub chmod : ModeReq → Net → Option ErrorRes × Net
  pub mkdir : ModeReq → Net → Option ErrorRes × Net
  pub rmdir : PathReq → Net → Option ErrorRes × Net
  pub ls : PathReq → Net → (List LsRes × Bool) × Net
  pub errno_after : Net → ℕ → ℕ

pub record Client (Os Net : Type 0) : Type 0 where
  pub os : Os
  pub net : Net
  pub error_number : ℕ
  pub ht : Table
  pub retries : ℕ
  pub interval : ℕ
  pub sleeps : List ℕ

-- `crash`: undefined behaviour or an uncaught exception. `spent`: the fuel of a loop ran out.
pub data Outcome (S A : Type 0) : Type 0 where
  ok : A → S → Outcome S A
  crash : Outcome S A
  spent : Outcome S A

abbrev pub M : Type 0 → Type 0 → Type 0 → Type 0
M Os Net A = Client Os Net → Outcome (Client Os Net) A

-- The operations of the monad are shut, so that proofs can go by the way a step is built; opening
-- `◌>>=◌` opens them all.
module _ {Os Net : Type 0} where
  unfoldable pub pure : {A : Type 0} → A → M Os Net A
  pure a c = ok a c

  -- `none ↦ absent | some a ↦ present a`
  unfoldable pub option_case :
      {A B : Type 0} → Option A → M Os Net B → (A → M Os Net B) → M Os Net B
  option_case none absent present = absent
  option_case (some a) absent present = present a

  unfoldable pub errno : M Os Net ℕ
  errno c = ok c.error_number c

  abbrev pub settle : {A : Type 0} → Sys A × Os → M Os Net (Option A)
  settle (done a, s) c = ok (some a) (record c { os = s })
  settle (failed e, s) c = ok none (record c { os = s; error_number = e })

  -- A system call; `none` is -1, with `errno` set.
  unfoldable pub call : {A : Type 0} → (Os → Sys A × Os) → M Os Net (Option A)
  call f c = settle (f c.os) c

  unfoldable pub get_mtime : Bytes → M Os Net ℤ
  get_mtime path c = ok (get c.ht path) c

  unfoldable pub put_mtime : ℤ → ℤ → M Os Net (Unit {0})
  put_mtime key timestamp c = ok tt (record c { ht = put c.ht key timestamp })

  -- `throw`, or undefined behaviour.
  unfoldable pub abort : {A : Type 0} → M Os Net A
  abort c = crash

-- A call of the stub; `none` is a status other than OK.
unfoldable pub rpc : {Os A : Type 0} (R : Stub) → (R.Net → Option A × R.Net) → M Os R.Net (Option A)
rpc R f c =
    let (reply, n) = f c.net in
    ok reply (record c { net = n; error_number = R.errno_after n c.error_number })

-- A call that streams: all its messages, and whether its final status is OK.
unfoldable pub rpc_stream : {Os A : Type 0} (R : Stub) → (R.Net → A × R.Net) → M Os R.Net A
rpc_stream R f c =
    let (stream, n) = f c.net in
    ok stream (record c { net = n; error_number = R.errno_after n c.error_number })

module _ {Os Net : Type 0} where
  infixl 5 ◌>>=◌ ◌>>◌
  unfoldable pub ◌>>=◌ : {A B : Type 0} → M Os Net A → (A → M Os Net B) → M Os Net B
  unfolding pure option_case errno call get_mtime put_mtime abort rpc rpc_stream
  ◌>>=◌ m f c = elim (m c) [ ok a c' ↦ f a c' | crash ↦ crash | spent ↦ spent ]

  abbrev pub ◌>>◌ : {B : Type 0} → M Os Net (Unit {0}) → M Os Net B → M Os Net B
  m >> k = m >>= λ _. k

-- "/database.txt"
abbrev pub database_path : Bytes
database_path =
    b'/' ∷ b'd' ∷ b'a' ∷ b't' ∷ b'a' ∷ b'b' ∷ b'a' ∷ b's' ∷ b'e' ∷ b'.' ∷ b't' ∷ b'x' ∷ b't' ∷ []

module _ (P : Posix) {Net : Type 0} where
  unfoldable pub settle_dump : Bool × P.State → M P.State Net (Unit {0})
  settle_dump (true, s) c = ok tt (record c { os = s })
  settle_dump (false, s) c = crash

  -- `dump`: the whole table is written over the database file. It does not test the stream, which is
  -- null if the file cannot be opened.
  unfoldable pub dump : Bytes → M P.State Net (Unit {0})
  unfolding settle_dump
  dump cache_path c =
      let client_path = get_local_path database_path cache_path in
      settle_dump (P.fopen_write client_path (dump_text c.ht) c.os) c

  unfoldable pub settle_load : Option Bytes × P.State → M P.State Net (Unit {0})
  settle_load (none, s) c = ok tt (record c { os = s })
  settle_load (some content, s) c = elim (load_text content c.ht) [
    | none ↦ crash
    | some ht' ↦ ok tt (record c { os = s; ht = ht' })
  ]

  unfoldable pub read_from_database : Bytes → M P.State Net (Unit {0})
  unfolding settle_load
  read_from_database cache_path c =
      let client_path = get_local_path database_path cache_path in
      settle_load (P.fopen_read client_path c.os) c

module _ {Os Net A B : Type 0} where
  -- A step whose first part is known to return goes on with its second.
  pub bind-ok :
      (m : M Os Net A) (f : A → M Os Net B) (c c' : Client Os Net) (a : A)
      → m c ≡ ok a c'
      → (m >>= f) c ≡ f a c'
  unfolding ◌>>=◌
  bind-ok m f c c' a e = rw (e, ◌>>=◌)

module _ {Os Net A : Type 0} where
  pub call-done :
      (f : Os → Sys A × Os) (c : Client Os Net) {a : A} {os : Os}
      → f c.os ≡ (done a, os)
      → call f c ≡ ok (some a) (record c { os = os })
  unfolding call
  call-done f c e = rw e

  pub call-failed :
      (f : Os → Sys A × Os) (c : Client Os Net) {e : ℕ} {os : Os}
      → f c.os ≡ (failed e, os)
      → call f c ≡ ok none (record c { os = os; error_number = e })
  unfolding call
  call-failed f c e = rw e

module _ (P : Posix) {Net : Type 0} where
  pub dump-done :
      (cache_path : Bytes) (c : Client P.State Net) {os : P.State}
      → P.fopen_write (get_local_path database_path cache_path) (dump_text c.ht) c.os ≡ (true, os)
      → dump P cache_path c ≡ ok tt (record c { os = os })
  unfolding dump settle_dump
  dump-done cache_path c e = rw e

pub put_mtime-done :
    {Os Net : Type 0} (c : Client Os Net) (key timestamp : ℤ)
    → put_mtime key timestamp c ≡ ok tt (record c { ht = put c.ht key timestamp })
unfolding put_mtime
put_mtime-done c key timestamp = refl

pub rpc-done :
    {Os A : Type 0} (R : Stub) (f : R.Net → Option A × R.Net) (c : Client Os R.Net)
    {reply : Option A} {net : R.Net}
    → f c.net ≡ (reply, net)
    → rpc R f c ≡ ok reply (record c { net = net; error_number = R.errno_after net c.error_number })
unfolding rpc
rpc-done R f c e = rw e
