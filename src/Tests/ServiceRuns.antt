-- ===== src/Tests/ServiceRuns.antt =====
-- A sequence of requests to the server, and what the service promises for it.
use afs_like_file_system.Common.{
  Bool, true, ℕ, ◌≡◌, ◌<◌, ◌^◌, ◌∙◌, refl, sym, ap, List, [], ◌∷◌, Option, none, some, Bool-cases,
  inl, inr, pos, length, arith,
}
use afs_like_file_system.Machine.{Bytes}
use afs_like_file_system.Paths.{get_server_path}
use afs_like_file_system.Posix.Laws.{same_bytes, same_bytes_iff}
use afs_like_file_system.Posix.Changes.{text_of, text_at, SameOpened}
use afs_like_file_system.Server.Process.{Host}
use afs_like_file_system.Server.Service.{
  Request, create, store, fetch, getattr, unlink, finished, file, size, refused, serve_all, Store,
  promise, promise_all,
}
use afs_like_file_system.Server.Refinement.{serve_all-refines}
use afs_like_file_system.Server.Tracking.{Tracks}
use afs_like_file_system.Tests.Memory.{Memory, memory, view, memory-IsHealthy, zeroed}
use afs_like_file_system.Tests.Stage.{root, file_a, new, older, server_disk}

-- "/b"
abbrev file_b : Bytes
file_b = b'/' ∷ b'b' ∷ []

abbrev requests : List Request
requests =
    fetch file_a
    ∷ store file_a new
    ∷ fetch file_a
    ∷ create file_b
    ∷ getattr file_b
    ∷ unlink file_a
    ∷ fetch file_a
    ∷ unlink file_a
    ∷ []

abbrev host : Host Memory
host = record { os = server_disk; error_number = 0 }

abbrev texts : Store
texts = text_at (view server_disk)

-- A flat disk: every path is a place for a file.
abbrev everywhere : Bytes → Bool
everywhere p = true

path_lem :
    (p : Bytes) (i : ℕ) → (view server_disk).entry p ≡ some i → p ≡ b'/' ∷ b's' ∷ b'/' ∷ b'a' ∷ []
path_lem p i e = elim (Bool-cases (same_bytes p (b'/' ∷ b's' ∷ b'/' ∷ b'a' ∷ []))) [
  | inl same ↦ (same_bytes_iff p (b'/' ∷ b's' ∷ b'/' ∷ b'a' ∷ [])).0 same
  | inr other ↦ absurd (let gone : none ≡ some i = rw other at e in cc)
]

disk-Tracks : Tracks everywhere (view server_disk) texts
disk-Tracks = record {
  places = λ q. refl;
  texts = λ q. refl;
  alone = λ p q i ep eq. path_lem p i ep ∙ sym (path_lem q i eq);
  short = λ q b e. by_entry b ((view server_disk).entry q) e;
}
  where
    by_entry : (b : Bytes) (o : Option ℕ) → text_of (λ i. older) o ≡ some b → length b < 2 ^ 31
    by_entry b none e = absurd cc
    by_entry b (some i) e =
        let same : older ≡ b = cc in let sized : 5 ≡ length b = ap length same in omega arith

promised :
    (promise_all root requests texts).0
    ≡ file (pos 5) older
      ∷ finished
      ∷ file (pos 3) new
      ∷ finished
      ∷ size (pos 0)
      ∷ finished
      ∷ refused
      ∷ refused
      ∷ []
unfolding promise_all promise get_server_path same_bytes
promised = refl

serve_all-refines_example :
    let (answers, host') = serve_all memory zeroed root requests host in
    (answers ≡ (promise_all root requests texts).0)
    × Tracks everywhere (view host'.os) (promise_all root requests texts).1
    × SameOpened (view server_disk) (view host'.os)
serve_all-refines_example =
    serve_all-refines memory view memory-IsHealthy zeroed root everywhere requests host texts
      disk-Tracks (refl, ((refl, omega arith), (refl, (refl, (refl, (refl, (refl, (refl, tt))))))))
