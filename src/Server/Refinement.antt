-- ===== src/Server/Refinement.antt =====
-- The service implements a store of byte strings by path.
use afs_like_file_system.Common.{◌≡◌, ◌∙◌, refl, Bool, List, [], ◌∷◌}
use afs_like_file_system.Machine.{Bytes}
use afs_like_file_system.Posix.{Posix, Indeterminate}
use afs_like_file_system.Posix.Laws.{Files, IsHealthy}
use afs_like_file_system.Posix.Changes.{SameOpened}
use afs_like_file_system.Server.Process.{Host}
use afs_like_file_system.Server.Service.{
  Request, serve, serve_all, Store, promise, promise_all, AllAdmissible,
}
use afs_like_file_system.Server.Served.{request_served}
use afs_like_file_system.Server.Tracking.{Tracks}

module _ (P : Posix) (view : P.State → Files) (healthy : IsHealthy P view) (uninit : Indeterminate)
    (root : Bytes) (placed : Bytes → Bool) where
  -- If the disk of the server works, no two paths share a file and none has 2 ^ 31 bytes or more,
  -- then for any sequence of requests to create, store, fetch, stat and unlink, that stores nothing
  -- of 2 ^ 31 bytes or more and names only places for files (plainly spelled, no directory, and in
  -- a directory that is there), the answers are those of a store that maps each path, as the server
  -- names it, to its bytes. Afterwards the files are again those of the store, and the descriptors
  -- that are open are those that were open before.
  pub serve_all-refines :
      (rs : List Request) (h : Host P.State) (m : Store)
      → Tracks placed (view h.os) m
      → AllAdmissible root placed rs
      → ((serve_all P uninit root rs h).0 ≡ (promise_all root rs m).0)
        × Tracks placed (view (serve_all P uninit root rs h).1.os) (promise_all root rs m).1
        × SameOpened (view h.os) (view (serve_all P uninit root rs h).1.os)
  unfolding serve_all promise_all
  serve_all-refines [] h m tracked small = (refl, tracked, λ fd. refl)
  serve_all-refines (r ∷ rs) h m tracked (small, rest) =
      let h1 = (serve P uninit root r h).1 in
      let m1 = (promise root r m).1 in
      let served = request_served P view healthy uninit root placed r h m tracked small in
      let (answers, tracks, shut) = serve_all-refines rs h1 m1 served.tracks rest in
      (rw (served.answers, answers) refl, tracks, λ fd. shut fd ∙ served.shut fd)
