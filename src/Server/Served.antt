-- ===== src/Server/Served.antt =====
-- The handlers keep the promise of the service, one request at a time.
use afs_like_file_system.Common.{
  ℕ, ◌<◌, ◌^◌, ◌≡◌, ◌∙◌, refl, ap, [], Bool, true, Option, none, some, length, arith,
}
use afs_like_file_system.Machine.{Bytes}
use afs_like_file_system.Paths.{get_server_path}
use afs_like_file_system.Posix.{done, create_trunc_rdwr, mode_770, Posix, Indeterminate}
use afs_like_file_system.Posix.Laws.{Files, IsHealthy, Vacant, same_bytes_refl}
use afs_like_file_system.Posix.Changes.{SameOpened, Puts}
use afs_like_file_system.Posix.Sessions.{
  Unchanged-trans, Puts-Unchanged, Puts-Rewrites, Opened, opened_at, opens_there, opens_empty,
  opens_created,
}
use afs_like_file_system.Server.{create_rdonly, plain_rdwr}
use afs_like_file_system.Server.Process.{Host}
use afs_like_file_system.Server.Effects.{rest_of_create, rest_of_store, rest_of_fetch}
use afs_like_file_system.Server.RoundTrip.{fetch_run, store_run}
use afs_like_file_system.Server.Answers.{
  created_reply, missing_reply, attributes_found, attributes_missing, unlink_reply,
  unlink_missing_reply,
}
use afs_like_file_system.Server.Service.{
  Request, create, store, fetch, getattr, unlink, serve, Store, promise, Admissible,
}
use afs_like_file_system.Server.Tracking.{
  Tracks, Tracks-Unchanged, Tracks-Puts, Tracks-Drops, Tracks-same, none_there, text_there,
}

module _ (P : Posix) (view : P.State → Files) (healthy : IsHealthy P view) (uninit : Indeterminate)
    (root : Bytes) (placed : Bytes → Bool) where
  -- One request answers as the store does, leaves the files those of the store after it, and no
  -- descriptor open.
  pub record Served (r : Request) (h : Host P.State) (m : Store) : Type 0 where
    pub answers : (serve P uninit root r h).0 ≡ (promise root r m).0
    pub tracks : Tracks placed (view (serve P uninit root r h).1.os) (promise root r m).1
    pub shut : SameOpened (view h.os) (view (serve P uninit root r h).1.os)

  module _ (h : Host P.State) (m : Store) (tracked : Tracks placed (view h.os) m) (path : Bytes)
      (in_place : placed (get_server_path path root) ≡ true) where
    abbrev f : Files
    f = view h.os

    abbrev key : Bytes
    key = get_server_path path root

    vacant : (view h.os).entry key ≡ none → Vacant (view h.os) key
    vacant there = (there, tracked.places key ∙ in_place)

    create_served : (e : Option ℕ) → (view h.os).entry key ≡ e → Served (create path) h m
    unfolding serve promise
    create_served none there =
        let (d, i, s1, e1, puts, session) =
          opens_created P view healthy h.os key create_rdonly mode_770 (vacant there) refl in
        let here : (view s1).entry key ≡ some i = puts.entries key ∙ rw (same_bytes_refl key) in
        let (st, s2, s3, e2, e3, same, shut, timed) =
          rest_of_create P view healthy key f d i s1 here session in
        let ran = created_reply P uninit root path h e1 e2 e3 in
        let puts3 = Puts-Unchanged f (view s1) (view s3) key i [] puts same in
        record {
          answers = rw ran refl;
          tracks =
              rw (ran, none_there placed f f m tracked key there)
                (Tracks-Puts placed f (view s3) m tracked key i [] puts3 (omega arith));
          shut = rw ran shut;
        }
    create_served (some i) there =
        let (d, s1, e1, same1, session) =
          opens_there P view healthy h.os key create_rdonly mode_770 i there refl in
        let here : (view s1).entry key ≡ some i = same1.entries key ∙ there in
        let (st, s2, s3, e2, e3, same, shut, timed) =
          rest_of_create P view healthy key f d i s1 here session in
        let ran = created_reply P uninit root path h e1 e2 e3 in
        let text = text_there placed f f m tracked key i there in
        let same3 = Unchanged-trans f (view s1) (view s3) same1 same in
        record {
          answers = rw ran refl;
          tracks =
              rw (ran, text)
                (Tracks-same placed (view s3) (view s3) m
                  (Tracks-Unchanged placed f (view s3) m tracked same3) key (some (f.content i))
                  text);
          shut = rw ran shut;
        }

    stored :
        (buf : Bytes)
        → length buf < 2 ^ 31
        → (d i : ℕ) (s1 : P.State) → P.open_file key create_trunc_rdwr mode_770 h.os ≡ (done d, s1)
        → Puts (view h.os) (view s1) key i []
        → Opened (view h.os) (view s1) d (opened_at create_trunc_rdwr i)
        → Served (store path buf) h m
    unfolding serve promise
    stored buf small d i s1 e1 puts session =
        let here : (view s1).entry key ≡ some i = puts.entries key ∙ rw (same_bytes_refl key) in
        let (st, s2, s3, s4, e2, e3, e4, new, shut, timed) =
          rest_of_store P view healthy key f d i s1 buf here puts.text session in
        let ran = store_run P view healthy uninit root path h buf small e1 e2 e3 e4 in
        let puts4 = Puts-Rewrites f (view s1) (view s4) key i [] buf puts new in
        record {
          answers = rw ran refl;
          tracks = rw ran (Tracks-Puts placed f (view s4) m tracked key i buf puts4 small);
          shut = rw ran shut;
        }

    store_served :
        (buf : Bytes)
        → length buf < 2 ^ 31
        → (e : Option ℕ) → (view h.os).entry key ≡ e
        → Served (store path buf) h m
    unfolding serve promise
    store_served buf small none there =
        let (d, i, s1, e1, puts, session) =
          opens_created P view healthy h.os key create_trunc_rdwr mode_770 (vacant there) refl in
        stored buf small d i s1 e1 puts session
    store_served buf small (some i) there =
        let (d, s1, e1, puts, session) =
          opens_empty P view healthy h.os key create_trunc_rdwr mode_770 i tracked.alone there
            refl in
        stored buf small d i s1 e1 puts session

    getattr_served : (e : Option ℕ) → (view h.os).entry key ≡ e → Served (getattr path) h m
    unfolding serve promise
    getattr_served none there =
        let (s, e, v) = healthy.lstat_missing h.os key (vacant there) in
        let ran = attributes_missing P uninit root path h e in
        record {
          answers = rw (ran, none_there placed f f m tracked key there) refl;
          tracks = rw (ran, v) tracked;
          shut = λ fd. rw (ran, v) refl;
        }
    getattr_served (some i) there =
        let (st, s, e, size, v) = healthy.lstat h.os key i there in
        let ran = attributes_found P uninit root path h e in
        record {
          answers = rw (ran, text_there placed f f m tracked key i there, size) refl;
          tracks = rw (ran, v) tracked;
          shut = λ fd. rw (ran, v) refl;
        }

    unlink_served : (e : Option ℕ) → (view h.os).entry key ≡ e → Served (unlink path) h m
    unfolding serve promise
    unlink_served none there =
        let (s, e, v) = healthy.unlink_missing h.os key (vacant there) in
        let ran = unlink_missing_reply P uninit root path h e in
        let nothing = none_there placed f f m tracked key there in
        record {
          answers = rw (ran, nothing) refl;
          tracks = rw (ran, v) (Tracks-same placed f f m tracked key none nothing);
          shut = λ fd. rw (ran, v) refl;
        }
    unlink_served (some i) there =
        let (s, e, v) = healthy.unlink h.os key i there in
        let ran = unlink_reply P uninit root path h e in
        record {
          answers = rw (ran, text_there placed f f m tracked key i there) refl;
          tracks = rw ran (
              Tracks-Drops placed f (view s) m tracked key (record {
                places = λ q. rw v refl;
                entries = λ q. rw v refl;
                contents = λ k. rw v refl;
              }));
          shut = λ fd. rw (ran, v) refl;
        }

    fetch_served : (e : Option ℕ) → (view h.os).entry key ≡ e → Served (fetch path) h m
    unfolding serve promise
    fetch_served none there =
        let (x, s, e, v) = healthy.open_missing h.os key plain_rdwr 0 (vacant there) refl in
        let ran = missing_reply P uninit root path h e in
        record {
          answers = rw (ran, none_there placed f f m tracked key there) refl;
          tracks = rw (ran, v) tracked;
          shut = λ fd. rw (ran, v) refl;
        }
    fetch_served (some i) there =
        let text = text_there placed f f m tracked key i there in
        let (d, s1, e1, same1, session) =
          opens_there P view healthy h.os key plain_rdwr 0 i there refl in
        let (st, st', s2, s3, s4, s5, s6, e2, e3, e4, e5, e6, size, same, shut, timed) =
          rest_of_fetch P view healthy key f d i s1 session in
        let held : (view s1).content i ≡ f.content i = same1.contents i in
        let ran =
          fetch_run P view healthy uninit root path h (f.content i)
            (tracked.short key (f.content i) text) e1 e2 e3 (rw held at e4) e5 e6
            (size ∙ ap length held) in
        let same6 = Unchanged-trans f (view s1) (view s6) same1 same in
        record {
          answers = rw (ran, text) refl;
          tracks = rw ran (Tracks-Unchanged placed f (view s6) m tracked same6);
          shut = rw ran shut;
        }

  pub request_served :
      (r : Request) (h : Host P.State) (m : Store)
      → Tracks placed (view h.os) m
      → Admissible root placed r
      → Served r h m
  request_served (create path) h m tracked small =
      create_served h m tracked path small ((view h.os).entry (get_server_path path root)) refl
  request_served (store path buf) h m tracked small =
      store_served h m tracked path small.0 buf small.1
        ((view h.os).entry (get_server_path path root)) refl
  request_served (fetch path) h m tracked small =
      fetch_served h m tracked path small ((view h.os).entry (get_server_path path root)) refl
  request_served (getattr path) h m tracked small =
      getattr_served h m tracked path small ((view h.os).entry (get_server_path path root)) refl
  request_served (unlink path) h m tracked small =
      unlink_served h m tracked path small ((view h.os).entry (get_server_path path root)) refl
