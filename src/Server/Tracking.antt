-- ===== src/Server/Tracking.antt =====
-- The files of the server as a store of byte strings by path.
use afs_like_file_system.Common.{
  ℕ, ◌<◌, ◌^◌, ◌≡◌, ◌∙◌, sym, ap, Option, none, some, length, Bool, Bool-cases, inl, inr,
}
use afs_like_file_system.Machine.{Bytes}
use afs_like_file_system.Posix.Laws.{Files, same_bytes, same_bytes_iff}
use afs_like_file_system.Posix.Changes.{
  text_at, update, Alone, Unchanged, Puts, Drops, text_at-Unchanged, Alone-Unchanged, text_at-Puts,
  Alone-Puts, text_at-Drops, Alone-Drops,
}
use afs_like_file_system.Server.Service.{Store}

-- The files are those of the store: each path has its bytes, no two paths share a file, and none is
-- so long that its size would not fit a reply. `placed`: where files can be, which no request of
-- the store changes.
pub record Tracks (placed : Bytes → Bool) (f : Files) (m : Store) : Type 0 where
  pub places : (q : Bytes) → f.place q ≡ placed q
  pub texts : (q : Bytes) → text_at f q ≡ m q
  pub alone : Alone f
  pub short : (q b : Bytes) → m q ≡ some b → length b < 2 ^ 31

module _ (placed : Bytes → Bool) (f f' : Files) (m : Store) (tracks : Tracks placed f m) where
  pub Tracks-Unchanged : Unchanged f f' → Tracks placed f' m
  Tracks-Unchanged same = record {
    places = λ q. same.places q ∙ tracks.places q;
    texts = λ q. text_at-Unchanged f f' same q ∙ tracks.texts q;
    alone = Alone-Unchanged f f' same tracks.alone;
    short = tracks.short;
  }

  update_texts : (p q : Bytes) (v : Option Bytes) → update (text_at f) p v q ≡ update m p v q
  update_texts p q v = rw (tracks.texts q)

  short-update :
      (p : Bytes) (v : Option Bytes)
      → ((b : Bytes) → v ≡ some b → length b < 2 ^ 31)
      → (q b : Bytes) → update m p v q ≡ some b
      → length b < 2 ^ 31
  short-update p v small q b e = elim (Bool-cases (same_bytes q p)) [
    | inl here ↦ small b (rw here at e)
    | inr ne ↦ tracks.short q b (rw ne at e)
  ]

  pub Tracks-Puts :
      (p : Bytes) (i : ℕ) (b : Bytes)
      → Puts f f' p i b
      → length b < 2 ^ 31
      → Tracks placed f' (update m p (some b))
  Tracks-Puts p i b puts small = record {
    places = λ q. puts.places q ∙ tracks.places q;
    texts = λ q. text_at-Puts f f' p i b puts q ∙ update_texts p q (some b);
    alone = Alone-Puts f f' p i b puts tracks.alone;
    short = short-update p (some b) λ b' e. rw (some_injective e) at small;
  }
    where
      some_injective : {k l : Bytes} → some k ≡ some l → k ≡ l
      some_injective e = cc

  pub Tracks-Drops : (p : Bytes) → Drops f f' p → Tracks placed f' (update m p none)
  Tracks-Drops p drops = record {
    places = λ q. drops.places q ∙ tracks.places q;
    texts = λ q. text_at-Drops f f' p drops q ∙ update_texts p q none;
    alone = Alone-Drops f f' p drops tracks.alone;
    short = short-update p none λ b e. absurd (differ e);
  }
    where
      differ : {b : Bytes} → none ≡ some b → ⊥
      differ e = cc

  -- Writing what is there.
  pub Tracks-same : (p : Bytes) (v : Option Bytes) → m p ≡ v → Tracks placed f (update m p v)
  Tracks-same p v e = record {
    places = tracks.places;
    texts = λ q. tracks.texts q ∙ sym (same q);
    alone = tracks.alone;
    short = λ q b there. tracks.short q b (sym (same q) ∙ there);
  }
    where
      same : (q : Bytes) → update m p v q ≡ m q
      same q = elim (Bool-cases (same_bytes q p)) [
        | inl here ↦ rw here (sym e ∙ sym (ap m ((same_bytes_iff q p).0 here)))
        | inr ne ↦ rw ne
      ]

  -- What the store has of a path, by the number of its file.
  pub none_there : (p : Bytes) → f.entry p ≡ none → m p ≡ none
  none_there p e = sym (tracks.texts p) ∙ rw e

  pub text_there : (p : Bytes) (i : ℕ) → f.entry p ≡ some i → m p ≡ some (f.content i)
  text_there p i e = sym (tracks.texts p) ∙ rw e
