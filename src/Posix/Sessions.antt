-- ===== src/Posix/Sessions.antt =====
-- A descriptor from its opening to its closing: what is left of it is what was done to the files.
use afs_like_file_system.Common.{
  ℕ, ◌≡◌, ◌≢◌, ◌∙◌, refl, sym, ap, [], true, false, ◌==◌, ==_iff, none, some, ℤ, pos, ◌==ℤ◌,
  ==ℤ_iff, ==ℤ_refl, Bool-cases, inl, inr, if◌then◌else◌,
}
use afs_like_file_system.Machine.{Bytes}
use afs_like_file_system.Posix.{Posix, OpenFlags, done}
use afs_like_file_system.Posix.Laws.{
  Files, Descriptor, open_view, link_path, set_content, same_bytes, same_bytes_iff, IsHealthy,
  Vacant,
}
use afs_like_file_system.Posix.Changes.{Alone, SameOpened, Unchanged, Puts}

-- File number `i` has the bytes `b`, and nothing else changed.
pub record Rewrites (f f' : Files) (i : ℕ) (b : Bytes) : Type 0 where
  pub places : (q : Bytes) → f'.place q ≡ f.place q
  pub entries : (q : Bytes) → f'.entry q ≡ f.entry q
  pub contents : (k : ℕ) → (k == i) ≡ false → f'.content k ≡ f.content k
  pub text : f'.content i ≡ b

-- The descriptor `d` was free, and is open now.
pub record Opened (f f' : Files) (d : ℕ) (o : Descriptor) : Type 0 where
  pub free : f.opened (pos d) ≡ none
  pub held : f'.opened (pos d) ≡ some o
  pub others : (fd : ℤ) → (fd ==ℤ pos d) ≡ false → f'.opened fd ≡ f.opened fd

pub Unchanged-trans : (f g h : Files) → Unchanged f g → Unchanged g h → Unchanged f h
Unchanged-trans f g h a b = record {
  places = λ q. b.places q ∙ a.places q;
  entries = λ q. b.entries q ∙ a.entries q;
  contents = λ k. b.contents k ∙ a.contents k;
}

pub Puts-Unchanged :
    (f g h : Files) (p : Bytes) (i : ℕ) (b : Bytes)
    → Puts f g p i b
    → Unchanged g h
    → Puts f h p i b
Puts-Unchanged f g h p i b puts same = record {
  places = λ q. same.places q ∙ puts.places q;
  entries = λ q. same.entries q ∙ puts.entries q;
  contents = λ k ne. same.contents k ∙ puts.contents k ne;
  text = same.contents i ∙ puts.text;
  own = puts.own;
}

pub Puts-Rewrites :
    (f g h : Files) (p : Bytes) (i : ℕ) (b b' : Bytes)
    → Puts f g p i b
    → Rewrites g h i b'
    → Puts f h p i b'
Puts-Rewrites f g h p i b b' puts new = record {
  places = λ q. new.places q ∙ puts.places q;
  entries = λ q. new.entries q ∙ puts.entries q;
  contents = λ k ne. new.contents k ne ∙ puts.contents k ne;
  text = new.text;
  own = puts.own;
}

-- Opening another descriptor leaves one that was open.
pub Opened-kept :
    (f g : Files) (d : ℕ) (o o' : Descriptor) (fd : ℤ)
    → Opened f g d o
    → f.opened fd ≡ some o'
    → g.opened fd ≡ some o'
Opened-kept f g d o o' fd session held = elim (Bool-cases (fd ==ℤ pos d)) [
  | inl same ↦
      let here : f.opened fd ≡ none = rw ((==ℤ_iff fd (pos d)).0 same) session.free in absurd cc
  | inr ne ↦ session.others fd ne ∙ held
]

-- Closing the one descriptor that was opened.
SameOpened-closed :
    (f g h : Files) (d : ℕ) (o : Descriptor)
    → Opened f g d o
    → ((fd : ℤ) → h.opened fd ≡ (if fd ==ℤ pos d then none else g.opened fd))
    → SameOpened f h
SameOpened-closed f g h d o session shut fd = elim (Bool-cases (fd ==ℤ pos d)) [
  | inl here ↦
      let at : fd ≡ pos d = (==ℤ_iff fd (pos d)).0 here in
      shut fd ∙ rw here (rw at (sym session.free))
  | inr other ↦ shut fd ∙ rw other (session.others fd other)
]

abbrev pub opened_at : OpenFlags → ℕ → Descriptor
opened_at flags i = record { ino = i; offset = 0; append = flags.append; access = flags.access }

Opened-set :
    (f g : Files) (d : ℕ) (o : Descriptor)
    → f.opened (pos d) ≡ none
    → ((fd : ℤ) → g.opened fd ≡ (if fd ==ℤ pos d then some o else f.opened fd))
    → Opened f g d o
Opened-set f g d o free set = record {
  free = free;
  held = set (pos d) ∙ rw (==ℤ_refl (pos d));
  others = λ fd ne. set fd ∙ rw ne;
}

-- What opening does, read off the view.
module _ (f f' : Files) (p : Bytes) (flags : OpenFlags) (d i : ℕ)
    (free : f.opened (pos d) ≡ none) where
  module _ (v : f' ≡ open_view f d i flags) where
    pub Opened-open : Opened f f' d (opened_at flags i)
    Opened-open =
        Opened-set f f' d (opened_at flags i) free
          λ fd. elim (Bool-cases flags.trunc) [ inl h ↦ rw (v, h) | inr h ↦ rw (v, h) ]

    Unchanged-open : flags.trunc ≡ false → Unchanged f f'
    Unchanged-open kept = record {
      places = λ q. rw (v, kept) refl;
      entries = λ q. rw (v, kept) refl;
      contents = λ k. rw (v, kept) refl;
    }

    Puts-open : Alone f → f.entry p ≡ some i → flags.trunc ≡ true → Puts f f' p i []
    Puts-open alone here cut = record {
      places = λ q. rw (v, cut) refl;
      entries = λ q. rw (v, cut) (kept q);
      contents = λ k ne. rw (v, cut) (rw ne);
      text = rw (v, cut) (rw ((==_iff i i).1 refl));
      own = λ q there. alone q p i there here;
    }
      where
        kept : (q : Bytes) → f.entry q ≡ (if same_bytes q p then some i else f.entry q)
        kept q = elim (Bool-cases (same_bytes q p)) [
          | inl same ↦ rw same (ap f.entry ((same_bytes_iff q p).0 same) ∙ here)
          | inr ne ↦ rw ne
        ]

  module _ (v : f' ≡ open_view (link_path (set_content f i []) p (some i)) d i flags)
      (fresh : (q : Bytes) → f.entry q ≢ some i) where
    Opened-created : Opened f f' d (opened_at flags i)
    Opened-created =
        Opened-set f f' d (opened_at flags i) free
          λ fd. elim (Bool-cases flags.trunc) [ inl h ↦ rw (v, h) | inr h ↦ rw (v, h) ]

    Puts-created : Puts f f' p i []
    Puts-created = elim (Bool-cases flags.trunc) [
      | inl h ↦ record {
        places = λ q. rw (v, h) refl;
        entries = λ q. rw (v, h);
        contents = λ k ne. rw (v, h) (rw ne);
        text = rw (v, h) (rw ((==_iff i i).1 refl));
        own = λ q there. absurd (fresh q there);
      }
      | inr h ↦ record {
        places = λ q. rw (v, h) refl;
        entries = λ q. rw (v, h);
        contents = λ k ne. rw (v, h) (rw ne);
        text = rw (v, h) (rw ((==_iff i i).1 refl));
        own = λ q there. absurd (fresh q there);
      }
    ]

module _ (P : Posix) (view : P.State → Files) (healthy : IsHealthy P view) where
  pub closes :
      (f : Files) (s : P.State) (d : ℕ) (o : Descriptor)
      → Opened f (view s) d o
      → (s' : P.State) × (P.close (pos d) s ≡ (done 0, s'))
        × Unchanged (view s) (view s')
        × SameOpened f (view s')
  closes f s d o session =
      let (s', e, v) = healthy.close s (pos d) o session.held in
      (
        s',
        e,
        record { places = λ q. rw v refl; entries = λ q. rw v refl; contents = λ k. rw v refl },
        SameOpened-closed f (view s) (view s') d o session λ fd. rw v refl,
      )

  -- A file that is there, and that opening does not truncate.
  pub opens_there :
      (s : P.State) (p : Bytes) (flags : OpenFlags) (mode i : ℕ)
      → (view s).entry p ≡ some i
      → flags.trunc ≡ false
      → (d : ℕ) × (s' : P.State) × (P.open_file p flags mode s ≡ (done d, s'))
        × Unchanged (view s) (view s')
        × Opened (view s) (view s') d (opened_at flags i)
  opens_there s p flags mode i here kept =
      let (d, s', e, free, v) = healthy.open_existing s p flags mode i here in
      (
        d,
        s',
        e,
        Unchanged-open (view s) (view s') p flags d i free v kept,
        Opened-open (view s) (view s') p flags d i free v,
      )

  -- A file that is there, and that opening truncates.
  pub opens_empty :
      (s : P.State) (p : Bytes) (flags : OpenFlags) (mode i : ℕ)
      → Alone (view s)
      → (view s).entry p ≡ some i
      → flags.trunc ≡ true
      → (d : ℕ) × (s' : P.State) × (P.open_file p flags mode s ≡ (done d, s'))
        × Puts (view s) (view s') p i []
        × Opened (view s) (view s') d (opened_at flags i)
  opens_empty s p flags mode i alone here cut =
      let (d, s', e, free, v) = healthy.open_existing s p flags mode i here in
      (
        d,
        s',
        e,
        Puts-open (view s) (view s') p flags d i free v alone here cut,
        Opened-open (view s) (view s') p flags d i free v,
      )

  -- A file that opening creates.
  pub opens_created :
      (s : P.State) (p : Bytes) (flags : OpenFlags) (mode : ℕ)
      → Vacant (view s) p
      → flags.creat ≡ true
      → (d i : ℕ) × (s' : P.State) × (P.open_file p flags mode s ≡ (done d, s'))
        × Puts (view s) (view s') p i []
        × Opened (view s) (view s') d (opened_at flags i)
  opens_created s p flags mode nowhere creat =
      let (d, i, s', e, free, fresh, v) = healthy.open_new s p flags mode nowhere creat in
      (
        d,
        i,
        s',
        e,
        Puts-created (view s) (view s') p flags d i free v fresh,
        Opened-created (view s) (view s') p flags d i free v fresh,
      )
