-- ===== src/Server/Threads/Invariant.antt =====
-- What every turn keeps, on a server whose disk works: the file, its content, and the descriptors
-- of the two threads.
use afs_like_file_system.Common.{
  ℕ, ◌≡◌, ◌≢◌, ◌∙◌, refl, sym, ap, [], Option, none, some, false, ℤ, pos, ◌==ℤ◌, ==ℤ_iff,
  Bool-cases, if◌then◌else◌, ◌⊎◌, inl, inr, length, take,
}
use afs_like_file_system.Machine.{Bytes, fill, to_i32}
use afs_like_file_system.Posix.{o_rdwr, Indeterminate, Stat}
use afs_like_file_system.Posix.Laws.{Files, Descriptor}
use afs_like_file_system.Protocol.{status_ok}
use afs_like_file_system.Server.Threads.{
  StoreThread, FetchThread, store_open, store_write, store_lstat, store_close, store_end,
  fetch_open, fetch_fstat, fetch_lseek, fetch_read, fetch_again, fetch_close, fetch_end,
}

-- What the file holds at some time: its old bytes, nothing, or the new ones.
pub data IsVersion (old new : Bytes) : Bytes → Type 0 where
  as_before : IsVersion old new old
  emptied : IsVersion old new []
  as_stored : IsVersion old new new

abbrev pub store_descriptor : StoreThread → Option ℕ
store_descriptor store_open = none
store_descriptor (store_write d) = some d
store_descriptor (store_lstat d) = some d
store_descriptor (store_close d st) = some d
store_descriptor (store_end r) = none

abbrev pub fetch_descriptor : FetchThread → Option ℕ
fetch_descriptor fetch_open = none
fetch_descriptor (fetch_fstat d) = some d
fetch_descriptor (fetch_lseek d st) = some d
fetch_descriptor (fetch_read d st) = some d
fetch_descriptor (fetch_again d st b) = some d
fetch_descriptor (fetch_close d st b st') = some d
fetch_descriptor (fetch_end r) = none

pos-injective : (d e : ℕ) → pos d ≡ pos e → d ≡ e
pos-injective d e h = cc

pub other_number : (d e : ℕ) → d ≢ e → (pos e ==ℤ pos d) ≡ false
other_number d e h = elim (Bool-cases (pos e ==ℤ pos d)) [
  | inl t ↦ absurd (h (sym (pos-injective e d ((==ℤ_iff (pos e) (pos d)).0 t))))
  | inr t ↦ t
]

module _ (uninit : Indeterminate) (old new : Bytes) (i : ℕ) where
  -- The descriptor is open on the file.
  abbrev pub OpenAt : Files → ℕ → ℕ → Type 0
  OpenAt f d at =
      f.opened (pos d) ≡ some (record { ino = i; offset = at; append = false; access = o_rdwr })

  abbrev pub StoreOk : StoreThread → Files → Type 0
  StoreOk store_open f = f.content i ≡ old
  StoreOk (store_write d) f = (f.content i ≡ []) × OpenAt f d 0
  StoreOk (store_lstat d) f = (f.content i ≡ new) × (at : ℕ) × OpenAt f d at
  StoreOk (store_close d st) f = (f.content i ≡ new) × (at : ℕ) × OpenAt f d at
  StoreOk (store_end r) f = (f.content i ≡ new) × (r.0 ≡ status_ok) × (r.1.error ≡ pos 0)

  -- The size was that of one version.
  abbrev pub Sized : Stat → Type 0
  Sized info = (seen : Bytes) × IsVersion old new seen × (info.st_size ≡ length seen)

  -- The bytes are those of one version, cut at the size of another, over what malloc gave.
  abbrev pub Mixed : ℕ → Bytes → Type 0
  Mixed size buf =
      (seen read : Bytes) × IsVersion old new seen
      × IsVersion old new read
      × (size ≡ length seen)
      × (buf ≡ fill (take size read) (uninit.malloc size))

  abbrev pub FetchOk : FetchThread → Files → Type 0
  FetchOk fetch_open f = Unit
  FetchOk (fetch_fstat d) f = OpenAt f d 0
  FetchOk (fetch_lseek d info) f = OpenAt f d 0 × Sized info
  FetchOk (fetch_read d info) f = OpenAt f d 0 × Sized info
  FetchOk (fetch_again d info buf) f = ((at : ℕ) × OpenAt f d at) × Mixed info.st_size buf
  FetchOk (fetch_close d info buf stats) f = ((at : ℕ) × OpenAt f d at) × Mixed info.st_size buf
  FetchOk (fetch_end r) f =
      (r.0 ≡ status_ok)
      × (r.1.error ≡ pos 0)
      × (size : ℕ) × (r.1.size ≡ to_i32 size)
      × Mixed size r.1.buf

  -- A version is in the file at all times.
  pub StoreOk-IsVersion :
      (t : StoreThread) (f : Files) → StoreOk t f → IsVersion old new (f.content i)
  StoreOk-IsVersion store_open f h = rw h as_before
  StoreOk-IsVersion (store_write d) f h = rw h.0 emptied
  StoreOk-IsVersion (store_lstat d) f h = rw h.0 as_stored
  StoreOk-IsVersion (store_close d st) f h = rw h.0 as_stored
  StoreOk-IsVersion (store_end r) f h = rw h.0 as_stored

  -- A change that leaves the thread's descriptor, and the file for STORE, is no matter to it.
  pub StoreOk-frame :
      (t : StoreThread) (f f' : Files)
      → f'.content i ≡ f.content i
      → ((d : ℕ) → store_descriptor t ≡ some d → f'.opened (pos d) ≡ f.opened (pos d))
      → StoreOk t f
      → StoreOk t f'
  StoreOk-frame store_open f f' c o h = c ∙ h
  StoreOk-frame (store_write d) f f' c o h = (c ∙ h.0, o d refl ∙ h.1)
  StoreOk-frame (store_lstat d) f f' c o (text, at, held) = (c ∙ text, at, o d refl ∙ held)
  StoreOk-frame (store_close d st) f f' c o (text, at, held) = (c ∙ text, at, o d refl ∙ held)
  StoreOk-frame (store_end r) f f' c o h = (c ∙ h.0, h.1, h.2)

  pub FetchOk-frame :
      (t : FetchThread) (f f' : Files)
      → ((d : ℕ) → fetch_descriptor t ≡ some d → f'.opened (pos d) ≡ f.opened (pos d))
      → FetchOk t f
      → FetchOk t f'
  FetchOk-frame fetch_open f f' o h = tt
  FetchOk-frame (fetch_fstat d) f f' o h = o d refl ∙ h
  FetchOk-frame (fetch_lseek d info) f f' o h = (o d refl ∙ h.0, h.1)
  FetchOk-frame (fetch_read d info) f f' o h = (o d refl ∙ h.0, h.1)
  FetchOk-frame (fetch_again d info buf) f f' o ((at, held), h) = ((at, o d refl ∙ held), h)
  FetchOk-frame (fetch_close d info buf st) f f' o ((at, held), h) = ((at, o d refl ∙ held), h)
  FetchOk-frame (fetch_end r) f f' o h = h

  -- What is open stays so when another descriptor changes.
  pub StoreOk-opened :
      (t : StoreThread) (f : Files) (d : ℕ)
      → StoreOk t f
      → store_descriptor t ≡ some d
      → f.opened (pos d) ≢ none
  StoreOk-opened store_open f d h e free = cc
  StoreOk-opened (store_write x) f d h e free = let o = h.1 in cc
  StoreOk-opened (store_lstat x) f d (text, at, held) e free = cc
  StoreOk-opened (store_close x st) f d (text, at, held) e free = cc
  StoreOk-opened (store_end r) f d h e free = cc

  pub FetchOk-opened :
      (t : FetchThread) (f : Files) (d : ℕ)
      → FetchOk t f
      → fetch_descriptor t ≡ some d
      → f.opened (pos d) ≢ none
  FetchOk-opened fetch_open f d h e free = cc
  FetchOk-opened (fetch_fstat x) f d h e free = cc
  FetchOk-opened (fetch_lseek x info) f d h e free = let o = h.0 in cc
  FetchOk-opened (fetch_read x info) f d h e free = let o = h.0 in cc
  FetchOk-opened (fetch_again x info buf) f d ((at, held), h) e free = cc
  FetchOk-opened (fetch_close x info buf st) f d ((at, held), h) e free = cc
  FetchOk-opened (fetch_end r) f d h e free = cc

-- A step that changes at most the descriptors of its own thread. `own` and `own'` are the
-- descriptors of the thread before and after it.
pub record OwnStep (f f' : Files) (own own' : Option ℕ) : Type 0 where
  pub frame :
      (e : ℕ) → f.opened (pos e) ≢ none → own ≢ some e → f'.opened (pos e) ≡ f.opened (pos e)
  pub gained : (e : ℕ) → own' ≡ some e → (own ≡ some e) ⊎ (f.opened (pos e) ≡ none)

pub OwnStep-same : (f f' : Files) (own : Option ℕ) → f' ≡ f → OwnStep f f' own own
OwnStep-same f f' own v = record { frame = λ e held other. rw v; gained = λ e h. inl h }

module _ (f f' : Files) (d : ℕ) (o : Option Descriptor)
    (changed : (e : ℤ) → f'.opened e ≡ (if e ==ℤ pos d then o else f.opened e)) where
  unchanged : (e : ℕ) → d ≢ e → f'.opened (pos e) ≡ f.opened (pos e)
  unchanged e h = changed (pos e) ∙ rw (other_number d e h)

  pub OwnStep-set : OwnStep f f' (some d) (some d)
  OwnStep-set = record {
    frame = λ e held other. unchanged e (λ h. other (ap some h));
    gained = λ e h. inl h;
  }

  pub OwnStep-closed : OwnStep f f' (some d) none
  OwnStep-closed = record {
    frame = λ e held other. unchanged e (λ h. other (ap some h));
    gained = λ e h. cc;
  }

  pub OwnStep-opened : f.opened (pos d) ≡ none → OwnStep f f' none (some d)
  OwnStep-opened free = record {
    frame =
        λ e held other. unchanged e (λ h. held (ap (λ (n : ℕ). f.opened (pos n)) (sym h) ∙ free));
    gained = λ e h. inr (opened_free e h);
  }
    where
      opened_free : (e : ℕ) → some d ≡ some e → f.opened (pos e) ≡ none
      opened_free e h = cc
