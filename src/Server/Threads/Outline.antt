-- ===== src/Server/Threads/Outline.antt =====
-- Two calls of STORE as two steps each, one that empties the file and one that writes at its start.
use afs_like_file_system.Common.{◌≡◌, refl, List, [], ◌∷◌, ◌⊎◌, inl, inr}
use afs_like_file_system.Machine.{Bytes}
use afs_like_file_system.Posix.Laws.{splice}
use afs_like_file_system.Server.Threads.Pair.{Side, first_turn, second_turn}
use afs_like_file_system.Server.Threads.Stages.{
  whole, Stage, waiting, emptied, written, next_stage, next_text,
}

-- The two calls without their descriptors: how far each is, and the bytes of the file.
pub record Outline : Type 0 where
  pub one : Stage
  pub other : Stage
  pub text : Bytes

module _ (a b : Bytes) where
  unfoldable pub outline_turn : Side → Outline → Outline
  outline_turn first_turn m = record m { one = next_stage m.one; text = next_text a m.one m.text }
  outline_turn second_turn m = record m {
    other = next_stage m.other;
    text = next_text b m.other m.text;
  }

  unfoldable pub outline_run : List Side → Outline → Outline
  outline_run [] m = m
  outline_run (t ∷ turns) m = outline_run turns (outline_turn t m)

  -- The bytes of the first call or of the second, or those of one over the start of the other's.
  pub data IsOutcome : Bytes → Type 0 where
    all_first : IsOutcome a
    all_second : IsOutcome b
    first_over_second : IsOutcome (splice b 0 a)
    second_over_first : IsOutcome (splice a 0 b)

  abbrev pub Possible : Stage → Stage → Bytes → Type 0
  Possible waiting y t = Unit
  Possible emptied waiting t = Unit
  Possible emptied emptied t = t ≡ []
  Possible emptied written t = (t ≡ []) ⊎ (t ≡ b)
  Possible written waiting t = Unit
  Possible written emptied t = (t ≡ []) ⊎ (t ≡ a)
  Possible written written t = IsOutcome t

  Possible-first :
      (x y : Stage) (t : Bytes) → Possible x y t → Possible (next_stage x) y (next_text a x t)
  Possible-first waiting waiting t h = tt
  Possible-first waiting emptied t h = refl
  Possible-first waiting written t h = inl refl
  Possible-first emptied waiting t h = tt
  Possible-first emptied emptied t h = inr (rw h (whole a))
  Possible-first emptied written t (inl h) = rw (h, whole a) all_first
  Possible-first emptied written t (inr h) = rw h first_over_second
  Possible-first written waiting t h = tt
  Possible-first written emptied t h = h
  Possible-first written written t h = h

  Possible-second :
      (x y : Stage) (t : Bytes) → Possible x y t → Possible x (next_stage y) (next_text b y t)
  Possible-second waiting y t h = tt
  Possible-second emptied waiting t h = refl
  Possible-second emptied emptied t h = inr (rw h (whole b))
  Possible-second emptied written t h = h
  Possible-second written waiting t h = inl refl
  Possible-second written emptied t (inl h) = rw (h, whole b) all_second
  Possible-second written emptied t (inr h) = rw h second_over_first
  Possible-second written written t h = h

  pub Possible-run :
      (turns : List Side) (m : Outline)
      → Possible m.one m.other m.text
      → let m' = outline_run turns m in Possible m'.one m'.other m'.text
  unfolding outline_run outline_turn
  Possible-run [] m h = h
  Possible-run (first_turn ∷ turns) m h =
      Possible-run turns _ (Possible-first m.one m.other m.text h)
  Possible-run (second_turn ∷ turns) m h =
      Possible-run turns _ (Possible-second m.one m.other m.text h)

  -- The first call has written its bytes where the second one had emptied the file.
  abbrev pub AfterFirst : Stage → Stage → Bytes → Type 0
  AfterFirst waiting y t = ⊥
  AfterFirst emptied y t = ⊥
  AfterFirst written waiting t = ⊥
  AfterFirst written emptied t = t ≡ a
  AfterFirst written written t = t ≡ splice a 0 b

  AfterFirst-first :
      (x y : Stage) (t : Bytes) → AfterFirst x y t → AfterFirst (next_stage x) y (next_text a x t)
  AfterFirst-first waiting y t h = absurd h
  AfterFirst-first emptied y t h = absurd h
  AfterFirst-first written y t h = h

  AfterFirst-second :
      (x y : Stage) (t : Bytes) → AfterFirst x y t → AfterFirst x (next_stage y) (next_text b y t)
  AfterFirst-second waiting y t h = absurd h
  AfterFirst-second emptied y t h = absurd h
  AfterFirst-second written waiting t h = absurd h
  AfterFirst-second written emptied t h = rw h refl
  AfterFirst-second written written t h = h

  pub AfterFirst-run :
      (turns : List Side) (m : Outline)
      → AfterFirst m.one m.other m.text
      → let m' = outline_run turns m in AfterFirst m'.one m'.other m'.text
  unfolding outline_run outline_turn
  AfterFirst-run [] m h = h
  AfterFirst-run (first_turn ∷ turns) m h =
      AfterFirst-run turns _ (AfterFirst-first m.one m.other m.text h)
  AfterFirst-run (second_turn ∷ turns) m h =
      AfterFirst-run turns _ (AfterFirst-second m.one m.other m.text h)
