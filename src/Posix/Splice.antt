-- ===== src/Posix/Splice.antt =====
-- Bytes that are put into a file: where they stand, and the end of the file.
use afs_like_file_system.Common.{
  ℕ, zero, suc, ◌+◌, ◌-◌, ◌≡◌, ◌∙◌, refl, ap, List, [], ◌∷◌, ◌++◌, length, take, drop, replicate,
  arith, length-append, length-replicate, length-take, length-drop, ◌<◌, take_all, drop_all,
  append-nil,
}
use afs_like_file_system.Machine.{Bytes}
use afs_like_file_system.Posix.Laws.{splice}

module _ {ℓ} {A : Type ℓ} where
  drop-append : (xs ys : List A) (n : ℕ) → length xs ≡ n → drop n (xs ++ ys) ≡ ys
  drop-append [] ys zero h = refl
  drop-append [] ys (suc n) h = absurd (omega arith)
  drop-append (x ∷ xs) ys zero h = absurd (omega arith)
  drop-append (x ∷ xs) ys (suc n) h = drop-append xs ys n (omega arith)

  take-append : (xs ys : List A) (n : ℕ) → length xs ≡ n → take n (xs ++ ys) ≡ xs
  take-append [] ys zero h = refl
  take-append [] ys (suc n) h = absurd (omega arith)
  take-append (x ∷ xs) ys zero h = absurd (omega arith)
  take-append (x ∷ xs) ys (suc n) h = ap (λ l. x ∷ l) (take-append xs ys n (omega arith))

-- The bytes that were put in stand where they were put.
pub slice-splice : (old b : Bytes) (at : ℕ) → take (length b) (drop at (splice old at b)) ≡ b
slice-splice old b at =
    let front = old ++ replicate (at - length old) 0 in
    let wide : length (take at front) ≡ at = omega (
      arith,
      length-take at front,
      length-append old (replicate (at - length old) 0),
      length-replicate {A = ℕ} (at - length old) 0,
    ) in
    ap (take (length b)) (drop-append (take at front) (b ++ drop (at + length b) old) at wide)
    ∙ take-append b (drop (at + length b) old) (length b) refl

nothing_more : (n : ℕ) → replicate {A = ℕ} (n - n) 0 ≡ []
nothing_more n = let none : n - n ≡ 0 = omega arith in rw none refl

-- Bytes at the end of the file are behind its old ones.
pub splice_end : (old b : Bytes) → splice old (length old) b ≡ old ++ b
splice_end old b =
    rw
      (
        nothing_more (length old),
        append-nil old,
        take_all (length old) old (omega arith),
        drop_all (length old + length b) old (omega arith),
        append-nil b,
      )
      refl

-- A write grows a file at most to its own end.
pub length-splice-lt :
    (old b : Bytes) (at n : ℕ) → length old < n → at + length b < n → length (splice old at b) < n
length-splice-lt old b at n h h' =
    let front = old ++ replicate (at - length old) 0 in
    let tail = drop (at + length b) old in
    omega (
      arith,
      length-append (take at front) (b ++ tail),
      length-append b tail,
      length-take at front,
      length-drop (at + length b) old,
    )
