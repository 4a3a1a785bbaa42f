-- ===== src/Base/Slices.antt =====
-- How a list falls into the parts before, in and after a range.
use Prim.Native.Nat.{ℕ, zero, suc, ◌+◌, ◌-◌, ◌≤◌}
use mathlib.Core.Path.{◌≡◌, refl, ap, ◌∙◌}
use mathlib.Core.List.{List, [], ◌∷◌, ◌++◌}
use native.Mathlib.Omega.{arith}
use cherubsh.Base.Lists.{
  length, take, drop, take-append-drop, slice, drain, splice, insert_at, length-append,
  take-length_append, drop-length_append,
}
use cherubsh.Base.Tests.{le→leb}
use mathlib.Core.Option.{some}

module _ {ℓ} {A : Type ℓ} where
  pub take_of_take : (n : ℕ) (xs ys : List A) → n ≤ length xs → take n (take n xs ++ ys) ≡ take n xs
  take_of_take zero xs ys h = refl
  take_of_take (suc n) [] ys h = absurd (omega arith)
  take_of_take (suc n) (x ∷ xs) ys h = ap (x ∷◌) (take_of_take n xs ys (omega arith))

  pub drop_of_take : (n : ℕ) (xs ys : List A) → n ≤ length xs → drop n (take n xs ++ ys) ≡ ys
  drop_of_take zero xs ys h = refl
  drop_of_take (suc n) [] ys h = absurd (omega arith)
  drop_of_take (suc n) (x ∷ xs) ys h = drop_of_take n xs ys (omega arith)

  -- before, in and after `start..end`
  pub slices_join :
      (start end : ℕ) (xs : List A)
      → start ≤ end
      → take start xs ++ drop start (take end xs) ++ drop end xs ≡ xs
  slices_join zero end xs h = take-append-drop end xs
  slices_join (suc s) zero xs h = elim h [ ]
  slices_join (suc s) (suc e) [] h = refl
  slices_join (suc s) (suc e) (x ∷ xs) h = ap (x ∷◌) (slices_join s e xs (omega arith))

  pub length-slice :
      (start end : ℕ) (xs : List A)
      → end ≤ length xs
      → length (drop start (take end xs)) ≡ end - start
  length-slice zero zero xs h = refl
  length-slice zero (suc e) [] h = absurd (omega arith)
  length-slice zero (suc e) (x ∷ xs) h = omega (arith, length-slice zero e xs (omega arith))
  length-slice (suc s) zero xs h = omega arith
  length-slice (suc s) (suc e) [] h = absurd (omega arith)
  length-slice (suc s) (suc e) (x ∷ xs) h = omega (arith, length-slice s e xs (omega arith))

  -- Inside the list the operations on ranges do not panic.
  pub slice_lem :
      (start end : ℕ) (xs : List A)
      → start ≤ end
      → end ≤ length xs
      → slice start end xs ≡ some (drop start (take end xs))
  slice_lem start end xs h k = rw (le→leb start end h, le→leb end (length xs) k)

  pub drain_lem :
      (start end : ℕ) (xs : List A)
      → start ≤ end
      → end ≤ length xs
      → drain start end xs ≡ some (take start xs ++ drop end xs)
  drain_lem start end xs h k = rw (le→leb start end h, le→leb end (length xs) k)

  pub splice_lem :
      (start end : ℕ) (ys xs : List A)
      → start ≤ end
      → end ≤ length xs
      → splice start end ys xs ≡ some (take start xs ++ ys ++ drop end xs)
  splice_lem start end ys xs h k = rw (le→leb start end h, le→leb end (length xs) k)

  -- Inserting between two parts.
  pub insert_at_lem :
      (i : ℕ) (c : A) (xs ys : List A)
      → i ≡ length xs
      → insert_at i c (xs ++ ys) ≡ some (xs ++ c ∷ ys)
  insert_at_lem i c xs ys e = rw (
    e,
    le→leb (length xs) (length (xs ++ ys)) (omega (arith, length-append {ℓ} xs ys)),
    take-length_append xs ys,
    drop-length_append xs ys,
  )

  pub drop_next :
      (n : ℕ) (xs : List A) (y : A) (ys : List A) → drop n xs ≡ y ∷ ys → drop (suc n) xs ≡ ys
  drop_next zero [] y ys h = cc
  drop_next zero (x ∷ xs) y ys h = cc
  drop_next (suc n) [] y ys h = cc
  drop_next (suc n) (x ∷ xs) y ys h = drop_next n xs y ys h

  -- behind a part that stands at `n`
  pub drop_past :
      (xs ys : List A) (n : ℕ) (zs : List A) → drop n zs ≡ xs ++ ys → drop (n + length xs) zs ≡ ys
  drop_past [] ys n zs e = ap (λ k. drop k zs) (omega arith) ∙ e
  drop_past (x ∷ xs) ys n zs e =
      ap (λ k. drop k zs) (omega arith) ∙ drop_past xs ys (suc n) zs (drop_next n zs x (xs ++ ys) e)

  take_nil : (n : ℕ) → take {A = A} n [] ≡ []
  take_nil zero = refl
  take_nil (suc n) = refl

  -- the part itself
  pub slice_past :
      (xs ys : List A) (n : ℕ) (zs : List A)
      → drop n zs ≡ xs ++ ys
      → drop n (take (n + length xs) zs) ≡ xs
  slice_past xs ys zero zs e =
      ap (λ k. take k zs) (omega arith) ∙ ap (take (length xs)) e ∙ take-length_append xs ys
  slice_past xs ys (suc n) [] e = ends xs ys e
    where
      ends : (us vs : List A) → [] ≡ us ++ vs → drop (suc n) (take (suc n + length us) []) ≡ us
      ends [] vs h = ap (drop (suc n)) (take_nil (suc n + 0))
      ends (u ∷ us) vs h = cc
  slice_past xs ys (suc n) (z ∷ zs) e =
      let next : suc n + length xs ≡ suc (n + length xs) = omega arith in
      ap (λ k. drop (suc n) (take k (z ∷ zs))) next ∙ slice_past xs ys n zs e
