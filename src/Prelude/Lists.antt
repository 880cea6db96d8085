-- ===== src/Prelude/Lists.antt =====
-- Lists measured by native numbers, and the list functions of Go's `slices` that the program uses.
use Prim.Native.Nat.{ℕ, suc, ◌+◌}
use mathlib.Core.Bool.{Bool, true, false, ◌&&◌, ◌||◌}
use mathlib.Core.List.{List, [], ◌∷◌, ◌++◌}
use mathlib.Core.Option.{Option, none, some}
use mathlib.Core.Path.{◌≡◌}
use native.Mathlib.Omega.{arith}
use atlas_operator.Prelude.Tests.{if◌then◌else◌}

module _ {ℓ} {A : Type ℓ} where
  abbrev pub length : List A → ℕ
  length [] = 0
  length (x ∷ xs) = suc (length xs)

  pub length-append : (xs ys : List A) → length (xs ++ ys) ≡ length xs + length ys
  length-append [] ys = omega arith
  length-append (x ∷ xs) ys = omega (arith, length-append xs ys)

  -- Any element passes the test (`slices.ContainsFunc`).
  abbrev pub contains_func : (A → Bool) → List A → Bool
  contains_func p [] = false
  contains_func p (x ∷ xs) = p x || contains_func p xs

  -- The first element that passes the test (`slices.IndexFunc`, then the element at the index).
  abbrev pub find_func : (A → Bool) → List A → Option A
  find_func p [] = none
  find_func p (x ∷ xs) = if p x then some x else find_func p xs

  abbrev pub is_empty : List A → Bool
  is_empty [] = true
  is_empty (x ∷ xs) = false

  -- `slices.Equal` under a test of the elements.
  abbrev pub equal : (A → A → Bool) → List A → List A → Bool
  equal eq [] [] = true
  equal eq [] (y ∷ ys) = false
  equal eq (x ∷ xs) [] = false
  equal eq (x ∷ xs) (y ∷ ys) = eq x y && equal eq xs ys
