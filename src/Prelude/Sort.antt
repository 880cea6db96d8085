-- ===== src/Prelude/Sort.antt =====
-- Go's `slices.Sort` on strings: the sorted list is unique, as the order of strings is total, so it
-- is computed by insertion.
use Prim.Native.Nat.{ℕ, compare as compare_ℕ, Ordering}
use Prim.Native.Char.{code}
use Prim.Native.String.{String, compare, then as then_compare}
use Prim.Native.String.compare as cmp
use mathlib.Core.Bool.{Bool, true, false}
use mathlib.Core.List.{List, [], ◌∷◌}
use mathlib.Core.Path.{◌≡◌, refl, ap, ap₂, sym, ◌∙◌}
use mathlib.Core.Logic.{inl, inr}
use native.Mathlib.Omega.{arith}
use atlas_operator.Prelude.Tests.{if◌then◌else◌, Bool-cases}

-- s ≤ t, byte by byte; the order of code points is that of their UTF-8 bytes.
abbrev pub text_le : String → String → Bool
text_le s t = elim (compare s t) [ Ordering.gt ↦ false | _ ↦ true ]

unfoldable pub insert_text : String → List String → List String
insert_text s [] = s ∷ []
insert_text s (t ∷ ts) = if text_le s t then s ∷ t ∷ ts else t ∷ insert_text s ts

unfoldable pub sort_text : List String → List String
sort_text [] = []
sort_text (s ∷ ss) = insert_text s (sort_text ss)

abbrev flip : Ordering → Ordering
flip Ordering.lt = Ordering.gt
flip Ordering.eq = Ordering.eq
flip Ordering.gt = Ordering.lt

flip-compare_ℕ : (m n : ℕ) → compare_ℕ n m ≡ flip (compare_ℕ m n)
flip-compare_ℕ m n = ground arith

flip-then : (o p : Ordering) → then_compare (flip o) (flip p) ≡ flip (then_compare o p)
flip-then Ordering.lt p = refl
flip-then Ordering.eq p = refl
flip-then Ordering.gt p = refl

flip-compare : (s t : String) → compare t s ≡ flip (compare s t)
flip-compare String.[] String.[] = simp cmp.nil-nil
flip-compare String.[] (String.◌∷◌ d t) = simp (cmp.nil-cons, cmp.cons-nil)
flip-compare (String.◌∷◌ c s) String.[] = simp (cmp.nil-cons, cmp.cons-nil)
flip-compare (String.◌∷◌ c s) (String.◌∷◌ d t) =
    cmp.cons-cons d c t s
    ∙ ap₂ then_compare (flip-compare_ℕ (code c) (code d)) (flip-compare s t)
    ∙ flip-then (compare_ℕ (code c) (code d)) (compare s t)
    ∙ ap flip (sym (cmp.cons-cons c d s t))

-- The order is total.
pub text_le_total : (s t : String) → text_le s t ≡ false → text_le t s ≡ true
text_le_total s t h = ground (arith, flip-compare s t)

-- Each element is at or below the next.
abbrev pub IsSorted : List String → Type 0
IsSorted [] = Unit
IsSorted (s ∷ []) = Unit
IsSorted (s ∷ t ∷ ts) = (text_le s t ≡ true) × IsSorted (t ∷ ts)

insert-IsSorted : (s : String) (ts : List String) → IsSorted ts → IsSorted (insert_text s ts)
unfolding insert_text
insert-IsSorted s [] h = tt
insert-IsSorted s (t ∷ []) h = elim (Bool-cases (text_le s t)) [
  | inl e ↦ rw e (e, tt)
  | inr e ↦ rw e (text_le_total s t e, tt)
]
insert-IsSorted s (t ∷ u ∷ us) (h, hs) = elim (Bool-cases (text_le s t)) [
  | inl e ↦ rw e (e, (h, hs))
  | inr e ↦
      let ih = insert-IsSorted s (u ∷ us) hs in
      rw e (elim (Bool-cases (text_le s u)) [
        | inl k ↦ rw k (text_le_total s t e, rw k at ih)
        | inr k ↦ rw k (h, rw k at ih)
      ])
]

pub sort-IsSorted : (ss : List String) → IsSorted (sort_text ss)
unfolding sort_text
sort-IsSorted [] = tt
sort-IsSorted (s ∷ ss) = insert-IsSorted s (sort_text ss) (sort-IsSorted ss)

sort_of_IsSorted : (ss : List String) → IsSorted ss → sort_text ss ≡ ss
unfolding sort_text insert_text
sort_of_IsSorted [] h = refl
sort_of_IsSorted (s ∷ []) h = refl
sort_of_IsSorted (s ∷ t ∷ ts) (h, hs) = rw (sort_of_IsSorted (t ∷ ts) hs) (rw h)

-- Sorting twice is sorting once.
pub sort_text_idem : (ss : List String) → sort_text (sort_text ss) ≡ sort_text ss
sort_text_idem ss = sort_of_IsSorted (sort_text ss) (sort-IsSorted ss)
