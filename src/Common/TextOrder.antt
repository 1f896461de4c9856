-- ===== src/Common/TextOrder.antt =====
-- Go's `<` on strings: by the bytes, which is the order of the characters' numbers.
use Prim.Native.Nat.{Ordering}
use Prim.Native.String.compare
use Prim.Native.String.{String, [], ◌∷◌, compare}
use mathlib.Core.Path.{◌≡◌}
use mathlib.Core.Logic.{◌≢◌}
use mathlib.Core.Bool.{Bool, true, false}
use native.Mathlib.Omega.{arith}
use text.Mathlib.TextEquality.{path_by_compare}
use text.Mathlib.TextPositions.{compare_refl}

abbrev pub str_lt : String → String → Bool
str_lt s t = elim (compare s t) [ Ordering.lt ↦ true | _ ↦ false ]

abbrev flip : Ordering → Ordering
flip Ordering.lt = Ordering.gt
flip Ordering.eq = Ordering.eq
flip Ordering.gt = Ordering.lt

compare-flip : (s t : String) → compare t s ≡ flip (compare s t)
compare-flip [] [] = ground (arith, compare.nil-nil)
compare-flip [] (d ∷ t) = ground (arith, compare.nil-cons d t, compare.cons-nil d t)
compare-flip (c ∷ s) [] = ground (arith, compare.nil-cons c s, compare.cons-nil c s)
compare-flip (c ∷ s) (d ∷ t) =
    ground (arith, compare.cons-cons c d s t, compare.cons-cons d c t s, compare-flip s t)

compare_trans :
    (s t u : String)
    → compare s t ≡ Ordering.lt
    → compare t u ≡ Ordering.lt
    → compare s u ≡ Ordering.lt
compare_trans [] [] [] h k = h
compare_trans [] (d ∷ t) [] h k = ground (arith, compare.cons-nil d t)
compare_trans [] t (e ∷ u) h k = compare.nil-cons e u
compare_trans (c ∷ s) [] u h k = ground (arith, compare.cons-nil c s)
compare_trans (c ∷ s) (d ∷ t) [] h k = ground (arith, compare.cons-nil d t)
compare_trans (c ∷ s) (d ∷ t) (e ∷ u) h k = ground (
  arith,
  compare.cons-cons c d s t,
  compare.cons-cons d e t u,
  compare.cons-cons c e s u,
  compare_trans s t u,
)

pub str_lt_irrefl : (s : String) → str_lt s s ≡ false
str_lt_irrefl s = ground (arith, compare_refl s)

pub str_lt_asym : (s t : String) → str_lt s t ≡ true → str_lt t s ≡ false
str_lt_asym s t h = ground (arith, compare-flip s t)

pub str_lt_trans : (s t u : String) → str_lt s t ≡ true → str_lt t u ≡ true → str_lt s u ≡ true
str_lt_trans s t u h k = ground (arith, compare_trans s t u)

-- Two different texts are in order one way or the other.
pub str_lt_total : (s t : String) → s ≢ t → str_lt s t ≡ false → str_lt t s ≡ true
str_lt_total s t d h = ground (arith, compare-flip s t, path_by_compare s t)
