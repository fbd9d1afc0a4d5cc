-- ===== src/Prelude/TextOrder.antt =====
-- The order of SQLite's BINARY collation on texts, as the native comparison gives it.
use Prim.Native.Nat.{Ordering, compare as compare_ℕ}
use Prim.Native.Char.{Char, code}
use Prim.Native.String.{String, [], ◌∷◌, then, compare}
use Prim.Native.String.compare.{nil-cons, cons-nil, cons-cons}
use mathlib.Core.Path.{◌≡◌, refl}
use mathlib.Core.Bool.{Bool, true, false}
use native.Mathlib.Omega.{arith}
use text.Mathlib.Text.{is_lt}
use text.Mathlib.TextPositions.{compare_refl}
use text.Mathlib.TextEquality.{path_by_compare}

abbrev pub text_lt : String → String → Bool
text_lt s t = is_lt (compare s t)

abbrev flip : Ordering → Ordering
flip Ordering.lt = Ordering.gt
flip Ordering.eq = Ordering.eq
flip Ordering.gt = Ordering.lt

compare-nil-cons : (d : Char) (t : String) → compare [] (d ∷ t) ≡ Ordering.lt
compare-nil-cons d t = λ i. nil-cons d t i

compare-cons-nil : (d : Char) (t : String) → compare (d ∷ t) [] ≡ Ordering.gt
compare-cons-nil d t = λ i. cons-nil d t i

compare-cons-cons :
    (c d : Char) (s t : String)
    → compare (c ∷ s) (d ∷ t) ≡ then (compare_ℕ (code c) (code d)) (compare s t)
compare-cons-cons c d s t = λ i. cons-cons c d s t i

compare-flip : (s t : String) → compare t s ≡ flip (compare s t)
compare-flip [] [] = refl
compare-flip [] (d ∷ t) = cc (compare-nil-cons d t, compare-cons-nil d t)
compare-flip (c ∷ s) [] = cc (compare-nil-cons c s, compare-cons-nil c s)
compare-flip (c ∷ s) (d ∷ t) =
    ground (arith, compare-cons-cons c d s t, compare-cons-cons d c t s, compare-flip s t)

compare_trans :
    (r s t : String)
    → compare r s ≡ Ordering.lt
    → compare s t ≡ Ordering.lt
    → compare r t ≡ Ordering.lt
compare_trans [] [] t p q = q
compare_trans [] (d ∷ s) [] p q = cc (compare-cons-nil d s)
compare_trans [] (d ∷ s) (e ∷ t) p q = compare-nil-cons e t
compare_trans (c ∷ r) [] t p q = cc (compare-cons-nil c r)
compare_trans (c ∷ r) (d ∷ s) [] p q = cc (compare-cons-nil d s)
compare_trans (c ∷ r) (d ∷ s) (e ∷ t) p q = ground (
  arith,
  compare-cons-cons c d r s,
  compare-cons-cons d e s t,
  compare-cons-cons c e r t,
  path_by_compare r s,
  path_by_compare s t,
  compare_trans r s t,
  codes c d,
  codes d e,
)
  where
    codes : (c d : Char) → compare_ℕ (code c) (code d) ≡ Ordering.eq → code c ≡ code d
    codes c d h = ground arith

pub text_lt_irrefl : (s : String) → text_lt s s ≡ false
text_lt_irrefl s = ground (arith, compare_refl s)

pub text_lt_asym : (s t : String) → text_lt s t ≡ true → text_lt t s ≡ false
text_lt_asym s t h = ground (arith, compare-flip s t)

pub text_lt_trans : (r s t : String) → text_lt r s ≡ true → text_lt s t ≡ true → text_lt r t ≡ true
text_lt_trans r s t p q = ground (arith, compare_trans r s t)

pub text_lt_total : (s t : String) → text_lt s t ≡ false → text_lt t s ≡ false → s ≡ t
text_lt_total s t p q = ground (arith, compare-flip s t, path_by_compare s t)

pub text_lt_not_trans :
    (r s t : String) → text_lt r s ≡ false → text_lt s t ≡ false → text_lt r t ≡ false
text_lt_not_trans r s t p q = by_test (text_lt r t) refl
  where
    by_test : (b : Bool) → text_lt r t ≡ b → text_lt r t ≡ false
    by_test true e = ground (arith, text_lt_trans r t s, text_lt_total s t)
    by_test false e = e
