-- ===== src/Base/TextOrder.antt =====
-- The order of texts, and sort.Strings of Go's library.
use Prim.Native.Nat.compare as compare_ℕ
use Prim.Native.String.compare
use Prim.Native.Nat.{ℕ, zero, suc, Ordering, compare as compare_ℕ}
use Prim.Native.Char.{code}
use Prim.Native.String.{String, [], ◌∷◌, then, compare}
use mathlib.Core.Path.{◌≡◌, refl}
use mathlib.Core.Bool.{Bool, true, false}

abbrev turned : Ordering → Ordering
turned Ordering.lt = Ordering.gt
turned Ordering.eq = Ordering.eq
turned Ordering.gt = Ordering.lt

abbrev is_not_gt : Ordering → Bool
is_not_gt Ordering.gt = false
is_not_gt _ = true

-- `a <= b`
abbrev pub leb_text : String → String → Bool
leb_text a b = is_not_gt (compare a b)

turned_numbers : (m n : ℕ) → compare_ℕ n m ≡ turned (compare_ℕ m n)
turned_numbers zero zero = rw compare_ℕ.zero-zero refl
turned_numbers zero (suc n) = rw (compare_ℕ.suc-zero n, compare_ℕ.zero-suc n) refl
turned_numbers (suc m) zero = rw (compare_ℕ.suc-zero m, compare_ℕ.zero-suc m) refl
turned_numbers (suc m) (suc n) =
    rw (compare_ℕ.suc-suc m n, compare_ℕ.suc-suc n m) (turned_numbers m n)

then_of_turned : (o r : Ordering) → then (turned o) (turned r) ≡ turned (then o r)
then_of_turned Ordering.lt r = refl
then_of_turned Ordering.eq r = refl
then_of_turned Ordering.gt r = refl

turned_texts : (s t : String) → compare t s ≡ turned (compare s t)
turned_texts [] [] = rw compare.nil-nil refl
turned_texts [] (d ∷ t) = rw (compare.nil-cons d t, compare.cons-nil d t) refl
turned_texts (c ∷ s) [] = rw (compare.nil-cons c s, compare.cons-nil c s) refl
turned_texts (c ∷ s) (d ∷ t) =
    rw
      (
        compare.cons-cons c d s t,
        compare.cons-cons d c t s,
        turned_numbers (code c) (code d),
        turned_texts s t,
      )
      (then_of_turned (compare_ℕ (code c) (code d)) (compare s t))

turned_not_gt : (o : Ordering) → is_not_gt o ≡ false → is_not_gt (turned o) ≡ true
turned_not_gt Ordering.lt h = cc
turned_not_gt Ordering.eq h = refl
turned_not_gt Ordering.gt h = refl

-- Of two texts, one is not above the other.
pub leb_text_total : (a b : String) → leb_text a b ≡ false → leb_text b a ≡ true
leb_text_total a b h = rw (turned_texts a b) (turned_not_gt (compare a b) h)
