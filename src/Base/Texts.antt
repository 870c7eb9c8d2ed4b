-- ===== src/Base/Texts.antt =====
-- The order of strings.
use Prim.Native.Nat.{ℕ, Ordering, compare as compare_ℕ}
use Prim.Native.Char.{code}
use Prim.Native.String.{String, [], ◌∷◌, then, compare}
use Prim.Native.String.compare
use mathlib.Core.Path.{◌≡◌, refl, sym, ◌∙◌}
use mathlib.Core.Bool.{Bool, true, false}
use text.Mathlib.Text.{◌==◌ as str_eq}
use text.Mathlib.TextEquality.{eq_iff}
use native.Mathlib.Omega.{arith}

-- Go's comparison of strings, by their bytes.
abbrev pub before : String → String → Bool
before s t = elim (compare s t) [ Ordering.lt ↦ true | _ ↦ false ]

then_swap :
    (m n : ℕ) (o o' : Ordering)
    → (o ≡ Ordering.lt → o' ≡ Ordering.gt)
    → then (compare_ℕ m n) o ≡ Ordering.lt
    → then (compare_ℕ n m) o' ≡ Ordering.gt
then_swap m n o o' k h = split (compare_ℕ m n) (compare_ℕ n m) refl refl h
  where
    split :
        (x y : Ordering)
        → compare_ℕ m n ≡ x
        → compare_ℕ n m ≡ y
        → then x o ≡ Ordering.lt
        → then y o' ≡ Ordering.gt
    split Ordering.lt Ordering.gt e f h = refl
    split Ordering.lt Ordering.eq e f h = ground (arith, e, f)
    split Ordering.lt Ordering.lt e f h = ground (arith, e, f)
    split Ordering.eq Ordering.eq e f h = k h
    split Ordering.eq Ordering.lt e f h = ground (arith, e, f)
    split Ordering.eq Ordering.gt e f h = ground (arith, e, f)
    split Ordering.gt y e f h = absurd (cc h)

compare_lt-gt : (s t : String) → compare s t ≡ Ordering.lt → compare t s ≡ Ordering.gt
compare_lt-gt [] [] h = absurd (cc (sym compare.nil-nil ∙ h))
compare_lt-gt [] (d ∷ t) h = compare.cons-nil d t
compare_lt-gt (c ∷ s) [] h = absurd (cc (sym (compare.cons-nil c s) ∙ h))
compare_lt-gt (c ∷ s) (d ∷ t) h =
    compare.cons-cons d c t s
    ∙ then_swap (code c) (code d) (compare s t) (compare t s) (compare_lt-gt s t)
        (sym (compare.cons-cons c d s t) ∙ h)

pub before_asym : (s t : String) → before s t ≡ true → before t s ≡ false
before_asym s t h = split (compare s t) refl h
  where
    split :
        (o : Ordering)
        → compare s t ≡ o
        → elim o [ Ordering.lt ↦ true | _ ↦ false ] ≡ true
        → before t s ≡ false
    split Ordering.lt e h = rw (before, compare_lt-gt s t e) refl
    split Ordering.eq e h = absurd (cc h)
    split Ordering.gt e h = absurd (cc h)

same_Bool : (a b : Bool) → (a ≡ true → b ≡ true) → (b ≡ true → a ≡ true) → a ≡ b
same_Bool true b f g = sym (f refl)
same_Bool false true f g = g refl
same_Bool false false f g = refl

pub str_eq_comm : (s t : String) → str_eq s t ≡ str_eq t s
str_eq_comm s t =
    same_Bool (str_eq s t) (str_eq t s) (λ h. (eq_iff t s).1 (sym ((eq_iff s t).0 h)))
      (λ h. (eq_iff s t).1 (sym ((eq_iff t s).0 h)))
