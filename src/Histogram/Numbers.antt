-- ===== src/Histogram/Numbers.antt =====
-- Whole numbers and NaN in the place of `f64`, for the tests.
use metrique.Prelude.{
  ℕ, ◌*◌, ◌/◌, ◌≡◌, ◌⊎◌, Bool, true, false, Option, none, some, leb, ◌==◌, arith,
}
use metrique.Histogram.{Float}

-- `none` is NaN.
abbrev pub number_le : Option ℕ → Option ℕ → Bool
number_le a none = true
number_le none (some b) = false
number_le (some a) (some b) = leb a b

abbrev pub number_eq : Option ℕ → Option ℕ → Bool
number_eq (some a) (some b) = a == b
number_eq _ _ = false

abbrev pub not_a_number : Option ℕ → Bool
not_a_number none = true
not_a_number (some a) = false

abbrev pub combine : (ℕ → ℕ → ℕ) → Option ℕ → Option ℕ → Option ℕ
combine f (some a) (some b) = some (f a b)
combine f _ _ = none

pub number_le_total : (a b : Option ℕ) → (number_le a b ≡ true) ⊎ (number_le b a ≡ true)
number_le_total = ground arith

pub number_le_trans :
    (a b c : Option ℕ) → number_le a b ≡ true → number_le b c ≡ true → number_le a c ≡ true
number_le_trans a b c h k = ground arith

pub number_eq_nan : (a b : Option ℕ) → not_a_number a ≡ true → number_eq a b ≡ false
number_eq_nan a b h = ground arith

pub number_eq_subst : (a b c : Option ℕ) → number_eq a b ≡ true → number_eq a c ≡ number_eq b c
number_eq_subst a b c h = ground arith

abbrev pub numbers : Float
numbers = record {
  F = Option ℕ;
  le = number_le;
  eq = number_eq;
  is_nan = not_a_number;
  of_nat = some;
  mul = combine ◌*◌;
  div = combine ◌/◌;
  le_total = number_le_total;
  le_trans = number_le_trans;
  eq_nan = number_eq_nan;
  eq_subst = number_eq_subst;
}
