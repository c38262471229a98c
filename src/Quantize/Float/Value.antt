-- ===== src/Quantize/Float/Value.antt =====
-- The number that the bits of a double stand for, and its exact rounding.
use native.Mathlib.Nat.{pow-suc, div-eq_of_lt-le}
use metrique.Prelude.{
  ℕ, suc, ◌+◌, ◌-◌, ◌*◌, ◌/◌, ◌%◌, ◌^◌, ◌≤◌, ◌<◌, ◌≡◌, ap, arith, ltb, ◌∙◌, false, if◌then◌else◌,
}
use metrique.Quantize.{Rounding, floor, ceil, midpoint}
use native.Mathlib.Decide.{dec_lt}
use metrique.Quantize.Width.{pow_mono}
use metrique.Quantize.Bucket.{mul_mono}

-- A finite magnitude as a multiple of `2 ^ -1074`, the least positive double: an exponent of 0 marks
-- the subnormals, and in the others the leading one is implicit.
unfoldable pub value_of : ℕ → ℕ
value_of raw = if ltb raw (2 ^ 52) then raw else (2 ^ 52 + raw % 2 ^ 52) * 2 ^ (raw / 2 ^ 52 - 1)

-- A number rounded to the multiples of a step, or to the middles between them.
unfoldable pub round_to : Rounding → ℕ → ℕ → ℕ
round_to floor step value = value / step * step
round_to ceil step value = (value + (step - 1)) / step * step
round_to midpoint step value = value / step * step + step / 2

-- The step at a normal magnitude: the place of the last bit that is kept.
unfoldable pub step_of : ℕ → ℕ → ℕ
step_of bits raw = 2 ^ (raw / 2 ^ 52 - 1 + (53 - bits))

quotient_at : (e k : ℕ) → k < 2 ^ 52 → (suc e * 2 ^ 52 + k) / 2 ^ 52 ≡ suc e
quotient_at e k h = omega arith

remainder_at : (e k : ℕ) → k < 2 ^ 52 → (suc e * 2 ^ 52 + k) % 2 ^ 52 ≡ k
remainder_at e k h = omega arith

value_at_below : (e k : ℕ) → k < 2 ^ 52 → value_of (suc e * 2 ^ 52 + k) ≡ (2 ^ 52 + k) * 2 ^ e
unfolding value_of
value_at_below e k h =
    let big : ltb (suc e * 2 ^ 52 + k) (2 ^ 52) ≡ false = ground arith in
    let before : suc e - 1 ≡ e = omega arith in
    rw (big, quotient_at e k h, remainder_at e k h, before)

-- A significand up to the next power of two, which a carry reaches.
pub value_at : (e k : ℕ) → k ≤ 2 ^ 52 → value_of (suc e * 2 ^ 52 + k) ≡ (2 ^ 52 + k) * 2 ^ e
value_at e k h = elim (dec_lt k (2 ^ 52)) [
  | yes less ↦ value_at_below e k less
  | no more ↦
      let same : suc e * 2 ^ 52 + k ≡ suc (suc e) * 2 ^ 52 + 0 = omega arith in
      let top : k ≡ 2 ^ 52 = omega arith in
      ap value_of same
      ∙ value_at_below (suc e) 0 (omega arith)
      ∙ rw top (omega (arith, pow-suc 2 e))
]

-- The multiple of the step below a value, and the one above.
module _ (step value count : ℕ) (pos : 0 < step) (low : count * step ≤ value)
    (high : value < count * step + step) where
  pub count_unique : value / step ≡ count
  count_unique = div-eq_of_lt-le step low (omega (arith, high))

  pub ceil_same : value ≡ count * step → (value + (step - 1)) / step ≡ count
  ceil_same e = div-eq_of_lt-le step (omega (arith, e)) (omega (arith, e, pos))

  pub ceil_other : count * step < value → (value + (step - 1)) / step ≡ suc count
  ceil_other h = div-eq_of_lt-le step (omega (arith, h, pos)) (omega (arith, high, pos))

-- The parts of a normal magnitude.
pub normal_parts : (raw : ℕ) → 2 ^ 52 ≤ raw → raw ≡ suc (raw / 2 ^ 52 - 1) * 2 ^ 52 + raw % 2 ^ 52
normal_parts raw h = omega arith

top_value :
    (t e k : ℕ) → e ≤ t → k < 2 ^ 52 → (2 ^ 52 + k) * 2 ^ e ≤ (2 ^ 52 + (2 ^ 52 - 1)) * 2 ^ t
top_value t e k h less = omega (
  arith,
  mul_mono {m = 2 ^ 52 + k} {n = 2 ^ 52 + (2 ^ 52 - 1)} (2 ^ e) (omega arith),
  pow_mono e t h,
)

top_carry : (t : ℕ) → (2 ^ 52 + (2 ^ 52 - 1)) * 2 ^ t ≤ (2 ^ 52 + 0) * 2 ^ suc t
top_carry t = omega (arith, pow-suc 2 t)

-- No finite number is above the largest one, and the pattern after it stands for no less.
pub value_of_top :
    (raw : ℕ) → 2 ^ 52 ≤ raw → raw < 2047 * 2 ^ 52 → value_of raw ≤ value_of (2047 * 2 ^ 52 - 1)
value_of_top raw normal finite =
    rw
      (
        ap value_of (normal_parts raw normal)
            ∙ value_at_below (raw / 2 ^ 52 - 1) (raw % 2 ^ 52) (omega arith),
        value_at_below 2045 (2 ^ 52 - 1) (omega arith),
      )
      (top_value 2045 (raw / 2 ^ 52 - 1) (raw % 2 ^ 52) (omega arith) (omega arith))

pub value_of_infinity : value_of (2047 * 2 ^ 52 - 1) ≤ value_of (2047 * 2 ^ 52)
value_of_infinity =
    rw (value_at_below 2045 (2 ^ 52 - 1) (omega arith), value_at_below 2046 0 (omega arith))
      (top_carry 2045)
