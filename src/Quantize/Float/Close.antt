-- ===== src/Quantize/Float/Close.antt =====
-- How far an exact rounding is from the number, and that a bound above the number keeps it so.
use native.Mathlib.Nat.{pow-suc, div-mul-le_self, lt-div-mul-add}
use metrique.Prelude.{ℕ, suc, ◌+◌, ◌-◌, ◌*◌, ◌/◌, ◌^◌, ◌≤◌, ◌<◌, ◌≡◌, ap, arith, min}
use metrique.Quantize.{Rounding, floor, ceil, midpoint}
use metrique.Quantize.Width.{pow_pos}
use metrique.Quantize.Bucket.{mul_mono}
use native.Mathlib.Decide.{dec_lt}
use metrique.Quantize.Bounds.{IsClose}
use metrique.Quantize.Float.Value.{round_to}

below_step :
    (error step base value : ℕ)
    → error < step
    → 0 < base
    → base * step ≤ value
    → error * base < value
below_step error step base value h pos k = grind arith

within_half :
    (error half base value : ℕ)
    → error ≤ half
    → base * (half + half) ≤ value
    → error * (2 * base) ≤ value
within_half error half base value h k = grind arith

-- The exact rounding of a number that has all the bits that are kept.
pub round_to-IsClose :
    (mode : Rounding) (bits half value : ℕ)
    → 1 ≤ bits
    → 0 < half
    → 2 ^ (bits - 1) * (half + half) ≤ value
    → IsClose mode bits value (round_to mode (half + half) value)
unfolding round_to
round_to-IsClose mode bits half value some_bits pos enough =
    let step = half + half in
    let step_pos : 0 < step = omega arith in
    let base_pos : 0 < 2 ^ (bits - 1) = pow_pos (bits - 1) in
    let count : bits ≡ suc (bits - 1) = omega arith in
    let double : 2 ^ bits ≡ 2 * 2 ^ (bits - 1) =
      omega (arith, ap (λ n. 2 ^ n) count, pow-suc 2 (bits - 1)) in
    let low = div-mul-le_self value step in
    let high = lt-div-mul-add {a = value} step_pos in
    elim mode as (λ m. IsClose m bits value (round_to m (half + half) value)) [
      | floor ↦ (
        low,
        below_step (value - value / step * step) step (2 ^ (bits - 1)) value (omega arith) base_pos
            enough,
      )
      | ceil ↦
          let top = div-mul-le_self (value + (step - 1)) step in
          let next = lt-div-mul-add {a = value + (step - 1)} step_pos in
          let r = (value + (step - 1)) / step * step in
          (
            omega arith,
            below_step (r - value) step (2 ^ (bits - 1)) value (omega arith) base_pos enough,
          )
      | midpoint ↦
          let middle : step / 2 ≡ half = omega arith in
          let r = value / step * step + half in
          rw (middle, double)
            (
              within_half (r - value) half (2 ^ (bits - 1)) value (omega arith) enough,
              within_half (value - r) half (2 ^ (bits - 1)) value (omega arith) enough,
            )
    ]

top-IsClose :
    (mode : Rounding) (bits value result top : ℕ)
    → value ≤ top
    → top < result
    → IsClose mode bits value result
    → IsClose mode bits value top
top-IsClose floor bits value result top h above k = absurd (omega (arith, k))
top-IsClose ceil bits value result top h above k = (
  h,
  omega (arith, k, mul_mono {m = top - value} {n = result - value} (2 ^ (bits - 1)) (omega arith)),
)
top-IsClose midpoint bits value result top h above k =
    let none_below : value - top ≡ 0 = omega arith in
    rw none_below (
      omega (arith, k, mul_mono {m = top - value} {n = result - value} (2 ^ bits) (omega arith)),
      omega arith,
    )

-- What is close stays so when it is brought down to a bound of the value.
pub min-IsClose :
    (mode : Rounding) (bits value result top : ℕ)
    → value ≤ top
    → IsClose mode bits value result
    → IsClose mode bits value (min result top)
min-IsClose mode bits value result top h k = elim (dec_lt top result) [
  | no within ↦ let e : min result top ≡ result = omega arith in rw e k
  | yes above ↦
      let e : min result top ≡ top = omega arith in
      rw e (top-IsClose mode bits value result top h above k)
]
