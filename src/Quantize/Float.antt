-- ===== src/Quantize/Float.antt =====
-- metrique-writer-core/src/quantize.rs: `quantize_f64`. A double is its 64 bits: the sign, 11 bits of
-- exponent and 52 of the significand. The mask with `u64::MAX << drop` is a division and a product.
pub mod Value
pub mod Rounds
pub mod Close
pub mod Bounds
mod Tests
use metrique.Prelude.{
  ℕ, ◌+◌, ◌-◌, ◌*◌, ◌/◌, ◌%◌, ◌^◌, Bool, not, ◌||◌, ltb, leb, ◌==◌, if◌then◌else◌, u64,
}
use metrique.Quantize.{Quantizer, Rounding, floor, ceil, midpoint}

-- The patterns of an infinity, of the largest finite number and of the least normal one.
abbrev pub infinity : ℕ
infinity = 2047 * 2 ^ 52

abbrev pub f64_max : ℕ
f64_max = 2047 * 2 ^ 52 - 1

abbrev pub min_positive : ℕ
min_positive = 2 ^ 52

abbrev pub is_sign_negative : ℕ → Bool
is_sign_negative value = leb (2 ^ 63) value

abbrev pub abs : ℕ → ℕ
abs value = value % 2 ^ 63

abbrev pub negate : ℕ → ℕ
negate value = if is_sign_negative value then value - 2 ^ 63 else value + 2 ^ 63

-- Neither an infinity nor a NaN, which have the greatest exponent.
abbrev pub is_finite : ℕ → Bool
is_finite value = ltb (abs value) infinity

unfoldable pub swap_sides : Rounding → Rounding
swap_sides floor = ceil
swap_sides ceil = floor
swap_sides midpoint = midpoint

unfoldable pub round_raw : Rounding → ℕ → ℕ → ℕ → ℕ
round_raw floor raw low_bits drop = low_bits
round_raw ceil raw low_bits drop = if low_bits == raw then raw else u64 (low_bits + 2 ^ drop)
round_raw midpoint raw low_bits drop = u64 (low_bits + 2 ^ (drop - 1))

unfoldable pub clamp : ℕ → ℕ
clamp quantized = if is_finite quantized then quantized else f64_max

unfoldable pub quantize_f64 : Quantizer → ℕ → ℕ
quantize_f64 q value =
    if not (is_finite value) || (abs value == 0)
    then value
    else (let magnitude = abs value in
        let drop = 53 - q.bits.get in
        let low_bits = magnitude / 2 ^ drop * 2 ^ drop in
        let rounding = if is_sign_negative value then swap_sides q.rounding else q.rounding in
        let quantized = clamp (round_raw rounding magnitude low_bits drop) in
        if ltb magnitude min_positive
        then value
        else (if is_sign_negative value then negate quantized else quantized))
