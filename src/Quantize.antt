-- ===== src/Quantize.antt =====
-- metrique-writer-core/src/quantize.rs: values cut to a number of significant bits.
pub mod Width
pub mod Bucket
pub mod Bounds
pub mod Order
pub mod Float
pub mod Idempotent
mod Tests
use metrique.Prelude.{
  ℕ, zero, suc, ◌+◌, ◌-◌, ◌*◌, ◌/◌, ◌^◌, ◌≤◌, Bool, ◌||◌, min, ltb, leb, ◌==◌, if◌then◌else◌, u64,
}

abbrev pub min_significant_bits : ℕ
min_significant_bits = 1

abbrev pub max_significant_bits : ℕ
max_significant_bits = 52

pub record SignificantBitsError : Type 0 where
  pub requested : ℕ

pub record SignificantBits : Type 0 where
  pub get : ℕ

pub data SignificantBitsResult : Type 0 where
  ok : SignificantBits → SignificantBitsResult
  err : SignificantBitsError → SignificantBitsResult

unfoldable pub new : ℕ → SignificantBitsResult
new bits =
    if ltb bits min_significant_bits || ltb max_significant_bits bits
    then err (record { requested = bits })
    else ok (record { get = bits })

unfoldable pub exact_below : SignificantBits → ℕ
exact_below b = u64 (2 ^ b.get)

pub data Rounding : Type 0 where
  floor : Rounding
  ceil : Rounding
  midpoint : Rounding

pub record Quantizer : Type 0 where
  pub bits : SignificantBits
  pub rounding : Rounding

-- `u64::MAX`, and addition that stops there.
abbrev pub u64_max : ℕ
u64_max = 2 ^ 64 - 1

abbrev pub saturating_add : ℕ → ℕ → ℕ
saturating_add a b = min (a + b) u64_max

-- `n - value.leading_zeros()` for a word of `n` bits: how many are left below its leading zeros.
unfoldable pub bit_width : ℕ → ℕ → ℕ
bit_width zero value = 0
bit_width (suc n) value = if ltb value (2 ^ n) then bit_width n value else suc n

-- What a bucket from `low` on, `2 ^ shift` wide, is represented by.
unfoldable pub round : Rounding → ℕ → ℕ → ℕ → ℕ
round floor value low shift = low
round ceil value low shift = if low == value then value else saturating_add low (u64 (2 ^ shift))
round midpoint value low shift = saturating_add low (u64 (2 ^ (shift - 1)))

unfoldable pub quantize_u64 : Quantizer → ℕ → ℕ
unfolding round
quantize_u64 q value =
    let bits = q.bits.get in
    let width = bit_width 64 value in
    let shift = width - bits in
    if leb width bits
    then value
    else round q.rounding value (u64 (value / 2 ^ shift * 2 ^ shift)) shift
