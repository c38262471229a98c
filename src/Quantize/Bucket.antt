-- ===== src/Quantize/Bucket.antt =====
-- The bucket of a value: the numbers with its leading bits.
use native.Mathlib.Nat.{
  pow-suc, div-mul-le_self, lt-div-mul-add, le-div_iff_mul-le, div-lt_iff_lt-mul,
}
use metrique.Prelude.{ℕ, suc, ◌+◌, ◌-◌, ◌*◌, ◌/◌, ◌^◌, ◌≤◌, ◌<◌, ◌≡◌, refl, ap, arith, ◌∙◌}
use metrique.Quantize.{bit_width}
use metrique.Quantize.Width.{pow_add, pow_pos, pow_mono, bit_width_le, lt-bit_width, bit_width-le}

-- `low` and `step` are the bottom and the width of the bucket, `count` the leading bits, `base` the
-- least number with as many bits.
pub record IsBucket (value low step half count base : ℕ) : Type 0 where
  pub step_pos : 0 < step
  pub low_le : low ≤ value
  pub lt_high : value < low + step
  pub halves : step ≡ half + half
  pub multiple : low ≡ count * step
  pub base_le : base * step ≤ low
  pub high_le : low + step ≤ 2 * (base * step)
  pub count_ge : base ≤ count
  pub count_lt : count < 2 * base
  pub top_le : 2 * (base * step) ≤ 2 ^ 64

pub mul_mono : {m n : ℕ} (k : ℕ) → m ≤ n → m * k ≤ n * k
mul_mono k h = grind arith

in_bucket :
    (value step half base : ℕ)
    → 0 < step
    → step ≡ half + half
    → base * step ≤ value
    → value < 2 * (base * step)
    → 2 * (base * step) ≤ 2 ^ 64
    → IsBucket value (value / step * step) step half (value / step) base
in_bucket value step half base pos halves above below top =
    let count_ge : base ≤ value / step = (le-div_iff_mul-le pos).1 above in
    let count_lt : value / step < 2 * base = (div-lt_iff_lt-mul pos).1 (omega arith) in
    let next : suc (value / step) * step ≤ 2 * base * step = mul_mono step count_lt in
    record {
      step_pos = pos;
      low_le = div-mul-le_self value step;
      lt_high = lt-div-mul-add pos;
      halves = halves;
      multiple = refl;
      base_le = mul_mono step count_ge;
      high_le = omega (arith, next);
      count_ge = count_ge;
      count_lt = count_lt;
      top_le = top;
    }

-- The bucket of a value that has more significant bits than are kept.
module _ (bits value : ℕ) where
  abbrev pub shift : ℕ
  shift = bit_width 64 value - bits

  pub bucket :
      1 ≤ bits
      → value < 2 ^ 64
      → bits < bit_width 64 value
      → IsBucket value
          (value / 2 ^ shift * 2 ^ shift)
          (2 ^ shift)
          (2 ^ (shift - 1))
          (value / 2 ^ shift)
          (2 ^ (bits - 1))
  bucket some_bits word wide =
      let width = bit_width 64 value in
      let e : shift ≡ suc (shift - 1) = omega arith in
      let split : width - 1 ≡ (bits - 1) + shift = omega arith in
      let whole : width ≡ suc (width - 1) = omega arith in
      let halves : 2 ^ shift ≡ 2 ^ (shift - 1) + 2 ^ (shift - 1) =
        omega (arith, ap (λ n. 2 ^ n) e, pow-suc 2 (shift - 1)) in
      let base : 2 ^ (width - 1) ≡ 2 ^ (bits - 1) * 2 ^ shift =
        ap (λ n. 2 ^ n) split ∙ pow_add (bits - 1) shift in
      let top : 2 ^ width ≡ 2 * (2 ^ (bits - 1) * 2 ^ shift) =
        omega (arith, ap (λ n. 2 ^ n) whole, pow-suc 2 (width - 1), base) in
      in_bucket value (2 ^ shift) (2 ^ (shift - 1)) (2 ^ (bits - 1)) (pow_pos shift) halves
        (omega (arith, bit_width-le 64 value (omega arith), base))
        (omega (arith, lt-bit_width 64 value word, top))
        (omega (arith, pow_mono width 64 (bit_width_le 64 value), top))
