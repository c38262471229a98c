-- ===== src/Quantize/Bounds.antt =====
-- What `quantize_u64` promises of its result: the side and the size of the error.
use native.Mathlib.Nat.{pow-suc, div-mul-le_self}
use metrique.Prelude.{
  ℕ, suc, ◌+◌, ◌-◌, ◌*◌, ◌/◌, ◌^◌, ◌≤◌, ◌<◌, ◌≡◌, ◌⊎◌, if◌then◌else◌, ◌==◌, inl, inr, ap, ◌∙◌,
  arith, Bool-cases, leb, leb→le, u64,
}
use metrique.Quantize.{
  Quantizer, Rounding, floor, ceil, midpoint, bit_width, saturating_add, round, quantize_u64,
}
use metrique.Quantize.Width.{pow_pos}
use metrique.Quantize.Bucket.{IsBucket, shift, bucket, mul_mono}

-- What `SignificantBits::new` admits.
abbrev pub IsValid : Quantizer → Type 0
IsValid q = (1 ≤ q.bits.get) × (q.bits.get ≤ 52)

-- The bound for each mode, the error scaled up by the power of two that the documentation divides by.
abbrev pub IsClose : Rounding → ℕ → ℕ → ℕ → Type 0
IsClose floor bits value result = (result ≤ value) × ((value - result) * 2 ^ (bits - 1) < value)
IsClose ceil bits value result = (value ≤ result) × ((result - value) * 2 ^ (bits - 1) < value)
IsClose midpoint bits value result =
    ((result - value) * 2 ^ bits ≤ value) × ((value - result) * 2 ^ bits ≤ value)

-- A value with few bits is kept, and another is rounded in its bucket.
pub quantize_u64_cases :
    (q : Quantizer) (value : ℕ)
    → value < 2 ^ 64
    → IsValid q
    → ((bit_width 64 value ≤ q.bits.get) × (quantize_u64 q value ≡ value))
      ⊎ ((q.bits.get < bit_width 64 value)
          × (quantize_u64 q value
              ≡ round q.rounding value
                  (value / 2 ^ shift q.bits.get value * 2 ^ shift q.bits.get value)
                  (shift q.bits.get value)))
unfolding quantize_u64
quantize_u64_cases q value word valid = elim (Bool-cases (leb (bit_width 64 value) q.bits.get)) [
  | inl few ↦ inl (leb→le _ _ few, rw few)
  | inr many ↦
      let step = 2 ^ shift q.bits.get value in
      let e : u64 (value / step * step) ≡ value / step * step =
        omega (arith, div-mul-le_self value step) in
      inr (ground arith, rw (many, e))
]

same-IsClose : (mode : Rounding) (bits value : ℕ) → 0 < value → IsClose mode bits value value
same-IsClose floor bits value h = let e : value - value ≡ 0 = omega arith in rw e (omega arith)
same-IsClose ceil bits value h = let e : value - value ≡ 0 = omega arith in rw e (omega arith)
same-IsClose midpoint bits value h = let e : value - value ≡ 0 = omega arith in rw e (omega arith)

mul_strict : (e step base : ℕ) → e < step → 0 < base → e * base < base * step
mul_strict e step base h k = grind arith

le_mul : (base step : ℕ) → 0 < base → step ≤ base * step
le_mul base step h = grind arith

-- The rounding in a bucket, where only `ceil` can reach the end of the words.
module _ (bits value low s count : ℕ)
    (b : IsBucket value low (2 ^ s) (2 ^ (s - 1)) count (2 ^ (bits - 1))) where
  pub step_le : 2 * 2 ^ s ≤ 2 ^ 64
  step_le = omega (arith, b.top_le, le_mul (2 ^ (bits - 1)) (2 ^ s) (pow_pos (bits - 1)))

  pub round-midpoint : round midpoint value low s ≡ low + 2 ^ (s - 1)
  unfolding round
  round-midpoint = omega (arith, step_le, b.halves, b.high_le, b.top_le, b.step_pos)

  pub round-ceil :
      round ceil value low s ≡ (if low == value then value else saturating_add low (2 ^ s))
  unfolding round
  round-ceil = let e : u64 (2 ^ s) ≡ 2 ^ s = omega (arith, step_le, b.step_pos) in rw e

  bounded : (e : ℕ) → e < 2 ^ s → e * 2 ^ (bits - 1) < value
  bounded e h =
      omega
        (arith, mul_strict e (2 ^ s) (2 ^ (bits - 1)) h (pow_pos (bits - 1)), b.base_le, b.low_le)

  within : 1 ≤ bits → (e : ℕ) → e ≤ 2 ^ (s - 1) → e * 2 ^ bits ≤ value
  within some_bits e h =
      let base = 2 ^ (bits - 1) in
      let whole : 2 ^ bits ≡ 2 ^ suc (bits - 1) = ap (λ n. 2 ^ n) (omega arith) in
      omega (
        arith,
        mul_mono (2 ^ bits) h,
        ap (λ k. 2 ^ (s - 1) * k) (whole ∙ pow-suc 2 (bits - 1)),
        ap (λ k. base * k) b.halves,
        b.base_le,
        b.low_le,
      )

  pub round-IsClose :
      (mode : Rounding)
      → 1 ≤ bits
      → value < 2 ^ 64
      → IsClose mode bits value (round mode value low s) × (round mode value low s < 2 ^ 64)
  round-IsClose floor some_bits word =
      unfold round in
      (
        (b.low_le, bounded (value - low) (omega (arith, b.lt_high, b.step_pos))),
        omega (arith, b.low_le),
      )
  round-IsClose ceil some_bits word = rw round-ceil (elim (Bool-cases (low == value)) [
    | inl same ↦ rw same ((omega arith, bounded (value - value) (omega (arith, b.step_pos))), word)
    | inr other ↦
        let above : low < value = ground (arith, b.low_le) in
        rw other (
          (
            omega (arith, b.lt_high, word),
            bounded (saturating_add low (2 ^ s) - value) (omega (arith, above, b.lt_high)),
          ),
          omega arith,
        )
  ])
  round-IsClose midpoint some_bits word = rw round-midpoint (
    (
      within some_bits (low + 2 ^ (s - 1) - value) (omega (arith, b.low_le)),
      within some_bits (value - (low + 2 ^ (s - 1))) (omega (arith, b.lt_high, b.halves)),
    ),
    omega (arith, step_le, b.halves, b.high_le, b.top_le, b.step_pos),
  )

-- The error of a quantized positive word has the side and the bound that the documentation gives
-- for its mode, and the result is a word.
pub quantize_u64-IsClose :
    (q : Quantizer) (value : ℕ)
    → IsValid q
    → value < 2 ^ 64
    → 0 < value
    → IsClose q.rounding q.bits.get value (quantize_u64 q value) × (quantize_u64 q value < 2 ^ 64)
quantize_u64-IsClose q value valid word pos = elim (quantize_u64_cases q value word valid) [
  | inl (few, same) ↦ rw same (same-IsClose q.rounding q.bits.get value pos, word)
  | inr (many, rounded) ↦ rw rounded (
      round-IsClose q.bits.get value _ (shift q.bits.get value) _
        (bucket q.bits.get value valid.0 word many) q.rounding valid.0 word)
]
