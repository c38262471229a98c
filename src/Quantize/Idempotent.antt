-- ===== src/Quantize/Idempotent.antt =====
-- Quantizing a quantized word changes nothing.
use native.Mathlib.Nat.{pow-suc, le-div_iff_mul-le, div-lt_iff_lt-mul}
use native.Mathlib.Decide.{dec_lt}
use metrique.Prelude.{
  ℕ, suc, ◌+◌, ◌-◌, ◌*◌, ◌/◌, ◌^◌, ◌≤◌, ◌<◌, ◌≡◌, if◌then◌else◌, ◌==◌, true, false, u64, inl, inr,
  refl, ap, ◌∙◌, arith, Bool, Bool-cases,
}
use metrique.Quantize.{
  Quantizer, SignificantBits, Rounding, floor, ceil, midpoint, bit_width, saturating_add, round,
  quantize_u64,
}
use metrique.Quantize.Width.{pow_pos, pow_mono, bit_width_le}
use metrique.Quantize.Bucket.{IsBucket, bucket}
use metrique.Quantize.Bounds.{IsValid, quantize_u64_cases, step_le, round-midpoint}
use metrique.Quantize.Order.{bit_width_unique, least_of_width}

twice_pow : (n : ℕ) → 0 < n → 2 ^ n ≡ 2 * 2 ^ (n - 1)
twice_pow n h =
    let e : n ≡ suc (n - 1) = omega arith in omega (arith, ap (λ m. 2 ^ m) e, pow-suc 2 (n - 1))

eq_self : (n : ℕ) → (n == n) ≡ true
eq_self n = ground arith

round-ceil_self : (v s : ℕ) → round ceil v v s ≡ v
unfolding round
round-ceil_self v s = rw (eq_self v)

module _ (bits : SignificantBits) (valid : (1 ≤ bits.get) × (bits.get ≤ 52)) where
  abbrev k : ℕ
  k = bits.get

  abbrev quantizer : Rounding → Quantizer
  quantizer mode = record { bits = bits; rounding = mode }

  -- A word of known width `w` is rounded in a bucket of width `2 ^ (w - k)`.
  at_width :
      (mode : Rounding) (w v : ℕ)
      → k < w
      → w ≤ 64
      → 2 ^ (w - 1) ≤ v
      → v < 2 ^ w
      → quantize_u64 (quantizer mode) v ≡ round mode v (v / 2 ^ (w - k) * 2 ^ (w - k)) (w - k)
  at_width mode w v wide small lo hi =
      let e : bit_width 64 v ≡ w = bit_width_unique 64 w v small (omega arith) lo hi in
      elim (quantize_u64_cases (quantizer mode) v (omega (arith, pow_mono w 64 small)) valid) [
        | inl (few, same) ↦ absurd (omega arith)
        | inr (many, rounded) ↦ rw e at rounded
      ]

  -- The number `count` is the quotient of all numbers of its bucket.
  quotient :
      (v count step : ℕ) → 0 < step → count * step ≤ v → v < count * step + step → v / step ≡ count
  quotient v count step pos lo hi =
      let le = (le-div_iff_mul-le {k = step} {x = count} {y = v} pos).1 lo in
      let lt = (div-lt_iff_lt-mul {k = step} {x = v} {y = suc count} pos).1 (omega arith) in
      omega arith

  module _ (value : ℕ) (word : value < 2 ^ 64) (many : k < bit_width 64 value) where
    abbrev w : ℕ
    w = bit_width 64 value

    abbrev step : ℕ
    step = 2 ^ (w - k)

    abbrev low : ℕ
    low = value / step * step

    b : IsBucket value low step (2 ^ (w - k - 1)) (value / step) (2 ^ (k - 1))
    b = bucket k value valid.0 word many

    least : 2 ^ (w - 1) ≡ 2 ^ (k - 1) * step
    least = least_of_width k w valid.0 many

    -- A number of the same width in the same bucket is rounded like the value.
    same_bucket :
        (mode : Rounding) (v : ℕ)
        → low ≤ v
        → v < low + step
        → quantize_u64 (quantizer mode) v ≡ round mode v low (w - k)
    same_bucket mode v lo hi =
        let e : v / step ≡ value / step = quotient v (value / step) step b.step_pos lo hi in
        at_width mode w v many (bit_width_le 64 value) (omega (arith, least, b.base_le))
          (omega (arith, least, twice_pow w (omega arith), b.high_le))
        ∙ rw e

    -- The end of the bucket, as far as a word holds it.
    abbrev end : ℕ
    end = saturating_add low (u64 step)

    end_lem : end ≡ saturating_add low step
    end_lem = omega (arith, step_le k value low (w - k) (value / step) b, b.step_pos)

    next_width : ¬ (low + step < 2 ^ w) → w < 64 → quantize_u64 (quantizer ceil) end ≡ end
    next_width outside narrow =
        let next = 2 ^ (suc w - k) in
        let here : 2 ^ (suc w - 1) ≡ 2 ^ w = ap (λ n. 2 ^ n) (omega arith) in
        let is : end ≡ 2 ^ (k - 1) * next = omega (
          arith,
          end_lem,
          b.high_le,
          outside,
          least,
          twice_pow w (omega arith),
          here,
          pow_mono w 63 (omega arith),
          least_of_width k (suc w) valid.0 (omega arith),
        ) in
        let q : end / next ≡ 2 ^ (k - 1) =
          quotient end (2 ^ (k - 1)) next (pow_pos (suc w - k)) (omega arith)
            (omega (arith, pow_pos (suc w - k))) in
        let base = least_of_width k (suc w) valid.0 (omega arith) in
        at_width ceil (suc w) end (omega arith) narrow (omega (arith, base))
          (omega (arith, base, twice_pow (suc w) (omega arith), pow_pos (suc w - 1)))
        ∙ rw (q, ← is) (round-ceil_self end (suc w - k))

    last_word : ¬ (low + step < 2 ^ w) → ¬ (w < 64) → quantize_u64 (quantizer ceil) end ≡ end
    unfolding round
    last_word outside last =
        let top : 2 ^ w ≡ 2 ^ 64 =
          ap (λ n. 2 ^ n) {x = w} {y = 64} (omega (arith, bit_width_le 64 value)) in
        same_bucket ceil end (omega (arith, end_lem, b.low_le))
          (omega (arith, end_lem, outside, top, b.step_pos))
        ∙ either (low == end)
      where
        either : (t : Bool) → (if t then end else end) ≡ end
        either true = refl
        either false = refl

    -- The end of the bucket is kept: within the same width, at the next width, or at the last word.
    end_kept : round ceil value low (w - k) ≡ end → quantize_u64 (quantizer ceil) end ≡ end
    end_kept e = elim (dec_lt (low + step) (2 ^ w)) [
      | yes inside ↦
          let count = suc (value / step) in
          let is : end ≡ count * step =
            omega (arith, end_lem, pow_mono w 64 (bit_width_le 64 value)) in
          let q : end / step ≡ count =
            quotient end count step b.step_pos (omega arith) (omega (arith, b.step_pos)) in
          at_width ceil w end many (bit_width_le 64 value) (omega (arith, least, b.base_le))
            (omega arith)
          ∙ rw (q, ← is) (round-ceil_self end (w - k))
      | no outside ↦ elim (dec_lt w 64) [
        | yes narrow ↦ next_width outside narrow
        | no last ↦ last_word outside last
      ]
    ]

    idempotent :
        (mode : Rounding)
        → quantize_u64 (quantizer mode) (round mode value low (w - k))
          ≡ round mode value low (w - k)
    idempotent floor =
        unfold round in same_bucket floor low (omega arith) (omega (arith, b.step_pos))
    idempotent midpoint =
        let e = round-midpoint k value low (w - k) (value / step) b in
        unfold round in
        same_bucket midpoint (round midpoint value low (w - k)) (omega (arith, e))
          (omega (arith, e, b.halves, b.step_pos))
    idempotent ceil = elim (Bool-cases (low == value)) [
      | inl same ↦
          let e : round ceil value low (w - k) ≡ value = unfold round in rw same in
          rw e (same_bucket ceil value b.low_le b.lt_high ∙ e)
      | inr other ↦
          let e : round ceil value low (w - k) ≡ end = unfold round in rw other in rw e (end_kept e)
    ]

-- A quantized word is kept by quantizing it again with the same settings, in every mode.
pub quantize_u64_idempotent :
    (q : Quantizer) (value : ℕ)
    → IsValid q
    → value < 2 ^ 64
    → quantize_u64 q (quantize_u64 q value) ≡ quantize_u64 q value
quantize_u64_idempotent q value valid word = elim (quantize_u64_cases q value word valid) [
  | inl (few, same) ↦ ap (quantize_u64 q) same
  | inr (many, rounded) ↦ rw rounded (idempotent q.bits valid value word many q.rounding)
]
