-- ===== src/Quantize/Order.antt =====
-- Quantizing keeps the order of words, and quantizing again changes nothing.
use native.Mathlib.Nat.{pow-suc}
use native.Mathlib.Decide.{dec_lt}
use metrique.Prelude.{
  ℕ, suc, ◌+◌, ◌-◌, ◌*◌, ◌/◌, ◌^◌, ◌≤◌, ◌<◌, ◌≡◌, ◌==◌, inl, inr, ap, sym, ◌∙◌, arith, Bool-cases,
}
use metrique.Quantize.{
  Quantizer, Rounding, floor, ceil, midpoint, bit_width, round, quantize_u64, exact_below,
}
use metrique.Quantize.Width.{pow_add, pow_mono, lt-bit_width, bit_width-le}
use metrique.Quantize.Bucket.{IsBucket, bucket, mul_mono}
use metrique.Quantize.Bounds.{IsValid, quantize_u64_cases, step_le, round-midpoint, round-ceil}

-- The bit width is determined by the powers of two around the number.
pub bit_width_unique : (n w v : ℕ) → w ≤ n → 0 < w → 2 ^ (w - 1) ≤ v → v < 2 ^ w → bit_width n v ≡ w
bit_width_unique n w v h pos lo hi =
    let word : v < 2 ^ n = omega (arith, pow_mono w n h) in
    let x = bit_width n v in
    elim (dec_lt x w) [
      | yes less ↦ absurd (omega (arith, lt-bit_width n v word, pow_mono x (w - 1) (omega arith)))
      | no more ↦ elim (dec_lt w x) [
        | yes above ↦
            absurd (omega (arith, bit_width-le n v (omega arith), pow_mono w (x - 1) (omega arith)))
        | no same ↦ omega arith
      ]
    ]

-- Values below `exact_below` are kept, zero among them.
pub quantize_u64_exact :
    (q : Quantizer) (value : ℕ)
    → IsValid q
    → value < exact_below q.bits
    → quantize_u64 q value ≡ value
unfolding exact_below
quantize_u64_exact q value valid small =
    let b = q.bits.get in
    let limit : value < 2 ^ b = omega arith in
    let word : value < 2 ^ 64 = omega (arith, pow_mono b 64 (omega (arith, valid))) in
    elim (quantize_u64_cases q value word valid) [
      | inl (few, same) ↦ same
      | inr (many, rounded) ↦ absurd (
          omega (
            arith,
            bit_width-le 64 value (omega arith),
            pow_mono b (bit_width 64 value - 1) (omega arith),
          ))
    ]

-- Where the rounded value lies, in any mode: between the bottom of the bucket and its end.
module _ (bits value low s count : ℕ)
    (b : IsBucket value low (2 ^ s) (2 ^ (s - 1)) count (2 ^ (bits - 1))) where
  pub round_ge : (mode : Rounding) → low ≤ round mode value low s
  round_ge floor = unfold round in omega arith
  round_ge ceil = rw (round-ceil bits value low s count b) (elim (Bool-cases (low == value)) [
    | inl same ↦ rw same b.low_le
    | inr other ↦ rw other (omega (arith, b.low_le, b.high_le, b.top_le, b.step_pos))
  ])
  round_ge midpoint = rw (round-midpoint bits value low s count b) (omega arith)

  pub round_le :
      (mode : Rounding)
      → value < 2 ^ 64
      → (round mode value low s ≤ low + 2 ^ s) × (round mode value low s < 2 ^ 64)
  round_le floor word = unfold round in (omega arith, omega (arith, b.low_le))
  round_le ceil word = rw (round-ceil bits value low s count b) (elim (Bool-cases (low == value)) [
    | inl same ↦ rw same (omega (arith, b.lt_high), word)
    | inr other ↦ rw other (omega arith, omega arith)
  ])
  round_le midpoint word = rw (round-midpoint bits value low s count b) (
    omega (arith, b.halves),
    omega (arith, b.halves, b.high_le, b.top_le, b.step_pos, step_le bits value low s count b),
  )

-- The least number of a width, as the bucket has it.
pub least_of_width :
    (bits w : ℕ) → 1 ≤ bits → bits < w → 2 ^ (w - 1) ≡ 2 ^ (bits - 1) * 2 ^ (w - bits)
least_of_width bits w h k =
    let e : w - 1 ≡ (bits - 1) + (w - bits) = omega arith in
    ap (λ n. 2 ^ n) e ∙ pow_add (bits - 1) (w - bits)

-- In two buckets of one width, rounding keeps the order.
round_mono :
    (mode : Rounding) (bits s value low count value' low' count' : ℕ)
    → IsBucket value low (2 ^ s) (2 ^ (s - 1)) count (2 ^ (bits - 1))
    → IsBucket value' low' (2 ^ s) (2 ^ (s - 1)) count' (2 ^ (bits - 1))
    → value ≤ value'
    → value' < 2 ^ 64
    → round mode value low s ≤ round mode value' low' s
round_mono mode bits s value low count value' low' count' b b' h word = elim (dec_lt count count') [
  | yes less ↦
      let apart = mul_mono (2 ^ s) less in
      omega (
        arith,
        round_le bits value low s count b mode (omega arith),
        round_ge bits value' low' s count' b' mode,
        b.multiple,
        b'.multiple,
        apart,
      )
  | no more ↦ elim (dec_lt count' count) [
    | yes above ↦
        absurd
          (omega (arith, mul_mono (2 ^ s) above, b.multiple, b'.multiple, b.low_le, b'.lt_high))
    | no same_side ↦
        let e : low' ≡ low = b'.multiple ∙ ap (λ c. c * 2 ^ s) (omega arith) ∙ sym b.multiple in
        same_bucket mode e
  ]
]
  where
    same_bucket : (mode : Rounding) → low' ≡ low → round mode value low s ≤ round mode value' low' s
    same_bucket floor e = unfold round in omega arith
    same_bucket midpoint e =
        rw (round-midpoint bits value low s count b, round-midpoint bits value' low' s count' b')
          (omega arith)
    same_bucket ceil e =
        rw (round-ceil bits value low s count b, round-ceil bits value' low' s count' b')
          (ground (arith, b.low_le, b.lt_high, b'.low_le))

bit_width_mono : (n a b : ℕ) → a ≤ b → b < 2 ^ n → bit_width n a ≤ bit_width n b
bit_width_mono n a b h word = elim (dec_lt (bit_width n b) (bit_width n a)) [
  | yes less ↦ absurd (
      omega (
        arith,
        lt-bit_width n b word,
        bit_width-le n a (omega arith),
        pow_mono (bit_width n b) (bit_width n a - 1) (omega arith),
      ))
  | no same_side ↦ omega arith
]

-- Quantizing keeps the order of words, in every mode.
pub quantize_u64_mono :
    (q : Quantizer) (value value' : ℕ)
    → IsValid q
    → value ≤ value'
    → value' < 2 ^ 64
    → quantize_u64 q value ≤ quantize_u64 q value'
quantize_u64_mono q value value' valid h word =
    let k = q.bits.get in
    let w = bit_width 64 value in
    let w' = bit_width 64 value' in
    let word₀ : value < 2 ^ 64 = omega arith in
    elim (quantize_u64_cases q value word₀ valid) [
      | inl (few, same) ↦ elim (quantize_u64_cases q value' word valid) [
        | inl (few', same') ↦ omega arith
        | inr (many', rounded') ↦
            let b' = bucket k value' valid.0 word many' in
            rw (same, rounded')
              (omega (
                arith,
                lt-bit_width 64 value word₀,
                pow_mono w (w' - 1) (omega arith),
                least_of_width k w' valid.0 many',
                b'.base_le,
                round_ge k value' _ _ _ b' q.rounding,
              ))
      ]
      | inr (many, rounded) ↦ elim (quantize_u64_cases q value' word valid) [
        | inl (few', same') ↦ absurd (omega (arith, bit_width_mono 64 value value' h word))
        | inr (many', rounded') ↦
            let b = bucket k value valid.0 word₀ many in
            let b' = bucket k value' valid.0 word many' in
            elim (dec_lt w w') [
              | yes wider ↦
                  rw (rounded, rounded')
                    (omega (
                      arith,
                      round_le k value _ _ _ b q.rounding word₀,
                      b.high_le,
                      least_of_width k w valid.0 many,
                      least_of_width k w' valid.0 many',
                      b'.base_le,
                      round_ge k value' _ _ _ b' q.rounding,
                      pow_mono w (w' - 1) (omega arith),
                      ap (λ n. 2 ^ n) {x = w} {y = suc (w - 1)} (omega arith),
                      pow-suc 2 (w - 1),
                    ))
              | no same_side ↦
                  let e : w' ≡ w = omega (arith, bit_width_mono 64 value value' h word) in
                  let s = w - k in
                  let b₁ : IsBucket value' (value' / 2 ^ s * 2 ^ s) (2 ^ s) (2 ^ (s - 1))
                      (value' / 2 ^ s) (2 ^ (k - 1)) =
                    rw e at b' in
                  let rounded₁ : quantize_u64 q value'
                      ≡ round q.rounding value' (value' / 2 ^ s * 2 ^ s) s =
                    rw e at rounded' in
                  rw (rounded, rounded₁)
                    (round_mono q.rounding k s value _ _ value' _ _ b b₁ h word)
            ]
      ]
    ]
