-- ===== src/Quantize/Float/Rounds.antt =====
-- What `quantize_f64` makes of a normal number, against its exact rounding.
use native.Mathlib.Nat.{
  pow-suc, add-mul-div_right, div-lt_iff_lt-mul, div-mul-le_self, lt-div-mul-add,
}
use native.Mathlib.Decide.{dec_lt}
use metrique.Prelude.{
  ℕ, suc, ◌+◌, ◌-◌, ◌*◌, ◌/◌, ◌%◌, ◌^◌, ◌≤◌, ◌<◌, ◌≡◌, ap, sym, arith, ◌∙◌, false, true,
  if◌then◌else◌, ◌==◌, min, Bool-cases, inl, inr,
}
use metrique.Quantize.{Quantizer, Rounding, floor, ceil, midpoint}
use metrique.Quantize.Width.{pow_pos, pow_add}
use metrique.Quantize.Bucket.{mul_mono}
use metrique.Quantize.Bounds.{IsValid}
use metrique.Quantize.Float.{
  infinity, f64_max, min_positive, is_sign_negative, abs, is_finite, swap_sides, round_raw, clamp,
}
use metrique.Quantize.Float.Value.{
  value_of, round_to, step_of, value_at, count_unique, ceil_same, ceil_other, value_of_top,
  value_of_infinity, normal_parts,
}

mul_strict_mono : (a b w : ℕ) → a < b → 0 < w → a * w < b * w
mul_strict_mono a b w h pos = grind arith

distribute : (c q s w : ℕ) → (c + q) * (s * w) ≡ (c * s + q * s) * w
distribute c q s w = omega arith

-- A normal magnitude with the significand `2 ^ 52 + f`, of which multiples of `s` are kept.
module _ (e f c d : ℕ) (fits : e < 2046) (below : f < 2 ^ 52) (cut : c * 2 ^ d ≡ 2 ^ 52)
    (some_dropped : 1 ≤ d) where
  abbrev s : ℕ
  s = 2 ^ d

  abbrev w : ℕ
  w = 2 ^ e

  abbrev g : ℕ
  g = f / s * s

  abbrev raw : ℕ
  raw = suc e * 2 ^ 52 + f

  abbrev exact : ℕ
  exact = (2 ^ 52 + f) * w

  g_le : g ≤ f
  g_le = div-mul-le_self f s

  g_gt : f < g + s
  g_gt = lt-div-mul-add (pow_pos d)

  g_high : g + s ≤ 2 ^ 52
  g_high =
      let h : suc (f / s) ≤ c = (div-lt_iff_lt-mul (pow_pos d)).1 (omega (arith, cut, below)) in
      omega (arith, mul_mono s h, cut)

  halves : s ≡ 2 ^ (d - 1) + 2 ^ (d - 1)
  halves =
      let e : d ≡ suc (d - 1) = omega arith in omega (arith, ap (λ n. 2 ^ n) e, pow-suc 2 (d - 1))

  low_raw : raw / s * s ≡ suc e * 2 ^ 52 + g
  low_raw =
      let apart : raw ≡ f + suc e * c * s = grind (arith, cut) in
      ap (λ n. n / s * s) apart
      ∙ ap (λ n. n * s) (add-mul-div_right f (suc e * c) (pow_pos d))
      ∙ grind (arith, cut)

  abbrev count : ℕ
  count = c + f / s

  count_low : count * (s * w) ≡ (2 ^ 52 + g) * w
  count_low = distribute c (f / s) s w ∙ ap (λ p. (p + g) * w) cut

  exact_low : count * (s * w) ≤ exact
  exact_low = rw count_low (mul_mono w (omega (arith, g_le)))

  exact_high : exact < count * (s * w) + s * w
  exact_high =
      let h = mul_strict_mono (2 ^ 52 + f) (2 ^ 52 + g + s) w (omega (arith, g_gt)) (pow_pos e) in
      omega (arith, h, count_low)

  step_pos : 0 < s * w
  step_pos = grind (arith, pow_pos d, pow_pos e)

  round_to-floor : round_to floor (s * w) exact ≡ (2 ^ 52 + g) * w
  unfolding round_to
  round_to-floor =
      ap (λ n. n * (s * w)) (count_unique (s * w) exact count step_pos exact_low exact_high)
      ∙ count_low

  round_to-midpoint : round_to midpoint (s * w) exact ≡ (2 ^ 52 + (g + 2 ^ (d - 1))) * w
  unfolding round_to
  round_to-midpoint =
      let half : s * w / 2 ≡ 2 ^ (d - 1) * w = omega (arith, ap (λ n. n * w) halves) in
      rw (count_unique (s * w) exact count step_pos exact_low exact_high, half)
        (omega (arith, count_low))

  round_to-ceil_same : g ≡ f → round_to ceil (s * w) exact ≡ exact
  unfolding round_to
  round_to-ceil_same same =
      let whole : exact ≡ count * (s * w) = ap (λ n. (2 ^ 52 + n) * w) (sym same) ∙ sym count_low in
      ap (λ n. n * (s * w)) (ceil_same (s * w) exact count step_pos exact_low exact_high whole)
      ∙ sym whole

  round_to-ceil_other : g < f → round_to ceil (s * w) exact ≡ (2 ^ 52 + (g + s)) * w
  unfolding round_to
  round_to-ceil_other less =
      let above : count * (s * w) < exact =
        rw count_low
          (mul_strict_mono (2 ^ 52 + g) (2 ^ 52 + f) w (omega (arith, less)) (pow_pos e)) in
      ap (λ n. n * (s * w)) (ceil_other (s * w) exact count step_pos exact_low exact_high above)
      ∙ omega (arith, count_low)

  -- The significand that a mode leaves, at most the next power of two.
  abbrev kept : Rounding → ℕ
  kept floor = g
  kept ceil = if g == f then f else g + s
  kept midpoint = g + 2 ^ (d - 1)

  kept_le : (mode : Rounding) → kept mode ≤ 2 ^ 52
  kept_le floor = omega (arith, g_high)
  kept_le ceil = ground (arith, g_high)
  kept_le midpoint = omega (arith, g_high, halves)

  round_to-kept : (mode : Rounding) → round_to mode (s * w) exact ≡ (2 ^ 52 + kept mode) * w
  round_to-kept floor = round_to-floor
  round_to-kept midpoint = round_to-midpoint
  round_to-kept ceil = elim (Bool-cases (g == f)) [
    | inl same ↦ rw same (round_to-ceil_same (ground arith))
    | inr other ↦ rw other (round_to-ceil_other (ground (arith, g_le)))
  ]

  round_raw-kept :
      (mode : Rounding) → round_raw mode raw (raw / s * s) d ≡ suc e * 2 ^ 52 + kept mode
  unfolding round_raw
  round_raw-kept floor = low_raw
  round_raw-kept midpoint = rw low_raw (omega (arith, g_high, halves))
  round_raw-kept ceil = rw low_raw (elim (Bool-cases (g == f)) [
    | inl same ↦ let e : (suc e * 2 ^ 52 + g == raw) ≡ true = ground (arith, same) in rw (same, e)
    | inr other ↦
        let e : (suc e * 2 ^ 52 + g == raw) ≡ false = ground (arith, other) in
        rw (other, e) (omega (arith, g_high))
  ])

  -- Before the clamp the result is the exact rounding, and it is an infinity at most.
  round_raw_value :
      (mode : Rounding)
      → (value_of (round_raw mode raw (raw / s * s) d) ≡ round_to mode (s * w) exact)
        × (min_positive ≤ round_raw mode raw (raw / s * s) d)
        × (round_raw mode raw (raw / s * s) d ≤ infinity)
  round_raw_value mode = rw (round_raw-kept mode) (
    value_at e (kept mode) (kept_le mode) ∙ sym (round_to-kept mode),
    omega arith,
    omega (arith, kept_le mode),
  )

round_raw_at :
    (mode : Rounding) (m e f c d : ℕ)
    → m ≡ suc e * 2 ^ 52 + f
    → e < 2046
    → f < 2 ^ 52
    → c * 2 ^ d ≡ 2 ^ 52
    → 1 ≤ d
    → (value_of (round_raw mode m (m / 2 ^ d * 2 ^ d) d) ≡ round_to mode (2 ^ (e + d)) (value_of m))
      × (min_positive ≤ round_raw mode m (m / 2 ^ d * 2 ^ d) d)
      × (round_raw mode m (m / 2 ^ d * 2 ^ d) d ≤ infinity)
round_raw_at mode m e f c d parts fits below cut some_dropped =
    let step : 2 ^ (e + d) ≡ 2 ^ d * 2 ^ e = omega (arith, pow_add e d) in
    let significand : f ≤ 2 ^ 52 = omega arith in
    rw (parts, step, value_at e f significand)
      (round_raw_value e f c d fits below cut some_dropped mode)

abbrev pub mode_at : Quantizer → ℕ → Rounding
mode_at q value = if is_sign_negative value then swap_sides q.rounding else q.rounding

-- The raw result at a normal magnitude, by its parts.
unfoldable pub raw_result : Quantizer → ℕ → ℕ
raw_result q value =
    round_raw (mode_at q value) (abs value)
      (abs value / 2 ^ (53 - q.bits.get) * 2 ^ (53 - q.bits.get)) (53 - q.bits.get)

pub raw_result_value :
    (q : Quantizer) (value : ℕ)
    → IsValid q
    → min_positive ≤ abs value
    → abs value < infinity
    → (value_of (raw_result q value)
        ≡ round_to (mode_at q value) (step_of q.bits.get (abs value)) (value_of (abs value)))
      × (min_positive ≤ raw_result q value)
      × (raw_result q value ≤ infinity)
unfolding raw_result step_of
raw_result_value q value valid normal finite =
    let m = abs value in
    let e = m / 2 ^ 52 - 1 in
    let f = m % 2 ^ 52 in
    let d = 53 - q.bits.get in
    let c = 2 ^ (q.bits.get - 1) in
    let whole : q.bits.get - 1 + d ≡ 52 = omega (arith, valid) in
    let cut : c * 2 ^ d ≡ 2 ^ 52 = sym (pow_add (q.bits.get - 1) d) ∙ ap (λ n. 2 ^ n) whole in
    round_raw_at (mode_at q value) m e f c d (normal_parts m normal) (omega arith) (omega arith) cut
      (omega (arith, valid))

pub clamp_value :
    (raw : ℕ)
    → min_positive ≤ raw
    → raw ≤ infinity
    → (value_of (clamp raw) ≡ min (value_of raw) (value_of f64_max)) × (clamp raw < infinity)
unfolding clamp
clamp_value raw normal small = elim (dec_lt raw infinity) [
  | yes less ↦
      let e : is_finite raw ≡ true = ground arith in
      rw e (omega (arith, value_of_top raw normal less), less)
  | no more ↦
      let top : raw ≡ infinity = omega arith in
      let e : is_finite raw ≡ false = ground arith in
      rw e (rw top (omega (arith, value_of_infinity)), omega arith)
]
