-- ===== src/Quantize/Float/Bounds.antt =====
-- What `quantize_f64` promises of its result.
use native.Mathlib.Nat.{pow-suc}
use metrique.Prelude.{
  ℕ, suc, ◌+◌, ◌-◌, ◌*◌, ◌/◌, ◌%◌, ◌^◌, ◌≤◌, ◌<◌, ◌≡◌, ap, arith, ltb, Bool, le→leb, leb, refl, ◌∙◌,
  not, ◌||◌, ◌==◌, false, true, if◌then◌else◌, min, Bool-cases, inl, inr, ◌⊎◌, sym,
}
use metrique.Quantize.{Quantizer, Rounding, floor, ceil, midpoint}
use metrique.Quantize.Width.{pow_pos, pow_add}
use metrique.Quantize.Bucket.{mul_mono}
use metrique.Quantize.Bounds.{IsValid, IsClose}
use metrique.Quantize.Float.{
  swap_sides, infinity, f64_max, min_positive, is_sign_negative, abs, negate, is_finite, clamp,
  quantize_f64,
}
use metrique.Quantize.Float.Value.{
  value_of, round_to, step_of, normal_parts, value_at, value_of_top,
}
use metrique.Quantize.Float.Close.{round_to-IsClose, min-IsClose}
use metrique.Quantize.Float.Rounds.{mode_at, raw_result, raw_result_value, clamp_value}

-- A finite number that is neither zero nor a subnormal.
abbrev pub IsNormal : ℕ → Type 0
IsNormal value = (min_positive ≤ abs value) × (abs value < infinity)

normal_result :
    (q : Quantizer) (value : ℕ)
    → IsNormal value
    → quantize_f64 q value ≡ (
        if is_sign_negative value
        then negate (clamp (raw_result q value))
        else clamp (raw_result q value))
unfolding quantize_f64 raw_result
normal_result q value normal =
    let number : (not (is_finite value) || (abs value == 0)) ≡ false = ground (arith, normal) in
    let large : ltb (abs value) min_positive ≡ false = ground (arith, normal) in rw (number, large)

signed :
    (value c : ℕ)
    → c < infinity
    → (is_sign_negative (if is_sign_negative value then negate c else c) ≡ is_sign_negative value)
      × (abs (if is_sign_negative value then negate c else c) ≡ c)
signed value c h = elim (Bool-cases (is_sign_negative value)) [
  | inl negative ↦
      let e : negate c ≡ c + 2 ^ 63 = ground arith in rw (negative, e) (ground arith, omega arith)
  | inr positive ↦ rw positive (ground arith, omega arith)
]

-- A double that is normal keeps its sign and stays finite, and its magnitude is rounded exactly, to
-- the side that the mode asks of the signed number, but to no more than the largest finite double.
pub quantize_f64_rounds :
    (q : Quantizer) (value : ℕ)
    → IsValid q
    → IsNormal value
    → (is_sign_negative (quantize_f64 q value) ≡ is_sign_negative value)
      × (is_finite (quantize_f64 q value) ≡ true)
      × (value_of (abs (quantize_f64 q value))
          ≡ min
              (round_to (mode_at q value) (step_of q.bits.get (abs value)) (value_of (abs value)))
              (value_of f64_max))
quantize_f64_rounds q value valid normal =
    let r = raw_result_value q value valid normal.0 normal.1 in
    let c = clamp_value (raw_result q value) r.1 r.2 in
    let s = signed value (clamp (raw_result q value)) c.1 in
    rw (normal_result q value normal) (
      s.0,
      ap (λ m. ltb m infinity) s.1 ∙ ground (arith, c.1),
      ap value_of s.1 ∙ c.0 ∙ ap (λ n. min n (value_of f64_max)) r.0,
    )

-- Zeros, subnormals, infinities and NaN pass through.
pub quantize_f64_passes :
    (q : Quantizer) (value : ℕ)
    → (abs value < min_positive) ⊎ (infinity ≤ abs value)
    → quantize_f64 q value ≡ value
unfolding quantize_f64
quantize_f64_passes q value (inl small) = ground (arith, small)
quantize_f64_passes q value (inr large) =
    let special : is_finite value ≡ false = ground (arith, large) in rw special

step-IsClose :
    (q : Quantizer) (value : ℕ)
    → IsValid q
    → IsNormal value
    → IsClose
        (mode_at q value)
        q.bits.get
        (value_of (abs value))
        (round_to (mode_at q value) (step_of q.bits.get (abs value)) (value_of (abs value)))
unfolding step_of
step-IsClose q value valid normal =
    let bits = q.bits.get in
    let m = abs value in
    let e = m / 2 ^ 52 - 1 in
    let n = e + (53 - bits) in
    let half = 2 ^ (n - 1) in
    let last : n ≡ suc (n - 1) = omega (arith, valid) in
    let step : 2 ^ n ≡ half + half = omega (arith, ap (λ k. 2 ^ k) last, pow-suc 2 (n - 1)) in
    let whole : bits - 1 + n ≡ 52 + e = omega (arith, valid) in
    let least : 2 ^ (bits - 1) * 2 ^ n ≡ 2 ^ 52 * 2 ^ e =
      sym (pow_add (bits - 1) n) ∙ ap (λ k. 2 ^ k) whole ∙ pow_add 52 e in
    let number : value_of m ≡ (2 ^ 52 + m % 2 ^ 52) * 2 ^ e =
      ap value_of (normal_parts m normal.0) ∙ value_at e (m % 2 ^ 52) (omega arith) in
    let enough : 2 ^ (bits - 1) * (half + half) ≤ value_of m = omega (
      arith,
      number,
      ap (λ k. 2 ^ (bits - 1) * k) step,
      least,
      mul_mono {m = 2 ^ 52} {n = 2 ^ 52 + m % 2 ^ 52} (2 ^ e) (omega arith),
    ) in
    rw step
      (round_to-IsClose (mode_at q value) bits half (value_of m) valid.0 (pow_pos (n - 1)) enough)

-- The order of the numbers that two doubles stand for, by their signs.
unfoldable pub at_most : ℕ → ℕ → Bool
at_most a b =
    if is_sign_negative a
    then (if is_sign_negative b then leb (value_of (abs b)) (value_of (abs a)) else true)
    else (if is_sign_negative b then false else leb (value_of (abs a)) (value_of (abs b)))

abbrev pub IsSided : Rounding → ℕ → ℕ → Type 0
IsSided floor value result = at_most result value ≡ true
IsSided ceil value result = at_most value result ≡ true
IsSided midpoint value result = Unit

close-IsSided :
    (mode : Rounding) (negative : Bool) (bits value result : ℕ)
    → is_sign_negative value ≡ negative
    → is_sign_negative result ≡ negative
    → IsClose
        (if negative then swap_sides mode else mode)
        bits
        (value_of (abs value))
        (value_of (abs result))
    → IsSided mode value result
unfolding at_most swap_sides
close-IsSided floor true bits value result v r k = rw (v, r) (le→leb _ _ k.0)
close-IsSided floor false bits value result v r k = rw (v, r) (le→leb _ _ k.0)
close-IsSided ceil true bits value result v r k = rw (v, r) (le→leb _ _ k.0)
close-IsSided ceil false bits value result v r k = rw (v, r) (le→leb _ _ k.0)
close-IsSided midpoint negative bits value result v r k = tt

-- At a normal double the error has the bound that the documentation gives, in multiples of the
-- least positive double, and the result is on the side of the signed number that the mode asks for.
pub quantize_f64-IsClose :
    (q : Quantizer) (value : ℕ)
    → IsValid q
    → IsNormal value
    → IsClose
        (mode_at q value)
        q.bits.get
        (value_of (abs value))
        (value_of (abs (quantize_f64 q value)))
      × IsSided q.rounding value (quantize_f64 q value)
quantize_f64-IsClose q value valid normal =
    let r = quantize_f64_rounds q value valid normal in
    let close : IsClose (mode_at q value) q.bits.get (value_of (abs value))
        (value_of (abs (quantize_f64 q value))) =
      rw r.2 (
        min-IsClose (mode_at q value) q.bits.get (value_of (abs value))
          (round_to (mode_at q value) (step_of q.bits.get (abs value)) (value_of (abs value)))
          (value_of f64_max) (value_of_top (abs value) normal.0 normal.1)
          (step-IsClose q value valid normal)) in
    (
      close,
      close-IsSided q.rounding (is_sign_negative value) q.bits.get value (quantize_f64 q value) refl
          r.0 close,
    )
