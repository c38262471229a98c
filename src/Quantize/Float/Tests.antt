-- ===== src/Quantize/Float/Tests.antt =====
-- Doubles of the documentation, and instances of the theorems.
use metrique.Prelude.{ℕ, ◌≡◌, refl, arith, min, true}
use metrique.Quantize.{Quantizer, SignificantBits, floor, ceil, midpoint}
use metrique.Quantize.Bounds.{IsClose}
use metrique.Quantize.Float.{
  swap_sides, round_raw, clamp, quantize_f64, is_sign_negative, is_finite, abs, infinity, f64_max,
}
use metrique.Quantize.Float.Value.{value_of, round_to, step_of}
use metrique.Quantize.Float.Bounds.{at_most, quantize_f64_rounds, quantize_f64-IsClose}

abbrev four : SignificantBits
four = record { get = 4 }

abbrev floor4 : Quantizer
floor4 = record { bits = four; rounding = floor }

abbrev ceil4 : Quantizer
ceil4 = record { bits = four; rounding = ceil }

abbrev mid4 : Quantizer
mid4 = record { bits = four; rounding = midpoint }

-- 1000.0 and -1000.0.
abbrev thousand : ℕ
thousand = 4652007308841189376

abbrev minus_thousand : ℕ
minus_thousand = 13875379345695965184

-- 960.0, 992.0 and 1024.0, 0.09375 for 0.1, and -1024.0 and -960.0.
documented_floats :
    (quantize_f64 floor4 thousand ≡ 4651655465120301056)
    × (quantize_f64 mid4 thousand ≡ 4651936940097011712)
    × (quantize_f64 ceil4 thousand ≡ 4652218415073722368)
    × (quantize_f64 floor4 4591870180066957722 ≡ 4591419820104220672)
    × (quantize_f64 floor4 minus_thousand ≡ 13875590451928498176)
    × (quantize_f64 ceil4 minus_thousand ≡ 13875027501975076864)
    × (quantize_f64 ceil4 f64_max ≡ f64_max)
    × (quantize_f64 mid4 infinity ≡ infinity)
unfolding quantize_f64 round_raw clamp swap_sides
documented_floats = (refl, refl, refl, refl, refl, refl, refl, refl)

quantize_f64_rounds_example :
    (is_sign_negative (quantize_f64 floor4 minus_thousand) ≡ true)
    × (is_finite (quantize_f64 floor4 minus_thousand) ≡ true)
    × (value_of (abs (quantize_f64 floor4 minus_thousand))
        ≡ min
            (round_to (swap_sides floor) (step_of 4 thousand) (value_of thousand))
            (value_of f64_max))
quantize_f64_rounds_example = quantize_f64_rounds floor4 minus_thousand (omega arith) (omega arith)

quantize_f64-IsClose_example :
    IsClose
      (swap_sides floor)
      4
      (value_of thousand)
      (value_of (abs (quantize_f64 floor4 minus_thousand)))
    × (at_most (quantize_f64 floor4 minus_thousand) minus_thousand ≡ true)
quantize_f64-IsClose_example =
    quantize_f64-IsClose floor4 minus_thousand (omega arith) (omega arith)
