-- ===== src/Quantize/Tests.antt =====
-- Quantized values of the documentation, and instances of the theorems.
use metrique.Prelude.{◌^◌, ◌≤◌, ◌<◌, ◌≡◌, refl, arith}
use metrique.Quantize.{
  Quantizer, SignificantBits, floor, ceil, midpoint, ok, err, new, bit_width, quantize_u64, u64_max,
}
use metrique.Quantize.Bounds.{IsClose, quantize_u64-IsClose}
use metrique.Quantize.Order.{quantize_u64_mono}
use metrique.Quantize.Idempotent.{quantize_u64_idempotent}

abbrev four : SignificantBits
four = record { get = 4 }

abbrev floor4 : Quantizer
floor4 = record { bits = four; rounding = floor }

abbrev ceil4 : Quantizer
ceil4 = record { bits = four; rounding = ceil }

abbrev mid4 : Quantizer
mid4 = record { bits = four; rounding = midpoint }

new_limits :
    (new 0 ≡ err (record { requested = 0 }))
    × (new 52 ≡ ok (record { get = 52 }))
    × (new 53 ≡ err (record { requested = 53 }))
unfolding new
new_limits = (refl, refl, refl)

documented :
    (quantize_u64 floor4 1000 ≡ 960)
    × (quantize_u64 mid4 1000 ≡ 992)
    × (quantize_u64 ceil4 1000 ≡ 1024)
    × (quantize_u64 mid4 15 ≡ 15)
    × (quantize_u64 ceil4 u64_max ≡ u64_max)
unfolding quantize_u64 bit_width
documented = (refl, refl, refl, refl, refl)

quantize_u64-IsClose_example :
    IsClose midpoint 4 1000 (quantize_u64 mid4 1000) × (quantize_u64 mid4 1000 < 2 ^ 64)
quantize_u64-IsClose_example =
    quantize_u64-IsClose mid4 1000 (omega arith) (omega arith) (omega arith)

quantize_u64_idempotent_example :
    quantize_u64 ceil4 (quantize_u64 ceil4 u64_max) ≡ quantize_u64 ceil4 u64_max
quantize_u64_idempotent_example = quantize_u64_idempotent ceil4 u64_max (omega arith) (omega arith)

quantize_u64_mono_example : quantize_u64 ceil4 1000 ≤ quantize_u64 ceil4 1025
quantize_u64_mono_example =
    quantize_u64_mono ceil4 1000 1025 (omega arith) (omega arith) (omega arith)
