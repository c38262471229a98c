-- ===== src/Quantize/Width.antt =====
-- The bit width of a number, and powers of two.
use native.Mathlib.Nat.{pow-suc, pow-le-pow_right}
use metrique.Prelude.{ℕ, zero, suc, ◌+◌, ◌-◌, ◌*◌, ◌^◌, ◌≤◌, ◌<◌, ◌≡◌, ap, arith}
use metrique.Quantize.{bit_width}

pub pow_add : (m n : ℕ) → 2 ^ (m + n) ≡ 2 ^ m * 2 ^ n
pow_add m zero = let e : m + 0 ≡ m = omega arith in rw e (omega arith)
pow_add m (suc n) =
    let e : m + suc n ≡ suc (m + n) = omega arith in
    rw e (
      omega (arith, pow-suc 2 (m + n), pow-suc 2 n, pow_add m n, ap (λ k. 2 ^ m * k) (pow-suc 2 n)))

pub pow_pos : (n : ℕ) → 0 < 2 ^ n
pow_pos zero = omega arith
pow_pos (suc n) = omega (arith, pow-suc 2 n, pow_pos n)

pub pow_mono : (m n : ℕ) → m ≤ n → 2 ^ m ≤ 2 ^ n
pow_mono m n h = pow-le-pow_right (omega arith) h

pub bit_width_le : (n v : ℕ) → bit_width n v ≤ n
unfolding bit_width
bit_width_le zero v = omega arith
bit_width_le (suc n) v = ground (arith, bit_width_le n v)

pub lt-bit_width : (n v : ℕ) → v < 2 ^ n → v < 2 ^ bit_width n v
unfolding bit_width
lt-bit_width zero v h = h
lt-bit_width (suc n) v h = ground (arith, lt-bit_width n v)

pub bit_width-le : (n v : ℕ) → 0 < bit_width n v → 2 ^ (bit_width n v - 1) ≤ v
unfolding bit_width
bit_width-le zero v h = absurd (omega arith)
bit_width-le (suc n) v h = ground (arith, bit_width-le n v)
