-- ===== src/Common/Power.antt =====
-- Powers of ten and what they cancel.
use Prim.Native.Nat.{ℕ, zero, suc, ◌+◌, ◌*◌, ◌^◌, ◌<◌}
use Prim.Native.Nat.add
use mathlib.Core.Path.{◌≡◌, ap}
use native.Mathlib.Nat.{pow-suc, zero-add, mul_assoc}
use native.Mathlib.Omega.{arith}

pub pow_suc : (n : ℕ) → 10 ^ suc n ≡ 10 * 10 ^ n
pow_suc n = rw pow-suc (omega arith)

pub pow_add : (m n : ℕ) → 10 ^ (m + n) ≡ 10 ^ m * 10 ^ n
pow_add zero n = rw zero-add (omega arith)
pow_add (suc m) n =
    rw (add.suc m n)
      (grind (arith, pow_suc (m + n), pow_suc m, pow_add m n, mul_assoc 10 (10 ^ m) (10 ^ n)))

pub pow_pos : (n : ℕ) → 0 < 10 ^ n
pow_pos zero = omega arith
pow_pos (suc n) = omega (arith, pow_suc n, pow_pos n)

pub mul_pow_cancel : (n a b : ℕ) → a * 10 ^ n ≡ b * 10 ^ n → a ≡ b
mul_pow_cancel zero a b h = omega arith
mul_pow_cancel (suc n) a b h =
    mul_pow_cancel n a b
      (omega (arith, ap (λ (t : ℕ). a * t) (pow_suc n), ap (λ (t : ℕ). b * t) (pow_suc n)))
