-- ===== src/Prelude/Powers.antt =====
-- Powers of two: sums of exponents, order, and the power at or below a number.
use native.Mathlib.Nat.{pow-succ', one-le-pow}
use native.Mathlib.Decide.{dec_lt}
use Prim.Native.Nat.{ℕ, zero, suc, ◌+◌, ◌*◌, ◌^◌, ◌≤◌, ◌<◌}
use mathlib.Core.Path.{◌≡◌}
use native.Mathlib.Omega.{arith}

pub pow2_pos : (k : ℕ) → 1 ≤ 2 ^ k
pow2_pos k = one-le-pow k 2 (omega arith)

pub pow2_suc : (k : ℕ) → 2 ^ suc k ≡ 2 * 2 ^ k
pow2_suc k = pow-succ' 2 k

pub pow2_add : (a b : ℕ) → 2 ^ (a + b) ≡ 2 ^ a * 2 ^ b
pow2_add zero b = let e : zero + b ≡ b = omega arith in rw e (omega arith)
pow2_add (suc a) b =
    let e : suc a + b ≡ suc (a + b) = omega arith in
    rw (e, pow2_suc (a + b), pow2_suc a, pow2_add a b) (omega arith)

pub pow2_mono : (a b : ℕ) → a ≤ b → 2 ^ a ≤ 2 ^ b
pow2_mono zero b h = pow2_pos b
pow2_mono (suc a) zero h = absurd (omega arith)
pow2_mono (suc a) (suc b) h =
    rw (pow2_suc a, pow2_suc b) (omega (arith, pow2_mono a b (omega arith)))

pub pow2_lt : (a b : ℕ) → 2 ^ a < 2 ^ b → a < b
pow2_lt a b h = elim (dec_lt a b) [
  | yes lt ↦ lt
  | no ge ↦ absurd (omega (arith, pow2_mono b a (omega arith)))
]

-- The exponent of the leading bit.
pub leading : (n x : ℕ) → 1 ≤ x → x < 2 ^ n → (k : ℕ) × (k < n) × (2 ^ k ≤ x) × (x < 2 ^ suc k)
leading zero x pos h = absurd (omega arith)
leading (suc n) x pos h = elim (dec_lt x (2 ^ n)) [
  | yes lt ↦ let (k, hk, lo, hi) = leading n x pos lt in (k, omega arith, lo, hi)
  | no ge ↦ (n, omega arith, omega arith, h)
]
