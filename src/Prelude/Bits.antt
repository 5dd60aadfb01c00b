-- ===== src/Prelude/Bits.antt =====
-- `|` and `&` at variables, read from the digit recursion that the native operations stand for.
use Prim.Native.Nat.{
  ℕ, zero, suc, ◌+◌, ◌-◌, ◌*◌, ◌/◌, ◌%◌, ◌^◌, ◌≤◌, ◌<◌, min, max, bit_and, bit_or, digits, bitwise,
  bit_and-bitwise, bit_or-bitwise,
}
use mathlib.Core.Path.{◌≡◌, refl, sym}
use native.Mathlib.Nat.{
  add-zero, pow-succ', one-le-pow, le_refl, mod_def, mul-div-le, div-div-eq-div-mul,
}
use native.Mathlib.Omega.{arith}

module _ (z : ℕ → ℕ) (f : ℕ → ℕ → ℕ) where
  -- Fuel past the first argument makes no difference.
  digits_enough : (n m a b : ℕ) → a ≤ n → a ≤ m → digits z f n a b ≡ digits z f m a b
  digits_enough zero zero a b p q = refl
  digits_enough zero (suc m) zero b p q = refl
  digits_enough zero (suc m) (suc a) b p q = absurd (omega arith)
  digits_enough (suc n) zero zero b p q = refl
  digits_enough (suc n) zero (suc a) b p q = absurd (omega arith)
  digits_enough (suc n) (suc m) zero b p q = refl
  digits_enough (suc n) (suc m) (suc a) b p q =
      rw (digits_enough n m (suc a / 2) (b / 2) (omega arith) (omega arith))

  low_digit :
      (a b : ℕ)
      → bitwise z f (suc a) b ≡ bitwise z f (suc a / 2) (b / 2) * 2 + f (suc a % 2) (b % 2)
  low_digit a b =
      let h = digits_enough a (suc a / 2) (suc a / 2) (b / 2) (omega arith) (omega arith) in
      omega (arith, h)

pub or_step : (a b : ℕ) → bit_or a b ≡ bit_or (a / 2) (b / 2) * 2 + max (a % 2) (b % 2)
or_step zero b = simp bit_or-bitwise (omega arith)
or_step (suc a) b = simp bit_or-bitwise (low_digit (λ y. y) max a b)

pub and_step : (a b : ℕ) → bit_and a b ≡ bit_and (a / 2) (b / 2) * 2 + min (a % 2) (b % 2)
and_step zero b = simp bit_and-bitwise (omega arith)
and_step (suc a) b = simp bit_and-bitwise (low_digit (λ y. 0) min a b)

and_zero : (n a : ℕ) → a ≤ n → bit_and a 0 ≡ 0
and_zero n zero h = refl
and_zero zero (suc a) h = absurd (omega arith)
and_zero (suc n) (suc a) h = omega (arith, and_step (suc a) 0, and_zero n (suc a / 2) (omega arith))

mod_double : (a p : ℕ) → a % (2 * p) ≡ a / 2 % p * 2 + a % 2
mod_double a p =
    let q : p * (a / 2 / p) ≤ a / 2 = mul-div-le (a / 2) p in
    let e : a / (2 * p) ≡ a / 2 / p = sym (div-div-eq-div-mul a 2 p) in
    rw (mod_def a (2 * p), mod_def (a / 2) p, e) (omega arith)

-- A mask of `k` ones keeps the remainder by `2 ^ k`.
pub and_mask : (k a : ℕ) → bit_and a (2 ^ k - 1) ≡ a % 2 ^ k
and_mask zero a = omega (arith, and_zero a a (le_refl a))
and_mask (suc k) a =
    let p : 2 ^ suc k ≡ 2 * 2 ^ k = pow-succ' 2 k in
    let pos : 1 ≤ 2 ^ k = one-le-pow k 2 (omega arith) in
    let half : (2 * 2 ^ k - 1) / 2 ≡ 2 ^ k - 1 = omega arith in
    rw (p, and_step a (2 * 2 ^ k - 1), half, and_mask k (a / 2), mod_double a (2 ^ k)) (omega arith)

or_zero : (n a : ℕ) → a ≤ n → bit_or a 0 ≡ a
or_zero n zero h = refl
or_zero zero (suc a) h = absurd (omega arith)
or_zero (suc n) (suc a) h = omega (arith, or_step (suc a) 0, or_zero n (suc a / 2) (omega arith))

-- The bits of `b` below those of `q * 2 ^ k` join the remainder.
pub or_low :
    (k q r b : ℕ) → r < 2 ^ k → b < 2 ^ k → bit_or (q * 2 ^ k + r) b ≡ q * 2 ^ k + bit_or r b
or_low zero q r b hr hb =
    let r0 : r ≡ 0 = omega arith in
    let b0 : b ≡ 0 = omega arith in rw (r0, b0, or_zero (q * 1 + 0) (q * 1 + 0) (le_refl _))
or_low (suc k) q r b hr hb =
    let p : 2 ^ suc k ≡ 2 * 2 ^ k = pow-succ' 2 k in
    let low : r / 2 < 2 ^ k = omega arith in
    let high : (q * 2 ^ suc k + r) / 2 ≡ q * 2 ^ k + r / 2 = rw p (omega arith) in
    let odd : (q * 2 ^ suc k + r) % 2 ≡ r % 2 = rw p (omega arith) in
    rw (or_step (q * 2 ^ suc k + r) b, high, odd, or_low k q (r / 2) (b / 2) low (omega arith))
      (rw p (omega (arith, or_step r b)))

pub or-lt : (k a b : ℕ) → a < 2 ^ k → b < 2 ^ k → bit_or a b < 2 ^ k
or-lt zero a b ha hb =
    let a0 : a ≡ 0 = omega arith in let b0 : b ≡ 0 = omega arith in rw (a0, b0) (omega arith)
or-lt (suc k) a b ha hb =
    let p : 2 ^ suc k ≡ 2 * 2 ^ k = pow-succ' 2 k in
    let ih : bit_or (a / 2) (b / 2) < 2 ^ k = or-lt k (a / 2) (b / 2) (omega arith) (omega arith) in
    omega (arith, or_step a b)

le-or_enough : (n a b : ℕ) → b ≤ n → b ≤ bit_or a b
le-or_enough n a zero h = omega arith
le-or_enough zero a (suc b) h = absurd (omega arith)
le-or_enough (suc n) a (suc b) h =
    omega (arith, or_step a (suc b), le-or_enough n (a / 2) (suc b / 2) (omega arith))

pub le-or : (a b : ℕ) → b ≤ bit_or a b
le-or a b = le-or_enough b a b (le_refl b)

-- A field shifted past the other is added to it.
pub or_fields : (k q r : ℕ) → r < 2 ^ k → bit_or (q * 2 ^ k) r ≡ q * 2 ^ k + r
or_fields k q r h =
    let low : bit_or (q * 2 ^ k + 0) r ≡ q * 2 ^ k + bit_or 0 r =
      or_low k q 0 r (one-le-pow k 2 (omega arith)) h in
    let none_left : bit_or 0 r ≡ r = simp bit_or-bitwise in rw (add-zero, none_left) at low

le-or_left_enough : (n a b : ℕ) → a ≤ n → a ≤ bit_or a b
le-or_left_enough n zero b h = omega arith
le-or_left_enough zero (suc a) b h = absurd (omega arith)
le-or_left_enough (suc n) (suc a) b h =
    omega (arith, or_step (suc a) b, le-or_left_enough n (suc a / 2) (b / 2) (omega arith))

pub le-or_left : (a b : ℕ) → a ≤ bit_or a b
le-or_left a b = le-or_left_enough a a b (le_refl a)

-- One digit on its own.
pub and_bit : (k a : ℕ) → bit_and a (2 ^ k) ≡ a / 2 ^ k % 2 * 2 ^ k
and_bit zero a = let m : bit_and a 1 ≡ a % 2 = and_mask 1 a in omega (arith, m)
and_bit (suc k) a =
    let p : 2 ^ suc k ≡ 2 * 2 ^ k = pow-succ' 2 k in
    let half : 2 * 2 ^ k / 2 ≡ 2 ^ k = omega arith in
    let even : 2 * 2 ^ k % 2 ≡ 0 = omega arith in
    let nothing : min (a % 2) 0 ≡ 0 = omega arith in
    let e : a / (2 * 2 ^ k) ≡ a / 2 / 2 ^ k = sym (div-div-eq-div-mul a 2 (2 ^ k)) in
    rw (p, and_step a (2 * 2 ^ k), half, even, nothing, e, and_bit k (a / 2)) (grind arith)
