-- ===== src/OpenMap/Pow2.antt =====
-- `next_pow2`: smearing the leading bit down gives a block of ones, and one more is a power of two.
use native.Mathlib.Nat.{mul-add, le-div_iff_mul-le, div-lt_iff_lt-mul, div-le_self}
use native.Mathlib.Decide.{dec_le}
use slick_perfmon.Prelude.{
  ℕ, zero, suc, ◌+◌, ◌-◌, ◌*◌, ◌/◌, ◌%◌, ◌^◌, ◌≤◌, ◌<◌, ◌≡◌, ap, ◌∙◌, arith, bit_or, false, ltb,
}
use slick_perfmon.Prelude.Bits.{or_low, or-lt, le-or, le-or_left}
use slick_perfmon.Prelude.Powers.{pow2_pos, pow2_suc, pow2_add, pow2_mono, leading}
use slick_perfmon.OpenMap.{smear, next_pow2}

-- `x` has `n` bits, and its `s` leading ones are all set.
record IsTop (n s x : ℕ) : Type 0 where
  below : x < 2 ^ n
  ones : 2 ^ n ≤ x + 2 ^ (n - s)

-- The part that the shift brings down is a block of ones again, `s` bits long or to the end.
shifted_ones :
    (s d x : ℕ)
    → x < 2 ^ s * 2 ^ d
    → 2 ^ s * 2 ^ d ≤ x + 2 ^ d
    → (x / 2 ^ s < 2 ^ d) × (2 ^ d ≤ x / 2 ^ s + 2 ^ (d - s))
shifted_ones s d x below ones =
    let few : 2 ^ d ≤ 2 ^ s * 2 ^ (d - s) =
      rw (← pow2_add s (d - s)) (pow2_mono d (s + (d - s)) (omega arith)) in
    let le : 2 ^ (d - s) ≤ 2 ^ d = pow2_mono (d - s) d (omega arith) in
    let t : ℕ = 2 ^ d - 2 ^ (d - s) in
    let split : 2 ^ d ≡ t + 2 ^ (d - s) = omega arith in
    let whole : 2 ^ s * 2 ^ d ≡ 2 ^ s * t + 2 ^ s * 2 ^ (d - s) =
      ap (λ (y : ℕ). 2 ^ s * y) split ∙ mul-add (2 ^ s) t (2 ^ (d - s)) in
    let low : t * 2 ^ s ≤ x = omega arith in
    let enough : t ≤ x / 2 ^ s = (le-div_iff_mul-le (pow2_pos s)).1 low in
    ((div-lt_iff_lt-mul (pow2_pos s)).1 (omega arith), omega arith)

smear-lt : (n s x : ℕ) → x < 2 ^ n → smear s x < 2 ^ n
unfolding smear
smear-lt n s x h =
    let q : x / 2 ^ s ≤ x = div-le_self x (2 ^ s) in or-lt n x (x / 2 ^ s) h (omega arith)

le-smear : (s x : ℕ) → x ≤ smear s x
unfolding smear
le-smear s x = le-or_left x (x / 2 ^ s)

-- With `d` bits below the block of ones.
smear-IsTop_split :
    (s d x : ℕ)
    → x < 2 ^ (s + d)
    → 2 ^ (s + d) ≤ x + 2 ^ d
    → (smear s x < 2 ^ (s + d)) × (2 ^ (s + d) ≤ smear s x + 2 ^ (d - s))
unfolding smear
smear-IsTop_split s d x below ones =
    let e : 2 ^ (s + d) ≡ 2 ^ s * 2 ^ d = pow2_add s d in
    let (lt, le) = shifted_ones s d x (rw e at below) (rw e at ones) in
    let b : ℕ = 2 ^ s - 1 in
    let block : 2 ^ s * 2 ^ d ≡ b * 2 ^ d + 2 ^ d =
      let one_more : 2 ^ s ≡ b + 1 = omega (arith, pow2_pos s) in
      ap (λ (y : ℕ). y * 2 ^ d) one_more ∙ omega arith in
    let r : ℕ = x - b * 2 ^ d in
    let whole : x ≡ b * 2 ^ d + r = omega arith in
    let joined : bit_or x (x / 2 ^ s) ≡ b * 2 ^ d + bit_or r (x / 2 ^ s) =
      ap (λ (y : ℕ). bit_or y (x / 2 ^ s)) whole ∙ or_low d b r (x / 2 ^ s) (omega arith) lt in
    (omega (arith, or-lt d r (x / 2 ^ s) (omega arith) lt), omega (arith, le-or r (x / 2 ^ s)))

-- A smear by as many bits as are known to be ones doubles them.
smear-IsTop : (n s x : ℕ) → IsTop n s x → IsTop n (s + s) (smear s x)
smear-IsTop n s x t = elim (dec_le s n) [
  | yes le ↦
      let e : n ≡ s + (n - s) = omega arith in
      let f : n - (s + s) ≡ n - s - s = omega arith in
      let (below, ones) = smear-IsTop_split s (n - s) x (rw (← e) t.below) (rw (← e) t.ones) in
      let whole : 2 ^ n ≡ 2 ^ (s + (n - s)) = ap (λ (y : ℕ). 2 ^ y) e in
      let rest : 2 ^ (n - (s + s)) ≡ 2 ^ (n - s - s) = ap (λ (y : ℕ). 2 ^ y) f in
      record { below = omega arith; ones = omega arith }
  | no gt ↦
      let none_left : n - s ≡ 0 = omega arith in
      let last : 2 ^ (n - s) ≡ 1 = ap (λ (y : ℕ). 2 ^ y) none_left in
      let all_ones : 2 ^ n ≤ x + 1 = omega (arith, t.ones) in
      let lt = smear-lt n s x t.below in
      let ge = le-smear s x in record { below = lt; ones = omega (arith, pow2_pos (n - (s + s))) }
]

-- The six smears.
fill : ℕ → ℕ
fill x = smear 32 (smear 16 (smear 8 (smear 4 (smear 2 (smear 1 x)))))

pow2_empty : (n x : ℕ) → 2 ^ n ≤ 2 * x → x < 2 ^ n → 1 ≤ n
pow2_empty zero x lo hi = absurd (omega arith)
pow2_empty (suc n) x lo hi = omega arith

-- A number of at most 64 bits is filled with ones below its leading bit.
fill_lem : (n x : ℕ) → n ≤ 64 → 2 ^ n ≤ 2 * x → x < 2 ^ n → fill x + 1 ≡ 2 ^ n
unfolding fill
fill_lem n x small lo hi =
    let e : n ≡ suc (n - 1) = omega (arith, pow2_empty n x lo hi) in
    let half : 2 ^ n ≡ 2 * 2 ^ (n - 1) = ap (λ (y : ℕ). 2 ^ y) e ∙ pow2_suc (n - 1) in
    let start : IsTop n 1 x = record { below = hi; ones = omega arith } in
    let t = smear-IsTop n 32 _ (
      smear-IsTop n 16 _
        (smear-IsTop n 8 _ (smear-IsTop n 4 _ (smear-IsTop n 2 _ (smear-IsTop n 1 x start))))) in
    let none_left : n - 64 ≡ 0 = omega arith in
    let last : 2 ^ (n - 64) ≡ 1 = ap (λ (y : ℕ). 2 ^ y) none_left in omega (arith, t.below, t.ones)

-- From 2 up to 2 ^ 63, `next_pow2` is the least power of two that is not below its argument.
pub next_pow2_least :
    (v : ℕ)
    → 2 ≤ v
    → v ≤ 2 ^ 63
    → (n : ℕ) × (n ≤ 63) × (next_pow2 v ≡ 2 ^ n) × (v ≤ 2 ^ n) × (2 ^ n < 2 * v)
unfolding next_pow2 fill
next_pow2_least v two hi =
    let (k, hk, lo, up) = leading 63 (v - 1) (omega arith) (omega arith) in
    let s : 2 ^ suc k ≡ 2 * 2 ^ k = pow2_suc k in
    let filled : fill (v - 1) + 1 ≡ 2 ^ suc k =
      fill_lem (suc k) (v - 1) (omega arith) (omega arith) up in
    let fits : 2 ^ suc k ≤ 2 ^ 63 = pow2_mono (suc k) 63 (omega arith) in
    let test : ltb v 2 ≡ false = ground arith in
    let wraps : (fill (v - 1) + 1) % 2 ^ 64 ≡ 2 ^ suc k = omega arith in
    (suc k, omega arith, rw test wraps, omega arith, omega arith)
