-- ===== src/Histogram/Buckets.antt =====
-- Which values a bucket stands for, and how far its midpoint is from them.
use native.Mathlib.Nat.{
  le-div_iff_mul-le, div-lt_iff_lt-mul, div-mul-le_self, lt-div-mul-add, mod-eq_of_lt,
  mul-le-mul_right, div-eq_of_lt-le,
}
use native.Mathlib.Decide.{dec_lt}
use slick_perfmon.Prelude.{
  ℕ, zero, suc, ◌+◌, ◌-◌, ◌*◌, ◌/◌, ◌%◌, ◌^◌, ◌≤◌, ◌<◌, ◌≡◌, sym, ap, ◌∙◌, arith, bit_and, true,
  false, ltb, leb, Bool-cases, inl, inr,
}
use slick_perfmon.Prelude.Bits.{and_mask}
use slick_perfmon.Prelude.Powers.{pow2_pos, pow2_suc, pow2_add, pow2_mono, pow2_lt, leading}
use slick_perfmon.Histogram.{
  clz, floor_log2, index_of, bucket_lower, bucket_width, bucket_midpoint, bucket_count,
}

clz-leading : (n v k : ℕ) → n ≤ 64 → k < n → 2 ^ k ≤ v → v < 2 ^ suc k → clz n v ≡ 63 - k
unfolding clz
clz-leading zero v k small hk lo hi = absurd (omega arith)
clz-leading (suc n) v k small hk lo hi = elim (Bool-cases (leb (2 ^ n) v)) [
  | inl e ↦ let same : k ≡ n = omega (arith, pow2_lt n (suc k) (ground arith)) in rw (e, same)
  | inr e ↦ rw e (clz-leading n v k (omega arith) (pow2_lt k n (ground arith)) lo hi)
]

-- `floor_log2` is the exponent of the leading bit.
pub floor_log2_lem : (v k : ℕ) → k < 64 → 2 ^ k ≤ v → v < 2 ^ suc k → floor_log2 v ≡ k
unfolding floor_log2
floor_log2_lem v k hk lo hi = rw (clz-leading 64 v k (omega arith) hk lo hi) (omega arith)

-- A value from 16 up: its block of 16 buckets, and its place `s` in it.
record Placed (v shift s : ℕ) : Type 0 where
  small : shift ≤ 59
  sub : s < 16
  above : (16 + s) * 2 ^ shift ≤ v
  below : v < (16 + s) * 2 ^ shift + 2 ^ shift

place : (v : ℕ) → 16 ≤ v → v < 2 ^ 64 → (shift : ℕ) × (s : ℕ) × Placed v shift s
place v big fits =
    let (k, hk, lo, hi) = leading 64 v (omega arith) fits in
    let four : 4 < suc k = pow2_lt 4 (suc k) (omega arith) in
    let shift : ℕ = k - 4 in
    let e : k ≡ 4 + shift = omega arith in
    let pow : 2 ^ k ≡ 16 * 2 ^ shift = ap (λ (y : ℕ). 2 ^ y) e ∙ pow2_add 4 shift in
    let up = pow2_suc k in
    let q : ℕ = v / 2 ^ shift in
    let q_lo : 16 ≤ q = (le-div_iff_mul-le (pow2_pos shift)).1 (omega arith) in
    let q_hi : q < 32 = (div-lt_iff_lt-mul (pow2_pos shift)).1 (omega arith) in
    let q_le : q * 2 ^ shift ≤ v = div-mul-le_self v (2 ^ shift) in
    let lt : v < q * 2 ^ shift + 2 ^ shift = lt-div-mul-add {a = v} (pow2_pos shift) in
    let same : 16 + (q - 16) ≡ q = omega arith in
    (
      shift,
      q - 16,
      record { small = omega arith; sub = omega arith; above = rw same q_le; below = rw same lt },
    )

-- The index of such a value.
index_at : (v shift s : ℕ) → Placed v shift s → index_of v ≡ (shift + 1) * 16 + s
unfolding index_of
index_at v shift s p =
    let pow : 2 ^ (4 + shift) ≡ 16 * 2 ^ shift = pow2_add 4 shift in
    let pos = pow2_pos shift in
    let lo : 2 ^ (4 + shift) ≤ v = omega (arith, p.above) in
    let top : s * 2 ^ shift ≤ 15 * 2 ^ shift =
      mul-le-mul_right (2 ^ shift) (omega (arith, p.sub)) in
    let hi : v < 2 ^ suc (4 + shift) = omega (arith, p.below, pow2_suc (4 + shift)) in
    let exp : floor_log2 v ≡ 4 + shift =
      floor_log2_lem v (4 + shift) (omega (arith, p.small)) lo hi in
    let back : 4 + shift - 4 ≡ shift = omega arith in
    let quotient : v / 2 ^ shift ≡ 16 + s =
      let up : v < (16 + s + 1) * 2 ^ shift = omega (arith, p.below) in
      div-eq_of_lt-le {k = 16 + s} (2 ^ shift) p.above up in
    let test : ltb v 16 ≡ false = ground (arith, p.above) in
    rw (exp, back, quotient, test) (omega (arith, p.small, p.sub))

-- What the two functions on an index compute to, at the index of such a value.
module _ (shift s : ℕ) (small : shift ≤ 59) (sub : s < 16) where
  abbrev bucket : ℕ
  bucket = (shift + 1) * 16 + s

  fits : 2 ^ shift ≤ 2 ^ 59
  fits = pow2_mono shift 59 small

  lower_lem : bucket_lower bucket ≡ (16 + s) * 2 ^ shift
  unfolding bucket_lower
  lower_lem =
      let block : bucket / 16 - 1 ≡ shift = omega arith in
      let low : bit_and bucket 15 ≡ s = and_mask 4 bucket ∙ omega arith in
      let test : ltb bucket 16 ≡ false = ground arith in
      let lt : (16 + s) * 2 ^ shift < 2 ^ 64 =
        let top : (16 + s) * 2 ^ shift ≤ 31 * 2 ^ shift =
          mul-le-mul_right (2 ^ shift) (omega arith) in
        omega (arith, fits) in
      rw (block, low, test) (mod-eq_of_lt lt)

  width_lem : bucket_width bucket ≡ 2 ^ shift
  unfolding bucket_width
  width_lem =
      let block : bucket / 16 - 1 ≡ shift = omega arith in
      let test : ltb bucket 16 ≡ false = ground arith in rw (block, test) (omega (arith, fits))

  midpoint_lem : bucket_midpoint bucket ≡ (16 + s) * 2 ^ shift + 2 ^ shift / 2
  unfolding bucket_midpoint
  midpoint_lem =
      let top : (16 + s) * 2 ^ shift ≤ 31 * 2 ^ shift =
        mul-le-mul_right (2 ^ shift) (omega arith) in
      rw (lower_lem, width_lem) (omega (arith, fits, pow2_pos shift))

index_small : (v : ℕ) → v < 16 → index_of v ≡ v
unfolding index_of
index_small v h = let test : ltb v 16 ≡ true = ground arith in rw test

lower_small : (i : ℕ) → i < 16 → bucket_lower i ≡ i
unfolding bucket_lower
lower_small i h = let test : ltb i 16 ≡ true = ground arith in rw test

width_small : (i : ℕ) → i < 16 → bucket_width i ≡ 1
unfolding bucket_width
width_small i h = let test : ltb i 16 ≡ true = ground arith in rw test

-- Every 64-bit value has a bucket below `bucket_count`, and lies in it: from the bucket's lower end
-- on, and below that end plus the width.
pub index_of_bounds :
    (v : ℕ)
    → v < 2 ^ 64
    → (index_of v < bucket_count)
      × (bucket_lower (index_of v) ≤ v)
      × (v < bucket_lower (index_of v) + bucket_width (index_of v))
index_of_bounds v fits = elim (dec_lt v 16) [
  | yes small ↦ rw (index_small v small, lower_small v small, width_small v small) (omega arith)
  | no big ↦
      let (shift, s, p) = place v (omega arith) fits in
      rw (index_at v shift s p, lower_lem shift s p.small p.sub, width_lem shift s p.small p.sub)
        (omega (arith, p.small, p.sub), p.above, p.below)
]

error_small : (v : ℕ) → v < 16 → bucket_midpoint (index_of v) ≡ v
unfolding bucket_midpoint
error_small v h = rw (index_small v h, lower_small v h, width_small v h) (omega arith)

-- Values below 16 are their own midpoints; from 16 up the midpoint of a value's bucket is within a
-- 32nd of the value, above or below.
pub bucket_midpoint_error :
    (v : ℕ)
    → v < 2 ^ 64
    → (v < 16 → bucket_midpoint (index_of v) ≡ v)
      × (32 * bucket_midpoint (index_of v) ≤ 32 * v + v)
      × (32 * v ≤ 32 * bucket_midpoint (index_of v) + v)
bucket_midpoint_error v fits = elim (dec_lt v 16) [
  | yes small ↦ let e = error_small v small in (λ _. e, omega arith, omega arith)
  | no big ↦
      let (shift, s, p) = place v (omega arith) fits in
      let mid = ap bucket_midpoint (index_at v shift s p) ∙ midpoint_lem shift s p.small p.sub in
      (λ h. absurd (big h), omega (arith, p.above, p.below), omega (arith, p.above, p.below))
]

-- The lower end of every bucket is a value of that bucket.
pub index_of-bucket_lower : (i : ℕ) → i < bucket_count → index_of (bucket_lower i) ≡ i
index_of-bucket_lower i h = elim (dec_lt i 16) [
  | yes small ↦ rw (lower_small i small, index_small i small)
  | no big ↦
      let shift : ℕ = i / 16 - 1 in
      let s : ℕ = i % 16 in
      let e : i ≡ (shift + 1) * 16 + s = omega arith in
      let lower : bucket_lower i ≡ (16 + s) * 2 ^ shift =
        ap bucket_lower e ∙ lower_lem shift s (omega arith) (omega arith) in
      let p : Placed (bucket_lower i) shift s = record {
        small = omega arith;
        sub = omega arith;
        above = rw lower (omega arith);
        below = rw lower (omega (arith, pow2_pos shift));
      } in
      index_at (bucket_lower i) shift s p ∙ sym e
]

-- A greater value is in the same bucket or a later one.
pub index_of_mono : (v w : ℕ) → v ≤ w → w < 2 ^ 64 → index_of v ≤ index_of w
index_of_mono v w le fits = elim (dec_lt v 16) [
  | yes small ↦ elim (dec_lt w 16) [
    | yes both ↦ rw (index_small v small, index_small w both) le
    | no big ↦
        let (b, t, q) = place w (omega arith) fits in
        rw (index_small v small, index_at w b t q) (omega arith)
  ]
  | no big ↦
      let (a, s, p) = place v (omega arith) (omega arith) in
      let (b, t, q) = place w (omega arith) fits in
      rw (index_at v a s p, index_at w b t q) (in_order a s b t p q)
]
  where
    in_order : (a s b t : ℕ) → Placed v a s → Placed w b t → (a + 1) * 16 + s ≤ (b + 1) * 16 + t
    in_order a s b t p q = elim (dec_lt a b) [
      | yes lt ↦ omega (arith, p.sub)
      | no ge ↦ elim (dec_lt b a) [
        | yes gt ↦
            let up : 2 * 2 ^ b ≤ 2 ^ a =
              omega (arith, pow2_suc b, pow2_mono (suc b) a (omega arith)) in
            let top : t * 2 ^ b ≤ 15 * 2 ^ b = mul-le-mul_right (2 ^ b) (omega (arith, q.sub)) in
            let least : 16 ≤ 16 + s = omega arith in
            absurd (omega (arith, q.below, p.above, q.sub, mul-le-mul_right (2 ^ a) least))
        | no le' ↦
            let same : a ≡ b = omega arith in
            elim (dec_lt t s) [
              | yes bad ↦
                  let top : (17 + t) * 2 ^ b ≤ (16 + s) * 2 ^ b =
                    mul-le-mul_right (2 ^ b) (omega arith) in
                  let lo : (16 + s) * 2 ^ b ≤ v = rw (same) at p.above in
                  absurd (omega (arith, q.below))
              | no ok ↦ omega arith
            ]
      ]
    ]
