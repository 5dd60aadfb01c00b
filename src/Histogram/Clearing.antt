-- ===== src/Histogram/Clearing.antt =====
-- `clear` of the histogram.
use native.Mathlib.Decide.{dec_lt, ℕ_discrete}
use slick_perfmon.Prelude.{
  ℕ, zero, suc, ◌+◌, ◌≤◌, ◌<◌, ◌≡◌, refl, ◌∙◌, ◌⊎◌, inl, inr, arith, ==_iff, ==_false, List, length,
  set, length-set, get_or-set,
}
use slick_perfmon.Histogram.{Histogram, bucket_count, count_at, rounds, zero_band, clear}
use slick_perfmon.Histogram.Band.{below_zero, IsValid}

-- `clear`: the band is zeroed, so every bucket is.
at-zero_band :
    (n i : ℕ) (cs : List ℕ) (j : ℕ)
    → i + n ≤ length cs
    → (count_at cs j ≡ 0) ⊎ ((i ≤ j) × (j < i + n))
    → (count_at (zero_band n i cs) j ≡ 0) × (length (zero_band n i cs) ≡ length cs)
unfolding zero_band
at-zero_band zero i cs j h (inl z) = (z, refl)
at-zero_band zero i cs j h (inr (lo, hi)) = absurd (omega arith)
at-zero_band (suc n) i cs j h now =
    let e = get_or-set cs i j 0 0 (omega arith) in
    let wide : length (set cs i 0) ≡ length cs = length-set cs i 0 in
    let next : (count_at (set cs i 0) j ≡ 0) ⊎ ((i + 1 ≤ j) × (j < i + 1 + n)) =
      elim (ℕ_discrete i j) [
        | yes same ↦ inl (rw ((==_iff i j).1 same) at e)
        | no apart ↦ elim now [
          | inl z ↦ inl (rw (==_false i j apart, z) at e)
          | inr (lo, hi) ↦ inr (omega arith, omega arith)
        ]
      ] in
    let (z, w) = at-zero_band n (i + 1) (set cs i 0) j (omega arith) next in (z, w ∙ wide)

pub record Clears (out : Histogram) : Type 0 where
  pub valid : IsValid out
  pub total : out.total ≡ 0
  pub counts : (i : ℕ) → count_at out.counts i ≡ 0

-- `clear` zeroes every bucket of a valid histogram, though it visits the band only.
pub clear-Clears : (h : Histogram) → IsValid h → Clears (clear h)
unfolding clear
clear-Clears h v = record {
  valid = record {
    width = (zeroed 0).1 ∙ v.width;
    summed = below_zero _ bucket_count (λ i. (zeroed i).0);
    fits = omega arith;
    hi_lt = omega arith;
    outside = λ i out. (zeroed i).0;
    band = λ some. absurd (some refl);
    ends = λ some. absurd (some refl);
    vacant = λ e. (refl, refl);
  };
  total = refl;
  counts = λ i. (zeroed i).0;
}
  where
    cover :
        (i : ℕ)
        → (count_at h.counts i ≡ 0)
          ⊎ ((h.used_lo ≤ i) × (i < h.used_lo + rounds h.used_lo h.used_hi))
    cover i = elim (dec_lt i h.used_lo) [
      | yes lt ↦ inl (v.outside i (inl lt))
      | no ge ↦ elim (dec_lt h.used_hi i) [
        | yes gt ↦ inl (v.outside i (inr gt))
        | no le ↦ inr (omega arith, omega arith)
      ]
    ]

    within : h.used_lo + rounds h.used_lo h.used_hi ≤ length h.counts
    within = elim (ℕ_discrete h.total 0) [
      | yes z ↦ omega (arith, v.vacant z, v.width)
      | no some ↦ omega (arith, v.band some, v.hi_lt, v.width)
    ]

    zeroed :
        (i : ℕ)
        → (count_at (zero_band (rounds h.used_lo h.used_hi) h.used_lo h.counts) i ≡ 0)
          × (length (zero_band (rounds h.used_lo h.used_hi) h.used_lo h.counts) ≡ length h.counts)
    zeroed i = at-zero_band (rounds h.used_lo h.used_hi) h.used_lo h.counts i within (cover i)
