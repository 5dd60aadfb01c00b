-- ===== src/Histogram/Band.antt =====
-- The invariant of the histogram: its total and its occupied band.
use native.Mathlib.Decide.{dec_lt, ℕ_discrete}
use slick_perfmon.Prelude.{
  ℕ, zero, suc, ◌+◌, ◌^◌, ◌≤◌, ◌<◌, ◌≡◌, refl, sym, ap, ◌≢◌, ◌⊎◌, inr, arith, true, false, ltb,
  ◌==◌, ==_iff, if◌then◌else◌, List, length, set, replicate, length-replicate, get_or-replicate,
  get_or-set,
}
use slick_perfmon.Histogram.{Histogram, bucket_count, count_at, empty}

-- The samples in the buckets before `n`.
unfoldable pub below : List ℕ → ℕ → ℕ
below counts zero = 0
below counts (suc n) = below counts n + count_at counts n

-- All buckets are there, they sum to the total, and no bucket outside the band has samples. The
-- band is empty on an empty histogram only, and its two ends have samples.
pub record IsValid (h : Histogram) : Type 0 where
  pub width : length h.counts ≡ bucket_count
  pub summed : below h.counts bucket_count ≡ h.total
  pub fits : h.total < 2 ^ 64
  pub hi_lt : h.used_hi < bucket_count
  pub outside : (i : ℕ) → (i < h.used_lo) ⊎ (h.used_hi < i) → count_at h.counts i ≡ 0
  pub band : h.total ≢ 0 → h.used_lo ≤ h.used_hi
  pub ends : h.total ≢ 0 → (0 < count_at h.counts h.used_lo) × (0 < count_at h.counts h.used_hi)
  pub vacant : h.total ≡ 0 → (h.used_lo ≡ bucket_count) × (h.used_hi ≡ 0)

pub below_sum :
    (a b c : List ℕ) (n : ℕ)
    → ((i : ℕ) → i < n → count_at c i ≡ count_at a i + count_at b i)
    → below c n ≡ below a n + below b n
unfolding below
below_sum a b c zero h = refl
below_sum a b c (suc n) h =
    omega (arith, below_sum a b c n (λ i lt. h i (omega arith)), h n (omega arith))

pub below_set :
    (cs : List ℕ) (i n : ℕ) (v : ℕ)
    → i < length cs
    → below (set cs i v) n + (if ltb i n then count_at cs i else 0)
      ≡ below cs n + (if ltb i n then v else 0)
unfolding below
below_set cs i zero v h = ground arith
below_set cs i (suc n) v h =
    let ih = below_set cs i n v h in
    let e = get_or-set cs i n v 0 h in
    elim (ℕ_discrete i n) [
      | yes same ↦
          let t : ltb i n ≡ false = ground arith in
          let u : ltb i (suc n) ≡ true = ground arith in
          let q : (i == n) ≡ true = (==_iff i n).1 same in
          let g : count_at cs n ≡ count_at cs i = ap (λ (y : ℕ). count_at cs y) (sym same) in
          let ih' : below (set cs i v) n + 0 ≡ below cs n + 0 = rw t at ih in
          let e' : count_at (set cs i v) n ≡ v = rw q at e in rw (u, e', g) (omega arith)
      | no apart ↦
          let q : (i == n) ≡ false = ground arith in
          let u : ltb i (suc n) ≡ ltb i n = ground arith in
          let e' : count_at (set cs i v) n ≡ count_at cs n = rw q at e in rw (u, e') (omega arith)
    ]

count-le-below : (cs : List ℕ) (i n : ℕ) → i < n → count_at cs i ≤ below cs n
unfolding below
count-le-below cs i zero h = absurd (omega arith)
count-le-below cs i (suc n) h = elim (dec_lt i n) [
  | yes lt ↦ omega (arith, count-le-below cs i n lt)
  | no ge ↦
      let same : i ≡ n = omega arith in
      let g : count_at cs n ≡ count_at cs i = ap (λ (y : ℕ). count_at cs y) (sym same) in
      omega arith
]

pub below_zero : (cs : List ℕ) (n : ℕ) → ((i : ℕ) → count_at cs i ≡ 0) → below cs n ≡ 0
unfolding below
below_zero cs zero h = refl
below_zero cs (suc n) h = omega (arith, below_zero cs n h, h n)

-- No bucket holds more than the total.
pub count-le-total : (h : Histogram) (i : ℕ) → IsValid h → count_at h.counts i ≤ h.total
count-le-total h i v = elim (dec_lt i bucket_count) [
  | yes lt ↦ omega (arith, v.summed, count-le-below h.counts i bucket_count lt)
  | no ge ↦ omega (arith, v.outside i (inr (omega (arith, v.hi_lt))))
]

pub empty-IsValid : IsValid empty
unfolding empty
empty-IsValid = record {
  width = length-replicate {A = ℕ} bucket_count 0;
  summed =
      below_zero (replicate bucket_count 0) bucket_count (λ i. get_or-replicate bucket_count i 0);
  fits = omega arith;
  hi_lt = omega arith;
  outside = λ i out. get_or-replicate bucket_count i 0;
  band = λ some. absurd (some refl);
  ends = λ some. absurd (some refl);
  vacant = λ e. (refl, refl);
}

pub empty-counts : (i : ℕ) → count_at empty.counts i ≡ 0
unfolding empty
empty-counts i = get_or-replicate bucket_count i 0

pub empty-total : empty.total ≡ 0
unfolding empty
empty-total = refl
