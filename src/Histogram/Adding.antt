-- ===== src/Histogram/Adding.antt =====
-- `add` of the histogram.
use native.Mathlib.Nat.{mod-eq_of_lt}
use native.Mathlib.Decide.{dec_lt, ℕ_discrete}
use slick_perfmon.Prelude.{
  ℕ, ◌+◌, ◌%◌, ◌^◌, ◌≤◌, ◌<◌, ◌≡◌, refl, sym, ap, ◌∙◌, ◌≢◌, ◌⊎◌, inl, inr, arith, true, false, ltb,
  ◌==◌, ==_iff, ==_refl, ==_false, if◌then◌else◌, List, length, set, length-set, get_or-set,
}
use slick_perfmon.Histogram.{Histogram, bucket_count, count_at, index_of, add}
use slick_perfmon.Histogram.Buckets.{index_of_bounds}
use slick_perfmon.Histogram.Band.{below, below_set, count-le-total, IsValid}

-- One sample more in the bucket of `v`, none in any other.
pub record Adds (h : Histogram) (v : ℕ) (out : Histogram) : Type 0 where
  pub valid : IsValid out
  pub total : out.total ≡ h.total + 1
  pub counts :
      (i : ℕ)
      → count_at out.counts i
        ≡ (if index_of v == i then count_at h.counts i + 1 else count_at h.counts i)

-- The counts after `add`, and the facts on its band.
module _ (h : Histogram) (v : ℕ) (valid : IsValid h) (small : v < 2 ^ 64)
    (more : h.total + 1 < 2 ^ 64) where
  abbrev k : ℕ
  k = index_of v

  abbrev counts' : List ℕ
  counts' = set h.counts k (count_at h.counts k + 1)

  k_lt : k < bucket_count
  k_lt = (index_of_bounds v small).0

  reads :
      (i : ℕ)
      → count_at counts' i ≡ (if k == i then count_at h.counts i + 1 else count_at h.counts i)
  reads i =
      let inside : k < length h.counts = omega (arith, valid.width, k_lt) in
      let e = get_or-set h.counts k i (count_at h.counts k + 1) 0 inside in
      elim (ℕ_discrete k i) [
        | yes same ↦
            let t : (k == i) ≡ true = (==_iff k i).1 same in
            let g : count_at h.counts i ≡ count_at h.counts k =
              ap (λ (y : ℕ). count_at h.counts y) (sym same) in
            rw (t, g) (rw t at e)
        | no apart ↦ let t : (k == i) ≡ false = ground arith in rw t (rw t at e)
      ]

  grows : (i : ℕ) → count_at h.counts i ≤ count_at counts' i
  grows i = ground (arith, reads i)

  positive : 0 < count_at counts' k
  positive = rw (reads k, ==_refl k) (omega arith)

  summed' : below counts' bucket_count ≡ h.total + 1
  summed' =
      let inside : k < length h.counts = omega (arith, valid.width, k_lt) in
      let sum = below_set h.counts k bucket_count (count_at h.counts k + 1) inside in
      let all : ltb k bucket_count ≡ true = ground (arith, k_lt) in
      let sum' : below counts' bucket_count + count_at h.counts k
          ≡ below h.counts bucket_count + (count_at h.counts k + 1) =
        rw all at sum in
      omega (arith, valid.summed)

  -- The ends of the band: a bucket with samples, and at or past every other bucket with samples.
  lo_end :
      (lo : ℕ)
      → lo ≡ (if ltb k h.used_lo then k else h.used_lo)
      → (lo ≤ k) × (0 < count_at counts' lo)
  lo_end lo e = elim (dec_lt k h.used_lo) [
    | yes lt ↦ let same : lo ≡ k = ground arith in (omega arith, rw same positive)
    | no ge ↦
        let same : lo ≡ h.used_lo = ground arith in
        let some : h.total ≢ 0 = λ z. omega (arith, (valid.vacant z).0, k_lt) in
        (omega arith, rw same (omega (arith, grows h.used_lo, (valid.ends some).0)))
  ]

  hi_end :
      (hi : ℕ)
      → hi ≡ (if ltb h.used_hi k then k else h.used_hi)
      → (k ≤ hi) × (hi < bucket_count) × (0 < count_at counts' hi)
  hi_end hi e = elim (dec_lt h.used_hi k) [
    | yes lt ↦
        let same : hi ≡ k = ground arith in (omega arith, omega (arith, k_lt), rw same positive)
    | no ge ↦
        let same : hi ≡ h.used_hi = ground arith in
        (
          omega arith,
          omega (arith, valid.hi_lt),
          rw same (full (omega arith) (ℕ_discrete h.total 0)),
        )
  ]
    where
      full : k ≤ h.used_hi → Dec (h.total ≡ 0) → 0 < count_at counts' h.used_hi
      full le (yes z) =
          let zero_k : h.used_hi ≡ k = omega (arith, (valid.vacant z).1) in rw zero_k positive
      full le (no some) = omega (arith, grows h.used_hi, (valid.ends some).1)

  outside' :
      (lo hi i : ℕ)
      → lo ≤ h.used_lo
      → h.used_hi ≤ hi
      → lo ≤ k
      → k ≤ hi
      → (i < lo) ⊎ (hi < i)
      → count_at counts' i ≡ 0
  outside' lo hi i l u lk ku out =
      let apart : (k == i) ≡ false =
        ==_false k i (λ e. elim out [ inl a ↦ omega arith | inr b ↦ omega arith ]) in
      rw (reads i, apart)
        (valid.outside i (elim out [ inl a ↦ inl (omega arith) | inr b ↦ inr (omega arith) ]))

-- A sample that is added to a valid histogram, and does not wrap its total, is one more in the
-- bucket of its value and in the total, and in no other bucket; the histogram stays valid.
pub add-Adds :
    (h : Histogram) (v : ℕ) → IsValid h → v < 2 ^ 64 → h.total + 1 < 2 ^ 64 → Adds h v (add h v)
unfolding add
add-Adds h v valid small more =
    let le : count_at h.counts (index_of v) ≤ h.total = count-le-total h (index_of v) valid in
    let keep : (count_at h.counts (index_of v) + 1) % 2 ^ 64 ≡ count_at h.counts (index_of v) + 1 =
      mod-eq_of_lt (omega arith) in
    let total : (h.total + 1) % 2 ^ 64 ≡ h.total + 1 = mod-eq_of_lt more in
    let (lo_le, lo_pos) = lo_end h v valid small more _ refl in
    let (hi_le, hi_lt, hi_pos) = hi_end h v valid small more _ refl in
    rw (keep, total)
      (record {
        valid = record {
          width = length-set h.counts (index_of v) _ ∙ valid.width;
          summed = summed' h v valid small more;
          fits = more;
          hi_lt = hi_lt;
          outside = λ i out.
              outside' h v valid small more _ _ i (ground arith) (ground arith) lo_le hi_le out;
          band = λ _. omega arith;
          ends = λ _. (lo_pos, hi_pos);
          vacant = λ z. absurd (omega arith);
        };
        total = refl;
        counts = reads h v valid small more;
      })
