-- ===== src/Histogram/Merging.antt =====
-- `merge` of the histogram.
use native.Mathlib.Nat.{mod-eq_of_lt}
use native.Mathlib.Decide.{dec_lt, ℕ_discrete}
use slick_perfmon.Prelude.{
  ℕ, zero, suc, ◌+◌, ◌%◌, ◌^◌, ◌≤◌, ◌<◌, ◌≡◌, refl, ap, ◌∙◌, ◌≢◌, ◌⊎◌, inl, inr, arith, true, false,
  not, ◌&&◌, ltb, ◌==◌, ==_iff, ==_false, if◌then◌else◌, List, length, set, length-set, get_or-set,
}
use slick_perfmon.Histogram.{Histogram, bucket_count, count_at, rounds, add_band, merge}
use slick_perfmon.Histogram.Band.{below_sum, count-le-total, IsValid}

-- `merge`: the two bands together.
at-add_band :
    (n i : ℕ) (other cs : List ℕ) (j : ℕ)
    → i + n ≤ length cs
    → (count_at (add_band n i other cs) j ≡ (
        if not (ltb j i) && ltb j (i + n)
        then (count_at cs j + count_at other j) % 2 ^ 64
        else count_at cs j))
      × (length (add_band n i other cs) ≡ length cs)
unfolding add_band
at-add_band zero i other cs j h =
    let t : (not (ltb j i) && ltb j (i + 0)) ≡ false = ground arith in (rw t, refl)
at-add_band (suc n) i other cs j h =
    let now : ℕ = (count_at cs i + count_at other i) % 2 ^ 64 in
    let e = get_or-set cs i j now 0 (omega arith) in
    let wide : length (set cs i now) ≡ length cs = length-set cs i now in
    let (z, w) = at-add_band n (i + 1) other (set cs i now) j (omega arith) in
    (
      elim (ℕ_discrete i j) [
        | yes same ↦
            let outer : (not (ltb j i) && ltb j (i + suc n)) ≡ true = ground arith in
            let inner : (not (ltb j (i + 1)) && ltb j (i + 1 + n)) ≡ false = ground arith in
            let z' : count_at (add_band n (i + 1) other (set cs i now)) j
                ≡ count_at (set cs i now) j =
              rw inner at z in
            let e' : count_at (set cs i now) j ≡ now = rw ((==_iff i j).1 same) at e in
            rw outer (z' ∙ e' ∙ ap (λ (y : ℕ). (count_at cs y + count_at other y) % 2 ^ 64) same)
        | no apart ↦
            let both : (not (ltb j i) && ltb j (i + suc n))
                ≡ (not (ltb j (i + 1)) && ltb j (i + 1 + n)) =
              ground arith in
            let e' : count_at (set cs i now) j ≡ count_at cs j = rw (==_false i j apart) at e in
            rw (both, ← e') z
      ],
      w ∙ wide,
    )

pub record Merges (h other out : Histogram) : Type 0 where
  pub valid : IsValid out
  pub total : out.total ≡ h.total + other.total
  pub counts : (i : ℕ) → count_at out.counts i ≡ count_at h.counts i + count_at other.counts i

module _ (h other : Histogram) (v : IsValid h) (w : IsValid other)
    (more : h.total + other.total < 2 ^ 64) where
  module _ (some : other.total ≢ 0) where
    abbrev joined : List ℕ
    joined = add_band (rounds other.used_lo other.used_hi) other.used_lo other.counts h.counts

    within : other.used_lo + rounds other.used_lo other.used_hi ≤ length h.counts
    within = omega (arith, w.band some, w.hi_lt, v.width)

    joined_at : (i : ℕ) → count_at joined i ≡ count_at h.counts i + count_at other.counts i
    joined_at i =
        let e =
          (at-add_band (rounds other.used_lo other.used_hi) other.used_lo other.counts h.counts i
            within).0 in
        let a = count-le-total h i v in
        let b = count-le-total other i w in
        let keep : (count_at h.counts i + count_at other.counts i) % 2 ^ 64
            ≡ count_at h.counts i + count_at other.counts i =
          mod-eq_of_lt (omega arith) in
        let band : other.used_lo ≤ other.used_hi = w.band some in
        elim (dec_lt i other.used_lo) [
          | yes lt ↦
              let t : (not (ltb i other.used_lo)
                    && ltb i (other.used_lo + rounds other.used_lo other.used_hi))
                  ≡ false =
                ground arith in
              let none_there : count_at other.counts i ≡ 0 = w.outside i (inl lt) in
              rw t at e ∙ omega arith
          | no ge ↦ elim (dec_lt other.used_hi i) [
            | yes gt ↦
                let t : (not (ltb i other.used_lo)
                      && ltb i (other.used_lo + rounds other.used_lo other.used_hi))
                    ≡ false =
                  ground arith in
                let none_there : count_at other.counts i ≡ 0 = w.outside i (inr gt) in
                rw t at e ∙ omega arith
            | no le ↦
                let t : (not (ltb i other.used_lo)
                      && ltb i (other.used_lo + rounds other.used_lo other.used_hi))
                    ≡ true =
                  ground arith in
                rw t at e ∙ keep
          ]
        ]

    -- The ends of the joined band.
    lo_end :
        (lo : ℕ)
        → lo ≡ (if ltb other.used_lo h.used_lo then other.used_lo else h.used_lo)
        → (lo ≤ h.used_lo) × (lo ≤ other.used_lo) × (0 < count_at joined lo)
    lo_end lo e = elim (dec_lt other.used_lo h.used_lo) [
      | yes lt ↦
          let same : lo ≡ other.used_lo = ground arith in
          (
            omega arith,
            omega arith,
            rw (same, joined_at other.used_lo) (omega (arith, w.ends some)),
          )
      | no ge ↦
          let same : lo ≡ h.used_lo = ground arith in
          let live : h.total ≢ 0 = λ z. omega (arith, v.vacant z, w.band some, w.hi_lt) in
          (omega arith, omega arith, rw (same, joined_at h.used_lo) (omega (arith, v.ends live)))
    ]

    hi_end :
        (hi : ℕ)
        → hi ≡ (if ltb h.used_hi other.used_hi then other.used_hi else h.used_hi)
        → (h.used_hi ≤ hi) × (other.used_hi ≤ hi) × (hi < bucket_count) × (0 < count_at joined hi)
    hi_end hi e = elim (dec_lt h.used_hi other.used_hi) [
      | yes lt ↦
          let same : hi ≡ other.used_hi = ground arith in
          (
            omega arith,
            omega arith,
            omega (arith, w.hi_lt),
            rw (same, joined_at other.used_hi) (omega (arith, w.ends some)),
          )
      | no ge ↦
          let same : hi ≡ h.used_hi = ground arith in
          (
            omega arith,
            omega arith,
            omega (arith, v.hi_lt),
            rw (same, joined_at h.used_hi) (live (omega arith) (ℕ_discrete h.total 0)),
          )
    ]
      where
        live :
            other.used_hi ≤ h.used_hi
            → Dec (h.total ≡ 0)
            → 0 < count_at h.counts h.used_hi + count_at other.counts h.used_hi
        live le (no n) = omega (arith, v.ends n)
        live le (yes z) =
            let zero_hi : h.used_hi ≡ other.used_hi = omega (arith, v.vacant z) in
            rw zero_hi (omega (arith, w.ends some))

    merged : Merges h other (merge h other)
    unfolding merge
    merged =
        let test : (other.total == 0) ≡ false = ground arith in
        let total : (h.total + other.total) % 2 ^ 64 ≡ h.total + other.total = mod-eq_of_lt more in
        let (lo1, lo2, lo_pos) = lo_end _ refl in
        let (hi1, hi2, hi_lt, hi_pos) = hi_end _ refl in
        rw (test, total)
          (record {
            valid = record {
              width =
                  (at-add_band (rounds other.used_lo other.used_hi) other.used_lo other.counts
                    h.counts 0 within).1
                  ∙ v.width;
              summed =
                  below_sum h.counts other.counts joined bucket_count (λ i lt. joined_at i)
                  ∙ omega (arith, v.summed, w.summed);
              fits = more;
              hi_lt = hi_lt;
              outside = λ i out.
                  joined_at i
                  ∙ both (v.outside i (wider i lo1 hi1 out)) (w.outside i (wider i lo2 hi2 out));
              band = λ _. omega (arith, w.band some);
              ends = λ _. (lo_pos, hi_pos);
              vacant = λ z. absurd (omega arith);
            };
            total = refl;
            counts = joined_at;
          })
      where
        both : {a b : ℕ} → a ≡ 0 → b ≡ 0 → a + b ≡ 0
        both e f = omega arith

        wider :
            {lo hi lo' hi' : ℕ} (i : ℕ)
            → lo' ≤ lo
            → hi ≤ hi'
            → (i < lo') ⊎ (hi' < i)
            → (i < lo) ⊎ (hi < i)
        wider i a b (inl x) = inl (omega arith)
        wider i a b (inr x) = inr (omega arith)

  -- `h.merge(other)` of two valid histograms whose totals do not wrap together adds every bucket of
  -- `other` to that of `h`, and the totals; the histogram stays valid.
  pub merge-Merges : Merges h other (merge h other)
  unfolding merge
  merge-Merges = elim (ℕ_discrete other.total 0) [
    | no some ↦ unfold merge in merged some
    | yes z ↦ unmerged z
  ]
    where
      unmerged : other.total ≡ 0 → Merges h other (merge h other)
      unmerged z =
          let test : (other.total == 0) ≡ true = ground arith in
          rw test (record {
            valid = v;
            total = omega arith;
            counts = λ i. omega (arith, count-le-total other i w);
          })
