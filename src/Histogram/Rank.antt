-- ===== src/Histogram/Rank.antt =====
-- `nearest_rank` and the scan of `percentile`.
use native.Mathlib.Nat.{mod-eq_of_lt, mul-le-mul_left}
use native.Mathlib.Decide.{dec_lt, ℕ_discrete}
use slick_perfmon.Prelude.{
  ℕ, zero, suc, ◌+◌, ◌-◌, ◌*◌, ◌/◌, ◌%◌, ◌^◌, ◌≤◌, ◌<◌, ◌≡◌, refl, sym, ap, ◌∙◌, ◌≢◌, inl, inr,
  arith, true, false, leb, ◌==◌, ==_iff, ==_false, Bool-cases, List,
}
use slick_perfmon.Histogram.{
  Histogram, Percent, bucket_count, count_at, rounds, rank_scale, nearest_rank, seek,
  percentile_bucket, first_used, last_used,
}
use slick_perfmon.Histogram.Band.{below, IsValid}

-- `want` is the rank: at least 1, at most `n`, and the least that `n * scaled / rank_scale` does
-- not exceed.
pub record IsRank (scaled n want : ℕ) : Type 0 where
  pub first : 1 ≤ want
  pub last : want ≤ n
  pub enough : scaled * n ≤ want * rank_scale
  pub least : want ≢ 1 → (want - 1) * rank_scale < scaled * n

-- For `scaled` up to `rank_scale` and a population of 1 or more in 64 bits, nothing in `nearest_rank`
-- wraps: it is `scaled / rank_scale * n`, rounded up, and 1 at least.
pub nearest_rank-IsRank :
    (scaled n : ℕ)
    → scaled ≤ rank_scale
    → 1 ≤ n
    → n < 2 ^ 64
    → IsRank scaled n (nearest_rank scaled n)
unfolding nearest_rank
nearest_rank-IsRank scaled n hs pos fits =
    let q : ℕ = n / rank_scale in
    let r : ℕ = n % rank_scale in
    let split : n ≡ rank_scale * q + r = omega arith in
    let r_lt : r < rank_scale = omega arith in
    let qs : q * scaled ≤ q * rank_scale = mul-le-mul_left q hs in
    let rs : r * scaled ≤ r * rank_scale = mul-le-mul_left r hs in
    let e1 : q * scaled % 2 ^ 64 ≡ q * scaled = mod-eq_of_lt (omega arith) in
    let e2 : r * scaled % 2 ^ 64 ≡ r * scaled = mod-eq_of_lt (omega arith) in
    let e3 : (r * scaled + rank_scale) % 2 ^ 64 ≡ r * scaled + rank_scale =
      mod-eq_of_lt (omega arith) in
    let up : ℕ = (r * scaled + rank_scale - 1) / rank_scale in
    let up_le : up ≤ r = omega arith in
    let e4 : (q * scaled + up) % 2 ^ 64 ≡ q * scaled + up = mod-eq_of_lt (omega arith) in
    let whole : scaled * n ≡ rank_scale * (q * scaled) + r * scaled =
      ap (λ (y : ℕ). scaled * y) split ∙ omega arith in
    rw (e1, e2, e3, e4)
      (elim (ℕ_discrete (q * scaled + up) 0) [
        | yes z ↦ rw ((==_iff (q * scaled + up) 0).1 z) (record {
          first = omega arith;
          last = pos;
          enough = omega arith;
          least = λ ne. absurd (ne refl);
        })
        | no some ↦ rw (==_false (q * scaled + up) 0 some) (record {
          first = omega arith;
          last = omega arith;
          enough = omega arith;
          least = λ ne. omega arith;
        })
      ])

-- The first bucket up to which `want` samples are seen.
pub record Reaches (counts : List ℕ) (want i : ℕ) : Type 0 where
  pub before : below counts i < want
  pub after : want ≤ below counts (i + 1)

below_suc : (cs : List ℕ) (i : ℕ) → below cs (i + 1) ≡ below cs i + count_at cs i
unfolding below
below_suc cs i = let e : i + 1 ≡ suc i = omega arith in rw (e, below)

below_mono : (cs : List ℕ) (i n : ℕ) → below cs i ≤ below cs (i + n)
below_mono cs i zero = let e : i + 0 ≡ i = omega arith in rw e (omega arith)
below_mono cs i (suc n) =
    let e : i + suc n ≡ i + n + 1 = omega arith in
    rw e (omega (arith, below_suc cs (i + n), below_mono cs i n))

seek-Reaches :
    (n i : ℕ) (cs : List ℕ) (want last : ℕ)
    → below cs i < want
    → want ≤ below cs (i + n)
    → below cs (i + n) < 2 ^ 64
    → Reaches cs want (seek n i cs want (below cs i) last)
unfolding seek
seek-Reaches zero i cs want last lo hi fits =
    let e : i + 0 ≡ i = omega arith in
    let hi' : want ≤ below cs i = rw e at hi in absurd (omega arith)
seek-Reaches (suc n) i cs want last lo hi fits =
    let e : i + suc n ≡ i + 1 + n = omega arith in
    let up = below_mono cs (i + 1) n in
    let sum = below_suc cs i in
    let hi' : want ≤ below cs (i + 1 + n) = rw e at hi in
    let fits' : below cs (i + 1 + n) < 2 ^ 64 = rw e at fits in
    let keep : (below cs i + count_at cs i) % 2 ^ 64 ≡ below cs (i + 1) =
      mod-eq_of_lt (omega arith) ∙ sym sum in
    rw keep (elim (dec_lt (below cs (i + 1)) want) [
      | yes more ↦
          let t : leb want (below cs (i + 1)) ≡ false = ground arith in
          rw t (seek-Reaches n (i + 1) cs want last more hi' fits')
      | no here ↦
          let t : leb want (below cs (i + 1)) ≡ true = ground arith in
          rw t (record { before = lo; after = omega arith })
    ])

below_empty : (cs : List ℕ) (n : ℕ) → ((i : ℕ) → i < n → count_at cs i ≡ 0) → below cs n ≡ 0
unfolding below
below_empty cs zero h = refl
below_empty cs (suc n) h =
    omega (arith, below_empty cs n (λ i lt. h i (omega arith)), h n (omega arith))

below_past :
    (cs : List ℕ) (i n : ℕ) → ((j : ℕ) → i ≤ j → count_at cs j ≡ 0) → below cs (i + n) ≡ below cs i
below_past cs i zero h = let e : i + 0 ≡ i = omega arith in rw e
below_past cs i (suc n) h =
    let e : i + suc n ≡ i + n + 1 = omega arith in
    rw e (omega (arith, below_suc cs (i + n), below_past cs i n h, h (i + n) (omega arith)))

-- What bucket `percentile` reports: the first with samples for `p` at or below 0, the last with
-- samples from 100 up, and between them the one that the nearest rank falls in.
pub record IsPercentile (h : Histogram) (p : Percent) (i : ℕ) : Type 0 where
  pub occupied : 0 < count_at h.counts i
  pub lowest : p.low ≡ true → (j : ℕ) → j < i → count_at h.counts j ≡ 0
  pub highest : p.low ≡ false → p.high ≡ true → (j : ℕ) → i < j → count_at h.counts j ≡ 0
  pub ranked : p.low ≡ false → p.high ≡ false → Reaches h.counts (nearest_rank p.scaled h.total) i

module _ (h : Histogram) (p : Percent) (v : IsValid h) (some : h.total ≢ 0)
    (small : p.scaled ≤ rank_scale) where
  start : below h.counts h.used_lo ≡ 0
  start = below_empty h.counts h.used_lo (λ i lt. v.outside i (inl lt))

  stop : below h.counts (h.used_lo + rounds h.used_lo h.used_hi) ≡ h.total
  stop =
      let whole : bucket_count ≡ h.used_hi + 1 + (bucket_count - (h.used_hi + 1)) =
        omega (arith, v.hi_lt) in
      let past =
        below_past h.counts (h.used_hi + 1) (bucket_count - (h.used_hi + 1))
          (λ j le. v.outside j (inr (omega arith))) in
      let total : below h.counts (h.used_hi + 1) ≡ h.total =
        sym past ∙ ap (below h.counts) (sym whole) ∙ v.summed in
      let e : h.used_lo + rounds h.used_lo h.used_hi ≡ h.used_hi + 1 = omega (arith, v.band some) in
      rw e total

  between : Reaches h.counts (nearest_rank p.scaled h.total) (
      seek
        (rounds h.used_lo h.used_hi)
        h.used_lo
        h.counts
        (nearest_rank p.scaled h.total)
        0
        h.used_hi)
  between =
      let k = nearest_rank-IsRank p.scaled h.total small (omega arith) v.fits in
      let want : ℕ = nearest_rank p.scaled h.total in
      let found : Reaches h.counts want (
          seek (rounds h.used_lo h.used_hi) h.used_lo h.counts want (below h.counts h.used_lo)
            h.used_hi) =
        seek-Reaches (rounds h.used_lo h.used_hi) h.used_lo h.counts want h.used_hi
          (rw start k.first) (rw stop k.last) (rw stop v.fits) in
      rw start at found

  -- On a valid histogram that is not empty, with `p` scaled to at most the whole, `percentile` takes the midpoint of a bucket with
  -- samples: the first such for `p` at or below 0, the last such from 100 up, and in between the
  -- first bucket up to which at least as many samples are counted as the nearest rank.
  pub percentile_bucket-IsPercentile : IsPercentile h p (percentile_bucket h p)
  unfolding percentile_bucket first_used last_used
  percentile_bucket-IsPercentile =
      let t : (h.total == 0) ≡ false = ==_false h.total 0 some in
      let ends = v.ends some in
      rw t (elim (Bool-cases p.low) [
        | inl low ↦ rw low (record {
          occupied = ends.0;
          lowest = λ _ j lt. v.outside j (inl lt);
          highest = λ f. cc;
          ranked = λ f. cc;
        })
        | inr mid ↦ elim (Bool-cases p.high) [
          | inl high ↦
              rw (mid, high)
                (record {
                  occupied = ends.1;
                  lowest = λ f. cc;
                  highest = λ _ _ j lt. v.outside j (inr lt);
                  ranked = λ _ f. cc;
                })
          | inr inner ↦
              rw (mid, inner)
                (record {
                  occupied = omega (
                    arith,
                    between.before,
                    between.after,
                    below_suc h.counts (
                        seek (rounds h.used_lo h.used_hi) h.used_lo h.counts
                          (nearest_rank p.scaled h.total) 0 h.used_hi),
                  );
                  lowest = λ f. cc;
                  highest = λ _ f. cc;
                  ranked = λ _ _. between;
                })
        ]
      ])
