-- ===== src/Pairer/Nominate.antt =====
-- `refill_evict_queue` nominates live spans only, and at least one where there is one.
use slick_perfmon.Prelude.{
  ℕ, zero, suc, ◌+◌, ◌-◌, ◌≤◌, ◌<◌, ◌≡◌, refl, sym, ◌∙◌, ◌⊎◌, arith, ltb, ==_refl, Bool-cases, inl,
  inr, List, [], ◌∷◌, ◌++◌, length, get_or, set, length-append, length-set,
}
use slick_perfmon.OpenMap.{OpenMap, load}
use slick_perfmon.OpenMap.Valid as Map
use slick_perfmon.OpenMap.Valid.{lookup, Stored, lookup-eq_some}
use slick_perfmon.Pairer.Anomalies.{PointAnomalies-Default}
use slick_perfmon.Pairer.{
  OpenSpan, OpenSpan-Default, Stage-Default, EvictCandidate, no_candidate, Heap, nominate,
}
use slick_perfmon.Pairer.Drain.{staleness}

-- The sum of `g` over a queue.
unfoldable pub weigh : (EvictCandidate → ℕ) → List EvictCandidate → ℕ
weigh g [] = 0
weigh g (c ∷ q) = g c + weigh g q

-- What the C++ library says of the heap algorithms: they only rearrange the elements, so every sum
-- over them stays.
pub record IsHeap (h : Heap) : Type 0 where
  pub push :
      (g : EvictCandidate → ℕ) (q : List EvictCandidate) → weigh g (h.push_heap q) ≡ weigh g q
  pub pop : (g : EvictCandidate → ℕ) (q : List EvictCandidate) → weigh g (h.pop_heap q) ≡ weigh g q
  pub sort :
      (g : EvictCandidate → ℕ) (q : List EvictCandidate) → weigh g (h.sort_heap q) ≡ weigh g q

abbrev each_one : EvictCandidate → ℕ
each_one c = 1

weigh-each_one : (q : List EvictCandidate) → weigh each_one q ≡ length q
unfolding weigh
weigh-each_one [] = refl
weigh-each_one (c ∷ q) = omega (arith, weigh-each_one q)

weigh-append :
    (g : EvictCandidate → ℕ) (q r : List EvictCandidate) → weigh g (q ++ r) ≡ weigh g q + weigh g r
unfolding weigh
weigh-append g [] r = omega arith
weigh-append g (c ∷ q) r = omega (arith, weigh-append g q r)

weigh-set :
    (g : EvictCandidate → ℕ) (q : List EvictCandidate) (i : ℕ) (c : EvictCandidate)
    → weigh g (set q i c) ≤ weigh g q + g c
unfolding weigh
weigh-set g [] i c = omega arith
weigh-set g (x ∷ q) zero c = omega arith
weigh-set g (x ∷ q) (suc i) c = omega (arith, weigh-set g q i c)

pub weigh-get_or :
    (g : EvictCandidate → ℕ) (q : List EvictCandidate) (i : ℕ) (c : EvictCandidate)
    → i < length q
    → g (get_or q i c) ≤ weigh g q
unfolding weigh
weigh-get_or g [] i c h = absurd (omega arith)
weigh-get_or g (x ∷ q) zero c h = omega arith
weigh-get_or g (x ∷ q) (suc i) c h = omega (arith, weigh-get_or g q i c (omega arith))

weigh_one : (g : EvictCandidate → ℕ) (c : EvictCandidate) → weigh g (c ∷ []) ≡ g c
unfolding weigh
weigh_one g c = omega arith

live_candidate :
    (spans : OpenMap OpenSpan) (v : Map.IsValid spans) (k p : ℕ)
    → Stored spans v.cap k p
    → staleness spans (record { key = k; seen_tsc = (load spans p).seen_tsc }) ≡ 0
unfolding staleness
live_candidate spans v k p s =
    rw (lookup-eq_some spans v k p s, ==_refl (load spans p).seen_tsc, staleness)

module _ ⦃heap : Heap⦄ (laws : IsHeap heap) where
  length-push : (q : List EvictCandidate) → length (heap.push_heap q) ≡ length q
  length-push q = sym (weigh-each_one _) ∙ laws.push each_one q ∙ weigh-each_one q

  length-pop : (q : List EvictCandidate) → length (heap.pop_heap q) ≡ length q
  length-pop q = sym (weigh-each_one _) ∙ laws.pop each_one q ∙ weigh-each_one q

  pub length-sort : (q : List EvictCandidate) → length (heap.sort_heap q) ≡ length q
  length-sort q = sym (weigh-each_one _) ∙ laws.sort each_one q ∙ weigh-each_one q

  -- No candidate is stale, and there is one as soon as a span was visited.
  abbrev pub Fresh : OpenMap OpenSpan → ℕ → List EvictCandidate → Type 0
  Fresh spans n q = (weigh (staleness spans) q ≡ 0) × ((n ≡ 0) ⊎ (1 ≤ length q))

  pub nominate-Fresh :
      (spans : OpenMap OpenSpan) (v : Map.IsValid spans) (batch k p n : ℕ) (q : List EvictCandidate)
      → 1 ≤ batch
      → Stored spans v.cap k p
      → Fresh spans n q
      → Fresh spans (n + 1) (nominate batch k (load spans p) q)
  unfolding nominate
  nominate-Fresh spans v batch k p n q pos s (clean, any) =
      let c : EvictCandidate = record { key = k; seen_tsc = (load spans p).seen_tsc } in
      let good : staleness spans c ≡ 0 = live_candidate spans v k p s in
      elim (Bool-cases (ltb (length q) batch)) [
        | inl room ↦
            let one_more : length (q ++ (c ∷ [])) ≡ length q + 1 =
              length-append q (c ∷ []) ∙ omega arith in
            let last : weigh (staleness spans) (c ∷ []) ≡ 0 =
              weigh_one (staleness spans) c ∙ good in
            rw room (
              laws.push (staleness spans) (q ++ (c ∷ []))
                  ∙ omega (arith, weigh-append (staleness spans) q (c ∷ [])),
              inr (omega (arith, length-push (q ++ (c ∷ [])))),
            )
        | inr full ↦
            rw full (elim (Bool-cases (ltb c.seen_tsc (get_or q 0 no_candidate).seen_tsc)) [
              | inr newer ↦ rw newer (clean, inr (ground arith))
              | inl older ↦
                  let r = set (heap.pop_heap q) (length q - 1) c in
                  let same : length r ≡ length q =
                    length-set (heap.pop_heap q) (length q - 1) c ∙ length-pop q in
                  rw older (
                    omega (
                      arith,
                      laws.push (staleness spans) r,
                      weigh-set (staleness spans) (heap.pop_heap q) (length q - 1) c,
                      laws.pop (staleness spans) q,
                    ),
                    inr (ground (arith, length-push r)),
                  )
            ])
      ]
