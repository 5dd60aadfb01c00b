-- ===== src/Pairer/Evict.antt =====
-- `evict_oldest` makes room in every table that has a span.
use slick_perfmon.Prelude.{
  ℕ, suc, ◌+◌, ◌-◌, ◌^◌, ◌≤◌, ◌<◌, ◌≡◌, refl, ◌∙◌, arith, true, false, ==_false, inl, inr, List, [],
  length, get_or,
}
use slick_perfmon.OpenMap.{for_each}
use slick_perfmon.OpenMap.Visit.{for_each-Visits}
use slick_perfmon.Accumulator.{Doubles}
use slick_perfmon.Pairer.Anomalies.{PointAnomalies-Default, abandoned}
use slick_perfmon.Pairer.Anomalies.Totals.{sum_of}
use slick_perfmon.Pairer.{
  Pairer, OpenSpan, OpenSpan-Default, Stage-Default, EvictCandidate, no_candidate, Heap, nominate,
  refill_evict_queue, drain_queue, passes, evict_oldest,
}
use slick_perfmon.Pairer.Valid.{IsValid}
use slick_perfmon.Pairer.Drain.{staleness, Evicts, Idle, Drains, drain-Drains, drain-live}
use slick_perfmon.Pairer.Nominate.{IsHeap, weigh, weigh-get_or, length-sort, Fresh, nominate-Fresh}

module _ {F : Type 0} ⦃f : Doubles F⦄ ⦃heap : Heap⦄ (laws : IsHeap heap) where
  record Refills (w out : Pairer F) : Type 0 where
    idle : Idle w out
    next : out.evict_next ≡ 0
    fresh : Fresh laws w.spans w.spans.size out.evict_queue

  refill-Refills : (w : Pairer F) → IsValid w → 1 ≤ w.evict_batch → Refills w (refill_evict_queue w)
  unfolding refill_evict_queue
  refill-Refills w v pos =
      let fn : ℕ → OpenSpan → List EvictCandidate → OpenSpan × List EvictCandidate =
        λ key sp q. (sp, nominate w.evict_batch key sp q) in
      let r =
        for_each-Visits fn (Fresh laws w.spans) (λ k x s. refl) w.spans v.spans []
          (λ k p s n q. nominate-Fresh laws w.spans v.spans w.evict_batch k p n q pos s)
          (unfold weigh in refl, inl refl) in
      let q = (for_each fn w.spans []).1 in
      record {
        idle = record { spans = r.0; ledger = refl; stages = refl; batch = refl };
        next = refl;
        fresh = (
          laws.sort (staleness w.spans) q ∙ r.1.0,
          elim r.1.1 [ inl z ↦ inl z | inr any ↦ inr (omega (arith, length-sort laws q)) ],
        );
      }

  passes_done :
      (n : ℕ) (w : Pairer F) → (drain_queue w).0 ≡ true → passes (suc n) w ≡ (drain_queue w).1
  unfolding passes
  passes_done n w e = rw e

  passes_on :
      (n : ℕ) (w : Pairer F)
      → (drain_queue w).0 ≡ false
      → 1 ≤ length (refill_evict_queue (drain_queue w).1).evict_queue
      → passes (suc n) w ≡ passes n (refill_evict_queue (drain_queue w).1)
  unfolding passes
  passes_on n w e any =
      let t =
        ==_false (length (refill_evict_queue (drain_queue w).1).evict_queue) 0
          (λ z. absurd (omega (arith, z, any))) in
      rw (e, t)

  Idle-refl : (w : Pairer F) → Idle w w
  Idle-refl w = record { spans = refl; ledger = refl; stages = refl; batch = refl }

  first_pass :
      (w : Pairer F) → IsValid w → sum_of abandoned w.ledger + 1 < 2 ^ 64 → Drains w (drain_queue w)
  unfolding drain_queue
  first_pass w v fits = drain-Drains (length w.evict_queue - w.evict_next) w w v (Idle-refl w) fits

  -- After a refill the first candidate is evicted.
  second_pass :
      (w w2 : Pairer F) (v : IsValid w)
      → Idle w w2
      → w2.evict_next ≡ 0
      → 1 ≤ length w2.evict_queue
      → staleness w.spans (get_or w2.evict_queue 0 no_candidate) ≡ 0
      → sum_of abandoned w.ledger + 1 < 2 ^ 64
      → Evicts w (passes 1 w2)
  second_pass w w2 v idle next any live fits =
      let v2 : IsValid w2 = record {
        spans = rw idle.spans v.spans;
        stages = rw idle.stages v.stages;
        points = rw idle.ledger v.points;
        batch = rw idle.batch v.batch;
        capacity = rw idle.spans v.capacity;
      } in
      let n : ℕ = length w2.evict_queue - 1 in
      let rounds : length w2.evict_queue - w2.evict_next ≡ suc n = omega arith in
      let hit : (drain_queue w2).0 ≡ true =
        unfold drain_queue in
        rw rounds (drain-live n w2 v2 (omega arith) (rw (idle.spans, next) live)) in
      let r : Drains w (drain_queue w2) = unfold drain_queue in drain-Drains _ w2 w v idle fits in
      rw (passes_done 0 w2 hit) (elim r [ inl (e, ev) ↦ ev | inr (e, i) ↦ cc (hit, e) ])

  -- On a valid pairer that has an open span, and whose sum of abandoned spans does not wrap,
  -- `evict_oldest` drops exactly one open span and adds one to that sum; the other spans and the sums
  -- of the other counters are left alone. The heap algorithms are assumed to rearrange their elements.
  pub evict_oldest-Evicts :
      (w : Pairer F)
      → IsValid w
      → 1 ≤ w.spans.size
      → sum_of abandoned w.ledger + 1 < 2 ^ 64
      → Evicts w (evict_oldest w)
  unfolding evict_oldest
  evict_oldest-Evicts w v busy fits = elim (first_pass w v fits) [
    | inl (e, ev) ↦ rw (passes_done 1 w e) ev
    | inr (e, idle) ↦
        let w1 = (drain_queue w).1 in
        let v1 : IsValid w1 = record {
          spans = rw idle.spans v.spans;
          stages = rw idle.stages v.stages;
          points = rw idle.ledger v.points;
          batch = rw idle.batch v.batch;
          capacity = rw idle.spans v.capacity;
        } in
        let r = refill-Refills w1 v1 v1.batch in
        let any : 1 ≤ length (refill_evict_queue w1).evict_queue = elim r.fresh.1 [
          | inl z ↦ absurd (omega (arith, (rw idle.spans at z)))
          | inr any ↦ any
        ] in
        let clean : weigh (staleness w.spans) (refill_evict_queue w1).evict_queue ≡ 0 =
          rw idle.spans at r.fresh.0 in
        let both : Idle w (refill_evict_queue w1) = record {
          spans = r.idle.spans ∙ idle.spans;
          ledger = r.idle.ledger ∙ idle.ledger;
          stages = r.idle.stages ∙ idle.stages;
          batch = r.idle.batch ∙ idle.batch;
        } in
        rw (passes_on 1 w e any) (
          second_pass w (refill_evict_queue w1) v both r.next any
            (omega (
              arith,
              clean,
              weigh-get_or (staleness w.spans) (refill_evict_queue w1).evict_queue 0 no_candidate
                  any,
            ))
            fits)
  ]
