-- ===== src/Pairer/Drain.antt =====
-- `evict_oldest` takes candidates off its queue: the one that is evicted, and the ones passed over.
use slick_perfmon.Prelude.{
  ℕ, zero, suc, ◌+◌, ◌^◌, ◌<◌, ◌≡◌, refl, ◌≢◌, ◌⊎◌, arith, Bool, true, false, ltb, ◌==◌,
  if◌then◌else◌, Bool-cases, none, some, Option-cases, inl, inr, length, get_or,
}
use slick_perfmon.OpenMap.{OpenMap, find, load}
use slick_perfmon.OpenMap.Valid.{lookup, find-Stored, lookup-eq_some, lookup-eq_none}
use slick_perfmon.OpenMap.Erase.{erase-Erases}
use slick_perfmon.Accumulator.{Doubles}
use slick_perfmon.Keys.{span_point}
use slick_perfmon.Pairer.Anomalies.{Anomaly, PointAnomalies-Default, abandoned}
use slick_perfmon.Pairer.Anomalies.Totals.{sum_of, tally-Tallies}
use slick_perfmon.Pairer.{
  Pairer, OpenSpan, OpenSpan-Default, Stage-Default, EvictCandidate, no_candidate, count_anomaly,
  drop_span, drain,
}
use slick_perfmon.Pairer.Valid.{IsValid}

-- A span under a candidate's key that was not touched since: 0, and 1 for a candidate passed over.
unfoldable pub staleness : OpenMap OpenSpan → EvictCandidate → ℕ
staleness spans c = elim (lookup spans c.key) [
  | some sp ↦ if sp.seen_tsc == c.seen_tsc then 0 else 1
  | none ↦ 1
]

module _ {F : Type 0} ⦃f : Doubles F⦄ where
  -- One open span is dropped, and counted as abandoned.
  pub record Evicts (w out : Pairer F) : Type 0 where
    pub valid : IsValid out
    pub victim : ℕ
    pub was_open : lookup w.spans victim ≢ none
    pub reads : (k : ℕ) → lookup out.spans k ≡ (if victim == k then none else lookup w.spans k)
    pub size : out.spans.size + 1 ≡ w.spans.size
    pub limit : out.spans.max_entries ≡ w.spans.max_entries
    pub counted : sum_of abandoned out.ledger ≡ sum_of abandoned w.ledger + 1
    pub others : (b : Anomaly) → b ≢ abandoned → sum_of b out.ledger ≡ sum_of b w.ledger

  evict_one :
      (w w' : Pairer F) (v : IsValid w) (key i : ℕ)
      → w'.spans ≡ w.spans
      → w'.ledger ≡ w.ledger
      → w'.stages ≡ w.stages
      → w'.evict_batch ≡ w.evict_batch
      → find w.spans key ≡ some i
      → sum_of abandoned w.ledger + 1 < 2 ^ 64
      → Evicts w (drop_span key (count_anomaly abandoned (span_point key) w'))
  unfolding drop_span count_anomaly
  evict_one w w' v key i es el et eb e fits =
      let s = find-Stored w.spans v.spans key i e in
      let was = lookup-eq_some w.spans v.spans key i s in
      let r = erase-Erases w.spans key v.spans in
      let t = tally-Tallies abandoned (span_point key) w.ledger v.points fits in
      rw (es, el)
        (record {
          valid = record {
            spans = r.valid;
            stages = rw et v.stages;
            points = t.valid;
            batch = rw eb v.batch;
            capacity = rw r.limit v.capacity;
          };
          victim = key;
          was_open = λ z. cc (was, z);
          reads = r.reads;
          size = rw was at r.size;
          limit = r.limit;
          counted = t.one_more;
          others = t.others;
        })

  -- The queue is used up, and nothing else has changed.
  pub record Idle (w out : Pairer F) : Type 0 where
    pub spans : out.spans ≡ w.spans
    pub ledger : out.ledger ≡ w.ledger
    pub stages : out.stages ≡ w.stages
    pub batch : out.evict_batch ≡ w.evict_batch

  abbrev pub Drains : Pairer F → Bool × Pairer F → Type 0
  Drains w r = ((r.0 ≡ true) × Evicts w r.1) ⊎ ((r.0 ≡ false) × Idle w r.1)

  pub drain-Drains :
      (n : ℕ) (w w0 : Pairer F) (v : IsValid w0)
      → Idle w0 w
      → sum_of abandoned w0.ledger + 1 < 2 ^ 64
      → Drains w0 (drain n w)
  unfolding drain
  drain-Drains zero w w0 v same fits = inr (refl, same)
  drain-Drains (suc n) w w0 v same fits =
      let c = get_or w.evict_queue w.evict_next no_candidate in
      let w' : Pairer F = record w { evict_next = w.evict_next + 1 } in
      let same' : Idle w0 w' = record {
        spans = same.spans;
        ledger = same.ledger;
        stages = same.stages;
        batch = same.batch;
      } in
      let rest = drain-Drains n w' w0 v same' fits in
      elim (Bool-cases (ltb w.evict_next (length w.evict_queue))) [
        | inr past ↦ rw past (inr (refl, same))
        | inl more ↦ rw more (elim (Option-cases (find w.spans c.key)) [
          | inl e ↦ rw e rest
          | inr (i, e) ↦ rw e (elim (Bool-cases ((load w.spans i).seen_tsc == c.seen_tsc)) [
            | inr touched ↦ rw touched rest
            | inl live ↦ rw live (
                inl (
                  refl,
                  evict_one w0 w' v c.key i same.spans same.ledger same.stages same.batch
                      (rw same.spans at e) fits,
                ))
          ])
        ])
      ]

  -- A candidate at the front that is not stale is evicted at once.
  pub drain-live :
      (n : ℕ) (w : Pairer F) (v : IsValid w)
      → w.evict_next < length w.evict_queue
      → staleness w.spans (get_or w.evict_queue w.evict_next no_candidate) ≡ 0
      → (drain (suc n) w).0 ≡ true
  unfolding drain staleness
  drain-live n w v more live =
      let c = get_or w.evict_queue w.evict_next no_candidate in
      let t : ltb w.evict_next (length w.evict_queue) ≡ true = ground arith in
      rw t (elim (Option-cases (find w.spans c.key)) [
        | inl e ↦
            let z = rw (staleness, lookup-eq_none w.spans v.spans c.key e) at live in
            absurd (omega (arith, z))
        | inr (i, e) ↦
            let was =
              lookup-eq_some w.spans v.spans c.key i (find-Stored w.spans v.spans c.key i e) in
            elim (Bool-cases ((load w.spans i).seen_tsc == c.seen_tsc)) [
              | inl same ↦ rw (e, same)
              | inr apart ↦ let z = rw (staleness, was, apart) at live in absurd (omega (arith, z))
            ]
      ])
