-- ===== src/Pairer/Valid.antt =====
-- The invariant of the pairer, and what `record` leaves alone.
use slick_perfmon.Prelude.{ℕ, ◌≤◌, ◌≡◌, refl, sym, ◌∙◌, ◌≢◌, Option-cases, inl, inr}
use slick_perfmon.OpenMap.{find, load, insert}
use slick_perfmon.OpenMap.Valid as Map
use slick_perfmon.OpenMap.Valid.{Stored, find-Stored}
use slick_perfmon.OpenMap.Insert.{insert-Inserts}
use slick_perfmon.OpenMap.Store.{store-Stores}
use slick_perfmon.Accumulator.{Doubles}
use slick_perfmon.Accumulator as Stats
use slick_perfmon.Pairer.Anomalies.{Anomaly, PointAnomalies-Default, out_of_range}
use slick_perfmon.Pairer.Anomalies.Totals.{sum_of, tally-Keeps}
use slick_perfmon.Pairer.{
  Pairer, OpenSpan-Default, Stage-Default, count_anomaly, add_to, record_cycles, new_stage,
  net_cycles,
}
use slick_perfmon.Keys.{stage_key}

-- The three tables are valid, a span fits, and a scan nominates at least one candidate.
pub record IsValid {F : Type 0} ⦃f : Doubles F⦄ (w : Pairer F) : Type 0 where
  pub spans : Map.IsValid w.spans
  pub stages : Map.IsValid w.stages
  pub points : Map.IsValid w.ledger.points
  pub batch : 1 ≤ w.evict_batch
  pub capacity : 1 ≤ w.spans.max_entries

-- The spans are left alone, and no anomaly but a full stage table is counted.
pub record Records {F : Type 0} ⦃f : Doubles F⦄ (w out : Pairer F) : Type 0 where
  pub valid : IsValid out
  pub spans : out.spans ≡ w.spans
  pub sums : (b : Anomaly) → b ≢ out_of_range → sum_of b out.ledger ≡ sum_of b w.ledger

module _ {F : Type 0} ⦃f : Doubles F⦄ where
  add_to-Records :
      (w : Pairer F) (v : IsValid w) (k i cycles : ℕ)
      → Stored w.stages v.stages.cap k i
      → Records w (add_to i cycles w)
  unfolding add_to
  add_to-Records w v k i cycles s =
      let g = load w.stages i in
      let r =
        store-Stores w.stages v.stages k i (record g { interval = Stats.add g.interval cycles })
          s in
      record {
        valid = record {
          spans = v.spans;
          stages = r.valid;
          points = v.points;
          batch = v.batch;
          capacity = v.capacity;
        };
        spans = refl;
        sums = λ b ne. refl;
      }

  pub record_cycles-Records :
      (w : Pairer F) (v : IsValid w) (p from to cycles transitions : ℕ)
      → Records w (record_cycles p from to cycles transitions w)
  unfolding record_cycles count_anomaly
  record_cycles-Records w v p from to cycles transitions =
      let key : ℕ = stage_key p from to in
      let net : ℕ = net_cycles w.overhead_cycles transitions cycles in
      elim (Option-cases (find w.stages key)) [
        | inr (i, e) ↦
            rw (e, record_cycles)
              (add_to-Records w v key i net (find-Stored w.stages v.stages key i e))
        | inl e ↦
            let r = insert-Inserts w.stages key (new_stage p from to) v.stages in
            let w' : Pairer F = record w {
              stages = (insert w.stages key (new_stage p from to)).1;
            } in
            let v' : IsValid w' = record {
              spans = v.spans;
              stages = r.valid;
              points = v.points;
              batch = v.batch;
              capacity = v.capacity;
            } in
            rw (e, record_cycles)
              (elim (Option-cases (insert w.stages key (new_stage p from to)).0) [
                | inr (i, g) ↦
                    let t =
                      add_to-Records w' v' key i net
                        (find-Stored _ r.valid key i (sym r.pointer ∙ g)) in
                    rw g (record { valid = t.valid; spans = t.spans; sums = t.sums })
                | inl g ↦
                    let t = tally-Keeps out_of_range p w.ledger v.points in
                    rw g (record {
                      valid = record {
                        spans = v.spans;
                        stages = r.valid;
                        points = t.valid;
                        batch = v.batch;
                        capacity = v.capacity;
                      };
                      spans = refl;
                      sums = t.others;
                    })
              ])
      ]
