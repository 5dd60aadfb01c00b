-- ===== src/Pairer.antt =====
-- Events back into spans and stage latencies: include/slick/perfmon/pairing.hpp. Counters are of 64
-- bits, `transitions` of 32; a reference to a point's counters is a place in the ledger.
pub mod Anomalies
pub mod Valid
pub mod Drain
pub mod Nominate
pub mod Evict
pub mod Begin
pub mod Events
pub mod Session
pub mod Run
mod Tests
use slick_perfmon.Prelude.{
  ℕ, zero, suc, ◌+◌, ◌-◌, ◌*◌, ◌/◌, ◌%◌, ◌^◌, Bool, true, false, not, ◌&&◌, ltb, leb, ◌==◌,
  if◌then◌else◌, Option, none, some, List, [], ◌∷◌, ◌++◌, length, get_or, set,
}
use slick_perfmon.Event.{Sample, value, step_of, seq_of, begin_step, end_step, value_step}
use slick_perfmon.Keys.{stage_key, span_key, span_point}
use slick_perfmon.OpenMap.{OpenMap, Default, find, load, store, insert, erase, erase_if, for_each}
use slick_perfmon.OpenMap as Map
use slick_perfmon.Accumulator.{Doubles, Accumulator}
use slick_perfmon.Accumulator as Stats
use slick_perfmon.Pairer.Anomalies.{Ledger, invalid, abandoned, orphan, out_of_range, tally}
use slick_perfmon.Pairer.Anomalies as Counters

pub record Stage (F : Type 0) : Type 0 where
  pub point : ℕ
  pub from : ℕ
  pub to : ℕ
  pub interval : Accumulator F
  pub cumulative : Accumulator F

pub record OpenSpan : Type 0 where
  pub start_tsc : ℕ
  pub last_tsc : ℕ
  pub seen_tsc : ℕ
  pub transitions : ℕ
  pub last_step : ℕ

pub record EvictCandidate : Type 0 where
  pub key : ℕ
  pub seen_tsc : ℕ

-- The heap algorithms of the C++ library, under the order on `seen_tsc`.
pub record Heap : Type 0 where
  pub push_heap : List EvictCandidate → List EvictCandidate
  pub pop_heap : List EvictCandidate → List EvictCandidate
  pub sort_heap : List EvictCandidate → List EvictCandidate

-- What `reset` reads of the `config`.
pub record Limits : Type 0 where
  pub max_open_spans : ℕ
  pub max_stages : ℕ

pub record Pairer (F : Type 0) : Type 0 where
  pub spans : OpenMap OpenSpan
  pub stages : OpenMap (Stage F)
  pub ledger : Ledger
  pub overhead_cycles : ℕ
  pub peak_open : ℕ
  pub evict_queue : List EvictCandidate
  pub evict_next : ℕ
  pub evict_batch : ℕ

instance pub OpenSpan-Default : Default OpenSpan
OpenSpan-Default = record {
  fresh = record {
    start_tsc = 0;
    last_tsc = 0;
    seen_tsc = 0;
    transitions = 0;
    last_step = begin_step;
  };
}

abbrev pub no_candidate : EvictCandidate
no_candidate = record { key = 0; seen_tsc = 0 }

-- `overhead_cycles_ * transitions` is never subtracted past zero.
pub net_cycles : ℕ → ℕ → ℕ → ℕ
net_cycles overhead transitions cycles =
    let ov : ℕ = overhead * transitions % 2 ^ 64 in if ltb ov cycles then cycles - ov else 0

abbrev pub sub_u64 : ℕ → ℕ → ℕ
sub_u64 a b = (a + 2 ^ 64 - b) % 2 ^ 64

-- The body of the scan in `refill_evict_queue`.
pub nominate : ⦃heap : Heap⦄ → ℕ → ℕ → OpenSpan → List EvictCandidate → List EvictCandidate
nominate ⦃heap⦄ batch key sp queue =
    let c : EvictCandidate = record { key = key; seen_tsc = sp.seen_tsc } in
    if ltb (length queue) batch
    then heap.push_heap (queue ++ (c ∷ []))
    else if ltb c.seen_tsc (get_or queue 0 no_candidate).seen_tsc
    then heap.push_heap (set (heap.pop_heap queue) (length queue - 1) c)
    else queue

pub aged : ℕ → ℕ → ℕ → OpenSpan → Bool
aged now max_age key sp = ltb sp.seen_tsc now && ltb max_age (now - sp.seen_tsc)

abbrev pub abandon : ℕ → OpenSpan → Ledger → Ledger
abandon key sp l = tally abandoned (span_point key) l

-- The body of the scan in `abandon_all`.
pub abandon_one : ℕ → OpenSpan → ℕ × Ledger → OpenSpan × (ℕ × Ledger)
abandon_one key sp (n, ledger) = (sp, (n + 1, abandon key sp ledger))

module _ {F : Type 0} ⦃f : Doubles F⦄ where
  -- `Stage fresh` with its three labels.
  pub new_stage : ℕ → ℕ → ℕ → Stage F
  new_stage p from to = record {
    point = p;
    from = from;
    to = to;
    interval = Stats.fresh;
    cumulative = Stats.fresh;
  }

  instance pub Stage-Default : Default (Stage F)
  Stage-Default = record { fresh = new_stage 0 0 0 }

  pub reset : Limits → Pairer F
  reset cfg =
      let batch : ℕ = cfg.max_open_spans / 8 in
      record {
        spans = Map.reset cfg.max_open_spans;
        stages = Map.reset cfg.max_stages;
        ledger = Counters.reset cfg.max_stages;
        overhead_cycles = 0;
        peak_open = 0;
        evict_queue = [];
        evict_next = 0;
        evict_batch = if batch == 0 then 1 else batch;
      }

  pub count_anomaly : Counters.Anomaly → ℕ → Pairer F → Pairer F
  count_anomaly a p w = record w { ledger = tally a p w.ledger }

  -- `g->interval.add(cycles)`.
  pub add_to : ℕ → ℕ → Pairer F → Pairer F
  add_to i cycles w =
      let g = load w.stages i in
      record w { stages = store w.stages i (record g { interval = Stats.add g.interval cycles }) }

  -- `record`.
  pub record_cycles : ℕ → ℕ → ℕ → ℕ → ℕ → Pairer F → Pairer F
  record_cycles p from to cycles transitions w =
      let net : ℕ = net_cycles w.overhead_cycles transitions cycles in
      let key : ℕ = stage_key p from to in
      elim (find w.stages key) [
        | some i ↦ add_to i net w
        | none ↦
            let (g, stages) = insert w.stages key (new_stage p from to) in
            let w' = record w { stages = stages } in
            elim g [ some i ↦ add_to i net w' | none ↦ count_anomaly out_of_range p w' ]
      ]

  pub drop_span : ℕ → Pairer F → Pairer F
  drop_span key w = record w { spans = (erase w.spans key).1 }

  module _ ⦃heap : Heap⦄ where
    pub refill_evict_queue : Pairer F → Pairer F
    refill_evict_queue w =
        let (spans, queue) =
          for_each (λ key sp q. (sp, nominate w.evict_batch key sp q)) w.spans [] in
        record w { spans = spans; evict_queue = heap.sort_heap queue; evict_next = 0 }

  pub note_peak : Pairer F → Pairer F
  note_peak w = record w {
    peak_open = if ltb w.peak_open w.spans.size then w.spans.size else w.peak_open;
  }

  -- The `while` loop of `evict_oldest`, and whether it returned; a round for each candidate left.
  pub drain : ℕ → Pairer F → Bool × Pairer F
  drain zero w = (false, w)
  drain (suc n) w =
      let c = get_or w.evict_queue w.evict_next no_candidate in
      let w' = record w { evict_next = w.evict_next + 1 } in
      let rest = drain n w' in
      if ltb w.evict_next (length w.evict_queue)
      then elim (find w.spans c.key) [
        | none ↦ rest
        | some i ↦
            if (load w.spans i).seen_tsc == c.seen_tsc
            then (true, drop_span c.key (count_anomaly abandoned (span_point c.key) w'))
            else rest
      ]
      else (false, w)

  pub drain_queue : Pairer F → Bool × Pairer F
  drain_queue w = drain (length w.evict_queue - w.evict_next) w

  module _ ⦃heap : Heap⦄ where
    pub passes : ℕ → Pairer F → Pairer F
    passes zero w = w
    passes (suc n) w =
        let (done, w1) = drain_queue w in
        let w2 = refill_evict_queue w1 in
        let rest = passes n w2 in
        if done then w1 else if length w2.evict_queue == 0 then w2 else rest

    pub evict_oldest : Pairer F → Pairer F
    evict_oldest w = passes 2 w

    -- The second half of `open_begin`: nothing is open under the key.
    pub add_span : ℕ → OpenSpan → Pairer F → Pairer F
    add_span key fresh w =
        let (p, spans) = insert w.spans key fresh in
        elim p [
          | some i ↦ record w { spans = spans }
          | none ↦
              let w' = evict_oldest (record w { spans = spans }) in
              record w' { spans = (insert w'.spans key fresh).1 }
        ]

    pub open_begin : ℕ → Sample → Pairer F → Pairer F
    open_begin key s w =
        let t : ℕ = s.timestamp in
        let fresh : OpenSpan = record {
          start_tsc = t;
          last_tsc = t;
          seen_tsc = t;
          transitions = 0;
          last_step = begin_step;
        } in
        elim (find w.spans key) [
          | some i ↦ record (count_anomaly abandoned s.point w) { spans = store w.spans i fresh }
          | none ↦ note_peak (add_span key fresh w)
        ]

  -- An end, and a step, of the open span in slot `i`.
  pub close_span : ℕ → ℕ → Sample → Pairer F → Pairer F
  close_span key i s w =
      let sp = load w.spans i in
      let last : ℕ = sub_u64 s.timestamp sp.last_tsc in
      let w1 =
        if sp.last_step == begin_step
        then w
        else record_cycles s.point sp.last_step end_step last 1 w in
      drop_span key (
        record_cycles s.point begin_step begin_step (sub_u64 s.timestamp sp.start_tsc)
          ((sp.transitions + 1) % 2 ^ 32) w1)

  pub step_span : ℕ → Sample → Pairer F → Pairer F
  step_span i s w =
      let st : ℕ = step_of s.event in
      let sp = load w.spans i in
      let w1 = record_cycles s.point sp.last_step st (sub_u64 s.timestamp sp.last_tsc) 1 w in
      let sp' = record sp {
        last_tsc = s.timestamp;
        seen_tsc = s.timestamp;
        last_step = st;
        transitions = (sp.transitions + 1) % 2 ^ 32;
      } in
      record w1 { spans = store w1.spans i sp' }

  pub on_open : ℕ → ℕ → Sample → Pairer F → Pairer F
  on_open key i s w =
      if ltb s.timestamp (load w.spans i).last_tsc
      then drop_span key (count_anomaly invalid s.point w)
      else if step_of s.event == end_step
      then close_span key i s w
      else step_span i s w

  pub on_event : ⦃heap : Heap⦄ → Sample → Pairer F → Pairer F
  on_event s w =
      let st : ℕ = step_of s.event in
      let key : ℕ = span_key s.point (seq_of s.event) in
      if st == value_step
      then record_cycles s.point value_step value_step (value s) 0 w
      else if st == begin_step
      then open_begin key s w
      else elim (find w.spans key) [
        | none ↦ count_anomaly orphan s.point w
        | some i ↦ on_open key i s w
      ]

  pub pairs_cleanly : Sample → Pairer F → Bool
  pairs_cleanly s w =
      let is_begin = step_of s.event == begin_step in
      elim (find w.spans (span_key s.point (seq_of s.event))) [
        | some i ↦ not is_begin
        | none ↦ is_begin
      ]

  pub sweep : ℕ → ℕ → Pairer F → ℕ × Pairer F
  sweep now max_age w =
      let (n, spans, ledger) = erase_if (aged now max_age) abandon w.spans w.ledger in
      if max_age == 0 then (0, w) else (n, record w { spans = spans; ledger = ledger })

  pub abandon_all : Pairer F → ℕ × Pairer F
  abandon_all w =
      let (spans, counted) = for_each abandon_one w.spans (0, w.ledger) in
      (
        counted.0,
        record w { spans = Map.clear spans; ledger = counted.1; evict_queue = []; evict_next = 0 },
      )

  pub clear_one : ℕ → Stage F → ℕ → Stage F × ℕ
  clear_one key g s = (record g { interval = Stats.clear g.interval }, s)

  pub clear_intervals : Pairer F → Pairer F
  clear_intervals w = record w { stages = (for_each clear_one w.stages 0).0 }
