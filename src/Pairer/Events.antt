-- ===== src/Pairer/Events.antt =====
-- `on_event` against the state machine of one span.
use slick_perfmon.Prelude.{
  ℕ, ◌+◌, ◌%◌, ◌^◌, ◌<◌, ◌≡◌, refl, ◌∙◌, ◌≢◌, ◌⊎◌, arith, true, false, ltb, ◌==◌, ==_iff, ==_refl,
  ==_false, if◌then◌else◌, Bool-cases, Option, none, some, Option-cases, inl, inr,
}
use slick_perfmon.OpenMap.{find, load, erase, full}
use slick_perfmon.OpenMap.Valid.{lookup, Stored, find-Stored, lookup-eq_some, lookup-eq_none}
use slick_perfmon.OpenMap.Erase.{Erases, erase-Erases}
use slick_perfmon.OpenMap.Store.{store-Stores}
use slick_perfmon.Event.{Sample, value, step_of, seq_of, begin_step, end_step, value_step}
use slick_perfmon.Keys.{span_key}
use slick_perfmon.Accumulator.{Doubles}
use slick_perfmon.Pairer.Anomalies.{
  PointAnomalies-Default, invalid, abandoned, orphan, out_of_range,
}
use slick_perfmon.Pairer.Anomalies.Totals.{sum_of, tally-Keeps, tally-Tallies}
use slick_perfmon.Pairer.{
  Pairer, OpenSpan, OpenSpan-Default, Stage-Default, Heap, on_event, on_open, close_span, step_span,
  drop_span, sub_u64, count_anomaly,
}
use slick_perfmon.Pairer.Valid.{IsValid, Records, record_cycles-Records}
use slick_perfmon.Pairer.Nominate.{IsHeap}
use slick_perfmon.Pairer.Begin.{opened, Opens, open_begin-Opens}

-- The span under an event's key after the event, from the span before it.
abbrev pub moved_on : Sample → OpenSpan → OpenSpan
moved_on s sp = record sp {
  last_tsc = s.timestamp;
  seen_tsc = s.timestamp;
  last_step = step_of s.event;
  transitions = (sp.transitions + 1) % 2 ^ 32;
}

abbrev pub after_boundary : Sample → Option OpenSpan → Option OpenSpan
after_boundary s none = none
after_boundary s (some sp) =
    if ltb s.timestamp sp.last_tsc
    then none
    else if step_of s.event == end_step
    then none
    else some (moved_on s sp)

abbrev pub after : Sample → Option OpenSpan → Option OpenSpan
after s o =
    if step_of s.event == value_step
    then o
    else if step_of s.event == begin_step
    then some (opened s.timestamp)
    else after_boundary s o

-- 1 for an end that closes its span, and 1 for a begin.
abbrev pub closes : Sample → Option OpenSpan → ℕ
closes s none = 0
closes s (some sp) =
    if ltb s.timestamp sp.last_tsc then 0 else if step_of s.event == end_step then 1 else 0

abbrev pub completed : Sample → Option OpenSpan → ℕ
completed s o =
    if step_of s.event == value_step
    then 0
    else if step_of s.event == begin_step
    then 0
    else closes s o

abbrev pub begun : Sample → ℕ
begun s = if step_of s.event == begin_step then 1 else 0

abbrev pub key_of : Sample → ℕ
key_of s = span_key s.point (seq_of s.event)

-- The kinds of anomaly are apart.
abandoned_apart : abandoned ≢ out_of_range
abandoned_apart e = cc

invalid_apart : invalid ≢ out_of_range
invalid_apart e = cc

value_not_begin : (n : ℕ) → (n == value_step) ≡ true → (n == begin_step) ≡ false
value_not_begin n e = ground arith

module _ {F : Type 0} ⦃f : Doubles F⦄ where
  -- The spans that are open, and those that ended in an anomaly.
  unfoldable pub accounted : Pairer F → ℕ
  accounted w = w.spans.size + sum_of abandoned w.ledger + sum_of invalid w.ledger

  pub record Handles (s : Sample) (w out : Pairer F) : Type 0 where
    pub valid : IsValid out
    pub own : lookup out.spans (key_of s) ≡ after s (lookup w.spans (key_of s))
    pub others :
        (k : ℕ)
        → key_of s ≢ k
        → (lookup out.spans k ≡ lookup w.spans k)
          ⊎ ((step_of s.event ≡ begin_step) × (full w.spans ≡ true) × (lookup out.spans k ≡ none))
    pub balance : accounted out + completed s (lookup w.spans (key_of s)) ≡ accounted w + begun s

  -- What an event past the begin makes of the pairer.
  record Bounds (s : Sample) (w out : Pairer F) : Type 0 where
    valid : IsValid out
    own : lookup out.spans (key_of s) ≡ after_boundary s (lookup w.spans (key_of s))
    others : (k : ℕ) → key_of s ≢ k → lookup out.spans k ≡ lookup w.spans k
    balance : accounted out + closes s (lookup w.spans (key_of s)) ≡ accounted w

  Records-trans : (w x y : Pairer F) → Records w x → Records x y → Records w y
  Records-trans w x y a b = record {
    valid = b.valid;
    spans = b.spans ∙ a.spans;
    sums = λ c ne. b.sums c ne ∙ a.sums c ne;
  }

  Records-refl : (w : Pairer F) → IsValid w → Records w w
  Records-refl w v = record { valid = v; spans = refl; sums = λ c ne. refl }

  -- The span is dropped, after some transitions were recorded.
  module _ (s : Sample) (w x : Pairer F) (sp : OpenSpan) (was : lookup w.spans (key_of s) ≡ some sp)
      (t : Records w x) where
    r : Erases w.spans (key_of s) (erase w.spans (key_of s))
    r = erase-Erases w.spans (key_of s) (rw t.spans at t.valid.spans)

    drop-Bounds :
        ltb s.timestamp sp.last_tsc ≡ false
        → (step_of s.event == end_step) ≡ true
        → Bounds s w (drop_span (key_of s) x)
    unfolding drop_span accounted
    drop-Bounds forward ends = record {
      valid = record {
        spans = rw t.spans r.valid;
        stages = t.valid.stages;
        points = t.valid.points;
        batch = t.valid.batch;
        capacity = rw (t.spans, r.limit) (rw t.spans at t.valid.capacity);
      };
      own = rw (t.spans, was, forward, ends) (r.reads (key_of s) ∙ rw (==_refl (key_of s)));
      others = λ k ne. rw t.spans (r.reads k ∙ rw (==_false (key_of s) k ne));
      balance =
          let e = rw was at r.size in
          rw
            (
              was,
              forward,
              ends,
              t.spans,
              t.sums abandoned abandoned_apart,
              t.sums invalid invalid_apart,
            )
            (omega (arith, e));
    }

  module _ (s : Sample) (w : Pairer F) (v : IsValid w) (i : ℕ)
      (e : find w.spans (key_of s) ≡ some i) where
    abbrev sp : OpenSpan
    sp = load w.spans i

    here : Stored w.spans v.spans.cap (key_of s) i
    here = find-Stored w.spans v.spans (key_of s) i e

    was : lookup w.spans (key_of s) ≡ some sp
    was = lookup-eq_some w.spans v.spans (key_of s) i here

    back-Bounds :
        ltb s.timestamp sp.last_tsc ≡ true
        → sum_of invalid w.ledger + 1 < 2 ^ 64
        → Bounds s w (drop_span (key_of s) (count_anomaly invalid s.point w))
    unfolding drop_span count_anomaly accounted
    back-Bounds back fits =
        let r = erase-Erases w.spans (key_of s) v.spans in
        let t = tally-Tallies invalid s.point w.ledger v.points fits in
        record {
          valid = record {
            spans = r.valid;
            stages = v.stages;
            points = t.valid;
            batch = v.batch;
            capacity = rw r.limit v.capacity;
          };
          own = rw (was, back) (r.reads (key_of s) ∙ rw (==_refl (key_of s)));
          others = λ k ne. r.reads k ∙ rw (==_false (key_of s) k ne);
          balance =
              let e = rw was at r.size in
              rw (was, back) (omega (arith, e, t.one_more, t.others abandoned (λ z. cc)));
        }

    close-Bounds :
        ltb s.timestamp sp.last_tsc ≡ false
        → (step_of s.event == end_step) ≡ true
        → Bounds s w (close_span (key_of s) i s w)
    unfolding close_span
    close-Bounds forward ends = elim (Bool-cases (sp.last_step == begin_step)) [
      | inl single ↦
          rw (single, close_span)
            (drop-Bounds s w _ sp was (record_cycles-Records w v s.point begin_step begin_step _ _)
              forward ends)
      | inr several ↦
          let a =
            record_cycles-Records w v s.point sp.last_step end_step
              (sub_u64 s.timestamp sp.last_tsc) 1 in
          rw (several, close_span)
            (drop-Bounds s w _ sp was
              (Records-trans w _ _ a
                (record_cycles-Records _ a.valid s.point begin_step begin_step _ _))
              forward ends)
    ]

    step-Bounds :
        ltb s.timestamp sp.last_tsc ≡ false
        → (step_of s.event == end_step) ≡ false
        → Bounds s w (step_span i s w)
    unfolding step_span accounted
    step-Bounds forward goes =
        let t =
          record_cycles-Records w v s.point sp.last_step (step_of s.event)
            (sub_u64 s.timestamp sp.last_tsc) 1 in
        let r = store-Stores w.spans v.spans (key_of s) i (moved_on s sp) here in
        record {
          valid = record {
            spans = rw t.spans r.valid;
            stages = t.valid.stages;
            points = t.valid.points;
            batch = t.valid.batch;
            capacity = rw (t.spans, r.limit) v.capacity;
          };
          own = rw (t.spans, was, forward, goes) (r.reads (key_of s) ∙ rw (==_refl (key_of s)));
          others = λ k ne. rw t.spans (r.reads k ∙ rw (==_false (key_of s) k ne));
          balance =
              rw
                (
                  was,
                  forward,
                  goes,
                  t.spans,
                  t.sums abandoned abandoned_apart,
                  t.sums invalid invalid_apart,
                )
                (omega (arith, r.size));
        }

    on_open-Bounds : sum_of invalid w.ledger + 1 < 2 ^ 64 → Bounds s w (on_open (key_of s) i s w)
    unfolding on_open
    on_open-Bounds fits = elim (Bool-cases (ltb s.timestamp sp.last_tsc)) [
      | inl back ↦ rw (back, on_open) (back-Bounds back fits)
      | inr forward ↦ elim (Bool-cases (step_of s.event == end_step)) [
        | inl ends ↦ rw (forward, ends, on_open) (close-Bounds forward ends)
        | inr goes ↦ rw (forward, goes, on_open) (step-Bounds forward goes)
      ]
    ]

  orphan-Bounds :
      (s : Sample) (w : Pairer F)
      → IsValid w
      → lookup w.spans (key_of s) ≡ none
      → Bounds s w (count_anomaly orphan s.point w)
  unfolding count_anomaly accounted
  orphan-Bounds s w v gone =
      let t = tally-Keeps orphan s.point w.ledger v.points in
      record {
        valid = record {
          spans = v.spans;
          stages = v.stages;
          points = t.valid;
          batch = v.batch;
          capacity = v.capacity;
        };
        own = rw gone;
        others = λ k ne. refl;
        balance = rw gone (omega (arith, t.others abandoned (λ z. cc), t.others invalid (λ z. cc)));
      }

  value-Handles :
      (s : Sample) (w out : Pairer F)
      → (step_of s.event == value_step) ≡ true
      → Records w out
      → Handles s w out
  unfolding accounted
  value-Handles s w out e t =
      let b = value_not_begin (step_of s.event) e in
      record {
        valid = t.valid;
        own = rw (e, t.spans);
        others = λ k ne. inl (rw t.spans);
        balance =
            rw (e, b, t.spans, t.sums abandoned abandoned_apart, t.sums invalid invalid_apart)
              (omega arith);
      }

  begin-Handles :
      (s : Sample) (w out : Pairer F)
      → (step_of s.event == value_step) ≡ false
      → (step_of s.event == begin_step) ≡ true
      → Opens w (key_of s) (opened s.timestamp) out
      → Handles s w out
  unfolding accounted
  begin-Handles s w out e b t =
      let is : step_of s.event ≡ begin_step = (==_iff (step_of s.event) begin_step).0 b in
      record {
        valid = t.valid;
        own = rw (e, b) t.own;
        others = λ k ne. elim (t.others k ne) [ inl h ↦ inl h | inr (over, z) ↦ inr (is, over, z) ];
        balance = rw (e, b) (omega (arith, t.balance, t.sums invalid (λ z. cc)));
      }

  boundary-Handles :
      (s : Sample) (w out : Pairer F)
      → (step_of s.event == value_step) ≡ false
      → (step_of s.event == begin_step) ≡ false
      → Bounds s w out
      → Handles s w out
  boundary-Handles s w out e b t = record {
    valid = t.valid;
    own = rw (e, b) t.own;
    others = λ k ne. inl (t.others k ne);
    balance = rw (e, b) (t.balance ∙ omega arith);
  }

  -- On a valid pairer whose sums of abandoned and of invalid spans do not wrap, with heap algorithms
  -- that rearrange their elements, each event keeps the invariant, moves the span
  -- under its key by the state machine `after`, leaves every other span as it was (but for an eviction
  -- at a begin on a full table), and keeps account of the spans: those that are open, completed,
  -- abandoned and invalid are as many as were begun.
  pub on_event-Handles :
      ⦃heap : Heap⦄ (laws : IsHeap heap) (s : Sample) (w : Pairer F)
      → IsValid w
      → sum_of abandoned w.ledger + 1 < 2 ^ 64
      → sum_of invalid w.ledger + 1 < 2 ^ 64
      → Handles s w (on_event s w)
  unfolding on_event
  on_event-Handles laws s w v fits fits' = elim (Bool-cases (step_of s.event == value_step)) [
    | inl e ↦
        rw (e, on_event)
          (value-Handles s w _ e
            (record_cycles-Records w v s.point value_step value_step (value s) 0))
    | inr e ↦ elim (Bool-cases (step_of s.event == begin_step)) [
      | inl b ↦
          rw (e, b, on_event)
            (begin-Handles s w _ e b (open_begin-Opens laws w v (key_of s) s fits))
      | inr b ↦ elim (Option-cases (find w.spans (key_of s))) [
        | inl m ↦
            rw (e, b, m, on_event)
              (boundary-Handles s w _ e b
                (orphan-Bounds s w v (lookup-eq_none w.spans v.spans (key_of s) m)))
        | inr (i, m) ↦
            rw (e, b, m, on_event) (boundary-Handles s w _ e b (on_open-Bounds s w v i m fits'))
      ]
    ]
  ]
