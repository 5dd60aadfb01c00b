-- ===== src/Pairer/Begin.antt =====
-- `open_begin`: a begin always leaves its span open.
use slick_perfmon.Prelude.{
  ℕ, ◌+◌, ◌^◌, ◌≤◌, ◌<◌, ◌≡◌, refl, sym, ◌∙◌, ◌≢◌, ◌⊎◌, arith, true, false, ◌==◌, ==_iff, ==_refl,
  ==_false, Bool-cases, none, some, Option-cases, inl, inr,
}
use slick_perfmon.OpenMap.{find, insert, full}
use slick_perfmon.OpenMap.Valid.{lookup, find-Stored, lookup-eq_none}
use slick_perfmon.OpenMap.Insert.{Inserts, insert-Inserts}
use slick_perfmon.OpenMap.Full.{full-eq, insert_absent}
use slick_perfmon.OpenMap.Store.{store-Stores}
use slick_perfmon.Event.{Sample, begin_step}
use slick_perfmon.Accumulator.{Doubles}
use slick_perfmon.Pairer.Anomalies.{Anomaly, PointAnomalies-Default, abandoned}
use slick_perfmon.Pairer.Anomalies.Totals.{sum_of, tally-Tallies}
use slick_perfmon.Pairer.{
  Pairer, OpenSpan, OpenSpan-Default, Stage-Default, Heap, add_span, note_peak, open_begin,
  evict_oldest, count_anomaly,
}
use slick_perfmon.Pairer.Valid.{IsValid}
use slick_perfmon.Pairer.Nominate.{IsHeap}
use slick_perfmon.Pairer.Evict.{evict_oldest-Evicts}
use slick_perfmon.Pairer.Drain.{Evicts}

-- The span that a begin opens.
abbrev pub opened : ℕ → OpenSpan
opened t = record {
  start_tsc = t;
  last_tsc = t;
  seen_tsc = t;
  transitions = 0;
  last_step = begin_step;
}

module _ {F : Type 0} ⦃f : Doubles F⦄ where
  -- The span is open; another one is as it was, unless the table was full and it was evicted; and the
  -- spans open and abandoned are one more together.
  pub record Opens (w : Pairer F) (key : ℕ) (sp : OpenSpan) (out : Pairer F) : Type 0 where
    pub valid : IsValid out
    pub own : lookup out.spans key ≡ some sp
    pub others :
        (k : ℕ)
        → key ≢ k
        → (lookup out.spans k ≡ lookup w.spans k)
          ⊎ ((full w.spans ≡ true) × (lookup out.spans k ≡ none))
    pub balance :
        out.spans.size + sum_of abandoned out.ledger ≡ w.spans.size + sum_of abandoned w.ledger + 1
    pub sums : (b : Anomaly) → b ≢ abandoned → sum_of b out.ledger ≡ sum_of b w.ledger

  -- `insert` of a span that is not open, where there is room.
  module _ (w : Pairer F) (v : IsValid w) (key : ℕ) (sp : OpenSpan)
      (gone : lookup w.spans key ≡ none) (room : full w.spans ≡ false) where
    r : Inserts w.spans key sp (insert w.spans key sp)
    r = insert-Inserts w.spans key sp v.spans

    pub inserted : Pairer F
    inserted = record w { spans = (insert w.spans key sp).1 }

    pub inserted-Opens : Opens w key sp inserted
    unfolding inserted
    inserted-Opens = record {
      valid = record {
        spans = r.valid;
        stages = v.stages;
        points = v.points;
        batch = v.batch;
        capacity = rw r.limit v.capacity;
      };
      own = r.reads key ∙ rw (==_refl key, gone, room);
      others = λ k ne. inl (r.reads k ∙ rw (==_false key k ne));
      balance = let e = rw (gone, room) at r.size in omega (arith, e);
      sums = λ b ne. refl;
    }

  module _ ⦃heap : Heap⦄ (laws : IsHeap heap) (w : Pairer F) (v : IsValid w) (key : ℕ)
      (sp : OpenSpan) where
    -- The full table: it is left alone by the first `insert`, one span is evicted, and the second
    -- `insert` finds room.
    module _ (gone : lookup w.spans key ≡ none) (over : full w.spans ≡ true)
        (fits : sum_of abandoned w.ledger + 1 < 2 ^ 64) where
      s : Inserts w.spans key sp (insert w.spans key sp)
      s = insert-Inserts w.spans key sp v.spans

      w1 : Pairer F
      w1 = record w { spans = (insert w.spans key sp).1 }

      w1-IsValid : IsValid w1
      unfolding w1
      w1-IsValid = record {
        spans = s.valid;
        stages = v.stages;
        points = v.points;
        batch = v.batch;
        capacity = rw s.limit v.capacity;
      }

      w1_reads : (k : ℕ) → lookup w1.spans k ≡ lookup w.spans k
      unfolding w1
      w1_reads k = elim (Bool-cases (key == k)) [
        | inr ne ↦ s.reads k ∙ rw ne
        | inl e ↦
            let same : key ≡ k = (==_iff key k).0 e in s.reads k ∙ rw (e, gone, over, ← same, gone)
      ]

      w1_size : w1.spans.size ≡ w.spans.size
      unfolding w1
      w1_size = let e = rw (gone, over) at s.size in omega (arith, e)

      full_size : w.spans.max_entries ≤ w.spans.size
      full_size = let e = sym (full-eq w.spans) ∙ over in ground (arith, e)

      evicted : Evicts w1 (evict_oldest w1)
      unfolding w1
      evicted =
          evict_oldest-Evicts laws w1 w1-IsValid (omega (arith, w1_size, full_size, v.capacity))
            fits

      still_gone : lookup (evict_oldest w1).spans key ≡ none
      still_gone = elim (Bool-cases (evicted.victim == key)) [
        | inl e ↦ evicted.reads key ∙ rw e
        | inr e ↦ evicted.reads key ∙ rw (e, w1_reads key, gone)
      ]

      has_room : full (evict_oldest w1).spans ≡ false
      unfolding w1
      has_room =
          full-eq (evict_oldest w1).spans
          ∙ ground (arith, evicted.limit, evicted.size, s.limit, s.valid.bounded)

      replaced-Opens :
          Opens w key sp (inserted (evict_oldest w1) evicted.valid key sp still_gone has_room)
      unfolding w1
      replaced-Opens =
          let t = inserted-Opens (evict_oldest w1) evicted.valid key sp still_gone has_room in
          record {
            valid = t.valid;
            own = t.own;
            others = λ k ne. elim (t.others k ne) [
              | inr (f, z) ↦ inr (over, z)
              | inl e ↦ elim (Bool-cases (evicted.victim == k)) [
                | inl h ↦ inr (over, e ∙ evicted.reads k ∙ rw h)
                | inr h ↦ inl (e ∙ evicted.reads k ∙ rw h (w1_reads k))
              ]
            ];
            balance = omega (arith, t.balance, evicted.size, evicted.counted, w1_size);
            sums = λ b ne. t.sums b ne ∙ evicted.others b ne;
          }

    pub add_span-Opens :
        lookup w.spans key ≡ none
        → sum_of abandoned w.ledger + 1 < 2 ^ 64
        → Opens w key sp (add_span key sp w)
    unfolding add_span
    add_span-Opens gone fits = elim (insert_absent w.spans v.spans key sp gone) [
      | inl (room, i, e) ↦ rw (e, add_span) (unfold inserted in inserted-Opens w v key sp gone room)
      | inr (over, e) ↦ rw (e, add_span) (unfold inserted w1 in replaced-Opens gone over fits)
    ]

  -- The peak is a number beside the tables.
  peak-Opens :
      (w out : Pairer F) (key : ℕ) (sp : OpenSpan)
      → Opens w key sp out
      → Opens w key sp (note_peak out)
  unfolding note_peak
  peak-Opens w out key sp o = record {
    valid = record {
      spans = o.valid.spans;
      stages = o.valid.stages;
      points = o.valid.points;
      batch = o.valid.batch;
      capacity = o.valid.capacity;
    };
    own = o.own;
    others = o.others;
    balance = o.balance;
    sums = o.sums;
  }

  -- A begin on a valid pairer whose sum of abandoned spans does not wrap, with heap algorithms that
  -- rearrange their elements, leaves its span open with the begin's time stamp: one that was open
  -- under the key is counted as abandoned and replaced, and in a full table another one is evicted
  -- and counted as abandoned; so the spans open and those abandoned are one more together.
  pub open_begin-Opens :
      ⦃heap : Heap⦄ (laws : IsHeap heap) (w : Pairer F) (v : IsValid w) (key : ℕ) (s : Sample)
      → sum_of abandoned w.ledger + 1 < 2 ^ 64
      → Opens w key (opened s.timestamp) (open_begin key s w)
  unfolding open_begin count_anomaly
  open_begin-Opens laws w v key s fits = elim (Option-cases (find w.spans key)) [
    | inl e ↦
        let gone = lookup-eq_none w.spans v.spans key e in
        rw (e, open_begin)
          (peak-Opens w _ key (opened s.timestamp)
            (add_span-Opens laws w v key (opened s.timestamp) gone fits))
    | inr (i, e) ↦
        let r =
          store-Stores w.spans v.spans key i (opened s.timestamp)
            (find-Stored w.spans v.spans key i e) in
        let t = tally-Tallies abandoned s.point w.ledger v.points fits in
        rw (e, open_begin)
          (record {
            valid = record {
              spans = r.valid;
              stages = v.stages;
              points = t.valid;
              batch = v.batch;
              capacity = rw r.limit v.capacity;
            };
            own = r.reads key ∙ rw (==_refl key);
            others = λ k ne. inl (r.reads k ∙ rw (==_false key k ne));
            balance = omega (arith, r.size, t.one_more);
            sums = t.others;
          })
  ]
