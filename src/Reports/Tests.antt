-- ===== src/Reports/Tests.antt =====
-- A report of one stage, one value stage and one point with an anomaly, with natural numbers for
-- doubles and no more order of the rows than the passes give.
use mathlib.Core.List.{Permᴰ}
use mathlib.Core.List.Permᴰ
use slick_perfmon.Prelude.{
  ℕ, ◌+◌, ◌-◌, ◌*◌, ◌/◌, ◌≡◌, refl, arith, Bool, true, false, ltb, ◌==◌, none, List, [], ◌∷◌,
}
use slick_perfmon.Prelude.Text.{same_text}
use slick_perfmon.Event.{value_step}
use slick_perfmon.Keys.{stage_key}
use slick_perfmon.Histogram.{Percent}
use slick_perfmon.OpenMap.{OpenMap, Default, insert}
use slick_perfmon.OpenMap as Map
use slick_perfmon.OpenMap.Every.{reset-Every}
use slick_perfmon.Accumulator.{Doubles}
use slick_perfmon.Accumulator as Acc
use slick_perfmon.Pairer.{Stage, Pairer, Stage-Default, OpenSpan-Default}
use slick_perfmon.Pairer.Anomalies.{no_anomalies, PointAnomalies-Default}
use slick_perfmon.Config.Header.{cycles}
use slick_perfmon.Reports.{StageReport, Figures, Labels, Text-Default}
use slick_perfmon.Reports.Building.{Build, Flush, RowRef-Default, build_reports, row_before}
use slick_perfmon.Reports.Writing.{
  Flusher, Moment, do_flush, new_losses_of, new_stalled_of, write_csv, row_lines, collector_line,
}
use slick_perfmon.Reports.Rows.{EachRow}
use slick_perfmon.Reports.Losses.{Writes, do_flush-Writes, losses, stalls, flushes_add_up}
use slick_perfmon.Reports.Ordered.{IsOrder, row_before-IsOrder}
use slick_perfmon.Reports.Naming.{IsOther, IsClean, IsLabelled, build_reports-IsLabelled}

instance exact : Doubles ℕ
exact = record {
  of_u64 = λ n. n;
  plus = λ a b. a + b;
  minus = λ a b. a - b;
  times = λ a b. a * b;
  over = λ a b. a / b;
  sqrt = λ a. a;
  less = λ a b. ltb a b;
}

abbrev percent : ℕ → Percent
percent n = record { low = false; high = false; scaled = n }

abbrev figures : Figures ℕ
figures = record {
  percentiles = percent 5000 ∷ percent 9900 ∷ [];
  output_unit = cycles;
  to_ns = λ v. v;
  invariant = true;
  same = λ p q. p.scaled == q.scaled;
  p50 = percent 5000;
  p99 = percent 9900;
}

abbrev stage : ℕ → ℕ → Stage ℕ
stage from to = record {
  point = 7;
  from = from;
  to = to;
  interval = Acc.add Acc.fresh 12;
  cumulative = Acc.fresh;
}

pairer : Pairer ℕ
pairer = record {
  spans = Map.reset 2;
  stages =
      (insert (insert (Map.reset 4) (stage_key 7 0 1) (stage 0 1)).1
        (stage_key 7 value_step value_step) (stage value_step value_step)).1;
  ledger = record {
    points = (insert (Map.reset 4) 9 (record no_anomalies { orphan = 2 })).1;
    overflow = no_anomalies;
  };
  overhead_cycles = 0;
  peak_open = 0;
  evict_queue = [];
  evict_next = 0;
  evict_batch = 0;
}

abbrev labels : Labels
labels = record { points = Map.reset 4; stages = Map.reset 4; generation = 0 }

abbrev build : Build ℕ
build = record {
  rows = [];
  row_points = Map.reset 4;
  labels = labels;
  point_baseline = Map.reset 4;
  overflow_baseline = no_anomalies;
}

abbrev flush : Flush
flush = record {
  new_losses = 5;
  new_stalled = 1;
  loss = 5;
  stalled_slots = 1;
  control = none;
  to_string = λ n. n ∷ [];
}

abbrev flusher : Flusher ℕ
flusher = record {
  pairer = pairer;
  build = build;
  last_loss = 10;
  reported_stalled = 2;
  reports = [];
  published_stalled = 2;
}

abbrev moment : ℕ → ℕ → Moment ℕ
moment lost stalled = record {
  loss_count = lost;
  ring_lost = 1;
  stalled_slots = stalled;
  now = 100;
  age = none;
  control = none;
  to_string = λ n. n ∷ [];
  is_open = true;
  overhead = 0;
}

abbrev as_built :
    (StageReport ℕ → StageReport ℕ → Bool) → List (StageReport ℕ) → List (StageReport ℕ)
as_built before rows = rows

clean : IsClean labels
unfolding same_text Text-Default
clean = reset-Every IsOther 4 refl

build_reports-IsLabelled_example :
    EachRow IsLabelled (build_reports figures as_built flush pairer build).1.rows
    × IsClean (build_reports figures as_built flush pairer build).1.labels
build_reports-IsLabelled_example =
    build_reports-IsLabelled figures pairer flush as_built (λ before rows. Permᴰ.refl rows) build
      clean

do_flush-Writes_example :
    Writes figures
      (new_losses_of flusher (moment 14 3))
      (new_stalled_of flusher (moment 14 3))
      true
      (do_flush figures as_built (moment 14 3) flusher).0
do_flush-Writes_example =
    do_flush-Writes figures as_built (λ before rows. Permᴰ.refl rows) (moment 14 3) flusher

-- An interval in which nothing completed, and five samples were lost.
collector_run : write_csv figures 0 true [] 5 0 ≡ collector_line figures 0 5 0 ∷ []
unfolding write_csv row_lines
collector_run = refl

keeps_rows :
    (before : StageReport ℕ → StageReport ℕ → Bool) (rows : List (StageReport ℕ))
    → Permᴰ rows (as_built before rows)
keeps_rows before rows = Permᴰ.refl rows

flushes_add_up_example :
    (losses figures as_built keeps_rows (moment 14 3 ∷ moment 20 3 ∷ []) flusher + 10 ≡ 21)
    × (stalls figures as_built keeps_rows (moment 14 3 ∷ moment 20 3 ∷ []) flusher + 2 ≡ 3)
flushes_add_up_example =
    flushes_add_up figures as_built keeps_rows (moment 14 3 ∷ moment 20 3 ∷ []) flusher (
      refl,
      omega arith,
      omega arith,
      omega arith,
      omega arith,
      (refl, omega arith, omega arith, omega arith, omega arith, tt),
    )

row_before-IsOrder_example : IsOrder {F = ℕ} row_before
row_before-IsOrder_example = row_before-IsOrder
