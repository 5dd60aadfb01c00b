-- ===== src/Reports/Writing.antt =====
-- A flush of include/slick/perfmon/collector.hpp: `do_flush`, `write_csv` and `snapshot`. A line of
-- the CSV file is what `write_csv_row` is given; opening and flushing the file is I/O.
use slick_perfmon.Prelude.{
  ℕ, ◌+◌, ◌-◌, ◌%◌, ◌^◌, Bool, false, not, ◌&&◌, ◌||◌, ltb, ◌==◌, if◌then◌else◌, Option, none, some,
  List, [], ◌∷◌,
}
use slick_perfmon.Prelude.Text.{codes}
use slick_perfmon.Accumulator.{Doubles}
use slick_perfmon.Accumulator as Acc
use slick_perfmon.Pairer.{Pairer, sweep, clear_intervals}
use slick_perfmon.Pairer.Anomalies.{no_anomalies}
use slick_perfmon.ControlBlock.{ControlBlock}
use slick_perfmon.Reports.{Stats, StageReport, Figures, to_stats, total_name}
use slick_perfmon.Reports.Building.{Build, build_reports}

-- What `write_csv_row` is given, but for the time and the rate, which are those of the flush.
pub record Line (F : Type 0) : Type 0 where
  pub point_name : List ℕ
  pub stage_name : List ℕ
  pub is_value : Bool
  pub figures : Stats F
  pub overhead : F

module _ {F : Type 0} ⦃f : Doubles F⦄ (g : Figures F) (ov : F) where
  -- The loop over the rows.
  unfoldable pub row_lines : List (StageReport F) → List (Line F)
  row_lines [] = []
  row_lines (r ∷ rows) =
      let rest = row_lines rows in
      if (r.interval.count == 0) && not r.anomalies_only
      then rest
      else record {
        point_name = r.point_name;
        stage_name = r.stage_name;
        is_value = r.value;
        figures = r.interval;
        overhead = if r.value then f.of_u64 0 else ov;
      }
        ∷ rest

  -- The line of the process itself.
  unfoldable pub collector_line : ℕ → ℕ → Line F
  collector_line new_losses new_stalled = record {
    point_name = codes "collector";
    stage_name = total_name;
    is_value = false;
    figures = to_stats g Acc.fresh no_anomalies new_losses new_stalled false;
    overhead = ov;
  }

  -- `write_csv`, where `is_open` says whether there is a path and the file could be opened.
  unfoldable pub write_csv : Bool → List (StageReport F) → ℕ → ℕ → List (Line F)
  write_csv is_open rows new_losses new_stalled =
      let lines = row_lines rows in
      let own : List (Line F) =
        if not (new_losses == 0) || not (new_stalled == 0)
        then collector_line new_losses new_stalled ∷ []
        else [] in
      if is_open then elim lines [ [] ↦ own | x ∷ xs ↦ x ∷ xs ] else []

-- What a flush keeps: the pairer, the tables of the rows, `last_loss_`, `reported_stalled_`,
-- `reports_` and `published_stalled_`.
pub record Flusher (F : Type 0) : Type 0 where
  pub pairer : Pairer F
  pub build : Build F
  pub last_loss : ℕ
  pub reported_stalled : ℕ
  pub reports : List (StageReport F)
  pub published_stalled : ℕ

-- What a flush finds: the losses that the shared ring counts, and those of the thread rings;
-- `stalled_slots_`; the clock, and the age at which a span is given up, if the rate is known; the
-- names; whether the CSV file is open, and the overhead as it is reported.
pub record Moment (F : Type 0) : Type 0 where
  pub loss_count : ℕ
  pub ring_lost : ℕ
  pub stalled_slots : ℕ
  pub now : ℕ
  pub age : Option ℕ
  pub control : Option ControlBlock
  pub to_string : ℕ → List ℕ
  pub is_open : Bool
  pub overhead : F

unfoldable pub loss_of : {F : Type 0} → Moment F → ℕ
loss_of x = (x.loss_count + x.ring_lost) % 2 ^ 64

unfoldable pub new_losses_of : {F : Type 0} → Flusher F → Moment F → ℕ
unfolding loss_of
new_losses_of w x = if ltb w.last_loss (loss_of x) then loss_of x - w.last_loss else 0

unfoldable pub new_stalled_of : {F : Type 0} → Flusher F → Moment F → ℕ
new_stalled_of w x = (x.stalled_slots + 2 ^ 64 - w.reported_stalled) % 2 ^ 64

-- `do_flush`: the lines that it writes, and what it keeps.
unfoldable pub do_flush :
    {F : Type 0} ⦃f : Doubles F⦄
    → Figures F
    → ((StageReport F → StageReport F → Bool) → List (StageReport F) → List (StageReport F))
    → Moment F
    → Flusher F
    → List (Line F) × Flusher F
do_flush {F} g sort x w =
    let swept : Pairer F = elim x.age [
      | none ↦ w.pairer
      | some age ↦ (sweep x.now age w.pairer).1
    ] in
    let new_losses : ℕ = new_losses_of w x in
    let new_stalled : ℕ = new_stalled_of w x in
    let (paired, build) =
      build_reports g sort
        (record {
          new_losses = new_losses;
          new_stalled = new_stalled;
          loss = loss_of x;
          stalled_slots = x.stalled_slots;
          control = x.control;
          to_string = x.to_string;
        })
        swept w.build in
    (
      write_csv g x.overhead x.is_open build.rows new_losses new_stalled,
      record {
        pairer = clear_intervals paired;
        build = build;
        last_loss = loss_of x;
        reported_stalled = x.stalled_slots;
        reports = build.rows;
        published_stalled = x.stalled_slots;
      },
    )

-- The search of `snapshot`; none is a default `stats`.
unfoldable pub snapshot : {F : Type 0} → List (StageReport F) → ℕ → ℕ → ℕ → Option (Stats F)
snapshot [] p from to = none
snapshot (r ∷ reports) p from to =
    let rest = snapshot reports p from to in
    if not r.overflow && (r.point == p) && (r.from == from) && (r.to == to)
    then some r.cumulative
    else rest
