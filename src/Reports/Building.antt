-- ===== src/Reports/Building.antt =====
-- `build_reports` of include/slick/perfmon/collector.hpp, with `baseline_of`, `note_row` and the two
-- passes over the pairer's tables.
use slick_perfmon.Prelude.{
  ℕ, zero, suc, Bool, true, false, not, ◌||◌, ltb, ◌==◌, if◌then◌else◌, Option, none, some, List,
  [], ◌∷◌, ◌++◌, length,
}
use slick_perfmon.Prelude.Text.{codes}
use slick_perfmon.Event.{begin_step}
use slick_perfmon.Keys.{is_value_stage}
use slick_perfmon.OpenMap.{OpenMap, Default, find, load, store, insert, for_each}
use slick_perfmon.OpenMap as Map
use slick_perfmon.Accumulator.{Doubles, Accumulator, merge_into}
use slick_perfmon.Accumulator as Stats
use slick_perfmon.Pairer.{Stage, Pairer, Stage-Default}
use slick_perfmon.Pairer.Anomalies.{
  PointAnomalies, no_anomalies, any_anomaly, since, anomalies_of, PointAnomalies-Default,
}
use slick_perfmon.ControlBlock.{ControlBlock}
use slick_perfmon.Reports.{
  StageReport, Figures, Labels, to_stats, to_summary, refresh_name_cache, resolve_point_name,
  resolve_stage_name, is_total, total_name,
}

-- `RowRef`.
pub record RowRef : Type 0 where
  pub carrier : ℕ
  pub has_samples : Bool

instance pub RowRef-Default : Default RowRef
RowRef-Default = record { fresh = record { carrier = 0; has_samples = false } }

-- The tables that `build_reports` keeps and refills, and the rows that it has built.
pub record Build (F : Type 0) : Type 0 where
  pub rows : List (StageReport F)
  pub row_points : OpenMap RowRef
  pub labels : Labels
  pub point_baseline : OpenMap PointAnomalies
  pub overflow_baseline : PointAnomalies

-- What one call reads: the deltas and the totals of the collector-wide counts, and the names.
pub record Flush : Type 0 where
  pub new_losses : ℕ
  pub new_stalled : ℕ
  pub loss : ℕ
  pub stalled_slots : ℕ
  pub control : Option ControlBlock
  pub to_string : ℕ → List ℕ

unfoldable pub baseline_of : {F : Type 0} → Build F → ℕ → PointAnomalies
baseline_of b p = elim (find b.point_baseline p) [
  | none ↦ no_anomalies
  | some i ↦ load b.point_baseline i
]

-- `note_row`, for the row that was built last.
unfoldable pub note_row : {F : Type 0} → ℕ → StageReport F → OpenMap RowRef → OpenMap RowRef
note_row index r refs =
    let has : Bool = not (r.interval.count == 0) in
    elim (find refs r.point) [
      | none ↦
          let (place, refs') =
            insert refs r.point (record { carrier = index; has_samples = false }) in
          elim place [
            | none ↦ refs'
            | some i ↦ store refs' i (record { carrier = index; has_samples = has })
          ]
      | some i ↦
          let ref = load refs i in
          store refs i (record {
            carrier = if is_total r.from r.to then index else ref.carrier;
            has_samples = ref.has_samples || has;
          })
    ]

-- `out[i].anomalies_only = true`.
unfoldable pub mark : {F : Type 0} → List (StageReport F) → ℕ → List (StageReport F)
mark [] i = []
mark (r ∷ rows) zero = record r { anomalies_only = true } ∷ rows
mark (r ∷ rows) (suc i) = r ∷ mark rows i

module _ {F : Type 0} ⦃f : Doubles F⦄ (g : Figures F) (w : Pairer F) (u : Flush) where
  -- The row of a stage, and the labels.
  unfoldable pub stage_report : Stage F → Build F → StageReport F × Labels
  stage_report s b =
      let (point_name, labels) = resolve_point_name u.to_string u.control b.labels s.point in
      let (stage_name, labels') =
        resolve_stage_name u.to_string u.control labels s.point s.from s.to in
      let an = anomalies_of w.ledger s.point in
      let is_value : Bool = is_value_stage s.from s.to in
      let interval =
        to_stats g s.interval (since an (baseline_of b s.point)) u.new_losses u.new_stalled
          is_value in
      let cumulative = merge_into s.interval s.cumulative in
      (
        to_summary g
            (record {
              point = s.point;
              from = s.from;
              to = s.to;
              point_name = point_name;
              stage_name = stage_name;
              interval = interval;
              cumulative = to_stats g cumulative an u.loss u.stalled_slots is_value;
              anomalies_only = false;
              overflow = false;
              value = is_value;
              summary_p50 = f.of_u64 0;
              summary_p99 = f.of_u64 0;
            })
            cumulative,
        labels',
      )

  -- The first pass, at one stage.
  unfoldable pub stage_row : Stage F → Build F → Stage F × Build F
  stage_row s b =
      let (r, labels) = stage_report s b in
      (
        record s { cumulative = merge_into s.interval s.cumulative },
        record b {
          rows = b.rows ++ (r ∷ []);
          row_points = note_row (length b.rows) r b.row_points;
          labels = labels;
        },
      )

  -- `anomaly_row`, with the name and the flag that its callers set.
  unfoldable pub anomaly_row : ℕ → PointAnomalies → PointAnomalies → List ℕ → Bool → StageReport F
  anomaly_row p delta total point_name overflow =
      let empty = Stats.fresh in
      to_summary g
        (record {
          point = p;
          from = begin_step;
          to = begin_step;
          point_name = point_name;
          stage_name = total_name;
          interval = to_stats g empty delta u.new_losses u.new_stalled false;
          cumulative = to_stats g empty total u.loss u.stalled_slots false;
          anomalies_only = any_anomaly delta;
          overflow = overflow;
          value = false;
          summary_p50 = f.of_u64 0;
          summary_p99 = f.of_u64 0;
        })
        empty

  -- The baseline of a point moves up.
  unfoldable pub move_baseline :
      ℕ → PointAnomalies → PointAnomalies → OpenMap PointAnomalies → OpenMap PointAnomalies
  move_baseline p delta an base =
      if any_anomaly delta
      then elim (find base p) [ some i ↦ store base i an | none ↦ (insert base p an).1 ]
      else base

  -- The second pass, at one point.
  unfoldable pub point_row : ℕ → PointAnomalies → Build F → PointAnomalies × Build F
  point_row p an b =
      let delta = since an (baseline_of b p) in
      let b' = record b { point_baseline = move_baseline p delta an b.point_baseline } in
      let (name, labels) = resolve_point_name u.to_string u.control b.labels p in
      if not (any_anomaly an) then (an, b) else elim (find b.row_points p) [
        | none ↦ (
          an,
          record b' { rows = b.rows ++ (anomaly_row p delta an name false ∷ []); labels = labels },
        )
        | some i ↦
            if (load b.row_points i).has_samples || not (any_anomaly delta)
            then (an, b')
            else (an, record b' { rows = mark b.rows (load b.row_points i).carrier })
      ]

  -- The row of the bucket that the points share when their table is full.
  unfoldable pub overflow_row : Build F → Build F
  overflow_row b =
      let ov = w.ledger.overflow in
      let b' = record b { overflow_baseline = ov } in
      if any_anomaly ov
      then record b' {
        rows =
            b.rows
            ++ (anomaly_row 0 (since ov b.overflow_baseline) ov (codes "overflow") true ∷ []);
      }
      else b'

-- `==` on flags.
unfoldable pub same_flag : Bool → Bool → Bool
same_flag true c = c
same_flag false c = not c

-- The order of the rows.
unfoldable pub row_before : {F : Type 0} → StageReport F → StageReport F → Bool
row_before a b =
    let a_total : Bool = is_total a.from a.to in
    let b_total : Bool = is_total b.from b.to in
    if not (same_flag a.overflow b.overflow)
    then b.overflow
    else (if not (a.point == b.point)
        then ltb a.point b.point
        else (if not (same_flag a_total b_total)
            then b_total
            else (if not (a.from == b.from) then ltb a.from b.from else ltb a.to b.to)))

-- The whole of it, where `sort` is the C++ library's: the stages with their totals, and the tables
-- with the rows, sorted.
unfoldable pub build_reports :
    {F : Type 0} ⦃f : Doubles F⦄
    → Figures F
    → ((StageReport F → StageReport F → Bool) → List (StageReport F) → List (StageReport F))
    → Flush
    → Pairer F
    → Build F
    → Pairer F × Build F
build_reports g sort u w b =
    let b0 = record b {
      rows = [];
      row_points = Map.clear b.row_points;
      labels = refresh_name_cache u.control b.labels;
    } in
    let (stages, b1) = for_each (λ key s c. stage_row g w u s c) w.stages b0 in
    let (points, b2) = for_each (λ p an c. point_row g w u p an c) w.ledger.points b1 in
    let b3 = overflow_row g w u b2 in
    (record w { stages = stages }, record b3 { rows = sort row_before b3.rows })
