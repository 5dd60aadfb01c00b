-- ===== src/Reports.antt =====
-- The rows of a report: `StageReport`, `stats`, and the figures and labels that
-- include/slick/perfmon/collector.hpp puts into them. A double is of a type F with the operations
-- that the code calls.
pub mod Building
pub mod Writing
pub mod Rows
pub mod Losses
pub mod Ordered
pub mod Naming
mod Tests
use slick_perfmon.Prelude.{
  ℕ, zero, suc, ◌+◌, ◌≤◌, Bool, true, false, not, ◌&&◌, ◌||◌, ltb, ◌==◌, if◌then◌else◌, Option,
  none, some, List, [], ◌∷◌, ◌++◌, length, get_or, map,
}
use slick_perfmon.Prelude.Text.{codes, same_text, is_empty}
use slick_perfmon.Event.{begin_step}
use slick_perfmon.Keys.{stage_key, is_value_stage}
use slick_perfmon.Histogram.{Percent}
use slick_perfmon.OpenMap.{OpenMap, Default, find, load, insert}
use slick_perfmon.OpenMap as Map
use slick_perfmon.Accumulator.{Doubles, Accumulator, least, average, stddev, percentile}
use slick_perfmon.Pairer.Anomalies.{PointAnomalies}
use slick_perfmon.Config.Header.{OutputUnit, cycles, nanoseconds, microseconds}
use slick_perfmon.ControlBlock.{ControlBlock}
use slick_perfmon.ControlBlock.Names.{lookup, name_generation}

pub record Stats (F : Type 0) : Type 0 where
  pub count : ℕ
  pub dropped : ℕ
  pub invalid : ℕ
  pub stalled : ℕ
  pub out_of_range : ℕ
  pub abandoned : ℕ
  pub orphan : ℕ
  pub min : F
  pub max : F
  pub mean : F
  pub stddev : F
  pub percentiles : List F
  pub invariant_tsc : Bool

pub record StageReport (F : Type 0) : Type 0 where
  pub point : ℕ
  pub from : ℕ
  pub to : ℕ
  pub point_name : List ℕ
  pub stage_name : List ℕ
  pub interval : Stats F
  pub cumulative : Stats F
  pub anomalies_only : Bool
  pub overflow : Bool
  pub value : Bool
  pub summary_p50 : F
  pub summary_p99 : F

-- What the figures depend on: fields of the `config`, the clock, and `==` on the percents.
pub record Figures (F : Type 0) : Type 0 where
  pub percentiles : List Percent
  pub output_unit : OutputUnit
  pub to_ns : F → F
  pub invariant : Bool
  pub same : Percent → Percent → Bool
  pub p50 : Percent
  pub p99 : Percent

module _ {F : Type 0} ⦃f : Doubles F⦄ (g : Figures F) where
  pub convert : F → F
  convert v = elim g.output_unit [
    | cycles ↦ v
    | nanoseconds ↦ g.to_ns v
    | microseconds ↦ f.over (g.to_ns v) (f.of_u64 1000)
  ]

  unfoldable pub scaled : F → Bool → F
  scaled v raw = if raw then v else convert v

  unfoldable pub to_stats : Accumulator F → PointAnomalies → ℕ → ℕ → Bool → Stats F
  to_stats acc an dropped stalled raw = record {
    count = acc.count;
    dropped = dropped;
    invalid = an.invalid;
    stalled = stalled;
    out_of_range = an.out_of_range;
    abandoned = an.abandoned;
    orphan = an.orphan;
    min = scaled (f.of_u64 (least acc)) raw;
    max = scaled (f.of_u64 acc.max) raw;
    mean = scaled (average acc) raw;
    stddev = scaled (stddev acc) raw;
    percentiles = map (λ (p : Percent). scaled (percentile acc p) raw) g.percentiles;
    invariant_tsc = g.invariant;
  }

  -- `configured_index`; `none` is `kNotConfigured`.
  unfoldable pub index_from : List Percent → Percent → ℕ → Option ℕ
  index_from [] p i = none
  index_from (q ∷ qs) p i =
      let rest = index_from qs p (i + 1) in if g.same q p then some i else rest

  unfoldable pub configured_index : Percent → Option ℕ
  configured_index p = index_from g.percentiles p 0

  -- One of the two percentiles of the summary, where the row has cumulative percentiles `have`.
  unfoldable pub summary_figure : Percent → List F → Accumulator F → Bool → F
  summary_figure p have acc raw = elim (configured_index p) [
    | none ↦ scaled (percentile acc p) raw
    | some i ↦
        if ltb i (length have) then get_or have i (f.of_u64 0) else scaled (percentile acc p) raw
  ]

  unfoldable pub to_summary : StageReport F → Accumulator F → StageReport F
  to_summary r acc = record r {
    summary_p50 = summary_figure g.p50 r.cumulative.percentiles acc r.value;
    summary_p99 = summary_figure g.p99 r.cumulative.percentiles acc r.value;
  }

-- `point_names_`, `stage_names_` and `cached_name_generation_`.
pub record Labels : Type 0 where
  pub points : OpenMap (List ℕ)
  pub stages : OpenMap (List ℕ)
  pub generation : ℕ

instance pub Text-Default : Default (List ℕ)
Text-Default = record { fresh = [] }

unfoldable pub refresh_name_cache : Option ControlBlock → Labels → Labels
refresh_name_cache control l = if name_generation control == l.generation then l else record {
  points = Map.clear l.points;
  stages = Map.clear l.stages;
  generation = name_generation control;
}

-- `kValueStageName`.
abbrev pub value_stage_name : List ℕ
value_stage_name = codes "value"

abbrev pub total_name : List ℕ
total_name = codes "total"

-- The label of a point, and the cache; `to_string` is the C++ library's.
unfoldable pub resolve_point_name :
    (ℕ → List ℕ) → Option ControlBlock → Labels → ℕ → List ℕ × Labels
resolve_point_name to_string control l p = elim (find l.points p) [
  | some i ↦ (load l.points i, l)
  | none ↦
      let nm = lookup control p begin_step in
      let out : List ℕ = if is_empty nm then codes "point_" ++ to_string p else nm in
      (out, record l { points = (insert l.points p out).1 })
]

-- The label of a stage that the name table gives, or makes.
unfoldable pub stage_label : (ℕ → List ℕ) → Option ControlBlock → ℕ → ℕ → ℕ → List ℕ
stage_label to_string control p from to =
    let nm = lookup control p to in
    if is_empty nm || same_text nm value_stage_name
    then codes "step_" ++ (to_string from ++ (codes "->" ++ to_string to))
    else nm

unfoldable pub is_total : ℕ → ℕ → Bool
is_total from to = (from == begin_step) && (to == begin_step)

unfoldable pub resolve_stage_name :
    (ℕ → List ℕ) → Option ControlBlock → Labels → ℕ → ℕ → ℕ → List ℕ × Labels
resolve_stage_name to_string control l p from to =
    let key : ℕ = stage_key p from to in
    let out = stage_label to_string control p from to in
    if is_total from to
    then (total_name, l)
    else (if is_value_stage from to then (value_stage_name, l) else elim (find l.stages key) [
      | some i ↦ (load l.stages i, l)
      | none ↦ (out, record l { stages = (insert l.stages key out).1 })
    ])
