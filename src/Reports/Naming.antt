-- ===== src/Reports/Naming.antt =====
-- In the reports of include/slick/perfmon/collector.hpp the label "value" is that of the value rows,
-- and of no other.
use mathlib.Core.List.{Permᴰ}
use slick_perfmon.Prelude.{
  ℕ, ◌≡◌, refl, arith, Bool, true, false, ◌||◌, ◌==◌, Bool-cases, inl, inr, Option, none, some,
  List,
}
use slick_perfmon.Prelude.Text.{same_text, is_empty}
use slick_perfmon.Keys.{stage_key, is_value_stage}
use slick_perfmon.Keys.Laws.{is_value_stage-from}
use slick_perfmon.OpenMap.{find}
use slick_perfmon.OpenMap.Every.{Every, insert-Every, clear-Every, load-Every}
use slick_perfmon.ControlBlock.{ControlBlock}
use slick_perfmon.ControlBlock.Names.{lookup, name_generation}
use slick_perfmon.Accumulator.{Doubles}
use slick_perfmon.Pairer.{Pairer}
use slick_perfmon.Reports.Building.{Build, Flush, stage_report, anomaly_row, build_reports}
use slick_perfmon.Reports.Rows.{EachRow, Kept, build_reports-each}
use slick_perfmon.Reports.{
  StageReport, Figures, to_summary, Labels, Text-Default, refresh_name_cache, value_stage_name,
  total_name, stage_label, is_total, resolve_point_name, resolve_stage_name,
}

abbrev pub IsOther : List ℕ → Type 0
IsOther t = same_text t value_stage_name ≡ false

-- No cached label of a stage is "value".
abbrev pub IsClean : Labels → Type 0
IsClean l = Every IsOther l.stages

not_total : IsOther total_name
unfolding same_text
not_total = refl

module _ (to_string : ℕ → List ℕ) (control : Option ControlBlock) where
  stage_label-IsOther : (p from to : ℕ) → IsOther (stage_label to_string control p from to)
  unfolding stage_label same_text
  stage_label-IsOther p from to =
      elim (Bool-cases
        (is_empty (lookup control p to) || same_text (lookup control p to) value_stage_name)) [
          | inl unnamed ↦ rw unnamed refl
          | inr named ↦ rw named (ground (arith, named))
        ]

  -- A total is not a value stage.
  apart : (from to : ℕ) → is_total from to ≡ true → is_value_stage from to ≡ true → ⊥
  unfolding is_total
  apart from to total v = let e = is_value_stage-from from to v in absurd (ground (arith, total, e))

  -- What the label of a stage is.
  pub record Labelled (from to : ℕ) (out : List ℕ × Labels) : Type 0 where
    pub clean : IsClean out.1
    pub of_value : is_value_stage from to ≡ true → out.0 ≡ value_stage_name
    pub of_other : is_value_stage from to ≡ false → IsOther out.0

  -- With no label "value" in the cache: a value stage gets the label "value", any other stage gets
  -- another label, whatever name is published for it, and no label "value" comes into the cache.
  pub resolve_stage_name-Labelled :
      (l : Labels) (p from to : ℕ)
      → IsClean l
      → Labelled from to (resolve_stage_name to_string control l p from to)
  unfolding resolve_stage_name is_total
  resolve_stage_name-Labelled l p from to clean = elim (Bool-cases (is_total from to)) [
    | inl total ↦ rw total (record {
      clean = clean;
      of_value = λ v. absurd (apart from to total v);
      of_other = λ _. not_total;
    })
    | inr partial ↦ elim (Bool-cases (is_value_stage from to)) [
      | inl v ↦
          rw (partial, v)
            (record { clean = clean; of_value = λ _. refl; of_other = λ other. absurd (cc) })
      | inr other ↦ cached partial other (find l.stages (stage_key p from to)) refl
    ]
  ]
    where
      label : List ℕ
      label = stage_label to_string control p from to

      is_other : IsOther label
      is_other = stage_label-IsOther p from to

      cached :
          is_total from to ≡ false
          → is_value_stage from to ≡ false
          → (place : Option ℕ) → find l.stages (stage_key p from to) ≡ place
          → Labelled from to (resolve_stage_name to_string control l p from to)
      cached partial other (some i) e =
          rw (resolve_stage_name, partial, other, e)
            (record {
              clean = clean;
              of_value = λ v. absurd (cc);
              of_other = λ _. load-Every IsOther l.stages i clean;
            })
      cached partial other none e =
          rw (resolve_stage_name, partial, other, e)
            (record {
              clean = insert-Every IsOther l.stages (stage_key p from to) label clean is_other;
              of_value = λ v. absurd (cc);
              of_other = λ _. is_other;
            })

-- The label "value" for the value rows, and for no other.
abbrev pub IsLabelled : {F : Type 0} → StageReport F → Type 0
IsLabelled r =
    (r.value ≡ true → r.stage_name ≡ value_stage_name) × (r.value ≡ false → IsOther r.stage_name)

module _ {F : Type 0} ⦃f : Doubles F⦄ (g : Figures F) (w : Pairer F) (u : Flush) where
  point_name-IsClean :
      (p : ℕ) (l : Labels) → IsClean l → IsClean (resolve_point_name u.to_string u.control l p).1
  unfolding resolve_point_name
  point_name-IsClean p l h = go (find l.points p) refl
    where
      go :
          (place : Option ℕ)
          → find l.points p ≡ place
          → IsClean (resolve_point_name u.to_string u.control l p).1
      go none e = rw (resolve_point_name, e) h
      go (some i) e = rw (resolve_point_name, e) h

  refreshed-IsClean : (l : Labels) → IsClean l → IsClean (refresh_name_cache u.control l)
  unfolding refresh_name_cache
  refreshed-IsClean l h = elim (Bool-cases (name_generation u.control == l.generation)) [
    | inl same ↦ rw same h
    | inr newer ↦ rw newer (clear-Every IsOther l.stages h)
  ]

  IsLabelled-Kept : Kept g w u IsLabelled IsClean
  unfolding stage_report anomaly_row to_summary
  IsLabelled-Kept = record {
    marked = λ r h. h;
    staged = λ s b q.
        (let l = (resolve_point_name u.to_string u.control b.labels s.point).1 in
          let r =
            resolve_stage_name-Labelled u.to_string u.control l s.point s.from s.to
              (point_name-IsClean s.point b.labels q) in
          ((r.of_value, r.of_other), r.clean));
    anomalous = λ p delta total name overflow. ((λ v. absurd (cc)), λ _. not_total);
    named = point_name-IsClean;
    refreshed = refreshed-IsClean;
  }

  -- Where `sort` rearranges the rows, and no cached label of a stage is "value": in a report the value
  -- rows are labelled "value" and no other row is, whatever names are published; and no cached label
  -- of a stage is "value" afterwards.
  pub build_reports-IsLabelled :
      (sort : (StageReport F → StageReport F → Bool) → List (StageReport F) → List (StageReport F))
      → ((before : StageReport F → StageReport F → Bool) (rows : List (StageReport F))
          → Permᴰ rows (sort before rows))
      → (b : Build F) → IsClean b.labels
      → EachRow IsLabelled (build_reports g sort u w b).1.rows
        × IsClean (build_reports g sort u w b).1.labels
  build_reports-IsLabelled sort sorts b q =
      build_reports-each g w u IsLabelled IsClean IsLabelled-Kept sort sorts b q
