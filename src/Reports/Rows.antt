-- ===== src/Reports/Rows.antt =====
-- A property of every row that `build_reports` of include/slick/perfmon/collector.hpp builds.
use mathlib.Core.List.{Permᴰ}
use mathlib.Core.Path.{subst}
use slick_perfmon.Prelude.{
  ℕ, zero, suc, ◌≡◌, refl, Bool, true, false, not, ◌||◌, Bool-cases, inl, inr, Option, none, some,
  List, [], ◌∷◌, ◌++◌,
}
use slick_perfmon.OpenMap.{find, load}
use slick_perfmon.OpenMap.Visit.{for_each-keeps}
use slick_perfmon.Accumulator.{Doubles}
use slick_perfmon.Pairer.{Pairer, Stage, Stage-Default}
use slick_perfmon.Pairer.Anomalies.{PointAnomalies, PointAnomalies-Default, any_anomaly, since}
use slick_perfmon.Reports.{StageReport, Figures, Labels, resolve_point_name, refresh_name_cache}
use slick_perfmon.Reports.Building.{
  RowRef-Default, Build, Flush, baseline_of, stage_report, stage_row, anomaly_row, point_row,
  overflow_row, mark, build_reports, row_before,
}

abbrev pub EachRow : {F : Type 0} → (StageReport F → Type 0) → List (StageReport F) → Type 0
EachRow P [] = Unit
EachRow P (r ∷ rows) = P r × EachRow P rows

module _ {F : Type 0} (P : StageReport F → Type 0) where
  EachRow-append :
      (rows : List (StageReport F)) (r : StageReport F)
      → EachRow P rows
      → P r
      → EachRow P (rows ++ (r ∷ []))
  EachRow-append [] r h c = (c, tt)
  EachRow-append (x ∷ rows) r (a, h) c = (a, EachRow-append rows r h c)

  EachRow-mark :
      ((r : StageReport F) → P r → P (record r { anomalies_only = true }))
      → (rows : List (StageReport F)) (i : ℕ) → EachRow P rows
      → EachRow P (mark rows i)
  unfolding mark
  EachRow-mark marked [] i h = tt
  EachRow-mark marked (r ∷ rows) zero (a, h) = (marked r a, h)
  EachRow-mark marked (r ∷ rows) (suc i) (a, h) = (a, EachRow-mark marked rows i h)

  EachRow-Permᴰ : {xs ys : List (StageReport F)} → Permᴰ xs ys → EachRow P xs → EachRow P ys
  EachRow-Permᴰ Permᴰ.nil h = tt
  EachRow-Permᴰ (Permᴰ.cons e p) (a, h) = (subst P e a, EachRow-Permᴰ p h)
  EachRow-Permᴰ (Permᴰ.swap e e') (a, (b, h)) = (subst P e' b, (subst P e a, h))
  EachRow-Permᴰ (Permᴰ.trans p q) h = EachRow-Permᴰ q (EachRow-Permᴰ p h)

-- What a property P of rows and a property Q of the cached labels need: the rows that the two passes
-- build have P, and nothing that is done to the cache breaks Q.
pub record Kept {F : Type 0} ⦃f : Doubles F⦄ (g : Figures F) (w : Pairer F) (u : Flush)
    (P : StageReport F → Type 0) (Q : Labels → Type 0) : Type 0 where
  pub marked : (r : StageReport F) → P r → P (record r { anomalies_only = true })
  pub staged :
      (s : Stage F) (b : Build F)
      → Q b.labels
      → P (stage_report g w u s b).0 × Q (stage_report g w u s b).1
  pub anomalous :
      (p : ℕ) (delta total : PointAnomalies) (name : List ℕ) (overflow : Bool)
      → P (anomaly_row g w u p delta total name overflow)
  pub named : (p : ℕ) (l : Labels) → Q l → Q (resolve_point_name u.to_string u.control l p).1
  pub refreshed : (l : Labels) → Q l → Q (refresh_name_cache u.control l)

module _ {F : Type 0} ⦃f : Doubles F⦄ (g : Figures F) (w : Pairer F) (u : Flush)
    (P : StageReport F → Type 0) (Q : Labels → Type 0) (kept : Kept g w u P Q) where
  abbrev Fine : Build F → Type 0
  Fine b = EachRow P b.rows × Q b.labels

  stage_row-Fine : (s : Stage F) (b : Build F) → Fine b → Fine (stage_row g w u s b).1
  unfolding stage_row
  stage_row-Fine s b (h, q) =
      let (p, q') = kept.staged s b q in
      (EachRow-append P b.rows (stage_report g w u s b).0 h p, q')

  point_row-Fine :
      (p : ℕ) (an : PointAnomalies) (b : Build F) → Fine b → Fine (point_row g w u p an b).1
  unfolding point_row
  point_row-Fine p an b (h, q) = elim (Bool-cases (not (any_anomaly an))) [
    | inl quiet ↦ rw quiet (h, q)
    | inr moved ↦ go moved (find b.row_points p) refl
  ]
    where
      go :
          not (any_anomaly an) ≡ false
          → (place : Option ℕ) → find b.row_points p ≡ place
          → Fine (point_row g w u p an b).1
      go moved none e =
          rw (point_row, moved, e)
            (EachRow-append P b.rows _ h (kept.anomalous p _ _ _ false), kept.named p b.labels q)
      go moved (some i) e =
          elim (Bool-cases
            ((load b.row_points i).has_samples || not (any_anomaly (since an (baseline_of b p))))) [
              | inl carried ↦ rw (point_row, moved, e, carried) (h, q)
              | inr bare ↦ rw (point_row, moved, e, bare) (EachRow-mark P kept.marked b.rows _ h, q)
            ]

  overflow_row-Fine : (b : Build F) → Fine b → Fine (overflow_row g w u b)
  unfolding overflow_row
  overflow_row-Fine b (h, q) = elim (Bool-cases (any_anomaly w.ledger.overflow)) [
    | inl moved ↦ rw moved (EachRow-append P b.rows _ h (kept.anomalous 0 _ _ _ true), q)
    | inr quiet ↦ rw quiet (h, q)
  ]

  -- The rows of a report, where `sort` only rearranges them.
  pub build_reports-each :
      (sort : (StageReport F → StageReport F → Bool) → List (StageReport F) → List (StageReport F))
      → ((before : StageReport F → StageReport F → Bool) (rows : List (StageReport F))
          → Permᴰ rows (sort before rows))
      → (b : Build F) → Q b.labels
      → EachRow P (build_reports g sort u w b).1.rows × Q (build_reports g sort u w b).1.labels
  unfolding build_reports
  build_reports-each sort sorts b q =
      let (h, q') = overflow_row-Fine _ (
        for_each-keeps (λ p an c. point_row g w u p an c) Fine (λ p an c h. point_row-Fine p an c h)
          w.ledger.points _
          (for_each-keeps (λ key s c. stage_row g w u s c) Fine (λ key s c h. stage_row-Fine s c h)
            w.stages _ (tt, kept.refreshed b.labels q))) in
      (EachRow-Permᴰ P (sorts row_before _) h, q')
