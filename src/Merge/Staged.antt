-- ===== src/Merge/Staged.antt =====
-- A merge of include/slick/perfmon/collector.hpp feeds the stamps of all its sources in the order of
-- their times, and leaves the stage in that order.
use slick_perfmon.Prelude.{
  ℕ, zero, suc, ◌≤◌, ◌≡◌, refl, sym, arith, true, Option, none, some, List, [], ◌∷◌, length, drop,
}
use slick_perfmon.Event.{Sample}
use slick_perfmon.Shared.{Shared}
use slick_perfmon.Merge.{Source, Outside, Pass}
use slick_perfmon.Merge.Looping.{
  merge_sources, gather, staged_below, stage_source, erase_consumed, merge_staged,
}
use slick_perfmon.Merge.Feeding.{Feeds-trans, IsRings}
use slick_perfmon.Merge.Heaps.{IsHeaps}
use slick_perfmon.Merge.Turns.{IsStage, Merges}
use slick_perfmon.Merge.Order.{merge_sources-FeedsOn}
use slick_perfmon.Merge.Gathering.{gather-Gathers, stage_source-Sits, gathered-Sits}

module _ {W : Type 0} (o : Outside W) (published : ℕ → ℕ → Sample) (rings : IsRings o published)
    (watermark : ℕ) where
  pub erase_consumed-keeps :
      (spent : List Source) (sh : Shared W) (m : Pass W)
      → ((erase_consumed spent sh m).1.world ≡ m.world)
        × ((erase_consumed spent sh m).1.cursors ≡ m.cursors)
        × ((erase_consumed spent sh m).1.waits ≡ m.waits)
        × ((erase_consumed spent sh m).1.lost ≡ m.lost)
  unfolding erase_consumed
  erase_consumed-keeps [] sh m = (refl, refl, refl, refl)
  erase_consumed-keeps (src ∷ spent) sh m = go src.ring refl (erase_consumed-keeps spent)
    where
      go :
          (r : Option ℕ)
          → src.ring ≡ r
          → ((sh' : Shared W) (m' : Pass W)
              → ((erase_consumed spent sh' m').1.world ≡ m'.world)
                × ((erase_consumed spent sh' m').1.cursors ≡ m'.cursors)
                × ((erase_consumed spent sh' m').1.waits ≡ m'.waits)
                × ((erase_consumed spent sh' m').1.lost ≡ m'.lost))
          → ((erase_consumed (src ∷ spent) sh m).1.world ≡ m.world)
            × ((erase_consumed (src ∷ spent) sh m).1.cursors ≡ m.cursors)
            × ((erase_consumed (src ∷ spent) sh m).1.waits ≡ m.waits)
            × ((erase_consumed (src ∷ spent) sh m).1.lost ≡ m.lost)
      go none e rest =
          rw (erase_consumed, e)
            (rest (record sh { stage = drop src.pos sh.stage }) (record m { progressed = true }))
      go (some i) e rest = rw (erase_consumed, e) (rest sh m)

  IsStage-drop : (n : ℕ) (stage : List Sample) → IsStage stage → IsStage (drop n stage)
  IsStage-drop zero stage h = h
  IsStage-drop (suc n) [] h = (tt, tt)
  IsStage-drop (suc n) (s ∷ stage) ((_, only), (_, sorted)) = IsStage-drop n stage (only, sorted)

  erase_consumed-IsStage :
      (spent : List Source) (sh : Shared W) (m : Pass W)
      → IsStage sh.stage
      → IsStage (erase_consumed spent sh m).0.stage
  unfolding erase_consumed
  erase_consumed-IsStage [] sh m h = h
  erase_consumed-IsStage (src ∷ spent) sh m h = go src.ring refl (erase_consumed-IsStage spent)
    where
      go :
          (r : Option ℕ)
          → src.ring ≡ r
          → ((sh' : Shared W) (m' : Pass W)
              → IsStage sh'.stage
              → IsStage (erase_consumed spent sh' m').0.stage)
          → IsStage (erase_consumed (src ∷ spent) sh m).0.stage
      go none e rest =
          rw (erase_consumed, e)
            (rest (record sh { stage = drop src.pos sh.stage }) (record m { progressed = true })
              (IsStage-drop src.pos sh.stage h))
      go (some i) e rest = rw (erase_consumed, e) (rest sh m h)

  pub merge_staged-Merges :
      IsHeaps o
      → (fuel : ℕ) (sh : Shared W) (m : Pass W) (out : Shared W × Pass W)
      → o.count ≤ length m.cursors
      → IsStage sh.stage
      → merge_staged o watermark fuel sh m ≡ some out
      → Merges o watermark m out
  unfolding merge_staged
  merge_staged-Merges heaps fuel sh m out room stage e =
      gathered (gather o watermark fuel o.count 0 first m) refl
    where
      first : List Source
      first = stage_source (staged_below watermark sh.stage)

      gathered :
          (r : Option (List Source × Pass W))
          → gather o watermark fuel o.count 0 first m ≡ r
          → Merges o watermark m out
      gathered none er = absurd (let z = rw (merge_staged, er) at e in cc)
      gathered (some (sources, m')) er = merged (merge_sources o watermark fuel sources m1) refl
        where
          m1 : Pass W
          m1 = record m' { progressed = elim sources [ [] ↦ m'.progressed | s ∷ more ↦ true ] }

          merged :
              (r : Option (List Source × Pass W))
              → merge_sources o watermark fuel sources m1 ≡ r
              → Merges o watermark m out
          merged none er' = absurd (let z = rw (merge_staged, er, er') at e in cc)
          merged (some (spent, m'')) er' =
              let p : erase_consumed spent sh m'' ≡ out =
                (let z = rw (merge_staged, er, er') at e in cc) in
              let g =
                gather-Gathers o published rings watermark fuel o.count 0 first m (sources, m')
                  (omega (arith, room))
                  (stage_source-Sits o published rings watermark sh.stage m stage) er in
              let same : out.1.world ≡ m''.world =
                rw (sym p) (erase_consumed-keeps spent sh m'').0 in
              let sits =
                gathered-Sits o published rings watermark fuel sh.stage m sources m' m1.progressed
                  room stage er in
              let (hi, f) =
                merge_sources-FeedsOn o published rings watermark heaps fuel 0 sources m1
                  (spent, m'') sits er' in
              record {
                fed =
                    rw same (hi, Feeds-trans o watermark 0 0 m.world m'.world hi m''.world g.fed f);
                stage = rw (sym p) (erase_consumed-IsStage spent sh m'' stage);
              }
