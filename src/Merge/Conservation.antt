-- ===== src/Merge/Conservation.antt =====
-- The merge of include/slick/perfmon/collector.hpp, from the gathering of its sources to
-- what it erases of the stage, and the count of its samples.
use slick_perfmon.Prelude.{
  ℕ, suc, ◌+◌, ◌*◌, ◌≤◌, ◌≡◌, refl, sym, ap, ◌∙◌, arith, true, inl, inr, Option, none, some, List,
  [], ◌∷◌, length, get_or, drop,
}
use slick_perfmon.Event.{Sample}
use slick_perfmon.Shared.{Shared}
use slick_perfmon.Merge.{Source, Outside, Pass}
use slick_perfmon.Merge.Looping.{
  merge_sources, gather, staged_below, stage_source, erase_consumed, merge_staged,
}
use slick_perfmon.Merge.Feeding.{StandsAt, StandsAt-at, IsRings}
use slick_perfmon.Merge.Heaps.{IsHeaps}
use slick_perfmon.Merge.Turns.{IsStage}
use slick_perfmon.Merge.Order.{merge_sources_rule}
use slick_perfmon.Merge.Gathering.{length-staged_below, gathered-Sits}
use slick_perfmon.Merge.Staged.{erase_consumed-keeps}
use slick_perfmon.Merge.Finished.{merge_staged-IsSome}
use slick_perfmon.Merge.Flow.{given, Flow, start}
use slick_perfmon.Merge.Covers.{Has}
use slick_perfmon.Merge.Conserved.{erase_consumed-stage, staged_below-StandsAt, gather-Balances}
use slick_perfmon.Merge.Balance.{Balances}
use slick_perfmon.Merge.Conserving.{Balances-IsKept}

module _ {W : Type 0} (o : Outside W) (published : ℕ → ℕ → Sample) (rings : IsRings o published)
    (watermark : ℕ) where
  -- What a merge does with the samples: `place` is where each source stands, the stage first.
  pub record Conserves (sh : Shared W) (m : Pass W) (out : Shared W × Pass W) : Type 0 where
    pub place : List ℕ
    pub flow :
        Flow o
          (given published sh.stage)
          (0 ∷ m.cursors)
          m.lost
          m.world
          place
          out.1.lost
          out.1.world
    pub rings_read : (j : ℕ) → get_or out.1.cursors j 0 ≡ get_or place (suc j) 0
    pub stage_within : get_or place 0 0 ≤ length sh.stage
    pub stage_read : out.0.stage ≡ drop (get_or place 0 0) sh.stage

  stage_source-Balances :
      (stage below : List Sample) (m : Pass W)
      → StandsAt (given published stage 0) 0 below
      → length below ≤ length stage
      → Balances o published stage (0 ∷ m.cursors) m.lost m.world (stage_source below) [] m
  stage_source-Balances stage [] m h le = record {
    place = 0 ∷ m.cursors;
    flow = start;
    wide = refl;
    stands = tt;
    distinct = tt;
    rings_rest = λ j apart. refl;
    stage_rests = λ apart. (refl, omega arith);
    stage_waits = λ h. refl;
  }
  stage_source-Balances stage (s ∷ below) m h le = record {
    place = 0 ∷ m.cursors;
    flow = start;
    wide = refl;
    stands = (record { here = refl; part = h; based = (refl, omega (arith, le)) }, tt);
    distinct = ((λ none_there. none_there), tt);
    rings_rest = λ j apart. refl;
    stage_rests = λ apart. (refl, omega arith);
    stage_waits = λ h. refl;
  }

  first_IsBelow : (below : List Sample) (j : ℕ) → 0 ≤ j → Has (some j) (stage_source below) → ⊥
  first_IsBelow [] j le h = h
  first_IsBelow (s ∷ below) j le (inl same) = cc
  first_IsBelow (s ∷ below) j le (inr later) = later

  merge_staged-Conserves :
      IsHeaps o
      → (fuel : ℕ) (sh : Shared W) (m : Pass W) (out : Shared W × Pass W)
      → o.count ≤ length m.cursors
      → IsStage sh.stage
      → merge_staged o watermark fuel sh m ≡ some out
      → Conserves sh m out
  unfolding merge_staged
  merge_staged-Conserves heaps fuel sh m out room stage e =
      gathered (gather o watermark fuel o.count 0 first m) refl
    where
      below : List Sample
      below = staged_below watermark sh.stage

      first : List Source
      first = stage_source below

      Balanced_here : List Source → List Source → Pass W → Type 0
      Balanced_here xs spent x =
          Balances o published sh.stage (0 ∷ m.cursors) m.lost m.world xs spent x

      begun : Balanced_here first [] m
      begun =
          stage_source-Balances sh.stage below m
            (staged_below-StandsAt watermark (given published sh.stage 0) 0 sh.stage (
              StandsAt-at (given published sh.stage 0) 0 sh.stage
                (λ j lt. (let n : 0 + j ≡ j = omega arith in rw n refl))))
            (length-staged_below o published rings watermark sh.stage)

      gathered :
          (r : Option (List Source × Pass W))
          → gather o watermark fuel o.count 0 first m ≡ r
          → Conserves sh m out
      gathered none er = absurd (let z = rw (merge_staged, er) at e in cc)
      gathered (some (sources, m')) er = merged (merge_sources o watermark fuel sources m1) refl
        where
          m1 : Pass W
          m1 = record m' { progressed = elim sources [ [] ↦ m'.progressed | s ∷ more ↦ true ] }

          k' : Balanced_here sources [] m'
          k' =
              gather-Balances o published rings watermark sh.stage (0 ∷ m.cursors) m.lost m.world
                fuel o.count 0 first m (sources, m') (omega (arith, room)) (first_IsBelow below)
                begun er

          counted : Balanced_here sources [] m1
          counted = record {
            place = k'.place;
            flow = k'.flow;
            wide = k'.wide;
            stands = k'.stands;
            distinct = k'.distinct;
            rings_rest = k'.rings_rest;
            stage_rests = k'.stage_rests;
            stage_waits = k'.stage_waits;
          }

          merged :
              (r : Option (List Source × Pass W))
              → merge_sources o watermark fuel sources m1 ≡ r
              → Conserves sh m out
          merged none er' = absurd (let z = rw (merge_staged, er, er') at e in cc)
          merged (some (spent, m'')) er' =
              let p : erase_consumed spent sh m'' ≡ out =
                (let z = rw (merge_staged, er, er') at e in cc) in
              let sits =
                gathered-Sits o published rings watermark fuel sh.stage m sources m' m1.progressed
                  room stage er in
              let (hi, k) =
                merge_sources_rule o published rings watermark
                  (λ lo xs done x. Balanced_here xs done x)
                  (Balances-IsKept o published sh.stage (0 ∷ m.cursors) m.lost m.world rings
                    watermark)
                  heaps fuel 0 sources m1 (spent, m'') sits counted er' in
              let (v, c, _, l) = erase_consumed-keeps o published rings watermark spent sh m'' in
              rw (sym p) (record {
                place = k.place;
                flow = rw (v, l) k.flow;
                rings_read = λ j. rw c (sym (k.rings_rest j (λ none_left. none_left)));
                stage_within = (k.stage_rests (λ none_left. none_left)).1;
                stage_read =
                    erase_consumed-stage spent sh m''
                    ∙ ap (λ n. drop n sh.stage) (sym (k.stage_rests (λ none_left. none_left)).0);
              })

  -- With a cursor for each ring, rings that the merge can rely on, heads that are not past a limit,
  -- heap algorithms that do what the C++ library's do, a stage of stamps in the order of their times,
  -- and as fuel two more than the samples staged and twice the limit for each ring and once more: the
  -- merge returns. Between the old cursors and the new ones, each sample of a ring was given to the
  -- pairer once, in the order in which its thread published it, or was counted as lost; the stamps
  -- erased from the front of the stage are those that were given to the pairer, once and in order;
  -- and the pairer was given nothing else.
  pub merge_staged_accounts :
      IsHeaps o
      → (limit : ℕ) → ((i t : ℕ) → o.head i t ≤ limit)
      → (fuel : ℕ) (sh : Shared W) (m : Pass W) → o.count ≤ length m.cursors
      → IsStage sh.stage
      → length sh.stage + 2 * limit + o.count * (2 * limit) + 2 ≤ fuel
      → (out : Shared W × Pass W) × (merge_staged o watermark fuel sh m ≡ some out)
        × Conserves sh m out
  merge_staged_accounts heaps limit heads fuel sh m room stage enough =
      let (out, e) =
        merge_staged-IsSome o published rings limit watermark heads heaps fuel sh m room stage
          enough in
      (out, e, merge_staged-Conserves heaps fuel sh m out room stage e)
