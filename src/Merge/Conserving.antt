-- ===== src/Merge/Conserving.antt =====
-- The turns of the merge loops of include/slick/perfmon/collector.hpp, and the count of
-- the samples.
use slick_perfmon.Prelude.{
  ℕ, suc, ◌+◌, ◌≤◌, ◌≡◌, refl, ap, ◌∙◌, arith, Bool, true, false, if◌then◌else◌, inr, some, List,
  [], ◌∷◌, get_or, get_or-set_self, set, drop,
}
use slick_perfmon.Event.{Sample}
use slick_perfmon.Merge.{Source, Outside, Pass, source_head, consume, next_stamp}
use slick_perfmon.Merge.Looping.{fresh_source}
use slick_perfmon.Merge.Feeding.{StandsAt, IsRings, IsReady, HasCursor}
use slick_perfmon.Merge.Stamps.{HasCursor-after}
use slick_perfmon.Merge.Turns.{Sits}
use slick_perfmon.Merge.Order.{IsKept}
use slick_perfmon.Merge.Flow.{index, given, Goes-set, FlowsTo, took}
use slick_perfmon.Merge.Carrying.{IsBased-on, Stands, Carries, Carries-after}
use slick_perfmon.Merge.Carried.{IsWide, has_place, next_stamp-Carries}
use slick_perfmon.Merge.Covers.{Has}
use slick_perfmon.Merge.Balance.{Balances, Balances-shuffle, Balances-on, Balances-leave}

module _ {W : Type 0} (o : Outside W) (published : ℕ → ℕ → Sample) (stage : List Sample)
    (from : List ℕ) (lost : ℕ) (w : W) (rings : IsRings o published) (watermark : ℕ) where
  consume-Carries :
      (src : Source) (m : Pass W) (q : List ℕ)
      → IsReady watermark src.slots
      → HasCursor src.ring m
      → IsWide q m
      → FlowsTo o published stage from lost w q m
      → Stands o published stage from lost w q src
      → Carries o published stage from lost w src m q
          (true, (consume o src m).0, (consume o src m).1)
  unfolding consume
  consume-Carries src m q ready has wide flow stands = go src.slots refl
    where
      k : ℕ
      k = index src.ring

      go :
          (slots : List Sample)
          → src.slots ≡ slots
          → Carries o published stage from lost w src m q
              (true, (consume o src m).0, (consume o src m).1)
      go [] es = absurd (rw es at ready)
      go (s ∷ rest) es =
          let (e, part) : StandsAt (given published stage k) (src.base + src.pos) (s ∷ rest) =
            rw es at stands.part in
          let n : src.base + (src.pos + 1) ≡ suc (src.base + src.pos) = omega arith in
          let same : given published stage k (get_or q k 0) ≡ source_head src =
            rw es (ap (given published stage k) stands.here ∙ e) in
          let flow' : FlowsTo o published stage from lost w (set q k (suc (get_or q k 0)))
              (consume o src m).1 =
            rw same at (took k flow) in
          let moved =
            get_or-set_self q k (suc (get_or q k 0)) 0 (has_place src.ring q m wide has) in
          let here = stands.here in
          record {
            to = set q k (suc (get_or q k 0));
            goes = Goes-set k q (suc (get_or q k 0));
            flow = flow';
            ring = refl;
            size = refl;
            apart = λ j ne. refl;
            stands = λ more. record {
              here = omega (arith, moved, here);
              part = rw (es, n) part;
              based =
                  IsBased-on o published stage from lost w src.ring src.base src.pos (src.pos + 1)
                    src.slots (drop 1 src.slots) (rw es (omega arith)) stands.based;
            };
            rests = λ no. absurd (cc);
          }

  -- A turn takes one sample, and then moves on.
  turn-Carries :
      (fuel lo : ℕ) (src : Source) (m : Pass W) (q : List ℕ) (out : Bool × Source × Pass W)
      → Sits published watermark lo m src
      → IsWide q m
      → FlowsTo o published stage from lost w q m
      → Stands o published stage from lost w q src
      → next_stamp o watermark fuel (consume o src m).0 (consume o src m).1 ≡ some out
      → Carries o published stage from lost w src m q out
  turn-Carries fuel lo src m q out h wide flow stands e =
      let f = consume-Carries src m q h.ready h.cursor wide flow stands in
      let n = f.size in
      let n' = f.goes.size in
      Carries-after o published stage from lost w src (consume o src m).0 m (consume o src m).1 q
        out f
        (next_stamp-Carries o published stage from lost w rings watermark fuel (consume o src m).0
          (consume o src m).1 f.to out
          (HasCursor-after o published rings watermark lo src.ring (consume o src m).0.ring m
            (consume o src m).1 f.ring n h.cursor)
          (omega (arith, wide, n, n')) f.flow (f.stands refl) e)

  pub Balances-IsKept :
      IsKept o published rings watermark
        λ lo xs spent m. Balances o published stage from lost w xs spent m
  Balances-IsKept = record {
    shuffle =
        λ lo xs ys spent m p k. Balances-shuffle o published stage from lost w xs ys spent m p k;
    step = step;
  }
    where
      step :
          (fuel lo : ℕ) (a : Source) (front spent : List Source) (m : Pass W)
          (out : Bool × Source × Pass W)
          → Sits published watermark lo m a
          → next_stamp o watermark fuel (consume o a m).0 (consume o a m).1 ≡ some out
          → Balances o published stage from lost w (a ∷ front) spent m
          → Balances o published stage from lost w
              (if out.0 then out.1 ∷ front else front)
              (if out.0 then spent else out.1 ∷ spent)
              out.2
      step fuel lo a front spent m (true, src', m') h e k =
          Balances-on o published stage from lost w a front spent m k src' m'
            (turn-Carries fuel lo a m k.place (true, src', m') h k.wide k.flow k.stands.0 e)
      step fuel lo a front spent m (false, src', m') h e k =
          Balances-leave o published stage from lost w a front spent m k src' m'
            (turn-Carries fuel lo a m k.place (false, src', m') h k.wide k.flow k.stands.0 e)

  abbrev pub Balanced : List Source → Pass W → Type 0
  Balanced sources m = Balances o published stage from lost w sources [] m

  -- No ring from `i` on has a source yet.
  abbrev pub IsBelow : ℕ → List Source → Type 0
  IsBelow i sources = (j : ℕ) → i ≤ j → Has (some j) sources → ⊥

  -- A source that has read nothing yet joins.
  pub fresh-Balances :
      (i : ℕ) (sources : List Source) (m : Pass W)
      → IsBelow i sources
      → Balanced sources m
      → Balanced (fresh_source i (get_or m.cursors i 0) ∷ sources) m
  fresh-Balances i sources m below k = record {
    place = k.place;
    flow = k.flow;
    wide = k.wide;
    stands = (
      record {
        here = (let e = k.rings_rest i (below i (omega arith)) in omega (arith, e));
        part = tt;
        based = tt;
      },
      k.stands,
    );
    distinct = (below i (omega arith), k.distinct);
    rings_rest = λ j apart. k.rings_rest j (λ h. apart (inr h));
    stage_rests = λ apart. k.stage_rests (λ h. apart (inr h));
    stage_waits = λ h. refl;
  }

  -- A ring's source that has left took nothing of the stage.
  pub forget-Balances :
      (i : ℕ) (xs : List Source) (src : Source) (m : Pass W)
      → src.ring ≡ some i
      → Balances o published stage from lost w xs (src ∷ []) m
      → Balanced xs m
  forget-Balances i xs src m r k = record {
    place = k.place;
    flow = k.flow;
    wide = k.wide;
    stands = k.stands;
    distinct = k.distinct;
    rings_rest = k.rings_rest;
    stage_rests = λ apart.
        (let (e, le) = k.stage_rests apart in let e' = rw r at e in (omega (arith, e'), le));
    stage_waits = λ h. refl;
  }
