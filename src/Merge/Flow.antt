-- ===== src/Merge/Flow.antt =====
-- Where the samples of a merge of include/slick/perfmon/collector.hpp go.
use slick_perfmon.Prelude.{
  ℕ, zero, suc, ◌+◌, ◌%◌, ◌^◌, ◌<◌, ◌≡◌, refl, ap, ◌∙◌, arith, true, Bool-cases, inl, inr, Option,
  none, some, List, [], ◌∷◌, length, get_or, get_or-set_self, get_or-set_other, length-set, set,
}
use slick_perfmon.Event.{Sample, is_value_event}
use slick_perfmon.Ring.{no_sample}
use slick_perfmon.Merge.{Outside, Pass, pass_values}
use slick_perfmon.Merge.Feeding.{StandsAt}

-- The sources are numbered: the stage, and then the rings.
abbrev pub index : Option ℕ → ℕ
index none = 0
index (some i) = suc i

-- Sample number `p` of a source.
abbrev pub given : (ℕ → ℕ → Sample) → List Sample → ℕ → ℕ → Sample
given published stage zero p = get_or stage p no_sample
given published stage (suc i) p = published i p

-- From where the sources stood, what was lost and the state of the pairer, to a later place: the
-- next sample of a source is given to the pairer, or a ring goes past `n` samples, which are counted.
pub data Flow {W : Type 0} (o : Outside W) (source : ℕ → ℕ → Sample) (from : List ℕ) (lost : ℕ)
    (w : W) : List ℕ → ℕ → W → Type 0 where
  start : Flow o source from lost w from lost w
  took :
      {to : List ℕ} {l : ℕ} {v : W} (k : ℕ)
      → Flow o source from lost w to l v
      → Flow o source from lost w
          (set to k (suc (get_or to k 0)))
          l
          (o.on_event (source k (get_or to k 0)) v)
  missed :
      {to : List ℕ} {l : ℕ} {v : W} (i n : ℕ)
      → Flow o source from lost w to l v
      → Flow o source from lost w (set to (suc i) (get_or to (suc i) 0 + n)) ((l + n) % 2 ^ 64) v

-- One source alone goes on.
pub record Goes (k : ℕ) (from to : List ℕ) : Type 0 where
  pub size : length to ≡ length from
  pub others : (j : ℕ) → (k ≡ j → ⊥) → get_or to j 0 ≡ get_or from j 0

pub Goes-refl : (k : ℕ) (from : List ℕ) → Goes k from from
Goes-refl k from = record { size = refl; others = λ j ne. refl }

pub Goes-trans : (k : ℕ) (a b c : List ℕ) → Goes k a b → Goes k b c → Goes k a c
Goes-trans k a b c f g = record {
  size = g.size ∙ f.size;
  others = λ j ne. g.others j ne ∙ f.others j ne;
}

pub Goes-set : (k : ℕ) (from : List ℕ) (p : ℕ) → Goes k from (set from k p)
Goes-set k from p = record {
  size = length-set from k p;
  others = λ j ne. get_or-set_other from k j p 0 ne;
}

module _ {W : Type 0} (o : Outside W) (published : ℕ → ℕ → Sample) (stage : List Sample)
    (from : List ℕ) (lost : ℕ) (w : W) where
  -- A place, and the pass that has come to it.
  abbrev pub FlowsTo : List ℕ → Pass W → Type 0
  FlowsTo to m = Flow o (given published stage) from lost w to m.lost m.world

  -- What passing values does to the place of a source.
  pub record Passed (k base : ℕ) (q : List ℕ) (out : List Sample × ℕ × Pass W) : Type 0 where
    pub to : List ℕ
    pub goes : Goes k q to
    pub flow : FlowsTo to out.2
    pub here : get_or to k 0 ≡ base + out.1
    pub part : StandsAt (given published stage k) (base + out.1) out.0

  pub pass_values-Passed :
      (k base : ℕ) (slots : List Sample) (pos : ℕ) (m : Pass W) (q : List ℕ)
      → k < length q
      → FlowsTo q m
      → get_or q k 0 ≡ base + pos
      → StandsAt (given published stage k) (base + pos) slots
      → Passed k base q (pass_values o slots pos m)
  unfolding pass_values
  pass_values-Passed k base [] pos m q lt flow here part = record {
    to = q;
    goes = Goes-refl k q;
    flow = flow;
    here = here;
    part = part;
  }
  pass_values-Passed k base (s ∷ rest) pos m q lt flow here (e, part) =
      elim (Bool-cases (is_value_event s.event)) [
        | inr stamp ↦
            rw stamp
              (record { to = q; goes = Goes-refl k q; flow = flow; here = here; part = (e, part) })
        | inl is ↦
            let n : base + (pos + 1) ≡ suc (base + pos) = omega arith in
            let q' : List ℕ = set q k (suc (get_or q k 0)) in
            let moved = get_or-set_self q k (suc (get_or q k 0)) 0 lt in
            let size = length-set q k (suc (get_or q k 0)) in
            let same : given published stage k (get_or q k 0) ≡ s =
              ap (given published stage k) here ∙ e in
            let m1 : Pass W = record m { world = o.on_event s m.world; progressed = true } in
            let flow' : FlowsTo q' m1 = rw same at (took k flow) in
            let p =
              pass_values-Passed k base rest (pos + 1) m1 q' (omega (arith, lt, size)) flow'
                (omega (arith, moved, here)) (rw n part) in
            rw is (record {
              to = p.to;
              goes = Goes-trans k q q' p.to (Goes-set k q (suc (get_or q k 0))) p.goes;
              flow = p.flow;
              here = p.here;
              part = p.part;
            })
      ]
