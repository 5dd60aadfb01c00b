-- ===== src/Merge/Advancing.antt =====
-- What the reads of a ring in `next_stamp` of include/slick/perfmon/collector.hpp do to its place.
use slick_perfmon.Prelude.{
  ℕ, zero, suc, ◌+◌, ◌-◌, ◌<◌, ◌≡◌, refl, sym, ◌∙◌, arith, ◌==◌, Bool-cases, inl, inr, some, List,
  [], ◌∷◌, length, get_or, get_or-set_self, get_or-set_other, length-set, set,
}
use slick_perfmon.Event.{Sample}
use slick_perfmon.Ring.{Read}
use slick_perfmon.Merge.{Outside, Pass, room_of, read_batch}
use slick_perfmon.Merge.Feeding.{StandsAt, IsRings}
use slick_perfmon.Merge.Heads.{at}
use slick_perfmon.Merge.Flow.{missed, Goes, Goes-trans, Goes-set, FlowsTo}

module _ {W : Type 0} (o : Outside W) (published : ℕ → ℕ → Sample) (stage : List Sample)
    (from : List ℕ) (lost : ℕ) (w : W) where
  -- What reading a ring does to its place.
  pub record ReadsOn (i : ℕ) (q : List ℕ) (m : Pass W) (out : List Sample × Pass W) : Type 0 where
    pub to : List ℕ
    pub goes : Goes (suc i) q to
    pub flow : FlowsTo o published stage from lost w to out.1
    pub here : get_or to (suc i) 0 ≡ at i out.1
    pub size : length out.1.cursors ≡ length m.cursors
    pub apart : (j : ℕ) → (i ≡ j → ⊥) → at j out.1 ≡ at j m
    pub part : StandsAt (published i) (at i out.1) out.0

  pub read_batch-ReadsOn :
      IsRings o published
      → (i stop fuel : ℕ) (m : Pass W) (q : List ℕ) (out : List Sample × Pass W)
      → i < length m.cursors
      → suc i < length q
      → FlowsTo o published stage from lost w q m
      → get_or q (suc i) 0 ≡ at i m
      → read_batch o i stop fuel m ≡ some out
      → ReadsOn i q m out
  unfolding read_batch
  read_batch-ReadsOn rings i stop zero m q out lt lt' flow here e = absurd (cc)
  read_batch-ReadsOn rings i stop (suc fuel) m q out lt lt' flow here e = go r.batch refl λ z.
      let n = length-set m.cursors i r.cursor in
      let n' = length-set q (suc i) (get_or q (suc i) 0 + skipped) in
      read_batch-ReadsOn rings i stop fuel m1 q1 out (omega (arith, n, lt)) (omega (arith, n', lt'))
        flow1 (arrived ∙ sym moved) z
    where
      c : ℕ
      c = at i m

      r : Read
      r = o.read i m.time c (room_of stop c) m.lost

      skipped : ℕ
      skipped = r.cursor - c

      m1 : Pass W
      m1 = record m { cursors = set m.cursors i r.cursor; lost = r.lost; time = m.time + 1 }

      q1 : List ℕ
      q1 = set q (suc i) (get_or q (suc i) 0 + skipped)

      flow1 : FlowsTo o published stage from lost w q1 m1
      flow1 = rw (rings.counted i m.time c (room_of stop c) m.lost) (missed i skipped flow)

      moved : at i m1 ≡ r.cursor
      moved = get_or-set_self m.cursors i r.cursor 0 lt

      arrived : get_or q1 (suc i) 0 ≡ r.cursor
      arrived =
          let up = rings.onward i m.time c (room_of stop c) m.lost in
          let e' = get_or-set_self q (suc i) (get_or q (suc i) 0 + skipped) 0 lt' in
          omega (arith, e', up, here)

      made : (b : List Sample) → r.batch ≡ b → ReadsOn i q m (b, m1)
      made b eb = record {
        to = q1;
        goes = Goes-set (suc i) q (get_or q (suc i) 0 + skipped);
        flow = flow1;
        here = arrived ∙ sym moved;
        size = length-set m.cursors i r.cursor;
        apart = λ j ne. get_or-set_other m.cursors i j r.cursor 0 ne;
        part = rw (moved, sym eb) (rings.holds i m.time c (room_of stop c) m.lost);
      }

      go :
          (b : List Sample)
          → r.batch ≡ b
          → (read_batch o i stop fuel m1 ≡ some out → ReadsOn i q1 m1 out)
          → ReadsOn i q m out
      go [] eb again = elim (Bool-cases (r.cursor == c)) [
        | inl same ↦
            let p : ([], m1) ≡ out = (let z = rw (read_batch, eb, same) at e in cc) in
            rw (sym p) (made [] eb)
        | inr on ↦
            let g = again (rw (read_batch, eb, on) at e) in
            record {
              to = g.to;
              goes =
                  Goes-trans (suc i) q q1 g.to (Goes-set (suc i) q (get_or q (suc i) 0 + skipped))
                    g.goes;
              flow = g.flow;
              here = g.here;
              size = g.size ∙ length-set m.cursors i r.cursor;
              apart = λ j ne. g.apart j ne ∙ get_or-set_other m.cursors i j r.cursor 0 ne;
              part = g.part;
            }
      ]
      go (x ∷ xs) eb again =
          let p : (x ∷ xs, m1) ≡ out = (let z = rw (read_batch, eb) at e in cc) in
          rw (sym p) (made (x ∷ xs) eb)
