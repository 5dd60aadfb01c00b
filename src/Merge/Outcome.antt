-- ===== src/Merge/Outcome.antt =====
-- What `next_stamp` of include/slick/perfmon/collector.hpp leaves of the rings, round by round.
use slick_perfmon.Prelude.{
  ℕ, zero, suc, ◌+◌, ◌≤◌, ◌≡◌, refl, sym, ap, ◌∙◌, arith, Bool, true, false, Bool-cases, inl, inr,
  Option, none, some, List, [], ◌∷◌, length,
}
use slick_perfmon.Event.{Sample, is_value_event}
use slick_perfmon.Merge.{
  Source, Outside, Pass, Round, found, ended, refilled, unfinished, pass_values, round, next_stamp,
}
use slick_perfmon.Merge.Feeding.{IsRings, IsSound, IsFrom, HasCursor}
use slick_perfmon.Merge.Refills.{RoundMoves}
use slick_perfmon.Merge.Stamps.{pass_values-Passes, HasCursor-after, round-Moves}
use slick_perfmon.Merge.Heads.{Reaches}
use slick_perfmon.Merge.Spent.{HasWait, Leaves, Leaves-after}
use slick_perfmon.Merge.Spending.{RoundLeaves, RoundLeaves-after, after_values-Leaves}

module _ {W : Type 0} (o : Outside W) (published : ℕ → ℕ → Sample) (rings : IsRings o published)
    (t0 watermark : ℕ) where
  pub pass_values-keeps :
      (slots : List Sample) (pos : ℕ) (m : Pass W)
      → ((pass_values o slots pos m).2.cursors ≡ m.cursors)
        × ((pass_values o slots pos m).2.waits ≡ m.waits)
        × ((pass_values o slots pos m).2.time ≡ m.time)
  unfolding pass_values
  pass_values-keeps [] pos m = (refl, refl, refl)
  pass_values-keeps (s ∷ rest) pos m = elim (Bool-cases (is_value_event s.event)) [
    | inr stamp ↦ rw stamp (refl, refl, refl)
    | inl is ↦ rw is (
        pass_values-keeps rest (pos + 1)
          (record m { world = o.on_event s m.world; progressed = true }))
  ]

  -- The pairer alone has moved.
  same_rings :
      (src src1 : Source) (m m1 : Pass W)
      → src1.ring ≡ src.ring
      → src1.stop ≡ src.stop
      → m1.cursors ≡ m.cursors
      → m1.waits ≡ m.waits
      → m1.time ≡ m.time
      → Reaches o published rings t0 src.ring src.stop
      → Leaves o published rings t0 watermark src m (true, src1, m1)
  same_rings src src1 m m1 r s c w t reach = record {
    size = ap length w;
    later = omega (arith, t);
    reach = rw (r, s) reach;
    waiting = λ j h. rw (c, w) h;
    fate = λ j k. elim k [ inl caught ↦ inl (rw c caught) | inr mine ↦ inr (refl, r ∙ mine) ];
  }

  pub HasWait-after :
      (r r' : Option ℕ) (m m' : Pass W)
      → r' ≡ r
      → length m'.waits ≡ length m.waits
      → HasWait r m
      → HasWait r' m'
  HasWait-after none r' m m' e n h = rw e tt
  HasWait-after (some i) r' m m' e n h = rw (e, n) h

  module _ (lo : ℕ) where
    round-Leaves :
        (fuel : ℕ) (src : Source) (m : Pass W)
        → HasCursor src.ring m
        → HasWait src.ring m
        → IsSound published src
        → IsFrom published lo src
        → t0 ≤ m.time
        → Reaches o published rings t0 src.ring src.stop
        → RoundLeaves o published rings t0 watermark src m (round o watermark fuel src m)
    unfolding round
    round-Leaves fuel src m has has' sound from since reach =
        let p =
          pass_values-Passes o published watermark lo src.ring src.base src.slots src.pos m sound
            from in
        let (c, w, t) = pass_values-keeps src.slots src.pos m in
        let (rest, pos, m1) = pass_values o src.slots src.pos m in
        let src1 : Source = record src { slots = rest; pos = pos } in
        RoundLeaves-after o published rings t0 watermark src src1 m m1 _
          (same_rings src src1 m m1 refl refl c w t reach)
          (after_values-Leaves o published rings t0 watermark fuel rest src1 m1 refl p.stops
            (HasCursor-after o published rings watermark lo src.ring src.ring m m1 refl p.size has)
            (HasWait-after src.ring src.ring m m1 refl (ap length w) has') p.sound
            (omega (arith, since, t)) reach)

    -- It reads on until it has a stamp, or has come to the head that the pass found, or to a stamp
    -- that is not before the watermark.
    pub next_stamp-Leaves :
        (fuel : ℕ) (src : Source) (m : Pass W) (out : Bool × Source × Pass W)
        → HasCursor src.ring m
        → HasWait src.ring m
        → IsSound published src
        → IsFrom published lo src
        → t0 ≤ m.time
        → Reaches o published rings t0 src.ring src.stop
        → next_stamp o watermark fuel src m ≡ some out
        → Leaves o published rings t0 watermark src m out
    unfolding next_stamp
    next_stamp-Leaves zero src m out has has' sound from since reach e = absurd (cc)
    next_stamp-Leaves (suc fuel) src m out has has' sound from since reach e =
        go (round o watermark fuel src m) refl
          (round-Moves o published rings watermark lo fuel src m has sound from)
          (round-Leaves fuel src m has has' sound from since reach)
          λ src' m'. next_stamp-Leaves fuel src' m' out
      where
        go :
            (r : Round W)
            → round o watermark fuel src m ≡ r
            → RoundMoves o published watermark lo src m r
            → RoundLeaves o published rings t0 watermark src m r
            → ((src' : Source) (m' : Pass W)
                → HasCursor src'.ring m'
                → HasWait src'.ring m'
                → IsSound published src'
                → IsFrom published lo src'
                → t0 ≤ m'.time
                → Reaches o published rings t0 src'.ring src'.stop
                → next_stamp o watermark fuel src' m' ≡ some out
                → Leaves o published rings t0 watermark src' m' out)
            → Leaves o published rings t0 watermark src m out
        go (found src' m') er h f next =
            let p : (true, src', m') ≡ out = (let z = rw (next_stamp, er) at e in cc) in
            rw (sym p) f
        go (ended src' m') er h f next =
            let p : (false, src', m') ≡ out = (let z = rw (next_stamp, er) at e in cc) in
            rw (sym p) f
        go (refilled src' m') er h f next =
            let z : next_stamp o watermark fuel src' m' ≡ some out = rw (next_stamp, er) at e in
            let later = f.later in
            Leaves-after o published rings t0 watermark src src' m m' out f (
              next src' m'
                (HasCursor-after o published rings watermark lo src.ring src'.ring m m' h.same_ring
                  h.size has)
                (HasWait-after src.ring src'.ring m m' h.same_ring f.size has') h.sound h.from
                (omega (arith, since, later)) f.reach z)
        go unfinished er h f next = absurd (let z = rw (next_stamp, er) at e in cc)
