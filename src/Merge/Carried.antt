-- ===== src/Merge/Carried.antt =====
-- Where `next_stamp` of include/slick/perfmon/collector.hpp takes the samples of a source.
use slick_perfmon.Prelude.{
  ℕ, zero, suc, ◌+◌, ◌≤◌, ◌<◌, ◌≡◌, refl, sym, ap, ◌∙◌, arith, Bool, true, false, ltb, Bool-cases,
  inl, inr, Option, none, some, List, [], ◌∷◌, length, get_or,
}
use slick_perfmon.Event.{Sample}
use slick_perfmon.Merge.{
  Source, Outside, Pass, Round, found, ended, refilled, unfinished, pass_values, move_cursor,
  after_values, round, next_stamp,
}
use slick_perfmon.Merge.Feeding.{IsRings, HasCursor}
use slick_perfmon.Merge.Stamps.{HasCursor-after}
use slick_perfmon.Merge.Heads.{at}
use slick_perfmon.Merge.Ending.{pass_values-left}
use slick_perfmon.Merge.Outcome.{pass_values-keeps}
use slick_perfmon.Merge.Flow.{index, Goes-refl, FlowsTo, Passed, pass_values-Passed}
use slick_perfmon.Merge.Carrying.{
  IsBased-on, Stands, IsAtRest, Carries, Carries-after, RoundCarries, RoundCarries-after, MovesTo,
  move_cursor-MovesTo, refill-Carries,
}

-- There is a place for the stage and for each ring that has a cursor.
abbrev pub IsWide : {W : Type 0} → List ℕ → Pass W → Type 0
IsWide q m = length q ≡ suc (length m.cursors)

pub has_place :
    {W : Type 0} (r : Option ℕ) (q : List ℕ) (m : Pass W)
    → IsWide q m
    → HasCursor r m
    → index r < length q
has_place none q m wide has = omega (arith, wide)
has_place (some i) q m wide has = omega (arith, wide, has)

module _ {W : Type 0} (o : Outside W) (published : ℕ → ℕ → Sample) (stage : List Sample)
    (from : List ℕ) (lost : ℕ) (w : W) (rings : IsRings o published) (watermark : ℕ) where
  stage_IsAtRest :
      (q : List ℕ) (src : Source) (m : Pass W)
      → src.ring ≡ none
      → Stands o published stage from lost w q src
      → IsAtRest o published stage from lost w q src.ring src.pos m
  stage_IsAtRest q src m r h =
      let (based, within) : (src.base ≡ 0) × (src.pos + length src.slots ≤ length stage) =
        rw r at h.based in
      let here : get_or q 0 0 ≡ src.base + src.pos = rw r at h.here in
      rw r (omega (arith, here, based), omega (arith, within))

  ring_IsAtRest :
      (q : List ℕ) (src : Source) (i : ℕ) (m : Pass W)
      → src.ring ≡ some i
      → Stands o published stage from lost w q src
      → at i m ≡ src.base + src.pos
      → IsAtRest o published stage from lost w q src.ring src.pos m
  ring_IsAtRest q src i m r h e = rw r ((rw r at h.here) ∙ sym e)

  after_values-Carries :
      (fuel : ℕ) (rest : List Sample) (src : Source) (m : Pass W) (q : List ℕ)
      → src.slots ≡ rest
      → HasCursor src.ring m
      → IsWide q m
      → FlowsTo o published stage from lost w q m
      → Stands o published stage from lost w q src
      → RoundCarries o published stage from lost w src m q
          (after_values o watermark fuel rest src.ring src m)
  unfolding after_values
  after_values-Carries fuel rest src m q e has wide flow stands = go rest src.ring e refl
    where
      stays :
          (more : Bool)
          → (more ≡ false → IsAtRest o published stage from lost w q src.ring src.pos m)
          → Carries o published stage from lost w src m q (more, src, m)
      stays more rests = record {
        to = q;
        goes = Goes-refl (index src.ring) q;
        flow = flow;
        ring = refl;
        size = refl;
        apart = λ j ne. refl;
        stands = λ yes. stands;
        rests = rests;
      }

      no_ring : src.ring ≡ none → Carries o published stage from lost w src m q (false, src, m)
      no_ring er = stays false (λ over. stage_IsAtRest q src m er stands)

      left_at :
          (i wait : ℕ)
          → src.ring ≡ some i
          → MovesTo o published stage from lost w i
              (src.base + src.pos)
              m
              (move_cursor i wait src m)
          → Carries o published stage from lost w src m q (false, src, move_cursor i wait src m)
      left_at i wait er f = record {
        to = q;
        goes = Goes-refl (index src.ring) q;
        flow = rw (f.same_lost, f.same_world) flow;
        ring = refl;
        size = f.size;
        apart = λ j ne. f.apart j (λ same. ne (er ∙ ap some same));
        stands = λ no. absurd (cc);
        rests = λ over. ring_IsAtRest q src i (move_cursor i wait src m) er stands f.here;
      }

      go :
          (xs : List Sample) (r : Option ℕ)
          → src.slots ≡ xs
          → src.ring ≡ r
          → RoundCarries o published stage from lost w src m q
              (after_values o watermark fuel xs r src m)
      go (s ∷ xs) none es er = elim (Bool-cases (ltb s.timestamp watermark)) [
        | inl below ↦ rw below (stays true (λ no. absurd (cc)))
        | inr past ↦ rw past (no_ring er)
      ]
      go (s ∷ xs) (some i) es er = elim (Bool-cases (ltb s.timestamp watermark)) [
        | inl below ↦ rw below (stays true (λ no. absurd (cc)))
        | inr past ↦ rw past (
            left_at i s.timestamp er (
              move_cursor-MovesTo o published stage from lost w i s.timestamp src m (rw er at has)))
      ]
      go [] none es er = no_ring er
      go [] (some i) es er =
          refill-Carries o published stage from lost w rings fuel i src m q er (rw er at has)
            (has_place (some i) q m wide (rw er at has)) flow (rw er at stands.here)

  -- The values at the front of its chunk go to the pairer.
  carried_values :
      (src : Source) (m : Pass W) (q : List ℕ) (rest : List Sample) (pos : ℕ) (m1 : Pass W)
      → Passed o published stage from lost w (index src.ring) src.base q (rest, pos, m1)
      → m1.cursors ≡ m.cursors
      → pos + length rest ≡ src.pos + length src.slots
      → Stands o published stage from lost w q src
      → Carries o published stage from lost w src m q
          (true, record src { slots = rest; pos = pos }, m1)
  carried_values src m q rest pos m1 p c left stands = record {
    to = p.to;
    goes = p.goes;
    flow = p.flow;
    ring = refl;
    size = ap length c;
    apart = λ j ne. ap (λ (x : List ℕ). get_or x j 0) c;
    stands = λ more. record {
      here = p.here;
      part = p.part;
      based =
          IsBased-on o published stage from lost w src.ring src.base src.pos pos src.slots rest left
            stands.based;
    };
    rests = λ no. absurd (cc);
  }

  round-Carries :
      (fuel : ℕ) (src : Source) (m : Pass W) (q : List ℕ)
      → HasCursor src.ring m
      → IsWide q m
      → FlowsTo o published stage from lost w q m
      → Stands o published stage from lost w q src
      → RoundCarries o published stage from lost w src m q (round o watermark fuel src m)
  unfolding round
  round-Carries fuel src m q has wide flow stands =
      let p =
        pass_values-Passed o published stage from lost w (index src.ring) src.base src.slots src.pos
          m q (has_place src.ring q m wide has) flow stands.here stands.part in
      let (left, _, _) = pass_values-left o published rings src.slots src.pos m in
      let (c, _, _) = pass_values-keeps o published rings 0 watermark src.slots src.pos m in
      let (rest, pos, m1) = pass_values o src.slots src.pos m in
      let src1 : Source = record src { slots = rest; pos = pos } in
      let f = carried_values src m q rest pos m1 p c left stands in
      let n = f.goes.size in
      let n' = f.size in
      RoundCarries-after o published stage from lost w src src1 m m1 q _ f (
        after_values-Carries fuel rest src1 m1 f.to refl
          (HasCursor-after o published rings watermark 0 src.ring src.ring m m1 refl n' has)
          (omega (arith, wide, n, n')) f.flow (f.stands refl))

  pub next_stamp-Carries :
      (fuel : ℕ) (src : Source) (m : Pass W) (q : List ℕ) (out : Bool × Source × Pass W)
      → HasCursor src.ring m
      → IsWide q m
      → FlowsTo o published stage from lost w q m
      → Stands o published stage from lost w q src
      → next_stamp o watermark fuel src m ≡ some out
      → Carries o published stage from lost w src m q out
  unfolding next_stamp
  next_stamp-Carries zero src m q out has wide flow stands e = absurd (cc)
  next_stamp-Carries (suc fuel) src m q out has wide flow stands e =
      go (round o watermark fuel src m) refl (round-Carries fuel src m q has wide flow stands)
        λ src' m' q'. next_stamp-Carries fuel src' m' q' out
    where
      go :
          (r : Round W)
          → round o watermark fuel src m ≡ r
          → RoundCarries o published stage from lost w src m q r
          → ((src' : Source) (m' : Pass W) (q' : List ℕ)
              → HasCursor src'.ring m'
              → IsWide q' m'
              → FlowsTo o published stage from lost w q' m'
              → Stands o published stage from lost w q' src'
              → next_stamp o watermark fuel src' m' ≡ some out
              → Carries o published stage from lost w src' m' q' out)
          → Carries o published stage from lost w src m q out
      go (found src' m') er f next =
          let p : (true, src', m') ≡ out = (let z = rw (next_stamp, er) at e in cc) in rw (sym p) f
      go (ended src' m') er f next =
          let p : (false, src', m') ≡ out = (let z = rw (next_stamp, er) at e in cc) in rw (sym p) f
      go (refilled src' m') er f next =
          let z : next_stamp o watermark fuel src' m' ≡ some out = rw (next_stamp, er) at e in
          let n = f.size in
          let n' = f.goes.size in
          Carries-after o published stage from lost w src src' m m' q out f (
            next src' m' f.to
              (HasCursor-after o published rings watermark 0 src.ring src'.ring m m' f.ring n has)
              (omega (arith, wide, n, n')) f.flow (f.stands refl) z)
      go unfinished er f next = absurd (let z = rw (next_stamp, er) at e in cc)
