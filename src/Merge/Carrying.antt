-- ===== src/Merge/Carrying.antt =====
-- What a refill in `next_stamp` of include/slick/perfmon/collector.hpp does to the place of a ring.
use slick_perfmon.Prelude.{
  ℕ, suc, ◌+◌, ◌≤◌, ◌<◌, ◌≡◌, refl, sym, ap, ◌∙◌, arith, Bool, true, false, Option, none, some,
  List, [], ◌∷◌, length, get_or, get_or-set_self, get_or-set_other, length-set,
}
use slick_perfmon.Event.{Sample}
use slick_perfmon.Merge.{
  Source, Outside, Pass, Round, found, ended, refilled, unfinished, read_batch, move_cursor,
  with_stop, refill,
}
use slick_perfmon.Merge.Feeding.{StandsAt, IsRings}
use slick_perfmon.Merge.Heads.{at}
use slick_perfmon.Merge.Flow.{index, given, Goes, Goes-trans, FlowsTo}
use slick_perfmon.Merge.Advancing.{ReadsOn, read_batch-ReadsOn}

module _ {W : Type 0} (o : Outside W) (published : ℕ → ℕ → Sample) (stage : List Sample)
    (from : List ℕ) (lost : ℕ) (w : W) where
  -- The stage's source starts at the front, and stays within the stage.
  abbrev pub IsBased : Option ℕ → ℕ → ℕ → List Sample → Type 0
  IsBased none base pos slots = (base ≡ 0) × (pos + length slots ≤ length stage)
  IsBased (some i) base pos slots = Unit

  pub IsBased-on :
      (r : Option ℕ) (base pos pos' : ℕ) (slots slots' : List Sample)
      → pos' + length slots' ≡ pos + length slots
      → IsBased r base pos slots
      → IsBased r base pos' slots'
  IsBased-on none base pos pos' slots slots' e (b, le) = (b, omega (arith, le, e))
  IsBased-on (some i) base pos pos' slots slots' e h = tt

  -- The source stands at its place, on samples that are next there.
  pub record Stands (q : List ℕ) (src : Source) : Type 0 where
    pub here : get_or q (index src.ring) 0 ≡ src.base + src.pos
    pub part : StandsAt (given published stage (index src.ring)) (src.base + src.pos) src.slots
    pub based : IsBased src.ring src.base src.pos src.slots

  ring_Stands :
      (i : ℕ) (q : List ℕ) (src : Source)
      → src.ring ≡ some i
      → get_or q (suc i) 0 ≡ src.base + src.pos
      → StandsAt (published i) (src.base + src.pos) src.slots
      → Stands q src
  ring_Stands i q src r here part = record { here = rw r here; part = rw r part; based = rw r tt }

  -- Where a source that has left the merge has come to.
  abbrev pub IsAtRest : List ℕ → Option ℕ → ℕ → Pass W → Type 0
  IsAtRest q none pos m = (get_or q 0 0 ≡ pos) × (pos ≤ length stage)
  IsAtRest q (some i) pos m = get_or q (suc i) 0 ≡ at i m

  -- What `next_stamp` does to the place of a source.
  pub record Carries (src : Source) (m : Pass W) (q : List ℕ) (out : Bool × Source × Pass W)
      : Type 0 where
    pub to : List ℕ
    pub goes : Goes (index src.ring) q to
    pub flow : FlowsTo o published stage from lost w to out.2
    pub ring : out.1.ring ≡ src.ring
    pub size : length out.2.cursors ≡ length m.cursors
    pub apart : (j : ℕ) → (src.ring ≡ some j → ⊥) → at j out.2 ≡ at j m
    pub stands : out.0 ≡ true → Stands to out.1
    pub rests : out.0 ≡ false → IsAtRest to out.1.ring out.1.pos out.2

  pub Carries-after :
      (src src1 : Source) (m m1 : Pass W) (q : List ℕ) (out : Bool × Source × Pass W)
      (f : Carries src m q (true, src1, m1))
      → Carries src1 m1 f.to out
      → Carries src m q out
  Carries-after src src1 m m1 q out f g = record {
    to = g.to;
    goes = Goes-trans (index src.ring) q f.to g.to f.goes (rw (ap index f.ring) at g.goes);
    flow = g.flow;
    ring = g.ring ∙ f.ring;
    size = g.size ∙ f.size;
    apart = λ j ne. g.apart j (λ e. ne (sym f.ring ∙ e)) ∙ f.apart j ne;
    stands = g.stands;
    rests = g.rests;
  }

  -- What one round does.
  abbrev pub RoundCarries : Source → Pass W → List ℕ → Round W → Type 0
  RoundCarries src m q (found src' m') = Carries src m q (true, src', m')
  RoundCarries src m q (ended src' m') = Carries src m q (false, src', m')
  RoundCarries src m q (refilled src' m') = Carries src m q (true, src', m')
  RoundCarries src m q unfinished = Unit

  pub RoundCarries-after :
      (src src1 : Source) (m m1 : Pass W) (q : List ℕ) (r : Round W)
      (f : Carries src m q (true, src1, m1))
      → RoundCarries src1 m1 f.to r
      → RoundCarries src m q r
  RoundCarries-after src src1 m m1 q (found s x) f g =
      Carries-after src src1 m m1 q (true, s, x) f g
  RoundCarries-after src src1 m m1 q (ended s x) f g =
      Carries-after src src1 m m1 q (false, s, x) f g
  RoundCarries-after src src1 m m1 q (refilled s x) f g =
      Carries-after src src1 m m1 q (true, s, x) f g
  RoundCarries-after src src1 m m1 q unfinished f g = tt

  -- Loading the head and moving the cursor feed nothing.
  with_stop-same :
      (i : ℕ) (stop : Option ℕ) (m : Pass W)
      → ((with_stop o i stop m).1.cursors ≡ m.cursors)
        × ((with_stop o i stop m).1.lost ≡ m.lost)
        × ((with_stop o i stop m).1.world ≡ m.world)
  unfolding with_stop
  with_stop-same i none m = (refl, refl, refl)
  with_stop-same i (some stop) m = (refl, refl, refl)

  pub record MovesTo (i p : ℕ) (m m' : Pass W) : Type 0 where
    pub size : length m'.cursors ≡ length m.cursors
    pub here : at i m' ≡ p
    pub apart : (j : ℕ) → (i ≡ j → ⊥) → at j m' ≡ at j m
    pub same_lost : m'.lost ≡ m.lost
    pub same_world : m'.world ≡ m.world

  pub move_cursor-MovesTo :
      (i wait : ℕ) (src : Source) (m : Pass W)
      → i < length m.cursors
      → MovesTo i (src.base + src.pos) m (move_cursor i wait src m)
  unfolding move_cursor
  move_cursor-MovesTo i wait src m lt = record {
    size = length-set m.cursors i (src.base + src.pos);
    here = get_or-set_self m.cursors i (src.base + src.pos) 0 lt;
    apart = λ j ne. get_or-set_other m.cursors i j (src.base + src.pos) 0 ne;
    same_lost = refl;
    same_world = refl;
  }

  pub refill-Carries :
      IsRings o published
      → (fuel i : ℕ) (src : Source) (m : Pass W) (q : List ℕ) → src.ring ≡ some i
      → i < length m.cursors
      → suc i < length q
      → FlowsTo o published stage from lost w q m
      → get_or q (suc i) 0 ≡ src.base + src.pos
      → RoundCarries src m q (refill o fuel i src m)
  unfolding refill
  refill-Carries rings fuel i src m q r lt lt' flow here =
      go (read_batch o i stopped.0 fuel stopped.1) refl
    where
      settled : Pass W
      settled = move_cursor i 0 src m

      moved : MovesTo i (src.base + src.pos) m settled
      moved = move_cursor-MovesTo i 0 src m lt

      stopped : ℕ × Pass W
      stopped = with_stop o i src.stop settled

      same :
          (stopped.1.cursors ≡ settled.cursors)
          × (stopped.1.lost ≡ settled.lost)
          × (stopped.1.world ≡ settled.world)
      same = with_stop-same i src.stop settled

      flow1 : FlowsTo o published stage from lost w q stopped.1
      flow1 = rw (same.1, same.2, moved.same_lost, moved.same_world) flow

      at_same : (j : ℕ) → at j stopped.1 ≡ at j settled
      at_same j = ap (λ (c : List ℕ). get_or c j 0) same.0

      reads :
          (out : List Sample × Pass W)
          → read_batch o i stopped.0 fuel stopped.1 ≡ some out
          → ReadsOn o published stage from lost w i q stopped.1 out
      reads out e =
          let n = moved.size in
          let n' = ap length same.0 in
          read_batch-ReadsOn o published stage from lost w rings i stopped.0 fuel stopped.1 q out
            (omega (arith, lt, n, n')) lt' flow1 (here ∙ sym (at_same i ∙ moved.here)) e

      carried :
          (more : Bool) (src' : Source) (m' : Pass W) (b : List Sample)
          (f : ReadsOn o published stage from lost w i q stopped.1 (b, m'))
          → src'.ring ≡ some i
          → (more ≡ true → Stands f.to src')
          → Carries src m q (more, src', m')
      carried more src' m' b f r' stands = record {
        to = f.to;
        goes = rw r f.goes;
        flow = f.flow;
        ring = r' ∙ sym r;
        size = f.size ∙ ap length same.0 ∙ moved.size;
        apart = λ j ne.
            (let ne' : i ≡ j → ⊥ = λ e. ne (r ∙ ap some e) in
              f.apart j ne' ∙ at_same j ∙ moved.apart j ne');
        stands = stands;
        rests = λ over. rw r' f.here;
      }

      go :
          (out : Option (List Sample × Pass W))
          → read_batch o i stopped.0 fuel stopped.1 ≡ out
          → RoundCarries src m q (refill o fuel i src m)
      go none e = rw (refill, e) tt
      go (some ([], m')) e =
          rw (refill, e)
            (carried false (record src { stop = some stopped.0 }) m' [] (reads ([], m') e) r
              (λ no. absurd (cc)))
      go (some (x ∷ xs, m')) e =
          let f = reads (x ∷ xs, m') e in
          let z : at i m' + 0 ≡ at i m' = omega arith in
          rw (refill, e)
            (carried true _ m' (x ∷ xs) f r
              λ more. ring_Stands i f.to _ r (f.here ∙ sym z) (rw z f.part))
