-- ===== src/Merge/Spending.antt =====
-- What a refill in `next_stamp` of include/slick/perfmon/collector.hpp leaves of the rings, and the
-- end of a round.
use slick_perfmon.Prelude.{
  ℕ, ◌+◌, ◌≤◌, ◌<◌, ◌≡◌, refl, sym, ap, ◌∙◌, arith, true, false, ltb, Bool-cases, inl, inr, Option,
  none, some, List, [], ◌∷◌, length, get_or,
}
use slick_perfmon.Event.{Sample}
use slick_perfmon.Merge.{
  Source, Outside, Pass, Round, found, ended, refilled, unfinished, read_batch, move_cursor,
  with_stop, refill, after_values,
}
use slick_perfmon.Merge.Feeding.{IsStamp, IsRings, IsSound, HasCursor}
use slick_perfmon.Merge.Heads.{at, Gets, read_batch-Gets, Reaches, Loads, with_stop-Loads}
use slick_perfmon.Merge.Spent.{
  HasWait, Leaves, Leaves-after, Moved, Moved-Leaves, move_cursor-Moved, length-cursors_moved,
  waits_moved,
}

module _ {W : Type 0} (o : Outside W) (published : ℕ → ℕ → Sample) (rings : IsRings o published)
    (t0 watermark : ℕ) where
  -- What one round leaves.
  abbrev pub RoundLeaves : Source → Pass W → Round W → Type 0
  RoundLeaves src m (found src' m') = Leaves o published rings t0 watermark src m (true, src', m')
  RoundLeaves src m (ended src' m') = Leaves o published rings t0 watermark src m (false, src', m')
  RoundLeaves src m (refilled src' m') =
      Leaves o published rings t0 watermark src m (true, src', m')
  RoundLeaves src m unfinished = Unit

  pub RoundLeaves-after :
      (src src1 : Source) (m m1 : Pass W) (r : Round W)
      → Leaves o published rings t0 watermark src m (true, src1, m1)
      → RoundLeaves src1 m1 r
      → RoundLeaves src m r
  RoundLeaves-after src src1 m m1 (found s x) f g =
      Leaves-after o published rings t0 watermark src src1 m m1 (true, s, x) f g
  RoundLeaves-after src src1 m m1 (ended s x) f g =
      Leaves-after o published rings t0 watermark src src1 m m1 (false, s, x) f g
  RoundLeaves-after src src1 m m1 (refilled s x) f g =
      Leaves-after o published rings t0 watermark src src1 m m1 (true, s, x) f g
  RoundLeaves-after src src1 m m1 unfinished f g = tt

  refill-Leaves :
      (fuel i : ℕ) (src : Source) (m : Pass W)
      → src.ring ≡ some i
      → i < length m.cursors
      → i < length m.waits
      → t0 ≤ m.time
      → Reaches o published rings t0 (some i) src.stop
      → RoundLeaves src m (refill o fuel i src m)
  unfolding refill
  refill-Leaves fuel i src m r lt lt' since reach =
      go (read_batch o i stopped.0 fuel stopped.1) refl
    where
      settled : Pass W
      settled = move_cursor i 0 src m

      stopped : ℕ × Pass W
      stopped = with_stop o i src.stop settled

      moved : (at i settled ≡ src.base + src.pos) × Moved o published rings t0 watermark i m settled
      moved =
          move_cursor-Moved o published rings t0 watermark i 0 src m lt lt'
            (λ no. absurd (omega (arith, no)))

      since' : t0 ≤ settled.time
      since' = let later = moved.1.later in omega (arith, since, later)

      loads : Loads o published rings t0 i settled stopped
      loads = with_stop-Loads o published rings t0 i src.stop settled since' reach

      gets :
          (out : List Sample × Pass W)
          → read_batch o i stopped.0 fuel stopped.1 ≡ some out
          → Gets o published rings t0 i stopped.1 out
      gets out e =
          let later = loads.later in
          let n : length stopped.1.cursors ≡ length m.cursors =
            ap length loads.cursors
            ∙ length-cursors_moved o published rings t0 watermark i 0 src m in
          read_batch-Gets o published rings t0 i stopped.0 fuel stopped.1 out (omega (arith, lt, n))
            (omega (arith, since', later)) loads.reach e

      read :
          (out : List Sample × Pass W)
          → Gets o published rings t0 i stopped.1 out
          → Moved o published rings t0 watermark i m out.1
      read out g =
          let a = moved.1.later in
          let b = loads.later in
          let c = g.later in
          let waits : out.1.waits ≡ settled.waits = g.waits ∙ loads.waits in
          let none_now : get_or out.1.waits i 0 ≡ 0 =
            ap (λ (w : List ℕ). get_or w i 0) waits
            ∙ waits_moved o published rings t0 watermark i 0 src m lt' in
          record {
            size = ap length waits ∙ moved.1.size;
            later = omega (arith, a, b, c);
            others = λ j ne. (
              g.others j ne
                  ∙ ap (λ (x : List ℕ). get_or x j 0) loads.cursors
                  ∙ (moved.1.others j ne).0,
              ap (λ (w : List ℕ). get_or w j 0) waits ∙ (moved.1.others j ne).1,
            );
            waiting = λ pos. absurd (omega (arith, pos, none_now));
          }

      go :
          (out : Option (List Sample × Pass W))
          → read_batch o i stopped.0 fuel stopped.1 ≡ out
          → RoundLeaves src m (refill o fuel i src m)
      go none e = rw (refill, e) tt
      go (some ([], m')) e =
          let g = gets ([], m') e in
          rw (refill, e)
            (Moved-Leaves o published rings t0 watermark i false src
              (record src { stop = some stopped.0 }) m m' r r loads.reach (read ([], m') g)
              (λ over. inl (g.spent refl)))
      go (some (x ∷ xs, m')) e =
          let g = gets (x ∷ xs, m') e in
          rw (refill, e)
            (Moved-Leaves o published rings t0 watermark i true src _ m m' r r loads.reach
              (read (x ∷ xs, m') g) (λ no. absurd (cc)))

  -- What is known of a chunk when the loop over its values is over.
  pub after_values-Leaves :
      (fuel : ℕ) (rest : List Sample) (src : Source) (m : Pass W)
      → src.slots ≡ rest
      → ((s : Sample) (xs : List Sample) → rest ≡ s ∷ xs → IsStamp s)
      → HasCursor src.ring m
      → HasWait src.ring m
      → IsSound published src
      → t0 ≤ m.time
      → Reaches o published rings t0 src.ring src.stop
      → RoundLeaves src m (after_values o watermark fuel rest src.ring src m)
  unfolding after_values
  after_values-Leaves fuel rest src m e stops has has' sound since reach = go rest src.ring e refl
    where
      stays : Leaves o published rings t0 watermark src m (true, src, m)
      stays = record {
        size = refl;
        later = omega arith;
        reach = reach;
        waiting = λ j w. w;
        fate = λ j k. elim k [ inl caught ↦ inl caught | inr mine ↦ inr (refl, mine) ];
      }

      no_ring : src.ring ≡ none → Leaves o published rings t0 watermark src m (false, src, m)
      no_ring er = record {
        size = refl;
        later = omega arith;
        reach = reach;
        waiting = λ j w. w;
        fate = λ j k. elim k [
          | inl caught ↦ inl caught
          | inr mine ↦ absurd (let z : none ≡ some j = sym er ∙ mine in cc)
        ];
      }

      go :
          (xs : List Sample) (r : Option ℕ)
          → src.slots ≡ xs
          → src.ring ≡ r
          → RoundLeaves src m (after_values o watermark fuel xs r src m)
      go (s ∷ xs) none es er = elim (Bool-cases (ltb s.timestamp watermark)) [
        | inl below ↦ rw below stays
        | inr past ↦ rw past (no_ring er)
      ]
      go (s ∷ xs) (some i) es er = elim (Bool-cases (ltb s.timestamp watermark)) [
        | inl below ↦ rw below stays
        | inr past ↦
            let h : published i (src.base + src.pos) ≡ s = (rw (er, es) at sound).0 in
            let is = stops s xs (sym e ∙ es) in
            let (here, moved) =
              move_cursor-Moved o published rings t0 watermark i s.timestamp src m (rw er at has)
                (rw er at has') (λ pos. rw h (is, refl)) in
            rw past (
              Moved-Leaves o published rings t0 watermark i false src src m
                (move_cursor i s.timestamp src m) er er (rw er at reach) moved
                (λ over. inr (rw (here, h) (is, ground (arith, past)))))
      ]
      go [] none es er = no_ring er
      go [] (some i) es er =
          refill-Leaves fuel i src m er (rw er at has) (rw er at has') since (rw er at reach)
