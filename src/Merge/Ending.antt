-- ===== src/Merge/Ending.antt =====
-- `next_stamp` of include/slick/perfmon/collector.hpp comes to an end, however fast the producers
-- publish: a pass reads no further than the heads it found, but for one last chunk.
use slick_perfmon.Prelude.{
  ℕ, zero, suc, ◌+◌, ◌-◌, ◌*◌, ◌≤◌, ◌<◌, ◌≡◌, refl, ap, ◌∙◌, arith, Bool, true, false, ltb,
  Bool-cases, inl, inr, Option, none, some, List, [], ◌∷◌, length, get_or, get_or-set_self,
  length-set,
}
use slick_perfmon.Event.{Sample, is_value_event}
use slick_perfmon.Merge.{
  Source, Outside, Pass, Round, found, ended, refilled, unfinished, pass_values, read_batch,
  move_cursor, with_stop, refill, after_values, round, next_stamp,
}
use slick_perfmon.Merge.Feeding.{IsRings, HasCursor, IsSound, IsFrom, Moves}
use slick_perfmon.Merge.Stamps.{HasCursor-after, next_stamp-Moves}
use slick_perfmon.Merge.Reading.{stop_or, left_of, Comes, read_batch-Comes}

module _ {W : Type 0} (o : Outside W) (published : ℕ → ℕ → Sample)
    (rings : IsRings o published) where
  -- How a round ends, for a source with `most` left: it does not run out of fuel, and a refill takes
  -- from what is left.
  abbrev Ends : ℕ → ℕ → Source → Pass W → Round W → Type 0
  Ends limit most src m (found src' m') =
      (left_of limit src' ≤ most) × (length m'.cursors ≡ length m.cursors)
  Ends limit most src m (ended src' m') =
      (left_of limit src' ≤ most) × (length m'.cursors ≡ length m.cursors)
  Ends limit most src m (refilled src' m') =
      (left_of limit src' < most) × (length m'.cursors ≡ length m.cursors) × (src'.ring ≡ src.ring)
  Ends limit most src m unfinished = ⊥

  pub pass_values-left :
      (slots : List Sample) (pos : ℕ) (m : Pass W)
      → ((pass_values o slots pos m).1 + length (pass_values o slots pos m).0 ≡ pos + length slots)
        × (length (pass_values o slots pos m).2.cursors ≡ length m.cursors)
        × (length (pass_values o slots pos m).0 ≤ length slots)
  unfolding pass_values
  pass_values-left [] pos m = (refl, refl, omega arith)
  pass_values-left (s ∷ rest) pos m = elim (Bool-cases (is_value_event s.event)) [
    | inr stamp ↦ rw stamp (refl, refl, omega arith)
    | inl is ↦
        let (a, b, c) =
          pass_values-left rest (pos + 1)
            (record m { world = o.on_event s m.world; progressed = true }) in
        rw is (omega (arith, a), b, omega (arith, c))
  ]

  module _ (limit watermark : ℕ) (heads : (i t : ℕ) → o.head i t ≤ limit) where
    with_stop_lem :
        (i : ℕ) (stop : Option ℕ) (m : Pass W)
        → ((with_stop o i stop m).0 ≤ stop_or limit stop)
          × ((with_stop o i stop m).1.cursors ≡ m.cursors)
    unfolding with_stop
    with_stop_lem i none m = (heads i m.time, refl)
    with_stop_lem i (some stop) m = (omega arith, refl)

    refill-Ends :
        (fuel i most : ℕ) (src : Source) (m : Pass W)
        → src.slots ≡ []
        → i < length m.cursors
        → left_of limit src ≤ most
        → most < fuel
        → Ends limit most src m (refill o fuel i src m)
    unfolding refill move_cursor
    refill-Ends fuel i most src m es lt le enough =
        go comes.out.0 comes.out.1 comes.returns comes.size comes.shrinks
      where
        settled : Pass W
        settled = move_cursor i 0 src m

        stopped : ℕ × Pass W
        stopped = with_stop o i src.stop settled

        kept : (stopped.0 ≤ stop_or limit src.stop) × (stopped.1.cursors ≡ settled.cursors)
        kept = with_stop_lem i src.stop settled

        size : length stopped.1.cursors ≡ length m.cursors
        size = ap length kept.1 ∙ length-set m.cursors i (src.base + src.pos)

        here : get_or stopped.1.cursors i 0 ≡ src.base + src.pos
        here = rw (kept.1, move_cursor) (get_or-set_self m.cursors i (src.base + src.pos) 0 lt)

        none_left : length src.slots ≡ 0
        none_left = ap length es

        comes :
            Comes i stopped.0
              (get_or stopped.1.cursors i 0)
              stopped.1
              (read_batch o i stopped.0 fuel stopped.1)
        comes =
            read_batch-Comes o published rings i stopped.0 fuel stopped.1 (omega (arith, size, lt))
              (omega (arith, here, kept.0, none_left, le, enough))

        go :
            (batch : List Sample) (m' : Pass W)
            → read_batch o i stopped.0 fuel stopped.1 ≡ some (batch, m')
            → length m'.cursors ≡ length stopped.1.cursors
            → (0 < length batch
                → length batch + 2 * (stopped.0 - (get_or m'.cursors i 0 + length batch))
                  < 2 * (stopped.0 - get_or stopped.1.cursors i 0))
            → Ends limit most src m (refill o fuel i src m)
        go [] m' e n shrinks = rw (refill, e) (omega (arith, none_left, kept.0, le), n ∙ size)
        go (x ∷ xs) m' e n shrinks =
            let less = shrinks (omega arith) in
            rw (refill, e) (omega (arith, none_left, kept.0, le, here, less), n ∙ size, refl)

    after_values-Ends :
        (fuel most : ℕ) (rest : List Sample) (src : Source) (m : Pass W)
        → src.slots ≡ rest
        → HasCursor src.ring m
        → left_of limit src ≤ most
        → most < fuel
        → Ends limit most src m (after_values o watermark fuel rest src.ring src m)
    unfolding after_values move_cursor
    after_values-Ends fuel most rest src m e has le enough = go rest src.ring e refl
      where
        go :
            (xs : List Sample) (r : Option ℕ)
            → src.slots ≡ xs
            → src.ring ≡ r
            → Ends limit most src m (after_values o watermark fuel xs r src m)
        go (s ∷ xs) none es er = elim (Bool-cases (ltb s.timestamp watermark)) [
          | inl below ↦ rw below (le, refl)
          | inr past ↦ rw past (le, refl)
        ]
        go (s ∷ xs) (some i) es er = elim (Bool-cases (ltb s.timestamp watermark)) [
          | inl below ↦ rw below (le, refl)
          | inr past ↦ rw (past, move_cursor) (le, length-set m.cursors i (src.base + src.pos))
        ]
        go [] none es er = (le, refl)
        go [] (some i) es er = refill-Ends fuel i most src m es (rw er at has) le enough

    Ends-after :
        (most : ℕ) (src src1 : Source) (m m1 : Pass W) (r : Round W)
        → src1.ring ≡ src.ring
        → length m1.cursors ≡ length m.cursors
        → Ends limit most src1 m1 r
        → Ends limit most src m r
    Ends-after most src src1 m m1 (found s x) e n (le, k) = (le, k ∙ n)
    Ends-after most src src1 m m1 (ended s x) e n (le, k) = (le, k ∙ n)
    Ends-after most src src1 m m1 (refilled s x) e n (lt, k, i) = (lt, k ∙ n, i ∙ e)
    Ends-after most src src1 m m1 unfinished e n h = h

    round-Ends :
        (fuel most : ℕ) (src : Source) (m : Pass W)
        → HasCursor src.ring m
        → left_of limit src ≤ most
        → most < fuel
        → Ends limit most src m (round o watermark fuel src m)
    unfolding round
    round-Ends fuel most src m has le enough =
        let (n, size, fewer) = pass_values-left src.slots src.pos m in
        let (rest, pos, m1) = pass_values o src.slots src.pos m in
        let src1 : Source = record src { slots = rest; pos = pos } in
        Ends-after most src src1 m m1 _ refl size (
          after_values-Ends fuel most rest src1 m1 refl
            (HasCursor-after o published rings watermark 0 src.ring src.ring m m1 refl size has)
            (omega (arith, n, fewer, le)) enough)

    -- It returns, with no more left than before.
    pub record Returns (src : Source) (m : Pass W) (r : Option (Bool × Source × Pass W))
        : Type 0 where
      pub out : Bool × Source × Pass W
      pub returns : r ≡ some out
      pub less : left_of limit out.1 ≤ left_of limit src

    pub next_stamp-Returns :
        (fuel : ℕ) (src : Source) (m : Pass W)
        → HasCursor src.ring m
        → left_of limit src + 2 ≤ fuel
        → Returns src m (next_stamp o watermark fuel src m)
    unfolding next_stamp
    next_stamp-Returns zero src m has enough = absurd (omega (arith, enough))
    next_stamp-Returns (suc fuel) src m has enough =
        go (round o watermark fuel src m) refl
          (round-Ends fuel (left_of limit src) src m has (omega arith) (omega (arith, enough)))
          λ src' m'. next_stamp-Returns fuel src' m'
      where
        go :
            (r : Round W)
            → round o watermark fuel src m ≡ r
            → Ends limit (left_of limit src) src m r
            → ((src' : Source) (m' : Pass W)
                → HasCursor src'.ring m'
                → left_of limit src' + 2 ≤ fuel
                → Returns src' m' (next_stamp o watermark fuel src' m'))
            → Returns src m (next_stamp o watermark (suc fuel) src m)
        go (found src' m') e (le, n) again =
            rw (next_stamp, e) (record { out = (true, src', m'); returns = refl; less = le })
        go (ended src' m') e (le, n) again =
            rw (next_stamp, e) (record { out = (false, src', m'); returns = refl; less = le })
        go (refilled src' m') e (lt, n, r) again =
            let f =
              again src' m'
                (HasCursor-after o published rings watermark 0 src.ring src'.ring m m' r n has)
                (omega (arith, lt, enough)) in
            let less = f.less in
            rw (next_stamp, e)
              (record { out = f.out; returns = f.returns; less = omega (arith, less, lt) })
        go unfinished e h again = absurd h

    -- For a source whose ring has a cursor, whose chunk is a part of what the ring's thread
    -- published (or of the stage, in the order of time) and whose stamps from there on are no
    -- earlier than `lo`, with heads that are not past a limit, and as fuel two more than what the
    -- source can still give up to the limit: `next_stamp` returns, and the source can give no more
    -- than before. Its chunk is a part of what was published again, and has no stamp before `lo`; if
    -- the call says that there is more, then the source stands on a stamp before the watermark. The
    -- pairer was fed in the order of time, and its last stamp is still at `lo`.
    pub next_stamp-stops :
        (lo fuel : ℕ) (src : Source) (m : Pass W)
        → HasCursor src.ring m
        → IsSound published src
        → IsFrom published lo src
        → left_of limit src + 2 ≤ fuel
        → (out : Bool × Source × Pass W) × (next_stamp o watermark fuel src m ≡ some out)
          × (left_of limit out.1 ≤ left_of limit src)
          × Moves o published watermark lo src m out
    next_stamp-stops lo fuel src m has sound from enough =
        let f = next_stamp-Returns fuel src m has enough in
        (
          f.out,
          f.returns,
          f.less,
          next_stamp-Moves o published rings watermark lo fuel src m f.out has sound from f.returns,
        )
