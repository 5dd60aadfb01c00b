-- ===== src/Merge/Stamps.antt =====
-- `next_stamp` of include/slick/perfmon/collector.hpp: what it feeds to the pairer, and where it
-- leaves a source.
use slick_perfmon.Prelude.{
  ℕ, zero, suc, ◌+◌, ◌≡◌, refl, sym, ◌∙◌, arith, Bool, true, false, ltb, Bool-cases, inl, inr,
  Option, none, some, List, [], ◌∷◌, length, length-set,
}
use slick_perfmon.Event.{Sample, is_value_event}
use slick_perfmon.Merge.{
  Source, Outside, Pass, Round, found, ended, refilled, unfinished, pass_values, move_cursor,
  after_values, round, next_stamp,
}
use slick_perfmon.Merge.Feeding.{
  IsStamp, Feeds, Feeds-trans, IsRings, IsPart, IsSound, IsLater, IsFrom, HasCursor, Moves,
  IsPart-next, IsLater-next, nothing, a_value,
}
use slick_perfmon.Merge.Refills.{RoundMoves, refill-Moves}

-- What the loop over the values leaves of a chunk.
pub record Passes {W : Type 0} (o : Outside W) (published : ℕ → ℕ → Sample) (watermark lo : ℕ)
    (r : Option ℕ) (base : ℕ) (m : Pass W) (out : List Sample × ℕ × Pass W) : Type 0 where
  pub sound : IsPart published r (base + out.1) out.0
  from : IsLater published lo r (base + out.1) out.0
  pub stops : (s : Sample) (rest : List Sample) → out.0 ≡ s ∷ rest → IsStamp s
  pub size : length out.2.cursors ≡ length m.cursors
  fed : Feeds o watermark lo m.world lo out.2.world

pub pass_values-Passes :
    {W : Type 0} (o : Outside W) (published : ℕ → ℕ → Sample) (watermark lo : ℕ) (r : Option ℕ)
    (base : ℕ) (slots : List Sample) (pos : ℕ) (m : Pass W)
    → IsPart published r (base + pos) slots
    → IsLater published lo r (base + pos) slots
    → Passes o published watermark lo r base m (pass_values o slots pos m)
unfolding pass_values
pass_values-Passes o published watermark lo r base [] pos m a b = record {
  sound = a;
  from = b;
  stops = λ s rest e. absurd (cc);
  size = refl;
  fed = nothing;
}
pass_values-Passes o published watermark lo r base (s ∷ rest) pos m a b =
    elim (Bool-cases (is_value_event s.event)) [
      | inr stamp ↦ rw stamp (record {
        sound = a;
        from = b;
        stops = λ x xs e. let h : s ≡ x = cc in rw h at stamp;
        size = refl;
        fed = nothing;
      })
      | inl is ↦
          let n : base + (pos + 1) ≡ suc (base + pos) = omega arith in
          let p =
            pass_values-Passes o published watermark lo r base rest (pos + 1)
              (record m { world = o.on_event s m.world; progressed = true })
              (rw n (IsPart-next published r (base + pos) s rest a))
              (rw n (IsLater-next published lo r (base + pos) s rest b)) in
          rw is (record {
            sound = p.sound;
            from = p.from;
            stops = p.stops;
            size = p.size;
            fed =
                Feeds-trans o watermark lo lo m.world (o.on_event s m.world) lo _
                  (a_value s nothing is) p.fed;
          })
    ]

module _ {W : Type 0} (o : Outside W) (published : ℕ → ℕ → Sample) (rings : IsRings o published)
    (watermark lo : ℕ) where
  after_values-Moves :
      (fuel : ℕ) (rest : List Sample) (src : Source) (m : Pass W)
      → src.slots ≡ rest
      → ((s : Sample) (xs : List Sample) → rest ≡ s ∷ xs → IsStamp s)
      → HasCursor src.ring m
      → IsSound published src
      → IsFrom published lo src
      → RoundMoves o published watermark lo src m
          (after_values o watermark fuel rest src.ring src m)
  unfolding after_values move_cursor
  after_values-Moves fuel rest src m e stops has sound from = go rest src.ring e refl
    where
      stays : Moves o published watermark lo src m (false, src, m)
      stays = record {
        same_ring = refl;
        size = refl;
        sound = sound;
        from = from;
        ready = λ no. absurd (cc);
        fed = nothing;
      }

      found_it :
          (s : Sample) (xs : List Sample)
          → src.slots ≡ s ∷ xs
          → ltb s.timestamp watermark ≡ true
          → Moves o published watermark lo src m (true, src, m)
      found_it s xs es below = record {
        same_ring = refl;
        size = refl;
        sound = sound;
        from = from;
        ready = λ yes. rw es (stops s xs (sym e ∙ es), ground (arith, below));
        fed = nothing;
      }

      go :
          (xs : List Sample) (r : Option ℕ)
          → src.slots ≡ xs
          → src.ring ≡ r
          → RoundMoves o published watermark lo src m (after_values o watermark fuel xs r src m)
      go (s ∷ xs) none es er = elim (Bool-cases (ltb s.timestamp watermark)) [
        | inl below ↦ rw below (found_it s xs es below)
        | inr past ↦ rw past stays
      ]
      go (s ∷ xs) (some i) es er = elim (Bool-cases (ltb s.timestamp watermark)) [
        | inl below ↦ rw below (found_it s xs es below)
        | inr past ↦
            rw (past, move_cursor)
              (record {
                same_ring = refl;
                size = length-set m.cursors i (src.base + src.pos);
                sound = sound;
                from = from;
                ready = λ no. absurd (cc);
                fed = nothing;
              })
      ]
      go [] none es er = stays
      go [] (some i) es er =
          refill-Moves o published rings watermark lo fuel i src m er es (rw er at has) from

  Moves-after :
      (src src1 : Source) (m m1 : Pass W) (out : Bool × Source × Pass W)
      → src1.ring ≡ src.ring
      → length m1.cursors ≡ length m.cursors
      → Feeds o watermark lo m.world lo m1.world
      → Moves o published watermark lo src1 m1 out
      → Moves o published watermark lo src m out
  Moves-after src src1 m m1 out r n f h = record {
    same_ring = h.same_ring ∙ r;
    size = h.size ∙ n;
    sound = h.sound;
    from = h.from;
    ready = h.ready;
    fed = Feeds-trans o watermark lo lo m.world m1.world lo out.2.world f h.fed;
  }

  RoundMoves-after :
      (src src1 : Source) (m m1 : Pass W) (out : Round W)
      → src1.ring ≡ src.ring
      → length m1.cursors ≡ length m.cursors
      → Feeds o watermark lo m.world lo m1.world
      → RoundMoves o published watermark lo src1 m1 out
      → RoundMoves o published watermark lo src m out
  RoundMoves-after src src1 m m1 (found s x) r n f h =
      Moves-after src src1 m m1 (true, s, x) r n f h
  RoundMoves-after src src1 m m1 (ended s x) r n f h =
      Moves-after src src1 m m1 (false, s, x) r n f h
  RoundMoves-after src src1 m m1 (refilled s x) r n f h =
      Moves-after src src1 m m1 (false, s, x) r n f h
  RoundMoves-after src src1 m m1 unfinished r n f h = tt

  pub HasCursor-after :
      (r r' : Option ℕ) (m m' : Pass W)
      → r' ≡ r
      → length m'.cursors ≡ length m.cursors
      → HasCursor r m
      → HasCursor r' m'
  HasCursor-after none r' m m' e n h = rw e tt
  HasCursor-after (some i) r' m m' e n h = rw (e, n) h

  pub round-Moves :
      (fuel : ℕ) (src : Source) (m : Pass W)
      → HasCursor src.ring m
      → IsSound published src
      → IsFrom published lo src
      → RoundMoves o published watermark lo src m (round o watermark fuel src m)
  unfolding round
  round-Moves fuel src m has sound from =
      let p =
        pass_values-Passes o published watermark lo src.ring src.base src.slots src.pos m sound
          from in
      let (rest, pos, m1) = pass_values o src.slots src.pos m in
      let src1 : Source = record src { slots = rest; pos = pos } in
      RoundMoves-after src src1 m m1 _ refl p.size p.fed (
        after_values-Moves fuel rest src1 m1 refl p.stops
          (HasCursor-after src.ring src.ring m m1 refl p.size has) p.sound p.from)

  -- Where a call of `next_stamp` returns, for a source whose ring has a cursor, whose chunk is a
  -- part of what the ring's thread published (or of the stage, in order of time), and whose stamps
  -- from there on are no earlier than `lo`: the same holds of the source after it; if the call
  -- says that there is more then the source stands on a stamp before the watermark; and nothing
  -- but values was fed to the pairer.
  pub next_stamp-Moves :
      (fuel : ℕ) (src : Source) (m : Pass W) (out : Bool × Source × Pass W)
      → HasCursor src.ring m
      → IsSound published src
      → IsFrom published lo src
      → next_stamp o watermark fuel src m ≡ some out
      → Moves o published watermark lo src m out
  unfolding next_stamp
  next_stamp-Moves zero src m out has sound from e = absurd (cc)
  next_stamp-Moves (suc fuel) src m out has sound from e =
      go (round o watermark fuel src m) refl (round-Moves fuel src m has sound from)
        λ src' m'. next_stamp-Moves fuel src' m' out
    where
      go :
          (r : Round W)
          → round o watermark fuel src m ≡ r
          → RoundMoves o published watermark lo src m r
          → ((src' : Source) (m' : Pass W)
              → HasCursor src'.ring m'
              → IsSound published src'
              → IsFrom published lo src'
              → next_stamp o watermark fuel src' m' ≡ some out
              → Moves o published watermark lo src' m' out)
          → Moves o published watermark lo src m out
      go (found src' m') er h next =
          let p : (true, src', m') ≡ out = (let z = rw (next_stamp, er) at e in cc) in rw (sym p) h
      go (ended src' m') er h next =
          let p : (false, src', m') ≡ out = (let z = rw (next_stamp, er) at e in cc) in rw (sym p) h
      go (refilled src' m') er h next =
          let z : next_stamp o watermark fuel src' m' ≡ some out = rw (next_stamp, er) at e in
          Moves-after src src' m m' out h.same_ring h.size h.fed (
            next src' m' (HasCursor-after src.ring src'.ring m m' h.same_ring h.size has) h.sound
              h.from z)
      go unfinished er h next = absurd (let z = rw (next_stamp, er) at e in cc)
