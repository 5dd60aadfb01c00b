-- ===== src/Merge/Refills.antt =====
-- `next_stamp` of include/slick/perfmon/collector.hpp refills a chunk from its ring.
use slick_perfmon.Prelude.{
  ℕ, zero, suc, ◌+◌, ◌≤◌, ◌<◌, ◌≡◌, refl, sym, ap, ◌∙◌, arith, true, false, ◌==◌, Bool-cases, inl,
  inr, Option, none, some, List, [], ◌∷◌, length, get_or, get_or-set_self, length-set, set,
}
use slick_perfmon.Event.{Sample}
use slick_perfmon.Ring.{Read}
use slick_perfmon.Merge.{
  Source, Outside, Pass, Round, found, ended, refilled, unfinished, room_of, read_batch,
  move_cursor, with_stop, refill,
}
use slick_perfmon.Merge.Feeding.{StandsAt, IsRings, IsFrom, Moves, nothing}

record Reads {W : Type 0} (published : ℕ → ℕ → Sample) (i cursor : ℕ) (m : Pass W)
    (out : List Sample × Pass W) : Type 0 where
  stands : StandsAt (published i) (get_or out.1.cursors i 0) out.0
  onward : cursor ≤ get_or out.1.cursors i 0
  size : length out.1.cursors ≡ length m.cursors
  world : out.1.world ≡ m.world

read_batch-Reads :
    {W : Type 0} (o : Outside W) (published : ℕ → ℕ → Sample) (rings : IsRings o published)
    (i stop fuel : ℕ) (m : Pass W) (out : List Sample × Pass W)
    → i < length m.cursors
    → read_batch o i stop fuel m ≡ some out
    → Reads published i (get_or m.cursors i 0) m out
unfolding read_batch
read_batch-Reads o published rings i stop zero m out lt e = absurd (cc)
read_batch-Reads {W} o published rings i stop (suc fuel) m out lt e = go r.batch refl λ z.
    let l = length-set m.cursors i r.cursor in
    read_batch-Reads o published rings i stop fuel m1 out (omega (arith, l, lt)) z
  where
    c : ℕ
    c = get_or m.cursors i 0

    r : Read
    r = o.read i m.time c (room_of stop c) m.lost

    m1 : Pass W
    m1 = record m { cursors = set m.cursors i r.cursor; lost = r.lost; time = m.time + 1 }

    here : get_or m1.cursors i 0 ≡ r.cursor
    here = get_or-set_self m.cursors i r.cursor 0 lt

    made : (b : List Sample) → r.batch ≡ b → Reads published i c m (b, m1)
    made b eb = record {
      stands = rw (here, sym eb) (rings.holds i m.time c (room_of stop c) m.lost);
      onward = rw here (rings.onward i m.time c (room_of stop c) m.lost);
      size = length-set m.cursors i r.cursor;
      world = refl;
    }

    go :
        (b : List Sample)
        → r.batch ≡ b
        → (read_batch o i stop fuel m1 ≡ some out
            → Reads published i (get_or m1.cursors i 0) m1 out)
        → Reads published i c m out
    go [] eb again = elim (Bool-cases (r.cursor == c)) [
      | inl same ↦
          let p : ([], m1) ≡ out = (let z = rw (read_batch, eb, same) at e in cc) in
          rw (sym p) (made [] eb)
      | inr moved ↦
          let z : read_batch o i stop fuel m1 ≡ some out = rw (read_batch, eb, moved) at e in
          let l = length-set m.cursors i r.cursor in
          let f = again z in
          let up = rings.onward i m.time c (room_of stop c) m.lost in
          let up' = f.onward in
          record {
            stands = f.stands;
            onward = omega (arith, up, up', here);
            size = f.size ∙ l;
            world = f.world;
          }
    ]
    go (x ∷ xs) eb again =
        let p : (x ∷ xs, m1) ≡ out = (let z = rw (read_batch, eb) at e in cc) in
        rw (sym p) (made (x ∷ xs) eb)

-- What one round leaves.
abbrev pub RoundMoves :
    {W : Type 0} → Outside W → (ℕ → ℕ → Sample) → ℕ → ℕ → Source → Pass W → Round W → Type 0
RoundMoves o published watermark lo src m (found src' m') =
    Moves o published watermark lo src m (true, src', m')
RoundMoves o published watermark lo src m (ended src' m') =
    Moves o published watermark lo src m (false, src', m')
RoundMoves o published watermark lo src m (refilled src' m') =
    Moves o published watermark lo src m (false, src', m')
RoundMoves o published watermark lo src m unfinished = Unit

with_stop-keeps :
    {W : Type 0} (o : Outside W) (i : ℕ) (stop : Option ℕ) (m : Pass W)
    → ((with_stop o i stop m).1.cursors ≡ m.cursors) × ((with_stop o i stop m).1.world ≡ m.world)
unfolding with_stop
with_stop-keeps o i none m = (refl, refl)
with_stop-keeps o i (some stop) m = (refl, refl)

module _ {W : Type 0} (o : Outside W) (published : ℕ → ℕ → Sample) (rings : IsRings o published)
    (watermark lo : ℕ) where
  pub refill-Moves :
      (fuel i : ℕ) (src : Source) (m : Pass W)
      → src.ring ≡ some i
      → src.slots ≡ []
      → i < length m.cursors
      → IsFrom published lo src
      → RoundMoves o published watermark lo src m (refill o fuel i src m)
  unfolding refill move_cursor
  refill-Moves fuel i src m r none_left lt from = go (read_batch o i stopped.0 fuel stopped.1) refl
    where
      settled : Pass W
      settled = move_cursor i 0 src m

      stopped : ℕ × Pass W
      stopped = with_stop o i src.stop settled

      kept : (stopped.1.cursors ≡ settled.cursors) × (stopped.1.world ≡ settled.world)
      kept = with_stop-keeps o i src.stop settled

      size : length settled.cursors ≡ length m.cursors
      size = length-set m.cursors i (src.base + src.pos)

      here : get_or stopped.1.cursors i 0 ≡ src.base + src.pos
      here = rw (kept.0, move_cursor) (get_or-set_self m.cursors i (src.base + src.pos) 0 lt)

      reads :
          (out : List Sample × Pass W)
          → read_batch o i stopped.0 fuel stopped.1 ≡ some out
          → Reads published i (get_or stopped.1.cursors i 0) stopped.1 out
      reads out e =
          read_batch-Reads o published rings i stopped.0 fuel stopped.1 out (rw (kept.0, size) lt) e

      go :
          (out : Option (List Sample × Pass W))
          → read_batch o i stopped.0 fuel stopped.1 ≡ out
          → RoundMoves o published watermark lo src m (refill o fuel i src m)
      go none e = rw (refill, e) tt
      go (some ([], m')) e =
          let f = reads ([], m') e in
          rw (refill, e)
            (record {
              same_ring = refl;
              size = f.size ∙ ap length kept.0 ∙ size;
              sound = rw (r, none_left) tt;
              from = from;
              ready = λ no. absurd (cc);
              fed = rw (f.world, kept.1, move_cursor) nothing;
            })
      go (some (x ∷ xs, m')) e =
          let f = reads (x ∷ xs, m') e in
          let c : ℕ = get_or m'.cursors i 0 in
          let z : c + 0 ≡ c = omega arith in
          let up = f.onward in
          rw (refill, e)
            (record {
              same_ring = refl;
              size = f.size ∙ ap length kept.0 ∙ size;
              sound = rw (r, z) f.stands;
              from = rw (r, z) (λ k le. (rw r at from) k (omega (arith, le, up, here)));
              ready = λ no. absurd (cc);
              fed = rw (f.world, kept.1, move_cursor) nothing;
            })
