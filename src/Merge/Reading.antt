-- ===== src/Merge/Reading.antt =====
-- The loop around `ring_read` in `next_stamp` of include/slick/perfmon/collector.hpp comes to an end.
use mathlib.Core.Path.{subst}
use slick_perfmon.Prelude.{
  ℕ, zero, suc, ◌+◌, ◌-◌, ◌*◌, ◌≤◌, ◌<◌, ◌≡◌, refl, sym, ap, ◌∙◌, arith, leb, ◌==◌, Bool-cases, inl,
  inr, Option, none, some, List, [], ◌∷◌, length, get_or, get_or-set_self, length-set, set,
}
use slick_perfmon.Event.{Sample}
use slick_perfmon.Ring.{Read}
use slick_perfmon.Merge.{Source, Outside, Pass, room_of, read_batch}
use slick_perfmon.Merge.Feeding.{IsRings}

abbrev pub stop_or : ℕ → Option ℕ → ℕ
stop_or limit none = limit
stop_or limit (some stop) = stop

-- What a source can still give, where no head is past `limit`: the samples of its chunk, and twice
-- those up to where it stops.
abbrev pub left_of : ℕ → Source → ℕ
left_of limit src =
    length src.slots + 2 * (stop_or limit src.stop - (src.base + src.pos + length src.slots))

-- A read of a ring comes back, with a batch that takes from what is left.
pub record Comes {W : Type 0} (i stop cursor : ℕ) (m : Pass W) (r : Option (List Sample × Pass W))
    : Type 0 where
  pub out : List Sample × Pass W
  pub returns : r ≡ some out
  pub size : length out.1.cursors ≡ length m.cursors
  pub shrinks :
      0 < length out.0
      → length out.0 + 2 * (stop - (get_or out.1.cursors i 0 + length out.0)) < 2 * (stop - cursor)

room_of_lem : (stop cursor : ℕ) → room_of stop cursor ≤ stop - cursor
unfolding room_of
room_of_lem stop cursor = ground arith

no_room_left : (stop cursor : ℕ) → stop ≤ cursor → room_of stop cursor ≡ 0
unfolding room_of
no_room_left stop cursor le = ground (arith, le)

module _ {W : Type 0} (o : Outside W) (published : ℕ → ℕ → Sample)
    (rings : IsRings o published) where
  pub read_batch-Comes :
      (i stop fuel : ℕ) (m : Pass W)
      → i < length m.cursors
      → stop - get_or m.cursors i 0 < fuel
      → Comes i stop (get_or m.cursors i 0) m (read_batch o i stop fuel m)
  unfolding read_batch
  read_batch-Comes i stop zero m lt enough = absurd (omega (arith, enough))
  read_batch-Comes i stop (suc fuel) m lt enough =
      go r.batch refl λ lt' enough'. read_batch-Comes i stop fuel m1 lt' enough'
    where
      c : ℕ
      c = get_or m.cursors i 0

      r : Read
      r = o.read i m.time c (room_of stop c) m.lost

      m1 : Pass W
      m1 = record m { cursors = set m.cursors i r.cursor; lost = r.lost; time = m.time + 1 }

      size : length m1.cursors ≡ length m.cursors
      size = length-set m.cursors i r.cursor

      here : get_or m1.cursors i 0 ≡ r.cursor
      here = get_or-set_self m.cursors i r.cursor 0 lt

      up : c ≤ r.cursor
      up = rings.onward i m.time c (room_of stop c) m.lost

      -- With no room the cursor does not move.
      moves_in_room : c < r.cursor → c < stop
      moves_in_room moved = elim (Bool-cases (leb stop c)) [
        | inr short ↦ ground (arith, short)
        | inl full ↦
            let z = no_room_left stop c (ground (arith, full)) in
            absurd (
              let same =
                subst (λ n. (o.read i m.time c n m.lost).cursor ≡ c) (sym z)
                  (rings.no_room i m.time c m.lost) in
              omega (arith, moved, same))
      ]

      go :
          (b : List Sample)
          → r.batch ≡ b
          → (i < length m1.cursors
              → stop - get_or m1.cursors i 0 < fuel
              → Comes i stop (get_or m1.cursors i 0) m1 (read_batch o i stop fuel m1))
          → Comes i stop c m (read_batch o i stop (suc fuel) m)
      go [] eb again = elim (Bool-cases (r.cursor == c)) [
        | inl same ↦
            rw (read_batch, eb, same)
              (record {
                out = ([], m1);
                returns = refl;
                size = size;
                shrinks = λ pos. absurd (omega (arith, pos));
              })
        | inr moved ↦
            let lt1 : c < r.cursor = ground (arith, moved, up) in
            let room = moves_in_room lt1 in
            let f = again (omega (arith, size, lt)) (omega (arith, here, lt1, room, enough)) in
            rw (read_batch, eb, moved)
              (record {
                out = f.out;
                returns = f.returns;
                size = f.size ∙ size;
                shrinks = λ pos. (let s = f.shrinks pos in omega (arith, s, here, up));
              })
      ]
      go (x ∷ xs) eb again =
          let few = rings.bounded i m.time c (room_of stop c) m.lost in
          let most = room_of_lem stop c in
          let n : length r.batch ≡ length (x ∷ xs) = ap length eb in
          rw (read_batch, eb)
            (record {
              out = (x ∷ xs, m1);
              returns = refl;
              size = size;
              shrinks = λ pos. omega (arith, few, most, n, here, up);
            })
