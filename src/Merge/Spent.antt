-- ===== src/Merge/Spent.antt =====
-- What `next_stamp` of include/slick/perfmon/collector.hpp has read of a ring when it says that there
-- is no more.
use slick_perfmon.Prelude.{
  ℕ, ◌+◌, ◌≤◌, ◌<◌, ◌≡◌, sym, ap, ◌∙◌, arith, Bool, true, false, ◌==◌, Bool-cases, ◌⊎◌, inl, inr,
  Option, none, some, length, get_or, get_or-set_self, get_or-set_other, length-set,
}
use slick_perfmon.Event.{Sample}
use slick_perfmon.Merge.{Source, Outside, Pass, move_cursor}
use slick_perfmon.Merge.Feeding.{IsStamp, IsRings}
use slick_perfmon.Merge.Heads.{at, Reaches}

-- There is a place for the time that the ring waits for.
abbrev pub HasWait : {W : Type 0} → Option ℕ → Pass W → Type 0
HasWait none m = Unit
HasWait (some i) m = i < length m.waits

-- The ring's cursor stands on a stamp that is not before the watermark.
abbrev pub IsBlocked : {W : Type 0} → (ℕ → ℕ → Sample) → ℕ → ℕ → Pass W → Type 0
IsBlocked published watermark i m =
    IsStamp (published i (at i m)) × (watermark ≤ (published i (at i m)).timestamp)

-- The ring was read up to the head of moment `t0`, or to a stamp that is not before the watermark.
abbrev pub IsCaughtUp : {W : Type 0} → Outside W → (ℕ → ℕ → Sample) → ℕ → ℕ → ℕ → Pass W → Type 0
IsCaughtUp o published t0 watermark i m = (o.head i t0 ≤ at i m) ⊎ IsBlocked published watermark i m

-- What a ring waits for is the time of the stamp at its cursor.
abbrev pub IsWaiting : {W : Type 0} → (ℕ → ℕ → Sample) → ℕ → Pass W → Type 0
IsWaiting published i m =
    0 < get_or m.waits i 0
    → IsStamp (published i (at i m)) × ((published i (at i m)).timestamp ≡ get_or m.waits i 0)

module _ {W : Type 0} (o : Outside W) (published : ℕ → ℕ → Sample) (rings : IsRings o published)
    (t0 watermark : ℕ) where
  -- What `next_stamp` leaves of the rings: each is caught up if it was, and the source's own if there
  -- is no more.
  pub record Leaves (src : Source) (m : Pass W) (out : Bool × Source × Pass W) : Type 0 where
    pub size : length out.2.waits ≡ length m.waits
    pub later : m.time ≤ out.2.time
    pub reach : Reaches o published rings t0 out.1.ring out.1.stop
    pub waiting : (j : ℕ) → IsWaiting published j m → IsWaiting published j out.2
    pub fate :
        (j : ℕ)
        → IsCaughtUp o published t0 watermark j m ⊎ (src.ring ≡ some j)
        → IsCaughtUp o published t0 watermark j out.2 ⊎ ((out.0 ≡ true) × (out.1.ring ≡ some j))

  pub Leaves-after :
      (src src1 : Source) (m m1 : Pass W) (out : Bool × Source × Pass W)
      → Leaves src m (true, src1, m1)
      → Leaves src1 m1 out
      → Leaves src m out
  Leaves-after src src1 m m1 out f g =
      let a = f.later in
      let b = g.later in
      record {
        size = g.size ∙ f.size;
        later = omega (arith, a, b);
        reach = g.reach;
        waiting = λ j w. g.waiting j (f.waiting j w);
        fate = λ j k. elim (f.fate j k) [
          | inl caught ↦ g.fate j (inl caught)
          | inr (_, mine) ↦ g.fate j (inr mine)
        ];
      }

  -- The ring of the source alone has moved.
  pub record Moved (i : ℕ) (m m' : Pass W) : Type 0 where
    pub size : length m'.waits ≡ length m.waits
    pub later : m.time ≤ m'.time
    pub others :
        (j : ℕ) → (i ≡ j → ⊥) → (at j m' ≡ at j m) × (get_or m'.waits j 0 ≡ get_or m.waits j 0)
    pub waiting : IsWaiting published i m'

  pub Moved-Leaves :
      (i : ℕ) (more : Bool) (src src' : Source) (m m' : Pass W)
      → src.ring ≡ some i
      → src'.ring ≡ some i
      → Reaches o published rings t0 (some i) src'.stop
      → Moved i m m'
      → (more ≡ false → IsCaughtUp o published t0 watermark i m')
      → Leaves src m (more, src', m')
  Moved-Leaves i more src src' m m' r r' reach f caught = record {
    size = f.size;
    later = f.later;
    reach = rw r' reach;
    waiting = waiting;
    fate = fate;
  }
    where
      waiting : (j : ℕ) → IsWaiting published j m → IsWaiting published j m'
      waiting j w = elim (Bool-cases (i == j)) [
        | inl same ↦ let e : i ≡ j = ground (arith, same) in rw e at f.waiting
        | inr apart ↦ let (c, n) = f.others j (λ e. ground (arith, apart, e)) in rw (c, n) w
      ]

      fate :
          (j : ℕ)
          → IsCaughtUp o published t0 watermark j m ⊎ (src.ring ≡ some j)
          → IsCaughtUp o published t0 watermark j m' ⊎ ((more ≡ true) × (src'.ring ≡ some j))
      fate j k = elim (Bool-cases (i == j)) [
        | inl same ↦
            let e : i ≡ j = ground (arith, same) in
            elim (Bool-cases more) [
              | inl goes_on ↦ inr (goes_on, r' ∙ ap some e)
              | inr over ↦ inl (rw e at (caught over))
            ]
        | inr apart ↦
            let (c, n) = f.others j (λ e. ground (arith, apart, e)) in
            elim k [
              | inl before ↦ inl (rw c before)
              | inr mine ↦
                  let e : i ≡ j = (let z : some i ≡ some j = sym r ∙ mine in cc) in
                  absurd (ground (arith, apart, e))
            ]
      ]

  -- The cursor is moved to where the source stands.
  pub move_cursor-Moved :
      (i wait : ℕ) (src : Source) (m : Pass W)
      → i < length m.cursors
      → i < length m.waits
      → (0 < wait
          → IsStamp (published i (src.base + src.pos))
            × ((published i (src.base + src.pos)).timestamp ≡ wait))
      → (at i (move_cursor i wait src m) ≡ src.base + src.pos)
        × Moved i m (move_cursor i wait src m)
  unfolding move_cursor
  move_cursor-Moved i wait src m lt lt' w =
      let here = get_or-set_self m.cursors i (src.base + src.pos) 0 lt in
      let here' = get_or-set_self m.waits i wait 0 lt' in
      (
        here,
        record {
          size = length-set m.waits i wait;
          later = omega arith;
          others = λ j ne. (
            get_or-set_other m.cursors i j (src.base + src.pos) 0 ne,
            get_or-set_other m.waits i j wait 0 ne,
          );
          waiting = rw (here, here') w;
        },
      )

  pub length-cursors_moved :
      (i wait : ℕ) (src : Source) (m : Pass W)
      → length (move_cursor i wait src m).cursors ≡ length m.cursors
  unfolding move_cursor
  length-cursors_moved i wait src m = length-set m.cursors i (src.base + src.pos)

  pub waits_moved :
      (i wait : ℕ) (src : Source) (m : Pass W)
      → i < length m.waits
      → get_or (move_cursor i wait src m).waits i 0 ≡ wait
  unfolding move_cursor
  waits_moved i wait src m lt = get_or-set_self m.waits i wait 0 lt
