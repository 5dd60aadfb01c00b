-- ===== src/Merge/Heads.antt =====
-- How far a pass of include/slick/perfmon/collector.hpp reads a ring: the reads and the
-- head that it loads.
use slick_perfmon.Prelude.{
  ℕ, zero, suc, ◌+◌, ◌≤◌, ◌<◌, ◌≡◌, refl, sym, ap, ◌∙◌, arith, leb, ◌==◌, Bool-cases, inl, inr,
  Option, none, some, List, [], ◌∷◌, length, get_or, get_or-set_self, get_or-set_other, length-set,
  set,
}
use slick_perfmon.Event.{Sample}
use slick_perfmon.Ring.{Read}
use slick_perfmon.Merge.{Outside, Pass, room_of, read_batch, with_stop}
use slick_perfmon.Merge.Feeding.{IsRings}

no_room_iff : (stop cursor : ℕ) → room_of stop cursor ≡ 0 → stop ≤ cursor
unfolding room_of
no_room_iff stop cursor e = elim (Bool-cases (leb stop cursor)) [
  | inl full ↦ ground (arith, full)
  | inr short ↦ absurd (ground (arith, short, e))
]

-- The position of a ring's cursor.
abbrev pub at : {W : Type 0} → ℕ → Pass W → ℕ
at i m = get_or m.cursors i 0

module _ {W : Type 0} (o : Outside W) (published : ℕ → ℕ → Sample) (rings : IsRings o published)
    (t0 : ℕ) where
  -- What a read leaves: the other cursors, and this one at the head or past it if it gave nothing.
  pub record Gets (i : ℕ) (m : Pass W) (out : List Sample × Pass W) : Type 0 where
    pub others : (j : ℕ) → (i ≡ j → ⊥) → at j out.1 ≡ at j m
    pub waits : out.1.waits ≡ m.waits
    pub later : m.time ≤ out.1.time
    pub spent : out.0 ≡ [] → o.head i t0 ≤ at i out.1

  pub read_batch-Gets :
      (i stop fuel : ℕ) (m : Pass W) (out : List Sample × Pass W)
      → i < length m.cursors
      → t0 ≤ m.time
      → o.head i t0 ≤ stop
      → read_batch o i stop fuel m ≡ some out
      → Gets i m out
  unfolding read_batch
  read_batch-Gets i stop zero m out lt since reach e = absurd (cc)
  read_batch-Gets i stop (suc fuel) m out lt since reach e = go r.batch refl λ z.
      let l = length-set m.cursors i r.cursor in
      read_batch-Gets i stop fuel m1 out (omega (arith, l, lt)) (omega (arith, since)) reach z
    where
      c : ℕ
      c = at i m

      r : Read
      r = o.read i m.time c (room_of stop c) m.lost

      m1 : Pass W
      m1 = record m { cursors = set m.cursors i r.cursor; lost = r.lost; time = m.time + 1 }

      here : at i m1 ≡ r.cursor
      here = get_or-set_self m.cursors i r.cursor 0 lt

      apart : (j : ℕ) → (i ≡ j → ⊥) → at j m1 ≡ at j m
      apart j ne = get_or-set_other m.cursors i j r.cursor 0 ne

      -- A read that gave nothing and did not move.
      at_end : r.batch ≡ [] → r.cursor ≡ c → o.head i t0 ≤ r.cursor
      at_end eb same = elim (Bool-cases (leb (o.head i m.time) c)) [
        | inl caught ↦
            let up = rings.rising i t0 m.time since in
            let le : o.head i m.time ≤ c = ground (arith, caught) in omega (arith, up, le, same)
        | inr behind ↦ elim (Bool-cases (room_of stop c == 0)) [
          | inl full ↦
              let le = no_room_iff stop c (ground (arith, full)) in omega (arith, le, reach, same)
          | inr room ↦
              let p =
                rings.progress i m.time c (room_of stop c) m.lost (ground (arith, behind))
                  (ground (arith, room)) in
              let n : length r.batch ≡ 0 = ap length eb in absurd (omega (arith, p, n, same))
        ]
      ]

      go :
          (b : List Sample)
          → r.batch ≡ b
          → (read_batch o i stop fuel m1 ≡ some out → Gets i m1 out)
          → Gets i m out
      go [] eb again = elim (Bool-cases (r.cursor == c)) [
        | inl same ↦
            let p : ([], m1) ≡ out = (let z = rw (read_batch, eb, same) at e in cc) in
            let end = at_end eb (ground (arith, same)) in
            rw (sym p) (record {
              others = apart;
              waits = refl;
              later = omega arith;
              spent = λ none_left. omega (arith, end, here);
            })
        | inr moved ↦
            let g = again (rw (read_batch, eb, moved) at e) in
            let later = g.later in
            record {
              others = λ j ne. g.others j ne ∙ apart j ne;
              waits = g.waits;
              later = omega (arith, later);
              spent = g.spent;
            }
      ]
      go (x ∷ xs) eb again =
          let p : (x ∷ xs, m1) ≡ out = (let z = rw (read_batch, eb) at e in cc) in
          rw (sym p) (record {
            others = apart;
            waits = refl;
            later = omega arith;
            spent = λ no. absurd (cc);
          })

  -- The head where a pass stops reading ring i is no less than the one at the start.
  abbrev pub Reaches : Option ℕ → Option ℕ → Type 0
  Reaches none stop = Unit
  Reaches (some i) none = Unit
  Reaches (some i) (some stop) = o.head i t0 ≤ stop

  -- What loading the head leaves.
  pub record Loads (i : ℕ) (m : Pass W) (out : ℕ × Pass W) : Type 0 where
    pub reach : o.head i t0 ≤ out.0
    pub cursors : out.1.cursors ≡ m.cursors
    pub waits : out.1.waits ≡ m.waits
    pub later : m.time ≤ out.1.time

  pub with_stop-Loads :
      (i : ℕ) (stop : Option ℕ) (m : Pass W)
      → t0 ≤ m.time
      → Reaches (some i) stop
      → Loads i m (with_stop o i stop m)
  unfolding with_stop
  with_stop-Loads i none m since reach = record {
    reach = rings.rising i t0 m.time since;
    cursors = refl;
    waits = refl;
    later = omega arith;
  }
  with_stop-Loads i (some stop) m since reach = record {
    reach = reach;
    cursors = refl;
    waits = refl;
    later = omega arith;
  }
