-- ===== src/Ring/Publishing.antt =====
-- `publish` as the four stores of the writer.
use native.Mathlib.Nat.{mod-lt}
use slick_perfmon.Prelude.{
  ℕ, ◌-◌, ◌^◌, ◌<◌, ◌≡◌, refl, ap, ◌∙◌, bit_and, ==_refl, List, [], ◌∷◌, ◌++◌, length, get_or-set,
  set-set,
}
use slick_perfmon.Prelude.Bits.{and_mask}
use slick_perfmon.Prelude.Powers.{pow2_pos}
use slick_perfmon.Event.{Sample}
use slick_perfmon.Ring.{Memory, no_sample, slot, attach, publish}
use slick_perfmon.Ring.Writer.{Pc, idle, stamped, pointed, stored, System, advance, poke, IsValid}

-- The slot at the head is one of the ring's.
pub head_inside :
    (bits : ℕ) (m : Memory)
    → length m.slots ≡ 2 ^ bits
    → bit_and m.head (2 ^ bits - 1) < length m.slots
head_inside bits m wide = rw (and_mask bits m.head, wide) (mod-lt m.head (pow2_pos bits))

slot-poke :
    (mask : ℕ) (m : Memory) (c : Sample)
    → bit_and m.head mask < length m.slots
    → slot mask (poke mask m c) m.head ≡ c
unfolding slot
slot-poke mask m c inside =
    get_or-set m.slots _ _ c no_sample inside ∙ rw (==_refl (bit_and m.head mask))

poke-poke : (mask : ℕ) (m : Memory) (c d : Sample) → poke mask (poke mask m c) d ≡ poke mask m d
poke-poke mask m c d = rw (set-set m.slots (bit_and m.head mask) c d)

module _ (mask : ℕ) (s : Sample) (m : Memory) (log : List Sample)
    (inside : bit_and m.head mask < length m.slots) where
  abbrev first : Sample
  first = record (slot mask m m.head) { timestamp = s.timestamp }

  advance_stamp :
      advance mask s (record { mem = m; pc = idle; log = log })
      ≡ record { mem = poke mask m first; pc = stamped s; log = log }
  unfolding advance
  advance_stamp = refl

  abbrev second : Sample
  second = record first { point = s.point }

  advance_point :
      advance mask s (record { mem = poke mask m first; pc = stamped s; log = log })
      ≡ record { mem = poke mask m second; pc = pointed s; log = log }
  unfolding advance
  advance_point = rw (slot-poke mask m first inside, poke-poke mask m first second)

  advance_event :
      advance mask s (record { mem = poke mask m second; pc = pointed s; log = log })
      ≡ record { mem = poke mask m s; pc = stored s; log = log }
  unfolding advance
  advance_event = rw (slot-poke mask m second inside, poke-poke mask m second s)

  advance_head :
      advance mask s (record { mem = poke mask m s; pc = stored s; log = log })
      ≡ record { mem = (publish mask s m.head m).1; pc = idle; log = log ++ (s ∷ []) }
  unfolding advance publish
  advance_head = refl

  four_advances :
      advance mask s (
        advance mask s (advance mask s (advance mask s (record { mem = m; pc = idle; log = log }))))
      ≡ record { mem = (publish mask s m.head m).1; pc = idle; log = log ++ (s ∷ []) }
  four_advances = rw (advance_stamp, advance_point, advance_event) advance_head

-- From a valid system with an idle writer, four stores of the writer are one call of `publish`
-- with the head that `attach` reads, and the published sample is the log's last.
pub publish-advance :
    (bits : ℕ) (s : Sample) (σ : System)
    → IsValid bits σ
    → σ.pc ≡ idle
    → advance
        (2 ^ bits - 1)
        s
        (advance (2 ^ bits - 1) s (advance (2 ^ bits - 1) s (advance (2 ^ bits - 1) s σ)))
      ≡ record {
        mem = (publish (2 ^ bits - 1) s (attach σ.mem) σ.mem).1;
        pc = idle;
        log = σ.log ++ (s ∷ []);
      }
unfolding attach
publish-advance bits s σ v at_start =
    let same : σ ≡ record { mem = σ.mem; pc = idle; log = σ.log } =
      ap (λ (p : Pc). record σ { pc = p }) at_start in
    ap
      (λ (x : System).
        advance (2 ^ bits - 1) s
          (advance (2 ^ bits - 1) s (advance (2 ^ bits - 1) s (advance (2 ^ bits - 1) s x))))
      same
    ∙ four_advances (2 ^ bits - 1) s σ.mem σ.log (head_inside bits σ.mem v.width)
