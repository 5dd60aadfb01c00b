-- ===== src/Ring/Tests.antt =====
-- A ring of four slots whose writer has published two samples and stores on while it is read.
use slick_perfmon.Prelude.{ℕ, zero, suc, ◌≡◌, refl, arith, List, [], ◌∷◌, replicate}
use slick_perfmon.Event.{Sample}
use slick_perfmon.Ring.{
  Memory, no_sample, slot, attach, publish, first_intact, load_sample, copy, start_of, end_of,
  ring_read,
}
use slick_perfmon.Ring.Writer.{idle, System, advance, IsValid, advance-IsValid}
use slick_perfmon.Ring.Intact.{Stores, none_yet, store, Run}
use slick_perfmon.Ring.Reading.{Reads, last_load, ring_read-Reads}
use slick_perfmon.Ring.Publishing.{publish-advance}
use slick_perfmon.Ring.Roundtrip.{publish_all, ring_read-publish_all}

abbrev pub first : Sample
first = record { timestamp = 100; point = 7; event = 0 }

abbrev pub second : Sample
second = record { timestamp = 130; point = 7; event = 1 }

abbrev fresh : System
fresh = record { mem = record { head = 0; slots = replicate 4 no_sample }; pc = idle; log = [] }

fresh-IsValid : IsValid 2 fresh
fresh-IsValid = record {
  width = refl;
  counted = refl;
  under_pen = tt;
  intact = λ i lt near. absurd (omega arith);
}

abbrev next : Sample → System → System
next = advance 3

abbrev one : System
one = next first (next first (next first (next first fresh)))

abbrev two : System
two = next second (next second (next second (next second one)))

one-IsValid : IsValid 2 one
unfolding advance slot
one-IsValid =
    advance-IsValid 2 first _
      (advance-IsValid 2 first _
        (advance-IsValid 2 first _ (advance-IsValid 2 first fresh fresh-IsValid (omega arith))
          (omega arith))
        (omega arith))
      (omega arith)

two-IsValid : IsValid 2 two
unfolding advance slot
two-IsValid =
    advance-IsValid 2 second _
      (advance-IsValid 2 second _
        (advance-IsValid 2 second _ (advance-IsValid 2 second one one-IsValid (omega arith))
          (omega arith))
        (omega arith))
      (omega arith)

-- The writer makes one store after the reader's first load, and then rests.
abbrev pub moments : ℕ → System
moments zero = two
moments (suc t) = next first two

pub moments-Run : Run 2 moments
unfolding advance slot
moments-Run = record { started = two-IsValid; goes = goes }
  where
    goes : (t : ℕ) → Stores 3 (moments t) (moments (suc t))
    goes zero = store first none_yet (omega arith)
    goes (suc t) = none_yet

ring_read_run :
    ring_read 3 (λ t. (moments t).mem) 0 10 5
    ≡ record { batch = first ∷ second ∷ []; cursor = 0; lost = 5 }
unfolding ring_read advance slot copy load_sample start_of end_of first_intact
ring_read_run = refl

ring_read-Reads_example :
    Reads 2
      (moments (last_load 3 2 0 10)).log
      2
      (moments (last_load 3 2 0 10)).mem.head
      0
      10
      5
      (ring_read 3 (λ t. (moments t).mem) 0 10 5)
unfolding advance slot
ring_read-Reads_example =
    ring_read-Reads 2 moments moments-Run 0 10 5 (omega arith) (omega arith) (omega arith)

publish-advance_run : next second (next second (next second (next second one))) ≡ record {
  mem = (publish 3 second (attach one.mem) one.mem).1;
  pc = idle;
  log = first ∷ second ∷ [];
}
unfolding advance slot
publish-advance_run = publish-advance 2 second one one-IsValid refl

-- A ring of four slots that has gone round: the next slot is the third.
abbrev used : Memory
used = record { head = 6; slots = replicate 4 first }

abbrev three : List Sample
three = second ∷ first ∷ second ∷ []

ring_read-publish_all_example :
    ring_read 3 (λ _. publish_all 3 three (attach used) used) 6 2 5
    ≡ record { batch = second ∷ first ∷ []; cursor = 6; lost = 5 }
ring_read-publish_all_example =
    ring_read-publish_all 2 three used 2 5 refl (omega arith) (omega arith) (omega arith)
