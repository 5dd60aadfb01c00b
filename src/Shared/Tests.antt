-- ===== src/Shared/Tests.antt =====
-- A ring with two samples, and two slots that are reserved and never published.
use slick_perfmon.Prelude.{
  ℕ, ◌+◌, ◌*◌, ◌≤◌, ◌≡◌, refl, arith, ltb, if◌then◌else◌, none, List, [], ◌∷◌,
}
use slick_perfmon.Event.{Sample, is_value_event, step_of}
use slick_perfmon.Shared.{
  Queue, Shared, place, goes_straight, take_batch, read_shared_once, skip_hole, drain_from,
  final_drain,
}
use slick_perfmon.Shared.Stage.{Takes, read_shared_once-Takes}
use slick_perfmon.Shared.Drain.{MovesOn, final_drain-reaches}

abbrev stamp : ℕ → Sample
stamp t = record { timestamp = t; point = 7; event = 0 }

abbrev queue : Queue
queue = record {
  read = λ t c. if ltb c 2 then (stamp (30 * c + 10) ∷ [], c + 1) else ([], c);
  reserved = λ t. 4;
  items_per_slot = 1;
}

queue-MovesOn : MovesOn queue
queue-MovesOn = record {
  onward = λ t c. ground arith;
  further = λ t c s batch e. ground (arith, e);
  wide = omega arith;
}

-- The pairer's state is the list of what it was fed, the last one first.
abbrev on_event : Sample → List Sample → List Sample
on_event s fed = s ∷ fed

abbrev before : Shared (List Sample)
before = record {
  cursor = 0;
  stage = stamp 5 ∷ stamp 25 ∷ [];
  stalled_since = none;
  stalled_slots = 0;
  world = [];
}

once_run : (read_shared_once on_event queue 1 0 before).0.stage ≡ stamp 5 ∷ stamp 10 ∷ stamp 25 ∷ []
unfolding read_shared_once take_batch goes_straight place is_value_event step_of
once_run = refl

read_shared_once-Takes_example :
    Takes on_event 1
      (stamp 10 ∷ [])
      (record before { cursor = 1 })
      (read_shared_once on_event queue 1 0 before).0
read_shared_once-Takes_example = read_shared_once-Takes on_event 1 queue 0 before (omega arith)

-- Both samples are read, and both holes are stepped over and counted.
drain_run : (final_drain on_event queue 0 (λ t. 50 * t) 5000 9 before).stalled_slots ≡ 2
unfolding final_drain drain_from read_shared_once take_batch goes_straight place is_value_event
    step_of skip_hole
drain_run = refl

final_drain-reaches_example : 4 ≤ (final_drain on_event queue 0 (λ t. 50 * t) 5000 9 before).cursor
final_drain-reaches_example =
    final_drain-reaches on_event queue queue-MovesOn 0 (λ t. 50 * t) 5000 2 9 before
      (λ t le. omega (arith, le)) (omega arith) (omega arith)
