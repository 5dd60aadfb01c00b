-- ===== src/Merge/Tests.antt =====
-- Runs of the merge of include/slick/perfmon/collector.hpp on two rings and a stage.
use slick_perfmon.Prelude.{
  ℕ, zero, suc, true, ◌≤◌, ◌<◌, ◌≡◌, refl, arith, Bool, none, some, List, [], ◌∷◌, length, get_or,
  map,
}
use slick_perfmon.Event.{Sample, is_value_event, step_of}
use slick_perfmon.Ring.{
  no_sample, slot, Memory, ring_read, start_of, end_of, first_intact, copy, load_sample,
}
use slick_perfmon.Ring.Writer.{System, advance}
use slick_perfmon.Ring.Tests.{first, second, moments, moments-Run}
use slick_perfmon.Merge.OfRings.{Threads, with_rings, with_rings-IsRings, with_rings-IsHeaps}
use slick_perfmon.Shared.{
  Shared, read_shared, read_shared_once, check_stall, goes_straight, place, read_rounds, skip_hole,
  take_batch,
}
use slick_perfmon.Merge.{
  Source, Outside, Pass, next_stamp, round, after_values, pass_values, refill, read_batch, room_of,
  move_cursor, consume, with_stop,
}
use slick_perfmon.Merge.Looping.{
  prefer_clean_tie, merge_pass, drain_once, merge_staged, fresh_source, swap_clean, gather,
  merge_sources, staged_below, erase_consumed, merge_heap, merge_one,
}
use slick_perfmon.Merge.Feeding.{IsRings, Moves}
use slick_perfmon.Merge.Reading.{left_of}
use slick_perfmon.Merge.Ending.{next_stamp-stops}
use slick_perfmon.Merge.Heaps.{Prefers, prefer_clean_tie-Prefers}
use slick_perfmon.Merge.Turns.{Merges}
use slick_perfmon.Merge.Passes.{merge_pass-ends}
use slick_perfmon.Merge.Covers.{IsRead}
use slick_perfmon.Merge.Conservation.{Conserves, merge_staged_accounts}
use slick_perfmon.Merge.Draining.{drain_once-catches_up}
use slick_perfmon.Merge.Sorted.{put, sorted, rotated, IsSortedHeap-IsHeap}
use slick_perfmon.Merge.TwoRings.{
  published, run_of, two_rings, two_rings-IsRings, two_rings-IsHeaps, stamp, queue, state, pass,
  pass-IsWaiting,
}

-- Three sources, merged up to the watermark, and the stage left empty.
pass_run :
    elim (merge_pass two_rings queue 4 0 0 100 35 12 state pass) [
      | none ↦ []
      | some (sh, m) ↦ map (λ (s : Sample). s.timestamp) m.world
    ]
    ≡ 30 ∷ 25 ∷ 20 ∷ 15 ∷ 10 ∷ 0 ∷ []
unfolding merge_pass merge_staged gather next_stamp round after_values pass_values refill read_batch
    run_of room_of move_cursor is_value_event merge_sources staged_below read_shared
    read_shared_once step_of consume erase_consumed merge_heap merge_one prefer_clean_tie swap_clean
    with_stop check_stall goes_straight place read_rounds skip_hole take_batch sorted put rotated
pass_run = refl

merge_pass-ends_run :
    (fuel : ℕ) × (out : Shared (List Sample) × Pass (List Sample)) × (merge_pass two_rings queue 4 0
        0 100 35 fuel state pass
      ≡ some out)
    × Merges two_rings 35 pass out
unfolding is_value_event
merge_pass-ends_run =
    merge_pass-ends two_rings 35 (omega arith) published two_rings-IsRings two_rings-IsHeaps 3
      (λ i t. omega arith) queue 4 0 0 100 state pass (omega arith) ((refl, tt), (tt, tt))

merge_staged_accounts_example :
    (out : Shared (List Sample) × Pass (List Sample)) × (merge_staged two_rings 35 21 state pass
      ≡ some out)
    × Conserves two_rings published two_rings-IsRings 35 state pass out
unfolding is_value_event
merge_staged_accounts_example =
    merge_staged_accounts two_rings published two_rings-IsRings 35 two_rings-IsHeaps 3
      (λ i t. omega arith) 21 state pass (omega arith) ((refl, tt), (tt, tt)) (omega arith)

abbrev ring_source : Source
ring_source = fresh_source 1 0

abbrev tied : Source
tied = record { ring = none; slots = stamp 10 1 ∷ []; pos = 0; base = 0; stop = none }

abbrev tied_dirty : Source
tied_dirty = record { ring = none; slots = stamp 10 2 ∷ []; pos = 0; base = 0; stop = none }

-- The stamp of point 1, which pairs cleanly, goes to the back.
tie_run : prefer_clean_tie two_rings [] (tied ∷ []) tied_dirty ≡ (tied_dirty ∷ [], tied)
unfolding prefer_clean_tie swap_clean
tie_run = refl

prefer_clean_tie-Prefers_example :
    Prefers two_rings []
      (tied ∷ [])
      tied_dirty
      (prefer_clean_tie two_rings [] (tied ∷ []) tied_dirty)
prefer_clean_tie-Prefers_example =
    prefer_clean_tie-Prefers two_rings [] (tied ∷ []) tied_dirty
      (IsSortedHeap-IsHeap (tied ∷ []) (tt, tt)) (omega arith, tt)

next_stamp-stops_example :
    (out : Bool × Source × Pass (List Sample)) × (next_stamp two_rings 35 8 ring_source pass
      ≡ some out)
    × (left_of 3 out.1 ≤ left_of 3 ring_source)
    × Moves two_rings published 35 0 ring_source pass out
next_stamp-stops_example =
    next_stamp-stops two_rings published two_rings-IsRings 3 35 (λ i t. omega arith) 0 8 ring_source
      pass (omega arith) tt (λ k le is. omega arith) (omega arith)

-- Ring 0 and all others go on as one does whose thread stores a second sample and starts a third.
abbrev alike : ℕ → ℕ → ℕ → System
alike i t u = moments u

abbrev stored : ℕ → ℕ → Sample
stored i k = get_or (first ∷ []) k second

alike-logged :
    (u j : ℕ) → j < length (moments u).log → get_or (moments u).log j no_sample ≡ stored 0 j
unfolding advance slot
alike-logged zero zero lt = refl
alike-logged zero (suc zero) lt = refl
alike-logged zero (suc (suc j)) lt = absurd (omega (arith, lt))
alike-logged (suc u) zero lt = refl
alike-logged (suc u) (suc zero) lt = refl
alike-logged (suc u) (suc (suc j)) lt = absurd (omega (arith, lt))

stored-ordered : (j k : ℕ) → j ≤ k → (stored 0 j).timestamp ≤ (stored 0 k).timestamp
stored-ordered zero zero le = omega arith
stored-ordered zero (suc k) le = omega arith
stored-ordered (suc j) zero le = absurd (omega (arith, le))
stored-ordered (suc j) (suc k) le = omega arith

alike-Threads : Threads 2 alike stored
alike-Threads = record {
  runs = λ i t. moments-Run;
  logged = λ i t u j lt. alike-logged u j lt;
  rising = λ i t u le. omega arith;
  ordered = λ i j k le a b. stored-ordered j k le;
}

with_rings-IsRings_example : IsRings (with_rings 2 alike two_rings) stored
with_rings-IsRings_example = with_rings-IsRings two_rings 2 alike stored (omega arith) alike-Threads

-- The merge of rings that their threads write while they are read.
abbrev written : Outside (List Sample)
written = with_rings 2 alike two_rings

written-IsRings : IsRings written stored
written-IsRings = with_rings-IsRings two_rings 2 alike stored (omega arith) alike-Threads

drain_once-catches_up_example :
    (fuel : ℕ) × (out : Shared (List Sample) × Pass (List Sample)) × (drain_once written queue 4 0 0
        100 40 5 fuel state pass
      ≡ some out)
    × Merges written 35 pass out
    × IsRead written stored written-IsRings 0 35 out.1
unfolding is_value_event with_rings advance
drain_once-catches_up_example =
    drain_once-catches_up written stored written-IsRings
      (with_rings-IsHeaps two_rings 2 alike two_rings-IsHeaps) (omega arith) 3 (λ i t. omega arith)
      queue 4 0 0 100 40 5 (omega arith) state pass (omega arith, omega arith)
      (pass-IsWaiting stored) ((refl, tt), (tt, tt))

-- The head was 1 when the pass looked, and the thread laps the ring before the read: the chunk is
-- sample 7, which is past where the pass stops reading.
abbrev lapped : Memory
lapped = record { head = 10; slots = stamp 80 0 ∷ stamp 90 0 ∷ stamp 60 0 ∷ stamp 70 0 ∷ [] }

abbrev lapping : Outside (List Sample)
lapping = record two_rings { head = λ i t. 1; read = λ i t c n l. ring_read 3 (λ u. lapped) c n l }

lapped_run :
    next_stamp lapping 100 4 (fresh_source 0 0) pass
    ≡ some (
      true,
      record { ring = some 0; slots = stamp 70 0 ∷ []; pos = 0; base = 7; stop = some 1 },
      record pass { cursors = 7 ∷ 0 ∷ []; lost = 7; time = 2 },
    )
unfolding next_stamp round after_values pass_values refill read_batch room_of move_cursor with_stop
    is_value_event step_of ring_read start_of end_of first_intact copy load_sample slot
lapped_run = refl
