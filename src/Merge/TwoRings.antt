-- ===== src/Merge/TwoRings.antt =====
-- Two rings of three stamps each, a shared ring with a stamp and a value, and heaps that are sorted
-- lists, to run the merge of include/slick/perfmon/collector.hpp on.
use slick_perfmon.Prelude.{
  ℕ, zero, suc, ◌+◌, ◌-◌, ◌*◌, ◌%◌, ◌^◌, ◌≤◌, ◌<◌, ◌≡◌, refl, ap, arith, false, ltb, ◌==◌,
  if◌then◌else◌, none, List, [], ◌∷◌, ◌++◌, length,
}
use slick_perfmon.Event.{Sample}
use slick_perfmon.Shared.{Queue, Shared}
use slick_perfmon.Merge.{Outside, Pass, later}
use slick_perfmon.Merge.Feeding.{IsRings, StandsAt}
use slick_perfmon.Merge.Heaps.{IsHeaps}
use slick_perfmon.Merge.Spent.{IsWaiting}
use slick_perfmon.Merge.Sorted.{
  sorted, rotated, sorted-IsSortedHeap, sorted-Permᴰ, IsSortedHeap-IsHeap, rotated-Pops, length-put,
}

-- Sample k of ring i is a stamp at 20 k + 10 i.
abbrev pub published : ℕ → ℕ → Sample
published i k = record { timestamp = 20 * k + 10 * i; point = i; event = 0 }

unfoldable pub run_of : ℕ → ℕ → ℕ → List Sample
run_of i k zero = []
run_of i k (suc n) = published i k ∷ run_of i (suc k) n

run_of-StandsAt : (i k n : ℕ) → StandsAt (published i) k (run_of i k n)
unfolding run_of
run_of-StandsAt i k zero = tt
run_of-StandsAt i k (suc n) = (refl, run_of-StandsAt i (suc k) n)

length-run_of : (i k n : ℕ) → length (run_of i k n) ≡ n
unfolding run_of
length-run_of i k zero = refl
length-run_of i k (suc n) = ap suc (length-run_of i (suc k) n)

-- The pairer's state is the list of what it was fed, the last one first.
abbrev pub two_rings : Outside (List Sample)
two_rings = record {
  on_event = λ s w. s ∷ w;
  pairs_cleanly = λ s w. s.point == 1;
  count = 2;
  head = λ i t. 3;
  read = λ i t c n l. record {
    batch = run_of i c (if ltb n (3 - c) then n else 3 - c);
    cursor = c;
    lost = l % 2 ^ 64;
  };
  make_heap = sorted;
  pop_heap = λ after xs. rotated (sorted after xs);
  push_heap = sorted;
}

pub two_rings-IsRings : IsRings two_rings published
two_rings-IsRings = record {
  ordered = λ i j k le a b. omega (arith, le);
  holds = λ i t c n l. run_of-StandsAt i c (if ltb n (3 - c) then n else 3 - c);
  onward = λ i t c n l. omega arith;
  bounded = λ i t c n l.
      (let e = length-run_of i c (if ltb n (3 - c) then n else 3 - c) in
        let le : (if ltb n (3 - c) then n else 3 - c) ≤ n = ground arith in omega (arith, e, le));
  no_room = λ i t c l. refl;
  counted = λ i t c n l. omega arith;
  progress = λ i t c n l lt room.
      (let e = length-run_of i c (if ltb n (3 - c) then n else 3 - c) in
        let some_left : 0 < (if ltb n (3 - c) then n else 3 - c) = ground (arith, lt, room) in
        omega (arith, e, some_left));
  rising = λ i t u le. omega arith;
}

pub two_rings-IsHeaps : IsHeaps two_rings
unfolding sorted
two_rings-IsHeaps = record {
  made = λ xs. IsSortedHeap-IsHeap (sorted later xs) (sorted-IsSortedHeap xs);
  made_same = sorted-Permᴰ;
  pushed = λ xs y h.
      IsSortedHeap-IsHeap (sorted later (xs ++ (y ∷ []))) (sorted-IsSortedHeap (xs ++ (y ∷ [])));
  pushed_same = λ xs y. sorted-Permᴰ (xs ++ (y ∷ []));
  popped = λ x xs h.
      rotated-Pops (x ∷ xs) (sorted later (x ∷ xs)) (length-put x (sorted later xs))
        (sorted-Permᴰ (x ∷ xs)) (sorted-IsSortedHeap (x ∷ xs));
}

abbrev pub stamp : ℕ → ℕ → Sample
stamp t p = record { timestamp = t; point = p; event = 0 }

abbrev pub queue : Queue
queue = record {
  read = λ t c. if c == 0 then (stamp 25 7 ∷ [], 1) else ([], c);
  reserved = λ t. 1;
  items_per_slot = 1;
}

abbrev pub state : Shared (List Sample)
state = record {
  cursor = 0;
  stage = stamp 15 7 ∷ [];
  stalled_since = none;
  stalled_slots = 0;
  world = [];
}

abbrev pub pass : Pass (List Sample)
pass = record {
  cursors = 0 ∷ 0 ∷ [];
  waits = 0 ∷ 0 ∷ [];
  lost = 0;
  progressed = false;
  world = [];
  time = 0;
}

pub pass-IsWaiting : (source : ℕ → ℕ → Sample) (j : ℕ) → IsWaiting source j pass
pass-IsWaiting source zero pos = absurd (omega (arith, pos))
pass-IsWaiting source (suc zero) pos = absurd (omega (arith, pos))
pass-IsWaiting source (suc (suc j)) pos = absurd (omega (arith, pos))
