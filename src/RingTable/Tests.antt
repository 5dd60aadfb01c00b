-- ===== src/RingTable/Tests.antt =====
-- Claim words, and two threads on a table of two rings.
use slick_perfmon.Prelude.{
  ℕ, ◌+◌, ◌*◌, ◌/◌, ◌%◌, ◌^◌, ◌≡◌, ◌≤◌, refl, arith, false, ◌==◌, some, List, [], ◌∷◌,
}
use slick_perfmon.RingTable.Reclaim.{
  each_ring, is_drained, release_one, release_retired_rings, is_dead, reclaim_one,
  reclaim_dead_rings, Passed, reclaim_then_release,
}
use slick_perfmon.RingTable.{
  RingTable, slot_at, ring_owner, ring_state, ring_pid, ring_active, ring_retired, create, claim,
  owner_at, set_owner, retired_word, claim_from, exchange, release, retire, data_at, bytes_for,
}
use slick_perfmon.RingTable.Owner.{ring_owner_fields, retired_word_fields}
use slick_perfmon.RingTable.Layout.{data_at_bounds}
use slick_perfmon.RingTable.Claim.{Outcome, claim-Outcome}
use slick_perfmon.RingTable.Threads.{Event, turn, free_ring, act, step, run}
use slick_perfmon.RingTable.Exclusive.{start, run-alone}

ring_owner_fields_run :
    (ring_state (ring_owner 4711 9 1) ≡ 1)
    × (ring_pid (ring_owner 4711 9 1) ≡ 4711)
    × (ring_owner 4711 9 1 / 2 ^ 8 % 2 ^ 24 ≡ 9 % 2 ^ 24)
ring_owner_fields_run = ring_owner_fields 4711 9 1 (omega arith) (omega arith)

retired_word_run :
    (ring_state (retired_word 0x1201) ≡ ring_retired)
    × (ring_pid (retired_word 0x1201) ≡ ring_pid 0x1201)
    × (retired_word 0x1201 / 2 ^ 8 ≡ 0x1201 / 2 ^ 8)
retired_word_run = retired_word_fields 0x1201 (omega arith)

abbrev one_taken : RingTable
one_taken = set_owner (create 2 8) 0 0x101

claim-Outcome_example : Outcome one_taken 0x201 0 2 (set_owner one_taken 1 0x201) (some 1)
unfolding claim create claim_from exchange
claim-Outcome_example = claim-Outcome one_taken 0x201

-- Thread t has tag t + 1 of process 0.
abbrev own : ℕ → ℕ
own t = 257

own_active : (t : ℕ) → ring_state (own t) ≡ ring_active
unfolding ring_state
own_active t = refl

-- Thread 0 claims ring 0, retires it, the collector frees it, and thread 1 claims it.
abbrev turns : List Event
turns = turn 0 ∷ turn 1 ∷ turn 0 ∷ turn 1 ∷ turn 0 ∷ turn 0 ∷ free_ring 0 258 ∷ turn 1 ∷ []

run-alone_example : (◌≡◌ {A = ℕ} 1 1) × (owner_at (run own turns (start 2 8)).table 0 ≡ 257)
unfolding run step act create exchange retired_word ring_state release retire
run-alone_example = run-alone own own_active 2 8 turns 1 1 0 refl refl

data_at_run :
    (data_at (create 4 8) 1 + 8 * 16 ≤ data_at (create 4 8) 2)
    × (data_at (create 4 8) 2 + 8 * 16 ≤ bytes_for 4 8)
unfolding create
data_at_run = data_at_bounds (create 4 8) 1 2 (omega arith) (omega arith) (omega arith)

-- Ring 0 is of process 5, which is gone, and is drained; ring 1 is of this process, 9.
abbrev left_behind : RingTable
left_behind = record {
  count = 2;
  capacity = 8;
  next_tag = 3;
  slots = record { head = 3; owner = 0x500000101 } ∷ record { head = 4; owner = 0x900000201 } ∷ [];
}

reclaim_run :
    (release_retired_rings
      (3 ∷ 0 ∷ [])
      (reclaim_dead_rings false 9 (λ pid. pid == 9) left_behind)).slots
    ≡ record { head = 3; owner = 0 } ∷ record { head = 4; owner = 0x900000201 } ∷ []
unfolding release_retired_rings reclaim_dead_rings each_ring release_one reclaim_one is_drained
    is_dead ring_state ring_pid retire release exchange retired_word
reclaim_run = refl

reclaim_then_release_example :
    Passed 9
      (λ pid. pid == 9)
      3
      (record { head = 3; owner = 0x500000101 })
      (slot_at
        (release_retired_rings
          (3 ∷ 0 ∷ [])
          (reclaim_dead_rings false 9 (λ pid. pid == 9) left_behind))
        0)
reclaim_then_release_example =
    reclaim_then_release 9 (λ pid. pid == 9) (3 ∷ 0 ∷ []) left_behind 0 (omega arith) (omega arith)
      (omega arith)
