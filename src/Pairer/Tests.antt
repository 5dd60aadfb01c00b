-- ===== src/Pairer/Tests.antt =====
-- The theorems on the pairer at a concrete session, with numbers in the place of the doubles and
-- sorted lists in the place of the heaps.
use slick_perfmon.Prelude.{
  ℕ, ◌+◌, ◌-◌, ◌*◌, ◌/◌, ◌≤◌, ◌≡◌, refl, arith, ltb, Bool, if◌then◌else◌, none, List, [], ◌∷◌, ◌++◌,
}
use slick_perfmon.OpenMap.Valid.{lookup}
use slick_perfmon.OpenMap.Store.{lookup-size}
use slick_perfmon.Event.{Sample, make_event, begin_step, end_step}
use slick_perfmon.Accumulator.{Doubles}
use slick_perfmon.Pairer.Anomalies.{Ledger, abandoned, invalid, orphan, tally}
use slick_perfmon.Pairer.Anomalies as Counters
use slick_perfmon.Pairer.Anomalies.Totals.{Tallies, tally-Tallies, reset-ledger}
use slick_perfmon.Pairer.{
  Pairer, Heap, Limits, EvictCandidate, OpenSpan-Default, reset, on_event, open_begin, evict_oldest,
  sweep, abandon_all,
}
use slick_perfmon.Pairer.Valid.{IsValid}
use slick_perfmon.Pairer.Nominate.{IsHeap, weigh}
use slick_perfmon.Pairer.Drain.{Evicts}
use slick_perfmon.Pairer.Evict.{evict_oldest-Evicts}
use slick_perfmon.Pairer.Begin.{Opens, opened, open_begin-Opens}
use slick_perfmon.Pairer.Events.{Handles, on_event-Handles, accounted, key_of}
use slick_perfmon.Pairer.Session.{Swept, Removes, reset-IsValid, sweep-Removes, abandon_all-Removes}
use slick_perfmon.Pairer.Run.{run, completions, begins, run_accounts}

abbrev ledger : Ledger
ledger = Counters.reset 4

tally-Tallies_example : Tallies orphan ledger (tally orphan 17 ledger)
tally-Tallies_example =
    tally-Tallies orphan 17 ledger (reset-ledger 4 (omega arith)).0
      (omega (arith, (reset-ledger 4 (omega arith)).1 orphan))

instance exact : Doubles ℕ
exact = record {
  of_u64 = λ n. n;
  plus = λ a b. a + b;
  minus = λ a b. a - b;
  times = λ a b. a * b;
  over = λ a b. a / b;
  sqrt = λ a. a;
  less = ltb;
}

abbrev put :
    (EvictCandidate → EvictCandidate → Bool)
    → EvictCandidate
    → List EvictCandidate
    → List EvictCandidate
put before c [] = c ∷ []
put before c (d ∷ q) = if before c d then c ∷ d ∷ q else d ∷ put before c q

abbrev sorted : (EvictCandidate → EvictCandidate → Bool) → List EvictCandidate → List EvictCandidate
sorted before [] = []
sorted before (c ∷ q) = put before c (sorted before q)

abbrev rotated : List EvictCandidate → List EvictCandidate
rotated [] = []
rotated (c ∷ q) = q ++ (c ∷ [])

abbrev newer : EvictCandidate → EvictCandidate → Bool
newer a b = ltb b.seen_tsc a.seen_tsc

abbrev older : EvictCandidate → EvictCandidate → Bool
older a b = ltb a.seen_tsc b.seen_tsc

instance lists : Heap
lists = record { push_heap = sorted newer; pop_heap = rotated; sort_heap = sorted older }

weigh-put :
    (g : EvictCandidate → ℕ) (before : EvictCandidate → EvictCandidate → Bool) (c : EvictCandidate)
    (q : List EvictCandidate)
    → weigh g (put before c q) ≡ g c + weigh g q
unfolding weigh
weigh-put g before c [] = refl
weigh-put g before c (d ∷ q) = ground (arith, weigh-put g before c q)

weigh-sorted :
    (g : EvictCandidate → ℕ) (before : EvictCandidate → EvictCandidate → Bool)
    (q : List EvictCandidate)
    → weigh g (sorted before q) ≡ weigh g q
unfolding weigh
weigh-sorted g before [] = refl
weigh-sorted g before (c ∷ q) =
    omega (arith, weigh-put g before c (sorted before q), weigh-sorted g before q)

weigh_last :
    (g : EvictCandidate → ℕ) (c : EvictCandidate) (q : List EvictCandidate)
    → weigh g (q ++ (c ∷ [])) ≡ g c + weigh g q
unfolding weigh
weigh_last g c [] = refl
weigh_last g c (d ∷ q) = omega (arith, weigh_last g c q)

weigh-rotated : (g : EvictCandidate → ℕ) (q : List EvictCandidate) → weigh g (rotated q) ≡ weigh g q
unfolding weigh
weigh-rotated g [] = refl
weigh-rotated g (c ∷ q) = weigh_last g c q

lists-IsHeap : IsHeap lists
unfolding lists
lists-IsHeap = record {
  push = λ g q. weigh-sorted g newer q;
  pop = weigh-rotated;
  sort = λ g q. weigh-sorted g older q;
}

abbrev limits : Limits
limits = record { max_open_spans = 2; max_stages = 4 }

abbrev start : Pairer ℕ
start = reset limits

reset-IsValid_run : IsValid start × (accounted start ≡ 0) × ((k : ℕ) → lookup start.spans k ≡ none)
reset-IsValid_run = reset-IsValid limits (omega arith) (omega arith)

started : IsValid start
started = (reset-IsValid limits (omega arith) (omega arith)).0

nothing : accounted start ≡ 0
nothing = (reset-IsValid limits (omega arith) (omega arith)).1

abbrev begin : Sample
begin = record { timestamp = 100; point = 1; event = make_event begin_step 7 }

abbrev end : Sample
end = record { timestamp = 250; point = 1; event = make_event end_step 7 }

on_event-Handles_example : Handles begin start (on_event begin start)
unfolding accounted
on_event-Handles_example =
    on_event-Handles lists-IsHeap begin start started (omega (arith, nothing))
      (omega (arith, nothing))

open_begin-Opens_example :
    Opens start (key_of begin) (opened 100) (open_begin (key_of begin) begin start)
unfolding accounted
open_begin-Opens_example =
    open_begin-Opens lists-IsHeap start started (key_of begin) begin (omega (arith, nothing))

run_accounts_example :
    IsValid (run (begin ∷ end ∷ []) start)
    × (accounted (run (begin ∷ end ∷ []) start) + completions (begin ∷ end ∷ []) start
        ≡ accounted start + begins (begin ∷ end ∷ []))
run_accounts_example =
    run_accounts lists-IsHeap (begin ∷ end ∷ []) start started (omega (arith, nothing))

-- A pairer with one span open.
abbrev busy : Pairer ℕ
busy = open_begin (key_of begin) begin start

busy-Opens : Opens start (key_of begin) (opened 100) busy
unfolding accounted
busy-Opens =
    open_begin-Opens lists-IsHeap start started (key_of begin) begin (omega (arith, nothing))

one_open : 1 ≤ busy.spans.size
one_open = lookup-size busy.spans (key_of begin) (opened 100) busy-Opens.valid.spans busy-Opens.own

evict_oldest-Evicts_example : Evicts busy (evict_oldest busy)
unfolding accounted
evict_oldest-Evicts_example =
    evict_oldest-Evicts lists-IsHeap busy busy-Opens.valid one_open
      (omega (arith, busy-Opens.balance, nothing, one_open))

sweep-Removes_example :
    Removes busy (sweep 5000 1000 busy)
    × ((k : ℕ) → Swept 5000 1000 (lookup busy.spans k) (lookup (sweep 5000 1000 busy).1.spans k))
unfolding accounted
sweep-Removes_example =
    sweep-Removes busy 5000 1000 busy-Opens.valid (omega arith)
      (omega (arith, busy-Opens.balance, nothing))

abandon_all-Removes_run :
    Removes busy (abandon_all busy) × ((k : ℕ) → lookup (abandon_all busy).1.spans k ≡ none)
unfolding accounted
abandon_all-Removes_run =
    abandon_all-Removes busy busy-Opens.valid (omega (arith, busy-Opens.balance, nothing))
