-- ===== src/Shared.antt =====
-- The collector's side of the shared ring: `read_shared_once`, `read_shared`, `check_stall`,
-- `skip_hole` and `final_drain` of include/slick/perfmon/collector.hpp. The ring is the queue of
-- another library, and the pairer is what `on_event` makes of a state.
pub mod Stage
pub mod Drain
mod Tests
use slick_perfmon.Prelude.{
  ℕ, zero, suc, ◌+◌, ◌-◌, ◌%◌, ◌^◌, Bool, true, false, ◌||◌, ltb, leb, ◌==◌, if◌then◌else◌, Option,
  none, some, List, [], ◌∷◌,
}
use slick_perfmon.Event.{Sample, is_value_event}

-- The ring: what `read` gives at a moment and a cursor, with the new cursor;
-- `initial_reading_index`, the end of what is reserved at a moment; and `items_per_slot`.
pub record Queue : Type 0 where
  pub read : ℕ → ℕ → List Sample × ℕ
  pub reserved : ℕ → ℕ
  pub items_per_slot : ℕ

-- `cursor_`, `shared_stage_`, `stalled_since_`, `stalled_slots_`, and the pairer's state.
pub record Shared (W : Type 0) : Type 0 where
  pub cursor : ℕ
  pub stage : List Sample
  pub stalled_since : Option ℕ
  pub stalled_slots : ℕ
  pub world : W

-- The loop that moves a new stamp from the end towards the front, past every later one: whether it
-- stands first in the list, and the list.
unfoldable pub place : Sample → List Sample → Bool × List Sample
place s [] = (true, s ∷ [])
place s (x ∷ xs) =
    let (first, ys) = place s xs in
    if first
    then (if ltb s.timestamp x.timestamp then (true, s ∷ x ∷ xs) else (false, x ∷ s ∷ xs))
    else (false, x ∷ ys)

-- A value, or any sample where there are no thread rings, goes to the pairer at once.
unfoldable pub goes_straight : ℕ → Sample → Bool
goes_straight rings s = is_value_event s.event || (rings == 0)

-- The loop over a batch.
unfoldable pub take_batch : {W : Type 0} → (Sample → W → W) → ℕ → List Sample → Shared W → Shared W
take_batch on_event rings [] m = m
take_batch on_event rings (s ∷ batch) m = take_batch on_event rings batch (
    if goes_straight rings s
    then record m { world = on_event s m.world }
    else record m { stage = (place s m.stage).1 })

-- `read_shared_once` at a moment.
unfoldable pub read_shared_once :
    {W : Type 0} → (Sample → W → W) → Queue → ℕ → ℕ → Shared W → Shared W × Bool
read_shared_once on_event q rings t m = elim (q.read t m.cursor).0 [
  | [] ↦ (record m { cursor = (q.read t m.cursor).1 }, false)
  | s ∷ batch ↦
      (take_batch on_event rings (s ∷ batch) (record m { cursor = (q.read t m.cursor).1 }), true)
]

unfoldable pub skip_hole : {W : Type 0} → Queue → ℕ → Shared W → Shared W
skip_hole q cur m = record m {
  cursor = (cur + q.items_per_slot) % 2 ^ 64;
  stalled_slots = (m.stalled_slots + 1) % 2 ^ 64;
}

-- `check_stall` at a moment, where `now` is the steady clock and `timeout` the configured one.
unfoldable pub check_stall : {W : Type 0} → Queue → ℕ → ℕ → ℕ → Shared W → Shared W
unfolding skip_hole
check_stall q t now timeout m =
    if leb (q.reserved t) m.cursor
    then record m { stalled_since = none }
    else elim m.stalled_since [
      | none ↦ record m { stalled_since = some now }
      | some since ↦
          if ltb (now - since) timeout
          then m
          else record (skip_hole q m.cursor m) { stalled_since = none }
    ]

-- The loop of `read_shared`, with the rounds left, one moment to a read.
unfoldable pub read_rounds :
    {W : Type 0} → (Sample → W → W) → Queue → ℕ → ℕ → ℕ → Shared W → Shared W × Bool
read_rounds on_event q rings zero t m = (m, false)
read_rounds on_event q rings (suc n) t m =
    let once = read_shared_once on_event q rings t m in
    let more = read_rounds on_event q rings n (t + 1) once.0 in
    if once.1 then (more.0, true) else (once.0, false)

unfoldable pub read_shared :
    {W : Type 0} → (Sample → W → W) → Queue → ℕ → ℕ → ℕ → ℕ → ℕ → Shared W → Shared W × Bool
unfolding read_rounds check_stall
read_shared on_event q rings queue_capacity t now timeout m =
    let (m', any) = read_rounds on_event q rings queue_capacity t m in
    if any
    then (record m' { stalled_since = none }, true)
    else (check_stall q (t + queue_capacity) now timeout m', false)

-- The loop of `final_drain` on fuel, where `clock t` is the steady clock at a moment.
unfoldable pub drain_from :
    {W : Type 0} → (Sample → W → W) → Queue → ℕ → (ℕ → ℕ) → ℕ → ℕ → ℕ → ℕ → Shared W → Shared W
drain_from on_event q rings clock deadline target zero t m = m
drain_from on_event q rings clock deadline target (suc fuel) t m =
    let once = read_shared_once on_event q rings t m in
    let again = drain_from on_event q rings clock deadline target fuel (t + 1) once.0 in
    let skipped =
      drain_from on_event q rings clock deadline target fuel (t + 1)
        (skip_hole q once.0.cursor once.0) in
    if ltb m.cursor target
    then (if once.1
        then again
        else (if leb target once.0.cursor
            then once.0
            else (if ltb (clock t) deadline then again else skipped)))
    else m

-- `kFinalDrainGrace`, in milliseconds.
abbrev pub final_drain_grace : ℕ
final_drain_grace = 100

-- `final_drain` up to its last pass; its first load is at moment 0.
unfoldable pub final_drain :
    {W : Type 0} → (Sample → W → W) → Queue → ℕ → (ℕ → ℕ) → ℕ → ℕ → Shared W → Shared W
final_drain on_event q rings clock timeout fuel m =
    let grace : ℕ = if ltb final_drain_grace timeout then final_drain_grace else timeout in
    record (drain_from on_event q rings clock (clock 0 + grace) (q.reserved 0) fuel 1 m) {
      stalled_since = none;
    }
