-- ===== src/Merge.antt =====
-- The merge of the rings by time stamp, its state, and `next_stamp` of
-- include/slick/perfmon/collector.hpp. The pairer is what `on_event` makes of a state; the rings are
-- read through an interface, one access a moment; the heap algorithms are the C++ library's. What is
-- left of a chunk is its list of samples from `pos` on.
pub mod Looping
pub mod Feeding
pub mod Refills
pub mod Stamps
pub mod Heaps
pub mod Heads
pub mod Spent
pub mod Spending
pub mod Outcome
pub mod Flow
pub mod Advancing
pub mod Carrying
pub mod Carried
pub mod Turns
pub mod Order
pub mod Covers
pub mod Balance
pub mod Conserving
pub mod Gathering
pub mod Staged
pub mod Conserved
pub mod Conservation
pub mod Reached
pub mod Passes
pub mod Reading
pub mod Ending
pub mod Finishing
pub mod Finished
pub mod Draining
pub mod OfRings
mod Sorted
mod TwoRings
mod Tests
use slick_perfmon.Prelude.{
  ℕ, zero, suc, ◌+◌, ◌-◌, Bool, true, false, not, ◌&&◌, ◌||◌, ltb, leb, ◌==◌, if◌then◌else◌, Option,
  none, some, List, [], ◌∷◌, ◌++◌, get_or, set, drop,
}
use slick_perfmon.Event.{Sample, is_value_event}
use slick_perfmon.Ring.{Read, no_sample}
use slick_perfmon.Shared.{Queue, Shared, read_shared}

-- A source of stamps; the shared ring's has no `ring`, and `stop` is none until the first read.
pub record Source : Type 0 where
  pub ring : Option ℕ
  pub slots : List Sample
  pub pos : ℕ
  pub base : ℕ
  pub stop : Option ℕ

-- What the merge takes from elsewhere: the pairer, the rings (`head i t` and `read i t` are the
-- accesses to ring i at moment t), and the heap algorithms.
pub record Outside (W : Type 0) : Type 0 where
  pub on_event : Sample → W → W
  pub pairs_cleanly : Sample → W → Bool
  pub count : ℕ
  pub head : ℕ → ℕ → ℕ
  pub read : ℕ → ℕ → ℕ → ℕ → ℕ → Read
  pub make_heap : (Source → Source → Bool) → List Source → List Source
  pub pop_heap : (Source → Source → Bool) → List Source → List Source
  pub push_heap : (Source → Source → Bool) → List Source → List Source

-- `ring_cursor_`, `ring_wait_ts_`, `ring_lost_`, `progressed`, the pairer's state, and the moment
-- of the next access to a ring.
pub record Pass (W : Type 0) : Type 0 where
  pub cursors : List ℕ
  pub waits : List ℕ
  pub lost : ℕ
  pub progressed : Bool
  pub world : W
  pub time : ℕ

-- `kMergeChunk`.
abbrev pub merge_chunk : ℕ
merge_chunk = 256

abbrev pub source_head : Source → Sample
source_head src = get_or src.slots 0 no_sample

abbrev pub later : Source → Source → Bool
later a b = ltb (source_head b).timestamp (source_head a).timestamp

-- `pairer_.on_event(src.data[src.pos++])`.
unfoldable pub consume : {W : Type 0} → Outside W → Source → Pass W → Source × Pass W
consume o src m = (
  record src { slots = drop 1 src.slots; pos = src.pos + 1 },
  record m { world = o.on_event (source_head src) m.world },
)

-- The values at the front of the chunk go to the pairer.
unfoldable pub pass_values :
    {W : Type 0} → Outside W → List Sample → ℕ → Pass W → List Sample × ℕ × Pass W
pass_values o [] pos m = ([], pos, m)
pass_values o (s ∷ rest) pos m =
    let more =
      pass_values o rest (pos + 1) (record m { world = o.on_event s m.world; progressed = true }) in
    if is_value_event s.event then more else (s ∷ rest, pos, m)

-- `room`.
unfoldable pub room_of : ℕ → ℕ → ℕ
room_of stop cursor =
    if ltb cursor stop
    then (if ltb (stop - cursor) merge_chunk then stop - cursor else merge_chunk)
    else 0

-- The loop around `ring_read`, on fuel.
unfoldable pub read_batch :
    {W : Type 0} → Outside W → ℕ → ℕ → ℕ → Pass W → Option (List Sample × Pass W)
read_batch o i stop zero m = none
read_batch o i stop (suc fuel) m =
    let cursor : ℕ = get_or m.cursors i 0 in
    let r = o.read i m.time cursor (room_of stop cursor) m.lost in
    let m' = record m { cursors = set m.cursors i r.cursor; lost = r.lost; time = m.time + 1 } in
    let again = read_batch o i stop fuel m' in
    elim r.batch [
      | [] ↦ if r.cursor == cursor then some ([], m') else again
      | x ∷ xs ↦ some (x ∷ xs, m')
    ]

-- How one round of `next_stamp` ends.
pub data Round (W : Type 0) : Type 0 where
  found : Source → Pass W → Round W
  ended : Source → Pass W → Round W
  refilled : Source → Pass W → Round W
  unfinished : Round W

-- The ring's cursor is moved to where the source stands; what it waits for is noted.
unfoldable pub move_cursor : {W : Type 0} → ℕ → ℕ → Source → Pass W → Pass W
move_cursor i wait src m = record m {
  cursors = set m.cursors i (src.base + src.pos);
  waits = set m.waits i wait;
}

-- The source with its `stop`; the first time, the head is loaded.
unfoldable pub with_stop : {W : Type 0} → Outside W → ℕ → Option ℕ → Pass W → ℕ × Pass W
with_stop o i (some stop) m = (stop, m)
with_stop o i none m = (o.head i m.time, record m { time = m.time + 1 })

unfoldable pub refill : {W : Type 0} → Outside W → ℕ → ℕ → Source → Pass W → Round W
unfolding with_stop
refill o fuel i src m =
    let (stop, m') = with_stop o i src.stop (move_cursor i 0 src m) in
    elim (read_batch o i stop fuel m') [
      | none ↦ unfinished
      | some (batch, m'') ↦ elim batch [
        | [] ↦ ended (record src { stop = some stop }) m''
        | x ∷ xs ↦
            refilled
              (record src {
                slots = x ∷ xs;
                pos = 0;
                base = get_or m''.cursors i 0;
                stop = some stop;
              })
              m''
      ]
    ]

-- What follows the loop over the values: a stamp, or the end of the chunk.
unfoldable pub after_values :
    {W : Type 0} → Outside W → ℕ → ℕ → List Sample → Option ℕ → Source → Pass W → Round W
after_values o watermark fuel (s ∷ rest) none src m =
    if ltb s.timestamp watermark then found src m else ended src m
after_values o watermark fuel (s ∷ rest) (some i) src m =
    if ltb s.timestamp watermark then found src m else ended src (move_cursor i s.timestamp src m)
after_values o watermark fuel [] none src m = ended src m
after_values o watermark fuel [] (some i) src m = refill o fuel i src m

unfoldable pub round : {W : Type 0} → Outside W → ℕ → ℕ → Source → Pass W → Round W
round o watermark fuel src m =
    let (rest, pos, m') = pass_values o src.slots src.pos m in
    after_values o watermark fuel rest src.ring (record src { slots = rest; pos = pos }) m'

-- `next_stamp`, on fuel: what it returns, the source and the pass.
unfoldable pub next_stamp :
    {W : Type 0} → Outside W → ℕ → ℕ → Source → Pass W → Option (Bool × Source × Pass W)
next_stamp o watermark zero src m = none
next_stamp o watermark (suc fuel) src m = elim (round o watermark fuel src m) [
  | found src' m' ↦ some (true, src', m')
  | ended src' m' ↦ some (false, src', m')
  | refilled src' m' ↦ next_stamp o watermark fuel src' m'
  | unfinished ↦ none
]
