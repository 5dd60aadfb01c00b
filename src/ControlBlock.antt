-- ===== src/ControlBlock.antt =====
-- The shared control block: include/slick/perfmon/control_block.hpp. A block is its header, its name
-- entries and its ring table; the segment that it lies in is another library's.
pub mod Opening
pub mod Names
pub mod Words
pub mod Searching
pub mod Publishers
pub mod Slots
pub mod OneSlot
pub mod Publishing
mod Tests
use slick_perfmon.Prelude.{
  ℕ, zero, suc, ◌+◌, ◌-◌, ◌*◌, ◌%◌, ◌^◌, bit_and, bit_or, Bool, true, false, not, ◌&&◌, ◌||◌, ltb,
  ◌==◌, if◌then◌else◌, Option, none, some, List, [], ◌∷◌, set,
}
use slick_perfmon.Prelude.Results.{Result, ok, throws, ◌>>=◌, ◌>>◌, throw_if}
use slick_perfmon.RingTable
use slick_perfmon.RingTable.{RingTable}

abbrev pub magic_number : ℕ
magic_number = 0x314D5053

abbrev pub layout_version : ℕ
layout_version = 5

abbrev pub uninitialised : ℕ
uninitialised = 0

abbrev pub initialising : ℕ
initialising = 1

abbrev pub ready : ℕ
ready = 2

-- `SLICK_PERFMON_NAME_CAPACITY` at its default.
abbrev pub name_capacity : ℕ
name_capacity = 64

-- `name_entry`; `name` is the whole array of bytes.
pub record NameEntry : Type 0 where
  pub key_plus_one : ℕ
  pub name : List ℕ

abbrev pub no_entry : NameEntry
no_entry = record { key_plus_one = 0; name = [] }

-- `control_block`, with the entries and the ring table that follow it.
pub record ControlBlock : Type 0 where
  pub magic : ℕ
  pub version : ℕ
  pub max_names : ℕ
  pub capacity : ℕ
  pub ring_count : ℕ
  pub ring_capacity : ℕ
  pub tsc_hz_milli : ℕ
  pub invariant_tsc : ℕ
  pub init_state : ℕ
  pub name_generation : ℕ
  pub names : List NameEntry
  pub rings : RingTable

-- `sizeof(control_block)` and `sizeof(name_entry)`.
abbrev block_size : ℕ
block_size = 48

abbrev entry_size : ℕ
entry_size = 72

-- `(names_end + 63) & ~63`.
unfoldable pub rings_offset : ℕ → ℕ
rings_offset max_names =
    let names_end : ℕ = (block_size + max_names * entry_size) % 2 ^ 64 in
    let up : ℕ = (names_end + 63) % 2 ^ 64 in up - bit_and up 63

unfoldable pub bytes_for : ℕ → ℕ → ℕ → ℕ
bytes_for max_names rings capacity =
    if rings == 0
    then rings_offset max_names
    else (rings_offset max_names + RingTable.bytes_for rings capacity) % 2 ^ 64

-- The loop over the names in `initialise`.
unfoldable pub clear_names : ℕ → List NameEntry → List NameEntry
clear_names zero es = es
clear_names (suc n) [] = []
clear_names (suc n) (e ∷ es) = record { key_plus_one = 0; name = set e.name 0 0 } ∷ clear_names n es

-- `initialise`, at its end. `b` is what the segment held.
unfoldable pub initialise : ControlBlock → ℕ → ℕ → ℕ → ControlBlock
initialise b max_names rings ring_capacity = record {
  magic = magic_number;
  version = layout_version;
  max_names = max_names;
  capacity = name_capacity;
  ring_count = rings;
  ring_capacity = ring_capacity;
  tsc_hz_milli = 0;
  invariant_tsc = 1;
  init_state = ready;
  name_generation = 0;
  names = clear_names max_names b.names;
  rings = if ltb 0 rings then RingTable.create rings ring_capacity else b.rings;
}

-- `await_ready`, where `loads t` is what load number t finds in `init_state`: the loads left, and the
-- number of the next one.
unfoldable pub await_from : ℕ → (ℕ → ℕ) → ℕ → Bool
await_from zero loads t = false
await_from (suc n) loads t =
    let rest = await_from n loads (t + 1) in if loads t == ready then true else rest

unfoldable pub await_ready : (ℕ → ℕ) → Bool
await_ready loads = await_from 10000 loads 0

pub data BlockError : Type 0 where
  magic_mismatch layout_mismatch capacity_mismatch max_names_mismatch rings_mismatch : BlockError

unfoldable pub validate : ControlBlock → ℕ → ℕ → ℕ → Result BlockError (Unit {0})
validate b max_names rings ring_capacity = do
  throw_if (not (b.magic == magic_number)) magic_mismatch
  throw_if (not (b.version == layout_version)) layout_mismatch
  throw_if (not (b.capacity == name_capacity)) capacity_mismatch
  throw_if (not (b.max_names == max_names)) max_names_mismatch
  throw_if (not (b.ring_count == rings) || (ltb 0 rings && not (b.ring_capacity == ring_capacity)))
      rings_mismatch
  ok tt

-- What opening the segment of a name gives: nothing, a segment that this process made, or one that
-- was there; in a segment that was there, the loads of `init_state` and the block once it is ready.
pub data Segment : Type 0 where
  invalid : Segment
  created : ControlBlock → Segment
  existing : (ℕ → ℕ) → ControlBlock → Segment

-- The rest of `attach_shared` and `create_shared` in a segment that was there.
unfoldable pub adopt : (ℕ → ℕ) → ControlBlock → ℕ → ℕ → ℕ → Result BlockError (Option ControlBlock)
adopt loads b max_names rings ring_capacity =
    if await_ready loads then (validate b max_names rings ring_capacity >> ok (some b)) else ok none

-- `create_shared`: the block that the owner has afterwards, or none where it returns false.
unfoldable pub create_shared : Segment → ℕ → ℕ → ℕ → Result BlockError (Option ControlBlock)
unfolding adopt
create_shared invalid max_names rings ring_capacity = ok none
create_shared (created b) max_names rings ring_capacity =
    ok (some (initialise b max_names rings ring_capacity))
create_shared (existing loads b) max_names rings ring_capacity =
    adopt loads b max_names rings ring_capacity

-- `attach_shared` opens existing segments only.
unfoldable pub attach_shared :
    Option ((ℕ → ℕ) × ControlBlock) → ℕ → ℕ → ℕ → Result BlockError (Option ControlBlock)
unfolding adopt
attach_shared none max_names rings ring_capacity = ok none
attach_shared (some (loads, b)) max_names rings ring_capacity =
    adopt loads b max_names rings ring_capacity

-- `create_local`; the heap block `b` has no rings.
unfoldable pub create_local : ControlBlock → ℕ → ControlBlock
create_local b max_names = initialise b max_names 0 0
