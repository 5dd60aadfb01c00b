-- ===== src/RingTable.antt =====
-- The table of the per-thread rings: include/slick/perfmon/detail/ring_table.hpp. A table is its
-- header and its claim slots; the samples of ring i lie at `data_at`.
pub mod Owner
pub mod Layout
pub mod Claim
pub mod Threads
pub mod Exclusive
pub mod Reclaim
mod Tests
use slick_perfmon.Prelude.{
  ℕ, zero, suc, ◌+◌, ◌-◌, ◌*◌, ◌/◌, ◌%◌, ◌^◌, bit_and, bit_or, Bool, true, false, ltb, ◌==◌,
  if◌then◌else◌, Option, none, some, List, [], ◌∷◌, get_or, set, map, replicate,
}

abbrev pub ring_free : ℕ
ring_free = 0

abbrev pub ring_active : ℕ
ring_active = 1

abbrev pub ring_retired : ℕ
ring_retired = 2

pub ring_owner : ℕ → ℕ → ℕ → ℕ
ring_owner pid tag state =
    bit_or (bit_or (pid * 2 ^ 32 % 2 ^ 64) (bit_and tag 0xFFFFFF * 2 ^ 8 % 2 ^ 64)) state

unfoldable pub ring_state : ℕ → ℕ
ring_state owner = bit_and owner 0xFF

pub ring_pid : ℕ → ℕ
ring_pid owner = owner / 2 ^ 32 % 2 ^ 32

pub record RingSlot : Type 0 where
  pub head : ℕ
  pub owner : ℕ

abbrev pub no_slot : RingSlot
no_slot = record { head = 0; owner = 0 }

-- `ring_table_header` and the slots after it; `slots` has `count` entries.
pub record RingTable : Type 0 where
  pub count : ℕ
  pub capacity : ℕ
  pub next_tag : ℕ
  pub slots : List RingSlot

abbrev pub header_size : ℕ
header_size = 64

abbrev pub slot_size : ℕ
slot_size = 128

abbrev pub sample_size : ℕ
sample_size = 16

unfoldable pub bytes_for : ℕ → ℕ → ℕ
bytes_for count capacity =
    (header_size + count * slot_size + count * capacity * sample_size) % 2 ^ 64

-- `view`: where the samples of ring i start, in bytes from the header.
unfoldable pub data_at : RingTable → ℕ → ℕ
data_at t i = header_size + t.count * slot_size + i * t.capacity * sample_size

unfoldable pub create : ℕ → ℕ → RingTable
create count capacity = record {
  count = count;
  capacity = capacity;
  next_tag = 1;
  slots = replicate count (record { head = 0; owner = ring_free });
}

-- Every ring free again, every head kept.
unfoldable pub reuse : RingTable → RingTable
reuse t = record t { slots = map (λ (s : RingSlot). record s { owner = ring_free }) t.slots }

-- `fetch_add` on 32 bits.
unfoldable pub take_tag : RingTable → ℕ × RingTable
take_tag t = (t.next_tag, record t { next_tag = (t.next_tag + 1) % 2 ^ 32 })

abbrev pub slot_at : RingTable → ℕ → RingSlot
slot_at t i = get_or t.slots i no_slot

abbrev pub owner_at : RingTable → ℕ → ℕ
owner_at t i = (slot_at t i).owner

abbrev pub set_owner : RingTable → ℕ → ℕ → RingTable
set_owner t i w = record t { slots = set t.slots i (record (slot_at t i) { owner = w }) }

-- `compare_exchange_strong` on the claim word of ring i.
unfoldable pub exchange : RingTable → ℕ → ℕ → ℕ → RingTable × Bool
exchange t i expected desired =
    if owner_at t i == expected then (set_owner t i desired, true) else (t, false)

-- `claim` from ring i on, with the rounds left; `none` is -1.
unfoldable pub claim_from : ℕ → RingTable → ℕ → ℕ → RingTable × Option ℕ
unfolding exchange
claim_from zero t i owner = (t, none)
claim_from (suc n) t i owner =
    let rest = claim_from n t (i + 1) owner in
    if owner_at t i == ring_free
    then (let (t', won) = exchange t i ring_free owner in if won then (t', some i) else rest)
    else rest

unfoldable pub claim : RingTable → ℕ → RingTable × Option ℕ
unfolding claim_from
claim t owner = claim_from t.count t 0 owner

-- `(owner & ~0xFF) | kRingRetired`.
unfoldable pub retired_word : ℕ → ℕ
retired_word owner = bit_or (owner - bit_and owner 0xFF) ring_retired

unfoldable pub retire : RingTable → ℕ → ℕ → RingTable
unfolding exchange
retire t i owner = (exchange t i owner (retired_word owner)).0

unfoldable pub release : RingTable → ℕ → ℕ → RingTable × Bool
unfolding exchange
release t i seen = exchange t i seen ring_free
