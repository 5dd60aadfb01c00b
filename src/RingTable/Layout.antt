-- ===== src/RingTable/Layout.antt =====
-- Where the rings of a table lie.
use native.Mathlib.Nat.{mod-eq_of_lt, mul-le-mul_left}
use slick_perfmon.Prelude.{ℕ, suc, ◌+◌, ◌*◌, ◌^◌, ◌≤◌, ◌<◌, arith}
use slick_perfmon.RingTable.{RingTable, bytes_for, data_at, header_size, slot_size, sample_size}

rows : (a b c : ℕ) → a < b → a * c + c ≤ b * c
rows a b c lt = let m = mul-le-mul_left c (let s : suc a ≤ b = lt in s) in grind (arith, m)

-- In a table whose size is below 2 ^ 64 bytes, the samples of ring i end before those of a later
-- ring j begin, and those of ring j end within the bytes that are reserved for the table.
pub data_at_bounds :
    (t : RingTable) (i j : ℕ)
    → header_size + t.count * slot_size + t.count * t.capacity * sample_size < 2 ^ 64
    → i < j
    → j < t.count
    → (data_at t i + t.capacity * sample_size ≤ data_at t j)
      × (data_at t j + t.capacity * sample_size ≤ bytes_for t.count t.capacity)
unfolding data_at bytes_for
data_at_bounds t i j fits before lt = (
  omega (arith, rows i j t.capacity before),
  omega (arith, mod-eq_of_lt fits, rows j t.count t.capacity lt),
)
