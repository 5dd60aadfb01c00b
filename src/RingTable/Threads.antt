-- ===== src/RingTable/Threads.antt =====
-- Threads that claim and retire rings of one table, one access to a claim word at a time, and a
-- collector that frees retired rings.
use slick_perfmon.Prelude.{ℕ, ◌+◌, ltb, ◌==◌, if◌then◌else◌, List, [], ◌∷◌}
use slick_perfmon.RingTable.{
  RingTable, ring_free, ring_retired, ring_state, owner_at, exchange, retire, release,
}

-- Where a thread stands: before `claim`, at the load of ring i in its loop, at the exchange after
-- it, in possession of ring i, or past a claim that failed.
pub data Pc : Type 0 where
  idle refused : Pc
  looking trying holding : ℕ → Pc

pub record System : Type 0 where
  pub table : RingTable
  pub pc : ℕ → Pc

abbrev pub put : (ℕ → Pc) → ℕ → Pc → ℕ → Pc
put f t p u = if u == t then p else f u

-- The next access of thread t, whose owner word is `own t`; a thread that holds a ring retires it.
unfoldable pub act : (ℕ → ℕ) → ℕ → System → System
act own t σ = elim (σ.pc t) [
  | idle ↦ record σ { pc = put σ.pc t (looking 0) }
  | refused ↦ σ
  | looking i ↦
      if ltb i σ.table.count
      then (if owner_at σ.table i == ring_free
          then record σ { pc = put σ.pc t (trying i) }
          else record σ { pc = put σ.pc t (looking (i + 1)) })
      else record σ { pc = put σ.pc t refused }
  | trying i ↦
      let (table', won) = exchange σ.table i ring_free (own t) in
      record { table = table'; pc = put σ.pc t (if won then holding i else looking (i + 1)) }
  | holding i ↦ record { table = retire σ.table i (own t); pc = put σ.pc t idle }
]

-- A turn of a thread, or a release of ring i by a collector that has seen a word there.
pub data Event : Type 0 where
  turn : ℕ → Event
  free_ring : ℕ → ℕ → Event

-- The test of `release_retired_rings`; that the ring is drained only makes releases rarer.
unfoldable pub step : (ℕ → ℕ) → Event → System → System
step own (turn t) σ = act own t σ
step own (free_ring i seen) σ =
    if ring_state seen == ring_retired then record σ { table = (release σ.table i seen).0 } else σ

unfoldable pub run : (ℕ → ℕ) → List Event → System → System
run own [] σ = σ
run own (e ∷ es) σ = run own es (step own e σ)
