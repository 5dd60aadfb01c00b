-- ===== src/Merge/Draining.antt =====
-- `drain_once` of include/slick/perfmon/collector.hpp: the pass that the collector's thread makes.
use slick_perfmon.Prelude.{ℕ, ◌-◌, ◌≤◌, ◌<◌, ◌≡◌, arith, ltb, true, some, length}
use slick_perfmon.Event.{Sample}
use slick_perfmon.Shared.{Queue, Shared, read_shared}
use slick_perfmon.Merge.{Outside, Pass}
use slick_perfmon.Merge.Looping.{merge_pass, drain_once}
use slick_perfmon.Merge.Feeding.{IsRings}
use slick_perfmon.Merge.Heaps.{IsHeaps}
use slick_perfmon.Merge.Turns.{IsStage, Merges}
use slick_perfmon.Merge.Passes.{read_shared-Stages, merge_pass-ends}
use slick_perfmon.Merge.Spent.{IsWaiting}
use slick_perfmon.Merge.Covers.{IsRead}
use slick_perfmon.Merge.Reached.{merge_staged-IsRead}

module _ {W : Type 0} (o : Outside W) (published : ℕ → ℕ → Sample) (rings : IsRings o published)
    (heaps : IsHeaps o) (some_rings : 0 < o.count) where
  merge_pass-IsRead :
      (watermark : ℕ) (some_time : 0 < watermark) (q : Queue)
      (queue_capacity t now timeout fuel : ℕ) (sh : Shared W) (m : Pass W) (out : Shared W × Pass W)
      → (o.count ≤ length m.cursors) × (o.count ≤ length m.waits)
      → ((j : ℕ) → IsWaiting published j m)
      → IsStage sh.stage
      → merge_pass o q queue_capacity t now timeout watermark fuel sh m ≡ some out
      → IsRead o published rings m.time watermark out.1
  unfolding merge_pass
  merge_pass-IsRead watermark some_time q queue_capacity t now timeout fuel sh m out room waiting
        stage e =
      let f =
        read_shared-Stages o watermark some_rings q queue_capacity t now timeout
          (record sh { world = m.world }) stage in
      let (sh1, any) =
        read_shared o.on_event q o.count queue_capacity t now timeout
          (record sh { world = m.world }) in
      merge_staged-IsRead o published rings m.time watermark some_time heaps fuel sh1
        (record m { world = sh1.world; progressed = any }) out room (omega arith) waiting f.stage e

  -- With at least one thread ring, a cursor and a time to wait for for each, rings whose threads
  -- published their stamps in the order of their times, heads that are not past a limit, heap
  -- algorithms that do what the C++ library's do, waits that are the times of the stamps at the
  -- cursors, a stage of stamps in the order of their times, and a clock past the hold-back: given
  -- enough fuel, `drain_once` returns. By then each ring was read at least up to the head that it had
  -- at the start of the pass, or to a stamp that is not before the clock less the hold-back, where its
  -- cursor stands. The pairer was fed values, and stamps before the clock less the hold-back in
  -- the order of their times. The waits are again the times of the stamps at the cursors, and the stage
  -- is in the order of time.
  pub drain_once-catches_up :
      (limit : ℕ)
      → ((i t : ℕ) → o.head i t ≤ limit)
      → (q : Queue) (queue_capacity t now timeout clock holdback_cycles : ℕ)
        (past : holdback_cycles < clock) (sh : Shared W) (m : Pass W)
      → (o.count ≤ length m.cursors) × (o.count ≤ length m.waits)
      → ((j : ℕ) → IsWaiting published j m)
      → IsStage sh.stage
      → (fuel : ℕ) × (out : Shared W × Pass W) × (drain_once o q queue_capacity t now timeout clock
            holdback_cycles fuel sh m
          ≡ some out)
        × Merges o (clock - holdback_cycles) m out
        × IsRead o published rings m.time (clock - holdback_cycles) out.1
  unfolding drain_once
  drain_once-catches_up limit heads q queue_capacity t now timeout clock holdback_cycles past sh m
        room waiting stage =
      let watermark : ℕ = clock - holdback_cycles in
      let later : ltb holdback_cycles clock ≡ true = ground (arith, past) in
      let (fuel, out, e, merges) =
        merge_pass-ends o watermark some_rings published rings heaps limit heads q queue_capacity t
          now timeout sh m room.0 stage in
      (
        fuel,
        out,
        rw later e,
        merges,
        merge_pass-IsRead watermark (omega (arith, past)) q queue_capacity t now timeout fuel sh m
            out room waiting stage e,
      )
