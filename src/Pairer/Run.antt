-- ===== src/Pairer/Run.antt =====
-- A run of events: the spans of a whole session are accounted for.
use slick_perfmon.Prelude.{ℕ, ◌+◌, ◌^◌, ◌≤◌, ◌<◌, ◌≡◌, refl, arith, List, [], ◌∷◌, length}
use slick_perfmon.OpenMap.Valid.{lookup}
use slick_perfmon.Event.{Sample}
use slick_perfmon.Accumulator.{Doubles}
use slick_perfmon.Pairer.{Pairer, Heap, OpenSpan-Default, on_event}
use slick_perfmon.Pairer.Valid.{IsValid}
use slick_perfmon.Pairer.Nominate.{IsHeap}
use slick_perfmon.Pairer.Events.{accounted, completed, begun, key_of, on_event-Handles}

-- The begins among some events.
pub begins : List Sample → ℕ
begins [] = 0
begins (s ∷ ss) = begun s + begins ss

module _ {F : Type 0} ⦃f : Doubles F⦄ ⦃heap : Heap⦄ where
  -- The events in order, and how many spans they complete.
  pub run : List Sample → Pairer F → Pairer F
  run [] w = w
  run (s ∷ ss) w = run ss (on_event s w)

  pub completions : List Sample → Pairer F → ℕ
  completions [] w = 0
  completions (s ∷ ss) w = completed s (lookup w.spans (key_of s)) + completions ss (on_event s w)

  -- After any run of events from a valid pairer, in which the count of spans cannot wrap, the
  -- invariant holds, and the spans that are open, completed, abandoned or invalid are as many as
  -- those from the start and the begins of the run: no span is lost uncounted.
  pub run_accounts :
      (laws : IsHeap heap) (ss : List Sample) (w : Pairer F)
      → IsValid w
      → accounted w + length ss < 2 ^ 64
      → IsValid (run ss w) × (accounted (run ss w) + completions ss w ≡ accounted w + begins ss)
  unfolding run completions begins accounted
  run_accounts laws [] w v fits = (v, refl)
  run_accounts laws (s ∷ ss) w v fits =
      let h = on_event-Handles laws s w v (omega arith) (omega arith) in
      let one : begun s ≤ 1 = ground arith in
      let (valid, sum) =
        run_accounts laws ss (on_event s w) h.valid (omega (arith, h.balance, one)) in
      (valid, omega (arith, sum, h.balance))
