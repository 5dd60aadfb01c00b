-- ===== src/Shared/Drain.antt =====
-- The final drain reaches everything that was reserved when it began.
use native.Mathlib.Nat.{mod-eq_of_lt}
use native.Mathlib.Decide.{dec_lt}
use slick_perfmon.Prelude.{
  ℕ, zero, suc, ◌+◌, ◌-◌, ◌%◌, ◌^◌, ◌≤◌, ◌<◌, ◌≡◌, refl, ◌∙◌, arith, true, ltb, leb, Bool-cases,
  inl, inr, List, [], ◌∷◌,
}
use slick_perfmon.Event.{Sample}
use slick_perfmon.Shared.{
  Queue, Shared, take_batch, read_shared_once, skip_hole, drain_from, final_drain,
  final_drain_grace,
}

-- What the drain relies on of the ring: a read never moves the cursor back, and a read that gives
-- samples moves it on.
pub record MovesOn (q : Queue) : Type 0 where
  pub onward : (t c : ℕ) → c ≤ (q.read t c).1
  pub further :
      (t c : ℕ) (s : Sample) (batch : List Sample) → (q.read t c).0 ≡ s ∷ batch → c < (q.read t c).1
  pub wide : 0 < q.items_per_slot

module _ {W : Type 0} (on_event : Sample → W → W) (q : Queue) (ok : MovesOn q) (rings : ℕ) where
  take_batch-cursor :
      (batch : List Sample) (m : Shared W) → (take_batch on_event rings batch m).cursor ≡ m.cursor
  unfolding take_batch
  take_batch-cursor [] m = refl
  take_batch-cursor (s ∷ batch) m = take_batch-cursor batch _ ∙ ground arith

  once_cursor :
      (t : ℕ) (m : Shared W)
      → (read_shared_once on_event q rings t m).0.cursor ≡ (q.read t m.cursor).1
  unfolding read_shared_once
  once_cursor t m = go (q.read t m.cursor).0 refl
    where
      go :
          (batch : List Sample)
          → (q.read t m.cursor).0 ≡ batch
          → (read_shared_once on_event q rings t m).0.cursor ≡ (q.read t m.cursor).1
      go [] e = rw (read_shared_once, e) refl
      go (s ∷ batch) e =
          rw (read_shared_once, e)
            (take_batch-cursor (s ∷ batch) (record m { cursor = (q.read t m.cursor).1 }))

  once_further :
      (t : ℕ) (m : Shared W)
      → (read_shared_once on_event q rings t m).1 ≡ true
      → m.cursor < (q.read t m.cursor).1
  unfolding read_shared_once
  once_further t m h = go (q.read t m.cursor).0 refl
    where
      go : (batch : List Sample) → (q.read t m.cursor).0 ≡ batch → m.cursor < (q.read t m.cursor).1
      go [] e = absurd (let z = rw (read_shared_once, e) at h in cc)
      go (s ∷ batch) e = ok.further t m.cursor s batch e

  module _ (clock : ℕ → ℕ) (deadline target : ℕ) (patience : ℕ)
      (late : (t : ℕ) → patience ≤ t → deadline ≤ clock t)
      (room : target + q.items_per_slot < 2 ^ 64) where
    in_time : (t : ℕ) → ltb (clock t) deadline ≡ true → t < patience
    in_time t early = elim (dec_lt t patience) [
      | yes lt ↦ lt
      | no past ↦ absurd (let l = late t (omega arith) in ground (arith, l, early))
    ]

    -- Each round moves the cursor on or uses up some of the patience.
    drain_from-reaches :
        (fuel t : ℕ) (m : Shared W)
        → (target - m.cursor) + (patience - t) < fuel
        → target ≤ (drain_from on_event q rings clock deadline target fuel t m).cursor
    unfolding drain_from skip_hole
    drain_from-reaches zero t m h = absurd (omega arith)
    drain_from-reaches (suc fuel) t m h = elim (Bool-cases (ltb m.cursor target)) [
      | inr there ↦ rw there (ground (arith, there))
      | inl short ↦
          let c = once_cursor t m in
          let on = ok.onward t m.cursor in
          let below : m.cursor < target = ground (arith, short) in
          let once = read_shared_once on_event q rings t m in
          elim (Bool-cases once.1) [
            | inl got ↦
                let f = once_further t m got in
                rw (short, got)
                  (drain_from-reaches fuel (t + 1) once.0 (omega (arith, h, c, f, below)))
            | inr empty ↦ elim (Bool-cases (leb target once.0.cursor)) [
              | inl done ↦ rw (short, empty, done) (ground (arith, done))
              | inr more ↦ elim (Bool-cases (ltb (clock t) deadline)) [
                | inl early ↦
                    let wait : t < patience = in_time t early in
                    rw (short, empty, more, early)
                      (drain_from-reaches fuel (t + 1) once.0 (omega (arith, h, c, on, wait)))
                | inr due ↦
                    let left : once.0.cursor < target = ground (arith, more) in
                    let w : (once.0.cursor + q.items_per_slot) % 2 ^ 64
                        ≡ once.0.cursor + q.items_per_slot =
                      mod-eq_of_lt (omega (arith, left, room)) in
                    rw (short, empty, more, due)
                      (drain_from-reaches fuel (t + 1) (skip_hole q once.0.cursor once.0)
                        (omega (arith, h, c, on, w, ok.wide, left, below)))
              ]
            ]
          ]
    ]

  -- With enough fuel for the samples that are reserved and for the loads until the clock is past the
  -- grace, which is the shorter of the timeout and 100, on a ring that moves on: the cursor of the
  -- final drain ends at or past what was reserved when it began.
  pub final_drain-reaches :
      (clock : ℕ → ℕ) (timeout patience fuel : ℕ) (m : Shared W)
      → ((t : ℕ) → patience ≤ t → clock 0 + final_drain_grace ≤ clock t)
      → q.reserved 0 + q.items_per_slot < 2 ^ 64
      → q.reserved 0 + patience < fuel
      → q.reserved 0 ≤ (final_drain on_event q rings clock timeout fuel m).cursor
  unfolding final_drain
  final_drain-reaches clock timeout patience fuel m late room enough =
      drain_from-reaches clock _ (q.reserved 0) patience (λ t le. ground (arith, late t le)) room
        fuel 1 m (omega (arith, enough))
