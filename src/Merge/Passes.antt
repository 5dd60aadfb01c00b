-- ===== src/Merge/Passes.antt =====
-- A whole pass of include/slick/perfmon/collector.hpp: the shared ring is read, then everything is
-- merged.
use slick_perfmon.Prelude.{
  ℕ, zero, suc, ◌+◌, ◌≤◌, ◌<◌, ◌≡◌, refl, arith, true, false, ltb, leb, ◌-◌, ◌*◌, if◌then◌else◌,
  Bool-cases, inl, inr, Option, none, some, List, [], ◌∷◌, length,
}
use slick_perfmon.Event.{Sample, is_value_event}
use slick_perfmon.Shared.{
  Queue, Shared, place, goes_straight, take_batch, read_shared_once, skip_hole, check_stall,
  read_rounds, read_shared,
}
use slick_perfmon.Shared.Stage.{place-IsSorted}
use slick_perfmon.Merge.{Outside, Pass}
use slick_perfmon.Merge.Looping.{merge_pass}
use slick_perfmon.Merge.Feeding.{IsStamp, Feeds, nothing, a_value, Feeds-trans, IsRings}
use slick_perfmon.Merge.Heaps.{IsHeaps}
use slick_perfmon.Merge.Finished.{merge_staged-IsSome}
use slick_perfmon.Merge.Turns.{OnlyStamps, IsStage, Merges}
use slick_perfmon.Merge.Staged.{merge_staged-Merges}

OnlyStamps-place :
    (s : Sample) (stage : List Sample) → IsStamp s → OnlyStamps stage → OnlyStamps (place s stage).1
unfolding place
OnlyStamps-place s [] is h = (is, tt)
OnlyStamps-place s (x ∷ stage) is (isx, h) = elim (Bool-cases (place s stage).0) [
  | inr behind ↦ rw behind (isx, OnlyStamps-place s stage is h)
  | inl first ↦ elim (Bool-cases (ltb s.timestamp x.timestamp)) [
    | inl before ↦ rw (first, before) (is, (isx, h))
    | inr after ↦ rw (first, after) (isx, (is, h))
  ]
]

module _ {W : Type 0} (o : Outside W) (watermark : ℕ) (some_rings : 0 < o.count) where
  -- What reading the shared ring does to the stage and to the pairer.
  pub record Stages (m m' : Shared W) : Type 0 where
    pub stage : IsStage m'.stage
    pub fed : Feeds o watermark 0 m.world 0 m'.world

  take_batch-Stages :
      (batch : List Sample) (m : Shared W)
      → IsStage m.stage
      → Stages m (take_batch o.on_event o.count batch m)
  unfolding take_batch goes_straight
  take_batch-Stages [] m h = record { stage = h; fed = nothing }
  take_batch-Stages (s ∷ batch) m (only, sorted) = elim (Bool-cases (is_value_event s.event)) [
    | inl is ↦
        let f =
          take_batch-Stages batch (record m { world = o.on_event s m.world }) (only, sorted) in
        let t : goes_straight o.count s ≡ true = ground (arith, is) in
        rw t (record {
          stage = f.stage;
          fed =
              Feeds-trans o watermark 0 0 m.world (o.on_event s m.world) 0 _ (a_value s nothing is)
                f.fed;
        })
    | inr stamp ↦
        let f =
          take_batch-Stages batch (record m { stage = (place s m.stage).1 })
            (OnlyStamps-place s m.stage stamp only, place-IsSorted s m.stage sorted) in
        let t : goes_straight o.count s ≡ false = ground (arith, stamp, some_rings) in
        rw t (record { stage = f.stage; fed = f.fed })
  ]

  Stages-trans : (a b c : Shared W) → Stages a b → Stages b c → Stages a c
  Stages-trans a b c f g = record {
    stage = g.stage;
    fed = Feeds-trans o watermark 0 0 a.world b.world 0 c.world f.fed g.fed;
  }

  module _ (q : Queue) where
    read_shared_once-Stages :
        (t : ℕ) (m : Shared W)
        → IsStage m.stage
        → Stages m (read_shared_once o.on_event q o.count t m).0
    unfolding read_shared_once take_batch
    read_shared_once-Stages t m h = go (q.read t m.cursor).0 refl
      where
        go :
            (batch : List Sample)
            → (q.read t m.cursor).0 ≡ batch
            → Stages m (read_shared_once o.on_event q o.count t m).0
        go [] e = rw (read_shared_once, e) (record { stage = h; fed = nothing })
        go (s ∷ batch) e =
            let f = take_batch-Stages (s ∷ batch) (record m { cursor = (q.read t m.cursor).1 }) h in
            rw (read_shared_once, e) (record { stage = f.stage; fed = f.fed })

    read_rounds-Stages :
        (n t : ℕ) (m : Shared W)
        → IsStage m.stage
        → Stages m (read_rounds o.on_event q o.count n t m).0
    unfolding read_rounds
    read_rounds-Stages zero t m h = record { stage = h; fed = nothing }
    read_rounds-Stages (suc n) t m h =
        let f = read_shared_once-Stages t m h in
        let (m1, any) = read_shared_once o.on_event q o.count t m in
        let g = read_rounds-Stages n (t + 1) m1 f.stage in
        elim (Bool-cases any) [
          | inl more ↦ rw more (Stages-trans m m1 _ f g)
          | inr nothing_there ↦ rw nothing_there f
        ]

    check_stall-Stages :
        (t now timeout : ℕ) (m : Shared W)
        → IsStage m.stage
        → Stages m (check_stall q t now timeout m)
    unfolding check_stall skip_hole
    check_stall-Stages t now timeout m h = elim (Bool-cases (leb (q.reserved t) m.cursor)) [
      | inl caught_up ↦ rw caught_up (record { stage = h; fed = nothing })
      | inr behind ↦ rw behind (go m.stalled_since refl)
    ]
      where
        go :
            (since : Option ℕ)
            → m.stalled_since ≡ since
            → Stages m (elim since [
              | none ↦ record m { stalled_since = some now }
              | some since' ↦
                  if ltb (now - since') timeout
                  then m
                  else record (skip_hole q m.cursor m) { stalled_since = none }
            ])
        go none e = record { stage = h; fed = nothing }
        go (some since) e = elim (Bool-cases (ltb (now - since) timeout)) [
          | inl early ↦ rw early (record { stage = h; fed = nothing })
          | inr late ↦ rw late (record { stage = h; fed = nothing })
        ]

    pub read_shared-Stages :
        (capacity t now timeout : ℕ) (m : Shared W)
        → IsStage m.stage
        → Stages m (read_shared o.on_event q o.count capacity t now timeout m).0
    unfolding read_shared
    read_shared-Stages capacity t now timeout m h =
        let f = read_rounds-Stages capacity t m h in
        let (m1, any) = read_rounds o.on_event q o.count capacity t m in
        elim (Bool-cases any) [
          | inl more ↦ rw more (record { stage = f.stage; fed = f.fed })
          | inr nothing_there ↦
              rw nothing_there
                (Stages-trans m m1 _ f (check_stall-Stages (t + capacity) now timeout m1 f.stage))
        ]

  -- Where `merge_pass` returns, it merges.
  merge_pass-Merges :
      (published : ℕ → ℕ → Sample)
      → IsRings o published
      → IsHeaps o
      → (q : Queue) (queue_capacity t now timeout fuel : ℕ) (sh : Shared W) (m : Pass W)
        (out : Shared W × Pass W)
      → o.count ≤ length m.cursors
      → IsStage sh.stage
      → merge_pass o q queue_capacity t now timeout watermark fuel sh m ≡ some out
      → Merges o watermark m out
  unfolding merge_pass
  merge_pass-Merges published rings heaps q queue_capacity t now timeout fuel sh m out room stage
        e =
      let f =
        read_shared-Stages q queue_capacity t now timeout (record sh { world = m.world }) stage in
      let (sh1, any) =
        read_shared o.on_event q o.count queue_capacity t now timeout
          (record sh { world = m.world }) in
      let m1 : Pass W = record m { world = sh1.world; progressed = any } in
      let g =
        merge_staged-Merges o published rings watermark heaps fuel sh1 m1 out room f.stage e in
      let (hi, fed) = g.fed in
      record {
        fed = (hi, Feeds-trans o watermark 0 0 m.world sh1.world hi out.1.world f.fed fed);
        stage = g.stage;
      }

  -- With at least one thread ring and a cursor for each, rings whose threads published their stamps
  -- in the order of their times, heads that are not past a limit, heap algorithms that do what the
  -- C++ library's do, and a stage of stamps in the order of their times: `merge_pass` returns, given
  -- enough fuel. By then whatever the pairer was fed, from all the rings, the stage and the shared
  -- ring together, was a value, or a stamp before the watermark that is no earlier than the stamp fed
  -- before it; and the stage still holds stamps in the order of their times.
  pub merge_pass-ends :
      (published : ℕ → ℕ → Sample)
      → IsRings o published
      → IsHeaps o
      → (limit : ℕ) → ((i t : ℕ) → o.head i t ≤ limit)
      → (q : Queue) (queue_capacity t now timeout : ℕ) (sh : Shared W) (m : Pass W)
      → o.count ≤ length m.cursors
      → IsStage sh.stage
      → (fuel : ℕ) × (out : Shared W × Pass W) × (merge_pass o q queue_capacity t now timeout
            watermark fuel sh m
          ≡ some out)
        × Merges o watermark m out
  unfolding merge_pass
  merge_pass-ends published rings heaps limit heads q queue_capacity t now timeout sh m room stage =
      let f =
        read_shared-Stages q queue_capacity t now timeout (record sh { world = m.world }) stage in
      let (sh1, any) =
        read_shared o.on_event q o.count queue_capacity t now timeout
          (record sh { world = m.world }) in
      let m1 : Pass W = record m { world = sh1.world; progressed = any } in
      let fuel : ℕ = length sh1.stage + 2 * limit + o.count * (2 * limit) + 2 in
      let (out, e) =
        merge_staged-IsSome o published rings limit watermark heads heaps fuel sh1 m1 room f.stage
          (omega arith) in
      (
        fuel,
        out,
        e,
        merge_pass-Merges published rings heaps q queue_capacity t now timeout fuel sh m out room
            stage e,
      )
