-- ===== src/Merge/Reached.antt =====
-- How far a merge of include/slick/perfmon/collector.hpp reads the rings.
use slick_perfmon.Prelude.{
  ℕ, zero, suc, ◌+◌, ◌≤◌, ◌<◌, ◌≡◌, refl, sym, ap, ◌∙◌, arith, Bool, true, false, leb, ◌==◌,
  if◌then◌else◌, Bool-cases, inl, inr, Option, none, some, List, [], ◌∷◌, ◌++◌, length, get_or,
}
use slick_perfmon.Event.{Sample}
use slick_perfmon.Shared.{Shared}
use slick_perfmon.Merge.{Source, Outside, Pass, next_stamp}
use slick_perfmon.Merge.Looping.{
  merge_sources, fresh_source, gather, staged_below, stage_source, erase_consumed, merge_staged,
}
use slick_perfmon.Merge.Feeding.{IsRings}
use slick_perfmon.Merge.Stamps.{next_stamp-Moves}
use slick_perfmon.Merge.Heaps.{Each, Each-map, IsHeaps}
use slick_perfmon.Merge.Turns.{Sits, IsStage}
use slick_perfmon.Merge.Order.{last_first, merge_sources_rule}
use slick_perfmon.Merge.Gathering.{gathered-Sits}
use slick_perfmon.Merge.Staged.{erase_consumed-keeps}
use slick_perfmon.Merge.Spent.{IsCaughtUp, IsWaiting}
use slick_perfmon.Merge.Outcome.{HasWait-after, next_stamp-Leaves}
use slick_perfmon.Merge.Covers.{IsRead, Knows, Covers, Covers-shuffle, Covers-step, Covers-IsKept}

module _ {W : Type 0} (o : Outside W) (published : ℕ → ℕ → Sample) (rings : IsRings o published)
    (t0 watermark : ℕ) (some_time : 0 < watermark) where
  -- A ring that waits for a stamp that is not before the watermark is caught up.
  waits-IsCaughtUp :
      (i : ℕ) (m : Pass W)
      → IsWaiting published i m
      → leb watermark (get_or m.waits i 0) ≡ true
      → IsCaughtUp o published t0 watermark i m
  waits-IsCaughtUp i m w e =
      let (is, same) = w (ground (arith, e, some_time)) in inr (is, ground (arith, e, same))

  abbrev Covered : ℕ → List Source → Pass W → Type 0
  Covered n sources m = Covers o published rings t0 watermark n sources m

  -- One more ring is caught up.
  skip_one :
      (i : ℕ) (sources : List Source) (m : Pass W)
      → IsCaughtUp o published t0 watermark i m
      → Covered i sources m
      → Covered (i + 1) sources m
  skip_one i sources m caught k = record {
    knows = k.knows;
    since = k.since;
    room = k.room;
    waiting = k.waiting;
    covered = λ j lt. elim (Bool-cases (i == j)) [
      | inl same ↦ let e : i ≡ j = ground (arith, same) in inl (rw e at caught)
      | inr apart ↦ k.covered j (ground (arith, lt, apart))
    ];
  }

  -- One more ring has a source.
  add_one :
      (i : ℕ) (src : Source) (sources : List Source) (m : Pass W)
      → src.ring ≡ some i
      → Knows o published rings t0 watermark m src
      → Covered i sources m
      → Covered (i + 1) (src ∷ sources) m
  add_one i src sources m r knows k = record {
    knows = (knows, k.knows);
    since = k.since;
    room = k.room;
    waiting = k.waiting;
    covered = λ j lt. elim (Bool-cases (i == j)) [
      | inl same ↦ inr (inl (r ∙ ap some (ground (arith, same))))
      | inr apart ↦ elim (k.covered j (ground (arith, lt, apart))) [
        | inl caught ↦ inl caught
        | inr h ↦ inr (inr h)
      ]
    ];
  }

  gather-Covers :
      (fuel n i : ℕ) (sources : List Source) (m : Pass W) (out : List Source × Pass W)
      → i + n ≡ o.count
      → Covered i sources m
      → gather o watermark fuel n i sources m ≡ some out
      → Covered o.count out.0 out.1
  unfolding gather
  gather-Covers fuel zero i sources m out total k e =
      let p : (sources, m) ≡ out = cc in
      let n : i ≡ o.count = omega (arith, total) in rw (sym p) (rw n at k)
  gather-Covers fuel (suc n) i sources m out total k e =
      elim (Bool-cases (leb watermark (get_or m.waits i 0))) [
        | inl waits ↦
            gather-Covers fuel n (i + 1) sources m out (omega (arith, total))
              (skip_one i sources m (waits-IsCaughtUp i m (k.waiting i) waits) k)
              (rw (gather, waits) at e)
        | inr reads ↦
            go reads (next_stamp o watermark fuel fresh m) refl
              λ sources' m'. gather-Covers fuel n (i + 1) sources' m' out (omega (arith, total))
      ]
    where
      fresh : Source
      fresh = fresh_source i (get_or m.cursors i 0)

      in_cursors : i < length m.cursors
      in_cursors = let (a, b) = k.room in omega (arith, a, total)

      in_waits : i < length m.waits
      in_waits = let (a, b) = k.room in omega (arith, b, total)

      grown :
          (more : Bool) (src : Source) (m' : Pass W)
          → next_stamp o watermark fuel fresh m ≡ some (more, src, m')
          → Covered (i + 1) (if more then src ∷ sources else sources) m'
      grown more src m' er =
          let h =
            next_stamp-Moves o published rings watermark 0 fuel fresh m (more, src, m') in_cursors
              tt (λ j le is. omega arith) er in
          Covers-step o published rings t0 watermark (i + 1) fresh sources m (more, src, m')
            (next_stamp-Leaves o published rings t0 watermark 0 fuel fresh m (more, src, m')
              in_cursors in_waits tt (λ j le is. omega arith) k.since tt er)
            h.same_ring h.size (add_one i fresh sources m refl (in_waits, tt) k)

      go :
          leb watermark (get_or m.waits i 0) ≡ false
          → (r : Option (Bool × Source × Pass W)) → next_stamp o watermark fuel fresh m ≡ r
          → ((sources' : List Source) (m' : Pass W)
              → Covered (i + 1) sources' m'
              → gather o watermark fuel n (i + 1) sources' m' ≡ some out
              → Covered o.count out.0 out.1)
          → Covered o.count out.0 out.1
      go reads none er again = absurd (let z = rw (gather, reads, er) at e in cc)
      go reads (some (true, src, m')) er again =
          again (sources ++ (src ∷ [])) m'
            (Covers-shuffle o published rings t0 watermark (i + 1) (src ∷ sources)
              (sources ++ (src ∷ [])) m' (last_first sources src) (grown true src m' er))
            (rw (gather, reads, er) at e)
      go reads (some (false, src, m')) er again =
          again sources m' (grown false src m' er) (rw (gather, reads, er) at e)

  stage_source-Knows :
      (below : List Sample) (m : Pass W)
      → Each (Knows o published rings t0 watermark m) (stage_source below)
  stage_source-Knows [] m = tt
  stage_source-Knows (s ∷ below) m = ((tt, tt), tt)

  pub merge_staged-IsRead :
      IsHeaps o
      → (fuel : ℕ) (sh : Shared W) (m : Pass W) (out : Shared W × Pass W)
      → (o.count ≤ length m.cursors) × (o.count ≤ length m.waits)
      → t0 ≤ m.time
      → ((j : ℕ) → IsWaiting published j m)
      → IsStage sh.stage
      → merge_staged o watermark fuel sh m ≡ some out
      → IsRead o published rings t0 watermark out.1
  unfolding merge_staged
  merge_staged-IsRead heaps fuel sh m out room since waiting stage e =
      gathered (gather o watermark fuel o.count 0 first m) refl
    where
      first : List Source
      first = stage_source (staged_below watermark sh.stage)

      begun : Covered 0 first m
      begun = record {
        knows = stage_source-Knows (staged_below watermark sh.stage) m;
        since = since;
        room = room;
        waiting = waiting;
        covered = λ j lt. absurd (omega (arith, lt));
      }

      gathered :
          (r : Option (List Source × Pass W))
          → gather o watermark fuel o.count 0 first m ≡ r
          → IsRead o published rings t0 watermark out.1
      gathered none er = absurd (let z = rw (merge_staged, er) at e in cc)
      gathered (some (sources, m')) er = merged (merge_sources o watermark fuel sources m1) refl
        where
          m1 : Pass W
          m1 = record m' { progressed = elim sources [ [] ↦ m'.progressed | s ∷ more ↦ true ] }

          k : Covered o.count sources m'
          k = gather-Covers fuel o.count 0 first m (sources, m') (omega arith) begun er

          k1 : Covered o.count sources m1
          k1 = record {
            knows =
                Each-map (Knows o published rings t0 watermark m')
                  (Knows o published rings t0 watermark m1) sources
                  (λ x h. (
                    HasWait-after o published rings t0 watermark x.ring x.ring m' m1 refl refl h.0,
                    h.1,
                  ))
                  k.knows;
            since = k.since;
            room = k.room;
            waiting = k.waiting;
            covered = k.covered;
          }

          sits : Each (Sits published watermark 0 m1) sources
          sits =
              gathered-Sits o published rings watermark fuel sh.stage m sources m' m1.progressed
                room.0 stage er

          merged :
              (r : Option (List Source × Pass W))
              → merge_sources o watermark fuel sources m1 ≡ r
              → IsRead o published rings t0 watermark out.1
          merged none er' = absurd (let z = rw (merge_staged, er, er') at e in cc)
          merged (some (spent, m'')) er' =
              let p : erase_consumed spent sh m'' ≡ out =
                (let z = rw (merge_staged, er, er') at e in cc) in
              let (hi, over) =
                merge_sources_rule o published rings watermark
                  (λ lo xs done x. Covers o published rings t0 watermark o.count xs x)
                  (Covers-IsKept o published rings t0 watermark o.count) heaps fuel 0 sources m1
                  (spent, m'') sits k1 er' in
              let (_, c, w, _) = erase_consumed-keeps o published rings watermark spent sh m'' in
              rw (sym p) (record {
                room = rw (c, w) over.room;
                waiting = λ j. rw (c, w) (over.waiting j);
                caught_up = λ j lt. elim (over.covered j lt) [
                  | inl caught ↦ rw c caught
                  | inr no_source ↦ absurd no_source
                ];
              })
