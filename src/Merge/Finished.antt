-- ===== src/Merge/Finished.antt =====
-- The merge of include/slick/perfmon/collector.hpp comes to an end.
use slick_perfmon.Prelude.{
  ℕ, zero, suc, ◌+◌, ◌*◌, ◌≤◌, ◌≡◌, refl, arith, Bool, true, false, leb, if◌then◌else◌, Bool-cases,
  inl, inr, Option, some, List, [], ◌∷◌, ◌++◌, length, get_or,
}
use slick_perfmon.Event.{Sample}
use slick_perfmon.Shared.{Shared}
use slick_perfmon.Merge.{Source, Outside, Pass, next_stamp}
use slick_perfmon.Merge.Looping.{
  merge_sources, fresh_source, gather, staged_below, stage_source, erase_consumed, merge_staged,
}
use slick_perfmon.Merge.Feeding.{IsRings}
use slick_perfmon.Merge.Stamps.{next_stamp-Moves}
use slick_perfmon.Merge.Heaps.{Each, IsHeaps}
use slick_perfmon.Merge.Turns.{Sits, IsStage}
use slick_perfmon.Merge.Gathering.{
  length-staged_below, gather_one, stage_source-Sits, gathered-Sits,
}
use slick_perfmon.Merge.Reading.{left_of}
use slick_perfmon.Merge.Ending.{Returns, next_stamp-Returns}
use slick_perfmon.Merge.Finishing.{all_left, all_left-append, IsSome, merge_sources-IsSome}

module _ {W : Type 0} (o : Outside W) (published : ℕ → ℕ → Sample) (rings : IsRings o published)
    (limit watermark : ℕ) (heads : (i t : ℕ) → o.head i t ≤ limit) where
  -- The loop over the rings comes back; each ring adds no more than what is left up to the limit.
  record Gathered (n : ℕ) (sources : List Source) (r : Option (List Source × Pass W)) : Type 0 where
    out : List Source × Pass W
    returns : r ≡ some out
    most : all_left limit out.0 ≤ all_left limit sources + n * (2 * limit)

  gather-Gathered :
      (fuel n i : ℕ) (sources : List Source) (m : Pass W)
      → i + n ≤ length m.cursors
      → 2 * limit + 2 ≤ fuel
      → Each (Sits published watermark 0 m) sources
      → Gathered n sources (gather o watermark fuel n i sources m)
  unfolding gather
  gather-Gathered fuel zero i sources m room enough each = record {
    out = (sources, m);
    returns = refl;
    most = omega arith;
  }
  gather-Gathered fuel (suc n) i sources m room enough each =
      elim (Bool-cases (leb watermark (get_or m.waits i 0))) [
        | inl waits ↦
            let g = gather-Gathered fuel n (i + 1) sources m (omega (arith, room)) enough each in
            let most = g.most in
            rw (gather, waits)
              (record { out = g.out; returns = g.returns; most = omega (arith, most) })
        | inr reads ↦
            go reads f.out f.returns f.less
              λ sources' m' room'. gather-Gathered fuel n (i + 1) sources' m' room' enough
      ]
    where
      fresh : Source
      fresh = fresh_source i (get_or m.cursors i 0)

      f :
          Returns o published rings limit watermark heads fresh m
            (next_stamp o watermark fuel fresh m)
      f =
          next_stamp-Returns o published rings limit watermark heads fuel fresh m
            (omega (arith, room)) (omega (arith, enough))

      go :
          leb watermark (get_or m.waits i 0) ≡ false
          → (out : Bool × Source × Pass W) → next_stamp o watermark fuel fresh m ≡ some out
          → left_of limit out.1 ≤ left_of limit fresh
          → ((sources' : List Source) (m' : Pass W)
              → i + 1 + n ≤ length m'.cursors
              → Each (Sits published watermark 0 m') sources'
              → Gathered n sources' (gather o watermark fuel n (i + 1) sources' m'))
          → Gathered (suc n) sources (gather o watermark fuel (suc n) i sources m)
      go reads (more, src, m') e le again =
          let h =
            next_stamp-Moves o published rings watermark 0 fuel fresh m (more, src, m')
              (omega (arith, room)) tt (λ k le is. omega arith) e in
          let size = h.size in
          let g =
            again (if more then sources ++ (src ∷ []) else sources) m' (omega (arith, room, size)) (
              gather_one o published rings watermark fresh sources m m' more src
                (omega (arith, room)) h each) in
          let most = g.most in
          let grown : all_left limit (if more then sources ++ (src ∷ []) else sources)
              ≤ all_left limit sources + 2 * limit =
            at_most_one more src le in
          rw (gather, reads, e)
            (record { out = g.out; returns = g.returns; most = omega (arith, most, grown) })
        where
          at_most_one :
              (b : Bool) (src' : Source)
              → left_of limit src' ≤ left_of limit fresh
              → all_left limit (if b then sources ++ (src' ∷ []) else sources)
                ≤ all_left limit sources + 2 * limit
          at_most_one false src' le' = omega arith
          at_most_one true src' le' =
              let k = all_left-append limit sources src' in omega (arith, le', k)

  stage_left :
      (stage : List Sample)
      → all_left limit (stage_source (staged_below watermark stage)) ≤ length stage + 2 * limit
  stage_left stage =
      go (staged_below watermark stage) (length-staged_below o published rings watermark stage)
    where
      go :
          (below : List Sample)
          → length below ≤ length stage
          → all_left limit (stage_source below) ≤ length stage + 2 * limit
      go [] le = omega arith
      go (s ∷ below) le = omega (arith, le)

  -- A merge returns, with a cursor for every ring, rings whose threads published their stamps in
  -- the order of their times, heads that are not past a limit, a stage of stamps in the order of
  -- their times, heap algorithms that do what the C++ library's do, and as fuel two more than the
  -- samples staged and twice the limit for each ring and once more.
  pub merge_staged-IsSome :
      IsHeaps o
      → (fuel : ℕ) (sh : Shared W) (m : Pass W) → o.count ≤ length m.cursors
      → IsStage sh.stage
      → length sh.stage + 2 * limit + o.count * (2 * limit) + 2 ≤ fuel
      → IsSome (merge_staged o watermark fuel sh m)
  unfolding merge_staged
  merge_staged-IsSome heaps fuel sh m room stage enough = merged
    where
      first : List Source
      first = stage_source (staged_below watermark sh.stage)

      sits : Each (Sits published watermark 0 m) first
      sits = stage_source-Sits o published rings watermark sh.stage m stage

      g : Gathered o.count first (gather o watermark fuel o.count 0 first m)
      g = gather-Gathered fuel o.count 0 first m (omega (arith, room)) (omega (arith, enough)) sits

      m1 : Pass W
      m1 = record g.out.1 {
        progressed = elim g.out.0 [ [] ↦ g.out.1.progressed | s ∷ more ↦ true ];
      }

      sits1 : Each (Sits published watermark 0 m1) g.out.0
      sits1 =
          gathered-Sits o published rings watermark fuel sh.stage m g.out.0 g.out.1 m1.progressed
            room stage g.returns

      s : IsSome (merge_sources o watermark fuel g.out.0 m1)
      s =
          let most = g.most in
          let few = stage_left sh.stage in
          merge_sources-IsSome o published rings limit watermark heads heaps fuel 0 g.out.0 m1 sits1
            (omega (arith, most, few, enough))

      merged : IsSome (merge_staged o watermark fuel sh m)
      merged = let e = s.1 in rw (merge_staged, g.returns, e) (erase_consumed s.0.0 sh s.0.1, refl)
