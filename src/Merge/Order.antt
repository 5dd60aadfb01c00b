-- ===== src/Merge/Order.antt =====
-- The loops of the merge of include/slick/perfmon/collector.hpp, and what their turns keep.
use mathlib.Core.List.{Permᴰ}
use mathlib.Core.List.Permᴰ
use mathlib.Core.Path.{subst}
use slick_perfmon.Prelude.{
  ℕ, zero, suc, ◌≤◌, ◌≡◌, refl, sym, arith, Bool, true, false, if◌then◌else◌, Option, none, some,
  List, [], ◌∷◌, ◌++◌,
}
use slick_perfmon.Event.{Sample}
use slick_perfmon.Merge.{Source, Outside, Pass, later, consume, next_stamp}
use slick_perfmon.Merge.Looping.{prefer_clean_tie, merge_one, merge_heap, merge_sources}
use slick_perfmon.Merge.Feeding.{Feeds, nothing, Feeds-trans, IsRings}
use slick_perfmon.Merge.Heaps.{
  key, Each, Each-Permᴰ, IsHeap, Pops, IsHeaps, Prefers, prefer_clean_tie-Prefers,
}
use slick_perfmon.Merge.Turns.{Sits, FeedsOn, turn, Each-later}

pub last_first : (xs : List Source) (y : Source) → Permᴰ (y ∷ xs) (xs ++ (y ∷ []))
last_first [] y = Permᴰ.refl (y ∷ [])
last_first (x ∷ xs) y = Permᴰ.trans (Permᴰ.swap refl refl) (Permᴰ.cons refl (last_first xs y))

module _ {W : Type 0} (o : Outside W) (published : ℕ → ℕ → Sample) (rings : IsRings o published)
    (watermark : ℕ) where
  -- What a turn keeps, of the time of the last stamp, of the sources in the merge in any order, of
  -- those that have left it, and of the pass.
  pub record IsKept (Holds : ℕ → List Source → List Source → Pass W → Type 0) : Type 0 where
    pub shuffle :
        (lo : ℕ) (xs ys spent : List Source) (m : Pass W)
        → Permᴰ xs ys
        → Holds lo xs spent m
        → Holds lo ys spent m
    pub step :
        (fuel lo : ℕ) (a : Source) (front spent : List Source) (m : Pass W)
        (out : Bool × Source × Pass W)
        → Sits published watermark lo m a
        → next_stamp o watermark fuel (consume o a m).0 (consume o a m).1 ≡ some out
        → Holds lo (a ∷ front) spent m
        → Holds
            (key a)
            (if out.0 then out.1 ∷ front else front)
            (if out.0 then spent else out.1 ∷ spent)
            out.2

  -- The source that is taken from a heap, and what stays: no source is before it.
  pub record Turning (lo : ℕ) (m : Pass W) (heap : List Source) (a : Source) (front : List Source)
      : Type 0 where
    pub sits : Each (Sits published watermark lo m) (a ∷ front)
    pub least : Each (λ y. key a ≤ key y) front

  pub taken :
      (heaps : IsHeaps o) (lo : ℕ) (x : Source) (heap : List Source) (m : Pass W)
      (h : IsHeap (x ∷ heap))
      → Each (Sits published watermark lo m) (x ∷ heap)
      → Turning lo m
          (x ∷ heap)
          (prefer_clean_tie o m.world (heaps.popped x heap h).front (heaps.popped x heap h).last).1
          (prefer_clean_tie o m.world (heaps.popped x heap h).front (heaps.popped x heap h).last).0
  taken heaps lo x heap m h each =
      let pops = heaps.popped x heap h in
      let tie = prefer_clean_tie-Prefers o m.world pops.front pops.last pops.heaped pops.least in
      let (front, a) = prefer_clean_tie o m.world pops.front pops.last in
      let least : Each (λ y. key a ≤ key y) (a ∷ front) =
        subst (λ k. Each (λ y. k ≤ key y) (a ∷ front)) (sym tie.tied)
          (Each-Permᴰ (λ y. key pops.last ≤ key y) tie.same (omega arith, pops.least)) in
      record {
        sits =
            Each-Permᴰ (Sits published watermark lo m) tie.same
              (Each-Permᴰ (Sits published watermark lo m) pops.same each);
        least = least.1;
      }

  module _ (Holds : ℕ → List Source → List Source → Pass W → Type 0) (kept : IsKept Holds) where
    -- It holds at the end, when no source is left.
    abbrev pub HoldsAfter : List Source → Pass W → Type 0
    HoldsAfter spent m = (hi : ℕ) × Holds hi [] spent m

    -- The loop of a pass with one source.
    merge_one_rule :
        (fuel lo : ℕ) (src : Source) (m : Pass W) (out : Source × Pass W)
        → Sits published watermark lo m src
        → Holds lo (src ∷ []) [] m
        → merge_one o watermark fuel src m ≡ some out
        → HoldsAfter (out.0 ∷ []) out.1
    unfolding merge_one
    merge_one_rule zero lo src m out h k e = absurd (cc)
    merge_one_rule (suc fuel) lo src m out h k e =
        go (next_stamp o watermark fuel (consume o src m).0 (consume o src m).1) refl
          λ src' m'. merge_one_rule fuel (key src) src' m' out
      where
        go :
            (r : Option (Bool × Source × Pass W))
            → next_stamp o watermark fuel (consume o src m).0 (consume o src m).1 ≡ r
            → ((src' : Source) (m' : Pass W)
                → Sits published watermark (key src) m' src'
                → Holds (key src) (src' ∷ []) [] m'
                → merge_one o watermark fuel src' m' ≡ some out
                → HoldsAfter (out.0 ∷ []) out.1)
            → HoldsAfter (out.0 ∷ []) out.1
        go none er again = absurd (let z = rw (merge_one, er) at e in cc)
        go (some (false, src', m')) er again =
            let p : (src', m') ≡ out = (let z = rw (merge_one, er) at e in cc) in
            rw (sym p) (key src, kept.step fuel lo src [] [] m (false, src', m') h er k)
        go (some (true, src', m')) er again =
            let t = turn o published rings watermark fuel lo src m (true, src', m') h er in
            again src' m' (t.next refl) (kept.step fuel lo src [] [] m (true, src', m') h er k)
              (rw (merge_one, er) at e)

    -- The loop over the heap.
    merge_heap_rule :
        IsHeaps o
        → (fuel lo : ℕ) (heap spent : List Source) (m : Pass W) (out : List Source × Pass W)
        → IsHeap heap
        → Each (Sits published watermark lo m) heap
        → Holds lo heap spent m
        → merge_heap o watermark fuel heap spent m ≡ some out
        → HoldsAfter out.0 out.1
    unfolding merge_heap
    merge_heap_rule heaps zero lo heap spent m out h each k e = absurd (cc)
    merge_heap_rule heaps (suc fuel) lo [] spent m out h each k e =
        let p : (spent, m) ≡ out = cc in rw (sym p) (lo, k)
    merge_heap_rule heaps (suc fuel) lo (x ∷ heap) spent m out h each k e =
        go (next_stamp o watermark fuel (consume o a m).0 (consume o a m).1) refl
          λ heap' spent' m'. merge_heap_rule heaps fuel (key a) heap' spent' m' out
      where
        pops : Pops (x ∷ heap) (o.pop_heap later (x ∷ heap))
        pops = heaps.popped x heap h

        tie :
            Prefers o m.world pops.front pops.last (prefer_clean_tie o m.world pops.front pops.last)
        tie = prefer_clean_tie-Prefers o m.world pops.front pops.last pops.heaped pops.least

        front : List Source
        front = (prefer_clean_tie o m.world pops.front pops.last).0

        a : Source
        a = (prefer_clean_tie o m.world pops.front pops.last).1

        turns : Turning lo m (x ∷ heap) a front
        turns = taken heaps lo x heap m h each

        k' : Holds lo (a ∷ front) spent m
        k' =
            kept.shuffle lo (pops.last ∷ pops.front) (a ∷ front) spent m tie.same
              (kept.shuffle lo (x ∷ heap) (pops.last ∷ pops.front) spent m pops.same k)

        go :
            (r : Option (Bool × Source × Pass W))
            → next_stamp o watermark fuel (consume o a m).0 (consume o a m).1 ≡ r
            → ((heap' spent' : List Source) (m' : Pass W)
                → IsHeap heap'
                → Each (Sits published watermark (key a) m') heap'
                → Holds (key a) heap' spent' m'
                → merge_heap o watermark fuel heap' spent' m' ≡ some out
                → HoldsAfter out.0 out.1)
            → HoldsAfter out.0 out.1
        go none er again = absurd (let z = rw (merge_heap, pops.at_back, er) at e in cc)
        go (some (false, src', m')) er again =
            let t =
              turn o published rings watermark fuel lo a m (false, src', m') turns.sits.0 er in
            again front (src' ∷ spent) m' tie.heaped
              (Each-later o published rings watermark lo (key a) m m' front t.size turns.least
                turns.sits.1)
              (kept.step fuel lo a front spent m (false, src', m') turns.sits.0 er k')
              (rw (merge_heap, pops.at_back, er) at e)
        go (some (true, src', m')) er again =
            let t = turn o published rings watermark fuel lo a m (true, src', m') turns.sits.0 er in
            let left =
              Each-later o published rings watermark lo (key a) m m' front t.size turns.least
                turns.sits.1 in
            let same : Permᴰ (src' ∷ front) (o.push_heap later (front ++ (src' ∷ []))) =
              Permᴰ.trans (last_first front src') (heaps.pushed_same front src') in
            again (o.push_heap later (front ++ (src' ∷ []))) spent m'
              (heaps.pushed front src' tie.heaped)
              (Each-Permᴰ (Sits published watermark (key a) m') same (t.next refl, left))
              (kept.shuffle (key a) (src' ∷ front) (o.push_heap later (front ++ (src' ∷ []))) spent
                m' same (kept.step fuel lo a front spent m (true, src', m') turns.sits.0 er k'))
              (rw (merge_heap, pops.at_back, er) at e)

    pub merge_sources_rule :
        IsHeaps o
        → (fuel lo : ℕ) (sources : List Source) (m : Pass W) (out : List Source × Pass W)
        → Each (Sits published watermark lo m) sources
        → Holds lo sources [] m
        → merge_sources o watermark fuel sources m ≡ some out
        → HoldsAfter out.0 out.1
    unfolding merge_sources
    merge_sources_rule heaps fuel lo [] m out each k e =
        let p : ([], m) ≡ out = cc in rw (sym p) (lo, k)
    merge_sources_rule heaps fuel lo (src ∷ []) m out (h, _) k e =
        go (merge_one o watermark fuel src m) refl
      where
        go :
            (r : Option (Source × Pass W))
            → merge_one o watermark fuel src m ≡ r
            → HoldsAfter out.0 out.1
        go none er = absurd (let z = rw (merge_sources, er) at e in cc)
        go (some (src', m')) er =
            let p : (src' ∷ [], m') ≡ out = (let z = rw (merge_sources, er) at e in cc) in
            rw (sym p) (merge_one_rule fuel lo src m (src', m') h k er)
    merge_sources_rule heaps fuel lo (a ∷ b ∷ sources) m out each k e =
        let all : List Source = a ∷ b ∷ sources in
        let same = heaps.made_same all in
        merge_heap_rule heaps fuel lo (o.make_heap later all) [] m out (heaps.made all)
          (Each-Permᴰ (Sits published watermark lo m) same each)
          (kept.shuffle lo all (o.make_heap later all) [] m same k) e

  Feeds-IsKept : (lo : ℕ) (w : W) → IsKept λ hi xs spent m. Feeds o watermark lo w hi m.world
  Feeds-IsKept lo w = record {
    shuffle = λ hi xs ys spent m same f. f;
    step = λ fuel hi a front spent m out h e f.
        (let t = turn o published rings watermark fuel hi a m out h e in
          Feeds-trans o watermark lo hi w m.world (key a) out.2.world f t.fed);
  }

  pub merge_sources-FeedsOn :
      IsHeaps o
      → (fuel lo : ℕ) (sources : List Source) (m : Pass W) (out : List Source × Pass W)
      → Each (Sits published watermark lo m) sources
      → merge_sources o watermark fuel sources m ≡ some out
      → FeedsOn o watermark lo m out.1
  merge_sources-FeedsOn heaps fuel lo sources m out each e =
      merge_sources_rule (λ hi xs spent m'. Feeds o watermark lo m.world hi m'.world)
        (Feeds-IsKept lo m.world) heaps fuel lo sources m out each nothing e
