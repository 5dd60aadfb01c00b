-- ===== src/Merge/Finishing.antt =====
-- The loops of a merge of include/slick/perfmon/collector.hpp come to an end.
use mathlib.Core.List.{Permᴰ}
use slick_perfmon.Prelude.{
  ℕ, zero, suc, ◌+◌, ◌≤◌, ◌<◌, ◌≡◌, refl, sym, ap, ◌∙◌, arith, Bool, true, false, Option, some,
  List, [], ◌∷◌, ◌++◌,
}
use slick_perfmon.Event.{Sample}
use slick_perfmon.Merge.{Source, Outside, Pass, later, consume, next_stamp}
use slick_perfmon.Merge.Looping.{prefer_clean_tie, merge_one, merge_heap, merge_sources}
use slick_perfmon.Merge.Feeding.{IsRings, IsReady}
use slick_perfmon.Merge.Stamps.{HasCursor-after}
use slick_perfmon.Merge.Heaps.{
  Each, Each-append, Each-Permᴰ, IsHeap, Pops, IsHeaps, Prefers, prefer_clean_tie-Prefers, key,
}
use slick_perfmon.Merge.Turns.{Sits, turn, Each-later}
use slick_perfmon.Merge.Order.{Turning, taken}
use slick_perfmon.Merge.Reading.{left_of}
use slick_perfmon.Merge.Ending.{Returns, next_stamp-Returns}

-- What all the sources can still give.
abbrev pub all_left : ℕ → List Source → ℕ
all_left limit [] = 0
all_left limit (x ∷ xs) = left_of limit x + all_left limit xs

pub all_left-append :
    (limit : ℕ) (xs : List Source) (y : Source)
    → all_left limit (xs ++ (y ∷ [])) ≡ all_left limit xs + left_of limit y
all_left-append limit [] y = omega arith
all_left-append limit (x ∷ xs) y = let e = all_left-append limit xs y in omega (arith, e)

all_left-Permᴰ :
    (limit : ℕ) {xs ys : List Source} → Permᴰ xs ys → all_left limit xs ≡ all_left limit ys
all_left-Permᴰ limit Permᴰ.nil = refl
all_left-Permᴰ limit (Permᴰ.cons e p) =
    let a = ap (left_of limit) e in let b = all_left-Permᴰ limit p in omega (arith, a, b)
all_left-Permᴰ limit (Permᴰ.swap e f) =
    let a = ap (left_of limit) e in let b = ap (left_of limit) f in omega (arith, a, b)
all_left-Permᴰ limit (Permᴰ.trans p q) = all_left-Permᴰ limit p ∙ all_left-Permᴰ limit q

-- It comes back.
abbrev pub IsSome : {A : Type 0} → Option A → Type 0
IsSome {A} r = (a : A) × (r ≡ some a)

module _ {W : Type 0} (o : Outside W) (published : ℕ → ℕ → Sample) (rings : IsRings o published)
    (limit watermark : ℕ) (heads : (i t : ℕ) → o.head i t ≤ limit) where
  -- A turn takes one sample.
  left_of-consume :
      (src : Source) (m : Pass W)
      → IsReady watermark src.slots
      → left_of limit (consume o src m).0 < left_of limit src
  unfolding consume
  left_of-consume src m ready = go src.slots refl
    where
      go :
          (slots : List Sample)
          → src.slots ≡ slots
          → left_of limit (consume o src m).0 < left_of limit src
      go [] es = absurd (rw es at ready)
      go (s ∷ rest) es = rw (consume, es) (omega arith)

  turn-Returns :
      (fuel lo : ℕ) (src : Source) (m : Pass W)
      → Sits published watermark lo m src
      → left_of limit src + 2 ≤ suc fuel
      → Returns o published rings limit watermark heads
          (consume o src m).0
          (consume o src m).1
          (next_stamp o watermark fuel (consume o src m).0 (consume o src m).1)
  unfolding consume
  turn-Returns fuel lo src m h enough =
      let less = left_of-consume src m h.ready in
      next_stamp-Returns o published rings limit watermark heads fuel (consume o src m).0
        (consume o src m).1
        (HasCursor-after o published rings watermark lo src.ring src.ring m (consume o src m).1 refl
          refl h.cursor)
        (omega (arith, less, enough))

  merge_one-IsSome :
      (fuel lo : ℕ) (src : Source) (m : Pass W)
      → Sits published watermark lo m src
      → left_of limit src + 2 ≤ fuel
      → IsSome (merge_one o watermark fuel src m)
  unfolding merge_one
  merge_one-IsSome zero lo src m h enough = absurd (omega (arith, enough))
  merge_one-IsSome (suc fuel) lo src m h enough =
      let f = turn-Returns fuel lo src m h enough in
      go f.out f.returns f.less λ src' m'. merge_one-IsSome fuel (key src) src' m'
    where
      go :
          (out : Bool × Source × Pass W)
          → next_stamp o watermark fuel (consume o src m).0 (consume o src m).1 ≡ some out
          → left_of limit out.1 ≤ left_of limit (consume o src m).0
          → ((src' : Source) (m' : Pass W)
              → Sits published watermark (key src) m' src'
              → left_of limit src' + 2 ≤ fuel
              → IsSome (merge_one o watermark fuel src' m'))
          → IsSome (merge_one o watermark (suc fuel) src m)
      go (false, src', m') e le again = rw (merge_one, e) ((src', m'), refl)
      go (true, src', m') e le again =
          let t = turn o published rings watermark fuel lo src m (true, src', m') h e in
          let less = left_of-consume src m h.ready in
          rw (merge_one, e) (again src' m' (t.next refl) (omega (arith, le, less, enough)))

  merge_heap-IsSome :
      IsHeaps o
      → (fuel lo : ℕ) (heap spent : List Source) (m : Pass W) → IsHeap heap
      → Each (Sits published watermark lo m) heap
      → all_left limit heap + 2 ≤ fuel
      → IsSome (merge_heap o watermark fuel heap spent m)
  unfolding merge_heap
  merge_heap-IsSome heaps zero lo heap spent m h each enough = absurd (omega (arith, enough))
  merge_heap-IsSome heaps (suc fuel) lo [] spent m h each enough = ((spent, m), refl)
  merge_heap-IsSome heaps (suc fuel) lo (x ∷ heap) spent m h each enough =
      go f.out f.returns f.less
        λ lo' heap' spent' m'. merge_heap-IsSome heaps fuel lo' heap' spent' m'
    where
      pops : Pops (x ∷ heap) (o.pop_heap later (x ∷ heap))
      pops = heaps.popped x heap h

      tie : Prefers o m.world pops.front pops.last (prefer_clean_tie o m.world pops.front pops.last)
      tie = prefer_clean_tie-Prefers o m.world pops.front pops.last pops.heaped pops.least

      front : List Source
      front = (prefer_clean_tie o m.world pops.front pops.last).0

      a : Source
      a = (prefer_clean_tie o m.world pops.front pops.last).1

      turns : Turning o published rings watermark lo m (x ∷ heap) a front
      turns = taken o published rings watermark heaps lo x heap m h each

      total : left_of limit a + all_left limit front ≡ all_left limit (x ∷ heap)
      total = sym (all_left-Permᴰ limit pops.same ∙ all_left-Permᴰ limit tie.same)

      f :
          Returns o published rings limit watermark heads
            (consume o a m).0
            (consume o a m).1
            (next_stamp o watermark fuel (consume o a m).0 (consume o a m).1)
      f = turn-Returns fuel lo a m turns.sits.0 (omega (arith, total, enough))

      less : left_of limit (consume o a m).0 < left_of limit a
      less = left_of-consume a m turns.sits.0.ready

      go :
          (out : Bool × Source × Pass W)
          → next_stamp o watermark fuel (consume o a m).0 (consume o a m).1 ≡ some out
          → left_of limit out.1 ≤ left_of limit (consume o a m).0
          → ((lo' : ℕ) (heap' spent' : List Source) (m' : Pass W)
              → IsHeap heap'
              → Each (Sits published watermark lo' m') heap'
              → all_left limit heap' + 2 ≤ fuel
              → IsSome (merge_heap o watermark fuel heap' spent' m'))
          → IsSome (merge_heap o watermark (suc fuel) (x ∷ heap) spent m)
      go (false, src', m') e le again =
          let t = turn o published rings watermark fuel lo a m (false, src', m') turns.sits.0 e in
          let left =
            Each-later o published rings watermark lo (key a) m m' front t.size turns.least
              turns.sits.1 in
          rw (merge_heap, pops.at_back, e)
            (again (key a) front (src' ∷ spent) m' tie.heaped left
              (omega (arith, total, enough, less)))
      go (true, src', m') e le again =
          let t = turn o published rings watermark fuel lo a m (true, src', m') turns.sits.0 e in
          let left =
            Each-later o published rings watermark lo (key a) m m' front t.size turns.least
              turns.sits.1 in
          let all =
            Each-append (Sits published watermark (key a) m') front src' left (t.next refl) in
          let p = heaps.pushed_same front src' in
          let n = all_left-Permᴰ limit p in
          let k = all_left-append limit front src' in
          rw (merge_heap, pops.at_back, e)
            (again (key a) (o.push_heap later (front ++ (src' ∷ []))) spent m'
              (heaps.pushed front src' tie.heaped)
              (Each-Permᴰ (Sits published watermark (key a) m') p all)
              (omega (arith, total, enough, less, le, n, k)))

  pub merge_sources-IsSome :
      IsHeaps o
      → (fuel lo : ℕ) (sources : List Source) (m : Pass W)
      → Each (Sits published watermark lo m) sources
      → all_left limit sources + 2 ≤ fuel
      → IsSome (merge_sources o watermark fuel sources m)
  unfolding merge_sources
  merge_sources-IsSome heaps fuel lo [] m each enough = (([], m), refl)
  merge_sources-IsSome heaps fuel lo (src ∷ []) m (h, _) enough =
      let (out, e) = merge_one-IsSome fuel lo src m h (omega (arith, enough)) in
      rw (merge_sources, e) ((out.0 ∷ [], out.1), refl)
  merge_sources-IsSome heaps fuel lo (a ∷ b ∷ sources) m each enough =
      let p = heaps.made_same (a ∷ b ∷ sources) in
      let n = all_left-Permᴰ limit p in
      merge_heap-IsSome heaps fuel lo (o.make_heap later (a ∷ b ∷ sources)) [] m
        (heaps.made (a ∷ b ∷ sources)) (Each-Permᴰ (Sits published watermark lo m) p each)
        (omega (arith, n, enough))
