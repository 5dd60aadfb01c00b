-- ===== src/Merge/Covers.antt =====
-- The rings and the sources of a merge of include/slick/perfmon/collector.hpp: which ring
-- has a source, and which is caught up.
use mathlib.Core.List.{Permᴰ}
use slick_perfmon.Prelude.{
  ℕ, ◌≤◌, ◌<◌, ◌≡◌, refl, sym, ap, ◌∙◌, arith, Bool, true, false, if◌then◌else◌, ◌⊎◌, inl, inr,
  Option, some, List, [], ◌∷◌, length,
}
use slick_perfmon.Event.{Sample}
use slick_perfmon.Merge.{Source, Outside, Pass, consume}
use slick_perfmon.Merge.Feeding.{IsRings}
use slick_perfmon.Merge.Heaps.{key, Each, Each-map, Each-Permᴰ}
use slick_perfmon.Merge.Turns.{turn}
use slick_perfmon.Merge.Order.{IsKept}
use slick_perfmon.Merge.Heads.{Reaches}
use slick_perfmon.Merge.Spent.{HasWait, IsCaughtUp, IsWaiting, Leaves}
use slick_perfmon.Merge.Outcome.{HasWait-after, next_stamp-Leaves}

-- Some source of the list is that of the ring, or of the stage.
abbrev pub Has : Option ℕ → List Source → Type 0
Has r [] = ⊥
Has r (x ∷ xs) = (x.ring ≡ r) ⊎ Has r xs

pub Has-Permᴰ : (r : Option ℕ) {xs ys : List Source} → Permᴰ xs ys → Has r xs → Has r ys
Has-Permᴰ r Permᴰ.nil h = h
Has-Permᴰ r (Permᴰ.cons e p) (inl mine) = inl (ap (λ (x : Source). x.ring) (sym e) ∙ mine)
Has-Permᴰ r (Permᴰ.cons e p) (inr h) = inr (Has-Permᴰ r p h)
Has-Permᴰ r (Permᴰ.swap e f) (inl mine) = inr (inl (ap (λ (x : Source). x.ring) (sym e) ∙ mine))
Has-Permᴰ r (Permᴰ.swap e f) (inr (inl mine)) = inl (ap (λ (x : Source). x.ring) (sym f) ∙ mine)
Has-Permᴰ r (Permᴰ.swap e f) (inr (inr h)) = inr (inr h)
Has-Permᴰ r (Permᴰ.trans p q) h = Has-Permᴰ r q (Has-Permᴰ r p h)

module _ {W : Type 0} (o : Outside W) (published : ℕ → ℕ → Sample) (rings : IsRings o published)
    (t0 watermark : ℕ) where
  -- What a source in the merge knows of its ring.
  abbrev pub Knows : Pass W → Source → Type 0
  Knows m src = HasWait src.ring m × Reaches o published rings t0 src.ring src.stop

  -- Each of the first `n` rings is in the merge, or caught up.
  pub record Covers (n : ℕ) (sources : List Source) (m : Pass W) : Type 0 where
    pub knows : Each (Knows m) sources
    pub since : t0 ≤ m.time
    pub room : (o.count ≤ length m.cursors) × (o.count ≤ length m.waits)
    pub waiting : (j : ℕ) → IsWaiting published j m
    pub covered : (j : ℕ) → j < n → IsCaughtUp o published t0 watermark j m ⊎ Has (some j) sources

  -- What a merge leaves of the rings: each is caught up with the head at `t0`, and the next pass can
  -- go by what they wait for.
  pub record IsRead (m : Pass W) : Type 0 where
    pub room : (o.count ≤ length m.cursors) × (o.count ≤ length m.waits)
    pub waiting : (j : ℕ) → IsWaiting published j m
    pub caught_up : (j : ℕ) → j < o.count → IsCaughtUp o published t0 watermark j m

  pub Covers-shuffle :
      (n : ℕ) (xs ys : List Source) (m : Pass W) → Permᴰ xs ys → Covers n xs m → Covers n ys m
  Covers-shuffle n xs ys m p k = record {
    knows = Each-Permᴰ (Knows m) p k.knows;
    since = k.since;
    room = k.room;
    waiting = k.waiting;
    covered = λ j lt. elim (k.covered j lt) [
      | inl caught ↦ inl caught
      | inr h ↦ inr (Has-Permᴰ (some j) p h)
    ];
  }

  -- One source moves on, or leaves.
  pub Covers-step :
      (n : ℕ) (src : Source) (front : List Source) (m : Pass W) (out : Bool × Source × Pass W)
      → Leaves o published rings t0 watermark src m out
      → out.1.ring ≡ src.ring
      → length out.2.cursors ≡ length m.cursors
      → Covers n (src ∷ front) m
      → Covers n (if out.0 then out.1 ∷ front else front) out.2
  Covers-step n src front m (out_more, src', m') f r size k = go out_more f.fate
    where
      rest : Each (Knows m') front
      rest =
          Each-map (Knows m) (Knows m') front
            (λ x h. (
              HasWait-after o published rings t0 watermark x.ring x.ring m m' refl f.size h.0,
              h.1,
            ))
            k.knows.1

      since : t0 ≤ m'.time
      since = let a = k.since in let b = f.later in omega (arith, a, b)

      room : (o.count ≤ length m'.cursors) × (o.count ≤ length m'.waits)
      room =
          let (a, b) = k.room in let n' = f.size in (omega (arith, a, size), omega (arith, b, n'))

      go :
          (b : Bool)
          → ((j : ℕ)
              → IsCaughtUp o published t0 watermark j m ⊎ (src.ring ≡ some j)
              → IsCaughtUp o published t0 watermark j m' ⊎ ((b ≡ true) × (src'.ring ≡ some j)))
          → Covers n (if b then src' ∷ front else front) m'
      go true fate = record {
        knows = (
          (
            HasWait-after o published rings t0 watermark src.ring src'.ring m m' r f.size
                k.knows.0.0,
            f.reach,
          ),
          rest,
        );
        since = since;
        room = room;
        waiting = λ j. f.waiting j (k.waiting j);
        covered = λ j lt. elim (k.covered j lt) [
          | inl caught ↦ elim (fate j (inl caught)) [
            | inl still ↦ inl still
            | inr (_, mine) ↦ inr (inl mine)
          ]
          | inr (inl mine) ↦ elim (fate j (inr mine)) [
            | inl now ↦ inl now
            | inr (_, mine') ↦ inr (inl mine')
          ]
          | inr (inr h) ↦ inr (inr h)
        ];
      }
      go false fate = record {
        knows = rest;
        since = since;
        room = room;
        waiting = λ j. f.waiting j (k.waiting j);
        covered = λ j lt. elim (k.covered j lt) [
          | inl caught ↦ elim (fate j (inl caught)) [
            | inl still ↦ inl still
            | inr (goes_on, _) ↦ absurd (cc)
          ]
          | inr (inl mine) ↦ elim (fate j (inr mine)) [
            | inl now ↦ inl now
            | inr (goes_on, _) ↦ absurd (cc)
          ]
          | inr (inr h) ↦ inr h
        ];
      }

  -- Taking the stamp of a source leaves the rings alone.
  Covers-consume :
      (n : ℕ) (a : Source) (front : List Source) (m : Pass W)
      → Covers n (a ∷ front) m
      → Covers n ((consume o a m).0 ∷ front) (consume o a m).1
  unfolding consume
  Covers-consume n a front m k = record {
    knows =
        Each-map (Knows m) (Knows m1) (a ∷ front)
          (λ x h.
            (HasWait-after o published rings t0 watermark x.ring x.ring m m1 refl refl h.0, h.1))
          k.knows;
    since = k.since;
    room = k.room;
    waiting = k.waiting;
    covered = k.covered;
  }
    where
      m1 : Pass W
      m1 = (consume o a m).1

  pub Covers-IsKept : (n : ℕ) → IsKept o published rings watermark λ lo xs spent m. Covers n xs m
  unfolding consume
  Covers-IsKept n = record {
    shuffle = λ lo xs ys spent m p k. Covers-shuffle n xs ys m p k;
    step = λ fuel lo a front spent m out h e k.
        (let t = turn o published rings watermark fuel lo a m out h e in
          let k' = Covers-consume n a front m k in
          Covers-step n (consume o a m).0 front (consume o a m).1 out
            (next_stamp-Leaves o published rings t0 watermark (key a) fuel (consume o a m).0
              (consume o a m).1 out t.cursor k'.knows.0.0 t.sound t.from k'.since k'.knows.0.1 e)
            t.same_ring t.size k');
  }
