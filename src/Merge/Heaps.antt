-- ===== src/Merge/Heaps.antt =====
-- The heap of a merge, and `prefer_clean_tie` of include/slick/perfmon/collector.hpp.
use mathlib.Core.List.{Permᴰ}
use mathlib.Core.List.Permᴰ
use mathlib.Core.Path.{subst}
use slick_perfmon.Prelude.{
  ℕ, zero, suc, ◌/◌, ◌≤◌, ◌<◌, ◌≡◌, refl, ap, arith, true, false, not, ◌&&◌, ◌||◌, ◌==◌, Bool-cases,
  ◌⊎◌, inl, inr, none, some, List, [], ◌∷◌, ◌++◌, length, get_or,
}
use slick_perfmon.Merge.{Source, Outside, source_head, later}
use slick_perfmon.Merge.Looping.{back, swap_clean, prefer_clean_tie}

-- The time of a source's next stamp.
abbrev pub key : Source → ℕ
key src = (source_head src).timestamp

abbrev pub no_source : Source
no_source = record { ring = none; slots = []; pos = 0; base = 0; stop = none }

abbrev pub key_at : List Source → ℕ → ℕ
key_at heap i = key (get_or heap i no_source)

-- Every source of the list.
abbrev pub Each : (Source → Type 0) → List Source → Type 0
Each P [] = Unit
Each P (x ∷ xs) = P x × Each P xs

pub Each-map :
    (P Q : Source → Type 0) (xs : List Source) → ((x : Source) → P x → Q x) → Each P xs → Each Q xs
Each-map P Q [] f h = tt
Each-map P Q (x ∷ xs) f (p, h) = (f x p, Each-map P Q xs f h)

pub Each-append :
    (P : Source → Type 0) (xs : List Source) (y : Source)
    → Each P xs
    → P y
    → Each P (xs ++ (y ∷ []))
Each-append P [] y h p = (p, tt)
Each-append P (x ∷ xs) y (a, h) p = (a, Each-append P xs y h p)

pub Each-Permᴰ : (P : Source → Type 0) {xs ys : List Source} → Permᴰ xs ys → Each P xs → Each P ys
Each-Permᴰ P Permᴰ.nil h = tt
Each-Permᴰ P (Permᴰ.cons e p) (a, h) = (subst P e a, Each-Permᴰ P p h)
Each-Permᴰ P (Permᴰ.swap e f) (a, (b, h)) = (subst P f b, (subst P e a, h))
Each-Permᴰ P (Permᴰ.trans p q) h = Each-Permᴰ P q (Each-Permᴰ P p h)

-- The heap order under `later`: no source is before its parent.
abbrev pub IsHeap : List Source → Type 0
IsHeap heap = (j : ℕ) → suc j < length heap → key_at heap (j / 2) ≤ key_at heap (suc j)

-- What `pop_heap` leaves: a least source at the back, and a heap before it.
pub record Pops (heap out : List Source) : Type 0 where
  pub front : List Source
  pub last : Source
  pub at_back : back out ≡ some (front, last)
  pub same : Permᴰ heap (last ∷ front)
  pub heaped : IsHeap front
  pub least : Each (λ x. key last ≤ key x) front

-- The heap algorithms of the C++ library, under `later`.
pub record IsHeaps {W : Type 0} (o : Outside W) : Type 0 where
  pub made : (xs : List Source) → IsHeap (o.make_heap later xs)
  pub made_same : (xs : List Source) → Permᴰ xs (o.make_heap later xs)
  pub pushed :
      (xs : List Source) (y : Source) → IsHeap xs → IsHeap (o.push_heap later (xs ++ (y ∷ [])))
  pub pushed_same :
      (xs : List Source) (y : Source) → Permᴰ (xs ++ (y ∷ [])) (o.push_heap later (xs ++ (y ∷ [])))
  pub popped :
      (x : Source) (xs : List Source) → IsHeap (x ∷ xs) → Pops (x ∷ xs) (o.pop_heap later (x ∷ xs))

root_least_below :
    (k : ℕ) (heap : List Source) (i : ℕ)
    → IsHeap heap
    → i < k
    → i < length heap
    → key_at heap 0 ≤ key_at heap i
root_least_below zero heap i h f p = absurd (omega arith)
root_least_below (suc k) heap zero h f p = omega arith
root_least_below (suc k) heap (suc j) h f p =
    let up = h j p in
    let rest = root_least_below k heap (j / 2) h (omega (arith, f)) (omega (arith, p)) in
    omega (arith, up, rest)

-- No source of a heap is before its root.
root_least :
    (heap : List Source) (i : ℕ) → IsHeap heap → i < length heap → key_at heap 0 ≤ key_at heap i
root_least heap i h p = root_least_below (suc i) heap i h (omega arith) p

-- Lists of sources with the same times are heaps together.
abbrev SameKeys : List Source → List Source → Type 0
SameKeys xs ys = (length xs ≡ length ys) × ((i : ℕ) → key_at xs i ≡ key_at ys i)

SameKeys-IsHeap : (xs ys : List Source) → SameKeys xs ys → IsHeap xs → IsHeap ys
SameKeys-IsHeap xs ys (n, k) h j lt = rw (k (j / 2), k (suc j)) at (h j (rw n lt))

-- What `prefer_clean_tie` does: the same sources, with one of the same time at the back, and a heap
-- before it; and the stamp at the back pairs cleanly if any stamp of that time does.
pub record Prefers {W : Type 0} (o : Outside W) (w : W) (heap : List Source) (a : Source)
    (out : List Source × Source) : Type 0 where
  pub same : Permᴰ (a ∷ heap) (out.1 ∷ out.0)
  pub tied : key out.1 ≡ key a
  pub heaped : IsHeap out.0
  pub clean :
      (o.pairs_cleanly (source_head out.1) w ≡ true)
      ⊎ Each (λ x. key x ≡ key a → o.pairs_cleanly (source_head x) w ≡ false) (a ∷ heap)

Each-at :
    (P : Source → Type 0) (xs : List Source)
    → ((i : ℕ) → i < length xs → P (get_or xs i no_source))
    → Each P xs
Each-at P [] h = tt
Each-at P (x ∷ xs) h = (h 0 (omega arith), Each-at P xs (λ i lt. h (suc i) (omega (arith, lt))))

SameKeys-cons :
    (x y : Source) (xs ys : List Source)
    → key x ≡ key y
    → SameKeys xs ys
    → SameKeys (x ∷ xs) (y ∷ ys)
SameKeys-cons x y xs ys e (n, k) = (ap suc n, same)
  where
    same : (i : ℕ) → key_at (x ∷ xs) i ≡ key_at (y ∷ ys) i
    same zero = e
    same (suc i) = k i

module _ {W : Type 0} (o : Outside W) (w : W) where
  abbrev Unclean : Source → Source → Type 0
  Unclean a x = key x ≡ key a → o.pairs_cleanly (source_head x) w ≡ false

  record Swaps (a : Source) (heap : List Source) (out : List Source × Source) : Type 0 where
    same : Permᴰ (a ∷ heap) (out.1 ∷ out.0)
    tied : key out.1 ≡ key a
    keys : SameKeys heap out.0
    clean : (o.pairs_cleanly (source_head out.1) w ≡ true) ⊎ Each (Unclean a) (a ∷ heap)

  swap_clean-Swaps :
      (a : Source) (heap : List Source)
      → o.pairs_cleanly (source_head a) w ≡ false
      → Swaps a heap (swap_clean o w a heap)
  unfolding swap_clean
  swap_clean-Swaps a [] dirty = record {
    same = Permᴰ.refl (a ∷ []);
    tied = refl;
    keys = (refl, λ i. refl);
    clean = inr ((λ e. dirty), tt);
  }
  swap_clean-Swaps a (b ∷ heap) dirty =
      elim (Bool-cases ((key b == key a) && o.pairs_cleanly (source_head b) w)) [
        | inl ok ↦
            let e : key b ≡ key a = ground (arith, ok) in
            rw ok (record {
              same = Permᴰ.swap refl refl;
              tied = e;
              keys = SameKeys-cons b a heap heap e (refl, λ i. refl);
              clean = inl (ground (arith, ok));
            })
        | inr not_it ↦
            let f = swap_clean-Swaps a heap dirty in
            let (heap', a') = swap_clean o w a heap in
            rw not_it (record {
              same =
                  Permᴰ.trans (Permᴰ.swap refl refl)
                    (Permᴰ.trans (Permᴰ.cons refl f.same) (Permᴰ.swap refl refl));
              tied = f.tied;
              keys = SameKeys-cons b b heap heap' refl f.keys;
              clean = elim f.clean [
                | inl ok ↦ inl ok
                | inr (na, none_left) ↦ inr (na, ((λ e. ground (arith, not_it, e)), none_left))
              ];
            })
      ]

  -- With a heap, and a source `a` that no source of the heap is before: `prefer_clean_tie` keeps
  -- the sources, puts one with the time of `a` at the back and leaves a heap before it; and the
  -- stamp at the back pairs cleanly, or none of that time does.
  pub prefer_clean_tie-Prefers :
      (heap : List Source) (a : Source)
      → IsHeap heap
      → Each (λ x. key a ≤ key x) heap
      → Prefers o w heap a (prefer_clean_tie o w heap a)
  unfolding prefer_clean_tie
  prefer_clean_tie-Prefers [] a h least = stays
    where
      stays : Prefers o w [] a ([], a)
      stays = elim (Bool-cases (o.pairs_cleanly (source_head a) w)) [
        | inl ok ↦ record { same = Permᴰ.refl (a ∷ []); tied = refl; heaped = h; clean = inl ok }
        | inr dirty ↦ record {
          same = Permᴰ.refl (a ∷ []);
          tied = refl;
          heaped = h;
          clean = inr ((λ e. dirty), tt);
        }
      ]
  prefer_clean_tie-Prefers (root ∷ heap) a h (first, least) =
      elim (Bool-cases (o.pairs_cleanly (source_head a) w)) [
        | inl ok ↦ stays (ground (arith, ok)) (inl ok)
        | inr dirty ↦ elim (Bool-cases (key root == key a)) [
          | inl tie ↦
              let f = swap_clean-Swaps a (root ∷ heap) dirty in
              rw (dirty, tie)
                (record {
                  same = f.same;
                  tied = f.tied;
                  heaped = SameKeys-IsHeap (root ∷ heap) _ f.keys h;
                  clean = f.clean;
                })
          | inr apart ↦ stays (ground (arith, apart)) (
              inr (
                (λ e. dirty),
                Each-map (λ x. key root ≤ key x) (Unclean a) (root ∷ heap)
                    (λ x le e. absurd (ground (arith, le, e, first, apart))) roots,
              ))
        ]
      ]
    where
      roots : Each (λ x. key root ≤ key x) (root ∷ heap)
      roots = Each-at (λ x. key root ≤ key x) (root ∷ heap) λ i lt. root_least (root ∷ heap) i h lt

      stays :
          (not (key root == key a) || o.pairs_cleanly (source_head a) w) ≡ true
          → (o.pairs_cleanly (source_head a) w ≡ true) ⊎ Each (Unclean a) (a ∷ root ∷ heap)
          → Prefers o w (root ∷ heap) a (prefer_clean_tie o w (root ∷ heap) a)
      stays t c =
          rw (prefer_clean_tie, t)
            (record { same = Permᴰ.refl (a ∷ root ∷ heap); tied = refl; heaped = h; clean = c })
