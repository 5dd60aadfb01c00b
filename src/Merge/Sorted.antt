-- ===== src/Merge/Sorted.antt =====
-- Heap algorithms on sorted lists, which do what the merge takes of the C++ library's.
use mathlib.Core.List.{Permᴰ}
use mathlib.Core.List.Permᴰ
use slick_perfmon.Prelude.{
  ℕ, zero, suc, ◌/◌, ◌≤◌, ◌<◌, ◌≡◌, refl, arith, Bool, if◌then◌else◌, Bool-cases, inl, inr, some,
  List, [], ◌∷◌, ◌++◌, length,
}
use slick_perfmon.Merge.{Source, later}
use slick_perfmon.Merge.Looping.{back}
use slick_perfmon.Merge.Heaps.{key, key_at, Each, IsHeap, Pops}

unfoldable pub put : (Source → Source → Bool) → Source → List Source → List Source
put after x [] = x ∷ []
put after x (y ∷ ys) = let rest = put after x ys in if after x y then y ∷ rest else x ∷ y ∷ ys

unfoldable pub sorted : (Source → Source → Bool) → List Source → List Source
sorted after [] = []
sorted after (x ∷ xs) = put after x (sorted after xs)

unfoldable pub rotated : List Source → List Source
rotated [] = []
rotated (x ∷ xs) = xs ++ (x ∷ [])

abbrev pub IsSortedHeap : List Source → Type 0
IsSortedHeap [] = Unit
IsSortedHeap (x ∷ xs) = Each (λ y. key x ≤ key y) xs × IsSortedHeap xs

Each-le : (a b : ℕ) (xs : List Source) → a ≤ b → Each (λ y. b ≤ key y) xs → Each (λ y. a ≤ key y) xs
Each-le a b [] le h = tt
Each-le a b (x ∷ xs) le (p, h) = (omega (arith, le, p), Each-le a b xs le h)

Each-put :
    (a : ℕ) (x : Source) (xs : List Source)
    → a ≤ key x
    → Each (λ y. a ≤ key y) xs
    → Each (λ y. a ≤ key y) (put later x xs)
unfolding put
Each-put a x [] le h = (le, tt)
Each-put a x (y ∷ ys) le (p, h) = elim (Bool-cases (later x y)) [
  | inl after ↦ rw after (p, Each-put a x ys le h)
  | inr before ↦ rw before (le, (p, h))
]

put-IsSortedHeap : (x : Source) (xs : List Source) → IsSortedHeap xs → IsSortedHeap (put later x xs)
unfolding put
put-IsSortedHeap x [] h = (tt, tt)
put-IsSortedHeap x (y ∷ ys) (p, h) = elim (Bool-cases (later x y)) [
  | inl after ↦ rw after (Each-put (key y) x ys (ground (arith, after)) p, put-IsSortedHeap x ys h)
  | inr before ↦
      let le : key x ≤ key y = ground (arith, before) in
      rw before ((le, Each-le (key x) (key y) ys le p), (p, h))
]

pub sorted-IsSortedHeap : (xs : List Source) → IsSortedHeap (sorted later xs)
unfolding sorted
sorted-IsSortedHeap [] = tt
sorted-IsSortedHeap (x ∷ xs) = put-IsSortedHeap x (sorted later xs) (sorted-IsSortedHeap xs)

put-Permᴰ : (x : Source) (xs : List Source) → Permᴰ (x ∷ xs) (put later x xs)
unfolding put
put-Permᴰ x [] = Permᴰ.refl (x ∷ [])
put-Permᴰ x (y ∷ ys) = elim (Bool-cases (later x y)) [
  | inl after ↦ rw after (Permᴰ.trans (Permᴰ.swap refl refl) (Permᴰ.cons refl (put-Permᴰ x ys)))
  | inr before ↦ rw before (Permᴰ.refl (x ∷ y ∷ ys))
]

pub sorted-Permᴰ : (xs : List Source) → Permᴰ xs (sorted later xs)
unfolding sorted
sorted-Permᴰ [] = Permᴰ.nil
sorted-Permᴰ (x ∷ xs) =
    Permᴰ.trans (Permᴰ.cons refl (sorted-Permᴰ xs)) (put-Permᴰ x (sorted later xs))

Each-key_at :
    (a : ℕ) (xs : List Source) (j : ℕ) → Each (λ y. a ≤ key y) xs → j < length xs → a ≤ key_at xs j
Each-key_at a [] j h lt = absurd (omega (arith, lt))
Each-key_at a (x ∷ xs) zero (p, h) lt = p
Each-key_at a (x ∷ xs) (suc j) (p, h) lt = Each-key_at a xs j h (omega (arith, lt))

key_at-le :
    (xs : List Source) (i j : ℕ)
    → IsSortedHeap xs
    → i ≤ j
    → j < length xs
    → key_at xs i ≤ key_at xs j
key_at-le [] i j h le lt = absurd (omega (arith, lt))
key_at-le (x ∷ xs) zero zero h le lt = omega arith
key_at-le (x ∷ xs) zero (suc j) (p, h) le lt = Each-key_at (key x) xs j p (omega (arith, lt))
key_at-le (x ∷ xs) (suc i) zero h le lt = absurd (omega (arith, le))
key_at-le (x ∷ xs) (suc i) (suc j) (p, h) le lt =
    key_at-le xs i j h (omega (arith, le)) (omega (arith, lt))

pub IsSortedHeap-IsHeap : (xs : List Source) → IsSortedHeap xs → IsHeap xs
IsSortedHeap-IsHeap xs h j lt = key_at-le xs (j / 2) (suc j) h (omega arith) lt

back-append : (xs : List Source) (x : Source) → back (xs ++ (x ∷ [])) ≡ some (xs, x)
back-append [] x = refl
back-append (y ∷ []) x = refl
back-append (y ∷ z ∷ xs) x = rw (back-append (z ∷ xs) x) refl

pub rotated-Pops :
    (heap xs : List Source)
    → 0 < length xs
    → Permᴰ heap xs
    → IsSortedHeap xs
    → Pops heap (rotated xs)
unfolding rotated
rotated-Pops heap [] pos p h = absurd (omega (arith, pos))
rotated-Pops heap (x ∷ xs) pos p (le, h) = record {
  front = xs;
  last = x;
  at_back = back-append xs x;
  same = p;
  heaped = IsSortedHeap-IsHeap xs h;
  least = le;
}

pub length-put : (x : Source) (xs : List Source) → 0 < length (put later x xs)
unfolding put
length-put x [] = omega arith
length-put x (y ∷ ys) = elim (Bool-cases (later x y)) [
  | inl after ↦ rw after (omega arith)
  | inr before ↦ rw before (omega arith)
]
