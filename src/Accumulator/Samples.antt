-- ===== src/Accumulator/Samples.antt =====
-- An accumulator stands for the samples that were added to it.
use native.Mathlib.Nat.{mod-eq_of_lt}
use slick_perfmon.Prelude.{
  ℕ, ◌+◌, ◌^◌, ◌≤◌, ◌<◌, ◌≡◌, refl, sym, ◌∙◌, arith, true, false, ltb, ◌==◌, ==_iff, ==_false,
  if◌then◌else◌, List, [], ◌∷◌, ◌++◌, length, length-append,
}
use slick_perfmon.Histogram.{count_at, index_of}
use slick_perfmon.Histogram.Band.{IsValid, empty-IsValid, empty-counts, empty-total}
use slick_perfmon.Histogram.Adding.{add-Adds}
use slick_perfmon.Histogram.Merging.{merge-Merges}
use slick_perfmon.Histogram.Clearing.{clear-Clears}
use slick_perfmon.Accumulator.{Doubles, Accumulator, u64_max, fresh, add, clear, merge_into}

-- The least and the greatest sample, and how many fall in a bucket.
unfoldable pub lowest : List ℕ → ℕ
lowest [] = u64_max
lowest (x ∷ xs) = if ltb x (lowest xs) then x else lowest xs

unfoldable pub highest : List ℕ → ℕ
highest [] = 0
highest (x ∷ xs) = if ltb (highest xs) x then x else highest xs

unfoldable pub in_bucket : ℕ → List ℕ → ℕ
in_bucket i [] = 0
in_bucket i (x ∷ xs) = (if index_of x == i then 1 else 0) + in_bucket i xs

-- The counters of an accumulator, exactly, for the samples `xs`, the last one first.
pub record Summarises {F : Type 0} (xs : List ℕ) (a : Accumulator F) : Type 0 where
  pub count : a.count ≡ length xs
  pub min : a.min ≡ lowest xs
  pub max : a.max ≡ highest xs
  pub valid : IsValid a.hist
  pub total : a.hist.total ≡ length xs
  pub buckets : (i : ℕ) → count_at a.hist.counts i ≡ in_bucket i xs

lowest-le : (xs : List ℕ) → lowest xs ≤ u64_max
unfolding lowest
lowest-le [] = omega arith
lowest-le (x ∷ xs) = ground (arith, lowest-le xs)

lowest-append :
    (xs ys : List ℕ)
    → lowest (xs ++ ys) ≡ (if ltb (lowest xs) (lowest ys) then lowest xs else lowest ys)
unfolding lowest
lowest-append [] ys = ground (arith, lowest-le ys)
lowest-append (x ∷ xs) ys = rw (lowest-append xs ys) (ground arith)

highest-append :
    (xs ys : List ℕ)
    → highest (xs ++ ys) ≡ (if ltb (highest ys) (highest xs) then highest xs else highest ys)
unfolding highest
highest-append [] ys = ground arith
highest-append (x ∷ xs) ys = rw (highest-append xs ys) (ground arith)

in_bucket-append :
    (i : ℕ) (xs ys : List ℕ) → in_bucket i (xs ++ ys) ≡ in_bucket i xs + in_bucket i ys
unfolding in_bucket
in_bucket-append i [] ys = omega arith
in_bucket-append i (x ∷ xs) ys = rw (in_bucket-append i xs ys) (omega arith)

none_lowest : (xs : List ℕ) → length xs ≡ 0 → lowest xs ≡ u64_max
unfolding lowest
none_lowest [] e = refl
none_lowest (x ∷ xs) e = absurd (omega arith)

none_highest : (xs : List ℕ) → length xs ≡ 0 → highest xs ≡ 0
unfolding highest
none_highest [] e = refl
none_highest (x ∷ xs) e = absurd (omega arith)

-- The special case of `merge_into` for an empty destination makes no difference.
pick_lowest :
    (n x y : ℕ)
    → (n ≡ 0 → y ≡ u64_max)
    → x ≤ u64_max
    → (if n == 0 then x else if ltb x y then x else y) ≡ (if ltb x y then x else y)
pick_lowest n x y none_left le = ground arith

pick_highest :
    (n x y : ℕ)
    → (n ≡ 0 → y ≡ 0)
    → (if n == 0 then x else if ltb y x then x else y) ≡ (if ltb y x then x else y)
pick_highest n x y none_left = ground arith

module _ {F : Type 0} ⦃f : Doubles F⦄ where
  pub fresh-Summarises : Summarises [] (fresh {F = F})
  unfolding fresh lowest highest in_bucket
  fresh-Summarises = record {
    count = refl;
    min = refl;
    max = refl;
    valid = empty-IsValid;
    total = empty-total;
    buckets = empty-counts;
  }

  -- To an accumulator of the samples `xs`, whose count does not wrap, a sample of 64 bits adds one in
  -- the count, in the range and in its bucket: it is an accumulator of `v ∷ xs`.
  pub add-Summarises :
      (xs : List ℕ) (a : Accumulator F) (v : ℕ)
      → Summarises xs a
      → v < 2 ^ 64
      → length xs + 1 < 2 ^ 64
      → Summarises (v ∷ xs) (add a v)
  unfolding add lowest highest in_bucket
  add-Summarises xs a v s small fits =
      let r = add-Adds a.hist v s.valid small (omega (arith, s.total)) in
      record {
        count = rw (s.count) (mod-eq_of_lt fits ∙ omega arith);
        min = rw s.min refl;
        max = rw s.max refl;
        valid = r.valid;
        total = omega (arith, r.total, s.total);
        buckets = λ i. rw (r.counts i, s.buckets i) (ground arith);
      }

  -- `clear` makes an accumulator of any samples into one of none, in its exact counters.
  pub clear-Summarises :
      (xs : List ℕ) (a : Accumulator F) → Summarises xs a → Summarises [] (clear a)
  unfolding clear lowest highest in_bucket
  clear-Summarises xs a s =
      let r = clear-Clears a.hist s.valid in
      record {
        count = refl;
        min = refl;
        max = refl;
        valid = r.valid;
        total = r.total;
        buckets = r.counts;
      }

  -- In its exact counters `a.merge_into(dst)` stands for the samples of both, where their number does
  -- not wrap: count, least, greatest and every bucket.
  pub merge_into-Summarises :
      (xs ys : List ℕ) (a dst : Accumulator F)
      → Summarises xs a
      → Summarises ys dst
      → length xs + length ys < 2 ^ 64
      → Summarises (xs ++ ys) (merge_into a dst)
  unfolding merge_into
  merge_into-Summarises [] ys a dst s t fits =
      let e : (a.count == 0) ≡ true = (==_iff a.count 0).1 s.count in rw e t
  merge_into-Summarises (x ∷ xs) ys a dst s t fits =
      let e : (a.count == 0) ≡ false = ==_false a.count 0 (λ z. absurd (omega (arith, s.count))) in
      let r = merge-Merges dst.hist a.hist t.valid s.valid (omega (arith, s.total, t.total)) in
      rw e (record {
        count = omega (arith, s.count, t.count, length-append (x ∷ xs) ys);
        min =
            rw (s.min, t.min)
              (pick_lowest dst.count (lowest (x ∷ xs)) (lowest ys)
                  (λ z. none_lowest ys (omega (arith, t.count))) (lowest-le (x ∷ xs))
                ∙ sym (lowest-append (x ∷ xs) ys));
        max =
            rw (s.max, t.max)
              (pick_highest dst.count (highest (x ∷ xs)) (highest ys)
                  (λ z. none_highest ys (omega (arith, t.count)))
                ∙ sym (highest-append (x ∷ xs) ys));
        valid = r.valid;
        total = omega (arith, r.total, s.total, t.total, length-append (x ∷ xs) ys);
        buckets = λ i.
            r.counts i ∙ omega (arith, s.buckets i, t.buckets i, in_bucket-append i (x ∷ xs) ys);
      })
