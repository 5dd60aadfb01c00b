-- ===== src/OpenMap/Reset.antt =====
-- `reset` and `clear`: an empty table with the invariant.
use slick_perfmon.Prelude.{
  ℕ, zero, suc, ◌-◌, ◌*◌, ◌^◌, ◌≤◌, ◌<◌, ◌≡◌, refl, ap, ◌∙◌, arith, false, ◌==◌, if◌then◌else◌,
  none, Option-cases, List, [], ◌∷◌, length, replicate, length-replicate, get_or-replicate, inl,
  inr,
}
use slick_perfmon.OpenMap.{
  Cell, Default, OpenMap, at, blank, next_pow2, reset, clear, unused_all, find,
}
use slick_perfmon.OpenMap.Cells.{total, one, total-replicate}
use slick_perfmon.OpenMap.Cyclic.{IsMask, pow2-IsMask}
use slick_perfmon.OpenMap.Pow2.{next_pow2_least}
use slick_perfmon.OpenMap.Valid.{IsValid, lookup, find-Stored, lookup-eq_none}

-- The entries that `reset` allows when it is asked for `n`.
abbrev pub entries : ℕ → ℕ
entries n = if n == 0 then 1 else n

module _ {ℓ} {V : Type ℓ} ⦃d : Default V⦄ where
  -- An empty table for at most `n` entries.
  pub record Empties (n : ℕ) (m : OpenMap V) : Type ℓ where
    pub valid : IsValid m
    pub reads : (k : ℕ) → lookup m k ≡ none
    pub sums : (g : ℕ → V → ℕ) → total g m.cells ≡ 0
    pub size : m.size ≡ 0
    pub limit : m.max_entries ≡ n

  -- A valid table with no live slot is empty to every reader.
  empty_reads :
      (m : OpenMap V) (v : IsValid m)
      → ((p : ℕ) → (at m.cells p).used ≡ false)
      → (k : ℕ) → lookup m k ≡ none
  empty_reads m v unused k = elim (Option-cases (find m k)) [
    | inl e ↦ lookup-eq_none m v k e
    | inr (p, e) ↦ let s = find-Stored m v k p e in cc (s.live, unused p)
  ]

  at-replicate : (n p : ℕ) → at (replicate n (blank {V = V})) p ≡ blank
  unfolding at
  at-replicate n p = get_or-replicate n p blank

  -- For an `n` of 32 bits, `reset` makes an empty and valid table for `n` entries, or for one where
  -- `n` is 0, with at least twice as many slots.
  pub reset-Empties :
      (n : ℕ)
      → n < 2 ^ 32
      → Empties (entries n) (reset n) × (entries n * 2 ≤ length (reset {V = V} n).cells)
  unfolding reset
  reset-Empties n h =
      let few : entries n ≤ 2 ^ 32 = ground arith in
      let some_room : 1 ≤ entries n = ground arith in
      let (b, hb, e, le, lt) = next_pow2_least (entries n * 2) (omega arith) (omega arith) in
      let cap : ℕ = next_pow2 (entries n * 2) in
      let mask : IsMask (cap - 1) cap = rw e (pow2-IsMask b (omega arith)) in
      let zero_total : (g : ℕ → V → ℕ) → total g (replicate cap (blank {V = V})) ≡ 0 =
        λ g. total-replicate g cap blank refl in
      let unused : (p : ℕ) → (at (replicate cap (blank {V = V})) p).used ≡ false =
        λ p. ap (λ (c : Cell V). c.used) (at-replicate cap p) in
      let valid : IsValid (reset {V = V} n) = record {
        cap = cap;
        geometry = mask;
        width = length-replicate cap blank;
        counted = zero_total one;
        bounded = omega arith;
        room = omega arith;
        reached = λ p q hp hq up before. cc (up, unused p);
        unique = λ p q hp hq up uq same. cc (up, unused p);
      } in
      (
        record {
          valid = valid;
          reads = empty_reads (reset n) valid unused;
          sums = zero_total;
          size = refl;
          limit = refl;
        },
        rw (length-replicate cap (blank {V = V})) (omega arith),
      )

  at-unused_all : (cells : List (Cell V)) (p : ℕ) → (at (unused_all cells) p).used ≡ false
  unfolding unused_all at
  at-unused_all [] p = refl
  at-unused_all (c ∷ cs) zero = refl
  at-unused_all (c ∷ cs) (suc p) = at-unused_all cs p

  length-unused_all : (cells : List (Cell V)) → length (unused_all cells) ≡ length cells
  unfolding unused_all
  length-unused_all [] = refl
  length-unused_all (c ∷ cs) = ap suc (length-unused_all cs)

  total-unused_all : (g : ℕ → V → ℕ) (cells : List (Cell V)) → total g (unused_all cells) ≡ 0
  unfolding unused_all total
  total-unused_all g [] = refl
  total-unused_all g (c ∷ cs) = omega (arith, total-unused_all g cs)

  -- `clear` empties a valid table and keeps its capacity.
  pub clear-Empties : (m : OpenMap V) → IsValid m → Empties m.max_entries (clear m)
  unfolding clear
  clear-Empties m v =
      let valid : IsValid (clear m) = record {
        cap = v.cap;
        geometry = v.geometry;
        width = length-unused_all m.cells ∙ v.width;
        counted = total-unused_all one m.cells;
        bounded = omega arith;
        room = v.room;
        reached = λ p q hp hq up before. cc (up, at-unused_all m.cells p);
        unique = λ p q hp hq up uq same. cc (up, at-unused_all m.cells p);
      } in
      record {
        valid = valid;
        reads = empty_reads (clear m) valid (at-unused_all m.cells);
        sums = λ g. total-unused_all g m.cells;
        size = refl;
        limit = refl;
      }
