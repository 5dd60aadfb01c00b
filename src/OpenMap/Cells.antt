-- ===== src/OpenMap/Cells.antt =====
-- Reading, writing and summing over the vectors of the table.
use slick_perfmon.Prelude.{
  ℕ, zero, suc, ◌+◌, ◌≤◌, ◌<◌, ◌≡◌, refl, arith, false, ◌==◌, if◌then◌else◌, List, [], ◌∷◌, length,
  set, replicate, get_or-set, Bool-cases, inl, inr,
}
use slick_perfmon.OpenMap.{Cell, Default, blank, at}

module _ {ℓ} {V : Type ℓ} where
  -- What `g` says of a cell in use, and nothing of one that is not.
  abbrev pub weight : (ℕ → V → ℕ) → Cell V → ℕ
  weight g c = if c.used then g c.key c.val else 0

  -- The sum of `g` over the live entries.
  unfoldable pub total : (ℕ → V → ℕ) → List (Cell V) → ℕ
  total g [] = 0
  total g (c ∷ cs) = weight g c + total g cs

  abbrev pub one : ℕ → V → ℕ
  one k v = 1

  pub total-replicate :
      (g : ℕ → V → ℕ) (n : ℕ) (c : Cell V) → c.used ≡ false → total g (replicate n c) ≡ 0
  unfolding total
  total-replicate g zero c h = refl
  total-replicate g (suc n) c h = ground (arith, total-replicate g n c h)

module _ {ℓ} {V : Type ℓ} ⦃d : Default V⦄ where
  pub at-set :
      (cells : List (Cell V)) (i j : ℕ) (c : Cell V)
      → i < length cells
      → at (set cells i c) j ≡ (if i == j then c else at cells j)
  unfolding at
  at-set cells i j c h = get_or-set cells i j c blank h

  -- A write changes the sum by what it puts in place of the old cell.
  pub total-set :
      (g : ℕ → V → ℕ) (cells : List (Cell V)) (i : ℕ) (c : Cell V)
      → i < length cells
      → total g (set cells i c) + weight g (at cells i) ≡ total g cells + weight g c
  unfolding total at
  total-set g [] i c h = absurd (omega arith)
  total-set g (x ∷ cs) zero c h = omega arith
  total-set g (x ∷ cs) (suc i) c h = omega (arith, total-set g cs i c (omega arith))

  pub weight-le-total :
      (g : ℕ → V → ℕ) (cells : List (Cell V)) (i : ℕ)
      → i < length cells
      → weight g (at cells i) ≤ total g cells
  unfolding total at
  weight-le-total g [] i h = absurd (omega arith)
  weight-le-total g (x ∷ cs) zero h = omega arith
  weight-le-total g (x ∷ cs) (suc i) h = omega (arith, weight-le-total g cs i (omega arith))

  -- A table with fewer entries than slots has an unused slot.
  pub unused_slot :
      (cells : List (Cell V))
      → total one cells < length cells
      → (f : ℕ) × (f < length cells) × ((at cells f).used ≡ false)
  unfolding total at
  unused_slot [] h = absurd (omega arith)
  unused_slot (c ∷ cs) h = elim (Bool-cases c.used) [
    | inr e ↦ (0, omega arith, e)
    | inl e ↦ let (f, lt, u) = unused_slot cs (ground arith) in (suc f, omega arith, u)
  ]
