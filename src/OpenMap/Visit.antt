-- ===== src/OpenMap/Visit.antt =====
-- `for_each` with a function that leaves the values as they are: every live entry is visited once.
use slick_perfmon.Prelude.{
  ℕ, suc, ◌+◌, ◌<◌, ◌≡◌, refl, ap, arith, true, Bool-cases, inl, inr, List, [], ◌∷◌, length,
}
use slick_perfmon.OpenMap.{Cell, Default, OpenMap, at, load, each, for_each}
use slick_perfmon.OpenMap.Cells.{total, one}
use slick_perfmon.OpenMap.Valid.{IsValid, Stored}

module _ {ℓ κ μ} {V : Type ℓ} {S : Type κ} ⦃d : Default V⦄ (fn : ℕ → V → S → V × S)
    (P : ℕ → S → Type μ) (keeps : (k : ℕ) (x : V) (s : S) → (fn k x s).0 ≡ x) where
  each-Visits :
      (cs : List (Cell V)) (n : ℕ) (s : S)
      → ((p : ℕ)
          → p < length cs
          → (at cs p).used ≡ true
          → (n : ℕ) (s : S) → P n s
          → P (n + 1) (fn (at cs p).key (at cs p).val s).1)
      → P n s
      → ((each fn cs s).0 ≡ cs) × P (n + total one cs) (each fn cs s).1
  unfolding each total at
  each-Visits [] n s step h = let e : n + 0 ≡ n = omega arith in (refl, rw e h)
  each-Visits (c ∷ cs) n s step h = elim (Bool-cases c.used) [
    | inl e ↦
        let now = step 0 (omega arith) e n s h in
        let (same, rest) =
          each-Visits cs (n + 1) (fn c.key c.val s).1 (λ p lt. step (suc p) (omega arith)) now in
        let sum : n + (1 + total one cs) ≡ n + 1 + total one cs = omega arith in
        rw e (rw (keeps c.key c.val s, same, sum) (refl, rest))
    | inr e ↦
        let (same, rest) = each-Visits cs n s (λ p lt. step (suc p) (omega arith)) h in
        let sum : n + (0 + total one cs) ≡ n + total one cs = omega arith in
        rw e (rw (same, sum) (refl, rest))
  ]

  -- The table is as it was, and what each visit of an entry keeps up holds at the end, for as many
  -- visits as there are entries.
  pub for_each-Visits :
      (m : OpenMap V) (v : IsValid m) (s : S)
      → ((k p : ℕ) → Stored m v.cap k p → (n : ℕ) (s : S) → P n s → P (n + 1) (fn k (load m p) s).1)
      → P 0 s
      → ((for_each fn m s).0 ≡ m) × P m.size (for_each fn m s).1
  unfolding for_each load
  for_each-Visits m v s step h =
      let (same, all) =
        each-Visits m.cells 0 s
          (λ p lt live.
            step (at m.cells p).key p
              (record { inside = omega (arith, v.width); live = live; keyed = refl }))
          h in
      let sum : 0 + total one m.cells ≡ m.size = omega (arith, v.counted) in
      (ap (λ (cs : List (Cell V)). record m { cells = cs }) same, rw sum at all)

module _ {ℓ κ μ} {V : Type ℓ} {S : Type κ} ⦃d : Default V⦄ (fn : ℕ → V → S → V × S) (P : S → Type μ)
    (step : (k : ℕ) (x : V) (s : S) → P s → P (fn k x s).1) where
  each-keeps : (cs : List (Cell V)) (s : S) → P s → P (each fn cs s).1
  unfolding each
  each-keeps [] s h = h
  each-keeps (c ∷ cs) s h = elim (Bool-cases c.used) [
    | inl e ↦ rw e (each-keeps cs (fn c.key c.val s).1 (step c.key c.val s h))
    | inr e ↦ rw e (each-keeps cs s h)
  ]

  -- What every visit keeps up holds at the end.
  pub for_each-keeps : (m : OpenMap V) (s : S) → P s → P (for_each fn m s).1
  unfolding for_each
  for_each-keeps m s h = each-keeps m.cells s h
