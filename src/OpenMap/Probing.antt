-- ===== src/OpenMap/Probing.antt =====
-- The probe loop of `find`, `insert` and `erase`: it ends, and where.
use native.Mathlib.Decide.{dec_lt, ℕ_discrete}
use slick_perfmon.Prelude.{
  ℕ, zero, suc, ◌+◌, ◌≤◌, ◌<◌, ◌≡◌, ◌≢◌, arith, true, false, ◌==◌, List, Bool-cases, ==_iff, inl,
  inr,
}
use slick_perfmon.OpenMap.{Cell, Default, at, Probe, hit, hole, endless, probe, home}
use slick_perfmon.OpenMap.Cyclic.{step, gap, gap_self, step-lt, gap-lt, gap_inj, gap-step, IsMask}

module _ {ℓ} {V : Type ℓ} ⦃d : Default V⦄ (cells : List (Cell V)) (mask cap k : ℕ)
    (m : IsMask mask cap) where
  -- Slot `q` is in use for another key.
  abbrev pub Other : ℕ → Type 0
  Other q = ((at cells q).used ≡ true) × ((at cells q).key ≢ k)

  -- Every slot from the home of `k` up to `i` is in use for another key.
  abbrev pub Passed : ℕ → Type 0
  Passed i = (q : ℕ) → q < cap → gap cap (home mask k) q < gap cap (home mask k) i → Other q

  abbrev pub Ends : Probe → Type 0
  Ends (hit j) = (j < cap) × ((at cells j).used ≡ true) × ((at cells j).key ≡ k)
  Ends (hole j) = (j < cap) × ((at cells j).used ≡ false) × Passed j
  Ends endless = ⊥

  Passed-step :
      (i : ℕ)
      → i < cap
      → gap cap (home mask k) (step cap i) ≡ gap cap (home mask k) i + 1
      → Passed i
      → Other i
      → Passed (step cap i)
  Passed-step i hi e passed here q hq lt =
      elim (dec_lt (gap cap (home mask k) q) (gap cap (home mask k) i)) [
        | yes before ↦ passed q hq before
        | no not_before ↦
            let same : q ≡ i = gap_inj cap (home mask k) q i (m.home_lt k) hq hi (omega arith) in
            rw same here
      ]

  -- A slot not in use was not passed, so it is still ahead, and further on than a slot in use.
  ahead :
      (i f : ℕ)
      → f < cap
      → (at cells f).used ≡ false
      → Passed i
      → gap cap (home mask k) i ≤ gap cap (home mask k) f
  ahead i f hf unused passed = elim (dec_lt (gap cap (home mask k) f) (gap cap (home mask k) i)) [
    | yes behind ↦ cc (passed f hf behind).0
    | no far ↦ omega arith
  ]

  further :
      (i f : ℕ)
      → i < cap
      → f < cap
      → (at cells f).used ≡ false
      → (at cells i).used ≡ true
      → Passed i
      → gap cap (home mask k) i < gap cap (home mask k) f
  further i f hi hf unused used passed =
      elim (ℕ_discrete (gap cap (home mask k) i) (gap cap (home mask k) f)) [
        | yes e ↦ let same : i ≡ f = gap_inj cap (home mask k) i f (m.home_lt k) hi hf e in cc
        | no ne ↦ omega (arith, ahead i f hf unused passed)
      ]

  -- With an unused slot `f` in the table, as many rounds as there are slots from `i` to `f` end.
  pub probe-Ends :
      (n i f : ℕ)
      → i < cap
      → f < cap
      → (at cells f).used ≡ false
      → Passed i
      → gap cap (home mask k) f < gap cap (home mask k) i + n
      → Ends (probe n cells mask k i)
  unfolding probe
  probe-Ends zero i f hi hf unused passed fuel = absurd (omega (arith, ahead i f hf unused passed))
  probe-Ends (suc n) i f hi hf unused passed fuel = elim (Bool-cases (at cells i).used) [
    | inr free ↦ rw free (hi, free, passed)
    | inl used ↦ elim (Bool-cases ((at cells i).key == k)) [
      | inl same ↦ rw (used, same) (hi, used, (==_iff _ k).0 same)
      | inr other ↦
          let lt = further i f hi hf unused used passed in
          let e = gap-step cap (home mask k) i f (m.home_lt k) hi hf lt in
          let here : Other i = (used, λ same. cc ((==_iff _ k).1 same)) in
          rw (used, other, m.next_eq i hi)
            (probe-Ends n (step cap i) f (step-lt cap i hi) hf unused
              (Passed-step i hi e passed here) (omega arith))
    ]
  ]

  -- From the home slot nothing is passed yet, and a round for each slot is enough.
  pub probe-Ends-home :
      (f : ℕ) → f < cap → (at cells f).used ≡ false → Ends (probe cap cells mask k (home mask k))
  probe-Ends-home f hf unused =
      probe-Ends cap (home mask k) f (m.home_lt k) hf unused
        (λ q hq lt. absurd (omega (arith, gap_self cap (home mask k))))
        (omega (arith, gap-lt cap (home mask k) f (m.home_lt k) hf, gap_self cap (home mask k)))
