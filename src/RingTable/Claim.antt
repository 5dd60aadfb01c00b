-- ===== src/RingTable/Claim.antt =====
-- What `claim` does where no other thread acts between its loads.
use slick_perfmon.Prelude.{
  ℕ, zero, suc, ◌+◌, ◌≤◌, ◌<◌, ◌≡◌, ◌≢◌, refl, arith, ◌==◌, ==_iff, Bool-cases, inl, inr, Option,
  none, some,
}
use native.Mathlib.Decide.{ℕ_discrete}
use slick_perfmon.RingTable.{RingTable, ring_free, owner_at, set_owner, exchange, claim_from, claim}

-- The rings from i on, up to the bound, are taken.
abbrev pub Taken : RingTable → ℕ → ℕ → Type 0
Taken t i bound = (j : ℕ) → i ≤ j → j < bound → owner_at t j ≢ ring_free

-- The outcome of a claim that began at ring i.
abbrev pub Outcome : RingTable → ℕ → ℕ → ℕ → RingTable → Option ℕ → Type 0
Outcome t owner i bound t' none = (t' ≡ t) × Taken t i bound
Outcome t owner i bound t' (some k) =
    (i ≤ k) × (k < bound) × (owner_at t k ≡ ring_free) × Taken t i k × (t' ≡ set_owner t k owner)

module _ (t : RingTable) (owner : ℕ) where
  Outcome-skip :
      (i bound : ℕ) (r : RingTable × Option ℕ)
      → owner_at t i ≢ ring_free
      → Outcome t owner (i + 1) bound r.0 r.1
      → Outcome t owner i bound r.0 r.1
  Outcome-skip i bound (t', none) taken (same, rest) = (
    same,
    λ j from below. elim (ℕ_discrete j i) [
      | yes e ↦ rw e taken
      | no ne ↦ rest j (omega arith) below
    ],
  )
  Outcome-skip i bound (t', some k) taken (from, below, free, rest, won) = (
    omega (arith, from),
    below,
    free,
    (λ j a b. elim (ℕ_discrete j i) [ yes e ↦ rw e taken | no ne ↦ rest j (omega arith) b ]),
    won,
  )

  claim_from-Outcome :
      (n i : ℕ) → Outcome t owner i (i + n) (claim_from n t i owner).0 (claim_from n t i owner).1
  unfolding claim_from exchange
  claim_from-Outcome zero i = (refl, λ j a b. absurd (omega arith))
  claim_from-Outcome (suc n) i = elim (Bool-cases (owner_at t i == ring_free)) [
    | inl free ↦ rw free (
      omega arith,
      omega arith,
      (==_iff (owner_at t i) ring_free).0 free,
      (λ j a b. absurd (omega arith)),
      refl,
    )
    | inr taken ↦
        let e : i + suc n ≡ i + 1 + n = omega arith in
        rw (taken, e)
          (Outcome-skip i (i + 1 + n) (claim_from n t (i + 1) owner)
            (λ h. cc ((==_iff (owner_at t i) ring_free).1 h)) (claim_from-Outcome n (i + 1)))
  ]

  -- A claim by a thread that nobody interrupts takes the free ring of the lowest number, writes the
  -- owner there and nothing else, and fails only if no ring is free, with the table as it was.
  pub claim-Outcome : Outcome t owner 0 t.count (claim t owner).0 (claim t owner).1
  unfolding claim
  claim-Outcome =
      let e : 0 + t.count ≡ t.count = omega arith in rw e at (claim_from-Outcome t.count 0)
