-- ===== src/ControlBlock/Searching.antt =====
-- How the search of `publish_one` and that of `lookup` run over the slots.
use native.Mathlib.Decide.{ℕ_discrete}
use slick_perfmon.Prelude.{
  ℕ, zero, suc, ◌+◌, ◌%◌, ◌^◌, ◌≤◌, ◌<◌, ◌≡◌, ◌≢◌, ◌⊎◌, refl, ap, sym, ◌∙◌, arith, Bool, true,
  false, ◌||◌, leb, ◌==◌, ==_iff, ==_false, if◌then◌else◌, Bool-cases, inl, inr, List,
}
use slick_perfmon.Prelude.Text.{same_text}
use slick_perfmon.ControlBlock.{ControlBlock, NameEntry}
use slick_perfmon.ControlBlock.Names.{
  is_claimed, key_of, tagged, c_string, entry_at, word, write_word, write_name, bump, await_claim,
  settle, judge, publish_from, lookup_from,
}
use slick_perfmon.ControlBlock.Words.{key_of_mod, is_claimed-leb}

await_claim_still : (n cur t : ℕ) → await_claim n (λ t. cur) t ≡ cur
unfolding await_claim
await_claim_still zero cur t = refl
await_claim_still (suc n) cur t = ground (arith, await_claim_still n cur (t + 1))

settle_still : (want cur : ℕ) → settle want cur ≡ cur
unfolding settle
settle_still want cur = ground (arith, await_claim_still 1000 cur 0)

-- A word of 64 bits with no claim and the wanted key is the wanted word.
unclaimed : (w want : ℕ) → w < 2 ^ 64 → is_claimed w ≡ false → key_of w ≡ want → w ≡ want
unclaimed w want fits free same =
    let c : leb (2 ^ 63) w ≡ false = sym (is_claimed-leb w fits) ∙ free in
    let low : w < 2 ^ 63 = ground arith in omega (arith, key_of_mod w, same, low)

module _ (b : ControlBlock) (want : ℕ) where
  -- The slots from i on, up to the bound, have other keys.
  abbrev pub Passed : ℕ → ℕ → Type 0
  Passed i bound = (j : ℕ) → i ≤ j → j < bound → (word b j ≢ 0) × (word b j ≢ want)

  abbrev pub written : ℕ → List ℕ → ControlBlock
  written k nm = bump (write_word (write_name (write_word b k (tagged want)) k nm) k want)

  -- How the search for a slot ends.
  pub data Ends (nm : List ℕ) (i bound : ℕ) (r : ControlBlock × Bool) : Type 0 where
    held :
        (k : ℕ)
        → i ≤ k
        → k < bound
        → Passed i k
        → word b k ≡ want
        → r ≡ (b, same_text (c_string (entry_at b k).name) nm)
        → Ends nm i bound r
    blocked :
        (k : ℕ)
        → i ≤ k
        → k < bound
        → Passed i k
        → key_of (word b k) ≡ want
        → r ≡ (b, false)
        → Ends nm i bound r
    added :
        (k : ℕ)
        → i ≤ k
        → k < bound
        → Passed i k
        → word b k ≡ 0
        → r ≡ (written k nm, true)
        → Ends nm i bound r
    full : Passed i bound → r ≡ (b, false) → Ends nm i bound r

  module _ (pos : 0 < want) (small : want < 2 ^ 63) (fits : (i : ℕ) → word b i < 2 ^ 64) where
    Passed-more : (i k : ℕ) → word b i ≢ 0 → word b i ≢ want → Passed (i + 1) k → Passed i k
    Passed-more i k a c rest = λ j from below. elim (ℕ_discrete j i) [
      | yes e ↦ rw e (a, c)
      | no ne ↦ rest j (omega arith) below
    ]

    Passed-none : (i : ℕ) → Passed i i
    Passed-none i = λ j from below. absurd (omega arith)

    Ends-more :
        (nm : List ℕ) (i bound : ℕ) (r : ControlBlock × Bool)
        → word b i ≢ 0
        → word b i ≢ want
        → Ends nm (i + 1) bound r
        → Ends nm i bound r
    Ends-more nm i bound r a c (held k from below p w e) =
        held k (omega (arith, from)) below (Passed-more i k a c p) w e
    Ends-more nm i bound r a c (blocked k from below p w e) =
        blocked k (omega (arith, from)) below (Passed-more i k a c p) w e
    Ends-more nm i bound r a c (added k from below p w e) =
        added k (omega (arith, from)) below (Passed-more i k a c p) w e
    Ends-more nm i bound r a c (full p e) = full (Passed-more i bound a c p) e

    pub publish_from-Ends : (nm : List ℕ) (n i : ℕ) → Ends nm i (i + n) (publish_from n b i want nm)
    unfolding publish_from judge
    publish_from-Ends nm zero i = full (λ j from below. absurd (omega arith)) refl
    publish_from-Ends nm (suc n) i = elim (Bool-cases (key_of (word b i) == want)) [
      | inl mine ↦
          let key : key_of (word b i) ≡ want = (==_iff (key_of (word b i)) want).0 mine in
          elim (Bool-cases (is_claimed (word b i))) [
            | inl claimed ↦
                blocked i (omega arith) (omega arith) (Passed-none i) key
                  (rw (publish_from, judge, settle_still want (word b i), mine, claimed) refl)
            | inr free ↦
                held i (omega arith) (omega arith) (Passed-none i)
                  (unclaimed (word b i) want (fits i) free key)
                  (rw (publish_from, judge, settle_still want (word b i), mine, free) refl)
          ]
      | inr other ↦ elim (Bool-cases (word b i == 0)) [
        | inl empty ↦
            added i (omega arith) (omega arith) (Passed-none i) ((==_iff (word b i) 0).0 empty) (
              rw
                (
                  publish_from,
                  judge,
                  settle_still want (word b i),
                  other,
                  settle_still want (word b i),
                  empty,
                )
                refl)
        | inr taken ↦
            let e : i + suc n ≡ i + 1 + n = omega arith in
            rw
              (
                publish_from,
                judge,
                settle_still want (word b i),
                other,
                settle_still want (word b i),
                taken,
                e,
              )
              (Ends-more nm i (i + 1 + n) (publish_from n b (i + 1) want nm)
                (λ h. cc ((==_iff (word b i) 0).1 h))
                (λ h.
                  let m : word b i % 2 ^ 63 ≡ want = omega (arith, h) in
                  cc ((==_iff (key_of (word b i)) want).1 (key_of_mod (word b i) ∙ m)))
                (publish_from-Ends nm n (i + 1)))
      ]
    ]

    pub lookup_from-held :
        (n i k : ℕ)
        → i ≤ k
        → k < i + n
        → ((j : ℕ) → i ≤ j → j < k → word b j ≢ want)
        → word b k ≡ want
        → lookup_from n b i want ≡ c_string (entry_at b k).name
    unfolding lookup_from
    lookup_from-held zero i k from below p w = absurd (omega arith)
    lookup_from-held (suc n) i k from below p w = elim (ℕ_discrete i k) [
      | yes e ↦
          let nonzero : (word b k == 0) ≡ false =
            ==_false (word b k) 0 (λ z. absurd (omega (arith, w, z))) in
          let free : is_claimed (word b k) ≡ false =
            is_claimed-leb (word b k) (fits k) ∙ ground (arith, w) in
          let same : (word b k == want) ≡ true = (==_iff (word b k) want).1 w in
          rw (e, nonzero, free, same) refl
      | no ne ↦
          let other : (word b i == want) ≡ false =
            ==_false (word b i) want (p i (omega arith) (omega arith)) in
          let rest =
            lookup_from-held n (i + 1) k (omega arith) (omega arith) (λ j a c. p j (omega arith) c)
              w in
          elim (Bool-cases ((word b i == 0) || is_claimed (word b i))) [
            | inl skip ↦ rw skip rest
            | inr look ↦ rw (look, other) rest
          ]
    ]

abbrev pick : ℕ → NameEntry → List ℕ → List ℕ
pick want x next =
    if (x.key_plus_one == 0) || is_claimed x.key_plus_one
    then next
    else (if x.key_plus_one == want then c_string x.name else next)

-- A key that neither block has in a slot where they differ.
pub lookup_from-eq :
    (b b' : ControlBlock) (want : ℕ)
    → ((j : ℕ) → (entry_at b' j ≡ entry_at b j) ⊎ ((word b j ≢ want) × (word b' j ≢ want)))
    → (n i : ℕ) → lookup_from n b' i want ≡ lookup_from n b i want
unfolding lookup_from
lookup_from-eq b b' want same zero i = refl
lookup_from-eq b b' want same (suc n) i = elim (same i) [
  | inl e ↦
      ap (λ (x : NameEntry). pick want x (lookup_from n b' (i + 1) want)) e
      ∙ ap (pick want (entry_at b i)) (lookup_from-eq b b' want same n (i + 1))
  | inr (x, y) ↦
      let u : (word b i == want) ≡ false = ==_false (word b i) want x in
      let v : (word b' i == want) ≡ false = ==_false (word b' i) want y in
      let ih = lookup_from-eq b b' want same n (i + 1) in
      skip b' i want n v ∙ ih ∙ sym (skip b i want n u)
]
  where
    skip :
        (b : ControlBlock) (i want n : ℕ)
        → (word b i == want) ≡ false
        → lookup_from (suc n) b i want ≡ lookup_from n b (i + 1) want
    skip b i want n u = elim (Bool-cases ((word b i == 0) || is_claimed (word b i))) [
      | inl s ↦ rw (lookup_from, s) refl
      | inr l ↦ rw (lookup_from, l, u) refl
    ]
