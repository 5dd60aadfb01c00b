-- ===== src/ControlBlock/OneSlot.antt =====
-- A key has at most one slot, in every order of the accesses.
use native.Mathlib.Nat.{mod-eq_of_lt}
use native.Mathlib.Decide.{ℕ_discrete}
use slick_perfmon.Prelude.{
  ℕ, zero, suc, ◌+◌, ◌^◌, ◌<◌, ◌≡◌, ◌≢◌, refl, sym, ◌∙◌, ap, arith, Bool, true, false, not, ◌&&◌,
  ltb, ◌==◌, ==_iff, Bool-cases, inl, inr, none, some, List, [], ◌∷◌, length, length-set,
}
use slick_perfmon.ControlBlock.{ControlBlock}
use slick_perfmon.ControlBlock.Names.{
  is_claimed, key_of, tagged, word, write_word, write_name, bump,
}
use slick_perfmon.ControlBlock.Words.{key_of_mod, tagged_sum}
use slick_perfmon.ControlBlock.Publishers.{
  Pc, looking, racing, claimed, named, waiting, published, returned, System, put, decide, inspect,
  wait_more, act, run,
}
use slick_perfmon.ControlBlock.Slots.{
  owns, IsTable, Passed, Good, IsSafe, put_lem, SameKeys, SameKeys-IsTable, SameKeys-refl,
  Good-kept, word-write_word_other, word-write_word, word-write_name,
}

module _ (want : ℕ → ℕ) (small : (t : ℕ) → want t < 2 ^ 63) (pos : (t : ℕ) → 0 < want t)
    (σ : System) (v : IsSafe want σ) where
  -- A process that moves on in a block whose keys stay.
  moved :
      (t : ℕ) (p : Pc) (b' : ControlBlock)
      → SameKeys σ.block b'
      → Good σ.block (want t) p
      → ((i : ℕ) → owns p ≡ some i → owns (σ.pc t) ≡ some i)
      → IsSafe want (record { block = b'; pc = put σ.pc t p })
  moved t p b' (l, m, same) g own = record {
    table = SameKeys-IsTable σ.block b' (l, m, same) v.table;
    good = λ u. elim (put_lem σ.pc t u p) [
      | inl (e, q) ↦ rw (q, e) (Good-kept σ.block b' (want t) m p keep g)
      | inr (ne, q) ↦ rw q (Good-kept σ.block b' (want u) m (σ.pc u) keep (v.good u))
    ];
    alone = λ u w i h k. v.alone u w i (before u i h) (before w i k);
  }
    where
      keep :
          (j : ℕ)
          → word σ.block j ≢ 0
          → (key_of (word b' j) ≡ key_of (word σ.block j)) × (word b' j ≢ 0)
      keep j a = ((same j).0, (same j).2 a)

      before : (u i : ℕ) → owns (put σ.pc t p u) ≡ some i → owns (σ.pc u) ≡ some i
      before u i h = elim (put_lem σ.pc t u p) [
        | inl (e, q) ↦ rw e (own i (rw q at h))
        | inr (ne, q) ↦ rw q at h
      ]

  key_of-small : (w : ℕ) → w < 2 ^ 63 → key_of w ≡ w
  key_of-small w lt = key_of_mod w ∙ mod-eq_of_lt lt

  key_of-tagged : (t : ℕ) → key_of (tagged (want t)) ≡ want t
  key_of-tagged t =
      let s = small t in omega (arith, key_of_mod (tagged (want t)), tagged_sum (want t) s, s)

  tagged-ne : (t : ℕ) → tagged (want t) ≢ 0
  tagged-ne t e = absurd (omega (arith, e, tagged_sum (want t) (small t)))

  owns-Good :
      (u i : ℕ) (p : Pc)
      → owns p ≡ some i
      → Good σ.block (want u) p
      → (i < σ.block.max_names) × (word σ.block i ≢ 0) × (key_of (word σ.block i) ≡ want u)
  owns-Good u i (looking k) h g = absurd (cc)
  owns-Good u i (racing k) h g = absurd (cc)
  owns-Good u i (waiting k n lost) h g = absurd (cc)
  owns-Good u i (claimed k) h g = let e : k ≡ i = cc in rw (← e) g
  owns-Good u i (named k) h g = let e : k ≡ i = cc in rw (← e) g
  owns-Good u i published h g = absurd (cc)
  owns-Good u i (returned r) h g = absurd (cc)

  -- A process wins a free slot.
  win :
      (t i : ℕ)
      → Passed σ.block (want t) i
      → i < σ.block.max_names
      → word σ.block i ≡ 0
      → IsSafe want
          (record { block = write_word σ.block i (tagged (want t)); pc = put σ.pc t (claimed i) })
  win t i seen lt free = record {
    table = record {
      width = length-set σ.block.names i _ ∙ v.table.width;
      dense = λ k j kj h. elim (ℕ_discrete i k) [
        | yes e ↦ rw (← e) at_i
        | no ne ↦ λ z. elim (ℕ_discrete i j) [
          | yes e' ↦ (seen k (omega arith)).0 (sym (other k ne) ∙ z)
          | no ne' ↦ v.table.dense k j kj (λ y. h (other j ne' ∙ y)) (sym (other k ne) ∙ z)
        ]
      ];
      unique = λ k j kj h e. elim (ℕ_discrete i j) [
        | yes same ↦
            (seen k (omega arith)).1
              (ap key_of (sym (other k (λ z. absurd (omega arith)))) ∙ e ∙ rw (← same) key_i)
        | no ne' ↦
            let taken : word σ.block j ≢ 0 = λ y. h (other j ne' ∙ y) in
            elim (ℕ_discrete i k) [
              | yes same ↦ v.table.dense i j (omega arith) taken free
              | no ne ↦
                  v.table.unique k j kj taken
                    (ap key_of (sym (other k ne)) ∙ e ∙ ap key_of (other j ne'))
            ]
      ];
    };
    good = λ u. elim (put_lem σ.pc t u (claimed i)) [
      | inl (e, q) ↦ rw (q, e) (lt, at_i, key_i)
      | inr (ne, q) ↦ rw q (Good-kept σ.block after (want u) refl (σ.pc u) keep (v.good u))
    ];
    alone = λ u w k h h'. elim (put_lem σ.pc t u (claimed i)) [
      | inl (e, q) ↦ elim (put_lem σ.pc t w (claimed i)) [
        | inl (e', q') ↦ e ∙ sym e'
        | inr (ne', q') ↦ absurd (nobody w k (rw q' at h') (rw q at h))
      ]
      | inr (ne, q) ↦ elim (put_lem σ.pc t w (claimed i)) [
        | inl (e', q') ↦ absurd (nobody u k (rw q at h) (rw q' at h'))
        | inr (ne', q') ↦ v.alone u w k (rw q at h) (rw q' at h')
      ]
    ];
  }
    where
      after : ControlBlock
      after = write_word σ.block i (tagged (want t))

      inside : i < length σ.block.names
      inside = omega (arith, v.table.width, lt)

      at_i : word (write_word σ.block i (tagged (want t))) i ≢ 0
      at_i e = tagged-ne t (sym (word-write_word σ.block i (tagged (want t)) inside) ∙ e)

      key_i : key_of (word (write_word σ.block i (tagged (want t))) i) ≡ want t
      key_i = ap key_of (word-write_word σ.block i (tagged (want t)) inside) ∙ key_of-tagged t

      other : (j : ℕ) → i ≢ j → word (write_word σ.block i (tagged (want t))) j ≡ word σ.block j
      other j ne = word-write_word_other σ.block i j (tagged (want t)) ne

      keep :
          (j : ℕ)
          → word σ.block j ≢ 0
          → (key_of (word (write_word σ.block i (tagged (want t))) j) ≡ key_of (word σ.block j))
            × (word (write_word σ.block i (tagged (want t))) j ≢ 0)
      keep j a = elim (ℕ_discrete i j) [
        | yes e ↦ absurd (a (rw e at free))
        | no ne ↦ (ap key_of (other j ne), λ z. a (sym (other j ne) ∙ z))
      ]

      nobody : (u k : ℕ) → owns (σ.pc u) ≡ some k → owns (claimed i) ≡ some k → ⊥
      nobody u k h c = let e : i ≡ k = cc in (owns-Good u k (σ.pc u) h (v.good u)).1 (rw e at free)

  -- A process publishes the key of the slot that it has claimed.
  finish :
      (t i : ℕ)
      → σ.pc t ≡ named i
      → IsSafe want (record { block = write_word σ.block i (want t); pc = put σ.pc t published })
  finish t i h =
      moved t published (write_word σ.block i (want t)) (length-set σ.block.names i _, refl, same)
        tt (λ k e. absurd (cc))
    where
      mine : (i < σ.block.max_names) × (word σ.block i ≢ 0) × (key_of (word σ.block i) ≡ want t)
      mine = owns-Good t i (σ.pc t) (ap owns h) (v.good t)

      now : word (write_word σ.block i (want t)) i ≡ want t
      now = word-write_word σ.block i (want t) (omega (arith, v.table.width, mine.0))

      same :
          (j : ℕ)
          → (key_of (word (write_word σ.block i (want t)) j) ≡ key_of (word σ.block j))
            × (word (write_word σ.block i (want t)) j ≢ 0 → word σ.block j ≢ 0)
            × (word σ.block j ≢ 0 → word (write_word σ.block i (want t)) j ≢ 0)
      same j = elim (ℕ_discrete i j) [
        | yes e ↦ rw (← e) (
          ap key_of now ∙ key_of-small (want t) (small t) ∙ sym mine.2,
          (λ x. mine.1),
          (λ x z. absurd (omega (arith, pos t, sym now ∙ z))),
        )
        | no ne ↦
            let o = word-write_word_other σ.block i j (want t) ne in
            (ap key_of o, (λ a z. a (o ∙ z)), (λ a z. a (sym o ∙ z)))
      ]

  name :
      (t i : ℕ)
      → σ.pc t ≡ claimed i
      → (nm : List ℕ)
      → IsSafe want (record { block = write_name σ.block i nm; pc = put σ.pc t (named i) })
  name t i h nm =
      moved t (named i) (write_name σ.block i nm) (length-set σ.block.names i _, refl, same) mine
        (λ k e. rw h e)
    where
      mine : (i < σ.block.max_names) × (word σ.block i ≢ 0) × (key_of (word σ.block i) ≡ want t)
      mine = owns-Good t i (σ.pc t) (ap owns h) (v.good t)

      same :
          (j : ℕ)
          → (key_of (word (write_name σ.block i nm) j) ≡ key_of (word σ.block j))
            × (word (write_name σ.block i nm) j ≢ 0 → word σ.block j ≢ 0)
            × (word σ.block j ≢ 0 → word (write_name σ.block i nm) j ≢ 0)
      same j =
          let o = word-write_name σ.block i j nm (omega (arith, v.table.width, mine.0)) in
          (ap key_of o, (λ a z. a (o ∙ z)), (λ a z. a (sym o ∙ z)))

  -- A process that only loads.
  Loads : ℕ → Pc → Type 0
  Loads t p = Good σ.block (want t) p × (owns p ≡ none)

  loaded :
      (t : ℕ) (p : Pc) → Loads t p → IsSafe want (record { block = σ.block; pc = put σ.pc t p })
  unfolding Loads
  loaded t p (g, none_owned) = moved t p σ.block (SameKeys-refl σ.block) g (λ i e. absurd (cc))

  further :
      (t i : ℕ)
      → Passed σ.block (want t) i
      → word σ.block i ≢ 0
      → key_of (word σ.block i) ≢ want t
      → Passed σ.block (want t) (i + 1)
  further t i seen a c =
      λ j lt. elim (ℕ_discrete j i) [ yes e ↦ rw e (a, c) | no ne ↦ seen j (omega arith) ]

  still :
      (t i : ℕ) (lost : Bool)
      → (lost ≡ true → word σ.block i ≢ 0)
      → ((word σ.block i == 0) && not lost) ≡ false
      → word σ.block i ≢ 0
  still t i true held taken z = held refl z
  still t i false held taken z =
      let e : (word σ.block i == 0) ≡ true = (==_iff (word σ.block i) 0).1 z in
      ground (arith, e, taken)

  decide-Loads :
      (t i : ℕ) (nm : List ℕ) (lost : Bool)
      → Passed σ.block (want t) i
      → i < σ.block.max_names
      → (lost ≡ true → word σ.block i ≢ 0)
      → Loads t (decide σ.block (want t) nm i (word σ.block i) lost)
  unfolding Loads decide
  decide-Loads t i nm lost seen lt held = elim (Bool-cases (key_of (word σ.block i) == want t)) [
    | inl mine ↦ elim (Bool-cases (is_claimed (word σ.block i))) [
      | inl c ↦ rw (mine, c) (tt, refl)
      | inr c ↦ rw (mine, c) (tt, refl)
    ]
    | inr other ↦ elim (Bool-cases ((word σ.block i == 0) && not lost)) [
      | inl free ↦ rw (other, free) ((seen, lt), refl)
      | inr taken ↦
          rw (other, taken)
            (
              further t i seen (λ z. absurd (still t i lost held taken z))
                  (λ e. cc ((==_iff (key_of (word σ.block i)) (want t)).1 e)),
              refl,
            )
    ]
  ]

  inspect-Loads :
      (t i : ℕ) (nm : List ℕ) (lost : Bool)
      → Passed σ.block (want t) i
      → i < σ.block.max_names
      → (lost ≡ true → word σ.block i ≢ 0)
      → Loads t (inspect σ.block (want t) nm i (word σ.block i) lost)
  unfolding Loads inspect
  inspect-Loads t i nm lost seen lt held =
      elim (Bool-cases (is_claimed (word σ.block i) && (key_of (word σ.block i) == want t))) [
        | inl wait ↦ rw wait ((seen, lt, nonzero wait), refl)
        | inr on ↦ rw on (decide-Loads t i nm lost seen lt held)
      ]
    where
      nonzero :
          (is_claimed (word σ.block i) && (key_of (word σ.block i) == want t)) ≡ true
          → word σ.block i ≢ 0
      nonzero wait z =
          let e : key_of (word σ.block i) ≡ want t = ground (arith, wait) in
          let k : key_of (word σ.block i) ≡ 0 = ap key_of z ∙ key_of-small 0 (omega arith) in
          absurd (omega (arith, e, k, pos t))

  wait_more-Loads :
      (t i n : ℕ) (nm : List ℕ) (lost : Bool)
      → Passed σ.block (want t) i
      → i < σ.block.max_names
      → word σ.block i ≢ 0
      → Loads t (wait_more σ.block (want t) nm i n lost)
  unfolding Loads wait_more
  wait_more-Loads t i zero nm lost seen lt held = decide-Loads t i nm lost seen lt (λ e. held)
  wait_more-Loads t i (suc n) nm lost seen lt held =
      elim (Bool-cases (is_claimed (word σ.block i))) [
        | inl c ↦ rw c ((seen, lt, held), refl)
        | inr c ↦ rw c (decide-Loads t i nm lost seen lt (λ e. held))
      ]

  act-IsSafe : (text : ℕ → List ℕ) (t : ℕ) → IsSafe want (act want text t σ)
  unfolding act Loads
  act-IsSafe text t = go (σ.pc t) refl
    where
      known : (p : Pc) → σ.pc t ≡ p → Good σ.block (want t) p
      known p e = rw e at (v.good t)

      go : (p : Pc) → σ.pc t ≡ p → IsSafe want (act want text t σ)
      go (looking i) e = elim (Bool-cases (ltb i σ.block.max_names)) [
        | inl inside ↦
            rw (e, act, inside)
              (loaded t _ (
                inspect-Loads t i (text t) false (known (looking i) e) (ground (arith, inside))
                  (λ x. absurd (cc))))
        | inr past ↦ rw (e, act, past) (loaded t (returned false) (tt, refl))
      ]
      go (waiting i n lost) e =
          let (seen, lt, held) = known (waiting i n lost) e in
          rw (e, act) (loaded t _ (wait_more-Loads t i n (text t) lost seen lt held))
      go (racing i) e =
          let (seen, lt) = known (racing i) e in
          elim (Bool-cases (word σ.block i == 0)) [
            | inl free ↦ rw (e, act, free) (win t i seen lt ((==_iff (word σ.block i) 0).0 free))
            | inr taken ↦
                rw (e, act, taken)
                  (loaded t _ (
                    inspect-Loads t i (text t) true seen lt
                      (λ x z. cc ((==_iff (word σ.block i) 0).1 z))))
          ]
      go (claimed i) e = rw (e, act) (name t i e (text t))
      go (named i) e = rw (e, act) (finish t i e)
      go published e =
          rw (e, act)
            (moved t (returned true) (bump σ.block) (SameKeys-refl σ.block) tt (λ i x. absurd (cc)))
      go (returned r) e = rw (e, act) v

run-IsSafe :
    (want : ℕ → ℕ) (small : (t : ℕ) → want t < 2 ^ 63) (pos : (t : ℕ) → 0 < want t)
    (text : ℕ → List ℕ) (ts : List ℕ) (σ : System)
    → IsSafe want σ
    → IsSafe want (run want text ts σ)
unfolding run
run-IsSafe want small pos text [] σ v = v
run-IsSafe want small pos text (t ∷ ts) σ v =
    run-IsSafe want small pos text ts (act want text t σ) (act-IsSafe want small pos σ v text t)

-- Processes that are about to publish.
abbrev pub start : ControlBlock → System
start b = record { block = b; pc = λ t. looking 0 }

start-IsSafe : (want : ℕ → ℕ) (b : ControlBlock) → IsTable b → IsSafe want (start b)
start-IsSafe want b table = record {
  table = table;
  good = λ t j lt. absurd (omega arith);
  alone = λ t u i h k. absurd (cc);
}

-- From a block whose slots in use come first and have different keys, in every order of the accesses
-- of processes that publish names for keys below 2 ^ 63 - 1, with claims that are never finished
-- included: the slots in use still come first and have different keys, so that a key has one slot
-- at most.
pub run-IsTable :
    (want : ℕ → ℕ) (small : (t : ℕ) → want t < 2 ^ 63) (pos : (t : ℕ) → 0 < want t)
    (text : ℕ → List ℕ) (ts : List ℕ) (b : ControlBlock)
    → IsTable b
    → IsTable (run want text ts (start b)).block
run-IsTable want small pos text ts b table =
    (run-IsSafe want small pos text ts (start b) (start-IsSafe want b table)).table
