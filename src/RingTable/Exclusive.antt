-- ===== src/RingTable/Exclusive.antt =====
-- A ring has at most one holder, in every order of the accesses.
use native.Mathlib.Decide.{ℕ_discrete}
use slick_perfmon.Prelude.{
  ℕ, ◌+◌, ◌<◌, ◌≡◌, ◌≢◌, ◌⊎◌, refl, sym, ◌∙◌, ap, arith, true, false, ltb, ◌==◌, ==_iff, ==_refl,
  ==_false, if◌then◌else◌, Bool-cases, inl, inr, List, [], ◌∷◌, length, length-set, get_or-set,
  get_or-set_other, length-replicate,
}
use slick_perfmon.RingTable.{
  RingTable, RingSlot, no_slot, ring_free, ring_active, ring_retired, ring_state, owner_at, slot_at,
  set_owner, exchange, retire, retired_word, release, create,
}
use slick_perfmon.RingTable.Threads.{
  Pc, idle, refused, looking, trying, holding, System, put, act, Event, turn, free_ring, step, run,
}

pub record IsSafe (own : ℕ → ℕ) (σ : System) : Type 0 where
  pub width : length σ.table.slots ≡ σ.table.count
  pub in_range : (t i : ℕ) → σ.pc t ≡ trying i → i < σ.table.count
  pub held : (t i : ℕ) → σ.pc t ≡ holding i → owner_at σ.table i ≡ own t
  pub alone : (t u i : ℕ) → σ.pc t ≡ holding i → σ.pc u ≡ holding i → t ≡ u

put_lem : (f : ℕ → Pc) (t u : ℕ) (p q : Pc) → put f t p u ≡ q → ((u ≡ t) × (p ≡ q)) ⊎ (f u ≡ q)
put_lem f t u p q h = elim (ℕ_discrete u t) [
  | yes e ↦ inl (e, let s : (u == t) ≡ true = (==_iff u t).1 e in rw s at h)
  | no ne ↦ inr (let s : (u == t) ≡ false = ==_false u t ne in rw s at h)
]

owner_at-set_owner_other :
    (t : RingTable) (i j w : ℕ) → i ≢ j → owner_at (set_owner t i w) j ≡ owner_at t j
owner_at-set_owner_other t i j w ne =
    ap (λ (s : RingSlot). s.owner)
      (get_or-set_other t.slots i j (record (slot_at t i) { owner = w }) no_slot ne)

owner_at-set_owner :
    (t : RingTable) (i w : ℕ) → i < length t.slots → owner_at (set_owner t i w) i ≡ w
owner_at-set_owner t i w inside =
    ap (λ (s : RingSlot). s.owner)
      (get_or-set t.slots i i (record (slot_at t i) { owner = w }) no_slot inside)
    ∙ rw (==_refl i)

module _ (own : ℕ → ℕ) (active : (t : ℕ) → ring_state (own t) ≡ ring_active) (σ : System)
    (v : IsSafe own σ) where
  -- The word of a ring that is held is neither free nor retired.
  held-ne : (t i w : ℕ) → σ.pc t ≡ holding i → ring_state w ≢ ring_active → owner_at σ.table i ≢ w
  held-ne t i w h other e = other (ap ring_state (sym e ∙ v.held t i h) ∙ active t)

  free-ne : ring_state ring_free ≢ ring_active
  unfolding ring_state
  free-ne = λ h. absurd (omega arith)

  -- A thread moves to a place where it holds nothing, and the words of the other holders stay.
  quiet :
      (t : ℕ) (p : Pc) (table' : RingTable)
      → ((i : ℕ) → p ≢ holding i)
      → ((i : ℕ) → p ≡ trying i → i < σ.table.count)
      → length table'.slots ≡ length σ.table.slots
      → table'.count ≡ σ.table.count
      → ((u j : ℕ) → u ≢ t → σ.pc u ≡ holding j → owner_at table' j ≡ owner_at σ.table j)
      → IsSafe own (record { table = table'; pc = put σ.pc t p })
  quiet t p table' none_held range wide same stay = record {
    width = omega (arith, wide, same, v.width);
    in_range = λ u i h. elim (put_lem σ.pc t u p (trying i) h) [
      | inl (e, q) ↦ rw same (range i q)
      | inr q ↦ rw same (v.in_range u i q)
    ];
    held = λ u i h. elim (ℕ_discrete u t) [
      | yes e ↦ let s : (u == t) ≡ true = (==_iff u t).1 e in absurd (none_held i (rw s at h))
      | no ne ↦
          let s : (u == t) ≡ false = ==_false u t ne in
          let q = rw s at h in stay u i ne q ∙ v.held u i q
    ];
    alone = λ u w i h k. elim (put_lem σ.pc t u p (holding i) h) [
      | inl (e, q) ↦ absurd (none_held i q)
      | inr q ↦ elim (put_lem σ.pc t w p (holding i) k) [
        | inl (e, r) ↦ absurd (none_held i r)
        | inr r ↦ v.alone u w i q r
      ]
    ];
  }

  -- A thread wins a free ring.
  win :
      (t i : ℕ)
      → owner_at σ.table i ≡ ring_free
      → i < σ.table.count
      → IsSafe own (record { table = set_owner σ.table i (own t); pc = put σ.pc t (holding i) })
  win t i free inside =
      let nobody : (u : ℕ) → σ.pc u ≢ holding i = λ u h. held-ne u i ring_free h free-ne free in
      record {
        width = length-set σ.table.slots i _ ∙ v.width;
        in_range = λ u j h. elim (put_lem σ.pc t u (holding i) (trying j) h) [
          | inl (e, q) ↦ absurd (cc)
          | inr q ↦ v.in_range u j q
        ];
        held = λ u j h. elim (put_lem σ.pc t u (holding i) (holding j) h) [
          | inl (e, q) ↦
              let same : i ≡ j = cc in
              rw (← same, e) (owner_at-set_owner σ.table i (own t) (omega (arith, v.width)))
          | inr q ↦
              owner_at-set_owner_other σ.table i j (own t) (λ e. nobody u (rw (← e) at q))
              ∙ v.held u j q
        ];
        alone = λ u w j h k. elim (put_lem σ.pc t u (holding i) (holding j) h) [
          | inl (e, q) ↦ elim (put_lem σ.pc t w (holding i) (holding j) k) [
            | inl (e', r) ↦ e ∙ sym e'
            | inr r ↦ let same : i ≡ j = cc in absurd (nobody w (rw (← same) at r))
          ]
          | inr q ↦ elim (put_lem σ.pc t w (holding i) (holding j) k) [
            | inl (e', r) ↦ let same : i ≡ j = cc in absurd (nobody u (rw (← same) at q))
            | inr r ↦ v.alone u w j q r
          ]
        ];
      }

  length-exchange : (i a b : ℕ) → length (exchange σ.table i a b).0.slots ≡ length σ.table.slots
  unfolding exchange
  length-exchange i a b = elim (Bool-cases (owner_at σ.table i == a)) [
    | inl e ↦ rw e (length-set σ.table.slots i _)
    | inr e ↦ rw e refl
  ]

  count-exchange : (i a b : ℕ) → (exchange σ.table i a b).0.count ≡ σ.table.count
  unfolding exchange
  count-exchange i a b = elim (Bool-cases (owner_at σ.table i == a)) [
    | inl e ↦ rw e refl
    | inr e ↦ rw e refl
  ]

  owner_at-exchange :
      (i j a b : ℕ) → i ≢ j → owner_at (exchange σ.table i a b).0 j ≡ owner_at σ.table j
  unfolding exchange
  owner_at-exchange i j a b ne = elim (Bool-cases (owner_at σ.table i == a)) [
    | inl e ↦ rw e (owner_at-set_owner_other σ.table i j b ne)
    | inr e ↦ rw e refl
  ]

  unmoved :
      (t : ℕ) (p : Pc)
      → ((i : ℕ) → p ≢ holding i)
      → ((i : ℕ) → p ≡ trying i → i < σ.table.count)
      → IsSafe own (record { table = σ.table; pc = put σ.pc t p })
  unmoved t p none_held range = quiet t p σ.table none_held range refl refl (λ u j ne h. refl)

  look :
      (t i : ℕ)
      → IsSafe own (
          if ltb i σ.table.count
          then (if owner_at σ.table i == ring_free
              then record σ { pc = put σ.pc t (trying i) }
              else record σ { pc = put σ.pc t (looking (i + 1)) })
          else record σ { pc = put σ.pc t refused })
  look t i = elim (Bool-cases (ltb i σ.table.count)) [
    | inr past ↦ rw past (unmoved t refused (λ j e. cc) (λ j e. absurd (cc)))
    | inl inside ↦ elim (Bool-cases (owner_at σ.table i == ring_free)) [
      | inl free ↦
          rw (inside, free)
            (unmoved t (trying i) (λ j e. cc)
              (λ j e. let same : i ≡ j = cc in rw (← same) (ground arith)))
      | inr taken ↦
          rw (inside, taken) (unmoved t (looking (i + 1)) (λ j e. cc) (λ j e. absurd (cc)))
    ]
  ]

  attempt :
      (t i : ℕ)
      → σ.pc t ≡ trying i
      → IsSafe own (record {
        table = (exchange σ.table i ring_free (own t)).0;
        pc =
            put σ.pc t
              (if (exchange σ.table i ring_free (own t)).1 then holding i else looking (i + 1));
      })
  unfolding exchange
  attempt t i h = elim (Bool-cases (owner_at σ.table i == ring_free)) [
    | inl free ↦
        rw free (win t i ((==_iff (owner_at σ.table i) ring_free).0 free) (v.in_range t i h))
    | inr taken ↦ rw taken (unmoved t (looking (i + 1)) (λ j e. cc) (λ j e. absurd (cc)))
  ]

  hand_back :
      (t i : ℕ)
      → σ.pc t ≡ holding i
      → IsSafe own (record { table = retire σ.table i (own t); pc = put σ.pc t idle })
  unfolding retire
  hand_back t i h =
      quiet t idle (exchange σ.table i (own t) (retired_word (own t))).0 (λ j e. cc)
        (λ j e. absurd (cc)) (length-exchange i _ _) (count-exchange i _ _)
        (λ u j ne k. owner_at-exchange i j _ _ (λ e. ne (v.alone u t i (rw (← e) at k) h)))

  act-IsSafe : (t : ℕ) → IsSafe own (act own t σ)
  unfolding act
  act-IsSafe t = go (σ.pc t) refl
    where
      go : (p : Pc) → σ.pc t ≡ p → IsSafe own (act own t σ)
      go idle e = rw (e, act) (unmoved t (looking 0) (λ j e. cc) (λ j e. absurd (cc)))
      go refused e = rw (e, act) v
      go (looking i) e = rw (e, act) (look t i)
      go (trying i) e = rw (e, act) (attempt t i e)
      go (holding i) e = rw (e, act) (hand_back t i e)

  free_ring-IsSafe :
      (i seen : ℕ)
      → ring_state seen ≡ ring_retired
      → IsSafe own (record σ { table = (release σ.table i seen).0 })
  unfolding release
  free_ring-IsSafe i seen retired = record {
    width = length-exchange i _ _ ∙ v.width ∙ sym (count-exchange i _ _);
    in_range =
        λ t j h. let e = count-exchange i seen ring_free in omega (arith, e, v.in_range t j h);
    held = λ t j h. elim (ℕ_discrete i j) [
      | no ne ↦ owner_at-exchange i j _ _ ne ∙ v.held t j h
      | yes same ↦
          let other : ring_state seen ≢ ring_active = λ e. absurd (omega (arith, e, retired)) in
          let miss : (owner_at σ.table i == seen) ≡ false =
            ==_false (owner_at σ.table i) seen (rw (← same) at (held-ne t j seen h other)) in
          kept i seen j miss ∙ v.held t j h
    ];
    alone = v.alone;
  }
    where
      kept :
          (i seen j : ℕ)
          → (owner_at σ.table i == seen) ≡ false
          → owner_at (exchange σ.table i seen ring_free).0 j ≡ owner_at σ.table j
      kept i seen j miss = rw (exchange, miss) refl

  step-IsSafe : (e : Event) → IsSafe own (step own e σ)
  unfolding step
  step-IsSafe (turn t) = act-IsSafe t
  step-IsSafe (free_ring i seen) = elim (Bool-cases (ring_state seen == ring_retired)) [
    | inl yes_retired ↦
        rw yes_retired
          (free_ring-IsSafe i seen ((==_iff (ring_state seen) ring_retired).0 yes_retired))
    | inr other ↦ rw other v
  ]

run-IsSafe :
    (own : ℕ → ℕ) (active : (t : ℕ) → ring_state (own t) ≡ ring_active) (es : List Event)
    (σ : System)
    → IsSafe own σ
    → IsSafe own (run own es σ)
unfolding run
run-IsSafe own active [] σ v = v
run-IsSafe own active (e ∷ es) σ v =
    run-IsSafe own active es (step own e σ) (step-IsSafe own active σ v e)

-- A table that was just made, and threads that have not begun.
abbrev pub start : ℕ → ℕ → System
start count capacity = record { table = create count capacity; pc = λ t. idle }

start-IsSafe : (own : ℕ → ℕ) (count capacity : ℕ) → IsSafe own (start count capacity)
unfolding create
start-IsSafe own count capacity = record {
  width = length-replicate count (record { head = 0; owner = ring_free });
  in_range = λ t i h. absurd (cc);
  held = λ t i h. absurd (cc);
  alone = λ t u i h k. absurd (cc);
}

-- From a new table, in every order of the accesses of threads that claim rings and retire the ring
-- that they hold, and of a collector that releases words it has seen retired, where the threads'
-- owner words are active: if two threads hold a ring, they are one thread, and the ring's claim
-- word is its owner word.
pub run-alone :
    (own : ℕ → ℕ) (active : (t : ℕ) → ring_state (own t) ≡ ring_active) (count capacity : ℕ)
    (es : List Event) (t u i : ℕ)
    → (run own es (start count capacity)).pc t ≡ holding i
    → (run own es (start count capacity)).pc u ≡ holding i
    → (t ≡ u) × (owner_at (run own es (start count capacity)).table i ≡ own t)
run-alone own active count capacity es t u i h k =
    let v = run-IsSafe own active es (start count capacity) (start-IsSafe own count capacity) in
    (v.alone t u i h k, v.held t i h)
