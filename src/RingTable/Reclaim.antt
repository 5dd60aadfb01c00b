-- ===== src/RingTable/Reclaim.antt =====
-- The collector's passes over the claim words: `reclaim_dead_rings` and `release_retired_rings` of
-- include/slick/perfmon/collector.hpp, while no thread writes a word. Whether a process is alive is
-- asked of the operating system.
use slick_perfmon.Prelude.{
  ℕ, zero, suc, ◌+◌, ◌^◌, ◌≤◌, ◌<◌, ◌≡◌, ◌≢◌, refl, sym, ◌∙◌, arith, Bool, true, false, not, ◌&&◌,
  leb, ◌==◌, if◌then◌else◌, Bool-cases, inl, inr, List, get_or, get_or-set_self, get_or-set_other,
  length, length-set, ap,
}
use slick_perfmon.RingTable.Owner.{retired_word_fields}
use slick_perfmon.RingTable.{
  RingTable, RingSlot, no_slot, ring_free, ring_active, ring_retired, ring_state, ring_pid, slot_at,
  owner_at, set_owner, exchange, retired_word, retire, release,
}

-- The loop over the rings, with the rounds left and the ring.
unfoldable pub each_ring : (ℕ → RingTable → RingTable) → ℕ → ℕ → RingTable → RingTable
each_ring act zero i t = t
each_ring act (suc n) i t = each_ring act n (i + 1) (act i t)

unfoldable pub is_drained : List ℕ → ℕ → RingSlot → Bool
is_drained cursors i slot =
    (ring_state slot.owner == ring_retired) && leb slot.head (get_or cursors i 0)

unfoldable pub release_one : List ℕ → ℕ → RingTable → RingTable
release_one cursors i t =
    if is_drained cursors i (slot_at t i) then (release t i (owner_at t i)).0 else t

unfoldable pub release_retired_rings : List ℕ → RingTable → RingTable
release_retired_rings cursors t = each_ring (release_one cursors) t.count 0 t

unfoldable pub is_dead : ℕ → (ℕ → Bool) → RingSlot → Bool
is_dead self process_alive slot =
    (ring_state slot.owner == ring_active)
    && not (ring_pid slot.owner == self)
    && not (process_alive (ring_pid slot.owner))

unfoldable pub reclaim_one : ℕ → (ℕ → Bool) → ℕ → RingTable → RingTable
reclaim_one self process_alive i t =
    if is_dead self process_alive (slot_at t i) then retire t i (owner_at t i) else t

unfoldable pub reclaim_dead_rings : Bool → ℕ → (ℕ → Bool) → RingTable → RingTable
reclaim_dead_rings is_local self process_alive t =
    let swept = each_ring (reclaim_one self process_alive) t.count 0 t in
    if is_local then t else swept

-- A pass that gives each word a new value, or leaves it, by the slot that it stands in.
record Rewrites (test : ℕ → RingSlot → Bool) (word : RingSlot → ℕ) (act : ℕ → RingTable → RingTable)
    : Type 0 where
  here :
      (i : ℕ) (t : RingTable)
      → act i t ≡ (if test i (slot_at t i) then set_owner t i (word (slot_at t i)) else t)

exchange_own : (t : RingTable) (i w : ℕ) → (exchange t i (owner_at t i) w).0 ≡ set_owner t i w
unfolding exchange
exchange_own t i w = let e : (owner_at t i == owner_at t i) ≡ true = ground arith in rw e refl

release_one-Rewrites :
    (cursors : List ℕ) → Rewrites (is_drained cursors) (λ s. ring_free) (release_one cursors)
unfolding release_one release
release_one-Rewrites cursors = record {
  here = λ i t. (let e = exchange_own t i ring_free in rw e refl);
}

reclaim_one-Rewrites :
    (self : ℕ) (process_alive : ℕ → Bool)
    → Rewrites
        (λ i. is_dead self process_alive)
        (λ s. retired_word s.owner)
        (reclaim_one self process_alive)
unfolding reclaim_one retire
reclaim_one-Rewrites self process_alive = record {
  here = λ i t. (let e = exchange_own t i (retired_word (owner_at t i)) in rw e refl);
}

-- What becomes of a slot.
abbrev after : (ℕ → RingSlot → Bool) → (RingSlot → ℕ) → ℕ → RingSlot → RingSlot
after test word i s = if test i s then record s { owner = word s } else s

module _ (test : ℕ → RingSlot → Bool) (word : RingSlot → ℕ) (act : ℕ → RingTable → RingTable)
    (rewrites : Rewrites test word act) where
  act-length : (i : ℕ) (t : RingTable) → length (act i t).slots ≡ length t.slots
  act-length i t = elim (Bool-cases (test i (slot_at t i))) [
    | inl hit ↦ rw (rewrites.here i t, hit) (length-set t.slots i _)
    | inr miss ↦ rw (rewrites.here i t, miss) refl
  ]

  act_self :
      (i : ℕ) (t : RingTable)
      → i < length t.slots
      → slot_at (act i t) i ≡ after test word i (slot_at t i)
  act_self i t lt = elim (Bool-cases (test i (slot_at t i))) [
    | inl hit ↦ rw (rewrites.here i t, hit) (get_or-set_self t.slots i _ no_slot lt)
    | inr miss ↦ rw (rewrites.here i t, miss) refl
  ]

  act_other : (i j : ℕ) (t : RingTable) → i ≢ j → slot_at (act i t) j ≡ slot_at t j
  act_other i j t ne = elim (Bool-cases (test i (slot_at t i))) [
    | inl hit ↦ rw (rewrites.here i t, hit) (get_or-set_other t.slots i j _ no_slot ne)
    | inr miss ↦ rw (rewrites.here i t, miss) refl
  ]

  act-count : (i : ℕ) (t : RingTable) → (act i t).count ≡ t.count
  act-count i t = elim (Bool-cases (test i (slot_at t i))) [
    | inl hit ↦ rw (rewrites.here i t, hit) refl
    | inr miss ↦ rw (rewrites.here i t, miss) refl
  ]

  each_ring_before :
      (n i j : ℕ) (t : RingTable) → j < i → slot_at (each_ring act n i t) j ≡ slot_at t j
  unfolding each_ring
  each_ring_before zero i j t lt = refl
  each_ring_before (suc n) i j t lt =
      each_ring_before n (i + 1) j (act i t) (omega (arith, lt))
      ∙ act_other i j t (λ e. omega (arith, lt, e))

  each_ring_at :
      (n i j : ℕ) (t : RingTable)
      → i + n ≤ length t.slots
      → i ≤ j
      → j < i + n
      → slot_at (each_ring act n i t) j ≡ after test word j (slot_at t j)
  unfolding each_ring
  each_ring_at zero i j t room le lt = absurd (omega (arith, le, lt))
  each_ring_at (suc n) i j t room le lt = elim (Bool-cases (i == j)) [
    | inl same ↦
        let e : i ≡ j = ground (arith, same) in
        each_ring_before n (i + 1) j (act i t) (omega (arith, e))
        ∙ rw (sym e) (act_self i t (omega (arith, room)))
    | inr apart ↦
        let ne : i ≢ j = λ e. ground (arith, apart, e) in
        let size = act-length i t in
        each_ring_at n (i + 1) j (act i t) (omega (arith, size, room)) (ground (arith, apart, le))
          (omega (arith, lt))
        ∙ rw (act_other i j t ne) refl
  ]

  each_ring_size :
      (n i : ℕ) (t : RingTable)
      → (length (each_ring act n i t).slots ≡ length t.slots)
        × ((each_ring act n i t).count ≡ t.count)
  unfolding each_ring
  each_ring_size zero i t = (refl, refl)
  each_ring_size (suc n) i t =
      let (a, b) = each_ring_size n (i + 1) (act i t) in (a ∙ act-length i t, b ∙ act-count i t)

-- What becomes of the slot `s` of a ring, by a pass that reclaims and a pass that releases.
pub record Passed (self : ℕ) (process_alive : ℕ → Bool) (cursor : ℕ) (s out : RingSlot)
    : Type 0 where
  pub same_head : out.head ≡ s.head
  pub dead :
      ring_state s.owner ≡ ring_active
      → ring_pid s.owner ≢ self
      → process_alive (ring_pid s.owner) ≡ false
      → out.owner ≡ (if leb s.head cursor then ring_free else retired_word s.owner)
  pub retired :
      ring_state s.owner ≡ ring_retired
      → out.owner ≡ (if leb s.head cursor then ring_free else s.owner)
  pub own : ring_state s.owner ≡ ring_active → ring_pid s.owner ≡ self → out.owner ≡ s.owner
  pub running :
      ring_state s.owner ≡ ring_active
      → process_alive (ring_pid s.owner) ≡ true
      → out.owner ≡ s.owner

module _ (self : ℕ) (process_alive : ℕ → Bool) (cursors : List ℕ) where
  both_passes :
      (t : RingTable) (j : ℕ)
      → t.count ≤ length t.slots
      → j < t.count
      → slot_at (release_retired_rings cursors (reclaim_dead_rings false self process_alive t)) j
        ≡ after
            (is_drained cursors)
            (λ s. ring_free)
            j
            (after (λ i. is_dead self process_alive) (λ s. retired_word s.owner) j (slot_at t j))
  unfolding release_retired_rings reclaim_dead_rings
  both_passes t j fits lt =
      let t1 = each_ring (reclaim_one self process_alive) t.count 0 t in
      let (size, count) =
        each_ring_size (λ i. is_dead self process_alive) (λ s. retired_word s.owner)
          (reclaim_one self process_alive) (reclaim_one-Rewrites self process_alive) t.count 0 t in
      let first =
        each_ring_at (λ i. is_dead self process_alive) (λ s. retired_word s.owner)
          (reclaim_one self process_alive) (reclaim_one-Rewrites self process_alive) t.count 0 j t
          (omega (arith, fits)) (omega arith) (omega (arith, lt)) in
      each_ring_at (is_drained cursors) (λ s. ring_free) (release_one cursors)
        (release_one-Rewrites cursors) t1.count 0 j t1 (omega (arith, fits, size, count))
        (omega arith) (omega (arith, lt, count))
      ∙ ap (after (is_drained cursors) (λ s. ring_free) j) first

  module _ (j : ℕ) (s : RingSlot) where
    abbrev reclaimed : RingSlot
    reclaimed = after (λ i. is_dead self process_alive) (λ s. retired_word s.owner) j s

    abbrev passed : RingSlot
    passed = after (is_drained cursors) (λ s. ring_free) j reclaimed

    passed_head : passed.head ≡ s.head
    passed_head = elim (Bool-cases (is_drained cursors j reclaimed)) [
      | inl hit ↦ rw hit reclaimed_head
      | inr miss ↦ rw miss reclaimed_head
    ]
      where
        reclaimed_head : reclaimed.head ≡ s.head
        reclaimed_head = elim (Bool-cases (is_dead self process_alive s)) [
          | inl hit ↦ rw hit refl
          | inr miss ↦ rw miss refl
        ]

    -- A slot that is not dead and not retired stays.
    passed_kept :
        is_dead self process_alive s ≡ false
        → ring_state s.owner ≢ ring_retired
        → passed.owner ≡ s.owner
    unfolding is_drained
    passed_kept miss other =
        let off : (ring_state s.owner == ring_retired) ≡ false = ground (arith, other) in
        rw (miss, off) refl

    passed-Passed : s.owner < 2 ^ 64 → Passed self process_alive (get_or cursors j 0) s passed
    unfolding is_drained is_dead
    passed-Passed small =
        let r = (retired_word_fields s.owner small).0 in
        record {
          same_head = passed_head;
          dead = λ st ne al.
              (let d : is_dead self process_alive s ≡ true = ground (arith, st, ne, al) in
                let t : (ring_state (retired_word s.owner) == ring_retired) ≡ true =
                  ground (arith, r) in
                elim (Bool-cases (leb s.head (get_or cursors j 0))) [
                  | inl hit ↦ rw (d, t, hit) refl
                  | inr miss ↦ rw (d, t, miss) refl
                ]);
          retired = λ st.
              (let d : is_dead self process_alive s ≡ false = ground (arith, st) in
                let t : (ring_state s.owner == ring_retired) ≡ true = ground (arith, st) in
                elim (Bool-cases (leb s.head (get_or cursors j 0))) [
                  | inl hit ↦ rw (d, t, hit) refl
                  | inr miss ↦ rw (d, t, miss) refl
                ]);
          own = λ st same. passed_kept (ground (arith, st, same)) (λ e. omega (arith, st, e));
          running = λ st al. passed_kept (ground (arith, st, al)) (λ e. omega (arith, st, e));
        }

  -- Alone, with a slot for every ring and claim words of 64 bits: after the ring words of dead
  -- processes are retired and the retired rings that are drained are released, every head is as it
  -- was; the ring of another process that is dead is free if it is drained, and else retired; a ring
  -- that was retired is free if it is drained, and else as it was; and an active ring of this process,
  -- or of a process that is alive, is as it was.
  pub reclaim_then_release :
      (t : RingTable) (j : ℕ)
      → t.count ≤ length t.slots
      → j < t.count
      → owner_at t j < 2 ^ 64
      → Passed self process_alive (get_or cursors j 0) (slot_at t j) (
          slot_at (release_retired_rings cursors (reclaim_dead_rings false self process_alive t)) j)
  reclaim_then_release t j fits lt small =
      rw (both_passes t j fits lt) (passed-Passed j (slot_at t j) small)
