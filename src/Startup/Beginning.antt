-- ===== src/Startup/Beginning.antt =====
-- When `create_session` of include/slick/perfmon/collector.hpp takes the rings of an ended session
-- back, and where the merge starts.
use mathlib.Core.Path.{subst}
use slick_perfmon.Prelude.{
  ℕ, zero, suc, ◌<◌, ◌≡◌, refl, sym, ap, ◌∙◌, arith, Bool, true, false, ltb, Bool-cases, ◌⊎◌, inl,
  inr, Option, none, some, List, [], ◌∷◌, ◌++◌, length, get_or, get_or-replicate, length-replicate,
  map, replicate,
}
use slick_perfmon.Prelude.Text.{is_empty}
use slick_perfmon.RingTable.{RingTable, RingSlot, create, reuse, take_tag, slot_at, no_slot}
use slick_perfmon.Startup.Session.{
  Session, RetiredRing, Created, has_module, moved_on, modules_moved_on, is_reusable,
  take_retired_table, create_session, begin_on, session_on, max_modules,
}
use slick_perfmon.Startup.Reuse.{notes, notes-IsNoted, all_moved_on_each}

-- No module that stamped into the session can still write its rings: each is the one that made it,
-- or has stamped into a later session. The modules that stamped are `ms`, from a session `s0`.
abbrev pub IsQuiet : Session → List RetiredRing → Type 0
IsQuiet s later =
    (ms : List ℕ) (s0 : Session)
    → s.creator ≡ (notes ms s0).creator
    → s.modules ≡ (notes ms s0).modules
    → s.modules_full ≡ (notes ms s0).modules_full
    → (m : ℕ) → 0 < m
    → has_module m ms ≡ true
    → (m ≡ s.creator) ⊎ (moved_on m later ≡ true)

modules_moved_on-IsQuiet :
    (s : Session) (later : List RetiredRing) → modules_moved_on s later ≡ true → IsQuiet s later
unfolding modules_moved_on
modules_moved_on-IsQuiet s later e ms s0 c mods full m pos h = elim (notes-IsNoted ms s0 m pos h) [
  | inl own ↦ inl (own ∙ sym c)
  | inr (inl there) ↦
      inr (all_moved_on_each s.modules later m pos (ground (arith, e)) (rw mods there))
  | inr (inr no_place) ↦
      let z : s.modules_full ≡ true = full ∙ no_place in absurd (ground (arith, e, z))
]

-- The memory of an ended local session of this geometry is taken back: the session keeps pointing at
-- it, but does not own it any more.
pub record Reuses (rings capacity : ℕ) (retired : List RetiredRing) (t : RingTable)
    (left : List RetiredRing) : Type 0 where
  pub earlier : List RetiredRing
  pub ring : RetiredRing
  pub session : Session
  pub later : List RetiredRing
  pub there : retired ≡ earlier ++ (ring ∷ later)
  pub owned : ring.table ≡ true
  pub was_local : is_empty ring.shm_name ≡ true
  pub of_ring : ring.session ≡ some session
  pub memory : session.rings ≡ t
  pub geometry : (t.count ≡ rings) × (t.capacity ≡ capacity)
  pub quiet : IsQuiet session later
  pub given_up : left ≡ earlier ++ (record ring { table = false } ∷ later)

-- What `take_retired_table` does.
abbrev pub Takes : ℕ → ℕ → List RetiredRing → Option RingTable × List RetiredRing → Type 0
Takes rings capacity retired (none, left) = left ≡ retired
Takes rings capacity retired (some t, left) = Reuses rings capacity retired t left

Takes-cons :
    (rings capacity : ℕ) (r : RetiredRing) (retired : List RetiredRing)
    (out : Option RingTable × List RetiredRing)
    → Takes rings capacity retired out
    → Takes rings capacity (r ∷ retired) (out.0, r ∷ out.1)
Takes-cons rings capacity r retired (none, left) h = ap (λ (xs : List RetiredRing). r ∷ xs) h
Takes-cons rings capacity r retired (some t, left) h = record {
  earlier = r ∷ h.earlier;
  ring = h.ring;
  session = h.session;
  later = h.later;
  there = ap (λ (xs : List RetiredRing). r ∷ xs) h.there;
  owned = h.owned;
  was_local = h.was_local;
  of_ring = h.of_ring;
  memory = h.memory;
  geometry = h.geometry;
  quiet = h.quiet;
  given_up = ap (λ (xs : List RetiredRing). r ∷ xs) h.given_up;
}

take_retired_table-Takes :
    (rings capacity : ℕ) (retired : List RetiredRing)
    → Takes rings capacity retired (take_retired_table rings capacity retired)
unfolding take_retired_table is_reusable
take_retired_table-Takes rings capacity [] = refl
take_retired_table-Takes rings capacity (r ∷ later) = go r.session refl (
    Takes-cons rings capacity r later (take_retired_table rings capacity later)
      (take_retired_table-Takes rings capacity later))
  where
    passed : Option RingTable × List RetiredRing
    passed = (
      (take_retired_table rings capacity later).0,
      r ∷ (take_retired_table rings capacity later).1,
    )

    go :
        (s : Option Session)
        → r.session ≡ s
        → Takes rings capacity (r ∷ later) passed
        → Takes rings capacity (r ∷ later) (take_retired_table rings capacity (r ∷ later))
    go none e rest =
        let p : take_retired_table rings capacity (r ∷ later) ≡ passed =
          simp (take_retired_table, e) in
        subst (Takes rings capacity (r ∷ later)) (sym p) rest
    go (some s) e rest = elim (Bool-cases (is_reusable rings capacity r s later)) [
      | inr not_this ↦
          let p : take_retired_table rings capacity (r ∷ later) ≡ passed =
            simp (take_retired_table, e, not_this) in
          subst (Takes rings capacity (r ∷ later)) (sym p) rest
      | inl this ↦
          let p : take_retired_table rings capacity (r ∷ later)
              ≡ (some s.rings, record r { table = false } ∷ later) =
            simp (take_retired_table, e, this) in
          subst (Takes rings capacity (r ∷ later)) (sym p) (record {
            earlier = [];
            ring = r;
            session = s;
            later = later;
            there = refl;
            owned = ground (arith, this);
            was_local = ground (arith, this);
            of_ring = e;
            memory = refl;
            geometry = (ground (arith, this), ground (arith, this));
            quiet = modules_moved_on-IsQuiet s later (ground (arith, this));
            given_up = refl;
          })
    ]

-- Where the merge starts, and what the session knows: the cursor of each ring is at its head, no ring
-- waits for a stamp, and no other module has stamped.
pub record Starts (n : ℕ) (c : Created) : Type 0 where
  pub at_heads : (j : ℕ) → get_or c.ring_cursor j 0 ≡ (slot_at c.session.rings j).head
  pub one_each : length c.ring_cursor ≡ length c.session.rings.slots
  pub no_waits : (j : ℕ) → get_or c.ring_wait_ts j 0 ≡ 0
  pub waits_size : length c.ring_wait_ts ≡ n
  pub unknown : (m : ℕ) → 0 < m → has_module m c.session.modules ≡ false

heads_at :
    (slots : List RingSlot) (j : ℕ)
    → get_or (map (λ (s : RingSlot). s.head) slots) j 0 ≡ (get_or slots j no_slot).head
heads_at [] j = refl
heads_at (s ∷ slots) zero = refl
heads_at (s ∷ slots) (suc j) = heads_at slots j

length-heads :
    (slots : List RingSlot) → length (map (λ (s : RingSlot). s.head) slots) ≡ length slots
length-heads [] = refl
length-heads (s ∷ slots) = ap suc (length-heads slots)

no_module : (n m : ℕ) → 0 < m → has_module m (replicate n 0) ≡ false
unfolding has_module
no_module zero m pos = refl
no_module (suc n) m pos = let rest = no_module n m pos in ground (arith, pos, rest)

tagged-slots :
    (n pid creator : ℕ) (t : RingTable) → (session_on n pid creator t).rings.slots ≡ t.slots
unfolding session_on take_tag
tagged-slots n pid creator t = elim (Bool-cases (ltb 0 n)) [
  | inl some_rings ↦ rw some_rings refl
  | inr no_rings ↦ rw no_rings refl
]

begin_on-Starts :
    (n pid creator : ℕ) (t : RingTable) (owns : Bool) (retired : List RetiredRing)
    → Starts n (begin_on n pid creator t owns retired)
unfolding begin_on session_on
begin_on-Starts n pid creator t owns retired = record {
  at_heads = λ j.
      heads_at t.slots j
      ∙ ap (λ (slots : List RingSlot). (get_or slots j no_slot).head)
          (sym (tagged-slots n pid creator t));
  one_each = length-heads t.slots ∙ ap length (sym (tagged-slots n pid creator t));
  no_waits = λ j. get_or-replicate n j 0;
  waits_size = length-replicate n 0;
  unknown = λ m pos. no_module max_modules m pos;
}

-- What a local session is on: the memory of an ended one, or new memory.
abbrev IsOn : ℕ → ℕ → ℕ → ℕ → List RetiredRing → Created → RingTable → Type 0
IsOn n cap pid creator retired c t =
    (c.session ≡ session_on n pid creator (reuse t)) × Reuses n cap retired t c.retired

-- What a local session with rings begins with.
abbrev pub Begins : ℕ → ℕ → ℕ → ℕ → List RetiredRing → Created → Type 0
Begins n cap pid creator retired c =
    Starts n c
    × (c.owns_table ≡ true)
    × (((t : RingTable) × IsOn n cap pid creator retired c t)
        ⊎ ((c.session ≡ session_on n pid creator (create n cap)) × (c.retired ≡ retired)))

-- In local mode with thread rings: the session is on the rings of an ended local session of the same
-- geometry, which that session gives up, and no other module that stamped into it can still write
-- them, since each has stamped into a later session; or it is on new rings, and the retired ones stay
-- as they are. The collector owns the rings. The cursor of each ring is at its head, none waits for a
-- stamp, and no other module has stamped.
pub create_session-Begins :
    (n cap pid creator : ℕ) (control : RingTable) (retired : List RetiredRing)
    → 0 < n
    → Begins n cap pid creator retired (create_session n cap true pid creator control retired)
unfolding create_session begin_on
create_session-Begins n cap pid creator control retired some_rings =
    go (take_retired_table n cap retired).0 refl (take_retired_table-Takes n cap retired)
      (ground (arith, some_rings))
  where
    left : List RetiredRing
    left = (take_retired_table n cap retired).1

    go :
        (taken : Option RingTable)
        → (take_retired_table n cap retired).0 ≡ taken
        → Takes n cap retired ((take_retired_table n cap retired).0, left)
        → ltb 0 n ≡ true
        → Begins n cap pid creator retired (create_session n cap true pid creator control retired)
    go none e h rings =
        rw (create_session, e, rings)
          (begin_on-Starts n pid creator (create n cap) true retired, refl, inr (refl, refl))
    go (some t) e h rings =
        let h' : Reuses n cap retired t left = rw e at h in
        rw (create_session, e, rings)
          (begin_on-Starts n pid creator (reuse t) true left, refl, inl (t, (refl, h')))
