-- ===== src/Shared/Stage.antt =====
-- The staged stamps of the shared ring stay in the order of their time stamps.
use mathlib.Core.List.{Perm, perm_middle}
use mathlib.Core.List.Perm
use slick_perfmon.Prelude.{
  ℕ, ◌≤◌, ◌≡◌, refl, arith, true, false, ltb, if◌then◌else◌, Bool-cases, inl, inr, List, [], ◌∷◌,
  ◌++◌,
}
use slick_perfmon.Event.{Sample}
use slick_perfmon.Shared.{Queue, Shared, place, goes_straight, take_batch, read_shared_once}

abbrev pub AllFrom : ℕ → List Sample → Type 0
AllFrom t [] = Unit
AllFrom t (x ∷ xs) = (t ≤ x.timestamp) × AllFrom t xs

-- In the order of the time stamps.
abbrev pub IsSorted : List Sample → Type 0
IsSorted [] = Unit
IsSorted (x ∷ xs) = AllFrom x.timestamp xs × IsSorted xs

pub AllFrom-le : (s t : ℕ) (xs : List Sample) → s ≤ t → AllFrom t xs → AllFrom s xs
AllFrom-le s t [] le h = tt
AllFrom-le s t (x ∷ xs) le (a, h) = (omega (arith, le, a), AllFrom-le s t xs le h)

AllFrom-place :
    (t : ℕ) (s : Sample) (xs : List Sample)
    → t ≤ s.timestamp
    → AllFrom t xs
    → AllFrom t (place s xs).1
unfolding place
AllFrom-place t s [] le h = (le, tt)
AllFrom-place t s (x ∷ xs) le (a, h) = elim (Bool-cases (place s xs).0) [
  | inr back ↦ rw back (a, AllFrom-place t s xs le h)
  | inl first ↦ elim (Bool-cases (ltb s.timestamp x.timestamp)) [
    | inl before ↦ rw (first, before) (le, (a, h))
    | inr after ↦ rw (first, after) (a, (le, h))
  ]
]

-- A stamp that came to the front is the first, before the same list.
place_first : (s : Sample) (xs : List Sample) → (place s xs).0 ≡ true → AllFrom s.timestamp xs
unfolding place
place_first s [] h = tt
place_first s (x ∷ xs) h = elim (Bool-cases (place s xs).0) [
  | inr back ↦ absurd (let z = rw back at h in cc)
  | inl first ↦ elim (Bool-cases (ltb s.timestamp x.timestamp)) [
    | inl before ↦ (ground (arith, before), place_first s xs first)
    | inr after ↦ absurd (let z = rw (first, after) at h in cc)
  ]
]

-- A stamp that did not come to the front is no earlier than the first.
place_back :
    (t : ℕ) (s : Sample) (xs : List Sample)
    → (place s xs).0 ≡ false
    → AllFrom t xs
    → t ≤ s.timestamp
unfolding place
place_back t s [] h a = absurd (cc)
place_back t s (x ∷ xs) h (le, a) = elim (Bool-cases (place s xs).0) [
  | inr back ↦ place_back t s xs back a
  | inl first ↦ elim (Bool-cases (ltb s.timestamp x.timestamp)) [
    | inl before ↦ absurd (let z = rw (first, before) at h in cc)
    | inr after ↦ ground (arith, after, le)
  ]
]

pub place-IsSorted : (s : Sample) (xs : List Sample) → IsSorted xs → IsSorted (place s xs).1
unfolding place
place-IsSorted s [] h = (tt, tt)
place-IsSorted s (x ∷ xs) (a, h) = elim (Bool-cases (place s xs).0) [
  | inr back ↦
      rw back (
        AllFrom-place x.timestamp s xs (place_back x.timestamp s xs back a) a,
        place-IsSorted s xs h,
      )
  | inl first ↦ elim (Bool-cases (ltb s.timestamp x.timestamp)) [
    | inl before ↦
        let lt : s.timestamp ≤ x.timestamp = ground (arith, before) in
        rw (first, before) ((lt, AllFrom-le s.timestamp x.timestamp xs lt a), (a, h))
    | inr after ↦
        let le : x.timestamp ≤ s.timestamp = ground (arith, after) in
        rw (first, after) ((le, a), (place_first s xs first, h))
  ]
]

place-Perm : (s : Sample) (xs : List Sample) → Perm (place s xs).1 (s ∷ xs)
unfolding place
place-Perm s [] = Perm.refl (s ∷ [])
place-Perm s (x ∷ xs) = elim (Bool-cases (place s xs).0) [
  | inr back ↦ rw back (Perm.trans (Perm.cons x (place-Perm s xs)) (Perm.swap s x xs))
  | inl first ↦ elim (Bool-cases (ltb s.timestamp x.timestamp)) [
    | inl before ↦ rw (first, before) (Perm.refl (s ∷ x ∷ xs))
    | inr after ↦ rw (first, after) (Perm.swap s x xs)
  ]
]

-- What of a batch is staged, and what is fed to the pairer at once, in the batch's order.
pub staged : ℕ → List Sample → List Sample
staged rings [] = []
staged rings (s ∷ batch) =
    if goes_straight rings s then staged rings batch else s ∷ staged rings batch

pub feed : {W : Type 0} → (Sample → W → W) → ℕ → List Sample → W → W
feed on_event rings [] w = w
feed on_event rings (s ∷ batch) w =
    feed on_event rings batch (if goes_straight rings s then on_event s w else w)

-- What a batch makes of the state.
pub record Takes {W : Type 0} (on_event : Sample → W → W) (rings : ℕ) (batch : List Sample)
    (m m' : Shared W) : Type 0 where
  pub sorted : IsSorted m'.stage
  pub kept : Perm m'.stage (staged rings batch ++ m.stage)
  pub fed : m'.world ≡ feed on_event rings batch m.world
  pub cursor : m'.cursor ≡ m.cursor
  pub slots : m'.stalled_slots ≡ m.stalled_slots

module _ {W : Type 0} (on_event : Sample → W → W) (rings : ℕ) where
  take_batch-Takes :
      (batch : List Sample) (m : Shared W)
      → IsSorted m.stage
      → Takes on_event rings batch m (take_batch on_event rings batch m)
  unfolding take_batch staged feed
  take_batch-Takes [] m v = record {
    sorted = v;
    kept = Perm.refl m.stage;
    fed = refl;
    cursor = refl;
    slots = refl;
  }
  take_batch-Takes (s ∷ batch) m v = elim (Bool-cases (goes_straight rings s)) [
    | inl straight ↦
        let r = take_batch-Takes batch (record m { world = on_event s m.world }) v in
        rw straight (record {
          sorted = r.sorted;
          kept = rw straight r.kept;
          fed = rw straight r.fed;
          cursor = r.cursor;
          slots = r.slots;
        })
    | inr later ↦
        let r =
          take_batch-Takes batch (record m { stage = (place s m.stage).1 })
            (place-IsSorted s m.stage v) in
        rw later (record {
          sorted = r.sorted;
          kept = rw later (
              Perm.trans r.kept (
                Perm.trans (Perm.append_left (staged rings batch) (place-Perm s m.stage))
                  (perm_middle (staged rings batch) m.stage)));
          fed = rw later r.fed;
          cursor = r.cursor;
          slots = r.slots;
        })
  ]

  -- One read of the shared ring, with the staged stamps in the order of their time stamps: they stay
  -- in that order; they are those that were staged and those of the batch that are not fed to the
  -- pairer at once; the others are fed in the order of the batch; the cursor is the one that the
  -- ring gave; and no slot is counted as stalled.
  pub read_shared_once-Takes :
      (q : Queue) (t : ℕ) (m : Shared W)
      → IsSorted m.stage
      → Takes on_event rings
          (q.read t m.cursor).0
          (record m { cursor = (q.read t m.cursor).1 })
          (read_shared_once on_event q rings t m).0
  unfolding read_shared_once take_batch
  read_shared_once-Takes q t m v = go (q.read t m.cursor).0 refl
    where
      go :
          (batch : List Sample)
          → (q.read t m.cursor).0 ≡ batch
          → Takes on_event rings
              (q.read t m.cursor).0
              (record m { cursor = (q.read t m.cursor).1 })
              (read_shared_once on_event q rings t m).0
      go [] e =
          rw (read_shared_once, e)
            (take_batch-Takes [] (record m { cursor = (q.read t m.cursor).1 }) v)
      go (s ∷ batch) e =
          rw (read_shared_once, e)
            (take_batch-Takes (s ∷ batch) (record m { cursor = (q.read t m.cursor).1 }) v)
