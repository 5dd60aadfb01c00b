-- ===== src/Startup/Session.antt =====
-- The session that `start` makes: `create_session`, `take_retired_table`, `modules_moved_on`,
-- `release_retired_ring` and what `shutdown` retires, of include/slick/perfmon/collector.hpp; `session`,
-- `has_module` and `note_module` of include/slick/perfmon.hpp, where no other module notes itself
-- between the test and the exchange. A module is the address of its hot state, and 0 is null.
use slick_perfmon.Prelude.{
  ℕ, Bool, true, false, not, ◌&&◌, ◌||◌, ltb, ◌==◌, if◌then◌else◌, Option, none, some, List, [],
  ◌∷◌, map, replicate,
}
use slick_perfmon.Prelude.Text.{same_text, is_empty}
use slick_perfmon.RingTable.{RingTable, RingSlot, create, reuse, take_tag, ring_owner, ring_active}

-- `rings` is what the session's ring table points to, of which an ended session is asked the geometry
-- alone. The id and the shared ring are left out.
pub record Session : Type 0 where
  pub rings : RingTable
  pub owner : ℕ
  pub creator : ℕ
  pub modules : List ℕ
  pub modules_full : Bool

-- `table` says whether it owns the memory of its session's rings.
pub record RetiredRing : Type 0 where
  pub shm_name : List ℕ
  pub session : Option Session
  pub table : Bool

-- `kMaxModules`.
abbrev pub max_modules : ℕ
max_modules = 8

unfoldable pub has_module : ℕ → List ℕ → Bool
has_module m [] = false
has_module m (x ∷ xs) = (x == m) || has_module m xs

-- The loop of `note_module`: the first place that is free, or the module's own.
unfoldable pub note_in : ℕ → List ℕ → Option (List ℕ)
note_in self [] = none
note_in self (x ∷ xs) =
    let rest = note_in self xs in
    if (x == 0) || (x == self)
    then some (self ∷ xs)
    else elim rest [ none ↦ none | some noted ↦ some (x ∷ noted) ]

unfoldable pub note_module : ℕ → Session → Session
note_module self s =
    if (self == s.creator) || has_module self s.modules then s else elim (note_in self s.modules) [
      | none ↦ record s { modules_full = true }
      | some noted ↦ record s { modules = noted }
    ]

-- Whether a later session has the module.
unfoldable pub moved_on : ℕ → List RetiredRing → Bool
moved_on m [] = false
moved_on m (r ∷ later) =
    elim r.session [ none ↦ false | some s ↦ has_module m s.modules ] || moved_on m later

unfoldable pub all_moved_on : List ℕ → List RetiredRing → Bool
all_moved_on [] later = true
all_moved_on (m ∷ ms) later = ((m == 0) || moved_on m later) && all_moved_on ms later

-- `modules_moved_on`, with the sessions that were retired later.
unfoldable pub modules_moved_on : Session → List RetiredRing → Bool
modules_moved_on s later = not s.modules_full && all_moved_on s.modules later

-- Whether the loop of `take_retired_table` stops at a session.
unfoldable pub is_reusable : ℕ → ℕ → RetiredRing → Session → List RetiredRing → Bool
is_reusable rings capacity r s later =
    r.table
    && is_empty r.shm_name
    && (s.rings.count == rings)
    && (s.rings.capacity == capacity)
    && modules_moved_on s later

-- `take_retired_table`: the memory that is taken back, and what is left of the retired rings.
unfoldable pub take_retired_table : ℕ → ℕ → List RetiredRing → Option RingTable × List RetiredRing
take_retired_table rings capacity [] = (none, [])
take_retired_table rings capacity (r ∷ later) =
    let (taken, left) = take_retired_table rings capacity later in
    elim r.session [
      | none ↦ (taken, r ∷ left)
      | some s ↦
          if is_reusable rings capacity r s later
          then (some s.rings, record r { table = false } ∷ later)
          else (taken, r ∷ left)
    ]

-- `release_retired_ring`.
unfoldable pub release_retired_ring : List ℕ → List RetiredRing → List RetiredRing
release_retired_ring name [] = []
release_retired_ring name (r ∷ later) =
    let left = release_retired_ring name later in
    if same_text r.shm_name name then left else r ∷ left

-- What `create_session` leaves: the session, whether the collector owns its table, where the merge
-- starts, and the retired rings.
pub record Created : Type 0 where
  pub session : Session
  pub owns_table : Bool
  pub ring_cursor : List ℕ
  pub ring_wait_ts : List ℕ
  pub retired : List RetiredRing

-- The session on a table of rings, with a tag of the table if there are rings.
unfoldable pub session_on : ℕ → ℕ → ℕ → RingTable → Session
session_on n pid creator t = record {
  rings = if ltb 0 n then (take_tag t).1 else t;
  owner = ring_owner pid (if ltb 0 n then (take_tag t).0 else 0) ring_active;
  creator = creator;
  modules = replicate max_modules 0;
  modules_full = false;
}

unfoldable pub begin_on : ℕ → ℕ → ℕ → RingTable → Bool → List RetiredRing → Created
begin_on n pid creator t owns retired = record {
  session = session_on n pid creator t;
  owns_table = owns;
  ring_cursor = map (λ (s : RingSlot). s.head) t.slots;
  ring_wait_ts = replicate n 0;
  retired = retired;
}

-- `create_session`, where `is_local` says that the mode is local, and `control` has the rings of the
-- control block.
unfoldable pub create_session : ℕ → ℕ → Bool → ℕ → ℕ → RingTable → List RetiredRing → Created
create_session n cap is_local pid creator control retired =
    let (taken, left) = take_retired_table n cap retired in
    let fresh = begin_on n pid creator (create n cap) true retired in
    if not (ltb 0 n)
    then begin_on n pid creator (create 0 0) false retired
    else if is_local
    then elim taken [ none ↦ fresh | some t ↦ begin_on n pid creator (reuse t) true left ]
    else begin_on n pid creator control false retired
