-- ===== src/Scoped.antt =====
-- The span guards of include/slick/perfmon/scoped.hpp: `ScopedSample`, its moves and its destructor,
-- in a program that holds any number of them.
pub mod Balance
mod Tests
use slick_perfmon.Prelude.{
  ℕ, Bool, true, false, ◌==◌, if◌then◌else◌, Option, none, some, List, [], ◌∷◌, ◌++◌, get_or, set,
}

-- `ScopedSample`.
pub record ScopedSample : Type 0 where
  pub point : ℕ
  pub seq : ℕ
  pub armed : Bool

-- The stamps that `begin`, `step` and `end` publish.
pub data Stamp : Type 0 where
  began : ℕ → ℕ → Stamp
  stepped : ℕ → ℕ → ℕ → Stamp
  ended : ℕ → ℕ → Stamp

-- The objects that were made, in the order of their construction, `none` once destroyed; the stamps,
-- the last one first; and the guards that were armed when they were cancelled.
pub record Program : Type 0 where
  pub objects : List (Option ScopedSample)
  pub stamps : List Stamp
  pub cancelled : List ScopedSample

pub data Action : Type 0 where
  construct : ℕ → ℕ → Action
  move_construct : ℕ → Action
  move_assign : ℕ → ℕ → Action
  step_to : ℕ → ℕ → Action
  cancel : ℕ → Action
  destroy : ℕ → Action

abbrev pub object : Program → ℕ → Option ScopedSample
object σ i = get_or σ.objects i none

abbrev pub disarmed : ScopedSample → ScopedSample
disarmed g = record g { armed = false }

-- `if (armed_) end(point_, seq_)`.
abbrev pub end_if_armed : ScopedSample → List Stamp → List Stamp
end_if_armed g stamps = if g.armed then ended g.point g.seq ∷ stamps else stamps

-- `operator=(ScopedSample&&)` on two objects that are not one.
unfoldable pub assign : ℕ → ℕ → ScopedSample → ScopedSample → Program → Program
assign i j a b σ = record σ {
  objects = set (set σ.objects i (some b)) j (some (disarmed b));
  stamps = end_if_armed a σ.stamps;
}

-- One action; an action on an object that is not there does nothing.
unfoldable pub perform : Action → Program → Program
unfolding assign
perform (construct point seq) σ = record σ {
  objects = σ.objects ++ (some (record { point = point; seq = seq; armed = true }) ∷ []);
  stamps = began point seq ∷ σ.stamps;
}
perform (move_construct j) σ = elim (object σ j) [
  | none ↦ σ
  | some other ↦ record σ { objects = set σ.objects j (some (disarmed other)) ++ (some other ∷ []) }
]
perform (move_assign i j) σ = elim (object σ i) [
  | none ↦ σ
  | some a ↦ elim (object σ j) [ none ↦ σ | some b ↦ if i == j then σ else assign i j a b σ ]
]
perform (step_to i n) σ = elim (object σ i) [
  | none ↦ σ
  | some g ↦ record σ { stamps = stepped g.point n g.seq ∷ σ.stamps }
]
perform (cancel i) σ = elim (object σ i) [
  | none ↦ σ
  | some g ↦ record σ {
    objects = set σ.objects i (some (disarmed g));
    cancelled = if g.armed then g ∷ σ.cancelled else σ.cancelled;
  }
]
perform (destroy i) σ = elim (object σ i) [
  | none ↦ σ
  | some g ↦ record σ { objects = set σ.objects i none; stamps = end_if_armed g σ.stamps }
]

unfoldable pub perform_all : List Action → Program → Program
perform_all [] σ = σ
perform_all (a ∷ actions) σ = perform_all actions (perform a σ)

abbrev pub fresh : Program
fresh = record { objects = []; stamps = []; cancelled = [] }
