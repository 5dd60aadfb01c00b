-- ===== src/Startup.antt =====
-- The start of a collector: `start` up to its session, and `open_transport`, of
-- include/slick/perfmon/collector.hpp.
pub mod Session
pub mod Reuse
pub mod Beginning
pub mod Geometry
mod Tests
use slick_perfmon.Prelude.{ℕ, Bool, true, false, if◌then◌else◌, Option, none, some, List}
use slick_perfmon.Prelude.Results.{Result, ok, throws, ◌>>=◌, ◌>>◌}
use slick_perfmon.ControlBlock.{
  ControlBlock, BlockError, Segment, create_shared, attach_shared, create_local,
}
use slick_perfmon.ControlBlock.Names.{publish_names}
use slick_perfmon.Config.{
  Config, ConfigError, Environment, Mode, local, shared_producer, shared_collector,
  apply_environment, validate_config,
}
use slick_perfmon.Config.Header.{Percentiles}

-- What the process finds: whether the queue of the shared ring opens where it may be created, and
-- where it must be there; the memory of a local block; and the segment of the control block, where it
-- may be created and where it must be there.
pub record Surroundings : Type 0 where
  pub ring_opens : Bool
  pub ring_is_there : Bool
  pub heap : ControlBlock
  pub segment : Segment
  pub existing : Option ((ℕ → ℕ) × ControlBlock)

pub data StartError : Type 0 where
  config_error : ConfigError → StartError
  block_error : BlockError → StartError
  ring_error : StartError

abbrev pub config_result : Result ConfigError (Unit {0}) → Result StartError (Unit {0})
config_result (ok u) = ok u
config_result (throws e) = throws (config_error e)

abbrev pub block_result :
    Result BlockError (Option ControlBlock) → Result StartError (Option ControlBlock)
block_result (ok b) = ok b
block_result (throws e) = throws (block_error e)

-- The two modes that may create the segments.
unfoldable pub open_or_create :
    {P : Type 0} → Surroundings → Config P → Result StartError (Option ControlBlock)
open_or_create w cfg =
    if w.ring_opens
    then block_result
        (create_shared w.segment cfg.max_names cfg.max_thread_rings cfg.thread_ring_capacity)
    else throws ring_error

-- `open_transport`; `none` where it returns false.
unfoldable pub open_transport :
    {P : Type 0} → Surroundings → Config P → Result StartError (Option ControlBlock)
open_transport w cfg = elim cfg.run_mode [
  | local ↦
      if w.ring_opens then ok (some (create_local w.heap cfg.max_names)) else throws ring_error
  | shared_collector ↦ open_or_create w cfg
  | shared_producer ↦
      if cfg.create_if_absent
      then open_or_create w cfg
      else if w.ring_is_there
      then block_result
          (attach_shared w.existing cfg.max_names cfg.max_thread_rings cfg.thread_ring_capacity)
      else ok none
]

-- The steps of `start` that can fail or end it, and the names that it publishes then: the control
-- block and the number of conflicts.
unfoldable pub begin_session :
    {P : Type 0} → Config P → Option ControlBlock → Option (ControlBlock × ℕ)
begin_session cfg none = none
begin_session cfg (some b) = elim (publish_names (some b) cfg.point_count cfg.name_of).0 [
  | none ↦ none
  | some b' ↦ some (b', (publish_names (some b) cfg.point_count cfg.name_of).1)
]

unfoldable pub start :
    {P : Type 0}
    → Percentiles P
    → List ℕ
    → Environment
    → Surroundings
    → Config P
    → Result StartError (Option (ControlBlock × ℕ))
start d have env w cfg = elim (apply_environment env cfg) [
  | none ↦ ok none
  | some cfg' ↦ config_result (validate_config d have cfg') >>= λ _.
      open_transport w cfg' >>= λ opened. ok (begin_session cfg' opened)
]
