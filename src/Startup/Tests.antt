-- ===== src/Startup/Tests.antt =====
-- A local start with the default file and no variables set, and a restart.
use slick_perfmon.Prelude.{ℕ, ◌≡◌, refl, arith, true, false, ltb, none, some, [], ◌∷◌, replicate}
use slick_perfmon.Prelude.Text.{codes, is_empty, same_text}
use slick_perfmon.Prelude.Results.{ok}
use slick_perfmon.RingTable
use slick_perfmon.ControlBlock.{ControlBlock, invalid, create_local}
use slick_perfmon.ControlBlock.Names.{publish_names}
use slick_perfmon.Config.{
  Config, Environment, local, apply_environment, turns_off, take_shm, take_csv, validate_config,
  bad_capacity, check_percentiles, validate_csv_schema,
}
use slick_perfmon.Config.Header.{Percentiles, nanoseconds}
use slick_perfmon.Startup.{Surroundings, start, open_transport, begin_session}
use slick_perfmon.Startup.Session.{
  Session, RetiredRing, has_module, note_in, note_module, moved_on, all_moved_on, modules_moved_on,
  is_reusable, take_retired_table, release_retired_ring, create_session,
}
use slick_perfmon.Startup.Beginning.{Begins, create_session-Begins}
use slick_perfmon.Startup.Geometry.{rings_in_block, start-Fits}

abbrev whole : Percentiles ℕ
whole = record {
  is_finite = λ p. true;
  is_negative = λ p. false;
  is_above_100 = λ p. ltb 100 p;
  print = λ prec p. p ∷ [];
  reads_back = λ s p. true;
}

abbrev base : Config ℕ
base = record {
  run_mode = local;
  shm_name = [];
  point_count = 0;
  name_of = none;
  max_open_spans = 4096;
  max_stages = 1024;
  max_names = 2;
  path = codes "perfmon.csv";
  queue_capacity = 65536;
  max_thread_rings = 64;
  thread_ring_capacity = 65536;
  percentiles = 50 ∷ 90 ∷ [];
  output_unit = nanoseconds;
  subtract_overhead = false;
  create_if_absent = false;
}

abbrev unset : Environment
unset = record { disable = none; shm = none; csv = none }

abbrev raw : ControlBlock
raw = record {
  magic = 0;
  version = 0;
  max_names = 0;
  capacity = 0;
  ring_count = 0;
  ring_capacity = 0;
  tsc_hz_milli = 0;
  invariant_tsc = 0;
  init_state = 0;
  name_generation = 0;
  names = replicate 2 (record { key_plus_one = 0; name = replicate 64 0 });
  rings = RingTable.create 0 0;
}

abbrev here : Surroundings
here = record {
  ring_opens = true;
  ring_is_there = false;
  heap = raw;
  segment = invalid;
  existing = none;
}

start-Fits_example :
    (validate_config whole [] base ≡ ok tt)
    × ((create_local raw 2).max_names ≡ 2)
    × ((create_local raw 2).ring_count ≡ rings_in_block here base)
unfolding start apply_environment turns_off take_shm take_csv validate_config bad_capacity
    check_percentiles validate_csv_schema is_empty same_text open_transport begin_session
    publish_names
start-Fits_example = start-Fits whole [] unset here base base (create_local raw 2) 0 refl refl

-- An ended local session into which module 7 stamped, and a later one, which it had moved on to.
abbrev first_session : Session
first_session = record {
  rings = RingTable.create 1 16;
  owner = 0;
  creator = 5;
  modules = 7 ∷ 0 ∷ [];
  modules_full = false;
}

abbrev first_ended : RetiredRing
first_ended = record { shm_name = []; session = some first_session; table = true }

abbrev second_ended : RetiredRing
second_ended = record {
  shm_name = codes "perf";
  session = some (record first_session { modules = 3 ∷ 7 ∷ [] });
  table = false;
}

taken_run :
    take_retired_table 1 16 (first_ended ∷ second_ended ∷ [])
    ≡ (some (RingTable.create 1 16), record first_ended { table = false } ∷ second_ended ∷ [])
unfolding take_retired_table is_reusable modules_moved_on all_moved_on moved_on has_module is_empty
    RingTable.create
taken_run = refl

-- Held back, while module 7 may still stamp into it.
held_run : take_retired_table 1 16 (first_ended ∷ []) ≡ (none, first_ended ∷ [])
unfolding take_retired_table is_reusable modules_moved_on all_moved_on moved_on has_module is_empty
    RingTable.create
held_run = refl

release_run :
    release_retired_ring (codes "perf") (first_ended ∷ second_ended ∷ []) ≡ first_ended ∷ []
unfolding release_retired_ring same_text
release_run = refl

-- A third module finds no place in a session with places for two.
full_run :
    note_module 9 (note_module 8 first_session)
    ≡ record first_session { modules = 7 ∷ 8 ∷ []; modules_full = true }
unfolding note_module note_in has_module
full_run = refl

create_session-Begins_example :
    Begins 1 16 4 6
      (first_ended ∷ second_ended ∷ [])
      (create_session 1 16 true 4 6 (RingTable.create 0 0) (first_ended ∷ second_ended ∷ []))
create_session-Begins_example =
    create_session-Begins 1 16 4 6 (RingTable.create 0 0) (first_ended ∷ second_ended ∷ [])
      (omega arith)
