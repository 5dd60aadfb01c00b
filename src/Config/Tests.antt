-- ===== src/Config/Tests.antt =====
-- Configurations with percentiles that are whole numbers.
use mathlib.Core.Logic.{◌↔◌}
use slick_perfmon.Prelude.{ℕ, ◌+◌, ◌≡◌, refl, arith, true, false, ltb, none, some, [], ◌∷◌}
use slick_perfmon.Prelude.Text.{codes, same_text, is_empty, contains, starts_with}
use slick_perfmon.Prelude.Results.{ok, throws}
use slick_perfmon.Config.Header.{
  microseconds, Percentiles, csv_header, percentile_label, label_columns, shortest, unit_suffix,
  is_pre_kind_header,
}
use slick_perfmon.Config.{
  Config, pre_kind_csv, local, shared_producer, validate_config, bad_capacity, check_percentiles,
  validate_csv_schema, apply_environment, turns_off, take_shm, take_csv,
}
use slick_perfmon.Config.Accepted.{Accepts, validate_config_iff}

-- A number n below 10 stands for n and a half.
abbrev whole : Percentiles ℕ
whole = record {
  is_finite = λ p. true;
  is_negative = λ p. false;
  is_above_100 = λ p. ltb 100 p;
  print = λ prec p. (48 + p) ∷ codes ".5";
  reads_back = λ s p. true;
}

abbrev base : Config ℕ
base = record {
  run_mode = local;
  shm_name = [];
  point_count = 0;
  name_of = none;
  max_open_spans = 4096;
  max_stages = 1024;
  max_names = 512;
  path = codes "perfmon.csv";
  queue_capacity = 65536;
  max_thread_rings = 64;
  thread_ring_capacity = 65536;
  percentiles = 9 ∷ 5 ∷ [];
  output_unit = microseconds;
  subtract_overhead = true;
  create_if_absent = false;
}

header_run :
    csv_header whole (9 ∷ 5 ∷ []) microseconds true
    ≡ codes
        "timestamp,point,stage,kind,count,dropped,invalid,stalled,abandoned,orphan,out_of_range,min_us,mean_us,stddev_us,p9_5_us,p5_5_us,max_us,tsc_hz,overhead_us"
unfolding csv_header label_columns percentile_label shortest unit_suffix
header_run = refl

validate_config_iff_example : (validate_config whole [] base ≡ ok tt) ↔ Accepts whole [] base
validate_config_iff_example = validate_config_iff whole [] base (omega arith)

old_file_run :
    validate_config whole (codes "timestamp,point,stage,count") base ≡ throws pre_kind_csv
unfolding validate_config bad_capacity check_percentiles validate_csv_schema is_empty same_text
    csv_header label_columns percentile_label shortest unit_suffix is_pre_kind_header contains
    starts_with
old_file_run = refl

environment_run :
    apply_environment
      (record { disable = some (codes "0"); shm = some (codes "live"); csv = some (codes "x.csv") })
      base
    ≡ some
        (record base { shm_name = codes "live"; run_mode = shared_producer; path = codes "x.csv" })
unfolding apply_environment turns_off take_shm take_csv same_text is_empty
environment_run = refl
