-- ===== src/Config.antt =====
-- The configuration of a collector: `config` of include/slick/perfmon/types.hpp, and
-- `apply_environment` and `validate_config` of include/slick/perfmon/collector.hpp.
pub mod Header
pub mod Accepted
mod Tests
use slick_perfmon.Prelude.{
  ℕ, zero, suc, ◌+◌, ◌-◌, ◌*◌, ◌%◌, ◌^◌, bit_and, Bool, true, false, not, ◌&&◌, ◌||◌, ltb, ◌==◌,
  if◌then◌else◌, Option, none, some, List, [], ◌∷◌, length,
}
use slick_perfmon.Prelude.Text.{codes, same_text, is_empty}
use slick_perfmon.Prelude.Results.{Result, ok, throws, ◌>>=◌, ◌>>◌, throw_if}
use slick_perfmon.Config.Header.{OutputUnit, Percentiles, csv_header, is_pre_kind_header}

pub data Mode : Type 0 where
  local shared_producer shared_collector : Mode

abbrev pub is_local : Mode → Bool
is_local local = true
is_local shared_producer = false
is_local shared_collector = false

abbrev pub is_producer : Mode → Bool
is_producer local = false
is_producer shared_producer = true
is_producer shared_collector = false

-- `config`, where P is the type `double`. Texts are bytes; intervals and time-outs are left out.
pub record Config (P : Type 0) : Type 0 where
  pub run_mode : Mode
  pub shm_name : List ℕ
  pub point_count : ℕ
  pub name_of : Option (ℕ → ℕ → List ℕ)
  pub max_open_spans : ℕ
  pub max_stages : ℕ
  pub max_names : ℕ
  pub path : List ℕ
  pub queue_capacity : ℕ
  pub max_thread_rings : ℕ
  pub thread_ring_capacity : ℕ
  pub percentiles : List P
  pub output_unit : OutputUnit
  pub subtract_overhead : Bool
  pub create_if_absent : Bool

-- The variables that `apply_environment` reads.
pub record Environment : Type 0 where
  pub disable : Option (List ℕ)
  pub shm : Option (List ℕ)
  pub csv : Option (List ℕ)

-- `off[0] != '\0' && off[0] != '0'`.
unfoldable pub turns_off : Option (List ℕ) → Bool
turns_off none = false
turns_off (some []) = false
turns_off (some (c ∷ cs)) = not (c == 48)

abbrev pub default_path : List ℕ
default_path = codes "perfmon.csv"

unfoldable pub take_shm : {P : Type 0} → Option (List ℕ) → Config P → Config P
take_shm none cfg = cfg
take_shm (some name) cfg =
    if is_empty cfg.shm_name
    then record cfg { shm_name = name; run_mode = shared_producer }
    else cfg

unfoldable pub take_csv : {P : Type 0} → Option (List ℕ) → Config P → Config P
take_csv none cfg = cfg
take_csv (some path) cfg =
    if same_text cfg.path default_path then record cfg { path = path } else cfg

-- `none` where it returns false.
unfoldable pub apply_environment : {P : Type 0} → Environment → Config P → Option (Config P)
unfolding turns_off take_shm take_csv
apply_environment env cfg =
    if turns_off env.disable then none else some (take_csv env.csv (take_shm env.shm cfg))

pub data ConfigError : Type 0 where
  bad_queue_capacity bad_ring_capacity too_many_rings rings_too_large no_shm_name
        shm_name_too_long :
      ConfigError
  bad_percentile pre_kind_csv other_csv_header : ConfigError

-- `kMaxThreadRings`, `kMaxThreadRingBytes`, and `SLICK_PERFMON_SHM_NAME_MAX` off macOS.
abbrev pub max_rings : ℕ
max_rings = 4096

abbrev pub max_ring_bytes : ℕ
max_ring_bytes = 2147483648

abbrev pub shm_name_max : ℕ
shm_name_max = 249

unfoldable pub bad_capacity : ℕ → Bool
bad_capacity n = ltb n 2 || not (bit_and n (n - 1) == 0)

unfoldable pub check_percentiles :
    {P : Type 0} → Percentiles P → List P → Result ConfigError (Unit {0})
check_percentiles d [] = ok tt
check_percentiles d (p ∷ ps) =
    throw_if (not (d.is_finite p) || d.is_negative p || d.is_above_100 p) bad_percentile
    >> check_percentiles d ps

-- `validate_csv_schema`, where `have` is the header in the file at the path, or empty.
unfoldable pub validate_csv_schema :
    {P : Type 0} → Percentiles P → List ℕ → Config P → Result ConfigError (Unit {0})
validate_csv_schema d have cfg =
    if is_empty cfg.path || is_producer cfg.run_mode
    then ok tt
    else if is_empty have
        || same_text have (csv_header d cfg.percentiles cfg.output_unit cfg.subtract_overhead)
    then ok tt
    else if is_pre_kind_header have
    then throws pre_kind_csv
    else throws other_csv_header

-- 16 is the size of a sample; the product of two numbers of 32 bits and 16 is taken in 64 bits.
unfoldable pub validate_config :
    {P : Type 0} → Percentiles P → List ℕ → Config P → Result ConfigError (Unit {0})
validate_config d have cfg = do
  throw_if (bad_capacity cfg.queue_capacity) bad_queue_capacity
  throw_if (ltb 0 cfg.max_thread_rings && bad_capacity cfg.thread_ring_capacity) bad_ring_capacity
  throw_if (ltb max_rings cfg.max_thread_rings) too_many_rings
  throw_if (ltb max_ring_bytes (cfg.max_thread_rings * cfg.thread_ring_capacity * 16 % 2 ^ 64))
      rings_too_large
  throw_if (not (is_local cfg.run_mode) && is_empty cfg.shm_name) no_shm_name
  throw_if (not (is_local cfg.run_mode) && ltb shm_name_max (length cfg.shm_name)) shm_name_too_long
  check_percentiles d cfg.percentiles
  validate_csv_schema d have cfg
