-- ===== src/Keys.antt =====
-- The packed keys of the pairing tables: include/slick/perfmon/pairing.hpp.
pub mod Laws
mod Tests
use slick_perfmon.Prelude.{ℕ, ◌*◌, ◌/◌, ◌%◌, ◌^◌, bit_and, bit_or, Bool, ◌&&◌, ◌==◌}
use slick_perfmon.Event.{max_seq, value_step}

-- `kTotalStagePair`.
abbrev pub total_stage_pair : ℕ
total_stage_pair = 0x0000

unfoldable pub stage_key : ℕ → ℕ → ℕ → ℕ
stage_key p from to = bit_or (bit_or (p * 2 ^ 16 % 2 ^ 64) (from * 2 ^ 8 % 2 ^ 32)) to

unfoldable pub total_key : ℕ → ℕ
total_key p = bit_or (p * 2 ^ 16 % 2 ^ 64) total_stage_pair

pub is_value_stage : ℕ → ℕ → Bool
is_value_stage from to = (from == value_step) && (to == value_step)

unfoldable pub span_key : ℕ → ℕ → ℕ
span_key p seq = bit_or (p * 2 ^ 32 % 2 ^ 64) (bit_and seq max_seq)

unfoldable pub span_point : ℕ → ℕ
span_point key = key / 2 ^ 32 % 2 ^ 32
