-- ===== src/Event.antt =====
-- The 16-byte event record and its packed event word: include/slick/perfmon/stamp_types.hpp.
pub mod Laws
mod Tests
use slick_perfmon.Prelude.{ℕ, ◌*◌, ◌/◌, ◌%◌, ◌^◌, bit_and, bit_or, Bool, ◌==◌}

abbrev pub begin_step : ℕ
begin_step = 0x00

abbrev pub end_step : ℕ
end_step = 0xff

abbrev pub value_step : ℕ
value_step = 0xfe

abbrev pub max_span_step : ℕ
max_span_step = 0xfd

abbrev pub no_seq : ℕ
no_seq = 0

abbrev pub max_seq : ℕ
max_seq = 0x00ff_ffff

-- `(event_id(seq & kMaxSeq) << 8) | step`, the shift in 32 bits.
unfoldable pub make_event : ℕ → ℕ → ℕ
make_event step seq = bit_or (bit_and seq max_seq * 2 ^ 8 % 2 ^ 32) step

unfoldable pub step_of : ℕ → ℕ
step_of e = bit_and e 0xff % 2 ^ 8

unfoldable pub seq_of : ℕ → ℕ
seq_of e = e / 2 ^ 8

unfoldable pub is_value_event : ℕ → Bool
unfolding step_of
is_value_event e = step_of e == value_step

pub record Sample : Type 0 where
  pub timestamp : ℕ
  pub point : ℕ
  pub event : ℕ

-- The payload of a value sample: the same 64 bits as `timestamp`.
abbrev pub value : Sample → ℕ
value s = s.timestamp
