-- ===== src/Keys/Tests.antt =====
-- The theorems on the keys at concrete spans and stages.
use slick_perfmon.Prelude.{ℕ, ◌%◌, ◌^◌, ◌<◌, ◌≡◌, ◌≢◌, arith}
use slick_perfmon.Keys.{stage_key, total_key, span_key, span_point}
use slick_perfmon.Keys.Laws.{span_key_fields, stage_key_fields}

abbrev point : ℕ
point = 5

abbrev seq_a : ℕ
seq_a = 9

abbrev seq_b : ℕ
seq_b = 10

abbrev step_a : ℕ
step_a = 0

abbrev step_b : ℕ
step_b = 1

span_key_fields_run :
    (span_point (span_key point seq_a) ≡ point)
    × (span_key point seq_a ≡ span_key point seq_b
        → (point ≡ point) × (seq_a % 2 ^ 24 ≡ seq_b % 2 ^ 24))
span_key_fields_run = span_key_fields point seq_a point seq_b (omega arith) (omega arith)

stage_key_fields_run :
    (stage_key point step_a step_b ≡ stage_key point step_b step_a
      → (point ≡ point) × (step_a ≡ step_b) × (step_b ≡ step_a))
    × (total_key point ≡ stage_key point 0 0)
    × (0 < step_b → stage_key point step_a step_b ≢ total_key point)
stage_key_fields_run =
    stage_key_fields point step_a step_b point step_b step_a (omega arith) (omega arith)
      (omega arith) (omega arith) (omega arith) (omega arith)
