-- ===== src/Event/Tests.antt =====
-- The theorems on the event word at concrete events.
use slick_perfmon.Prelude.{◌%◌, ◌^◌, ◌<◌, ◌≡◌, arith}
use slick_perfmon.Event.{make_event, step_of, seq_of, end_step}
use slick_perfmon.Event.Laws.{make_event_fields, make_event-step_of-seq_of}

make_event_fields_run :
    (step_of (make_event end_step 0x100_0007) ≡ end_step)
    × (seq_of (make_event end_step 0x100_0007) ≡ 0x100_0007 % 2 ^ 24)
    × (make_event end_step 0x100_0007 < 2 ^ 32)
make_event_fields_run = make_event_fields end_step 0x100_0007 (omega arith)

make_event-step_of-seq_of_run : make_event (step_of 0x0a0b_0cff) (seq_of 0x0a0b_0cff) ≡ 0x0a0b_0cff
make_event-step_of-seq_of_run = make_event-step_of-seq_of 0x0a0b_0cff (omega arith)
