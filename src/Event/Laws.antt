-- ===== src/Event/Laws.antt =====
-- The packed event word loses neither field.
use slick_perfmon.Prelude.{ℕ, ◌+◌, ◌*◌, ◌/◌, ◌%◌, ◌^◌, ◌<◌, ◌≡◌, arith, bit_and, ◌==◌}
use slick_perfmon.Prelude.Bits.{or_fields, and_mask}
use slick_perfmon.Event.{make_event, step_of, seq_of, is_value_event, value_step, max_seq}

-- The word is `seq * 256 + step`: the two fields do not overlap.
pub make_event-eq :
    (step seq : ℕ) → step < 2 ^ 8 → make_event step seq ≡ seq % 2 ^ 24 * 2 ^ 8 + step
unfolding make_event
make_event-eq step seq h =
    let low : bit_and seq max_seq ≡ seq % 2 ^ 24 = and_mask 24 seq in
    let fits : seq % 2 ^ 24 * 2 ^ 8 % 2 ^ 32 ≡ seq % 2 ^ 24 * 2 ^ 8 = omega arith in
    rw (low, fits) (or_fields 8 (seq % 2 ^ 24) step h)

pub step_of-eq : (e : ℕ) → step_of e ≡ e % 2 ^ 8
unfolding step_of
step_of-eq e = rw (and_mask 8 e) (omega arith)

-- For every step of 8 bits and every correlation id, `step_of` gives the step back and `seq_of` the
-- low 24 bits of the id, and the word fits 32 bits.
pub make_event_fields :
    (step seq : ℕ)
    → step < 2 ^ 8
    → (step_of (make_event step seq) ≡ step)
      × (seq_of (make_event step seq) ≡ seq % 2 ^ 24)
      × (make_event step seq < 2 ^ 32)
unfolding seq_of
make_event_fields step seq h =
    let e : make_event step seq ≡ seq % 2 ^ 24 * 2 ^ 8 + step = make_event-eq step seq h in
    (rw (step_of-eq, e) (omega arith), rw e (omega arith), rw e (omega arith))

-- Every 32-bit word is the packing of its own two fields.
pub make_event-step_of-seq_of : (e : ℕ) → e < 2 ^ 32 → make_event (step_of e) (seq_of e) ≡ e
unfolding seq_of
make_event-step_of-seq_of e h =
    rw (step_of-eq, make_event-eq (e % 2 ^ 8) (e / 2 ^ 8) (omega arith)) (omega arith)

pub is_value_event-eq : (e : ℕ) → is_value_event e ≡ (e % 2 ^ 8 == value_step)
unfolding is_value_event
is_value_event-eq e = rw (and_mask 8 e) (ground arith)
