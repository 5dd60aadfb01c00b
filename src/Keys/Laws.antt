-- ===== src/Keys/Laws.antt =====
-- Distinct spans and stages have distinct keys.
use slick_perfmon.Prelude.{ℕ, ◌+◌, ◌*◌, ◌%◌, ◌^◌, ◌<◌, ◌≡◌, ◌∙◌, ◌≢◌, arith, true, bit_and, bit_or}
use slick_perfmon.Prelude.Bits.{or_fields, and_mask}
use slick_perfmon.Event.{max_seq}
use slick_perfmon.Event.{value_step}
use slick_perfmon.Keys.{is_value_stage, stage_key, total_key, span_key, span_point}

pub span_key-eq : (p seq : ℕ) → p < 2 ^ 32 → span_key p seq ≡ p * 2 ^ 32 + seq % 2 ^ 24
unfolding span_key
span_key-eq p seq h =
    let low : bit_and seq max_seq ≡ seq % 2 ^ 24 = and_mask 24 seq in
    let fits : p * 2 ^ 32 % 2 ^ 64 ≡ p * 2 ^ 32 = omega arith in
    rw (low, fits) (or_fields 32 p (seq % 2 ^ 24) (omega arith))

-- For points of 32 bits, the point comes back out of a span's key, and two spans share a key only if they have the same
-- point and the same low 24 bits of their correlation ids.
pub span_key_fields :
    (p seq q r : ℕ)
    → p < 2 ^ 32
    → q < 2 ^ 32
    → (span_point (span_key p seq) ≡ p)
      × (span_key p seq ≡ span_key q r → (p ≡ q) × (seq % 2 ^ 24 ≡ r % 2 ^ 24))
unfolding span_point
span_key_fields p seq q r hp hq =
    let e = span_key-eq p seq hp in
    let f = span_key-eq q r hq in (rw e (omega arith), λ same. (omega arith, omega arith))

pub stage_key-eq :
    (p from to : ℕ)
    → p < 2 ^ 32
    → from < 2 ^ 8
    → to < 2 ^ 8
    → stage_key p from to ≡ p * 2 ^ 16 + from * 2 ^ 8 + to
unfolding stage_key
stage_key-eq p from to hp hf ht =
    let fits : p * 2 ^ 16 % 2 ^ 64 ≡ p * 2 ^ 16 = omega arith in
    let fits' : from * 2 ^ 8 % 2 ^ 32 ≡ from * 2 ^ 8 = omega arith in
    let high : bit_or (p * 2 ^ 16) (from * 2 ^ 8) ≡ p * 2 ^ 16 + from * 2 ^ 8 =
      or_fields 16 p (from * 2 ^ 8) (omega arith) in
    let whole : p * 2 ^ 16 + from * 2 ^ 8 ≡ (p * 2 ^ 8 + from) * 2 ^ 8 = omega arith in
    let low : bit_or ((p * 2 ^ 8 + from) * 2 ^ 8) to ≡ (p * 2 ^ 8 + from) * 2 ^ 8 + to =
      or_fields 8 (p * 2 ^ 8 + from) to ht in
    rw (fits, fits', high, whole, low)

-- For points of 32 bits and steps of 8, two stages share a key only if they are the same transition on the same point, and the synthetic
-- total is the stage of the pair (0, 0): no transition that ends past the begin step has its key.
pub stage_key_fields :
    (p from to q from' to' : ℕ)
    → p < 2 ^ 32
    → from < 2 ^ 8
    → to < 2 ^ 8
    → q < 2 ^ 32
    → from' < 2 ^ 8
    → to' < 2 ^ 8
    → (stage_key p from to ≡ stage_key q from' to' → (p ≡ q) × (from ≡ from') × (to ≡ to'))
      × (total_key p ≡ stage_key p 0 0)
      × (0 < to → stage_key p from to ≢ total_key q)
unfolding total_key
stage_key_fields p from to q from' to' hp hf ht hq hf' ht' =
    let e = stage_key-eq p from to hp hf ht in
    let f = stage_key-eq q from' to' hq hf' ht' in
    let z = stage_key-eq p 0 0 hp (omega arith) (omega arith) in
    let total : (r : ℕ) → r < 2 ^ 32 → bit_or (r * 2 ^ 16 % 2 ^ 64) 0 ≡ r * 2 ^ 16 = λ r h.
      let fits : r * 2 ^ 16 % 2 ^ 64 ≡ r * 2 ^ 16 = omega arith in
      rw fits (or_fields 16 r 0 (omega arith) ∙ omega arith) in
    let t = total p hp in
    let u = total q hq in
    (λ same. (omega arith, omega arith, omega arith), omega arith, λ pos same. omega arith)

pub is_value_stage-from : (from to : ℕ) → is_value_stage from to ≡ true → from ≡ value_step
unfolding is_value_stage
is_value_stage-from from to h = ground (arith, h)
