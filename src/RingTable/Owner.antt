-- ===== src/RingTable/Owner.antt =====
-- The fields of a claim word.
use slick_perfmon.Prelude.{ℕ, ◌+◌, ◌-◌, ◌*◌, ◌/◌, ◌%◌, ◌^◌, ◌<◌, ◌≡◌, arith, bit_or}
use slick_perfmon.Prelude.Bits.{and_mask, or_fields}
use slick_perfmon.RingTable.{ring_owner, ring_state, ring_pid, retired_word, ring_retired}

low_byte : (w : ℕ) → ring_state w ≡ w % 256
unfolding ring_state
low_byte w = and_mask 8 w

ring_owner_sum :
    (pid tag state : ℕ)
    → pid < 2 ^ 32
    → state < 2 ^ 8
    → ring_owner pid tag state ≡ (pid * 2 ^ 24 + tag % 2 ^ 24) * 2 ^ 8 + state
unfolding ring_owner
ring_owner_sum pid tag state hp hs =
    let x : ℕ = tag % 2 ^ 24 in
    let low : x < 2 ^ 24 = omega arith in
    let a : pid * 2 ^ 32 % 2 ^ 64 ≡ pid * 2 ^ 32 = omega arith in
    let b : x * 2 ^ 8 % 2 ^ 64 ≡ x * 2 ^ 8 = omega arith in
    let c : bit_or (pid * 2 ^ 32) (x * 2 ^ 8) ≡ pid * 2 ^ 32 + x * 2 ^ 8 =
      or_fields 32 pid (x * 2 ^ 8) (omega arith) in
    let d : pid * 2 ^ 32 + x * 2 ^ 8 ≡ (pid * 2 ^ 24 + x) * 2 ^ 8 = omega arith in
    rw (and_mask 24 tag, a, b, c, d) (or_fields 8 (pid * 2 ^ 24 + x) state hs)

-- A claim word of a pid of 32 bits and a state of 8 bits gives both back; between them stands the
-- tag's low 24 bits.
pub ring_owner_fields :
    (pid tag state : ℕ)
    → pid < 2 ^ 32
    → state < 2 ^ 8
    → (ring_state (ring_owner pid tag state) ≡ state)
      × (ring_pid (ring_owner pid tag state) ≡ pid)
      × (ring_owner pid tag state / 2 ^ 8 % 2 ^ 24 ≡ tag % 2 ^ 24)
unfolding ring_pid
ring_owner_fields pid tag state hp hs =
    let s = ring_owner_sum pid tag state hp hs in
    (omega (arith, s, low_byte (ring_owner pid tag state)), omega (arith, s), omega (arith, s))

-- Retiring a word keeps its pid and its tag.
pub retired_word_fields :
    (w : ℕ)
    → w < 2 ^ 64
    → (ring_state (retired_word w) ≡ ring_retired)
      × (ring_pid (retired_word w) ≡ ring_pid w)
      × (retired_word w / 2 ^ 8 ≡ w / 2 ^ 8)
unfolding ring_pid retired_word
retired_word_fields w h =
    let e : w - w % 256 ≡ w / 256 * 2 ^ 8 = omega arith in
    let s : retired_word w ≡ w / 256 * 2 ^ 8 + 2 =
      rw (and_mask 8 w, e) (or_fields 8 (w / 256) 2 (omega arith)) in
    (omega (arith, s, low_byte (retired_word w)), omega (arith, s), omega (arith, s))
