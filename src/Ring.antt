-- ===== src/Ring.antt =====
-- One thread's ring: include/slick/perfmon/detail/thread_ring.hpp. The memory that the two sides
-- share is a head and a list of slots; the reader takes its loads from a memory that changes.
pub mod Writer
pub mod Intact
pub mod Reading
mod Publishing
pub mod Roundtrip
pub mod Tests
use slick_perfmon.Prelude.{
  ℕ, zero, suc, ◌+◌, ◌-◌, ◌*◌, ◌%◌, ◌^◌, bit_and, Bool, ◌||◌, ltb, leb, ◌==◌, if◌then◌else◌, List,
  [], ◌∷◌, get_or, set, drop,
}
use slick_perfmon.Event.{Sample}

-- `ring_view`: what `head` and `data` (here `slots`) point to, and the mask.
pub record Memory : Type 0 where
  pub head : ℕ
  pub slots : List Sample

abbrev pub no_sample : Sample
no_sample = record { timestamp = 0; point = 0; event = 0 }

-- `data[i & mask]`.
unfoldable pub slot : ℕ → Memory → ℕ → Sample
slot mask m i = get_or m.slots (bit_and i mask) no_sample

-- `ring_writer`: its own copy of the head.
pub attach : Memory → ℕ
attach m = m.head

-- `publish`, undisturbed: the new copy of the head, and the memory.
pub publish : ℕ → Sample → ℕ → Memory → ℕ × Memory
publish mask s next m =
    let next' : ℕ = (next + 1) % 2 ^ 64 in
    (next', record { head = next'; slots = set m.slots (bit_and next mask) s })

unfoldable pub first_intact : ℕ → ℕ → ℕ
first_intact h mask = if ltb mask h then h - mask else 0

-- `sample::load`: one load for each field, at the moments `t`, `t + 1` and `t + 2`.
unfoldable pub load_sample : ℕ → (ℕ → Memory) → ℕ → ℕ → Sample
load_sample mask mem t i = record {
  timestamp = (slot mask (mem t) i).timestamp;
  point = (slot mask (mem (t + 1)) i).point;
  event = (slot mask (mem (t + 2)) i).event;
}

-- The copy loop: the rounds left, the moment of the next load, and the index.
unfoldable pub copy : ℕ → (ℕ → Memory) → ℕ → ℕ → ℕ → List Sample
copy mask mem zero t i = []
copy mask mem (suc n) t i = load_sample mask mem t i ∷ copy mask mem n (t + 3) (i + 1)

-- What `ring_read` returns and writes: the batch, the cursor and the count of lost samples.
pub record Read : Type 0 where
  pub batch : List Sample
  pub cursor : ℕ
  pub lost : ℕ

-- The range that is copied, from the head as it was loaded first.
unfoldable pub start_of : ℕ → ℕ → ℕ → ℕ
start_of mask h cursor = if ltb (first_intact h mask) cursor then cursor else first_intact h mask

unfoldable pub end_of : ℕ → ℕ → ℕ → ℕ
end_of h start max_n = if ltb max_n (h - start) then start + max_n else h

-- `ring_read`, where `mem t` is the memory at the reader's load number `t`.
unfoldable pub ring_read : ℕ → (ℕ → Memory) → ℕ → ℕ → ℕ → Read
ring_read mask mem cursor max_n lost =
    let h : ℕ = (mem 0).head in
    let start : ℕ = start_of mask h cursor in
    let end : ℕ = end_of h start max_n in
    let scratch = copy mask mem (end - start) 1 start in
    let valid : ℕ = first_intact (mem (1 + 3 * (end - start))).head mask in
    let first : ℕ = if ltb start valid then if ltb valid end then valid else end else start in
    if leb h cursor || (max_n == 0)
    then record { batch = []; cursor = cursor; lost = lost }
    else record {
      batch = drop (first - start) scratch;
      cursor = first;
      lost = (lost + (first - cursor)) % 2 ^ 64;
    }
