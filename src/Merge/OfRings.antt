-- ===== src/Merge/OfRings.antt =====
-- The rings of the threads, read by `ring_read` while their threads publish, are what the merge of
-- include/slick/perfmon/collector.hpp relies on.
use native.Mathlib.Nat.{mod-lt}
use slick_perfmon.Prelude.{
  ℕ, ◌+◌, ◌-◌, ◌%◌, ◌^◌, ◌≤◌, ◌<◌, ◌≡◌, refl, ◌∙◌, arith, true, false, leb, ◌==◌, ◌||◌, Bool-cases,
  inl, inr, length, get_or,
}
use slick_perfmon.Event.{Sample}
use slick_perfmon.Ring.{Read, no_sample, ring_read}
use slick_perfmon.Ring.Writer.{System}
use slick_perfmon.Ring.Intact.{Run, Run-IsValid, Run-Later}
use slick_perfmon.Ring.Reading.{last_load, ring_read-Reads}
use slick_perfmon.Merge.{Outside}
use slick_perfmon.Merge.Heaps.{IsHeaps}
use slick_perfmon.Merge.Feeding.{IsStamp, StandsAt, StandsAt-at, IsRings}

-- The rings: `σ i t` is how ring i goes on while it is accessed at moment t.
pub record Threads (bits : ℕ) (σ : ℕ → ℕ → ℕ → System) (published : ℕ → ℕ → Sample) : Type 0 where
  pub runs : (i t : ℕ) → Run bits (σ i t)
  pub logged :
      (i t u j : ℕ) → j < length (σ i t u).log → get_or (σ i t u).log j no_sample ≡ published i j
  pub rising : (i t u : ℕ) → t ≤ u → (σ i t 0).mem.head ≤ (σ i u 0).mem.head
  pub ordered :
      (i j k : ℕ)
      → j ≤ k
      → IsStamp (published i j)
      → IsStamp (published i k)
      → (published i j).timestamp ≤ (published i k).timestamp

unfoldable pub with_rings : {W : Type 0} → ℕ → (ℕ → ℕ → ℕ → System) → Outside W → Outside W
with_rings bits σ o = record o {
  head = λ i t. (σ i t 0).mem.head;
  read = λ i t c n l. ring_read (2 ^ bits - 1) (λ u. (σ i t u).mem) c n (l % 2 ^ 64);
}

module _ (bits : ℕ) (σ : ℕ → ℕ → ℕ → System) (published : ℕ → ℕ → Sample) (several : 0 < bits)
    (threads : Threads bits σ published) (i t c n l : ℕ) where
  abbrev the_read : Read
  the_read = ring_read (2 ^ bits - 1) (λ u. (σ i t u).mem) c n (l % 2 ^ 64)

  -- What the merge wants of one read.
  record Serves : Type 0 where
    holds : StandsAt (published i) the_read.cursor the_read.batch
    onward : c ≤ the_read.cursor
    bounded : length the_read.batch ≤ n
    still : n ≡ 0 → the_read.cursor ≡ c
    counted : the_read.lost ≡ (l + (the_read.cursor - c)) % 2 ^ 64
    progress : c < (σ i t 0).mem.head → 0 < n → c < the_read.cursor + length the_read.batch

  read_nothing : (leb (σ i t 0).mem.head c || (n == 0)) ≡ true → Serves
  unfolding ring_read
  read_nothing e = record {
    holds = rw (ring_read, e) tt;
    onward = rw (ring_read, e) (omega arith);
    bounded = rw (ring_read, e) (omega arith);
    still = λ z. rw (ring_read, e) refl;
    counted = rw (ring_read, e) (omega arith);
    progress = λ lt room. absurd (ground (arith, lt, room, e));
  }

  read_something : (leb (σ i t 0).mem.head c || (n == 0)) ≡ false → Serves
  read_something e =
      let lt : c < (σ i t 0).mem.head = ground (arith, e) in
      let r =
        ring_read-Reads bits (σ i t) (threads.runs i t) c n (l % 2 ^ 64) several (omega (arith, lt))
          (mod-lt l (omega arith)) in
      let end : ℕ = last_load (2 ^ bits - 1) (σ i t 0).mem.head c n in
      let now = (Run-Later bits (σ i t) (threads.runs i t) 0 end (omega arith)).upward in
      let counted = (Run-IsValid bits (σ i t) (threads.runs i t) end).counted in
      let within = r.within in
      record {
        holds = StandsAt-at (published i) the_read.cursor the_read.batch λ j small.
            r.holds j small
            ∙ threads.logged i t end (the_read.cursor + j)
                (omega (arith, small, within, now, counted));
        onward = r.forward;
        bounded = r.bounded;
        still = λ z. absurd (ground (arith, z, e));
        counted = (let k = r.counted in omega (arith, k));
        progress = r.progress;
      }

  serves : Serves
  serves = elim (Bool-cases (leb (σ i t 0).mem.head c || (n == 0))) [
    | inl e ↦ read_nothing e
    | inr e ↦ read_something e
  ]

-- Rings of more than one slot, each written by its thread from a valid state, any number of stores
-- between two loads of the collector, no head less at a later access, whose samples are those that
-- the threads published, the stamps in the order of their times: `ring_read` gives the merge what it
-- relies on, whatever head, cursor and number of samples it is called with.
pub with_rings-IsRings :
    {W : Type 0} (o : Outside W) (bits : ℕ) (σ : ℕ → ℕ → ℕ → System) (published : ℕ → ℕ → Sample)
    → 0 < bits
    → Threads bits σ published
    → IsRings (with_rings bits σ o) published
unfolding with_rings
with_rings-IsRings o bits σ published several threads = record {
  ordered = threads.ordered;
  holds = λ i t c n l. (serves bits σ published several threads i t c n l).holds;
  onward = λ i t c n l. (serves bits σ published several threads i t c n l).onward;
  bounded = λ i t c n l. (serves bits σ published several threads i t c n l).bounded;
  no_room = λ i t c l. (serves bits σ published several threads i t c 0 l).still refl;
  counted = λ i t c n l. (serves bits σ published several threads i t c n l).counted;
  progress = λ i t c n l. (serves bits σ published several threads i t c n l).progress;
  rising = threads.rising;
}

-- The heap algorithms are those of the merge.
pub with_rings-IsHeaps :
    {W : Type 0} (o : Outside W) (bits : ℕ) (σ : ℕ → ℕ → ℕ → System)
    → IsHeaps o
    → IsHeaps (with_rings bits σ o)
unfolding with_rings
with_rings-IsHeaps o bits σ heaps = record {
  made = heaps.made;
  made_same = heaps.made_same;
  pushed = heaps.pushed;
  pushed_same = heaps.pushed_same;
  popped = heaps.popped;
}
