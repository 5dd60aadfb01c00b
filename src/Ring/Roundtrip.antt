-- ===== src/Ring/Roundtrip.antt =====
-- What the reader gets of the samples that `publish` wrote, one call for each.
use native.Mathlib.Nat.{mod-eq_of_lt}
use slick_perfmon.Prelude.{
  ℕ, zero, suc, ◌+◌, ◌-◌, ◌^◌, ◌%◌, ◌==◌, ◌||◌, ltb, leb, ◌≤◌, ◌<◌, ◌≡◌, refl, sym, ap, ◌∙◌, arith,
  bit_and, ==_refl, ==_false, Bool-cases, true, false, inl, inr, List, [], ◌∷◌, length, get_or,
  length-set, get_or-set, take, take-all,
}
use slick_perfmon.Prelude.Bits.{and_mask}
use slick_perfmon.Event.{Sample}
use slick_perfmon.Ring.{
  Memory, no_sample, slot, attach, publish, first_intact, load_sample, copy, end_of, ring_read,
}
use slick_perfmon.Ring.Writer.{apart}
use slick_perfmon.Ring.Publishing.{head_inside}
use slick_perfmon.Ring.Reading.{first_intact_near, start_of_near}

-- One call of `publish` for each sample, each with the copy of the head that the last one left.
unfoldable pub publish_all : ℕ → List Sample → ℕ → Memory → Memory
publish_all mask [] next m = m
publish_all mask (s ∷ ss) next m =
    publish_all mask ss (publish mask s next m).0 (publish mask s next m).1

load-still : (mask : ℕ) (m : Memory) (t i : ℕ) → load_sample mask (λ _. m) t i ≡ slot mask m i
unfolding load_sample
load-still mask m t i = refl

copy-still :
    (mask : ℕ) (m : Memory) (ss : List Sample) (n t i : ℕ)
    → n ≤ length ss
    → ((j : ℕ) → j < length ss → slot mask m (i + j) ≡ get_or ss j no_sample)
    → copy mask (λ _. m) n t i ≡ take n ss
unfolding copy
copy-still mask m ss zero t i le same = refl
copy-still mask m [] (suc n) t i le same = absurd (omega arith)
copy-still mask m (s ∷ ss) (suc n) t i le same =
    let e : i + zero ≡ i = omega arith in
    let first = same 0 (omega arith) in
    let here : load_sample mask (λ _. m) t i ≡ s = load-still mask m t i ∙ rw e at first in
    let rest =
      copy-still mask m ss n (t + 3) (i + 1) (omega arith) (λ j lt.
        let f : i + 1 + j ≡ i + suc j = omega arith in rw f (same (suc j) (omega arith))) in
    rw (here, rest)

-- A memory whose ring has 2 ^ bits slots.
module _ (bits : ℕ) where
  abbrev mask : ℕ
  mask = 2 ^ bits - 1

  slot-publish_self :
      (s : Sample) (m : Memory)
      → length m.slots ≡ 2 ^ bits
      → slot mask (publish mask s m.head m).1 m.head ≡ s
  unfolding slot publish
  slot-publish_self s m wide =
      get_or-set m.slots _ _ s no_sample (head_inside bits m wide)
      ∙ rw (==_refl (bit_and m.head mask))

  slot-publish_other :
      (s : Sample) (m : Memory) (i : ℕ)
      → length m.slots ≡ 2 ^ bits
      → i < m.head
      → m.head < i + 2 ^ bits
      → slot mask (publish mask s m.head m).1 i ≡ slot mask m i
  unfolding slot publish
  slot-publish_other s m i wide lt near =
      let differs : (bit_and m.head mask == bit_and i mask) ≡ false =
        rw (and_mask bits m.head, and_mask bits i) (==_false _ _ (apart bits i m.head lt near)) in
      get_or-set m.slots _ _ s no_sample (head_inside bits m wide) ∙ rw differs

  publish-head :
      (s : Sample) (m : Memory)
      → m.head + 1 < 2 ^ 64
      → (publish mask s m.head m).1.head ≡ m.head + 1
  unfolding publish
  publish-head s m fits = mod-eq_of_lt fits

  length-publish :
      (s : Sample) (m : Memory) → length (publish mask s m.head m).1.slots ≡ length m.slots
  unfolding publish
  length-publish s m = length-set m.slots (bit_and m.head mask) s

  -- What a memory holds once `ss` has been published into it.
  record Published (ss : List Sample) (m m' : Memory) : Type 0 where
    moved : m'.head ≡ m.head + length ss
    newest : (j : ℕ) → j < length ss → slot mask m' (m.head + j) ≡ get_or ss j no_sample
    older :
        (i : ℕ) → i < m.head → m.head + length ss ≤ i + 2 ^ bits → slot mask m' i ≡ slot mask m i

  -- One sample before the others, which are published into `n`.
  publish_before :
      (s : Sample) (ss : List Sample) (m n m' : Memory)
      → n.head ≡ m.head + 1
      → slot mask n m.head ≡ s
      → ((i : ℕ) → i < m.head → m.head < i + 2 ^ bits → slot mask n i ≡ slot mask m i)
      → suc (length ss) < 2 ^ bits
      → Published ss n m'
      → Published (s ∷ ss) m m'
  publish_before s ss m n m' up now old few p = record {
    moved = omega (arith, p.moved, up);
    newest = newest;
    older = λ i lt near. p.older i (omega (arith, up)) (omega (arith, up)) ∙ old i lt (omega arith);
  }
    where
      newest :
          (j : ℕ) → j < suc (length ss) → slot mask m' (m.head + j) ≡ get_or (s ∷ ss) j no_sample
      newest zero lt =
          let e : m.head + zero ≡ m.head = omega arith in
          rw e (p.older m.head (omega (arith, up)) (omega (arith, up)) ∙ now)
      newest (suc j) lt =
          let e : m.head + suc j ≡ n.head + j = omega (arith, up) in rw e (p.newest j (omega arith))

  publish_all-Published :
      (ss : List Sample) (m : Memory)
      → length m.slots ≡ 2 ^ bits
      → length ss < 2 ^ bits
      → m.head + length ss < 2 ^ 64
      → Published ss m (publish_all mask ss m.head m)
  unfolding publish_all publish
  publish_all-Published [] m wide few fits = record {
    moved = omega arith;
    newest = λ j lt. absurd (omega arith);
    older = λ i lt near. refl;
  }
  publish_all-Published (s ∷ ss) m wide few fits =
      let up = publish-head s m (omega arith) in
      let n : Memory = (publish mask s m.head m).1 in
      publish_before s ss m n _ up (slot-publish_self s m wide)
        (λ i lt near. slot-publish_other s m i wide lt near) few
        (publish_all-Published ss n (length-publish s m ∙ wide) (omega arith) (omega (arith, up)))

take-none :
    (n : ℕ) (ss : List Sample) (c : ℕ) → (leb (c + length ss) c || (n == 0)) ≡ true → take n ss ≡ []
take-none zero ss c stop = refl
take-none (suc n) [] c stop = refl
take-none (suc n) (s ∷ ss) c stop = absurd (ground arith)

-- How much of the range is copied.
take-end_of :
    (ss : List Sample) (h c max_n : ℕ)
    → h ≡ c + length ss
    → (end_of h c max_n - c ≤ length ss) × (take (end_of h c max_n - c) ss ≡ take max_n ss)
unfolding end_of
take-end_of ss h c max_n ahead = elim (Bool-cases (ltb max_n (h - c))) [
  | inl cut ↦
      let e : c + max_n - c ≡ max_n = omega arith in
      let lt : max_n < h - c = ground arith in rw (cut, e) (omega (arith, lt), refl)
  | inr all ↦
      let e : h - c ≡ length ss = omega arith in
      let ge : length ss ≤ max_n = ground arith in
      rw (all, e) (omega arith, take-all (length ss) ss (omega arith) ∙ sym (take-all max_n ss ge))
]

-- A read of a memory that nobody writes, from a cursor within a lap of the head.
read-still :
    (bits : ℕ) (ss : List Sample) (c : ℕ) (m : Memory) (max_n lost : ℕ)
    → m.head ≡ c + length ss
    → ((j : ℕ) → j < length ss → slot (2 ^ bits - 1) m (c + j) ≡ get_or ss j no_sample)
    → length ss < 2 ^ bits
    → lost < 2 ^ 64
    → ring_read (2 ^ bits - 1) (λ _. m) c max_n lost
      ≡ record { batch = take max_n ss; cursor = c; lost = lost }
unfolding ring_read
read-still bits ss c m max_n lost ahead same few small =
    let near : m.head < c + 2 ^ bits = omega (arith, ahead) in
    let start = start_of_near m.head c bits near in
    let valid = first_intact_near m.head c bits near in
    let (few_left, taken) = take-end_of ss m.head c max_n ahead in
    let copied = copy-still (2 ^ bits - 1) m ss (end_of m.head c max_n - c) 1 c few_left same in
    let at_start : ltb c (first_intact m.head (2 ^ bits - 1)) ≡ false = ground (arith, valid) in
    let none_lost : (lost + (c - c)) % 2 ^ 64 ≡ lost =
      let z : lost + (c - c) ≡ lost = omega arith in rw (z, mod-eq_of_lt small) in
    let no_gap : c - c ≡ 0 = omega arith in
    elim (Bool-cases (leb m.head c || (max_n == 0))) [
      | inl stop ↦ rw stop (
          ap (λ xs. record { batch = xs; cursor = c; lost = lost })
            (sym (take-none max_n ss c (rw ahead at stop))))
      | inr go ↦ rw (go, start, at_start, none_lost, no_gap, copied, taken)
    ]

-- With a ring of 2 ^ bits slots, fewer samples than that, and counts below 2 ^ 64: a reader that
-- stands at the head when the samples are published, and that reads after all of them, gets the
-- first max_n of them, the one that was published first at the front, without a loss and from a
-- cursor that has not moved.
pub ring_read-publish_all :
    (bits : ℕ) (ss : List Sample) (m : Memory) (max_n lost : ℕ)
    → length m.slots ≡ 2 ^ bits
    → length ss < 2 ^ bits
    → m.head + length ss < 2 ^ 64
    → lost < 2 ^ 64
    → ring_read (2 ^ bits - 1) (λ _. publish_all (2 ^ bits - 1) ss (attach m) m) m.head max_n lost
      ≡ record { batch = take max_n ss; cursor = m.head; lost = lost }
unfolding attach
ring_read-publish_all bits ss m max_n lost wide few fits small =
    let p = publish_all-Published bits ss m wide few fits in
    read-still bits ss m.head (publish_all (2 ^ bits - 1) ss m.head m) max_n lost p.moved p.newest
      few small
