-- ===== src/Ring/Writer.antt =====
-- The writer of a ring, one store at a time, and what its memory holds at every moment.
use native.Mathlib.Nat.{mod-eq_of_lt, mod-lt, div-add-mod, mul-le-mul_left}
use native.Mathlib.Decide.{dec_lt, ℕ_discrete}
use slick_perfmon.Prelude.{
  ℕ, ◌+◌, ◌-◌, ◌/◌, ◌%◌, ◌^◌, ◌≤◌, ◌<◌, ◌≡◌, refl, sym, ap, ◌∙◌, ◌≢◌, arith, bit_and, ◌==◌, ==_refl,
  ==_false, if◌then◌else◌, List, [], ◌∷◌, ◌++◌, length, get_or, set, length-set, get_or-set,
  length-append, get_or-append, get_or-append_last,
}
use slick_perfmon.Prelude.Bits.{and_mask}
use slick_perfmon.Prelude.Powers.{pow2_pos}
use slick_perfmon.Event.{Sample}
use slick_perfmon.Ring.{Memory, no_sample, slot}

-- Where the writer stands in `publish`: at its start, or past the store of one, two or three fields.
pub data Pc : Type 0 where
  idle : Pc
  stamped : Sample → Pc
  pointed : Sample → Pc
  stored : Sample → Pc

-- The memory, the writer, and every sample it has published, the first one first.
pub record System : Type 0 where
  pub mem : Memory
  pub pc : Pc
  pub log : List Sample

abbrev pub poke : ℕ → Memory → Sample → Memory
poke mask m s = record m { slots = set m.slots (bit_and m.head mask) s }

-- The next store of the writer; `s` is the sample that an idle writer starts on.
unfoldable pub advance : ℕ → Sample → System → System
advance mask s σ = elim σ.pc [
  | idle ↦ record σ {
    mem = poke mask σ.mem (record (slot mask σ.mem σ.mem.head) { timestamp = s.timestamp });
    pc = stamped s;
  }
  | stamped x ↦ record σ {
    mem = poke mask σ.mem (record (slot mask σ.mem σ.mem.head) { point = x.point });
    pc = pointed x;
  }
  | pointed x ↦ record σ {
    mem = poke mask σ.mem (record (slot mask σ.mem σ.mem.head) { event = x.event });
    pc = stored x;
  }
  | stored x ↦ record {
    mem = record σ.mem { head = (σ.mem.head + 1) % 2 ^ 64 };
    pc = idle;
    log = σ.log ++ (x ∷ []);
  }
]

-- A sample of three numbers, and what is equal to each of them.
pub built : ℕ → ℕ → ℕ → Sample
built t p e = record { timestamp = t; point = p; event = e }

pub same_fields :
    (c x : Sample) → c.timestamp ≡ x.timestamp → c.point ≡ x.point → c.event ≡ x.event → c ≡ x
unfolding built
same_fields c x t p e =
    ap (λ y. built y c.point c.event) t
    ∙ ap (λ y. built x.timestamp y c.event) p
    ∙ ap (λ y. built x.timestamp x.point y) e

-- What the writer has stored of the sample that it is on.
abbrev Partial : Pc → Sample → Type 0
Partial idle c = Unit
Partial (stamped s) c = c.timestamp ≡ s.timestamp
Partial (pointed s) c = (c.timestamp ≡ s.timestamp) × (c.point ≡ s.point)
Partial (stored s) c = (c.timestamp ≡ s.timestamp) × (c.point ≡ s.point) × (c.event ≡ s.event)

-- The head counts the log; every slot but the one at the head, which is under the pen, holds the
-- newest sample that was published into it.
pub record IsValid (bits : ℕ) (σ : System) : Type 0 where
  pub width : length σ.mem.slots ≡ 2 ^ bits
  pub counted : σ.mem.head ≡ length σ.log
  pub under_pen : Partial σ.pc (slot (2 ^ bits - 1) σ.mem σ.mem.head)
  pub intact :
      (i : ℕ)
      → i < σ.mem.head
      → σ.mem.head < i + 2 ^ bits
      → slot (2 ^ bits - 1) σ.mem i ≡ get_or σ.log i no_sample

slot-eq :
    (bits : ℕ) (m : Memory) (i : ℕ)
    → slot (2 ^ bits - 1) m i ≡ get_or m.slots (i % 2 ^ bits) no_sample
unfolding slot
slot-eq bits m i = rw (and_mask bits i)

module _ (bits : ℕ) where
  abbrev mask : ℕ
  mask = 2 ^ bits - 1

  -- Two indices less than a lap apart have different slots.
  pub apart : (i h : ℕ) → i < h → h < i + 2 ^ bits → h % 2 ^ bits ≢ i % 2 ^ bits
  apart i h lt near e =
      let p : ℕ = 2 ^ bits in
      let di = div-add-mod i p in
      let dh = div-add-mod h p in
      elim (dec_lt (i / p) (h / p)) [
        | yes more ↦ absurd (omega (arith, mul-le-mul_left p more))
        | no less ↦
            let le : h / p ≤ i / p = omega arith in absurd (omega (arith, mul-le-mul_left p le))
      ]

  module _ (σ : System) (v : IsValid bits σ) (c : Sample) where
    poked : Memory
    poked = poke mask σ.mem c

    slot-poked :
        (i : ℕ)
        → slot mask poked i
          ≡ (if σ.mem.head % 2 ^ bits == i % 2 ^ bits then c else slot mask σ.mem i)
    unfolding poked
    slot-poked i =
        let inside : σ.mem.head % 2 ^ bits < length σ.mem.slots =
          omega (arith, v.width, mod-lt σ.mem.head (pow2_pos bits)) in
        rw (slot-eq bits _ i, slot-eq bits σ.mem i, and_mask bits σ.mem.head)
          (get_or-set σ.mem.slots (σ.mem.head % 2 ^ bits) (i % 2 ^ bits) c no_sample inside)

    -- The slot at the head is the one that changes.
    slot-poked_head : slot mask poked σ.mem.head ≡ c
    slot-poked_head = rw (slot-poked σ.mem.head, ==_refl (σ.mem.head % 2 ^ bits))

    slot-poked_other :
        (i : ℕ) → i < σ.mem.head → σ.mem.head < i + 2 ^ bits → slot mask poked i ≡ slot mask σ.mem i
    slot-poked_other i lt near =
        rw (
          slot-poked i,
          ==_false (σ.mem.head % 2 ^ bits) (i % 2 ^ bits) (apart i σ.mem.head lt near),
        )

    poked-IsValid :
        (pc : Pc) → Partial pc c → IsValid bits (record { mem = poked; pc = pc; log = σ.log })
    unfolding poked
    poked-IsValid pc done = record {
      width = length-set σ.mem.slots (bit_and σ.mem.head mask) c ∙ v.width;
      counted = v.counted;
      under_pen = rw slot-poked_head done;
      intact = λ i lt near. slot-poked_other i lt near ∙ v.intact i lt near;
    }

  -- The head moves past a complete sample.
  published-IsValid :
      (σ : System) (x : Sample)
      → IsValid bits σ
      → σ.pc ≡ stored x
      → σ.mem.head + 1 < 2 ^ 64
      → IsValid bits (record {
        mem = record σ.mem { head = (σ.mem.head + 1) % 2 ^ 64 };
        pc = idle;
        log = σ.log ++ (x ∷ []);
      })
  unfolding slot
  published-IsValid σ x v at_end fits =
      let h : (σ.mem.head + 1) % 2 ^ 64 ≡ σ.mem.head + 1 = mod-eq_of_lt fits in
      rw h (record {
        width = v.width;
        counted = omega (arith, v.counted, length-append σ.log (x ∷ []));
        under_pen = tt;
        intact = λ i lt near. elim (ℕ_discrete i σ.mem.head) [
          | yes e ↦
              let (t, p, k) = rw at_end at v.under_pen in
              let last : slot mask σ.mem σ.mem.head ≡ x = same_fields _ x t p k in
              let now : get_or (σ.log ++ (x ∷ [])) i no_sample ≡ x =
                rw (e, v.counted) (get_or-append_last σ.log x no_sample) in
              ap (slot mask σ.mem) e ∙ last ∙ sym now
          | no older ↦
              v.intact i (omega arith) (omega arith)
              ∙ sym (get_or-append σ.log (x ∷ []) i no_sample (omega (arith, v.counted)))
        ];
      })

  -- Every store of the writer keeps the invariant.
  pub advance-IsValid :
      (s : Sample) (σ : System)
      → IsValid bits σ
      → σ.mem.head + 1 < 2 ^ 64
      → IsValid bits (advance mask s σ)
  unfolding advance poked
  advance-IsValid s σ v fits = go σ.pc refl
    where
      go : (pc : Pc) → σ.pc ≡ pc → IsValid bits (advance mask s σ)
      go idle e = rw (e, advance) (poked-IsValid σ v _ (stamped s) refl)
      go (stamped x) e =
          let done = rw e at v.under_pen in
          rw (e, advance) (poked-IsValid σ v _ (pointed x) (done, refl))
      go (pointed x) e =
          let done = rw e at v.under_pen in
          rw (e, advance) (poked-IsValid σ v _ (stored x) (done.0, done.1, refl))
      go (stored x) e = rw (e, advance) (published-IsValid σ x v e fits)
