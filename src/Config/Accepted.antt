-- ===== src/Config/Accepted.antt =====
-- What `validate_config` accepts.
use slick_perfmon.Prelude.{
  ℕ, zero, suc, ◌-◌, ◌*◌, ◌/◌, ◌%◌, ◌^◌, ◌≤◌, ◌<◌, ◌≡◌, ◌⊎◌, refl, ◌∙◌, arith, bit_and, true, false,
  not, ◌&&◌, ltb, Bool-cases, inl, inr, List, [], ◌∷◌, length,
}
use native.Mathlib.Nat.{mod_self, mod-eq_of_lt, mul-le-mul}
use native.Mathlib.Decide.{dec_lt, ℕ_discrete}
use mathlib.Core.Logic.{◌↔◌}
use slick_perfmon.Prelude.Bits.{and_step, and_mask}
use slick_perfmon.Prelude.Powers.{pow2_pos, pow2_suc}
use slick_perfmon.Prelude.Text.{is_empty, same_text, same_text-true, same_text_refl}
use slick_perfmon.Prelude.Results.{ok, throw_if-ok, >>-ok}
use slick_perfmon.Config.Header.{Percentiles, csv_header}
use slick_perfmon.Config.{
  Config, bad_queue_capacity, bad_ring_capacity, too_many_rings, rings_too_large, no_shm_name,
  shm_name_too_long, is_local, is_producer, bad_capacity, check_percentiles, validate_csv_schema,
  validate_config, max_rings, max_ring_bytes, shm_name_max,
}

and_self : (n a : ℕ) → a ≤ n → bit_and a a ≡ a
and_self n zero h = refl
and_self zero (suc a) h = absurd (omega arith)
and_self (suc n) (suc a) h =
    omega (arith, and_step (suc a) (suc a), and_self n (suc a / 2) (omega arith))

-- A number with no bit in common with the one before it is a power of two.
pow2_enough : (n a : ℕ) → a ≤ n → 0 < a → bit_and a (a - 1) ≡ 0 → (k : ℕ) × (a ≡ 2 ^ k)
pow2_enough zero a h pos e = absurd (omega arith)
pow2_enough (suc n) a h pos e = elim (dec_lt 1 a) [
  | no small ↦ (0, omega arith)
  | yes big ↦ elim (ℕ_discrete (a % 2) 0) [
    | no odd ↦
        let half : (a - 1) / 2 ≡ a / 2 = omega arith in
        let s = and_step a (a - 1) in
        let t = rw half at s in absurd (omega (arith, t, e, and_self (a / 2) (a / 2) (omega arith)))
    | yes even ↦
        let half : (a - 1) / 2 ≡ a / 2 - 1 = omega arith in
        let s = and_step a (a - 1) in
        let t = rw half at s in
        let z : bit_and (a / 2) (a / 2 - 1) ≡ 0 = omega (arith, t, e) in
        let (k, w) = pow2_enough n (a / 2) (omega arith) (omega arith) z in
        (suc k, omega (arith, w, pow2_suc k))
  ]
]

-- A power of two, and at least 2.
abbrev pub IsCapacity : ℕ → Type 0
IsCapacity a = (k : ℕ) × (a ≡ 2 ^ suc k)

bad_capacity-IsCapacity : (a : ℕ) → bad_capacity a ≡ false → IsCapacity a
unfolding bad_capacity
bad_capacity-IsCapacity a h =
    let two : 2 ≤ a = ground arith in
    let z : bit_and a (a - 1) ≡ 0 = ground arith in
    go (pow2_enough a a (omega arith) (omega arith) z) two
  where
    go : ((k : ℕ) × (a ≡ 2 ^ k)) → 2 ≤ a → IsCapacity a
    go (zero, e) two = absurd (omega arith)
    go (suc k, e) two = (k, e)

IsCapacity-bad_capacity : (a : ℕ) → IsCapacity a → bad_capacity a ≡ false
unfolding bad_capacity
IsCapacity-bad_capacity a (k, e) =
    let p = pow2_pos k in
    let q = pow2_suc k in
    let m : bit_and (2 ^ suc k) (2 ^ suc k - 1) ≡ 2 ^ suc k % 2 ^ suc k =
      and_mask (suc k) (2 ^ suc k) in
    let z : 2 ^ suc k % 2 ^ suc k ≡ 0 = mod_self (2 ^ suc k) in
    let n : bit_and a (a - 1) ≡ 0 = rw e (m ∙ z) in
    let two : 2 ≤ a = omega (arith, e, p, q) in rw n (ground arith)

module _ {P : Type 0} (d : Percentiles P) where
  -- The test that the code makes of each percentile, for all of them.
  abbrev pub InRange : List P → Type 0
  InRange [] = Unit
  InRange (p ∷ ps) =
      (d.is_finite p ≡ true) × (d.is_negative p ≡ false) × (d.is_above_100 p ≡ false) × InRange ps

  check_percentiles-InRange : (ps : List P) → check_percentiles d ps ≡ ok tt → InRange ps
  unfolding check_percentiles
  check_percentiles-InRange [] h = tt
  check_percentiles-InRange (p ∷ ps) h = ground (arith, check_percentiles-InRange ps)

  InRange-check_percentiles : (ps : List P) → InRange ps → check_percentiles d ps ≡ ok tt
  unfolding check_percentiles
  InRange-check_percentiles [] h = refl
  InRange-check_percentiles (p ∷ ps) (a, b, c, rest) =
      ground (arith, InRange-check_percentiles ps rest)

-- The file at the path has no header, or the header of this configuration, or is not written.
abbrev pub SchemaAgrees : {P : Type 0} → Percentiles P → List ℕ → Config P → Type 0
SchemaAgrees d have cfg =
    (is_empty cfg.path ≡ true)
    ⊎ ((is_producer cfg.run_mode ≡ true)
        ⊎ ((is_empty have ≡ true)
            ⊎ (have ≡ csv_header d cfg.percentiles cfg.output_unit cfg.subtract_overhead)))

pub record Accepts {P : Type 0} (d : Percentiles P) (have : List ℕ) (cfg : Config P) : Type 0 where
  pub queue : IsCapacity cfg.queue_capacity
  pub rings : 0 < cfg.max_thread_rings → IsCapacity cfg.thread_ring_capacity
  pub few : cfg.max_thread_rings ≤ max_rings
  pub bytes : cfg.max_thread_rings * cfg.thread_ring_capacity * 16 ≤ max_ring_bytes
  pub named :
      is_local cfg.run_mode ≡ false
      → (is_empty cfg.shm_name ≡ false) × (length cfg.shm_name ≤ shm_name_max)
  pub percentiles : InRange d cfg.percentiles
  pub schema : SchemaAgrees d have cfg

module _ {P : Type 0} (d : Percentiles P) (have : List ℕ) (cfg : Config P) where
  schema_good : validate_csv_schema d have cfg ≡ ok tt → SchemaAgrees d have cfg
  unfolding validate_csv_schema
  schema_good h = elim (Bool-cases (is_empty cfg.path)) [
    | inl a ↦ inl a
    | inr a ↦ elim (Bool-cases (is_producer cfg.run_mode)) [
      | inl b ↦ inr (inl b)
      | inr b ↦ elim (Bool-cases (is_empty have)) [
        | inl c ↦ inr (inr (inl c))
        | inr c ↦
            elim (Bool-cases (
              same_text have
                (csv_header d cfg.percentiles cfg.output_unit cfg.subtract_overhead))) [
                  | inl e ↦ inr (inr (inr (same_text-true have _ e)))
                  | inr e ↦ absurd (ground (arith, h))
                ]
      ]
    ]
  ]

  good_schema : SchemaAgrees d have cfg → validate_csv_schema d have cfg ≡ ok tt
  unfolding validate_csv_schema
  good_schema (inl a) = ground (arith, a)
  good_schema (inr (inl a)) = ground (arith, a)
  good_schema (inr (inr (inl a))) = ground (arith, a)
  good_schema (inr (inr (inr a))) = ground (arith, a, same_text_refl have)

  module _ (word : cfg.thread_ring_capacity < 2 ^ 32) where
    small :
        cfg.max_thread_rings ≤ max_rings
        → cfg.max_thread_rings * cfg.thread_ring_capacity * 16 % 2 ^ 64
          ≡ cfg.max_thread_rings * cfg.thread_ring_capacity * 16
    small few =
        let below : cfg.thread_ring_capacity ≤ 2 ^ 32 = omega (arith, word) in
        let m : cfg.max_thread_rings * cfg.thread_ring_capacity ≤ max_rings * 2 ^ 32 =
          mul-le-mul few below in
        mod-eq_of_lt (omega (arith, m))

    validate-Accepts : validate_config d have cfg ≡ ok tt → Accepts d have cfg
    unfolding validate_config
    validate-Accepts h =
        let (a, h1) = throw_if-ok (bad_capacity cfg.queue_capacity) bad_queue_capacity _ h in
        let (b, h2) =
          throw_if-ok (ltb 0 cfg.max_thread_rings && bad_capacity cfg.thread_ring_capacity)
            bad_ring_capacity _ h1 in
        let (c, h3) = throw_if-ok (ltb max_rings cfg.max_thread_rings) too_many_rings _ h2 in
        let (e, h4) =
          throw_if-ok
            (ltb max_ring_bytes (cfg.max_thread_rings * cfg.thread_ring_capacity * 16 % 2 ^ 64))
            rings_too_large _ h3 in
        let (f, h5) =
          throw_if-ok (not (is_local cfg.run_mode) && is_empty cfg.shm_name) no_shm_name _ h4 in
        let (g, h6) =
          throw_if-ok (not (is_local cfg.run_mode) && ltb shm_name_max (length cfg.shm_name))
            shm_name_too_long _ h5 in
        let (i, j) =
          >>-ok (check_percentiles d cfg.percentiles) (validate_csv_schema d have cfg) h6 in
        let few : cfg.max_thread_rings ≤ max_rings = ground (arith, c) in
        record {
          queue = bad_capacity-IsCapacity cfg.queue_capacity a;
          rings = λ pos. bad_capacity-IsCapacity cfg.thread_ring_capacity (ground (arith, b));
          few = few;
          bytes = let s = small few in ground (arith, e, s);
          named = λ shared. (ground (arith, f, shared), ground (arith, g, shared));
          percentiles = check_percentiles-InRange d cfg.percentiles i;
          schema = schema_good j;
        }

    Accepts-validate : Accepts d have cfg → validate_config d have cfg ≡ ok tt
    unfolding validate_config
    Accepts-validate v =
        let q = IsCapacity-bad_capacity cfg.queue_capacity v.queue in
        let r : (ltb 0 cfg.max_thread_rings && bad_capacity cfg.thread_ring_capacity) ≡ false =
          elim (dec_lt 0 cfg.max_thread_rings) [
            | yes pos ↦
                let g = IsCapacity-bad_capacity cfg.thread_ring_capacity (v.rings pos) in
                ground (arith, g)
            | no none_there ↦ ground (arith, none_there)
          ] in
        let few : ltb max_rings cfg.max_thread_rings ≡ false = ground (arith, v.few) in
        let b : ltb max_ring_bytes (cfg.max_thread_rings * cfg.thread_ring_capacity * 16 % 2 ^ 64)
            ≡ false =
          let s = small v.few in ground (arith, s, v.bytes) in
        let n : (not (is_local cfg.run_mode) && is_empty cfg.shm_name) ≡ false =
          elim (Bool-cases (is_local cfg.run_mode)) [
            | inl l ↦ rw l refl
            | inr l ↦ rw (l, (v.named l).0) refl
          ] in
        let o : (not (is_local cfg.run_mode) && ltb shm_name_max (length cfg.shm_name)) ≡ false =
          elim (Bool-cases (is_local cfg.run_mode)) [
            | inl l ↦ rw l refl
            | inr l ↦ let w = (v.named l).1 in ground (arith, l, w)
          ] in
        rw
          (
            q,
            r,
            few,
            b,
            n,
            o,
            InRange-check_percentiles d cfg.percentiles v.percentiles,
            good_schema v.schema,
          )
          refl

    -- With a ring capacity of 32 bits, a configuration is accepted exactly if both capacities are
    -- powers of two from 2 on (that of the rings, if there are any), there are at most 4096 rings of
    -- at most 2 GiB together, a shared mode has a name of 1 to 249 bytes, every percentile is finite
    -- and within 0 and 100, and the CSV file has no header, this one's header, or is not written.
    pub validate_config_iff : (validate_config d have cfg ≡ ok tt) ↔ Accepts d have cfg
    validate_config_iff = (validate-Accepts, Accepts-validate)
