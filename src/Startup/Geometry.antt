-- ===== src/Startup/Geometry.antt =====
-- A session that starts has a control block of its configuration's geometry.
use slick_perfmon.Prelude.{
  ℕ, zero, suc, ◌+◌, ◌≡◌, refl, ◌∙◌, arith, ◌==◌, if◌then◌else◌, Bool-cases, inl, inr, Option, none,
  some, Option-cases, List, leb, length,
}
use slick_perfmon.Prelude.Results.{Result, ok, throws, ◌>>=◌, ◌>>◌}
use slick_perfmon.ControlBlock.{
  ControlBlock, name_capacity, BlockError, Segment, invalid, created, existing, initialise,
  validate, await_ready, adopt, create_shared, attach_shared, create_local,
}
use slick_perfmon.ControlBlock.Names.{
  publish_from, publish_one, publish_step, publish_steps, publish_points, publish_names, settle,
  judge, entry_at, word, name_key,
}
use slick_perfmon.Config.{
  Config, ConfigError, Environment, Mode, local, shared_producer, shared_collector, is_local,
  apply_environment, validate_config,
}
use slick_perfmon.Config.Header.{Percentiles}
use slick_perfmon.Startup.{
  Surroundings, StartError, config_result, block_result, open_or_create, open_transport,
  begin_session, start,
}

-- The geometry of a block is the one that is asked for.
abbrev pub Fits : ControlBlock → ℕ → ℕ → Type 0
Fits b max_names rings = (b.max_names ≡ max_names) × (b.ring_count ≡ rings)

validate-Fits : (b : ControlBlock) (m r c : ℕ) → validate b m r c ≡ ok tt → Fits b m r
unfolding validate
validate-Fits b m r c h = ground arith

adopt-Fits :
    (loads : ℕ → ℕ) (b b' : ControlBlock) (m r c : ℕ)
    → adopt loads b m r c ≡ ok (some b')
    → Fits b' m r
unfolding adopt
adopt-Fits loads b b' m r c h = elim (Bool-cases (await_ready loads)) [
  | inr never ↦ absurd (let z = rw never at h in cc)
  | inl found ↦ go (validate b m r c) refl (rw found at h)
]
  where
    go :
        (v : Result BlockError (Unit {0}))
        → validate b m r c ≡ v
        → (v >> ok (some b)) ≡ ok (some b')
        → Fits b' m r
    go (ok u) e k = let same : b ≡ b' = cc in rw (← same) (validate-Fits b m r c e)
    go (throws x) e k = absurd (cc)

create_shared-Fits :
    (g : Segment) (b : ControlBlock) (m r c : ℕ) → create_shared g m r c ≡ ok (some b) → Fits b m r
unfolding create_shared initialise
create_shared-Fits invalid b m r c h = absurd (cc)
create_shared-Fits (created raw) b m r c h =
    let e : initialise raw m r c ≡ b = cc in rw (← e) (refl, refl)
create_shared-Fits (existing loads raw) b m r c h = adopt-Fits loads raw b m r c h

attach_shared-Fits :
    (o : Option ((ℕ → ℕ) × ControlBlock)) (b : ControlBlock) (m r c : ℕ)
    → attach_shared o m r c ≡ ok (some b)
    → Fits b m r
unfolding attach_shared
attach_shared-Fits none b m r c h = absurd (cc)
attach_shared-Fits (some (loads, raw)) b m r c h = adopt-Fits loads raw b m r c h

-- Publishing names keeps the geometry.
abbrev Same : ControlBlock → ControlBlock → Type 0
Same b b' = (b'.max_names ≡ b.max_names) × (b'.ring_count ≡ b.ring_count)

publish_from-Same :
    (n : ℕ) (b : ControlBlock) (i want : ℕ) (nm : List ℕ) → Same b (publish_from n b i want nm).0
unfolding publish_from
publish_from-Same zero b i want nm = (refl, refl)
publish_from-Same (suc n) b i want nm =
    elim (Option-cases (judge (entry_at b i) (settle want (word b i)) want nm)) [
      | inr (result, e) ↦ rw (publish_from, e) (refl, refl)
      | inl e ↦ elim (Bool-cases (settle want (word b i) == 0)) [
        | inl free ↦ rw (publish_from, e, free) (refl, refl)
        | inr taken ↦ rw (publish_from, e, taken) (publish_from-Same n b (i + 1) want nm)
      ]
    ]

publish_step-Same : (b : ControlBlock) (p s : ℕ) (nm : List ℕ) → Same b (publish_step b p s nm).0
unfolding publish_step publish_one
publish_step-Same b p s nm = elim (Bool-cases (length nm == 0)) [
  | inl nothing ↦ rw nothing (refl, refl)
  | inr something ↦ elim (Bool-cases (leb name_capacity (length nm))) [
    | inl long ↦ rw (something, long) (refl, refl)
    | inr short ↦ rw (something, short) (publish_from-Same b.max_names b 0 (name_key p s + 1) nm)
  ]
]

publish_steps-Same :
    (n : ℕ) (b : ControlBlock) (p s : ℕ) (fn : ℕ → ℕ → List ℕ) → Same b (publish_steps n b p s fn).0
unfolding publish_steps
publish_steps-Same zero b p s fn = (refl, refl)
publish_steps-Same (suc n) b p s fn =
    let (a, c) = publish_step-Same b p s (fn p s) in
    let (x, y) = publish_steps-Same n (publish_step b p s (fn p s)).0 p (s + 1) fn in (x ∙ a, y ∙ c)

publish_points-Same :
    (n : ℕ) (b : ControlBlock) (p : ℕ) (fn : ℕ → ℕ → List ℕ) → Same b (publish_points n b p fn).0
unfolding publish_points
publish_points-Same zero b p fn = (refl, refl)
publish_points-Same (suc n) b p fn =
    let (a, c) = publish_steps-Same 256 b p 0 fn in
    let (x, y) = publish_points-Same n (publish_steps 256 b p 0 fn).0 (p + 1) fn in (x ∙ a, y ∙ c)

module _ {P : Type 0} (w : Surroundings) (cfg : Config P) where
  block_ok :
      (x : Result BlockError (Option ControlBlock)) (b : ControlBlock)
      → block_result x ≡ ok (some b)
      → x ≡ ok (some b)
  block_ok (ok o) b h = cc
  block_ok (throws e) b h = absurd (cc)

  open_or_create-Fits :
      (b : ControlBlock)
      → open_or_create w cfg ≡ ok (some b)
      → Fits b cfg.max_names cfg.max_thread_rings
  unfolding open_or_create
  open_or_create-Fits b h = elim (Bool-cases w.ring_opens) [
    | inr shut ↦ absurd (let z = rw shut at h in cc)
    | inl opens ↦ create_shared-Fits w.segment b _ _ _ (block_ok _ b (rw opens at h))
  ]

  -- The rings of a local session are not in its block.
  abbrev pub rings_in_block : ℕ
  rings_in_block = if is_local cfg.run_mode then 0 else cfg.max_thread_rings

  open_transport-Fits :
      (b : ControlBlock) → open_transport w cfg ≡ ok (some b) → Fits b cfg.max_names rings_in_block
  unfolding open_transport create_local initialise open_or_create
  open_transport-Fits b h = go cfg.run_mode refl
    where
      go :
          (m : Mode)
          → cfg.run_mode ≡ m
          → Fits b cfg.max_names (if is_local cfg.run_mode then 0 else cfg.max_thread_rings)
      go local e = elim (Bool-cases w.ring_opens) [
        | inl opens ↦
            let k = rw (e, opens) at h in
            let same : create_local w.heap cfg.max_names ≡ b = cc in rw (e, ← same) (refl, refl)
        | inr shut ↦ absurd (let k = rw (e, shut) at h in cc)
      ]
      go shared_collector e = let k = rw e at h in rw e (open_or_create-Fits b k)
      go shared_producer e = elim (Bool-cases cfg.create_if_absent) [
        | inl make ↦ let k = rw (e, make) at h in rw e (open_or_create-Fits b k)
        | inr only ↦ elim (Bool-cases w.ring_is_there) [
          | inl there ↦
              let k = rw (e, only, there) at h in
              rw e (attach_shared-Fits w.existing b _ _ _ (block_ok _ b k))
          | inr gone ↦ absurd (let k = rw (e, only, gone) at h in cc)
        ]
      ]

  begin_session-Fits :
      (o : Option ControlBlock) (b : ControlBlock) (n : ℕ)
      → open_transport w cfg ≡ ok o
      → begin_session cfg o ≡ some (b, n)
      → Fits b cfg.max_names rings_in_block
  unfolding begin_session publish_names
  begin_session-Fits none b n opened h = absurd (cc)
  begin_session-Fits (some raw) b n opened h = elim (Option-cases cfg.name_of) [
    | inl e ↦
        let k = rw e at h in let same : raw ≡ b = cc in rw (← same) (open_transport-Fits raw opened)
    | inr (fn, e) ↦
        let k = rw e at h in
        let same : (publish_points cfg.point_count raw 0 fn).0 ≡ b = cc in
        let (x, y) = publish_points-Same cfg.point_count raw 0 fn in
        let (p, q) = open_transport-Fits raw opened in rw (← same) (x ∙ p, y ∙ q)
  ]

-- A start that ends with a running session, from a configuration that the environment has made into
-- `made`: that configuration is valid, and the session's control block, names published, has its
-- max_names and, in the shared modes, its max_thread_rings; a local session's block has no rings.
pub start-Fits :
    {P : Type 0} (d : Percentiles P) (have : List ℕ) (env : Environment) (w : Surroundings)
    (cfg made : Config P) (b : ControlBlock) (n : ℕ)
    → apply_environment env cfg ≡ some made
    → start d have env w cfg ≡ ok (some (b, n))
    → (validate_config d have made ≡ ok tt)
      × (b.max_names ≡ made.max_names)
      × (b.ring_count ≡ rings_in_block w made)
unfolding start
start-Fits {P} d have env w cfg made b n applied h =
    go (validate_config d have made) (open_transport w made) refl refl (rw (start, applied) at h)
  where
    go :
        (v : Result ConfigError (Unit {0})) (o : Result StartError (Option ControlBlock))
        → validate_config d have made ≡ v
        → open_transport w made ≡ o
        → (config_result v >>= λ _. o >>= λ opened. ok (begin_session made opened))
          ≡ ok (some (b, n))
        → (validate_config d have made ≡ ok tt)
          × (b.max_names ≡ made.max_names)
          × (b.ring_count ≡ rings_in_block w made)
    go (throws e) o valid opened k = absurd (cc)
    go (ok u) (throws e) valid opened k = absurd (cc)
    go (ok u) (ok opened') valid opened k =
        let same : begin_session made opened' ≡ some (b, n) = cc in
        let (x, y) = begin_session-Fits w made opened' b n opened same in (valid, x, y)
