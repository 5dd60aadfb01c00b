-- ===== src/ControlBlock/Opening.antt =====
-- What a process that finds a control block makes of it.
use slick_perfmon.Prelude.{
  ℕ, zero, suc, ◌+◌, ◌≤◌, ◌<◌, ◌≡◌, refl, arith, true, not, ◌&&◌, ◌||◌, ltb, ◌==◌, if◌then◌else◌,
  Bool-cases, inl, inr, some,
}
use slick_perfmon.Prelude.Results.{ok, throws}
use slick_perfmon.ControlBlock.{
  ControlBlock, ready, await_from, await_ready, max_names_mismatch, rings_mismatch, validate,
  initialise, adopt, attach_shared,
}

await_from_finds :
    (n : ℕ) (loads : ℕ → ℕ) (i t : ℕ)
    → i ≤ t
    → t < i + n
    → loads t ≡ ready
    → await_from n loads i ≡ true
unfolding await_from
await_from_finds zero loads i t from below h = absurd (omega arith)
await_from_finds (suc n) loads i t from below h = elim (Bool-cases (loads i == ready)) [
  | inl now ↦ rw now refl
  | inr later ↦
      let past : i + 1 ≤ t = ground (arith, h) in
      rw later (await_from_finds n loads (i + 1) t past (omega arith) h)
]

validate-initialise :
    (b : ControlBlock) (max_names rings capacity max_names' rings' capacity' : ℕ)
    → validate (initialise b max_names rings capacity) max_names' rings' capacity' ≡ (
        if max_names == max_names'
        then (if (rings == rings') && (not (ltb 0 rings') || (capacity == capacity'))
            then ok tt
            else throws rings_mismatch)
        else throws max_names_mismatch)
unfolding validate initialise
validate-initialise b max_names rings capacity max_names' rings' capacity' = ground arith

-- A process that attaches to a block that another has initialised, and that finds it ready in one of
-- its 10000 loads, has it if both agree on max_names, on the number of rings and, where there are
-- rings, on their capacity; otherwise it throws the mismatch of max_names, or else that of the rings.
pub attach_shared-initialise :
    (b : ControlBlock) (max_names rings capacity max_names' rings' capacity' : ℕ) (loads : ℕ → ℕ)
    (t : ℕ)
    → t < 10000
    → loads t ≡ ready
    → attach_shared
        (some (loads, initialise b max_names rings capacity))
        max_names'
        rings'
        capacity'
      ≡ (if max_names == max_names'
          then (if (rings == rings') && (not (ltb 0 rings') || (capacity == capacity'))
              then ok (some (initialise b max_names rings capacity))
              else throws rings_mismatch)
          else throws max_names_mismatch)
unfolding attach_shared adopt await_ready
attach_shared-initialise b max_names rings capacity max_names' rings' capacity' loads t early h =
    let found = await_from_finds 10000 loads 0 t (omega arith) (omega arith) h in
    rw (found, validate-initialise b max_names rings capacity max_names' rings' capacity')
      (ground arith)
