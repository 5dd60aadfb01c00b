-- ===== src/OpenMap/Cyclic.antt =====
-- Slots in cyclic order. The code reaches the next slot, and the distance of two, by a mask; on a
-- capacity that is a power of two these are a step and a gap that go round at the capacity.
use native.Mathlib.Nat.{
  add-mul-mod_self_right, mod-eq_of_lt, mod-lt, mod_self, pow-succ', one-le-pow,
}
use native.Mathlib.Decide.{dec_le, ℕ_discrete}
use slick_perfmon.Prelude.{
  ℕ, zero, suc, ◌+◌, ◌-◌, ◌*◌, ◌%◌, ◌^◌, ◌≤◌, ◌<◌, ◌≡◌, arith, ◌==◌, leb, if◌then◌else◌,
}
use slick_perfmon.Prelude.Bits.{and_mask}
use slick_perfmon.OpenMap.{home, next, dist, mix64}

module _ (cap : ℕ) where
  pub step : ℕ → ℕ
  step i = if (i + 1) == cap then 0 else i + 1

  pub gap : ℕ → ℕ → ℕ
  gap a b = if leb a b then b - a else b + cap - a

  pub gap_self : (a : ℕ) → gap a a ≡ 0
  unfolding gap
  gap_self a = ground arith

  pub step-lt : (i : ℕ) → i < cap → step i < cap
  unfolding step
  step-lt i h = ground arith

  pub gap-lt : (a b : ℕ) → a < cap → b < cap → gap a b < cap
  unfolding gap
  gap-lt a b ha hb = ground arith

  pub gap_inj : (a b c : ℕ) → a < cap → b < cap → c < cap → gap a b ≡ gap a c → b ≡ c
  unfolding gap
  gap_inj a b c ha hb hc e = ground arith

  -- A step towards a slot further on is one more.
  pub gap-step :
      (a b f : ℕ) → a < cap → b < cap → f < cap → gap a b < gap a f → gap a (step b) ≡ gap a b + 1
  unfolding gap step
  gap-step a b f ha hb hf h = ground arith

  -- A slot between `i` and `p` lies between `k` and `p` where `i` does.
  pub gap_between :
      (k i p x : ℕ)
      → k < cap
      → i < cap
      → p < cap
      → x < cap
      → gap k i < gap k p
      → gap i x < gap i p
      → gap k x < gap k p
  unfolding gap
  gap_between k i p x hk hi hp hx h g = ground arith

  -- Seen from further back, the order of two slots past `i` is the same.
  pub gap_shift :
      (a i x y : ℕ)
      → a < cap
      → i < cap
      → x < cap
      → y < cap
      → gap a i ≤ gap a x
      → gap a x < gap a y
      → gap i x < gap i y
  unfolding gap
  gap_shift a i x y ha hi hx hy h g = ground arith

  -- A slot before `i` is further round than every slot from `i` on.
  pub gap_behind : (i q p : ℕ) → i < cap → q < i → p < cap → gap i q ≤ gap i p → p < i
  unfolding gap
  gap_behind i q p hi hq hp h = ground arith

pow_split : (k n : ℕ) → k ≤ n → (c : ℕ) × (2 ^ n ≡ c * 2 ^ k)
pow_split k zero h = let e : k ≡ 0 = omega arith in (1, rw e)
pow_split k (suc n) h = elim (dec_le k n) [
  | yes le ↦ let (c, e) = pow_split k n le in (2 * c, rw (pow-succ' 2 n, e) (omega arith))
  | no gt ↦ let e : k ≡ suc n = omega arith in (1, rw e (omega arith))
]

-- `-` on the machine word wraps, and the mask then takes the multiple of the capacity away.
mod_cyclic_below :
    (bits c a b : ℕ)
    → 2 ^ 64 ≡ c * 2 ^ bits
    → a < 2 ^ bits
    → b < 2 ^ bits
    → (b + 2 ^ 64 - a) % 2 ^ 64 % 2 ^ bits ≡ gap (2 ^ bits) a b
unfolding gap
mod_cyclic_below bits zero a b e ha hb = absurd (omega arith)
mod_cyclic_below bits (suc c) a b e ha hb = elim (dec_le a b) [
  | yes le ↦
      let up : (b + 2 ^ 64 - a) % 2 ^ 64 ≡ b - a = omega arith in
      rw (up, mod-eq_of_lt {n = b - a} {m = 2 ^ bits} (omega arith)) (ground arith)
  | no gt ↦
      let split : (b + 2 ^ 64 - a) % 2 ^ 64 ≡ b + 2 ^ bits - a + c * 2 ^ bits = omega arith in
      rw
        (
          split,
          add-mul-mod_self_right,
          mod-eq_of_lt {n = b + 2 ^ bits - a} {m = 2 ^ bits} (omega arith),
        )
        (ground arith)
]

mod_cyclic :
    (bits a b : ℕ)
    → bits ≤ 64
    → a < 2 ^ bits
    → b < 2 ^ bits
    → (b + 2 ^ 64 - a) % 2 ^ 64 % 2 ^ bits ≡ gap (2 ^ bits) a b
mod_cyclic bits a b h ha hb =
    let (c, e) = pow_split bits 64 h in mod_cyclic_below bits c a b e ha hb

mod_next : (cap i : ℕ) → i < cap → (i + 1) % cap ≡ step cap i
unfolding step
mod_next cap i h = elim (ℕ_discrete (i + 1) cap) [
  | yes e ↦ rw (e, mod_self) (ground arith)
  | no ne ↦ rw (mod-eq_of_lt {n = i + 1} {m = cap} (omega arith)) (ground arith)
]

-- What the mask of a table of `cap` slots does.
pub record IsMask (mask cap : ℕ) : Type 0 where
  pub pos : 0 < cap
  pub ones : mask + 1 ≡ cap
  pub next_eq : (i : ℕ) → i < cap → next mask i ≡ step cap i
  pub dist_eq : (a b : ℕ) → a < cap → b < cap → dist mask a b ≡ gap cap a b
  pub home_lt : (k : ℕ) → home mask k < cap

pub pow2-IsMask : (bits : ℕ) → bits ≤ 64 → IsMask (2 ^ bits - 1) (2 ^ bits)
unfolding home next dist step gap
pow2-IsMask bits h = record {
  pos = one-le-pow bits 2 (omega arith);
  ones = omega (arith, one-le-pow bits 2 (omega arith));
  next_eq = λ i lt. rw (and_mask bits (i + 1)) (mod_next (2 ^ bits) i lt);
  dist_eq =
      λ a b ha hb. rw (and_mask bits ((b + 2 ^ 64 - a) % 2 ^ 64)) (mod_cyclic bits a b h ha hb);
  home_lt = λ k. rw (and_mask bits (mix64 k)) (mod-lt (mix64 k) (one-le-pow bits 2 (omega arith)));
}
