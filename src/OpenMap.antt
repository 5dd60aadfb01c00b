-- ===== src/OpenMap.antt =====
-- The fixed-capacity hash map with linear probing and backward-shift deletion:
-- include/slick/perfmon/detail/open_map.hpp. The three vectors `keys_`, `used_` and `vals_`, which
-- the class indexes together, are one vector of cells; a pointer to a value is its index.
pub mod Cyclic
pub mod Cells
pub mod Probing
pub mod Placed
pub mod Shifting
pub mod Valid
pub mod Insert
pub mod Full
pub mod Erase
pub mod Store
pub mod Pow2
pub mod Reset
pub mod Sweep
pub mod Visit
pub mod Every
mod Tests
use slick_perfmon.Prelude.{
  ℕ, zero, suc, ◌+◌, ◌-◌, ◌*◌, ◌/◌, ◌%◌, ◌^◌, bit_and, bit_or, bit_xor, Bool, true, false, ◌&&◌,
  ltb, leb, ◌==◌, if◌then◌else◌, Option, none, some, List, [], ◌∷◌, length, get_or, set, replicate,
}

-- The splitmix64 finalizer, in 64 bits.
pub mix64 : ℕ → ℕ
mix64 x =
    let a = (x + 0x9e37_79b9_7f4a_7c15) % 2 ^ 64 in
    let b = bit_xor a (a / 2 ^ 30) * 0xbf58_476d_1ce4_e5b9 % 2 ^ 64 in
    let c = bit_xor b (b / 2 ^ 27) * 0x94d0_49bb_1331_11eb % 2 ^ 64 in bit_xor c (c / 2 ^ 31)

-- `v |= v >> s`.
unfoldable pub smear : ℕ → ℕ → ℕ
smear s v = bit_or v (v / 2 ^ s)

pub next_pow2 : ℕ → ℕ
next_pow2 v =
    if ltb v 2
    then 2
    else (smear 32 (smear 16 (smear 8 (smear 4 (smear 2 (smear 1 (v - 1)))))) + 1) % 2 ^ 64

-- One index of the three vectors.

pub record Cell {ℓ} (V : Type ℓ) : Type ℓ where
  pub used : Bool
  pub key : ℕ
  pub val : V

-- `V{}`.
pub record Default {ℓ} (V : Type ℓ) : Type ℓ where
  pub fresh : V

pub record OpenMap {ℓ} (V : Type ℓ) : Type ℓ where
  pub cells : List (Cell V)
  pub mask : ℕ
  pub size : ℕ
  pub max_entries : ℕ

-- `home`, `(i + 1) & mask_` and `dist`; the subtraction wraps.
pub home : ℕ → ℕ → ℕ
home mask key = bit_and (mix64 key) mask

pub next : ℕ → ℕ → ℕ
next mask i = bit_and (i + 1) mask

pub dist : ℕ → ℕ → ℕ → ℕ
dist mask a b = bit_and ((b + 2 ^ 64 - a) % 2 ^ 64) mask

-- How the probe loop ends: at the key, or at an unused slot. `endless`: the rounds given ran out.
pub data Probe : Type 0 where
  hit : ℕ → Probe
  hole : ℕ → Probe
  endless : Probe

module _ {ℓ} {V : Type ℓ} ⦃d : Default V⦄ where
  abbrev pub blank : Cell V
  blank = record { used = false; key = 0; val = d.fresh }

  pub at : List (Cell V) → ℕ → Cell V
  at cells i = get_or cells i blank

  -- `reset`: the vectors have a length that is a power of two, at least twice `max_entries_`.
  pub reset : ℕ → OpenMap V
  reset n =
      let entries : ℕ = if n == 0 then 1 else n in
      let cap : ℕ = next_pow2 (entries * 2) in
      record { cells = replicate cap blank; mask = cap - 1; size = 0; max_entries = entries }

  pub full : OpenMap V → Bool
  full m = leb m.max_entries m.size

  -- `while (used_[i]) { if (keys_[i] == key) …; i = (i + 1) & mask_; }`
  pub probe : ℕ → List (Cell V) → ℕ → ℕ → ℕ → Probe
  probe zero cells mask k i = endless
  probe (suc n) cells mask k i =
      let rest = probe n cells mask k (next mask i) in
      if (at cells i).used then if (at cells i).key == k then hit i else rest else hole i

  -- The loop from the home slot. A round for each slot is enough: `probe_total`.
  pub locate : OpenMap V → ℕ → Probe
  locate m k = probe (length m.cells) m.cells m.mask k (home m.mask k)

  -- The pointer that `find` returns. A table of no slots has no rounds.
  pub find : OpenMap V → ℕ → Option ℕ
  find m k = elim (locate m k) [ hit i ↦ some i | hole i ↦ none | endless ↦ none ]

  -- `*p` and `*p = v` for a pointer `p` into the map.
  pub load : OpenMap V → ℕ → V
  load m i = (at m.cells i).val

  pub store : OpenMap V → ℕ → V → OpenMap V
  store m i v = record m { cells = set m.cells i (record (at m.cells i) { val = v }) }

  pub insert : OpenMap V → ℕ → V → Option ℕ × OpenMap V
  insert m k v = elim (locate m k) [
    | hit i ↦ (some i, m)
    | hole i ↦ if full m then (none, m) else (
      some i,
      record m {
        cells = set m.cells i (record { used = true; key = k; val = v });
        size = m.size + 1;
      },
    )
    | endless ↦ (none, m)
  ]

  -- The two loops of `erase_at` as one: `i` is the hole, `j` the last slot looked at.
  pub shift : ℕ → List (Cell V) → ℕ → ℕ → ℕ → List (Cell V)
  shift zero cells mask i j = cells
  shift (suc n) cells mask i j =
      let k = next mask j in
      let c = at cells k in
      let moved = shift n (set (set cells i c) k (record c { used = false })) mask k k in
      let passed = shift n cells mask i k in
      if c.used
      then if leb (dist mask (home mask c.key) i) (dist mask (home mask c.key) k)
        then moved
        else passed
      else cells

  pub erase_at : List (Cell V) → ℕ → ℕ → List (Cell V)
  erase_at cells mask i =
      shift (length cells) (set cells i (record (at cells i) { used = false })) mask i i

  -- `erase_at(i); --size_;`
  pub drop_at : OpenMap V → ℕ → OpenMap V
  drop_at m i = record m { cells = erase_at m.cells m.mask i; size = m.size - 1 }

  pub erase : OpenMap V → ℕ → Bool × OpenMap V
  erase m k = elim (locate m k) [
    | hit i ↦ (true, drop_at m i)
    | hole i ↦ (false, m)
    | endless ↦ (false, m)
  ]

  -- `clear`: every flag is reset, and the allocation kept.
  unused_all : List (Cell V) → List (Cell V)
  unused_all [] = []
  unused_all (c ∷ cs) = record c { used = false } ∷ unused_all cs

  pub clear : OpenMap V → OpenMap V
  unfolding unused_all
  clear m = record m { cells = unused_all m.cells; size = 0 }

  module _ {κ} {S : Type κ} where
    -- `fn(key, V&)` on every live cell in order; `fn` may write the value and the state `S`.
    each : (ℕ → V → S → V × S) → List (Cell V) → S → List (Cell V) × S
    each fn [] s = ([], s)
    each fn (c ∷ cs) s =
        let (v, s') = if c.used then fn c.key c.val s else (c.val, s) in
        let (rest, t) = each fn cs s' in (record c { val = v } ∷ rest, t)

    pub for_each : (ℕ → V → S → V × S) → OpenMap V → S → OpenMap V × S
    unfolding each
    for_each fn m s = let (cs, t) = each fn m.cells s in (record m { cells = cs }, t)

    -- The scan of `erase_if`, from slot `i`: an erased slot is tested again. `pred` acts on the
    -- state, by `act`, only where it is true.
    pub scan : ℕ → (ℕ → V → Bool) → (ℕ → V → S → S) → OpenMap V → ℕ → ℕ → S → ℕ × OpenMap V × S
    scan zero pred act m removed i s = (removed, m, s)
    scan (suc n) pred act m removed i s =
        let c = at m.cells i in
        let again = scan n pred act (drop_at m i) (removed + 1) i (act c.key c.val s) in
        let on = scan n pred act m removed (i + 1) s in
        if leb i m.mask then if c.used && pred c.key c.val then again else on else (removed, m, s)

    -- A table of no slots is left alone. Twice as many rounds as slots are enough: each round
    -- erases an entry or moves on.
    pub erase_if : (ℕ → V → Bool) → (ℕ → V → S → S) → OpenMap V → S → ℕ × OpenMap V × S
    erase_if pred act m s =
        if length m.cells == 0
        then (0, m, s)
        else scan (length m.cells + length m.cells) pred act m 0 0 s
