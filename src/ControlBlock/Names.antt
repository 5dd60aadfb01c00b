-- ===== src/ControlBlock/Names.antt =====
-- The table of names in a control block: `publish_one`, `publish_names`, `lookup` and
-- `claimed_names` of control_block.hpp.
use slick_perfmon.Prelude.{
  ℕ, zero, suc, ◌+◌, ◌*◌, ◌%◌, ◌^◌, bit_and, bit_or, Bool, true, false, not, ◌&&◌, ◌||◌, leb, ◌==◌,
  if◌then◌else◌, Option, none, some, List, [], ◌∷◌, ◌++◌, length, get_or, set, drop,
}
use slick_perfmon.Prelude.Text.{same_text}
use slick_perfmon.ControlBlock.{ControlBlock, NameEntry, no_entry, name_capacity}

abbrev pub claim_bit : ℕ
claim_bit = 0x8000000000000000

unfoldable pub is_claimed : ℕ → Bool
is_claimed slot = not (bit_and slot claim_bit == 0)

unfoldable pub key_of : ℕ → ℕ
key_of slot = bit_and slot 0x7FFFFFFFFFFFFFFF

unfoldable pub name_key : ℕ → ℕ → ℕ
name_key p step = bit_or (p * 2 ^ 8 % 2 ^ 64) step

-- `want | kClaimBit`.
unfoldable pub tagged : ℕ → ℕ
tagged want = bit_or claim_bit want

-- A text as `std::string_view` reads it from an array.
unfoldable pub c_string : List ℕ → List ℕ
c_string [] = []
c_string (c ∷ cs) = if c == 0 then [] else c ∷ c_string cs

abbrev pub entry_at : ControlBlock → ℕ → NameEntry
entry_at b i = get_or b.names i no_entry

abbrev pub word : ControlBlock → ℕ → ℕ
word b i = (entry_at b i).key_plus_one

-- The four writes of a publication: the exchange, the name with its zero, the key, the generation.
abbrev pub write_word : ControlBlock → ℕ → ℕ → ControlBlock
write_word b i w = record b { names = set b.names i (record (entry_at b i) { key_plus_one = w }) }

abbrev pub write_name : ControlBlock → ℕ → List ℕ → ControlBlock
write_name b i nm = record b {
  names =
      set b.names i
        (record (entry_at b i) { name = nm ++ (0 ∷ drop (length nm + 1) (entry_at b i).name) });
}

abbrev pub bump : ControlBlock → ControlBlock
bump b = record b { name_generation = (b.name_generation + 1) % 2 ^ 64 }

-- `await_claim`, where `loads t` is what load number t finds in the slot.
unfoldable pub await_claim : ℕ → (ℕ → ℕ) → ℕ → ℕ
await_claim zero loads t = loads t
await_claim (suc n) loads t =
    let rest = await_claim n loads (t + 1) in if is_claimed (loads t) then rest else loads t

-- What `publish_one` makes of the word of a slot, where no other process writes meanwhile: the wait
-- for a claim on its own key, and the result if the slot has that key.
unfoldable pub settle : ℕ → ℕ → ℕ
settle want cur =
    if is_claimed cur && (key_of cur == want) then await_claim 1000 (λ t. cur) 0 else cur

unfoldable pub judge : NameEntry → ℕ → ℕ → List ℕ → Option Bool
judge e cur want nm =
    if key_of cur == want
    then (if is_claimed cur then some false else some (same_text (c_string e.name) nm))
    else none

unfoldable pub publish_from : ℕ → ControlBlock → ℕ → ℕ → List ℕ → ControlBlock × Bool
publish_from zero b i want nm = (b, false)
publish_from (suc n) b i want nm =
    let next = publish_from n b (i + 1) want nm in
    let cur : ℕ = settle want (word b i) in
    elim (judge (entry_at b i) cur want nm) [
      | some result ↦ (b, result)
      | none ↦
          if not (cur == 0)
          then next
          else (bump (write_word (write_name (write_word b i (tagged want)) i nm) i want), true)
    ]

-- `publish_one`. The exchange finds the word that was loaded, so the branch of the lost race, which
-- `ControlBlock.Publishers` has, is not entered.
unfoldable pub publish_one : ControlBlock → ℕ → List ℕ → ControlBlock × Bool
unfolding publish_from
publish_one b key nm = publish_from b.max_names b 0 (key + 1) nm

-- The two loops of `publish_names`: the rounds left, the point and the step.
unfoldable pub publish_step : ControlBlock → ℕ → ℕ → List ℕ → ControlBlock × ℕ
unfolding publish_one
publish_step b p s nm =
    if length nm == 0
    then (b, 0)
    else if leb name_capacity (length nm)
    then (b, 1)
    else (let (b', agreed) = publish_one b (name_key p s) nm in (b', if agreed then 0 else 1))

unfoldable pub publish_steps : ℕ → ControlBlock → ℕ → ℕ → (ℕ → ℕ → List ℕ) → ControlBlock × ℕ
unfolding publish_step
publish_steps zero b p s fn = (b, 0)
publish_steps (suc n) b p s fn =
    let (b', c) = publish_step b p s (fn p s) in
    let (b'', d) = publish_steps n b' p (s + 1) fn in (b'', (c + d) % 2 ^ 32)

unfoldable pub publish_points : ℕ → ControlBlock → ℕ → (ℕ → ℕ → List ℕ) → ControlBlock × ℕ
unfolding publish_steps
publish_points zero b p fn = (b, 0)
publish_points (suc n) b p fn =
    let (b', c) = publish_steps 256 b p 0 fn in
    let (b'', d) = publish_points n b' (p + 1) fn in (b'', (c + d) % 2 ^ 32)

-- `publish_names`; no block, or no function, is none.
unfoldable pub publish_names :
    Option ControlBlock → ℕ → Option (ℕ → ℕ → List ℕ) → Option ControlBlock × ℕ
publish_names none point_count fn = (none, 0)
publish_names (some b) point_count none = (some b, 0)
publish_names (some b) point_count (some fn) =
    let (b', conflicts) = publish_points point_count b 0 fn in (some b', conflicts)

unfoldable pub lookup_from : ℕ → ControlBlock → ℕ → ℕ → List ℕ
lookup_from zero b i want = []
lookup_from (suc n) b i want =
    let next = lookup_from n b (i + 1) want in
    let k : ℕ = word b i in
    if (k == 0) || is_claimed k
    then next
    else (if k == want then c_string (entry_at b i).name else next)

-- `lookup`; the empty text where the name is not there.
unfoldable pub lookup : Option ControlBlock → ℕ → ℕ → List ℕ
unfolding lookup_from
lookup none p step = []
lookup (some b) p step = lookup_from b.max_names b 0 (name_key p step + 1)

unfoldable pub claimed_from : ℕ → ControlBlock → ℕ → ℕ
claimed_from zero b n = n
claimed_from (suc k) b n = let rest = claimed_from k b (n + 1) in if word b n == 0 then n else rest

pub claimed_names : Option ControlBlock → ℕ
claimed_names none = 0
claimed_names (some b) = claimed_from b.max_names b 0

pub name_generation : Option ControlBlock → ℕ
name_generation none = 0
name_generation (some b) = b.name_generation

-- `publish_calibration`, where `milli` is `hz * 1000.0` as an integer.
pub publish_calibration : Option ControlBlock → ℕ → Bool → Option ControlBlock
publish_calibration none milli invariant = none
publish_calibration (some b) milli invariant =
    some (record b { tsc_hz_milli = milli; invariant_tsc = if invariant then 1 else 0 })
