-- ===== src/ControlBlock/Words.antt =====
-- Arithmetic of a slot's word, and the texts in a slot.
use slick_perfmon.Prelude.{
  ℕ, ◌+◌, ◌*◌, ◌%◌, ◌^◌, ◌<◌, ◌≡◌, ◌≢◌, refl, arith, bit_or, leb, List, [], ◌∷◌, ◌++◌,
}
use slick_perfmon.Prelude.Bits.{and_mask, and_bit, or_fields}
use slick_perfmon.ControlBlock.Names.{is_claimed, key_of, tagged, name_key, c_string}

pub key_of_mod : (w : ℕ) → key_of w ≡ w % 2 ^ 63
unfolding key_of
key_of_mod w = and_mask 63 w

pub is_claimed-leb : (w : ℕ) → w < 2 ^ 64 → is_claimed w ≡ leb (2 ^ 63) w
unfolding is_claimed
is_claimed-leb w h = rw (and_bit 63 w) (ground arith)

pub tagged_sum : (w : ℕ) → w < 2 ^ 63 → tagged w ≡ 2 ^ 63 + w
unfolding tagged
tagged_sum w h = let s : bit_or (1 * 2 ^ 63) w ≡ 1 * 2 ^ 63 + w = or_fields 63 1 w h in s

pub name_key_sum : (p step : ℕ) → p < 2 ^ 32 → step < 2 ^ 8 → name_key p step ≡ p * 256 + step
unfolding name_key
name_key_sum p step hp hs =
    let e : p * 2 ^ 8 % 2 ^ 64 ≡ p * 2 ^ 8 = omega arith in rw e (or_fields 8 p step hs)

-- A text with no zero in it.
abbrev pub Plain : List ℕ → Type 0
Plain [] = Unit
Plain (c ∷ cs) = (c ≢ 0) × Plain cs

pub c_string-append : (nm rest : List ℕ) → Plain nm → c_string (nm ++ (0 ∷ rest)) ≡ nm
unfolding c_string
c_string-append [] rest h = refl
c_string-append (c ∷ cs) rest (nonzero, h) = ground (arith, c_string-append cs rest h)
