-- ===== src/Prelude/Text.antt =====
-- Text literals as bytes, and tests on texts.
use Prim.Native.Char.{code}
use Prim.Native.String.{String}
use Prim.Native.Nat.{ℕ}
use mathlib.Core.Bool.{Bool, true, false, ◌&&◌, ◌||◌}
use mathlib.Core.List.{List, [], ◌∷◌}
use mathlib.Core.Path.{◌≡◌, refl}
use native.Mathlib.Omega.{arith}
use slick_perfmon.Prelude.Tests.{◌==◌}

abbrev pub codes : String → List ℕ
codes String.[] = []
codes (String.◌∷◌ c s) = code c ∷ codes s

unfoldable pub same_text : List ℕ → List ℕ → Bool
same_text [] [] = true
same_text [] (d ∷ ds) = false
same_text (c ∷ cs) [] = false
same_text (c ∷ cs) (d ∷ ds) = (c == d) && same_text cs ds

pub same_text-true : (a b : List ℕ) → same_text a b ≡ true → a ≡ b
unfolding same_text
same_text-true [] [] h = refl
same_text-true [] (d ∷ ds) h = absurd (cc)
same_text-true (c ∷ cs) [] h = absurd (cc)
same_text-true (c ∷ cs) (d ∷ ds) h = ground (arith, same_text-true cs ds)

pub same_text_refl : (a : List ℕ) → same_text a a ≡ true
unfolding same_text
same_text_refl [] = refl
same_text_refl (c ∷ cs) = ground (arith, same_text_refl cs)

-- Whether the second text begins with the first, and whether it holds it (`find`).
unfoldable pub starts_with : List ℕ → List ℕ → Bool
starts_with [] ds = true
starts_with (c ∷ cs) [] = false
starts_with (c ∷ cs) (d ∷ ds) = (c == d) && starts_with cs ds

unfoldable pub contains : List ℕ → List ℕ → Bool
unfolding starts_with
contains cs [] = starts_with cs []
contains cs (d ∷ ds) = starts_with cs (d ∷ ds) || contains cs ds

unfoldable pub is_empty : List ℕ → Bool
is_empty [] = true
is_empty (c ∷ cs) = false
