-- ===== src/Accumulator/Tests.antt =====
-- The theorems on the accumulator at concrete samples, with numbers in the place of the doubles.
use slick_perfmon.Prelude.{ℕ, ◌+◌, ◌-◌, ◌*◌, ◌/◌, arith, ltb, [], ◌∷◌, ◌++◌}
use slick_perfmon.Accumulator.{Doubles, Accumulator, fresh, add, clear, merge_into}
use slick_perfmon.Accumulator.Samples.{
  Summarises, fresh-Summarises, add-Summarises, clear-Summarises, merge_into-Summarises,
}

instance ℕ-Doubles : Doubles ℕ
ℕ-Doubles = record {
  of_u64 = λ n. n;
  plus = λ a b. a + b;
  minus = λ a b. a - b;
  times = λ a b. a * b;
  over = λ a b. a / b;
  sqrt = λ a. a;
  less = ltb;
}

abbrev two : Accumulator ℕ
two = add (add fresh 100) 300

one-Summarises : Summarises (100 ∷ []) (add (fresh {F = ℕ}) 100)
one-Summarises = add-Summarises [] fresh 100 fresh-Summarises (omega arith) (omega arith)

add-Summarises_example : Summarises (300 ∷ 100 ∷ []) two
add-Summarises_example =
    add-Summarises (100 ∷ []) (add fresh 100) 300 one-Summarises (omega arith) (omega arith)

two-Summarises : Summarises (300 ∷ 100 ∷ []) two
two-Summarises =
    add-Summarises (100 ∷ []) (add fresh 100) 300 one-Summarises (omega arith) (omega arith)

clear-Summarises_run : Summarises [] (clear two)
clear-Summarises_run = clear-Summarises (300 ∷ 100 ∷ []) two two-Summarises

merge_into-Summarises_example :
    Summarises ((100 ∷ []) ++ (300 ∷ 100 ∷ [])) (merge_into (add fresh 100) two)
merge_into-Summarises_example =
    merge_into-Summarises (100 ∷ []) (300 ∷ 100 ∷ []) (add fresh 100) two one-Summarises
      two-Summarises (omega arith)
