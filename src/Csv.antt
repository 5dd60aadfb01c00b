-- ===== src/Csv.antt =====
-- The quoting of one CSV field: `write_csv_field` of include/slick/perfmon/collector.hpp, on bytes.
pub mod Reader
mod Tests
use slick_perfmon.Prelude.{ℕ, Bool, true, false, ◌||◌, ◌==◌, if◌then◌else◌, List, [], ◌∷◌, ◌++◌}

abbrev pub comma : ℕ
comma = 44

abbrev pub quote : ℕ
quote = 34

abbrev pub cr : ℕ
cr = 13

abbrev pub lf : ℕ
lf = 10

-- `s.find_first_of(",\"\r\n")` finds something.
pub needs_quotes : List ℕ → Bool
needs_quotes [] = false
needs_quotes (c ∷ s) = (c == comma) || (c == quote) || (c == cr) || (c == lf) || needs_quotes s

-- The loop that doubles the quotes.
pub doubled : List ℕ → List ℕ
doubled [] = []
doubled (c ∷ s) = let rest = doubled s in if c == quote then quote ∷ c ∷ rest else c ∷ rest

-- What is written to the stream.
pub write_csv_field : List ℕ → List ℕ
write_csv_field s = if needs_quotes s then quote ∷ (doubled s ++ (quote ∷ [])) else s
