-- ===== src/Csv/Tests.antt =====
-- The quoting at a concrete label.
use slick_perfmon.Prelude.{ℕ, ◌≡◌, refl, some, true, List, [], ◌∷◌, ◌++◌}
use slick_perfmon.Csv.{write_csv_field, comma, quote, needs_quotes, doubled}
use slick_perfmon.Csv.Reader.{read_field, read_field-write_csv_field, ends_field, ends}

-- `a,"`, and what follows it in the row.
abbrev label : List ℕ
label = 97 ∷ comma ∷ quote ∷ []

abbrev after : List ℕ
after = comma ∷ 98 ∷ []

quoting_test : write_csv_field label ≡ quote ∷ 97 ∷ comma ∷ quote ∷ quote ∷ quote ∷ []
unfolding write_csv_field needs_quotes doubled
quoting_test = refl

follows : ends_field after ≡ true
unfolding ends_field ends
follows = refl

read_field-write_csv_field_example :
    read_field (write_csv_field label ++ after) ≡ some (label, after)
read_field-write_csv_field_example = read_field-write_csv_field label after follows
