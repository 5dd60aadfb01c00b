-- ===== src/Csv/Reader.antt =====
-- A reader of RFC 4180 fields, against which the quoting is right.
use slick_perfmon.Prelude.{
  ℕ, ◌≡◌, refl, ap, ◌∙◌, arith, Bool, true, false, ◌||◌, ◌==◌, ==_iff, if◌then◌else◌, Bool-cases,
  inl, inr, Option, none, some, List, [], ◌∷◌, ◌++◌,
}
use slick_perfmon.Csv.{comma, quote, cr, lf, needs_quotes, doubled, write_csv_field}

-- The bytes that end a field.
unfoldable pub ends : ℕ → Bool
ends c = (c == comma) || (c == cr) || (c == lf)

-- The text after a field ends it: there is none, or a comma or a line break follows.
unfoldable pub ends_field : List ℕ → Bool
ends_field [] = true
ends_field (c ∷ s) = ends c

abbrev push : ℕ → Option (List ℕ × List ℕ) → Option (List ℕ × List ℕ)
push c none = none
push c (some (a, b)) = some (c ∷ a, b)

-- A field without quotes, and the text after it.
pub plain : List ℕ → Option (List ℕ × List ℕ)
plain [] = some ([], [])
plain (c ∷ s) = let rest = plain s in if ends c then some ([], c ∷ s) else push c rest

-- A field after its opening quote: two quotes stand for one, a single one closes it.
pub quoted : List ℕ → Option (List ℕ × List ℕ)
quoted [] = none
quoted (c ∷ []) = if c == quote then some ([], []) else none
quoted (c ∷ d ∷ t) =
    let inner = push c (quoted t) in
    let on = push c (quoted (d ∷ t)) in
    if c == quote then if d == quote then inner else some ([], d ∷ t) else on

pub read_field : List ℕ → Option (List ℕ × List ℕ)
read_field [] = plain []
read_field (c ∷ s) = if c == quote then quoted s else plain (c ∷ s)

quoted_other : (c : ℕ) (t : List ℕ) → (c == quote) ≡ false → quoted (c ∷ t) ≡ push c (quoted t)
unfolding quoted
quoted_other c [] e = rw e
quoted_other c (d ∷ t) e = rw e

not_quote : (c : ℕ) → ends c ≡ true → (c == quote) ≡ false
unfolding ends
not_quote c h = ground arith

quoted-doubled :
    (s rest : List ℕ)
    → ends_field rest ≡ true
    → quoted (doubled s ++ (quote ∷ rest)) ≡ some (s, rest)
unfolding doubled quoted ends_field
quoted-doubled [] [] h = refl
quoted-doubled [] (d ∷ t) h = rw (not_quote d h)
quoted-doubled (c ∷ s) rest h = elim (Bool-cases (c == quote)) [
  | inl e ↦ let same : c ≡ quote = (==_iff c quote).0 e in rw same (rw (quoted-doubled s rest h))
  | inr e ↦
      rw (e, doubled)
        (quoted_other c (doubled s ++ (quote ∷ rest)) e ∙ rw (quoted-doubled s rest h))
]

plain_ends : (rest : List ℕ) → ends_field rest ≡ true → plain rest ≡ some ([], rest)
unfolding plain ends_field
plain_ends [] h = refl
plain_ends (c ∷ s) h = rw h

safe :
    (c : ℕ) (s : List ℕ)
    → needs_quotes (c ∷ s) ≡ false
    → (ends c ≡ false) × ((c == quote) ≡ false) × (needs_quotes s ≡ false)
unfolding needs_quotes ends
safe c s h = (ground arith, ground arith, ground arith)

plain-append :
    (s rest : List ℕ)
    → needs_quotes s ≡ false
    → ends_field rest ≡ true
    → plain (s ++ rest) ≡ some (s, rest)
unfolding plain
plain-append [] rest clean h = plain_ends rest h
plain-append (c ∷ s) rest clean h =
    let (e, q, clean') = safe c s clean in rw (e, plain-append s rest clean' h)

append_mid : (a : List ℕ) (c : ℕ) (rest : List ℕ) → (a ++ (c ∷ [])) ++ rest ≡ a ++ (c ∷ rest)
append_mid [] c rest = refl
append_mid (x ∷ a) c rest = ap (λ (y : List ℕ). x ∷ y) (append_mid a c rest)

-- A field that is written, and followed by a comma, a line break or nothing, is read back as it
-- was, whatever bytes it has, and the reader stops where the field ends.
pub read_field-write_csv_field :
    (s rest : List ℕ)
    → ends_field rest ≡ true
    → read_field (write_csv_field s ++ rest) ≡ some (s, rest)
unfolding write_csv_field read_field
read_field-write_csv_field s rest h = elim (Bool-cases (needs_quotes s)) [
  | inl e ↦ rw (e, append_mid (doubled s) quote rest) (quoted-doubled s rest h)
  | inr e ↦ rw e (bare s rest e h)
]
  where
    bare :
        (s rest : List ℕ)
        → needs_quotes s ≡ false
        → ends_field rest ≡ true
        → read_field (s ++ rest) ≡ some (s, rest)
    bare [] [] e h = plain_ends [] h
    bare [] (d ∷ t) e h = rw (not_quote d (unfold ends_field in h)) (plain_ends (d ∷ t) h)
    bare (c ∷ s) rest e h = rw ((safe c s e).1) (plain-append (c ∷ s) rest e h)
