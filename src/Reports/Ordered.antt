-- ===== src/Reports/Ordered.antt =====
-- The order by which include/slick/perfmon/collector.hpp sorts the rows of a report is one that the
-- C++ library's `sort` takes.
use slick_perfmon.Prelude.{
  ℕ, ◌≡◌, refl, ◌∙◌, arith, Bool, true, false, not, ltb, ◌==◌, if◌then◌else◌, Bool-cases, inl, inr,
  List, [], ◌∷◌, length,
}
use slick_perfmon.Reports.{StageReport, is_total}
use slick_perfmon.Reports.Building.{row_before, same_flag}

-- A row's place: the overflow row after all points, a total after the stages of its point.
abbrev pub rank : Bool → ℕ
rank true = 1
rank false = 0

abbrev pub keys : {F : Type 0} → StageReport F → List ℕ
keys r = rank r.overflow ∷ r.point ∷ rank (is_total r.from r.to) ∷ r.from ∷ r.to ∷ []

-- The first keys that differ decide.
lex : List ℕ → List ℕ → Bool
lex [] ys = false
lex (x ∷ xs) [] = false
lex (x ∷ xs) (y ∷ ys) = if not (x == y) then ltb x y else lex xs ys

lex_irreflexive : (xs : List ℕ) → lex xs xs ≡ false
unfolding lex
lex_irreflexive [] = refl
lex_irreflexive (x ∷ xs) = ground (arith, lex_irreflexive xs)

lex_transitive : (xs ys zs : List ℕ) → lex xs ys ≡ true → lex ys zs ≡ true → lex xs zs ≡ true
unfolding lex
lex_transitive [] ys zs h k = absurd (cc)
lex_transitive (x ∷ xs) [] zs h k = absurd (cc)
lex_transitive (x ∷ xs) (y ∷ ys) [] h k = absurd (cc)
lex_transitive (x ∷ xs) (y ∷ ys) (z ∷ zs) h k = elim (Bool-cases (x == y)) [
  | inl xy ↦ elim (Bool-cases (y == z)) [
    | inl yz ↦
        let a : lex xs ys ≡ true = rw xy at h in
        let b : lex ys zs ≡ true = rw yz at k in
        let xz : (x == z) ≡ true = ground (arith, xy, yz) in rw xz (lex_transitive xs ys zs a b)
    | inr yz ↦
        let b : ltb y z ≡ true = rw yz at k in
        let xz : (x == z) ≡ false = ground (arith, xy, yz) in rw xz (ground (arith, xy, b))
  ]
  | inr xy ↦
      let a : ltb x y ≡ true = rw xy at h in
      elim (Bool-cases (y == z)) [
        | inl yz ↦
            let xz : (x == z) ≡ false = ground (arith, xy, yz) in rw xz (ground (arith, yz, a))
        | inr yz ↦
            let b : ltb y z ≡ true = rw yz at k in
            let xz : (x == z) ≡ false = ground (arith, a, b) in rw xz (ground (arith, a, b))
      ]
]

lex_connected :
    (xs ys : List ℕ) → length xs ≡ length ys → lex xs ys ≡ false → lex ys xs ≡ false → xs ≡ ys
unfolding lex
lex_connected [] [] n h k = refl
lex_connected [] (y ∷ ys) n h k = absurd (omega (arith, n))
lex_connected (x ∷ xs) [] n h k = absurd (omega (arith, n))
lex_connected (x ∷ xs) (y ∷ ys) n h k = elim (Bool-cases (x == y)) [
  | inl same ↦
      let e : x ≡ y = ground (arith, same) in
      let yx : (y == x) ≡ true = ground (arith, same) in
      let rest = lex_connected xs ys (omega (arith, n)) (rw same at h) (rw yx at k) in cc
  | inr differ ↦
      let yx : (y == x) ≡ false = ground (arith, differ) in
      let a : ltb x y ≡ false = rw differ at h in
      let b : ltb y x ≡ false = rw yx at k in absurd (ground (arith, differ, a, b))
]

flag_step :
    (x y t : Bool)
    → (if not (same_flag x y) then y else t)
      ≡ (if not (rank x == rank y) then ltb (rank x) (rank y) else t)
unfolding same_flag
flag_step true true t = refl
flag_step true false t = refl
flag_step false true t = refl
flag_step false false t = refl

last_step : (x y : ℕ) → (if not (x == y) then ltb x y else false) ≡ ltb x y
last_step x y = ground arith

row_before-lex : {F : Type 0} (a b : StageReport F) → row_before a b ≡ lex (keys a) (keys b)
unfolding row_before lex
row_before-lex a b =
    let by_from : Bool = if not (a.from == b.from) then ltb a.from b.from else ltb a.to b.to in
    let by_point : Bool =
      if not (a.point == b.point)
      then ltb a.point b.point
      else (if not (same_flag (is_total a.from a.to) (is_total b.from b.to))
          then is_total b.from b.to
          else by_from) in
    flag_step a.overflow b.overflow by_point
    ∙ rw (flag_step (is_total a.from a.to) (is_total b.from b.to) by_from, last_step a.to b.to) refl

-- What the C++ library's `sort` takes for an order; rows that are not ordered have the same place.
pub record IsOrder {F : Type 0} (before : StageReport F → StageReport F → Bool) : Type 0 where
  pub irreflexive : (a : StageReport F) → before a a ≡ false
  pub transitive :
      (a b c : StageReport F) → before a b ≡ true → before b c ≡ true → before a c ≡ true
  pub connected : (a b : StageReport F) → before a b ≡ false → before b a ≡ false → keys a ≡ keys b

-- The order by which the rows are sorted is irreflexive and transitive, and two rows that it does
-- not order have the same overflow flag, point, place of a total, and steps.
pub row_before-IsOrder : {F : Type 0} → IsOrder {F = F} row_before
row_before-IsOrder = record {
  irreflexive = λ a. rw (row_before-lex a a) (lex_irreflexive (keys a));
  transitive = λ a b c h k. rw (row_before-lex a c) (
      lex_transitive (keys a) (keys b) (keys c) (rw (row_before-lex a b) at h)
        (rw (row_before-lex b c) at k));
  connected = λ a b h k.
      lex_connected (keys a) (keys b) refl (rw (row_before-lex a b) at h)
        (rw (row_before-lex b a) at k);
}
