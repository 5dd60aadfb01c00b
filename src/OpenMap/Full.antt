-- ===== src/OpenMap/Full.antt =====
-- When `insert` returns no pointer.
use slick_perfmon.Prelude.{
  ℕ, ◌≡◌, refl, ◌∙◌, ◌⊎◌, true, false, ==_refl, leb, Bool-cases, none, some, Option-cases, inl, inr,
}
use slick_perfmon.OpenMap.{Default, OpenMap, full, find, insert}
use slick_perfmon.OpenMap.Valid.{IsValid, lookup, find-Stored, lookup-eq_some, lookup-eq_none}
use slick_perfmon.OpenMap.Insert.{kept, insert-Inserts}

module _ {ℓ} {V : Type ℓ} ⦃d : Default V⦄ where
  pub full-eq : (m : OpenMap V) → full m ≡ leb m.max_entries m.size
  unfolding full
  full-eq m = refl

  -- What the pointer says of a key that was not there.
  pub insert_absent :
      (m : OpenMap V) (v : IsValid m) (k : ℕ) (x : V)
      → lookup m k ≡ none
      → ((full m ≡ false) × (i : ℕ) × ((insert m k x).0 ≡ some i))
        ⊎ ((full m ≡ true) × ((insert m k x).0 ≡ none))
  insert_absent m v k x gone =
      let r = insert-Inserts m k x v in
      let out = (insert m k x).1 in
      let read : lookup out k ≡ kept m x none = rw (==_refl k, gone) at (r.reads k) in
      elim (Option-cases (find out k)) [
        | inr (i, e) ↦
            let there = lookup-eq_some out r.valid k i (find-Stored out r.valid k i e) in
            elim (Bool-cases (full m)) [
              | inr f ↦ inl (f, i, r.pointer ∙ e)
              | inl f ↦ absurd (let z = rw f at read in cc (z, there))
            ]
        | inl e ↦
            let missed = lookup-eq_none out r.valid k e in
            elim (Bool-cases (full m)) [
              | inl f ↦ inr (f, r.pointer ∙ e)
              | inr f ↦ absurd (let z = rw f at read in cc (z, missed))
            ]
      ]
