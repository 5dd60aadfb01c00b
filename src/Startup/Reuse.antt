-- ===== src/Startup/Reuse.antt =====
-- The modules that a session knows: `note_module` of include/slick/perfmon.hpp, and `modules_moved_on`
-- of include/slick/perfmon/collector.hpp.
use mathlib.Core.Path.{subst}
use slick_perfmon.Prelude.{
  ℕ, ◌<◌, ◌≡◌, refl, sym, arith, true, false, ◌||◌, ◌==◌, Bool-cases, ◌⊎◌, inl, inr, Option, none,
  some, List, [], ◌∷◌,
}
use slick_perfmon.Startup.Session.{
  Session, RetiredRing, has_module, note_in, note_module, moved_on, all_moved_on,
}

-- A module that stamps is the session's own, or noted, or there was no place for it.
abbrev pub IsNoted : ℕ → Session → Type 0
IsNoted m s = (m ≡ s.creator) ⊎ (has_module m s.modules ≡ true) ⊎ (s.modules_full ≡ true)

-- Modules stamp, one after another.
unfoldable pub notes : List ℕ → Session → Session
notes [] s = s
notes (m ∷ ms) s = notes ms (note_module m s)

record NotesIn (self : ℕ) (xs ys : List ℕ) : Type 0 where
  noted : has_module self ys ≡ true
  others : (m : ℕ) → 0 < m → has_module m xs ≡ true → has_module m ys ≡ true

note_in-NotesIn : (self : ℕ) (xs ys : List ℕ) → note_in self xs ≡ some ys → NotesIn self xs ys
unfolding note_in has_module
note_in-NotesIn self [] ys e = absurd (cc)
note_in-NotesIn self (x ∷ xs) ys e = elim (Bool-cases ((x == 0) || (x == self))) [
  | inl here ↦
      let p : self ∷ xs ≡ ys = (let z = rw here at e in cc) in
      rw (sym p) (record { noted = ground arith; others = λ m pos h. ground (arith, here, pos, h) })
  | inr later ↦ go (note_in self xs) refl later λ rest. note_in-NotesIn self xs rest
]
  where
    go :
        (r : Option (List ℕ))
        → note_in self xs ≡ r
        → ((x == 0) || (x == self)) ≡ false
        → ((rest : List ℕ) → note_in self xs ≡ some rest → NotesIn self xs rest)
        → NotesIn self (x ∷ xs) ys
    go none er later again = absurd (let z = rw (note_in, er, later) at e in cc)
    go (some rest) er later again =
        let f = again rest er in
        let p : x ∷ rest ≡ ys = (let z = rw (note_in, er, later) at e in cc) in
        let noted = f.noted in
        rw (sym p) (record {
          noted = ground (arith, noted);
          others = λ m pos h. elim (Bool-cases (x == m)) [
            | inl mine ↦ ground (arith, mine)
            | inr other ↦
                let h' : has_module m xs ≡ true = ground (arith, h, other) in
                let k = f.others m pos h' in ground (arith, k)
          ];
        })

-- Noting a module leaves every other one noted.
record Notes (self : ℕ) (s s' : Session) : Type 0 where
  same : s'.creator ≡ s.creator
  noted : IsNoted self s'
  others : (m : ℕ) → 0 < m → IsNoted m s → IsNoted m s'

note_module-Notes : (self : ℕ) (s : Session) → Notes self s (note_module self s)
unfolding note_module
note_module-Notes self s = elim (Bool-cases ((self == s.creator) || has_module self s.modules)) [
  | inl known ↦ rw known (record {
    same = refl;
    noted = elim (Bool-cases (self == s.creator)) [
      | inl own ↦ inl (ground (arith, own))
      | inr foreign ↦ inr (inl (ground (arith, known, foreign)))
    ];
    others = λ m pos h. h;
  })
  | inr unknown ↦ go (note_in self s.modules) refl unknown
]
  where
    go :
        (r : Option (List ℕ))
        → note_in self s.modules ≡ r
        → ((self == s.creator) || has_module self s.modules) ≡ false
        → Notes self s (note_module self s)
    go none er unknown =
        rw (note_module, unknown, er)
          (record { same = refl; noted = inr (inr refl); others = λ m pos h. inr (inr refl) })
    go (some noted) er unknown =
        let f = note_in-NotesIn self s.modules noted er in
        rw (note_module, unknown, er)
          (record {
            same = refl;
            noted = inr (inl f.noted);
            others = λ m pos h. elim h [
              | inl own ↦ inl own
              | inr (inl there) ↦ inr (inl (f.others m pos there))
              | inr (inr full) ↦ inr (inr full)
            ];
          })

notes-keep : (ms : List ℕ) (s : Session) (m : ℕ) → 0 < m → IsNoted m s → IsNoted m (notes ms s)
unfolding notes
notes-keep [] s m pos h = h
notes-keep (x ∷ ms) s m pos h =
    notes-keep ms (note_module x s) m pos ((note_module-Notes x s).others m pos h)

-- Each module that stamped is noted.
pub notes-IsNoted :
    (ms : List ℕ) (s : Session) (m : ℕ) → 0 < m → has_module m ms ≡ true → IsNoted m (notes ms s)
unfolding notes has_module
notes-IsNoted [] s m pos h = absurd (cc)
notes-IsNoted (x ∷ ms) s m pos h = elim (Bool-cases (x == m)) [
  | inl mine ↦
      let e : x ≡ m = ground (arith, mine) in
      notes-keep ms (note_module x s) m pos
        (subst (λ k. IsNoted k (note_module x s)) e (note_module-Notes x s).noted)
  | inr other ↦ notes-IsNoted ms (note_module x s) m pos (ground (arith, h, other))
]

pub all_moved_on_each :
    (ms : List ℕ) (later : List RetiredRing) (m : ℕ)
    → 0 < m
    → all_moved_on ms later ≡ true
    → has_module m ms ≡ true
    → moved_on m later ≡ true
unfolding all_moved_on has_module
all_moved_on_each [] later m pos all h = absurd (cc)
all_moved_on_each (x ∷ ms) later m pos all h = elim (Bool-cases (x == m)) [
  | inl mine ↦
      let e : x ≡ m = ground (arith, mine) in
      let k : moved_on x later ≡ true = ground (arith, all, e, pos) in rw e at k
  | inr other ↦ all_moved_on_each ms later m pos (ground (arith, all)) (ground (arith, h, other))
]
