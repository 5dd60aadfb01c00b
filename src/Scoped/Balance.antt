-- ===== src/Scoped/Balance.antt =====
-- Every begin stamp has one end stamp, one cancellation or one armed guard.
use native.Mathlib.Decide.{ℕ_discrete}
use slick_perfmon.Prelude.{
  ℕ, zero, suc, ◌+◌, ◌≡◌, refl, ◌∙◌, arith, true, false, ◌&&◌, ◌==◌, ==_iff, ==_false,
  if◌then◌else◌, Bool-cases, inl, inr, Option, none, some, Option-cases, List, [], ◌∷◌, ◌++◌,
  get_or, set, get_or-set_other,
}
use slick_perfmon.Scoped.{
  ScopedSample, Stamp, began, stepped, ended, Program, Action, construct, move_construct,
  move_assign, step_to, cancel, destroy, object, disarmed, end_if_armed, assign, perform,
  perform_all, fresh,
}

module _ (p s : ℕ) where
  abbrev pub is_span : ℕ → ℕ → ℕ
  is_span point seq = if (point == p) && (seq == s) then 1 else 0

  abbrev pub begins : List Stamp → ℕ
  begins [] = 0
  begins (began point seq ∷ stamps) = is_span point seq + begins stamps
  begins (stepped point n seq ∷ stamps) = begins stamps
  begins (ended point seq ∷ stamps) = begins stamps

  abbrev pub ends : List Stamp → ℕ
  ends [] = 0
  ends (began point seq ∷ stamps) = ends stamps
  ends (stepped point n seq ∷ stamps) = ends stamps
  ends (ended point seq ∷ stamps) = is_span point seq + ends stamps

  abbrev pub cancels : List ScopedSample → ℕ
  cancels [] = 0
  cancels (g ∷ gs) = is_span g.point g.seq + cancels gs

  abbrev pub is_armed : Option ScopedSample → ℕ
  is_armed none = 0
  is_armed (some g) = if g.armed then is_span g.point g.seq else 0

  abbrev pub armed_guards : List (Option ScopedSample) → ℕ
  armed_guards [] = 0
  armed_guards (o ∷ os) = is_armed o + armed_guards os

  armed_guards-append :
      (os : List (Option ScopedSample)) (o : Option ScopedSample)
      → armed_guards (os ++ (o ∷ [])) ≡ armed_guards os + is_armed o
  armed_guards-append [] o = omega arith
  armed_guards-append (x ∷ os) o = omega (arith, armed_guards-append os o)

  armed_guards-set :
      (os : List (Option ScopedSample)) (i : ℕ) (g : ScopedSample) (o : Option ScopedSample)
      → get_or os i none ≡ some g
      → armed_guards (set os i o) + is_armed (some g) ≡ armed_guards os + is_armed o
  armed_guards-set [] i g o h = absurd (cc)
  armed_guards-set (x ∷ os) zero g o h = rw h (omega arith)
  armed_guards-set (x ∷ os) (suc i) g o h = omega (arith, armed_guards-set os i g o h)

  abbrev pub Balanced : Program → Type 0
  Balanced σ = begins σ.stamps ≡ ends σ.stamps + cancels σ.cancelled + armed_guards σ.objects

  ends-end :
      (g : ScopedSample) (stamps : List Stamp)
      → ends (end_if_armed g stamps) ≡ ends stamps + is_armed (some g)
  ends-end g stamps = elim (Bool-cases g.armed) [
    | inl e ↦ rw e (omega arith)
    | inr e ↦ rw e (omega arith)
  ]

  begins-end :
      (g : ScopedSample) (stamps : List Stamp) → begins (end_if_armed g stamps) ≡ begins stamps
  begins-end g stamps = elim (Bool-cases g.armed) [ inl e ↦ rw e refl | inr e ↦ rw e refl ]

  perform-Balanced : (a : Action) (σ : Program) → Balanced σ → Balanced (perform a σ)
  unfolding perform assign
  perform-Balanced (construct point seq) σ h = omega (
    arith,
    h,
    armed_guards-append σ.objects (some (record { point = point; seq = seq; armed = true })),
  )
  perform-Balanced (move_construct j) σ h = elim (Option-cases (object σ j)) [
    | inl e ↦ rw (perform, e) h
    | inr (g, e) ↦
        let x = armed_guards-set σ.objects j g (some (disarmed g)) e in
        rw (perform, e)
          (omega (arith, h, x, armed_guards-append (set σ.objects j (some (disarmed g))) (some g)))
  ]
  perform-Balanced (step_to i n) σ h = elim (Option-cases (object σ i)) [
    | inl e ↦ rw (perform, e) h
    | inr (g, e) ↦ rw (perform, e) h
  ]
  perform-Balanced (cancel i) σ h = elim (Option-cases (object σ i)) [
    | inl e ↦ rw (perform, e) h
    | inr (g, e) ↦
        let x = armed_guards-set σ.objects i g (some (disarmed g)) e in
        elim (Bool-cases g.armed) [
          | inl on ↦ let y = rw on at x in rw (perform, e, on) (omega (arith, h, y))
          | inr off ↦ let y = rw off at x in rw (perform, e, off) (omega (arith, h, y))
        ]
  ]
  perform-Balanced (destroy i) σ h = elim (Option-cases (object σ i)) [
    | inl e ↦ rw (perform, e) h
    | inr (g, e) ↦
        let x = armed_guards-set σ.objects i g none e in
        rw (perform, e) (omega (arith, h, x, ends-end g σ.stamps, begins-end g σ.stamps))
  ]
  perform-Balanced (move_assign i j) σ h = elim (Option-cases (object σ i)) [
    | inl e ↦ rw (perform, e) h
    | inr (a, e) ↦ elim (Option-cases (object σ j)) [
      | inl f ↦ rw (perform, e, f) h
      | inr (b, f) ↦ elim (ℕ_discrete i j) [
        | yes same ↦ let t : (i == j) ≡ true = (==_iff i j).1 same in rw (perform, e, f, t) h
        | no ne ↦
            let t : (i == j) ≡ false = ==_false i j ne in
            let x = armed_guards-set σ.objects i a (some b) e in
            let y =
              armed_guards-set (set σ.objects i (some b)) j b (some (disarmed b))
                (get_or-set_other σ.objects i j (some b) none ne ∙ f) in
            rw (perform, e, f, t)
              (omega (arith, h, x, y, ends-end a σ.stamps, begins-end a σ.stamps))
      ]
    ]
  ]

  perform_all-Balanced :
      (actions : List Action) (σ : Program) → Balanced σ → Balanced (perform_all actions σ)
  unfolding perform_all
  perform_all-Balanced [] σ h = h
  perform_all-Balanced (a ∷ actions) σ h =
      perform_all-Balanced actions (perform a σ) (perform-Balanced a σ h)

  -- After any constructions, moves, steps, cancellations and destructions of guards, for each span:
  -- its begin stamps are as many as its end stamps, its armed guards that were cancelled, and its
  -- guards that are still armed, together.
  pub guards_balance :
      (actions : List Action)
      → begins (perform_all actions fresh).stamps
        ≡ ends (perform_all actions fresh).stamps
          + cancels (perform_all actions fresh).cancelled
          + armed_guards (perform_all actions fresh).objects
  guards_balance actions = perform_all-Balanced actions fresh refl
