-- ===== src/Ring/Intact.antt =====
-- What the stores of a ring's writer leave alone between two moments.
use native.Mathlib.Nat.{mod-eq_of_lt}
use slick_perfmon.Prelude.{
  ℕ, zero, suc, ◌+◌, ◌-◌, ◌^◌, ◌≤◌, ◌<◌, ◌≡◌, refl, sym, ◌∙◌, arith, [], ◌∷◌, get_or, get_or-append,
}
use slick_perfmon.Event.{Sample}
use slick_perfmon.Ring.{no_sample}
use slick_perfmon.Ring.Writer.{
  Pc, idle, stamped, pointed, stored, System, advance, IsValid, advance-IsValid,
}

-- Any number of stores, of any samples; the head stays below 2 ^ 64.
pub data Stores (mask : ℕ) (σ : System) : System → Type 0 where
  none_yet : Stores mask σ σ
  store :
      {τ : System} (s : Sample)
      → Stores mask σ τ
      → τ.mem.head + 1 < 2 ^ 64
      → Stores mask σ (advance mask s τ)

-- What a later moment keeps of an earlier one.
pub record Later (bits : ℕ) (σ τ : System) : Type 0 where
  pub sound : IsValid bits τ
  pub upward : σ.mem.head ≤ τ.mem.head
  pub kept : (i : ℕ) → i < σ.mem.head → get_or σ.log i no_sample ≡ get_or τ.log i no_sample

pub Later-refl : (bits : ℕ) (σ : System) → IsValid bits σ → Later bits σ σ
Later-refl bits σ v = record { sound = v; upward = omega arith; kept = λ i lt. refl }

pub Later-trans : (bits : ℕ) (σ τ υ : System) → Later bits σ τ → Later bits τ υ → Later bits σ υ
Later-trans bits σ τ υ a b = record {
  sound = b.sound;
  upward = omega (arith, a.upward, b.upward);
  kept = λ i lt. a.kept i lt ∙ b.kept i (omega (arith, a.upward));
}

advance-upward :
    (mask : ℕ) (s : Sample) (σ : System)
    → σ.mem.head + 1 < 2 ^ 64
    → σ.mem.head ≤ (advance mask s σ).mem.head
unfolding advance
advance-upward mask s σ fits = go σ.pc refl
  where
    go : (pc : Pc) → σ.pc ≡ pc → σ.mem.head ≤ (advance mask s σ).mem.head
    go idle e = rw (e, advance) (omega arith)
    go (stamped x) e = rw (e, advance) (omega arith)
    go (pointed x) e = rw (e, advance) (omega arith)
    go (stored x) e = rw (e, advance) (omega (arith, mod-eq_of_lt fits))

advance-kept :
    (bits mask : ℕ) (s : Sample) (σ : System)
    → IsValid bits σ
    → (i : ℕ) → i < σ.mem.head
    → get_or σ.log i no_sample ≡ get_or (advance mask s σ).log i no_sample
unfolding advance
advance-kept bits mask s σ v i lt = go σ.pc refl
  where
    go :
        (pc : Pc) → σ.pc ≡ pc → get_or σ.log i no_sample ≡ get_or (advance mask s σ).log i no_sample
    go idle e = rw (e, advance) refl
    go (stamped x) e = rw (e, advance) refl
    go (pointed x) e = rw (e, advance) refl
    go (stored x) e =
        rw (e, advance) (sym (get_or-append σ.log (x ∷ []) i no_sample (omega (arith, v.counted))))

pub Stores-Later :
    (bits : ℕ) {σ τ : System} → IsValid bits σ → Stores (2 ^ bits - 1) σ τ → Later bits σ τ
Stores-Later bits {σ} v none_yet = Later-refl bits σ v
Stores-Later bits {σ} v (store {τ} s run fits) =
    let l = Stores-Later bits v run in
    let b = 2 ^ bits - 1 in
    Later-trans bits σ τ (advance b s τ) l (record {
      sound = advance-IsValid bits s τ l.sound fits;
      upward = advance-upward b s τ fits;
      kept = advance-kept bits b s τ l.sound;
    })

-- The memory at one moment after another; the writer may make any number of stores between two.
pub record Run (bits : ℕ) (σ : ℕ → System) : Type 0 where
  pub started : IsValid bits (σ 0)
  pub goes : (t : ℕ) → Stores (2 ^ bits - 1) (σ t) (σ (suc t))

module _ (bits : ℕ) (σ : ℕ → System) (run : Run bits σ) where
  pub Run-IsValid : (t : ℕ) → IsValid bits (σ t)
  Run-IsValid zero = run.started
  Run-IsValid (suc t) = (Stores-Later bits (Run-IsValid t) (run.goes t)).sound

  onward : (k t : ℕ) → Later bits (σ t) (σ (k + t))
  onward zero t = let e : zero + t ≡ t = omega arith in rw e (Later-refl bits (σ t) (Run-IsValid t))
  onward (suc k) t =
      let e : suc k + t ≡ suc (k + t) = omega arith in
      rw e (
        Later-trans bits (σ t) (σ (k + t)) (σ (suc (k + t))) (onward k t)
          (Stores-Later bits (Run-IsValid (k + t)) (run.goes (k + t))))

  pub Run-Later : (t u : ℕ) → t ≤ u → Later bits (σ t) (σ u)
  Run-Later t u le = let e : u - t + t ≡ u = omega arith in rw e at (onward (u - t) t)
