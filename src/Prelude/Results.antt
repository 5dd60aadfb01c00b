-- ===== src/Prelude/Results.antt =====
-- A result or a thrown error, and the chain of steps that stops at the first error.
use mathlib.Core.Bool.{Bool, true, false}
use mathlib.Core.Path.{◌≡◌, refl}

pub data Result {ℓ κ} (E : Type κ) (A : Type ℓ) : Type (ℓ ⊔ κ) where
  ok : A → Result E A
  throws : E → Result E A

infixl 5 ◌>>=◌ ◌>>◌
abbrev pub ◌>>=◌ {ℓ κ μ} :
    {E : Type μ} {A : Type ℓ} {B : Type κ} → Result E A → (A → Result E B) → Result E B
ok a >>= f = f a
throws e >>= f = throws e

abbrev pub ◌>>◌ {ℓ μ} : {E : Type μ} {B : Type ℓ} → Result E (Unit {0}) → Result E B → Result E B
m >> k = m >>= λ _. k

-- `if (test) throw e;`
abbrev pub throw_if {μ} : {E : Type μ} → Bool → E → Result E (Unit {0})
throw_if true e = throws e
throw_if false e = ok tt

pub throw_if-ok {μ} :
    {E : Type μ} (c : Bool) (e : E) (m : Result E (Unit {0}))
    → (throw_if c e >> m) ≡ ok tt
    → (c ≡ false) × (m ≡ ok tt)
throw_if-ok true e m h = absurd (cc)
throw_if-ok false e m h = (refl, h)

pub >>-ok {μ} :
    {E : Type μ} (a m : Result E (Unit {0})) → (a >> m) ≡ ok tt → (a ≡ ok tt) × (m ≡ ok tt)
>>-ok (ok u) m h = (refl, h)
>>-ok (throws e) m h = absurd (cc)
