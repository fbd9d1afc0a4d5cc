-- ===== src/Prelude/Results.antt =====
-- A call that returns a value or raises an exception.
use mathlib.Core.Path.{◌≡◌, refl, subst}
use mathlib.Core.Bool.{Bool, true, false}
use ark_mcp.Prelude.Tests.{if◌then◌else◌}

pub data Result {ℓ κ} (E : Type ℓ) (A : Type κ) : Type (ℓ ⊔ κ) where
  ok : A → Result E A
  err : E → Result E A

infixl 5 ◌>>=◌ ◌>>◌
abbrev pub ◌>>=◌ {ℓ κ μ} :
    {E : Type ℓ} {A : Type κ} {B : Type μ} → Result E A → (A → Result E B) → Result E B
ok a >>= f = f a
err e >>= f = err e

abbrev pub ◌>>◌ {ℓ κ} : {E : Type ℓ} {B : Type κ} → Result E (Unit {0}) → Result E B → Result E B
m >> k = m >>= λ _. k

-- `if not test: raise e`
abbrev pub guard {ℓ} : {E : Type ℓ} → Bool → E → Result E (Unit {0})
guard true e = ok tt
guard false e = err e

-- A postcondition of the value, if a value is returned.
abbrev pub Holds {ℓ κ μ} : {E : Type ℓ} {A : Type κ} → (A → Type μ) → Result E A → Type μ
Holds P (ok a) = P a
Holds P (err e) = Unit

same_of_ok {ℓ κ} : {E : Type ℓ} {A : Type κ} (b a : A) → ◌≡◌ {A = Result E A} (ok b) (ok a) → b ≡ a
same_of_ok b a e = cc

module _ {ℓ κ μ} {E : Type ℓ} {A : Type κ} (P : A → Type μ) where
  pub Holds-ok : (r : Result E A) {a : A} → Holds P r → r ≡ ok a → P a
  Holds-ok (ok b) {a} h e = subst P (same_of_ok b a e) h
  Holds-ok (err x) h e = cc

  pub Holds-if :
      (b : Bool) (r s : Result E A)
      → (b ≡ true → Holds P r)
      → (b ≡ false → Holds P s)
      → Holds P (if b then r else s)
  Holds-if true r s h k = h refl
  Holds-if false r s h k = k refl

  pub Holds-bind {ν ρ} :
      {B : Type ν} (Q : B → Type ρ) (m : Result E B) (f : B → Result E A)
      → Holds Q m
      → ((b : B) → Q b → Holds P (f b))
      → Holds P (m >>= f)
  Holds-bind Q (ok b) f h k = k b h
  Holds-bind Q (err e) f h k = tt

  pub Holds-guard :
      (b : Bool) (e : E) (k : Result E A) → (b ≡ true → Holds P k) → Holds P (guard b e >> k)
  Holds-guard true e k h = h refl
  Holds-guard false e k h = tt

  -- From the equation of each value to the postcondition.
  pub Holds-of_ok : (r : Result E A) → ((a : A) → r ≡ ok a → P a) → Holds P r
  Holds-of_ok (ok a) h = h a refl
  Holds-of_ok (err e) h = tt

-- `if test: raise e`, and then a value: the test was false.
pub after_raise {ℓ κ} :
    {E : Type ℓ} {A : Type κ} (test : Bool) (e : E) (r : Result E A) {a : A}
    → (if test then err e else r) ≡ ok a
    → (test ≡ false) × (r ≡ ok a)
after_raise true e r h = cc
after_raise false e r h = (refl, h)
