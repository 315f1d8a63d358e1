-- ===== src/Prelude/Errors.antt =====
-- Exceptions as values: `E` is what a function may raise.
use mathlib.Core.Path.{◌≡◌, refl}
use mathlib.Core.Logic.{◌⊎◌, inl, inr}
use mathlib.Core.Bool.{Bool, true, false}
use mathlib.Core.Option.{Option, none, some}

pub data Result {ℓ} (E : Type 0) (A : Type ℓ) : Type ℓ where
  ok : A → Result E A
  err : E → Result E A

infixl 5 ◌>>=◌ ◌>>◌
abbrev pub ◌>>=◌ {ℓ κ} :
    {E : Type 0} {A : Type ℓ} {B : Type κ} → Result E A → (A → Result E B) → Result E B
err raised >>= rest = err raised
ok value >>= rest = rest value

abbrev pub ◌>>◌ {ℓ} : {E : Type 0} {B : Type ℓ} → Result E (Unit {0}) → Result E B → Result E B
m >> k = m >>= λ _. k

-- `if b: raise e`
abbrev pub raise_if : {E : Type 0} → Bool → E → Result E (Unit {0})
raise_if true e = err e
raise_if false e = ok tt

abbrev pub or_raise {ℓ} : {E : Type 0} {A : Type ℓ} → Option A → E → Result E A
or_raise none e = err e
or_raise (some a) e = ok a

module _ {ℓ κ} {E : Type 0} {A : Type ℓ} {B : Type κ} where
  -- The first action has succeeded, and the rest has on its value.
  pub >>=-eq-ok :
      (action : Result E A) (rest : A → Result E B) {y : B}
      → (action >>= rest) ≡ ok y
      → (x : A) × (action ≡ ok x) × (rest x ≡ ok y)
  >>=-eq-ok (err raised) rest done = cc
  >>=-eq-ok (ok x) rest done = (x, refl, done)

module _ {ℓ} {E : Type 0} {B : Type ℓ} where
  pub raise_if-eq-ok :
      (b : Bool) (e : E) (k : Result E B) {y : B}
      → (raise_if b e >> k) ≡ ok y
      → (b ≡ false) × (k ≡ ok y)
  raise_if-eq-ok true e k h = cc
  raise_if-eq-ok false e k h = (refl, h)

  pub >>-eq-ok :
      (m : Result E (Unit {0})) (k : Result E B) {y : B}
      → (m >> k) ≡ ok y
      → (m ≡ ok tt) × (k ≡ ok y)
  >>-eq-ok (ok _) k h = (refl, h)
  >>-eq-ok (err e) k h = cc

module _ {ℓ} {E : Type 0} {A : Type ℓ} where
  pub Result-cases : (r : Result E A) → ((a : A) × (r ≡ ok a)) ⊎ ((e : E) × (r ≡ err e))
  Result-cases (ok a) = inl (a, refl)
  Result-cases (err e) = inr (e, refl)

  pub ok_inj : {a b : A} → ◌≡◌ {A = Result E A} (ok a) (ok b) → a ≡ b
  ok_inj e = cc
