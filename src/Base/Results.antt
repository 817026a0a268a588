-- ===== src/Base/Results.antt =====
-- Go's (value, error) results.
use mathlib.Core.Path.{◌≡◌, refl, sym, ap, ◌∙◌}
use mathlib.Core.Logic.{◌⊎◌, inl, inr}
use mathlib.Core.Bool.{Bool, true, false}

pub data Result {ℓ κ} (E : Type ℓ) (A : Type κ) : Type (ℓ ⊔ κ) where
  ok : A → Result E A
  err : E → Result E A

module _ {ℓ} {E : Type ℓ} where
  infixl 5 ◌>>=◌ ◌>>◌
  abbrev pub ◌>>=◌ {κ μ} : {A : Type κ} {B : Type μ} → Result E A → (A → Result E B) → Result E B
  ok a >>= f = f a
  err e >>= f = err e

  abbrev pub ◌>>◌ {κ} : {B : Type κ} → Result E (Unit {0}) → Result E B → Result E B
  m >> k = m >>= λ _. k

  abbrev pub guard : Bool → E → Result E (Unit {0})
  guard true e = ok tt
  guard false e = err e

-- What a result that is no error says of its parts.
module _ {ℓ κ μ} {E : Type ℓ} {A : Type κ} {B : Type μ} where
  pub bind_ok :
      (m : Result E A) (f : A → Result E B) (b : B)
      → (m >>= f) ≡ ok b
      → (a : A) × (m ≡ ok a) × (f a ≡ ok b)
  bind_ok (ok a) f b h = (a, refl, h)
  bind_ok (err e) f b h = absurd (cc)

  -- A part whose result is known leaves the rest.
  pub bind_known :
      (m : Result E A) (f : A → Result E B) (a : A) (b : B)
      → ((x : A) → m ≡ ok x → x ≡ a)
      → (m >>= f) ≡ ok b
      → f a ≡ ok b
  bind_known (ok x) f a b known h = sym (ap f (known x refl)) ∙ h
  bind_known (err e) f a b known h = absurd (cc)

module _ {ℓ κ} {E : Type ℓ} {A : Type κ} where
  pub then_ok :
      (m : Result E (Unit {0})) (k : Result E A) (a : A)
      → (m >> k) ≡ ok a
      → (m ≡ ok tt) × (k ≡ ok a)
  then_ok (ok u) k a h = (refl, h)
  then_ok (err e) k a h = absurd (cc)

  pub ok_inv : {a b : A} (r : Result E A) → r ≡ ok a → r ≡ ok b → a ≡ b
  ok_inv r h k = cc

  pub Result-cases : (r : Result E A) → ((a : A) × (r ≡ ok a)) ⊎ ((e : E) × (r ≡ err e))
  Result-cases (ok a) = inl (a, refl)
  Result-cases (err e) = inr (e, refl)

pub guard_ok {ℓ} : {E : Type ℓ} (b : Bool) (e : E) → guard b e ≡ ok tt → b ≡ true
guard_ok true e h = refl
guard_ok false e h = absurd (cc)
