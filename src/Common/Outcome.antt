-- ===== src/Common/Outcome.antt =====
-- `Result<A, E>`, with its chain and its two readings.
use mathlib.Core.Path.{◌≡◌, refl}
use mathlib.Core.Logic.{◌↔◌, ◌⊎◌, inl, inr}
use mathlib.Core.Bool.{Bool, true, false}
use mathlib.Core.Option.{Option, none, some}

pub data Result {ℓ κ} (E : Type ℓ) (A : Type κ) : Type (ℓ ⊔ κ) where
  ok : A → Result E A
  err : E → Result E A

infixl 5 ◌>>=◌ ◌>>◌
abbrev pub ◌>>=◌ {ℓ κ μ} :
    {E : Type ℓ} {A : Type κ} {B : Type μ} → Result E A → (A → Result E B) → Result E B
ok a >>= f = f a
err e >>= f = err e

abbrev pub ◌>>◌ {ℓ κ} : {E : Type ℓ} {B : Type κ} → Result E (Unit {0}) → Result E B → Result E B
m >> k = m >>= λ _. k

-- `ok_or_else`
abbrev pub ok_or {ℓ κ} : {E : Type ℓ} {A : Type κ} → Option A → E → Result E A
ok_or none e = err e
ok_or (some a) e = ok a

-- A check that fails with `e` where the test does not hold.
abbrev pub guard {ℓ} : {E : Type ℓ} → Bool → E → Result E (Unit {0})
guard true e = ok tt
guard false e = err e

-- `is_ok`
abbrev pub is_ok {ℓ κ} : {E : Type ℓ} {A : Type κ} → Result E A → Bool
is_ok (ok a) = true
is_ok (err e) = false

module _ {ℓ κ} {E : Type ℓ} {B : Type κ} where
  pub chain-ok :
      (x : Result E (Unit {0})) (y : Result E B) (b : B)
      → ((x >> y) ≡ ok b) ↔ ((x ≡ ok tt) × (y ≡ ok b))
  chain-ok (ok _) y b = (λ h. (refl, h), λ h. h.1)
  chain-ok (err e) y b = (λ h. cc, λ h. cc (h.0))

  -- The first step that fails is the one that is reported.
  pub chain-err :
      (x : Result E (Unit {0})) (y : Result E B) (e : E)
      → ((x >> y) ≡ err e) ↔ ((x ≡ err e) ⊎ ((x ≡ ok tt) × (y ≡ err e)))
  chain-err (ok _) y e = (λ h. inr (refl, h), λ h. elim h [ inl f ↦ cc | inr (_, g) ↦ g ])
  chain-err (err d) y e = (λ h. inl (cc), λ h. elim h [ inl f ↦ cc | inr (f, _) ↦ cc ])
