-- ===== src/Common/Equality.antt =====
-- `PartialEq` as an interface, its instances for numbers and texts, and membership by it.
use Prim.Native.Nat.{ℕ, suc, ◌≤◌}
use Prim.Native.Char.{code}
use Prim.Native.String.{String}
use mathlib.Core.Path.{◌≡◌, refl}
use mathlib.Core.Logic.{◌↔◌}
use mathlib.Core.Bool.{Bool, true, false, ◌&&◌, ◌||◌}
use mathlib.Core.List.{List, [], ◌∷◌, ◌++◌, reverse, reverse-cons}
use native.Mathlib.Omega.{arith}
use puff.Common.Tests.{nat_beq, nat_beq_iff, if◌then◌else◌}
use puff.Common.Lists.{length}

pub record Eq {κ} (K : Type κ) : Type κ where
  -- `==`
  pub beq : K → K → Bool
  -- `==` is equality.
  pub beq_iff : (x y : K) → (beq x y ≡ true) ↔ (x ≡ y)

instance abbrev pub nat_eq : Eq ℕ
nat_eq = record { beq_iff = nat_beq_iff; beq = nat_beq }

infix 50 ◌==◌
abbrev pub ◌==◌ {κ} : {K : Type κ} ⦃eq : Eq K⦄ → K → K → Bool
◌==◌ ⦃eq⦄ = eq.beq

-- A Rust string (`&str`, `String`, puff's `Text`) as the list of its characters' code points.
abbrev pub Text : Type 0
Text = List ℕ

abbrev pub codes : String → Text
codes String.[] = []
codes (String.◌∷◌ c s) = code c ∷ codes s

unfoldable pub text_beq : Text → Text → Bool
text_beq [] [] = true
text_beq [] (d ∷ t) = false
text_beq (c ∷ s) [] = false
text_beq (c ∷ s) (d ∷ t) = nat_beq c d && text_beq s t

pub text_beq_iff : (s t : Text) → (text_beq s t ≡ true) ↔ (s ≡ t)
unfolding text_beq
text_beq_iff [] [] = (λ h. refl, λ h. refl)
text_beq_iff [] (d ∷ t) = (λ h. cc, λ h. cc)
text_beq_iff (c ∷ s) [] = (λ h. cc, λ h. cc)
text_beq_iff (c ∷ s) (d ∷ t) =
    (λ h. ground (arith, text_beq_iff s t), λ h. ground (arith, text_beq_iff s t))

instance abbrev pub text_eq : Eq Text
text_eq = record { beq = text_beq; beq_iff = text_beq_iff }

module _ {ℓ} {A : Type ℓ} ⦃e : Eq A⦄ where
  pub ==-refl : (a : A) → (a == a) ≡ true
  ==-refl a = (e.beq_iff a a).1 refl

  -- `contains`
  abbrev pub contains : List A → A → Bool
  contains [] a = false
  contains (x ∷ xs) a = x == a || contains xs a

  abbrev pub Distinct : List A → Type 0
  Distinct [] = Unit
  Distinct (x ∷ xs) = (contains xs x ≡ false) × Distinct xs

  pub contains-append :
      (xs ys : List A) (a : A) → contains (xs ++ ys) a ≡ (contains xs a || contains ys a)
  contains-append [] ys a = refl
  contains-append (x ∷ xs) ys a = ground (arith, contains-append xs ys a)

  abbrev erase : A → List A → List A
  erase a [] = []
  erase a (x ∷ xs) = if x == a then xs else x ∷ erase a xs

  length-erase :
      (a : A) (xs : List A) → contains xs a ≡ true → length xs ≡ suc (length (erase a xs))
  length-erase a [] h = cc
  length-erase a (x ∷ xs) h = ground (arith, length-erase a xs)

  contains-erase :
      (a b : A) (xs : List A)
      → contains xs b ≡ true
      → (a == b) ≡ false
      → contains (erase a xs) b ≡ true
  contains-erase a b [] h k = h
  contains-erase a b (x ∷ xs) h k =
      ground (arith, contains-erase a b xs, e.beq_iff x a, e.beq_iff x b, e.beq_iff a b)

  abbrev pub Subset : List A → List A → Type ℓ
  Subset xs ys = (a : A) → contains xs a ≡ true → contains ys a ≡ true

  -- Distinct elements of a list are at most as many as the list has.
  pub length-le_of_Distinct : (xs ys : List A) → Distinct xs → Subset xs ys → length xs ≤ length ys
  length-le_of_Distinct [] ys d s = omega arith
  length-le_of_Distinct (x ∷ xs) ys d s = omega (
    arith,
    length-erase x ys (s x (ground (arith, ==-refl x))),
    length-le_of_Distinct xs (erase x ys) d.1 rest,
  )
    where
      rest : Subset xs (erase x ys)
      rest a h = contains-erase x a ys (s a (ground arith)) (ground (arith, e.beq_iff x a, d.0))

  pub Distinct-append :
      (xs ys : List A)
      → Distinct xs
      → Distinct ys
      → ((a : A) → contains xs a ≡ true → contains ys a ≡ false)
      → Distinct (xs ++ ys)
  Distinct-append [] ys d k h = k
  Distinct-append (x ∷ xs) ys d k h = (
    ground (arith, contains-append xs ys x, h x (ground (arith, ==-refl x)), d.0),
    Distinct-append xs ys d.1 k (λ a m. h a (ground arith)),
  )

  pub contains-reverse : (xs : List A) (a : A) → contains (reverse xs) a ≡ contains xs a
  contains-reverse [] a = refl
  contains-reverse (x ∷ xs) a =
      rw (reverse-cons x xs)
        (ground (arith, contains-append (reverse xs) (x ∷ []) a, contains-reverse xs a))

  pub Distinct-reverse : (xs : List A) → Distinct xs → Distinct (reverse xs)
  Distinct-reverse [] d = tt
  Distinct-reverse (x ∷ xs) d = rw (reverse-cons x xs) (
      Distinct-append (reverse xs) (x ∷ []) (Distinct-reverse xs d.1) (refl, tt)
        (λ a m. ground (arith, contains-reverse xs a, d.0, e.beq_iff x a)))
