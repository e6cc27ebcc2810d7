-- ===== src/Common/Tests.antt =====
-- Boolean tests on the native numbers, the conditional, and case lemmas.
use Prim.Native.Nat.{ℕ, ◌≤◌, ◌<◌, compare, Ordering}
use mathlib.Core.Path.{◌≡◌, refl, ap}
use mathlib.Core.Logic.{◌↔◌, ◌⊎◌, inl, inr}
use mathlib.Core.Bool.{Bool, true, false}
use mathlib.Core.Option.{Option, none, some}
use mathlib.Core.Option
use native.Mathlib.Omega.{arith}

abbrev pub ltb : ℕ → ℕ → Bool
ltb a b = elim (compare a b) [ Ordering.lt ↦ true | _ ↦ false ]

abbrev pub leb : ℕ → ℕ → Bool
leb a b = elim (compare a b) [ Ordering.gt ↦ false | _ ↦ true ]

abbrev pub nat_beq : ℕ → ℕ → Bool
nat_beq a b = elim (compare a b) [ Ordering.eq ↦ true | _ ↦ false ]

infix 1 if◌then◌else◌
abbrev pub if◌then◌else◌ {ℓ} : {A : Type ℓ} → Bool → A → A → A
if true then x else y = x
if false then x else y = y

pub ltb→lt : (a b : ℕ) → ltb a b ≡ true → a < b
ltb→lt a b h = ground arith

pub lt→ltb : (a b : ℕ) → a < b → ltb a b ≡ true
lt→ltb a b h = ground arith

pub leb→le : (a b : ℕ) → leb a b ≡ true → a ≤ b
leb→le a b h = ground arith

pub ruleset tests = (arith, ltb→lt, lt→ltb, leb→le)

pub nat_beq_iff : (a b : ℕ) → (nat_beq a b ≡ true) ↔ (a ≡ b)
nat_beq_iff a b = ground arith

pub Bool-cases : (b : Bool) → (b ≡ true) ⊎ (b ≡ false)
Bool-cases true = inl refl
Bool-cases false = inr refl

pub Option-cases {ℓ} : {A : Type ℓ} (o : Option A) → (o ≡ none) ⊎ ((a : A) × (o ≡ some a))
Option-cases none = inl refl
Option-cases (some a) = inr (a, refl)

-- `?` on an option that is there.
pub bind_then {ℓ κ} :
    {A : Type ℓ} {B : Type κ} (o : Option A) (f : A → Option B) {a : A} {r : Option B}
    → o ≡ some a
    → f a ≡ r
    → Option.bind o f ≡ r
unfolding Option.bind
bind_then o f e h = rw e h

-- `Option::is_some`
abbrev pub is_some {ℓ} : {A : Type ℓ} → Option A → Bool
is_some none = false
is_some (some a) = true

-- What holds of both branches.
pub if_keeps {ℓ κ} :
    {A : Type ℓ} (p : A → Type κ) (b : Bool) {x y : A} → p x → p y → p (if b then x else y)
if_keeps p true px py = px
if_keeps p false px py = py

-- What holds of each branch where it is taken.
pub if_cases {ℓ κ} :
    {A : Type ℓ} (p : A → Type κ) (b : Bool) {x y : A}
    → (b ≡ true → p x)
    → (b ≡ false → p y)
    → p (if b then x else y)
if_cases p true px py = px refl
if_cases p false px py = py refl

-- An option is there, and what it has is as a predicate says.
abbrev pub Gives : {A : Type 0} → (A → Type 0) → Option A → Type 0
Gives {A} p o = (a : A) × (o ≡ some a) × p a

pub Gives-map :
    {A B : Type 0} (f : A → B) (p : B → Type 0) (o : Option A)
    → Gives (λ a. p (f a)) o
    → Gives p (Option.map f o)
Gives-map f p o (a, e, h) = (f a, ap (Option.map f) e, h)

pub Gives-bind :
    {A B : Type 0} (p : A → Type 0) (q : B → Type 0) (o : Option A) (f : A → Option B)
    → Gives p o
    → ((a : A) → p a → Gives q (f a))
    → Gives q (Option.bind o f)
Gives-bind p q o f (a, e, h) next = let (b, e', h') = next a h in (b, bind_then o f e e', h')
