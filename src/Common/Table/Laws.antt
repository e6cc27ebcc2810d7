-- ===== src/Common/Table/Laws.antt =====
-- What a read sees after each write, and what each write does to the keys.
use Prim.Native.Nat.{suc, ◌≤◌}
use mathlib.Core.Path.{◌≡◌, refl, ap}
use mathlib.Core.Bool.{Bool}
use mathlib.Core.Logic.{inl, inr}
use mathlib.Core.List.{[], ◌∷◌, ◌++◌}
use mathlib.Core.Option.{Option, none, some}
use mathlib.Core.Option
use native.Mathlib.Omega.{arith}
use puff.Common.Tests.{if◌then◌else◌, Bool-cases}
use puff.Common.Lists.{length, count}
use puff.Common.Equality.{Eq, ◌==◌, contains, Distinct}
use puff.Common.Table.Defs.{Table, get, has, insert, remove, update, keys, values}

module _ {ℓ κ} {K : Type ℓ} {V : Type κ} ⦃e : Eq K⦄ where
  pub get-insert :
      (k j : K) (v : V) (t : Table K V)
      → get j (insert k v t) ≡ (if k == j then some v else get j t)
  unfolding get insert
  get-insert k j v [] = refl
  get-insert k j v ((i, w) ∷ t) =
      ground (arith, get-insert k j v t, e.beq_iff i k, e.beq_iff i j, e.beq_iff k j)

  pub get-remove :
      (k j : K) (t : Table K V) → get j (remove k t) ≡ (if k == j then none else get j t)
  unfolding get remove
  get-remove k j [] = ground arith
  get-remove k j ((i, w) ∷ t) =
      ground (arith, get-remove k j t, e.beq_iff i k, e.beq_iff i j, e.beq_iff k j)

  pub get-update :
      (k j : K) (f : V → V) (t : Table K V)
      → get j (update k f t) ≡ (if k == j then Option.map f (get j t) else get j t)
  unfolding get update
  get-update k j f [] = ground arith
  get-update k j f ((i, w) ∷ t) =
      ground (arith, get-update k j f t, e.beq_iff i k, e.beq_iff i j, e.beq_iff k j)

  pub contains-keys : (k : K) (t : Table K V) → contains (keys t) k ≡ has k t
  unfolding get
  contains-keys k [] = refl
  contains-keys k ((i, w) ∷ t) = ground (arith, contains-keys k t)

  pub keys-update : (k : K) (f : V → V) (t : Table K V) → keys (update k f t) ≡ keys t
  unfolding update
  keys-update k f [] = refl
  keys-update k f ((i, w) ∷ t) = ground (arith, keys-update k f t)

  pub Distinct-insert :
      (k : K) (v : V) (t : Table K V) → Distinct (keys t) → Distinct (keys (insert k v t))
  unfolding insert
  Distinct-insert k v [] d = (refl, tt)
  Distinct-insert k v ((i, w) ∷ t) (fresh, d) = elim (Bool-cases (i == k)) [
    | inl same ↦ rw same (fresh, d)
    | inr other ↦ rw other (
      ground (
        arith,
        contains-keys i (insert k v t),
        contains-keys i t,
        get-insert k i v t,
        e.beq_iff i k,
        e.beq_iff k i,
      ),
      Distinct-insert k v t d,
    )
  ]

  pub Distinct-remove : (k : K) (t : Table K V) → Distinct (keys t) → Distinct (keys (remove k t))
  unfolding remove
  Distinct-remove k [] d = tt
  Distinct-remove k ((i, w) ∷ t) (fresh, d) = elim (Bool-cases (i == k)) [
    | inl same ↦ rw same (Distinct-remove k t d)
    | inr other ↦ rw other (
      ground (arith, contains-keys i (remove k t), contains-keys i t, get-remove k i t),
      Distinct-remove k t d,
    )
  ]

  -- A new key goes to the end.
  pub insert_new :
      (k : K) (v : V) (t : Table K V) → get k t ≡ none → insert k v t ≡ t ++ (k, v) ∷ []
  unfolding get insert
  insert_new k v [] h = refl
  insert_new k v ((i, w) ∷ t) h = ground (arith, insert_new k v t)

  pub length-update : (k : K) (f : V → V) (t : Table K V) → length (update k f t) ≡ length t
  unfolding update
  length-update k f [] = refl
  length-update k f ((i, w) ∷ t) = ground (arith, length-update k f t)

  pub length-insert_le : (k : K) (v : V) (t : Table K V) → length (insert k v t) ≤ suc (length t)
  unfolding insert
  length-insert_le k v [] = ground arith
  length-insert_le k v ((i, w) ∷ t) = ground (arith, length-insert_le k v t)

  -- A write that a test does not see leaves the number of values that pass it.
  pub count-update :
      (p : V → Bool) (k : K) (f : V → V) (t : Table K V)
      → ((v : V) → p (f v) ≡ p v)
      → count p (values (update k f t)) ≡ count p (values t)
  unfolding update
  count-update p k f [] h = refl
  count-update p k f ((i, w) ∷ t) h = ground (arith, count-update p k f t h, h w)

  pub count-insert_new :
      (p : V → Bool) (k : K) (v : V) (t : Table K V)
      → get k t ≡ none
      → count p (values (insert k v t))
        ≡ (if p v then suc (count p (values t)) else count p (values t))
  unfolding get insert
  count-insert_new p k v [] h = refl
  count-insert_new p k v ((i, w) ∷ t) h = ground (arith, count-insert_new p k v t)

module _ {ℓ κ} {K : Type ℓ} {V : Type κ} where
  pub length-keys : (t : Table K V) → length (keys t) ≡ length t
  length-keys [] = refl
  length-keys (e ∷ t) = ap suc (length-keys t)
