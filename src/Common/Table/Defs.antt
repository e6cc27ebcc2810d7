-- ===== src/Common/Table/Defs.antt =====
-- The operations of the maps.
use mathlib.Core.Bool.{Bool}
use mathlib.Core.List.{List, [], ◌∷◌, map}
use mathlib.Core.Option.{Option, none, some}
use puff.Common.Tests.{if◌then◌else◌, is_some}
use puff.Common.Equality.{Eq, ◌==◌}

abbrev pub Table {ℓ κ} : Type ℓ → Type κ → Type (ℓ ⊔ κ)
Table K V = List (K × V)

module _ {ℓ κ} {K : Type ℓ} {V : Type κ} where
  -- `keys`
  abbrev pub keys : Table K V → List K
  keys t = map (λ e. e.0) t

  -- `values`
  abbrev pub values : Table K V → List V
  values t = map (λ e. e.1) t

module _ {ℓ κ} {K : Type ℓ} {V : Type κ} ⦃e : Eq K⦄ where
  -- `get`
  unfoldable pub get : K → Table K V → Option V
  get k [] = none
  get k ((j, v) ∷ t) = if j == k then some v else get k t

  -- `contains_key`
  abbrev pub has : K → Table K V → Bool
  has k t = is_some (get k t)

  -- `insert`
  unfoldable pub insert : K → V → Table K V → Table K V
  insert k v [] = (k, v) ∷ []
  insert k v ((j, w) ∷ t) = if j == k then (j, v) ∷ t else (j, w) ∷ insert k v t

  -- `remove`
  unfoldable pub remove : K → Table K V → Table K V
  remove k [] = []
  remove k ((j, w) ∷ t) = let rest = remove k t in if j == k then rest else (j, w) ∷ rest

  -- A write through `get_mut`, which does nothing where the key is missing.
  unfoldable pub update : K → (V → V) → Table K V → Table K V
  update k f [] = []
  update k f ((j, w) ∷ t) = if j == k then (j, f w) ∷ t else (j, w) ∷ update k f t
