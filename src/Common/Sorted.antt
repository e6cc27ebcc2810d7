-- ===== src/Common/Sorted.antt =====
-- `BTreeMap` with texts as its keys: the entries in the order of the keys.
pub mod Order
pub mod Lookup
use mathlib.Core.Path.{◌≡◌}
use mathlib.Core.Bool.{Bool, true, false, ◌&&◌, ◌||◌}
use mathlib.Core.List.{List, [], ◌∷◌}
use mathlib.Core.Option.{Option, none, some}
use Prim.Native.Nat.{ℕ}
use puff.Common.Tests.{ltb, if◌then◌else◌}
use puff.Common.Equality.{Text, ◌==◌, nat_eq, text_eq}
use puff.Common.Strings.{starts_with}

-- `<` on strings.
unfoldable pub text_ltb : Text → Text → Bool
text_ltb [] [] = false
text_ltb [] (d ∷ t) = true
text_ltb (c ∷ s) [] = false
text_ltb (c ∷ s) (d ∷ t) = ltb c d || (c == d && text_ltb s t)

abbrev pub Sorted {ℓ} : Type ℓ → Type ℓ
Sorted V = List (Text × V)

module _ {ℓ} {V : Type ℓ} where
  unfoldable pub find_key : Text → Sorted V → Option V
  find_key k [] = none
  find_key k ((j, v) ∷ m) = if j == k then some v else find_key k m

  -- `insert`
  unfoldable pub put : Text → V → Sorted V → Sorted V
  put k v [] = (k, v) ∷ []
  put k v ((j, w) ∷ m) =
      let later = (j, w) ∷ put k v m in
      if j == k then (k, v) ∷ m else if text_ltb k j then (k, v) ∷ (j, w) ∷ m else later

  -- `remove`
  unfoldable pub take_out : Text → Sorted V → Sorted V
  take_out k [] = []
  take_out k ((j, w) ∷ m) = let later = (j, w) ∷ take_out k m in if j == k then m else later

  -- `range(from..)`
  unfoldable pub range : Text → Sorted V → Sorted V
  range from [] = []
  range from ((j, w) ∷ m) =
      let later = range from m in if text_ltb j from then later else (j, w) ∷ m

  -- The entries up to the first one whose key has not the prefix.
  unfoldable pub while_prefix : Text → Sorted V → List V
  while_prefix p [] = []
  while_prefix p ((j, w) ∷ m) =
      let more = while_prefix p m in if starts_with p j then w ∷ more else []

  -- `values`
  unfoldable pub values_of : Sorted V → List V
  values_of [] = []
  values_of ((j, w) ∷ m) = w ∷ values_of m

  -- The values whose keys have the prefix.
  unfoldable pub with_prefix : Text → Sorted V → List V
  with_prefix p [] = []
  with_prefix p ((j, w) ∷ m) =
      let more = with_prefix p m in if starts_with p j then w ∷ more else more

  -- Each key is above the key before it.
  abbrev pub Above : Text → Sorted V → Type 0
  Above k [] = Unit
  Above k ((j, w) ∷ m) = text_ltb k j ≡ true

  abbrev pub IsSorted : Sorted V → Type 0
  IsSorted [] = Unit
  IsSorted ((j, w) ∷ m) = Above j m × IsSorted m
