-- ===== src/Common/Sorted/Lookup.antt =====
-- What the operations of the sorted maps do to a lookup.
use mathlib.Core.Path.{◌≡◌, refl}
use mathlib.Core.List.{[], ◌∷◌}
use mathlib.Core.Option.{none, some}
use mathlib.Core.Logic.{inl, inr}
use native.Mathlib.Omega.{arith}
use puff.Common.Tests.{if◌then◌else◌, Bool-cases}
use puff.Common.Equality.{Text, ◌==◌, text_eq, text_beq_iff}
use puff.Common.Sorted.{Sorted, find_key, put, take_out, Above, IsSorted}
use puff.Common.Sorted.Order.{text_ltb_irrefl, Above-trans}

module _ {ℓ} {V : Type ℓ} where
  pub find_key-put :
      (j k : Text) (v : V) (m : Sorted V)
      → find_key j (put k v m) ≡ (if k == j then some v else find_key j m)
  unfolding find_key put
  find_key-put j k v [] = refl
  find_key-put j k v ((i, w) ∷ m) =
      ground (arith, find_key-put j k v m, text_beq_iff i k, text_beq_iff i j, text_beq_iff k j)

  -- A key below all others is not there.
  find_key-Above : (k : Text) (m : Sorted V) → Above k m → IsSorted m → find_key k m ≡ none
  unfolding find_key
  find_key-Above k [] a s = refl
  find_key-Above k ((i, w) ∷ m) a (b, s) = elim (Bool-cases (i == k)) [
    | inl same ↦
        let e = (text_beq_iff i k).0 same in
        let i_first = text_ltb_irrefl k in absurd (ground (arith, a, e, i_first))
    | inr other ↦ rw other (find_key-Above k m (Above-trans k i m a b) s)
  ]

  pub find_key-take_out :
      (j k : Text) (m : Sorted V)
      → IsSorted m
      → find_key j (take_out k m) ≡ (if k == j then none else find_key j m)
  unfolding find_key take_out
  find_key-take_out j k [] s = ground arith
  find_key-take_out j k ((i, w) ∷ m) (a, s) = ground (
    arith,
    find_key-take_out j k m s,
    find_key-Above i m a s,
    text_beq_iff i k,
    text_beq_iff i j,
    text_beq_iff k j,
  )
