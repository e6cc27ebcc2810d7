-- ===== src/Common/Sorted/Order.antt =====
-- The maps stay sorted, and a range up to the end of a prefix is what has the prefix.
use mathlib.Core.Path.{◌≡◌, refl, sym, ap, subst}
use mathlib.Core.Logic.{inl, inr}
use mathlib.Core.Bool.{true, false}
use mathlib.Core.List.{[], ◌∷◌}
use native.Mathlib.Omega.{arith}
use puff.Common.Tests.{if_keeps, Bool-cases}
use puff.Common.Equality.{Text, ◌==◌, nat_eq, text_eq, text_beq, text_beq_iff}
use puff.Common.Strings.{starts_with}
use puff.Common.Sorted.{
  text_ltb, Sorted, put, take_out, range, while_prefix, with_prefix, Above, IsSorted,
}

pub text_ltb_irrefl : (s : Text) → text_ltb s s ≡ false
unfolding text_ltb
text_ltb_irrefl [] = refl
text_ltb_irrefl (c ∷ s) = ground (arith, text_ltb_irrefl s)

pub text_ltb_trans :
    (s t u : Text) → text_ltb s t ≡ true → text_ltb t u ≡ true → text_ltb s u ≡ true
unfolding text_ltb
text_ltb_trans [] [] u h k = cc
text_ltb_trans [] (d ∷ t) [] h k = cc
text_ltb_trans [] (d ∷ t) (e ∷ u) h k = refl
text_ltb_trans (c ∷ s) [] u h k = cc
text_ltb_trans (c ∷ s) (d ∷ t) [] h k = cc
text_ltb_trans (c ∷ s) (d ∷ t) (e ∷ u) h k = ground (arith, text_ltb_trans s t u)

-- Of two texts that differ one is above the other.
pub text_ltb-total : (s t : Text) → (t == s) ≡ false → text_ltb s t ≡ false → text_ltb t s ≡ true
unfolding text_ltb text_beq
text_ltb-total [] [] h k = cc
text_ltb-total [] (d ∷ t) h k = cc
text_ltb-total (c ∷ s) [] h k = refl
text_ltb-total (c ∷ s) (d ∷ t) h k = ground (arith, text_ltb-total s t)

-- A text is not above its prefix.
prefix_first : (p k : Text) → starts_with p k ≡ true → text_ltb k p ≡ false
unfolding starts_with text_ltb
prefix_first [] [] h = refl
prefix_first [] (c ∷ k) h = refl
prefix_first (d ∷ p) [] h = cc
prefix_first (d ∷ p) (c ∷ k) h = ground (arith, prefix_first p k)

-- Above a text that is not below the prefix and has it not, no text has it.
past_prefix :
    (p j k : Text)
    → text_ltb j p ≡ false
    → starts_with p j ≡ false
    → text_ltb j k ≡ true
    → starts_with p k ≡ false
unfolding starts_with text_ltb
past_prefix [] j k h n l = cc
past_prefix (d ∷ p) [] k h n l = cc
past_prefix (d ∷ p) (c ∷ j) [] h n l = refl
past_prefix (d ∷ p) (c ∷ j) (e ∷ k) h n l = ground (arith, past_prefix p j k)

-- A prefix of a key is not above it.
below_prefix : (p j : Text) → text_ltb j p ≡ true → starts_with p j ≡ false
below_prefix p j h = elim (Bool-cases (starts_with p j)) [
  | inl has ↦ let h' = prefix_first p j has in cc
  | inr hasnt ↦ hasnt
]

-- No key after the first one is below the prefix, if that is not.
not_below : (p j i : Text) → text_ltb j p ≡ false → text_ltb j i ≡ true → text_ltb i p ≡ false
not_below p j i h l = elim (Bool-cases (text_ltb i p)) [
  | inl below ↦ let h' = text_ltb_trans j i p l below in cc
  | inr ok ↦ ok
]

module _ {ℓ} {V : Type ℓ} where
  pub Above-trans : (k j : Text) (m : Sorted V) → text_ltb k j ≡ true → Above j m → Above k m
  Above-trans k j [] h a = tt
  Above-trans k j ((i, w) ∷ m) h a = text_ltb_trans k j i h a

  Above-put :
      (j k : Text) (v : V) (m : Sorted V) → text_ltb j k ≡ true → Above j m → Above j (put k v m)
  unfolding put
  Above-put j k v [] h a = h
  Above-put j k v ((i, w) ∷ m) h a =
      if_keeps (Above j) (i == k) h (if_keeps (Above j) (text_ltb k i) h a)

  pub put-IsSorted : (k : Text) (v : V) (m : Sorted V) → IsSorted m → IsSorted (put k v m)
  unfolding put
  put-IsSorted k v [] s = (tt, tt)
  put-IsSorted k v ((i, w) ∷ m) (a, s) = elim (Bool-cases (i == k)) [
    | inl same ↦ rw same (subst (λ x. Above x m) ((text_beq_iff i k).0 same) a, s)
    | inr other ↦ elim (Bool-cases (text_ltb k i)) [
      | inl below ↦ rw (other, below) (below, (a, s))
      | inr above ↦
          rw (other, above)
            (Above-put i k v m (text_ltb-total k i other above) a, put-IsSorted k v m s)
    ]
  ]

  Above-take_out : (j k : Text) (m : Sorted V) → Above j m → IsSorted m → Above j (take_out k m)
  unfolding take_out
  Above-take_out j k [] a s = tt
  Above-take_out j k ((i, w) ∷ m) a (b, s) = if_keeps (Above j) (i == k) (Above-trans j i m a b) a

  pub take_out-IsSorted : (k : Text) (m : Sorted V) → IsSorted m → IsSorted (take_out k m)
  unfolding take_out
  take_out-IsSorted k [] s = tt
  take_out-IsSorted k ((i, w) ∷ m) (a, s) =
      if_keeps IsSorted (i == k) s (Above-take_out i k m a s, take_out-IsSorted k m s)

  none_past :
      (p j : Text) (m : Sorted V)
      → text_ltb j p ≡ false
      → starts_with p j ≡ false
      → Above j m
      → IsSorted m
      → with_prefix p m ≡ []
  unfolding with_prefix
  none_past p j [] h n a s = refl
  none_past p j ((i, w) ∷ m) h n a s =
      rw (past_prefix p j i h n a) (none_past p j m h n (Above-trans j i m a s.0) s.1)

  while_prefix-all :
      (p j : Text) (w : V) (m : Sorted V)
      → text_ltb j p ≡ false
      → IsSorted ((j, w) ∷ m)
      → while_prefix p ((j, w) ∷ m) ≡ with_prefix p ((j, w) ∷ m)
  unfolding while_prefix with_prefix
  while_prefix-all p j w [] h s = refl
  while_prefix-all p j w ((i, v) ∷ m) h (a, s) = elim (Bool-cases (starts_with p j)) [
    | inl has ↦ rw has (ap (λ l. w ∷ l) (while_prefix-all p i v m (not_below p j i h a) s))
    | inr hasnt ↦ rw hasnt (sym (none_past p j ((i, v) ∷ m) h hasnt a s))
  ]

  -- The range from a prefix, up to the first key without it, has every entry with the prefix.
  pub range-while_prefix :
      (p : Text) (m : Sorted V) → IsSorted m → while_prefix p (range p m) ≡ with_prefix p m
  unfolding range with_prefix while_prefix
  range-while_prefix p [] s = refl
  range-while_prefix p ((j, w) ∷ m) (a, s) = elim (Bool-cases (text_ltb j p)) [
    | inl below ↦ rw (below, below_prefix p j below) (range-while_prefix p m s)
    | inr ok ↦ rw ok (while_prefix-all p j w m ok (a, s))
  ]
