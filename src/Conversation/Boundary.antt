-- ===== src/Conversation/Boundary.antt =====
-- Character boundaries: the loop finds one, and a slice there does not panic.
use mathlib.Core.List.{append_assoc}
use puff.Common.{
  ℕ, zero, suc, ◌+◌, ◌-◌, ◌≤◌, ◌<◌, ◌≡◌, ◌∙◌, refl, false, true, ◌&&◌, not, some, [], ◌∷◌, ◌++◌,
  Text, ltb, leb, nat_beq, arith, Bool-cases, inl, inr, ap,
}
use puff.Conversation.{
  utf8_len, len, is_char_boundary, slice_from, next_boundary, find_char_boundary,
}

utf8_len_positive : (c : ℕ) → 1 ≤ utf8_len c
unfolding utf8_len
utf8_len_positive c = ground arith

pub len-append : (s t : Text) → len (s ++ t) ≡ len s + len t
unfolding len
len-append [] t = omega arith
len-append (c ∷ s) t = omega (arith, len-append s t)

is_char_boundary-len : (s : Text) → is_char_boundary s (len s) ≡ true
unfolding is_char_boundary len
is_char_boundary-len [] = refl
is_char_boundary-len (c ∷ s) =
    let back : (utf8_len c + len s) - utf8_len c ≡ len s = omega arith in
    ground (arith, utf8_len_positive c, is_char_boundary-len s, back)

next_boundary_found :
    (fuel : ℕ) (s : Text) (index : ℕ)
    → index ≤ len s
    → len s ≤ fuel + index
    → (is_char_boundary s (next_boundary fuel s index) ≡ true)
      × (index ≤ next_boundary fuel s index)
unfolding next_boundary
next_boundary_found zero s index h k =
    let at_end : index ≡ len s = omega arith in (rw at_end (is_char_boundary-len s), omega arith)
next_boundary_found (suc fuel) s index h k =
    elim (Bool-cases (ltb index (len s) && not (is_char_boundary s index))) [
      | inl on ↦
          let (found, after) =
            next_boundary_found fuel s (suc index) (ground arith) (omega arith) in
          rw on (found, omega arith)
      | inr stop ↦ rw stop (elim (Bool-cases (is_char_boundary s index)) [
        | inl found ↦ (found, omega arith)
        | inr inside ↦
            let at_end : index ≡ len s = ground arith in
            (rw at_end (is_char_boundary-len s), omega arith)
      ])
    ]

-- A slice at a boundary is a suffix, with the bytes that follow the index.
pub slice_from_boundary :
    (s : Text) (index : ℕ)
    → is_char_boundary s index ≡ true
    → (before : Text) × (rest : Text) × (slice_from s index ≡ some rest)
      × (s ≡ before ++ rest)
      × (len rest + index ≡ len s)
unfolding slice_from is_char_boundary len
slice_from_boundary [] index h = ([], [], ground arith, refl, ground arith)
slice_from_boundary (c ∷ s) index h = elim (Bool-cases (nat_beq index 0)) [
  | inl start ↦ ([], c ∷ s, rw start refl, refl, ground arith)
  | inr later ↦
      let (before, rest, e, e', e'') = slice_from_boundary s (index - utf8_len c) (ground arith) in
      let within : leb (utf8_len c) index ≡ true = ground arith in
      (c ∷ before, rest, rw (later, within) e, ap (◌∷◌ c) e', ground arith)
]

-- Between the index and where the loop ends there is no boundary.
next_boundary_first :
    (fuel : ℕ) (s : Text) (index j : ℕ)
    → index ≤ j
    → j < next_boundary fuel s index
    → is_char_boundary s j ≡ false
unfolding next_boundary
next_boundary_first zero s index j h k = absurd (omega arith)
next_boundary_first (suc fuel) s index j h k =
    elim (Bool-cases (ltb index (len s) && not (is_char_boundary s index))) [
      | inl on ↦
          let later : j < next_boundary fuel s (suc index) = rw on at k in
          elim (Bool-cases (nat_beq index j)) [
            | inl same ↦ let e : index ≡ j = ground arith in rw⁻¹ e (ground arith)
            | inr after ↦ next_boundary_first fuel s (suc index) j (ground arith) later
          ]
      | inr stop ↦ let here : j < index = rw stop at k in absurd (omega arith)
    ]

is_char_boundary-append : (s t : Text) → is_char_boundary (s ++ t) (len s) ≡ true
unfolding is_char_boundary len
is_char_boundary-append [] [] = refl
is_char_boundary-append [] (c ∷ t) = refl
is_char_boundary-append (c ∷ s) t =
    let back : (utf8_len c + len s) - utf8_len c ≡ len s = omega arith in
    ground (arith, utf8_len_positive c, is_char_boundary-append s t, back)

last_of : (s : Text) → 1 ≤ len s → (before : Text) × (c : ℕ) × (s ≡ before ++ c ∷ [])
unfolding len
last_of [] h = absurd (omega arith)
last_of (c ∷ []) h = ([], c, refl)
last_of (c ∷ d ∷ s) h =
    let (before, x, e) = last_of (d ∷ s) (unfold len in omega (arith, utf8_len_positive d)) in
    (c ∷ before, x, ap (◌∷◌ c) e)

-- From an index after the start and within the text, the slice is the longest end of the text with no more
-- bytes than follow the index: with the character before it, it has more.
pub slice_from-find_char_boundary :
    (s : Text) (index : ℕ)
    → 1 ≤ index
    → index ≤ len s
    → (before : Text) × (c : ℕ) × (rest : Text) × (slice_from s (find_char_boundary s index)
        ≡ some rest)
      × (s ≡ before ++ c ∷ rest)
      × (len rest + index ≤ len s)
      × (len s < len (c ∷ rest) + index)
unfolding find_char_boundary
slice_from-find_char_boundary s index p h =
    let (found, after) = next_boundary_found (len s - index) s index h (omega arith) in
    let (front, rest, e, e', e'') = slice_from_boundary s (find_char_boundary s index) found in
    let whole : len s ≡ len front + len rest = ap len e' ∙ len-append front rest in
    let (before, c, k) = last_of front (omega arith) in
    let split : s ≡ before ++ c ∷ rest =
      e' ∙ ap (λ x. x ++ rest) k ∙ append_assoc before (c ∷ []) rest in
    let at : is_char_boundary s (len before) ≡ true =
      ap (λ x. is_char_boundary x (len before)) split ∙ is_char_boundary-append before (c ∷ rest) in
    let parts : len s ≡ len before + len (c ∷ rest) = ap len split ∙ len-append before (c ∷ rest) in
    let one : len (c ∷ rest) ≡ utf8_len c + len rest = unfold len in refl in
    let inside : len before < index = elim (Bool-cases (leb index (len before))) [
      | inr less ↦ ground arith
      | inl more ↦
          let none_there =
            next_boundary_first (len s - index) s index (len before) (ground arith)
              (omega (arith, utf8_len_positive c)) in
          absurd (ground arith)
    ] in
    (before, c, rest, e, split, omega arith, omega arith)
