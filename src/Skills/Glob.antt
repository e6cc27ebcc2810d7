-- ===== src/Skills/Glob.antt =====
-- The search for the parts of a pattern finds a place for them where there is one.
pub mod Meaning
use puff.Common.{
  ℕ, ◌≡◌, ◌≢◌, ◌↔◌, refl, sym, ap, ◌∙◌, Bool, true, false, not, ◌&&◌, Option, none, some, List, [],
  ◌∷◌, ◌++◌, Text, nat_beq, nat_beq_iff, if◌then◌else◌, Bool-cases, inl, inr, arith, Option-cases,
  length, length-append, ◌≤◌, ◌<◌, suc,
}
use mathlib.Core.List.{append_assoc, append-nil}
use puff.Skills.{
  wildcard, split_stars, after_prefix, or_first, if_found, after_found, nothing_left, match_parts,
  glob_matches, SkillPermissions, command_allowed,
}

-- The text goes on with each part, after anything.
unfoldable pub Fits : List Text → Text → Type 0
Fits [] s = s ≡ []
Fits (part ∷ parts) s =
    (skipped : Text) × (rest : Text) × (s ≡ skipped ++ part ++ rest) × Fits parts rest

pub after_prefix_sound : (p s r : Text) → after_prefix p s ≡ some r → s ≡ p ++ r
unfolding after_prefix
after_prefix_sound [] s r h = cc
after_prefix_sound (p ∷ ps) [] r h = cc
after_prefix_sound (p ∷ ps) (c ∷ s) r h = ground (arith, nat_beq_iff p c, after_prefix_sound ps s r)

pub after_prefix-append : (p s : Text) → after_prefix p (p ++ s) ≡ some s
unfolding after_prefix
after_prefix-append [] s = refl
after_prefix-append (p ∷ ps) s = ground (arith, nat_beq_iff p p, after_prefix-append ps s)

after_found_sound :
    (p s r : Text) → after_found p s ≡ some r → (skipped : Text) × (s ≡ skipped ++ p ++ r)
unfolding after_found
after_found_sound p [] r h = ([], after_prefix_sound p [] r h)
after_found_sound p (c ∷ s) r h = elim (Option-cases (after_prefix p (c ∷ s))) [
  | inl not_here ↦
      let (k, e) =
        after_found_sound p s r (sym (ap (λ o. or_first o (after_found p s)) not_here) ∙ h) in
      (c ∷ k, ap (λ t. c ∷ t) e)
  | inr (x, here) ↦ (
    [],
    after_prefix_sound p (c ∷ s) r (here ∙ sym (ap (λ o. or_first o (after_found p s)) here) ∙ h),
  )
]

pub found_in_front : (p s r : Text) → after_prefix p s ≡ some r → after_found p s ≡ some r
unfolding after_found
found_in_front p [] r h = h
found_in_front p (c ∷ s) r h = ap (λ o. or_first o (after_found p s)) h

-- Of two ends of one text, the longer ends with the shorter.
longer_end :
    (a b x y : Text) → a ++ x ≡ b ++ y → length a ≤ length b → (more : Text) × (x ≡ more ++ y)
longer_end [] b x y e h = (b, e)
longer_end (c ∷ a) [] x y e h = absurd (omega arith)
longer_end (c ∷ a) (d ∷ b) x y e h = longer_end a b x y (cc) (omega arith)

-- A place that is found leaves no less than any other place.
after_found_first :
    (p skipped rest : Text)
    → (more : Text) × (after_found p (skipped ++ p ++ rest) ≡ some (more ++ rest))
unfolding after_found
after_found_first p [] rest = ([], found_in_front p (p ++ rest) rest (after_prefix-append p rest))
after_found_first p (c ∷ k) rest = elim (Option-cases (after_prefix p (c ∷ (k ++ p ++ rest)))) [
  | inl not_here ↦
      let (more, e) = after_found_first p k rest in
      (more, ap (λ o. or_first o (after_found p (k ++ p ++ rest))) not_here ∙ e)
  | inr (x, here) ↦
      let (more, e) =
        longer_end p (c ∷ (k ++ p)) x rest (sym (after_prefix_sound p _ x here))
          (omega (arith, length-append k p)) in
      (more, ap (λ o. or_first o (after_found p (k ++ p ++ rest))) here ∙ ap some e)
]

-- Parts whose last is empty, as those of a pattern that ends with a star, or no parts.
unfoldable pub IsOpen : List Text → Type 0
IsOpen [] = ⊥
IsOpen ([] ∷ []) = Unit
IsOpen ([] ∷ p ∷ ps) = ⊥
IsOpen ((c ∷ p) ∷ ps) = IsOpen ps

nil_twice : (s : Text) → s ≡ s ++ [] ++ []
nil_twice s = sym (append-nil (s ++ []) ∙ append-nil s)

Fits_more : (ps : List Text) (more s : Text) → IsOpen ps → Fits ps s → Fits ps (more ++ s)
unfolding IsOpen Fits
Fits_more [] more s o f = absurd o
Fits_more ([] ∷ []) more s o f = (more ++ s, [], nil_twice (more ++ s), refl)
Fits_more ([] ∷ p ∷ ps) more s o f = absurd o
Fits_more ((c ∷ p) ∷ ps) more s o (skipped, rest, e, f) =
    (more ++ skipped, rest, ap (λ t. more ++ t) e ∙ regrouped, f)
  where
    regrouped : more ++ (skipped ++ (c ∷ p) ++ rest) ≡ more ++ skipped ++ (c ∷ p) ++ rest
    regrouped =
        sym (append_assoc more (skipped ++ (c ∷ p)) rest)
        ∙ ap (λ t. t ++ rest) (sym (append_assoc more skipped (c ∷ p)))

pub match_parts_sound :
    (ps : List Text) (s : Text) → IsOpen ps → match_parts ps s ≡ true → Fits ps s
unfolding match_parts IsOpen Fits
match_parts_sound [] s o h = absurd o
match_parts_sound ([] ∷ []) s o h = (s, [], nil_twice s, refl)
match_parts_sound ([] ∷ p ∷ ps) s o h = absurd o
match_parts_sound ((c ∷ p) ∷ ps) s o h = elim (Option-cases (after_found (c ∷ p) s)) [
  | inl nowhere ↦ absurd (ground (arith, ap (λ o. if_found o (match_parts ps)) nowhere, h))
  | inr (rest, found) ↦
      let (skipped, e) = after_found_sound (c ∷ p) s rest found in
      (
        skipped,
        rest,
        e,
        match_parts_sound ps rest o (sym (ap (λ o. if_found o (match_parts ps)) found) ∙ h),
      )
]

pub match_parts_complete :
    (ps : List Text) (s : Text) → IsOpen ps → Fits ps s → match_parts ps s ≡ true
unfolding match_parts IsOpen Fits
match_parts_complete [] s o f = absurd o
match_parts_complete ([] ∷ ps) s o f = refl
match_parts_complete ((c ∷ p) ∷ ps) s o (skipped, rest, e, f) =
    let (more, found) = after_found_first (c ∷ p) skipped rest in
    ap (λ t. if_found (after_found (c ∷ p) t) (match_parts ps)) e
    ∙ ap (λ o. if_found o (match_parts ps)) found
    ∙ match_parts_complete ps (more ++ rest) o (Fits_more ps more rest o f)
