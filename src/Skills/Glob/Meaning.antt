-- ===== src/Skills/Glob/Meaning.antt =====
-- What a pattern matches, and where the matcher misses it.
use puff.Common.{
  ℕ, ◌≡◌, ◌≢◌, ◌↔◌, ◌⊎◌, refl, sym, ap, ◌∙◌, true, false, List, [], ◌∷◌, ◌++◌, Text, nat_beq,
  nat_beq_iff, Bool-cases, inl, inr, arith, Option-cases, All,
}
use mathlib.Core.Path.{subst}
use mathlib.Core.List.{append_assoc}
use puff.Skills.{
  wildcard, split_stars, after_prefix, if_found, after_found, nothing_left, match_parts,
  glob_matches, command_allowed,
}
use puff.Skills.Glob.{
  Fits, IsOpen, after_prefix_sound, after_prefix-append, found_in_front, match_parts_sound,
  match_parts_complete,
}

-- What a pattern means: a star stands for any text, and what is no star for itself.
pub data Globs : Text → Text → Type 0 where
  done : Globs [] []
  exactly : {p s : Text} (c : ℕ) → c ≢ wildcard → Globs p s → Globs (c ∷ p) (c ∷ s)
  skips : {p s : Text} (skipped : Text) → Globs p s → Globs (wildcard ∷ p) (skipped ++ s)

-- The text starts with the first part, and the others fit.
FitsAll : Text × List Text → Text → Type 0
FitsAll (first, parts) s = (rest : Text) × (s ≡ first ++ rest) × Fits parts rest

split_star : (p : Text) → split_stars (wildcard ∷ p) ≡ ([], (split_stars p).0 ∷ (split_stars p).1)
unfolding split_stars
split_star p = refl

split_other :
    (c : ℕ) (p : Text)
    → c ≢ wildcard
    → split_stars (c ∷ p) ≡ (c ∷ (split_stars p).0, (split_stars p).1)
unfolding split_stars
split_other c p n = elim (Bool-cases (nat_beq c wildcard)) [
  | inl same ↦ absurd (n ((nat_beq_iff c wildcard).0 same))
  | inr other ↦ rw other refl
]

Globs-FitsAll : (p s : Text) → Globs p s → FitsAll (split_stars p) s
unfolding FitsAll Fits split_stars
Globs-FitsAll _ _ done = ([], refl, refl)
Globs-FitsAll _ _ (exactly {p} {s} c n g) =
    let (rest, e, f) = Globs-FitsAll p s g in rw (split_other c p n) (rest, ap (λ t. c ∷ t) e, f)
Globs-FitsAll _ _ (skips {p} {s} k g) =
    let (rest, e, f) = Globs-FitsAll p s g in
    (k ++ s, refl, (k, rest, ap (λ t. k ++ t) e ∙ sym (append_assoc k (split_stars p).0 rest), f))

module _ (p : Text) (rest_globs : (t : Text) → FitsAll (split_stars p) t → Globs p t) where
  globs_star : (s : Text) → FitsAll (split_stars (wildcard ∷ p)) s → Globs (wildcard ∷ p) s
  unfolding FitsAll Fits split_stars
  globs_star s (all, e, (k, rest, e', f)) =
      rw (e, e', append_assoc k (split_stars p).0 rest)
        (skips k (rest_globs ((split_stars p).0 ++ rest) (rest, refl, f)))

  globs_other :
      (c : ℕ) (s : Text)
      → c ≢ wildcard
      → FitsAll (c ∷ (split_stars p).0, (split_stars p).1) s
      → Globs (c ∷ p) s
  unfolding FitsAll Fits split_stars
  globs_other c s n (rest, e, f) =
      rw e (exactly c n (rest_globs ((split_stars p).0 ++ rest) (rest, refl, f)))

FitsAll-Globs : (p s : Text) → FitsAll (split_stars p) s → Globs p s
unfolding FitsAll Fits split_stars
FitsAll-Globs [] s (rest, e, f) = rw (e, f) done
FitsAll-Globs (c ∷ p) s h = elim (Bool-cases (nat_beq c wildcard)) [
  | inl same ↦
      let is_star = (nat_beq_iff c wildcard).0 same in
      rw is_star
        (globs_star p (FitsAll-Globs p) s (subst (λ x. FitsAll (split_stars (x ∷ p)) s) is_star h))
  | inr other ↦
      let n : c ≢ wildcard = λ e. absurd (ground (arith, (nat_beq_iff c wildcard).1 e)) in
      globs_other p (FitsAll-Globs p) c s n (subst (λ x. FitsAll x s) (split_other c p n) h)
]

-- Patterns without a star, or with stars of which the last ends it and no two stand side by side.
abbrev pub IsPlain : Text → Type 0
IsPlain pattern = IsOpen (split_stars pattern).1 ⊎ ((split_stars pattern).1 ≡ [])

parts_sound :
    (ps : List Text) (s : Text) → IsOpen ps ⊎ (ps ≡ []) → match_parts ps s ≡ true → Fits ps s
unfolding match_parts Fits
parts_sound ps s (inl o) h = match_parts_sound ps s o h
parts_sound [] [] (inr e) h = refl
parts_sound [] (c ∷ s) (inr e) h = cc
parts_sound (p ∷ ps) s (inr e) h = cc

parts_complete :
    (ps : List Text) (s : Text) → IsOpen ps ⊎ (ps ≡ []) → Fits ps s → match_parts ps s ≡ true
unfolding match_parts Fits
parts_complete ps s (inl o) f = match_parts_complete ps s o f
parts_complete [] [] (inr e) f = refl
parts_complete [] (c ∷ s) (inr e) f = cc
parts_complete (p ∷ ps) s (inr e) f = cc

-- A pattern without a star, or with stars of which the last ends it and no two stand side by side, matches a text exactly
-- when the text is the pattern with some text for each star.
pub glob_matches_iff :
    (pattern value : Text)
    → IsPlain pattern
    → (glob_matches pattern value ≡ true) ↔ Globs pattern value
unfolding glob_matches FitsAll
glob_matches_iff pattern value plain = (
  λ h. elim (Option-cases (after_prefix (split_stars pattern).0 value)) [
    | inl nowhere ↦
        absurd
          (ground (arith, ap (λ o. if_found o (match_parts (split_stars pattern).1)) nowhere, h))
    | inr (rest, found) ↦ FitsAll-Globs pattern value (
      rest,
      after_prefix_sound (split_stars pattern).0 value rest found,
      parts_sound (split_stars pattern).1 rest plain
          (sym (ap (λ o. if_found o (match_parts (split_stars pattern).1)) found) ∙ h),
    )
  ],
  λ g.
      let (rest, e, f) = Globs-FitsAll pattern value g in
      ap
        (λ t.
          if_found (after_prefix (split_stars pattern).0 t) (match_parts (split_stars pattern).1))
        e
      ∙ ap (λ o. if_found o (match_parts (split_stars pattern).1))
          (after_prefix-append (split_stars pattern).0 rest)
      ∙ parts_complete (split_stars pattern).1 rest plain f,
)

split_starless : (w : Text) → All (λ c. c ≢ wildcard) w → split_stars w ≡ (w, [])
unfolding split_stars
split_starless [] a = refl
split_starless (c ∷ w) (n, a) = split_other c w n ∙ ap (λ (f, ps). (c ∷ f, ps)) (split_starless w a)

Globs_itself : (w : Text) → All (λ c. c ≢ wildcard) w → Globs w w
Globs_itself [] a = done
Globs_itself (c ∷ w) (n, a) = exactly c n (Globs_itself w a)

not_empty : (gap : Text) (c : ℕ) (p : Text) → nothing_left (gap ++ c ∷ p) ≡ false
not_empty [] c p = refl
not_empty (d ∷ gap) c p = refl

missed : (c : ℕ) (p gap : Text) → match_parts ((c ∷ p) ∷ []) ((c ∷ p) ++ gap ++ (c ∷ p)) ≡ false
unfolding match_parts
missed c p gap =
    ap (λ t. if_found (after_found (c ∷ p) t) nothing_left) (append_assoc (c ∷ p) gap (c ∷ p))
    ∙ ap (λ o. if_found o nothing_left)
        (found_in_front (c ∷ p) ((c ∷ p) ++ (gap ++ c ∷ p)) (gap ++ c ∷ p)
          (after_prefix-append (c ∷ p) (gap ++ c ∷ p)))
    ∙ not_empty gap c p

glob_star :
    (w value : Text)
    → glob_matches (wildcard ∷ w) value ≡ match_parts ((split_stars w).0 ∷ (split_stars w).1) value
unfolding glob_matches split_stars after_prefix
glob_star w value = refl

not_denied :
    (pattern value : Text)
    → glob_matches pattern value ≡ false
    → command_allowed (record { allow = []; deny = pattern ∷ [] }) value ≡ true
unfolding command_allowed
not_denied pattern value h = rw h refl

-- Where the only pattern to deny is a star and then a text that is not empty and has no stars, and there is no
-- pattern to allow, a command that is that text, then any text, and then that text again is allowed, though
-- it is the pattern with some text for the star.
pub denied_is_allowed :
    (c : ℕ) (p gap : Text)
    → All (λ d. d ≢ wildcard) (c ∷ p)
    → Globs (wildcard ∷ c ∷ p) ((c ∷ p) ++ gap ++ (c ∷ p))
      × (command_allowed
            (record { allow = []; deny = (wildcard ∷ c ∷ p) ∷ [] })
            ((c ∷ p) ++ gap ++ (c ∷ p))
          ≡ true)
denied_is_allowed c p gap starless = (
  skips ((c ∷ p) ++ gap) (Globs_itself (c ∷ p) starless),
  not_denied (wildcard ∷ c ∷ p) ((c ∷ p) ++ gap ++ (c ∷ p)) (
      glob_star (c ∷ p) ((c ∷ p) ++ gap ++ (c ∷ p))
      ∙ ap (λ x. match_parts (x.0 ∷ x.1) ((c ∷ p) ++ gap ++ (c ∷ p)))
          (split_starless (c ∷ p) starless)
      ∙ missed c p gap),
)
