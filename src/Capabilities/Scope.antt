-- ===== src/Capabilities/Scope.antt =====
-- src/agents/capabilities.rs, `scope_matches`.
use mathlib.Core.List.{append_assoc}
use puff.Common.{
  ◌≡◌, ◌↔◌, ◌⊎◌, inl, inr, refl, sym, ◌∙◌, Bool, true, ◌||◌, Option, none, some, [], ◌++◌, Text,
  codes, arith, if◌then◌else◌, ◌==◌, text_eq, Bool-cases, ==-refl,
}
use puff.Common.Strings.{starts_with, strip_suffix, starts_with_iff, strip_suffix_iff}

-- The branch on `pattern.strip_suffix("/*")`.
unfoldable pub matches_under : Option Text → Text → Text → Bool
matches_under none pattern target = target == pattern
matches_under (some prefix) pattern target =
    target == prefix || starts_with (prefix ++ codes "/") target

unfoldable pub scope_matches : Text → Text → Bool
unfolding matches_under
scope_matches pattern target =
    if pattern == [] || pattern == codes "*"
    then true
    else matches_under (strip_suffix (codes "/*") pattern) pattern target

-- The target is the prefix itself or lies below it.
abbrev pub Under : Text → Text → Type 0
Under prefix target = (target ≡ prefix) ⊎ ((rest : Text) × (target ≡ (prefix ++ codes "/") ++ rest))

-- What a pattern means: everything, the target itself, or a scope and all that lies below it.
pub data Matches (pattern target : Text) : Type 0 where
  root : pattern ≡ [] → Matches pattern target
  star : pattern ≡ codes "*" → Matches pattern target
  same : target ≡ pattern → Matches pattern target
  under :
      (prefix : Text)
      → pattern ≡ prefix ++ codes "/*"
      → Under prefix target
      → Matches pattern target

matches_under_sound :
    (o : Option Text) (pattern target : Text)
    → strip_suffix (codes "/*") pattern ≡ o
    → matches_under o pattern target ≡ true
    → Matches pattern target
unfolding matches_under
matches_under_sound none pattern target e h = same ((text_eq.beq_iff target pattern).0 h)
matches_under_sound (some prefix) pattern target e h =
    under prefix ((strip_suffix_iff (codes "/*") pattern prefix).0 e)
      (elim (Bool-cases (target == prefix)) [
        | inl equal ↦ inl ((text_eq.beq_iff target prefix).0 equal)
        | inr other ↦ inr ((starts_with_iff (prefix ++ codes "/") target).0 (ground arith))
      ])

scope_matches_sound :
    (pattern target : Text) → scope_matches pattern target ≡ true → Matches pattern target
unfolding scope_matches
scope_matches_sound pattern target h = elim (Bool-cases (pattern == [])) [
  | inl empty ↦ root ((text_eq.beq_iff pattern []).0 empty)
  | inr nonempty ↦ elim (Bool-cases (pattern == codes "*")) [
    | inl any ↦ star ((text_eq.beq_iff pattern (codes "*")).0 any)
    | inr narrow ↦
        matches_under_sound (strip_suffix (codes "/*") pattern) pattern target refl (ground arith)
  ]
]

matches_under_complete :
    (prefix pattern target : Text)
    → Under prefix target
    → matches_under (some prefix) pattern target ≡ true
unfolding matches_under
matches_under_complete prefix pattern target (inl e) = ground (arith, text_eq.beq_iff target prefix)
matches_under_complete prefix pattern target (inr below) =
    ground (arith, (starts_with_iff (prefix ++ codes "/") target).1 below)

matches_under_same :
    (o : Option Text) (pattern : Text)
    → strip_suffix (codes "/*") pattern ≡ o
    → matches_under o pattern pattern ≡ true
unfolding matches_under
matches_under_same none pattern e = ==-refl pattern
matches_under_same (some prefix) pattern e = matches_under_complete prefix pattern pattern (
    inr (
      codes "*",
      (strip_suffix_iff (codes "/*") pattern prefix).0 e
          ∙ sym (append_assoc prefix (codes "/") (codes "*")),
    ))

scope_matches_complete :
    (pattern target : Text) → Matches pattern target → scope_matches pattern target ≡ true
unfolding scope_matches
scope_matches_complete pattern target (root e) = ground (arith, text_eq.beq_iff pattern [])
scope_matches_complete pattern target (star e) = ground (arith, text_eq.beq_iff pattern (codes "*"))
scope_matches_complete pattern target (same e) =
    rw e (ground (arith, matches_under_same (strip_suffix (codes "/*") pattern) pattern refl))
scope_matches_complete pattern target (under prefix e u) = ground (
  arith,
  (strip_suffix_iff (codes "/*") pattern prefix).1 e,
  matches_under_complete prefix pattern target u,
)

-- `scope_matches` accepts exactly what its pattern means: `""` and `"*"` match all; `"p/*"` matches
-- `p` and all that begins with `"p/"`; and any pattern matches itself, and nothing else.
pub scope_matches_iff :
    (pattern target : Text) → (scope_matches pattern target ≡ true) ↔ Matches pattern target
scope_matches_iff pattern target =
    (scope_matches_sound pattern target, scope_matches_complete pattern target)
