-- ===== src/Skills.antt =====
-- src/agents/skill.rs: the permissions of skills.
pub mod Glob
pub mod Loading
use puff.Common.{
  ℕ, Bool, true, false, not, ◌||◌, Option, none, some, List, [], ◌∷◌, Text, any, nat_beq,
  if◌then◌else◌,
}

pub record SkillPermissions : Type 0 where
  pub allow : List Text
  pub deny : List Text

-- `*`
abbrev pub wildcard : ℕ
wildcard = 42

-- `pattern.split('*')`: the first part, and the others.
unfoldable pub split_stars : Text → Text × List Text
split_stars [] = ([], [])
split_stars (c ∷ s) =
    let (first, parts) = split_stars s in
    if nat_beq c wildcard then ([], first ∷ parts) else (c ∷ first, parts)

-- What is left after a prefix, if it is one.
unfoldable pub after_prefix : Text → Text → Option Text
after_prefix [] s = some s
after_prefix (p ∷ ps) [] = none
after_prefix (p ∷ ps) (c ∷ s) = let rest = after_prefix ps s in if nat_beq p c then rest else none

abbrev pub or_first : Option Text → Option Text → Option Text
or_first (some s) later = some s
or_first none later = later

-- What is left after the first place where a part is found.
unfoldable pub after_found : Text → Text → Option Text
unfolding after_prefix
after_found part [] = after_prefix part []
after_found part (c ∷ s) =
    let later = after_found part s in or_first (after_prefix part (c ∷ s)) later

abbrev pub nothing_left : Text → Bool
nothing_left [] = true
nothing_left (c ∷ s) = false

-- What is left, if it is there, or the pattern does not match.
abbrev pub if_found : Option Text → (Text → Bool) → Bool
if_found none matches = false
if_found (some rest) matches = matches rest

-- The parts after the first.
unfoldable pub match_parts : List Text → Text → Bool
unfolding after_found
match_parts [] remaining = nothing_left remaining
match_parts ([] ∷ parts) remaining = true
match_parts ((c ∷ part) ∷ parts) remaining =
    if_found (after_found (c ∷ part) remaining) (match_parts parts)

unfoldable pub glob_matches : Text → Text → Bool
unfolding split_stars after_prefix match_parts
glob_matches pattern value =
    let (first, parts) = split_stars pattern in
    if_found (after_prefix first value) (match_parts parts)

-- The patterns to allow, of which there may be none.
abbrev pub allowed_by : List Text → Text → Bool
allowed_by [] command = true
allowed_by (p ∷ ps) command = any (λ q. glob_matches q command) (p ∷ ps)

unfoldable pub command_allowed : SkillPermissions → Text → Bool
unfolding glob_matches
command_allowed permissions command =
    if any (λ p. glob_matches p command) permissions.deny
    then false
    else allowed_by permissions.allow command
