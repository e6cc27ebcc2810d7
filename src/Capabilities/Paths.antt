-- ===== src/Capabilities/Paths.antt =====
-- `Path::components` and `Path::starts_with` of the standard library, for Unix paths.
use puff.Common.{
  ℕ, Bool, true, false, ◌&&◌, List, [], ◌∷◌, Text, codes, if◌then◌else◌, ◌==◌, text_eq, nat_eq,
  text_beq,
}
use puff.Common.Strings.{starts_with}

pub data Component : Type 0 where
  root_dir cur_dir parent_dir : Component
  normal : Text → Component

unfoldable pub component_beq : Component → Component → Bool
unfolding text_beq
component_beq root_dir root_dir = true
component_beq cur_dir cur_dir = true
component_beq parent_dir parent_dir = true
component_beq (normal a) (normal b) = a == b
component_beq _ _ = false

push_char : ℕ → List Text → List Text
push_char c [] = (c ∷ []) ∷ []
push_char c (piece ∷ rest) = (c ∷ piece) ∷ rest

-- The pieces between the slashes.
unfoldable pub pieces : Text → List Text
unfolding push_char
pieces [] = [] ∷ []
pieces (c ∷ s) = let rest = pieces s in if c == b'/' then [] ∷ rest else push_char c rest

-- Empty pieces and `.` are skipped.
unfoldable pub inner : List Text → List Component
unfolding text_beq
inner [] = []
inner (piece ∷ more) =
    let rest = inner more in
    if piece == []
    then rest
    else if piece == codes "."
    then rest
    else if piece == codes ".."
    then parent_dir ∷ rest
    else normal piece ∷ rest

-- A leading `.` is kept.
relative : List Text → List Component
unfolding inner
relative [] = []
relative (first ∷ more) = if first == codes "." then cur_dir ∷ inner more else inner (first ∷ more)

unfoldable pub components : Text → List Component
unfolding pieces inner relative starts_with
components path =
    if starts_with (codes "/") path then root_dir ∷ inner (pieces path) else relative (pieces path)

unfoldable pub is_prefix : List Component → List Component → Bool
unfolding component_beq
is_prefix [] path = true
is_prefix (a ∷ base) [] = false
is_prefix (a ∷ base) (b ∷ path) = component_beq a b && is_prefix base path

-- `path.starts_with(base)`
unfoldable pub path_starts_with : Text → Text → Bool
unfolding components is_prefix
path_starts_with path base = is_prefix (components base) (components path)
