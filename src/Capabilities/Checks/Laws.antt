-- ===== src/Capabilities/Checks/Laws.antt =====
-- What the checks accept, and what a malformed capability makes them accept.
use mathlib.Core.List.{Memᴰ}
use puff.Common.{
  ◌≡◌, ◌↔◌, ◌⊎◌, inl, inr, refl, Bool, true, false, Option, List, [], ◌∷◌, Text, ◌++◌, any, any_iff,
  arith, text_eq, text_beq_iff, ok, err, Bool-cases, guard, ◌>>◌,
}
use puff.Capabilities.Types.{FsCapability, AgentCapabilities}
use puff.Capabilities.Scope.{scope_matches, scope_matches_iff, Matches}
use puff.Capabilities.Paths.{
  Component, normal, component_beq, is_prefix, components, path_starts_with,
}
use puff.Capabilities.Checks.{
  Check, fs_check, check_filesystem, check_agent, check_agent_scoped, scope_check, sees,
  scope_or_empty,
}

component_beq_iff : (a b : Component) → (component_beq a b ≡ true) ↔ (a ≡ b)
unfolding component_beq
component_beq_iff (normal a) (normal b) = ground (arith, text_beq_iff a b)
component_beq_iff _ _ = ground arith

is_prefix_iff :
    (base path : List Component)
    → (is_prefix base path ≡ true) ↔ ((rest : List Component) × (path ≡ base ++ rest))
unfolding is_prefix
is_prefix_iff [] path = (λ h. (path, refl), λ h. refl)
is_prefix_iff (a ∷ base) [] = (λ h. cc, λ (rest, e). cc)
is_prefix_iff (a ∷ base) (b ∷ path) = (
  λ h.
      let (rest, e) = (is_prefix_iff base path).0 (ground arith) in
      (rest, ground (arith, component_beq_iff a b)),
  λ (rest, e).
      ground (arith, component_beq_iff a b, (is_prefix_iff base path).1 (rest, ground arith)),
)

guard_iff {ℓ} : {E : Type ℓ} (b : Bool) (e : E) → (guard b e ≡ ok tt) ↔ (b ≡ true)
guard_iff b e = ground arith

both : (x y : Check) → (x >> y) ≡ ok tt → (x ≡ ok tt) × (y ≡ ok tt)
both (ok _) y h = (refl, h)
both (err e) y h = cc

-- The path begins, component by component, with one of the directories.
abbrev pub Inside : List Text → Text → Type 0
Inside dirs path =
    (dir : Text) × Memᴰ dir dirs
    × ((rest : List Component) × (components path ≡ components dir ++ rest))

abbrev pub Grants : FsCapability → Text → Bool → Type 0
Grants FsCapability.none path write = ⊥
Grants (FsCapability.read_only dirs) path write = (write ≡ false) × Inside dirs path
Grants (FsCapability.read_write dirs) path write = Inside dirs path

Inside-iff :
    (dirs : List Text) (path : Text) → (any (path_starts_with path) dirs ≡ true) ↔ Inside dirs path
unfolding path_starts_with
Inside-iff dirs path = (
  λ h.
      let (dir, m, k) = (any_iff (path_starts_with path) dirs).0 h in
      (dir, m, (is_prefix_iff (components dir) (components path)).0 k),
  λ (dir, m, k).
      (any_iff (path_starts_with path) dirs).1
        (dir, m, (is_prefix_iff (components dir) (components path)).1 k),
)

fs_check_iff :
    (c : FsCapability) (path : Text) (write : Bool)
    → (fs_check c path write ≡ ok tt) ↔ Grants c path write
unfolding fs_check
fs_check_iff FsCapability.none path write = (λ h. cc, λ h. absurd h)
fs_check_iff (FsCapability.read_only dirs) path true = (λ h. cc, λ h. cc (h.0))
fs_check_iff (FsCapability.read_only dirs) path false = (
  λ h. (refl, (Inside-iff dirs path).0 ((guard_iff _ _).0 h)),
  λ h. (guard_iff _ _).1 ((Inside-iff dirs path).1 h.1),
)
fs_check_iff (FsCapability.read_write dirs) path write = (
  λ h. (Inside-iff dirs path).0 ((guard_iff _ _).0 h),
  λ h. (guard_iff _ _).1 ((Inside-iff dirs path).1 h),
)

-- A file access is allowed exactly when a listed directory's components begin the path's, and it is no
-- write where the capability is `ReadOnly`.
pub check_filesystem_iff :
    {F64 : Type 0} (caps : AgentCapabilities F64) (path : Text) (write : Bool)
    → (check_filesystem caps path write ≡ ok tt) ↔ Grants caps.filesystem path write
unfolding check_filesystem
check_filesystem_iff caps path write = fs_check_iff caps.filesystem path write

-- The target may be called by the capability, and where there are visible scopes, one of them matches
-- its scope (the empty one if it has none) or its name.
abbrev pub Sees : List Text → Option Text → Text → Type 0
Sees visible_scopes scope name =
    (visible_scopes ≡ [])
    ⊎ ((p : Text) × Memᴰ p visible_scopes × (Matches p (scope_or_empty scope) ⊎ Matches p name))

sees-found :
    (scopes : List Text) (scope : Option Text) (name : Text)
    → sees scopes (scope_or_empty scope) name ≡ true
    → (p : Text) × Memᴰ p scopes × (Matches p (scope_or_empty scope) ⊎ Matches p name)
unfolding sees
sees-found scopes scope name h =
    let (p, m, k) = (any_iff _ scopes).0 h in
    (
      p,
      m,
      elim (Bool-cases (scope_matches p (scope_or_empty scope))) [
        | inl by_scope ↦ inl ((scope_matches_iff p (scope_or_empty scope)).0 by_scope)
        | inr other ↦ inr ((scope_matches_iff p name).0 (ground arith))
      ],
    )

seen_by :
    (scopes : List Text) (scope : Option Text) (name p : Text)
    → Memᴰ p scopes
    → Matches p (scope_or_empty scope) ⊎ Matches p name
    → sees scopes (scope_or_empty scope) name ≡ true
unfolding sees
seen_by scopes scope name p m (inl k) =
    (any_iff _ scopes).1 (p, m, ground (arith, (scope_matches_iff p (scope_or_empty scope)).1 k))
seen_by scopes scope name p m (inr k) =
    (any_iff _ scopes).1 (p, m, ground (arith, (scope_matches_iff p name).1 k))

scope_check_iff :
    (scopes : List Text) (scope : Option Text) (name : Text)
    → (scope_check scopes name scope ≡ ok tt) ↔ Sees scopes scope name
unfolding scope_check
scope_check_iff [] scope name = (λ h. inl refl, λ h. refl)
scope_check_iff (q ∷ qs) scope name = (
  λ h. inr (sees-found (q ∷ qs) scope name ((guard_iff _ _).0 h)),
  λ h. elim h [
    | inl e ↦ cc
    | inr (p, m, k) ↦ (guard_iff _ _).1 (seen_by (q ∷ qs) scope name p m k)
  ],
)

-- `check_agent_scoped` allows a call exactly when `check_agent` does and the target is visible.
pub check_agent_scoped_iff :
    {F64 : Type 0} (caps : AgentCapabilities F64) (name : Text) (scope : Option Text)
    (visible_scopes : List Text)
    → (check_agent_scoped caps name scope visible_scopes ≡ ok tt)
      ↔ ((check_agent caps name ≡ ok tt) × Sees visible_scopes scope name)
unfolding check_agent_scoped
check_agent_scoped_iff caps name scope visible_scopes = (
  λ h. let (a, b) = both _ _ h in (a, (scope_check_iff visible_scopes scope name).0 b),
  λ (a, b). rw a ((scope_check_iff visible_scopes scope name).1 b),
)
