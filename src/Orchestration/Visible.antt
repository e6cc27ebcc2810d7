-- ===== src/Orchestration/Visible.antt =====
-- Which agents the router shows to the model.
use mathlib.Core.List.{Memᴰ}
use puff.Common.{
  ℕ, zero, suc, ◌+◌, ◌≡◌, ◌↔◌, ◌⊎◌, inl, inr, refl, sym, ap, ◌∙◌, Bool, true, false, some, List, [],
  ◌∷◌, Text, any, any_iff, arith, Bool-cases, get_elem?, if◌then◌else◌,
}
use puff.Capabilities.Scope.{scope_matches, scope_matches_iff, Matches}
use puff.Capabilities.Checks.{scope_or_empty}
use puff.Capabilities.Checks.Laws.{Sees}
use puff.Orchestration.{RoutedAgent, Router, sees_agent, visible_from, all_from, visible_agents}

-- The agent stands at this index of a list whose first index is given.
abbrev At : List RoutedAgent → ℕ → ℕ → RoutedAgent → Type 0
At xs i k a = (j : ℕ) × (k ≡ i + j) × (get_elem? xs j ≡ some a)

At-later :
    (x : RoutedAgent) (xs : List RoutedAgent) (i k : ℕ) (a : RoutedAgent)
    → At xs (suc i) k a
    → At (x ∷ xs) i k a
At-later x xs i k a (j, e, g) = (suc j, omega arith, g)

At-all :
    (xs : List RoutedAgent) (i k : ℕ) (a : RoutedAgent) → Memᴰ (k, a) (all_from i xs) → At xs i k a
unfolding all_from
At-all [] i k a m = elim m [ ]
At-all (x ∷ xs) i k a (Memᴰ.head e) =
    let n : k ≡ i = ap (λ p. p.0) e in (0, omega arith, ap (λ p. some p.1) (sym e))
At-all (x ∷ xs) i k a (Memᴰ.tail m) = At-later x xs i k a (At-all xs (suc i) k a m)

all_at :
    (xs : List RoutedAgent) (i j : ℕ) (a : RoutedAgent)
    → get_elem? xs j ≡ some a
    → Memᴰ (i + j, a) (all_from i xs)
unfolding all_from
all_at [] i j a g = cc
all_at (x ∷ xs) i zero a g =
    let same : a ≡ x = cc in let here : i + 0 ≡ i = omega arith in Memᴰ.head (rw (same, here) refl)
all_at (x ∷ xs) i (suc j) a g =
    let shift : i + suc j ≡ suc i + j = omega arith in
    Memᴰ.tail (rw shift (all_at xs (suc i) j a g))

-- An entry of a list that a test has put one more entry before, or not.
kept-cases :
    (b : Bool) (y z : ℕ × RoutedAgent) (zs : List (ℕ × RoutedAgent))
    → Memᴰ y (if b then z ∷ zs else zs)
    → ((b ≡ true) × (y ≡ z)) ⊎ Memᴰ y zs
kept-cases true y z zs (Memᴰ.head e) = inl (refl, e)
kept-cases true y z zs (Memᴰ.tail m) = inr m
kept-cases false y z zs m = inr m

kept_later :
    (b : Bool) (y z : ℕ × RoutedAgent) (zs : List (ℕ × RoutedAgent))
    → Memᴰ y zs
    → Memᴰ y (if b then z ∷ zs else zs)
kept_later true y z zs m = Memᴰ.tail m
kept_later false y z zs m = m

At-visible :
    (ps : List Text) (xs : List RoutedAgent) (i k : ℕ) (a : RoutedAgent)
    → Memᴰ (k, a) (visible_from ps i xs)
    → At xs i k a × (sees_agent ps a ≡ true)
unfolding visible_from
At-visible ps [] i k a m = elim m [ ]
At-visible ps (x ∷ xs) i k a m = elim (kept-cases (sees_agent ps x) (k, a) (i, x) _ m) [
  | inl (s, e) ↦
      let n : k ≡ i = ap (λ p. p.0) e in
      let same : a ≡ x = ap (λ p. p.1) e in
      ((0, omega arith, ap some (sym same)), ap (sees_agent ps) same ∙ s)
  | inr later ↦ let (at, s) = At-visible ps xs (suc i) k a later in (At-later x xs i k a at, s)
]

visible_at :
    (ps : List Text) (xs : List RoutedAgent) (i j : ℕ) (a : RoutedAgent)
    → get_elem? xs j ≡ some a
    → sees_agent ps a ≡ true
    → Memᴰ (i + j, a) (visible_from ps i xs)
unfolding visible_from
visible_at ps [] i j a g s = cc
visible_at ps (x ∷ xs) i zero a g s =
    let same : x ≡ a = cc in
    let here : i + 0 ≡ i = omega arith in rw (same, s, here) (Memᴰ.head refl)
visible_at ps (x ∷ xs) i (suc j) a g s =
    let shift : i + suc j ≡ suc i + j = omega arith in
    kept_later (sees_agent ps x) _ _ _ (rw shift (visible_at ps xs (suc i) j a g s))

sees_agent_iff :
    (ps : List Text) (a : RoutedAgent)
    → (sees_agent ps a ≡ true)
      ↔ ((p : Text) × Memᴰ p ps × (Matches p (scope_or_empty a.scope) ⊎ Matches p a.name))
unfolding sees_agent
sees_agent_iff ps a = (
  λ h. elim (Bool-cases (any (λ p. scope_matches p (scope_or_empty a.scope)) ps)) [
    | inl by_scope ↦
        let (p, m, k) = (any_iff _ ps).0 by_scope in
        (p, m, inl ((scope_matches_iff p (scope_or_empty a.scope)).0 k))
    | inr other ↦
        let (p, m, k) = (any_iff (λ p. scope_matches p a.name) ps).0 (ground arith) in
        (p, m, inr ((scope_matches_iff p a.name).0 k))
  ],
  λ (p, m, k). elim k [
    | inl by_scope ↦
        let hit =
          (any_iff (λ p. scope_matches p (scope_or_empty a.scope)) ps).1
            (p, m, (scope_matches_iff p (scope_or_empty a.scope)).1 by_scope) in
        ground arith
    | inr by_name ↦
        let hit =
          (any_iff (λ p. scope_matches p a.name) ps).1
            (p, m, (scope_matches_iff p a.name).1 by_name) in
        ground arith
  ],
)

shown_iff :
    (r : Router) (ps : List Text) (i : ℕ) (a : RoutedAgent)
    → r.visible_scopes ≡ ps
    → Memᴰ (i, a) (visible_agents r) ↔ ((get_elem? r.agents i ≡ some a) × Sees ps a.scope a.name)
unfolding visible_agents
shown_iff r [] i a e =
    rw (visible_agents, e)
      (
        λ m.
            let (j, n, g) = At-all r.agents 0 i a m in
            let same : i ≡ j = omega arith in (rw same g, inl refl),
        λ (g, s). let from : i ≡ 0 + i = omega arith in rw from (all_at r.agents 0 i a g),
      )
shown_iff r (q ∷ qs) i a e =
    rw (visible_agents, e, e)
      (
        λ m.
            let ((j, n, g), s) = At-visible (q ∷ qs) r.agents 0 i a m in
            let same : i ≡ j = omega arith in (rw same g, inr ((sees_agent_iff (q ∷ qs) a).0 s)),
        λ (g, s). elim s [
          | inl e' ↦ cc
          | inr k ↦
              let from : i ≡ 0 + i = omega arith in
              rw from (visible_at (q ∷ qs) r.agents 0 i a g ((sees_agent_iff (q ∷ qs) a).1 k))
        ],
      )

-- The router shows an agent at an index exactly when it is the agent at that index among all, and it is
-- visible by the rule of `check_agent_scoped`: there are no visible scopes, or one of them matches the
-- agent's scope (the empty one if it has none) or its name.
pub visible_agents_iff :
    (r : Router) (i : ℕ) (a : RoutedAgent)
    → Memᴰ (i, a) (visible_agents r)
      ↔ ((get_elem? r.agents i ≡ some a) × Sees r.visible_scopes a.scope a.name)
visible_agents_iff r i a = shown_iff r r.visible_scopes i a refl
