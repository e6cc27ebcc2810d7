-- ===== src/Examples/Team.antt =====
-- A router with one agent in sight.
use puff.Common.{
  ap, arith, ℕ, suc, ◌≡◌, refl, none, some, List, [], ◌∷◌, Text, codes, text_beq, Result, ok,
}
use puff.Errors.{AgentError}
use puff.Common.Strings.{starts_with, strip_suffix, is_whitespace}
use puff.Capabilities.Scope.{scope_matches}
use puff.Orchestration.{RoutedAgent, Router, visible_agents, route, visible_from, sees_agent}
use puff.Orchestration.Routes.{hidden_agent_routed}
use puff.Orchestration.Numerals.{digit}
use puff.Orchestration.Visible.{visible_agents_iff}
use puff.Capabilities.Checks.Laws.{Sees}
use mathlib.Core.List.{Memᴰ}

abbrev hidden : RoutedAgent
hidden = record { name = codes "hr"; scope = some (codes "people"); system_prompt = none }

abbrev seen : RoutedAgent
seen = record { name = codes "seller"; scope = some (codes "sales"); system_prompt = none }

abbrev router : Router
router = record {
  name = codes "r";
  router_prompt = [];
  router_model = [];
  agents = hidden ∷ seen ∷ [];
  visible_scopes = codes "sales/*" ∷ [];
}

-- The model names the agent that it was not shown.
abbrev chat : List (ℕ × RoutedAgent) → Text → ℕ → Result AgentError Text × ℕ
chat listed message w = (ok (codes " 0 is best"), suc w)

hidden_not_seen : ¬ Sees router.visible_scopes hidden.scope hidden.name
unfolding visible_agents visible_from sees_agent scope_matches starts_with strip_suffix text_beq
hidden_not_seen s = elim ((visible_agents_iff router 0 hidden).1 (refl, s)) [
  | Memᴰ.head e ↦ absurd (omega (arith, ap (λ p. p.0) e))
  | Memᴰ.tail m ↦ elim m [ ]
]

hidden_agent_routed_example :
    (¬ Memᴰ {A = ℕ × RoutedAgent} (0, hidden) ((1, seen) ∷ []))
    × ((route chat router (codes "hi") 0).0 ≡ ok 0)
unfolding visible_agents scope_matches starts_with strip_suffix text_beq is_whitespace
hidden_agent_routed_example =
    hidden_agent_routed chat router (codes "hi") 0 (1, seen) [] 0 hidden (codes " ") (codes "0")
      (codes " is best") refl refl hidden_not_seen (refl, tt) (digit 0 (omega arith)) refl
      (omega arith) refl
