-- ===== src/Orchestration/Routes.antt =====
-- Which index the router returns.
use mathlib.Core.Option
use mathlib.Core.List.{Memᴰ}
use puff.Common.{
  ℕ, suc, zero, ◌<◌, ◌^◌, ◌≡◌, some, List, [], ◌∷◌, ◌++◌, Text, All, length, get_elem?, arith,
  Result, ok, err,
}
use puff.Errors.{AgentError}
use puff.Capabilities.Checks.Laws.{Sees}
use puff.Orchestration.{
  RoutedAgent, Router, visible_agents, first_word, parse_usize, checked_index, answered, route,
}
use puff.Orchestration.Visible.{visible_agents_iff}
use puff.Orchestration.Numerals.{Numeral, Blank, EndsWord, number_read}

get-lt_length :
    (xs : List RoutedAgent) (i : ℕ) (a : RoutedAgent) → get_elem? xs i ≡ some a → i < length xs
get-lt_length [] i a e = cc
get-lt_length (x ∷ xs) zero a e = omega arith
get-lt_length (x ∷ xs) (suc i) a e = omega (arith, get-lt_length xs i a e)

-- The check of the index is against all agents.
answered-named :
    (r : Router) (turn : Result AgentError Text) (answer : Text) (i : ℕ)
    → turn ≡ ok answer
    → Option.bind (first_word answer) parse_usize ≡ some i
    → i < length r.agents
    → answered r turn ≡ ok i
unfolding answered checked_index
answered-named r (err e) answer i h n l = cc
answered-named r (ok text) answer i h n l =
    let same : text ≡ answer = cc in rw same (rw n (ground arith))

-- Let a router see some agents, but not the one at an index below 2^64. Then that one is not in the list that
-- the model is shown; and where the model answers that index in decimal digits, after any blanks, and with
-- nothing or a blank and any text behind, the router returns it.
pub hidden_agent_routed :
    {W : Type 0} (chat : List (ℕ × RoutedAgent) → Text → W → Result AgentError Text × W)
    (r : Router) (message : Text) (w : W) (v : ℕ × RoutedAgent) (vs : List (ℕ × RoutedAgent))
    (i : ℕ) (a : RoutedAgent) (blanks s after : Text)
    → visible_agents r ≡ v ∷ vs
    → get_elem? r.agents i ≡ some a
    → ¬ Sees r.visible_scopes a.scope a.name
    → All Blank blanks
    → Numeral s i
    → EndsWord after
    → i < 2 ^ 64
    → (chat (v ∷ vs) message w).0 ≡ ok (blanks ++ (s ++ after))
    → (¬ Memᴰ (i, a) (v ∷ vs)) × ((route chat r message w).0 ≡ ok i)
unfolding route
hidden_agent_routed chat r message w v vs i a blanks s after e at hidden bl m en b h = (
  λ k. hidden ((visible_agents_iff r i a).0 (rw e k)).1,
  rw (e, route)
      (answered-named r (chat (v ∷ vs) message w).0 (blanks ++ (s ++ after)) i h
        (number_read blanks s after i bl m en b) (get-lt_length r.agents i a at)),
)
