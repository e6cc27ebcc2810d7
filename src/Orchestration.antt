-- ===== src/Orchestration.antt =====
-- src/agents/orchestration.rs: the router, the chain and the handoff. A call of the language model, and a
-- turn of an agent, is a parameter over the world that they change.
pub mod Numerals
pub mod Routes
pub mod Visible
pub mod Chains
pub mod Delegation
pub mod Parallel
use mathlib.Core.Option
use puff.Common.{
  ℕ, suc, ◌+◌, ◌*◌, ◌-◌, ◌^◌, Bool, ◌&&◌, ◌||◌, Option, none, some, List, [], ◌∷◌, ◌++◌, Text,
  codes, any, ltb, leb, length, if◌then◌else◌, ◌==◌, text_eq, nat_eq, Result, ok, err,
}
use puff.Common.Strings.{is_whitespace, trim_start}
use puff.Errors.{
  AgentError, orchestration_error, no_visible_agents, not_an_integer, out_of_bounds,
  chain_without_agents,
}
use puff.Capabilities.Scope.{scope_matches}
use puff.Capabilities.Checks.{scope_or_empty}
use puff.Conversation.{Conversation, new, add_user_message, add_message, user, plain}

-- The fields of `Agent` that routing reads.
pub record RoutedAgent : Type 0 where
  pub name : Text
  pub scope : Option Text
  pub system_prompt : Option Text

pub record Router : Type 0 where
  pub name : Text
  pub router_prompt : Text
  pub router_model : Text
  pub agents : List RoutedAgent
  pub visible_scopes : List Text

unfoldable pub sees_agent : List Text → RoutedAgent → Bool
sees_agent visible_scopes a =
    any (λ p. scope_matches p (scope_or_empty a.scope)) visible_scopes
    || any (λ p. scope_matches p a.name) visible_scopes

-- `enumerate()` from an index, and `filter(..)`.
unfoldable pub visible_from : List Text → ℕ → List RoutedAgent → List (ℕ × RoutedAgent)
unfolding sees_agent
visible_from visible_scopes i [] = []
visible_from visible_scopes i (a ∷ more) =
    let rest = visible_from visible_scopes (suc i) more in
    if sees_agent visible_scopes a then (i, a) ∷ rest else rest

unfoldable pub all_from : ℕ → List RoutedAgent → List (ℕ × RoutedAgent)
all_from i [] = []
all_from i (a ∷ more) = (i, a) ∷ all_from (suc i) more

unfoldable pub visible_agents : Router → List (ℕ × RoutedAgent)
unfolding visible_from all_from
visible_agents r = elim r.visible_scopes [
  | [] ↦ all_from 0 r.agents
  | (p ∷ ps) ↦ visible_from r.visible_scopes 0 r.agents
]

-- `split_whitespace().next()`
unfoldable pub word : Text → Text
word [] = []
word (c ∷ s) = let rest = word s in if is_whitespace c then [] else c ∷ rest

unfoldable pub first_word : Text → Option Text
unfolding word trim_start
first_word s = elim (word (trim_start s)) [ [] ↦ none | (c ∷ w) ↦ some (c ∷ w) ]

-- `str::parse::<usize>`: digits that stay below 2^64.
unfoldable pub digits : ℕ → Text → Option ℕ
digits n [] = some n
digits n (c ∷ s) =
    let later = digits (n * 10 + (c - b'0')) s in
    if leb b'0' c && leb c b'9' && ltb (n * 10 + (c - b'0')) (2 ^ 64) then later else none

-- A leading `+` is allowed, an empty text is not.
unfoldable pub parse_usize : Text → Option ℕ
unfolding digits
parse_usize [] = none
parse_usize (c ∷ []) = digits 0 (c ∷ [])
parse_usize (c ∷ d ∷ s) = if c == b'+' then digits 0 (d ∷ s) else digits 0 (c ∷ d ∷ s)

-- The check of the index that was parsed, if one was.
unfoldable pub checked_index : Router → Text → Option ℕ → Result AgentError ℕ
checked_index r response none = err (orchestration_error (not_an_integer r.name response))
checked_index r response (some index) =
    if leb (length r.agents) index
    then err (orchestration_error (out_of_bounds r.name index (length r.agents)))
    else ok index

-- What `route` makes of the model's answer.
unfoldable pub answered : Router → Result AgentError Text → Result AgentError ℕ
unfolding first_word parse_usize checked_index
answered r (err e) = err e
answered r (ok response) = checked_index r response (Option.bind (first_word response) parse_usize)

-- `chat` takes the agents that are listed, the message, and the world.
unfoldable pub route :
    {W : Type 0}
    → (List (ℕ × RoutedAgent) → Text → W → Result AgentError Text × W)
    → Router
    → Text
    → W
    → Result AgentError ℕ × W
unfolding visible_agents answered
route chat r message w = elim (visible_agents r) [
  | [] ↦ (err (orchestration_error (no_visible_agents r.name r.visible_scopes)), w)
  | (a ∷ more) ↦ let (answer, w') = chat (a ∷ more) message w in (answered r answer, w')
]

module _ (W : Type 0) where
  -- An agent of a chain: its name, and its turn.
  pub record ChainAgent : Type 0 where
    pub name : Text
    pub run_turn : Conversation → W → Result AgentError Text × Conversation × W

  -- The loop of `Chain::run`, which an error ends. The ids of the conversations are not read.
  unfoldable pub run_all : List ChainAgent → ℕ → Text → W → Result AgentError Text × W
  unfolding new add_user_message
  run_all [] now input w = (ok input, w)
  run_all (a ∷ agents) now input w =
      let (turn, c, w') = a.run_turn (add_user_message input now (new a.name [] now)) w in
      elim turn [ ok text ↦ run_all agents now text w' | err e ↦ (err e, w') ]

  unfoldable pub run : Text → List ChainAgent → ℕ → Text → W → Result AgentError Text × W
  unfolding run_all
  run name [] now input w = (err (orchestration_error (chain_without_agents name)), w)
  run name (a ∷ agents) now input w = run_all (a ∷ agents) now input w

unfoldable pub handoff : Text → Text → Text → ℕ → Conversation → Conversation
unfolding add_message
handoff from_agent to_agent reason now c =
    record (add_message
      (record {
        role = user;
        content = plain (
            codes "[System: Conversation handed off from "
            ++ from_agent
            ++ codes " to "
            ++ to_agent
            ++ codes ". Reason: "
            ++ reason
            ++ codes "]");
        tool_call_id = none;
      })
      now c) { agent_name = to_agent }
