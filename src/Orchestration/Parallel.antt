-- ===== src/Orchestration/Parallel.antt =====
-- src/agents/orchestration.rs: agents that get the same input. Each runs in a task of its own; here the tasks run
-- one after the other, in the order of the agents. A panic is `none`.
use mathlib.Core.Option
use puff.Common.{
  ℕ, ◌≡◌, refl, Option, none, some, List, [], ◌∷◌, ◌++◌, Text, codes, Result, ok, err, ok_or,
}
use puff.Errors.{AgentError, orchestration_error, parallel_without_agents, tool_not_found}
use puff.Budget.{AgentBudgetTracker, check_limit, check_tool_budget, check_llm_budget, cost_limit}
use puff.Capabilities.Checks.{check_tool, tool_check}
use puff.Conversation.{Conversation, add_user_message}
use puff.Conversation as Conversation
use puff.Tools.{get}
use puff.Agents.{
  Agent, AgentConfig, LlmRequest, LlmResponse, Services, with_tools, new, rebuild_system_prompt,
  rebuild_tool_definitions, capabilities_of, prepare_tool_call,
}
use puff.Turns.{F, World, run_turn}
use puff.Orchestration.Delegation.{system_of}

-- `join("\n\n")`
unfoldable pub join_results : List Text → Text
join_results [] = []
join_results (r ∷ []) = r
join_results (r ∷ s ∷ rs) = r ++ codes "\n\n" ++ join_results (s ∷ rs)

module _ (sv : Services) where
  pub record Parallel : Type 0 where
    pub name : Text
    pub agents : List (Agent (F sv))
    pub merge_prompt : Option Text
    pub merge_model : Option Text

  -- What an agent is in its task: its tools and its prompt, with the defaults of all else.
  unfoldable pub task_config : Agent (F sv) → AgentConfig (F sv)
  unfolding system_of
  task_config a = record {
    name = a.config.name;
    model = a.config.model;
    system_prompt = system_of a.system_prompt;
    skills = [];
    tools_module = none;
    memory = none;
    permissions = none;
    capabilities = none;
    scope = none;
    visible_scopes = [];
  }

  unfoldable pub task_agent : Agent (F sv) → Agent (F sv) × AgentBudgetTracker (F sv)
  unfolding task_config with_tools new
  task_agent a = let (t, budget) = new (task_config a) in (with_tools a.tools t, budget)

  unfoldable pub labelled : Text → Result AgentError LlmResponse → Text
  labelled name (ok response) = codes "[" ++ name ++ codes "]: " ++ response.text
  labelled name (err e) = codes "[" ++ name ++ codes "]: Error: " ++ sv.display e

  unfoldable pub run_task : Text → Agent (F sv) → World sv → Option (Text × World sv)
  unfolding task_agent labelled
  run_task input a w =
      let (t, budget) = task_agent a in
      Option.map (λ (result, s). (labelled a.config.name result, s.world))
        (run_turn sv t (record {
          conversation =
              add_user_message input (sv.now w) (Conversation.new a.config.name [] (sv.now w));
          budget = budget;
          world = w;
        }))

  unfoldable pub run_tasks : Text → List (Agent (F sv)) → World sv → Option (List Text × World sv)
  unfolding run_task
  run_tasks input [] w = some ([], w)
  run_tasks input (a ∷ more) w =
      Option.bind (run_task input a w)
        (λ (r, w1). Option.map (λ (rs, w2). (r ∷ rs, w2)) (run_tasks input more w1))

  -- The call that makes one text of the results, if there is a prompt and a model for it.
  abbrev merge_request : Text → Text → Text → Text → Text → ℕ → LlmRequest
  merge_request name merge_prompt merge_model combined input now = record {
    model = merge_model;
    messages =
        (add_user_message
          (codes "Here are the responses from multiple agents:\n\n"
            ++ combined
            ++ codes "\n\nOriginal input: "
            ++ input)
          now (Conversation.new name [] now)).messages;
    tools = [];
    max_tokens = 4096;
    system = some merge_prompt;
  }

  abbrev text_or : Result AgentError LlmResponse × World sv → Result AgentError Text × World sv
  text_or (ok response, w) = (ok response.text, w)
  text_or (err e, w) = (err e, w)

  abbrev merged :
      Parallel
      → Text
      → Text
      → Option Text
      → Option Text
      → World sv
      → Result AgentError Text × World sv
  merged p input combined (some merge_prompt) (some merge_model) w =
      text_or (sv.chat (merge_request p.name merge_prompt merge_model combined input (sv.now w)) w)
  merged p input combined none merge_model w = (ok combined, w)
  merged p input combined (some merge_prompt) none w = (ok combined, w)

  abbrev run_all_tasks :
      Parallel → Text → List (Agent (F sv)) → World sv → Option (Result AgentError Text × World sv)
  run_all_tasks p input [] w = some (err (orchestration_error (parallel_without_agents p.name)), w)
  run_all_tasks p input (a ∷ more) w =
      Option.map
        (λ (results, w1). merged p input (join_results results) p.merge_prompt p.merge_model w1)
        (run_tasks input (a ∷ more) w)

  unfoldable pub run_parallel :
      Parallel → Text → World sv → Option (Result AgentError Text × World sv)
  unfolding run_tasks join_results
  run_parallel p input w = run_all_tasks p input p.agents w

  -- Whatever the capabilities and the limits of an agent of a Parallel are, in its task each tool that it has may be
  -- called, and with the limits of the task's budget no use of tools or of the model is refused.
  pub task_agent_unrestricted :
      (micros : F sv → ℕ) (a : Agent (F sv)) (tool_name : Text) (budget : AgentBudgetTracker (F sv))
      → budget.limits ≡ (task_agent a).1.limits
      → (prepare_tool_call (task_agent a).0 tool_name budget
          ≡ ok_or (get tool_name a.tools) (tool_not_found tool_name))
        × (check_llm_budget micros budget ≡ ok tt)
  unfolding task_agent task_config with_tools new rebuild_system_prompt rebuild_tool_definitions
      capabilities_of prepare_tool_call check_tool tool_check check_tool_budget check_limit
      check_llm_budget cost_limit puff.Budget.new
  task_agent_unrestricted micros a tool_name budget h = (rw h refl, rw h refl)
