-- ===== src/Examples/Delegates.antt =====
-- A supervisor whose model hands a task to a worker that the supervisor does not see.
use mathlib.Core.Option
use puff.Common.{
  ℕ, zero, suc, ◌≡◌, refl, none, some, [], ◌∷◌, Text, codes, ok, ok_or, arith, All, text_beq,
}
use puff.Common.Json.{string, object, field, end, get, find, as_str}
use puff.Common.Strings.{starts_with, strip_suffix}
use puff.Budget as Budget
use puff.Capabilities.Scope.{scope_matches}
use puff.Conversation as Conversation
use puff.Tools.Execute.{str_argument, execute_registered_tool}
use puff.Agents.{
  Agent, ToolCall, LlmResponse, StopReason, Services, can_run_native, conversation_window,
  prepare_tool_call,
}
use puff.Budget.{check_llm_budget, check_tool_budget, record_llm_usage, record_tool_call}
use puff.Capabilities.Checks.{check_tool}
use puff.Tools as Tools
use puff.Tools.{all_native}
use puff.Common.Table as Table
use puff.Turns.{F, run_turn}
use puff.Examples.Turn.{executors, floats, reply, agent, two_calls}
use puff.Orchestration.Delegation.{
  Worker, Supervisor, Run, Outcome, visible_workers, serve_call, run_supervisor,
}
use puff.Orchestration.Parallel.{task_agent, task_agent_unrestricted}
use puff.Capabilities.Types.{ToolCapability}
use puff.Errors.{tool_not_found}
use puff.Orchestration.Delegation.Budgets.{InLimit, run_supervisor_tool_calls}
use puff.Orchestration.Delegation.Workers.{Delegated, serve_call-Delegated}

abbrev call : ToolCall
call = record {
  id = codes "7";
  name = codes "delegate";
  arguments =
      object (
        field (codes "task") (string (codes "t"))
          (field (codes "worker") (string (codes "a")) end));
}

abbrev answer : ℕ → LlmResponse
answer zero = record {
  text = [];
  tool_calls = call ∷ [];
  input_tokens = 1;
  output_tokens = 1;
  stop_reason = StopReason.tool_use;
  model = codes "m";
}
answer (suc w) = reply w

abbrev services : Services
services = record {
  executors = executors;
  floats = floats;
  chat = λ r w. (ok (answer w), suc w);
  now = λ w. w;
  display = λ e. [];
}

abbrev worker : Worker services
worker = record { agent = agent none; budget = Budget.new two_calls }

abbrev supervisor : Supervisor services
supervisor = record {
  name = codes "boss";
  supervisor = agent none;
  visible_scopes = codes "sales/*" ∷ [];
}

not_seen : visible_workers services supervisor.visible_scopes (worker ∷ []) ≡ []
unfolding visible_workers scope_matches starts_with strip_suffix text_beq
not_seen = refl

within : InLimit worker.budget
unfolding Budget.new
within limit e small = omega arith

run_supervisor_tool_calls_example :
    (end : Outcome services) × (run_supervisor services supervisor (codes "hi") (worker ∷ []) 0
      ≡ some end)
    × All (λ x. InLimit x.budget) end.1.workers
run_supervisor_tool_calls_example =
    run_supervisor_tool_calls services supervisor (codes "hi") (worker ∷ []) 0 (within, tt)

abbrev run : Run services
run = record {
  conversation = Conversation.new (codes "boss") [] 0;
  workers = worker ∷ [];
  world = 1;
}

serve_call-Delegated_example :
    (end : Text × Run services) × (serve_call services call run ≡ some end)
    × Delegated services (codes "a") (codes "t") run end
unfolding str_argument get find as_str text_beq Option.bind
serve_call-Delegated_example =
    serve_call-Delegated services (codes "a") (codes "t") call run refl refl refl

-- The worker's turn runs two tool calls before it answers.
done :
    Option.map (λ end. end.0) (run_supervisor services supervisor (codes "hi") (worker ∷ []) 0)
    ≡ some (ok (codes "done"))
unfolding run_supervisor serve_call text_beq Option.bind str_argument run_turn can_run_native
    all_native conversation_window check_llm_budget Budget.new prepare_tool_call check_tool
    check_tool_budget record_llm_usage Tools.get Table.get record_tool_call execute_registered_tool
done = refl

-- The worker may use no tool, and in its task it may.
abbrev bound : Agent (F services)
bound = record worker.agent {
  capabilities = record worker.agent.capabilities { tools = ToolCapability.none };
}

task_agent_unrestricted_example :
    (prepare_tool_call (task_agent services bound).0 (codes "rm") (task_agent services bound).1
      ≡ ok_or (Tools.get (codes "rm") bound.tools) (tool_not_found (codes "rm")))
    × (check_llm_budget (λ x. x) (task_agent services bound).1 ≡ ok tt)
task_agent_unrestricted_example =
    task_agent_unrestricted services (λ x. x) bound (codes "rm") (task_agent services bound).1 refl
