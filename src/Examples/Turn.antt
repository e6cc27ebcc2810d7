-- ===== src/Examples/Turn.antt =====
-- An agent with one tool, and a model that calls it twice and then answers. The world counts the requests.
use puff.Common.{
  ℕ, zero, suc, ◌+◌, ◌≤◌, ◌<◌, ◌≡◌, refl, true, false, Option, none, some, List, [], ◌∷◌, Text,
  codes, Result, ok, err, arith, All, length,
}
use puff.Common.Json.{Json, null}
use puff.Common.Table as Table
use puff.Errors.{AgentError}
use puff.Budget as Budget
use puff.Capabilities.Types.{default_capabilities, BudgetCapability, unlimited}
use puff.Conversation.{Conversation}
use puff.Conversation as Conversation
use puff.Sandbox.{Host, exited, execute_sandboxed_argv}
use puff.Tools.{
  RegisteredTool, ToolExecutor, noop, python, cli, wasm, graphql, graphql_schema, graphql_validate,
  registry_message, registry_scan, empty_registry, register, render_cli_command,
}
use puff.Tools.Execute.{Executors, execute_registered_tool, execute_with, run_rendered}
use puff.Agents.{
  AgentConfig, Agent, ToolCall, LlmResponse, StopReason, Floats, Services, MemoryConfig, new,
  with_tools, conversation_window, window_of,
}
use puff.Turns.{State, Ending, run_turn, serve_tools}
use puff.Turns.Rule.{run_turn_keeps}
use puff.Turns.Rounds.{Adds}
use puff.Turns.Transcript.{run_turn-Adds}
use puff.Turns.Window.{IsResult, only_results}

abbrev pub host : Host
host = record {
  World = ℕ;
  exists = λ path w. false;
  run = λ program args timeout_ms w. (exited true [] [], w);
}

abbrev pub executors : Executors
executors = record {
  host = host;
  show = λ v. [];
  execute_python_tool = λ m f v w. (ok [], w);
  execute_wasm_tool = λ p v t w. (ok [], w);
  execute_graphql_query = λ q v n w. (ok [], w);
  generate_schema_summary = λ n w. (ok [], w);
  validate_graphql_query = λ q n w. (ok [], w);
  execute_registry_message_tool = λ t m w. (ok [], w);
  execute_registry_scan_tool = λ p w. (ok [], w);
}

abbrev pub floats : Floats
floats = record {
  F64 = ℕ;
  literal = λ t. 0;
  of_u32 = λ n. n;
  mul = λ a b. 0;
  add = λ a b. 0;
  div = λ a b. 0;
  micros = λ a. a;
}

abbrev call : Text → ToolCall
call id = record { id = id; name = codes "ping"; arguments = null }

abbrev pub reply : ℕ → LlmResponse
reply zero = record {
  text = [];
  tool_calls = call (codes "1") ∷ call (codes "2") ∷ [];
  input_tokens = 3;
  output_tokens = 4;
  stop_reason = StopReason.tool_use;
  model = codes "m";
}
reply (suc n) = record {
  text = codes "done";
  tool_calls = [];
  input_tokens = 5;
  output_tokens = 6;
  stop_reason = StopReason.end_turn;
  model = codes "m";
}

abbrev pub services : Services
services = record {
  executors = executors;
  floats = floats;
  chat = λ r w. (ok (reply w), suc w);
  now = λ w. w;
  display = λ e. [];
}

abbrev ping : RegisteredTool
ping = record {
  definition = record { name = codes "ping"; description = []; input_schema = null };
  executor = noop;
  requires_approval = false;
  timeout_ms = 5;
}

abbrev config : Option MemoryConfig → AgentConfig ℕ
config memory = record {
  name = codes "a";
  model = codes "m";
  system_prompt = none;
  skills = [];
  tools_module = none;
  memory = memory;
  permissions = none;
  capabilities = none;
  scope = none;
  visible_scopes = [];
}

abbrev pub agent : Option MemoryConfig → Agent ℕ
agent memory = record {
  config = config memory;
  tools = record { tools = (codes "ping", ping) ∷ [] };
  context_snippets = [];
  system_prompt = [];
  tool_definitions = ping.definition ∷ [];
  capabilities = default_capabilities;
}

-- The agent is the one that its constructors make.
agent_made :
    (memory : Option MemoryConfig)
    → with_tools (register ping empty_registry) (new (config memory)).0 ≡ agent memory
unfolding with_tools new register Table.insert
agent_made memory = refl

rendered_leaves :
    (r : Result AgentError (Text × List Text)) (timeout_ms w : ℕ)
    → (run_rendered executors r (agent none).capabilities timeout_ms w).1 ≡ w
unfolding run_rendered execute_sandboxed_argv
rendered_leaves (ok (program, args)) timeout_ms w = refl
rendered_leaves (err e) timeout_ms w = refl

executor_leaves :
    (e : ToolExecutor) (tool : RegisteredTool) (arguments : Json) (w : ℕ)
    → (execute_with executors e tool arguments (agent none).capabilities w).1 ≡ w
unfolding execute_with
executor_leaves (cli command args format) tool arguments w =
    rendered_leaves (render_cli_command (λ v. []) tool.definition.name command args arguments)
      tool.timeout_ms w
executor_leaves (python m f) tool arguments w = refl
executor_leaves (wasm p) tool arguments w = refl
executor_leaves (graphql n) tool arguments w = refl
executor_leaves (graphql_schema n) tool arguments w = refl
executor_leaves (graphql_validate n) tool arguments w = refl
executor_leaves registry_message tool arguments w = refl
executor_leaves registry_scan tool arguments w = refl
executor_leaves noop tool arguments w = refl

-- No tool touches the count.
tools_leave :
    (tool : RegisteredTool) (arguments : Json) (w : ℕ)
    → (execute_registered_tool executors tool arguments (agent none).capabilities w).1 ≡ w
unfolding execute_registered_tool
tools_leave tool arguments w = executor_leaves tool.executor tool arguments w

abbrev pub two_calls : BudgetCapability ℕ
two_calls = record unlimited { max_tool_calls = some 2 }

abbrev start : State services
start = record {
  conversation = Conversation.new (codes "a") (codes "id") 0;
  budget = Budget.new two_calls;
  world = 0;
}

run_turn_keeps_example :
    (end : Ending services (agent none)) × (run_turn services (agent none) start ≡ some end)
    × ((k : ℕ) × (end.1.world + k ≤ 10))
run_turn_keeps_example =
    run_turn_keeps services (agent none) (λ k b w. w + k ≤ 10)
      (record {
        asked = λ k b w r c h. omega arith;
        ran = λ k b w c tool p h. omega (arith, tools_leave tool c.arguments w);
      })
      start (omega arith)

no_window : conversation_window (agent none) ≡ none
unfolding conversation_window window_of
no_window = refl

run_turn-Adds_example : Adds services (agent none) 10 start (run_turn services (agent none) start)
run_turn-Adds_example = run_turn-Adds services (agent none) no_window start

-- A memory that keeps two messages.
abbrev short : MemoryConfig
short = record {
  conversation = [];
  long_term = [];
  auto_extract = false;
  recall_k = 1;
  summarize_after = 2;
  embedding_model = none;
  embedding_dimensions = none;
}

only_results_example :
    (s' : State services) × (serve_tools services
        (agent (some short))
        (call (codes "1") ∷ call (codes "2") ∷ [])
        start
      ≡ some s')
    × All IsResult s'.conversation.messages
    × (0 < length s'.conversation.messages)
unfolding conversation_window window_of
only_results_example =
    only_results services (agent (some short)) 2 refl (call (codes "1")) (call (codes "2") ∷ [])
      start (omega arith)
