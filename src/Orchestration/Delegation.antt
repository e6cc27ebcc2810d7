-- ===== src/Orchestration/Delegation.antt =====
-- src/agents/orchestration.rs: the supervisor, which hands tasks to workers by calls of a `delegate` tool. A
-- worker's turn is `Turns.run_turn`; a panic of one is `none`. The ids of the conversations are not read.
pub mod Budgets
pub mod Workers
use mathlib.Core.Option
use puff.Common.{
  ℕ, zero, suc, Option, none, some, List, [], ◌∷◌, ◌++◌, Text, codes, map, filter, if◌then◌else◌,
  ◌==◌, text_eq, Result, ok, err,
}
use puff.Common.Json.{Json, string, array, object, nil, cons, end, field}
use puff.Common.Table as Table
use puff.Errors.{AgentError, orchestration_error, max_rounds_exceeded}
use puff.Budget.{AgentBudgetTracker}
use puff.Conversation.{Conversation, new, add_message, add_user_message}
use puff.Tools.{ToolDefinition}
use puff.Tools.Execute.{str_argument, or_empty}
use puff.Agents.{
  Agent, ToolCall, LlmRequest, LlmResponse, Services, assistant_message, result_message,
}
use puff.Turns.{F, World, State, run_turn}
use puff.Orchestration.{RoutedAgent, sees_agent}

-- `join(", ")`
unfoldable pub join_names : List Text → Text
join_names [] = []
join_names (n ∷ []) = n
join_names (n ∷ m ∷ ns) = n ++ (codes ", " ++ join_names (m ∷ ns))

-- The schema of a text with a description.
unfoldable pub described : Text → Json
described description = object (
    field (codes "description") (string description)
      (field (codes "type") (string (codes "string")) end))

unfoldable pub delegate_tool : List Text → ToolDefinition
unfolding join_names described
delegate_tool names = record {
  name = codes "delegate";
  description = codes "Delegate a task to a worker agent. Available workers: " ++ join_names names;
  input_schema = object (
      field (codes "properties")
        (object (
          field (codes "task") (described (codes "The task to delegate"))
            (field (codes "worker") (described (codes "Name of the worker to delegate to")) end)))
        (field (codes "required")
          (array (cons (string (codes "worker")) (cons (string (codes "task")) nil)))
          (field (codes "type") (string (codes "object")) end)));
}

-- A prompt that is not empty.
unfoldable pub system_of : Text → Option Text
system_of [] = none
system_of (c ∷ s) = some (c ∷ s)

module _ (sv : Services) where
  -- A worker with its budget.
  pub record Worker : Type 0 where
    pub agent : Agent (F sv)
    pub budget : AgentBudgetTracker (F sv)

  pub record Supervisor : Type 0 where
    pub name : Text
    pub supervisor : Agent (F sv)
    pub visible_scopes : List Text

  -- What a run changes.
  pub record Run : Type 0 where
    pub conversation : Conversation
    pub workers : List Worker
    pub world : World sv

  abbrev pub name_of : Worker → Text
  name_of x = x.agent.config.name

  -- What the scopes are compared with.
  unfoldable pub routed : Worker → RoutedAgent
  routed x = record {
    name = name_of x;
    scope = x.agent.config.scope;
    system_prompt = x.agent.config.system_prompt;
  }

  unfoldable pub visible_workers : List Text → List Worker → List Worker
  unfolding sees_agent routed
  visible_workers [] workers = workers
  visible_workers (p ∷ ps) workers = filter (λ x. sees_agent (p ∷ ps) (routed x)) workers

  unfoldable pub worker_text : Text → Result AgentError LlmResponse → Text
  worker_text name (ok response) = response.text
  worker_text name (err e) = codes "Worker '" ++ (name ++ (codes "' error: " ++ sv.display e))

  -- A turn of a worker on a task, with the text that it comes to.
  unfoldable pub run_worker : Worker → Text → World sv → Option (Text × Worker × World sv)
  unfolding worker_text
  run_worker x task w =
      Option.map
        (λ (result, s). (worker_text (name_of x) result, record x { budget = s.budget }, s.world))
        (run_turn sv x.agent (record {
          conversation = add_user_message task (sv.now w) (new (name_of x) [] (sv.now w));
          budget = x.budget;
          world = w;
        }))

  -- The first worker with the name gets the task, if there is one.
  unfoldable pub delegate_to :
      Text → Text → List Worker → World sv → Option (Option Text × List Worker × World sv)
  unfolding run_worker
  delegate_to name task [] w = some (none, [], w)
  delegate_to name task (x ∷ xs) w =
      let rest = delegate_to name task xs w in
      if name_of x == name
      then Option.map (λ (text, x', w'). (some text, x' ∷ xs, w')) (run_worker x task w)
      else Option.map (λ (text, xs', w'). (text, x ∷ xs', w')) rest

  unfoldable pub not_found : Text → List Text → Text
  unfolding join_names
  not_found name names =
      codes "Worker '" ++ (name ++ (codes "' not found. Available: " ++ join_names names))

  unfoldable pub or_not_found : Text → List Text → Option Text → Text
  unfolding not_found
  or_not_found name names none = not_found name names
  or_not_found name names (some text) = text

  -- A call of `delegate`, with the worker's name and the task.
  unfoldable pub delegate : Text → Text → Run → Option (Text × Run)
  unfolding delegate_to or_not_found
  delegate name task r =
      Option.map
        (λ (text, workers, w). (
          or_not_found name (map name_of r.workers) text,
          record r { workers = workers; world = w },
        ))
        (delegate_to name task r.workers r.world)

  -- The text of a tool call's result.
  unfoldable pub serve_call : ToolCall → Run → Option (Text × Run)
  unfolding delegate
  serve_call call r =
      if call.name == codes "delegate"
      then delegate (or_empty (str_argument call.arguments (codes "worker")))
          (or_empty (str_argument call.arguments (codes "task"))) r
      else some (codes "Tool '" ++ (call.name ++ codes "' not implemented in supervisor"), r)

  unfoldable pub add_result : ToolCall → Text → Run → Run
  add_result call text r = record r {
    conversation =
        add_message (result_message call (record { content = text; is_error = none }))
          (sv.now r.world) r.conversation;
  }

  -- The loop over the tool calls.
  unfoldable pub serve_calls : List ToolCall → Run → Option Run
  unfolding serve_call add_result
  serve_calls [] r = some r
  serve_calls (call ∷ more) r =
      Option.bind (serve_call call r) (λ (text, r'). serve_calls more (add_result call text r'))

  abbrev pub Outcome : Type 0
  Outcome = Result AgentError Text × Run

  -- What follows a response; `later` are the rounds after this one.
  unfoldable pub react : LlmResponse → List ToolCall → (Run → Option Outcome) → Run → Option Outcome
  unfolding serve_calls
  react response [] later r = some (ok response.text, r)
  react response (call ∷ more) later r =
      Option.bind
        (serve_calls (call ∷ more) (record r {
          conversation = add_message (assistant_message response) (sv.now r.world) r.conversation;
        }))
        later

  unfoldable pub received :
      Result AgentError LlmResponse × World sv → (Run → Option Outcome) → Run → Option Outcome
  unfolding react
  received (err e, w) later r = some (err e, record r { world = w })
  received (ok response, w) later r =
      react response response.tool_calls later (record r { world = w })

  module _ (v : Supervisor) where
    unfoldable pub request_of : List ToolDefinition → Conversation → LlmRequest
    unfolding system_of
    request_of tools c = record {
      model = v.supervisor.config.model;
      messages = c.messages;
      tools = tools;
      max_tokens = 4096;
      system = system_of v.supervisor.system_prompt;
    }

    unfoldable pub tools_for : List Worker → List ToolDefinition
    unfolding delegate_tool visible_workers
    tools_for workers =
        map (λ t. t.definition) (Table.values v.supervisor.tools.tools)
        ++ delegate_tool (map name_of (visible_workers v.visible_scopes workers)) ∷ []

    -- The rounds that are left.
    unfoldable pub supervise : List ToolDefinition → ℕ → Run → Option Outcome
    unfolding request_of received
    supervise tools zero r = some (err (orchestration_error max_rounds_exceeded), r)
    supervise tools (suc rounds) r =
        received (sv.chat (request_of tools r.conversation) r.world) (supervise tools rounds) r

    unfoldable pub run_supervisor : Text → List Worker → World sv → Option Outcome
    unfolding tools_for supervise
    run_supervisor input workers w = supervise (tools_for workers) 10 (record {
      conversation = add_user_message input (sv.now w) (new v.name [] (sv.now w));
      workers = workers;
      world = w;
    })
