-- ===== src/Agents.antt =====
-- src/agents/agent.rs, with the requests and responses of src/agents/llm.rs and `estimate_cost` of
-- src/agents/memory.rs: an agent, what it may run, and what it asks the model. The language model, the
-- tools, the clock and the floating-point numbers are parameters over one world.
use puff.Common.{
  ℕ, Bool, Option, none, some, List, [], ◌∷◌, ◌++◌, Text, codes, ltb, map, if◌then◌else◌, ◌==◌,
  text_eq, Result, ok_or, ◌>>◌,
}
use puff.Common.Json.{Json}
use puff.Common.Strings.{starts_with}
use puff.Common.Table as Table
use puff.Errors.{AgentError, tool_not_found}
use puff.Capabilities.Types.{AgentCapabilities, default_capabilities}
use puff.Capabilities.Checks.{check_tool}
use puff.Budget.{AgentBudgetTracker, check_tool_budget}
use puff.Budget as Budget
use puff.Conversation.{Conversation, Message, ContentBlock, tool_result, blocks, user, assistant}
use puff.Tools.{ToolDefinition, RegisteredTool, ToolRegistry, empty_registry, get, all_native}
use puff.Tools.Execute.{Executors}

pub record MemoryConfig : Type 0 where
  pub conversation : Text
  pub long_term : Text
  pub auto_extract : Bool
  pub recall_k : ℕ
  pub summarize_after : ℕ
  pub embedding_model : Option Text
  pub embedding_dimensions : Option ℕ

pub record AgentPermissions : Type 0 where
  pub sql : Option Text
  pub http : Option (List Text)
  pub filesystem : Option Text

pub record AgentConfig (F64 : Type 0) : Type 0 where
  pub name : Text
  pub model : Text
  pub system_prompt : Option Text
  pub skills : List Text
  pub tools_module : Option Text
  pub memory : Option MemoryConfig
  pub permissions : Option AgentPermissions
  pub capabilities : Option (AgentCapabilities F64)
  pub scope : Option Text
  pub visible_scopes : List Text

-- The budget, which is shared by clones of the agent, is in the state of a turn.
pub record Agent (F64 : Type 0) : Type 0 where
  pub config : AgentConfig F64
  pub tools : ToolRegistry
  pub context_snippets : List Text
  pub system_prompt : Text
  pub tool_definitions : List ToolDefinition
  pub capabilities : AgentCapabilities F64

pub record ToolCall : Type 0 where
  pub id : Text
  pub name : Text
  pub arguments : Json

pub data StopReason : Type 0 where
  end_turn tool_use max_tokens stop_sequence : StopReason
  unknown : Text → StopReason

pub record LlmResponse : Type 0 where
  pub text : Text
  pub tool_calls : List ToolCall
  pub input_tokens : ℕ
  pub output_tokens : ℕ
  pub stop_reason : StopReason
  pub model : Text

pub record LlmRequest : Type 0 where
  pub model : Text
  pub messages : List Message
  pub tools : List ToolDefinition
  pub max_tokens : ℕ
  pub system : Option Text

pub record ToolExecutionOutcome : Type 0 where
  pub content : Text
  pub is_error : Option Bool

-- The operations on `f64` that the estimate of the costs uses, and the conversion of the budget.
pub record Floats : Type 1 where
  pub F64 : Type 0
  pub literal : Text → F64
  pub of_u32 : ℕ → F64
  pub mul : F64 → F64 → F64
  pub add : F64 → F64 → F64
  pub div : F64 → F64 → F64
  pub micros : F64 → ℕ

pub record Services : Type 1 where
  pub executors : Executors
  pub floats : Floats
  -- `chat_ref`
  pub chat :
      LlmRequest → executors.host.World → Result AgentError LlmResponse × executors.host.World
  -- `Utc::now`
  pub now : executors.host.World → ℕ
  -- `to_string` of an error
  pub display : AgentError → Text

abbrev pub max_tool_rounds : ℕ
max_tool_rounds = 10

abbrev pub max_archived_context_chars : ℕ
max_archived_context_chars = 32768

-- `join("\n\n")`
unfoldable pub join_parts : List Text → Text
join_parts [] = []
join_parts (p ∷ []) = p
join_parts (p ∷ q ∷ ps) = p ++ (codes "\n\n" ++ join_parts (q ∷ ps))

-- `archived_context()`, if there is one.
unfoldable pub archived : Text → Option Text
archived [] = none
archived (c ∷ s) = some (c ∷ s)

unfoldable pub effective_system_prompt : Text → Option Text → Option Text
effective_system_prompt [] none = none
effective_system_prompt (c ∷ s) none = some (c ∷ s)
effective_system_prompt [] (some context) =
    some (codes "Earlier conversation context:\n" ++ context)
effective_system_prompt (c ∷ s) (some context) =
    some ((c ∷ s) ++ (codes "\n\nEarlier conversation context:\n" ++ context))

-- A window of no messages is none.
unfoldable pub window_of : Option MemoryConfig → Option ℕ
window_of none = none
window_of (some memory) = if ltb 0 memory.summarize_after then some memory.summarize_after else none

module _ {F64 : Type 0} where
  unfoldable pub rebuild_system_prompt : Agent F64 → Agent F64
  unfolding join_parts
  rebuild_system_prompt a = record a {
    system_prompt = join_parts (elim a.config.system_prompt [
      | none ↦ a.context_snippets
      | some prompt ↦ prompt ∷ a.context_snippets
    ]);
  }

  unfoldable pub rebuild_tool_definitions : Agent F64 → Agent F64
  rebuild_tool_definitions a = record a {
    tool_definitions = map (λ t. t.definition) (Table.values a.tools.tools);
  }

  -- `unwrap_or_default` of the capabilities.
  unfoldable pub capabilities_of : Option (AgentCapabilities F64) → AgentCapabilities F64
  capabilities_of none = default_capabilities
  capabilities_of (some c) = c

  unfoldable pub new : AgentConfig F64 → Agent F64 × AgentBudgetTracker F64
  unfolding rebuild_system_prompt capabilities_of
  new config = (
    rebuild_system_prompt (record {
      config = config;
      tools = empty_registry;
      context_snippets = [];
      system_prompt = [];
      tool_definitions = [];
      capabilities = capabilities_of config.capabilities;
    }),
    Budget.new (capabilities_of config.capabilities).budget,
  )

  unfoldable pub with_tools : ToolRegistry → Agent F64 → Agent F64
  unfolding rebuild_tool_definitions
  with_tools tools a = rebuild_tool_definitions (record a { tools = tools })

  unfoldable pub with_context : Text → Agent F64 → Agent F64
  unfolding rebuild_system_prompt
  with_context context a =
      rebuild_system_prompt (record a { context_snippets = a.context_snippets ++ context ∷ [] })

  unfoldable pub prepare_tool_call :
      Agent F64 → Text → AgentBudgetTracker F64 → Result AgentError RegisteredTool
  prepare_tool_call a tool_name budget = do
    check_tool a.capabilities tool_name
    check_tool_budget budget
    ok_or (get tool_name a.tools) (tool_not_found tool_name)

  unfoldable pub conversation_window : Agent F64 → Option ℕ
  unfolding window_of
  conversation_window a = window_of a.config.memory

  unfoldable pub build_request : Agent F64 → Conversation → LlmRequest
  unfolding effective_system_prompt archived
  build_request a c = record {
    model = a.config.model;
    messages = c.messages;
    tools = a.tool_definitions;
    max_tokens = 4096;
    system = effective_system_prompt a.system_prompt (archived c.archived_context);
  }

  unfoldable pub can_run_native : Agent F64 → Bool
  can_run_native a = all_native a.tools

-- The price of a million tokens that were read, and of a million that were written.
unfoldable pub prices : Text → Text × Text
prices model =
    if starts_with (codes "claude-opus") model
    then (codes "15.0", codes "75.0")
    else if starts_with (codes "claude-sonnet") model
    then (codes "3.0", codes "15.0")
    else if starts_with (codes "claude-haiku") model
    then (codes "0.25", codes "1.25")
    else if starts_with (codes "gpt-4o") model
    then (codes "2.5", codes "10.0")
    else if starts_with (codes "gpt-4") model
    then (codes "30.0", codes "60.0")
    else (codes "1.0", codes "2.0")

unfoldable pub estimate_cost : (f : Floats) → Text → ℕ → ℕ → f.F64
unfolding prices
estimate_cost f model input_tokens output_tokens =
    let (input_price, output_price) = prices model in
    f.div
      (f.add (f.mul (f.of_u32 input_tokens) (f.literal input_price))
        (f.mul (f.of_u32 output_tokens) (f.literal output_price)))
      (f.literal (codes "1_000_000.0"))

-- The block of a tool call.
unfoldable pub use_block : ToolCall → ContentBlock
use_block call = ContentBlock.tool_use call.id call.name call.arguments

-- The assistant's message with its text, if there is any, and its tool calls.
unfoldable pub assistant_message : LlmResponse → Message
unfolding use_block
assistant_message response = record {
  role = assistant;
  content = blocks (
      (if response.text == [] then [] else ContentBlock.text response.text ∷ [])
      ++ map use_block response.tool_calls);
  tool_call_id = none;
}

-- The user's message with the result of a tool call.
unfoldable pub result_message : ToolCall → ToolExecutionOutcome → Message
result_message call outcome = record {
  role = user;
  content = blocks (tool_result call.id outcome.content outcome.is_error ∷ []);
  tool_call_id = some call.id;
}
