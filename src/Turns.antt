-- ===== src/Turns.antt =====
-- src/agents/agent.rs: a turn of an agent, which makes requests to the language model and runs the tool
-- calls that they ask for. A panic of the compaction is `none`.
pub mod Rule
pub mod Limits
pub mod Rounds
pub mod Transcript
pub mod Window
use mathlib.Core.Option
use puff.Common.{
  ℕ, zero, suc, true, Option, none, some, List, [], ◌∷◌, Text, map, if◌then◌else◌, ◌==◌, text_eq,
  Result, ok, err,
}
use puff.Errors.{AgentError, orchestration_error, tool_rounds_exceeded, tool_rounds_exceeded_native}
use puff.Budget.{AgentBudgetTracker, check_llm_budget, record_llm_usage, record_tool_call}
use puff.Conversation.{Conversation, Message, add_message, add_assistant_message, compact}
use puff.Tools.{RegisteredTool}
use puff.Tools.Execute.{execute_registered_tool}
use puff.Agents.{
  Agent, ToolCall, LlmResponse, ToolExecutionOutcome, Services, max_tool_rounds,
  max_archived_context_chars, prepare_tool_call, conversation_window, build_request, can_run_native,
  estimate_cost, assistant_message, result_message,
}

module _ (sv : Services) where
  abbrev pub F : Type 0
  F = sv.floats.F64

  abbrev pub World : Type 0
  World = sv.executors.host.World

  pub record State : Type 0 where
    pub conversation : Conversation
    pub budget : AgentBudgetTracker F
    pub world : World

  module _ (a : Agent F) where
    unfoldable pub execute_prepared_tool :
        RegisteredTool → ToolCall → State → Result AgentError Text × State
    execute_prepared_tool tool call s =
        let (result, w) =
          execute_registered_tool sv.executors tool call.arguments a.capabilities s.world in
        (result, record s { budget = record_tool_call s.budget; world = w })

    -- `ToolExecutionOutcome::success` and `error`
    unfoldable pub outcome_of : Result AgentError Text → ToolExecutionOutcome
    outcome_of (ok content) = record { content = content; is_error = none }
    outcome_of (err e) = record { content = sv.display e; is_error = some true }

    -- A call that was prepared, or not.
    unfoldable pub execute_if :
        Result AgentError RegisteredTool → ToolCall → State → ToolExecutionOutcome × State
    unfolding execute_prepared_tool outcome_of
    execute_if (err e) call s = (outcome_of (err e), s)
    execute_if (ok tool) call s =
        let (result, s') = execute_prepared_tool tool call s in (outcome_of result, s')

    unfoldable pub execute_tool_call : ToolCall → State → ToolExecutionOutcome × State
    unfolding execute_if
    execute_tool_call call s = execute_if (prepare_tool_call a call.name s.budget) call s

    unfoldable pub compacted_to : Option ℕ → State → Option State
    compacted_to none s = some s
    compacted_to (some window) s =
        Option.map (λ c. record s { conversation = c })
          (compact sv.executors.show window max_archived_context_chars (sv.now s.world)
            s.conversation)

    unfoldable pub compact_conversation : State → Option State
    unfolding compacted_to
    compact_conversation s = compacted_to (conversation_window a) s

    -- A message is added, and the conversation compacted.
    unfoldable pub push : Message → State → Option State
    push m s =
        compact_conversation
          (record s { conversation = add_message m (sv.now s.world) s.conversation })

    -- The loop over the tool calls.
    unfoldable pub serve_tools : List ToolCall → State → Option State
    unfolding execute_tool_call push
    serve_tools [] s = some s
    serve_tools (call ∷ more) s =
        let (outcome, s') = execute_tool_call call s in
        Option.bind (push (result_message call outcome) s') (serve_tools more)

    -- What the text of a final response adds to the conversation.
    unfoldable pub add_final : Text → State → Option State
    add_final text s =
        if text == []
        then some s
        else compact_conversation
            (record s { conversation = add_assistant_message text (sv.now s.world) s.conversation })

    unfoldable pub conclude : LlmResponse → State → Option State
    unfolding add_final
    conclude response s = add_final response.text s

    -- `record_llm_usage` of a response.
    unfoldable pub record_usage : LlmResponse → AgentBudgetTracker F → AgentBudgetTracker F
    record_usage response budget =
        record_llm_usage sv.floats.micros response.input_tokens response.output_tokens
          (estimate_cost sv.floats a.config.model response.input_tokens response.output_tokens)
          budget

    -- How a turn ends: with a result, and the state then.
    abbrev pub Ending : Type 0
    Ending = Result AgentError LlmResponse × State

    -- What follows a response; `later` are the rounds after this one.
    unfoldable pub respond_to :
        LlmResponse → List ToolCall → (State → Option Ending) → State → Option Ending
    unfolding conclude serve_tools push
    respond_to response [] later s = Option.map (λ s'. (ok response, s')) (conclude response s)
    respond_to response (call ∷ more) later s =
        Option.bind (push (assistant_message response) s)
          (λ s'. Option.bind (serve_tools (call ∷ more) s') later)

    -- An answer of the model, with its usage recorded.
    unfoldable pub answer :
        Result AgentError LlmResponse × World → (State → Option Ending) → State → Option Ending
    unfolding respond_to record_usage
    answer (err e, w) later s = some (err e, record s { world = w })
    answer (ok response, w) later s =
        respond_to response response.tool_calls later
          (record s { budget = record_usage response s.budget; world = w })

    -- A request, if the budget allows one.
    unfoldable pub request :
        Result AgentError (Unit {0}) → (State → Option Ending) → State → Option Ending
    unfolding answer
    request (err e) later s = some (err e, s)
    request (ok _) later s = answer (sv.chat (build_request a s.conversation) s.world) later s

    -- The loop of a turn, over the rounds that are left.
    unfoldable pub run_rounds : AgentError → ℕ → State → Option Ending
    unfolding request compact_conversation
    run_rounds exhausted zero s = some (err exhausted, s)
    run_rounds exhausted (suc rounds) s = Option.bind (compact_conversation s) (λ s'.
        request (check_llm_budget sv.floats.micros s'.budget) (run_rounds exhausted rounds) s')

    unfoldable pub run_turn_native : State → Option Ending
    unfolding run_rounds
    run_turn_native =
        run_rounds (orchestration_error (tool_rounds_exceeded_native a.config.name max_tool_rounds))
          max_tool_rounds

    unfoldable pub run_turn : State → Option Ending
    unfolding run_turn_native run_rounds
    run_turn s =
        if can_run_native a
        then run_turn_native s
        else run_rounds (orchestration_error (tool_rounds_exceeded a.config.name max_tool_rounds))
            max_tool_rounds s
