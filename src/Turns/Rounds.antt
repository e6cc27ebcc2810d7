-- ===== src/Turns/Rounds.antt =====
-- A turn that is not compacted, seen as its rounds: what each asks, what it runs and what it adds.
use puff.Common.{
  ℕ, suc, ◌≡◌, Option, none, some, List, [], ◌∷◌, ◌++◌, Text, Result, ok, err, if◌then◌else◌,
}
use puff.Errors.{AgentError, orchestration_error, tool_rounds_exceeded, tool_rounds_exceeded_native}
use puff.Budget.{check_llm_budget}
use puff.Conversation.{Message, assistant, plain}
use puff.Agents.{
  Services, Agent, ToolCall, LlmResponse, can_run_native, build_request, result_message,
  assistant_message, max_tool_rounds,
}
use puff.Turns.{State, F, World, Ending, execute_tool_call, record_usage}

-- The message of a final response, which has none if it has no text.
abbrev pub final : Text → List Message
final [] = []
final (c ∷ s) = record { role = assistant; content = plain (c ∷ s); tool_call_id = none } ∷ []

-- The error of a turn that has used up its rounds.
abbrev pub rounds_error : {F64 : Type 0} → Agent F64 → AgentError
rounds_error a = orchestration_error (
    if can_run_native a
    then tool_rounds_exceeded_native a.config.name max_tool_rounds
    else tool_rounds_exceeded a.config.name max_tool_rounds)

module _ (sv : Services) (a : Agent (F sv)) where
  abbrev pub messages_of : State sv → List Message
  messages_of s = s.conversation.messages

  -- The second state has these messages after those of the first, and is as the first in what else a
  -- turn reads.
  pub record Extends (s : State sv) (new : List Message) (s' : State sv) : Type 0 where
    pub messages : messages_of s' ≡ messages_of s ++ new
    pub archived : s'.conversation.archived_context ≡ s.conversation.archived_context
    pub budget : s'.budget ≡ s.budget
    pub world : s'.world ≡ s.world

  -- The calls run one after the other, each from the state that the one before has left, and the
  -- messages are their results.
  pub data Served : List ToolCall → State sv → List Message → State sv → Type 0 where
    all_served : (s : State sv) → Served [] s [] s
    serves :
        (call : ToolCall) (calls : List ToolCall) (s s1 s' : State sv) (results : List Message)
        → Extends
            (execute_tool_call sv a call s).1
            (result_message call (execute_tool_call sv a call s).0 ∷ [])
            s1
        → Served calls s1 results s'
        → Served
            (call ∷ calls)
            s
            (result_message call (execute_tool_call sv a call s).0 ∷ results)
            s'

  abbrev pub asked : State sv → Result AgentError LlmResponse × World sv
  asked s = sv.chat (build_request a s.conversation) s.world

  abbrev pub allowed : State sv → Result AgentError (Unit {0})
  allowed s = check_llm_budget sv.floats.micros s.budget

  -- The state when the model has answered.
  abbrev pub billed : State sv → LlmResponse → World sv → State sv
  billed s response w = record s { budget = record_usage sv a response s.budget; world = w }

  -- A turn with some rounds left: the state it starts in, its result, the messages it adds and the state
  -- it ends in.
  pub data Transcript
      : ℕ → State sv → Result AgentError LlmResponse → List Message → State sv → Type 0 where
    exhausted : (s : State sv) → Transcript 0 s (err (rounds_error a)) [] s
    refused :
        (k : ℕ) (s : State sv) (e : AgentError)
        → allowed s ≡ err e
        → Transcript (suc k) s (err e) [] s
    failed :
        (k : ℕ) (s : State sv) (e : AgentError) (w : World sv)
        → allowed s ≡ ok tt
        → asked s ≡ (err e, w)
        → Transcript (suc k) s (err e) [] (record s { world = w })
    finished :
        (k : ℕ) (s s' : State sv) (response : LlmResponse) (w : World sv)
        → allowed s ≡ ok tt
        → asked s ≡ (ok response, w)
        → response.tool_calls ≡ []
        → Extends (billed s response w) (final response.text) s'
        → Transcript (suc k) s (ok response) (final response.text) s'
    called :
        (k : ℕ) (s s1 s2 s' : State sv) (response : LlmResponse) (w : World sv) (call : ToolCall)
        (more : List ToolCall) (results new : List Message) (r : Result AgentError LlmResponse)
        → allowed s ≡ ok tt
        → asked s ≡ (ok response, w)
        → response.tool_calls ≡ call ∷ more
        → Extends (billed s response w) (assistant_message response ∷ []) s1
        → Served (call ∷ more) s1 results s2
        → Transcript k s2 r new s'
        → Transcript (suc k) s r (assistant_message response ∷ (results ++ new)) s'

  -- A turn from here ends, and adds its messages.
  abbrev pub Adds : ℕ → State sv → Option (Ending sv a) → Type 0
  Adds k s o =
      (end : Ending sv a) × (new : List Message) × (o ≡ some end)
      × (messages_of end.1 ≡ messages_of s ++ new)
      × Transcript k s end.0 new end.1
