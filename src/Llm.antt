-- ===== src/Llm.antt =====
-- src/agents/llm.rs: the response that the chunks of a stream make. `from_str` is `serde_json::from_str`,
-- and a panic is `none`.
pub mod Pending
pub mod Calls
pub mod Shapes
pub mod Client
pub mod Providers
use mathlib.Core.Option
use puff.Common.{
  ℕ, zero, suc, Option, none, some, List, [], ◌∷◌, ◌++◌, Text, codes, ltb, length, if◌then◌else◌,
  ◌==◌, text_eq, Result, ok, err,
}
use puff.Common.Json.{Json, null}
use puff.Errors.{Message, AgentError, llm_error}
use puff.Agents.{ToolCall, StopReason, unknown, LlmResponse}

pub data StreamChunk : Type 0 where
  text_delta : Text → StreamChunk
  tool_call_start tool_call_delta : Text → Text → StreamChunk
  tool_call_end : Text → StreamChunk
  done : ℕ → ℕ → StopReason → StreamChunk
  error : Text → StreamChunk

pub record PendingToolCall : Type 0 where
  pub id : Text
  pub name : Text
  pub json_buf : Text

-- The variables of the loop.
pub record Collected : Type 0 where
  pub text : Text
  pub input_tokens : ℕ
  pub output_tokens : ℕ
  pub stop_reason : StopReason
  pub pending_tool_calls : List PendingToolCall
  pub completed_tool_calls : List ToolCall
  pub current_tool_idx : Option ℕ

unfoldable pub nothing_yet : Collected
nothing_yet = record {
  text = [];
  input_tokens = 0;
  output_tokens = 0;
  stop_reason = unknown (codes "no_done_event");
  pending_tool_calls = [];
  completed_tool_calls = [];
  current_tool_idx = none;
}

-- `position` of the first with an id.
unfoldable pub position : Text → List PendingToolCall → Option ℕ
position id [] = none
position id (tc ∷ more) =
    let later = position id more in if tc.id == id then some 0 else Option.map suc later

unfoldable pub target_idx : Text → Option ℕ → List PendingToolCall → Option ℕ
unfolding position
target_idx [] current pending = current
target_idx (c ∷ id) current pending = position (c ∷ id) pending

-- `push_str` on the one at an index, if there is one.
unfoldable pub extend_at : ℕ → Text → List PendingToolCall → List PendingToolCall
extend_at i input_json [] = []
extend_at zero input_json (tc ∷ more) = record tc { json_buf = tc.json_buf ++ input_json } ∷ more
extend_at (suc i) input_json (tc ∷ more) = tc ∷ extend_at i input_json more

unfoldable pub extend : Option ℕ → Text → List PendingToolCall → List PendingToolCall
unfolding extend_at
extend none input_json pending = pending
extend (some i) input_json pending = extend_at i input_json pending

-- `Vec::remove`, which panics past the end.
unfoldable pub remove : ℕ → List PendingToolCall → Option (PendingToolCall × List PendingToolCall)
remove i [] = none
remove zero (tc ∷ more) = some (tc, more)
remove (suc i) (tc ∷ more) = Option.map (λ (found, rest). (found, tc ∷ rest)) (remove i more)

-- A count that is 0 leaves what is there.
unfoldable pub if_positive : ℕ → ℕ → ℕ
if_positive n before = if ltb 0 n then n else before

module _ (from_str : Text → Option Json) where
  or_null : Option Json → Json
  or_null none = null
  or_null (some v) = v

  unfoldable pub finalise : PendingToolCall → ToolCall
  unfolding or_null
  finalise tc = record { id = tc.id; name = tc.name; arguments = or_null (from_str tc.json_buf) }

  unfoldable pub end_at : Option ℕ → Collected → Option Collected
  unfolding remove finalise
  end_at none c = some c
  end_at (some i) c =
      Option.map
        (λ (tc, rest). record c {
          pending_tool_calls = rest;
          completed_tool_calls = c.completed_tool_calls ++ finalise tc ∷ [];
          current_tool_idx = none;
        })
        (remove i c.pending_tool_calls)

  unfoldable pub start_call : Text → Text → Collected → Collected
  start_call id name c = record c {
    pending_tool_calls =
        c.pending_tool_calls ++ record { id = id; name = name; json_buf = [] } ∷ [];
    current_tool_idx = some (length c.pending_tool_calls);
  }

  unfoldable pub extend_call : Text → Text → Collected → Collected
  unfolding extend target_idx
  extend_call id input_json c = record c {
    pending_tool_calls =
        extend (target_idx id c.current_tool_idx c.pending_tool_calls) input_json
          c.pending_tool_calls;
  }

  unfoldable pub end_call : Text → Collected → Option Collected
  unfolding end_at target_idx
  end_call id c = end_at (target_idx id c.current_tool_idx c.pending_tool_calls) c

  unfoldable pub finish : ℕ → ℕ → StopReason → Collected → Collected
  unfolding if_positive
  finish it ot sr c = record c {
    input_tokens = if_positive it c.input_tokens;
    output_tokens = if_positive ot c.output_tokens;
    stop_reason = sr;
  }

  -- The calls that were not ended are flushed.
  unfoldable pub flush : List PendingToolCall → List ToolCall
  unfolding finalise
  flush [] = []
  flush (tc ∷ more) = finalise tc ∷ flush more

  unfoldable pub response_of : Text → Collected → LlmResponse
  unfolding flush
  response_of model c = record {
    text = c.text;
    tool_calls = c.completed_tool_calls ++ flush c.pending_tool_calls;
    input_tokens = c.input_tokens;
    output_tokens = c.output_tokens;
    stop_reason = c.stop_reason;
    model = model;
  }

  unfoldable pub collect_chat_response :
      Text → List StreamChunk → Collected → Option (Result AgentError LlmResponse)
  unfolding start_call extend_call end_call finish response_of
  collect_chat_response model [] c = some (ok (response_of model c))
  collect_chat_response model (text_delta delta ∷ more) c =
      collect_chat_response model more (record c { text = c.text ++ delta })
  collect_chat_response model (tool_call_start id name ∷ more) c =
      collect_chat_response model more (start_call id name c)
  collect_chat_response model (tool_call_delta id input_json ∷ more) c =
      collect_chat_response model more (extend_call id input_json c)
  collect_chat_response model (tool_call_end id ∷ more) c =
      Option.bind (end_call id c) (collect_chat_response model more)
  collect_chat_response model (done it ot sr ∷ more) c =
      collect_chat_response model more (finish it ot sr c)
  collect_chat_response model (error e ∷ more) c = some (err (llm_error (Message.text e)))
