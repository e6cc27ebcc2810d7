-- ===== src/Examples/Usage.antt =====
-- A stream that stops at the limit of tokens, and then has the usage.
use mathlib.Core.Option
use puff.Common.{ℕ, ◌≡◌, refl, none, some, Option, [], ◌∷◌, ◌++◌, Text, codes, ok, text_beq}
use puff.Common.Json.{Json, object, array, number, nil, field, end, get, find}
use puff.Agents.{StopReason, LlmResponse}
use puff.Streaming.{SseEvent}
use puff.Llm.{done, nothing_yet, collect_chat_response}
use puff.Llm.Providers.{parse_openai}
use puff.Llm.Providers.Usage.{usage_ends_turn}

abbrev usage : Json
usage = object (
    field (codes "choices") (array nil)
      (field (codes "usage") (object (field (codes "prompt_tokens") (number (codes "3")) end)) end))

abbrev event : SseEvent
event = record { event_type = none; content = codes "u" }

abbrev from_str : Text → Option Json
from_str s = some usage

abbrev three : Json → Option ℕ
three v = some 3

abbrev response : LlmResponse
response = record {
  text = [];
  tool_calls = [];
  input_tokens = 3;
  output_tokens = 0;
  stop_reason = StopReason.end_turn;
  model = codes "m";
}

collected :
    collect_chat_response from_str
      (codes "m")
      (done 0 0 StopReason.max_tokens ∷ [] ++ parse_openai from_str three event)
      nothing_yet
    ≡ some (ok response)
unfolding collect_chat_response nothing_yet parse_openai get find text_beq Option.bind
collected = refl

usage_ends_turn_example : response.stop_reason ≡ StopReason.end_turn
unfolding get find text_beq
usage_ends_turn_example =
    usage_ends_turn from_str (codes "m") three (done 0 0 StopReason.max_tokens ∷ []) event usage
      (field (codes "prompt_tokens") (number (codes "3")) end) response (λ e. cc) refl refl refl
      refl collected
