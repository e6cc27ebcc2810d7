-- ===== src/Examples/Streams.antt =====
-- Streams of chunks with two tool calls, and a client whose providers are down.
use mathlib.Core.Option
use mathlib.Core.Path.{subst}
use puff.Common.{
  ℕ, suc, ◌+◌, ◌≤◌, ◌≡◌, refl, Bool, true, Option, none, some, List, [], ◌∷◌, Text, codes, arith,
  Result, ok, ◌==◌, text_eq, text_beq,
}
use puff.Common.Json.{Json, string}
use puff.Common.Table as Table
use puff.Errors.{AgentError}
use puff.Agents.{StopReason, LlmRequest, LlmResponse}
use puff.Llm.{
  StreamChunk, text_delta, tool_call_start, tool_call_delta, tool_call_end, done, nothing_yet,
  collect_chat_response,
}
use puff.Llm.Calls.{Collects, collect_chat_response-Collects}
use puff.Llm.Shapes.{Part, says, calls, send_parts, said, called, collect_chat_response-send_parts}
use puff.Llm.Client.{LlmClient, Provider, stream_ref, chat_ref, is_transient_error}
use puff.Llm.Client.Retries.{Counts}
use puff.Llm.Client.Chat.{most, Failure, chat_ref_ends}

-- The second call is not ended.
abbrev chunks : List StreamChunk
chunks =
    text_delta (codes "hm")
    ∷ tool_call_start (codes "1") (codes "f")
    ∷ tool_call_delta [] (codes "{")
    ∷ tool_call_start (codes "2") (codes "g")
    ∷ tool_call_delta (codes "1") (codes "}")
    ∷ tool_call_end (codes "1")
    ∷ tool_call_delta (codes "2") (codes "x")
    ∷ done 3 4 StopReason.tool_use
    ∷ []

-- Each text is read as a string.
abbrev from_str : Text → Option Json
from_str s = some (string s)

abbrev is_f : Text × Text → Bool
is_f (id, name) = name == codes "f"

collect_chat_response-Collects_example :
    (r : Result AgentError LlmResponse) × (collect_chat_response from_str
        (codes "m")
        chunks
        nothing_yet
      ≡ some r)
    × Collects is_f from_str (codes "m") chunks [] 0 r
collect_chat_response-Collects_example =
    collect_chat_response-Collects is_f from_str (codes "m") chunks

two_calls :
    collect_chat_response from_str (codes "m") chunks nothing_yet
    ≡ some (
        ok (record {
          text = codes "hm";
          tool_calls =
              record { id = codes "1"; name = codes "f"; arguments = string (codes "{}") }
              ∷ record { id = codes "2"; name = codes "g"; arguments = string (codes "x") }
              ∷ [];
          input_tokens = 3;
          output_tokens = 4;
          stop_reason = StopReason.tool_use;
          model = codes "m";
        }))
unfolding collect_chat_response nothing_yet text_beq Option.bind
two_calls = refl

abbrev parts : List Part
parts =
    says (codes "a")
    ∷ calls (codes "1") (codes "f") true (codes "{" ∷ codes "}" ∷ [])
    ∷ says (codes "b")
    ∷ []

collect_chat_response-send_parts_example :
    collect_chat_response from_str
      (codes "m")
      (send_parts parts (done 1 2 StopReason.end_turn ∷ []))
      nothing_yet
    ≡ some (
        ok (record {
          text = said parts;
          tool_calls = called from_str (codes "m") parts;
          input_tokens = 1;
          output_tokens = 2;
          stop_reason = StopReason.end_turn;
          model = codes "m";
        }))
collect_chat_response-send_parts_example =
    collect_chat_response-send_parts from_str (codes "m") parts 1 2 StopReason.end_turn

abbrev provider : Provider ℕ
provider = record {
  name = codes "p";
  post = λ r w. (
    ok (record { status = 503; retry_after = none; error_body = none; byte_stream = [] }),
    suc w,
  );
  parse_sse_event = λ e. [];
}

abbrev client : LlmClient
client = record {
  World = ℕ;
  resolve_provider = λ model. ok provider;
  fallback = (codes "m", codes "n" ∷ []) ∷ [];
  sleep = λ secs w. w;
  status_text = λ n. codes "503 Service Unavailable";
  show = λ m. codes "HTTP 503 Service Unavailable";
  from_str = from_str;
}

abbrev request : LlmRequest
request = record { model = codes "m"; messages = []; tools = []; max_tokens = 9; system = none }

counts : Counts client (λ w. w)
counts = record {
  one = λ model p r w h.
      let same : provider ≡ p = cc in subst (λ q. (q.post r w).1 ≤ suc w) same (omega arith);
  none_asleep = λ secs w. omega arith;
}

chat_ref_ends_example :
    (end : Result AgentError LlmResponse × ℕ) × (chat_ref client request 0 ≡ some end)
    × (end.1 ≤ 0 + most client (λ w. w) counts request 0)
    × Failure client (λ w. w) counts request 0 end.0
chat_ref_ends_example = chat_ref_ends client (λ w. w) counts request 0

-- All of the six requests are made.
six_requests : Option.map (λ end. end.1) (stream_ref client request 0) ≡ some 6
unfolding stream_ref is_transient_error text_beq Table.get Option.bind
six_requests = refl
