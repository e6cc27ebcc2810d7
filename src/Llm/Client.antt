-- ===== src/Llm/Client.antt =====
-- src/agents/llm.rs: the client's attempts, retries and fallbacks. The providers of src/agents/provider.rs
-- and what they send, the clock, the texts of errors and serde_json are parameters over one world. The
-- channel between the task that reads a response and the caller is the list of the chunks that it carries.
pub mod Retries
pub mod Chat
use mathlib.Core.Option
use puff.Common.{
  ℕ, zero, suc, ◌-◌, ◌*◌, ◌%◌, ◌^◌, Bool, false, true, ◌&&◌, ◌||◌, Option, none, some, List, [],
  ◌∷◌, ◌++◌, Text, codes, leb, ltb, if◌then◌else◌, ◌==◌, text_eq, nat_eq, Result, ok, err,
}
use puff.Common.Json.{Json}
use puff.Common.Strings.{has_part}
use puff.Common.Table.{Table}
use puff.Common.Table as Table
use puff.Errors.{Message, AgentError, llm_error, llm_rate_limited}
use puff.Agents.{LlmRequest, LlmResponse}
use puff.Orchestration.{parse_usize}
use puff.Streaming.{Bytes, SseEvent, SseParser, feed}
use puff.Streaming as Streaming
use puff.Llm.{StreamChunk, error, collect_chat_response, nothing_yet}

-- What is read of a response: the `retry-after` header, the body of an error, and the stream.
pub record HttpResponse : Type 0 where
  pub status : ℕ
  pub retry_after : Option Text
  pub error_body : Option Text
  pub byte_stream : List (Result Text Bytes)

pub record Provider (World : Type 0) : Type 0 where
  pub name : Text
  -- `build_request_body`, `endpoint_url` and `auth_headers`, sent
  pub post : LlmRequest → World → Result Text HttpResponse × World
  pub parse_sse_event : SseEvent → List StreamChunk

pub record LlmClient : Type 1 where
  pub World : Type 0
  pub resolve_provider : Text → Result AgentError (Provider World)
  pub fallback : Table Text (List Text)
  -- `tokio::time::sleep`, in seconds
  pub sleep : ℕ → World → World
  -- The texts of a status and of a message.
  pub status_text : ℕ → Text
  pub show : Message → Text
  pub from_str : Text → Option Json

unfoldable pub is_transient_error : Text → Bool
unfolding has_part
is_transient_error msg =
    has_part (codes "HTTP 500") msg
    || has_part (codes "HTTP 502") msg
    || has_part (codes "HTTP 503") msg

-- Seconds to milliseconds, in 64 bits.
unfoldable pub retry_after_ms : Option Text → Option ℕ
unfolding parse_usize
retry_after_ms header = Option.map (λ secs. (secs * 1000) % 2 ^ 64) (Option.bind header parse_usize)

unfoldable pub body_or : Option Text → Text
body_or none = codes "failed to read error body"
body_or (some body) = body

-- The models to fall back on.
unfoldable pub models_of : Option (List Text) → List Text
models_of none = []
models_of (some models) = models

-- The chunks of some events.
unfoldable pub chunks_of : (SseEvent → List StreamChunk) → List SseEvent → List StreamChunk
chunks_of parse [] = []
chunks_of parse (event ∷ more) = parse event ++ chunks_of parse more

-- The task that reads the stream; an error ends it.
unfoldable pub read_stream :
    (SseEvent → List StreamChunk) → List (Result Text Bytes) → SseParser → List StreamChunk
unfolding chunks_of
read_stream parse [] parser = []
read_stream parse (ok bytes ∷ more) parser =
    let (parser', events) = feed bytes parser in
    chunks_of parse events ++ read_stream parse more parser'
read_stream parse (err e ∷ more) parser = error (codes "stream read error: " ++ e) ∷ []

module _ (c : LlmClient) where
  abbrev pub Streamed : Type 0
  Streamed = Result AgentError (List StreamChunk) × c.World

  unfoldable pub read_response :
      Provider c.World → HttpResponse → Result AgentError (List StreamChunk)
  unfolding retry_after_ms body_or read_stream
  read_response provider r =
      if r.status == 429
      then err (llm_rate_limited provider.name (retry_after_ms r.retry_after))
      else if leb 200 r.status && ltb r.status 300
      then ok (read_stream provider.parse_sse_event r.byte_stream Streaming.new)
      else err (
          llm_error (
            Message.text
              (codes "HTTP " ++ (c.status_text r.status ++ (codes ": " ++ body_or r.error_body)))))

  unfoldable pub on_response : Provider c.World → Result Text HttpResponse × c.World → Streamed
  unfolding read_response
  on_response provider (err e, w) =
      (err (llm_error (Message.text (codes "HTTP request failed: " ++ e))), w)
  on_response provider (ok r, w) = (read_response provider r, w)

  -- The request with the model that is tried.
  unfoldable pub for_model : Text → LlmRequest → LlmRequest
  for_model model request =
      if request.model == model then request else record request { model = model }

  unfoldable pub stream_from :
      Result AgentError (Provider c.World) → LlmRequest → c.World → Streamed
  unfolding on_response
  stream_from (err e) request w = (err e, w)
  stream_from (ok provider) request w = on_response provider (provider.post request w)

  unfoldable pub stream_single_attempt : LlmRequest → Text → c.World → Streamed
  unfolding stream_from for_model
  stream_single_attempt request model w =
      stream_from (c.resolve_provider model) (for_model model request) w

  unfoldable pub is_retried : AgentError → Bool
  unfolding is_transient_error
  is_retried (llm_rate_limited provider retry_after) = true
  is_retried (llm_error msg) = is_transient_error (c.show msg)
  is_retried _ = false

  -- The wait before an attempt, of 1, 2, 4 and so on.
  unfoldable pub pause : ℕ → c.World → c.World
  pause zero w = w
  pause (suc n) w = c.sleep (2 ^ n) w

  -- What follows an attempt; `again` are those after it.
  unfoldable pub attempted :
      Streamed → (Option AgentError → c.World → Option Streamed) → Option Streamed
  unfolding is_retried
  attempted (ok chunks, w) again = some (ok chunks, w)
  attempted (err e, w) again = if is_retried e then again (some e) w else some (err e, w)

  -- The loop over the attempts that are left, with `last_error`, which must be there at its end.
  unfoldable pub attempts :
      LlmRequest → Text → ℕ → ℕ → Option AgentError → c.World → Option Streamed
  unfolding attempted stream_single_attempt pause
  attempts request model zero attempt last_error w = Option.map (λ e. (err e, w)) last_error
  attempts request model (suc left) attempt last_error w =
      attempted (stream_single_attempt request model (pause attempt w))
        (attempts request model left (suc attempt))

  unfoldable pub stream_with_retries : LlmRequest → Text → ℕ → c.World → Option Streamed
  unfolding attempts
  stream_with_retries request model max_retries w =
      attempts request model (suc max_retries) 0 none w

  -- A stream ends the search for one, and an error goes on.
  unfoldable pub or_next : (AgentError → c.World → Option Streamed) → Streamed → Option Streamed
  or_next next (ok chunks, w) = some (ok chunks, w)
  or_next next (err e, w) = next e w

  -- The loop over the models to fall back on, with the error of the first.
  unfoldable pub fall_back : LlmRequest → AgentError → List Text → c.World → Option Streamed
  unfolding stream_with_retries or_next
  fall_back request primary_err [] w = some (err primary_err, w)
  fall_back request primary_err (model ∷ more) w =
      Option.bind (stream_with_retries request model 1 w)
        (or_next (λ e w'. fall_back request primary_err more w'))

  unfoldable pub stream_ref : LlmRequest → c.World → Option Streamed
  unfolding stream_with_retries or_next fall_back models_of
  stream_ref request w =
      Option.bind (stream_with_retries request request.model 3 w)
        (or_next (λ e w'. fall_back request e (models_of (Table.get request.model c.fallback)) w'))

  unfoldable pub chat_with :
      LlmRequest → Streamed → Option (Result AgentError LlmResponse × c.World)
  unfolding collect_chat_response
  chat_with request (err e, w) = some (err e, w)
  chat_with request (ok chunks, w) =
      Option.map (λ r. (r, w)) (collect_chat_response c.from_str request.model chunks nothing_yet)

  unfoldable pub chat_ref : LlmRequest → c.World → Option (Result AgentError LlmResponse × c.World)
  unfolding stream_ref chat_with
  chat_ref request w = Option.bind (stream_ref request w) (chat_with request)
