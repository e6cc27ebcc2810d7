-- ===== src/Llm/Providers.antt =====
-- src/agents/provider.rs: the chunks that the events of the two kinds of providers become. `from_str` is
-- `serde_json::from_str`, and `as_u64` reads a number.
pub mod Usage
use mathlib.Core.Option
use puff.Common.{
  ℕ, ◌%◌, ◌^◌, Bool, true, false, Option, none, some, List, [], ◌∷◌, ◌++◌, Text, codes, any,
  if◌then◌else◌, ◌==◌, text_eq,
}
use puff.Common.Json.{
  Json, null, bool, number, string, array, object, Items, nil, cons, get, as_str,
}
use puff.Agents.{StopReason, end_turn, tool_use, max_tokens, stop_sequence, unknown}
use puff.Streaming.{SseEvent}
use puff.Llm.{StreamChunk, text_delta, tool_call_start, tool_call_delta, tool_call_end, done, error}

unfoldable pub str_or : Text → Option Json → Text
unfolding as_str
str_or other none = other
str_or other (some v) = elim (as_str v) [ none ↦ other | some s ↦ s ]

-- `get` of a value that may be missing.
unfoldable pub get_in : Option Json → Text → Option Json
unfolding get
get_in none key = none
get_in (some v) key = get v key

-- `as_array`
unfoldable pub as_array : Option Json → Option Items
as_array (some (array items)) = some items
as_array _ = none

-- `get(0)` of an array.
unfoldable pub first_of : Option Json → Option Json
first_of (some (array (cons v more))) = some v
first_of _ = none

unfoldable pub is_object : Json → Bool
is_object (object fields) = true
is_object _ = false

unfoldable pub text_in : Option Json → Option Text
unfolding as_str
text_in o = Option.bind o as_str

unfoldable pub anthropic_stop_reason : Text → StopReason
anthropic_stop_reason s =
    if s == codes "end_turn"
    then end_turn
    else if s == codes "tool_use"
    then tool_use
    else if s == codes "max_tokens"
    then max_tokens
    else if s == codes "stop_sequence"
    then stop_sequence
    else unknown s

unfoldable pub openai_stop_reason : Text → StopReason
openai_stop_reason s =
    if s == codes "stop"
    then end_turn
    else if s == codes "tool_calls"
    then tool_use
    else if s == codes "length"
    then max_tokens
    else unknown s

unfoldable pub reason_or : StopReason → (Text → StopReason) → Option Text → StopReason
reason_or other read none = other
reason_or other read (some s) = read s

-- A text that may be missing, as the chunk that it makes.
unfoldable pub one_chunk : (Text → StreamChunk) → Option Text → List StreamChunk
one_chunk make none = []
one_chunk make (some t) = make t ∷ []

-- The same, where an empty text makes none.
unfoldable pub chunk_of_some : (Text → StreamChunk) → Option Text → List StreamChunk
chunk_of_some make none = []
chunk_of_some make (some []) = []
chunk_of_some make (some (c ∷ s)) = make (c ∷ s) ∷ []

module _ (from_str : Text → Option Json) (as_u64 : Json → Option ℕ) where
  -- `unwrap_or(0) as u32` of a count.
  unfoldable pub tokens_in : Option Json → ℕ
  tokens_in o = elim (Option.bind o as_u64) [ none ↦ 0 | some n ↦ n % 2 ^ 32 ]

  -- What is made of the data of an event, if it is JSON.
  unfoldable pub of_json : (Json → List StreamChunk) → Option Json → List StreamChunk
  of_json read none = []
  of_json read (some v) = read v

  unfoldable pub block_start : Option Json → List StreamChunk
  unfolding str_or get_in
  block_start cb =
      if str_or [] (get_in cb (codes "type")) == codes "tool_use"
      then tool_call_start (str_or [] (get_in cb (codes "id")))
          (str_or [] (get_in cb (codes "name")))
        ∷ []
      else []

  unfoldable pub block_delta : Option Json → List StreamChunk
  unfolding str_or get_in text_in one_chunk
  block_delta delta =
      let delta_type = str_or [] (get_in delta (codes "type")) in
      if delta_type == codes "text_delta"
      then one_chunk text_delta (text_in (get_in delta (codes "text")))
      else if delta_type == codes "input_json_delta"
      then one_chunk (tool_call_delta []) (text_in (get_in delta (codes "partial_json")))
      else []

  unfoldable pub message_delta : Json → List StreamChunk
  unfolding tokens_in get_in get text_in reason_or anthropic_stop_reason
  message_delta val =
      let usage = get val (codes "usage") in
      done (tokens_in (get_in usage (codes "input_tokens")))
        (tokens_in (get_in usage (codes "output_tokens")))
        (reason_or (unknown (codes "none")) anthropic_stop_reason
          (text_in (get_in (get val (codes "delta")) (codes "stop_reason"))))
      ∷ []

  unfoldable pub anthropic_event : Text → Text → List StreamChunk
  unfolding of_json block_start block_delta message_delta
  anthropic_event event_type content =
      if event_type == codes "content_block_start"
      then of_json (λ v. block_start (get v (codes "content_block"))) (from_str content)
      else if event_type == codes "content_block_delta"
      then of_json (λ v. block_delta (get v (codes "delta"))) (from_str content)
      else if event_type == codes "content_block_stop"
      then tool_call_end [] ∷ []
      else if event_type == codes "message_delta"
      then of_json message_delta (from_str content)
      else if event_type == codes "error"
      then error content ∷ []
      else []

  -- `AnthropicProvider::parse_sse_event`
  unfoldable pub parse_anthropic : SseEvent → List StreamChunk
  unfolding anthropic_event
  parse_anthropic event = elim event.event_type [
    | none ↦ []
    | some t ↦ anthropic_event t event.content
  ]

  -- The chunk of the usage, if it is there.
  unfoldable pub usage_chunk : Json → Option Json → List StreamChunk
  unfolding is_object tokens_in get_in get text_in first_of reason_or openai_stop_reason
  usage_chunk val none = []
  usage_chunk val (some usage) =
      if is_object usage
      then done (tokens_in (get usage (codes "prompt_tokens")))
          (tokens_in (get usage (codes "completion_tokens")))
          (reason_or end_turn openai_stop_reason
            (text_in (get_in (first_of (get val (codes "choices"))) (codes "finish_reason"))))
        ∷ []
      else []

  unfoldable pub is_done : StreamChunk → Bool
  is_done (done it ot sr) = true
  is_done _ = false

  unfoldable pub with_reason : Option Text → List StreamChunk → List StreamChunk
  unfolding is_done openai_stop_reason
  with_reason none chunks = chunks
  with_reason (some reason) chunks =
      if any is_done chunks then chunks else chunks ++ done 0 0 (openai_stop_reason reason) ∷ []

  -- The loop over the tool calls of a delta.
  unfoldable pub call_chunks : Items → List StreamChunk
  unfolding str_or get get_in text_in one_chunk chunk_of_some
  call_chunks nil = []
  call_chunks (cons tc more) =
      let id = str_or [] (get tc (codes "id")) in
      let func = get tc (codes "function") in
      one_chunk (tool_call_start id) (text_in (get_in func (codes "name")))
      ++ (chunk_of_some (tool_call_delta id) (text_in (get_in func (codes "arguments")))
          ++ call_chunks more)

  unfoldable pub calls_of : Option Items → List StreamChunk
  unfolding call_chunks
  calls_of none = []
  calls_of (some items) = call_chunks items

  unfoldable pub delta_chunks : Option Json → List StreamChunk
  unfolding get_in text_in chunk_of_some as_array calls_of
  delta_chunks delta =
      chunk_of_some text_delta (text_in (get_in delta (codes "content")))
      ++ calls_of (as_array (get_in delta (codes "tool_calls")))

  -- The loop over the choices, with the chunks so far.
  unfoldable pub choice_chunks : Items → List StreamChunk → List StreamChunk
  unfolding with_reason delta_chunks get text_in
  choice_chunks nil chunks = chunks
  choice_chunks (cons choice more) chunks = choice_chunks more (
      with_reason (text_in (get choice (codes "finish_reason"))) chunks
      ++ delta_chunks (get choice (codes "delta")))

  unfoldable pub with_choices : Option Items → List StreamChunk → List StreamChunk
  unfolding choice_chunks
  with_choices none chunks = chunks
  with_choices (some choices) chunks = choice_chunks choices chunks

  -- The chunks of a value, with its error, if it has one.
  unfoldable pub openai_value : Json → Option Json → List StreamChunk
  unfolding with_choices usage_chunk as_array get str_or
  openai_value val (some e) = error (str_or (codes "unknown error") (get e (codes "message"))) ∷ []
  openai_value val none =
      with_choices (as_array (get val (codes "choices")))
        (usage_chunk val (get val (codes "usage")))

  -- `OpenAiProvider::parse_sse_event`
  unfoldable pub parse_openai : SseEvent → List StreamChunk
  unfolding openai_value of_json
  parse_openai event =
      if event.content == codes "[DONE]"
      then []
      else of_json (λ v. openai_value v (get v (codes "error"))) (from_str event.content)
