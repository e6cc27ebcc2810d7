-- ===== src/Llm/Providers/Usage.antt =====
-- What the usage that a provider sends at the end of a stream makes of the reason to stop.
use mathlib.Core.Option
use puff.Common.{
  ℕ, ◌≡◌, ◌≢◌, refl, sym, ap, ◌∙◌, Bool-cases, inl, inr, Option, none, some, List, [], ◌∷◌, ◌++◌,
  Text, codes, ok, text_eq, text_beq_iff, ◌==◌,
}
use puff.Common.Json.{Json, Fields, object, array, nil, get}
use puff.Agents.{StopReason, end_turn, LlmResponse}
use puff.Streaming.{SseEvent}
use puff.Llm.{
  StreamChunk, text_delta, tool_call_start, tool_call_delta, tool_call_end, done, error, Collected,
  nothing_yet, end_call, finish, response_of, collect_chat_response,
}
use puff.Llm.Providers.{
  parse_openai, openai_value, of_json, with_choices, choice_chunks, usage_chunk, is_object,
  as_array, first_of, get_in, text_in, reason_or, tokens_in,
}

bind-some :
    {A B : Type 0} (o : Option A) (f : A → Option B) (b : B)
    → Option.bind o f ≡ some b
    → (a : A) × (f a ≡ some b)
unfolding Option.bind
bind-some none f b h = absurd (cc)
bind-some (some a) f b h = (a, h)

module _ (from_str : Text → Option Json) (model : Text) where
  -- The last reason is the one that is kept.
  last_reason :
      (it ot : ℕ) (sr : StopReason) (chunks : List StreamChunk) (c : Collected) (r : LlmResponse)
      → collect_chat_response from_str model (chunks ++ done it ot sr ∷ []) c ≡ some (ok r)
      → r.stop_reason ≡ sr
  unfolding collect_chat_response response_of finish
  last_reason it ot sr [] c r h =
      let same : response_of from_str model (finish from_str it ot sr c) ≡ r = cc in
      sym (ap (λ x. x.stop_reason) same)
  last_reason it ot sr (text_delta delta ∷ more) c r h = last_reason it ot sr more _ r h
  last_reason it ot sr (tool_call_start id name ∷ more) c r h = last_reason it ot sr more _ r h
  last_reason it ot sr (tool_call_delta id s ∷ more) c r h = last_reason it ot sr more _ r h
  last_reason it ot sr (tool_call_end id ∷ more) c r h =
      let (c', h') = bind-some (end_call from_str id c) _ (ok r) h in
      last_reason it ot sr more c' r h'
  last_reason it ot sr (done i o s ∷ more) c r h = last_reason it ot sr more _ r h
  last_reason it ot sr (error e ∷ more) c r h = absurd (cc)

  module _ (as_u64 : Json → Option ℕ) where
    -- An event that has the usage and no choices is one chunk, which says that the turn ended.
    usage_only :
        (event : SseEvent) (val : Json) (usage : Fields)
        → event.content ≢ codes "[DONE]"
        → from_str event.content ≡ some val
        → get val (codes "error") ≡ none
        → get val (codes "usage") ≡ some (object usage)
        → get val (codes "choices") ≡ some (array nil)
        → parse_openai from_str as_u64 event
          ≡ done
              (tokens_in from_str as_u64 (get (object usage) (codes "prompt_tokens")))
              (tokens_in from_str as_u64 (get (object usage) (codes "completion_tokens")))
              end_turn
            ∷ []
    unfolding parse_openai openai_value of_json with_choices choice_chunks usage_chunk is_object
        as_array first_of get_in text_in reason_or Option.bind
    usage_only event val usage n v e u c = elim (Bool-cases (event.content == codes "[DONE]")) [
      | inl same ↦ absurd (n ((text_beq_iff event.content (codes "[DONE]")).0 same))
      | inr other ↦ rw (other, v, e, u, c) refl
    ]

    -- Where the last event of a stream has the usage and no choices, a response says that the turn ended,
    -- whatever the reason to stop was that the events before it gave.
    pub usage_ends_turn :
        (chunks : List StreamChunk) (event : SseEvent) (val : Json) (usage : Fields)
        (r : LlmResponse)
        → event.content ≢ codes "[DONE]"
        → from_str event.content ≡ some val
        → get val (codes "error") ≡ none
        → get val (codes "usage") ≡ some (object usage)
        → get val (codes "choices") ≡ some (array nil)
        → collect_chat_response from_str model
            (chunks ++ parse_openai from_str as_u64 event)
            nothing_yet
          ≡ some (ok r)
        → r.stop_reason ≡ end_turn
    usage_ends_turn chunks event val usage r n v e u c h =
        last_reason _ _ end_turn chunks nothing_yet r (
          ap (λ s. collect_chat_response from_str model (chunks ++ s) nothing_yet)
            (sym (usage_only event val usage n v e u c))
          ∙ h)
