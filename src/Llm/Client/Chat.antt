-- ===== src/Llm/Client/Chat.antt =====
-- A call of the model as a whole: the stream and the response that its chunks make.
use mathlib.Core.Option
use puff.Common.{
  ℕ, ◌+◌, ◌*◌, ◌≤◌, ◌≡◌, refl, ap, ◌⊎◌, inl, inr, true, some, List, [], length, Result, ok, err,
  Gives, bind_then, text_eq,
}
use puff.Common.Table as Table
use puff.Errors.{AgentError}
use puff.Agents.{LlmRequest, LlmResponse}
use puff.Llm.{StreamChunk}
use puff.Llm.Calls.{Collects, first_error, collect_chat_response-Collects}
use puff.Llm.Client.{
  LlmClient, Streamed, stream_ref, stream_with_retries, models_of, chat_with, chat_ref,
}
use puff.Llm.Client.Retries.{Counts, OwnError, stream_ref_ends}

module _ (c : LlmClient) (sent : c.World → ℕ) (k : Counts c sent) (request : LlmRequest)
    (w : c.World) where
  -- An error is the one that the attempts on the request's own model ended with, or one that came in the
  -- stream.
  abbrev pub Failure : Result AgentError LlmResponse → Type 0
  Failure (ok response) = Unit
  Failure (err e) =
      ((w' : c.World) × (stream_with_retries c request request.model 3 w ≡ some (err e, w')))
      ⊎ ((chunks : List StreamChunk) × (w' : c.World) × (stream_ref c request w
            ≡ some (ok chunks, w'))
          × (first_error chunks ≡ some e))

  abbrev pub most : ℕ
  most = 4 + 2 * length (models_of (Table.get request.model c.fallback))

  in_stream :
      (chunks : List StreamChunk) (w' : c.World) (r : Result AgentError LlmResponse)
      → stream_ref c request w ≡ some (ok chunks, w')
      → Collects (λ x. true) c.from_str request.model chunks [] 0 r
      → Failure r
  in_stream chunks w' (ok response) g h = tt
  in_stream chunks w' (err e) g h = inr (chunks, w', g, h)

  chat_with_ends :
      (reply : Streamed c)
      → stream_ref c request w ≡ some reply
      → sent reply.1 ≤ sent w + most
      → OwnError c sent k request w reply.0
      → Gives (λ end. (sent end.1 ≤ sent w + most) × Failure end.0) (chat_with c request reply)
  unfolding chat_with
  chat_with_ends (err e, w') g n o = ((err e, w'), refl, (n, inl o))
  chat_with_ends (ok chunks, w') g n o =
      let (r, h, collected) =
        collect_chat_response-Collects (λ x. true) c.from_str request.model chunks in
      ((r, w'), ap (Option.map (λ r. (r, w'))) h, (n, in_stream chunks w' r g collected))

  -- A call of the model ends without a panic and sends a request at most four times, and twice more for each
  -- model to fall back on, as far as a provider's call sends one at most and a wait none. If it fails, it is with the error that the attempts on
  -- the request's own model ended with, or with the first error in the stream that was found.
  pub chat_ref_ends :
      (end : Result AgentError LlmResponse × c.World) × (chat_ref c request w ≡ some end)
      × (sent end.1 ≤ sent w + most)
      × Failure end.0
  unfolding chat_ref
  chat_ref_ends =
      let (reply, g, n, o) = stream_ref_ends c sent k request w in
      let (end, h, (m, f)) = chat_with_ends reply g n o in (end, bind_then _ _ g h, m, f)
