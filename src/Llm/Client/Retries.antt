-- ===== src/Llm/Client/Retries.antt =====
-- How often a request is sent, and which error it fails with.
use puff.Common.{
  ℕ, zero, suc, ◌+◌, ◌*◌, ◌≤◌, ◌≡◌, refl, sym, ap, ◌∙◌, bind_then, Option, some, List, [], ◌∷◌,
  Text, length, arith, Result, ok, err, Gives, Gives-bind, if_keeps, text_eq,
}
use puff.Common.Table as Table
use puff.Errors.{AgentError}
use puff.Agents.{LlmRequest}
use puff.Llm.{StreamChunk}
use puff.Llm.Client.{
  LlmClient, Provider, Streamed, on_response, stream_from, stream_single_attempt, is_retried, pause,
  attempted, attempts, stream_with_retries, or_next, fall_back, models_of, stream_ref,
}

module _ (c : LlmClient) (sent : c.World → ℕ) where
  -- What counts the requests grows by one at most where a provider sends one, and not in a wait.
  pub record Counts : Type 0 where
    pub one :
        (model : Text) (provider : Provider c.World) (request : LlmRequest) (w : c.World)
        → c.resolve_provider model ≡ ok provider
        → sent (provider.post request w).1 ≤ suc (sent w)
    pub none_asleep : (secs : ℕ) (w : c.World) → sent (c.sleep secs w) ≤ sent w

  module _ (k : Counts) where
    pause_sends : (n : ℕ) (w : c.World) → sent (pause c n w) ≤ sent w
    unfolding pause
    pause_sends zero w = omega arith
    pause_sends (suc n) w = k.none_asleep _ w

    on_response_sends :
        (provider : Provider c.World) (r : Result Text _ × c.World)
        → sent (on_response c provider r).1 ≡ sent r.1
    unfolding on_response
    on_response_sends provider (ok r, w) = refl
    on_response_sends provider (err e, w) = refl

    stream_from_sends :
        (model : Text) (p : Result AgentError (Provider c.World)) (request : LlmRequest)
        (w : c.World)
        → c.resolve_provider model ≡ p
        → sent (stream_from c p request w).1 ≤ suc (sent w)
    unfolding stream_from
    stream_from_sends model (err e) request w h = omega arith
    stream_from_sends model (ok provider) request w h = omega (
      arith,
      on_response_sends provider (provider.post request w),
      k.one model provider request w h,
    )

    single_sends :
        (request : LlmRequest) (model : Text) (w : c.World)
        → sent (stream_single_attempt c request model w).1 ≤ suc (sent w)
    unfolding stream_single_attempt
    single_sends request model w = stream_from_sends model (c.resolve_provider model) _ w refl

    abbrev Within : ℕ → Streamed c → Type 0
    Within n reply = sent reply.1 ≤ n

    attempted_ends :
        (n : ℕ) (reply : Streamed c) (again : Option AgentError → c.World → Option (Streamed c))
        → sent reply.1 ≤ n
        → ((e : AgentError) → Gives (Within n) (again (some e) reply.1))
        → Gives (Within n) (attempted c reply again)
    unfolding attempted
    attempted_ends n (ok chunks, w) again h next = (_, refl, h)
    attempted_ends n (err e, w) again h next =
        if_keeps (Gives (Within n)) (is_retried c e) (next e) (_, refl, h)

    -- The attempts from one that is made.
    made_ends :
        (request : LlmRequest) (model : Text) (left attempt : ℕ) (w : c.World)
        → ((e : AgentError) (w' : c.World)
            → Gives
                (Within (sent w' + left))
                (attempts c request model left (suc attempt) (some e) w'))
        → Gives (Within (sent w + suc left)) (
            attempted c
              (stream_single_attempt c request model (pause c attempt w))
              (attempts c request model left (suc attempt)))
    made_ends request model left attempt w next =
        let r = stream_single_attempt c request model (pause c attempt w) in
        let once = single_sends request model (pause c attempt w) in
        let slept = pause_sends attempt w in
        attempted_ends (sent w + suc left) r _ (omega arith)
          (λ e. let (end, h, l) = next e r.1 in (end, h, omega arith))

    -- With an error that was kept, the loop ends with a result.
    attempts_end :
        (request : LlmRequest) (model : Text) (left attempt : ℕ) (e : AgentError) (w : c.World)
        → Gives (Within (sent w + left)) (attempts c request model left attempt (some e) w)
    unfolding attempts
    attempts_end request model zero attempt e w = (_, refl, omega arith)
    attempts_end request model (suc left) attempt e w =
        made_ends request model left attempt w
          (λ e' w'. attempts_end request model left (suc attempt) e' w')

    with_retries_ends :
        (request : LlmRequest) (model : Text) (max_retries : ℕ) (w : c.World)
        → Gives
            (Within (sent w + suc max_retries))
            (stream_with_retries c request model max_retries w)
    unfolding stream_with_retries attempts
    with_retries_ends request model max_retries w =
        made_ends request model max_retries 0 w
          (λ e w'. attempts_end request model max_retries 1 e w')

    abbrev OrError : AgentError → Result AgentError (List StreamChunk) → Type 0
    OrError e (ok chunks) = Unit
    OrError e (err e') = e' ≡ e

    next_model :
        (request : LlmRequest) (e : AgentError) (model : Text) (more : List Text) (w : c.World)
        (reply : Streamed c)
        → Within (sent w + 2) reply
        → ((w' : c.World)
            → Gives
                (λ r. (sent r.1 ≤ sent w' + 2 * length more) × OrError e r.0)
                (fall_back c request e more w'))
        → Gives
            (λ r. (sent r.1 ≤ sent w + 2 * length (model ∷ more)) × OrError e r.0)
            (or_next c (λ e' w'. fall_back c request e more w') reply)
    unfolding or_next
    next_model request e model more w (ok chunks, w') h next = (_, refl, (omega arith, tt))
    next_model request e model more w (err e', w') h next =
        let (r, g, (l, o)) = next w' in (r, g, (omega arith, o))

    fall_back_ends :
        (request : LlmRequest) (e : AgentError) (models : List Text) (w : c.World)
        → Gives
            (λ reply. (sent reply.1 ≤ sent w + 2 * length models) × OrError e reply.0)
            (fall_back c request e models w)
    unfolding fall_back
    fall_back_ends request e [] w = (_, refl, (omega arith, refl))
    fall_back_ends request e (model ∷ more) w =
        Gives-bind (Within (sent w + 2)) _ (stream_with_retries c request model 1 w) _
          (with_retries_ends request model 1 w)
          (λ reply h. next_model request e model more w reply h (fall_back_ends request e more))

    abbrev models_for : LlmRequest → List Text
    models_for request = models_of (Table.get request.model c.fallback)

    -- An error is the one that the request's own model ended with.
    abbrev pub OwnError : LlmRequest → c.World → Result AgentError (List StreamChunk) → Type 0
    OwnError request w (ok chunks) = Unit
    OwnError request w (err e) =
        (w' : c.World) × (stream_with_retries c request request.model 3 w ≡ some (err e, w'))

    own_error :
        (request : LlmRequest) (w w' : c.World) (e : AgentError)
        (r : Result AgentError (List StreamChunk))
        → stream_with_retries c request request.model 3 w ≡ some (err e, w')
        → OrError e r
        → OwnError request w r
    own_error request w w' e (ok chunks) h o = tt
    own_error request w w' e (err e') h o = (w', h ∙ ap (λ x. some (err x, w')) (sym o))

    after_own :
        (request : LlmRequest) (w : c.World) (reply : Streamed c)
        → stream_with_retries c request request.model 3 w ≡ some reply
        → Within (sent w + 4) reply
        → Gives
            (λ r.
              (sent r.1 ≤ sent w + (4 + 2 * length (models_for request))) × OwnError request w r.0)
            (or_next c (λ e w'. fall_back c request e (models_for request) w') reply)
    unfolding or_next
    after_own request w (ok chunks, w') h l = (_, refl, (omega arith, tt))
    after_own request w (err e, w') h l =
        let (r, g, (m, o)) = fall_back_ends request e (models_for request) w' in
        (r, g, (omega arith, own_error request w w' e r.0 h o))

    -- A search for a stream ends without a panic and sends a request at most four times, and twice more for each
    -- model to fall back on, as far as a provider's call sends one at most; if it fails, it is with the error that the attempts on the request's own model ended with.
    pub stream_ref_ends :
        (request : LlmRequest) (w : c.World)
        → (end : Streamed c) × (stream_ref c request w ≡ some end)
          × (sent end.1
              ≤ sent w + (4 + 2 * length (models_of (Table.get request.model c.fallback))))
          × OwnError request w end.0
    unfolding stream_ref
    stream_ref_ends request w =
        let (reply, h, l) = with_retries_ends request request.model 3 w in
        let (end, g, (n, o)) = after_own request w reply h l in (end, bind_then _ _ h g, n, o)
