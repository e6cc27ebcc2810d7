-- ===== src/Turns/Transcript.antt =====
-- What a turn adds to a conversation that is not compacted.
use mathlib.Core.Option
use mathlib.Core.List.{append_assoc, append-nil}
use puff.Common.{
  ℕ, zero, suc, ◌≡◌, refl, sym, ap, ◌∙◌, Option, none, some, List, [], ◌∷◌, ◌++◌, Text, Result, ok,
  err, bind_then, text_beq, Bool-cases, inl, inr,
}
use puff.Errors.{AgentError}
use puff.Conversation.{Message, add_message, add_assistant_message}
use puff.Agents.{
  Services, Agent, ToolCall, LlmResponse, conversation_window, can_run_native, result_message,
  assistant_message, max_tool_rounds,
}
use puff.Turns.{
  State, F, World, Ending, execute_tool_call, compacted_to, compact_conversation, push, serve_tools,
  add_final, conclude, respond_to, answer, request, run_rounds, run_turn_native, run_turn,
}
use puff.Turns.Rule.{conversation-execute_tool_call}
use puff.Turns.Rounds.{
  final, rounds_error, messages_of, Extends, Served, all_served, serves, asked, allowed, billed,
  exhausted, refused, failed, finished, called, Adds,
}

-- One message, and then more of them.
join_messages :
    (ms : List Message) (m : Message) (rest : List Message) {ms' end : List Message}
    → ms' ≡ ms ++ m ∷ []
    → end ≡ ms' ++ rest
    → end ≡ ms ++ m ∷ rest
join_messages ms m rest e h = h ∙ ap (λ l. l ++ rest) e ∙ append_assoc ms (m ∷ []) rest

module _ (sv : Services) (a : Agent (F sv)) (whole : conversation_window a ≡ none) where
  -- Without a window nothing is compacted.
  uncompacted : (s : State sv) → compact_conversation sv a s ≡ some s
  unfolding compact_conversation compacted_to
  uncompacted s = rw whole refl

  pushed :
      (m : Message) (s : State sv)
      → (s' : State sv) × (push sv a m s ≡ some s') × Extends sv a s (m ∷ []) s'
  unfolding push add_message
  pushed m s =
      (_, uncompacted _, record { messages = refl; archived = refl; budget = refl; world = refl })

  served :
      (calls : List ToolCall) (s : State sv)
      → (s' : State sv) × (results : List Message) × (serve_tools sv a calls s ≡ some s')
        × (messages_of sv a s' ≡ messages_of sv a s ++ results)
        × Served sv a calls s results s'
  unfolding serve_tools
  served [] s = (s, [], refl, sym (append-nil _), all_served s)
  served (call ∷ more) s =
      let m = result_message call (execute_tool_call sv a call s).0 in
      let same = ap (λ c. c.messages) (conversation-execute_tool_call sv a call s) in
      let (s2, e2, x) = pushed m (execute_tool_call sv a call s).1 in
      let (s3, results, e3, m3, rest) = served more s2 in
      (
        s3,
        m ∷ results,
        bind_then _ (serve_tools sv a more) e2 e3,
        join_messages (messages_of sv a s) m results (x.messages ∙ ap (λ ms. ms ++ m ∷ []) same) m3,
        serves call more s s2 s3 results x rest,
      )

  added :
      (text : Text) (s : State sv)
      → (s' : State sv) × (add_final sv a text s ≡ some s') × Extends sv a s (final text) s'
  unfolding add_final add_assistant_message add_message text_beq
  added [] s = (
    s,
    refl,
    record { messages = sym (append-nil _); archived = refl; budget = refl; world = refl },
  )
  added (c ∷ text) s =
      (_, uncompacted _, record { messages = refl; archived = refl; budget = refl; world = refl })

  -- A response to a request that the budget allows, by its tool calls.
  respond_to-Adds :
      (k : ℕ) (s : State sv) (w : World sv) (response : LlmResponse) (calls : List ToolCall)
      (later : State sv → Option (Ending sv a))
      → allowed sv a s ≡ ok tt
      → asked sv a s ≡ (ok response, w)
      → response.tool_calls ≡ calls
      → ((s' : State sv) → Adds sv a k s' (later s'))
      → Adds sv a (suc k) s (respond_to sv a response calls later (billed sv a s response w))
  unfolding respond_to conclude
  respond_to-Adds k s w response [] later b r c ih =
      let (s', e, x) = added response.text (billed sv a s response w) in
      (
        (ok response, s'),
        final response.text,
        rw e refl,
        x.messages,
        finished k s s' response w b r c x,
      )
  respond_to-Adds k s w response (call ∷ more) later b r c ih =
      let (s1, e1, x) = pushed (assistant_message response) (billed sv a s response w) in
      let (s2, results, e2, m2, run) = served (call ∷ more) s1 in
      let (end, new, e, m, t) = ih s2 in
      (
        end,
        assistant_message response ∷ (results ++ new),
        bind_then (push sv a (assistant_message response) (billed sv a s response w))
            (λ s'. Option.bind (serve_tools sv a (call ∷ more) s') later) e1
            (bind_then (serve_tools sv a (call ∷ more) s1) later e2 e),
        join_messages (messages_of sv a s) (assistant_message response) (results ++ new) x.messages
            (m ∙ ap (λ ms. ms ++ new) m2 ∙ append_assoc (messages_of sv a s1) results new),
        called k s s1 s2 end.1 response w call more results new end.0 b r c x run t,
      )

  answer-Adds :
      (k : ℕ) (s : State sv) (reply : Result AgentError LlmResponse × World sv)
      (later : State sv → Option (Ending sv a))
      → allowed sv a s ≡ ok tt
      → asked sv a s ≡ reply
      → ((s' : State sv) → Adds sv a k s' (later s'))
      → Adds sv a (suc k) s (answer sv a reply later s)
  unfolding answer
  answer-Adds k s (err e, w) later b r ih =
      ((err e, record s { world = w }), [], refl, sym (append-nil _), failed k s e w b r)
  answer-Adds k s (ok response, w) later b r ih =
      respond_to-Adds k s w response response.tool_calls later b r refl ih

  request-Adds :
      (k : ℕ) (s : State sv) (check : Result AgentError (Unit {0}))
      (later : State sv → Option (Ending sv a))
      → allowed sv a s ≡ check
      → ((s' : State sv) → Adds sv a k s' (later s'))
      → Adds sv a (suc k) s (request sv a check later s)
  unfolding request
  request-Adds k s (err e) later b ih = ((err e, s), [], refl, sym (append-nil _), refused k s e b)
  request-Adds k s (ok _) later b ih = answer-Adds k s (asked sv a s) later b refl ih

  run_rounds-Adds :
      (error : AgentError)
      → error ≡ rounds_error a
      → (k : ℕ) (s : State sv) → Adds sv a k s (run_rounds sv a error k s)
  unfolding run_rounds
  run_rounds-Adds error x zero s =
      ((err (rounds_error a), s), [], ap (λ e. some (err e, s)) x, sym (append-nil _), exhausted s)
  run_rounds-Adds error x (suc k) s =
      let (end, new, e, m, t) =
        request-Adds k s (allowed sv a s) (run_rounds sv a error k) refl
          (run_rounds-Adds error x k) in
      (end, new, bind_then (compact_conversation sv a s) _ (uncompacted s) e, m, t)

  -- Where nothing is compacted, a turn ends, in at most ten rounds, each of which asks the model with the
  -- conversation as it is then, if the budget allows it. A response of the model with tool calls adds the
  -- assistant's message and right after it the result of each call, run in their order from where the one
  -- before has left the world and the budget, and the next round follows; a response without any adds its
  -- text, if it is not empty, and is the result. A refusal, or an error of the model, is the result and
  -- adds nothing; and so is that the rounds are used up.
  pub run_turn-Adds : (s : State sv) → Adds sv a max_tool_rounds s (run_turn sv a s)
  unfolding run_turn run_turn_native
  run_turn-Adds s = elim (Bool-cases (can_run_native a)) [
    | inl native ↦ rw native (run_rounds-Adds _ (rw native refl) max_tool_rounds s)
    | inr other ↦ rw other (run_rounds-Adds _ (rw other refl) max_tool_rounds s)
  ]
