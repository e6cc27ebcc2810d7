-- ===== src/Turns/Window.antt =====
-- What a small window leaves of the messages with tool calls.
use puff.Common.{
  ℕ, suc, ◌+◌, ◌≤◌, ◌<◌, ◌≡◌, refl, sym, ap, ◌∙◌, Option, none, some, List, [], ◌∷◌, ◌++◌, length,
  All, arith, inl, inr, bind_then, length-append,
}
use mathlib.Core.Path.{subst}
use puff.Conversation.{Conversation, Message, add_message}
use puff.Conversation.Compaction.{Compacted, compact-Compacted}
use puff.Agents.{
  Services, Agent, ToolCall, ToolExecutionOutcome, MemoryConfig, conversation_window, window_of,
  result_message, max_archived_context_chars,
}
use puff.Turns.{State, F, compacted_to, compact_conversation, push, serve_tools, execute_tool_call}
use puff.Turns.Rule.{conversation-execute_tool_call}

-- The message is the result of a tool call.
abbrev pub IsResult : Message → Type 0
IsResult m =
    (call : ToolCall) × (outcome : ToolExecutionOutcome) × (m ≡ result_message call outcome)

-- The last so many messages are results.
abbrev EndsInResults : ℕ → List Message → Type 0
EndsInResults n [] = Unit
EndsInResults n (m ∷ ms) = (suc (length ms) ≤ n → IsResult m) × EndsInResults n ms

none_yet : (ms : List Message) → EndsInResults 0 ms
none_yet [] = tt
none_yet (m ∷ ms) = (λ h. absurd (omega arith), none_yet ms)

later : (n : ℕ) (older ms : List Message) → EndsInResults n (older ++ ms) → EndsInResults n ms
later n [] ms h = h
later n (m ∷ older) ms h = later n older ms h.1

one_more :
    (n : ℕ) (ms : List Message) (m : Message)
    → EndsInResults n ms
    → IsResult m
    → EndsInResults (suc n) (ms ++ m ∷ [])
one_more n [] m h r = (λ _. r, tt)
one_more n (x ∷ ms) m h r =
    (λ k. h.0 (omega (arith, length-append ms (m ∷ []))), one_more n ms m h.1 r)

All-IsResult : (n : ℕ) (ms : List Message) → EndsInResults n ms → length ms ≤ n → All IsResult ms
All-IsResult n [] h k = tt
All-IsResult n (m ∷ ms) h k = (h.0 k, All-IsResult n ms h.1 (omega arith))

window_pos :
    (memory : Option MemoryConfig) (window : ℕ) → window_of memory ≡ some window → 0 < window
unfolding window_of
window_pos none window h = cc
window_pos (some memory) window h = ground arith

module _ (sv : Services) (a : Agent (F sv)) (window : ℕ)
    (windowed : conversation_window a ≡ some window) where
  abbrev messages_of : State sv → List Message
  messages_of s = s.conversation.messages

  -- The messages of this state end in so many results, and fit the window.
  pub record Fits (n : ℕ) (s : State sv) : Type 0 where
    pub ends : EndsInResults n (messages_of s)
    pub few : length (messages_of s) ≤ window
    pub some_left : 0 < length (messages_of s)

  compacts :
      (s : State sv)
      → (d : Conversation) × (compact_conversation sv a s ≡ some (record s { conversation = d }))
        × Compacted sv.executors.show window max_archived_context_chars s.conversation d
  unfolding compact_conversation compacted_to
  compacts s =
      let (d, e, c) =
        compact-Compacted sv.executors.show window max_archived_context_chars (sv.now s.world)
          s.conversation in
      (d, rw (windowed, compacted_to, e) refl, c)

  pushed :
      (n : ℕ) (m : Message) (s : State sv)
      → EndsInResults n (messages_of s)
      → IsResult m
      → (s' : State sv) × (push sv a m s ≡ some s') × Fits (suc n) s'
  unfolding push add_message conversation_window
  pushed n m s h r =
      let said = record s { conversation = add_message m (sv.now s.world) s.conversation } in
      let (d, e, c) = compacts said in
      (
        record said { conversation = d },
        e,
        record {
          ends =
              later (suc n) c.older d.messages
                (subst (EndsInResults (suc n)) c.split (one_more n (messages_of s) m h r));
          few = elim c.kept [ inl z ↦ absurd (omega (arith, positive)) | inr le ↦ le ];
          some_left = elim c.recent [
            | inl z ↦ left_of d c.split z
            | inr k ↦ omega (arith, positive)
          ];
        },
      )
    where
      positive : 0 < window
      positive = window_pos a.config.memory window windowed

      left_of :
          {older : List Message} (d : Conversation)
          → messages_of s ++ m ∷ [] ≡ older ++ d.messages
          → older ≡ []
          → 0 < length d.messages
      left_of d e z = omega (
        arith,
        ap length (e ∙ ap (λ l. l ++ d.messages) z),
        length-append (messages_of s) (m ∷ []),
      )

  result_pushed :
      (n : ℕ) (call : ToolCall) (s : State sv)
      → EndsInResults n (messages_of s)
      → (s' : State sv) × (push sv a
            (result_message call (execute_tool_call sv a call s).0)
            (execute_tool_call sv a call s).1
          ≡ some s')
        × Fits (suc n) s'
  result_pushed n call s h =
      let (outcome, s1) = execute_tool_call sv a call s in
      let same = ap (λ c. c.messages) (conversation-execute_tool_call sv a call s) in
      pushed n (result_message call outcome) s1 (subst (EndsInResults n) (sym same) h)
        (call, outcome, refl)

  served :
      (n : ℕ) (call : ToolCall) (more : List ToolCall) (s : State sv)
      → EndsInResults n (messages_of s)
      → (s' : State sv) × (serve_tools sv a (call ∷ more) s ≡ some s')
        × Fits (n + length (call ∷ more)) s'
  unfolding serve_tools
  served n call [] s h =
      let (s2, e2, f) = result_pushed n call s h in
      (s2, bind_then _ (serve_tools sv a []) e2 refl, subst (λ k. Fits k s2) (omega arith) f)
  served n call (next ∷ more) s h =
      let (s2, e2, f) = result_pushed n call s h in
      let (s3, e3, g) = served (suc n) next more s2 f.ends in
      (
        s3,
        bind_then _ (serve_tools sv a (next ∷ more)) e2 e3,
        subst (λ k. Fits k s3) (omega arith) g,
      )

  -- Where a response has at least as many tool calls as the window has messages, the messages that are
  -- left when they have run, and that the next request sends, are results only: the assistant's
  -- message with the calls is not among them.
  pub only_results :
      (call : ToolCall) (more : List ToolCall) (s : State sv)
      → window ≤ length (call ∷ more)
      → (s' : State sv) × (serve_tools sv a (call ∷ more) s ≡ some s')
        × All IsResult (messages_of s')
        × (0 < length (messages_of s'))
  only_results call more s h =
      let (s', e, f) = served 0 call more s (none_yet (messages_of s)) in
      (
        s',
        e,
        All-IsResult (0 + length (call ∷ more)) (messages_of s') f.ends (fits f.few),
        f.some_left,
      )
    where
      fits : {k : ℕ} → k ≤ window → k ≤ 0 + length (call ∷ more)
      fits h' = omega arith
