-- ===== src/Turns/Rule.antt =====
-- A rule for what a turn keeps, by which it also ends without a panic.
use mathlib.Core.Option
use puff.Common.{
  ℕ, zero, suc, ◌≡◌, refl, sym, Option, none, some, List, [], ◌∷◌, Result, ok, err, if_cases,
  if_keeps, bind_then, ◌==◌, text_eq,
}
use puff.Errors.{AgentError}
use puff.Budget.{AgentBudgetTracker, check_llm_budget, record_tool_call}
use puff.Conversation.{Conversation, Message, add_message, add_assistant_message}
use puff.Conversation.Compaction.{compact-Compacted}
use puff.Tools.{RegisteredTool}
use puff.Tools.Execute.{execute_registered_tool}
use puff.Agents.{
  Services, Agent, ToolCall, LlmRequest, LlmResponse, prepare_tool_call, conversation_window,
  can_run_native, build_request, result_message, assistant_message, max_tool_rounds,
  max_archived_context_chars,
}
use puff.Turns.{
  State, F, World, Ending, execute_prepared_tool, execute_if, execute_tool_call, compacted_to,
  compact_conversation, push, serve_tools, conclude, record_usage, respond_to, answer, request,
  run_rounds, run_turn_native, run_turn,
}

module _ (sv : Services) (a : Agent (F sv)) where
  compacts_to :
      (window : Option ℕ) (s : State sv)
      → (c : Conversation) × (compacted_to sv a window s ≡ some (record s { conversation = c }))
  unfolding compacted_to
  compacts_to none s = (s.conversation, refl)
  compacts_to (some window) s =
      let (c, e, _) =
        compact-Compacted sv.executors.show window max_archived_context_chars (sv.now s.world)
          s.conversation in
      (c, rw e refl)

  -- Compaction changes the conversation at most.
  pub compacts :
      (s : State sv)
      → (c : Conversation) × (compact_conversation sv a s ≡ some (record s { conversation = c }))
  unfolding compact_conversation
  compacts s = compacts_to (conversation_window a) s

  if_prepared_same :
      (prepared : Result AgentError RegisteredTool) (call : ToolCall) (s : State sv)
      → (execute_if sv a prepared call s).1.conversation ≡ s.conversation
  unfolding execute_if execute_prepared_tool
  if_prepared_same (err e) call s = refl
  if_prepared_same (ok tool) call s = refl

  -- A tool call does not touch the conversation.
  pub conversation-execute_tool_call :
      (call : ToolCall) (s : State sv)
      → (execute_tool_call sv a call s).1.conversation ≡ s.conversation
  unfolding execute_tool_call
  conversation-execute_tool_call call s =
      if_prepared_same (prepare_tool_call a call.name s.budget) call s

  -- The budget after an answer.
  abbrev pub after_answer :
      Result AgentError LlmResponse → AgentBudgetTracker (F sv) → AgentBudgetTracker (F sv)
  after_answer (ok response) b = record_usage sv a response b
  after_answer (err e) b = b

  module _ (Q : ℕ → AgentBudgetTracker (F sv) → World sv → Type 0) where
    -- What a request keeps that the budget allows, with one round less, and what the run of a tool
    -- keeps that the agent may run now.
    pub record Respects : Type 0 where
      pub asked :
          (k : ℕ) (b : AgentBudgetTracker (F sv)) (w : World sv) (r : LlmRequest)
          → check_llm_budget sv.floats.micros b ≡ ok tt
          → Q (suc k) b w
          → Q k (after_answer (sv.chat r w).0 b) (sv.chat r w).1
      pub ran :
          (k : ℕ) (b : AgentBudgetTracker (F sv)) (w : World sv) (call : ToolCall)
          (tool : RegisteredTool)
          → prepare_tool_call a call.name b ≡ ok tool
          → Q k b w
          → Q k
              (record_tool_call b)
              (execute_registered_tool sv.executors tool call.arguments a.capabilities w).1

    abbrev Holds : ℕ → State sv → Type 0
    Holds k s = Q k s.budget s.world

    push_keeps :
        (k : ℕ) (m : Message) (s : State sv)
        → Holds k s
        → (s' : State sv) × (push sv a m s ≡ some s') × Holds k s'
    unfolding push
    push_keeps k m s h =
        let s' = record s { conversation = add_message m (sv.now s.world) s.conversation } in
        let (c, e) = compacts s' in (record s { conversation = c }, e, h)

    module _ (rules : Respects) where
      if_prepared :
          (k : ℕ) (prepared : Result AgentError RegisteredTool) (call : ToolCall) (s : State sv)
          → prepare_tool_call a call.name s.budget ≡ prepared
          → Holds k s
          → Holds k (execute_if sv a prepared call s).1
      unfolding execute_if execute_prepared_tool
      if_prepared k (err e) call s p h = h
      if_prepared k (ok tool) call s p h = rules.ran k s.budget s.world call tool p h

      call_keeps :
          (k : ℕ) (call : ToolCall) (s : State sv)
          → Holds k s
          → Holds k (execute_tool_call sv a call s).1
      unfolding execute_tool_call
      call_keeps k call s h = if_prepared k (prepare_tool_call a call.name s.budget) call s refl h

      serve_tools_keeps :
          (k : ℕ) (calls : List ToolCall) (s : State sv)
          → Holds k s
          → (s' : State sv) × (serve_tools sv a calls s ≡ some s') × Holds k s'
      unfolding serve_tools
      serve_tools_keeps k [] s h = (s, refl, h)
      serve_tools_keeps k (call ∷ more) s h =
          let (outcome, s1) = execute_tool_call sv a call s in
          let (s2, e2, h2) =
            push_keeps k (result_message call outcome) s1 (call_keeps k call s h) in
          let (s3, e3, h3) = serve_tools_keeps k more s2 h2 in
          (s3, bind_then _ (serve_tools sv a more) e2 e3, h3)

      -- The turn ends from here.
      abbrev Ends : Option (Ending sv a) → Type 0
      Ends o = (end : Ending sv a) × (o ≡ some end) × ((k : ℕ) × Holds k end.1)

      conclude_keeps :
          (k : ℕ) (response : LlmResponse) (s : State sv)
          → Holds k s
          → (s' : State sv) × (conclude sv a response s ≡ some s') × Holds k s'
      unfolding conclude
      conclude_keeps k response s h =
          if_cases (λ o. (s' : State sv) × (o ≡ some s') × Holds k s') (response.text == [])
            (λ _. (s, refl, h))
            (λ _.
              let said = record s {
                conversation = add_assistant_message response.text (sv.now s.world) s.conversation;
              } in
              let (c, e) = compacts said in (record said { conversation = c }, e, h))

      respond_to-Ends :
          (k : ℕ) (response : LlmResponse) (calls : List ToolCall)
          (later : State sv → Option (Ending sv a)) (s : State sv)
          → ((s' : State sv) → Holds k s' → Ends (later s'))
          → Holds k s
          → Ends (respond_to sv a response calls later s)
      unfolding respond_to
      respond_to-Ends k response [] later s ih h =
          let (s', e, h') = conclude_keeps k response s h in ((ok response, s'), rw e refl, (k, h'))
      respond_to-Ends k response (call ∷ more) later s ih h =
          let (s1, e1, h1) = push_keeps k (assistant_message response) s h in
          let (s2, e2, h2) = serve_tools_keeps k (call ∷ more) s1 h1 in
          let (end, e, h') = ih s2 h2 in
          (
            end,
            bind_then (push sv a (assistant_message response) s)
                (λ s'. Option.bind (serve_tools sv a (call ∷ more) s') later) e1
                (bind_then (serve_tools sv a (call ∷ more) s1) later e2 e),
            h',
          )

      answer-Ends :
          (k : ℕ) (reply : Result AgentError LlmResponse × World sv)
          (later : State sv → Option (Ending sv a)) (s : State sv)
          → ((s' : State sv) → Holds k s' → Ends (later s'))
          → Q k (after_answer reply.0 s.budget) reply.1
          → Ends (answer sv a reply later s)
      unfolding answer
      answer-Ends k (err e, w) later s ih h = ((err e, record s { world = w }), refl, (k, h))
      answer-Ends k (ok response, w) later s ih h =
          respond_to-Ends k response response.tool_calls later
            (record s { budget = record_usage sv a response s.budget; world = w }) ih h

      request-Ends :
          (k : ℕ) (check : Result AgentError (Unit {0})) (later : State sv → Option (Ending sv a))
          (s : State sv)
          → check ≡ check_llm_budget sv.floats.micros s.budget
          → ((s' : State sv) → Holds k s' → Ends (later s'))
          → Holds (suc k) s
          → Ends (request sv a check later s)
      unfolding request
      request-Ends k (err e) later s c ih h = ((err e, s), refl, (suc k, h))
      request-Ends k (ok _) later s c ih h =
          answer-Ends k (sv.chat (build_request a s.conversation) s.world) later s ih
            (rules.asked k s.budget s.world (build_request a s.conversation) (sym c) h)

      run_rounds-Ends :
          (exhausted : AgentError) (k : ℕ) (s : State sv)
          → Holds k s
          → Ends (run_rounds sv a exhausted k s)
      unfolding run_rounds
      run_rounds-Ends exhausted zero s h = ((err exhausted, s), refl, (zero, h))
      run_rounds-Ends exhausted (suc k) s h =
          let (c, e) = compacts s in
          let s' = record s { conversation = c } in
          let (end, e', h') =
            request-Ends k (check_llm_budget sv.floats.micros s'.budget)
              (run_rounds sv a exhausted k) s' refl (run_rounds-Ends exhausted k) h in
          (end, bind_then (compact_conversation sv a s) _ e e', h')

      -- What holds with ten rounds left, and is kept by each request that the budget allows, which
      -- takes a round, and by each run of a tool that the capabilities and the budget allow and that
      -- is registered, holds when the turn ends, with some rounds left; and the turn ends, without
      -- a panic.
      pub run_turn_keeps :
          (s : State sv) → Q max_tool_rounds s.budget s.world → Ends (run_turn sv a s)
      unfolding run_turn run_turn_native
      run_turn_keeps s h =
          if_keeps Ends (can_run_native a) (run_rounds-Ends _ max_tool_rounds s h)
            (run_rounds-Ends _ max_tool_rounds s h)
