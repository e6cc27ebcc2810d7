-- ===== src/Turns/Limits.antt =====
-- What a turn uses up: requests to the model, and the budget of tool calls.
use puff.Common.{
  ℕ, suc, ◌+◌, ◌≤◌, ◌<◌, ◌^◌, ◌≡◌, refl, ◌∙◌, Option, none, some, Text, Result, ok, err, arith,
  chain-ok, ok_or, ◌>>◌,
}
use puff.Common.Json.{Json}
use puff.Errors.{AgentError, tool_not_found}
use puff.Budget.{
  AgentBudgetTracker, check_limit, check_tool_budget, record_tool_call, record_llm_usage, fetch_add,
}
use puff.Capabilities.Checks.{check_tool}
use puff.Tools.{RegisteredTool, get}
use puff.Tools.Execute.{execute_registered_tool}
use puff.Agents.{Services, Agent, ToolCall, LlmRequest, LlmResponse, prepare_tool_call}
use puff.Turns.{State, F, World, Ending, run_turn, record_usage}
use puff.Turns.Rule.{after_answer, run_turn_keeps}

ok_or-ok : {E A : Type 0} (o : Option A) (e : E) {x : A} → ok_or o e ≡ ok x → o ≡ some x
ok_or-ok none e h = cc
ok_or-ok (some y) e h = cc

pub below_limit :
    {F64 : Type 0} (b : AgentBudgetTracker F64) (limit : ℕ)
    → check_tool_budget b ≡ ok tt
    → b.limits.max_tool_calls ≡ some limit
    → b.tool_calls_used < limit
unfolding check_tool_budget check_limit
below_limit b limit h e = ground arith

-- What a prepared call has passed: the capability, the budget and the registry.
pub prepared :
    {F64 : Type 0} (a : Agent F64) (name : Text) (b : AgentBudgetTracker F64)
    (tool : RegisteredTool)
    → prepare_tool_call a name b ≡ ok tool
    → (check_tool a.capabilities name ≡ ok tt)
      × (check_tool_budget b ≡ ok tt)
      × (get name a.tools ≡ some tool)
unfolding prepare_tool_call
prepared a name b tool h =
    let found = ok_or (get name a.tools) (tool_not_found name) in
    let (c, h') =
      (chain-ok (check_tool a.capabilities name) (check_tool_budget b >> found) tool).0 h in
    let (d, h'') = (chain-ok (check_tool_budget b) found tool).0 h' in (c, d, ok_or-ok _ _ h'')

-- An answer leaves the tool calls and their limit alone.
pub answer_keeps :
    (sv : Services) (a : Agent (F sv)) (reply : Result AgentError LlmResponse)
    (b : AgentBudgetTracker (F sv))
    → ((after_answer sv a reply b).limits.max_tool_calls ≡ b.limits.max_tool_calls)
      × ((after_answer sv a reply b).tool_calls_used ≡ b.tool_calls_used)
unfolding record_usage record_llm_usage
answer_keeps sv a (ok response) b = (refl, refl)
answer_keeps sv a (err e) b = (refl, refl)

pub kept_limit :
    {F64 : Type 0} (b : AgentBudgetTracker F64)
    → (record_tool_call b).limits.max_tool_calls ≡ b.limits.max_tool_calls
unfolding record_tool_call
kept_limit b = refl

pub record_counts :
    {F64 : Type 0} (b : AgentBudgetTracker F64) (limit : ℕ)
    → limit < 2 ^ 64
    → b.tool_calls_used < limit
    → (record_tool_call b).tool_calls_used ≤ limit
unfolding record_tool_call fetch_add
record_counts b limit small h = omega arith

module _ (sv : Services) (a : Agent (F sv)) (s : State sv) where
  -- A turn makes ten requests at most: what counts them, and tools leave alone, grows by ten at most. The turn
  -- ends without a panic.
  pub run_turn_requests :
      (asked : World sv → ℕ)
      → ((r : LlmRequest) (w : World sv) → asked (sv.chat r w).1 ≤ suc (asked w))
      → ((tool : RegisteredTool) (arguments : Json) (w : World sv)
          → asked (execute_registered_tool sv.executors tool arguments a.capabilities w).1
            ≤ asked w)
      → (end : Ending sv a) × (run_turn sv a s ≡ some end)
        × (asked end.1.world ≤ asked s.world + 10)
  run_turn_requests asked one none_here =
      let (end, e, (k, h)) =
        run_turn_keeps sv a (λ k b w. asked w + k ≤ asked s.world + 10)
          (record {
            asked = λ k b w r c h. omega (arith, one r w);
            ran = λ k b w call tool p h. omega (arith, none_here tool call.arguments w);
          })
          s (omega arith) in
      (end, e, omega arith)

  -- A turn keeps the tool calls within the budget's limit.
  pub run_turn_tool_calls :
      (limit : ℕ)
      → s.budget.limits.max_tool_calls ≡ some limit
      → limit < 2 ^ 64
      → s.budget.tool_calls_used ≤ limit
      → (end : Ending sv a) × (run_turn sv a s ≡ some end) × (end.1.budget.tool_calls_used ≤ limit)
  run_turn_tool_calls limit e small below =
      let (end, e', (k, h)) =
        run_turn_keeps sv a
          (λ k b w. (b.limits.max_tool_calls ≡ some limit) × (b.tool_calls_used ≤ limit))
          (record {
            asked = λ k b w r c h. (answer_fits k b w r h);
            ran = λ k b w call tool p h. call_fits b call tool p h;
          })
          s (e, below) in
      (end, e', h.1)
    where
      answer_fits :
          (k : ℕ) (b : AgentBudgetTracker (F sv)) (w : World sv) (r : LlmRequest)
          → (b.limits.max_tool_calls ≡ some limit) × (b.tool_calls_used ≤ limit)
          → ((after_answer sv a (sv.chat r w).0 b).limits.max_tool_calls ≡ some limit)
            × ((after_answer sv a (sv.chat r w).0 b).tool_calls_used ≤ limit)
      answer_fits k b w r h =
          let (x, y) = answer_keeps sv a (sv.chat r w).0 b in (x ∙ h.0, omega arith)

      call_fits :
          (b : AgentBudgetTracker (F sv)) (call : ToolCall) (tool : RegisteredTool)
          → prepare_tool_call a call.name b ≡ ok tool
          → (b.limits.max_tool_calls ≡ some limit) × (b.tool_calls_used ≤ limit)
          → ((record_tool_call b).limits.max_tool_calls ≡ some limit)
            × ((record_tool_call b).tool_calls_used ≤ limit)
      call_fits b call tool p h =
          let (c, d, f) = prepared a call.name b tool p in
          (kept_limit b ∙ h.0, record_counts b limit small (below_limit b limit d h.0))

-- A turn ends.
pub turn_ends :
    (sv : Services) (a : Agent (F sv)) (s : State sv)
    → (end : Ending sv a) × (run_turn sv a s ≡ some end) × Unit {0}
turn_ends sv a s =
    let (end, e, (k, h)) =
      run_turn_keeps sv a (λ k b w. Unit {0})
        (record { asked = λ k b w r c h. tt; ran = λ k b w call tool p h. tt }) s tt in
    (end, e, tt)
