-- ===== src/Orchestration/Delegation/Budgets.antt =====
-- A run of the supervisor ends, and its workers stay within their budgets.
use puff.Common.{
  ℕ, zero, suc, ◌≤◌, ◌<◌, ◌^◌, ◌≡◌, refl, sym, ◌∙◌, Option, none, some, List, [], ◌∷◌, Text, Result,
  ok, err, All, Gives, Gives-map, Gives-bind, arith, if_keeps, ◌==◌, text_eq, codes,
}
use puff.Errors.{AgentError}
use puff.Budget.{AgentBudgetTracker}
use puff.Tools.{ToolDefinition}
use puff.Agents.{Agent, ToolCall, LlmResponse, Services}
use puff.Turns.{F, World, State, Ending, run_turn}
use puff.Turns.Rule.{run_turn_keeps}
use puff.Turns.Limits.{prepared, answer_keeps, kept_limit, record_counts, below_limit}
use puff.Orchestration.Delegation.{
  Worker, Supervisor, Run, Outcome, run_worker, delegate_to, delegate, serve_call, add_result,
  serve_calls, react, received, supervise, run_supervisor,
}

-- The tool calls of a budget are within its limit, if it has one below 2^64.
abbrev pub InLimit : {F64 : Type 0} → AgentBudgetTracker F64 → Type 0
InLimit b =
    (limit : ℕ) → b.limits.max_tool_calls ≡ some limit → limit < 2 ^ 64 → b.tool_calls_used ≤ limit

module _ (sv : Services) where
  -- A turn ends, and keeps the tool calls within the limit.
  turn_fits :
      (a : Agent (F sv)) (s : State sv)
      → InLimit s.budget
      → Gives (λ (end : Ending sv a). InLimit end.1.budget) (run_turn sv a s)
  turn_fits a s fits =
      let (end, e, (k, h)) =
        run_turn_keeps sv a (λ k b w. InLimit b)
          (record {
            asked = λ k b w r c h limit e small.
                let (x, y) = answer_keeps sv a (sv.chat r w).0 b in
                let below = h limit (sym x ∙ e) small in omega arith;
            ran = λ k b w call tool p h limit e small.
                let (c, d, f) = prepared a call.name b tool p in
                record_counts b limit small (below_limit b limit d (sym (kept_limit b) ∙ e));
          })
          s fits in
      (end, e, h)

  abbrev pub Fits : List (Worker sv) → Type 0
  Fits workers = All (λ x. InLimit x.budget) workers

  run_worker_fits :
      (x : Worker sv) (task : Text) (w : World sv)
      → InLimit x.budget
      → Gives (λ (text, x', w'). InLimit x'.budget) (run_worker sv x task w)
  unfolding run_worker
  run_worker_fits x task w h = Gives-map _ _ _ (turn_fits x.agent _ h)

  delegate_to_fits :
      (name task : Text) (xs : List (Worker sv)) (w : World sv)
      → Fits xs
      → Gives (λ (text, xs', w'). Fits xs') (delegate_to sv name task xs w)
  unfolding delegate_to
  delegate_to_fits name task [] w h = ((none, [], w), refl, tt)
  delegate_to_fits name task (x ∷ xs) w (h, hs) =
      if_keeps (Gives (λ (text, xs', w'). Fits xs')) (x.agent.config.name == name)
        (Gives-map _ _ _ (let (r, e, f) = run_worker_fits x task w h in (r, e, (f, hs))))
        (Gives-map _ _ _ (let (r, e, f) = delegate_to_fits name task xs w hs in (r, e, (h, f))))

  abbrev pub FitsRun : Run sv → Type 0
  FitsRun r = Fits r.workers

  serve_call_fits :
      (call : ToolCall) (r : Run sv)
      → FitsRun r
      → Gives (λ (text, r'). FitsRun r') (serve_call sv call r)
  unfolding serve_call delegate
  serve_call_fits call r h =
      if_keeps (Gives (λ (text, r'). FitsRun r')) (call.name == codes "delegate")
        (Gives-map _ _ _ (delegate_to_fits _ _ r.workers r.world h)) (_, refl, h)

  serve_calls_fits :
      (calls : List ToolCall) (r : Run sv) → FitsRun r → Gives FitsRun (serve_calls sv calls r)
  unfolding serve_calls add_result
  serve_calls_fits [] r h = (r, refl, h)
  serve_calls_fits (call ∷ more) r h =
      Gives-bind (λ (text, r'). FitsRun r') FitsRun (serve_call sv call r) _
        (serve_call_fits call r h)
        (λ (text, r') h'. serve_calls_fits more (add_result sv call text r') h')

  abbrev FitsOutcome : Outcome sv → Type 0
  FitsOutcome end = FitsRun end.1

  abbrev GoesOn : (Run sv → Option (Outcome sv)) → Type 0
  GoesOn later = (r : Run sv) → FitsRun r → Gives FitsOutcome (later r)

  react_fits :
      (response : LlmResponse) (calls : List ToolCall) (later : Run sv → Option (Outcome sv))
      → GoesOn later
      → GoesOn (react sv response calls later)
  unfolding react
  react_fits response [] later next r h = (_, refl, h)
  react_fits response (call ∷ more) later next r h =
      Gives-bind FitsRun FitsOutcome _ later (serve_calls_fits (call ∷ more) _ h) next

  received_fits :
      (reply : Result AgentError LlmResponse × World sv) (later : Run sv → Option (Outcome sv))
      → GoesOn later
      → GoesOn (received sv reply later)
  unfolding received
  received_fits (err e, w) later next r h = (_, refl, h)
  received_fits (ok response, w) later next r h =
      react_fits response response.tool_calls later next _ h

  supervise_fits :
      (v : Supervisor sv) (tools : List ToolDefinition) (rounds : ℕ)
      → GoesOn (supervise sv v tools rounds)
  unfolding supervise
  supervise_fits v tools zero r h = (_, refl, h)
  supervise_fits v tools (suc rounds) r h = received_fits _ _ (supervise_fits v tools rounds) r h

  -- Where each worker's tool calls are within the limit of its budget, if it has one below 2^64, a run of the
  -- supervisor ends without a panic, and they are within it then.
  pub run_supervisor_tool_calls :
      (v : Supervisor sv) (input : Text) (workers : List (Worker sv)) (w : World sv)
      → All (λ x. InLimit x.budget) workers
      → (end : Outcome sv) × (run_supervisor sv v input workers w ≡ some end)
        × All (λ x. InLimit x.budget) end.1.workers
  unfolding run_supervisor
  run_supervisor_tool_calls v input workers w h = supervise_fits v _ 10 _ h
