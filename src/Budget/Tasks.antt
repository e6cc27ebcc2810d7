-- ===== src/Budget/Tasks.antt =====
-- src/agents/agent.rs: `prepare_tool_call` checks the tool budget, and `execute_prepared_tool` counts the
-- call later. Tasks that share one agent may do their steps in any order.
use puff.Common.{ℕ, suc, ◌+◌, ◌<◌, ◌≡◌, some, arith, ok}
use puff.Capabilities.Types.{BudgetCapability}
use puff.Budget.{AgentBudgetTracker, new, check_tool_budget, record_tool_call}

-- The shared tracker, and how many calls have passed the check and are not yet counted.
pub record Shared (F64 : Type 0) : Type 0 where
  pub tracker : AgentBudgetTracker F64
  pub prepared : ℕ

-- A step of one of at most `tasks` tasks.
pub data Step {F64 : Type 0} (tasks : ℕ) : Shared F64 → Shared F64 → Type 0 where
  prepares :
      (s : Shared F64)
      → check_tool_budget s.tracker ≡ ok tt
      → s.prepared < tasks
      → Step tasks s (record s { prepared = suc s.prepared })
  gives_up :
      (s : Shared F64) (n : ℕ) → s.prepared ≡ suc n → Step tasks s (record s { prepared = n })
  counts :
      (s : Shared F64) (n : ℕ)
      → s.prepared ≡ suc n
      → Step tasks s (record { tracker = record_tool_call s.tracker; prepared = n })

pub data Reach {F64 : Type 0} (tasks : ℕ) (s : Shared F64) : Shared F64 → Type 0 where
  here : Reach tasks s s
  next : {t u : Shared F64} → Reach tasks s t → Step tasks t u → Reach tasks s u

record Within {F64 : Type 0} (tasks limit : ℕ) (s : Shared F64) : Type 0 where
  limited : s.tracker.limits.max_tool_calls ≡ some limit
  room : s.tracker.tool_calls_used + s.prepared < limit + tasks

module _ {F64 : Type 0} (tasks limit : ℕ) where
  Step-Within : {s t : Shared F64} → Step tasks s t → Within tasks limit s → Within tasks limit t
  unfolding check_tool_budget record_tool_call
  Step-Within (prepares s passed free) w = record { limited = w.limited; room = ground arith }
  Step-Within (gives_up s n e) w = record { limited = w.limited; room = ground arith }
  Step-Within (counts s n e) w = record { limited = w.limited; room = ground arith }

  Reach-Within : {s t : Shared F64} → Within tasks limit s → Reach tasks s t → Within tasks limit t
  Reach-Within w here = w
  Reach-Within w (next r st) = Step-Within st (Reach-Within w r)

-- With a limit on tool calls and some number of tasks that share the agent, the calls that are counted
-- stay below the limit plus that number; so one task alone never passes the limit.
pub Reach-lt_limit :
    {F64 : Type 0} (tasks limit : ℕ) (limits : BudgetCapability F64) {s : Shared F64}
    → 0 < tasks
    → limits.max_tool_calls ≡ some limit
    → Reach tasks (record { tracker = new limits; prepared = 0 }) s
    → s.tracker.tool_calls_used < limit + tasks
unfolding new
Reach-lt_limit tasks limit limits positive e r =
    let w = Reach-Within tasks limit (record { limited = e; room = omega arith }) r in
    omega (arith, w.room)
