-- ===== src/Budget.antt =====
-- src/agents/budget.rs: the counters of one agent and the checks against its limits.
-- `AtomicU64::fetch_add` wraps at 2^64. `micros` is the conversion
-- `(x * 1_000_000.0) as u64` of a number of dollars.
pub mod Laws
pub mod Tasks
use puff.Common.{
  ℕ, ◌+◌, ◌%◌, ◌^◌, Bool, Option, none, some, Text, codes, leb, if◌then◌else◌, Result, ok, err,
  ◌>>=◌, ◌>>◌, guard, not,
}
use puff.Errors.{AgentError, budget_exceeded}
use puff.Capabilities.Types.{BudgetCapability}

pub record AgentBudgetTracker (F64 : Type 0) : Type 0 where
  pub limits : BudgetCapability F64
  pub input_tokens_used : ℕ
  pub output_tokens_used : ℕ
  pub cost_microdollars : ℕ
  pub tool_calls_used : ℕ

unfoldable pub new : {F64 : Type 0} → BudgetCapability F64 → AgentBudgetTracker F64
new limits = record {
  limits = limits;
  input_tokens_used = 0;
  output_tokens_used = 0;
  cost_microdollars = 0;
  tool_calls_used = 0;
}

-- `fetch_add`
unfoldable pub fetch_add : ℕ → ℕ → ℕ
fetch_add counter n = (counter + n) % 2 ^ 64

-- One limit, if there is one, against what has been used.
unfoldable pub check_limit : Text → Option ℕ → ℕ → Result AgentError (Unit {0})
check_limit resource none used = ok tt
check_limit resource (some limit) used =
    if leb limit used then err (budget_exceeded resource limit used) else ok tt

module _ {F64 : Type 0} (micros : F64 → ℕ) where
  -- `(max_cost * 1_000_000.0) as u64`
  unfoldable pub cost_limit : Option F64 → Option ℕ
  cost_limit none = none
  cost_limit (some max_cost) = some (micros max_cost)

  unfoldable pub check_llm_budget : AgentBudgetTracker F64 → Result AgentError (Unit {0})
  unfolding check_limit cost_limit
  check_llm_budget t = do
    check_limit (codes "input_tokens") t.limits.max_input_tokens t.input_tokens_used
    check_limit (codes "output_tokens") t.limits.max_output_tokens t.output_tokens_used
    check_limit (codes "cost_usd") (cost_limit t.limits.max_cost_usd) t.cost_microdollars

  unfoldable pub record_llm_usage : ℕ → ℕ → F64 → AgentBudgetTracker F64 → AgentBudgetTracker F64
  unfolding fetch_add
  record_llm_usage input_tokens output_tokens cost_usd t = record t {
    input_tokens_used = fetch_add t.input_tokens_used input_tokens;
    output_tokens_used = fetch_add t.output_tokens_used output_tokens;
    cost_microdollars = fetch_add t.cost_microdollars (micros cost_usd);
  }

unfoldable pub check_tool_budget :
    {F64 : Type 0} → AgentBudgetTracker F64 → Result AgentError (Unit {0})
unfolding check_limit
check_tool_budget t = check_limit (codes "tool_calls") t.limits.max_tool_calls t.tool_calls_used

unfoldable pub record_tool_call : {F64 : Type 0} → AgentBudgetTracker F64 → AgentBudgetTracker F64
unfolding fetch_add
record_tool_call t = record t { tool_calls_used = fetch_add t.tool_calls_used 1 }
