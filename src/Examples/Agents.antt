-- ===== src/Examples/Agents.antt =====
-- An agent with capabilities, a budget and a quota.
use puff.Common.{
  Text, ℕ, zero, suc, ◌+◌, ◌*◌, ◌<◌, ◌≡◌, refl, Option, none, some, [], ◌∷◌, codes, arith, ok, inl,
  inr,
}
use puff.Common.Json.{array, Items, nil, cons, string, null, as_str}
use puff.Capabilities.Types.{
  HttpCapability, FsCapability, AgentCapability, AgentCapabilities, BudgetCapability,
  default_capabilities, unlimited,
}
use puff.Capabilities.Serde.{
  sql_to_json, sql_from_json, http_to_json, http_from_json, fs_to_json, fs_from_json, tools_to_json,
  tools_from_json, agents_to_json, agents_from_json,
}
use puff.Capabilities.Serde.RoundTrip.{from_json-to_json}
use puff.Capabilities.Checks.{check_http}
use puff.Capabilities.Checks.Malformed.{malformed_http_allows_all}
use puff.Budget.{AgentBudgetTracker, record_tool_call, check_tool_budget, new}
use puff.Budget.Tasks.{Shared, prepares, counts, Reach, here, next, Reach-lt_limit}
use puff.Quota.{Semaphores, ConnectionQuota, try_acquire, drop_permit, available}
use puff.Quota
use puff.Common.Table
use puff.Quota.Laws.{Counts, Held, set_held}

-- A null among the entries.
abbrev entries : Items
entries = cons (string (codes "api.example.com")) (cons null nil)

abbrev caps : AgentCapabilities ℕ
caps = record default_capabilities {
  http = HttpCapability.allowlist (codes "api.example.com" ∷ [] ∷ []);
  filesystem = FsCapability.read_write (codes "/data" ∷ [] ∷ []);
  agents = AgentCapability.specific (codes "writer" ∷ []);
}

from_json-to_json_example :
    (sql_from_json (sql_to_json caps.sql) ≡ ok caps.sql)
    × (http_from_json (http_to_json caps.http) ≡ ok caps.http)
    × (fs_from_json (fs_to_json caps.filesystem) ≡ ok caps.filesystem)
    × (tools_from_json (tools_to_json caps.tools) ≡ ok caps.tools)
    × (agents_from_json (agents_to_json caps.agents) ≡ ok caps.agents)
from_json-to_json_example = from_json-to_json caps

malformed_http_allows_all_example :
    (http : HttpCapability) × (http_from_json (array entries) ≡ ok http)
    × ((allowed : AgentCapabilities ℕ) (url : Text)
        → check_http (record allowed { http = http }) url ≡ ok tt)
unfolding as_str
malformed_http_allows_all_example = malformed_http_allows_all entries (inr (inl refl))

-- Dollars are whole numbers here.
abbrev micros : ℕ → ℕ
micros x = x * 1000000

abbrev limits : BudgetCapability ℕ
limits = record unlimited {
  max_output_tokens = some 10;
  max_cost_usd = some 2;
  max_tool_calls = some 1;
}

abbrev spent : AgentBudgetTracker ℕ
spent = record {
  limits = limits;
  input_tokens_used = 4;
  output_tokens_used = 10;
  cost_microdollars = 1999999;
  tool_calls_used = 0;
}

-- Two tasks pass the check of the one call that is left, and both count theirs.
abbrev idle : Shared ℕ
idle = record { tracker = new limits; prepared = 0 }

abbrev one_ready : Shared ℕ
one_ready = record idle { prepared = 1 }

abbrev both_ready : Shared ℕ
both_ready = record idle { prepared = 2 }

abbrev one_counted : Shared ℕ
one_counted = record { tracker = record_tool_call (new limits); prepared = 1 }

abbrev both_counted : Shared ℕ
both_counted = record { tracker = record_tool_call (record_tool_call (new limits)); prepared = 0 }

both_count : Reach 2 idle both_counted
unfolding check_tool_budget new
both_count =
    next
      (next
        (next (next here (prepares idle refl (omega arith)))
          (prepares one_ready refl (omega arith)))
        (counts both_ready 1 refl))
      (counts one_counted 0 refl)

Reach-lt_limit_example : both_counted.tracker.tool_calls_used < 1 + 2
Reach-lt_limit_example = Reach-lt_limit 2 1 limits (omega arith) refl both_count

-- A semaphore that is its number of permits.
abbrev take_one : ℕ → Option ℕ
take_one zero = none
take_one (suc n) = some n

abbrev counting : Semaphores
counting = record {
  Semaphore = ℕ;
  new = λ n. n;
  available_permits = λ s. s;
  try_acquire = take_one;
  release = suc;
  available-new = λ n. refl;
  full = λ s e. rw e refl;
  takes = λ s n e. (n, rw e refl, refl);
  gives_back = λ s. refl;
}

abbrev quota : ConnectionQuota counting
quota = Quota.new counting 2

abbrev one_taken : ConnectionQuota counting
one_taken = record { semaphores = (codes "a", 1) ∷ []; max_per_agent = 2 }

abbrev a_holds_one : Held
a_holds_one = set_held (codes "a") 1 (λ x. 0)

one_taken-Counts : Counts counting one_taken a_holds_one
unfolding available Table.get
one_taken-Counts = record { total = λ x. ground arith }
