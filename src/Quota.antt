-- ===== src/Quota.antt =====
-- src/agents/quota.rs: at most `max_per_agent` connections for each agent, by a semaphore for each name.
-- The semaphores are tokio's: a parameter, with what its documentation says of permits.
pub mod Laws
use puff.Common.{ℕ, zero, suc, ◌≡◌, Bool, true, false, Option, none, some, [], Text, text_eq}
use puff.Common.Table
use puff.Common.Table.{Table}

-- `tokio::sync::Semaphore`, as a value that each call returns anew: `try_acquire` takes a permit if there
-- is one, and a permit that is dropped goes back.
pub record Semaphores : Type 1 where
  pub Semaphore : Type 0
  pub new : ℕ → Semaphore
  pub available_permits : Semaphore → ℕ
  pub try_acquire : Semaphore → Option Semaphore
  pub release : Semaphore → Semaphore
  pub available-new : (n : ℕ) → available_permits (new n) ≡ n
  pub full : (s : Semaphore) → available_permits s ≡ 0 → try_acquire s ≡ none
  pub takes :
      (s : Semaphore) (n : ℕ)
      → available_permits s ≡ suc n
      → (t : Semaphore) × (try_acquire s ≡ some t) × (available_permits t ≡ n)
  pub gives_back : (s : Semaphore) → available_permits (release s) ≡ suc (available_permits s)

module _ (tokio : Semaphores) where
  open tokio use {Semaphore, new as new_semaphore, available_permits, try_acquire as take, release}

  pub record ConnectionQuota : Type 0 where
    pub semaphores : Table Text Semaphore
    pub max_per_agent : ℕ

  unfoldable pub new : ℕ → ConnectionQuota
  new max_per_agent = record { semaphores = []; max_per_agent = max_per_agent }

  -- `entry(..).or_insert_with(..)`: the agent's semaphore, a new one if it has none.
  unfoldable pub semaphore_of : Text → ConnectionQuota → Semaphore
  semaphore_of agent_name q = elim (Table.get agent_name q.semaphores) [
    | none ↦ new_semaphore q.max_per_agent
    | some semaphore ↦ semaphore
  ]

  unfoldable pub store : Text → Semaphore → ConnectionQuota → ConnectionQuota
  store agent_name s q = record q { semaphores = Table.insert agent_name s q.semaphores }

  -- The permit, if there is one. The semaphore stays in the map either way.
  unfoldable pub try_acquire : Text → ConnectionQuota → Bool × ConnectionQuota
  unfolding semaphore_of store
  try_acquire agent_name q = elim (take (semaphore_of agent_name q)) [
    | none ↦ (false, store agent_name (semaphore_of agent_name q) q)
    | some s ↦ (true, store agent_name s q)
  ]

  -- `acquire` up to its wait: where it gets no permit at once it waits for one. Its error is that of a
  -- closed semaphore, and nothing closes one.
  unfoldable pub acquire : Text → ConnectionQuota → Bool × ConnectionQuota
  unfolding try_acquire
  acquire agent_name q = try_acquire agent_name q

  -- What dropping a permit of the agent does.
  unfoldable pub drop_permit : Text → ConnectionQuota → ConnectionQuota
  drop_permit agent_name q = record q { semaphores = Table.update agent_name release q.semaphores }

  unfoldable pub available : Text → ConnectionQuota → ℕ
  available agent_name q = elim (Table.get agent_name q.semaphores) [
    | none ↦ q.max_per_agent
    | some semaphore ↦ available_permits semaphore
  ]
