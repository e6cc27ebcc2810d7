-- ===== src/Registry/Leases.antt =====
-- src/agents/registry.rs: the leases in Redis by which one process at a time has a named agent.
pub mod Laws
pub mod Holding
pub mod Exclusive
use puff.Common.{
  ℕ, Bool, true, false, Option, none, some, List, [], ◌∷◌, ◌++◌, Text, codes, contains, Result, ok,
  err, if◌then◌else◌, ◌==◌, text_eq,
}
use puff.Registry.{AgentRegistry, without_key, start_named_agent_lease}
use puff.Registry.Remote.{AgentRegistryError, redis}

abbrev pub named_agent_lease_ttl_secs : ℕ
named_agent_lease_ttl_secs = 30

unfoldable pub named_agent_lease_key : Text → Text
named_agent_lease_key key = codes "puff:agents:lease:" ++ key

-- The commands of Redis at a time in seconds: SET with NX and EX, which tells whether the key was set, GET,
-- EXPIRE and DEL.
pub record Backend : Type 1 where
  pub Store : Type 0
  pub set_nx_ex : Text → Text → ℕ → ℕ → Store → Store × Result Text Bool
  pub get_value : Text → ℕ → Store → Result Text (Option Text)
  pub expire : Text → ℕ → ℕ → Store → Store
  pub del : Text → ℕ → Store → Store

-- `current_owner == owner_id`
abbrev pub is_own : Option Text → Text → Bool
is_own none owner = false
is_own (some current) owner = current == owner

module _ (Mailbox Supervisor : Type 0) (b : Backend) where
  abbrev pub R : Type 0
  R = AgentRegistry Mailbox Supervisor

  abbrev pub Claimed : Type 0
  Claimed = b.Store × R × Result AgentRegistryError Bool

  -- What GET says after SET has found the key there.
  abbrev pub by_owner : Text → R → b.Store → Result Text (Option Text) → Claimed
  by_owner key r s (err e) = (s, r, err (redis e))
  by_owner key r s (ok current) =
      let leased = start_named_agent_lease Mailbox Supervisor key r in
      if is_own current r.owner_id then (s, leased, ok true) else (s, r, ok false)

  abbrev pub by_set : Text → R → ℕ → b.Store × Result Text Bool → Claimed
  by_set key r now (s, err e) = (s, r, err (redis e))
  by_set key r now (s, ok true) = (s, start_named_agent_lease Mailbox Supervisor key r, ok true)
  by_set key r now (s, ok false) = by_owner key r s (b.get_value (named_agent_lease_key key) now s)

  unfoldable pub try_claim_named_agent : Text → R → ℕ → b.Store → Claimed
  try_claim_named_agent key r now s =
      if r.has_redis
      then by_set key r now
          (b.set_nx_ex (named_agent_lease_key key) r.owner_id named_agent_lease_ttl_secs now s)
      else (s, r, ok true)

  -- A round of the task that renews a lease, with the key still leased: whether it goes on.
  abbrev pub by_current : Text → R → ℕ → b.Store → Result Text (Option Text) → b.Store × R × Bool
  by_current key r now s (err e) = (s, r, true)
  by_current key r now s (ok current) =
      if is_own current r.owner_id
      then (b.expire (named_agent_lease_key key) named_agent_lease_ttl_secs now s, r, true)
      else (s, record r { leased_keys = without_key key r.leased_keys }, false)

  -- The GET and the EXPIRE of a renewal are one instant.
  unfoldable pub renew_round : Text → R → ℕ → b.Store → b.Store × R × Bool
  renew_round key r now s =
      if contains r.leased_keys key
      then by_current key r now s (b.get_value (named_agent_lease_key key) now s)
      else (s, r, false)

  -- The end of the task that `unregister` spawns, with nothing between its GET and its DEL.
  abbrev pub by_holder : Text → R → ℕ → b.Store → Result Text (Option Text) → b.Store
  by_holder key r now s (err e) = s
  by_holder key r now s (ok current) =
      if is_own current r.owner_id then b.del (named_agent_lease_key key) now s else s

  unfoldable pub release_lease : Text → R → ℕ → b.Store → b.Store
  release_lease key r now s = by_holder key r now s (b.get_value (named_agent_lease_key key) now s)
