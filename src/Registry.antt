-- ===== src/Registry.antt =====
-- src/agents/registry.rs: the registry of agents of one process. Its locks are held for one step each; what
-- it spawns is a list in the state. The handles of mailboxes and of supervisor runtimes are parameters.
pub mod Entries
pub mod Counts
pub mod Steps
pub mod Bridges
pub mod Remote
pub mod Leases
pub mod Messages
use puff.Common.{
  ℕ, Bool, true, false, not, ◌&&◌, ◌||◌, Option, none, some, List, [], ◌∷◌, ◌++◌, Text, codes,
  contains, if◌then◌else◌, ◌==◌, text_eq, is_some,
}
use puff.Common.Json.{Json, null}
use puff.Common.Strings.{starts_with}
use puff.Common.Sorted.{Sorted, find_key, put, take_out, range, while_prefix, values_of}
use puff.Common.Table.{Table}
use puff.Common.Table as Table

pub data AgentRegistryKind : Type 0 where
  configured_agent agent_supervisor agent_instance service other : AgentRegistryKind

pub record AgentRegistryEntry : Type 0 where
  pub key : Text
  pub kind : AgentRegistryKind
  pub agent_name : Text
  pub supervisor_node_id : Option Text
  pub registered_at : ℕ
  pub updated_at : ℕ
  pub metadata : Json

unfoldable pub new : Text → AgentRegistryKind → Text → ℕ → AgentRegistryEntry
new key kind agent_name now = record {
  key = key;
  kind = kind;
  agent_name = agent_name;
  supervisor_node_id = none;
  registered_at = now;
  updated_at = now;
  metadata = null;
}

unfoldable pub with_supervisor_node_id : Text → AgentRegistryEntry → AgentRegistryEntry
with_supervisor_node_id id e = record e { supervisor_node_id = some id }

unfoldable pub with_metadata : Json → AgentRegistryEntry → AgentRegistryEntry
with_metadata metadata e = record e { metadata = metadata }

-- `find` of the first entry of an agent.
unfoldable pub first_named : Text → List AgentRegistryEntry → Option AgentRegistryEntry
first_named name [] = none
first_named name (e ∷ more) =
    let later = first_named name more in if e.agent_name == name then some e else later

-- `filter` by a prefix of the agent's name.
unfoldable pub named_with : Text → List AgentRegistryEntry → List AgentRegistryEntry
named_with prefix [] = []
named_with prefix (e ∷ more) =
    let later = named_with prefix more in
    if starts_with prefix e.agent_name then e ∷ later else later

-- `HashSet::remove`
unfoldable pub without_key : Text → List Text → List Text
without_key k [] = []
without_key k (j ∷ js) = let later = without_key k js in if j == k then later else j ∷ later

abbrev pub or_later : {A : Type 0} → Option A → Option A → Option A
or_later none o = o
or_later (some a) o = some a

-- `registered_at` of an entry that is there already.
unfoldable pub kept_since : Option AgentRegistryEntry → AgentRegistryEntry → AgentRegistryEntry
kept_since none e = e
kept_since (some existing) e = record e { registered_at = existing.registered_at }

module _ (Mailbox Supervisor : Type 0) where
  pub record LocalSupervisorControl : Type 0 where
    pub node_id : Text
    pub supervisor : Supervisor

  pub record RegistryControl : Type 0 where
    pub mailbox : Option Mailbox
    pub supervisor : Option LocalSupervisorControl
    pub mailbox_bridge_started : Bool
    pub control_bridge_started : Bool

  -- A task that is spawned.
  pub data Spawned : Type 0 where
    store_entry : AgentRegistryEntry → Spawned
    forget_key : Text → Spawned
    mailbox_bridge : Text → Mailbox → Spawned
    control_bridge : Text → LocalSupervisorControl → Spawned
    renew_lease : Text → Spawned

  pub record AgentRegistry : Type 0 where
    pub inner : Sorted AgentRegistryEntry
    pub controls : Table Text RegistryControl
    -- `redis.is_some()`
    pub has_redis : Bool
    pub owner_id : Text
    pub leased_keys : List Text
    pub spawned : List Spawned

  unfoldable pub with_backends : Bool → Text → AgentRegistry
  with_backends has_redis owner_id = record {
    inner = [];
    controls = [];
    has_redis = has_redis;
    owner_id = owner_id;
    leased_keys = [];
    spawned = [];
  }

  -- `tokio::spawn`, where Redis is configured.
  unfoldable pub spawn_if : Bool → Spawned → AgentRegistry → AgentRegistry
  spawn_if b t r = record r { spawned = if b then r.spawned ++ t ∷ [] else r.spawned }

  -- The entry as `register` keeps it.
  unfoldable pub stamped : AgentRegistryEntry → ℕ → AgentRegistry → AgentRegistryEntry
  unfolding kept_since
  stamped e now r = record (kept_since (find_key e.key r.inner) e) { updated_at = now }

  unfoldable pub register : AgentRegistryEntry → ℕ → AgentRegistry → AgentRegistry
  unfolding stamped spawn_if
  register e now r =
      spawn_if r.has_redis (store_entry (stamped e now r))
        (record r { inner = put e.key (stamped e now r) r.inner })

  unfoldable pub get : Text → AgentRegistry → Option AgentRegistryEntry
  get key r = find_key key r.inner

  unfoldable pub unregister : Text → AgentRegistry → AgentRegistry
  unfolding get without_key spawn_if
  unregister key r = spawn_if (is_some (get key r) && r.has_redis) (forget_key key) (record r {
    controls = Table.remove key r.controls;
    leased_keys = without_key key r.leased_keys;
    inner = take_out key r.inner;
  })

  unfoldable pub find_by_agent_name : Text → AgentRegistry → Option AgentRegistryEntry
  unfolding get first_named
  find_by_agent_name name r =
      or_later (get (codes "agent/" ++ name) r) (first_named name (values_of r.inner))

  unfoldable pub resolve : Text → AgentRegistry → Option AgentRegistryEntry
  unfolding get find_by_agent_name
  resolve target r =
      or_later (get target r)
        (or_later (get (codes "agent/" ++ target) r) (find_by_agent_name target r))

  unfoldable pub list : AgentRegistry → List AgentRegistryEntry
  list r = values_of r.inner

  unfoldable pub scan_prefix : Text → AgentRegistry → List AgentRegistryEntry
  scan_prefix prefix r = while_prefix prefix (range prefix r.inner)

  unfoldable pub scan_agent_names : Text → AgentRegistry → List AgentRegistryEntry
  unfolding named_with
  scan_agent_names prefix r = named_with prefix (values_of r.inner)

  abbrev no_control : RegistryControl
  no_control = record {
    mailbox = none;
    supervisor = none;
    mailbox_bridge_started = false;
    control_bridge_started = false;
  }

  -- `entry(key).or_default()`
  unfoldable pub or_default : Option RegistryControl → RegistryControl
  or_default none = no_control
  or_default (some c) = c

  abbrev pub control_of : Text → AgentRegistry → RegistryControl
  control_of key r = or_default (Table.get key r.controls)

  unfoldable pub set_supervisor : Option Text → Supervisor → RegistryControl → RegistryControl
  set_supervisor none s c = c
  set_supervisor (some id) s c = record c {
    supervisor = some (record { node_id = id; supervisor = s });
  }

  -- Whether a bridge is to start, for a control before its flag is set.
  unfoldable pub starts_mailbox_bridge : AgentRegistry → RegistryControl → Bool
  starts_mailbox_bridge r c = r.has_redis && not c.mailbox_bridge_started

  unfoldable pub starts_control_bridge : AgentRegistry → RegistryControl → Bool
  starts_control_bridge r c = r.has_redis && (is_some c.supervisor && not c.control_bridge_started)

  unfoldable pub mark_control_bridge : AgentRegistry → RegistryControl → RegistryControl
  unfolding starts_control_bridge
  mark_control_bridge r c = record c {
    control_bridge_started = c.control_bridge_started || starts_control_bridge r c;
  }

  unfoldable pub mark_mailbox_bridge : AgentRegistry → RegistryControl → RegistryControl
  unfolding starts_mailbox_bridge
  mark_mailbox_bridge r c = record c {
    mailbox_bridge_started = c.mailbox_bridge_started || starts_mailbox_bridge r c;
  }

  -- A bridge takes the handle that the control has when it is spawned.
  unfoldable pub spawn_control_bridge :
      Bool → Text → Option LocalSupervisorControl → AgentRegistry → AgentRegistry
  unfolding spawn_if
  spawn_control_bridge b key none r = r
  spawn_control_bridge b key (some s) r = spawn_if b (control_bridge key s) r

  unfoldable pub register_supervisor_entry :
      AgentRegistryEntry → Supervisor → ℕ → AgentRegistry → AgentRegistry
  unfolding register set_supervisor mark_control_bridge spawn_control_bridge
  register_supervisor_entry e s now r =
      let r1 = register e now r in
      let c = set_supervisor e.supervisor_node_id s (control_of e.key r1) in
      spawn_control_bridge (starts_control_bridge r1 c) e.key c.supervisor
        (record r1 { controls = Table.insert e.key (mark_control_bridge r1 c) r1.controls })

  unfoldable pub register_mailbox :
      AgentRegistryEntry → Mailbox → Supervisor → ℕ → AgentRegistry → AgentRegistry
  unfolding register set_supervisor mark_mailbox_bridge mark_control_bridge spawn_if
      spawn_control_bridge
  register_mailbox e mailbox s now r =
      let r1 = register e now r in
      let c =
        set_supervisor e.supervisor_node_id s
          (record (control_of e.key r1) { mailbox = some mailbox }) in
      spawn_control_bridge (starts_control_bridge r1 c) e.key c.supervisor (
        spawn_if (starts_mailbox_bridge r1 c) (mailbox_bridge e.key mailbox) (record r1 {
          controls =
              Table.insert e.key (mark_control_bridge r1 (mark_mailbox_bridge r1 c)) r1.controls;
        }))

  -- `start_named_agent_lease`: one task for a key that has none.
  unfoldable pub start_named_agent_lease : Text → AgentRegistry → AgentRegistry
  unfolding spawn_if
  start_named_agent_lease key r =
      let leased = record r { leased_keys = key ∷ r.leased_keys } in
      if not r.has_redis || contains r.leased_keys key
      then r
      else spawn_if true (renew_lease key) leased
