-- ===== src/Supervision/Spawn.antt =====
-- src/supervision.rs: the operations that add a node. `uuid` is what `Uuid::new_v4` returns, and
-- `command_tx` the sender of the channel that the function opens.
use puff.Common.{ℕ, Bool, true, false, Option, none, some, [], ◌++◌, Text, codes, Result, ok, ◌>>◌}
use puff.Common.Json.{Json, null}
use puff.Supervision.Node.{
  service, agent_supervisor, agent_instance, starting, running, RestartPolicy, permanent, transient,
  AgentSupervisorSpec, AgentInstanceSpec, SupervisorNodeSnapshot, Runtime, Error, root_node_id,
  sanitize_node_fragment,
}
use puff.Supervision.Core.{
  node_snapshot, insert_node, ensure_parent_allows_child, enforce_dynamic_limit,
}

-- What each of these returns: the new node's snapshot beside the runtime.
abbrev pub Added : Type 0
Added = Result Error (SupervisorNodeSnapshot × Runtime)

-- The early return of the snapshot that is there already.
unfoldable pub existing_or : Option SupervisorNodeSnapshot → Runtime → Added → Added
existing_or none rt fresh = fresh
existing_or (some snapshot) rt fresh = ok (snapshot, rt)

-- `format!("agent-supervisor:{}", ..)`
abbrev pub supervisor_id : Text → Text
supervisor_id s = codes "agent-supervisor:" ++ s

unfoldable pub supervisor_snapshot :
    Text → Text → RestartPolicy → Bool → AgentSupervisorSpec → Json → ℕ → SupervisorNodeSnapshot
supervisor_snapshot node_id parent_id policy dynamic spec metadata now = record {
  node_id = node_id;
  parent_id = some parent_id;
  kind = agent_supervisor;
  display_name = spec.name;
  state = running;
  restart_policy = policy;
  restart_count = 0;
  dynamic = dynamic;
  configured_agent = none;
  supervisor_agent = some spec.supervisor_agent;
  workers = spec.workers;
  max_children = some spec.max_children;
  last_error = none;
  last_failure_at = none;
  started_at = some now;
  updated_at = now;
  children = [];
  metadata = metadata;
}

unfoldable pub ensure_static_agent_supervisor : AgentSupervisorSpec → ℕ → Runtime → Added
unfolding existing_or supervisor_snapshot
ensure_static_agent_supervisor spec now rt =
    let node_id = supervisor_id (sanitize_node_fragment spec.name) in
    existing_or (node_snapshot rt node_id) rt (
      insert_node root_node_id
        (supervisor_snapshot node_id root_node_id permanent false spec null now) none now rt)

unfoldable pub spawn_agent_supervisor :
    Text → AgentSupervisorSpec → Json → Text → ℕ → Runtime → Added
unfolding supervisor_snapshot
spawn_agent_supervisor parent_id spec metadata uuid now rt = do
  ensure_parent_allows_child rt parent_id agent_supervisor
  enforce_dynamic_limit rt
  insert_node parent_id
      (supervisor_snapshot (supervisor_id uuid) parent_id transient true spec metadata now) none now
      rt

unfoldable pub instance_snapshot : Text → Text → AgentInstanceSpec → ℕ → SupervisorNodeSnapshot
instance_snapshot node_id parent_id spec now = record {
  node_id = node_id;
  parent_id = some parent_id;
  kind = agent_instance;
  display_name = spec.display_name;
  state = running;
  restart_policy = transient;
  restart_count = 0;
  dynamic = true;
  configured_agent = some spec.agent_name;
  supervisor_agent = none;
  workers = [];
  max_children = none;
  last_error = none;
  last_failure_at = none;
  started_at = some now;
  updated_at = now;
  children = [];
  metadata = spec.metadata;
}

unfoldable pub spawn_agent_instance_with_node_id :
    Text → Text → AgentInstanceSpec → Option ℕ → ℕ → Runtime → Added
unfolding instance_snapshot
spawn_agent_instance_with_node_id parent_id node_id spec command_tx now rt = do
  ensure_parent_allows_child rt parent_id agent_instance
  enforce_dynamic_limit rt
  insert_node parent_id (instance_snapshot node_id parent_id spec now) command_tx now rt

-- `format!("agent-instance:{}", ..)`
abbrev pub instance_id : Text → Text
instance_id s = codes "agent-instance:" ++ s

unfoldable pub spawn_agent_instance : Text → AgentInstanceSpec → Text → ℕ → Runtime → Added
unfolding spawn_agent_instance_with_node_id
spawn_agent_instance parent_id spec uuid now rt =
    spawn_agent_instance_with_node_id parent_id (instance_id uuid) spec none now rt

unfoldable pub spawn_managed_agent_instance :
    Text → AgentInstanceSpec → Text → ℕ → ℕ → Runtime → Added
unfolding spawn_agent_instance_with_node_id
spawn_managed_agent_instance parent_id spec uuid command_tx now rt =
    spawn_agent_instance_with_node_id parent_id (instance_id uuid) spec (some command_tx) now rt

unfoldable pub spawn_named_managed_agent_instance :
    Text → Text → AgentInstanceSpec → ℕ → ℕ → Runtime → Added
unfolding spawn_agent_instance_with_node_id
spawn_named_managed_agent_instance node_id parent_id spec command_tx now rt =
    spawn_agent_instance_with_node_id parent_id node_id spec (some command_tx) now rt

unfoldable pub service_snapshot : Text → Text → RestartPolicy → ℕ → SupervisorNodeSnapshot
service_snapshot node_id display_name restart_policy now = record {
  node_id = node_id;
  parent_id = some root_node_id;
  kind = service;
  display_name = display_name;
  state = starting;
  restart_policy = restart_policy;
  restart_count = 0;
  dynamic = false;
  configured_agent = none;
  supervisor_agent = none;
  workers = [];
  max_children = none;
  last_error = none;
  last_failure_at = none;
  started_at = some now;
  updated_at = now;
  children = [];
  metadata = null;
}

-- The part of `spawn_service_task` before the loop that it spawns, which `Service` models.
unfoldable pub spawn_service_task : Text → Text → RestartPolicy → ℕ → ℕ → Runtime → Added
unfolding existing_or service_snapshot
spawn_service_task node_id display_name restart_policy command_tx now rt =
    existing_or (node_snapshot rt node_id) rt (
      insert_node root_node_id (service_snapshot node_id display_name restart_policy now)
        (some command_tx) now rt)

unfoldable pub register_service_task : Text → Text → ℕ → ℕ → Runtime → Added
unfolding spawn_service_task
register_service_task task_name display_name command_tx now rt =
    spawn_service_task (codes "service:" ++ sanitize_node_fragment task_name) display_name permanent
      command_tx now rt
