-- ===== src/Supervision/History.antt =====
-- Histories: the calls that change a runtime, each at its time.
pub mod Keeps
pub mod Below
use puff.Common.{
  ℕ, ◌≤◌, ◌≡◌, refl, Bool, true, false, Option, none, some, List, [], ◌∷◌, Text, arith, Result, ok,
  err, reverse, if◌then◌else◌, ◌==◌, text_eq, length, ltb→lt, inl, ◌>>=◌, ◌>>◌,
}
use puff.Common.Json.{Json, null}
use puff.Common.Table
use puff.Supervision.Node.{
  AgentSupervisorSpec, AgentInstanceSpec, SupervisorNodeSnapshot, SupervisorNodeState,
  RestartPolicy, SupervisionConfig, NodeRecord, Runtime, root_node_id, SupervisorNodeKind,
  agent_supervisor, agent_instance, Error, stopping, stopped, starting, running, stop, restart,
  permanent, transient, sanitize_node_fragment, default_config,
}
use puff.Supervision.Core.{
  new, check_room, ensure_parent_allows_child, enforce_dynamic_limit, current_dynamic,
  node_snapshot, insert_node, transition_node, set_node_state, bump_restart_count, record_failure,
  command_sender,
}
use puff.Supervision.Spawn.{
  Added, existing_or, supervisor_snapshot, supervisor_id, instance_snapshot, service_snapshot,
  ensure_static_agent_supervisor, spawn_agent_supervisor, spawn_agent_instance_with_node_id,
  spawn_service_task,
}
use puff.Supervision.Control.{stop_node, stop_each, stop_now, restart_node, restart_now, send}
use puff.Supervision.Invariant.Added.{after}
use puff.Supervision.Invariant.Writes.{
  Inv-transition_node, Inv-bump_restart_count, Inv-record_failure, Inv-send,
}
use puff.Supervision.Invariant.Spawns.{Admits, insert_node-Inv}

-- The calls that change a runtime. A sender, a uuid and a channel are what the environment gives.
pub data Call : Type 0 where
  ensures_static : AgentSupervisorSpec → Call
  spawns_supervisor : Text → AgentSupervisorSpec → Json → Text → Call
  spawns_instance : Text → Text → AgentInstanceSpec → Option ℕ → Call
  spawns_service : Text → Text → RestartPolicy → ℕ → Call
  sets_state : Text → SupervisorNodeState → Option Text → Call
  bumps : Text → Call
  fails : Text → Text → Call
  stops restarts : Text → Call

-- What `stop_node` leaves.
abbrev pub left_by : Runtime → Option (Result Error SupervisorNodeSnapshot × Runtime) → Runtime
left_by rt none = rt
left_by rt (some (r, rt')) = rt'

module _ (delivers : ℕ → Bool) where
  unfoldable pub perform : Call → ℕ → Runtime → Runtime
  perform (ensures_static spec) now rt = after rt (ensure_static_agent_supervisor spec now rt)
  perform (spawns_supervisor p spec metadata uuid) now rt =
      after rt (spawn_agent_supervisor p spec metadata uuid now rt)
  perform (spawns_instance p id spec tx) now rt =
      after rt (spawn_agent_instance_with_node_id p id spec tx now rt)
  perform (spawns_service id name policy tx) now rt =
      after rt (spawn_service_task id name policy tx now rt)
  perform (sets_state id st m) now rt = set_node_state id st m now rt
  perform (bumps id) now rt = bump_restart_count id now rt
  perform (fails id error) now rt = record_failure id error now rt
  perform (stops id) now rt = left_by rt (stop_node delivers id now rt)
  perform (restarts id) now rt = (restart_node delivers id now rt).1

  unfoldable pub perform_all : List (Call × ℕ) → Runtime → Runtime
  perform_all [] rt = rt
  perform_all ((call, now) ∷ calls) rt = perform_all calls (perform call now rt)
