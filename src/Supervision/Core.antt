-- ===== src/Supervision/Core.antt =====
-- src/supervision.rs: reads and writes of the node map under its lock, and the events they send.
-- Each function takes the time that its calls of `Utc::now` return.
use mathlib.Core.Option
use puff.Common.{
  ℕ, ◌+◌, ◌%◌, ◌^◌, Bool, true, false, ◌&&◌, not, Option, none, some, [], ◌∷◌, ◌++◌, Text, codes,
  ltb, if◌then◌else◌, is_some, count, length, Result, ok, ◌>>=◌, ◌>>◌, guard, ok_or, text_eq,
}
use puff.Common.Table
use puff.Common.Table.{Table}
use puff.Common.Json.{null}
use puff.Supervision.Node.{
  SupervisorNodeKind, system_root, agent_supervisor, agent_instance, SupervisorNodeState, running,
  failed, permanent, SupervisionConfig, SupervisorNodeSnapshot, SupervisorEventKind, node_added,
  node_updated, NodeRecord, Runtime, Error, parent_not_found, already_exists, max_children_reached,
  cannot_spawn, dynamic_limit_reached, root_node_id,
}

unfoldable pub root_snapshot : ℕ → SupervisorNodeSnapshot
root_snapshot now = record {
  node_id = root_node_id;
  parent_id = none;
  kind = system_root;
  display_name = codes "Runtime Root";
  state = running;
  restart_policy = permanent;
  restart_count = 0;
  dynamic = false;
  configured_agent = none;
  supervisor_agent = none;
  workers = [];
  max_children = none;
  last_error = none;
  last_failure_at = none;
  started_at = some now;
  updated_at = now;
  children = [];
  metadata = null;
}

-- `SupervisorRuntime::new`
unfoldable pub new : SupervisionConfig → ℕ → Runtime
unfolding root_snapshot
new config now = record {
  config = config;
  nodes = Table.insert root_node_id (record { snapshot = root_snapshot now; command_tx = none }) [];
  events = [];
  sent = [];
}

unfoldable pub node_snapshot : Runtime → Text → Option SupervisorNodeSnapshot
node_snapshot rt node_id = Option.map (λ r. r.snapshot) (Table.get node_id rt.nodes)

unfoldable pub command_sender : Runtime → Text → Option ℕ
command_sender rt node_id = Option.bind (Table.get node_id rt.nodes) (λ r. r.command_tx)

-- The send of an event does nothing where the node is gone, and ignores that nobody listens.
unfoldable pub emit_event : SupervisorEventKind → Text → Option Text → ℕ → Runtime → Runtime
unfolding node_snapshot
emit_event kind node_id message now rt = elim (node_snapshot rt node_id) [
  | none ↦ rt
  | some node ↦ record rt {
    events =
        rt.events ++ record { kind = kind; node = node; timestamp = now; message = message } ∷ [];
  }
]

unfoldable pub or_else : Option Text → Option Text → Option Text
or_else none old = old
or_else (some m) old = some m

-- `matches!(state, SupervisorNodeState::Running)`
unfoldable pub is_running : SupervisorNodeState → Bool
is_running running = true
is_running _ = false

unfoldable pub transition : SupervisorNodeState → Option Text → ℕ → NodeRecord → NodeRecord
unfolding or_else is_running
transition state message now r = record r {
  snapshot = record r.snapshot {
    started_at =
        if is_running state && not (is_some r.snapshot.started_at)
        then some now
        else r.snapshot.started_at;
    state = state;
    updated_at = now;
    last_error = or_else message r.snapshot.last_error;
  };
}

unfoldable pub transition_node : Text → SupervisorNodeState → Option Text → ℕ → Runtime → Runtime
unfolding transition
transition_node node_id state message now rt =
    emit_event node_updated node_id message now
      (record rt { nodes = Table.update node_id (transition state message now) rt.nodes })

-- `set_node_state`
unfoldable pub set_node_state : Text → SupervisorNodeState → Option Text → ℕ → Runtime → Runtime
unfolding transition_node
set_node_state node_id state message now rt = transition_node node_id state message now rt

-- `restart_count` is a `u64`.
unfoldable pub bump : ℕ → NodeRecord → NodeRecord
bump now r = record r {
  snapshot = record r.snapshot {
    restart_count = (r.snapshot.restart_count + 1) % 2 ^ 64;
    updated_at = now;
  };
}

unfoldable pub bump_restart_count : Text → ℕ → Runtime → Runtime
unfolding bump
bump_restart_count node_id now rt = record rt { nodes = Table.update node_id (bump now) rt.nodes }

unfoldable pub fail : Text → ℕ → NodeRecord → NodeRecord
fail error now r = record r {
  snapshot = record r.snapshot {
    state = failed;
    last_error = some error;
    last_failure_at = some now;
    updated_at = now;
  };
}

unfoldable pub record_failure : Text → Text → ℕ → Runtime → Runtime
unfolding fail
record_failure node_id error now rt =
    emit_event node_updated node_id (some error) now
      (record rt { nodes = Table.update node_id (fail error now) rt.nodes })

unfoldable pub add_child : Text → ℕ → NodeRecord → NodeRecord
add_child node_id now r = record r {
  snapshot = record r.snapshot { children = r.snapshot.children ++ node_id ∷ []; updated_at = now };
}

-- The node map after both checks of `insert_node` have passed.
unfoldable pub attach :
    Text → SupervisorNodeSnapshot → Option ℕ → ℕ → Table Text NodeRecord → Table Text NodeRecord
unfolding add_child
attach parent_id snapshot command_tx now nodes =
    Table.insert snapshot.node_id (record { snapshot = snapshot; command_tx = command_tx })
      (Table.update parent_id (add_child snapshot.node_id now) nodes)

unfoldable pub insert_node :
    Text
    → SupervisorNodeSnapshot
    → Option ℕ
    → ℕ
    → Runtime
    → Result Error (SupervisorNodeSnapshot × Runtime)
unfolding attach
insert_node parent_id snapshot command_tx now rt = do
  guard (Table.has parent_id rt.nodes) (parent_not_found parent_id)
  guard (not (Table.has snapshot.node_id rt.nodes)) (already_exists snapshot.node_id)
  ok (
    snapshot,
    emit_event node_added snapshot.node_id none now
        (record rt { nodes = attach parent_id snapshot command_tx now rt.nodes }),
  )

-- The check of `parent.snapshot.max_children`.
unfoldable pub check_room : Text → SupervisorNodeSnapshot → Result Error (Unit {0})
check_room parent_id p = elim p.max_children [
  | none ↦ ok tt
  | some limit ↦ guard (ltb (length p.children) limit) (max_children_reached parent_id limit)
]

-- The `match` on the kinds of the parent and of the child.
unfoldable pub allows : SupervisorNodeKind → SupervisorNodeKind → Bool
allows system_root _ = true
allows agent_supervisor agent_supervisor = true
allows agent_supervisor agent_instance = true
allows _ _ = false

unfoldable pub ensure_parent_allows_child :
    Runtime → Text → SupervisorNodeKind → Result Error (Unit {0})
unfolding check_room allows node_snapshot
ensure_parent_allows_child rt parent_id child_kind = do
  parent ← ok_or (node_snapshot rt parent_id) (parent_not_found parent_id)
  check_room parent_id parent
  guard (allows parent.kind child_kind) (cannot_spawn parent_id parent.kind child_kind)

-- `values().filter(|record| record.snapshot.dynamic).count()`
unfoldable pub current_dynamic : Runtime → ℕ
current_dynamic rt = count (λ r. r.snapshot.dynamic) (Table.values rt.nodes)

unfoldable pub enforce_dynamic_limit : Runtime → Result Error (Unit {0})
unfolding current_dynamic
enforce_dynamic_limit rt =
    guard (ltb (current_dynamic rt) rt.config.max_dynamic_children)
      (dynamic_limit_reached rt.config.max_dynamic_children)
