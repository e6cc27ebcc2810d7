-- ===== src/Examples/Tree.antt =====
-- A small supervision tree: a team of at most one agent, its agent, and a service.
use puff.Common.{
  ℕ, ◌≡◌, ◌↔◌, refl, true, none, some, List, [], ◌∷◌, Text, codes, contains, Distinct, ok, text_eq,
  text_beq,
}
use mathlib.Core.Option
use puff.Common.Json.{null}
use puff.Common.Table
use puff.Common.Table.{Table}
use puff.Supervision.Node.{
  root_node_id, AgentSupervisorSpec, AgentInstanceSpec, Runtime, permanent, default_config,
  starting, sanitize_node_fragment,
}
use puff.Supervision.Core.{
  new, transition_node, emit_event, insert_node, attach, record_failure, command_sender,
  ensure_parent_allows_child, enforce_dynamic_limit,
}
use puff.Supervision.Spawn.{
  ensure_static_agent_supervisor, spawn_agent_instance_with_node_id, spawn_service_task,
  existing_or,
}
use puff.Supervision.Control.{collect_descendants, stop_node, stop_each, restart_node}
use puff.Supervision.Invariant.{Inv}
use puff.Supervision.Reads.{status}
use puff.Supervision.History.{
  Call, ensures_static, spawns_instance, spawns_service, fails, stops, restarts, perform_all,
  perform,
}
use puff.Supervision.History.Keeps.{history-Inv}
use puff.Supervision.History.Below.{history_one_tree}
use puff.Supervision.Stopping.{StopsBelow, stop_node_stops}
use puff.Supervision.Descendants.{collect_descendants_exact}
use puff.Supervision.Descendants.Rounds.{Descendant, Ordered}

abbrev team : AgentSupervisorSpec
team = record {
  name = codes "a";
  supervisor_agent = codes "lead";
  workers = [];
  boot = true;
  max_children = 1;
}

abbrev pub worker : AgentInstanceSpec
worker = record { agent_name = codes "w"; display_name = codes "W"; metadata = null }

abbrev team_id : Text
team_id = codes "agent-supervisor:a"

-- The second spawn is refused.
abbrev calls : List (Call × ℕ)
calls =
    (ensures_static team, 1)
    ∷ (spawns_instance team_id (codes "i1") worker (some 7), 2)
    ∷ (spawns_instance team_id (codes "i2") worker none, 3)
    ∷ (spawns_service (codes "service:s") (codes "S") permanent 8, 4)
    ∷ (fails (codes "i1") (codes "boom"), 5)
    ∷ (restarts (codes "i1"), 6)
    ∷ (stops team_id, 7)
    ∷ []

history_one_tree_example :
    Inv (perform_all (λ s. true) calls (new default_config 0))
    × ((x : Text)
        → Table.has x (perform_all (λ s. true) calls (new default_config 0)).nodes ≡ true
        → Descendant (perform_all (λ s. true) calls (new default_config 0)).nodes root_node_id x)
history_one_tree_example = history_one_tree (λ s. true) default_config 0 calls

abbrev pub after_calls : Runtime
after_calls = perform_all (λ s. true) calls (new default_config 0)

team_is_there : Table.has team_id after_calls.nodes ≡ true
unfolding perform_all perform new Table.insert Table.get Table.update text_beq
    ensure_static_agent_supervisor spawn_agent_instance_with_node_id spawn_service_task
    record_failure restart_node stop_node sanitize_node_fragment existing_or transition_node
    emit_event collect_descendants insert_node attach command_sender Option.bind
    ensure_parent_allows_child enforce_dynamic_limit stop_each
team_is_there = refl

pub service_is_there :
    status after_calls (codes "service:s") ≡ some (record { state = starting; restart_count = 0 })
unfolding perform_all perform new Table.insert Table.get Table.update text_beq
    ensure_static_agent_supervisor spawn_agent_instance_with_node_id spawn_service_task
    record_failure restart_node stop_node sanitize_node_fragment existing_or transition_node
    emit_event collect_descendants insert_node attach command_sender Option.bind
    ensure_parent_allows_child enforce_dynamic_limit stop_each
service_is_there = refl

collect_descendants_exact_example :
    (ids : List Text) × (collect_descendants after_calls team_id ≡ some (ok ids))
    × Distinct ids
    × ((a : Text) → (contains ids a ≡ true) ↔ Descendant after_calls.nodes team_id a)
    × Ordered after_calls.nodes team_id [] ids
collect_descendants_exact_example =
    collect_descendants_exact after_calls team_id (history-Inv (λ s. true) default_config 0 calls)
      team_is_there

stop_node_stops_example : StopsBelow (λ s. true) after_calls team_id 8
unfolding text_beq
stop_node_stops_example =
    stop_node_stops (λ s. true) after_calls team_id 8
      (history-Inv (λ s. true) default_config 0 calls) team_is_there refl (λ x d sender k. refl)
