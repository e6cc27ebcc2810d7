-- ===== src/Examples/Full.antt =====
-- A team with one place, and two agents that want it.
use puff.Common.{refl, false, none, some, [], ◌∷◌, codes, text_eq, text_beq, arith}
use puff.Common.Json.{null}
use puff.Common.Table
use puff.Common.Table.{Table}
use puff.Supervision.Node.{
  agent_supervisor, running, permanent, NodeRecord, Runtime, root_node_id, default_config,
}
use puff.Supervision.Core.{current_dynamic}
use puff.Supervision.Spawn.{instance_snapshot}
use puff.Supervision.Race.{LastPlace, Checked, Exceeds, two_spawns_exceed}
use puff.Examples.Tree.{worker}

abbrev team : NodeRecord
team = record {
  snapshot = record {
    node_id = codes "team";
    parent_id = some root_node_id;
    kind = agent_supervisor;
    display_name = codes "Team";
    state = running;
    restart_policy = permanent;
    restart_count = 0;
    dynamic = false;
    configured_agent = none;
    supervisor_agent = none;
    workers = [];
    max_children = some 1;
    last_error = none;
    last_failure_at = none;
    started_at = none;
    updated_at = 0;
    children = [];
    metadata = null;
  };
  command_tx = none;
}

abbrev rt : Runtime
rt = record { config = default_config; nodes = (codes "team", team) ∷ []; events = []; sent = [] }

one_place : LastPlace rt (codes "team") (codes "i1") (codes "i2") 1
unfolding Table.get text_beq current_dynamic
one_place = record {
  team = team;
  there = refl;
  is_team = refl;
  limited = refl;
  one_left = refl;
  dynamic_left = omega arith;
  a_free = refl;
  b_free = refl;
  apart = refl;
}

two_spawns_exceed_example :
    Checked rt (codes "team")
    × Exceeds rt
        (codes "team")
        (instance_snapshot (codes "i1") (codes "team") worker 5)
        (instance_snapshot (codes "i2") (codes "team") worker 5)
        1
        5
two_spawns_exceed_example =
    two_spawns_exceed rt (codes "team") (codes "i1") (codes "i2") worker 1 5 one_place
