-- ===== src/Supervision/Control.antt =====
-- src/supervision.rs: stopping and restarting nodes.
-- `delivers` says of a sender whether the receiver of its channel is still there when the send is
-- awaited: `mpsc::Sender::send` fails exactly where it is not. What other tasks do while the send
-- waits for room in the channel is not part of the call.
use puff.Common.{
  ℕ, zero, suc, Bool, Option, none, some, List, [], ◌∷◌, ◌++◌, reverse, Text, if◌then◌else◌, length,
  Result, ok, err, ok_or, ◌==◌, text_eq,
}
use puff.Common.Table
use puff.Common.Table.{Table}
use puff.Supervision.Node.{
  starting, running, stopping, stopped, SupervisorNodeSnapshot, SupervisorCommand, stop, restart,
  NodeRecord, Runtime, Error, node_not_found, no_longer_running, cannot_stop_root,
  cannot_restart_root, root_node_id,
}
use puff.Supervision.Core.{node_snapshot, command_sender, transition_node, bump_restart_count}

abbrev pub children_in : Option NodeRecord → List Text
children_in none = []
children_in (some r) = r.snapshot.children

-- The children that the loop pushes: those of `nodes.get(&current)`, if it is there.
abbrev pub children_of : Text → Table Text NodeRecord → List Text
children_of id nodes = children_in (Table.get id nodes)

-- The loop of `collect_descendants`: the head of `stack` is popped, and its children are pushed in
-- order. `none` means that the fuel ran out.
unfoldable pub collect : ℕ → Table Text NodeRecord → List Text → List Text → Option (List Text)
collect fuel nodes [] descendants = some descendants
collect zero nodes (current ∷ stack) descendants = none
collect (suc fuel) nodes (current ∷ stack) descendants =
    collect fuel nodes (reverse (children_of current nodes) ++ stack) (descendants ++ current ∷ [])

-- The fuel is the number of nodes.
unfoldable pub collect_descendants : Runtime → Text → Option (Result Error (List Text))
unfolding collect
collect_descendants rt node_id =
    if Table.has node_id rt.nodes
    then (elim (collect (length rt.nodes) rt.nodes (node_id ∷ []) []) [
      | none ↦ none
      | some descendants ↦ some (ok descendants)
    ])
    else some (err (node_not_found node_id))

unfoldable pub send : ℕ → SupervisorCommand → Runtime → Runtime
send sender command rt = record rt { sent = rt.sent ++ (sender, command) ∷ [] }

-- A node that no task manages is stopped by the two transitions.
unfoldable pub stop_now : Text → ℕ → Runtime → Runtime
stop_now id now rt = transition_node id stopped none now (transition_node id stopping none now rt)

unfoldable pub restart_now : Text → ℕ → Runtime → Runtime
restart_now id now rt =
    transition_node id running none now
      (bump_restart_count id now (transition_node id starting none now rt))

-- The last lines of `stop_node` and of `restart_node`.
unfoldable pub stop_result :
    Text → Result Error (Unit {0}) × Runtime → Result Error SupervisorNodeSnapshot × Runtime
stop_result node_id (ok _, rt) = (ok_or (node_snapshot rt node_id) (node_not_found node_id), rt)
stop_result node_id (err e, rt) = (err e, rt)

module _ (delivers : ℕ → Bool) where
  -- The loop of `stop_node`. A send that fails ends it; what was done before stays done.
  unfoldable pub stop_each : List Text → ℕ → Runtime → Result Error (Unit {0}) × Runtime
  unfolding send stop_now
  stop_each [] now rt = (ok tt, rt)
  stop_each (descendant ∷ rest) now rt = elim (command_sender rt descendant) [
    | none ↦ stop_each rest now (stop_now descendant now rt)
    | some sender ↦
        let later = stop_each rest now (send sender stop rt) in
        if delivers sender then later else (err (no_longer_running descendant), rt)
  ]

  unfoldable pub stop_collected :
      Text
      → ℕ
      → Runtime
      → Option (Result Error (List Text))
      → Option (Result Error SupervisorNodeSnapshot × Runtime)
  stop_collected node_id now rt none = none
  stop_collected node_id now rt (some (err e)) = some (err e, rt)
  stop_collected node_id now rt (some (ok descendants)) =
      some (stop_result node_id (stop_each (reverse descendants) now rt))

  -- `none` means that the fuel of `collect` ran out.
  unfoldable pub stop_node :
      Text → ℕ → Runtime → Option (Result Error SupervisorNodeSnapshot × Runtime)
  unfolding stop_result stop_collected
  stop_node node_id now rt =
      if node_id == root_node_id
      then some (err cannot_stop_root, rt)
      else stop_collected node_id now rt (collect_descendants rt node_id)

  unfoldable pub restart_command : Text → ℕ → Runtime → Option ℕ → Result Error (Unit {0}) × Runtime
  unfolding send restart_now
  restart_command node_id now rt none = (ok tt, restart_now node_id now rt)
  restart_command node_id now rt (some sender) =
      if delivers sender
      then (ok tt, send sender restart rt)
      else (err (no_longer_running node_id), rt)

  unfoldable pub restart_node : Text → ℕ → Runtime → Result Error SupervisorNodeSnapshot × Runtime
  unfolding stop_result restart_command
  restart_node node_id now rt =
      if node_id == root_node_id
      then (err cannot_restart_root, rt)
      else stop_result node_id (restart_command node_id now rt (command_sender rt node_id))
