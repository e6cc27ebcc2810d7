-- ===== src/Supervision/History/Keeps.antt =====
-- Every call of the runtime keeps the invariant, so it holds after any history.
use puff.Common.{
  ℕ, refl, Bool, true, false, Option, none, some, List, [], ◌∷◌, Text, arith, Result, ok, err,
  reverse, ◌==◌, text_eq, text_beq, Option-cases, Bool-cases, inr, inl,
}
use puff.Common.Json.{null}
use puff.Common.Table
use puff.Supervision.Node.{
  SupervisionConfig, Runtime, root_node_id, agent_supervisor, agent_instance, Error, stopping,
  stopped, starting, running, stop, restart, permanent, transient, sanitize_node_fragment,
}
use puff.Supervision.Core.{
  new, root_snapshot, current_dynamic, node_snapshot, set_node_state, command_sender,
}
use puff.Supervision.Spawn.{
  supervisor_snapshot, supervisor_id, instance_snapshot, service_snapshot,
  ensure_static_agent_supervisor, spawn_agent_supervisor, spawn_agent_instance_with_node_id,
  spawn_service_task,
}
use puff.Supervision.Control.{
  stop_node, stop_each, stop_now, restart_node, restart_now, stop_result, stop_collected,
  restart_command, collect_descendants,
}
use puff.Supervision.Invariant.{Inv}
use puff.Supervision.Invariant.Writes.{
  Inv-transition_node, Inv-bump_restart_count, Inv-record_failure, Inv-send,
}
use puff.Supervision.Invariant.Added.{checked_insert-Inv, static_added-Inv}
use puff.Supervision.History.{
  Call, ensures_static, spawns_supervisor, spawns_instance, spawns_service, sets_state, bumps,
  fails, stops, restarts, perform, perform_all, left_by,
}

stop_now-Inv : (id : Text) (now : ℕ) (rt : Runtime) → Inv rt → Inv (stop_now id now rt)
unfolding stop_now
stop_now-Inv id now rt v =
    Inv-transition_node id stopped none now _ (Inv-transition_node id stopping none now rt v)

restart_now-Inv : (id : Text) (now : ℕ) (rt : Runtime) → Inv rt → Inv (restart_now id now rt)
unfolding restart_now
restart_now-Inv id now rt v =
    Inv-transition_node id running none now _
      (Inv-bump_restart_count id now _ (Inv-transition_node id starting none now rt v))

module _ (delivers : ℕ → Bool) where
  stop_each-Inv :
      (ids : List Text) (now : ℕ) (rt : Runtime) → Inv rt → Inv (stop_each delivers ids now rt).1
  unfolding stop_each
  stop_each-Inv [] now rt v = v
  stop_each-Inv (id ∷ ids) now rt v = elim (Option-cases (command_sender rt id)) [
    | inl e ↦ rw (e, stop_each) (stop_each-Inv ids now _ (stop_now-Inv id now rt v))
    | inr (s, e) ↦
        rw (e, stop_each)
          (elim (Bool-cases (delivers s)) [
            | inl there ↦ rw there (stop_each-Inv ids now _ (Inv-send s stop rt v))
            | inr gone ↦ rw gone v
          ])
  ]

  stop_result-Inv :
      (id : Text) (r : Result Error (Unit {0}) × Runtime) → Inv r.1 → Inv (stop_result id r).1
  unfolding stop_result
  stop_result-Inv id (ok _, rt) v = v
  stop_result-Inv id (err e, rt) v = v

  stop_collected-Inv :
      (id : Text) (now : ℕ) (rt : Runtime) (o : Option (Result Error (List Text)))
      → Inv rt
      → Inv (left_by rt (stop_collected delivers id now rt o))
  unfolding stop_collected
  stop_collected-Inv id now rt none v = v
  stop_collected-Inv id now rt (some (err e)) v = v
  stop_collected-Inv id now rt (some (ok ids)) v =
      stop_result-Inv id (stop_each delivers (reverse ids) now rt)
        (stop_each-Inv (reverse ids) now rt v)

  stop_node-Inv :
      (id : Text) (now : ℕ) (rt : Runtime)
      → Inv rt
      → Inv (left_by rt (stop_node delivers id now rt))
  unfolding stop_node
  stop_node-Inv id now rt v = elim (Bool-cases (id == root_node_id)) [
    | inl root ↦ rw root v
    | inr inner ↦ rw inner (stop_collected-Inv id now rt (collect_descendants rt id) v)
  ]

  restart_command-Inv :
      (id : Text) (now : ℕ) (rt : Runtime) (o : Option ℕ)
      → Inv rt
      → Inv (restart_command delivers id now rt o).1
  unfolding restart_command
  restart_command-Inv id now rt none v = restart_now-Inv id now rt v
  restart_command-Inv id now rt (some s) v = elim (Bool-cases (delivers s)) [
    | inl there ↦ rw there (Inv-send s restart rt v)
    | inr gone ↦ rw gone v
  ]

  restart_node-Inv :
      (id : Text) (now : ℕ) (rt : Runtime) → Inv rt → Inv (restart_node delivers id now rt).1
  unfolding restart_node
  restart_node-Inv id now rt v = elim (Bool-cases (id == root_node_id)) [
    | inl root ↦ rw root v
    | inr inner ↦ rw inner (
        stop_result-Inv id (restart_command delivers id now rt (command_sender rt id))
          (restart_command-Inv id now rt (command_sender rt id) v))
  ]

  -- Each call keeps the invariant, whether it succeeds or fails.
  pub perform-Inv : (c : Call) (now : ℕ) (rt : Runtime) → Inv rt → Inv (perform delivers c now rt)
  unfolding perform ensure_static_agent_supervisor spawn_agent_supervisor
      spawn_agent_instance_with_node_id spawn_service_task set_node_state
  perform-Inv (ensures_static spec) now rt v =
      let id = supervisor_id (sanitize_node_fragment spec.name) in
      static_added-Inv (node_snapshot rt id) rt
        (supervisor_snapshot id root_node_id permanent false spec null now) none now v refl refl
        refl
  perform-Inv (spawns_supervisor p spec metadata uuid) now rt v =
      checked_insert-Inv rt v p agent_supervisor
        (supervisor_snapshot (supervisor_id uuid) p transient true spec metadata now) none now refl
        refl
  perform-Inv (spawns_instance p id spec tx) now rt v =
      checked_insert-Inv rt v p agent_instance (instance_snapshot id p spec now) tx now refl refl
  perform-Inv (spawns_service id name policy tx) now rt v =
      static_added-Inv (node_snapshot rt id) rt (service_snapshot id name policy now) (some tx) now
        v refl refl refl
  perform-Inv (sets_state id st m) now rt v = Inv-transition_node id st m now rt v
  perform-Inv (bumps id) now rt v = Inv-bump_restart_count id now rt v
  perform-Inv (fails id error) now rt v = Inv-record_failure id error now rt v
  perform-Inv (stops id) now rt v = stop_node-Inv id now rt v
  perform-Inv (restarts id) now rt v = restart_node-Inv id now rt v

  perform_all-Inv :
      (calls : List (Call × ℕ)) (rt : Runtime) → Inv rt → Inv (perform_all delivers calls rt)
  unfolding perform_all
  perform_all-Inv [] rt v = v
  perform_all-Inv ((c, now) ∷ calls) rt v =
      perform_all-Inv calls (perform delivers c now rt) (perform-Inv c now rt v)

-- The first runtime has one node, the root.
pub new-Inv : (config : SupervisionConfig) (now : ℕ) → Inv (new config now)
unfolding new Table.insert Table.get current_dynamic text_beq
new-Inv config now = record {
  tree = record {
    listed = λ x c h. ground arith;
    linked = λ x c h. ground arith;
    distinct = λ x. elim (Bool-cases (root_node_id == x)) [
      | inl root ↦ rw root tt
      | inr other ↦ rw other tt
    ];
    childless = λ x h. ground arith;
    orphan = λ x h. ground arith;
    rank = λ x. 0;
    rank-lt_size = λ x h. omega arith;
    rank-lt_rank = λ x c h. ground arith;
  };
  one_root = record { there = refl; top = refl; attached = λ x h o. absurd (ground arith) };
  fits = λ id r e limit m. ground arith;
  within = omega arith;
  root = record { snapshot = root_snapshot now; command_tx = none };
  rooted = refl;
  unlimited = refl;
}

-- After any history of calls from a new runtime, whether they succeed or fail: the links of the nodes
-- form one tree, where the root is there and has no parent and each other node has one that is there; no
-- node has more children than its `max_children`, and the dynamic nodes are at most `max_dynamic_children`.
pub history-Inv :
    (delivers : ℕ → Bool) (config : SupervisionConfig) (start : ℕ) (calls : List (Call × ℕ))
    → Inv (perform_all delivers calls (new config start))
history-Inv delivers config start calls =
    perform_all-Inv delivers calls (new config start) (new-Inv config start)
