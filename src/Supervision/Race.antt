-- ===== src/Supervision/Race.antt =====
-- src/supervision.rs: the spawning methods check the limits under a lock that they release before
-- `insert_node` takes it again. Here two tasks check before either of them inserts.
use puff.Common.{
  ℕ, suc, ◌<◌, ◌≡◌, refl, true, false, Option, none, some, [], ◌∷◌, ◌++◌, Text, ◌==◌, ==-refl,
  text_eq, arith, length, length-append, ok, ltb,
}
use puff.Common.Table
use puff.Common.Table.{Table, get-update, get-insert}
use puff.Supervision.Node.{
  SupervisorNodeSnapshot, agent_supervisor, agent_instance, NodeRecord, Runtime, AgentInstanceSpec,
  node_added,
}
use puff.Supervision.Core.{
  insert_node, attach, add_child, emit_event, ensure_parent_allows_child, enforce_dynamic_limit,
  current_dynamic, check_room, allows, node_snapshot,
}
use puff.Supervision.Spawn.{instance_snapshot}
use puff.Supervision.Reads.{nodes-emit_event}

-- The runtime after an insertion that succeeds.
abbrev inserted : Text → SupervisorNodeSnapshot → Option ℕ → ℕ → Runtime → Runtime
inserted p n tx now rt =
    emit_event node_added n.node_id none now (record rt { nodes = attach p n tx now rt.nodes })

insert_node_ok :
    (p : Text) (n : SupervisorNodeSnapshot) (tx : Option ℕ) (now : ℕ) (rt : Runtime)
    → Table.has p rt.nodes ≡ true
    → Table.has n.node_id rt.nodes ≡ false
    → insert_node p n tx now rt ≡ ok (n, inserted p n tx now rt)
unfolding insert_node
insert_node_ok p n tx now rt there fresh = rw (there, fresh) refl

get-inserted :
    (p : Text) (n : SupervisorNodeSnapshot) (tx : Option ℕ) (now : ℕ) (rt : Runtime)
    (r : NodeRecord)
    → Table.get p rt.nodes ≡ some r
    → Table.has n.node_id rt.nodes ≡ false
    → Table.get p (inserted p n tx now rt).nodes ≡ some (add_child n.node_id now r)
unfolding attach
get-inserted p n tx now rt r e fresh =
    rw
      (nodes-emit_event node_added n.node_id none now
        (record rt { nodes = attach p n tx now rt.nodes }))
      (ground (
        arith,
        get-insert n.node_id p (record { snapshot = n; command_tx = tx })
            (Table.update p (add_child n.node_id now) rt.nodes),
        get-update p p (add_child n.node_id now) rt.nodes,
        ==-refl p,
        text_eq.beq_iff n.node_id p,
      ))

has-inserted :
    (p : Text) (n : SupervisorNodeSnapshot) (tx : Option ℕ) (now : ℕ) (rt : Runtime) (x : Text)
    → Table.has x rt.nodes ≡ false
    → (n.node_id == x) ≡ false
    → Table.has x (inserted p n tx now rt).nodes ≡ false
unfolding attach
has-inserted p n tx now rt x e other =
    rw
      (nodes-emit_event node_added n.node_id none now
        (record rt { nodes = attach p n tx now rt.nodes }))
      (ground (
        arith,
        get-insert n.node_id x (record { snapshot = n; command_tx = tx })
            (Table.update p (add_child n.node_id now) rt.nodes),
        get-update p x (add_child n.node_id now) rt.nodes,
      ))

-- A team with room for one more child, and two free names for its children.
pub record LastPlace (rt : Runtime) (p a b : Text) (limit : ℕ) : Type 0 where
  pub team : NodeRecord
  pub there : Table.get p rt.nodes ≡ some team
  pub is_team : team.snapshot.kind ≡ agent_supervisor
  pub limited : team.snapshot.max_children ≡ some limit
  pub one_left : suc (length team.snapshot.children) ≡ limit
  pub dynamic_left : current_dynamic rt < rt.config.max_dynamic_children
  pub a_free : Table.has a rt.nodes ≡ false
  pub b_free : Table.has b rt.nodes ≡ false
  pub apart : (a == b) ≡ false

-- Both checks of `spawn_agent_instance_with_node_id`.
abbrev pub Checked : Runtime → Text → Type 0
Checked rt p =
    (ensure_parent_allows_child rt p agent_instance ≡ ok tt) × (enforce_dynamic_limit rt ≡ ok tt)

-- The insertions of both tasks succeed, and leave the team with one child too many.
abbrev pub Exceeds :
    Runtime → Text → SupervisorNodeSnapshot → SupervisorNodeSnapshot → ℕ → ℕ → Type 0
Exceeds rt p n o limit now =
    (rt1 : Runtime) × (rt2 : Runtime) × (team : NodeRecord) × (insert_node p n none now rt
      ≡ ok (n, rt1))
    × (insert_node p o none now rt1 ≡ ok (o, rt2))
    × (Table.get p rt2.nodes ≡ some team)
    × (team.snapshot.max_children ≡ some limit)
    × (length team.snapshot.children ≡ suc limit)

checks_pass : (rt : Runtime) (p a b : Text) (limit : ℕ) → LastPlace rt p a b limit → Checked rt p
unfolding ensure_parent_allows_child enforce_dynamic_limit check_room allows node_snapshot
checks_pass rt p a b limit l =
    let room : ltb (length l.team.snapshot.children) limit ≡ true = ground (arith, l.one_left) in
    (rw (l.there, l.limited, l.is_team, room) refl, ground (arith, l.dynamic_left))

-- If two tasks that spawn children of one team with one place left both check before either inserts,
-- both succeed, and the team has more children than its `max_children`.
pub two_spawns_exceed :
    (rt : Runtime) (p a b : Text) (spec : AgentInstanceSpec) (limit now : ℕ)
    → LastPlace rt p a b limit
    → Checked rt p
      × Exceeds rt p (instance_snapshot a p spec now) (instance_snapshot b p spec now) limit now
unfolding instance_snapshot add_child
two_spawns_exceed rt p a b spec limit now l =
    let n = instance_snapshot a p spec now in
    let o = instance_snapshot b p spec now in
    let rt1 = inserted p n none now rt in
    let first = get-inserted p n none now rt l.team l.there l.a_free in
    let b_free = has-inserted p n none now rt b l.b_free l.apart in
    let team = add_child b now (add_child a now l.team) in
    let there : Table.has p rt.nodes ≡ true = rw l.there refl in
    let there1 : Table.has p rt1.nodes ≡ true = rw first refl in
    (
      checks_pass rt p a b limit l,
      (
        rt1,
        inserted p o none now rt1,
        team,
        insert_node_ok p n none now rt there l.a_free,
        insert_node_ok p o none now rt1 there1 b_free,
        get-inserted p o none now rt1 (add_child a now l.team) first b_free,
        l.limited,
        omega (
          arith,
          length-append l.team.snapshot.children (a ∷ []),
          length-append (l.team.snapshot.children ++ a ∷ []) (b ∷ []),
          l.one_left,
        ),
      ),
    )
