-- ===== src/Supervision/Invariant/Spawns.antt =====
-- The operations that add a node keep the invariant.
use puff.Common.{
  ℕ, ◌≤◌, ◌<◌, ◌≡◌, ◌⊎◌, inl, inr, refl, true, false, Option, none, some, [], ◌∷◌, Text, arith,
  length-append, if◌then◌else◌, count, ◌==◌, text_eq, ok, Option-cases,
}
use puff.Common.Table
use puff.Common.Table.{Table, get-update, count-update, count-insert_new}
use puff.Supervision.Node.{SupervisorNodeSnapshot, NodeRecord, Runtime, root_node_id, node_added}
use puff.Supervision.Core.{emit_event, insert_node, attach, add_child, check_room, current_dynamic}
use puff.Supervision.Tree.Growth.{grow-IsTree, grow-IsRooted}
use puff.Supervision.Tree.{links}
use puff.Supervision.Invariant.{Inv, Fits}
use puff.Supervision.Invariant.Links.{get-attach, links-attach}
use puff.Supervision.Invariant.Writes.{Inv-emit_event}

-- What the callers of `insert_node` make sure of, or what makes it unnecessary.
pub record Admits (rt : Runtime) (p : Text) (s : SupervisorNodeSnapshot) : Type 0 where
  pub names_parent : s.parent_id ≡ some p
  pub no_children : s.children ≡ []
  pub room : (r : NodeRecord) → Table.get p rt.nodes ≡ some r → check_room p r.snapshot ≡ ok tt
  pub dynamic : (s.dynamic ≡ false) ⊎ (current_dynamic rt < rt.config.max_dynamic_children)

module _ (rt : Runtime) (p : Text) (s : SupervisorNodeSnapshot) (tx : Option ℕ) (now : ℕ)
    (v : Inv rt) (a : Admits rt p s) (there : Table.has p rt.nodes ≡ true)
    (fresh : Table.has s.node_id rt.nodes ≡ false) where
  -- By where the node stands: the new one, its parent, or another.
  attach-Fits :
      (x : Text) (r : NodeRecord)
      → Table.get x (attach p s tx now rt.nodes) ≡ some r
      → Fits r.snapshot
  unfolding add_child check_room
  attach-Fits x r e limit m = elim (Option-cases (Table.get x rt.nodes)) [
    | inl gone ↦
        ground
          (arith, get-attach p s tx now rt.nodes there fresh x, a.no_children, text_eq.beq_iff p x)
    | inr (q, h) ↦ ground (
      arith,
      get-attach p s tx now rt.nodes there fresh x,
      a.no_children,
      text_eq.beq_iff p x,
      v.fits x q h limit,
      a.room q,
      length-append q.snapshot.children (s.node_id ∷ []),
    )
  ]

  attach_within :
      count (λ r. r.snapshot.dynamic) (Table.values (attach p s tx now rt.nodes))
      ≤ rt.config.max_dynamic_children
  unfolding attach add_child current_dynamic
  attach_within = ground (
    arith,
    v.within,
    a.dynamic,
    count-insert_new (λ r. r.snapshot.dynamic) s.node_id (record { snapshot = s; command_tx = tx })
        (Table.update p (add_child s.node_id now) rt.nodes),
    count-update (λ r. r.snapshot.dynamic) p (add_child s.node_id now) rt.nodes (λ r. refl),
    get-update p s.node_id (add_child s.node_id now) rt.nodes,
  )

  attached : Runtime
  attached = record rt { nodes = attach p s tx now rt.nodes }

  attach-Inv : Inv attached
  unfolding attached current_dynamic add_child
  attach-Inv = record {
    tree =
        rw (links-attach p s tx now rt.nodes there fresh a.names_parent a.no_children)
          (grow-IsTree p s.node_id (links rt.nodes) v.tree there fresh);
    one_root =
        rw (links-attach p s tx now rt.nodes there fresh a.names_parent a.no_children)
          (grow-IsRooted p s.node_id (links rt.nodes) v.tree there fresh root_node_id v.one_root);
    fits = attach-Fits;
    within = attach_within;
    root = if p == root_node_id then add_child s.node_id now v.root else v.root;
    rooted = ground (
      arith,
      get-attach p s tx now rt.nodes there fresh root_node_id,
      v.rooted,
      text_eq.beq_iff s.node_id root_node_id,
    );
    unlimited = ground (arith, v.unlimited);
  }

-- Where `insert_node` succeeds, it has attached the node and sent an event.
insert_node-eq-ok :
    (p : Text) (s : SupervisorNodeSnapshot) (tx : Option ℕ) (now : ℕ) (rt : Runtime)
    (added : SupervisorNodeSnapshot × Runtime)
    → insert_node p s tx now rt ≡ ok added
    → (Table.has p rt.nodes ≡ true)
      × (Table.has s.node_id rt.nodes ≡ false)
      × (added.0 ≡ s)
      × (added.1
          ≡ emit_event node_added s.node_id none now
              (record rt { nodes = attach p s tx now rt.nodes }))
unfolding insert_node
insert_node-eq-ok p s tx now rt added e = ground arith

pub insert_node-Inv :
    (p : Text) (s : SupervisorNodeSnapshot) (tx : Option ℕ) (now : ℕ) (rt : Runtime)
    (added : SupervisorNodeSnapshot × Runtime)
    → Inv rt
    → Admits rt p s
    → insert_node p s tx now rt ≡ ok added
    → Inv added.1
unfolding attached
insert_node-Inv p s tx now rt added v a e =
    let (there, fresh, _, f) = insert_node-eq-ok p s tx now rt added e in
    rw f (
      Inv-emit_event node_added s.node_id none now (attached rt p s tx now v a there fresh)
        (attach-Inv rt p s tx now v a there fresh))
