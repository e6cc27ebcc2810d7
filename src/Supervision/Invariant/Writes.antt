-- ===== src/Supervision/Invariant/Writes.antt =====
-- The writes to one node, and the events, keep the invariant.
use mathlib.Core.Option
use mathlib.Core.Path.{subst}
use puff.Common.{
  ℕ, ◌≡◌, refl, Bool, true, false, Option, none, some, Text, arith, if◌then◌else◌, ◌==◌, text_eq,
}
use puff.Common.Table
use puff.Common.Table.{Table, get-update, count-update}
use puff.Supervision.Node.{
  SupervisorNodeState, SupervisorEventKind, SupervisorCommand, NodeRecord, Runtime, root_node_id,
}
use puff.Supervision.Core.{
  emit_event, transition_node, transition, bump_restart_count, bump, record_failure, fail,
  current_dynamic,
}
use puff.Supervision.Control.{send}
use puff.Supervision.Reads.{nodes-emit_event, config-emit_event}
use puff.Supervision.Invariant.{Inv, Fits}
use puff.Supervision.Invariant.Links.{IsInner, links-update}

-- The invariant reads the nodes and the configuration alone.
pub Inv-cast : (rt rt' : Runtime) → rt'.nodes ≡ rt.nodes → rt'.config ≡ rt.config → Inv rt → Inv rt'
unfolding current_dynamic
Inv-cast rt rt' e k v = record {
  tree = rw e v.tree;
  one_root = rw e v.one_root;
  fits = rw e v.fits;
  within = rw (e, k) v.within;
  root = v.root;
  rooted = rw e v.rooted;
  unlimited = v.unlimited;
}

pub Inv-emit_event :
    (kind : SupervisorEventKind) (id : Text) (m : Option Text) (now : ℕ) (rt : Runtime)
    → Inv rt
    → Inv (emit_event kind id m now rt)
Inv-emit_event kind id m now rt v =
    Inv-cast rt _ (nodes-emit_event kind id m now rt) (config-emit_event kind id m now rt) v

module _ (f : NodeRecord → NodeRecord) (inner : IsInner f) where
  Fits-map : (r : NodeRecord) → Fits r.snapshot → Fits (f r).snapshot
  Fits-map r h limit e = rw (inner.children r) (h limit (ground (arith, inner.max_children r)))

  Fits-map' :
      (b : Bool) (o : Option NodeRecord) (r : NodeRecord)
      → ((q : NodeRecord) → o ≡ some q → Fits q.snapshot)
      → (if b then Option.map f o else o) ≡ some r
      → Fits r.snapshot
  Fits-map' true none r h e = cc
  Fits-map' true (some q) r h e =
      subst (λ (x : NodeRecord). Fits x.snapshot) (Option.some-injective _ _ e)
        (Fits-map q (h q refl))
  Fits-map' false o r h e = h r e

  Inv-update :
      (id : Text) (rt : Runtime) → Inv rt → Inv (record rt { nodes = Table.update id f rt.nodes })
  unfolding current_dynamic
  Inv-update id rt v = record {
    tree = rw (links-update f inner id rt.nodes) v.tree;
    one_root = rw (links-update f inner id rt.nodes) v.one_root;
    fits = λ x r e.
        Fits-map' (id == x) (Table.get x rt.nodes) r (v.fits x)
          (rw (get-update id x f rt.nodes) at e);
    within = rw (count-update (λ r. r.snapshot.dynamic) id f rt.nodes inner.dynamic) v.within;
    root = if id == root_node_id then f v.root else v.root;
    rooted = ground (arith, get-update id root_node_id f rt.nodes, v.rooted);
    unlimited = ground (arith, v.unlimited, inner.max_children v.root);
  }

transition-IsInner :
    (st : SupervisorNodeState) (m : Option Text) (now : ℕ) → IsInner (transition st m now)
unfolding transition
transition-IsInner st m now = record {
  children = λ r. refl;
  parent_id = λ r. refl;
  max_children = λ r. refl;
  dynamic = λ r. refl;
}

bump-IsInner : (now : ℕ) → IsInner (bump now)
unfolding bump
bump-IsInner now = record {
  children = λ r. refl;
  parent_id = λ r. refl;
  max_children = λ r. refl;
  dynamic = λ r. refl;
}

fail-IsInner : (error : Text) (now : ℕ) → IsInner (fail error now)
unfolding fail
fail-IsInner error now = record {
  children = λ r. refl;
  parent_id = λ r. refl;
  max_children = λ r. refl;
  dynamic = λ r. refl;
}

pub Inv-transition_node :
    (id : Text) (st : SupervisorNodeState) (m : Option Text) (now : ℕ) (rt : Runtime)
    → Inv rt
    → Inv (transition_node id st m now rt)
unfolding transition_node
Inv-transition_node id st m now rt v =
    Inv-emit_event _ _ _ _ _
      (Inv-update (transition st m now) (transition-IsInner st m now) id rt v)

pub Inv-bump_restart_count :
    (id : Text) (now : ℕ) (rt : Runtime) → Inv rt → Inv (bump_restart_count id now rt)
unfolding bump_restart_count
Inv-bump_restart_count id now rt v = Inv-update (bump now) (bump-IsInner now) id rt v

pub Inv-record_failure :
    (id error : Text) (now : ℕ) (rt : Runtime) → Inv rt → Inv (record_failure id error now rt)
unfolding record_failure
Inv-record_failure id error now rt v =
    Inv-emit_event _ _ _ _ _ (Inv-update (fail error now) (fail-IsInner error now) id rt v)

pub Inv-send :
    (sender : ℕ) (command : SupervisorCommand) (rt : Runtime)
    → Inv rt
    → Inv (send sender command rt)
unfolding send
Inv-send sender command rt v = Inv-cast rt _ refl refl v
