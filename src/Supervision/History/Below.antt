-- ===== src/Supervision/History/Below.antt =====
-- Every node of a runtime stands below its root.
use puff.Common.{
  ℕ, zero, suc, ◌<◌, ◌≡◌, Bool, true, List, Text, arith, Bool-cases, inl, inr, ◌==◌, text_eq,
}
use mathlib.Core.Path.{subst}
use puff.Common.Table
use puff.Common.Table.{Table}
use puff.Supervision.Node.{SupervisionConfig, Runtime, root_node_id}
use puff.Supervision.Core.{new}
use puff.Supervision.Invariant.{Inv}
use puff.Supervision.Descendants.Rounds.{Descendant, here, below}
use puff.Supervision.History.{Call, perform_all}
use puff.Supervision.History.Keeps.{history-Inv}

-- From a node the parents lead to the root, since the rank falls.
Descendant-root :
    (rt : Runtime) (v : Inv rt) (n : ℕ) (x : Text)
    → Table.has x rt.nodes ≡ true
    → v.tree.rank x < n
    → Descendant rt.nodes root_node_id x
Descendant-root rt v zero x h k = absurd (omega arith)
Descendant-root rt v (suc n) x h k = elim (Bool-cases (root_node_id == x)) [
  | inl root ↦
      subst (Descendant rt.nodes root_node_id) ((text_eq.beq_iff root_node_id x).0 root) here
  | inr other ↦
      let (p, e, there) = v.one_root.attached x h other in
      below (Descendant-root rt v n p there (omega (arith, v.tree.rank-lt_rank p x e)))
        (v.tree.listed p x e)
]

-- After any history of calls from a new runtime, whether they succeed or fail: the links of the nodes
-- form one tree, with the root at its top, which has no parent, and each node at or below it; no node has more
-- children than its `max_children`, and the dynamic nodes are at most `max_dynamic_children`.
pub history_one_tree :
    (delivers : ℕ → Bool) (config : SupervisionConfig) (start : ℕ) (calls : List (Call × ℕ))
    → Inv (perform_all delivers calls (new config start))
      × ((x : Text)
          → Table.has x (perform_all delivers calls (new config start)).nodes ≡ true
          → Descendant (perform_all delivers calls (new config start)).nodes root_node_id x)
history_one_tree delivers config start calls =
    let rt = perform_all delivers calls (new config start) in
    let v = history-Inv delivers config start calls in
    (v, λ x h. Descendant-root rt v (suc (v.tree.rank x)) x h (omega arith))
