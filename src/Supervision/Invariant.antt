-- ===== src/Supervision/Invariant.antt =====
-- What every operation keeps: the links form one tree with the root at its top, each node is within its `max_children`, the
-- dynamic nodes are within `max_dynamic_children`, and the root is there, with no limit.
pub mod Links
pub mod Writes
pub mod Spawns
pub mod Added
use puff.Common.{ℕ, ◌≤◌, ◌≡◌, Option, none, some, Text, length, text_eq}
use puff.Common.Table
use puff.Common.Table.{Table}
use puff.Supervision.Node.{SupervisorNodeSnapshot, NodeRecord, Runtime, root_node_id}
use puff.Supervision.Core.{current_dynamic}
use puff.Supervision.Tree.{IsTree, IsRooted, links}

-- The node has no more children than it may have.
abbrev pub Fits : SupervisorNodeSnapshot → Type 0
Fits p = (limit : ℕ) → p.max_children ≡ some limit → length p.children ≤ limit

pub record Inv (rt : Runtime) : Type 0 where
  pub tree : IsTree (links rt.nodes)
  pub one_root : IsRooted root_node_id (links rt.nodes)
  pub fits : (id : Text) (r : NodeRecord) → Table.get id rt.nodes ≡ some r → Fits r.snapshot
  pub within : current_dynamic rt ≤ rt.config.max_dynamic_children
  pub root : NodeRecord
  pub rooted : Table.get root_node_id rt.nodes ≡ some root
  pub unlimited : root.snapshot.max_children ≡ none
