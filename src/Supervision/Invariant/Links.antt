-- ===== src/Supervision/Invariant/Links.antt =====
-- What the writes to the node map do to its links.
use mathlib.Core.Option
use mathlib.Core.Path.{fun_ext}
use puff.Common.{
  ℕ, suc, ◌≡◌, refl, ap, ◌∙◌, Bool, true, false, Option, none, some, [], ◌∷◌, Text, arith, length,
  length-append, ◌==◌, text_eq, if◌then◌else◌, is_some,
}
use puff.Common.Table
use puff.Common.Table.{Table, get-update, get-insert, insert_new, length-update}
use puff.Supervision.Node.{SupervisorNodeSnapshot, NodeRecord}
use puff.Supervision.Core.{attach, add_child}
use puff.Supervision.Control.{children_in}
use puff.Supervision.Tree.{links, parent_in}
use puff.Supervision.Tree.Growth.{grow}

-- A write to a node that keeps its place in the tree and its limits.
pub record IsInner (f : NodeRecord → NodeRecord) : Type 0 where
  pub children : (r : NodeRecord) → (f r).snapshot.children ≡ r.snapshot.children
  pub parent_id : (r : NodeRecord) → (f r).snapshot.parent_id ≡ r.snapshot.parent_id
  pub max_children : (r : NodeRecord) → (f r).snapshot.max_children ≡ r.snapshot.max_children
  pub dynamic : (r : NodeRecord) → (f r).snapshot.dynamic ≡ r.snapshot.dynamic

module _ (f : NodeRecord → NodeRecord) (inner : IsInner f) where
  children_in-map :
      (b : Bool) (o : Option NodeRecord)
      → children_in (if b then Option.map f o else o) ≡ children_in o
  children_in-map true none = refl
  children_in-map true (some r) = inner.children r
  children_in-map false o = refl

  parent_in-map :
      (b : Bool) (o : Option NodeRecord) → parent_in (if b then Option.map f o else o) ≡ parent_in o
  parent_in-map true none = refl
  parent_in-map true (some r) = inner.parent_id r
  parent_in-map false o = refl

  is_some-map :
      (b : Bool) (o : Option NodeRecord) → is_some (if b then Option.map f o else o) ≡ is_some o
  is_some-map true none = refl
  is_some-map true (some r) = refl
  is_some-map false o = refl

  -- Such a write leaves the links as they are.
  pub links-update :
      (id : Text) (nodes : Table Text NodeRecord) → links (Table.update id f nodes) ≡ links nodes
  links-update id nodes = λ i. record {
    present =
        fun_ext
          (λ x. ap is_some (get-update id x f nodes) ∙ is_some-map (id == x) (Table.get x nodes)) i;
    children =
        fun_ext
          (λ x.
            ap children_in (get-update id x f nodes)
            ∙ children_in-map (id == x) (Table.get x nodes))
          i;
    parent =
        fun_ext
          (λ x.
            ap parent_in (get-update id x f nodes) ∙ parent_in-map (id == x) (Table.get x nodes))
          i;
    size = length-update id f nodes i;
  }

-- The new node of `insert_node` is one more leaf.
module _ (p : Text) (s : SupervisorNodeSnapshot) (tx : Option ℕ) (now : ℕ)
    (nodes : Table Text NodeRecord) (there : Table.has p nodes ≡ true)
    (fresh : Table.has s.node_id nodes ≡ false) where
  pub get-attach :
      (x : Text)
      → Table.get x (attach p s tx now nodes) ≡ (
          if s.node_id == x
          then some (record { snapshot = s; command_tx = tx })
          else if p == x
          then Option.map (add_child s.node_id now) (Table.get x nodes)
          else Table.get x nodes)
  unfolding attach
  get-attach x = ground (
    arith,
    get-insert s.node_id x (record { snapshot = s; command_tx = tx })
        (Table.update p (add_child s.node_id now) nodes),
    get-update p x (add_child s.node_id now) nodes,
  )

  length-attach : length (attach p s tx now nodes) ≡ suc (length nodes)
  unfolding attach
  length-attach =
      let missing : Table.get s.node_id (Table.update p (add_child s.node_id now) nodes) ≡ none =
        ground (arith, get-update p s.node_id (add_child s.node_id now) nodes) in
      rw (insert_new s.node_id _ _ missing) (
        omega (
          arith,
          length-append (Table.update p (add_child s.node_id now) nodes)
              ((s.node_id, record { snapshot = s; command_tx = tx }) ∷ []),
          length-update p (add_child s.node_id now) nodes,
        ))

  has-attach :
      (x : Text)
      → Table.has x (attach p s tx now nodes) ≡ (grow p s.node_id (links nodes)).present x
  has-attach x = ground (arith, get-attach x, text_eq.beq_iff p x)

  children-attach :
      s.children ≡ []
      → (x : Text)
      → children_in (Table.get x (attach p s tx now nodes))
        ≡ (grow p s.node_id (links nodes)).children x
  unfolding add_child
  children-attach h x = ground (arith, get-attach x, text_eq.beq_iff p x)

  parent-attach :
      s.parent_id ≡ some p
      → (x : Text)
      → parent_in (Table.get x (attach p s tx now nodes))
        ≡ (grow p s.node_id (links nodes)).parent x
  unfolding add_child
  parent-attach e x = ground (arith, get-attach x, text_eq.beq_iff p x)

  pub links-attach :
      s.parent_id ≡ some p
      → s.children ≡ []
      → links (attach p s tx now nodes) ≡ grow p s.node_id (links nodes)
  links-attach e h = λ i. record {
    present = fun_ext has-attach i;
    children = fun_ext (children-attach h) i;
    parent = fun_ext (parent-attach e) i;
    size = length-attach i;
  }
