-- ===== src/Supervision/Tree.antt =====
-- The links of the supervision tree, seen apart from the rest of a node: which nodes there are, the
-- children that each lists and the parent that each names.
pub mod Growth
use puff.Common.{
  ℕ, suc, ◌+◌, ◌<◌, ◌≡◌, Bool, true, false, Option, none, some, List, [], Text, contains, Distinct,
  text_eq, length, ◌==◌,
}
use mathlib.Core.Option
use puff.Common.Table
use puff.Common.Table.{Table}
use puff.Supervision.Node.{NodeRecord}
use puff.Supervision.Control.{children_of}

pub record Links : Type 0 where
  pub present : Text → Bool
  pub children : Text → List Text
  pub parent : Text → Option Text
  pub size : ℕ

abbrev pub parent_in : Option NodeRecord → Option Text
parent_in none = none
parent_in (some r) = r.snapshot.parent_id

-- The links of a node map.
abbrev pub links : Table Text NodeRecord → Links
links nodes = record {
  present = λ id. Table.has id nodes;
  children = λ id. children_of id nodes;
  parent = λ id. parent_in (Table.get id nodes);
  size = length nodes;
}

-- The root names no parent, and each other node that is there names one that is there.
pub record IsRooted (root : Text) (l : Links) : Type 0 where
  pub there : l.present root ≡ true
  pub top : l.parent root ≡ none
  pub attached :
      (x : Text)
      → l.present x ≡ true
      → (root == x) ≡ false
      → (p : Text) × (l.parent x ≡ some p) × (l.present p ≡ true)

-- A node lists exactly the nodes that name it as their parent, each once; a node that is missing has
-- neither children nor a parent; and along the links some rank grows, which the size bounds.
pub record IsTree (l : Links) : Type 0 where
  pub listed : (x c : Text) → l.parent c ≡ some x → contains (l.children x) c ≡ true
  pub linked : (x c : Text) → contains (l.children x) c ≡ true → l.parent c ≡ some x
  pub distinct : (x : Text) → Distinct (l.children x)
  pub childless : (x : Text) → l.present x ≡ false → l.children x ≡ []
  pub orphan : (x : Text) → l.present x ≡ false → l.parent x ≡ none
  pub rank : Text → ℕ
  pub rank-lt_size : (x : Text) → l.present x ≡ true → rank x < l.size
  pub rank-lt_rank : (x c : Text) → l.parent c ≡ some x → rank x < rank c
