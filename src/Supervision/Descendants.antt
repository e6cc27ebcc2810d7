-- ===== src/Supervision/Descendants.antt =====
-- `collect_descendants` ends, and finds each descendant once, parents first.
pub mod Rounds
use mathlib.Core.Path.{subst}
use puff.Common.{
  ℕ, zero, suc, ◌+◌, ◌≤◌, ◌<◌, ◌≡◌, ◌↔◌, refl, sym, ap, ◌∙◌, Bool, true, false, ◌||◌, Option, none,
  some, List, [], ◌∷◌, ◌++◌, reverse, Text, arith, length, length-append, contains, contains-append,
  contains-reverse, Distinct, Distinct-append, Distinct-reverse, Subset, length-le_of_Distinct, ◌⊎◌,
  inl, inr, ◌==◌, ==-refl, text_eq, Bool-cases, if◌then◌else◌, Result, ok, err,
}
use puff.Common.Table
use puff.Common.Table.{Table, keys, contains-keys, length-keys}
use puff.Supervision.Node.{NodeRecord, Runtime, Error}
use puff.Supervision.Control.{collect, collect_descendants, children_of}
use puff.Supervision.Tree.{IsTree, links, parent_in}
use puff.Supervision.Invariant.{Inv}
use Rounds.{Walk, Walk-round, Descendant, here, below, Ordered, Follows}

module _ (nodes : Table Text NodeRecord) (start : Text) (t : IsTree (links nodes)) where
  -- What has been collected are keys of the map.
  collected-le :
      (popped stack : List Text) (current : Text)
      → Walk nodes start popped (current ∷ stack)
      → length popped < length nodes
  collected-le popped stack current w = omega (
    arith,
    length-le_of_Distinct (current ∷ popped) (keys nodes)
        (ground (arith, w.apart current, ==-refl current), w.popped_once)
        (λ a h. rw (contains-keys a nodes) (w.there a (ground arith))),
    length-keys nodes,
  )

  -- With a unit of fuel for each node not yet collected the loop ends.
  collect-Walk :
      (fuel : ℕ) (popped stack : List Text)
      → length nodes ≤ fuel + length popped
      → Walk nodes start popped stack
      → (ids : List Text) × (collect fuel nodes stack popped ≡ some ids) × Walk nodes start ids []
  unfolding collect
  collect-Walk fuel popped [] h w = (popped, refl, w)
  collect-Walk zero popped (current ∷ stack) h w =
      absurd (omega (arith, collected-le popped stack current w))
  collect-Walk (suc fuel) popped (current ∷ stack) h w =
      collect-Walk fuel (popped ++ current ∷ []) (reverse (children_of current nodes) ++ stack)
        (omega (arith, length-append popped (current ∷ [])))
        (Walk-round nodes start t popped stack current w)

  -- At the start nothing is collected, and the start is to be visited.
  first_Walk : Table.has start nodes ≡ true → Walk nodes start [] (start ∷ [])
  first_Walk h = record {
    popped_once = tt;
    stacked_once = (refl, tt);
    apart = λ a m. cc;
    there = λ a m. ground (arith, text_eq.beq_iff start a);
    follows = λ a m. inl (ground (arith, text_eq.beq_iff start a));
    ordered = tt;
    descends = λ a m. subst (Descendant nodes start) (ground (arith, text_eq.beq_iff start a)) here;
    first = ground (arith, ==-refl start);
    closed = λ x c m k. cc;
  }

  Descendant-collected :
      (ids : List Text) (a : Text)
      → Walk nodes start ids []
      → Descendant nodes start a
      → contains ids a ≡ true
  Descendant-collected ids a w here = ground (arith, w.first)
  Descendant-collected ids a w (below {x} d m) =
      ground (arith, w.closed x a (Descendant-collected ids x w d) m)

-- In a runtime with the invariant, `collect_descendants` of a node that is there ends within its
-- fuel, the number of nodes. It returns the node and those below it, each once, and no other; and
-- every node but the first comes after its parent, so that the reversed list has children first.
pub collect_descendants_exact :
    (rt : Runtime) (id : Text)
    → Inv rt
    → Table.has id rt.nodes ≡ true
    → (ids : List Text) × (collect_descendants rt id ≡ some (ok ids))
      × Distinct ids
      × ((a : Text) → (contains ids a ≡ true) ↔ Descendant rt.nodes id a)
      × Ordered rt.nodes id [] ids
unfolding collect_descendants
collect_descendants_exact rt id v h =
    let (ids, e, w) =
      collect-Walk rt.nodes id v.tree (length rt.nodes) [] (id ∷ []) (omega arith)
        (first_Walk rt.nodes id v.tree h) in
    (
      ids,
      rw (h, e),
      w.popped_once,
      λ a. (λ m. w.descends a (ground arith), Descendant-collected rt.nodes id v.tree ids a w),
      w.ordered,
    )
