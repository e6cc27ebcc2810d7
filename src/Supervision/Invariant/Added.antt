-- ===== src/Supervision/Invariant/Added.antt =====
-- The calls that add a node keep the invariant, whether they succeed or not.
use puff.Common.{
  ℕ, ◌≡◌, refl, false, Option, none, some, [], Text, arith, Result, ok, err, text_eq, inl, ◌>>◌,
}
use puff.Supervision.Node.{SupervisorNodeSnapshot, Runtime, root_node_id, SupervisorNodeKind, Error}
use puff.Supervision.Core.{
  check_room, ensure_parent_allows_child, enforce_dynamic_limit, insert_node,
}
use puff.Supervision.Spawn.{Added, existing_or}
use puff.Supervision.Invariant.{Inv}
use puff.Supervision.Invariant.Spawns.{Admits, insert_node-Inv}

-- What a call that adds a node leaves.
abbrev pub after : Runtime → Added → Runtime
after rt (ok added) = added.1
after rt (err e) = rt

after-Inv :
    (rt : Runtime) (r : Added)
    → Inv rt
    → ((a : SupervisorNodeSnapshot × Runtime) → r ≡ ok a → Inv a.1)
    → Inv (after rt r)
after-Inv rt (ok a) v h = h a refl
after-Inv rt (err e) v h = v

existing_or-Inv :
    (o : Option SupervisorNodeSnapshot) (rt : Runtime) (r : Added)
    → Inv rt
    → Inv (after rt r)
    → Inv (after rt (existing_or o rt r))
unfolding existing_or
existing_or-Inv none rt r v h = h
existing_or-Inv (some s) rt r v h = v

-- Both checks have passed where the chain of them succeeds.
checks-eq-ok :
    (x y : Result Error (Unit {0})) (z : Added) (a : SupervisorNodeSnapshot × Runtime)
    → (x >> (y >> z)) ≡ ok a
    → (x ≡ ok tt) × (y ≡ ok tt) × (z ≡ ok a)
checks-eq-ok (ok _) (ok _) z a e = (refl, refl, e)
checks-eq-ok (ok _) (err _) z a e = cc
checks-eq-ok (err _) y z a e = cc

module _ (rt : Runtime) (v : Inv rt) (p : Text) (kind : SupervisorNodeKind) where
  checked-Admits :
      (s : SupervisorNodeSnapshot)
      → ensure_parent_allows_child rt p kind ≡ ok tt
      → enforce_dynamic_limit rt ≡ ok tt
      → s.parent_id ≡ some p
      → s.children ≡ []
      → Admits rt p s
  unfolding ensure_parent_allows_child enforce_dynamic_limit
  checked-Admits s e d h k = record {
    names_parent = h;
    no_children = k;
    room = λ r g. ground arith;
    dynamic = ground arith;
  }

  pub checked_insert-Inv :
      (s : SupervisorNodeSnapshot) (tx : Option ℕ) (now : ℕ)
      → s.parent_id ≡ some p
      → s.children ≡ []
      → Inv (
          after rt (do
            ensure_parent_allows_child rt p kind
            enforce_dynamic_limit rt
            insert_node p s tx now rt))
  checked_insert-Inv s tx now h k = after-Inv rt _ v λ a e.
      let (c, d, i) = checks-eq-ok _ _ _ a e in
      insert_node-Inv p s tx now rt a v (checked-Admits s c d h k) i

static-Admits :
    (rt : Runtime) (s : SupervisorNodeSnapshot)
    → Inv rt
    → s.parent_id ≡ some root_node_id
    → s.children ≡ []
    → s.dynamic ≡ false
    → Admits rt root_node_id s
unfolding check_room
static-Admits rt s v h k d = record {
  names_parent = h;
  no_children = k;
  room = λ r g. ground (arith, v.rooted, v.unlimited);
  dynamic = inl d;
}

pub static_added-Inv :
    (o : Option SupervisorNodeSnapshot) (rt : Runtime) (s : SupervisorNodeSnapshot) (tx : Option ℕ)
    (now : ℕ)
    → Inv rt
    → s.parent_id ≡ some root_node_id
    → s.children ≡ []
    → s.dynamic ≡ false
    → Inv (after rt (existing_or o rt (insert_node root_node_id s tx now rt)))
static_added-Inv o rt s tx now v h k d =
    existing_or-Inv o rt (insert_node root_node_id s tx now rt) v (
      after-Inv rt (insert_node root_node_id s tx now rt) v
        (λ a e. insert_node-Inv root_node_id s tx now rt a v (static-Admits rt s v h k d) e))
