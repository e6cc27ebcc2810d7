-- ===== src/Supervision/Tree/Growth.antt =====
-- A tree with one more leaf is a tree.
use puff.Common.{
  ℕ, suc, ◌<◌, ◌≡◌, refl, true, false, some, [], ◌∷◌, ◌++◌, Text, arith, contains, contains-append,
  Distinct, Distinct-append, text_eq, ◌==◌, if◌then◌else◌, Bool-cases, inl, inr,
}
use puff.Supervision.Tree.{Links, IsTree, IsRooted}

-- The links after a new node `n` has been put under `p`.
abbrev pub grow : Text → Text → Links → Links
grow p n l = record {
  present = λ x. if n == x then true else l.present x;
  children = λ x. if n == x then [] else if p == x then l.children x ++ n ∷ [] else l.children x;
  parent = λ x. if n == x then some p else l.parent x;
  size = suc l.size;
}

module _ (p n : Text) (l : Links) (t : IsTree l) (there : l.present p ≡ true)
    (fresh : l.present n ≡ false) where
  grow-listed :
      (x c : Text) → (grow p n l).parent c ≡ some x → contains ((grow p n l).children x) c ≡ true
  grow-listed x c h = ground (
    arith,
    text_eq.beq_iff n c,
    text_eq.beq_iff n x,
    text_eq.beq_iff p x,
    t.listed x c,
    t.orphan n fresh,
    t.childless n fresh,
    contains-append (l.children x) (n ∷ []) c,
  )

  grow-linked :
      (x c : Text) → contains ((grow p n l).children x) c ≡ true → (grow p n l).parent c ≡ some x
  grow-linked x c h = ground (
    arith,
    text_eq.beq_iff n c,
    text_eq.beq_iff n x,
    text_eq.beq_iff p x,
    t.linked x c,
    t.linked x n,
    t.orphan n fresh,
    contains-append (l.children x) (n ∷ []) c,
  )

  grow-Distinct : (x : Text) → Distinct ((grow p n l).children x)
  grow-Distinct x = elim (Bool-cases (n == x)) [
    | inl new ↦ rw new tt
    | inr old ↦ rw old (elim (Bool-cases (p == x)) [
      | inl under ↦ rw under (
          Distinct-append (l.children x) (n ∷ []) (t.distinct x) (refl, tt)
            (λ a m. ground (arith, text_eq.beq_iff n a, t.linked x a m, t.orphan n fresh)))
      | inr aside ↦ rw aside (t.distinct x)
    ])
  ]

  grow-rank : Text → ℕ
  grow-rank x = if n == x then l.size else t.rank x

  grow-rank_lt : (x c : Text) → (grow p n l).parent c ≡ some x → grow-rank x < grow-rank c
  unfolding grow-rank
  grow-rank_lt x c h = ground (
    arith,
    text_eq.beq_iff n c,
    text_eq.beq_iff n x,
    text_eq.beq_iff n p,
    t.rank-lt_size p there,
    t.rank-lt_rank x c,
    t.listed x c,
    t.childless n fresh,
  )

  -- A tree with one more leaf under a node that is there is a tree.
  pub grow-IsTree : IsTree (grow p n l)
  grow-IsTree = record {
    listed = grow-listed;
    linked = grow-linked;
    distinct = grow-Distinct;
    childless = λ x h. ground (arith, t.childless x, text_eq.beq_iff p x);
    orphan = λ x h. ground (arith, t.orphan x);
    rank = grow-rank;
    rank-lt_size = λ x h. unfold grow-rank in ground (arith, t.rank-lt_size x);
    rank-lt_rank = grow-rank_lt;
  }

  -- The new leaf hangs below the root as well.
  pub grow-IsRooted : (root : Text) → IsRooted root l → IsRooted root (grow p n l)
  grow-IsRooted root r = record {
    there = ground (arith, r.there);
    top = ground (arith, r.there, r.top, text_eq.beq_iff n root);
    attached = λ x h o. elim (Bool-cases (n == x)) [
      | inl new ↦ (p, rw new refl, ground (arith, there))
      | inr old ↦ let (q, e, k) = r.attached x (ground arith) o in (q, rw old e, ground arith)
    ];
  }
