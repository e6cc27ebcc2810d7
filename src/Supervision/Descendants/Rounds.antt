-- ===== src/Supervision/Descendants/Rounds.antt =====
-- What the loop of `collect_descendants` keeps: `popped` is what it has collected, and `stack` what it
-- will still visit.
use mathlib.Core.List.{append-nil, append_assoc}
use puff.Common.{
  ◌≤◌, ◌≡◌, refl, ap, true, false, ◌||◌, Option, some, List, [], ◌∷◌, ◌++◌, reverse, Text, arith,
  contains, contains-append, contains-reverse, Distinct, Distinct-append, Distinct-reverse, ◌⊎◌,
  inl, inr, ==-refl, text_eq, Bool-cases,
}
use puff.Common.Table
use puff.Common.Table.{Table}
use puff.Supervision.Node.{NodeRecord}
use puff.Supervision.Control.{children_of}
use puff.Supervision.Tree.{IsTree, links, parent_in}

-- The nodes below `start`, itself among them.
pub data Descendant (nodes : Table Text NodeRecord) (start : Text) : Text → Type 0 where
  here : Descendant nodes start start
  below :
      {x c : Text}
      → Descendant nodes start x
      → contains (children_of x nodes) c ≡ true
      → Descendant nodes start c

module _ (nodes : Table Text NodeRecord) (start : Text) where
  abbrev parent_of : Text → Option Text
  parent_of a = parent_in (Table.get a nodes)

  -- The start, or a node whose parent has been collected.
  abbrev pub Follows : List Text → Text → Type 0
  Follows popped a =
      (a ≡ start)
      ⊎ ((y : Text) × (parent_in (Table.get a nodes) ≡ some y) × (contains popped y ≡ true))

  -- Each element follows those before it.
  abbrev pub Ordered : List Text → List Text → Type 0
  Ordered before [] = Unit
  Ordered before (a ∷ rest) = Follows before a × Ordered (before ++ a ∷ []) rest

  pub record Walk (popped stack : List Text) : Type 0 where
    pub popped_once : Distinct popped
    pub stacked_once : Distinct stack
    pub apart : (a : Text) → contains popped a ≡ true → contains stack a ≡ false
    pub there :
        (a : Text) → (contains popped a || contains stack a) ≡ true → Table.has a nodes ≡ true
    pub follows : (a : Text) → (contains popped a || contains stack a) ≡ true → Follows popped a
    pub ordered : Ordered [] popped
    pub descends :
        (a : Text) → (contains popped a || contains stack a) ≡ true → Descendant nodes start a
    pub first : (contains popped start || contains stack start) ≡ true
    pub closed :
        (x c : Text)
        → contains popped x ≡ true
        → contains (children_of x nodes) c ≡ true
        → (contains popped c || contains stack c) ≡ true

  Ordered-append :
      (before xs : List Text) (a : Text)
      → Ordered before xs
      → Follows (before ++ xs) a
      → Ordered before (xs ++ a ∷ [])
  Ordered-append before [] a o f = (rw (← append-nil before) f, tt)
  Ordered-append before (x ∷ xs) a o f =
      (o.0, Ordered-append (before ++ x ∷ []) xs a o.1 (rw (append_assoc before (x ∷ []) xs) f))

  Follows-mono : (popped : List Text) (b a : Text) → Follows popped a → Follows (popped ++ b ∷ []) a
  Follows-mono popped b a (inl e) = inl e
  Follows-mono popped b a (inr (y, h, m)) =
      inr (y, h, ground (arith, contains-append popped (b ∷ []) y))

  -- Along the links the rank grows, so no descendant has the start for a child.
  module _ (t : IsTree (links nodes)) where
    rank-le : {a : Text} → Descendant nodes start a → t.rank start ≤ t.rank a
    rank-le here = omega arith
    rank-le (below {x} {c} d m) = omega (arith, rank-le d, t.rank-lt_rank x c (t.linked x c m))

    -- A child of the node on top of the stack is new.
    child_new :
        (popped stack : List Text) (current c : Text)
        → Walk popped (current ∷ stack)
        → contains (children_of current nodes) c ≡ true
        → (contains popped c || contains (current ∷ stack) c) ≡ false
    child_new popped stack current c w m =
        elim (Bool-cases (contains popped c || contains (current ∷ stack) c)) [
          | inr new ↦ new
          | inl old ↦ absurd (impossible (w.follows c old))
        ]
      where
        top : (contains popped current || contains (current ∷ stack) current) ≡ true
        top = ground (arith, ==-refl current)

        impossible : Follows popped c → ⊥
        impossible (inl e) = omega (
          arith,
          rank-le (w.descends current top),
          t.rank-lt_rank current c (t.linked current c m),
          ap t.rank e,
        )
        impossible (inr (y, h, k)) =
            ground (arith, t.linked current c m, w.apart y k, text_eq.beq_iff current y)

    module _ (popped stack : List Text) (current : Text) (w : Walk popped (current ∷ stack)) where
      abbrev pushed : List Text
      pushed = reverse (children_of current nodes)

      -- What the loop has seen after a round: what it had seen before, and the new children.
      seen :
          (a : Text)
          → (contains (popped ++ current ∷ []) a || contains (pushed ++ stack) a) ≡ (
              contains (children_of current nodes) a
              || (contains popped a || contains (current ∷ stack) a))
      seen a = ground (
        arith,
        contains-append popped (current ∷ []) a,
        contains-append pushed stack a,
        contains-reverse (children_of current nodes) a,
      )

      top : (contains popped current || contains (current ∷ stack) current) ≡ true
      top = ground (arith, ==-refl current)

      apart :
          (a : Text)
          → contains (popped ++ current ∷ []) a ≡ true
          → contains (pushed ++ stack) a ≡ false
      apart a h = ground (
        arith,
        contains-append popped (current ∷ []) a,
        contains-append pushed stack a,
        contains-reverse (children_of current nodes) a,
        w.apart a,
        w.stacked_once,
        child_new popped stack current a w,
        text_eq.beq_iff current a,
      )

      child_or_old :
          (a : Text)
          → (contains (popped ++ current ∷ []) a || contains (pushed ++ stack) a) ≡ true
          → (contains (children_of current nodes) a ≡ true)
            ⊎ ((contains popped a || contains (current ∷ stack) a) ≡ true)
      child_or_old a h = ground (arith, seen a)

      there :
          (a : Text)
          → (contains (children_of current nodes) a ≡ true)
            ⊎ ((contains popped a || contains (current ∷ stack) a) ≡ true)
          → Table.has a nodes ≡ true
      there a (inl m) = ground (arith, t.linked current a m, t.orphan a)
      there a (inr old) = w.there a old

      follows :
          (a : Text)
          → (contains (children_of current nodes) a ≡ true)
            ⊎ ((contains popped a || contains (current ∷ stack) a) ≡ true)
          → Follows (popped ++ current ∷ []) a
      follows a (inl m) = inr (
        current,
        t.linked current a m,
        ground (arith, contains-append popped (current ∷ []) current, ==-refl current),
      )
      follows a (inr old) = Follows-mono popped current a (w.follows a old)

      descends :
          (a : Text)
          → (contains (children_of current nodes) a ≡ true)
            ⊎ ((contains popped a || contains (current ∷ stack) a) ≡ true)
          → Descendant nodes start a
      descends a (inl m) = below (w.descends current top) m
      descends a (inr old) = w.descends a old

      -- A round of the loop.
      pub Walk-round : Walk (popped ++ current ∷ []) (pushed ++ stack)
      Walk-round = record {
        popped_once =
            Distinct-append popped (current ∷ []) w.popped_once (refl, tt)
              (λ a m. ground (arith, w.apart a m));
        stacked_once =
            Distinct-append pushed stack
              (Distinct-reverse (children_of current nodes) (t.distinct current)) w.stacked_once.1
              (λ a m. ground (
                arith,
                contains-reverse (children_of current nodes) a,
                child_new popped stack current a w,
              ));
        apart = apart;
        there = λ a h. there a (child_or_old a h);
        follows = λ a h. follows a (child_or_old a h);
        ordered = Ordered-append [] popped current w.ordered (w.follows current top);
        descends = λ a h. descends a (child_or_old a h);
        first = rw (seen start) (ground (arith, w.first));
        closed = λ x c m k. rw (seen c) (
            ground (
              arith,
              contains-append popped (current ∷ []) x,
              text_eq.beq_iff current x,
              w.closed x c,
            ));
      }
