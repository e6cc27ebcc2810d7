-- ===== src/TaskQueue/History.antt =====
-- What workers are handed over a history of the queue.
use mathlib.Core.Path.{subst}
use puff.Common.{
  ℕ, ◌+◌, ◌-◌, ◌≤◌, ◌<◌, ◌≡◌, ◌≢◌, refl, ap, Bool, true, false, none, some, List, [], ◌∷◌, Text,
  arith, Result, All, count, ◌==◌, text_eq, text_beq_iff, Bool-cases, inl, inr,
}
use puff.Common.Json.{Json}
use puff.TaskQueue.{Task, Backend, Found, found, found_of, add_task, finish_task, pages}
use puff.TaskQueue.Redis.{Laws}
use puff.TaskQueue.Claims.{Effect, Does, claims, locked_at, add_task-Effect, finish_task-Effect}
use puff.TaskQueue.Scans.{pages-Effect}

-- An operation that some client or worker calls. A pass has its fuel and its page size.
pub data Call : Type 0 where
  adds : Task → Bool → Call
  finishes : Text → Result Text Json → ℕ → Call
  passes : ℕ → ℕ → Call

module _ (b : Backend) (queue_name : Text) where
  -- The operation at a time, and the item that it returns, if it returns one.
  unfoldable pub call : ℕ → Call → b.Store → b.Store × Found b queue_name
  call now (adds t trigger) s = (add_task b queue_name t trigger s, none)
  call now (finishes item result keep) s = (finish_task b queue_name item result keep now s, none)
  call now (passes fuel tasks_per_loop) s =
      found_of b queue_name (pages b queue_name fuel tasks_per_loop now 0 s)

  -- The item in front of others, if there is one.
  abbrev pub with_item : Found b queue_name → List Text → List Text
  with_item none items = items
  with_item (some (item, t)) items = item ∷ items

  -- The items that are returned, in their order.
  unfoldable pub returned : List (ℕ × Call) → b.Store → List Text
  unfolding call
  returned [] s = []
  returned ((now, c) ∷ more) s = let (s1, r) = call now c s in with_item r (returned more s1)

-- The times go on from one and stay below the other.
abbrev pub Within : ℕ → ℕ → List (ℕ × Call) → Type 0
Within from until [] = Unit
Within from until ((now, c) ∷ more) = (from ≤ now) × (now < until) × Within now until more

module _ (b : Backend) (l : Laws b) (queue_name : Text) (k : Text) where
  call-Effect :
      (now : ℕ) (c : Call) (s : b.Store) → Does b l queue_name k now s (call b queue_name now c s)
  unfolding call
  call-Effect now (adds t trigger) s = add_task-Effect b l queue_name k t trigger now s
  call-Effect now (finishes item result keep) s =
      finish_task-Effect b l queue_name k item result keep now s
  call-Effect now (passes fuel tasks_per_loop) s =
      pages-Effect b l queue_name k fuel tasks_per_loop now 0 s

  -- The item is locked from one time to another.
  abbrev Held : ℕ → ℕ → b.Store → Type 0
  Held from until s = (t : ℕ) → from ≤ t → t < until → locked_at b l queue_name k t s ≡ true

  not_returned :
      (r : Found b queue_name) (items : List Text)
      → ((task : Task) → r ≡ some (k, task) → ⊥)
      → All (λ i. i ≢ k) items
      → All (λ i. i ≢ k) (with_item b queue_name r items)
  not_returned none items h a = a
  not_returned (some (item, t)) items h a = (λ e. h t (cc), a)

  both_ways : {c : Bool} → c ≡ true → c ≡ false → ⊥
  both_ways h h' = cc

  held_to_the_end :
      (from until : ℕ) (calls : List (ℕ × Call)) (s : b.Store)
      → Held from until s
      → Within from until calls
      → All (λ i. i ≢ k) (returned b queue_name calls s)
  unfolding returned
  held_to_the_end from until [] s held w = tt
  held_to_the_end from until ((now, c) ∷ more) s held (le, lt, w) =
      let f = call-Effect now c s in
      let (s1, r) = call b queue_name now c s in
      not_returned r (returned b queue_name more s1)
        (λ task e. both_ways (held now le lt) (f.returns task e).0)
        (held_to_the_end now until more s1 (λ t le' lt'. f.keeps t le' (held t (omega arith) lt'))
          w)

  -- Where the store keeps the laws, after a pass has returned an item, no operation of the queue at a time
  -- from then on and before the timeout of its task is over returns it.
  pub handed_out_again :
      (fuel tasks_per_loop now : ℕ) (s s1 : b.Store) (task : Task) (calls : List (ℕ × Call))
      → pages b queue_name fuel tasks_per_loop now 0 s ≡ (s1, found k task)
      → Within now (now + task.timeout_ms) calls
      → All (λ i. i ≢ k) (returned b queue_name calls s1)
  handed_out_again fuel tasks_per_loop now s s1 task calls e w =
      let f : Effect b l queue_name k now s s1 (some (k, task)) =
        subst (λ p. Does b l queue_name k now s (found_of b queue_name p)) e
          (pages-Effect b l queue_name k fuel tasks_per_loop now 0 s) in
      held_to_the_end now (now + task.timeout_ms) calls s1 (f.returns task refl).3 w

  -- One more claim for one more return.
  count-with_item :
      (r : Found b queue_name) (items : List Text) (before after : ℕ)
      → before ≤ after
      → ((task : Task) → r ≡ some (k, task) → (before < after) × (after ≤ 3))
      → count (λ i. i == k) items ≤ 3 - after
      → count (λ i. i == k) (with_item b queue_name r items) ≤ 3 - before
  count-with_item none items before after le h below = omega arith
  count-with_item (some (item, t)) items before after le h below = elim (Bool-cases (item == k)) [
    | inl same ↦
        let is_k = (text_beq_iff item k).0 same in
        let (more, few) = h t (ap (λ i. some (i, t)) is_k) in rw same (omega arith)
    | inr other ↦ rw other (omega arith)
  ]

  count-returned :
      (calls : List (ℕ × Call)) (s : b.Store)
      → count (λ i. i == k) (returned b queue_name calls s) ≤ 3 - claims b l queue_name k s
  unfolding returned
  count-returned [] s = omega arith
  count-returned ((now, c) ∷ more) s =
      let f = call-Effect now c s in
      let (s1, r) = call b queue_name now c s in
      count-with_item r (returned b queue_name more s1) (claims b l queue_name k s)
        (claims b l queue_name k s1) f.counts
        (λ task e. ((f.returns task e).1, (f.returns task e).2)) (count-returned more s1)

  -- Where the store keeps the laws, an item whose count of claims is 0 is returned by passes three times at
  -- most over any operations of the queue.
  pub count-returned_le :
      (calls : List (ℕ × Call)) (s : b.Store)
      → claims b l queue_name k s ≡ 0
      → count (λ i. i == k) (returned b queue_name calls s) ≤ 3
  count-returned_le calls s h = omega (arith, count-returned calls s, h)
