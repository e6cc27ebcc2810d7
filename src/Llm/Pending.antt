-- ===== src/Llm/Pending.antt =====
-- An index of the tool calls that are pending stays within them.
use mathlib.Core.Option
use puff.Common.{
  ℕ, zero, suc, ◌<◌, ◌≡◌, refl, Option, none, some, List, [], ◌∷◌, Text, length, arith, if_keeps,
  ◌==◌, text_eq,
}
use puff.Llm.{PendingToolCall, position, target_idx, extend_at, extend}

abbrev pub InRange : Option ℕ → List PendingToolCall → Type 0
InRange none pending = Unit
InRange (some i) pending = i < length pending

pub InRange-suc :
    (o : Option ℕ) (tc : PendingToolCall) (more : List PendingToolCall)
    → InRange o more
    → InRange (Option.map suc o) (tc ∷ more)
InRange-suc none tc more h = tt
InRange-suc (some i) tc more h = omega arith

pub position-InRange :
    (id : Text) (pending : List PendingToolCall) → InRange (position id pending) pending
unfolding position
position-InRange id [] = tt
position-InRange id (tc ∷ more) =
    if_keeps (λ o. InRange o (tc ∷ more)) (tc.id == id) (omega arith)
      (InRange-suc (position id more) tc more (position-InRange id more))

pub target_idx-InRange :
    (id : Text) (current : Option ℕ) (pending : List PendingToolCall)
    → InRange current pending
    → InRange (target_idx id current pending) pending
unfolding target_idx
target_idx-InRange [] current pending h = h
target_idx-InRange (c ∷ id) current pending h = position-InRange (c ∷ id) pending

pub length-extend_at :
    (i : ℕ) (s : Text) (pending : List PendingToolCall)
    → length (extend_at i s pending) ≡ length pending
unfolding extend_at
length-extend_at i s [] = refl
length-extend_at zero s (tc ∷ more) = refl
length-extend_at (suc i) s (tc ∷ more) = omega (arith, length-extend_at i s more)

pub extend-InRange :
    (current target : Option ℕ) (s : Text) (pending : List PendingToolCall)
    → InRange current pending
    → InRange current (extend target s pending)
unfolding extend
extend-InRange none target s pending h = tt
extend-InRange (some i) none s pending h = h
extend-InRange (some i) (some j) s pending h = omega (arith, length-extend_at j s pending)
