-- ===== src/Orchestration/Chains.antt =====
-- A chain is the sequence of its parts.
use puff.Common.{ℕ, ◌≡◌, refl, List, [], ◌∷◌, ◌++◌, Text, Result, ok, err, ◌⊎◌, inl, inr}
use puff.Errors.{AgentError}
use puff.Conversation.{new, add_user_message}
use puff.Orchestration.{ChainAgent, run_all, run}

Result-cases : {E A : Type 0} (r : Result E A) → ((x : A) × (r ≡ ok x)) ⊎ ((e : E) × (r ≡ err e))
Result-cases (ok x) = inl (x, refl)
Result-cases (err e) = inr (e, refl)

module _ (W : Type 0) where
  -- What the agents of a chain do with the outcome of those before them.
  abbrev pub continue :
      Text → List (ChainAgent W) → ℕ → Result AgentError Text × W → Result AgentError Text × W
  continue name agents now (ok text, w) = run W name agents now text w
  continue name agents now (err e, w) = (err e, w)

  run_all-append :
      (name : Text) (xs : List (ChainAgent W)) (b : ChainAgent W) (ys : List (ChainAgent W))
      (now : ℕ) (input : Text) (w : W)
      → run_all W (xs ++ b ∷ ys) now input w ≡ continue name (b ∷ ys) now (run_all W xs now input w)
  unfolding run_all run
  run_all-append name [] b ys now input w = refl
  run_all-append name (a ∷ xs) b ys now input w =
      let t = a.run_turn (add_user_message input now (new a.name [] now)) w in
      elim (Result-cases t.0) [
        | inl (text, e) ↦ rw e (run_all-append name xs b ys now text t.2)
        | inr (er, e) ↦ rw e refl
      ]

  -- Two chains that are not empty, one after the other, do what the chain of all their agents does: the second gets the
  -- output of the first, and does not run if the first fails.
  pub run-append :
      (name : Text) (a : ChainAgent W) (xs : List (ChainAgent W)) (b : ChainAgent W)
      (ys : List (ChainAgent W)) (now : ℕ) (input : Text) (w : W)
      → run W name ((a ∷ xs) ++ b ∷ ys) now input w
        ≡ continue name (b ∷ ys) now (run W name (a ∷ xs) now input w)
  unfolding run
  run-append name a xs b ys now input w = run_all-append name (a ∷ xs) b ys now input w
