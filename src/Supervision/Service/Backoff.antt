-- ===== src/Supervision/Service/Backoff.antt =====
-- How long the service loop sleeps before a restart.
use native.Mathlib.Nat.{pow-succ', add-zero, add-suc, suc-add, zero-add}
use Prim.Native.Nat.{min}
use puff.Common.{
  ℕ, suc, ◌+◌, ◌*◌, ◌^◌, ◌≤◌, ◌≡◌, refl, ◌∙◌, ap, true, List, [], ◌∷◌, Text, arith, length,
}
use puff.Supervision.Node.{Runtime, next_backoff}
use puff.Supervision.Service.{
  Input, exit_error, woke, Phase, serving, sleeping, ended, Service, Config, restarts_on_failure,
  launch, start, step, run, respond,
}

abbrev pub InRange : Phase → Type 0
InRange (serving b) = (250 ≤ b) × (b ≤ 30000)
InRange (sleeping b) = (250 ≤ b) × (b ≤ 30000)
InRange ended = Unit

next_backoff_bounds :
    (b : ℕ) → 250 ≤ b → b ≤ 30000 → (250 ≤ next_backoff b) × (next_backoff b ≤ 30000)
unfolding next_backoff
next_backoff_bounds b h k = ground arith

respond-InRange :
    (c : Config) (p : Phase) (i : Input) (now : ℕ) (s : Service)
    → s.phase ≡ p
    → InRange p
    → InRange (respond c p i now s).phase
unfolding respond
respond-InRange c (serving b) i now s e h = ground arith
respond-InRange c (sleeping b) i now s e h = ground (arith, next_backoff_bounds b)
respond-InRange c ended i now s e h = ground arith

run_from-InRange :
    (c : Config) (s : Service) (inputs : List (Input × ℕ))
    → InRange s.phase
    → InRange (run c s inputs).phase
unfolding run step
run_from-InRange c s [] h = h
run_from-InRange c s ((i, now) ∷ inputs) h =
    run_from-InRange c (step c s (i, now)) inputs (respond-InRange c s.phase i now s refl h)

-- Whatever happens to a service, its backoff stays between 250 ms and 30 s.
pub run-InRange :
    (c : Config) (now : ℕ) (rt : Runtime) (inputs : List (Input × ℕ))
    → InRange (run c (start c now rt) inputs).phase
run-InRange c now rt inputs =
    run_from-InRange c (start c now rt) inputs (unfold start in (omega arith, omega arith))

-- The inputs of a service that fails again and again and sleeps through each backoff.
abbrev pub failures : List (Text × ℕ) → List (Input × ℕ)
failures [] = []
failures ((error, now) ∷ rest) = (exit_error error, now) ∷ (woke, now) ∷ failures rest

next_backoff-min : (p : ℕ) → next_backoff (min (250 * p) 30000) ≡ min (250 * (2 * p)) 30000
unfolding next_backoff
next_backoff-min p = ground arith

abbrev backoff_after : ℕ → ℕ
backoff_after k = min (250 * 2 ^ k) 30000

-- One failure and the sleep after it.
failed_round :
    (c : Config) (s : Service) (b now : ℕ) (error : Text)
    → restarts_on_failure c.restart_policy ≡ true
    → s.phase ≡ serving b
    → (step c (step c s (exit_error error, now)) (woke, now)).phase ≡ serving (next_backoff b)
unfolding step respond launch
failed_round c s b now error r h = ground arith

backoff_after-suc : (k : ℕ) → next_backoff (backoff_after k) ≡ backoff_after (suc k)
backoff_after-suc k = rw pow-succ' (next_backoff-min (2 ^ k))

run_from_failures :
    (c : Config) (s : Service) (k : ℕ) (es : List (Text × ℕ))
    → restarts_on_failure c.restart_policy ≡ true
    → s.phase ≡ serving (backoff_after k)
    → (run c s (failures es)).phase ≡ serving (backoff_after (k + length es))
unfolding run
run_from_failures c s k [] r h = rw add-zero h
run_from_failures c s k ((error, now) ∷ es) r h =
    rw (add-suc k (length es), ← suc-add k (length es))
      (run_from_failures c (step c (step c s (exit_error error, now)) (woke, now)) (suc k) es r
        (failed_round c s _ now error r h ∙ ap serving (backoff_after-suc k)))

-- A service whose policy restarts it after a failure, and which fails n times in a row, serves again
-- with a backoff of 250 * 2^n ms, cut off at 30 s.
pub run-failures :
    (c : Config) (now : ℕ) (rt : Runtime) (es : List (Text × ℕ))
    → restarts_on_failure c.restart_policy ≡ true
    → (run c (start c now rt) (failures es)).phase ≡ serving (min (250 * 2 ^ length es) 30000)
run-failures c now rt es r =
    rw (← zero-add (length es))
      (run_from_failures c (start c now rt) 0 es r (unfold start launch in refl))
