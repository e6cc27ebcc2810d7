-- ===== src/Supervision/Service/Policy.antt =====
-- When the service loop ends, and the state of the node that it manages.
use puff.Common.{
  ℕ, ◌+◌, ◌%◌, ◌^◌, codes, Bool-cases, ◌≡◌, ◌↔◌, ◌⊎◌, inl, inr, refl, none, some, List, [], ◌∷◌,
  Text, arith,
}
use puff.Supervision.Node.{
  SupervisorNodeState, running, degraded, stopping, stopped, initial_backoff_ms, failed,
  RestartPolicy, permanent, temporary, stop, restart, Runtime, next_backoff,
}
use puff.Supervision.Core.{transition_node, bump_restart_count}
use puff.Supervision.Reads.{Status, status, status_laws}
use puff.Supervision.Service.{
  Input, command, exited, exit_error, join_error, woke, Phase, serving, sleeping, ended, Service,
  Config, restarts_on_exit, restarts_on_failure, launch, start, step, run, respond, on_exit,
  on_failure, schedule,
}

-- What ends a service that serves: a stop, a closed channel, or an exit that its policy lets stand.
abbrev pub Ends : RestartPolicy → Input → Type 0
Ends _ (command none) = Unit
Ends _ (command (some stop)) = Unit
Ends permanent exited = ⊥
Ends _ exited = Unit
Ends temporary (exit_error _) = Unit
Ends temporary (join_error _) = Unit
Ends _ _ = ⊥

-- A service that serves ends at an input exactly when its policy and the input say so.
pub step-Ends_iff :
    (c : Config) (s : Service) (b now : ℕ) (i : Input)
    → s.phase ≡ serving b
    → ((step c s (i, now)).phase ≡ ended) ↔ Ends c.restart_policy i
unfolding step respond launch restarts_on_exit restarts_on_failure
step-Ends_iff c s b now (command none) h = ground arith
step-Ends_iff c s b now (command (some stop)) h = ground arith
step-Ends_iff c s b now (command (some restart)) h = ground arith
step-Ends_iff c s b now exited h = by_policy c.restart_policy refl
  where
    by_policy :
        (p : RestartPolicy)
        → c.restart_policy ≡ p
        → ((step c s (exited, now)).phase ≡ ended) ↔ Ends p exited
    by_policy permanent e = ground arith
    by_policy _ e = ground arith
step-Ends_iff c s b now (exit_error error) h = ground arith
step-Ends_iff c s b now (join_error error) h = ground arith
step-Ends_iff c s b now woke h = ground arith

-- The state in which each wait leaves the node.
abbrev pub Agrees : Phase → SupervisorNodeState → Type 0
Agrees (serving _) st = st ≡ running
Agrees (sleeping _) st = (st ≡ degraded) ⊎ (st ≡ failed)
Agrees ended st = (st ≡ stopped) ⊎ (st ≡ failed)

-- A restart that is counted and not yet made.
abbrev pub due : Phase → ℕ
due (sleeping _) = 1
due _ = 0

-- The node is there, in the state of the phase, and its count is that of the launches after the first.
abbrev pub Shows : Text → Service → Type 0
Shows id s =
    (n : Status) × (status s.runtime id ≡ some n)
    × Agrees s.phase n.state
    × ((n.restart_count + 1) % 2 ^ 64 ≡ (s.launches + due s.phase) % 2 ^ 64)

abbrev moved : SupervisorNodeState → Status → Status
moved st n = record n { state = st }

abbrev counted : SupervisorNodeState → Status → Status
counted st n = record { state = st; restart_count = (n.restart_count + 1) % 2 ^ 64 }

launch-Shows :
    (c : Config) (b now : ℕ) (s : Service) (n : Status)
    → status s.runtime c.node_id ≡ some n
    → (n.restart_count + 1) % 2 ^ 64 ≡ (s.launches + 1) % 2 ^ 64
    → Shows c.node_id (launch c b now s)
unfolding launch
launch-Shows c b now s n h r = (moved running n, simp (status_laws, h), refl, omega arith)

on_exit-Shows :
    (c : Config) (b now : ℕ) (s : Service)
    → s.phase ≡ serving b
    → Shows c.node_id s
    → Shows c.node_id (on_exit c b now s)
unfolding on_exit
on_exit-Shows c b now s e (n, h, a, r) = elim (Bool-cases (restarts_on_exit c.restart_policy)) [
  | inl again ↦ rw again (counted degraded n, simp (status_laws, h), inl refl, ground arith)
  | inr over ↦ rw over (moved stopped n, simp (status_laws, h), inl refl, ground arith)
]

on_failure-Shows :
    (c : Config) (b now : ℕ) (error : Text) (s : Service)
    → s.phase ≡ serving b
    → Shows c.node_id s
    → Shows c.node_id (on_failure c b error now s)
unfolding on_failure
on_failure-Shows c b now error s e (n, h, a, r) =
    elim (Bool-cases (restarts_on_failure c.restart_policy)) [
      | inl again ↦ rw again (counted failed n, simp (status_laws, h), inr refl, ground arith)
      | inr over ↦ rw over (moved failed n, simp (status_laws, h), inr refl, ground arith)
    ]

respond-Shows :
    (c : Config) (p : Phase) (i : Input) (now : ℕ) (s : Service)
    → s.phase ≡ p
    → Shows c.node_id s
    → Shows c.node_id (respond c p i now s)
unfolding respond
respond-Shows c (serving b) (command none) now s e (n, h, a, r) =
    (moved stopped n, simp (status_laws, h), inl refl, ground arith)
respond-Shows c (serving b) (command (some stop)) now s e (n, h, a, r) =
    (moved stopped n, simp (status_laws, h), inl refl, ground arith)
respond-Shows c (serving b) (command (some restart)) now s e (n, h, a, r) =
    launch-Shows c initial_backoff_ms now
      (record s {
        runtime = schedule c (codes "explicit restart requested") now (
            bump_restart_count c.node_id now
              (transition_node c.node_id stopping none now s.runtime));
      })
      (counted stopping n) (simp (status_laws, h)) (ground arith)
respond-Shows c (serving b) exited now s e h = on_exit-Shows c b now s e h
respond-Shows c (serving b) (exit_error error) now s e h = on_failure-Shows c b now error s e h
respond-Shows c (serving b) (join_error error) now s e h = on_failure-Shows c b now error s e h
respond-Shows c (sleeping b) woke now s e (n, h, a, r) =
    launch-Shows c (next_backoff b) now s n h (ground arith)
respond-Shows c _ _ now s e h = h

run_from-Shows :
    (c : Config) (s : Service) (inputs : List (Input × ℕ))
    → Shows c.node_id s
    → Shows c.node_id (run c s inputs)
unfolding run step
run_from-Shows c s [] h = h
run_from-Shows c s ((i, now) ∷ inputs) h =
    run_from-Shows c (step c s (i, now)) inputs (respond-Shows c s.phase i now s refl h)

-- The node of a service that started with a restart count of 0 is, after any inputs, in the state of
-- the loop's phase: Running in `select!`, Degraded or Failed in a sleep, Stopped or Failed at the
-- end. Its restart count is the number of launches after the first, one more in a sleep, mod 2^64.
pub run-Shows :
    (c : Config) (now : ℕ) (rt : Runtime) (n : Status) (inputs : List (Input × ℕ))
    → status rt c.node_id ≡ some n
    → n.restart_count ≡ 0
    → Shows c.node_id (run c (start c now rt) inputs)
run-Shows c now rt n inputs h z = run_from-Shows c (start c now rt) inputs (
    unfold start in
    launch-Shows c initial_backoff_ms now
      (record { phase = serving initial_backoff_ms; launches = 0; runtime = rt }) n h (omega arith))
