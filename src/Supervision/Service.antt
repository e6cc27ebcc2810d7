-- ===== src/Supervision/Service.antt =====
-- src/supervision.rs: the loop that `spawn_service_task` spawns for one service. Each of its waits
-- ends by an input, and a step runs from one wait to the next. While the loop sleeps it reads no
-- command: a command sent then stays in the channel for a later `select!`.
pub mod Backoff
pub mod Policy
use puff.Common.{
  ℕ, suc, ◌+◌, Bool, true, false, not, Option, none, some, List, [], ◌∷◌, Text, codes,
  if◌then◌else◌,
}
use puff.Supervision.Node.{
  starting, running, degraded, stopping, stopped, RestartPolicy, permanent, transient, temporary,
  restart_scheduled, SupervisorCommand, stop, restart, Runtime, initial_backoff_ms, next_backoff,
}
use puff.Supervision.Core.{emit_event, transition_node, bump_restart_count, record_failure}

-- `ServiceOutcome`, and the end of the sleep. An error comes with its text.
pub data Input : Type 0 where
  command : Option SupervisorCommand → Input
  exited : Input
  exit_error join_error : Text → Input
  woke : Input

-- Where the loop waits, with the current backoff: in `select!`, in `sleep`, or no more.
pub data Phase : Type 0 where
  serving sleeping : ℕ → Phase
  ended : Phase

-- `launches` counts the calls of `factory`.
pub record Service : Type 0 where
  pub phase : Phase
  pub launches : ℕ
  pub runtime : Runtime

pub record Config : Type 0 where
  pub node_id : Text
  pub restart_policy : RestartPolicy

-- `matches!(restart_policy, RestartPolicy::Permanent)`
unfoldable pub restarts_on_exit : RestartPolicy → Bool
restarts_on_exit permanent = true
restarts_on_exit _ = false

-- `!matches!(restart_policy, RestartPolicy::Temporary)`
unfoldable pub restarts_on_failure : RestartPolicy → Bool
restarts_on_failure temporary = false
restarts_on_failure _ = true

-- The top of the loop, up to `select!`.
unfoldable pub launch : Config → ℕ → ℕ → Service → Service
launch c backoff now s = record {
  phase = serving backoff;
  launches = suc s.launches;
  runtime =
      transition_node c.node_id running none now
        (transition_node c.node_id starting none now s.runtime);
}

unfoldable pub start : Config → ℕ → Runtime → Service
unfolding launch
start c now rt =
    launch c initial_backoff_ms now
      (record { phase = serving initial_backoff_ms; launches = 0; runtime = rt })

shut_down : Config → ℕ → Service → Service
shut_down c now s = record s {
  phase = ended;
  runtime =
      transition_node c.node_id stopped none now
        (transition_node c.node_id stopping none now s.runtime);
}

schedule : Config → Text → ℕ → Runtime → Runtime
schedule c message now rt = emit_event restart_scheduled c.node_id (some message) now rt

explicit_restart : Config → ℕ → Service → Service
unfolding launch schedule
explicit_restart c now s = launch c initial_backoff_ms now (record s {
  runtime =
      schedule c (codes "explicit restart requested") now
        (bump_restart_count c.node_id now (transition_node c.node_id stopping none now s.runtime));
})

on_exit : Config → ℕ → ℕ → Service → Service
unfolding restarts_on_exit schedule
on_exit c backoff now s =
    if restarts_on_exit c.restart_policy
    then record s {
      phase = sleeping backoff;
      runtime = schedule c (codes "service exited cleanly") now (
          transition_node c.node_id degraded (some (codes "service exited cleanly; restarting")) now
            (bump_restart_count c.node_id now s.runtime));
    }
    else record s { phase = ended; runtime = transition_node c.node_id stopped none now s.runtime }

on_failure : Config → ℕ → Text → ℕ → Service → Service
unfolding restarts_on_failure schedule
on_failure c backoff error now s =
    let after = record_failure c.node_id error now s.runtime in
    if restarts_on_failure c.restart_policy
    then record s {
      phase = sleeping backoff;
      runtime = schedule c error now (bump_restart_count c.node_id now after);
    }
    else record s { phase = ended; runtime = after }

-- What the loop does with an input where it waits. The other inputs do not end that wait.
respond : Config → Phase → Input → ℕ → Service → Service
unfolding shut_down explicit_restart on_exit on_failure
respond c (serving backoff) (command none) now s = shut_down c now s
respond c (serving backoff) (command (some stop)) now s = shut_down c now s
respond c (serving backoff) (command (some restart)) now s = explicit_restart c now s
respond c (serving backoff) exited now s = on_exit c backoff now s
respond c (serving backoff) (exit_error error) now s = on_failure c backoff error now s
respond c (serving backoff) (join_error error) now s = on_failure c backoff error now s
respond c (sleeping backoff) woke now s = launch c (next_backoff backoff) now s
respond c _ _ now s = s

unfoldable pub step : Config → Service → Input × ℕ → Service
unfolding respond
step c s (input, now) = respond c s.phase input now s

unfoldable pub run : Config → Service → List (Input × ℕ) → Service
unfolding step
run c s [] = s
run c s (i ∷ inputs) = run c (step c s i) inputs
