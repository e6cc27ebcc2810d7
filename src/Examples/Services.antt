-- ===== src/Examples/Services.antt =====
-- A service that fails, sleeps and is stopped.
use puff.Common.{ℕ, some, List, [], ◌∷◌, codes, text_eq}
use puff.Supervision.Node.{Runtime, permanent, temporary, starting, stop}
use puff.Supervision.Reads.{Status}
use puff.Supervision.Service.{Input, command, exited, exit_error, woke, Config}
use puff.Examples.Tree.{after_calls}

abbrev flaky : Config
flaky = record { node_id = codes "service:s"; restart_policy = permanent }

abbrev once : Config
once = record { node_id = codes "service:s"; restart_policy = temporary }

abbrev runtime : Runtime
runtime = after_calls

abbrev starts : Status
starts = record { state = starting; restart_count = 0 }

abbrev inputs : List (Input × ℕ)
inputs =
    (exit_error (codes "boom"), 10)
    ∷ (woke, 11)
    ∷ (exited, 12)
    ∷ (woke, 13)
    ∷ (command (some stop), 14)
    ∷ []
