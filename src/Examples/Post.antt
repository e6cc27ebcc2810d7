-- ===== src/Examples/Post.antt =====
-- An agent that fails once and answers otherwise.
use puff.Common.{ℕ, zero, suc, refl, none, some, List, [], ◌∷◌, Text, codes, true, ok, err, Result}
use puff.Errors.{AgentError, budget_exceeded}
use puff.Conversation.{Conversation}
use puff.Supervision.Node.{restart, stop}
use puff.Mailbox.{
  Agent, Settings, Input, supervisor, mailbox, send_user_message, get_conversation, begin, run,
}
use puff.Mailbox.Node.{Shows}
use puff.Mailbox.History.{run-Shows_node}
use puff.Examples.Tree.{after_calls, service_is_there}
use puff.Supervision.Node.{starting}

abbrev turn : Conversation → ℕ → Result AgentError Text × Conversation × ℕ
turn c zero = (err (budget_exceeded (codes "tool_calls") 1 1), c, 1)
turn c (suc n) = (ok (codes "hello"), c, suc n)

abbrev agent : Agent
agent = record { World = ℕ; run_turn = turn; display = λ e. codes "error" }

-- The node stands for that of an agent.
abbrev settings : Settings
settings = record { agent_name = codes "w"; node_id = codes "service:s"; persists = true }

abbrev inputs : List (Input × ℕ)
inputs =
    (mailbox (some (send_user_message (codes "one"))), 11)
    ∷ (supervisor (some restart), 12)
    ∷ (mailbox (some (send_user_message (codes "two"))), 13)
    ∷ (mailbox (some get_conversation), 14)
    ∷ (supervisor (some stop), 15)
    ∷ (mailbox (some get_conversation), 16)
    ∷ []

run-Shows_node_example :
    Shows agent settings (run agent settings inputs (begin agent settings none 0 10 after_calls)) 1
run-Shows_node_example =
    run-Shows_node agent settings none 0 10 after_calls
      (record { state = starting; restart_count = 0 }) inputs service_is_there refl
