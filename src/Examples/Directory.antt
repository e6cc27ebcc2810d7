-- ===== src/Examples/Directory.antt =====
-- A registry whose mailboxes and supervisors are numbers.
use puff.Common.{ℕ, ◌≡◌, true, false, none, List, [], ◌∷◌, codes, text_eq}
use puff.Registry.{
  AgentRegistryEntry, new, with_supervisor_node_id, with_backends, get, AgentRegistryKind,
}
use puff.Registry.Entries.{
  Op, registers, registers_mailbox, unregisters, leases, run, view_run, get-run,
}
use puff.Registry.Counts.{bridges}
use puff.Registry.Bridges.{first_registered, bridges-first_registered}

abbrev ada : AgentRegistryEntry
ada = new (codes "agent/ada") AgentRegistryKind.configured_agent (codes "ada") 0

abbrev bob : AgentRegistryEntry
bob =
    with_supervisor_node_id (codes "n")
      (new (codes "agent/bob") AgentRegistryKind.agent_instance (codes "bob") 0)

abbrev desk : AgentRegistryEntry
desk = new (codes "desk") AgentRegistryKind.service (codes "desk") 0

-- Ada's mailbox is registered, Ada leaves, and another mailbox is registered for her.
abbrev history : List (ℕ × Op ℕ ℕ)
history =
    (1, registers desk)
    ∷ (2, registers_mailbox bob 10 20)
    ∷ (3, registers_mailbox ada 11 21)
    ∷ (4, leases (codes "agent/ada"))
    ∷ (5, registers_mailbox ada 11 21)
    ∷ (6, unregisters (codes "agent/ada"))
    ∷ (7, registers_mailbox ada 12 21)
    ∷ []

get-run_example :
    get ℕ ℕ (codes "agent/ada") (run ℕ ℕ history (with_backends ℕ ℕ true (codes "me")))
    ≡ view_run ℕ ℕ history (λ k. none) (codes "agent/ada")
get-run_example = get-run ℕ ℕ true (codes "me") history (codes "agent/ada")

bridges-first_registered_example :
    bridges ℕ ℕ (codes "agent/ada") (run ℕ ℕ history (with_backends ℕ ℕ true (codes "me")))
    ≡ first_registered ℕ ℕ (codes "agent/ada") false history
bridges-first_registered_example =
    bridges-first_registered ℕ ℕ (codes "agent/ada") (codes "me") history
