-- ===== src/Examples/Halted.antt =====
-- An agent of this process, with a mailbox and a supervisor that are numbers, which is stopped by its name.
use puff.Common.{
  text_eq, text_beq, ℕ, ◌+◌, ◌≡◌, refl, true, false, none, some, [], ◌∷◌, codes, ok, err, contains,
}
use puff.Common.Table as Table
use puff.Errors.{tool_not_found}
use puff.Common.Sorted.{find_key}
use puff.Common.Json.{null}
use puff.Supervision.Node.{
  SupervisorNodeSnapshot, SupervisorNodeKind, SupervisorNodeState, RestartPolicy,
}
use puff.Registry.{
  AgentRegistryEntry, AgentRegistryKind, new, with_supervisor_node_id, get, resolve,
}
use puff.Registry.Remote.{mailbox_unavailable}
use puff.Registry.Messages.{Services, State, lookup_mailbox}
use puff.Registry.Messages.Targets.{stop_target}
use puff.Registry.Messages.Targets.Stopping.{stop_target_unregisters}
use puff.Examples.Remotes.{memory}

abbrev ada : AgentRegistryEntry
ada =
    with_supervisor_node_id (codes "n")
      (new (codes "agent/ada") AgentRegistryKind.agent_instance (codes "ada") 0)

abbrev halted : SupervisorNodeSnapshot
halted = record {
  node_id = codes "n";
  parent_id = none;
  kind = SupervisorNodeKind.agent_instance;
  display_name = codes "Ada";
  state = SupervisorNodeState.stopped;
  restart_policy = RestartPolicy.temporary;
  restart_count = 0;
  dynamic = false;
  configured_agent = none;
  supervisor_agent = none;
  workers = [];
  max_children = none;
  last_error = none;
  last_failure_at = none;
  started_at = none;
  updated_at = 9;
  children = [];
  metadata = null;
}

abbrev services : Services ℕ ℕ
services = record {
  World = ℕ;
  send_to = λ m t w. (w, err (tool_not_found t));
  conversation_of = λ m w. (w, err (tool_not_found []));
  stops = λ s id w. (w + s, ok halted);
  restarts = λ s id w. (w, err (codes "no"));
  has_postgres = false;
  load_conversation_snapshot = λ k w. (w, ok none);
  decode_conversation = λ t. err t;
}

abbrev state : State ℕ ℕ memory services
state = record {
  store = λ k. [];
  world = 3;
  registry = record {
    inner = (codes "agent/ada", ada) ∷ [];
    controls =
        (
          codes "agent/ada",
          record {
            mailbox = some 1;
            supervisor = some (record { node_id = codes "n"; supervisor = 4 });
            mailbox_bridge_started = true;
            control_bridge_started = true;
          },
        )
        ∷ [];
    has_redis = true;
    owner_id = codes "me";
    leased_keys = codes "agent/ada" ∷ [];
    spawned = [];
  };
}

stop_target_unregisters_example :
    ((stop_target ℕ ℕ memory services
        (λ t m. m)
        (λ t. t + 50)
        (codes "r")
        9
        0
        (codes "ada")
        state).1
      ≡ some (ok halted))
    × (get ℕ ℕ
          (codes "agent/ada")
          (stop_target ℕ ℕ memory services
            (λ t m. m)
            (λ t. t + 50)
            (codes "r")
            9
            0
            (codes "ada")
            state).0.registry
        ≡ none)
    × (lookup_mailbox ℕ ℕ memory services
          (codes "agent/ada")
          (stop_target ℕ ℕ memory services
            (λ t m. m)
            (λ t. t + 50)
            (codes "r")
            9
            0
            (codes "ada")
            state).0.registry
        ≡ err (mailbox_unavailable (codes "agent/ada")))
    × (contains
          (stop_target ℕ ℕ memory services
            (λ t m. m)
            (λ t. t + 50)
            (codes "r")
            9
            0
            (codes "ada")
            state).0.registry.leased_keys
          (codes "agent/ada")
        ≡ false)
    × ((stop_target ℕ ℕ memory services
          (λ t m. m)
          (λ t. t + 50)
          (codes "r")
          9
          0
          (codes "ada")
          state).0.store
        ≡ (λ k. []))
unfolding resolve get find_key text_beq new with_supervisor_node_id Table.get
stop_target_unregisters_example =
    stop_target_unregisters ℕ ℕ memory services (λ t m. m) (λ t. t + 50) (codes "r") 9 0
      (codes "ada") state ada (record { node_id = codes "n"; supervisor = 4 }) halted (tt, tt) refl
      refl refl
