-- ===== src/Mailbox/Node.antt =====
-- The node of an agent with a mailbox, and the replies that it gives.
use puff.Common.{
  ℕ, suc, ◌+◌, ◌%◌, ◌^◌, ◌≡◌, refl, ap, ◌∙◌, Bool, true, false, Option, none, some, List, [], ◌∷◌,
  Text, if◌then◌else◌, Result, ok, err, arith, Option-cases, inl, inr, ◌⊎◌, text_eq,
}
use puff.Common.Table
use puff.Errors.{AgentError}
use puff.Conversation.{Conversation}
use puff.Supervision.Node.{SupervisorNodeState, running, stopped, failed, stop, restart, Runtime}
use puff.Supervision.Core.{node_snapshot, set_node_state, record_failure}
use puff.Supervision.Reads.{
  Status, status, status_laws, status-transition_node, status-bump, with_state,
}
use puff.Mailbox.{
  Agent, send_user_message, get_conversation, Input, supervisor, mailbox, Settings, has_failed,
  Mailbox, persist, stop_mailbox, restart_mailbox, outcome, recover, serve_message, respond, run,
}

pub status-set_node_state :
    (id : Text) (st : SupervisorNodeState) (m : Option Text) (now : ℕ) (rt : Runtime)
    → status (set_node_state id st m now rt) id ≡ with_state st (status rt id)
unfolding set_node_state
status-set_node_state id st m now rt = status-transition_node id st m now rt

abbrev is_failed : SupervisorNodeState → Bool
is_failed failed = true
is_failed _ = false

abbrev failed_in : Option Status → Bool
failed_in none = false
failed_in (some n) = is_failed n.state

has_failed-status :
    (rt : Runtime) (id : Text) → has_failed (node_snapshot rt id) ≡ failed_in (status rt id)
unfolding has_failed node_snapshot
has_failed-status rt id = elim (Option-cases (Table.get id rt.nodes)) [
  | inl k ↦ rw k refl
  | inr (r, k) ↦ rw k refl
]

-- The inputs that the task takes before it ends: the restarts among them, and the requests.
abbrev pub restarts_in : List (Input × ℕ) → ℕ
restarts_in [] = 0
restarts_in ((supervisor (some restart), now) ∷ rest) = suc (restarts_in rest)
restarts_in ((mailbox (some m), now) ∷ rest) = restarts_in rest
restarts_in (_ ∷ rest) = 0

abbrev pub requests_in : List (Input × ℕ) → ℕ
requests_in [] = 0
requests_in ((supervisor (some restart), now) ∷ rest) = requests_in rest
requests_in ((mailbox (some m), now) ∷ rest) = suc (requests_in rest)
requests_in (_ ∷ rest) = 0

module _ (a : Agent) (c : Settings) where
  abbrev pub state_of : Mailbox a c → SupervisorNodeState
  state_of s = if s.ended then stopped else running

  -- The node is there, stopped if the task has ended and running if not.
  pub record Shows (s : Mailbox a c) (k : ℕ) : Type 0 where
    pub node : Status
    pub there : status s.runtime c.node_id ≡ some node
    pub state : node.state ≡ state_of s
    pub count : node.restart_count % 2 ^ 64 ≡ k % 2 ^ 64

  status-recover :
      (now : ℕ) (rt : Runtime) (n : Status)
      → status rt c.node_id ≡ some n
      → (n.state ≡ running) ⊎ (n.state ≡ failed)
      → status (recover a c now rt) c.node_id ≡ some (record n { state = running })
  unfolding recover
  status-recover now rt n h (inl e) =
      rw (has_failed-status rt c.node_id, h, e) (h ∙ ap (λ st. some (record n { state = st })) e)
  status-recover now rt n h (inr e) =
      rw (has_failed-status rt c.node_id, h, e)
        (status-set_node_state c.node_id running none now rt ∙ ap (with_state running) h)

  status-outcome :
      (turn : Result AgentError Text) (conversation : Conversation) (now : ℕ) (rt : Runtime)
      (n : Status)
      → status rt c.node_id ≡ some n
      → n.state ≡ running
      → status (recover a c now (outcome a c turn conversation now rt).1) c.node_id
        ≡ some (record n { state = running })
  unfolding outcome
  status-outcome (ok response) conversation now rt n h e = status-recover now rt n h (inl e)
  status-outcome (err error) conversation now rt n h e =
      status-recover now (record_failure c.node_id (a.display error) now rt)
        (record n { state = failed }) (simp (status_laws, h)) (inr refl)

  pub respond-Shows :
      (i : Input) (now k : ℕ) (s : Mailbox a c)
      → s.ended ≡ false
      → Shows s k
      → Shows (respond a c i now s) (k + restarts_in ((i, now) ∷ []))
  unfolding respond stop_mailbox restart_mailbox serve_message persist
  respond-Shows (supervisor none) now k s live h = record {
    node = record h.node { state = stopped };
    there = simp (status-set_node_state, h.there);
    state = refl;
    count = ground (arith, h.count);
  }
  respond-Shows (supervisor (some stop)) now k s live h = record {
    node = record h.node { state = stopped };
    there = simp (status-set_node_state, h.there);
    state = refl;
    count = ground (arith, h.count);
  }
  respond-Shows (supervisor (some restart)) now k s live h = record {
    node = record { state = running; restart_count = (h.node.restart_count + 1) % 2 ^ 64 };
    there = simp (status-set_node_state, status-bump, h.there);
    state = rw live refl;
    count = ground (arith, h.count);
  }
  respond-Shows (mailbox none) now k s live h = record {
    node = record h.node { state = stopped };
    there = simp (status-set_node_state, h.there);
    state = refl;
    count = ground (arith, h.count);
  }
  respond-Shows (mailbox (some (send_user_message message))) now k s live h = record {
    node = record h.node { state = running };
    there =
        status-outcome _ _ now s.runtime h.node h.there
          (h.state ∙ ap (λ b. if b then stopped else running) live);
    state = rw live refl;
    count = ground (arith, h.count);
  }
  respond-Shows (mailbox (some get_conversation)) now k s live h = record {
    node = h.node;
    there = h.there;
    state = h.state;
    count = ground (arith, h.count);
  }

  pub run_ended :
      (inputs : List (Input × ℕ)) (s : Mailbox a c) → s.ended ≡ true → run a c inputs s ≡ s
  unfolding run
  run_ended [] s h = refl
  run_ended (i ∷ inputs) s h = rw h refl

  pub run_live :
      (i : Input) (now : ℕ) (inputs : List (Input × ℕ)) (s : Mailbox a c)
      → s.ended ≡ false
      → run a c ((i, now) ∷ inputs) s ≡ run a c inputs (respond a c i now s)
  unfolding run
  run_live i now inputs s h = rw h refl
