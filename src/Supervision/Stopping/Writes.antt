-- ===== src/Supervision/Stopping/Writes.antt =====
-- What a read sees after a node is stopped, and after a command is sent.
use mathlib.Core.Option
use puff.Common.{
  ℕ, ◌≡◌, refl, ◌∙◌, Option, none, [], ◌∷◌, ◌++◌, Text, if◌then◌else◌, ◌==◌, text_eq, arith,
}
use puff.Common.Table.{get-update}
use puff.Supervision.Node.{SupervisorNodeState, stopping, stopped, stop, Runtime}
use puff.Supervision.Core.{command_sender, transition_node, transition, emit_event}
use puff.Supervision.Control.{send, stop_now}
use puff.Supervision.Reads.{status, with_state, nodes-transition_node}

status-transition_node_at :
    (id : Text) (st : SupervisorNodeState) (m : Option Text) (now : ℕ) (rt : Runtime) (x : Text)
    → status (transition_node id st m now rt) x
      ≡ (if id == x then with_state st (status rt x) else status rt x)
unfolding transition
status-transition_node_at id st m now rt x =
    rw (nodes-transition_node id st m now rt)
      (ground (arith, get-update id x (transition st m now) rt.nodes))

command_sender-transition_node :
    (id : Text) (st : SupervisorNodeState) (m : Option Text) (now : ℕ) (rt : Runtime) (x : Text)
    → command_sender (transition_node id st m now rt) x ≡ command_sender rt x
unfolding transition command_sender Option.bind
command_sender-transition_node id st m now rt x =
    rw (nodes-transition_node id st m now rt)
      (ground (arith, get-update id x (transition st m now) rt.nodes))

sent-emit_event :
    (id : Text) (st : SupervisorNodeState) (m : Option Text) (now : ℕ) (rt : Runtime)
    → (transition_node id st m now rt).sent ≡ rt.sent
unfolding transition_node emit_event
sent-emit_event id st m now rt = ground arith

pub status-stop_now :
    (id : Text) (now : ℕ) (rt : Runtime) (x : Text)
    → status (stop_now id now rt) x
      ≡ (if id == x then with_state stopped (status rt x) else status rt x)
unfolding stop_now
status-stop_now id now rt x = ground (
  arith,
  status-transition_node_at id stopped none now (transition_node id stopping none now rt) x,
  status-transition_node_at id stopping none now rt x,
)

pub command_sender-stop_now :
    (id : Text) (now : ℕ) (rt : Runtime) (x : Text)
    → command_sender (stop_now id now rt) x ≡ command_sender rt x
unfolding stop_now
command_sender-stop_now id now rt x =
    command_sender-transition_node id stopped none now (transition_node id stopping none now rt) x
    ∙ command_sender-transition_node id stopping none now rt x

pub sent-stop_now : (id : Text) (now : ℕ) (rt : Runtime) → (stop_now id now rt).sent ≡ rt.sent
unfolding stop_now
sent-stop_now id now rt =
    sent-emit_event id stopped none now (transition_node id stopping none now rt)
    ∙ sent-emit_event id stopping none now rt

pub command_sender-send :
    (sender : ℕ) (rt : Runtime) (x : Text)
    → command_sender (send sender stop rt) x ≡ command_sender rt x
unfolding send command_sender
command_sender-send sender rt x = refl

pub status-send :
    (sender : ℕ) (rt : Runtime) (x : Text) → status (send sender stop rt) x ≡ status rt x
unfolding send
status-send sender rt x = refl

pub sent-send :
    (sender : ℕ) (rt : Runtime) → (send sender stop rt).sent ≡ rt.sent ++ (sender, stop) ∷ []
unfolding send
sent-send sender rt = refl
