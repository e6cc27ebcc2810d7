-- ===== src/Supervision/Reads.antt =====
-- What a read of the node map sees after each write.
use mathlib.Core.Option
use puff.Common.{ℕ, ◌+◌, ◌%◌, ◌^◌, ◌≡◌, Option, none, some, Text, arith, text_eq, ==-refl}
use puff.Common.Table
use puff.Common.Table.{Table, get-update}
use puff.Supervision.Node.{SupervisorNodeState, SupervisorEventKind, NodeRecord, Runtime, failed}
use puff.Supervision.Core.{
  emit_event, transition_node, transition, bump_restart_count, bump, record_failure, fail,
}

-- An event changes nothing but the log of events.
pub nodes-emit_event :
    (kind : SupervisorEventKind) (id : Text) (m : Option Text) (now : ℕ) (rt : Runtime)
    → (emit_event kind id m now rt).nodes ≡ rt.nodes
unfolding emit_event
nodes-emit_event kind id m now rt = ground arith

pub config-emit_event :
    (kind : SupervisorEventKind) (id : Text) (m : Option Text) (now : ℕ) (rt : Runtime)
    → (emit_event kind id m now rt).config ≡ rt.config
unfolding emit_event
config-emit_event kind id m now rt = ground arith

pub nodes-transition_node :
    (id : Text) (st : SupervisorNodeState) (m : Option Text) (now : ℕ) (rt : Runtime)
    → (transition_node id st m now rt).nodes ≡ Table.update id (transition st m now) rt.nodes
unfolding transition_node
nodes-transition_node id st m now rt = nodes-emit_event _ _ _ _ _

pub nodes-record_failure :
    (id error : Text) (now : ℕ) (rt : Runtime)
    → (record_failure id error now rt).nodes ≡ Table.update id (fail error now) rt.nodes
unfolding record_failure
nodes-record_failure id error now rt = nodes-emit_event _ _ _ _ _

-- The part of a node that the operations on one node write.
pub record Status : Type 0 where
  pub state : SupervisorNodeState
  pub restart_count : ℕ

abbrev pub status_of : NodeRecord → Status
status_of r = record { state = r.snapshot.state; restart_count = r.snapshot.restart_count }

abbrev pub status : Runtime → Text → Option Status
status rt id = Option.map status_of (Table.get id rt.nodes)

abbrev pub with_state : SupervisorNodeState → Option Status → Option Status
with_state st none = none
with_state st (some s) = some (record s { state = st })

abbrev pub with_bump : Option Status → Option Status
with_bump none = none
with_bump (some s) = some (record s { restart_count = (s.restart_count + 1) % 2 ^ 64 })

pub status-emit_event :
    (kind : SupervisorEventKind) (id j : Text) (m : Option Text) (now : ℕ) (rt : Runtime)
    → status (emit_event kind id m now rt) j ≡ status rt j
status-emit_event kind id j m now rt = rw (nodes-emit_event kind id m now rt)

pub status-transition_node :
    (id : Text) (st : SupervisorNodeState) (m : Option Text) (now : ℕ) (rt : Runtime)
    → status (transition_node id st m now rt) id ≡ with_state st (status rt id)
unfolding transition
status-transition_node id st m now rt =
    rw (nodes-transition_node id st m now rt)
      (ground (arith, get-update id id (transition st m now) rt.nodes, ==-refl id))

pub status-bump :
    (id : Text) (now : ℕ) (rt : Runtime)
    → status (bump_restart_count id now rt) id ≡ with_bump (status rt id)
unfolding bump_restart_count bump
status-bump id now rt = ground (arith, get-update id id (bump now) rt.nodes, ==-refl id)

pub status-record_failure :
    (id error : Text) (now : ℕ) (rt : Runtime)
    → status (record_failure id error now rt) id ≡ with_state failed (status rt id)
unfolding fail
status-record_failure id error now rt =
    rw (nodes-record_failure id error now rt)
      (ground (arith, get-update id id (fail error now) rt.nodes, ==-refl id))

pub ruleset status_laws =
    (status-emit_event, status-transition_node, status-bump, status-record_failure)
