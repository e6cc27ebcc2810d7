-- ===== src/Mailbox.antt =====
-- src/agents/mailbox.rs: the task of one supervised agent, which serves the messages of its mailbox and
-- the commands of the supervisor. A turn of the agent is a parameter. An input ends a `select!`.
pub mod Node
pub mod History
use mathlib.Core.Option
use puff.Common.{
  ℕ, suc, ◌+◌, Bool, true, false, Option, none, some, List, [], ◌∷◌, ◌++◌, Text, codes, length,
  if◌then◌else◌, Result, ok, err,
}
use puff.Errors.{AgentError}
use puff.Conversation.{Conversation, new, with_id, add_user_message}
use puff.Supervision.Node.{
  SupervisorNodeSnapshot, SupervisorNodeState, starting, running, stopping, stopped, failed,
  SupervisorCommand, stop, restart, Runtime,
}
use puff.Supervision.Core.{node_snapshot, set_node_state, bump_restart_count, record_failure}

-- `Agent::run_turn`, over the world of its model and tools, and the display of an error.
pub record Agent : Type 1 where
  pub World : Type 0
  pub run_turn : Conversation → World → Result AgentError Text × Conversation × World
  pub display : AgentError → Text

pub record AgentMessageResponse : Type 0 where
  pub agent : Text
  pub conversation_id : Text
  pub response : Text
  pub message_count : ℕ

pub data AgentMailboxCommand : Type 0 where
  send_user_message : Text → AgentMailboxCommand
  get_conversation : AgentMailboxCommand

-- What is sent on a `respond_to`.
pub data Reply : Type 0 where
  responds : Result AgentError AgentMessageResponse → Reply
  shows : Conversation → Reply

pub data Input : Type 0 where
  supervisor : Option SupervisorCommand → Input
  mailbox : Option AgentMailboxCommand → Input

pub record Settings : Type 0 where
  pub agent_name : Text
  pub node_id : Text
  pub persists : Bool

-- `matches!(.., Failed)` of the node, if it is there.
unfoldable pub has_failed : Option SupervisorNodeSnapshot → Bool
has_failed none = false
has_failed (some n) = elim n.state [ failed ↦ true | _ ↦ false ]

module _ (a : Agent) (c : Settings) where
  -- `saved` has the conversations given to the database, `replies` the answers, oldest first.
  pub record Mailbox : Type 0 where
    pub ended : Bool
    pub conversation : Conversation
    pub world : a.World
    pub runtime : Runtime
    pub saved : List Conversation
    pub replies : List Reply

  -- `Conversation::new(&agent_name).with_id(node_id)`
  unfoldable pub empty_conversation : ℕ → Conversation
  unfolding new with_id
  empty_conversation now = with_id c.node_id (new c.agent_name [] now)

  -- `save_conversation_snapshot`, whose failure is only logged.
  unfoldable pub persist : Mailbox → Mailbox
  persist s = record s { saved = if c.persists then s.saved ++ s.conversation ∷ [] else s.saved }

  -- The task up to its loop, with the conversation that was loaded, if there is one.
  unfoldable pub begin : Option Conversation → a.World → ℕ → Runtime → Mailbox
  unfolding empty_conversation
  begin loaded w now rt = record {
    ended = false;
    conversation = elim loaded [ none ↦ empty_conversation now | some conversation ↦ conversation ];
    world = w;
    runtime = set_node_state c.node_id running none now rt;
    saved = [];
    replies = [];
  }

  unfoldable pub stop_mailbox : ℕ → Mailbox → Mailbox
  stop_mailbox now s = record s {
    ended = true;
    runtime =
        set_node_state c.node_id stopped none now
          (set_node_state c.node_id stopping none now s.runtime);
  }

  unfoldable pub restart_mailbox : ℕ → Mailbox → Mailbox
  unfolding empty_conversation persist
  restart_mailbox now s =
      let reset = record s {
        conversation = empty_conversation now;
        runtime = bump_restart_count c.node_id now (
            set_node_state c.node_id starting (some (codes "explicit restart requested")) now
              s.runtime);
      } in
      let kept = persist reset in
      record kept { runtime = set_node_state c.node_id running none now kept.runtime }

  -- The outcome of a turn: the response, or the failure that is recorded.
  unfoldable pub outcome :
      Result AgentError Text
      → Conversation
      → ℕ
      → Runtime
      → Result AgentError AgentMessageResponse × Runtime
  outcome (ok response) conversation now rt = (
    ok (record {
      agent = c.agent_name;
      conversation_id = conversation.id;
      response = response;
      message_count = length conversation.messages;
    }),
    rt,
  )
  outcome (err error) conversation now rt =
      (err error, record_failure c.node_id (a.display error) now rt)

  unfoldable pub recover : ℕ → Runtime → Runtime
  unfolding has_failed
  recover now rt =
      if has_failed (node_snapshot rt c.node_id)
      then set_node_state c.node_id running none now rt
      else rt

  unfoldable pub serve_message : Text → ℕ → Mailbox → Mailbox
  unfolding outcome persist recover add_user_message
  serve_message message now s =
      let (turn, conversation, w) =
        a.run_turn (add_user_message message now s.conversation) s.world in
      let (result, rt) = outcome turn conversation now s.runtime in
      let kept = persist (record s { conversation = conversation; world = w; runtime = rt }) in
      record kept {
        replies = kept.replies ++ responds result ∷ [];
        runtime = recover now kept.runtime;
      }

  unfoldable pub respond : Input → ℕ → Mailbox → Mailbox
  unfolding stop_mailbox restart_mailbox serve_message
  respond (supervisor none) now s = stop_mailbox now s
  respond (supervisor (some stop)) now s = stop_mailbox now s
  respond (supervisor (some restart)) now s = restart_mailbox now s
  respond (mailbox none) now s = record s {
    ended = true;
    runtime = set_node_state c.node_id stopped none now s.runtime;
  }
  respond (mailbox (some (send_user_message message))) now s = serve_message message now s
  respond (mailbox (some get_conversation)) now s = record s {
    replies = s.replies ++ shows s.conversation ∷ [];
  }

  unfoldable pub run : List (Input × ℕ) → Mailbox → Mailbox
  unfolding respond
  run [] s = s
  run ((i, now) ∷ inputs) s =
      let later = run inputs (respond i now s) in if s.ended then s else later
