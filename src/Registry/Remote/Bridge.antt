-- ===== src/Registry/Remote/Bridge.antt =====
-- src/agents/registry.rs: the rounds of the two bridges, each a task that serves the requests in Redis for an
-- agent of its process. The agent's mailbox and the runtime of its supervisor are parameters.
pub mod Order
use puff.Common.{
  ℕ, zero, suc, Bool, true, false, ◌&&◌, not, Option, none, some, List, [], ◌∷◌, Text, codes,
  Result, ok, err, if◌then◌else◌, is_some,
}
use puff.Errors.{AgentError}
use puff.Conversation.{Conversation}
use puff.Mailbox.{AgentMessageResponse}
use puff.Supervision.Node.{SupervisorNodeSnapshot}
use puff.Registry.{AgentRegistry, LocalSupervisorControl, unregister}
use puff.Registry.Remote.{
  Backend, RedisMailboxRequest, RedisMailboxRequestKind, send_user_message, RedisMailboxReply,
  RedisControlRequest, RedisControlRequestKind, stop_it, restart_it, RedisControlReply, Reaches,
  answered_redis, AgentRegistryError, mailbox_conversation_key, mailbox_pending_key,
  mailbox_processing_key, control_pending_key, control_processing_key, pop_remote_request,
  pop_remote_payload, ack_remote_request, ack_remote_payload, write_remote_reply,
  write_remote_control_reply, recover_processing_queue,
}

-- The mailbox of an agent: what it does with a message, and its conversation.
pub record Mailboxes : Type 1 where
  pub Mail : Type 0
  pub send_message : Text → Mail → Mail × Result AgentError AgentMessageResponse
  pub conversation : Mail → Mail × Result AgentError Conversation
  pub error_text : AgentError → Text
  pub encode_conversation : Conversation → Text

module _ (b : Backend) (mb : Mailboxes) (key : Text) where
  unfoldable pub store_remote_conversation : Conversation → b.Store → Reaches b (Unit {0})
  store_remote_conversation c s =
      answered_redis b (b.set (mailbox_conversation_key key) (mb.encode_conversation c) s)

  -- `if let Ok(conversation)`
  unfoldable pub stored : Result AgentError Conversation → b.Store → b.Store
  unfolding store_remote_conversation
  stored (ok c) s = (store_remote_conversation c s).0
  stored (err e) s = s

  unfoldable pub reply_to :
      Result AgentError AgentMessageResponse
      → b.Store
      → mb.Mail
      → b.Store × mb.Mail × RedisMailboxReply
  unfolding stored
  reply_to (ok response) s m =
      let (m1, c) = mb.conversation m in
      (stored c s, m1, record { response = some response; error = none })
  reply_to (err e) s m = (s, m, record { response = none; error = some (mb.error_text e) })

  unfoldable pub serve_kind :
      RedisMailboxRequestKind → b.Store → mb.Mail → b.Store × mb.Mail × RedisMailboxReply
  unfolding reply_to
  serve_kind (send_user_message message) s m =
      let (m1, response) = mb.send_message message m in reply_to response s m1

  unfoldable pub serve_payload :
      Text → Option RedisMailboxRequest → b.Store → mb.Mail → b.Store × mb.Mail
  unfolding serve_kind ack_remote_request write_remote_reply
  serve_payload payload none s m = ((ack_remote_request b key payload s).0, m)
  serve_payload payload (some request) s m =
      let (s1, m1, reply) = serve_kind request.kind s m in
      let s2 = (write_remote_reply b request.request_id reply s1).0 in
      ((ack_remote_request b key payload s2).0, m1)

  unfoldable pub on_popped :
      Result AgentRegistryError (Option Text) → b.Store → mb.Mail → b.Store × mb.Mail
  unfolding serve_payload
  on_popped (err e) s m = (s, m)
  on_popped (ok none) s m = (s, m)
  on_popped (ok (some payload)) s m = serve_payload payload (b.decode_request payload) s m

  -- A round of the loop of `spawn_remote_mailbox_bridge`.
  unfoldable pub bridge_round : b.Store → mb.Mail → b.Store × mb.Mail
  unfolding pop_remote_request on_popped
  bridge_round s m = let (s1, popped) = pop_remote_request b key s in on_popped popped s1 m

  -- The rounds of the loop.
  unfoldable pub bridge_rounds : ℕ → b.Store → mb.Mail → b.Store × mb.Mail
  unfolding bridge_round
  bridge_rounds zero s m = (s, m)
  bridge_rounds (suc n) s m = let (s1, m1) = bridge_round s m in bridge_rounds n s1 m1

  -- What a mailbox bridge does before its loop.
  unfoldable pub bridge_start : ℕ → b.Store → mb.Mail → b.Store × mb.Mail
  unfolding recover_processing_queue stored
  bridge_start n s m =
      let s1 =
        (recover_processing_queue b n (mailbox_processing_key key) (mailbox_pending_key key) s).0 in
      let (m1, c) = mb.conversation m in (stored c s1, m1)

-- The runtimes of supervisors: `stop_node` and `restart_node`, with the texts of their errors.
pub record Supervisors (Supervisor : Type 0) : Type 1 where
  pub World : Type 0
  pub stops_node : Supervisor → Text → World → World × Result Text SupervisorNodeSnapshot
  pub restarts_node : Supervisor → Text → World → World × Result Text SupervisorNodeSnapshot

module _ (Mailbox Supervisor : Type 0) (sv : Supervisors Supervisor) where
  abbrev pub node_control :
      RedisControlRequestKind
      → LocalSupervisorControl Mailbox Supervisor
      → sv.World
      → sv.World × Result Text SupervisorNodeSnapshot
  node_control stop_it control w = sv.stops_node control.supervisor control.node_id w
  node_control restart_it control w = sv.restarts_node control.supervisor control.node_id w

  abbrev pub is_stop : RedisControlRequestKind → Bool
  is_stop stop_it = true
  is_stop restart_it = false

  abbrev pub control_reply : Result Text SupervisorNodeSnapshot → RedisControlReply
  control_reply (ok snapshot) = record { snapshot = some snapshot; error = none }
  control_reply (err e) = record { snapshot = none; error = some e }

  -- What the process has: its runtimes and its registry.
  abbrev pub Process : Type 0
  Process = sv.World × AgentRegistry Mailbox Supervisor

  module _ (b : Backend) (key : Text) (control : LocalSupervisorControl Mailbox Supervisor) where
    unfoldable pub serve_control :
        Text → Option RedisControlRequest → b.Store → Process → b.Store × Process
    unfolding ack_remote_payload write_remote_control_reply unregister
    serve_control payload none s p =
        ((ack_remote_payload b (control_processing_key key) payload s).0, p)
    serve_control payload (some request) s (w, r) =
        let (w1, done) = node_control request.kind control w in
        let reply = control_reply done in
        let r1 =
          if not (is_some reply.error) && is_stop request.kind
          then unregister Mailbox Supervisor key r
          else r in
        let s1 = (write_remote_control_reply b request.request_id reply s).0 in
        ((ack_remote_payload b (control_processing_key key) payload s1).0, (w1, r1))

    unfoldable pub on_control :
        Result AgentRegistryError (Option Text) → b.Store → Process → b.Store × Process
    unfolding serve_control
    on_control (err e) s p = (s, p)
    on_control (ok none) s p = (s, p)
    on_control (ok (some payload)) s p = serve_control payload (b.decode_control payload) s p

    -- A round of the loop of `spawn_remote_control_bridge`.
    unfoldable pub control_round : b.Store → Process → b.Store × Process
    unfolding pop_remote_payload on_control
    control_round s p =
        let (s1, popped) =
          pop_remote_payload b (control_pending_key key) (control_processing_key key) s in
        on_control popped s1 p
