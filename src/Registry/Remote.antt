-- ===== src/Registry/Remote.antt =====
-- src/agents/registry.rs: the requests, queues and replies in Redis, by which a registry reaches the agents
-- of other processes. Redis and serde_json are a parameter.
pub mod Laws
pub mod Recovery
pub mod Kept
pub mod Bridge
pub mod Replies
use puff.Common.{
  ℕ, zero, suc, ◌+◌, Bool, Option, none, some, List, [], ◌∷◌, ◌++◌, Text, codes, Result, ok, err,
  leb, if◌then◌else◌,
}
use puff.Errors.{AgentError}
use puff.Mailbox.{AgentMessageResponse}
use puff.Registry.{AgentRegistryEntry}
use puff.Supervision.Node.{SupervisorNodeSnapshot}

pub data AgentRegistryError : Type 0 where
  entry_not_found not_messageable mailbox_unavailable redis_unavailable : Text → AgentRegistryError
  redis : Text → AgentRegistryError
  agent : AgentError → AgentRegistryError

pub data RedisMailboxRequestKind : Type 0 where
  send_user_message : Text → RedisMailboxRequestKind

pub record RedisMailboxRequest : Type 0 where
  pub request_id : Text
  pub target : Text
  pub kind : RedisMailboxRequestKind
  pub created_at : ℕ

pub record RedisMailboxReply : Type 0 where
  pub response : Option AgentMessageResponse
  pub error : Option Text

pub data RedisControlRequestKind : Type 0 where
  stop_it restart_it : RedisControlRequestKind

pub record RedisControlRequest : Type 0 where
  pub request_id : Text
  pub target : Text
  pub kind : RedisControlRequestKind
  pub created_at : ℕ

pub record RedisControlReply : Type 0 where
  pub snapshot : Option SupervisorNodeSnapshot
  pub error : Option Text

abbrev pub reply_ttl_secs : ℕ
reply_ttl_secs = 60

abbrev pub remote_reply_poll_ms : ℕ
remote_reply_poll_ms = 50

abbrev pub remote_reply_timeout_secs : ℕ
remote_reply_timeout_secs = 60

unfoldable pub mailbox_pending_key : Text → Text
mailbox_pending_key key = codes "puff:agents:mailbox:" ++ key ++ codes ":pending"

unfoldable pub mailbox_processing_key : Text → Text
mailbox_processing_key key = codes "puff:agents:mailbox:" ++ key ++ codes ":processing"

unfoldable pub mailbox_reply_key : Text → Text
mailbox_reply_key request_id = codes "puff:agents:reply:" ++ request_id

unfoldable pub mailbox_conversation_key : Text → Text
mailbox_conversation_key key = codes "puff:agents:conversation:" ++ key

unfoldable pub control_pending_key : Text → Text
control_pending_key key = codes "puff:agents:control:" ++ key ++ codes ":pending"

unfoldable pub control_processing_key : Text → Text
control_processing_key key = codes "puff:agents:control:" ++ key ++ codes ":processing"

unfoldable pub control_reply_key : Text → Text
control_reply_key request_id = codes "puff:agents:control-reply:" ++ request_id

-- The commands of Redis, each with what it answers, or its error or that of the pool; and serde_json.
pub record Backend : Type 1 where
  pub Store : Type 0
  pub lpush : Text → Text → Store → Store × Result Text (Unit {0})
  pub brpoplpush : Text → Text → ℕ → Store → Store × Result Text (Option Text)
  pub rpoplpush : Text → Text → Store → Store × Result Text (Option Text)
  pub lrem : Text → ℕ → Text → Store → Store × Result Text (Unit {0})
  pub set : Text → Text → Store → Store × Result Text (Unit {0})
  pub set_ex : Text → Text → ℕ → Store → Store × Result Text (Unit {0})
  pub get_value : Text → Store → Store × Result Text (Option Text)
  pub del : Text → Store → Store × Result Text (Unit {0})
  pub hget : Text → Text → Store → Store × Result Text (Option Text)
  pub hscan : Text → ℕ → Text → Store → Store × Result Text (ℕ × List (Text × Text))
  pub decode_entry : Text → Option AgentRegistryEntry
  pub encode_request : RedisMailboxRequest → Text
  pub decode_request : Text → Option RedisMailboxRequest
  pub encode_control : RedisControlRequest → Text
  pub decode_control : Text → Option RedisControlRequest
  pub encode_reply : RedisMailboxReply → Text
  pub decode_reply : Text → Result Text RedisMailboxReply
  pub encode_control_reply : RedisControlReply → Text
  pub decode_control_reply : Text → Result Text RedisControlReply

-- `map_err` to the error of the registry.
abbrev pub or_redis {ℓ} : {A : Type ℓ} → Result Text A → Result AgentRegistryError A
or_redis (ok a) = ok a
or_redis (err e) = err (redis e)

module _ (b : Backend) where
  -- What a call answers, and the store after it.
  abbrev pub Reaches : Type 0 → Type 0
  Reaches A = b.Store × Result AgentRegistryError A

  abbrev pub answered_redis : {A : Type 0} → b.Store × Result Text A → Reaches A
  answered_redis (s, r) = (s, or_redis r)

  unfoldable pub push_remote_request : Text → RedisMailboxRequest → b.Store → Reaches (Unit {0})
  push_remote_request key request s =
      answered_redis (b.lpush (mailbox_pending_key key) (b.encode_request request) s)

  unfoldable pub pop_remote_payload : Text → Text → b.Store → Reaches (Option Text)
  pop_remote_payload pending_key processing_key s =
      answered_redis (b.brpoplpush pending_key processing_key 1 s)

  unfoldable pub pop_remote_request : Text → b.Store → Reaches (Option Text)
  unfolding pop_remote_payload
  pop_remote_request key = pop_remote_payload (mailbox_pending_key key) (mailbox_processing_key key)

  unfoldable pub ack_remote_payload : Text → Text → b.Store → Reaches (Unit {0})
  ack_remote_payload processing_key payload s = answered_redis (b.lrem processing_key 1 payload s)

  unfoldable pub ack_remote_request : Text → Text → b.Store → Reaches (Unit {0})
  unfolding ack_remote_payload
  ack_remote_request key = ack_remote_payload (mailbox_processing_key key)

  -- How a loop ends, with nothing where its fuel does not last.
  abbrev pub Loops : Type 0
  Loops = b.Store × Option (Result AgentRegistryError (Unit {0}))

  -- A round of `recover_processing_queue`, before the rounds that follow.
  abbrev pub unless_moved : b.Store → Result Text (Option Text) → Loops → Loops
  unless_moved s (err e) again = (s, some (err (redis e)))
  unless_moved s (ok none) again = (s, some (ok tt))
  unless_moved s (ok (some moved)) again = again

  -- The loop, on fuel.
  unfoldable pub recover_processing_queue : ℕ → Text → Text → b.Store → Loops
  recover_processing_queue zero processing_key pending_key s = (s, none)
  recover_processing_queue (suc n) processing_key pending_key s =
      let (s1, moved) = b.rpoplpush processing_key pending_key s in
      let again = recover_processing_queue n processing_key pending_key s1 in
      unless_moved s1 moved again

  unfoldable pub write_remote_reply : Text → RedisMailboxReply → b.Store → Reaches (Unit {0})
  write_remote_reply request_id reply s =
      answered_redis
        (b.set_ex (mailbox_reply_key request_id) (b.encode_reply reply) reply_ttl_secs s)

  unfoldable pub push_remote_control_request :
      Text → RedisControlRequest → b.Store → Reaches (Unit {0})
  push_remote_control_request key request s =
      answered_redis (b.lpush (control_pending_key key) (b.encode_control request) s)

  unfoldable pub write_remote_control_reply :
      Text → RedisControlReply → b.Store → Reaches (Unit {0})
  write_remote_control_reply request_id reply s =
      answered_redis
        (b.set_ex (control_reply_key request_id) (b.encode_control_reply reply) reply_ttl_secs s)
