-- ===== src/Registry/Remote/Replies.antt =====
-- src/agents/registry.rs: what waits for the reply of another process.
pub mod Waiting
use puff.Common.{
  ℕ, zero, suc, ◌+◌, ◌*◌, ◌≤◌, ◌≡◌, refl, true, false, Bool, Option, none, some, ◌++◌, Text, codes,
  Result, ok, err, leb, if◌then◌else◌, is_some, if_cases, arith, leb→le,
}
use puff.Mailbox.{AgentMessageResponse}
use puff.Supervision.Node.{SupervisorNodeSnapshot}
use puff.Registry.Remote.{
  Backend, AgentRegistryError, redis, or_redis, RedisMailboxRequest, RedisMailboxReply,
  send_user_message, RedisControlRequest, RedisControlRequestKind, RedisControlReply,
  mailbox_reply_key, control_reply_key, remote_reply_timeout_secs, remote_reply_poll_ms,
  push_remote_request, push_remote_control_request,
}

-- A text in quotes, as `format!` puts it.
abbrev quoted : Text → Text
quoted t = codes "'" ++ t ++ codes "'"

-- How a reply is read: its value, the other side's error, or neither.
abbrev pub reply_value {ℓ} :
    {A : Type ℓ} → Text → Option A → Option Text → Result AgentRegistryError A
reply_value empty (some a) none = ok a
reply_value empty o (some e) = err (redis e)
reply_value empty none none = err (redis empty)

-- The other processes, which act while a task sleeps, and when its sleep is over.
module _ (b : Backend) (meanwhile : ℕ → b.Store → b.Store) (wake : ℕ → ℕ) where
  -- The end of a wait, if the fuel lasts.
  abbrev pub Waits : Type 0 → Type 0
  Waits A = b.Store × Option (Result AgentRegistryError A)

  -- A round, before the rounds that follow.
  abbrev pub unless_there :
      {A : Type 0}
      → Text
      → (Text → Result Text A)
      → Text
      → Bool
      → b.Store × Result Text (Option Text)
      → Waits A
      → Waits A
  unless_there key decode late over (s, err e) again = (s, some (err (redis e)))
  unless_there key decode late over (s, ok (some payload)) again =
      ((b.del key s).0, some (or_redis (decode payload)))
  unless_there key decode late true (s, ok none) again = (s, some (err (redis late)))
  unless_there key decode late false (s, ok none) again = again

  -- The loop, on fuel.
  unfoldable pub wait_for :
      {A : Type 0} → Text → (Text → Result Text A) → Text → ℕ → ℕ → ℕ → b.Store → Waits A
  wait_for key decode late deadline zero now s = (s, none)
  wait_for key decode late deadline (suc n) now s =
      let looked = b.get_value key s in
      let again = wait_for key decode late deadline n (wake now) (meanwhile now looked.0) in
      unless_there key decode late (leb deadline now) looked again

  unfoldable pub wait_for_remote_reply : ℕ → Text → ℕ → b.Store → Waits RedisMailboxReply
  unfolding wait_for
  wait_for_remote_reply fuel request_id now =
      wait_for (mailbox_reply_key request_id) b.decode_reply
        (codes "timed out waiting for remote reply " ++ quoted request_id)
        (now + remote_reply_timeout_secs * 1000) fuel now

  unfoldable pub wait_for_remote_control_reply : ℕ → Text → ℕ → b.Store → Waits RedisControlReply
  unfolding wait_for
  wait_for_remote_control_reply fuel request_id now =
      wait_for (control_reply_key request_id) b.decode_control_reply
        (codes "timed out waiting for remote control reply " ++ quoted request_id)
        (now + remote_reply_timeout_secs * 1000) fuel now

  -- `?`, for a call and for a wait.
  abbrev after_push :
      {A : Type 0} → b.Store × Result AgentRegistryError (Unit {0}) → (b.Store → Waits A) → Waits A
  after_push (s, err e) k = (s, some (err e))
  after_push (s, ok _) k = k s

  abbrev read_reply : Text → Waits RedisMailboxReply → Waits AgentMessageResponse
  read_reply empty (s, none) = (s, none)
  read_reply empty (s, some (err e)) = (s, some (err e))
  read_reply empty (s, some (ok r)) = (s, some (reply_value empty r.response r.error))

  abbrev read_control : Text → Waits RedisControlReply → Waits SupervisorNodeSnapshot
  read_control empty (s, none) = (s, none)
  read_control empty (s, some (err e)) = (s, some (err e))
  read_control empty (s, some (ok r)) = (s, some (reply_value empty r.snapshot r.error))

  -- With Redis; the id is a new one.
  unfoldable pub send_remote_message :
      ℕ → Text → Text → Text → ℕ → b.Store → Waits AgentMessageResponse
  unfolding push_remote_request wait_for_remote_reply
  send_remote_message fuel request_id key message now s =
      let request : RedisMailboxRequest = record {
        request_id = request_id;
        target = key;
        kind = send_user_message message;
        created_at = now;
      } in
      after_push (push_remote_request b key request s) (λ s1.
        read_reply (codes "remote mailbox " ++ quoted key ++ codes " returned an empty reply")
          (wait_for_remote_reply fuel request_id now s1))

  unfoldable pub send_remote_control :
      ℕ → Text → Text → RedisControlRequestKind → ℕ → b.Store → Waits SupervisorNodeSnapshot
  unfolding push_remote_control_request wait_for_remote_control_reply
  send_remote_control fuel request_id key kind now s =
      let request : RedisControlRequest = record {
        request_id = request_id;
        target = key;
        kind = kind;
        created_at = now;
      } in
      after_push (push_remote_control_request b key request s) (λ s1.
        read_control (codes "remote control " ++ quoted key ++ codes " returned an empty reply")
          (wait_for_remote_control_reply fuel request_id now s1))
