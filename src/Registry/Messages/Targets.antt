-- ===== src/Registry/Messages/Targets.antt =====
-- src/agents/registry.rs: messages, conversations and controls for a target.
pub mod Stopping
use puff.Common.{
  text_eq, nat_eq, ℕ, Bool, true, false, Option, none, some, List, [], ◌∷◌, ◌++◌, Text, codes,
  Result, ok, err, contains, if◌then◌else◌,
}
use puff.Common.Table as Table
use puff.Errors.{AgentError}
use puff.Conversation.{Conversation}
use puff.Mailbox.{AgentMessageResponse}
use puff.Supervision.Node.{SupervisorNodeSnapshot}
use puff.Registry.{AgentRegistryEntry, AgentRegistry, LocalSupervisorControl, unregister}
use puff.Registry.Remote.{
  Backend, AgentRegistryError, entry_not_found, not_messageable, mailbox_unavailable,
  redis_unavailable, redis, agent, RedisControlRequestKind, stop_it, restart_it,
  mailbox_conversation_key,
}
use puff.Registry.Remote.Replies.{send_remote_message, send_remote_control}
use puff.Registry.Messages.{
  Services, State, Calls, Tries, then_call, resolve_async, lookup_mailbox, supervisor_of, looks,
}

abbrev quoted : Text → Text
quoted t = codes "'" ++ t ++ codes "'"

module _ (Mailbox Supervisor : Type 0) (b : Backend) (sv : Services Mailbox Supervisor) where
  abbrev S : Type 0
  S = State Mailbox Supervisor b sv

  -- `ok_or_else`, for what a target stands for.
  abbrev or_entry_not_found :
      {A : Type 0}
      → Text
      → (AgentRegistryEntry → S → Tries Mailbox Supervisor b sv A)
      → Option AgentRegistryEntry
      → S
      → Tries Mailbox Supervisor b sv A
  or_entry_not_found target k none st = (st, some (err (entry_not_found target)))
  or_entry_not_found target k (some e) st = k e st

  abbrev or_agent : {A : Type 0} → Result AgentError A → Result AgentRegistryError A
  or_agent (ok a) = ok a
  or_agent (err e) = err (agent e)

  abbrev or_detail : {A : Type 0} → Result Text A → Result AgentRegistryError A
  or_detail (ok a) = ok a
  or_detail (err e) = err (redis e)

  -- The others, and the clock, while a task waits; the id of its request, and when it starts.
  module _ (meanwhile : ℕ → b.Store → b.Store) (wake : ℕ → ℕ) (request_id : Text) (now : ℕ) where
    -- With Redis, or an error without it.
    abbrev to_remote :
        {A : Type 0}
        → AgentRegistryError
        → (b.Store → b.Store × Option (Result AgentRegistryError A))
        → S
        → Tries Mailbox Supervisor b sv A
    to_remote without call st =
        let (s1, r) = call st.store in
        if st.registry.has_redis then (record st { store = s1 }, r) else (st, some (err without))

    abbrev message_by :
        Text
        → Text
        → Result AgentRegistryError Mailbox
        → S
        → Tries Mailbox Supervisor b sv AgentMessageResponse
    message_by key message (ok m) st =
        let (w, r) = sv.send_to m message st.world in (record st { world = w }, some (or_agent r))
    message_by key message (err (not_messageable x)) st =
        to_remote (not_messageable key)
          (send_remote_message b meanwhile wake looks request_id key message now) st
    message_by key message (err (mailbox_unavailable x)) st =
        to_remote (not_messageable key)
          (send_remote_message b meanwhile wake looks request_id key message now) st
    message_by key message (err e) st = (st, some (err e))

    unfoldable pub send_message :
        ℕ → Text → Text → S → Tries Mailbox Supervisor b sv AgentMessageResponse
    unfolding resolve_async lookup_mailbox
    send_message n target message st =
        then_call Mailbox Supervisor b sv (resolve_async Mailbox Supervisor b sv n target st) (
          or_entry_not_found target (λ e st1.
            message_by e.key message (lookup_mailbox Mailbox Supervisor b sv e.key st1.registry)
              st1))

    abbrev local_control :
        RedisControlRequestKind
        → LocalSupervisorControl Mailbox Supervisor
        → sv.World
        → sv.World × Result Text SupervisorNodeSnapshot
    local_control stop_it c w = sv.stops c.supervisor c.node_id w
    local_control restart_it c w = sv.restarts c.supervisor c.node_id w

    -- A node that is stopped leaves the registry.
    abbrev after_control :
        RedisControlRequestKind
        → Text
        → Result Text SupervisorNodeSnapshot
        → AgentRegistry Mailbox Supervisor
        → AgentRegistry Mailbox Supervisor
    after_control stop_it key (ok snapshot) r = unregister Mailbox Supervisor key r
    after_control stop_it key (err e) r = r
    after_control restart_it key result r = r

    abbrev control_by :
        RedisControlRequestKind
        → Text
        → Option (LocalSupervisorControl Mailbox Supervisor)
        → S
        → Tries Mailbox Supervisor b sv SupervisorNodeSnapshot
    control_by kind key (some c) st =
        let (w, r) = local_control kind c st.world in
        (
          record st { world = w; registry = after_control kind key r st.registry },
          some (or_detail r),
        )
    control_by kind key none st =
        to_remote
          (redis_unavailable (
            codes "registry target "
            ++ quoted key
            ++ codes " is not local and Redis control transport is not configured"))
          (send_remote_control b meanwhile wake looks request_id key kind now) st

    unfoldable pub control_target :
        ℕ
        → Text
        → RedisControlRequestKind
        → S
        → Tries Mailbox Supervisor b sv SupervisorNodeSnapshot
    unfolding resolve_async unregister
    control_target n target kind st =
        then_call Mailbox Supervisor b sv (resolve_async Mailbox Supervisor b sv n target st) (
          or_entry_not_found target (λ e st1.
            control_by kind e.key
              (supervisor_of Mailbox Supervisor b sv (Table.get e.key st1.registry.controls)) st1))

    abbrev pub stop_target : ℕ → Text → S → Tries Mailbox Supervisor b sv SupervisorNodeSnapshot
    stop_target n target = control_target n target stop_it

    abbrev pub restart_target : ℕ → Text → S → Tries Mailbox Supervisor b sv SupervisorNodeSnapshot
    restart_target n target = control_target n target restart_it

    -- What Postgres has of a conversation that is in no process and not in Redis.
    abbrev snapshot_or :
        Text → Result Text (Option Conversation) → Result AgentRegistryError Conversation
    snapshot_or key (err e) = err (redis e)
    snapshot_or key (ok none) = err (entry_not_found key)
    snapshot_or key (ok (some c)) = ok c

    unfoldable pub durable_conversation : Text → S → Tries Mailbox Supervisor b sv Conversation
    durable_conversation key st =
        let (w, r) = sv.load_conversation_snapshot key st.world in
        if sv.has_postgres then (record st { world = w }, some (snapshot_or key r)) else (
          st,
          some (
              err (
                redis_unavailable (
                  codes "conversation "
                  ++ quoted key
                  ++ codes " is not local and no durable backend is configured"))),
        )

    abbrev loaded : Text → Result Text (Option Text) → Result AgentRegistryError Conversation
    loaded key (err e) = err (redis e)
    loaded key (ok none) = err (entry_not_found key)
    loaded key (ok (some payload)) = or_detail (sv.decode_conversation payload)

    unfoldable pub load_remote_conversation :
        Text → b.Store → b.Store × Result AgentRegistryError Conversation
    load_remote_conversation key s =
        let (s1, payload) = b.get_value (mailbox_conversation_key key) s in (s1, loaded key payload)

    abbrev unless_loaded :
        Text
        → Result AgentRegistryError Conversation
        → S
        → Tries Mailbox Supervisor b sv Conversation
    unless_loaded key (ok c) st = (st, some (ok c))
    unless_loaded key (err (entry_not_found x)) st = durable_conversation key st
    unless_loaded key (err e) st = (st, some (err e))

    unfoldable pub remote_conversation : Text → S → Tries Mailbox Supervisor b sv Conversation
    unfolding durable_conversation load_remote_conversation
    remote_conversation key st =
        let (s1, r) = load_remote_conversation key st.store in
        if st.registry.has_redis
        then unless_loaded key r (record st { store = s1 })
        else durable_conversation key st

    -- `target.contains('/')`
    abbrev slash : ℕ
    slash = 47

    abbrev conversation_by :
        Text → Result AgentRegistryError Mailbox → S → Tries Mailbox Supervisor b sv Conversation
    conversation_by key (ok m) st =
        let (w, r) = sv.conversation_of m st.world in (record st { world = w }, some (or_agent r))
    conversation_by key (err (not_messageable x)) st =
        if st.registry.has_redis
        then remote_conversation key st
        else (st, some (err (not_messageable key)))
    conversation_by key (err (mailbox_unavailable x)) st =
        if st.registry.has_redis
        then remote_conversation key st
        else (st, some (err (not_messageable key)))
    conversation_by key (err e) st = (st, some (err e))

    abbrev conversation_at :
        Text → Option AgentRegistryEntry → S → Tries Mailbox Supervisor b sv Conversation
    conversation_at target none st =
        if contains target slash
        then remote_conversation target st
        else (st, some (err (entry_not_found target)))
    conversation_at target (some e) st =
        conversation_by e.key (lookup_mailbox Mailbox Supervisor b sv e.key st.registry) st

    unfoldable pub conversation : ℕ → Text → S → Tries Mailbox Supervisor b sv Conversation
    unfolding resolve_async remote_conversation lookup_mailbox
    conversation n target st =
        then_call Mailbox Supervisor b sv (resolve_async Mailbox Supervisor b sv n target st)
          (conversation_at target)
