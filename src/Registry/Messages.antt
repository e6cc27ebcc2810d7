-- ===== src/Registry/Messages.antt =====
-- src/agents/registry.rs: what is sent to the target that a name stands for, in this process or another.
-- Mailboxes, supervisor runtimes and the conversations in Postgres are a parameter.
pub mod Targets
use puff.Common.{
  text_eq, ℕ, zero, suc, Bool, true, false, Option, none, some, List, [], ◌∷◌, ◌++◌, Text, codes,
  Result, ok, err, if◌then◌else◌, is_some, nat_beq,
}
use puff.Common.Table as Table
use puff.Errors.{AgentError}
use puff.Conversation.{Conversation}
use puff.Mailbox.{AgentMessageResponse}
use puff.Supervision.Node.{SupervisorNodeSnapshot}
use puff.Registry.{
  AgentRegistryEntry, AgentRegistry, RegistryControl, LocalSupervisorControl, first_named, get,
  resolve, list, scan_prefix, unregister,
}
use puff.Registry.Remote.{
  Backend, AgentRegistryError, entry_not_found, not_messageable, mailbox_unavailable,
  redis_unavailable, redis, agent, RedisControlRequestKind, stop_it, restart_it,
  mailbox_conversation_key,
}
use puff.Registry.Remote.Replies.{send_remote_message, send_remote_control}

abbrev registry_hash_key : Text
registry_hash_key = codes "puff:agents:registry:v1"

pub record Services (Mailbox Supervisor : Type 0) : Type 1 where
  pub World : Type 0
  pub send_to : Mailbox → Text → World → World × Result AgentError AgentMessageResponse
  pub conversation_of : Mailbox → World → World × Result AgentError Conversation
  -- `stop_node` and `restart_node`, with the texts of their errors.
  pub stops : Supervisor → Text → World → World × Result Text SupervisorNodeSnapshot
  pub restarts : Supervisor → Text → World → World × Result Text SupervisorNodeSnapshot
  pub has_postgres : Bool
  pub load_conversation_snapshot : Text → World → World × Result Text (Option Conversation)
  pub decode_conversation : Text → Result Text Conversation

-- The rounds that are enough for a wait.
abbrev pub looks : ℕ
looks = 1201

module _ (Mailbox Supervisor : Type 0) (b : Backend) (sv : Services Mailbox Supervisor) where
  pub record State : Type 0 where
    pub store : b.Store
    pub world : sv.World
    pub registry : AgentRegistry Mailbox Supervisor

  -- What a call comes to, where the fuel of its scans lasts.
  abbrev pub Calls : Type 0 → Type 0
  Calls A = State × Option A

  abbrev pub Tries : Type 0 → Type 0
  Tries A = Calls (Result AgentRegistryError A)

  abbrev pub then_call : {A B : Type 0} → Calls A → (A → State → Calls B) → Calls B
  then_call (st, none) k = (st, none)
  then_call (st, some a) k = k a st

  abbrev found_entry : Result Text (Option Text) → Option AgentRegistryEntry
  found_entry (ok (some raw)) = b.decode_entry raw
  found_entry (ok none) = none
  found_entry (err e) = none

  unfoldable pub remote_get : Text → State → State × Option AgentRegistryEntry
  remote_get key st =
      let (s1, raw) = b.hget registry_hash_key key st.store in
      if st.registry.has_redis then (record st { store = s1 }, found_entry raw) else (st, none)

  -- The entries of a chunk that can be read.
  abbrev read_entry : Option AgentRegistryEntry → List AgentRegistryEntry → List AgentRegistryEntry
  read_entry none more = more
  read_entry (some e) more = e ∷ more

  unfoldable pub read_entries : List (Text × Text) → List AgentRegistryEntry
  read_entries [] = []
  read_entries ((name, value) ∷ chunk) = read_entry (b.decode_entry value) (read_entries chunk)

  abbrev on_chunk :
      State
      → List AgentRegistryEntry
      → Result Text (ℕ × List (Text × Text))
      → (ℕ → List AgentRegistryEntry → Tries (List AgentRegistryEntry))
      → Tries (List AgentRegistryEntry)
  on_chunk st entries (err e) again = (st, some (err (redis e)))
  on_chunk st entries (ok (cursor, chunk)) again =
      let read = entries ++ read_entries chunk in
      if nat_beq cursor 0 then (st, some (ok read)) else again cursor read

  -- The loop of `remote_scan`, on fuel.
  unfoldable pub scan_from :
      ℕ → Text → ℕ → List AgentRegistryEntry → State → Tries (List AgentRegistryEntry)
  unfolding read_entries
  scan_from zero pattern cursor entries st = (st, none)
  scan_from (suc n) pattern cursor entries st =
      let (s1, r) = b.hscan registry_hash_key cursor pattern st.store in
      let st1 = record st { store = s1 } in
      on_chunk st1 entries r (λ next read. scan_from n pattern next read st1)

  unfoldable pub remote_scan : ℕ → Text → State → Tries (List AgentRegistryEntry)
  unfolding scan_from
  remote_scan n pattern st =
      if st.registry.has_redis
      then scan_from n pattern 0 [] st
      else (st, some (err (redis_unavailable (codes "Redis registry backend is not configured"))))

  abbrev named_in :
      Text → Result AgentRegistryError (List AgentRegistryEntry) → Option AgentRegistryEntry
  named_in name (err e) = none
  named_in name (ok entries) = first_named name entries

  unfoldable pub remote_find_by_agent_name : ℕ → Text → State → Calls (Option AgentRegistryEntry)
  unfolding remote_scan
  remote_find_by_agent_name n name st =
      then_call (remote_scan n (codes "*") st) (λ r st1. (st1, some (named_in name r)))

  -- The entry, or the next place to look.
  abbrev pub or_look :
      State × Option AgentRegistryEntry
      → (State → Calls (Option AgentRegistryEntry))
      → Calls (Option AgentRegistryEntry)
  or_look (st, some e) next = (st, some (some e))
  or_look (st, none) next = next st

  unfoldable pub resolve_async : ℕ → Text → State → Calls (Option AgentRegistryEntry)
  unfolding remote_get remote_find_by_agent_name
  resolve_async n target st =
      or_look (st, resolve Mailbox Supervisor target st.registry)
        (λ st1. or_look (remote_get target st1) (λ st2.
          or_look (remote_get (codes "agent/" ++ target) st2)
            (λ st3. remote_find_by_agent_name n target st3)))

  abbrev local_or :
      List AgentRegistryEntry
      → Result AgentRegistryError (List AgentRegistryEntry)
      → List AgentRegistryEntry
  local_or local (err e) = local
  local_or local (ok []) = local
  local_or local (ok (e ∷ entries)) = e ∷ entries

  unfoldable pub list_entries : ℕ → State → Calls (List AgentRegistryEntry)
  unfolding remote_scan
  list_entries n st =
      then_call (remote_scan n (codes "*") st)
        (λ r st1. (st1, some (local_or (list Mailbox Supervisor st1.registry) r)))

  unfoldable pub scan_prefix_async : ℕ → Text → State → Calls (List AgentRegistryEntry)
  unfolding remote_scan
  scan_prefix_async n prefix st =
      then_call (remote_scan n (prefix ++ codes "*") st)
        (λ r st1. (st1, some (local_or (scan_prefix Mailbox Supervisor prefix st1.registry) r)))

  -- The mailbox of a control, or the entry's, or neither.
  abbrev pub mailbox_of : Option (RegistryControl Mailbox Supervisor) → Option Mailbox
  mailbox_of none = none
  mailbox_of (some c) = c.mailbox

  abbrev pub supervisor_of :
      Option (RegistryControl Mailbox Supervisor)
      → Option (LocalSupervisorControl Mailbox Supervisor)
  supervisor_of none = none
  supervisor_of (some c) = c.supervisor

  abbrev pub mailbox_or : Option Mailbox → Bool → Text → Result AgentRegistryError Mailbox
  mailbox_or (some m) has_entry key = ok m
  mailbox_or none true key = err (not_messageable key)
  mailbox_or none false key = err (mailbox_unavailable key)

  unfoldable pub lookup_mailbox :
      Text → AgentRegistry Mailbox Supervisor → Result AgentRegistryError Mailbox
  lookup_mailbox key r =
      mailbox_or (mailbox_of (Table.get key r.controls)) (is_some (get Mailbox Supervisor key r))
        key
