-- ===== src/Registry/Messages/Targets/Stopping.antt =====
-- What a target that is stopped leaves behind.
use puff.Common.{
  text_eq, ℕ, ◌≡◌, refl, ◌∙◌, false, none, some, List, [], ◌∷◌, Text, ok, err, contains, ==-refl,
  arith, text_beq_iff,
}
use puff.Common.Table as Table
use puff.Common.Table.{get-remove}
use puff.Common.Sorted.{IsSorted}
use puff.Common.Sorted.Lookup.{find_key-take_out}
use puff.Supervision.Node.{SupervisorNodeSnapshot}
use puff.Registry.{
  AgentRegistryEntry, AgentRegistry, LocalSupervisorControl, unregister, resolve, get, without_key,
  spawn_if,
}
use puff.Registry.Remote.{Backend, mailbox_unavailable}
use puff.Registry.Messages.{Services, State, resolve_async, lookup_mailbox, supervisor_of}
use puff.Registry.Messages.Targets.{stop_target, control_target}

without_key-contains : (k : Text) (ks : List Text) → contains (without_key k ks) k ≡ false
unfolding without_key
without_key-contains k [] = refl
without_key-contains k (j ∷ js) =
    ground (arith, without_key-contains k js, text_beq_iff j k, text_beq_iff k j)

module _ (Mailbox Supervisor : Type 0) (b : Backend) (sv : Services Mailbox Supervisor) where
  resolve_async_local :
      (n : ℕ) (target : Text) (st : State Mailbox Supervisor b sv) (e : AgentRegistryEntry)
      → resolve Mailbox Supervisor target st.registry ≡ some e
      → resolve_async Mailbox Supervisor b sv n target st ≡ (st, some (some e))
  unfolding resolve_async
  resolve_async_local n target st e h = rw h refl

  unregistered_entry :
      (key : Text) (r : AgentRegistry Mailbox Supervisor)
      → IsSorted r.inner
      → get Mailbox Supervisor key (unregister Mailbox Supervisor key r) ≡ none
  unfolding unregister get spawn_if
  unregistered_entry key r h = find_key-take_out key key r.inner h ∙ rw (==-refl key) refl

  unregistered_control :
      (key : Text) (r : AgentRegistry Mailbox Supervisor)
      → Table.get key (unregister Mailbox Supervisor key r).controls ≡ none
  unfolding unregister spawn_if
  unregistered_control key r = get-remove key key r.controls ∙ rw (==-refl key) refl

  unregistered_mailbox :
      (key : Text) (r : AgentRegistry Mailbox Supervisor)
      → IsSorted r.inner
      → lookup_mailbox Mailbox Supervisor b sv key (unregister Mailbox Supervisor key r)
        ≡ err (mailbox_unavailable key)
  unfolding lookup_mailbox
  unregistered_mailbox key r h = rw (unregistered_control key r, unregistered_entry key r h) refl

  unregistered_lease :
      (key : Text) (r : AgentRegistry Mailbox Supervisor)
      → contains (unregister Mailbox Supervisor key r).leased_keys key ≡ false
  unfolding unregister spawn_if
  unregistered_lease key r = without_key-contains key r.leased_keys

  -- The others and the clock while a task waits, the id of a request and the time now, which a stop here does not ask.
  module _ (meanwhile : ℕ → b.Store → b.Store) (wake : ℕ → ℕ) (request_id : Text) (now : ℕ) where
    -- Where a target stands for an entry of this process whose control has a supervisor, and that stops the node,
    -- stop_target gives the snapshot; then the key has no entry, no mailbox and no lease to renew any more, and
    -- the store in Redis is as it was, before the task that unregister spawns.
    pub stop_target_unregisters :
        (n : ℕ) (target : Text) (st : State Mailbox Supervisor b sv) (e : AgentRegistryEntry)
        (c : LocalSupervisorControl Mailbox Supervisor) (snapshot : SupervisorNodeSnapshot)
        → IsSorted st.registry.inner
        → resolve Mailbox Supervisor target st.registry ≡ some e
        → supervisor_of Mailbox Supervisor b sv (Table.get e.key st.registry.controls) ≡ some c
        → (sv.stops c.supervisor c.node_id st.world).1 ≡ ok snapshot
        → ((stop_target Mailbox Supervisor b sv meanwhile wake request_id now n target st).1
            ≡ some (ok snapshot))
          × (get Mailbox Supervisor e.key
                (stop_target Mailbox Supervisor b sv meanwhile wake request_id now n target
                  st).0.registry
              ≡ none)
          × (lookup_mailbox Mailbox Supervisor b sv e.key
                (stop_target Mailbox Supervisor b sv meanwhile wake request_id now n target
                  st).0.registry
              ≡ err (mailbox_unavailable e.key))
          × (contains
                (stop_target Mailbox Supervisor b sv meanwhile wake request_id now n target
                  st).0.registry.leased_keys
                e.key
              ≡ false)
          × ((stop_target Mailbox Supervisor b sv meanwhile wake request_id now n target st).0.store
              ≡ st.store)
    unfolding control_target
    stop_target_unregisters n target st e c snapshot sorted h has stopped =
        rw (resolve_async_local n target st e h, has, stopped)
          (
            refl,
            unregistered_entry e.key st.registry sorted,
            unregistered_mailbox e.key st.registry sorted,
            unregistered_lease e.key st.registry,
            refl,
          )
