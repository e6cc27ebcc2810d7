-- ===== src/Registry/Entries.antt =====
-- The registry is a map from keys to entries, and its scans are filters of its list.
use puff.Common.{
  ℕ, ◌≡◌, refl, ap, ◌∙◌, Bool, ◌||◌, not, Option, none, some, List, [], ◌∷◌, Text, All, filter,
  contains, if_keeps, if◌then◌else◌, ◌==◌, text_eq,
}
use puff.Common.Strings.{starts_with}
use puff.Common.Sorted.{Sorted, text_ltb, find_key, put, take_out, IsSorted, with_prefix, values_of}
use puff.Common.Sorted.Order.{put-IsSorted, take_out-IsSorted, range-while_prefix}
use puff.Common.Sorted.Lookup.{find_key-put, find_key-take_out}
use puff.Registry.{
  AgentRegistryEntry, AgentRegistry, LocalSupervisorControl, kept_since, with_backends, spawn_if,
  stamped, register, get, unregister, list, scan_prefix, spawn_control_bridge, register_mailbox,
  register_supervisor_entry, start_named_agent_lease,
}

-- What `register` makes of an entry, where the key has this one.
pub stamp : Option AgentRegistryEntry → AgentRegistryEntry → ℕ → AgentRegistryEntry
stamp none e now = record e { updated_at = now }
stamp (some before) e now = record e { registered_at = before.registered_at; updated_at = now }

abbrev Keyed : Sorted AgentRegistryEntry → Type 0
Keyed m = All (λ p. p.1.key ≡ p.0) m

put-Keyed :
    (k : Text) (e : AgentRegistryEntry) (m : Sorted AgentRegistryEntry)
    → e.key ≡ k
    → Keyed m
    → Keyed (put k e m)
unfolding put
put-Keyed k e [] h a = (h, tt)
put-Keyed k e ((j, w) ∷ m) h (a, as') =
    if_keeps Keyed (j == k) (h, as')
      (if_keeps Keyed (text_ltb k j) (h, (a, as')) (a, put-Keyed k e m h as'))

take_out-Keyed : (k : Text) (m : Sorted AgentRegistryEntry) → Keyed m → Keyed (take_out k m)
unfolding take_out
take_out-Keyed k [] a = tt
take_out-Keyed k ((j, w) ∷ m) (a, as') = if_keeps Keyed (j == k) as' (a, take_out-Keyed k m as')

with_prefix-filter :
    (p : Text) (m : Sorted AgentRegistryEntry)
    → Keyed m
    → with_prefix p m ≡ filter (λ e. starts_with p e.key) (values_of m)
unfolding with_prefix values_of
with_prefix-filter p [] a = refl
with_prefix-filter p ((j, w) ∷ m) (a, as') = rw (a, with_prefix-filter p m as') refl

module _ (Mailbox Supervisor : Type 0) where
  -- An operation of the registry.
  pub data Op : Type 0 where
    registers : AgentRegistryEntry → Op
    registers_mailbox : AgentRegistryEntry → Mailbox → Supervisor → Op
    registers_supervisor : AgentRegistryEntry → Supervisor → Op
    unregisters leases : Text → Op

  unfoldable pub apply :
      ℕ → Op → AgentRegistry Mailbox Supervisor → AgentRegistry Mailbox Supervisor
  apply now (registers e) r = register Mailbox Supervisor e now r
  apply now (registers_mailbox e m s) r = register_mailbox Mailbox Supervisor e m s now r
  apply now (registers_supervisor e s) r = register_supervisor_entry Mailbox Supervisor e s now r
  apply now (unregisters k) r = unregister Mailbox Supervisor k r
  apply now (leases k) r = start_named_agent_lease Mailbox Supervisor k r

  unfoldable pub run :
      List (ℕ × Op) → AgentRegistry Mailbox Supervisor → AgentRegistry Mailbox Supervisor
  unfolding apply
  run [] r = r
  run ((now, op) ∷ more) r = run more (apply now op r)

  -- The registry as a function from keys.
  abbrev pub View : Type 0
  View = Text → Option AgentRegistryEntry

  unfoldable pub view_with : AgentRegistryEntry → ℕ → View → View
  unfolding stamp
  view_with e now v k = if e.key == k then some (stamp (v e.key) e now) else v k

  unfoldable pub view_after : ℕ → Op → View → View
  unfolding view_with
  view_after now (registers e) v = view_with e now v
  view_after now (registers_mailbox e m s) v = view_with e now v
  view_after now (registers_supervisor e s) v = view_with e now v
  view_after now (unregisters k) v = λ j. if k == j then none else v j
  view_after now (leases k) v = v

  unfoldable pub view_run : List (ℕ × Op) → View → View
  unfolding view_after
  view_run [] v = v
  view_run ((now, op) ∷ more) v = view_run more (view_after now op v)

  -- The registry has the entries of a view, in the order of their keys.
  pub record Shows (r : AgentRegistry Mailbox Supervisor) (v : View) : Type 0 where
    pub sorted : IsSorted r.inner
    pub keyed : Keyed r.inner
    pub same : (k : Text) → find_key k r.inner ≡ v k

  abbrev R : Type 0
  R = AgentRegistry Mailbox Supervisor

  -- A step that leaves the entries alone.
  Shows-inner : (r r' : R) (v : View) → r'.inner ≡ r.inner → Shows r v → Shows r' v
  Shows-inner r r' v e h = record {
    sorted = rw e h.sorted;
    keyed = rw e h.keyed;
    same = λ k. rw e (h.same k);
  }

  spawned_inner :
      (b : Bool) (key : Text) (c : Option (LocalSupervisorControl Mailbox Supervisor)) (r : R)
      → (spawn_control_bridge Mailbox Supervisor b key c r).inner ≡ r.inner
  unfolding spawn_control_bridge spawn_if
  spawned_inner b key none r = refl
  spawned_inner b key (some s) r = refl

  stamped-stamp :
      (e : AgentRegistryEntry) (now : ℕ) (r : R)
      → stamped Mailbox Supervisor e now r ≡ stamp (find_key e.key r.inner) e now
  unfolding stamped stamp kept_since
  stamped-stamp e now r =
      elim (find_key e.key r.inner)
        as (λ o. record (kept_since o e) { updated_at = now } ≡ stamp o e now) [
          | none ↦ refl
          | some x ↦ refl
        ]

  stamp-key :
      (o : Option AgentRegistryEntry) (e : AgentRegistryEntry) (now : ℕ)
      → (stamp o e now).key ≡ e.key
  unfolding stamp
  stamp-key none e now = refl
  stamp-key (some b) e now = refl

  put-Shows :
      (e : AgentRegistryEntry) (now : ℕ) (r r' : R) (v : View)
      → r'.inner ≡ put e.key (stamped Mailbox Supervisor e now r) r.inner
      → Shows r v
      → Shows r' (view_with e now v)
  unfolding view_with
  put-Shows e now r r' v i h =
      let s = stamped-stamp e now r in
      record {
        sorted = rw i (put-IsSorted e.key _ r.inner h.sorted);
        keyed = rw i (put-Keyed e.key _ r.inner (ap (λ x. x.key) s ∙ stamp-key _ e now) h.keyed);
        same = λ k.
            rw
              (
                i,
                find_key-put k e.key (stamped Mailbox Supervisor e now r) r.inner,
                s,
                h.same e.key,
                h.same k,
              )
              refl;
      }

  apply-Shows :
      (now : ℕ) (op : Op) (r : R) (v : View)
      → Shows r v
      → Shows (apply now op r) (view_after now op v)
  unfolding apply view_after register spawn_if register_mailbox register_supervisor_entry unregister
      start_named_agent_lease
  apply-Shows now (registers e) r v h = put-Shows e now r _ v refl h
  apply-Shows now (registers_mailbox e m s) r v h =
      put-Shows e now r _ v (spawned_inner _ e.key _ _) h
  apply-Shows now (registers_supervisor e s) r v h =
      put-Shows e now r _ v (spawned_inner _ e.key _ _) h
  apply-Shows now (unregisters k) r v h = record {
    sorted = take_out-IsSorted k r.inner h.sorted;
    keyed = take_out-Keyed k r.inner h.keyed;
    same = λ j. rw (find_key-take_out j k r.inner h.sorted, h.same j) refl;
  }
  apply-Shows now (leases k) r v h =
      if_keeps (λ x. Shows x v) (not r.has_redis || contains r.leased_keys k) h
        (Shows-inner r _ v refl h)

  run-Shows_view :
      (ops : List (ℕ × Op)) (r : R) (v : View) → Shows r v → Shows (run ops r) (view_run ops v)
  unfolding run view_run
  run-Shows_view [] r v h = h
  run-Shows_view ((now, op) ∷ more) r v h = run-Shows_view more _ _ (apply-Shows now op r v h)

  module _ (has_redis : Bool) (owner_id : Text) (ops : List (ℕ × Op)) where
    abbrev after : R
    after = run ops (with_backends Mailbox Supervisor has_redis owner_id)

    shows : Shows after (view_run ops (λ k. none))
    unfolding with_backends find_key
    shows = run-Shows_view ops _ _ (record { sorted = tt; keyed = tt; same = λ k. refl })

    -- After any operations on a new registry, a lookup gives the last entry that was registered under the key,
    -- by whichever method, if it was not unregistered after that: with the time of that as its update, and
    -- the time of registration of the entry that the key had then, if it had one.
    pub get-run : (k : Text) → get Mailbox Supervisor k after ≡ view_run ops (λ k. none) k
    unfolding get
    get-run k = shows.same k

    -- After any operations on a new registry, the scan of a prefix, which starts in the map at the prefix and
    -- stops at the first key without it, gives the entries of the list whose keys have the prefix, all of
    -- them and in their order.
    pub scan_prefix-filter :
        (prefix : Text)
        → scan_prefix Mailbox Supervisor prefix after
          ≡ filter (λ e. starts_with prefix e.key) (list Mailbox Supervisor after)
    unfolding scan_prefix list
    scan_prefix-filter prefix =
        range-while_prefix prefix after.inner shows.sorted
        ∙ with_prefix-filter prefix after.inner shows.keyed
