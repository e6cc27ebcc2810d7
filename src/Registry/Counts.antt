-- ===== src/Registry/Counts.antt =====
-- The bridges to Redis for the mailbox of a key, among the tasks that have been spawned.
use puff.Common.{
  ℕ, ◌+◌, ◌≡◌, refl, ap, ◌∙◌, Bool, true, false, Bool-cases, inl, inr, Option, none, some, [], ◌∷◌,
  Text, count, count-append, if◌then◌else◌, ◌==◌, text_eq, arith, text_beq_iff,
}
use puff.Common.Table as Table
use puff.Common.Table.{get-insert, get-remove}
use puff.Registry.{
  AgentRegistry, Spawned, LocalSupervisorControl, RegistryControl, spawn_if, control_of, or_default,
  set_supervisor, spawn_control_bridge,
}

module _ (Mailbox Supervisor : Type 0) (k : Text) where
  abbrev R : Type 0
  R = AgentRegistry Mailbox Supervisor

  -- A task that bridges the mailbox of the key to Redis.
  unfoldable pub is_bridge : Spawned Mailbox Supervisor → Bool
  is_bridge (Spawned.mailbox_bridge j m) = j == k
  is_bridge _ = false

  abbrev pub bridges : R → ℕ
  bridges r = count is_bridge r.spawned

  abbrev pub started : R → Bool
  started r = (control_of Mailbox Supervisor k r).mailbox_bridge_started

  pub spawn_counts :
      (b : Bool) (t : Spawned Mailbox Supervisor) (r : R)
      → bridges (spawn_if Mailbox Supervisor b t r)
        ≡ bridges r + (if b then count is_bridge (t ∷ []) else 0)
  unfolding spawn_if
  spawn_counts true t r = count-append is_bridge r.spawned (t ∷ [])
  spawn_counts false t r = omega arith

  -- A control bridge is no mailbox bridge.
  pub control_bridge_counts :
      (b : Bool) (j : Text) (c : Option (LocalSupervisorControl Mailbox Supervisor)) (r : R)
      → (bridges (spawn_control_bridge Mailbox Supervisor b j c r) ≡ bridges r)
        × (started (spawn_control_bridge Mailbox Supervisor b j c r) ≡ started r)
        × ((spawn_control_bridge Mailbox Supervisor b j c r).has_redis ≡ r.has_redis)
  unfolding spawn_control_bridge spawn_if is_bridge
  control_bridge_counts b j none r = (refl, refl, refl)
  control_bridge_counts true j (some s) r = (
    ground (arith, count-append is_bridge r.spawned (Spawned.control_bridge j s ∷ [])),
    refl,
    refl,
  )
  control_bridge_counts false j (some s) r = (refl, refl, refl)

  pub started-insert :
      (j : Text) (c : RegistryControl Mailbox Supervisor) (r r' : R)
      → r'.controls ≡ Table.insert j c r.controls
      → started r' ≡ (if j == k then c.mailbox_bridge_started else started r)
  unfolding or_default
  started-insert j c r r' e =
      ap (λ t. (or_default Mailbox Supervisor (Table.get k t)).mailbox_bridge_started) e
      ∙ ap (λ o. (or_default Mailbox Supervisor o).mailbox_bridge_started)
          (get-insert j k c r.controls)
      ∙ split (j == k)
    where
      split :
          (b : Bool)
          → (or_default Mailbox Supervisor
              (if b then some c else Table.get k r.controls)).mailbox_bridge_started
            ≡ (if b then c.mailbox_bridge_started else started r)
      split true = refl
      split false = refl

  pub set_supervisor_keeps :
      (o : Option Text) (s : Supervisor) (c : RegistryControl Mailbox Supervisor)
      → (set_supervisor Mailbox Supervisor o s c).mailbox_bridge_started ≡ c.mailbox_bridge_started
  unfolding set_supervisor
  set_supervisor_keeps none s c = refl
  set_supervisor_keeps (some id) s c = refl

  pub same_flag :
      (j : Text) (r : R)
      → (if j == k then (control_of Mailbox Supervisor j r).mailbox_bridge_started else started r)
        ≡ started r
  same_flag j r = elim (Bool-cases (j == k)) [
    | inl same ↦ rw same (
        ap (λ x. (control_of Mailbox Supervisor x r).mailbox_bridge_started)
          ((text_beq_iff j k).0 same))
    | inr other ↦ rw other refl
  ]

  pub spawn_none :
      (b : Bool) (t : Spawned Mailbox Supervisor) (r : R)
      → is_bridge t ≡ false
      → bridges (spawn_if Mailbox Supervisor b t r) ≡ bridges r + 0
  unfolding spawn_if
  spawn_none true t r h = ground (arith, count-append is_bridge r.spawned (t ∷ []))
  spawn_none false t r h = omega arith

  pub removed :
      (j : Text) (r : R)
      → (or_default Mailbox Supervisor
          (Table.get k (Table.remove j r.controls))).mailbox_bridge_started
        ≡ (if j == k then false else started r)
  unfolding or_default
  removed j r =
      ap (λ o. (or_default Mailbox Supervisor o).mailbox_bridge_started) (get-remove j k r.controls)
      ∙ split (j == k)
    where
      split :
          (b : Bool)
          → (or_default Mailbox Supervisor
              (if b then none else Table.get k r.controls)).mailbox_bridge_started
            ≡ (if b then false else started r)
      split true = refl
      split false = refl
