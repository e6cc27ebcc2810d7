-- ===== src/Registry/Steps.antt =====
-- What each operation does to the bridges to Redis for the mailbox of a key.
use puff.Common.{
  ℕ, ◌+◌, ◌≡◌, refl, ap, ◌∙◌, Bool, true, false, ◌&&◌, ◌||◌, not, Bool-cases, inl, inr, some, [],
  ◌∷◌, Text, count-append, if_keeps, if◌then◌else◌, ◌==◌, text_eq, arith, text_beq, is_some,
  contains,
}
use puff.Common.Sorted.{put}
use puff.Common.Table as Table
use puff.Common.Table.{get-insert, get-remove}
use puff.Registry.{
  AgentRegistryEntry, AgentRegistry, Spawned, spawn_if, register, stamped, unregister, get,
  control_of, set_supervisor, starts_mailbox_bridge, starts_control_bridge, mark_control_bridge,
  mark_mailbox_bridge, register_mailbox, register_supervisor_entry, start_named_agent_lease,
}
use puff.Registry.Counts.{
  is_bridge, bridges, started, spawn_counts, control_bridge_counts, started-insert,
  set_supervisor_keeps, same_flag, spawn_none, removed,
}

-- The arithmetic of one registration, by the flags.
new_bridge :
    (same before flag now redis : Bool) (n m : ℕ)
    → redis ≡ true
    → n ≡ m + 0
    → now ≡ before
    → (if same then before else flag) ≡ flag
    → n + (if redis && not now then (if same then 1 else 0) else 0)
      ≡ m + (if same then (if flag then 0 else 1) else 0)
new_bridge same before flag now redis n m r e f g = ground arith

new_flag :
    (same redis now flag flag' : Bool)
    → redis ≡ true
    → flag' ≡ flag
    → (if same then now || (redis && not now) else flag') ≡ (if same then true else flag)
new_flag same redis now flag flag' r e = ground arith

module _ (Mailbox Supervisor : Type 0) (k : Text) where
  abbrev R : Type 0
  R = AgentRegistry Mailbox Supervisor

  abbrev bridges_of : R → ℕ
  bridges_of = bridges Mailbox Supervisor k

  abbrev started_in : R → Bool
  started_in = started Mailbox Supervisor k

  -- What a step does to the bridges and the flag of the key.
  pub record Steps (r r' : R) (more : ℕ) (flag : Bool) : Type 0 where
    pub redis : r'.has_redis ≡ r.has_redis
    pub counted : bridges_of r' ≡ bridges_of r + more
    pub flag_is : started_in r' ≡ flag

  pub register-Steps :
      (e : AgentRegistryEntry) (now : ℕ) (r : R)
      → Steps r (register Mailbox Supervisor e now r) 0 (started_in r)
  unfolding register spawn_if is_bridge
  register-Steps e now r = record {
    redis = refl;
    counted = elim (Bool-cases r.has_redis) [
      | inl yes' ↦ rw yes' (
          ground (
            arith,
            count-append (is_bridge Mailbox Supervisor k) r.spawned
                (Spawned.store_entry (stamped Mailbox Supervisor e now r) ∷ []),
          ))
      | inr no' ↦ rw no' (omega arith)
    ];
    flag_is = refl;
  }

  pub supervisor-Steps :
      (e : AgentRegistryEntry) (s : Supervisor) (now : ℕ) (r : R)
      → Steps r (register_supervisor_entry Mailbox Supervisor e s now r) 0 (started_in r)
  unfolding register_supervisor_entry mark_control_bridge starts_control_bridge
  supervisor-Steps e s now r =
      let f = register-Steps e now r in
      let r1 = register Mailbox Supervisor e now r in
      let c =
        set_supervisor Mailbox Supervisor e.supervisor_node_id s
          (control_of Mailbox Supervisor e.key r1) in
      let r2 : R = record r1 {
        controls = Table.insert e.key (mark_control_bridge Mailbox Supervisor r1 c) r1.controls;
      } in
      let (n, g, x) =
        control_bridge_counts Mailbox Supervisor k (starts_control_bridge Mailbox Supervisor r1 c)
          e.key c.supervisor r2 in
      record {
        redis = x ∙ f.redis;
        counted = n ∙ f.counted;
        flag_is =
            g
            ∙ started-insert Mailbox Supervisor k e.key _ r1 r2 refl
            ∙ ap (λ b. if e.key == k then b else started_in r1)
                (set_supervisor_keeps Mailbox Supervisor k e.supervisor_node_id s
                  (control_of Mailbox Supervisor e.key r1))
            ∙ same_flag Mailbox Supervisor k e.key r1
            ∙ f.flag_is;
      }

  pub unregister-Steps :
      (j : Text) (r : R)
      → Steps r (unregister Mailbox Supervisor j r) 0 (if j == k then false else started_in r)
  unfolding unregister spawn_if is_bridge
  unregister-Steps j r = record {
    redis = refl;
    counted =
        spawn_none Mailbox Supervisor k (is_some (get Mailbox Supervisor j r) && r.has_redis)
          (Spawned.forget_key j) r refl;
    flag_is = removed Mailbox Supervisor k j r;
  }

  pub lease-Steps :
      (j : Text) (r : R) → Steps r (start_named_agent_lease Mailbox Supervisor j r) 0 (started_in r)
  unfolding start_named_agent_lease spawn_if is_bridge
  lease-Steps j r =
      if_keeps (λ x. Steps r x 0 (started_in r)) (not r.has_redis || contains r.leased_keys j)
        (record { redis = refl; counted = omega arith; flag_is = refl })
        (record {
          redis = refl;
          counted = ground (
            arith,
            count-append (is_bridge Mailbox Supervisor k) r.spawned (Spawned.renew_lease j ∷ []),
          );
          flag_is = refl;
        })

  pub mailbox-Steps :
      (e : AgentRegistryEntry) (m : Mailbox) (s : Supervisor) (now : ℕ) (r : R)
      → r.has_redis ≡ true
      → Steps r
          (register_mailbox Mailbox Supervisor e m s now r)
          (if e.key == k then (if started_in r then 0 else 1) else 0)
          (if e.key == k then true else started_in r)
  unfolding register_mailbox mark_control_bridge mark_mailbox_bridge starts_mailbox_bridge
      starts_control_bridge spawn_if put Table.insert is_bridge text_beq
  mailbox-Steps e m s now r red =
      let f = register-Steps e now r in
      let r1 = register Mailbox Supervisor e now r in
      let c0 = control_of Mailbox Supervisor e.key r1 in
      let c =
        set_supervisor Mailbox Supervisor e.supervisor_node_id s (record c0 { mailbox = some m }) in
      let kept =
        set_supervisor_keeps Mailbox Supervisor k e.supervisor_node_id s
          (record c0 { mailbox = some m }) in
      let b = starts_mailbox_bridge Mailbox Supervisor r1 c in
      let r2 : R = record r1 {
        controls =
            Table.insert e.key
              (mark_control_bridge Mailbox Supervisor r1
                (mark_mailbox_bridge Mailbox Supervisor r1 c))
              r1.controls;
      } in
      let r3 = spawn_if Mailbox Supervisor b (Spawned.mailbox_bridge e.key m) r2 in
      let (n, g, x) =
        control_bridge_counts Mailbox Supervisor k (starts_control_bridge Mailbox Supervisor r1 c)
          e.key c.supervisor r3 in
      record {
        redis = x ∙ f.redis;
        counted =
            n
            ∙ spawn_counts Mailbox Supervisor k b (Spawned.mailbox_bridge e.key m) r2
            ∙ new_bridge (e.key == k) c0.mailbox_bridge_started (started_in r)
                c.mailbox_bridge_started r.has_redis (bridges_of r1) (bridges_of r) red f.counted
                kept (same_flag Mailbox Supervisor k e.key r);
        flag_is =
            g
            ∙ started-insert Mailbox Supervisor k e.key _ r1 r2 refl
            ∙ new_flag (e.key == k) r.has_redis c.mailbox_bridge_started (started_in r)
                (started_in r1) red f.flag_is;
      }
