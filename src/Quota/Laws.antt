-- ===== src/Quota/Laws.antt =====
-- The quota against its specification, a number of permits held for each agent.
use puff.Common.{
  ℕ, zero, suc, ◌+◌, ◌<◌, ◌≡◌, refl, ◌∙◌, Bool, true, false, Text, text_eq, ◌==◌, arith,
  if◌then◌else◌, Option-cases, inl, inr, ◌⊎◌,
}
use puff.Common.Table
use puff.Common.Table.{Table, get-insert, get-update}
use puff.Quota.{
  Semaphores, ConnectionQuota, new, semaphore_of, store, try_acquire, drop_permit, available,
}

-- How many permits each agent holds.
abbrev pub Held : Type 0
Held = Text → ℕ

abbrev pub set_held : Text → ℕ → Held → Held
set_held a n held x = if a == x then n else held x

module _ (tokio : Semaphores) where
  -- What is available and what is held make up the maximum, for every agent.
  pub record Counts (q : ConnectionQuota tokio) (held : Held) : Type 0 where
    pub total : (x : Text) → available tokio x q + held x ≡ q.max_per_agent

  pub new-Counts : (n : ℕ) → Counts (new tokio n) (λ x. 0)
  unfolding new available Table.get
  new-Counts n = record { total = λ x. omega arith }

  available-semaphore_of :
      (a : Text) (q : ConnectionQuota tokio)
      → tokio.available_permits (semaphore_of tokio a q) ≡ available tokio a q
  unfolding semaphore_of available
  available-semaphore_of a q = elim (Option-cases (Table.get a q.semaphores)) [
    | inl e ↦ rw (e, semaphore_of, available) (tokio.available-new q.max_per_agent)
    | inr (s, e) ↦ rw (e, semaphore_of, available)
  ]

  available-store :
      (a x : Text) (s : tokio.Semaphore) (q : ConnectionQuota tokio)
      → available tokio x (store tokio a s q)
        ≡ (if a == x then tokio.available_permits s else available tokio x q)
  unfolding store available
  available-store a x s q = ground (arith, get-insert a x s q.semaphores)

  stored-Counts :
      (q : ConnectionQuota tokio) (held : Held) (a : Text) (s : tokio.Semaphore) (n : ℕ)
      → Counts q held
      → tokio.available_permits s + n ≡ q.max_per_agent
      → Counts (store tokio a s q) (set_held a n held)
  unfolding store
  stored-Counts q held a s n c e = record {
    total = λ x. ground (arith, available-store a x s q, c.total x);
  }

  -- Storing a semaphore with as many permits as before changes nothing.
  kept-Counts :
      (q : ConnectionQuota tokio) (held : Held) (a : Text) (s : tokio.Semaphore)
      → Counts q held
      → tokio.available_permits s ≡ available tokio a q
      → Counts (store tokio a s q) held
  unfolding store
  kept-Counts q held a s c e = record {
    total = λ x. ground (arith, available-store a x s q, c.total x, c.total a, text_eq.beq_iff a x);
  }

  -- The agent holds fewer permits than the maximum and gets one, or it holds them all and gets none. The
  -- other agents' permits stay as they are.
  abbrev pub Acquires : ConnectionQuota tokio → Held → Text → Bool × ConnectionQuota tokio → Type 0
  Acquires q held a r =
      ((held a < q.max_per_agent) × (r.0 ≡ true) × Counts r.1 (set_held a (suc (held a)) held))
      ⊎ ((held a ≡ q.max_per_agent) × (r.0 ≡ false) × Counts r.1 held)

  Acquires-with :
      (q : ConnectionQuota tokio) (held : Held) (a : Text) (n : ℕ)
      → available tokio a q ≡ n
      → Counts q held
      → Acquires q held a (try_acquire tokio a q)
  unfolding try_acquire
  Acquires-with q held a zero e c =
      let none_left = tokio.full (semaphore_of tokio a q) (available-semaphore_of a q ∙ e) in
      rw (none_left, try_acquire)
        (inr (
          omega (arith, c.total a),
          refl,
          kept-Counts q held a (semaphore_of tokio a q) c (available-semaphore_of a q),
        ))
  Acquires-with q held a (suc n) e c =
      let (t, got, left) =
        tokio.takes (semaphore_of tokio a q) n (available-semaphore_of a q ∙ e) in
      rw (got, try_acquire)
        (inl (
          omega (arith, c.total a),
          refl,
          stored-Counts q held a t (suc (held a)) c (omega (arith, c.total a)),
        ))

  -- `try_acquire` gives an agent a permit exactly while it holds fewer than `max_per_agent`, and then
  -- counts it as held; the other agents' permits stay as they are.
  pub try_acquire_refines :
      (q : ConnectionQuota tokio) (held : Held) (a : Text)
      → Counts q held
      → Acquires q held a (try_acquire tokio a q)
  try_acquire_refines q held a c = Acquires-with q held a (available tokio a q) refl c

  -- Dropping a permit that is held gives it back to its agent, and to no other.
  pub drop_permit_refines :
      (q : ConnectionQuota tokio) (held : Held) (a : Text) (n : ℕ)
      → Counts q held
      → held a ≡ suc n
      → Counts (drop_permit tokio a q) (set_held a n held)
  unfolding drop_permit available
  drop_permit_refines q held a n c h = record {
    total = λ x. elim (Option-cases (Table.get x q.semaphores)) [
      | inl e ↦
          ground (arith, get-update a x tokio.release q.semaphores, c.total x, text_eq.beq_iff a x)
      | inr (s, e) ↦ ground (
        arith,
        get-update a x tokio.release q.semaphores,
        tokio.gives_back s,
        c.total x,
        text_eq.beq_iff a x,
      )
    ];
  }
