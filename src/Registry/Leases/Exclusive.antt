-- ===== src/Registry/Leases/Exclusive.antt =====
-- While a lease lasts, no other process claims the agent.
use puff.Common.{
  ℕ, ◌&&◌, not, ◌+◌, ◌≤◌, ◌<◌, ◌≡◌, ◌≢◌, refl, sym, ◌∙◌, Bool, true, false, Option, some, List, [],
  ◌∷◌, Text, contains, Result, ok, err, ◌==◌, text_eq, text_beq_iff, if◌then◌else◌, if_cases,
  Bool-cases, inl, inr, arith,
}
use puff.Registry.{AgentRegistry}
use puff.Registry.Remote.{AgentRegistryError}
use puff.Registry.Leases.{
  Backend, named_agent_lease_key, named_agent_lease_ttl_secs, is_own, Claimed, by_owner, by_set,
  by_current, try_claim_named_agent, renew_round, release_lease,
}
use puff.Registry.Leases.Laws.{Laws}
use puff.Registry.Leases.Holding.{
  In, Holds, is_own-some, Holds-set, Holds-by_set, Holds-claims, Holds-renews, Holds-releases,
  Holds-anew, Holds-by_current,
}

module _ (Mailbox Supervisor : Type 0) (b : Backend) (l : Laws b) (key owner : Text) where
  abbrev R : Type 0
  R = AgentRegistry Mailbox Supervisor

  abbrev HasLease : ℕ → ℕ → b.Store → Type 0
  HasLease = Holds Mailbox Supervisor b l key owner

  -- What the processes do about leases, each with its own registry.
  pub data Act : Type 0 where
    claims renews releases : Text → R → Act

  pub acted : ℕ → Act → b.Store → b.Store
  acted now (claims j r) s = (try_claim_named_agent Mailbox Supervisor b j r now s).0
  acted now (renews j r) s = (renew_round Mailbox Supervisor b j r now s).0
  acted now (releases j r) s = release_lease Mailbox Supervisor b j r now s

  abbrev is_granted : Result AgentRegistryError Bool → Bool
  is_granted (ok granted) = granted
  is_granted (err e) = false

  -- Whether the key is claimed for another process, and the claim is granted.
  pub grants : ℕ → Act → b.Store → Bool
  grants now (claims j r) s =
      (j == key && not (r.owner_id == owner))
      && is_granted (try_claim_named_agent Mailbox Supervisor b j r now s).2
  grants now _ s = false

  pub granted_to_others : List (ℕ × Act) → b.Store → ℕ
  granted_to_others [] s = 0
  granted_to_others ((now, a) ∷ more) s =
      (if grants now a s then 1 else 0) + granted_to_others more (acted now a s)

  -- Processes have Redis, and the owner does not give the key up.
  unfoldable pub IsFair : Act → Type 0
  IsFair (claims j r) = r.has_redis ≡ true
  IsFair (renews j r) = Unit
  IsFair (releases j r) = (j == key && r.owner_id == owner) ≡ false

  -- The acts are in the order of their times, which lie between two times.
  unfoldable pub Within : ℕ → ℕ → List (ℕ × Act) → Type 0
  Within now until [] = Unit
  Within now until ((t, a) ∷ more) = (now ≤ t) × (t < until) × IsFair a × Within t until more

  refused :
      (r : R) (now until : ℕ) (x : b.Store × Result Text Bool)
      → now < until
      → (r.owner_id == owner) ≡ false
      → HasLease now until x.0
      → x.1 ≢ ok true
      → is_granted (by_set Mailbox Supervisor b key r now x).2 ≡ false
  refused r now until (s, err e) i f h n = refl
  refused r now until (s, ok true) i f h n = absurd (n refl)
  refused r now until (s, ok false) i f h n =
      owner_case (b.get_value (named_agent_lease_key key) now s) refl
    where
      owner_case :
          (o : Result Text (Option Text))
          → b.get_value (named_agent_lease_key key) now s ≡ o
          → is_granted (by_owner Mailbox Supervisor b key r s o).2 ≡ false
      owner_case (err e) p = refl
      owner_case (ok current) p = elim (Bool-cases (is_own current r.owner_id)) [
        | inl own ↦
            let is_owner =
              is_own-some current owner r.owner_id
                (l.get_reads _ now s current p ∙ h now (omega arith) i) own in
            absurd (ground (arith, (text_beq_iff r.owner_id owner).1 (sym is_owner)))
        | inr other ↦ rw other refl
      ]

  if_redis :
      (c : Bool) (x y : Claimed Mailbox Supervisor b)
      → c ≡ true
      → is_granted x.2 ≡ false
      → is_granted (if c then x else y).2 ≡ false
  if_redis true x y h k = k
  if_redis false x y h k = cc

  claim_refused :
      (r : R) (now until : ℕ) (s : b.Store)
      → now < until
      → r.has_redis ≡ true
      → (r.owner_id == owner) ≡ false
      → HasLease now until s
      → is_granted (try_claim_named_agent Mailbox Supervisor b key r now s).2 ≡ false
  unfolding try_claim_named_agent
  claim_refused r now until s i f not_own h =
      let k = named_agent_lease_key key in
      let x = b.set_nx_ex k r.owner_id named_agent_lease_ttl_secs now s in
      if_redis r.has_redis (by_set Mailbox Supervisor b key r now x) (s, r, ok true) f
        (refused r now until x i not_own
          (Holds-set Mailbox Supervisor b l key owner k r.owner_id named_agent_lease_ttl_secs now
            until s i h)
          (λ e. absurd (
            ground (
              arith,
              l.set_if_absent k r.owner_id named_agent_lease_ttl_secs now s e,
              h now (omega arith) i,
            ))))

  grants_none :
      (j : Text) (r : R) (now until : ℕ) (s : b.Store)
      → now < until
      → r.has_redis ≡ true
      → HasLease now until s
      → grants now (claims j r) s ≡ false
  unfolding grants
  grants_none j r now until s i f h = elim (Bool-cases (j == key)) [
    | inr other ↦ rw other refl
    | inl same ↦ elim (Bool-cases (r.owner_id == owner)) [
      | inl own ↦ rw (same, own) refl
      | inr not_own ↦
          rw (same, not_own, (text_beq_iff j key).0 same)
            (claim_refused r now until s i f not_own h)
    ]
  ]

  IsFair-acts :
      (now until : ℕ) (a : Act) (s : b.Store)
      → In Mailbox Supervisor b l key owner now until
      → IsFair a
      → HasLease now until s
      → HasLease now until (acted now a s) × (grants now a s ≡ false)
  unfolding acted grants IsFair
  IsFair-acts now until (claims j r) s i f h = (
    Holds-claims Mailbox Supervisor b l key owner j r now until s i h,
    grants_none j r now until s i.0 f h,
  )
  IsFair-acts now until (renews j r) s i f h =
      (Holds-renews Mailbox Supervisor b l key owner j r now until s i h, refl)
  IsFair-acts now until (releases j r) s i f h =
      (Holds-releases Mailbox Supervisor b l key owner j r now until s i.0 f h, refl)

  none_granted :
      (acts : List (ℕ × Act)) (now until : ℕ) (s : b.Store)
      → until ≤ now + named_agent_lease_ttl_secs
      → Within now until acts
      → HasLease now until s
      → granted_to_others acts s ≡ 0
  unfolding granted_to_others Within
  none_granted [] now until s le w h = refl
  none_granted ((t, a) ∷ more) now until s le (after, before, fair, w) h =
      let i : In Mailbox Supervisor b l key owner t until = (before, omega arith) in
      let (h', refused_now) = IsFair-acts t until a s i fair (λ u le' lt. h u (omega arith) lt) in
      let rest = none_granted more t until (acted t a s) (i.1) w h' in
      ground (arith, rest, refused_now)

  -- The owner has the lease anew: SET has set the key, or GET has found the owner's id, and the lease is renewed.
  unfoldable pub IsTaken : ℕ → Act → b.Store → Type 0
  IsTaken now (claims j r) s =
      (j ≡ key)
      × (r.owner_id ≡ owner)
      × (r.has_redis ≡ true)
      × ((b.set_nx_ex (named_agent_lease_key key) owner named_agent_lease_ttl_secs now s).1
          ≡ ok true)
  IsTaken now (renews j r) s =
      (j ≡ key)
      × (r.owner_id ≡ owner)
      × (contains r.leased_keys key ≡ true)
      × (b.get_value (named_agent_lease_key key) now s ≡ ok (some owner))
  IsTaken now (releases j r) s = ⊥

  IsTaken-Holds :
      (now : ℕ) (a : Act) (s : b.Store)
      → IsTaken now a s
      → HasLease now (now + named_agent_lease_ttl_secs) (acted now a s)
  unfolding IsTaken acted try_claim_named_agent renew_round
  IsTaken-Holds now (claims j r) s (at_key, is_owner, with_redis, set) =
      let x = b.set_nx_ex (named_agent_lease_key j) r.owner_id named_agent_lease_ttl_secs now s in
      if_cases
        (λ (c : Claimed Mailbox Supervisor b). HasLease now (now + named_agent_lease_ttl_secs) c.0)
        r.has_redis {x = by_set Mailbox Supervisor b j r now x} {y = (s, r, ok true)}
        (λ y.
          Holds-by_set Mailbox Supervisor b l key owner j r now (now + named_agent_lease_ttl_secs) x
            (Holds-anew Mailbox Supervisor b l key owner j r.owner_id now s at_key is_owner set))
        (λ n. absurd (ground (arith, n, with_redis)))
  IsTaken-Holds now (renews j r) s (at_key, is_owner, leased, found) =
      if_cases (λ (c : b.Store × R × Bool). HasLease now (now + named_agent_lease_ttl_secs) c.0)
        (contains r.leased_keys j)
        {x = by_current Mailbox Supervisor b j r now s
          (b.get_value (named_agent_lease_key j) now s)}
        {y = (s, r, false)}
        (λ y.
          rw at_key
            (Holds-by_current Mailbox Supervisor b l key owner r now s _ refl found is_owner))
        (λ n. absurd (ground (arith, n, at_key, leased)))
  IsTaken-Holds now (releases j r) s x = elim x [ ]

  -- Where Redis keeps to its manual: after a process has claimed a named agent by setting its lease, or has renewed
  -- the lease, no claim of the agent by another process is granted for 30 seconds, whatever claims, renewals
  -- and releases follow, if the owner does not release it and nothing comes between the GET and DEL of a release.
  pub taken_is_exclusive :
      (now : ℕ) (a : Act) (s : b.Store) (acts : List (ℕ × Act))
      → IsTaken now a s
      → Within now (now + named_agent_lease_ttl_secs) acts
      → granted_to_others acts (acted now a s) ≡ 0
  taken_is_exclusive now a s acts taken within =
      none_granted acts now (now + named_agent_lease_ttl_secs) (acted now a s) (omega arith) within
        (IsTaken-Holds now a s taken)
