-- ===== src/Registry/Leases/Holding.antt =====
-- What keeps the lease of an owner.
use puff.Common.{
  ℕ, ◌&&◌, ◌+◌, ◌≤◌, ◌<◌, ◌≡◌, refl, sym, ap, ◌∙◌, Bool, true, false, Option, none, some, Text,
  codes, contains, Result, ok, err, ◌==◌, text_eq, text_beq_iff, if_keeps, if_cases, Bool-cases,
  inl, inr, arith, append_cancel,
}
use puff.Registry.{AgentRegistry, without_key}
use puff.Registry.Leases.{
  Backend, named_agent_lease_key, named_agent_lease_ttl_secs, is_own, Claimed, by_owner, by_set,
  by_current, by_holder, try_claim_named_agent, renew_round, release_lease,
}
use puff.Registry.Leases.Laws.{Laws}

lease_key_inj : (j k : Text) → named_agent_lease_key j ≡ named_agent_lease_key k → j ≡ k
unfolding named_agent_lease_key
lease_key_inj j k h = append_cancel (codes "puff:agents:lease:") h

pub is_own-some : (o : Option Text) (a c : Text) → o ≡ some a → is_own o c ≡ true → a ≡ c
is_own-some none a c h k = cc
is_own-some (some d) a c h k = (cc) ∙ (text_beq_iff d c).0 k

module _ (Mailbox Supervisor : Type 0) (b : Backend) (l : Laws b) (key owner : Text) where
  abbrev R : Type 0
  R = AgentRegistry Mailbox Supervisor

  abbrev pub Holds : ℕ → ℕ → b.Store → Type 0
  Holds now until s =
      (t : ℕ) → now ≤ t → t < until → l.value (named_agent_lease_key key) t s ≡ some owner

  -- What a time of the lease asks of a step at that time.
  abbrev pub In : ℕ → ℕ → Type 0
  In now until = (now < until) × (until ≤ now + named_agent_lease_ttl_secs)

  pub Holds-set :
      (k v : Text) (ttl now until : ℕ) (s : b.Store)
      → now < until
      → Holds now until s
      → Holds now until (b.set_nx_ex k v ttl now s).0
  Holds-set k v ttl now until s i h t le lt =
      l.set_keeps k v ttl now s (named_agent_lease_key key) t owner le (h now (omega arith) i)
        (h t le lt)

  pub Holds-by_set :
      (j : Text) (r : R) (now until : ℕ) (x : b.Store × Result Text Bool)
      → Holds now until x.0
      → Holds now until (by_set Mailbox Supervisor b j r now x).0
  Holds-by_set j r now until (s, err e) h = h
  Holds-by_set j r now until (s, ok true) h = h
  Holds-by_set j r now until (s, ok false) h =
      by_owner_case (b.get_value (named_agent_lease_key j) now s)
    where
      by_owner_case :
          (o : Result Text (Option Text))
          → Holds now until (by_owner Mailbox Supervisor b j r s o).0
      by_owner_case (err e) = h
      by_owner_case (ok current) = elim (Bool-cases (is_own current r.owner_id)) [
        | inl own ↦ rw own h
        | inr other ↦ rw other h
      ]

  pub Holds-claims :
      (j : Text) (r : R) (now until : ℕ) (s : b.Store)
      → In now until
      → Holds now until s
      → Holds now until (try_claim_named_agent Mailbox Supervisor b j r now s).0
  unfolding try_claim_named_agent
  Holds-claims j r now until s i h =
      let x = b.set_nx_ex (named_agent_lease_key j) r.owner_id named_agent_lease_ttl_secs now s in
      if_keeps (λ (c : Claimed Mailbox Supervisor b). Holds now until c.0) r.has_redis
        {x = by_set Mailbox Supervisor b j r now x} {y = (s, r, ok true)}
        (Holds-by_set j r now until x
          (Holds-set _ r.owner_id named_agent_lease_ttl_secs now until s i.0 h))
        h

  pub Holds-renews :
      (j : Text) (r : R) (now until : ℕ) (s : b.Store)
      → In now until
      → Holds now until s
      → Holds now until (renew_round Mailbox Supervisor b j r now s).0
  unfolding renew_round
  Holds-renews j r now until s i h = elim (Bool-cases (contains r.leased_keys j)) [
    | inl leased ↦ rw leased (current_case (b.get_value (named_agent_lease_key j) now s))
    | inr not_leased ↦ rw not_leased h
  ]
    where
      expired :
          Holds now until (b.expire (named_agent_lease_key j) named_agent_lease_ttl_secs now s)
      expired t le lt = elim (Bool-cases (j == key)) [
        | inl same ↦
            rw ((text_beq_iff j key).0 same)
              (l.expire_lives _ _ now t s owner (h now (omega arith) i.0) le (omega (arith, i.1)))
        | inr other ↦
            l.expire_keeps _ _ now s _ t
              (λ e. absurd (ground (arith, text_beq_iff j key, sym (lease_key_inj key j e))))
            ∙ h t le lt
      ]

      current_case :
          (o : Result Text (Option Text))
          → Holds now until (by_current Mailbox Supervisor b j r now s o).0
      current_case (err e) = h
      current_case (ok current) = elim (Bool-cases (is_own current r.owner_id)) [
        | inl own ↦ rw own expired
        | inr other ↦ rw other h
      ]

  pub Holds-releases :
      (j : Text) (r : R) (now until : ℕ) (s : b.Store)
      → now < until
      → (j == key && r.owner_id == owner) ≡ false
      → Holds now until s
      → Holds now until (release_lease Mailbox Supervisor b j r now s)
  unfolding release_lease
  Holds-releases j r now until s i fair h =
      holder_case (b.get_value (named_agent_lease_key j) now s) refl
    where
      deleted :
          (current : Option Text)
          → b.get_value (named_agent_lease_key j) now s ≡ ok current
          → is_own current r.owner_id ≡ true
          → Holds now until (b.del (named_agent_lease_key j) now s)
      deleted current e own t le lt = elim (Bool-cases (j == key)) [
        | inl same ↦
            let at_key : named_agent_lease_key j ≡ named_agent_lease_key key =
              ap named_agent_lease_key ((text_beq_iff j key).0 same) in
            let is_owner =
              is_own-some current owner r.owner_id
                (l.get_reads _ now s current e
                  ∙ ap (λ k. l.value k now s) at_key
                  ∙ h now (omega arith) i)
                own in
            absurd (ground (arith, fair, same, (text_beq_iff r.owner_id owner).1 (sym is_owner)))
        | inr other ↦
            l.del_keeps (named_agent_lease_key j) now s (named_agent_lease_key key) t
              (λ e'. absurd (ground (arith, text_beq_iff j key, sym (lease_key_inj key j e'))))
            ∙ h t le lt
      ]

      holder_case :
          (o : Result Text (Option Text))
          → b.get_value (named_agent_lease_key j) now s ≡ o
          → Holds now until (by_holder Mailbox Supervisor b j r now s o)
      holder_case (err x) e = h
      holder_case (ok current) e = elim (Bool-cases (is_own current r.owner_id)) [
        | inl own ↦ rw own (deleted current e own)
        | inr other ↦ rw other h
      ]

  pub Holds-anew :
      (j o : Text) (now : ℕ) (s : b.Store)
      → j ≡ key
      → o ≡ owner
      → (b.set_nx_ex (named_agent_lease_key key) owner named_agent_lease_ttl_secs now s).1 ≡ ok true
      → Holds now
          (now + named_agent_lease_ttl_secs)
          (b.set_nx_ex (named_agent_lease_key j) o named_agent_lease_ttl_secs now s).0
  Holds-anew j o now s e f h =
      rw (e, f)
        (λ t le lt.
          l.set_lives (named_agent_lease_key key) owner named_agent_lease_ttl_secs now t s h le lt)

  pub Holds-by_current :
      (r : R) (now : ℕ) (s : b.Store) (o : Result Text (Option Text))
      → b.get_value (named_agent_lease_key key) now s ≡ o
      → o ≡ ok (some owner)
      → r.owner_id ≡ owner
      → Holds now
          (now + named_agent_lease_ttl_secs)
          (by_current Mailbox Supervisor b key r now s o).0
  Holds-by_current r now s (err e) p q f = cc
  Holds-by_current r now s (ok none) p q f = cc
  Holds-by_current r now s (ok (some c)) p q f =
      if_cases (λ (x : b.Store × R × Bool). Holds now (now + named_agent_lease_ttl_secs) x.0)
        (c == r.owner_id)
        {x = (b.expire (named_agent_lease_key key) named_agent_lease_ttl_secs now s, r, true)}
        {y = (s, record r { leased_keys = without_key key r.leased_keys }, false)}
        (λ own t le lt.
          l.expire_lives (named_agent_lease_key key) named_agent_lease_ttl_secs now t s owner
            (sym (l.get_reads (named_agent_lease_key key) now s (some owner) (p ∙ q))) le lt)
        (λ other. absurd (ground (arith, other, (text_beq_iff c r.owner_id).1 (cc))))
