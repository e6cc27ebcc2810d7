-- ===== src/Registry/Bridges.antt =====
-- How many bridges to Redis are started for a key.
use puff.Common.{
  ℕ, suc, ◌+◌, ◌≡◌, refl, ap, ◌∙◌, Bool, true, false, List, [], ◌∷◌, Text, if◌then◌else◌, ◌==◌,
  text_eq, arith,
}
use puff.Common.Table as Table
use puff.Common.Table.{get-insert, get-remove}
use puff.Registry.{AgentRegistry, with_backends, or_default}
use puff.Registry.Entries.{
  Op, registers, registers_mailbox, registers_supervisor, unregisters, leases, apply, run,
}
use puff.Registry.Counts.{bridges, started}
use puff.Registry.Steps.{
  Steps, register-Steps, supervisor-Steps, unregister-Steps, lease-Steps, mailbox-Steps,
}

module _ (Mailbox Supervisor : Type 0) (k : Text) where
  abbrev R : Type 0
  R = AgentRegistry Mailbox Supervisor

  abbrev bridges_of : R → ℕ
  bridges_of = bridges Mailbox Supervisor k

  abbrev started_in : R → Bool
  started_in = started Mailbox Supervisor k

  -- The mailboxes that are registered for the key first, at the start or since it was unregistered; the flag
  -- says whether there was one.
  pub first_registered : Bool → List (ℕ × Op Mailbox Supervisor) → ℕ
  first_registered flag [] = 0
  first_registered flag ((now, registers_mailbox e m s) ∷ more) =
      let other = first_registered flag more in
      let same = first_registered true more in
      if e.key == k then (if flag then same else suc same) else other
  first_registered flag ((now, unregisters j) ∷ more) =
      let other = first_registered flag more in
      let same = first_registered false more in if j == k then same else other
  first_registered flag ((now, registers e) ∷ more) = first_registered flag more
  first_registered flag ((now, registers_supervisor e s) ∷ more) = first_registered flag more
  first_registered flag ((now, leases j) ∷ more) = first_registered flag more

  goes_on :
      (more : List (ℕ × Op Mailbox Supervisor)) (r' r : R) (n : ℕ) (flag : Bool)
      → Steps Mailbox Supervisor k r r' n flag
      → r.has_redis ≡ true
      → (r'.has_redis ≡ true
          → bridges_of (run Mailbox Supervisor more r')
            ≡ bridges_of r' + first_registered (started_in r') more)
      → (all : ℕ) → n + first_registered flag more ≡ all
      → bridges_of (run Mailbox Supervisor more r') ≡ bridges_of r + all
  goes_on more r' r n flag st h ih all e =
      let i = ih (st.redis ∙ h) in
      let c = st.counted in let g = ap (λ b. first_registered b more) st.flag_is in omega arith

  after_unregister :
      (more : List (ℕ × Op Mailbox Supervisor)) (same flag : Bool)
      → 0 + first_registered (if same then false else flag) more
        ≡ (if same then first_registered false more else first_registered flag more)
  after_unregister more true flag = omega arith
  after_unregister more false flag = omega arith

  after_mailbox :
      (more : List (ℕ × Op Mailbox Supervisor)) (same flag : Bool)
      → (if same then (if flag then 0 else 1) else 0)
          + first_registered (if same then true else flag) more
        ≡ (if same
            then (if flag then first_registered true more else suc (first_registered true more))
            else first_registered flag more)
  after_mailbox more true true = omega arith
  after_mailbox more true false = omega arith
  after_mailbox more false flag = omega arith

  bridges-run :
      (ops : List (ℕ × Op Mailbox Supervisor)) (r : R)
      → r.has_redis ≡ true
      → bridges_of (run Mailbox Supervisor ops r)
        ≡ bridges_of r + first_registered (started_in r) ops
  unfolding run apply first_registered
  bridges-run [] r h = omega arith
  bridges-run ((now, registers e) ∷ more) r h =
      goes_on more _ r _ (started_in r) (register-Steps Mailbox Supervisor k e now r) h
        (bridges-run more _) _ (omega arith)
  bridges-run ((now, registers_supervisor e s) ∷ more) r h =
      goes_on more _ r _ (started_in r) (supervisor-Steps Mailbox Supervisor k e s now r) h
        (bridges-run more _) _ (omega arith)
  bridges-run ((now, leases j) ∷ more) r h =
      goes_on more _ r _ (started_in r) (lease-Steps Mailbox Supervisor k j r) h
        (bridges-run more _) _ (omega arith)
  bridges-run ((now, unregisters j) ∷ more) r h =
      goes_on more _ r _ _ (unregister-Steps Mailbox Supervisor k j r) h (bridges-run more _) _
        (after_unregister more (j == k) (started_in r))
  bridges-run ((now, registers_mailbox e m s) ∷ more) r h =
      goes_on more _ r _ _ (mailbox-Steps Mailbox Supervisor k e m s now r h) h (bridges-run more _)
        _ (after_mailbox more (e.key == k) (started_in r))

zero_plus : (n : ℕ) → 0 + n ≡ n
zero_plus n = omega arith

-- After any operations on a new registry with Redis, as many tasks that bridge the mailbox of a key to Redis
-- have been started as there are mailboxes that were registered for it first: at the start, or since it was
-- unregistered.
pub bridges-first_registered :
    (Mailbox Supervisor : Type 0) (k owner_id : Text) (ops : List (ℕ × Op Mailbox Supervisor))
    → bridges Mailbox Supervisor k
        (run Mailbox Supervisor ops (with_backends Mailbox Supervisor true owner_id))
      ≡ first_registered Mailbox Supervisor k false ops
unfolding with_backends or_default Table.get
bridges-first_registered Mailbox Supervisor k owner_id ops =
    bridges-run Mailbox Supervisor k ops (with_backends Mailbox Supervisor true owner_id) refl
    ∙ zero_plus _
