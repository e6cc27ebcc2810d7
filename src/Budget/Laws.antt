-- ===== src/Budget/Laws.antt =====
-- When the checks pass, and which limit they report.
use puff.Common.{
  ℕ, ◌≤◌, ◌<◌, ◌≡◌, ◌↔◌, refl, Option, none, some, Text, codes, arith, Result, ok, err, chain-ok,
  chain-err, ◌⊎◌, inl, inr,
}
use puff.Errors.{AgentError, budget_exceeded}
use puff.Budget.{AgentBudgetTracker, check_limit, cost_limit, check_llm_budget}

-- There is no limit, or it is above what has been used.
abbrev pub Under : Option ℕ → ℕ → Type 0
Under none used = Unit
Under (some limit) used = used < limit

-- What a check reports of one resource: a limit that has been reached, as it is.
abbrev pub Reports : Text → Option ℕ → ℕ → AgentError → Type 0
Reports resource none used e = ⊥
Reports resource (some limit) used e = (limit ≤ used) × (e ≡ budget_exceeded resource limit used)

check_limit-ok :
    (r : Text) (o : Option ℕ) (used : ℕ) → (check_limit r o used ≡ ok tt) ↔ Under o used
unfolding check_limit
check_limit-ok r none used = (λ h. tt, λ h. refl)
check_limit-ok r (some limit) used = ground arith

check_limit-err :
    (r : Text) (o : Option ℕ) (used : ℕ) (e : AgentError)
    → (check_limit r o used ≡ err e) ↔ Reports r o used e
unfolding check_limit
check_limit-err r none used e = (λ h. cc, λ h. absurd h)
check_limit-err r (some limit) used e = ground arith

module _ {F64 : Type 0} (micros : F64 → ℕ) (t : AgentBudgetTracker F64) where
  abbrev first : Result AgentError (Unit {0})
  first = check_limit (codes "input_tokens") t.limits.max_input_tokens t.input_tokens_used

  abbrev second : Result AgentError (Unit {0})
  second = check_limit (codes "output_tokens") t.limits.max_output_tokens t.output_tokens_used

  abbrev third : Result AgentError (Unit {0})
  third =
      check_limit (codes "cost_usd") (cost_limit micros t.limits.max_cost_usd) t.cost_microdollars

  -- The check before a request passes exactly when each limit that is set is above its counter.
  pub check_llm_budget_iff : (check_llm_budget micros t ≡ ok tt) ↔ (
      Under t.limits.max_input_tokens t.input_tokens_used
      × Under t.limits.max_output_tokens t.output_tokens_used
      × Under (cost_limit micros t.limits.max_cost_usd) t.cost_microdollars)
  unfolding check_llm_budget
  check_llm_budget_iff = (
    λ h.
        let (a, h') = (chain-ok first _ tt).0 h in
        let (b, c) = (chain-ok second third tt).0 h' in
        ((check_limit-ok _ _ _).0 a, (check_limit-ok _ _ _).0 b, (check_limit-ok _ _ _).0 c),
    λ (a, b, c). (chain-ok first _ tt).1 (
      (check_limit-ok _ _ _).1 a,
      (chain-ok second third tt).1 ((check_limit-ok _ _ _).1 b, (check_limit-ok _ _ _).1 c),
    ),
  )

  -- A refusal names the first of the limits that has been reached, with its counter; the limits are
  -- taken in the order input tokens, output tokens, cost.
  pub check_llm_budget_refuses :
      (e : AgentError)
      → (check_llm_budget micros t ≡ err e) ↔ (
          Reports (codes "input_tokens") t.limits.max_input_tokens t.input_tokens_used e
          ⊎ (Under t.limits.max_input_tokens t.input_tokens_used
              × (Reports (codes "output_tokens") t.limits.max_output_tokens t.output_tokens_used e
                  ⊎ (Under t.limits.max_output_tokens t.output_tokens_used
                      × Reports
                          (codes "cost_usd")
                          (cost_limit micros t.limits.max_cost_usd)
                          t.cost_microdollars
                          e))))
  unfolding check_llm_budget
  check_llm_budget_refuses e = (
    λ h. elim ((chain-err first _ e).0 h) [
      | inl a ↦ inl ((check_limit-err _ _ _ e).0 a)
      | inr (a, h') ↦ inr (
        (check_limit-ok _ _ _).0 a,
        elim ((chain-err second third e).0 h') [
          | inl b ↦ inl ((check_limit-err _ _ _ e).0 b)
          | inr (b, c) ↦ inr ((check_limit-ok _ _ _).0 b, (check_limit-err _ _ _ e).0 c)
        ],
      )
    ],
    λ h. (chain-err first _ e).1 (elim h [
      | inl a ↦ inl ((check_limit-err _ _ _ e).1 a)
      | inr (a, k) ↦ inr (
        (check_limit-ok _ _ _).1 a,
        (chain-err second third e).1 (elim k [
          | inl b ↦ inl ((check_limit-err _ _ _ e).1 b)
          | inr (b, c) ↦ inr ((check_limit-ok _ _ _).1 b, (check_limit-err _ _ _ e).1 c)
        ]),
      )
    ]),
  )
