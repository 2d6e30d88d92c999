-- ===== src/Budget/Ceilings.antt =====
-- What a charge does to the ledgers of src/tracer_agent/worker/agents/runtime/llm/budget.py, and when it raises.
use native.Mathlib.Nat.{mul-le-mul_right, le-mul_of_pos_right}
use tracer_agent_python.Prelude.{
  Option-cases, ℕ, ◌+◌, ◌-◌, ◌*◌, ◌/◌, ◌≤◌, ◌<◌, ◌≡◌, refl, inl, inr, false, none, some, arith, min,
  max,
}
use tracer_agent_python.Budget.Lease.{AgentBudgetLease}
use tracer_agent_python.Budget.Execution.{
  Pacing, cannot_price, negative_turns, bad_share, no_turn_ledger, Result, ok, err, ExecutionBudget,
  ToolLoopBudget, Turns, turns, minus, Share, share_of, below_zero, share_unit, reserve, ceiling,
  execution_ceiling, charge_execution, charge, landing, land,
}

-- A share from nothing to everything.
abbrev pub IsShare : Share → Type 0
IsShare (share_of n) = n ≤ share_unit
IsShare (below_zero n) = ⊥

-- A share above everything or below nothing.
abbrev pub IsBadShare : Share → Type 0
IsBadShare (share_of n) = share_unit < n
IsBadShare (below_zero n) = Unit

-- What a reservation may answer.
abbrev pub Parts :
    ExecutionBudget → Turns → Share → Result (AgentBudgetLease × ExecutionBudget) → Type 0
Parts e (turns asked) share (ok (lease, e')) =
    (left : ℕ) × (e.remaining_turns ≡ some left)
    × (e'.remaining_turns ≡ some (left - lease.max_turns))
    × (lease.max_turns ≡ min asked left)
    × IsShare share
    × (lease.max_cost_usd ≤ e.remaining_budget_usd)
    × (e'.remaining_budget_usd + lease.max_cost_usd ≡ e.remaining_budget_usd)
    × (e'.spent ≡ e.spent)
Parts e (minus _) share (ok _) = ⊥
Parts e asked share (err negative_turns) = (n : ℕ) × (asked ≡ minus n)
Parts e asked share (err bad_share) = IsBadShare share
Parts e asked share (err no_turn_ledger) = (e.remaining_turns ≡ none) × IsShare share
Parts e asked share (err _) = ⊥

share-le : (usd share : ℕ) → share ≤ share_unit → usd * share / share_unit ≤ usd
share-le usd share h = grind arith

-- A reservation that succeeds moves turns and dollars from the ledger into the lease, and nothing
-- is lost or made; one that fails tells which of its checks failed, on a signed number of turns and
-- a signed share.
pub reserve-Parts :
    (e : ExecutionBudget) (asked : Turns) (share : Share)
    → Parts e asked share (reserve e asked share)
unfolding reserve
reserve-Parts e (minus n) share = (n, refl)
reserve-Parts e (turns asked) (below_zero n) = tt
reserve-Parts e (turns asked) (share_of n) = elim (Option-cases e.remaining_turns) [
  | inl unset ↦ ground arith
  | inr (left, is_set) ↦ ground (arith, share-le e.remaining_budget_usd n)
]

module _ (pacing : Pacing) where
  -- A charge writes the cost to both ledgers on every path, the raising ones included, and raises
  -- both peaks to it; only a call whose price is not known is written nowhere.
  pub charge_records :
      (e : ExecutionBudget) (l : ToolLoopBudget) (cost : ℕ)
      → let (_, e', l') = charge pacing e l (some cost) in
        (e'.spent ≡ e.spent + cost)
        × (l'.spent ≡ l.spent + cost)
        × (e'.peak ≡ max e.peak cost)
        × (l'.peak ≡ max l.peak cost)
        × (charge pacing e l none ≡ (some cannot_price, e, l))
  unfolding charge
  charge_records e l cost = ground arith

  -- A priced charge returns exactly when both ledgers stay within their ceilings, which are taken
  -- from the peaks before the call.
  pub charge_returns_iff :
      (e : ExecutionBudget) (l : ToolLoopBudget) (cost : ℕ)
      → ((charge pacing e l (some cost)).0 ≡ none
          → (e.spent + cost ≤ execution_ceiling pacing e.max e.peak l.landed)
            × (l.spent + cost ≤ ceiling pacing l.max (max l.peak e.peak) l.landed))
        × ((e.spent + cost ≤ execution_ceiling pacing e.max e.peak l.landed)
            → (l.spent + cost ≤ ceiling pacing l.max (max l.peak e.peak) l.landed)
            → (charge pacing e l (some cost)).0 ≡ none)
  unfolding charge charge_execution
  charge_returns_iff e l cost = ground arith

  -- Before the landing no charge that returns leaves either ledger above its dollar limit.
  pub unlanded_within_limit :
      (e : ExecutionBudget) (l : ToolLoopBudget) (cost : ℕ)
      → l.landed ≡ false
      → (charge pacing e l (some cost)).0 ≡ none
      → let (_, e', l') = charge pacing e l (some cost) in (e'.spent ≤ e.max) × (l'.spent ≤ l.max)
  unfolding charge
  unlanded_within_limit e l cost unlanded returned = ground arith

  -- While `landing` says no, a further call that is no dearer than any call of its loop so far can
  -- be charged, if the contract keeps at least one call in reserve and a backstop at or above the limit.
  pub landing_leaves_room :
      (e : ExecutionBudget) (l : ToolLoopBudget) (cost : ℕ)
      → 1 ≤ pacing.landing_reserve_calls
      → e.max ≤ pacing.provider_budget_backstop e.max
      → l.peak ≤ e.peak
      → cost ≤ l.peak
      → landing pacing e l ≡ false
      → (charge pacing e l (some cost)).0 ≡ none
  unfolding charge landing
  landing_leaves_room e l cost one backstop peaks cheap room =
      let scaled = mul-le-mul_right pacing.landing_reserve_calls peaks in
      let loop_scaled = le-mul_of_pos_right l.peak one in
      let execution_scaled = le-mul_of_pos_right e.peak one in ground arith

  -- After the landing, a closing call that is no dearer than the loop's earlier calls can be charged from any
  -- point within both limits, if the backstop leaves room for the reserve.
  pub closing_call_fits :
      (e : ExecutionBudget) (l : ToolLoopBudget) (cost : ℕ)
      → 1 ≤ pacing.landing_reserve_calls
      → e.max + e.peak * pacing.landing_reserve_calls ≤ pacing.provider_budget_backstop e.max
      → l.peak ≤ e.peak
      → cost ≤ l.peak
      → e.spent ≤ e.max
      → l.spent ≤ l.max
      → (charge pacing e (land l) (some cost)).0 ≡ none
  unfolding charge land
  closing_call_fits e l cost one backstop peaks cheap under_e under_l =
      let loop_scaled = le-mul_of_pos_right l.peak one in
      let execution_scaled = le-mul_of_pos_right e.peak one in ground arith
