-- ===== src/Budget/Execution.antt =====
-- `ExecutionBudget` and `SharedToolLoopBudget` of
-- src/tracer_agent/worker/agents/runtime/llm/budget.py. The two numbers of the pacing contract are
-- parameters: how many calls the landing keeps in reserve, and the ceiling that the provider
-- backstop puts above the dollar limit. Dollars are whole multiples of a small unit, and a share of
-- the budget is given in millionths.
use tracer_agent_python.Prelude.{
  ℕ, ◌+◌, ◌-◌, ◌*◌, ◌/◌, Bool, true, false, ◌||◌, Option, none, some, ltb, leb, if◌then◌else◌, min,
  max,
}
use tracer_agent_python.Budget.Lease.{AgentBudgetLease}

-- `pacing.landingReserve` of the contract file execution.budget.json.
pub record Pacing : Type 0 where
  pub landing_reserve_calls : ℕ
  pub provider_budget_backstop : ℕ → ℕ

pub data BudgetError : Type 0 where
  -- `BudgetExceeded`: the price is not known, the execution or the loop is over its ceiling
  cannot_price execution_exceeded loop_exceeded : BudgetError
  -- `ValueError` and `RuntimeError` of `reserve` and of the turn ledger
  negative_turns bad_share no_turn_ledger : BudgetError

pub data Result {ℓ} (A : Type ℓ) : Type ℓ where
  ok : A → Result A
  err : BudgetError → Result A

pub record ExecutionBudget : Type 0 where
  pub max : ℕ
  pub spent : ℕ
  pub peak : ℕ
  pub remaining_turns : Option ℕ
  pub remaining_budget_usd : ℕ

pub record ToolLoopBudget : Type 0 where
  pub max : ℕ
  pub spent : ℕ
  pub peak : ℕ
  pub landed : Bool

-- `ExecutionBudget.__init__`
unfoldable pub new_execution : ℕ → Option ℕ → ℕ → ℕ → ExecutionBudget
new_execution max_cost_usd max_turns spent_usd turns_used = record {
  max = max_cost_usd;
  spent = spent_usd;
  peak = 0;
  remaining_turns = elim max_turns [ none ↦ none | some turns ↦ some (turns - turns_used) ];
  remaining_budget_usd = max_cost_usd - spent_usd;
}

-- `ExecutionBudget.new_loop`
unfoldable pub new_loop : ExecutionBudget → Option ℕ → ToolLoopBudget
new_loop execution max_cost_usd = record {
  max = elim max_cost_usd [ none ↦ execution.max | some usd ↦ min usd execution.max ];
  spent = 0;
  peak = 0;
  landed = false;
}

-- `single_loop_budget`: the spend of an earlier attempt is where the execution starts.
unfoldable pub single_loop_budget : ℕ → ℕ → ExecutionBudget × ToolLoopBudget
unfolding new_execution new_loop
single_loop_budget max_cost_usd spent =
    let execution = new_execution max_cost_usd none spent 0 in (execution, new_loop execution none)

-- A signed argument `turns` of `reserve`; `minus n` is -(n + 1).
pub data Turns : Type 0 where
  turns : ℕ → Turns
  minus : ℕ → Turns

abbrev pub share_unit : ℕ
share_unit = 1000000

-- The signed argument `budget_share` of `reserve`; `below_zero n` is -(n + 1) / `share_unit`.
pub data Share : Type 0 where
  share_of : ℕ → Share
  below_zero : ℕ → Share

-- `not (0.0 <= budget_share <= 1.0)` is `none`.
abbrev pub checked_share : Share → Option ℕ
checked_share (share_of budget_share) =
    if leb budget_share share_unit then some budget_share else none
checked_share (below_zero _) = none

-- `reserve`: the lease and the execution that has parted with it
unfoldable pub reserve :
    ExecutionBudget → Turns → Share → Result (AgentBudgetLease × ExecutionBudget)
reserve execution (minus _) budget_share = err negative_turns
reserve execution (turns asked) budget_share = elim (checked_share budget_share) [
  | none ↦ err bad_share
  | some share ↦ elim execution.remaining_turns [
    | none ↦ err no_turn_ledger
    | some left ↦
        let granted_turns = min asked left in
        let granted_usd = execution.remaining_budget_usd * share / share_unit in
        ok (
          record { max_turns = granted_turns; max_cost_usd = granted_usd },
          record execution {
            remaining_turns = some (left - granted_turns);
            remaining_budget_usd = execution.remaining_budget_usd - granted_usd;
          },
        )
  ]
]

module _ (pacing : Pacing) where
  unfoldable pub ceiling : ℕ → ℕ → Bool → ℕ
  ceiling max_cost_usd peak_call_cost_usd landed =
      if landed
      then max_cost_usd + peak_call_cost_usd * pacing.landing_reserve_calls
      else max_cost_usd

  unfoldable pub execution_ceiling : ℕ → ℕ → Bool → ℕ
  unfolding ceiling
  execution_ceiling max_cost_usd peak_call_cost_usd landed =
      min (ceiling max_cost_usd peak_call_cost_usd landed)
        (pacing.provider_budget_backstop max_cost_usd)

  -- `ExecutionBudget.charge`: the cost is written before the ceilings are looked at. `outcome` is
  -- `none` where the call returns, and the exception where it raises.
  unfoldable pub charge_execution :
      ExecutionBudget → ℕ → ToolLoopBudget → ℕ → Option BudgetError × ExecutionBudget
  unfolding execution_ceiling
  charge_execution execution cost loop loop_peak =
      let execution_limit = execution_ceiling execution.max execution.peak loop.landed in
      let loop_limit = ceiling loop.max (max loop_peak execution.peak) loop.landed in
      let spent' = execution.spent + cost in
      let execution' = record execution { spent = spent'; peak = max execution.peak cost } in
      if ltb execution_limit spent'
      then (some execution_exceeded, execution')
      else if ltb loop_limit loop.spent
      then (some loop_exceeded, execution')
      else (none, execution')

  -- `SharedToolLoopBudget.charge`; `price` is what `ModelRates.estimate_cost_usd` answers.
  unfoldable pub charge :
      ExecutionBudget
      → ToolLoopBudget
      → Option ℕ
      → Option BudgetError × ExecutionBudget × ToolLoopBudget
  unfolding charge_execution
  charge execution loop none = (some cannot_price, execution, loop)
  charge execution loop (some cost) =
      let loop' = record loop { spent = loop.spent + cost; peak = max loop.peak cost } in
      let (outcome, execution') = charge_execution execution cost loop' loop.peak in
      (outcome, execution', loop')

  -- `landing`: is there only room left for the closing calls?
  unfoldable pub landing : ExecutionBudget → ToolLoopBudget → Bool
  landing execution loop =
      leb loop.max (loop.spent + loop.peak * pacing.landing_reserve_calls)
      || leb execution.max (execution.spent + execution.peak * pacing.landing_reserve_calls)

-- `land`
unfoldable pub land : ToolLoopBudget → ToolLoopBudget
land loop = record loop { landed = true }
