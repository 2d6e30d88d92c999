-- ===== src/Budget/Tests.antt =====
-- Runs of the budget and the theorems at concrete inputs.
use tracer_agent_python.Prelude.{
  ◌*◌, ◌≤◌, ◌≡◌, refl, false, none, some, List, [], ◌∷◌, arith, min, max, sum, set,
}
use tracer_agent_python.Budget.Lease.{
  AgentBudgetLease, TurnCeilingState, fresh_spend_channels, settle, combine_leases, floor_lease,
  pool_spend, floor_then_pool_spend, remaining_turns, remaining_cost_usd,
}
use tracer_agent_python.Budget.Shares.{clamp_turns_without_leak, quote_shares}
use tracer_agent_python.Budget.NoLeak.{clamp_no_leak}
use tracer_agent_python.Budget.Quotes.{quote_shares_fit}
use tracer_agent_python.Budget.Spending.{
  SplitsSpend, floor_then_pool_splits, Calls, IsWithin, Calls-IsWithin, idle, after, pooled,
  floored,
}
use tracer_agent_python.Budget.FanOut.{Used, settle_all, fan_out-Calls}
use tracer_agent_python.Budget.Execution.{
  Pacing, ExecutionBudget, ToolLoopBudget, turns, share_of, below_zero, err, bad_share, reserve,
  new_execution, new_loop, charge, landing, land, execution_ceiling, ceiling, cannot_price,
  execution_exceeded,
}
use tracer_agent_python.Budget.Ceilings.{
  Parts, reserve-Parts, charge_records, charge_returns_iff, unlanded_within_limit,
  landing_leaves_room, closing_call_fits,
}
use tracer_agent_python.Budget.Sharing.{
  Run, Steps, IsShared, Steps-IsShared, rest, then_step, opens, charges,
}

-- 3 + 8 + 1 turns asked and 7 there: 1, 4 and 1 by proportion, and one more to the largest.
clamp_runs : clamp_turns_without_leak (3 ∷ 8 ∷ 1 ∷ []) 7 ≡ 1 ∷ 5 ∷ 1 ∷ []
unfolding clamp_turns_without_leak
clamp_runs = refl

-- Fewer turns than requests: one to each of the largest.
clamp_few : clamp_turns_without_leak (3 ∷ 8 ∷ 1 ∷ 8 ∷ []) 2 ≡ 0 ∷ 1 ∷ 0 ∷ 1 ∷ []
unfolding clamp_turns_without_leak
clamp_few = refl

clamp_no_leak_example : sum (clamp_turns_without_leak (3 ∷ 8 ∷ 1 ∷ []) 7) ≡ min 12 7
clamp_no_leak_example = clamp_no_leak (3 ∷ 8 ∷ 1 ∷ []) 7 (omega arith)

quote_shares_fit_example :
    ((combine_leases (quote_shares (3 ∷ 8 ∷ 1 ∷ []) 7 1000)).max_turns ≡ min 12 7)
    × ((combine_leases (quote_shares (3 ∷ 8 ∷ 1 ∷ []) 7 1000)).max_cost_usd ≤ 1000)
quote_shares_fit_example = quote_shares_fit (3 ∷ 8 ∷ 1 ∷ []) 7 1000 (omega arith)

abbrev floor : AgentBudgetLease
floor = record { max_turns = 3; max_cost_usd = 200 }

floor_then_pool_splits_example : SplitsSpend floor 250 2 (floor_then_pool_spend floor 250 2)
floor_then_pool_splits_example = floor_then_pool_splits floor 250 2

abbrev start : TurnCeilingState
start = record { channels = fresh_spend_channels; max_cost_usd = 1000; max_turns = 10 }

abbrev probed : TurnCeilingState
probed = settle start (pool_spend 300 4)

abbrev decided : TurnCeilingState
decided = settle probed (floor_then_pool_spend (floor_lease probed floor) 250 5)

probe_and_decide : Calls floor start decided
unfolding settle pool_spend remaining_turns floor_lease combine_leases remaining_cost_usd
probe_and_decide =
    after (after idle (pooled 300 4 (omega arith) refl)) (floored 250 5 (omega arith) refl)

Calls-IsWithin_example : IsWithin floor 10 decided
Calls-IsWithin_example = Calls-IsWithin 10 (omega arith) probe_and_decide

abbrev used : List Used
used = record { cost_usd = 90; turns = 2 } ∷ record { cost_usd = 400; turns = 6 } ∷ []

fan_out-Calls_example : Calls floor start (settle_all start used)
unfolding quote_shares remaining_turns remaining_cost_usd
fan_out-Calls_example = fan_out-Calls start (3 ∷ 8 ∷ 1 ∷ []) used (omega arith) (omega arith)

abbrev pacing : Pacing
pacing = record { landing_reserve_calls = 1; provider_budget_backstop = λ usd. usd * 2 }

abbrev execution : ExecutionBudget
execution = record {
  max = 1000;
  spent = 500;
  peak = 200;
  remaining_turns = some 12;
  remaining_budget_usd = 500;
}

abbrev loop : ToolLoopBudget
loop = record { max = 600; spent = 300; peak = 150; landed = false }

reserve-Parts_example :
    Parts execution (turns 4) (share_of 250000) (reserve execution (turns 4) (share_of 250000))
reserve-Parts_example = reserve-Parts execution (turns 4) (share_of 250000)

negative_share_refused : reserve execution (turns 4) (below_zero 0) ≡ err bad_share
unfolding reserve
negative_share_refused = refl

charge_records_example :
    let (_, e', l') = charge pacing execution loop (some 800) in
    (e'.spent ≡ 1300)
    × (l'.spent ≡ 1100)
    × (e'.peak ≡ max 200 800)
    × (l'.peak ≡ max 150 800)
    × (charge pacing execution loop none ≡ (some cannot_price, execution, loop))
charge_records_example = charge_records pacing execution loop 800

-- The cost of a call that goes over the limit stays in the ledger.
charge_over : charge pacing execution loop (some 800) ≡ (
  some execution_exceeded,
  record execution { spent = 1300; peak = 800 },
  record loop { spent = 1100; peak = 800 },
)
unfolding charge
charge_over = refl

charge_returns_iff_example :
    ((charge pacing execution loop (some 120)).0 ≡ none
      → (620 ≤ execution_ceiling pacing 1000 200 false)
        × (420 ≤ ceiling pacing 600 (max 150 200) false))
    × ((620 ≤ execution_ceiling pacing 1000 200 false)
        → (420 ≤ ceiling pacing 600 (max 150 200) false)
        → (charge pacing execution loop (some 120)).0 ≡ none)
charge_returns_iff_example = charge_returns_iff pacing execution loop 120

unlanded_within_limit_example :
    let (_, e', l') = charge pacing execution loop (some 120) in
    (e'.spent ≤ 1000) × (l'.spent ≤ 600)
unfolding charge
unlanded_within_limit_example = unlanded_within_limit pacing execution loop 120 refl refl

landing_leaves_room_example : (charge pacing execution loop (some 150)).0 ≡ none
unfolding landing
landing_leaves_room_example =
    landing_leaves_room pacing execution loop 150 (omega arith) (omega arith) (omega arith)
      (omega arith) refl

closing_call_fits_example : (charge pacing execution (land loop) (some 150)).0 ≡ none
closing_call_fits_example =
    closing_call_fits pacing execution loop 150 (omega arith) (omega arith) (omega arith)
      (omega arith) (omega arith) (omega arith)

abbrev opened : Run
opened = record { execution = new_execution 1000 none 100 0; loops = [] }

abbrev working : Run
working = record opened { loops = new_loop opened.execution (some 400) ∷ [] }

abbrev charged_once : Run
charged_once =
    let (_, e', l') =
      charge pacing working.execution (new_loop opened.execution (some 400)) (some 70) in
    record { execution = e'; loops = set working.loops 0 l' }

opened-Steps : Steps pacing opened charged_once
opened-Steps =
    then_step (then_step rest (opens (some 400) refl))
      (charges 0 (new_loop opened.execution (some 400)) (some 70) refl refl)

Steps-IsShared_example : IsShared 100 1000 charged_once
unfolding new_execution
Steps-IsShared_example = Steps-IsShared pacing 100 1000 opened-Steps (omega arith)
