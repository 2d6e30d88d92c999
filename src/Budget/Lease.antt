-- ===== src/Budget/Lease.antt =====
-- Leases and the spend channels of the graph state
-- (src/tracer_agent/worker/agents/runtime/llm/budget.py,
-- src/tracer_agent/shared/agents/shared/graph_state.py). Dollars are whole multiples of a small
-- unit, so that sums, differences and minima are exact; none is ever negative.
use tracer_agent_python.Prelude.{ℕ, ◌+◌, ◌-◌, List, min, sum, map}

pub record AgentBudgetLease : Type 0 where
  pub max_turns : ℕ
  pub max_cost_usd : ℕ

abbrev pub lease_turns : AgentBudgetLease → ℕ
lease_turns lease = lease.max_turns

abbrev pub lease_usd : AgentBudgetLease → ℕ
lease_usd lease = lease.max_cost_usd

unfoldable pub combine_leases : List AgentBudgetLease → AgentBudgetLease
combine_leases leases = record {
  max_turns = sum (map lease_turns leases);
  max_cost_usd = sum (map lease_usd leases);
}

-- `SpendChannels`: the update of one call, and what the state has accumulated.
pub record SpendChannels : Type 0 where
  pub model_cost_usd : ℕ
  pub model_turns_used : ℕ
  pub pool_cost_usd : ℕ
  pub pool_turns_used : ℕ
  pub floor_cost_usd : ℕ
  pub floor_turns_used : ℕ

abbrev pub fresh_spend_channels : SpendChannels
fresh_spend_channels = record {
  model_cost_usd = 0;
  model_turns_used = 0;
  pool_cost_usd = 0;
  pool_turns_used = 0;
  floor_cost_usd = 0;
  floor_turns_used = 0;
}

-- `TurnCeilingState`: the channels with the two ceilings of the pool.
pub record TurnCeilingState : Type 0 where
  pub channels : SpendChannels
  pub open channels use *
  pub max_cost_usd : ℕ
  pub max_turns : ℕ

-- The reducer `operator.add` on every channel.
unfoldable pub add_spend : SpendChannels → SpendChannels → SpendChannels
add_spend a b = record {
  model_cost_usd = a.model_cost_usd + b.model_cost_usd;
  model_turns_used = a.model_turns_used + b.model_turns_used;
  pool_cost_usd = a.pool_cost_usd + b.pool_cost_usd;
  pool_turns_used = a.pool_turns_used + b.pool_turns_used;
  floor_cost_usd = a.floor_cost_usd + b.floor_cost_usd;
  floor_turns_used = a.floor_turns_used + b.floor_turns_used;
}

unfoldable pub settle : TurnCeilingState → SpendChannels → TurnCeilingState
unfolding add_spend
settle state update = record state { channels = add_spend state.channels update }

-- `max(ceiling - used, 0)`: subtraction of naturals already stops at 0.
unfoldable pub remaining_cost_usd : TurnCeilingState → ℕ
remaining_cost_usd state = state.max_cost_usd - state.pool_cost_usd

unfoldable pub remaining_turns : TurnCeilingState → ℕ
remaining_turns state = state.max_turns - state.pool_turns_used

unfoldable pub reserved_spend : ℕ → ℕ → SpendChannels
reserved_spend cost_usd turns_used = record {
  model_cost_usd = cost_usd;
  model_turns_used = turns_used;
  pool_cost_usd = 0;
  pool_turns_used = 0;
  floor_cost_usd = 0;
  floor_turns_used = 0;
}

unfoldable pub pool_spend : ℕ → ℕ → SpendChannels
pool_spend cost_usd turns_used = record {
  model_cost_usd = cost_usd;
  model_turns_used = turns_used;
  pool_cost_usd = cost_usd;
  pool_turns_used = turns_used;
  floor_cost_usd = 0;
  floor_turns_used = 0;
}

unfoldable pub floor_lease : TurnCeilingState → AgentBudgetLease → AgentBudgetLease
floor_lease state reserved = record {
  max_turns = reserved.max_turns - state.floor_turns_used;
  max_cost_usd = reserved.max_cost_usd - state.floor_cost_usd;
}

unfoldable pub floor_then_pool_spend : AgentBudgetLease → ℕ → ℕ → SpendChannels
floor_then_pool_spend floor cost_usd turns_used = record {
  model_cost_usd = cost_usd;
  model_turns_used = turns_used;
  pool_cost_usd = cost_usd - min cost_usd floor.max_cost_usd;
  pool_turns_used = turns_used - min turns_used floor.max_turns;
  floor_cost_usd = min cost_usd floor.max_cost_usd;
  floor_turns_used = min turns_used floor.max_turns;
}
