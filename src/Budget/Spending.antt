-- ===== src/Budget/Spending.antt =====
-- How the settled calls of one execution move the spend channels: the nodes of
-- src/tracer_agent/worker/agents/{recipe_scan,task_cleanup,title_suggestion}/nodes settle each call
-- by `pool_spend`, `floor_then_pool_spend` or `reserved_spend`.
use tracer_agent_python.Prelude.{ℕ, ◌+◌, ◌≤◌, ◌≡◌, [], ◌∷◌, arith}
use tracer_agent_python.Budget.Lease.{
  AgentBudgetLease, SpendChannels, TurnCeilingState, settle, remaining_turns, remaining_cost_usd,
  reserved_spend, pool_spend, floor_lease, floor_then_pool_spend, combine_leases,
}

-- The settlement of a call on the floor lease and the pool splits its spend without remainder,
-- never takes more from the floor than the lease holds, and touches the pool only once the floor
-- is used up; dollars and turns alike.
pub record SplitsSpend (floor : AgentBudgetLease) (cost turns : ℕ) (spend : SpendChannels)
    : Type 0 where
  pub usd_split : spend.floor_cost_usd + spend.pool_cost_usd ≡ cost
  pub turns_split : spend.floor_turns_used + spend.pool_turns_used ≡ turns
  pub usd_in_floor : spend.floor_cost_usd ≤ floor.max_cost_usd
  pub turns_in_floor : spend.floor_turns_used ≤ floor.max_turns
  pub usd_floor_first : 1 ≤ spend.pool_cost_usd → spend.floor_cost_usd ≡ floor.max_cost_usd
  pub turns_floor_first : 1 ≤ spend.pool_turns_used → spend.floor_turns_used ≡ floor.max_turns

pub floor_then_pool_splits :
    (floor : AgentBudgetLease) (cost turns : ℕ)
    → SplitsSpend floor cost turns (floor_then_pool_spend floor cost turns)
unfolding floor_then_pool_spend
floor_then_pool_splits floor cost turns = omega arith

-- One settled call of an execution whose floor reserve is `reserved`. A call uses no more turns
-- than its lease (the call limit of the tool loop); its dollars may pass the lease, since a call
-- is charged after it was answered.
pub data Call (reserved : AgentBudgetLease) (s : TurnCeilingState) (u : TurnCeilingState)
    : Type 0 where
  pooled :
      (cost turns : ℕ)
      → turns ≤ remaining_turns s
      → u ≡ settle s (pool_spend cost turns)
      → Call reserved s u
  floored :
      (cost turns : ℕ)
      → turns
        ≤ (combine_leases (
            floor_lease s reserved
            ∷ record { max_turns = remaining_turns s; max_cost_usd = remaining_cost_usd s }
            ∷ [])).max_turns
      → u ≡ settle s (floor_then_pool_spend (floor_lease s reserved) cost turns)
      → Call reserved s u
  from_reserve : (cost turns : ℕ) → u ≡ settle s (reserved_spend cost turns) → Call reserved s u

pub data Calls (reserved : AgentBudgetLease) (s : TurnCeilingState)
    : TurnCeilingState → Type 0 where
  idle : Calls reserved s s
  after : {t u : TurnCeilingState} → Calls reserved s t → Call reserved t u → Calls reserved s u

-- The pool and the floor reserve are never overdrawn in turns, nor the floor in dollars, and the
-- ceilings stand still.
pub record IsWithin (reserved : AgentBudgetLease) (max_turns : ℕ) (s : TurnCeilingState)
    : Type 0 where
  pub ceiling : s.max_turns ≡ max_turns
  pub pool_turns : s.pool_turns_used ≤ max_turns
  pub floor_turns : s.floor_turns_used ≤ reserved.max_turns
  pub floor_usd : s.floor_cost_usd ≤ reserved.max_cost_usd
  pub turns_counted : s.pool_turns_used + s.floor_turns_used ≤ s.model_turns_used
  pub usd_counted : s.pool_cost_usd + s.floor_cost_usd ≤ s.model_cost_usd

Call-IsWithin :
    {reserved : AgentBudgetLease} (max_turns : ℕ) {s u : TurnCeilingState}
    → Call reserved s u
    → IsWithin reserved max_turns s
    → IsWithin reserved max_turns u
unfolding settle pool_spend reserved_spend remaining_turns floor_lease floor_then_pool_spend
    combine_leases
Call-IsWithin m (pooled cost turns fits e) h = rw e (omega arith)
Call-IsWithin m (floored cost turns fits e) h = rw e (omega arith)
Call-IsWithin m (from_reserve cost turns e) h = rw e (omega arith)

-- Whatever calls an execution settles, in whatever order and number of redispatch rounds: the pool
-- is never overdrawn in turns, the floor reserve is granted once (in turns and dollars) however
-- often the node runs, and the total spend covers both channels.
pub Calls-IsWithin :
    {reserved : AgentBudgetLease} (max_turns : ℕ) {s u : TurnCeilingState}
    → IsWithin reserved max_turns s
    → Calls reserved s u
    → IsWithin reserved max_turns u
Calls-IsWithin m h idle = h
Calls-IsWithin m h (after cs c) = Call-IsWithin m c (Calls-IsWithin m h cs)
