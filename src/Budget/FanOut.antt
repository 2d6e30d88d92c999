-- ===== src/Budget/FanOut.antt =====
-- A fan-out of src/tracer_agent/worker/agents/recipe_scan/nodes/survey.py and probe.py: the leases
-- are quoted from one snapshot of the pool, and each call settles on its own, in any order.
use tracer_agent_python.Prelude.{ℕ, ◌+◌, ◌≤◌, refl, List, [], ◌∷◌, map, arith, sum, All}
use tracer_agent_python.Budget.Lease.{
  AgentBudgetLease, lease_turns, TurnCeilingState, settle, remaining_turns, remaining_cost_usd,
  pool_spend, combine_leases,
}
use tracer_agent_python.Budget.Shares.{quote_shares}
use tracer_agent_python.Budget.Quotes.{quote_shares_fit}
use tracer_agent_python.Budget.Spending.{Calls, pooled, idle, after}

-- The dollars and turns of one answered call.
pub record Used : Type 0 where
  pub cost_usd : ℕ
  pub turns : ℕ

-- Every call stays within the turns of its own lease.
abbrev pub WithinLeases : List Used → List AgentBudgetLease → Type 0
WithinLeases [] leases = Unit
WithinLeases (u ∷ us) [] = ⊥
WithinLeases (u ∷ us) (l ∷ ls) = (u.turns ≤ l.max_turns) × WithinLeases us ls

unfoldable pub settle_all : TurnCeilingState → List Used → TurnCeilingState
settle_all s [] = s
settle_all s (u ∷ us) = settle_all (settle s (pool_spend u.cost_usd u.turns)) us

abbrev total_turns : List Used → ℕ
total_turns [] = 0
total_turns (u ∷ us) = u.turns + total_turns us

total_turns-le :
    (us : List Used) (ls : List AgentBudgetLease)
    → WithinLeases us ls
    → total_turns us ≤ sum (map lease_turns ls)
total_turns-le [] ls h = omega arith
total_turns-le (u ∷ us) [] h = absurd h
total_turns-le (u ∷ us) (l ∷ ls) h = omega (arith, total_turns-le us ls h.1, h.0)

module _ {reserved : AgentBudgetLease} where
  Calls-append :
      {s t u : TurnCeilingState} → Calls reserved s t → Calls reserved t u → Calls reserved s u
  Calls-append a idle = a
  Calls-append a (after b c) = after (Calls-append a b) c

  settle_all-Calls :
      (s : TurnCeilingState) (us : List Used)
      → total_turns us ≤ remaining_turns s
      → Calls reserved s (settle_all s us)
  unfolding settle_all remaining_turns settle pool_spend
  settle_all-Calls s [] h = idle
  settle_all-Calls s (u ∷ us) h =
      Calls-append (after idle (pooled u.cost_usd u.turns (omega arith) refl))
        (settle_all-Calls (settle s (pool_spend u.cost_usd u.turns)) us (omega arith))

  -- The calls of a fan-out, each within the turns of the lease quoted for it from one snapshot of
  -- the pool, are calls within the pool when they are settled one after another.
  pub fan_out-Calls :
      (s : TurnCeilingState) (requested : List ℕ) (us : List Used)
      → All (λ v. 1 ≤ v) requested
      → WithinLeases us (quote_shares requested (remaining_turns s) (remaining_cost_usd s))
      → Calls reserved s (settle_all s us)
  unfolding combine_leases
  fan_out-Calls s requested us ones within = settle_all-Calls s us (
      omega (
        arith,
        total_turns-le us (quote_shares requested (remaining_turns s) (remaining_cost_usd s))
            within,
        (quote_shares_fit requested (remaining_turns s) (remaining_cost_usd s) ones).0,
      ))
