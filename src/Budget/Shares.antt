-- ===== src/Budget/Shares.antt =====
-- `quote_shares` and `_clamp_turns_without_leak` of
-- src/tracer_agent/worker/agents/runtime/llm/budget.py. A requested share is at least one turn, so
-- the code's `value - 1` is never negative; `math.floor(a / b)` is the quotient of naturals.
use tracer_agent_python.Prelude.{
  ℕ, ◌+◌, ◌-◌, ◌*◌, ◌/◌, Bool, ◌&&◌, ◌||◌, List, [], ◌∷◌, map, ltb, leb, ◌==◌, if◌then◌else◌,
  length, get_or, set, take, replicate, sum, range_from, max,
}
use tracer_agent_python.Budget.Lease.{AgentBudgetLease}

-- The key `(-requested[index], index)`: a larger request first, and the smaller index of equals.
unfoldable pub precedes : List ℕ → ℕ → ℕ → Bool
precedes requested i j =
    let a = get_or requested i 0 in let b = get_or requested j 0 in ltb b a || a == b && leb i j

-- `sorted` as an insertion sort; the key is total, so the result is the only sorted one.
unfoldable pub insert_ranked : List ℕ → ℕ → List ℕ → List ℕ
insert_ranked requested i [] = i ∷ []
insert_ranked requested i (j ∷ js) =
    let rest = insert_ranked requested i js in
    if precedes requested i j then i ∷ j ∷ js else j ∷ rest

unfoldable pub sort_ranked : List ℕ → List ℕ → List ℕ
unfolding insert_ranked precedes
sort_ranked requested [] = []
sort_ranked requested (i ∷ is) = insert_ranked requested i (sort_ranked requested is)

unfoldable pub rank_descending : List ℕ → List ℕ
unfolding sort_ranked
rank_descending requested = sort_ranked requested (range_from 0 (length requested))

-- `for index in ranked: granted[index] = 1`
unfoldable pub grant_one_each : List ℕ → List ℕ → List ℕ
grant_one_each [] granted = granted
grant_one_each (i ∷ is) granted = grant_one_each is (set granted i 1)

-- `for index in ranked: granted[index] += 1`
unfoldable pub grant_one_more : List ℕ → List ℕ → List ℕ
grant_one_more [] granted = granted
grant_one_more (i ∷ is) granted = grant_one_more is (set granted i (get_or granted i 0 + 1))

-- `1 + floor((value - 1) * spare / over)`
unfoldable pub proportional : ℕ → ℕ → ℕ → ℕ
proportional spare over value = 1 + (if ltb 0 over then (value - 1) * spare / over else 0)

unfoldable pub share_out : List ℕ → ℕ → List ℕ
unfolding rank_descending grant_one_more proportional
share_out requested available =
    let count = length requested in
    let over = sum requested - count in
    let spare = available - count in
    let granted = map (proportional spare over) requested in
    grant_one_more (take (available - sum granted) (rank_descending requested)) granted

unfoldable pub clamp_turns_without_leak : List ℕ → ℕ → List ℕ
unfolding rank_descending grant_one_each share_out
clamp_turns_without_leak requested available =
    if leb (sum requested) available
    then requested
    else if ltb available (length requested)
    then grant_one_each (take available (rank_descending requested))
        (replicate (length requested) 0)
    else share_out requested available

-- The dollars of one share are rounded down to the unit.
unfoldable pub lease_of : ℕ → ℕ → ℕ → AgentBudgetLease
lease_of available_usd turns_sum turns = record {
  max_turns = turns;
  max_cost_usd = if turns_sum == 0 then 0 else available_usd * turns / turns_sum;
}

unfoldable pub quote_shares : List ℕ → ℕ → ℕ → List AgentBudgetLease
unfolding clamp_turns_without_leak lease_of
quote_shares [] available_turns available_usd = []
quote_shares (r ∷ rs) available_turns available_usd =
    let granted = clamp_turns_without_leak (r ∷ rs) (max available_turns 0) in
    map (lease_of available_usd (sum granted)) granted
