-- ===== src/ChatLedger/Update.antt =====
-- `UPDATE … WHERE … RETURNING id` over a table of rows, and what it leaves alone.
use tracer_agent_python.Prelude.{
  ℕ, ◌+◌, Bool, Option, none, some, List, [], ◌∷◌, ◌==◌, if◌then◌else◌, ltb, leb, ◌&&◌, ◌||◌,
}
use tracer_agent_python.ChatLedger.Rows.{Execution}

module _ (test : Execution → Bool) where
  unfoldable pub update_rows : (Execution → Execution) → List Execution → List Execution
  update_rows change [] = []
  update_rows change (r ∷ rs) = (if test r then change r else r) ∷ update_rows change rs

  -- How many rows the statement returns.
  unfoldable pub count_rows : List Execution → ℕ
  count_rows [] = 0
  count_rows (r ∷ rs) = (if test r then 1 else 0) + count_rows rs

  unfoldable pub select_rows : List Execution → List Execution
  select_rows [] = []
  select_rows (r ∷ rs) = let rest = select_rows rs in if test r then r ∷ rest else rest

unfoldable pub find_row : ℕ → List Execution → Option Execution
find_row key [] = none
find_row key (r ∷ rs) = if r.id == key then some r else find_row key rs

-- `ORDER BY created_at ASC, id ASC LIMIT 1`
unfoldable pub comes_before : Execution → Execution → Bool
comes_before a b = ltb a.created_at b.created_at || a.created_at == b.created_at && leb a.id b.id

unfoldable pub earliest : List Execution → Option Execution
unfolding comes_before
earliest [] = none
earliest (r ∷ rs) = elim (earliest rs) [
  | none ↦ some r
  | some s ↦ some (if comes_before r s then r else s)
]

-- `ORDER BY id`
unfoldable pub insert_by_id : Execution → List Execution → List Execution
insert_by_id r [] = r ∷ []
insert_by_id r (s ∷ ss) =
    let rest = insert_by_id r ss in if leb r.id s.id then r ∷ s ∷ ss else s ∷ rest

unfoldable pub order_by_id : List Execution → List Execution
unfolding insert_by_id
order_by_id [] = []
order_by_id (r ∷ rs) = insert_by_id r (order_by_id rs)
