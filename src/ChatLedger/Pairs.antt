-- ===== src/ChatLedger/Pairs.antt =====
-- Relations between the rows of a table before and after statements, position by position.
use tracer_agent_python.Prelude.{◌≡◌, inl, inr, Bool, true, List, [], ◌∷◌, Bool-cases}
use tracer_agent_python.ChatLedger.Rows.{Execution}
use tracer_agent_python.ChatLedger.Update.{update_rows}

abbrev pub Pairs : (Execution → Execution → Type 0) → List Execution → List Execution → Type 0
Pairs R [] [] = Unit
Pairs R [] (s ∷ ss) = ⊥
Pairs R (r ∷ rs) [] = ⊥
Pairs R (r ∷ rs) (s ∷ ss) = R r s × Pairs R rs ss

module _ (R : Execution → Execution → Type 0) (same : (r : Execution) → R r r) where
  pub Pairs-refl : (rs : List Execution) → Pairs R rs rs
  Pairs-refl [] = tt
  Pairs-refl (r ∷ rs) = (same r, Pairs-refl rs)

  pub Pairs-update_rows :
      (test : Execution → Bool) (change : Execution → Execution)
      → ((r : Execution) → test r ≡ true → R r (change r))
      → (rs : List Execution) → Pairs R rs (update_rows test change rs)
  unfolding update_rows
  Pairs-update_rows test change step [] = tt
  Pairs-update_rows test change step (r ∷ rs) = elim (Bool-cases (test r)) [
    | inl hit ↦ rw hit (step r hit, Pairs-update_rows test change step rs)
    | inr miss ↦ rw miss (same r, Pairs-update_rows test change step rs)
  ]

pub Pairs-trans :
    (R : Execution → Execution → Type 0)
    → ((r s t : Execution) → R r s → R s t → R r t)
    → (rs ss ts : List Execution) → Pairs R rs ss
    → Pairs R ss ts
    → Pairs R rs ts
Pairs-trans R f [] [] [] h k = tt
Pairs-trans R f [] [] (t ∷ ts) h k = absurd k
Pairs-trans R f [] (s ∷ ss) ts h k = absurd h
Pairs-trans R f (r ∷ rs) [] ts h k = absurd h
Pairs-trans R f (r ∷ rs) (s ∷ ss) [] h k = absurd k
Pairs-trans R f (r ∷ rs) (s ∷ ss) (t ∷ ts) h k = (f r s t h.0 k.0, Pairs-trans R f rs ss ts h.1 k.1)
