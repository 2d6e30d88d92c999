-- ===== src/Budget/NoLeak.antt =====
-- The clamp hands out exactly the smaller of what is asked and what is there.
use native.Mathlib.Nat.{le_of_mul-le-mul_left}
use tracer_agent_python.Prelude.{
  ℕ, zero, suc, ◌+◌, ◌-◌, ◌*◌, ◌<◌, ◌≤◌, ◌≡◌, refl, inl, inr, some, List, [], ◌∷◌, map, arith,
  length, All, All-map, All-take, Distinct-take, min, sum, take, replicate, get_elem?, length-take,
  sum-replicate_zero, length-map, leb, ltb, ltb→lt, ltb→ge, leb→le, leb→gt, Bool-cases,
}
use tracer_agent_python.Budget.Shares.{
  rank_descending, proportional, share_out, grant_one_each, clamp_turns_without_leak,
}
use tracer_agent_python.Budget.Rank.{
  length-rank_descending, rank_descending-lt, rank_descending-Distinct,
}
use tracer_agent_python.Budget.Handout.{sum-grant_one_more, sum-grant_one_each}

-- The turns above one of every request.
abbrev extra : List ℕ → ℕ
extra [] = 0
extra (v ∷ vs) = (v - 1) + extra vs

sum-eq-extra : (vs : List ℕ) → All (λ v. 1 ≤ v) vs → sum vs ≡ extra vs + length vs
sum-eq-extra [] h = omega arith
sum-eq-extra (v ∷ vs) h = omega (arith, sum-eq-extra vs h.1, h.0)

module _ (spare over : ℕ) (pos : 0 < over) where
  abbrev granted : List ℕ → ℕ
  granted vs = sum (map (proportional spare over) vs)

  upper : (vs : List ℕ) → over * granted vs ≤ extra vs * spare + over * length vs
  unfolding proportional
  upper [] = omega arith
  upper (v ∷ vs) = grind (arith, upper vs)

  lower : (vs : List ℕ) → extra vs * spare ≤ over * granted vs
  unfolding proportional
  lower [] = omega arith
  lower (v ∷ vs) = grind (arith, lower vs)

  -- The rounded shares stay within the spare turns, and lose less than one turn a share.
  granted_bounds :
      (vs : List ℕ) → extra vs ≡ over → (granted vs ≤ spare + length vs) × (spare ≤ granted vs)
  granted_bounds vs e = (
    le_of_mul-le-mul_left (grind (arith, upper vs)) pos,
    le_of_mul-le-mul_left (grind (arith, lower vs)) pos,
  )

get_elem?-replicate : (n i : ℕ) → i < n → get_elem? {A = ℕ} (replicate n 0) i ≡ some 0
get_elem?-replicate zero i h = elim h [ ]
get_elem?-replicate (suc n) zero h = refl
get_elem?-replicate (suc n) (suc i) h = get_elem?-replicate n i (omega arith)

module _ (requested : List ℕ) (available : ℕ) where
  one_each_sum :
      available < length requested
      → sum (
          grant_one_each
            (take available (rank_descending requested))
            (replicate (length requested) 0))
        ≡ available
  one_each_sum h = omega (
    arith,
    sum-grant_one_each (take available (rank_descending requested)) (replicate (length requested) 0)
        (Distinct-take available _ (rank_descending-Distinct requested))
        (All-map (λ i k. get_elem?-replicate (length requested) i (omega arith)) _
          (All-take _ available _ (rank_descending-lt requested))),
    length-take available (rank_descending requested),
    length-rank_descending requested,
    sum-replicate_zero (length requested),
  )

  sum-share_out :
      All (λ v. 1 ≤ v) requested
      → available < sum requested
      → length requested ≤ available
      → sum (share_out requested available) ≡ available
  unfolding share_out
  sum-share_out ones short enough =
      let over = sum requested - length requested in
      let spare = available - length requested in
      let granted' = map (proportional spare over) requested in
      let bounds =
        granted_bounds spare over (omega (arith, sum-eq-extra requested ones)) requested
          (omega (arith, sum-eq-extra requested ones)) in
      omega (
        arith,
        bounds.0,
        bounds.1,
        sum-grant_one_more (take (available - sum granted') (rank_descending requested)) granted' (
            All-map (λ i k. omega (arith, length-map requested (proportional spare over))) _
              (All-take _ (available - sum granted') _ (rank_descending-lt requested))),
        length-take (available - sum granted') (rank_descending requested),
        length-rank_descending requested,
      )

  -- If every request is for one turn at least, the granted turns add up to the smaller of the
  -- requested and the available turns: no turn is lost to rounding, and none is made up.
  pub clamp_no_leak :
      All (λ v. 1 ≤ v) requested
      → sum (clamp_turns_without_leak requested available) ≡ min (sum requested) available
  unfolding clamp_turns_without_leak
  clamp_no_leak ones = elim (Bool-cases (leb (sum requested) available)) [
    | inl fits ↦ rw fits (omega (arith, leb→le (sum requested) available fits))
    | inr short ↦ elim (Bool-cases (ltb available (length requested))) [
      | inl few ↦
          rw (short, few)
            (omega (arith, one_each_sum (ltb→lt _ _ few), leb→gt (sum requested) available short))
      | inr many ↦
          rw (short, many)
            (omega (
              arith,
              sum-share_out ones (leb→gt (sum requested) available short) (ltb→ge _ _ many),
              leb→gt (sum requested) available short,
            ))
    ]
  ]
