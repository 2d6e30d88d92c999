-- ===== src/Budget/Quotes.antt =====
-- What the quoted leases of a fan-out add up to.
use native.Mathlib.Nat.{le_of_mul-le-mul_left, le_trans, le_of_eq, mul_comm}
use tracer_agent_python.Prelude.{
  ℕ, ◌*◌, ◌<◌, ◌≤◌, ◌≡◌, refl, sym, ap, ◌∙◌, inl, inr, List, [], ◌∷◌, map, arith, All, min, max,
  sum, ◌==◌, Bool-cases, ==_iff,
}
use tracer_agent_python.Budget.Lease.{lease_turns, lease_usd, combine_leases}
use tracer_agent_python.Budget.Shares.{clamp_turns_without_leak, lease_of, quote_shares}
use tracer_agent_python.Budget.NoLeak.{clamp_no_leak}

turns_of_leases :
    (usd total : ℕ) (turns : List ℕ)
    → sum (map lease_turns (map (lease_of usd total) turns)) ≡ sum turns
unfolding lease_of
turns_of_leases usd total [] = refl
turns_of_leases usd total (t ∷ ts) = omega (arith, turns_of_leases usd total ts)

usd_scaled :
    (usd total : ℕ) (turns : List ℕ)
    → 0 < total
    → total * sum (map lease_usd (map (lease_of usd total) turns)) ≤ usd * sum turns
unfolding lease_of
usd_scaled usd total [] pos = omega arith
usd_scaled usd total (t ∷ ts) pos = grind (arith, usd_scaled usd total ts pos)

usd_of_none : (usd : ℕ) (turns : List ℕ) → sum (map lease_usd (map (lease_of usd 0) turns)) ≡ 0
unfolding lease_of
usd_of_none usd [] = refl
usd_of_none usd (t ∷ ts) = omega (arith, usd_of_none usd ts)

usd_of_leases :
    (usd : ℕ) (turns : List ℕ) (total : ℕ)
    → total ≡ sum turns
    → sum (map lease_usd (map (lease_of usd total) turns)) ≤ usd
usd_of_leases usd turns total e = elim (Bool-cases (total == 0)) [
  | inl none_granted ↦
      let z : total ≡ 0 = (==_iff total 0).0 none_granted in
      rw z (omega (arith, usd_of_none usd turns))
  | inr some_granted ↦
      let pos : 0 < total = ground arith in
      le_of_mul-le-mul_left
        (le_trans (usd_scaled usd total turns pos)
          (le_of_eq (ap (λ t. usd * t) (sym e) ∙ mul_comm usd total)))
        pos
]

-- If every request is for one turn at least, the leases of a fan-out together hold the smaller of
-- the requested and the available turns, and no more than the available dollars.
pub quote_shares_fit :
    (requested : List ℕ) (available_turns available_usd : ℕ)
    → All (λ v. 1 ≤ v) requested
    → let lease = combine_leases (quote_shares requested available_turns available_usd) in
      (lease.max_turns ≡ min (sum requested) available_turns) × (lease.max_cost_usd ≤ available_usd)
unfolding quote_shares combine_leases
quote_shares_fit [] turns usd ones = (omega arith, omega arith)
quote_shares_fit (r ∷ rs) turns usd ones =
    let granted = clamp_turns_without_leak (r ∷ rs) (max turns 0) in
    (
      omega (
        arith,
        turns_of_leases usd (sum granted) granted,
        clamp_no_leak (r ∷ rs) (max turns 0) ones,
      ),
      usd_of_leases usd granted (sum granted) refl,
    )
