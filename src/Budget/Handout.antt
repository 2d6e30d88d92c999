-- ===== src/Budget/Handout.antt =====
-- Handing single turns out along a list of indices adds that many turns to the sum.
use tracer_agent_python.Prelude.{
  ℕ, zero, suc, ◌+◌, ◌<◌, ◌≡◌, ◌≢◌, refl, some, List, [], ◌∷◌, arith, length, All, All-map,
  Distinct, set, sum, get_or, get_elem?, get_elem?-set_ne, length-set, ◌∙◌,
}
use tracer_agent_python.Budget.Shares.{grant_one_each, grant_one_more}

sum-set_more :
    (granted : List ℕ) (i : ℕ)
    → i < length granted
    → sum (set granted i (get_or granted i 0 + 1)) ≡ sum granted + 1
sum-set_more [] i h = elim h [ ]
sum-set_more (g ∷ gs) zero h = omega arith
sum-set_more (g ∷ gs) (suc i) h = omega (arith, sum-set_more gs i (omega arith))

pub length-grant_one_more :
    (is granted : List ℕ) → length (grant_one_more is granted) ≡ length granted
unfolding grant_one_more
length-grant_one_more [] granted = refl
length-grant_one_more (i ∷ is) granted =
    length-grant_one_more is _ ∙ length-set granted i (get_or granted i 0 + 1)

pub sum-grant_one_more :
    (is granted : List ℕ)
    → All (λ i. i < length granted) is
    → sum (grant_one_more is granted) ≡ sum granted + length is
unfolding grant_one_more
sum-grant_one_more [] granted h = omega arith
sum-grant_one_more (i ∷ is) granted h =
    let granted' = set granted i (get_or granted i 0 + 1) in
    omega (
      arith,
      sum-grant_one_more is granted'
          (All-map (λ j k. omega (arith, length-set granted i (get_or granted i 0 + 1))) is h.1),
      sum-set_more granted i h.0,
    )

sum-set_fresh :
    (granted : List ℕ) (i : ℕ)
    → get_elem? granted i ≡ some 0
    → sum (set granted i 1) ≡ sum granted + 1
sum-set_fresh [] i h = ground arith
sum-set_fresh (g ∷ gs) zero h = ground arith
sum-set_fresh (g ∷ gs) (suc i) h = omega (arith, sum-set_fresh gs i h)

still_fresh :
    (granted : List ℕ) (i : ℕ) (is : List ℕ)
    → All (λ j. i ≢ j) is
    → All (λ j. get_elem? granted j ≡ some 0) is
    → All (λ j. get_elem? (set granted i 1) j ≡ some 0) is
still_fresh granted i [] ne h = tt
still_fresh granted i (j ∷ js) ne h =
    (get_elem?-set_ne granted 1 ne.0 ∙ h.0, still_fresh granted i js ne.1 h.1)

pub sum-grant_one_each :
    (is granted : List ℕ)
    → Distinct is
    → All (λ i. get_elem? granted i ≡ some 0) is
    → sum (grant_one_each is granted) ≡ sum granted + length is
unfolding grant_one_each
sum-grant_one_each [] granted d h = omega arith
sum-grant_one_each (i ∷ is) granted d h = omega (
  arith,
  sum-grant_one_each is (set granted i 1) d.1 (still_fresh granted i is d.0 h.1),
  sum-set_fresh granted i h.0,
)
