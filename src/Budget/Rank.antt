-- ===== src/Budget/Rank.antt =====
-- The ranking of the requests lists every index exactly once.
use tracer_agent_python.Prelude.{
  ℕ, suc, ◌+◌, ◌<◌, ◌≡◌, ◌≢◌, refl, sym, inl, inr, List, [], ◌∷◌, arith, length, All, Distinct,
  range_from, range_from-lt, range_from-Distinct, length-range_from, Bool-cases,
}
use tracer_agent_python.Budget.Shares.{precedes, insert_ranked, sort_ranked, rank_descending}

module _ (requested : List ℕ) where
  length-insert_ranked :
      (i : ℕ) (js : List ℕ) → length (insert_ranked requested i js) ≡ suc (length js)
  unfolding insert_ranked
  length-insert_ranked i [] = refl
  length-insert_ranked i (j ∷ js) = ground (arith, length-insert_ranked i js)

  length-sort_ranked : (is : List ℕ) → length (sort_ranked requested is) ≡ length is
  unfolding sort_ranked
  length-sort_ranked [] = refl
  length-sort_ranked (i ∷ is) =
      omega (arith, length-insert_ranked i (sort_ranked requested is), length-sort_ranked is)

  All-insert_ranked {ℓ} :
      (P : ℕ → Type ℓ) (i : ℕ) (js : List ℕ) → P i → All P js → All P (insert_ranked requested i js)
  unfolding insert_ranked
  All-insert_ranked P i [] p h = (p, tt)
  All-insert_ranked P i (j ∷ js) p h = elim (Bool-cases (precedes requested i j)) [
    | inl first ↦ rw first (p, h)
    | inr later ↦ rw later (h.0, All-insert_ranked P i js p h.1)
  ]

  All-sort_ranked {ℓ} : (P : ℕ → Type ℓ) (is : List ℕ) → All P is → All P (sort_ranked requested is)
  unfolding sort_ranked
  All-sort_ranked P [] h = tt
  All-sort_ranked P (i ∷ is) h = All-insert_ranked P i _ h.0 (All-sort_ranked P is h.1)

  Distinct-insert_ranked :
      (i : ℕ) (js : List ℕ)
      → All (λ j. i ≢ j) js
      → Distinct js
      → Distinct (insert_ranked requested i js)
  unfolding insert_ranked
  Distinct-insert_ranked i [] ne d = (tt, tt)
  Distinct-insert_ranked i (j ∷ js) ne d = elim (Bool-cases (precedes requested i j)) [
    | inl first ↦ rw first (ne, d)
    | inr later ↦ rw later (
      All-insert_ranked (λ k. j ≢ k) i js (λ e. ne.0 (sym e)) d.0,
      Distinct-insert_ranked i js ne.1 d.1,
    )
  ]

  Distinct-sort_ranked : (is : List ℕ) → Distinct is → Distinct (sort_ranked requested is)
  unfolding sort_ranked
  Distinct-sort_ranked [] d = tt
  Distinct-sort_ranked (i ∷ is) d =
      Distinct-insert_ranked i _ (All-sort_ranked (λ j. i ≢ j) is d.0) (Distinct-sort_ranked is d.1)

  pub length-rank_descending : length (rank_descending requested) ≡ length requested
  unfolding rank_descending
  length-rank_descending = omega (
    arith,
    length-sort_ranked (range_from 0 (length requested)),
    length-range_from 0 (length requested),
  )

  pub rank_descending-lt : All (λ i. i < 0 + length requested) (rank_descending requested)
  unfolding rank_descending
  rank_descending-lt = All-sort_ranked _ _ (range_from-lt 0 (length requested))

  pub rank_descending-Distinct : Distinct (rank_descending requested)
  unfolding rank_descending
  rank_descending-Distinct = Distinct-sort_ranked _ (range_from-Distinct 0 (length requested))
