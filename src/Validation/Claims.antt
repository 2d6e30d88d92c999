-- ===== src/Validation/Claims.antt =====
-- `_duplicate_turn_errors` and `validate_recipe_candidates` of src/tracer_agent/worker/agents/recipe_scan/policy.py.
use tracer_agent_python.Prelude.{
  ℕ, suc, ◌≡◌, ◌≤◌, ◌<◌, refl, sym, ap, ◌∙◌, inl, inr, Bool, true, false, List, [], ◌∷◌, ◌++◌, map,
  length, ltb, ◌==◌, ◌&&◌, ◌||◌, if◌then◌else◌, Option, none, some, All, All-map, any, arith,
  Bool-cases, Option-cases, ltb→ge,
}
use tracer_agent_python.Validation.Sets.{append-empty}
use tracer_agent_python.Validation.Recipe.{
  Slice, RecipeCandidate, ProvenanceCatalog, RecipeError, validate_recipe_candidate,
}
use tracer_agent_python.Validation.Provenance.{IsProvenanced, validate_candidate_iff}

-- A task and a turn of it.
abbrev pub Turn : Type 0
Turn = ℕ × ℕ

pub data RecipesError : Type 0 where
  too_many_candidates : ℕ → RecipesError
  in_recipe : ℕ → RecipeError → RecipesError
  claimed_turn : ℕ → ℕ → ℕ → RecipesError

-- `claimed`: which candidate has the turn.
abbrev pub Owners : Type 0
Owners = List (Turn × ℕ)

unfoldable pub same_turn : Turn → Turn → Bool
same_turn (task, turn) (task', turn') = task == task' && turn == turn'

unfoldable pub owner_of : Turn → Owners → Option ℕ
unfolding same_turn
owner_of t [] = none
owner_of t ((u, index) ∷ owners) = if same_turn u t then some index else owner_of t owners

unfoldable pub cited_turns : List Slice → List Turn
cited_turns [] = []
cited_turns (s ∷ slices) = map (λ turn. (s.task_id, turn)) s.turn_ids ++ cited_turns slices

-- The turns of one candidate: what they report, and who owns the turns then.
unfoldable pub claim_turns : ℕ → List Turn → Owners → List RecipesError × Owners
unfolding owner_of
claim_turns index [] owners = ([], owners)
claim_turns index (t ∷ turns) owners =
    let kept = claim_turns index turns owners in
    let added = claim_turns index turns ((t, index) ∷ owners) in
    elim (owner_of t owners) [
      | none ↦ added
      | some owner ↦
          if owner == index then kept else (claimed_turn index t.1 owner ∷ kept.0, kept.1)
    ]

unfoldable pub duplicate_turn_errors : ℕ → List RecipeCandidate → Owners → List RecipesError
unfolding claim_turns cited_turns
duplicate_turn_errors index [] owners = []
duplicate_turn_errors index (c ∷ candidates) owners =
    let (errors, later) = claim_turns index (cited_turns c.contributing_slices) owners in
    errors ++ duplicate_turn_errors (suc index) candidates later

unfoldable pub numbered_errors :
    ℕ → ProvenanceCatalog → ℕ → List RecipeCandidate → List RecipesError
unfolding validate_recipe_candidate
numbered_errors anchor provenance index [] = []
numbered_errors anchor provenance index (c ∷ candidates) =
    map (in_recipe index) (validate_recipe_candidate c anchor provenance)
    ++ numbered_errors anchor provenance (suc index) candidates

-- `max_candidates` is the contract's `recipeCandidateLimit`.
unfoldable pub validate_recipe_candidates :
    ℕ → List RecipeCandidate → ℕ → ProvenanceCatalog → List RecipesError
unfolding numbered_errors duplicate_turn_errors
validate_recipe_candidates max_candidates [] anchor provenance = []
validate_recipe_candidates max_candidates (c ∷ candidates) anchor provenance =
    if ltb max_candidates (length (c ∷ candidates))
    then too_many_candidates max_candidates ∷ []
    else numbered_errors anchor provenance 1 (c ∷ candidates)
      ++ duplicate_turn_errors 1 (c ∷ candidates) []

abbrev pub among : Turn → List Turn → Bool
among t turns = any (λ u. same_turn u t) turns

abbrev pub turns_of : RecipeCandidate → List Turn
turns_of c = cited_turns c.contributing_slices

-- No turn is cited by two of the candidates.
abbrev pub IsExclusive : List RecipeCandidate → Type 0
IsExclusive [] = Unit
IsExclusive (c ∷ candidates) =
    All (λ d. All (λ t. among t (turns_of c) ≡ false) (turns_of d)) candidates
    × IsExclusive candidates

abbrev free_or_mine : ℕ → Owners → Turn → Bool
free_or_mine index owners t = elim (owner_of t owners) [ none ↦ true | some owner ↦ owner == index ]

abbrev taken : Owners → Turn → Bool
taken owners t = elim (owner_of t owners) [ none ↦ false | some _ ↦ true ]

OwnersBelow : ℕ → Owners → Type 0
OwnersBelow index owners = All (λ e. e.1 < index) owners

same_turn-same : (t u v : Turn) → same_turn t u ≡ true → same_turn v t ≡ same_turn v u
unfolding same_turn
same_turn-same (a, b) (c, d) (e, f) h = ground arith

owner_of-same :
    (t u : Turn) (owners : Owners) → same_turn t u ≡ true → owner_of t owners ≡ owner_of u owners
unfolding owner_of
owner_of-same t u [] h = refl
owner_of-same t u ((v, o) ∷ owners) h = rw (same_turn-same t u v h, owner_of-same t u owners h) refl

free_or_mine-added :
    (index : ℕ) (owners : Owners) (t u : Turn)
    → owner_of t owners ≡ none
    → free_or_mine index ((t, index) ∷ owners) u ≡ true
    → free_or_mine index owners u ≡ true
unfolding owner_of
free_or_mine-added index owners t u h k = elim (Bool-cases (same_turn t u)) [
  | inl same ↦ rw (free_or_mine, ← owner_of-same t u owners same, h) refl
  | inr other ↦ rw (free_or_mine, other) at k
]

claim_free :
    (index : ℕ) (t : Turn) (turns : List Turn) (owners : Owners)
    → owner_of t owners ≡ none
    → claim_turns index (t ∷ turns) owners ≡ claim_turns index turns ((t, index) ∷ owners)
unfolding claim_turns
claim_free index t turns owners h = rw (claim_turns, h) refl

claim_held :
    (index : ℕ) (t : Turn) (turns : List Turn) (owners : Owners) (o : ℕ)
    → owner_of t owners ≡ some o
    → claim_turns index (t ∷ turns) owners ≡ (
        if o == index then claim_turns index turns owners else (
          claimed_turn index t.1 o ∷ (claim_turns index turns owners).0,
          (claim_turns index turns owners).1,
        ))
unfolding claim_turns
claim_held index t turns owners o h = rw (claim_turns, h) refl

held_later :
    (index : ℕ) (t : Turn) (turns : List Turn) (owners : Owners) (o : ℕ)
    → owner_of t owners ≡ some o
    → (claim_turns index (t ∷ turns) owners).1 ≡ (claim_turns index turns owners).1
held_later index t turns owners o h =
    ap (λ r. r.1) (claim_held index t turns owners o h) ∙ ground arith

held_clean :
    (index : ℕ) (t : Turn) (turns : List Turn) (owners : Owners) (o : ℕ)
    → owner_of t owners ≡ some o
    → (claim_turns index (t ∷ turns) owners).0 ≡ []
    → ((o == index) ≡ true) × ((claim_turns index turns owners).0 ≡ [])
held_clean index t turns owners o h e =
    let e' = sym (ap (λ r. r.0) (claim_held index t turns owners o h)) ∙ e in ground (arith, e')

claim_turns-clean :
    (index : ℕ) (turns : List Turn) (owners : Owners)
    → (claim_turns index turns owners).0 ≡ []
    → All (λ t. free_or_mine index owners t ≡ true) turns
claim_turns-clean index [] owners h = tt
claim_turns-clean index (t ∷ turns) owners h = elim (Option-cases (owner_of t owners)) [
  | inl free ↦ (
    rw (free_or_mine, free) refl,
    All-map (λ u. free_or_mine-added index owners t u free) turns
        (claim_turns-clean index turns ((t, index) ∷ owners)
          (rw (claim_free index t turns owners free) at h)),
  )
  | inr (o, held) ↦
      let parts = held_clean index t turns owners o held h in
      (rw (free_or_mine, held) parts.0, claim_turns-clean index turns owners parts.1)
]

taken-added :
    (index : ℕ) (owners : Owners) (t u : Turn)
    → taken ((t, index) ∷ owners) u ≡ taken owners u || same_turn t u
unfolding owner_of
taken-added index owners t u = ground arith

taken-same :
    (owners : Owners) (t u : Turn) (o : ℕ)
    → owner_of t owners ≡ some o
    → same_turn t u ≡ true
    → taken owners u ≡ true
taken-same owners t u o h same = rw (taken, ← owner_of-same t u owners same, h) refl

taken-claim_turns :
    (index : ℕ) (turns : List Turn) (owners : Owners) (u : Turn)
    → taken (claim_turns index turns owners).1 u ≡ taken owners u || among u turns
taken-claim_turns index [] owners u = unfold claim_turns in ground arith
taken-claim_turns index (t ∷ turns) owners u = elim (Option-cases (owner_of t owners)) [
  | inl free ↦ rw (claim_free index t turns owners free) (
      taken-claim_turns index turns ((t, index) ∷ owners) u
      ∙ ground (arith, taken-added index owners t u))
  | inr (o, held) ↦ rw (held_later index t turns owners o held) (
      taken-claim_turns index turns owners u ∙ elim (Bool-cases (same_turn t u)) [
        | inl same ↦ rw (taken-same owners t u o held same) refl
        | inr other ↦ rw other refl
      ])
]

claim_turns-below :
    (index : ℕ) (turns : List Turn) (owners : Owners)
    → OwnersBelow (suc index) owners
    → OwnersBelow (suc index) (claim_turns index turns owners).1
unfolding OwnersBelow
claim_turns-below index [] owners h = unfold claim_turns in h
claim_turns-below index (t ∷ turns) owners h = elim (Option-cases (owner_of t owners)) [
  | inl free ↦
      rw (claim_free index t turns owners free)
        (claim_turns-below index turns ((t, index) ∷ owners) (omega arith, h))
  | inr (o, held) ↦
      rw (held_later index t turns owners o held) (claim_turns-below index turns owners h)
]

free-not_taken :
    (index : ℕ) (owners : Owners) (t : Turn)
    → OwnersBelow index owners
    → free_or_mine index owners t ≡ true
    → taken owners t ≡ false
unfolding OwnersBelow owner_of
free-not_taken index [] t h k = refl
free-not_taken index ((u, o) ∷ owners) t h k = elim (Bool-cases (same_turn u t)) [
  | inl same ↦ absurd (ground (arith, h.0))
  | inr other ↦
      rw (taken, other) (free-not_taken index owners t h.1 (rw (free_or_mine, other) at k))
]

not_taken-parts : (b c : Bool) → b || c ≡ false → (b ≡ false) × (c ≡ false)
not_taken-parts b c h = ground arith

duplicates_clean :
    (index : ℕ) (candidates : List RecipeCandidate) (owners : Owners)
    → OwnersBelow index owners
    → duplicate_turn_errors index candidates owners ≡ []
    → All (λ c. All (λ t. taken owners t ≡ false) (turns_of c)) candidates × IsExclusive candidates
unfolding duplicate_turn_errors
duplicates_clean index [] owners below h = (tt, tt)
duplicates_clean index (c ∷ candidates) owners below h =
    let parts = (append-empty (claim_turns index (turns_of c) owners).0 _).0 h in
    let wider : OwnersBelow (suc index) owners =
      unfold OwnersBelow in All-map (λ e k. omega arith) owners below in
    let later =
      duplicates_clean (suc index) candidates (claim_turns index (turns_of c) owners).1
        (claim_turns-below index (turns_of c) owners wider) parts.1 in
    let split : (t : Turn)
        → taken (claim_turns index (turns_of c) owners).1 t ≡ false
        → (taken owners t ≡ false) × (among t (turns_of c) ≡ false) =
      λ t k. not_taken-parts _ _ (sym (taken-claim_turns index (turns_of c) owners t) ∙ k) in
    (
      (
        All-map (λ t. free-not_taken index owners t below) (turns_of c)
            (claim_turns-clean index (turns_of c) owners parts.0),
        All-map (λ d. All-map (λ t k. (split t k).0) (turns_of d)) candidates later.0,
      ),
      (All-map (λ d. All-map (λ t k. (split t k).1) (turns_of d)) candidates later.0, later.1),
    )

map-empty : (index : ℕ) (es : List RecipeError) → map (in_recipe index) es ≡ [] → es ≡ []
map-empty index [] h = refl
map-empty index (e ∷ es) h = absurd cc

numbered_clean :
    (anchor : ℕ) (provenance : ProvenanceCatalog) (index : ℕ) (candidates : List RecipeCandidate)
    → numbered_errors anchor provenance index candidates ≡ []
    → All (λ c. IsProvenanced c anchor provenance) candidates
unfolding numbered_errors
numbered_clean anchor provenance index [] h = tt
numbered_clean anchor provenance index (c ∷ candidates) h =
    let parts =
      (append-empty (map (in_recipe index) (validate_recipe_candidate c anchor provenance)) _).0
        h in
    (
      (validate_candidate_iff c anchor provenance).0 (map-empty index _ parts.0),
      numbered_clean anchor provenance (suc index) candidates parts.1,
    )

-- If the validation of a list of candidates finds nothing, there are at most as many as the contract allows,
-- each cites only what was collected and an event of the anchor task, and no turn is cited by two of them.
pub validate_candidates_sound :
    (max_candidates : ℕ) (candidates : List RecipeCandidate) (anchor : ℕ)
    (provenance : ProvenanceCatalog)
    → validate_recipe_candidates max_candidates candidates anchor provenance ≡ []
    → (length candidates ≤ max_candidates)
      × (All (λ c. IsProvenanced c anchor provenance) candidates × IsExclusive candidates)
unfolding validate_recipe_candidates
validate_candidates_sound max_candidates [] anchor provenance h = (omega arith, (tt, tt))
validate_candidates_sound max_candidates (c ∷ candidates) anchor provenance h =
    elim (Bool-cases (ltb max_candidates (length (c ∷ candidates)))) [
      | inl many ↦ absurd (ground arith)
      | inr few ↦
          let e : numbered_errors anchor provenance 1 (c ∷ candidates)
                ++ duplicate_turn_errors 1 (c ∷ candidates) []
              ≡ [] =
            rw few at h in
          let parts = (append-empty (numbered_errors anchor provenance 1 (c ∷ candidates)) _).0 e in
          (
            ltb→ge max_candidates (length (c ∷ candidates)) few,
            (
              numbered_clean anchor provenance 1 (c ∷ candidates) parts.0,
              (duplicates_clean 1 (c ∷ candidates) [] (unfold OwnersBelow in tt) parts.1).1,
            ),
          )
    ]
