-- ===== src/Validation/Sets.antt =====
-- Sets and dictionaries keyed by identifiers, as src/tracer_agent/worker/agents/recipe_scan/policy.py and
-- task_cleanup/policy.py use them. Identifiers are only compared, so they are numbers; a set is a
-- list read by membership and a dictionary an association list in which the first entry counts.
use tracer_agent_python.Prelude.{
  ℕ, ◌≡◌, refl, ◌↔◌, Bool, true, false, List, [], ◌∷◌, ◌++◌, any, ltb, ◌==◌, if◌then◌else◌, Option,
  none, some, All, arith, Bool-cases, inl, inr, ◌≢◌,
}

abbrev pub Dict {ℓ} : Type ℓ → Type ℓ
Dict A = List (ℕ × A)

unfoldable pub member : ℕ → List ℕ → Bool
member x ys = any (λ y. y == x) ys

-- `dict.get`
unfoldable pub lookup {ℓ} : {A : Type ℓ} → ℕ → Dict A → Option A
lookup key [] = none
lookup key ((k, a) ∷ entries) = if k == key then some a else lookup key entries

-- `dict.get(key, set())`
unfoldable pub set_at : ℕ → Dict (List ℕ) → List ℕ
unfolding lookup
set_at key entries = elim (lookup key entries) [ none ↦ [] | some s ↦ s ]

-- `key in dict`
unfoldable pub has_key {ℓ} : {A : Type ℓ} → ℕ → Dict A → Bool
unfolding lookup
has_key key entries = elim (lookup key entries) [ none ↦ false | some _ ↦ true ]

-- Into a sorted list, once.
unfoldable pub insert_once : ℕ → List ℕ → List ℕ
insert_once x [] = x ∷ []
insert_once x (y ∷ ys) =
    let rest = insert_once x ys in
    if ltb x y then x ∷ y ∷ ys else if x == y then y ∷ ys else y ∷ rest

-- `sorted(set(cited) - supported)`
unfoldable pub unknown_of : List ℕ → List ℕ → List ℕ
unfolding insert_once member
unknown_of [] supported = []
unknown_of (x ∷ xs) supported =
    let rest = unknown_of xs supported in if member x supported then rest else insert_once x rest

-- `if unknown: errors.append(…)`
unfoldable pub report {ℓ} : {E : Type ℓ} → (List ℕ → E) → List ℕ → List E
report error [] = []
report error (x ∷ xs) = error (x ∷ xs) ∷ []

abbrev pub is_nil : List ℕ → Bool
is_nil [] = true
is_nil (x ∷ xs) = false

-- Every cited identifier is supported.
abbrev pub IsSupported : List ℕ → List ℕ → Type 0
IsSupported cited supported = All (λ x. member x supported ≡ true) cited

insert_once-filled : (x : ℕ) (ys : List ℕ) → insert_once x ys ≢ []
unfolding insert_once
insert_once-filled x [] h = absurd (ground arith)
insert_once-filled x (y ∷ ys) h = absurd (ground arith)

pub unknown_of-empty :
    (cited supported : List ℕ) → (unknown_of cited supported ≡ []) ↔ IsSupported cited supported
unfolding unknown_of
unknown_of-empty [] supported = ((λ _. tt), λ _. refl)
unknown_of-empty (x ∷ xs) supported = elim (Bool-cases (member x supported)) [
  | inl known ↦ rw known (
    (λ h. (refl, (unknown_of-empty xs supported).0 h)),
    λ h. (unknown_of-empty xs supported).1 h.1,
  )
  | inr other ↦ rw other (
    (λ h. absurd (insert_once-filled x (unknown_of xs supported) h)),
    λ h. absurd (ground (arith, h.0)),
  )
]

report-nil {ℓ} :
    {E : Type ℓ} (error : List ℕ → E) (xs : List ℕ) → (report error xs ≡ []) ↔ (xs ≡ [])
unfolding report
report-nil error [] = ((λ _. refl), λ _. refl)
report-nil error (x ∷ xs) = ((λ h. absurd cc), λ h. absurd cc)

pub report-empty {ℓ} :
    {E : Type ℓ} (error : List ℕ → E) (cited supported : List ℕ)
    → (report error (unknown_of cited supported) ≡ []) ↔ IsSupported cited supported
report-empty error cited supported = (
  (λ h. (unknown_of-empty cited supported).0 ((report-nil error _).0 h)),
  λ h. (report-nil error _).1 ((unknown_of-empty cited supported).1 h),
)

pub append-empty {ℓ} : {A : Type ℓ} (xs ys : List A) → (xs ++ ys ≡ []) ↔ ((xs ≡ []) × (ys ≡ []))
append-empty [] ys = ((λ h. (refl, h)), λ h. h.1)
append-empty (x ∷ xs) ys = ((λ h. absurd cc), λ h. absurd cc)

-- Two checks together find nothing exactly if each finds nothing.
pub append-both {ℓ κ ι} :
    {A : Type ℓ} {P : Type κ} {Q : Type ι} (xs ys : List A)
    → (xs ≡ []) ↔ P
    → (ys ≡ []) ↔ Q
    → (xs ++ ys ≡ []) ↔ (P × Q)
append-both xs ys first second = (
  (λ h. let parts = (append-empty xs ys).0 h in (first.0 parts.0, second.0 parts.1)),
  λ h. (append-empty xs ys).1 (first.1 h.0, second.1 h.1),
)
