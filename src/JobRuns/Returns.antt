-- ===== src/JobRuns/Returns.antt =====
-- What a run of stages (src/tracer_agent/worker/workflows/jobs_workflows.py) leaves if it returns, by what each stage
-- leaves.
use tracer_agent_python.Prelude.{
  ℕ, zero, suc, ◌+◌, ◌≡◌, refl, Bool, true, false, if◌then◌else◌, arith,
}
use tracer_agent_python.JobRuns.World.{
  World, Fault, Ended, returned, raised, M, ◌>>=◌, Cut, whole, before, midway, at_end, interrupted,
  is_retryable, attempts_of,
}
use tracer_agent_python.JobRuns.Stable.{Exists, Keeps}

pub returned-inj : {A : Type 0} (a b : A) → returned a ≡ returned b → a ≡ b
returned-inj a b h = ground arith

module _ (job_id : ℕ) where
  -- What holds of a value and of what was written, if a run returns the value.
  abbrev pub Returns : {A : Type 0} → M A → (A → World → Type 0) → Type 0
  Returns m Q = (w : World) → Exists job_id w.db → (a : _) → (m w).0 ≡ returned a → Q a (m w).1

  either-Returns :
      {A : Type 0} (b : Bool) (again : Ended A × World) (f : Fault) (w : World)
      (Q : A → World → Type 0)
      → ((a : A) → again.0 ≡ returned a → Q a again.1)
      → (a : A) → (if b then again else (raised f, w)).0 ≡ returned a
      → Q a (if b then again else (raised f, w)).1
  either-Returns true again f w Q k a h = k a h
  either-Returns false again f w Q k a h = absurd cc

  retried-Returns :
      {A : Type 0} (tried again : Ended A × World) (Q : A → World → Type 0)
      → ((a : A) → tried.0 ≡ returned a → Q a tried.1)
      → ((a : A) → again.0 ≡ returned a → Q a again.1)
      → (a : A)
      → (elim tried.0 as (λ x. Ended A × World) [
        | returned a ↦ (returned a, tried.1)
        | raised f ↦ if is_retryable f then again else (raised f, tried.1)
      ]).0
        ≡ returned a
      → Q a
          (elim tried.0 as (λ x. Ended A × World) [
            | returned a ↦ (returned a, tried.1)
            | raised f ↦ if is_retryable f then again else (raised f, tried.1)
          ]).1
  retried-Returns (returned b, w) again Q k l a h = k a h
  retried-Returns (raised f, w) again Q k l a h = either-Returns (is_retryable f) again f w Q l a h

  pub attempts-Returns :
      {A : Type 0} (more n : ℕ) (activity : ℕ → M A) (Q : A → World → Type 0)
      → ((k : ℕ) → Keeps (Exists job_id) (activity k))
      → ((k : ℕ) → Returns (activity k) Q)
      → Returns (attempts_of more n activity) Q
  unfolding attempts_of
  attempts-Returns zero n activity Q keeps k w h a e = k n w h a e
  attempts-Returns (suc more) n activity Q keeps k w h a e =
      retried-Returns (activity n w) (attempts_of more (n + 1) activity (activity n w).1) Q
        (k n w h) (attempts-Returns more (n + 1) activity Q keeps k (activity n w).1 (keeps n w h))
        a e

  pub interrupted-Returns :
      {A : Type 0} (cut : Cut) (m : M A) (Q : A → World → Type 0)
      → Returns m Q
      → Returns (interrupted cut m) Q
  interrupted-Returns whole m Q k w h a e = k w h a e
  interrupted-Returns before m Q k w h a e = absurd cc
  interrupted-Returns midway m Q k w h a e = absurd cc
  interrupted-Returns at_end m Q k w h a e = absurd cc

  sequel-Returns :
      {A B : Type 0} (r : Ended A × World) (f : A → M B) (V : A → World → Type 0)
      (Q : B → World → Type 0)
      → ((a : A) → r.0 ≡ returned a → V a r.1)
      → ((a : A) (w : World)
          → V a w
          → Exists job_id w.db
          → (b : B) → (f a w).0 ≡ returned b
          → Q b (f a w).1)
      → Exists job_id r.1.db
      → (b : B)
      → (elim r.0 as (λ x. Ended B × World) [ returned a ↦ f a r.1 | raised e ↦ (raised e, r.1) ]).0
        ≡ returned b
      → Q b
          (elim r.0 as (λ x. Ended B × World) [
            | returned a ↦ f a r.1
            | raised e ↦ (raised e, r.1)
          ]).1
  sequel-Returns (returned a, w) f V Q first next there b h = next a w (first a refl) there b h
  sequel-Returns (raised e, w) f V Q first next there b h = absurd cc

  pub bind-Returns :
      {A B : Type 0} (m : M A) (f : A → M B) (V : A → World → Type 0) (Q : B → World → Type 0)
      → Keeps (Exists job_id) m
      → Returns m V
      → ((a : A) (w : World)
          → V a w
          → Exists job_id w.db
          → (b : B) → (f a w).0 ≡ returned b
          → Q b (f a w).1)
      → Returns (m >>= f) Q
  bind-Returns m f V Q keeps first next w h b e =
      sequel-Returns (m w) f V Q (first w h) next (keeps w h) b e

  sequel-Keeps :
      {A B : Type 0} (r : Ended A × World) (f : A → M B)
      → ((a : A) → Keeps (Exists job_id) (f a))
      → Exists job_id r.1.db
      → Exists job_id
          (elim r.0 as (λ x. Ended B × World) [
            | returned a ↦ f a r.1
            | raised e ↦ (raised e, r.1)
          ]).1.db
  sequel-Keeps (returned a, w) f k h = k a w h
  sequel-Keeps (raised e, w) f k h = h

  pub bind-Keeps :
      {A B : Type 0} (m : M A) (f : A → M B)
      → Keeps (Exists job_id) m
      → ((a : A) → Keeps (Exists job_id) (f a))
      → Keeps (Exists job_id) (m >>= f)
  bind-Keeps m f k l w h = sequel-Keeps (m w) f l (k w h)
