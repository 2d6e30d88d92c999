-- ===== src/ChatTurns/Ended.antt =====
-- How a stage of a turn ends: with a value or with an error, each with what it wrote. A transaction
-- writes nothing if it ends with an error.
use tracer_agent_python.Prelude.{ℕ, ◌≡◌, refl, ◌⊎◌, inl, inr, arith}
use tracer_agent_python.ChatTurns.Tables.{Store}

-- The subtypes of a failed run that src/tracer_agent/worker/workflows/chat_turn.py names.
pub data Subtype : Type 0 where
  deadline_exceeded budget_exceeded max_tokens max_turns_exceeded : Subtype
  invalid_request_error agent_execution_error cancelled : Subtype
  other : ℕ → Subtype

pub data Fault : Type 0 where
  invalid_observation observation_mismatch observation_lost observation_conflict : Fault
  thread_missing summary_failed : Fault
  not_active thread_busy attempt_stale : Fault
  no_envelope invalid_envelope no_response : Fault
  lost : Fault
  run_failed : Subtype → Fault

pub data Ended (A : Type 0) : Type 0 where
  returned : A → Ended A
  raised : Fault → Ended A

pub Ended-cases :
    {A : Type 0} (e : Ended A) → ((f : Fault) × (e ≡ raised f)) ⊎ ((a : A) × (e ≡ returned a))
Ended-cases (returned a) = inr (a, refl)
Ended-cases (raised f) = inl (f, refl)

pub returned-inj : {A : Type 0} (a b : A) → returned a ≡ returned b → a ≡ b
returned-inj a b h = ground arith

abbrev pub M : Type 0 → Type 0
M A = Store → Ended A × Store

abbrev pub pure : {A : Type 0} → A → M A
pure a s = (returned a, s)

abbrev pub raise : {A : Type 0} → Fault → M A
raise f s = (raised f, s)

infixl 5 ◌>>=◌ ◌>>◌
abbrev pub ◌>>=◌ : {A B : Type 0} → M A → (A → M B) → M B
◌>>=◌ m f s = elim (m s).0 [ returned a ↦ f a (m s).1 | raised e ↦ (raised e, (m s).1) ]

abbrev pub ◌>>◌ : {B : Type 0} → M (Unit {0}) → M B → M B
m >> k = m >>= λ _. k

-- `async with self._sql.transaction()`
abbrev pub transaction : {A : Type 0} → M A → M A
transaction m s = elim (m s).0 [ returned a ↦ (returned a, (m s).1) | raised e ↦ (raised e, s) ]
