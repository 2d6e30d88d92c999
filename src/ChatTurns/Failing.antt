-- ===== src/ChatTurns/Failing.antt =====
-- The attempts to record a failure close the execution (`run` of `ChatExecutionWorkflow`,
-- src/tracer_agent/worker/workflows/chat_workflows.py).
use tracer_agent_python.Prelude.{
  ℕ, zero, suc, ◌+◌, ◌≡◌, refl, ◌⊎◌, inl, inr, Bool, true, false, if◌then◌else◌, arith,
}
use tracer_agent_python.ChatTurns.Tables.{Store}
use tracer_agent_python.ChatTurns.Ended.{Ended, Fault, lost, returned, raised, M}
use tracer_agent_python.ChatTurns.Activities.{Service, fail}
use tracer_agent_python.ChatTurns.Lives.{
  IsClosed, Alive, fail_first-IsClosed, fail_later-IsClosed, fail_over-IsClosed,
}
use tracer_agent_python.ChatTurns.Execution.{
  Schedule, Cut, whole, before, at_end, interrupted, attempts, is_retryable, fail_attempts,
  more_stage_attempts,
}

-- Not lost before it writes.
abbrev pub LandsAt : Cut → Type 0
LandsAt before = ⊥
LandsAt _ = Unit

-- One of the attempts from a number on is not lost before it writes.
abbrev pub Lands : (ℕ → Cut) → ℕ → ℕ → Type 0
Lands cuts zero n = LandsAt (cuts n)
Lands cuts (suc more) n = LandsAt (cuts n) ⊎ Lands cuts more (n + 1)

module _ (service : Service) (at : Schedule) (id : ℕ) (f : Fault) where
  -- An execution that is alive or closed.
  abbrev Stands : Store → Type 0
  Stands s = Alive id s.ledger ⊎ IsClosed id s.ledger

  failed-IsClosed :
      (n : ℕ) (s : Store) → Stands s → IsClosed id (fail service id f (at.failed_at n) s).1.ledger
  unfolding fail
  failed-IsClosed n s (inl (inl w)) =
      fail_first-IsClosed id (service.describe f) (at.failed_at n) s.ledger w
  failed-IsClosed n s (inl (inr (user, w))) =
      fail_later-IsClosed id (service.describe f) (at.failed_at n) s.ledger user w
  failed-IsClosed n s (inr c) =
      fail_over-IsClosed id (service.describe f) (at.failed_at n) s.ledger c

  abbrev attempt : ℕ → M Bool
  attempt n = interrupted (at.fail_cut n) (fail service id f (at.failed_at n))

  landed-IsClosed :
      (cut : Cut) (n : ℕ) (s : Store)
      → Stands s
      → LandsAt cut
      → IsClosed id (interrupted cut (fail service id f (at.failed_at n)) s).1.ledger
  landed-IsClosed whole n s h lands = failed-IsClosed n s h
  landed-IsClosed before n s h lands = absurd lands
  landed-IsClosed at_end n s h lands = failed-IsClosed n s h

  again-IsClosed :
      (cut : Cut) (n : ℕ) (s : Store)
      → IsClosed id s.ledger
      → IsClosed id (interrupted cut (fail service id f (at.failed_at n)) s).1.ledger
  again-IsClosed whole n s h = failed-IsClosed n s (inr h)
  again-IsClosed before n s h = h
  again-IsClosed at_end n s h = failed-IsClosed n s (inr h)

  lost_or_IsClosed :
      (cut : Cut) (n : ℕ) (s : Store)
      → Stands s
      → let tried = interrupted cut (fail service id f (at.failed_at n)) s in
        ((tried.0 ≡ raised lost) × Stands tried.1) ⊎ IsClosed id tried.1.ledger
  lost_or_IsClosed whole n s h = inr (failed-IsClosed n s h)
  lost_or_IsClosed before n s h = inl (refl, h)
  lost_or_IsClosed at_end n s h = inr (failed-IsClosed n s h)

  either-IsClosed :
      (b : Bool) (x y : Ended Bool × Store)
      → IsClosed id x.1.ledger
      → IsClosed id y.1.ledger
      → IsClosed id (if b then x else y).1.ledger
  either-IsClosed true x y h k = h
  either-IsClosed false x y h k = k

  -- An attempt that is lost before it writes is followed by another.
  retried-IsClosed :
      (tried again : Ended Bool × Store)
      → IsClosed id again.1.ledger
      → (tried.0 ≡ raised lost) ⊎ IsClosed id tried.1.ledger
      → IsClosed id
          (elim tried.0 as (λ x. Ended Bool × Store) [
            | returned a ↦ (returned a, tried.1)
            | raised g ↦ if is_retryable g then again else (raised g, tried.1)
          ]).1.ledger
  unfolding is_retryable
  retried-IsClosed (returned a, s) again h (inl e) = absurd (ground arith)
  retried-IsClosed (returned a, s) again h (inr k) = k
  retried-IsClosed (raised g, s) again h (inl e) =
      let same : g ≡ lost = ground (arith, e) in rw same h
  retried-IsClosed (raised g, s) again h (inr k) = either-IsClosed _ _ _ h k

  later_attempts-IsClosed :
      (more n : ℕ) (s : Store)
      → IsClosed id s.ledger
      → IsClosed id (attempts more n attempt s).1.ledger
  unfolding attempts
  later_attempts-IsClosed zero n s h = again-IsClosed (at.fail_cut n) n s h
  later_attempts-IsClosed (suc more) n s h =
      let tried = again-IsClosed (at.fail_cut n) n s h in
      retried-IsClosed (attempt n s) (attempts more (n + 1) attempt (attempt n s).1)
        (later_attempts-IsClosed more (n + 1) (attempt n s).1 tried) (inr tried)

  attempts-IsClosed :
      (more n : ℕ) (s : Store)
      → Stands s
      → Lands at.fail_cut more n
      → IsClosed id (attempts more n attempt s).1.ledger
  unfolding attempts
  attempts-IsClosed zero n s h lands = landed-IsClosed (at.fail_cut n) n s h lands
  attempts-IsClosed (suc more) n s h (inl lands) =
      let tried = landed-IsClosed (at.fail_cut n) n s h lands in
      retried-IsClosed (attempt n s) (attempts more (n + 1) attempt (attempt n s).1)
        (later_attempts-IsClosed more (n + 1) (attempt n s).1 tried) (inr tried)
  attempts-IsClosed (suc more) n s h (inr lands) = elim (lost_or_IsClosed (at.fail_cut n) n s h) [
    | inl (e, k) ↦
        retried-IsClosed (attempt n s) (attempts more (n + 1) attempt (attempt n s).1)
          (attempts-IsClosed more (n + 1) (attempt n s).1 k lands) (inl e)
    | inr tried ↦
        retried-IsClosed (attempt n s) (attempts more (n + 1) attempt (attempt n s).1)
          (later_attempts-IsClosed more (n + 1) (attempt n s).1 tried) (inr tried)
  ]

  -- If one of the attempts writes, they close the execution.
  pub fail_attempts-IsClosed :
      (s : Store)
      → Stands s
      → Lands at.fail_cut more_stage_attempts 1
      → IsClosed id (fail_attempts service at id f s).1.ledger
  unfolding fail_attempts
  fail_attempts-IsClosed s h lands = attempts-IsClosed more_stage_attempts 1 s h lands
