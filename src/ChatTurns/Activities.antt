-- ===== src/ChatTurns/Activities.antt =====
-- The activities of a turn (src/tracer_agent/worker/workflows/chat_activities.py). The heartbeat and
-- the wake-ups are left out; each reading of the clock is an argument.
use Prim.Native.String.{String}
use tracer_agent_python.Prelude.{
  ℕ, ◌-◌, Bool, true, false, not, Option, none, some, ◌==◌, if◌then◌else◌, ◌&&◌, ◌||◌, any,
}
use tracer_agent_python.ChatLedger.Rows.{
  is_queued, is_running, same_observation, cancelled, Execution, Ledger,
}
use tracer_agent_python.ChatLedger.Statements.{
  Claim, claimed, find_by_id, claim_queued, recover_stale_running, begin_attempt, fail_active,
  next_queued_in_thread,
}
use tracer_agent_python.ChatTurns.Ended.{
  Fault, summary_failed, not_active, thread_busy, attempt_stale, no_envelope, M, returned, pure,
  raise, ◌>>=◌, ◌>>◌,
}
use tracer_agent_python.ChatTurns.Writer.{finalize, record_observation}
use tracer_agent_python.ChatTurns.Turn.{
  ChatRequest, PreparedChatExecution, GeneratedChatExecution, turn_request, ExecutionTrace, Finish,
  execute, raise_for_error, canceled_turn, completed_turn, ledger_outcome,
}

-- A run of the model: its body ended, or it was cut off around the body.
pub data Run : Type 0 where
  ran : Finish → ExecutionTrace → Run
  cut_off : ExecutionTrace → Run

-- What a turn calls that is not the repository's: the server that issues envelopes, the request's
-- schema, the model behind its graph, the rates of an envelope, Python's test for a space, the
-- summary of a thread and the texts of errors.
pub record Service : Type 0 where
  pub issue : ℕ → ℕ → Option ChatRequest
  pub validates : ChatRequest → Bool
  pub run_chat : ChatRequest → ℕ → Run
  pub estimate_cost : ChatRequest → String → String → Option ℕ
  pub is_space : ℕ → Bool
  pub summarizes : ℕ → Bool
  pub describe : Fault → String

abbrev pub on_ledger : {A : Type 0} → (Ledger → A × Ledger) → M A
on_ledger f s = (returned (f s.ledger).0, record s { ledger = (f s.ledger).1 })

abbrev pub read_ledger : {A : Type 0} → (Ledger → A) → M A
read_ledger f s = (returned (f s.ledger), s)

unfoldable pub next_execution : ℕ → M (Option ℕ)
next_execution thread_id = read_ledger (next_queued_in_thread thread_id)

unfoldable pub is_busy : Claim → Bool
is_busy Claim.thread_busy = true
is_busy _ = false

unfoldable pub is_claimed : Claim → Bool
is_claimed claimed = true
is_claimed _ = false

-- The three readings of the clock by `_take_running_seat`, and RUNNING_LEASE_S.
pub record Readings : Type 0 where
  pub first : ℕ
  pub second : ℕ
  pub third : ℕ

unfoldable pub recover_and_claim : ℕ → ℕ → ℕ → Readings → M (Unit {0})
unfolding is_claimed
recover_and_claim lease_s execution_id thread_id at = do
  recovered ← on_ledger (recover_stale_running (at.second - lease_s) at.second (some thread_id))
  if recovered == 0 then raise thread_busy else do
    again ← on_ledger (claim_queued execution_id at.third)
    if is_claimed again then pure tt else raise thread_busy

-- `_take_running_seat`
unfoldable pub take_running_seat : ℕ → ℕ → ℕ → Readings → M (Unit {0})
unfolding is_busy recover_and_claim
take_running_seat lease_s execution_id thread_id at = do
  answer ← on_ledger (claim_queued execution_id at.first)
  if is_busy answer then recover_and_claim lease_s execution_id thread_id at else pure tt

abbrev pub running_row : Option Execution → M Execution
running_row none = raise not_active
running_row (some r) = if is_running r.status then pure r else raise not_active

unfoldable pub seated_row : ℕ → ℕ → ℕ → Readings → M Execution
unfolding take_running_seat
seated_row lease_s execution_id thread_id at = do
  take_running_seat lease_s execution_id thread_id at
  row ← read_ledger (find_by_id execution_id)
  running_row row

-- `_claim`
unfoldable pub claim_row : ℕ → ℕ → ℕ → Readings → Option Execution → M Execution
unfolding seated_row
claim_row lease_s execution_id thread_id at none = raise not_active
claim_row lease_s execution_id thread_id at (some r) =
    if is_queued r.status
    then seated_row lease_s execution_id thread_id at
    else running_row (some r)

-- `str(row["language"] or "auto")`
unfoldable pub language_or_auto : Option String → String
language_or_auto none = "auto"
language_or_auto (some String.[]) = "auto"
language_or_auto (some (String.◌∷◌ c s)) = String.◌∷◌ c s

unfoldable pub prepared_from : ℕ → Execution → PreparedChatExecution
unfolding language_or_auto
prepared_from execution_id r = record {
  execution_id = execution_id;
  thread_id = r.thread_id;
  user_id = r.user_id;
  language = language_or_auto r.language;
  model = r.model;
}

unfoldable pub prepare : ℕ → ℕ → ℕ → Readings → M PreparedChatExecution
unfolding claim_row prepared_from
prepare lease_s execution_id thread_id at = do
  found ← read_ledger (find_by_id execution_id)
  row ← claim_row lease_s execution_id thread_id at found
  pure (prepared_from execution_id row)

unfoldable pub begin : ℕ → ℕ → ℕ → M (Unit {0})
begin execution_id attempt now = do
  opened ← on_ledger (begin_attempt execution_id attempt now)
  if opened then pure tt else raise attempt_stale

abbrev pub issued : Option ChatRequest → M ChatRequest
issued none = raise no_envelope
issued (some envelope) = pure envelope

module _ (service : Service) where
  -- What `generate` makes of a run.
  unfoldable pub after_run :
      PreparedChatExecution → ℕ → ℕ → ChatRequest → Run → M GeneratedChatExecution
  unfolding execute raise_for_error canceled_turn completed_turn record_observation
  after_run prepared attempt now request (cut_off trace) =
      pure (canceled_turn service.estimate_cost prepared attempt request trace)
  after_run prepared attempt now request (ran finish trace) =
      let response = execute request attempt finish trace in
      let was_canceled : Bool = elim response.observation [
        | none ↦ false
        | some o ↦ same_observation o.status cancelled
      ] in
      if was_canceled
      then pure (canceled_turn service.estimate_cost prepared attempt request trace)
      else elim response.error [
        | none ↦
            completed_turn service.estimate_cost service.is_space prepared attempt request response
        | some _ ↦ do
          record_observation prepared.execution_id prepared.user_id attempt response.observation
          raise_for_error response
          completed_turn service.estimate_cost service.is_space prepared attempt request response
      ]

  unfoldable pub generate : PreparedChatExecution → ℕ → ℕ → ℕ → M GeneratedChatExecution
  unfolding turn_request begin after_run
  generate prepared begun_at observed_at attempt = do
    envelope ← issued (service.issue prepared.execution_id attempt)
    request ← turn_request service.validates prepared envelope
    begin prepared.execution_id attempt begun_at
    after_run prepared attempt observed_at request (service.run_chat request attempt)

  -- `finalize`: a canceled turn that left nothing but spaces is not written.
  unfoldable pub finalize_turn : GeneratedChatExecution → ℕ → ℕ → M (Unit {0})
  unfolding ledger_outcome
  finalize_turn generated now attempt =
      if generated.canceled && not (any (λ c. not (service.is_space c)) generated.text)
      then pure tt
      else do
        persisted ← finalize (ledger_outcome generated) now
        if not persisted || generated.canceled
            then pure tt
            else if service.summarizes attempt
            then pure tt
            else raise summary_failed

  unfoldable pub fail : ℕ → Fault → ℕ → M Bool
  fail execution_id fault now = on_ledger (fail_active execution_id (service.describe fault) now)
