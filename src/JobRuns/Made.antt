-- ===== src/JobRuns/Made.antt =====
-- What the preparation and the generation of a job hand on (src/tracer_agent/worker/workflows/jobs_activities.py).
use mathlib.Core.Path.{subst}
use tracer_agent_python.Prelude.{
  ℕ, ◌≡◌, refl, ◌∙◌, false, Bool-cases, inl, inr, Option, none, some, arith,
}
use tracer_agent_python.Jobs.Rows.{is_live}
use tracer_agent_python.JobRuns.World.{
  JobKind, World, Payload, Ended, returned, raised, M, interrupted,
}
use tracer_agent_python.JobRuns.Outcome.{Response, GeneratedAgentJob, status_and_error, outcome_of}
use tracer_agent_python.JobRuns.Activities.{
  mark_of, prepared_for, prepare, resolve_payload, merge_envelope, generated_for, generated_from,
  generate,
}
use tracer_agent_python.JobRuns.Service.{Service, collect_context, carry_settings}
use tracer_agent_python.JobRuns.Workflow.{Schedule, prepare_attempts, generate_attempts}
use tracer_agent_python.JobRuns.Stable.{Exists, Exists-IsStable, prepare-Keeps, interrupted-Keeps}
use tracer_agent_python.JobRuns.Returns.{
  returned-inj, Returns, attempts-Returns, interrupted-Returns,
}

module _ (job_id : ℕ) where
  -- The value is about the job.
  abbrev pub NamesJob : Payload → World → Type 0
  NamesJob payload w = payload.execution_id ≡ some job_id

  collected-same :
      (service : Service) (kind : JobKind) (payload collected : Payload)
      → collect_context service kind payload ≡ some collected
      → collected.execution_id ≡ payload.execution_id
  unfolding collect_context
  collected-same service kind payload collected h = ground arith

  marked-NamesJob :
      (id : Option ℕ) (prepared : Payload) (now : ℕ)
      → prepared.execution_id ≡ some job_id
      → Returns job_id (mark_of id prepared now) NamesJob
  unfolding mark_of
  marked-NamesJob none prepared now own w h a e =
      let same : prepared ≡ a = ground (arith, e) in rw same at own
  marked-NamesJob (some other) prepared now own w h a e =
      let same : prepared ≡ a = ground (arith, e) in rw same at own

  prepared-NamesJob :
      (service : Service) (kind : JobKind) (payload : Payload) (user : Option ℕ)
      (collected : Option Payload) (now : ℕ)
      → payload.execution_id ≡ some job_id
      → collect_context service kind payload ≡ collected
      → Returns job_id (prepared_for service kind user collected now) NamesJob
  unfolding prepared_for
  prepared-NamesJob service kind payload none collected now own found w h a e = absurd cc
  prepared-NamesJob service kind payload (some user_id) none now own found w h a e = absurd cc
  prepared-NamesJob service kind payload (some user_id) (some collected) now own found w h a e =
      marked-NamesJob _ (carry_settings service.settings kind user_id collected) now
        (unfold carry_settings in collected-same service kind payload collected found ∙ own) w h a e

  pub prepare_attempts-NamesJob :
      (service : Service) (at : Schedule) (kind : JobKind) (payload : Payload)
      → payload.execution_id ≡ some job_id
      → Returns job_id (prepare_attempts service at kind payload) NamesJob
  unfolding prepare_attempts
  prepare_attempts-NamesJob service at kind payload own =
      let once : ℕ → M Payload = λ n. prepare service kind payload (at.prepared_at n) in
      attempts-Returns job_id 4 1 (λ n. interrupted (at.prepare_cut n) (once n)) NamesJob
        (λ n.
          interrupted-Keeps (Exists job_id) (Exists-IsStable job_id) (at.prepare_cut n) (once n) (
            prepare-Keeps (Exists job_id) (Exists-IsStable job_id) service kind payload
              (at.prepared_at n)))
        (λ n. interrupted-Returns job_id (at.prepare_cut n) (once n) NamesJob (
          unfold prepare in
          prepared-NamesJob service kind payload payload.user_id
            (collect_context service kind payload) (at.prepared_at n) own refl))

  -- A generated outcome is about the job and is one of its ends.
  abbrev pub EndsJob : GeneratedAgentJob → World → Type 0
  EndsJob g w = (g.outcome.job_id ≡ some job_id) × (is_live g.outcome.status ≡ false)

  status-not_live : (response : Response) → is_live (status_and_error response).0 ≡ false
  unfolding status_and_error is_live
  status-not_live response = ground arith

  run-EndsJob :
      (service : Service) (payload : Payload) (user_id : ℕ) (run : Ended Response)
      (g : GeneratedAgentJob) (w : World)
      → payload.execution_id ≡ some job_id
      → elim run as (λ x. Ended GeneratedAgentJob) [
        | returned response ↦ returned (record {
          outcome = outcome_of payload user_id response (service.estimate_cost_usd response);
          response = response;
        })
        | raised f ↦ raised f
      ]
        ≡ returned g
      → EndsJob g w
  run-EndsJob service payload user_id (raised f) g w own e = absurd cc
  run-EndsJob service payload user_id (returned response) g w own e =
      let made : GeneratedAgentJob = record {
        outcome = outcome_of payload user_id response (service.estimate_cost_usd response);
        response = response;
      } in
      let same : made ≡ g = returned-inj made g e in
      subst (λ x. EndsJob x w) same (unfold outcome_of in (own, status-not_live response))

  user-EndsJob :
      (service : Service) (kind : JobKind) (attempt : ℕ) (payload : Payload) (user : Option ℕ)
      (g : GeneratedAgentJob) (w : World)
      → payload.execution_id ≡ some job_id
      → generated_for service kind attempt payload user ≡ returned g
      → EndsJob g w
  unfolding generated_for
  user-EndsJob service kind attempt payload none g w own e = absurd cc
  user-EndsJob service kind attempt payload (some user_id) g w own e =
      elim (Bool-cases (service.is_request kind payload)) [
        | inl h ↦
            run-EndsJob service payload user_id (service.run_graph kind payload attempt) g w own
              (rw h at e)
        | inr h ↦ let refused = rw h at e in absurd cc
      ]

  resolved-NamesJob :
      (service : Service) (kind : JobKind) (payload resolved : Payload)
      → resolve_payload service kind payload ≡ returned resolved
      → resolved.execution_id ≡ payload.execution_id
  unfolding resolve_payload merge_envelope
  resolved-NamesJob service kind payload resolved h = ground arith

  from-EndsJob :
      (service : Service) (kind : JobKind) (attempt : ℕ) (payload : Payload)
      (resolved : Ended Payload) (g : GeneratedAgentJob) (w : World)
      → payload.execution_id ≡ some job_id
      → resolve_payload service kind payload ≡ resolved
      → generated_from service kind attempt resolved ≡ returned g
      → EndsJob g w
  unfolding generated_from
  from-EndsJob service kind attempt payload (raised f) g w own found e = absurd cc
  from-EndsJob service kind attempt payload (returned resolved) g w own found e =
      user-EndsJob service kind attempt resolved resolved.user_id g w
        (resolved-NamesJob service kind payload resolved found ∙ own) e

  pub generate_attempts-EndsJob :
      (service : Service) (at : Schedule) (kind : JobKind) (prepared : Payload)
      → prepared.execution_id ≡ some job_id
      → Returns job_id (generate_attempts service at kind prepared) EndsJob
  unfolding generate_attempts
  generate_attempts-EndsJob service at kind prepared own =
      let once : ℕ → M GeneratedAgentJob = λ n. generate service kind prepared n in
      attempts-Returns job_id at.more_generate_attempts 1
        (λ n. interrupted (at.generate_cut n) (once n)) EndsJob
        (λ n.
          interrupted-Keeps (Exists job_id) (Exists-IsStable job_id) (at.generate_cut n) (once n)
            (λ w h. unfold generate in h))
        (λ n. interrupted-Returns job_id (at.generate_cut n) (once n) EndsJob (λ w h g e.
          unfold generate in
          from-EndsJob service kind n prepared (resolve_payload service kind prepared) g w own refl
            (unfold generate in e)))
