-- ===== src/JobRuns/Service.antt =====
-- What the activities of src/tracer_agent/worker/workflows/jobs_activities.py call outside, and what they collect for a
-- payload with src/tracer_agent/shared/agents/settings/execution.py.
use Prim.Native.String.{String}
use tracer_agent_python.Prelude.{
  ℕ, Bool, Option, none, some, List, any, min, max, same_text, if◌then◌else◌,
}
use tracer_agent_python.JobRuns.World.{JobKind, recipe_scan, Payload, Fault, Ended}
use tracer_agent_python.JobRuns.Outcome.{Response, JobUsage}

-- What an envelope has for a payload.
pub record Envelope : Type 0 where
  pub issued_key : ℕ
  pub issued_model : ℕ

-- Which settings fill an entry, for which kinds (settings.execution.json, languages.json); the
-- stripping and lower-casing of a text, and the reading of a number, where a negative one counts as 0.
pub record Settings : Type 0 where
  pub languages : List (List ℕ)
  pub default_language : List ℕ
  pub default_max_suggestions : ℕ
  pub max_suggestions_cap : ℕ
  pub carries_language : JobKind → Bool
  pub carries_max_suggestions : JobKind → Bool
  pub normal_text : List ℕ → List ℕ
  pub read_number : List ℕ → Option ℕ
  pub stored_language : ℕ → Option (List ℕ)
  pub stored_max_suggestions : ℕ → Option (List ℕ)

-- What the activities call outside: the tracer service, the issuer of envelopes, the schema of a
-- request, the graph behind a run, the rates, JSON; the first 2000 characters of an error's text; and
-- Python's test for a space.
pub record Service : Type 0 where
  pub settings : Settings
  pub load_context : JobKind → Payload → Option ℕ
  pub issue_envelope : Option (JobKind → ℕ → Option Envelope)
  pub is_request : JobKind → Payload → Bool
  pub run_graph : JobKind → Payload → ℕ → Ended Response
  pub estimate_cost_usd : Response → Option ℕ
  pub rendered_usage : JobUsage → String
  pub failure_message : Fault → String
  pub is_space : ℕ → Bool

unfoldable pub normalize_language : Settings → Option (List ℕ) → List ℕ
normalize_language settings none = settings.default_language
normalize_language settings (some raw) =
    if any (λ (l : List ℕ). same_text (settings.normal_text raw) l) settings.languages
    then settings.normal_text raw
    else settings.default_language

-- `min(max(parsed, 1), cap)`
unfoldable pub normalize_max_suggestions : Settings → Option (List ℕ) → ℕ
normalize_max_suggestions settings none = settings.default_max_suggestions
normalize_max_suggestions settings (some raw) = elim (settings.read_number raw) [
  | none ↦ settings.default_max_suggestions
  | some parsed ↦ min (max parsed 1) settings.max_suggestions_cap
]

abbrev kept_or {ℓ} : {A : Type ℓ} → Bool → Option A → A → Option A
kept_or carried none value = if carried then some value else none
kept_or carried (some given) value = some given

-- `_carry_settings`: only entries that the request left out.
unfoldable pub carry_settings : Settings → JobKind → ℕ → Payload → Payload
unfolding normalize_language normalize_max_suggestions
carry_settings settings kind user_id payload = record payload {
  language =
      kept_or (settings.carries_language kind) payload.language
        (normalize_language settings (settings.stored_language user_id));
  max_suggestions =
      kept_or (settings.carries_max_suggestions kind) payload.max_suggestions
        (normalize_max_suggestions settings (settings.stored_max_suggestions user_id));
}

-- `collect_context` of a job: a recipe scan collects nothing.
unfoldable pub collect_context : Service → JobKind → Payload → Option Payload
collect_context service recipe_scan payload = some payload
collect_context service kind payload = elim payload.context [
  | some c ↦ some payload
  | none ↦ elim (service.load_context kind payload) [
    | none ↦ none
    | some c ↦ some (record payload { context = some c })
  ]
]
