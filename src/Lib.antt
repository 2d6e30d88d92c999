-- ===== src/Lib.antt =====
-- tracer-agent: the core of the agent service, whose program is src/tracer_agent of the repository.
--
-- The service takes chat turns and background jobs from HTTP routers, lets Temporal workflows run
-- them, and lets language models do the work inside a budget. Its state is a relational database,
-- written by conditional statements. What decides whether that is right is modelled here; what
-- moves bytes between processes is not.
--
-- Parts, files and sources
--   Budget (Budget.antt): src/tracer_agent/worker/agents/runtime/llm/budget.py with the channels of
--     shared/agents/shared/graph_state.py. Lease has AgentBudgetLease, the channels, pool_spend,
--     reserved_spend, floor_lease and floor_then_pool_spend; Shares has _clamp_turns_without_leak
--     and quote_shares; Execution has ExecutionBudget and SharedToolLoopBudget (reserve, charge,
--     landing, land).
--   ChatLedger: src/tracer_agent/shared/agents/chat/execution_ledger.py. Rows has the tables,
--     Statements a function for each method of ChatExecutionLedger: which rows its statement
--     changes, how, and what it returns; Requests has all of them as one step.
--   ChatTurns: one turn from its claim to its outcome. Writer has ChatExecutionWriter of
--     src/tracer_agent/worker/agents/chat/execution_writer.py, a transaction on the tables of Tables;
--     Turn has worker/workflows/chat_turn.py and what it takes of a run of the model (execute of
--     runner.py, to_observation of trace.py); Activities has worker/workflows/chat_activities.py;
--     Execution and Drain have the two workflows of chat_workflows.py. All of them write through
--     ChatLedger; an error is a value that carries what was written before it (Ended).
--   Jobs: src/tracer_agent/shared/workflows/jobs_ledger.py, in the same way (Rows, Ledger).
--   JobRuns: one job from its preparation to its settlement. World has what the activities read and
--     write, Outcome has jobs_outcome.py, Service what is outside and shared/agents/settings/
--     execution.py, Activities has src/tracer_agent/worker/workflows/jobs_activities.py with the
--     writer of jobs_writer.py, Workflow has jobs_workflows.py. All of it writes through Jobs.
--   Drafts: src/tracer_agent/worker/agents/chat/drafts.py: Publisher has DraftPublisher, Delivery its
--     deliveries on ChatLedger, and the flush.
--   Redaction: src/tracer_agent/shared/agents/shared/redaction.py. Rules has what redaction.json
--     settles, Scan the search for credentials in a text, Cover the covering of texts and values; Credentials
--     describes on its own which characters of a text are in a credential.
--   ScopeToken: src/tracer_agent/shared/agents/shared/scope_token.py: Split has the taking apart of a
--     token, Token has issue and verify.
--   Validation: the policies src/tracer_agent/worker/agents/{recipe_scan,task_cleanup,
--     title_suggestion}/policy.py (Recipe, Claims; Cleanup; Title) on the sets and dictionaries of
--     Sets.
--   CleanupGraph: the agent src/tracer_agent/worker/agents/task_cleanup: State has its state,
--     Nodes its nodes, Run the edges of graph.py with the validation tail and the router of
--     src/tracer_agent/worker/agents/runtime. Its nodes take leases of Budget, its validation is
--     Validation.Cleanup.
--   RecipeGraph: the agent src/tracer_agent/worker/agents/recipe_scan, in the same way, with the
--     models of src/tracer_agent/shared/agents/recipe_scan/models.py: State has the state and what
--     the models check, Salvage salvage_probe_report, Probes and Nodes the nodes, Run the edges and the survey's
--     error handler; Mishaps tells from the model's answers what went wrong on a run. Its validation
--     is Validation.Claims.
--   Prelude: lists and tests on native numbers that all the parts share.
--
-- Conventions
--   Identifiers, times and hashes are only compared, so they are natural numbers. Dollars are whole
--   multiples of a small unit: the program adds, subtracts and compares them, and only a share
--   (Budget.Shares.lease_of) divides, rounding down here. No amount is negative, but for the signed arguments of a
--   reservation (Turns and Share of Budget.Execution), and a difference
--   that the program cuts off at 0 is a difference of naturals. A message to the model or in an
--   error is a constructor with what the message names. Every statement of a ledger is one step;
--   interleavings are lists of steps. The check of a unique index stands in the statement that it
--   can refuse. A list of rows stands for a table, in the order of insertion.
--
-- Parameters
--   The contract's files are a submodule: the words and stages of redaction.json, the shares of a
--   depth, the limit on recipe candidates and the two pacing numbers are arguments. So are
--   Unicode's tables (spaces, digits, case folding, NFKC) and all that a model or its tools answer
--   (CleanupGraph.State.Model, RecipeGraph.State.Model): a theorem about a graph holds for every
--   answer, exceptions and exceeded budgets included. Retries of a graph's node belong to LangGraph;
--   the answer is that of the last try.
--
--   A turn's Service is what it calls outside: the server that issues envelopes, the request's schema,
--   the graph behind a run, rates, the summary. Its Schedule has every reading of the clock and what
--   others write while it waits for a busy thread. Temporal's part is its documented one: an
--   activity is tried again while its error may be retried and attempts are left, and the
--   identifier of a workflow is not used twice (REJECT_DUPLICATE). An attempt of a turn's stage
--   that is lost counts as one that raises, and a stage may end with an error after all its writes; an
--   attempt to record its failure says where it is lost
--   (ChatTurns.Execution.Cut), as does each of a job's activities (JobRuns.World.Cut). The CancelledError
--   of a chat's workflow arrives before its first stage, in a wait or while it settles, and a
--   cancellation of a job between two stages. Whether the delivery of a draft raises is Drafts.Delivery.fate.
--
-- Fuel
--   CleanupGraph.Run.run takes steps of the graph by a number of steps; 9 are enough from the
--   initial state, as CleanupGraph.Ends shows, below the recursion limit of 30 that the agent
--   gives LangGraph. RecipeGraph.Run.run does the same; there the contract sets how often more probes
--   may be asked for, and RecipeGraph.Ends counts two steps for each; the agent's limit of 30 leaves
--   room for 11. ChatTurns.Drain.drain takes a round for each execution that has no workflow, and
--   two more, as ChatTurns.DrainEnds shows; its loop has no bound in the source. All other loops are
--   structural recursion, the attempts of an activity by their number.
--
-- Not modelled
--   HTTP routers, wire models, configuration, telemetry, prompts, the clients of the language
--   model, of Temporal, Kafka, OpenSearch and the tracer service, encryption of settings: they
--   pass data on to libraries or only describe it. The intake of turns and jobs, the chat surface,
--   the recipe store with its projection, the suggestions of a cleanup and the title-suggestion graph
--   are parts of their own, which meet the modelled ones in the ledgers only. Columns that a statement only stores are kept
--   where a property reads them.
pub mod Prelude
pub mod Budget
pub mod ChatLedger
pub mod ChatTurns
pub mod Redaction
pub mod Jobs
pub mod JobRuns
pub mod Drafts
pub mod ScopeToken
pub mod Validation
pub mod CleanupGraph
pub mod RecipeGraph
