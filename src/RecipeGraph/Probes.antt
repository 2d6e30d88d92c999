-- ===== src/RecipeGraph/Probes.antt =====
-- The probes of src/tracer_agent/worker/agents/recipe_scan/nodes/probe.py and how their updates reach the state.
use tracer_agent_python.Prelude.{
  Bool, true, false, ◌==◌, List, [], ◌∷◌, ◌++◌, take, Option, none, some, if◌then◌else◌,
}
use tracer_agent_python.Validation.Recipe.{ProvenanceCatalog}
use tracer_agent_python.Budget.Lease.{SpendChannels, settle, pool_spend}
use tracer_agent_python.RecipeGraph.State.{
  Text, ProbeName, ProbeDispatch, ProbeReport, State, no_provenance, merged_provenance, Contract,
  RawReport, reported, stopped, Setup,
}
use tracer_agent_python.RecipeGraph.Salvage.{strip, salvage_probe_report}

pub record ProbeUpdate : Type 0 where
  pub report : ProbeReport
  pub read_provenance : ProvenanceCatalog
  pub failed : List ProbeName
  pub probe_spend : SpendChannels

-- A report of no findings; its verdict is the contract's sentence, stripped by the schema.
unfoldable pub failed_report : Contract → ProbeName → Text → Bool → ProbeReport
unfolding strip
failed_report contract probe reason exhausted = record {
  probe = probe;
  verdict = strip contract (take contract.max_verdict_chars (contract.worker_failed reason));
  excerpts = [];
  exhausted = exhausted;
  truncated = false;
}

-- What stands for a call that failed: the salvaged report, or a report of the failure.
unfoldable pub fallen_back :
    Contract → ProbeName → Text → Option RawReport → ProbeReport × List ProbeName
unfolding failed_report salvage_probe_report
fallen_back contract probe summary rejected = elim (salvage_probe_report contract probe rejected) [
  | none ↦ (failed_report contract probe summary false, probe ∷ [])
  | some report ↦ (report, [])
]

-- `ProbeNode.run`: no exception of the call gets out; a call that failed counts all its turns.
unfoldable pub probe_node : Setup → ProbeDispatch → ProbeUpdate
unfolding pool_spend failed_report fallen_back
probe_node setup d =
    let probe = d.assignment.probe in
    if d.lease.max_turns == 0
    then record {
      report = failed_report setup.contract probe setup.contract.no_turns_allocated true;
      read_provenance = no_provenance;
      failed = [];
      probe_spend = pool_spend 0 0;
    }
    else (let (answer, catalog) = setup.model.probe d in
        elim answer [
          | reported report turns cost ↦ record {
            report = report;
            read_provenance = catalog;
            failed = [];
            probe_spend = pool_spend cost turns;
          }
          | stopped summary rejected cost ↦ record {
            report = (fallen_back setup.contract probe summary rejected).0;
            read_provenance = catalog;
            failed = (fallen_back setup.contract probe summary rejected).1;
            probe_spend = pool_spend cost d.lease.max_turns;
          }
        ])

unfoldable pub joined_probe : ProbeUpdate → State → State
unfolding merged_provenance settle
joined_probe u s = record s {
  reports = s.reports ++ (u.report ∷ []);
  failed_probes = s.failed_probes ++ u.failed;
  provenance = merged_provenance s.provenance u.read_provenance;
  spend = settle s.spend u.probe_spend;
}

-- The probes of one fan-out: their updates reach the state in the order of the dispatches.
unfoldable pub probe_all : Setup → List ProbeDispatch → State → State
unfolding probe_node joined_probe
probe_all setup [] s = s
probe_all setup (d ∷ dispatches) s =
    probe_all setup dispatches (joined_probe (probe_node setup d) s)
