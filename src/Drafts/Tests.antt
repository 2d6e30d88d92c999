-- ===== src/Drafts/Tests.antt =====
-- Concrete runs of the model of src/tracer_agent/worker/agents/chat/drafts.py.
use tracer_agent_python.Prelude.{◌≡◌, refl, true, false, List, [], ◌∷◌, ◌==◌, none, some}
use tracer_agent_python.ChatLedger.Rows.{Execution, Ledger, running, starting, python, thinking}
use tracer_agent_python.Redaction.Rules.{Rules, trace, query, output, discard, cover}
use tracer_agent_python.Redaction.Cover.{covered_text}
use tracer_agent_python.Redaction.Scan.{is_suspect_text}
use tracer_agent_python.Drafts.Publisher.{new_publisher}
use tracer_agent_python.Drafts.Delivery.{
  Delivery, returns, raises_before, Event, pushes, marks_phase, delivers, happen_all,
}
use tracer_agent_python.Drafts.Order.{covered_output}

abbrev open_rules : Rules
open_rules = record {
  marker = b'*' ∷ [];
  key_words = [];
  value_words = (b'k' ∷ b'e' ∷ b'y' ∷ []) ∷ [];
  minimum_body_length = 2;
  skips_space_between = true;
  is_space = λ c. c == b' ';
  stage_rule = λ stage. elim stage [
    | trace ↦ record { on_suspect = discard; inspects_keys = true; inspects_values = true }
    | query ↦ record { on_suspect = discard; inspects_keys = true; inspects_values = true }
    | output ↦ record { on_suspect = cover; inspects_keys = false; inspects_values = true }
  ];
  casefold = λ t. t;
  is_alnum = λ c. true;
}

abbrev answering : Execution
answering = record {
  id = 2;
  user_id = 7;
  thread_id = 3;
  replay_anchor_message_id = 90;
  client_request_id = 1;
  input_hash = 1;
  model = none;
  language = none;
  requested_backend = some python;
  status = running;
  phase = starting;
  draft_text = "";
  draft_seq = 0;
  attempt = 1;
  assistant_message_id = none;
  spend = none;
  error = none;
  created_at = 0;
  updated_at = 0;
  started_at = some 0;
  completed_at = none;
}

abbrev one_answering : Ledger
one_answering = record { executions = answering ∷ []; observations = [] }

-- Texts are told apart by whether they start with the marker.
-- The delivery of the first draft, of the phase alone, raises.
abbrev delivery : Delivery
delivery = record {
  execution_id = 2;
  attempt = 1;
  as_stored = λ t. elim t [
    | [] ↦ "nothing"
    | c ∷ _ ↦ elim (c == b'*') [ true ↦ "covered" | false ↦ "open" ]
  ];
  fate = λ seq. elim (seq == 1) [ true ↦ raises_before | false ↦ returns ];
}

-- The key arrives in two pieces, the second one within the interval of the first.
abbrev events : List Event
events =
    marks_phase thinking 1
    ∷ pushes (b'k' ∷ b'e' ∷ []) 10 10
    ∷ delivers 11
    ∷ pushes (b'y' ∷ b' ' ∷ b'a' ∷ b'b' ∷ []) 12 12
    ∷ []

-- The key was stored in part before it could be told, and is covered as a whole in the end.
key_is_covered :
    let (p, later) = happen_all open_rules 100 delivery events new_publisher one_answering in
    covered_output open_rules p.text ≡ b'*' ∷ []
unfolding happen_all is_suspect_text covered_text
key_is_covered = refl
