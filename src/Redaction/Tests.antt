-- ===== src/Redaction/Tests.antt =====
-- Concrete runs of the model of src/tracer_agent/shared/agents/shared/redaction.py.
use tracer_agent_python.Prelude.{◌≡◌, refl, arith, true, false, [], ◌∷◌, ◌==◌, leb, none, some}
use tracer_agent_python.Redaction.Rules.{Text, Rules, trace, query, output, discard, cover}
use tracer_agent_python.Redaction.Cover.{
  covered_text, is_suspect_key, redact, covered, assert_clean, Value, scalar, text, array, object,
  nil, cons, end, entry,
}
use tracer_agent_python.Redaction.Scan.{is_suspect_text}
use tracer_agent_python.Redaction.Runs.{replace_runs}
use tracer_agent_python.Redaction.Credentials.{is_credential}
use tracer_agent_python.Redaction.Suspects.{covered_text_runs, IsWithin, clean_kept}

-- One marker `*`, the value word "key" with a body of two characters at least, the key word "pw".
abbrev small_rules : Rules
small_rules = record {
  marker = b'*' ∷ [];
  key_words = (b'p' ∷ b'w' ∷ []) ∷ [];
  value_words = (b'k' ∷ b'e' ∷ b'y' ∷ []) ∷ [];
  minimum_body_length = 2;
  skips_space_between = true;
  is_space = λ c. c == b' ';
  stage_rule = λ stage. elim stage [
    | trace ↦ record { on_suspect = cover; inspects_keys = true; inspects_values = true }
    | query ↦ record { on_suspect = discard; inspects_keys = false; inspects_values = true }
    | output ↦ record { on_suspect = cover; inspects_keys = false; inspects_values = true }
  ];
  casefold = λ t. t;
  is_alnum = λ c. leb b'0' c;
}

-- "a KEY xy!"
abbrev secret : Text
secret = b'a' ∷ b' ' ∷ b'K' ∷ b'E' ∷ b'Y' ∷ b' ' ∷ b'x' ∷ b'y' ∷ b'!' ∷ []

secret_covered : covered_text small_rules secret ≡ b'a' ∷ b' ' ∷ b'*' ∷ b'!' ∷ []
unfolding covered_text
secret_covered = refl

covered_text_runs_example :
    covered_text small_rules secret
    ≡ replace_runs (b'*' ∷ []) (is_credential small_rules secret) 0 false secret
covered_text_runs_example = covered_text_runs small_rules secret (omega arith, tt)

abbrev payload : Value
payload =
    object
      (entry (b'i' ∷ b'd' ∷ []) (array (cons (scalar 3) (cons (text (b'h' ∷ b'i' ∷ [])) nil))) end)

output-IsWithin_query : IsWithin small_rules output query
output-IsWithin_query = record { values_within = λ h. refl; keys_within = λ h. h }

clean_kept_example : (payload ≡ payload) × (redact small_rules output payload ≡ some payload)
unfolding redact assert_clean is_suspect_key is_suspect_text
clean_kept_example =
    clean_kept small_rules query output output-IsWithin_query payload payload refl refl refl

key_covered :
    redact small_rules trace (object (entry (b'p' ∷ b'w' ∷ []) (scalar 3) end))
    ≡ some (object (entry (b'p' ∷ b'w' ∷ []) (text (b'*' ∷ [])) end))
unfolding redact covered is_suspect_key
key_covered = refl

secret_refused : redact small_rules query (array (cons (text secret) nil)) ≡ none
unfolding redact assert_clean is_suspect_text
secret_refused = refl
