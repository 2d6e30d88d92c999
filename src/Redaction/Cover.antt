-- ===== src/Redaction/Cover.antt =====
-- `_covered_text`, `redact_text` and `redact` of src/tracer_agent/shared/agents/shared/redaction.py.
use tracer_agent_python.Prelude.{
  ℕ, ◌-◌, Bool, true, false, ◌&&◌, not, List, [], ◌∷◌, ◌++◌, any, take, drop, if◌then◌else◌, Option,
  none, some, filter, ◌||◌,
}
use tracer_agent_python.Redaction.Rules.{Text, Rules, Stage, discard, cover, lower_ascii}
use tracer_agent_python.Redaction.Scan.{Span, starts_with, is_suspect_text, suspect_spans}

-- `text[from:to]`
abbrev pub slice : Text → ℕ → ℕ → Text
slice text low high = take (high - low) (drop low text)

-- The pieces that the loop joins, from the cursor on.
unfoldable pub pieces : Text → Text → ℕ → List Span → Text
pieces marker text cursor [] = drop cursor text
pieces marker text cursor (a ∷ others) =
    slice text cursor a.start ++ (marker ++ pieces marker text a.end others)

unfoldable pub covered_with : Text → Text → List Span → Text
unfolding pieces
covered_with marker text [] = text
covered_with marker text (a ∷ others) = pieces marker text 0 (a ∷ others)

unfoldable pub covered_text : Rules → Text → Text
unfolding lower_ascii suspect_spans covered_with
covered_text rules text = covered_with rules.marker text (suspect_spans rules (lower_ascii text))

unfoldable pub discards : Rules → Stage → Bool
discards rules stage = elim ((rules.stage_rule stage).on_suspect) [ discard ↦ true | cover ↦ false ]

-- `SuspectPayloadError` is `none`.
unfoldable pub redact_text : Rules → Stage → Text → Option Text
unfolding discards is_suspect_text covered_text
redact_text rules stage text =
    if not ((rules.stage_rule stage).inspects_values && is_suspect_text rules text)
    then some text
    else if discards rules stage
    then none
    else some (covered_text rules text)

-- `_folded_key`
unfoldable pub folded_key : Rules → Text → Text
folded_key rules key = filter rules.is_alnum (rules.casefold key)

-- `word in folded`
unfoldable pub contains : Text → Text → Bool
unfolding starts_with
contains word [] = starts_with [] word
contains word (c ∷ cs) = starts_with (c ∷ cs) word || contains word cs

unfoldable pub is_suspect_key : Rules → Text → Bool
unfolding folded_key contains
is_suspect_key rules key =
    let folded = folded_key rules key in
    any (λ word. contains (folded_key rules word) folded) rules.key_words

-- `RedactableValue`; a number, a truth value or `None` is a `scalar`, kept as it is, and `opaque`
-- stands for a value of any other type, which the declared type excludes.
mutual
  pub data Value : Type 0 where
    scalar : ℕ → Value
    text : Text → Value
    array : Values → Value
    object : Entries → Value
    opaque : ℕ → Value

  pub data Values : Type 0 where
    nil : Values
    cons : Value → Values → Values

  pub data Entries : Type 0 where
    end : Entries
    entry : Text → Value → Entries → Entries

unfoldable mutual
  pub covered : Rules → Stage → Value → Value
  covered rules stage (scalar n) = scalar n
  covered rules stage (text t) =
      if (rules.stage_rule stage).inspects_values then text (covered_text rules t) else text t
  covered rules stage (array vs) = array (covered_values rules stage vs)
  covered rules stage (object es) = object (covered_entries rules stage es)
  covered rules stage (opaque n) = text rules.marker

  pub covered_values : Rules → Stage → Values → Values
  covered_values rules stage nil = nil
  covered_values rules stage (cons v vs) =
      cons (covered rules stage v) (covered_values rules stage vs)

  pub covered_entries : Rules → Stage → Entries → Entries
  covered_entries rules stage end = end
  covered_entries rules stage (entry key v es) =
      entry key
        (if (rules.stage_rule stage).inspects_keys && is_suspect_key rules key
          then text rules.marker
          else covered rules stage v)
        (covered_entries rules stage es)

-- `_assert_clean`: does it return?
unfoldable mutual
  pub assert_clean : Rules → Stage → Value → Bool
  assert_clean rules stage (scalar n) = true
  assert_clean rules stage (text t) =
      not ((rules.stage_rule stage).inspects_values && is_suspect_text rules t)
  assert_clean rules stage (array vs) = clean_values rules stage vs
  assert_clean rules stage (object es) = clean_entries rules stage es
  assert_clean rules stage (opaque n) = false

  pub clean_values : Rules → Stage → Values → Bool
  clean_values rules stage nil = true
  clean_values rules stage (cons v vs) = assert_clean rules stage v && clean_values rules stage vs

  pub clean_entries : Rules → Stage → Entries → Bool
  clean_entries rules stage end = true
  clean_entries rules stage (entry key v es) =
      not ((rules.stage_rule stage).inspects_keys && is_suspect_key rules key)
      && (assert_clean rules stage v && clean_entries rules stage es)

unfoldable pub redact : Rules → Stage → Value → Option Value
unfolding discards
redact rules stage value =
    if discards rules stage
    then (if assert_clean rules stage value then some value else none)
    else some (covered rules stage value)
