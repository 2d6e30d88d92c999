-- ===== src/Redaction/Scan.antt =====
-- `_body_bounds`, `_carries_body`, `is_suspect_text` and `_suspect_spans` of
-- src/tracer_agent/shared/agents/shared/redaction.py. The loop over `find` visits the positions where the word occurs, from
-- the left, overlapping ones included; here it walks the text.
use tracer_agent_python.Prelude.{
  ℕ, suc, ◌+◌, Bool, true, false, ◌&&◌, ◌||◌, List, [], ◌∷◌, ◌++◌, any, leb, ltb, ◌==◌, length,
  drop, if◌then◌else◌, max,
}
use tracer_agent_python.Redaction.Rules.{Text, Rules, lower_ascii, is_body}

pub record Span : Type 0 where
  pub start : ℕ
  pub end : ℕ

unfoldable pub starts_with : Text → Text → Bool
starts_with text [] = true
starts_with [] (w ∷ ws) = false
starts_with (c ∷ cs) (w ∷ ws) = c == w && starts_with cs ws

-- How many characters at the front pass the test.
unfoldable pub count_while : (ℕ → Bool) → Text → ℕ
count_while test [] = 0
count_while test (c ∷ cs) = let more = count_while test cs in if test c then suc more else 0

module _ (rules : Rules) where
  -- The end of the spaces behind a word.
  unfoldable pub body_start : Text → ℕ → ℕ
  unfolding count_while
  body_start folded index =
      if rules.skips_space_between
      then index + count_while rules.is_space (drop index folded)
      else index

  unfoldable pub body_bounds : Text → ℕ → ℕ × ℕ
  unfolding body_start is_body
  body_bounds folded index =
      let start = body_start folded index in
      let size = count_while is_body (drop start folded) in (size, start + size)

  -- The spans of one word at the position `i`, where `rest` is the text from there on.
  unfoldable pub word_spans : Text → Text → ℕ → Text → List Span
  unfolding starts_with body_bounds
  word_spans folded word i [] = []
  word_spans folded word i (c ∷ cs) =
      let more = word_spans folded word (suc i) cs in
      let (size, end) = body_bounds folded (i + length word) in
      if starts_with (c ∷ cs) word && leb rules.minimum_body_length size
      then record { start = i; end = end } ∷ more
      else more

  unfoldable pub carries_body : Text → Text → ℕ → Text → Bool
  unfolding starts_with body_bounds
  carries_body folded word i [] = false
  carries_body folded word i (c ∷ cs) =
      (starts_with (c ∷ cs) word
        && leb rules.minimum_body_length (body_bounds folded (i + length word)).0)
      || carries_body folded word (suc i) cs

  unfoldable pub is_suspect_text : Text → Bool
  unfolding carries_body lower_ascii
  is_suspect_text text =
      let folded = lower_ascii text in
      any (λ word. carries_body folded word 0 folded) rules.value_words

  unfoldable pub found_spans : Text → List Text → List Span
  unfolding word_spans
  found_spans folded [] = []
  found_spans folded (word ∷ words) = word_spans folded word 0 folded ++ found_spans folded words

-- The order of Python's tuples.
unfoldable pub span_before : Span → Span → Bool
span_before a b = ltb a.start b.start || a.start == b.start && leb a.end b.end

unfoldable pub insert_span : Span → List Span → List Span
unfolding span_before
insert_span a [] = a ∷ []
insert_span a (b ∷ bs) =
    let rest = insert_span a bs in if span_before a b then a ∷ b ∷ bs else b ∷ rest

unfoldable pub sort_spans : List Span → List Span
unfolding insert_span
sort_spans [] = []
sort_spans (a ∷ others) = insert_span a (sort_spans others)

-- The loop that widens `merged[-1]`; `last` is that item.
unfoldable pub merge_from : Span → List Span → List Span
merge_from last [] = last ∷ []
merge_from last (b ∷ bs) =
    if leb b.start last.end
    then merge_from (record last { end = max last.end b.end }) bs
    else last ∷ merge_from b bs

unfoldable pub merge_spans : List Span → List Span
unfolding merge_from
merge_spans [] = []
merge_spans (a ∷ others) = merge_from a others

unfoldable pub suspect_spans : Rules → Text → List Span
unfolding found_spans sort_spans merge_spans
suspect_spans rules folded = merge_spans (sort_spans (found_spans rules folded rules.value_words))
