-- ===== src/Redaction/Credentials.antt =====
-- The credential characters of a text, described on its own, and the spans that
-- src/tracer_agent/shared/agents/shared/redaction.py finds.
use tracer_agent_python.Prelude.{
  ℕ, zero, suc, ◌+◌, ◌<◌, ◌≡◌, refl, sym, ap, ◌∙◌, Bool, true, false, ◌&&◌, ◌||◌, List, [], ◌∷◌,
  ◌++◌, length, any, arith, if◌then◌else◌, ltb, leb, take, drop, same_text,
}
use tracer_agent_python.Redaction.Rules.{Text, Rules, lower_ascii, is_body}
use tracer_agent_python.Redaction.Scan.{
  Span, starts_with, count_while, body_start, body_bounds, word_spans, found_spans,
}
use tracer_agent_python.Redaction.Spans.{covers}
use tracer_agent_python.Redaction.Runs.{drop-drop}

-- The longest front of a text of which every character passes the test.
abbrev pub leading : (ℕ → Bool) → Text → Text
leading test [] = []
leading test (c ∷ cs) = let more = leading test cs in if test c then c ∷ more else []

module _ (rules : Rules) where
  -- The spaces behind a word, where the contract skips them.
  abbrev pub gap : Text → Text
  gap behind = if rules.skips_space_between then leading rules.is_space behind else []

  abbrev pub body : Text → Text
  body behind = leading is_body (drop (length (gap behind)) behind)

  -- How many characters the credential takes that opens a text with a word: the word, the gap and
  -- the body, if the word stands there and the body is long enough.
  abbrev pub credential_length : Text → Text → ℕ
  credential_length word text =
      let behind = drop (length word) text in
      if same_text (take (length word) text) word
        && leb rules.minimum_body_length (length (body behind))
      then length word + (length (gap behind) + length (body behind))
      else 0

  -- Is the character at the position in a credential that a word opens, there or before it?
  abbrev pub in_credential : Text → Text → ℕ → Bool
  in_credential word [] j = false
  in_credential word (c ∷ cs) zero = ltb 0 (credential_length word (c ∷ cs))
  in_credential word (c ∷ cs) (suc j) =
      ltb (suc j) (credential_length word (c ∷ cs)) || in_credential word cs j

  -- Is the character in a credential of one of the value words, case aside?
  abbrev pub is_credential : Text → ℕ → Bool
  is_credential raw j = any (λ word. in_credential word (lower_ascii raw) j) rules.value_words

  count-leading : (test : ℕ → Bool) (t : Text) → count_while test t ≡ length (leading test t)
  unfolding count_while
  count-leading test [] = refl
  count-leading test (c ∷ cs) = ground (arith, count-leading test cs)

  starts-take : (t word : Text) → starts_with t word ≡ same_text (take (length word) t) word
  unfolding starts_with
  starts-take t [] = refl
  starts-take [] (w ∷ ws) = refl
  starts-take (c ∷ cs) (w ∷ ws) = rw (starts-take cs ws) refl

  body_start-gap :
      (folded : Text) (index : ℕ)
      → body_start rules folded index ≡ index + length (gap (drop index folded))
  unfolding body_start
  body_start-gap folded index = ground (arith, count-leading rules.is_space (drop index folded))

  body_bounds-body :
      (folded : Text) (index : ℕ)
      → let behind = drop index folded in
        body_bounds rules folded index
        ≡ (length (body behind), (index + length (gap behind)) + length (body behind))
  unfolding body_bounds
  body_bounds-body folded index =
      let spaces = length (gap (drop index folded)) in
      rw
        (
          body_start-gap folded index,
          count-leading is_body (drop (index + spaces) folded),
          ← drop-drop spaces index folded,
        )
        refl

  hit-covers :
      (hit : Bool) (i j size end : ℕ) (more : List Span)
      → end ≡ i + size
      → covers (if hit then record { start = i; end = end } ∷ more else more) (i + j)
        ≡ (ltb j (if hit then size else 0) || covers more (i + j))
  hit-covers true i j size end more h = ground (arith, h)
  hit-covers false i j size end more h = ground (arith, h)

  word_spans-cons :
      (folded word : Text) (i : ℕ) (c : ℕ) (cs : Text)
      → let more = word_spans rules folded word (suc i) cs in
        let bounds = body_bounds rules folded (i + length word) in
        word_spans rules folded word i (c ∷ cs) ≡ (
          if starts_with (c ∷ cs) word && leb rules.minimum_body_length bounds.0
          then record { start = i; end = bounds.1 } ∷ more
          else more)
  unfolding word_spans
  word_spans-cons folded word i c cs = refl

  -- Nothing before the position from which the spans are looked for.
  word_spans-before :
      (folded word : Text) (i k : ℕ) (rest : Text)
      → k < i
      → covers (word_spans rules folded word i rest) k ≡ false
  unfolding word_spans
  word_spans-before folded word i k [] h = refl
  word_spans-before folded word i k (c ∷ cs) h =
      ground (arith, word_spans-before folded word (suc i) k cs (omega arith))

  drop-tail : (i : ℕ) (c : ℕ) (cs xs : Text) → c ∷ cs ≡ drop i xs → cs ≡ drop (suc i) xs
  drop-tail i c cs xs h =
      let same : i + 1 ≡ suc i = omega arith in
      ap (drop 1) h ∙ drop-drop 1 i xs ∙ ap (λ k. drop k xs) same

  -- The first position of the spans is in one exactly if it opens a credential.
  word_spans-head :
      (folded word : Text) (i j : ℕ) (c : ℕ) (cs : Text)
      → c ∷ cs ≡ drop i folded
      → covers (word_spans rules folded word i (c ∷ cs)) (i + j) ≡ (
          ltb j (credential_length word (c ∷ cs))
          || covers (word_spans rules folded word (suc i) cs) (i + j))
  word_spans-head folded word i j c cs h =
      let after = drop (length word) (c ∷ cs) in
      let behind : drop (i + length word) folded ≡ after =
        sym (drop-drop (length word) i folded) ∙ ap (drop (length word)) (sym h) in
      rw
        (
          word_spans-cons folded word i c cs,
          starts-take (c ∷ cs) word,
          body_bounds-body folded (i + length word),
          behind,
        )
        (hit-covers _ i j (length word + (length (gap after) + length (body after)))
          ((i + length word + length (gap after)) + length (body after))
          (word_spans rules folded word (suc i) cs) (omega arith))

  -- The spans of a word cover the characters of the credentials that it opens.
  word_spans-in_credential :
      (folded word : Text) (i j : ℕ) (rest : Text)
      → rest ≡ drop i folded
      → covers (word_spans rules folded word i rest) (i + j) ≡ in_credential word rest j
  word_spans-in_credential folded word i j [] h = unfold word_spans in refl
  word_spans-in_credential folded word i zero (c ∷ cs) h =
      let before = word_spans-before folded word (suc i) (i + 0) cs (omega arith) in
      word_spans-head folded word i 0 c cs h ∙ ground (arith, before)
  word_spans-in_credential folded word i (suc j) (c ∷ cs) h =
      let same : i + suc j ≡ suc i + j = omega arith in
      word_spans-head folded word i (suc j) c cs h
      ∙ ap (λ b. ltb (suc j) (credential_length word (c ∷ cs)) || b)
          (ap (covers (word_spans rules folded word (suc i) cs)) same
            ∙ word_spans-in_credential folded word (suc i) j cs (drop-tail i c cs folded h))

  any-append : (p : Span → Bool) (xs ys : List Span) → any p (xs ++ ys) ≡ (any p xs || any p ys)
  any-append p [] ys = refl
  any-append p (x ∷ xs) ys = ground (arith, any-append p xs ys)

  -- The spans that are found cover exactly the credential characters.
  pub found_spans-is_credential :
      (folded : Text) (words : List Text) (j : ℕ)
      → covers (found_spans rules folded words) j ≡ any (λ word. in_credential word folded j) words
  unfolding found_spans
  found_spans-is_credential folded [] j = refl
  found_spans-is_credential folded (word ∷ words) j =
      let start : 0 + j ≡ j = omega arith in
      let first : covers (word_spans rules folded word 0 folded) j ≡ in_credential word folded j =
        ap (covers (word_spans rules folded word 0 folded)) (sym start)
        ∙ word_spans-in_credential folded word 0 j folded refl in
      any-append _ (word_spans rules folded word 0 folded) (found_spans rules folded words)
      ∙ rw (first, found_spans-is_credential folded words j) refl
