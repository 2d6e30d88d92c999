-- ===== src/Redaction/Suspects.antt =====
-- The suspect spans of src/tracer_agent/shared/agents/shared/redaction.py, and what covering them does to texts and values.
use tracer_agent_python.Prelude.{
  ℕ, suc, ◌+◌, ◌≤◌, ◌≡◌, refl, sym, ap, ◌∙◌, inl, inr, Bool, true, false, ◌&&◌, not, List, [], ◌∷◌,
  none, some, length, length-map, any, arith, if◌then◌else◌, Bool-cases, leb, All, All-append,
}
use tracer_agent_python.Redaction.Rules.{Text, Rules, Stage, lower_ascii, lower_character}
use tracer_agent_python.Redaction.Scan.{
  starts_with, body_start, body_bounds, word_spans, carries_body, is_suspect_text, found_spans,
  sort_spans, merge_spans, suspect_spans,
}
use tracer_agent_python.Redaction.Spans.{
  covers, IsProper, covers-sort_spans, covers-merge_spans, IsOrdered-sort_spans, All-sort_spans,
  IsApart-merge_spans,
}
use tracer_agent_python.Redaction.Cover.{
  covered_text, Value, scalar, text, array, object, opaque, Values, nil, cons, Entries, end, entry,
  covered, covered_values, covered_entries, assert_clean, clean_values, clean_entries,
  is_suspect_key, discards, redact,
}
use tracer_agent_python.Redaction.Credentials.{is_credential, found_spans-is_credential}
use tracer_agent_python.Redaction.Runs.{replace_runs, covered_with_runs, same_runs}

module _ (rules : Rules) where
  end-ge : (folded : Text) (index : ℕ) → index ≤ (body_bounds rules folded index).1
  unfolding body_bounds body_start
  end-ge folded index = ground arith

  word_spans-IsProper :
      (folded word : Text) (i : ℕ) (rest : Text)
      → 1 ≤ length word
      → All (IsProper (i + length rest)) (word_spans rules folded word i rest)
  unfolding word_spans
  word_spans-IsProper folded word i [] one = tt
  word_spans-IsProper folded word i (c ∷ cs) one =
      let shift : suc i + length cs ≡ i + suc (length cs) = omega arith in
      let more : All (IsProper (i + suc (length cs))) (word_spans rules folded word (suc i) cs) =
        rw (← shift) (word_spans-IsProper folded word (suc i) cs one) in
      elim (Bool-cases (
        starts_with (c ∷ cs) word
        && leb rules.minimum_body_length (body_bounds rules folded (i + length word)).0)) [
          | inl hit ↦ rw hit (omega (arith, end-ge folded (i + length word)), more)
          | inr miss ↦ rw miss more
        ]

  found_spans-IsProper :
      (folded : Text) (words : List Text)
      → All (λ w. 1 ≤ length w) words
      → All (IsProper (length folded)) (found_spans rules folded words)
  unfolding found_spans
  found_spans-IsProper folded [] ones = tt
  found_spans-IsProper folded (word ∷ words) ones =
      let same : 0 + length folded ≡ length folded = omega arith in
      All-append (IsProper (length folded)) (word_spans rules folded word 0 folded) _
        (rw same at (word_spans-IsProper folded word 0 folded ones.0))
        (found_spans-IsProper folded words ones.1)

  -- If no value word of the contract is empty, the covered text is the text with every maximal run
  -- of credential characters replaced by one marker, and every other character kept in its place. A
  -- character is in a credential if it belongs to an occurrence of a value word, case aside, to the
  -- spaces behind it that the contract skips, or to the longest run of body characters behind them,
  -- if that run is as long as the contract asks.
  pub covered_text_runs :
      (raw : Text)
      → All (λ w. 1 ≤ length w) rules.value_words
      → covered_text rules raw ≡ replace_runs rules.marker (is_credential rules raw) 0 false raw
  unfolding covered_text suspect_spans
  covered_text_runs raw ones =
      let folded = lower_ascii raw in
      let found = found_spans rules folded rules.value_words in
      let same_length : length folded ≡ length raw =
        unfold lower_ascii in length-map raw lower_character in
      covered_with_runs rules.marker raw (merge_spans (sort_spans found)) (
        rw same_length at (
          IsApart-merge_spans (length folded) (sort_spans found) (
            All-sort_spans (IsProper (length folded)) found
              (found_spans-IsProper folded rules.value_words ones))))
      ∙ same_runs rules.marker raw (covers (merge_spans (sort_spans found)))
          (is_credential rules raw)
          (λ j.
            covers-merge_spans j (sort_spans found) (IsOrdered-sort_spans found)
            ∙ covers-sort_spans j found
            ∙ found_spans-is_credential rules folded rules.value_words j)

  nothing_found :
      (folded word : Text) (i : ℕ) (rest : Text)
      → carries_body rules folded word i rest ≡ false
      → word_spans rules folded word i rest ≡ []
  unfolding carries_body word_spans
  nothing_found folded word i [] h = refl
  nothing_found folded word i (c ∷ cs) h = ground (arith, nothing_found folded word (suc i) cs)

  none_found :
      (folded : Text) (words : List Text)
      → any (λ word. carries_body rules folded word 0 folded) words ≡ false
      → found_spans rules folded words ≡ []
  unfolding found_spans
  none_found folded [] h = refl
  none_found folded (word ∷ words) h =
      rw (nothing_found folded word 0 folded (ground arith), none_found folded words (ground arith))
        refl

  -- A text in which nothing is suspect is left whole.
  pub covered_text_clean :
      (raw : Text) → is_suspect_text rules raw ≡ false → covered_text rules raw ≡ raw
  unfolding is_suspect_text covered_text suspect_spans
  covered_text_clean raw clean = rw (none_found (lower_ascii raw) rules.value_words clean) refl

both : {a b : Bool} → a && b ≡ true → (a ≡ true) × (b ≡ true)
both {a = true} h = (refl, h)
both {a = false} h = absurd (ground arith)

not-true : {a : Bool} → not a ≡ true → a ≡ false
not-true {a = true} h = sym h
not-true {a = false} h = refl

allowed :
    (inspects others suspect : Bool)
    → (inspects ≡ true → others ≡ true)
    → others && suspect ≡ false
    → inspects && suspect ≡ false
allowed true others suspect within h = rw (within refl) at h
allowed false others suspect within h = refl

-- The stage inspects no more than the other.
pub record IsWithin (rules : Rules) (stage other : Stage) : Type 0 where
  pub values_within :
      (rules.stage_rule stage).inspects_values ≡ true
      → (rules.stage_rule other).inspects_values ≡ true
  pub keys_within :
      (rules.stage_rule stage).inspects_keys ≡ true → (rules.stage_rule other).inspects_keys ≡ true

module _ (rules : Rules) (discarding covering : Stage)
    (within : IsWithin rules covering discarding) where
  kept_text :
      (inspects : Bool) (t : Text)
      → (inspects && is_suspect_text rules t) ≡ false
      → (if inspects then text (covered_text rules t) else text t) ≡ text t
  kept_text true t h = ap text (covered_text_clean rules t h)
  kept_text false t h = refl

  mutual
    unfolding covered assert_clean

    kept : (v : Value) → assert_clean rules discarding v ≡ true → covered rules covering v ≡ v
    kept (scalar n) h = refl
    kept (text t) h =
        kept_text (rules.stage_rule covering).inspects_values t
          (allowed _ _ _ within.values_within (not-true h))
    kept (array vs) h = ap array (kept_values vs h)
    kept (object es) h = ap object (kept_entries es h)
    kept (opaque n) h = cc

    kept_values :
        (vs : Values)
        → clean_values rules discarding vs ≡ true
        → covered_values rules covering vs ≡ vs
    kept_values nil h = refl
    kept_values (cons v vs) h =
        let parts : (assert_clean rules discarding v ≡ true)
            × (clean_values rules discarding vs ≡ true) =
          both h in
        rw (kept v parts.0, kept_values vs parts.1) refl

    kept_entries :
        (es : Entries)
        → clean_entries rules discarding es ≡ true
        → covered_entries rules covering es ≡ es
    kept_entries end h = refl
    kept_entries (entry key v es) h =
        let parts : (not ((rules.stage_rule discarding).inspects_keys && is_suspect_key rules key)
              ≡ true)
            × (assert_clean rules discarding v && clean_entries rules discarding es ≡ true) =
          both h in
        let deeper : (assert_clean rules discarding v ≡ true)
            × (clean_entries rules discarding es ≡ true) =
          both parts.1 in
        let clean_key : (rules.stage_rule covering).inspects_keys && is_suspect_key rules key
            ≡ false =
          allowed _ _ _ within.keys_within (not-true parts.0) in
        rw (clean_key, kept v deeper.0, kept_entries es deeper.1) refl

  passed :
      (v v' : Value)
      → (if assert_clean rules discarding v then some v else none) ≡ some v'
      → (assert_clean rules discarding v ≡ true) × (v' ≡ v)
  passed v v' h = elim (Bool-cases (assert_clean rules discarding v)) [
    | inl clean ↦ let h' : some v ≡ some v' = rw clean at h in (clean, cc)
    | inr stopped ↦ let h' : none ≡ some v' = rw stopped at h in absurd cc
  ]

  -- What a discarding stage lets pass is the value it was given, and a covering stage that inspects
  -- no more than that stage leaves this value whole.
  pub clean_kept :
      (v v' : Value)
      → discards rules discarding ≡ true
      → discards rules covering ≡ false
      → redact rules discarding v ≡ some v'
      → (v' ≡ v) × (redact rules covering v ≡ some v)
  unfolding redact
  clean_kept v v' d c h =
      let (clean, same) = passed v v' (rw d at h) in (same, rw c (ap some (kept v clean)))
