-- ===== src/Redaction/Runs.antt =====
-- What the covered text is: every maximal run of suspect characters becomes one marker, and every
-- other character stays.
use native.Mathlib.Numerals.{unary_clauses}
use tracer_agent_python.Prelude.{
  ℕ, zero, suc, ◌+◌, ◌-◌, ◌≤◌, ◌<◌, ◌≡◌, refl, sym, ap, ◌∙◌, Bool, true, false, List, [], ◌∷◌, ◌++◌,
  length, take, drop, arith, if◌then◌else◌,
}
use tracer_agent_python.Redaction.Rules.{Text}
use tracer_agent_python.Redaction.Scan.{Span}
use tracer_agent_python.Redaction.Spans.{covers, IsApart}
use tracer_agent_python.Redaction.Cover.{slice, pieces, covered_with}

module _ (marker : Text) where
  -- The text from position `i` on, where `marked` says which positions are suspect and `within`
  -- whether the position before is.
  unfoldable pub replace_runs : (ℕ → Bool) → ℕ → Bool → Text → Text
  replace_runs marked i within [] = []
  replace_runs marked i within (c ∷ cs) =
      let outside = c ∷ replace_runs marked (suc i) false cs in
      let run = replace_runs marked (suc i) true cs in
      if marked i then (if within then run else marker ++ run) else outside

  same_marks :
      (m m' : ℕ → Bool) (i : ℕ) (within : Bool) (xs : Text)
      → ((j : ℕ) → i ≤ j → m j ≡ m' j)
      → replace_runs m i within xs ≡ replace_runs m' i within xs
  unfolding replace_runs
  same_marks m m' i within [] e = refl
  same_marks m m' i within (c ∷ cs) e =
      let out = same_marks m m' (suc i) false cs (λ j h. e j (omega arith)) in
      let run = same_marks m m' (suc i) true cs (λ j h. e j (omega arith)) in
      rw (e i (omega arith), out, run) refl

  -- A stretch of `n` characters that are not suspect.
  gap :
      (m : ℕ → Bool) (n i : ℕ) (within : Bool) (xs : Text)
      → ((j : ℕ) → i ≤ j → j < i + n → m j ≡ false)
      → (n ≡ 0 → within ≡ false)
      → replace_runs m i within xs ≡ take n xs ++ replace_runs m (i + n) false (drop n xs)
  unfolding replace_runs
  gap m zero i within xs out w = rw (w refl) (simp unary_clauses refl)
  gap m (suc n) i within [] out w = refl
  gap m (suc n) i within (c ∷ cs) out w = rw (out i (omega arith) (omega arith)) (
      let shift : suc i + n ≡ i + suc n = omega arith in
      ap (λ t. c ∷ t)
        (rw (← shift)
          (gap m n (suc i) false cs (λ j h k. out j (omega arith) (omega arith)) (λ _. refl))))

  -- A stretch of `n` suspect characters inside a run.
  run_on :
      (m : ℕ → Bool) (n i : ℕ) (xs : Text)
      → ((j : ℕ) → i ≤ j → j < i + n → m j ≡ true)
      → replace_runs m i true xs ≡ replace_runs m (i + n) true (drop n xs)
  unfolding replace_runs
  run_on m zero i xs run = simp unary_clauses refl
  run_on m (suc n) i [] run = refl
  run_on m (suc n) i (c ∷ cs) run = rw (run i (omega arith) (omega arith)) (
      let shift : suc i + n ≡ i + suc n = omega arith in
      rw (← shift) (run_on m n (suc i) cs (λ j h k. run j (omega arith) (omega arith))))

  -- A whole run behind a character that is not suspect.
  whole_run :
      (m : ℕ → Bool) (n i : ℕ) (xs : Text)
      → ((j : ℕ) → i ≤ j → j < i + suc n → m j ≡ true)
      → 0 < length xs
      → replace_runs m i false xs ≡ marker ++ replace_runs m (i + suc n) true (drop (suc n) xs)
  unfolding replace_runs
  whole_run m n i [] run h = absurd (omega arith)
  whole_run m n i (c ∷ cs) run h = rw (run i (omega arith) (omega arith)) (
      let shift : suc i + n ≡ i + suc n = omega arith in
      ap (λ t. marker ++ t)
        (rw (← shift) (run_on m n (suc i) cs (λ j h k. run j (omega arith) (omega arith)))))

  none_left :
      (m : ℕ → Bool) (i : ℕ) (within : Bool) (xs : Text)
      → ((j : ℕ) → i ≤ j → m j ≡ false)
      → replace_runs m i within xs ≡ xs
  unfolding replace_runs
  none_left m i within [] out = refl
  none_left m i within (c ∷ cs) out =
      rw (out i (omega arith))
        (ap (λ t. c ∷ t) (none_left m (suc i) false cs (λ j h. out j (omega arith))))

drop-nil : (n : ℕ) → drop {A = ℕ} n [] ≡ []
drop-nil zero = refl
drop-nil (suc n) = refl

pub drop-drop : (a b : ℕ) (xs : Text) → drop a (drop b xs) ≡ drop (b + a) xs
drop-drop a zero xs = let same : 0 + a ≡ a = omega arith in rw same refl
drop-drop a (suc b) [] = drop-nil a ∙ sym (drop-nil (suc b + a))
drop-drop a (suc b) (x ∷ xs) =
    let same : suc b + a ≡ suc (b + a) = omega arith in rw same (drop-drop a b xs)

length-drop_pos : (n : ℕ) (xs : Text) → n < length xs → 0 < length (drop n xs)
length-drop_pos zero xs h = h
length-drop_pos (suc n) [] h = absurd (omega arith)
length-drop_pos (suc n) (x ∷ xs) h = length-drop_pos n xs (omega arith)

covers-below :
    (size low j : ℕ) (spans : List Span) → IsApart size low spans → j < low → covers spans j ≡ false
covers-below size low j [] h k = refl
covers-below size low j (a ∷ others) h k =
    rw (covers-below size (suc a.end) j others h.2 (omega (arith, h.0, h.1.not_empty)))
      (ground arith)

not_within :
    (within : Bool) (cursor start : ℕ)
    → (within ≡ true → cursor < start)
    → start - cursor ≡ 0
    → within ≡ false
not_within true cursor start w z = absurd (omega (arith, w refl))
not_within false cursor start w z = refl

module _ (marker text : Text) (a : Span) (others : List Span) where
  marked-before :
      (j : ℕ)
      → IsApart (length text) (suc a.end) others
      → a.start < a.end
      → j < a.start
      → covers (a ∷ others) j ≡ false
  marked-before j apart order k =
      rw (covers-below (length text) (suc a.end) j others apart (omega arith)) (ground arith)

  -- The text between the cursor and the span.
  lead :
      (cursor : ℕ) (within : Bool)
      → IsApart (length text) (suc a.end) others
      → a.start < a.end
      → cursor ≤ a.start
      → (within ≡ true → cursor < a.start)
      → replace_runs marker (covers (a ∷ others)) cursor within (drop cursor text)
        ≡ slice text cursor a.start
          ++ replace_runs marker (covers (a ∷ others)) a.start false (drop a.start text)
  lead cursor within apart order le w =
      let to_start : cursor + (a.start - cursor) ≡ a.start = omega arith in
      gap marker (covers (a ∷ others)) (a.start - cursor) cursor within (drop cursor text)
        (λ j k l. marked-before j apart order (omega arith)) (not_within within cursor a.start w)
      ∙ rw (drop-drop, to_start) refl

  -- The span itself.
  span_itself :
      a.start < a.end
      → a.start < length text
      → replace_runs marker (covers (a ∷ others)) a.start false (drop a.start text)
        ≡ marker ++ replace_runs marker (covers others) a.end true (drop a.end text)
  span_itself order fits =
      let to_end : a.start + suc (a.end - a.start - 1) ≡ a.end = omega arith in
      whole_run marker (covers (a ∷ others)) (a.end - a.start - 1) a.start (drop a.start text)
        (λ j k l. ground arith) (length-drop_pos a.start text fits)
      ∙ rw (drop-drop, to_end)
          (ap (λ t. marker ++ t)
            (same_marks marker (covers (a ∷ others)) (covers others) a.end true (drop a.end text)
              (λ j k. ground arith)))

module _ (marker text : Text) where
  pieces_runs :
      (low cursor : ℕ) (within : Bool) (spans : List Span)
      → IsApart (length text) low spans
      → cursor ≤ low
      → (within ≡ true → cursor < low)
      → pieces marker text cursor spans
        ≡ replace_runs marker (covers spans) cursor within (drop cursor text)
  unfolding pieces
  pieces_runs low cursor within [] h le w = sym (none_left marker _ cursor within _ (λ j k. refl))
  pieces_runs low cursor within (a ∷ others) h le w = sym (
      lead marker text a others cursor within h.2 h.1.not_empty (omega (arith, h.0))
        (λ e. omega (arith, h.0, w e))
      ∙ ap (λ t. slice text cursor a.start ++ t)
          (span_itself marker text a others h.1.not_empty h.1.starts_inside
            ∙ ap (λ t. marker ++ t)
                (sym (
                  pieces_runs (suc a.end) a.end true others h.2 (omega arith) (λ e. omega arith)))))

  pub covered_with_runs :
      (spans : List Span)
      → IsApart (length text) 0 spans
      → covered_with marker text spans ≡ replace_runs marker (covers spans) 0 false text
  unfolding covered_with
  covered_with_runs [] h = sym (none_left marker _ 0 false text (λ j k. refl))
  covered_with_runs (a ∷ others) h = pieces_runs 0 0 false (a ∷ others) h (omega arith) (λ e. cc)

  pub same_runs :
      (m m' : ℕ → Bool)
      → ((j : ℕ) → m j ≡ m' j)
      → replace_runs marker m 0 false text ≡ replace_runs marker m' 0 false text
  same_runs m m' e = same_marks marker m m' 0 false text (λ j h. e j)
