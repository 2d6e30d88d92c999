-- ===== src/Validation/Titles.antt =====
-- What src/tracer_agent/worker/agents/title_suggestion/policy.py keeps of the suggested titles.
use tracer_agent_python.Prelude.{
  same_text, ◌≡◌, ◌≤◌, refl, ◌⊎◌, inl, inr, false, ltb, ltb→ge, List, [], ◌∷◌, length, Option, none,
  some, All, All-map, arith, Bool-cases,
}
use tracer_agent_python.Redaction.Rules.{Text}
use tracer_agent_python.Validation.Title.{
  Unicode, TitleSuggestion, min_title_suggestions, normalize_title, is_placeholder, was_seen,
  is_unusable, usable_from, usable, normalize_title_candidate,
}

module _ (unicode : Unicode) where
  -- The title is not the current one and no placeholder.
  abbrev pub IsNewTitle : Text → TitleSuggestion → Type 0
  IsNewTitle current s =
      (same_text (normalize_title unicode s.title) current ≡ false)
      × (is_placeholder unicode (normalize_title unicode s.title) ≡ false)

  abbrev pub DiffersFrom : TitleSuggestion → TitleSuggestion → Type 0
  DiffersFrom s t =
      same_text (normalize_title unicode t.title) (normalize_title unicode s.title) ≡ false

  -- No title says the same as an earlier one.
  abbrev pub HasDistinctTitles : List TitleSuggestion → Type 0
  HasDistinctTitles [] = Unit
  HasDistinctTitles (s ∷ suggestions) =
      All (DiffersFrom s) suggestions × HasDistinctTitles suggestions

  usable-parts :
      (current : Text) (seen : List Text) (normalized : Text)
      → is_unusable unicode current seen normalized ≡ false
      → (same_text normalized current ≡ false)
        × ((was_seen unicode seen normalized ≡ false) × (is_placeholder unicode normalized ≡ false))
  unfolding is_unusable
  usable-parts current seen normalized h = ground arith

  seen-parts :
      (a : Text) (seen : List Text) (t : Text)
      → was_seen unicode (a ∷ seen) t ≡ false
      → (same_text t a ≡ false) × (was_seen unicode seen t ≡ false)
  seen-parts a seen t h = ground arith

  abbrev NotSeen : List Text → TitleSuggestion → Type 0
  NotSeen seen s = was_seen unicode seen (normalize_title unicode s.title) ≡ false

  usable_from-NotSeen :
      (current : Text) (seen : List Text) (suggestions : List TitleSuggestion)
      → All (NotSeen seen) (usable_from unicode current seen suggestions)
  unfolding usable_from
  usable_from-NotSeen current seen [] = tt
  usable_from-NotSeen current seen (s ∷ suggestions) =
      elim (Bool-cases (is_unusable unicode current seen (normalize_title unicode s.title))) [
        | inl h ↦ rw h (usable_from-NotSeen current seen suggestions)
        | inr h ↦ rw h (
          (usable-parts current seen (normalize_title unicode s.title) h).1.0,
          All-map
              (λ t k.
                (seen-parts (normalize_title unicode s.title) seen (normalize_title unicode t.title)
                  k).1)
              _ (usable_from-NotSeen current (normalize_title unicode s.title ∷ seen) suggestions),
        )
      ]

  usable_from-HasDistinctTitles :
      (current : Text) (seen : List Text) (suggestions : List TitleSuggestion)
      → HasDistinctTitles (usable_from unicode current seen suggestions)
  unfolding usable_from
  usable_from-HasDistinctTitles current seen [] = tt
  usable_from-HasDistinctTitles current seen (s ∷ suggestions) =
      elim (Bool-cases (is_unusable unicode current seen (normalize_title unicode s.title))) [
        | inl h ↦ rw h (usable_from-HasDistinctTitles current seen suggestions)
        | inr h ↦ rw h (
          All-map
              (λ t k.
                (seen-parts (normalize_title unicode s.title) seen (normalize_title unicode t.title)
                  k).0)
              _ (usable_from-NotSeen current (normalize_title unicode s.title ∷ seen) suggestions),
          usable_from-HasDistinctTitles current (normalize_title unicode s.title ∷ seen)
              suggestions,
        )
      ]

  usable_from-IsNewTitle :
      (current : Text) (seen : List Text) (suggestions : List TitleSuggestion)
      → All (IsNewTitle current) (usable_from unicode current seen suggestions)
  unfolding usable_from
  usable_from-IsNewTitle current seen [] = tt
  usable_from-IsNewTitle current seen (s ∷ suggestions) =
      elim (Bool-cases (is_unusable unicode current seen (normalize_title unicode s.title))) [
        | inl h ↦ rw h (usable_from-IsNewTitle current seen suggestions)
        | inr h ↦
            let parts = usable-parts current seen (normalize_title unicode s.title) h in
            rw h (
              (parts.0, parts.1.1),
              usable_from-IsNewTitle current (normalize_title unicode s.title ∷ seen) suggestions,
            )
      ]

  -- The kept titles of a candidate, none for no candidate.
  abbrev pub kept_of : Option (List TitleSuggestion) → List TitleSuggestion
  kept_of none = []
  kept_of (some kept) = kept

  -- The titles that the validation keeps differ from the current title and from one another and are no
  -- placeholders; without an error there are at least two of them, or the model suggested none.
  pub normalize_candidate_sound :
      (candidate : Option (List TitleSuggestion)) (current_title : Text)
      → All
          (IsNewTitle (normalize_title unicode current_title))
          (kept_of (normalize_title_candidate unicode candidate current_title).0)
        × (HasDistinctTitles (kept_of (normalize_title_candidate unicode candidate current_title).0)
            × ((normalize_title_candidate unicode candidate current_title).1 ≡ []
                → (candidate ≡ some [])
                  ⊎ (min_title_suggestions
                      ≤ length
                          (kept_of (normalize_title_candidate unicode candidate current_title).0))))
  unfolding normalize_title_candidate usable
  normalize_candidate_sound none current_title = (tt, (tt, λ h. absurd cc))
  normalize_candidate_sound (some []) current_title = (tt, (tt, λ h. inl refl))
  normalize_candidate_sound (some (s ∷ suggestions)) current_title =
      let current = normalize_title unicode current_title in
      let kept = usable_from unicode current [] (s ∷ suggestions) in
      let news = usable_from-IsNewTitle current [] (s ∷ suggestions) in
      let distinct = usable_from-HasDistinctTitles current [] (s ∷ suggestions) in
      elim (Bool-cases (ltb (length kept) min_title_suggestions)) [
        | inl short ↦ rw short (news, (distinct, λ h. absurd cc))
        | inr enough ↦
            rw enough
              (news, (distinct, λ h. inr (ltb→ge (length kept) min_title_suggestions enough)))
      ]
