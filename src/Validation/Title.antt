-- ===== src/Validation/Title.antt =====
-- `normalize_title_candidate` of src/tracer_agent/worker/agents/title_suggestion/policy.py. A text is the list of its
-- code points; Unicode's NFKC form, lower case, spaces and digits come from Python's tables.
use tracer_agent_python.Prelude.{
  same_text, ℕ, Bool, true, false, ◌&&◌, ◌||◌, ◌==◌, ltb, List, [], ◌∷◌, ◌++◌, any, length, Option,
  none, some, if◌then◌else◌,
}
use tracer_agent_python.Redaction.Rules.{Text}

pub record Unicode : Type 0 where
  pub nfkc : Text → Text
  pub lower : Text → Text
  pub is_space : ℕ → Bool
  pub is_digit : ℕ → Bool

-- `TitleSuggestion`
pub record TitleSuggestion : Type 0 where
  pub title : Text
  pub rationale : Text

pub data TitleError : Type 0 where
  no_candidate : TitleError
  short_of_minimum : ℕ → TitleError

-- `MIN_TITLE_SUGGESTIONS`
abbrev pub min_title_suggestions : ℕ
min_title_suggestions = 2

abbrev joined : Text → List Text → List Text
joined [] words = words
joined (c ∷ word) words = (c ∷ word) ∷ words

-- `str.split()`, with the word so far
unfoldable pub split_words : (ℕ → Bool) → Text → Text → List Text
split_words is_space word [] = joined word []
split_words is_space word (c ∷ cs) =
    let ended = joined word (split_words is_space [] cs) in
    let longer = split_words is_space (word ++ (c ∷ [])) cs in if is_space c then ended else longer

-- `" ".join(words)`
unfoldable pub join_words : List Text → Text
join_words [] = []
join_words (word ∷ []) = word
join_words (word ∷ next ∷ words) = word ++ (b' ' ∷ join_words (next ∷ words))

-- The rest of a text behind a word, if it starts with that word.
unfoldable pub after_word : Text → Text → Option Text
after_word [] text = some text
after_word (w ∷ ws) [] = none
after_word (w ∷ ws) (c ∷ cs) = let rest = after_word ws cs in if w == c then rest else none

module _ (unicode : Unicode) where
  -- `_normalize_title`
  unfoldable pub normalize_title : Text → Text
  unfolding split_words join_words
  normalize_title value =
      unicode.lower (join_words (split_words unicode.is_space [] (unicode.nfkc value)))

  unfoldable pub is_separator : ℕ → Bool
  is_separator c = unicode.is_space c || (c == b'-' || (c == b'_' || (c == b':' || c == b'#')))

  unfoldable pub are_digits : Text → Bool
  are_digits [] = true
  are_digits (c ∷ cs) = unicode.is_digit c && are_digits cs

  -- `(?:\s|[-_:#])*\d+` on a whole text
  unfoldable pub is_numbered : Text → Bool
  unfolding is_separator are_digits
  is_numbered [] = false
  is_numbered (c ∷ cs) = are_digits (c ∷ cs) || (is_separator c && is_numbered cs)

  -- `_is_placeholder`
  unfoldable pub is_placeholder : Text → Bool
  unfolding after_word is_numbered
  is_placeholder normalized =
      same_text normalized (b'u' ∷ b'n' ∷ b't' ∷ b'i' ∷ b't' ∷ b'l' ∷ b'e' ∷ b'd' ∷ [])
      || (same_text normalized (b't' ∷ b'e' ∷ b's' ∷ b't' ∷ [])
          || elim (after_word (b't' ∷ b'a' ∷ b's' ∷ b'k' ∷ []) normalized) [
            | none ↦ false
            | some rest ↦ is_numbered rest
          ])

  -- `normalized in seen`
  abbrev pub was_seen : List Text → Text → Bool
  was_seen seen normalized = any (same_text normalized) seen

  -- Why `_usable` leaves a title out.
  unfoldable pub is_unusable : Text → List Text → Text → Bool
  unfolding is_placeholder
  is_unusable current seen normalized =
      same_text normalized current || (was_seen seen normalized || is_placeholder normalized)

  -- The loop of `_usable`
  unfoldable pub usable_from : Text → List Text → List TitleSuggestion → List TitleSuggestion
  unfolding is_unusable normalize_title
  usable_from current seen [] = []
  usable_from current seen (s ∷ suggestions) =
      let normalized = normalize_title s.title in
      let skipped = usable_from current seen suggestions in
      let kept = usable_from current (normalized ∷ seen) suggestions in
      if is_unusable current seen normalized then skipped else s ∷ kept

  unfoldable pub usable : List TitleSuggestion → Text → List TitleSuggestion
  unfolding usable_from
  usable suggestions current_title = usable_from (normalize_title current_title) [] suggestions

  unfoldable pub normalize_title_candidate :
      Option (List TitleSuggestion) → Text → Option (List TitleSuggestion) × List TitleError
  unfolding usable
  normalize_title_candidate none current_title = (none, no_candidate ∷ [])
  normalize_title_candidate (some []) current_title = (some [], [])
  normalize_title_candidate (some (s ∷ suggestions)) current_title =
      let kept = usable (s ∷ suggestions) current_title in
      if ltb (length kept) min_title_suggestions
      then (some kept, short_of_minimum (length kept) ∷ [])
      else (some kept, [])
