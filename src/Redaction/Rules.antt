-- ===== src/Redaction/Rules.antt =====
-- The rules that src/tracer_agent/shared/agents/shared/redaction.py reads from the contract file redaction.json, and
-- what it takes from Python's Unicode tables. A text is the list of its code points.
use tracer_agent_python.Prelude.{ℕ, ◌+◌, Bool, ◌&&◌, ◌||◌, List, map, leb, ◌==◌, if◌then◌else◌}

abbrev pub Text : Type 0
Text = List ℕ

pub data SuspectAction : Type 0 where
  discard cover : SuspectAction

-- `RedactionStage`
pub data Stage : Type 0 where
  trace query output : Stage

pub record StageRule : Type 0 where
  pub on_suspect : SuspectAction
  pub inspects_keys : Bool
  pub inspects_values : Bool

pub record Rules : Type 0 where
  pub marker : Text
  pub key_words : List Text
  pub value_words : List Text
  pub minimum_body_length : ℕ
  pub skips_space_between : Bool
  pub is_space : ℕ → Bool
  pub stage_rule : Stage → StageRule
  -- `str.casefold` and `str.isalnum`
  pub casefold : Text → Text
  pub is_alnum : ℕ → Bool

unfoldable pub lower_character : ℕ → ℕ
lower_character c = if leb b'A' c && leb c b'Z' then c + 32 else c

unfoldable pub lower_ascii : Text → Text
unfolding lower_character
lower_ascii text = map lower_character text

-- `_BODY_CHARACTERS`: ASCII letters and digits and three separators
unfoldable pub is_body : ℕ → Bool
is_body c =
    (leb b'a' c && leb c b'z')
    || ((leb b'A' c && leb c b'Z')
        || ((leb b'0' c && leb c b'9') || (c == b'-' || (c == b'_' || c == b'.'))))
