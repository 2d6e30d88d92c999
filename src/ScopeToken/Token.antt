-- ===== src/ScopeToken/Token.antt =====
-- `issue` and `verify` of src/tracer_agent/shared/agents/shared/scope_token.py. A text is the list of its code points.
-- What the standard library does to bytes is a parameter: the signature in base64url, and the
-- encoding of the claims as JSON in base64url with its reading, which fails on what is no object.
use tracer_agent_python.Prelude.{
  ltb, ◌&&◌, same_text, ℕ, ◌+◌, Bool, true, false, not, ◌||◌, leb, List, [], ◌∷◌, ◌++◌, Option,
  none, some, if◌then◌else◌,
}
use tracer_agent_python.Redaction.Rules.{Text}
use tracer_agent_python.ScopeToken.Split.{split_parts}

-- The fields that `verify` reads, each there if it has its type.
pub record Claims : Type 0 where
  pub user_id : Option Text
  pub execution_id : Option Text
  pub expires_at : Option ℕ

pub record Codec : Type 0 where
  -- The contract's prefix, and the secret of the environment, trimmed, unless it is empty.
  pub prefix : Text
  pub secret : Option Text
  -- `_sign` of a payload and a secret
  pub sign : Text → Text → Text
  -- User, execution, the time of issue and that of expiry.
  pub encode : Text → Text → ℕ → ℕ → Text
  pub decode : Text → Option Claims

abbrev pub is_empty : Text → Bool
is_empty [] = true
is_empty (c ∷ cs) = false

-- `hmac.compare_digest` raises on a text that is not ASCII.
unfoldable pub is_ascii : Text → Bool
is_ascii [] = true
is_ascii (c ∷ cs) = ltb c 128 && is_ascii cs

pub data Verdict : Type 0 where
  raised_type_error : Verdict
  returned : Option (Text × Text) → Verdict

module _ (codec : Codec) where
  -- The three parts of a token.
  abbrev pub token_of : Text → Text → Text
  token_of payload secret = codec.prefix ++ (b'.' ∷ (payload ++ (b'.' ∷ codec.sign payload secret)))

  unfoldable pub issue : Text → Text → ℕ → ℕ → Option Text
  issue user_id execution_id ttl_ms now_ms = elim codec.secret [
    | none ↦ none
    | some secret ↦
        some (token_of (codec.encode user_id execution_id now_ms (now_ms + ttl_ms)) secret)
  ]

  unfoldable pub identity : Claims → Option (Text × Text)
  identity claims = elim claims.user_id [
    | none ↦ none
    | some user ↦ elim claims.execution_id [ none ↦ none | some execution ↦ some (user, execution) ]
  ]

  -- The claims of a payload whose signature was compared.
  unfoldable pub read_claims : Text → ℕ → Option (Text × Text)
  unfolding identity
  read_claims payload now_ms = elim (codec.decode payload) [
    | none ↦ none
    | some claims ↦ elim claims.expires_at [
      | none ↦ none
      | some expires_at ↦ if leb expires_at now_ms then none else identity claims
    ]
  ]

  unfoldable pub verify_parts : Text → List Text → ℕ → Verdict
  unfolding read_claims is_ascii
  verify_parts secret (head ∷ payload ∷ signature ∷ []) now_ms =
      if not (same_text head codec.prefix) || (is_empty payload || is_empty signature)
      then returned none
      else if not (is_ascii signature)
      then raised_type_error
      else if not (same_text signature (codec.sign payload secret))
      then returned none
      else returned (read_claims payload now_ms)
  verify_parts secret _ now_ms = returned none

  unfoldable pub verify : Text → ℕ → Verdict
  unfolding verify_parts split_parts
  verify token now_ms = elim codec.secret [
    | none ↦ returned none
    | some secret ↦ verify_parts secret (split_parts token) now_ms
  ]
