-- ===== src/ScopeToken/Tests.antt =====
-- Concrete runs of the model of src/tracer_agent/shared/agents/shared/scope_token.py.
use tracer_agent_python.Prelude.{
  same_text, ◌≡◌, refl, leb, [], ◌∷◌, ◌++◌, none, some, if◌then◌else◌,
}
use tracer_agent_python.Redaction.Rules.{Text}
use tracer_agent_python.ScopeToken.Token.{
  is_ascii, returned, raised_type_error, Codec, issue, verify,
}
use tracer_agent_python.ScopeToken.RoundTrip.{IsCodec, verify-issue, IsSigned, verify_sound}

-- The claims of user "u" and execution "e" from 100 to 150 are "p", and a signature repeats the payload.
abbrev small_codec : Codec
small_codec = record {
  prefix = b'a' ∷ b'x' ∷ [];
  secret = some (b's' ∷ []);
  sign = λ payload secret. secret ++ payload;
  encode = λ user execution now expiry. b'p' ∷ [];
  decode = λ payload.
      if same_text payload (b'p' ∷ [])
      then some (record {
        user_id = some (b'u' ∷ []);
        execution_id = some (b'e' ∷ []);
        expires_at = some 150;
      })
      else none;
}

small_codec-IsCodec : IsCodec small_codec (b'u' ∷ []) (b'e' ∷ []) (b's' ∷ []) 100 150
unfolding is_ascii
small_codec-IsCodec = record {
  plain_prefix = refl;
  plain_payload = refl;
  some_payload = refl;
  plain_signature = refl;
  some_signature = refl;
  ascii_signature = refl;
  reads_back = refl;
}

verify-issue_example :
    (token : Text) × (issue small_codec (b'u' ∷ []) (b'e' ∷ []) 50 100 ≡ some token)
    × (verify small_codec token 149
        ≡ returned (if leb 150 149 then none else some (b'u' ∷ [], b'e' ∷ [])))
verify-issue_example =
    verify-issue small_codec (b'u' ∷ []) (b'e' ∷ []) 50 100 149 (b's' ∷ []) small_codec-IsCodec refl

abbrev small_token : Text
small_token = b'a' ∷ b'x' ∷ b'.' ∷ b'p' ∷ b'.' ∷ b's' ∷ b'p' ∷ []

verify_sound_example : IsSigned small_codec small_token 149 (b'u' ∷ [], b'e' ∷ [])
unfolding verify
verify_sound_example = verify_sound small_codec small_token 149 (b'u' ∷ [], b'e' ∷ []) refl

forged_refused :
    verify small_codec (b'a' ∷ b'x' ∷ b'.' ∷ b'p' ∷ b'.' ∷ b's' ∷ b'q' ∷ []) 149 ≡ returned none
unfolding verify
forged_refused = refl

-- A signature with a letter that is not ASCII is not refused but raises.
not_ascii_raises :
    verify small_codec (b'a' ∷ b'x' ∷ b'.' ∷ b'p' ∷ b'.' ∷ 233 ∷ []) 149 ≡ raised_type_error
unfolding verify
not_ascii_raises = refl
