-- ===== src/ScopeToken/RoundTrip.antt =====
-- What src/tracer_agent/shared/agents/shared/scope_token.py verifies is what it issued.
use mathlib.Core.Path.{subst}
use tracer_agent_python.Prelude.{
  same_text, same_text_refl, same_text_eq, ℕ, ◌+◌, ◌<◌, ◌≡◌, refl, ap, ◌∙◌, inl, inr, Bool, true,
  false, not, ◌||◌, leb, leb→gt, List, [], ◌∷◌, ◌++◌, Option, none, some, if◌then◌else◌, if_false,
  Option-cases, arith,
}
use tracer_agent_python.Redaction.Rules.{Text}
use tracer_agent_python.ScopeToken.Split.{
  split_parts, join_parts, has_stop, split_parts-last, split_parts-first, join-split_parts,
}
use tracer_agent_python.ScopeToken.Token.{
  is_ascii, Verdict, raised_type_error, returned, Claims, Codec, is_empty, token_of, issue,
  identity, read_claims, verify_parts, verify,
}

-- The encodings of these claims and their signature are base64url, not empty and without a full stop, and
-- the claims are read as they were written.
pub record IsCodec (codec : Codec) (user execution secret : Text) (now expiry : ℕ) : Type 0 where
  pub plain_prefix : has_stop codec.prefix ≡ false
  pub plain_payload : has_stop (codec.encode user execution now expiry) ≡ false
  pub some_payload : is_empty (codec.encode user execution now expiry) ≡ false
  pub plain_signature :
      has_stop (codec.sign (codec.encode user execution now expiry) secret) ≡ false
  pub some_signature : is_empty (codec.sign (codec.encode user execution now expiry) secret) ≡ false
  pub ascii_signature : is_ascii (codec.sign (codec.encode user execution now expiry) secret) ≡ true
  pub reads_back :
      codec.decode (codec.encode user execution now expiry)
      ≡ some
          (record { user_id = some user; execution_id = some execution; expires_at = some expiry })

module _ (codec : Codec) where
  split-token :
      (payload secret : Text)
      → has_stop codec.prefix ≡ false
      → has_stop payload ≡ false
      → has_stop (codec.sign payload secret) ≡ false
      → split_parts (token_of codec payload secret)
        ≡ codec.prefix ∷ payload ∷ codec.sign payload secret ∷ []
  split-token payload secret first second third =
      split_parts-first codec.prefix _ first
      ∙ ap (λ parts. codec.prefix ∷ parts)
          (split_parts-first payload _ second
            ∙ ap (λ parts. payload ∷ parts) (split_parts-last (codec.sign payload secret) third))

  no_fault : {a b c : Bool} → a ≡ true → b ≡ false → c ≡ false → (not a || (b || c)) ≡ false
  no_fault p q r = rw (p, q, r) refl

  not-false : {a : Bool} → a ≡ true → not a ≡ false
  not-false p = rw p refl

  verify_parts-signed :
      (payload secret : Text) (now_ms : ℕ)
      → is_empty (codec.sign payload secret) ≡ false
      → is_ascii (codec.sign payload secret) ≡ true
      → is_empty payload ≡ false
      → verify_parts codec secret (codec.prefix ∷ payload ∷ codec.sign payload secret ∷ []) now_ms
        ≡ returned (read_claims codec payload now_ms)
  unfolding verify_parts
  verify_parts-signed payload secret now_ms signed ascii filled =
      let signature = codec.sign payload secret in
      let answer = returned (read_claims codec payload now_ms) in
      if_false {A = Verdict} (λ r. r ≡ answer)
        (not (same_text codec.prefix codec.prefix) || (is_empty payload || is_empty signature)) _ _
        (no_fault (same_text_refl codec.prefix) filled signed)
        (if_false {A = Verdict} (λ r. r ≡ answer) (not (is_ascii signature)) _ _ (not-false ascii)
          (if_false {A = Verdict} (λ r. r ≡ answer) (not (same_text signature signature)) _ _
            (not-false (same_text_refl signature)) refl))

  read_claims-encoded :
      (user execution secret : Text) (now expiry later : ℕ)
      → IsCodec codec user execution secret now expiry
      → read_claims codec (codec.encode user execution now expiry) later
        ≡ (if leb expiry later then none else some (user, execution))
  unfolding read_claims identity
  read_claims-encoded user execution secret now expiry later c = rw (read_claims, c.reads_back) refl

  -- If the encodings of the claims and their signature are plain text and the claims are read as
  -- written, a token that was issued is verified as its user and execution until it expires, and
  -- not from then on.
  pub verify-issue :
      (user execution : Text) (ttl_ms now_ms later_ms : ℕ) (secret : Text)
      → IsCodec codec user execution secret now_ms (now_ms + ttl_ms)
      → codec.secret ≡ some secret
      → (token : Text) × (issue codec user execution ttl_ms now_ms ≡ some token)
        × (verify codec token later_ms
            ≡ returned (if leb (now_ms + ttl_ms) later_ms then none else some (user, execution)))
  unfolding issue verify
  verify-issue user execution ttl_ms now_ms later_ms secret c s =
      let payload = codec.encode user execution now_ms (now_ms + ttl_ms) in
      (
        token_of codec payload secret,
        rw (issue, s) refl,
        rw (verify, s)
            (ap (λ parts. verify_parts codec secret parts later_ms)
                (split-token payload secret c.plain_prefix c.plain_payload c.plain_signature)
              ∙ verify_parts-signed payload secret later_ms c.some_signature c.ascii_signature
                  c.some_payload
              ∙ ap returned
                  (read_claims-encoded user execution secret now_ms (now_ms + ttl_ms) later_ms c)),
      )

  -- The token is made of a payload and its signature, and the payload's claims are those, not yet expired.
  pub record IsSigned (token : Text) (now_ms : ℕ) (who : Text × Text) : Type 0 where
    pub secret : Text
    pub payload : Text
    pub claims : Claims
    pub expiry : ℕ
    pub has_secret : codec.secret ≡ some secret
    pub is_token : token ≡ token_of codec payload secret
    pub reads : codec.decode payload ≡ some claims
    pub expires : claims.expires_at ≡ some expiry
    pub in_time : now_ms < expiry
    pub names : identity codec claims ≡ some who

  abbrev Who : Type 0
  Who = Text × Text

  not_refused :
      (b : Bool) (rest : Option Who) (who : Who)
      → (if b then none else rest) ≡ some who
      → (b ≡ false) × (rest ≡ some who)
  not_refused true rest who h = absurd cc
  not_refused false rest who h = (refl, h)

  not_nobody :
      (b : Bool) (rest : Verdict) (who : Who)
      → (if b then returned none else rest) ≡ returned (some who)
      → (b ≡ false) × (rest ≡ returned (some who))
  not_nobody true rest who h = absurd cc
  not_nobody false rest who h = (refl, h)

  not_raised :
      (b : Bool) (rest : Verdict) (who : Who)
      → (if b then raised_type_error else rest) ≡ returned (some who)
      → rest ≡ returned (some who)
  not_raised true rest who h = absurd cc
  not_raised false rest who h = h

  with_expiry :
      (o : Option ℕ) (rest : Option Who) (now_ms : ℕ) (who : Who)
      → elim o as (λ x. Option Who) [ none ↦ none | some x ↦ if leb x now_ms then none else rest ]
        ≡ some who
      → (x : ℕ) × (o ≡ some x) × (now_ms < x) × (rest ≡ some who)
  with_expiry none rest now_ms who h = absurd cc
  with_expiry (some x) rest now_ms who h =
      let parts = not_refused (leb x now_ms) rest who h in
      (x, refl, leb→gt x now_ms parts.0, parts.1)

  -- The claims that are read, and their time of expiry.
  abbrev WithClaims : Option Claims → ℕ → Who → Type 0
  WithClaims o now_ms who =
      (claims : Claims) × (x : ℕ) × (o ≡ some claims)
      × (claims.expires_at ≡ some x)
      × (now_ms < x)
      × (identity codec claims ≡ some who)

  with_claims :
      (o : Option Claims) (now_ms : ℕ) (who : Who)
      → elim o as (λ x. Option Who) [
        | none ↦ none
        | some claims ↦ elim claims.expires_at [
          | none ↦ none
          | some x ↦ if leb x now_ms then none else identity codec claims
        ]
      ]
        ≡ some who
      → WithClaims o now_ms who
  with_claims none now_ms who h = absurd cc
  with_claims (some claims) now_ms who h =
      let (x, e, later, names) =
        with_expiry claims.expires_at (identity codec claims) now_ms who h in
      (claims, x, refl, e, later, names)

  returned_same : {o o' : Option Who} → returned o ≡ returned o' → o ≡ o'
  returned_same h = cc

  no_faults : (a b c : Bool) → (not a || (b || c)) ≡ false → a ≡ true
  no_faults a b c h = ground arith

  is_signed : (a : Bool) → not a ≡ false → a ≡ true
  is_signed a h = ground arith

  IsSigned-parts :
      (secret : Text) (parts : List Text) (now_ms : ℕ) (who : Who)
      → codec.secret ≡ some secret
      → verify_parts codec secret parts now_ms ≡ returned (some who)
      → IsSigned (join_parts parts) now_ms who
  unfolding verify_parts join_parts read_claims
  IsSigned-parts secret [] now_ms who s h = absurd cc
  IsSigned-parts secret (a ∷ []) now_ms who s h = absurd cc
  IsSigned-parts secret (a ∷ b ∷ []) now_ms who s h = absurd cc
  IsSigned-parts secret (a ∷ b ∷ c ∷ d ∷ more) now_ms who s h = absurd cc
  IsSigned-parts secret (head ∷ payload ∷ signature ∷ []) now_ms who s h =
      let first =
        not_nobody (not (same_text head codec.prefix) || (is_empty payload || is_empty signature)) _
          who h in
      let second =
        not_nobody (not (same_text signature (codec.sign payload secret))) _ who
          (not_raised (not (is_ascii signature)) _ who first.1) in
      let head_is : head ≡ codec.prefix =
        same_text_eq _ _ (no_faults _ (is_empty payload) (is_empty signature) first.0) in
      let signature_is : signature ≡ codec.sign payload secret =
        same_text_eq _ _ (is_signed _ second.0) in
      let (claims, x, read, e, later, names) =
        with_claims (codec.decode payload) now_ms who (returned_same second.1) in
      record {
        secret = secret;
        payload = payload;
        claims = claims;
        expiry = x;
        has_secret = s;
        is_token =
            ap (λ t. t ++ (b'.' ∷ (payload ++ (b'.' ∷ signature)))) head_is
            ∙ ap (λ t. codec.prefix ++ (b'.' ∷ (payload ++ (b'.' ∷ t)))) signature_is;
        reads = read;
        expires = e;
        in_time = later;
        names = names;
      }

  -- A token that is verified is made of a payload and its signature with the secret, and the payload's claims name
  -- that user and execution and have not expired.
  pub verify_sound :
      (token : Text) (now_ms : ℕ) (who : Text × Text)
      → verify codec token now_ms ≡ returned (some who)
      → IsSigned token now_ms who
  unfolding verify
  verify_sound token now_ms who h = elim (Option-cases codec.secret) [
    | inl e ↦ let k : returned none ≡ returned (some who) = rw (verify, e) at h in absurd cc
    | inr (secret, e) ↦
        let k : verify_parts codec secret (split_parts token) now_ms ≡ returned (some who) =
          rw (verify, e) at h in
        subst (λ t. IsSigned t now_ms who) (join-split_parts token)
          (IsSigned-parts secret (split_parts token) now_ms who e k)
  ]
