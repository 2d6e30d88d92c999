-- ===== src/ScopeToken/Split.antt =====
-- `str.split` on a full stop, as src/tracer_agent/shared/agents/shared/scope_token.py takes a token apart.
use tracer_agent_python.Prelude.{
  ℕ, ◌≡◌, refl, sym, ap, ◌∙◌, inl, inr, Bool, false, List, [], ◌∷◌, ◌++◌, any, ◌==◌, ◌||◌,
  if◌then◌else◌, if_true, if_false, Bool-cases, arith, ==_iff,
}
use tracer_agent_python.Redaction.Rules.{Text}

abbrev pub add_front : ℕ → List Text → List Text
add_front c [] = (c ∷ []) ∷ []
add_front c (part ∷ parts) = (c ∷ part) ∷ parts

-- The parts between the full stops, one more than there are stops.
unfoldable pub split_parts : Text → List Text
split_parts [] = [] ∷ []
split_parts (c ∷ cs) =
    let rest = split_parts cs in if c == b'.' then [] ∷ rest else add_front c rest

-- The parts with a full stop between each two.
unfoldable pub join_parts : List Text → Text
join_parts [] = []
join_parts (part ∷ []) = part
join_parts (part ∷ next ∷ parts) = part ++ (b'.' ∷ join_parts (next ∷ parts))

abbrev pub has_stop : Text → Bool
has_stop text = any (λ c. c == b'.') text

stop-parts : (b c : Bool) → b || c ≡ false → (b ≡ false) × (c ≡ false)
stop-parts b c h = ground arith

pub split_parts-last : (part : Text) → has_stop part ≡ false → split_parts part ≡ part ∷ []
unfolding split_parts
split_parts-last [] h = refl
split_parts-last (c ∷ cs) h =
    let parts = stop-parts (c == b'.') (has_stop cs) h in
    if_false {A = List Text} (λ t. t ≡ (c ∷ cs) ∷ []) (c == b'.') _ _ parts.0
      (ap (add_front c) (split_parts-last cs parts.1))

pub split_parts-first :
    (part rest : Text)
    → has_stop part ≡ false
    → split_parts (part ++ (b'.' ∷ rest)) ≡ part ∷ split_parts rest
unfolding split_parts
split_parts-first [] rest h = refl
split_parts-first (c ∷ cs) rest h =
    let parts = stop-parts (c == b'.') (has_stop cs) h in
    if_false {A = List Text} (λ t. t ≡ (c ∷ cs) ∷ split_parts rest) (c == b'.') _ _ parts.0
      (ap (add_front c) (split_parts-first cs rest parts.1))

join-empty_front :
    (parts : List Text) (text : Text)
    → split_parts text ≡ parts
    → join_parts ([] ∷ parts) ≡ b'.' ∷ join_parts parts
unfolding join_parts split_parts
join-empty_front [] [] h = absurd cc
join-empty_front [] (c ∷ cs) h = absurd (ground arith)
join-empty_front (part ∷ parts) text h = refl

join-add_front : (c : ℕ) (parts : List Text) → join_parts (add_front c parts) ≡ c ∷ join_parts parts
unfolding join_parts
join-add_front c [] = refl
join-add_front c (part ∷ []) = refl
join-add_front c (part ∷ next ∷ parts) = refl

-- A text is its parts, joined again.
pub join-split_parts : (text : Text) → join_parts (split_parts text) ≡ text
unfolding split_parts
join-split_parts [] = unfold join_parts in refl
join-split_parts (c ∷ cs) = elim (Bool-cases (c == b'.')) [
  | inl e ↦
      if_true {A = List Text} (λ t. join_parts t ≡ c ∷ cs) (c == b'.') _ _ e
        (join-empty_front (split_parts cs) cs refl
          ∙ ap (λ t. b'.' ∷ t) (join-split_parts cs)
          ∙ ap (λ d. d ∷ cs) (sym ((==_iff c b'.').0 e)))
  | inr e ↦
      if_false {A = List Text} (λ t. join_parts t ≡ c ∷ cs) (c == b'.') _ _ e
        (join-add_front c (split_parts cs) ∙ ap (λ t. c ∷ t) (join-split_parts cs))
]
