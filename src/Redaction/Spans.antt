-- ===== src/Redaction/Spans.antt =====
-- Sorting and merging keep the covered positions, and leave spans that do not touch.
use tracer_agent_python.Prelude.{
  ℕ, suc, ◌≤◌, ◌<◌, ◌≡◌, refl, inl, inr, ◌∙◌, ap, Bool, true, false, ◌&&◌, ◌||◌, List, [], ◌∷◌, any,
  leb, ltb, leb→le, leb→gt, arith, All, All-map, Bool-cases, max,
}
use tracer_agent_python.Redaction.Scan.{
  Span, span_before, insert_span, sort_spans, merge_from, merge_spans,
}

abbrev pub inside : ℕ → Span → Bool
inside i a = leb a.start i && ltb i a.end

-- Is the position in one of the spans?
abbrev pub covers : List Span → ℕ → Bool
covers spans i = any (inside i) spans

abbrev IsOrdered : List Span → Type 0
IsOrdered [] = Unit
IsOrdered (a ∷ others) = All (λ (b : Span). a.start ≤ b.start) others × IsOrdered others

-- A span that is not empty and starts inside a text of that length.
pub record IsProper (size : ℕ) (a : Span) : Type 0 where
  pub not_empty : a.start < a.end
  pub starts_inside : a.start < size

-- Proper spans from a position on, with a gap between any two.
abbrev pub IsApart : ℕ → ℕ → List Span → Type 0
IsApart size low [] = Unit
IsApart size low (a ∷ others) = (low ≤ a.start) × IsProper size a × IsApart size (suc a.end) others

covers-insert_span :
    (i : ℕ) (a : Span) (bs : List Span) → covers (insert_span a bs) i ≡ (inside i a || covers bs i)
unfolding insert_span
covers-insert_span i a [] = refl
covers-insert_span i a (b ∷ bs) = elim (Bool-cases (span_before a b)) [
  | inl first ↦ rw first refl
  | inr later ↦ rw later (swapped (inside i a) (inside i b) _ _ (covers-insert_span i a bs))
]
  where
    swapped : (p q r s : Bool) → r ≡ (p || s) → (q || r) ≡ (p || (q || s))
    swapped p q r s e = ground arith

pub covers-sort_spans : (i : ℕ) (spans : List Span) → covers (sort_spans spans) i ≡ covers spans i
unfolding sort_spans
covers-sort_spans i [] = refl
covers-sort_spans i (a ∷ others) =
    covers-insert_span i a (sort_spans others)
    ∙ ap (λ c. inside i a || c) (covers-sort_spans i others)

module _ {ℓ} (P : Span → Type ℓ) where
  All-insert_span : (a : Span) (bs : List Span) → P a → All P bs → All P (insert_span a bs)
  unfolding insert_span
  All-insert_span a [] p h = (p, tt)
  All-insert_span a (b ∷ bs) p h = elim (Bool-cases (span_before a b)) [
    | inl first ↦ rw first (p, h)
    | inr later ↦ rw later (h.0, All-insert_span a bs p h.1)
  ]

  pub All-sort_spans : (spans : List Span) → All P spans → All P (sort_spans spans)
  unfolding sort_spans
  All-sort_spans [] h = tt
  All-sort_spans (a ∷ others) h =
      All-insert_span a (sort_spans others) h.0 (All-sort_spans others h.1)

start-le : (a b : Span) → span_before a b ≡ true → a.start ≤ b.start
unfolding span_before
start-le a b e = ground arith

start-ge : (a b : Span) → span_before a b ≡ false → b.start ≤ a.start
unfolding span_before
start-ge a b e = ground arith

IsOrdered-insert_span : (a : Span) (bs : List Span) → IsOrdered bs → IsOrdered (insert_span a bs)
unfolding insert_span
IsOrdered-insert_span a [] h = (tt, tt)
IsOrdered-insert_span a (b ∷ bs) h = elim (Bool-cases (span_before a b)) [
  | inl first ↦
      rw first ((start-le a b first, All-map (λ c k. omega (arith, start-le a b first)) bs h.0), h)
  | inr later ↦ rw later (
    All-insert_span (λ (c : Span). b.start ≤ c.start) a bs (start-ge a b later) h.0,
    IsOrdered-insert_span a bs h.1,
  )
]

pub IsOrdered-sort_spans : (spans : List Span) → IsOrdered (sort_spans spans)
unfolding sort_spans
IsOrdered-sort_spans [] = tt
IsOrdered-sort_spans (a ∷ others) =
    IsOrdered-insert_span a (sort_spans others) (IsOrdered-sort_spans others)

module _ (i : ℕ) where
  joined :
      (a b : Span) (rest : Bool)
      → a.start ≤ b.start
      → b.start ≤ a.end
      → (inside i (record a { end = max a.end b.end }) || rest)
        ≡ (inside i a || (inside i b || rest))
  joined a b rest h k = ground arith

  covers-merge_from :
      (a : Span) (bs : List Span)
      → All (λ (b : Span). a.start ≤ b.start) bs
      → IsOrdered bs
      → covers (merge_from a bs) i ≡ (inside i a || covers bs i)
  unfolding merge_from
  covers-merge_from a [] low o = refl
  covers-merge_from a (b ∷ bs) low o = elim (Bool-cases (leb b.start a.end)) [
    | inl touches ↦ rw touches (
        covers-merge_from (record a { end = max a.end b.end }) bs low.1 o.1
        ∙ joined a b (covers bs i) low.0 (leb→le _ _ touches))
    | inr apart ↦ rw apart (ap (λ c. inside i a || c) (covers-merge_from b bs o.0 o.1))
  ]

IsApart-merge_from :
    (size low : ℕ) (a : Span) (bs : List Span)
    → low ≤ a.start
    → IsProper size a
    → All (IsProper size) bs
    → IsApart size low (merge_from a bs)
unfolding merge_from
IsApart-merge_from size low a [] l p ps = (l, p, tt)
IsApart-merge_from size low a (b ∷ bs) l p ps = elim (Bool-cases (leb b.start a.end)) [
  | inl touches ↦
      rw touches
        (IsApart-merge_from size low (record a { end = max a.end b.end }) bs l (omega arith) ps.1)
  | inr apart ↦ rw apart (
    l,
    p,
    IsApart-merge_from size (suc a.end) b bs (omega (arith, leb→gt b.start a.end apart)) ps.0 ps.1,
  )
]

pub covers-merge_spans :
    (i : ℕ) (spans : List Span) → IsOrdered spans → covers (merge_spans spans) i ≡ covers spans i
unfolding merge_spans
covers-merge_spans i [] o = refl
covers-merge_spans i (a ∷ others) o = covers-merge_from i a others o.0 o.1

pub IsApart-merge_spans :
    (size : ℕ) (spans : List Span) → All (IsProper size) spans → IsApart size 0 (merge_spans spans)
unfolding merge_spans
IsApart-merge_spans size [] ps = tt
IsApart-merge_spans size (a ∷ others) ps =
    IsApart-merge_from size 0 a others (omega arith) ps.0 ps.1
