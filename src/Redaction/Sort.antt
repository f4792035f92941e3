-- ===== src/Redaction/Sort.antt =====
-- `sort.SliceStable` with the order of aggregateRedactionSpans in internal/middleware/redaction.go.
use aegis_llm.Prelude.{
  ℕ, ◌≡◌, refl, ap, ◌∙◌, ◌≤◌, ◌==◌, Bool, ◌||◌, List, [], ◌∷◌, arith, ltb, any, All, if◌then◌else◌,
  if_elim,
}
use aegis_llm.Redaction.Rules.{RedactionSpan}

-- The order of the candidates: by start, the longer one first.
abbrev pub span_less : RedactionSpan → RedactionSpan → Bool
span_less a b = if a.start == b.start then ltb b.end a.end else ltb a.start b.start

unfoldable pub insert_span : RedactionSpan → List RedactionSpan → List RedactionSpan
insert_span a [] = a ∷ []
insert_span a (b ∷ rest) =
    let later = insert_span a rest in if span_less b a then b ∷ later else a ∷ b ∷ rest

-- The stable order of the candidates.
unfoldable pub sort_spans : List RedactionSpan → List RedactionSpan
unfolding insert_span
sort_spans [] = []
sort_spans (a ∷ rest) = insert_span a (sort_spans rest)

-- The spans start at a position or later, each no earlier than the one before it.
unfoldable pub IsOrdered : ℕ → List RedactionSpan → Type 0
IsOrdered low [] = Unit
IsOrdered low (a ∷ rest) = (low ≤ a.start) × IsOrdered a.start rest

insert-IsOrdered :
    (low : ℕ) (a : RedactionSpan) (rest : List RedactionSpan)
    → low ≤ a.start
    → IsOrdered low rest
    → IsOrdered low (insert_span a rest)
unfolding insert_span IsOrdered
insert-IsOrdered low a [] h k = (h, tt)
insert-IsOrdered low a (b ∷ rest) h k =
    if_elim (IsOrdered low) (span_less b a)
      (λ e. (k.0, insert-IsOrdered b.start a rest (ground (arith, e)) k.1))
      (λ e. (h, (ground (arith, e), k.1)))

pub sort-IsOrdered : (spans : List RedactionSpan) → IsOrdered 0 (sort_spans spans)
unfolding sort_spans IsOrdered
sort-IsOrdered [] = tt
sort-IsOrdered (a ∷ rest) =
    insert-IsOrdered 0 a (sort_spans rest) (omega arith) (sort-IsOrdered rest)

any-insert :
    (p : RedactionSpan → Bool) (a : RedactionSpan) (rest : List RedactionSpan)
    → any p (insert_span a rest) ≡ (p a || any p rest)
unfolding insert_span
any-insert p a [] = refl
any-insert p a (b ∷ rest) = ground (arith, any-insert p a rest)

-- The ordered spans are the given ones: a test that some span passes, and what holds of all.
pub any-sort :
    (p : RedactionSpan → Bool) (spans : List RedactionSpan) → any p (sort_spans spans) ≡ any p spans
unfolding sort_spans
any-sort p [] = refl
any-sort p (a ∷ rest) = any-insert p a (sort_spans rest) ∙ ap (λ b. p a || b) (any-sort p rest)

All-insert :
    (P : RedactionSpan → Type 0) (a : RedactionSpan) (rest : List RedactionSpan)
    → P a
    → All P rest
    → All P (insert_span a rest)
unfolding insert_span
All-insert P a [] h k = (h, k)
All-insert P a (b ∷ rest) h k =
    if_elim (All P) (span_less b a) (λ _. (k.0, All-insert P a rest h k.1)) (λ _. (h, k))

pub sort-All :
    (P : RedactionSpan → Type 0) (spans : List RedactionSpan)
    → All P spans
    → All P (sort_spans spans)
unfolding sort_spans
sort-All P [] h = h
sort-All P (a ∷ rest) h = All-insert P a (sort_spans rest) h.0 (sort-All P rest h.1)
