-- ===== src/Redaction/Spans.antt =====
-- internal/middleware/redaction.go: aggregateRedactionSpans.
use aegis_llm.Prelude.{
  ℕ, suc, ◌+◌, ◌-◌, Bool, true, false, not, ◌||◌, List, [], ◌∷◌, ◌++◌, map, Result, ok, err, ltb,
  leb, length, if◌then◌else◌,
}
use aegis_llm.Prelude.{take}
use aegis_llm.Redaction.Rules.{
  RedactionRule, RedactionSpan, RedactionError, json_limit, max_semantic_json_string_bytes,
  max_semantic_redaction_matches,
}
use aegis_llm.Redaction.Sort.{sort_spans}

-- The candidate of a match.
abbrev pub candidate : RedactionRule → ℕ × ℕ → RedactionSpan
candidate rule m = record {
  start = m.0;
  end = m.1;
  replacement = rule.replacement;
  match_width = m.1 - m.0;
}

-- `FindAllStringIndex(value, maxSemanticRedactionMatches+1)`
abbrev pub bounded_matches : RedactionRule → List ℕ → List (ℕ × ℕ)
bounded_matches rule value = take (suc max_semantic_redaction_matches) (rule.pattern.find_all value)

abbrev pub prepend :
    List RedactionSpan
    → Result RedactionError (List RedactionSpan)
    → Result RedactionError (List RedactionSpan)
prepend spans (ok rest) = ok (spans ++ rest)
prepend spans (err e) = err e

-- The first loop of `aggregateRedactionSpans`: the candidates, from the number of the matches so far.
unfoldable pub collect_spans :
    List ℕ → List RedactionRule → ℕ → Result RedactionError (List RedactionSpan)
unfolding take
collect_spans value [] total = ok []
collect_spans value (rule ∷ rules) total =
    let matches = bounded_matches rule value in
    let later =
      collect_spans value rules (if rule.enabled then total + length matches else total) in
    if not rule.enabled
    then later
    else (if rule.pattern.match_string []
          || ltb max_semantic_json_string_bytes (length rule.replacement)
        then err json_limit
        else (if ltb (max_semantic_redaction_matches - total) (length matches)
            then err json_limit
            else prepend (map (candidate rule) matches) later))

abbrev pub max : ℕ → ℕ → ℕ
max a b = if leb a b then b else a

abbrev pub min : ℕ → ℕ → ℕ
min a b = if leb a b then a else b

-- The last span, with a candidate that overlaps it.
abbrev pub widen : RedactionSpan → RedactionSpan → RedactionSpan
widen current c = record {
  start = current.start;
  end = max current.end c.end;
  replacement =
      if ltb current.match_width c.match_width then c.replacement else current.replacement;
  match_width =
      if ltb current.match_width c.match_width then c.match_width else current.match_width;
}

-- The second loop, from its last span: a candidate from its end on starts a new span.
unfoldable pub merge_spans : RedactionSpan → List RedactionSpan → List RedactionSpan
merge_spans current [] = current ∷ []
merge_spans current (c ∷ rest) =
    let apart = leb current.end c.start in
    let later = merge_spans (if apart then c else widen current c) rest in
    if apart then current ∷ later else later

abbrev pub merge_ordered : List RedactionSpan → List RedactionSpan
merge_ordered [] = []
merge_ordered (c ∷ rest) = merge_spans c rest

abbrev pub matched : List RedactionSpan → Bool
matched [] = false
matched (c ∷ rest) = true

abbrev pub aggregated :
    Result RedactionError (List RedactionSpan) → Result RedactionError (List RedactionSpan × Bool)
aggregated (ok candidates) = ok (merge_ordered (sort_spans candidates), matched candidates)
aggregated (err e) = err e

-- `aggregateRedactionSpans`; the text matched if there is a candidate.
unfoldable pub aggregate_redaction_spans :
    List ℕ → List RedactionRule → Result RedactionError (List RedactionSpan × Bool)
unfolding collect_spans sort_spans merge_spans
aggregate_redaction_spans value rules = aggregated (collect_spans value rules 0)
