-- ===== src/Redaction/Collect.antt =====
-- The candidates that aggregateRedactionSpans in internal/middleware/redaction.go collects.
use aegis_llm.Prelude.{
  ℕ, suc, zero, ◌+◌, ◌≤◌, ◌≡◌, refl, sym, ap, ◌∙◌, Bool, true, false, not, ◌||◌, ◌&&◌, List, [],
  ◌∷◌, ◌++◌, map, Result, ok, err, ltb, length, any, All, All-append, if◌then◌else◌, if_elim, arith,
  Memᴰ, Bytes, ◌-◌,
}
use mathlib.Core.Path.{subst}
use aegis_llm.Redaction.Rules.{
  RedactionRule, RedactionSpan, RedactionError, json_limit, max_semantic_json_string_bytes,
  max_semantic_redaction_matches, IsPattern,
}
use aegis_llm.Prelude.{take}
use aegis_llm.Redaction.Spans.{
  candidate, prepend, aggregated, bounded_matches, collect_spans, aggregate_redaction_spans,
}
use aegis_llm.Redaction.Cover.{
  reaches, inside, is_sensitive, IsPlaceholder, IsApart, sort_merge-Merged,
}

-- A result that is only missing when a limit is exceeded, and what holds of it.
abbrev pub WithinLimits : {A : Type 0} → (A → Type 0) → Result RedactionError A → Type 0
WithinLimits P (ok a) = P a
WithinLimits P (err e) = e ≡ json_limit

take_all {ℓ} : {A : Type ℓ} (n : ℕ) (l : List A) → length (take (suc n) l) ≤ n → take (suc n) l ≡ l
unfolding take
take_all n [] h = refl
take_all zero (a ∷ l) h = absurd (ground arith)
take_all (suc n) (a ∷ l) h = ap (λ t. a ∷ t) (take_all n l (omega (arith, h)))

any-append {ℓ} :
    {A : Type ℓ} (p : A → Bool) (xs ys : List A) → any p (xs ++ ys) ≡ (any p xs || any p ys)
any-append p [] ys = refl
any-append p (x ∷ xs) ys = ground (arith, any-append p xs ys)

any-candidates :
    (i : ℕ) (rule : RedactionRule) (ms : List (ℕ × ℕ))
    → any (reaches i) (map (candidate rule) ms) ≡ any (inside i) ms
any-candidates i rule [] = refl
any-candidates i rule (m ∷ ms) = ap (λ b. inside i m || b) (any-candidates i rule ms)

candidates-All :
    (P : RedactionSpan → Type 0) (rule : RedactionRule) (ms : List (ℕ × ℕ))
    → ((m : ℕ × ℕ) → Memᴰ m ms → P (candidate rule m))
    → All P (map (candidate rule) ms)
candidates-All P rule [] h = tt
candidates-All P rule (m ∷ ms) h =
    (h m (Memᴰ.head refl), candidates-All P rule ms (λ n k. h n (Memᴰ.tail k)))

-- The compiled patterns of the rules are those of the package regexp.
abbrev pub ArePatterns : List RedactionRule → Type 0
ArePatterns = All (λ (rule : RedactionRule). IsPattern rule.pattern)

-- The candidates of some rules: proper intervals with the placeholder of an enabled rule, which cover
-- the sensitive positions.
pub record AreCandidates (rules : List RedactionRule) (value : Bytes) (spans : List RedactionSpan)
    : Type 0 where
  pub proper : All (λ (c : RedactionSpan). c.start ≤ c.end) spans
  pub placeholders : All (λ (c : RedactionSpan). IsPlaceholder rules c.replacement) spans
  pub same : (i : ℕ) → any (reaches i) spans ≡ is_sensitive rules value i

module _ (value : Bytes) (rule : RedactionRule) (rules : List RedactionRule) where
  weaken :
      (spans : List RedactionSpan)
      → All (λ (c : RedactionSpan). IsPlaceholder rules c.replacement) spans
      → All (λ (c : RedactionSpan). IsPlaceholder (rule ∷ rules) c.replacement) spans
  weaken [] h = tt
  weaken (c ∷ rest) h = let (r, m, on, q) = h.0 in ((r, Memᴰ.tail m, on, q), weaken rest h.1)

  skip-AreCandidates :
      rule.enabled ≡ false
      → (r : Result RedactionError (List RedactionSpan))
      → WithinLimits (AreCandidates rules value) r
      → WithinLimits (AreCandidates (rule ∷ rules) value) r
  unfolding is_sensitive
  skip-AreCandidates off (err e) k = k
  skip-AreCandidates off (ok spans) k = record {
    proper = k.proper;
    placeholders = weaken spans k.placeholders;
    same = λ i. k.same i ∙ ground (arith, off);
  }

  join-AreCandidates :
      IsPattern rule.pattern
      → rule.enabled ≡ true
      → (rest : List RedactionSpan) → AreCandidates rules value rest
      → AreCandidates
          (rule ∷ rules)
          value
          (map (candidate rule) (rule.pattern.find_all value) ++ rest)
  unfolding is_sensitive
  join-AreCandidates law on rest k =
      let own = map (candidate rule) (rule.pattern.find_all value) in
      record {
        proper =
            All-append (λ (c : RedactionSpan). c.start ≤ c.end) own rest
              (candidates-All (λ c. c.start ≤ c.end) rule (rule.pattern.find_all value)
                (λ m n. (law.inside value m n).0))
              k.proper;
        placeholders =
            All-append (λ (c : RedactionSpan). IsPlaceholder (rule ∷ rules) c.replacement) own rest
              (candidates-All (λ c. IsPlaceholder (rule ∷ rules) c.replacement) rule
                (rule.pattern.find_all value) (λ m n. (rule, Memᴰ.head refl, on, refl)))
              (weaken rest k.placeholders);
        same = λ i.
            any-append (reaches i) own rest
            ∙ ap (λ b. b || any (reaches i) rest)
                (any-candidates i rule (rule.pattern.find_all value))
            ∙ ap (λ b. any (inside i) (rule.pattern.find_all value) || b) (k.same i)
            ∙ ap
                (λ b.
                  (b && any (inside i) (rule.pattern.find_all value)) || is_sensitive rules value i)
                (sym on);
      }

few_le :
    (total n : ℕ)
    → ltb (max_semantic_redaction_matches - total) n ≡ false
    → n ≤ max_semantic_redaction_matches
few_le total n h = ground (arith, h)

pub collect-AreCandidates :
    (value : Bytes) (rules : List RedactionRule) (total : ℕ)
    → ArePatterns rules
    → WithinLimits (AreCandidates rules value) (collect_spans value rules total)
unfolding collect_spans is_sensitive
collect-AreCandidates value [] total laws = record {
  proper = tt;
  placeholders = tt;
  same = λ i. refl;
}
collect-AreCandidates value (rule ∷ rules) total laws =
    let count = if rule.enabled then total + length (bounded_matches rule value) else total in
    let later = collect_spans value rules count in
    let rest = collect-AreCandidates value rules count laws.1 in
    if_elim (WithinLimits (AreCandidates (rule ∷ rules) value)) (not rule.enabled)
      (λ off. skip-AreCandidates value rule rules (ground (arith, off)) later rest)
      (λ on.
        if_elim (WithinLimits (AreCandidates (rule ∷ rules) value))
          (rule.pattern.match_string []
            || ltb max_semantic_json_string_bytes (length rule.replacement))
          (λ _. refl)
          (λ _.
            if_elim (WithinLimits (AreCandidates (rule ∷ rules) value))
              (ltb (max_semantic_redaction_matches - total) (length (bounded_matches rule value)))
              (λ _. refl) (λ few. joined (ground (arith, on)) few later rest)))
  where
    joined :
        rule.enabled ≡ true
        → ltb (max_semantic_redaction_matches - total) (length (bounded_matches rule value)) ≡ false
        → (r : Result RedactionError (List RedactionSpan))
        → WithinLimits (AreCandidates rules value) r
        → WithinLimits
            (AreCandidates (rule ∷ rules) value)
            (prepend (map (candidate rule) (bounded_matches rule value)) r)
    joined on few (err e) k = k
    joined on few (ok spans) k =
        subst (λ ms. AreCandidates (rule ∷ rules) value (map (candidate rule) ms ++ spans))
          (sym (
            take_all max_semantic_redaction_matches (rule.pattern.find_all value)
              (few_le total (length (bounded_matches rule value)) few)))
          (join-AreCandidates value rule rules laws.0 on spans k)

-- What `aggregateRedactionSpans` answers: disjoint spans in order, each with the placeholder of an
-- enabled rule, that cover the sensitive positions of the text and no other.
pub record AreSpans (rules : List RedactionRule) (value : Bytes) (spans : List RedactionSpan)
    : Type 0 where
  pub apart : IsApart 0 spans
  pub same : (i : ℕ) → any (reaches i) spans ≡ is_sensitive rules value i
  pub placeholders : All (λ (a : RedactionSpan). IsPlaceholder rules a.replacement) spans

pub aggregate-AreSpans :
    (value : Bytes) (rules : List RedactionRule)
    → ArePatterns rules
    → WithinLimits
        (λ (r : List RedactionSpan × Bool). AreSpans rules value r.0)
        (aggregate_redaction_spans value rules)
unfolding aggregate_redaction_spans
aggregate-AreSpans value rules laws =
    by_candidates (collect_spans value rules 0) (collect-AreCandidates value rules 0 laws)
  where
    by_candidates :
        (r : Result RedactionError (List RedactionSpan))
        → WithinLimits (AreCandidates rules value) r
        → WithinLimits (λ (r : List RedactionSpan × Bool). AreSpans rules value r.0) (aggregated r)
    by_candidates (err e) k = k
    by_candidates (ok spans) k =
        let m = sort_merge-Merged (IsPlaceholder rules) spans k.proper k.placeholders in
        record { apart = m.apart; same = λ i. m.same i ∙ k.same i; placeholders = m.placeholders }
