-- ===== src/Redaction/Cover.antt =====
-- What the spans of aggregateRedactionSpans in internal/middleware/redaction.go cover.
use aegis_llm.Prelude.{
  ℕ, ◌≤◌, ◌<◌, ◌≡◌, refl, ap, ◌∙◌, Bool, true, false, ◌||◌, ◌&&◌, List, [], ◌∷◌, ltb, leb, any, All,
  if◌then◌else◌, if_elim, arith, Memᴰ, Bytes,
}
use aegis_llm.Redaction.Rules.{RedactionRule, RedactionSpan}
use aegis_llm.Redaction.Sort.{sort_spans, IsOrdered, sort-IsOrdered, any-sort, sort-All}
use aegis_llm.Redaction.Spans.{widen, merge_spans, merge_ordered}

-- The position is one of the span's.
abbrev pub reaches : ℕ → RedactionSpan → Bool
reaches i s = leb s.start i && ltb i s.end

-- The position is in an interval.
abbrev pub inside : ℕ → ℕ × ℕ → Bool
inside i m = leb m.0 i && ltb i m.1

-- The position is in a match of an enabled rule: what has to be hidden of a text.
unfoldable pub is_sensitive : List RedactionRule → Bytes → ℕ → Bool
is_sensitive rules value i =
    any (λ rule. rule.enabled && any (inside i) (rule.pattern.find_all value)) rules

-- The text is the replacement of an enabled rule.
abbrev pub IsPlaceholder : List RedactionRule → Bytes → Type 0
IsPlaceholder rules text =
    (rule : RedactionRule) × Memᴰ rule rules × (rule.enabled ≡ true) × (text ≡ rule.replacement)

-- Each span starts where the one before it ends, or later.
unfoldable pub IsApart : ℕ → List RedactionSpan → Type 0
IsApart low [] = Unit
IsApart low (a ∷ rest) = (low ≤ a.start) × ((a.start ≤ a.end) × IsApart a.end rest)

-- The two cases of a step of the merge.
merge_spans-elim :
    (P : List RedactionSpan → Type 0) (current c : RedactionSpan) (rest : List RedactionSpan)
    → (current.end ≤ c.start → P (current ∷ merge_spans c rest))
    → (c.start < current.end → P (merge_spans (widen current c) rest))
    → P (merge_spans current (c ∷ rest))
unfolding merge_spans
merge_spans-elim P current c rest starts widens = step (leb current.end c.start) refl
  where
    step :
        (b : Bool)
        → leb current.end c.start ≡ b
        → P (
            let later = merge_spans (if b then c else widen current c) rest in
            if b then current ∷ later else later)
    step true e = starts (ground (arith, e))
    step false e = widens (ground (arith, e))

IsOrdered-low :
    {low low' : ℕ} (rest : List RedactionSpan)
    → low ≤ low'
    → IsOrdered low' rest
    → IsOrdered low rest
unfolding IsOrdered
IsOrdered-low [] h o = tt
IsOrdered-low (a ∷ rest) h o = (omega arith, o.1)

merge-IsApart :
    (low : ℕ) (current : RedactionSpan) (rest : List RedactionSpan)
    → low ≤ current.start
    → current.start ≤ current.end
    → All (λ (c : RedactionSpan). c.start ≤ c.end) rest
    → IsOrdered current.start rest
    → IsApart low (merge_spans current rest)
unfolding merge_spans IsApart IsOrdered
merge-IsApart low current [] h v vs o = (h, (v, tt))
merge-IsApart low current (c ∷ rest) h v vs o =
    merge_spans-elim (IsApart low) current c rest
      (λ e. (h, (v, merge-IsApart current.end c rest e vs.0 vs.1 o.1)))
      (λ e.
        merge-IsApart low (widen current c) rest h (ground arith) vs.1 (IsOrdered-low rest o.0 o.1))

-- The merged spans cover what the ordered candidates cover.
merge_spans-reaches :
    (i : ℕ) (current : RedactionSpan) (rest : List RedactionSpan)
    → IsOrdered current.start rest
    → any (reaches i) (merge_spans current rest) ≡ (reaches i current || any (reaches i) rest)
unfolding merge_spans IsOrdered
merge_spans-reaches i current [] o = refl
merge_spans-reaches i current (c ∷ rest) o =
    merge_spans-elim
      (λ out. any (reaches i) out ≡ (reaches i current || (reaches i c || any (reaches i) rest)))
      current c rest (λ e. ap (λ b. reaches i current || b) (merge_spans-reaches i c rest o.1))
      (λ e.
        merge_spans-reaches i (widen current c) rest (IsOrdered-low rest o.0 o.1)
        ∙ union (any (reaches i) rest) e)
  where
    union :
        (b : Bool)
        → c.start < current.end
        → (reaches i (widen current c) || b) ≡ (reaches i current || (reaches i c || b))
    union b e = ground (arith, o.0, e)

merge-All :
    (P : Bytes → Type 0) (current : RedactionSpan) (rest : List RedactionSpan)
    → P current.replacement
    → All (λ (c : RedactionSpan). P c.replacement) rest
    → All (λ (c : RedactionSpan). P c.replacement) (merge_spans current rest)
unfolding merge_spans
merge-All P current [] h hs = (h, tt)
merge-All P current (c ∷ rest) h hs =
    merge_spans-elim (All (λ (a : RedactionSpan). P a.replacement)) current c rest
      (λ e. (h, merge-All P c rest hs.0 hs.1))
      (λ e.
        merge-All P (widen current c) rest
          (if_elim P (ltb current.match_width c.match_width) (λ _. hs.0) (λ _. h)) hs.1)

module _ (P : Bytes → Type 0) where
  -- What holds of the ordered spans once they are merged.
  pub record Merged (candidates spans : List RedactionSpan) : Type 0 where
    pub apart : IsApart 0 spans
    pub same : (i : ℕ) → any (reaches i) spans ≡ any (reaches i) candidates
    pub placeholders : All (λ (a : RedactionSpan). P a.replacement) spans

  merge_ordered-Merged :
      (ordered : List RedactionSpan)
      → IsOrdered 0 ordered
      → All (λ (c : RedactionSpan). c.start ≤ c.end) ordered
      → All (λ (c : RedactionSpan). P c.replacement) ordered
      → Merged ordered (merge_ordered ordered)
  unfolding IsOrdered IsApart
  merge_ordered-Merged [] o v h = record { apart = tt; same = λ i. refl; placeholders = tt }
  merge_ordered-Merged (c ∷ rest) o v h = record {
    apart = merge-IsApart 0 c rest (omega arith) v.0 v.1 o.1;
    same = λ i. merge_spans-reaches i c rest o.1;
    placeholders = merge-All P c rest h.0 h.1;
  }

  pub sort_merge-Merged :
      (candidates : List RedactionSpan)
      → All (λ (c : RedactionSpan). c.start ≤ c.end) candidates
      → All (λ (c : RedactionSpan). P c.replacement) candidates
      → Merged candidates (merge_ordered (sort_spans candidates))
  sort_merge-Merged candidates v h =
      let sorted = sort_spans candidates in
      let m =
        merge_ordered-Merged sorted (sort-IsOrdered candidates)
          (sort-All (λ (c : RedactionSpan). c.start ≤ c.end) candidates v)
          (sort-All (λ (c : RedactionSpan). P c.replacement) candidates h) in
      record {
        apart = m.apart;
        same = λ i. m.same i ∙ any-sort (reaches i) candidates;
        placeholders = m.placeholders;
      }
