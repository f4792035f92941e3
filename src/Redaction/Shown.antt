-- ===== src/Redaction/Shown.antt =====
-- What redactTextPart of internal/middleware/redaction.go leaves of a text.
use mathlib.Core.Path.{subst}
use aegis_llm.Prelude.{
  ℕ, ◌-◌, ◌≤◌, ◌<◌, ◌≡◌, refl, sym, ap, ◌∙◌, Bool, true, false, not, ◌||◌, ◌&&◌, List, [], ◌∷◌,
  Result, ok, err, length, any, All, if◌then◌else◌, if_elim, arith, Bytes, drop, ◌⊎◌, inl, inr,
  ◌>>=◌, ℤ, pos, ltb_ℤ, ◌+ℤ◌, ◌-ℤ◌,
}
use aegis_llm.Redaction.Rules.{
  RedactionSpan, RedactionRule, RedactionError, json_limit, max_semantic_json_string_bytes,
}
use aegis_llm.Redaction.Cover.{reaches, IsApart, is_sensitive, IsPlaceholder}
use aegis_llm.Redaction.Collect.{WithinLimits, ArePatterns, AreSpans}
use aegis_llm.Redaction.Text.{clip_start, clip_end, is_outside, measure, rebuild, redact_text_part}
use aegis_llm.Redaction.Masked.{Masked, Masked-same, Masked-plain}
use aegis_llm.Redaction.Rebuild.{Shows, apart-IsReady, to, outside_reaches, rebuild-Shows}

module _ (Placeholder : Bytes → Type 0) (text : Bytes) (from : ℕ) where
  any_outside :
      (spans : List RedactionSpan) (i : ℕ)
      → from ≤ i
      → i < (to Placeholder text from)
      → All (λ (s : RedactionSpan). is_outside from (to Placeholder text from) s ≡ true) spans
      → any (reaches i) spans ≡ false
  any_outside [] i h k a = refl
  any_outside (span ∷ rest) i h k a =
      ap (λ b. b || any (reaches i) rest) (outside_reaches Placeholder text from span i a.0 h k)
      ∙ any_outside rest i h k a.1

  -- What a text that is left alone says of the spans.
  abbrev Untouched : Bool → List RedactionSpan → Bool → Type 0
  Untouched touched spans t =
      t ≡ false
      → (touched ≡ false)
        × All (λ (s : RedactionSpan). is_outside from (to Placeholder text from) s ≡ true) spans

  -- The text is left alone only if every span is outside of it.
  measure-outside :
      (spans : List RedactionSpan) (output_len : ℤ) (touched : Bool)
      → WithinLimits
          (Untouched touched spans)
          (measure from (to Placeholder text from) spans output_len touched)
  unfolding measure
  measure-outside [] output_len touched = λ e. (e, tt)
  measure-outside (span ∷ rest) output_len touched =
      step (is_outside from (to Placeholder text from) span) refl
        (measure-outside rest output_len touched) (measure-outside rest (longer output_len) true)
    where
      longer : ℤ → ℤ
      longer n =
          n
          +ℤ (pos (length span.replacement)
              -ℤ pos (clip_end (to Placeholder text from) span - clip_start from span))

      step :
          (b : Bool)
          → is_outside from (to Placeholder text from) span ≡ b
          → WithinLimits
              (Untouched touched rest)
              (measure from (to Placeholder text from) rest output_len touched)
          → WithinLimits
              (Untouched true rest)
              (measure from (to Placeholder text from) rest (longer output_len) true)
          → WithinLimits (Untouched touched (span ∷ rest)) (
              if not b && ltb_ℤ (pos max_semantic_json_string_bytes) (longer output_len)
              then err json_limit
              else (measure from
                  (to Placeholder text from)
                  rest
                  (if b then output_len else longer output_len)
                  (if b then touched else true)))
      step true e same other =
          keep (measure from (to Placeholder text from) rest output_len touched) same
        where
          keep :
              (r : Result RedactionError Bool)
              → WithinLimits (Untouched touched rest) r
              → WithinLimits (Untouched touched (span ∷ rest)) r
          keep (err x) k = k
          keep (ok t) k = λ q. let (u, a) = k q in (u, (e, a))
      step false e same other =
          if_elim (WithinLimits (Untouched touched (span ∷ rest)))
            (ltb_ℤ (pos max_semantic_json_string_bytes) (longer output_len)) (λ _. refl)
            (λ _.
              drop_it (measure from (to Placeholder text from) rest (longer output_len) true) other)
        where
          drop_it :
              (r : Result RedactionError Bool)
              → WithinLimits (Untouched true rest) r
              → WithinLimits (Untouched touched (span ∷ rest)) r
          drop_it (err x) k = k
          drop_it (ok t) k = λ q. absurd (ground (arith, (k q).0))

  redact_text_part-Shows :
      (spans : List RedactionSpan)
      → IsApart 0 spans
      → All (λ (a : RedactionSpan). Placeholder a.replacement) spans
      → (redact_text_part text from spans ≡ err json_limit)
        ⊎ Shows
            (λ i. any (reaches i) spans)
            Placeholder
            from
            text
            (redact_text_part text from spans)
  unfolding redact_text_part
  redact_text_part-Shows spans apart ps =
      step (measure from (to Placeholder text from) spans (pos (length text)) false)
        (measure-outside spans (pos (length text)) false)
    where
      Whole : Result RedactionError Bytes → Type 0
      Whole r = (r ≡ err json_limit) ⊎ Shows (λ i. any (reaches i) spans) Placeholder from text r

      rebuilt : Whole (rebuild text from (to Placeholder text from) spans from)
      rebuilt =
          let (out, e, m) =
            rebuild-Shows Placeholder text from spans from (omega arith) (omega arith) ps
              (apart-IsReady from from 0 spans (ground arith) apart) in
          inr (
            out,
            e,
            subst (λ n. Masked (λ i. any (reaches i) spans) Placeholder from (drop n text) out)
                {x = from - from} {y = 0} (omega arith) m,
          )

      step :
          (r : Result RedactionError Bool)
          → WithinLimits (Untouched false spans) r
          → Whole (
              r >>= (λ touched.
                if not touched
                then ok text
                else rebuild text from (to Placeholder text from) spans from))
      step (err e) k = inl (ap err k)
      step (ok true) k = rebuilt
      step (ok false) k = inr (
        text,
        refl,
        Masked-same (λ i p q. sym (any_outside spans i p q (k refl).1))
            (Masked-plain {secret = λ i. false} from text (λ i. refl)),
      )

module _ (rules : List RedactionRule) (laws : ArePatterns rules) (value : Bytes) where
  -- A text of a sequence that stands at a position of a longer text is redacted by the matches in
  -- the longer text.
  pub redact_text_part-Masked :
      (text : Bytes) (from : ℕ) (spans : List RedactionSpan)
      → AreSpans rules value spans
      → (redact_text_part text from spans ≡ err json_limit)
        ⊎ Shows
            (is_sensitive rules value)
            (IsPlaceholder rules)
            from
            text
            (redact_text_part text from spans)
  redact_text_part-Masked text from spans known =
      by_cases (
        redact_text_part-Shows (IsPlaceholder rules) text from spans known.apart known.placeholders)
    where
      by_cases :
          (redact_text_part text from spans ≡ err json_limit)
            ⊎ Shows
                (λ i. any (reaches i) spans)
                (IsPlaceholder rules)
                from
                text
                (redact_text_part text from spans)
          → (redact_text_part text from spans ≡ err json_limit)
            ⊎ Shows
                (is_sensitive rules value)
                (IsPlaceholder rules)
                from
                text
                (redact_text_part text from spans)
      by_cases (inl e) = inl e
      by_cases (inr (out, e, m)) = inr (out, e, Masked-same (λ i _ _. known.same i) m)
