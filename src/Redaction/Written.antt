-- ===== src/Redaction/Written.antt =====
-- What processStringValue of internal/middleware/redaction.go, and the last loop of
-- processSemanticMessageText, put in the place of texts.
use mathlib.Core.Path.{subst}
use aegis_llm.Prelude.{
  ℕ, ◌+◌, ◌-◌, ◌≡◌, refl, sym, ap, ◌∙◌, ◌⊎◌, inl, inr, Bool, true, false, ◌&&◌, List, [], ◌∷◌,
  Result, ok, err, ltb, length, Bytes, Option, none, some, arith, if_elim, ◌>>=◌, is_some, any,
}
use aegis_llm.Redaction.Rules.{
  RedactionRule, redact, RedactionSpan, RedactionError, json_limit, max_semantic_joined_text_bytes,
}
use aegis_llm.Redaction.Spans.{aggregate_redaction_spans, collect_spans, aggregated}
use aegis_llm.Redaction.Sort.{sort_spans}
use aegis_llm.Redaction.Text.{redact_text_part}
use aegis_llm.Redaction.Cover.{is_sensitive, IsPlaceholder, reaches}
use aegis_llm.Redaction.Collect.{
  WithinLimits, ArePatterns, AreSpans, AreCandidates, collect-AreCandidates, aggregate-AreSpans,
}
use aegis_llm.Redaction.Masked.{Masked, Masked-same, Masked-plain}
use aegis_llm.Redaction.Rebuild.{Shows}
use aegis_llm.Redaction.Shown.{redact_text_part-Masked}
use aegis_llm.Redaction.Inspected.{Sound, Sound-bind}
use aegis_llm.Redaction.Parts.{ContentPart, override_of, overridden, override_parts}
use aegis_llm.Redaction.Processor.{
  Json, BoundedOutput, Setup, Processor, Ending, done, failed, ◌▷◌, is_block, mark, check_text,
  write_bytes, write_encoded, write_json_string, write_redacted, redacted_string, write_string,
  searched_string, process_string_value,
}

-- The content parts as the provider may see them: the text of each is masked at its place in the joined
-- text, the others stay.
pub data PartsMasked (secret : ℕ → Bool) (Placeholder : Bytes → Type 0)
    : ℕ → List ContentPart → List ContentPart → Type 0 where
  no_parts : (at : ℕ) → PartsMasked secret Placeholder at [] []
  text_part :
      (at : ℕ) (part : ContentPart) (override : Bytes) (parts news : List ContentPart)
      → part.is_text ≡ true
      → Masked secret Placeholder at part.text override
      → PartsMasked secret Placeholder (at + length part.text) parts news
      → PartsMasked secret Placeholder at
          (part ∷ parts)
          (record part { text_override = override } ∷ news)
  other_part :
      (at : ℕ) (part : ContentPart) (parts news : List ContentPart)
      → part.is_text ≡ false
      → PartsMasked secret Placeholder at parts news
      → PartsMasked secret Placeholder at (part ∷ parts) (part ∷ news)

module _ (rules : List RedactionRule) (laws : ArePatterns rules) (value : Bytes)
    (spans : List RedactionSpan) (known : AreSpans rules value spans) where
  abbrev MasksPart : ℕ → Bytes → Bytes → Type 0
  MasksPart = Masked (is_sensitive rules value) (IsPlaceholder rules)

  abbrev MasksParts : ℕ → List ContentPart → List ContentPart → Type 0
  MasksParts = PartsMasked (is_sensitive rules value) (IsPlaceholder rules)

  pub redact_text_part-Sound :
      (text : Bytes) (offset : ℕ)
      → Sound (MasksPart offset text) (redact_text_part text offset spans)
  redact_text_part-Sound text offset =
      by_cases (redact_text_part-Masked rules laws value text offset spans known)
    where
      by_cases :
          (redact_text_part text offset spans ≡ err json_limit)
            ⊎ Shows
                (is_sensitive rules value)
                (IsPlaceholder rules)
                offset
                text
                (redact_text_part text offset spans)
          → Sound (MasksPart offset text) (redact_text_part text offset spans)
      by_cases (inl e) = subst (Sound (MasksPart offset text)) (sym e) refl
      by_cases (inr (out, e, m)) = subst (Sound (MasksPart offset text)) (sym e) m

  -- What takes the place of a text, where the text of a message that does not match has no spans.
  override_of-Sound :
      (replaces : Bool)
      → (replaces ≡ false → spans ≡ [])
      → (part : ContentPart) (offset : ℕ)
      → Sound (MasksPart offset part.text) (override_of replaces offset spans part)
  unfolding redact_text_part
  override_of-Sound true k part offset = redact_text_part-Sound part.text offset
  override_of-Sound false k part offset =
      Masked-same (λ i _ _. sym (ap (λ s. any (reaches i) s) (k refl)) ∙ known.same i)
        (Masked-plain {secret = λ i. false} offset part.text (λ i. refl))

  pub override_parts-PartsMasked :
      (replaces : Bool) (k : replaces ≡ false → spans ≡ []) (parts : List ContentPart)
      (offset transformed : ℕ)
      → Sound (MasksParts offset parts) (override_parts replaces spans parts offset transformed)
  unfolding override_parts redact_text_part
  override_parts-PartsMasked replaces k [] offset transformed = no_parts offset
  override_parts-PartsMasked replaces k (part ∷ parts) offset transformed =
      by_kind part.is_text refl (override_parts-PartsMasked replaces k parts offset transformed)
        (λ override.
          override_parts-PartsMasked replaces k parts (offset + length part.text)
            (transformed + length override))
    where
      by_kind :
          (b : Bool)
          → part.is_text ≡ b
          → Sound (MasksParts offset parts) (override_parts replaces spans parts offset transformed)
          → ((override : Bytes)
              → Sound (MasksParts (offset + length part.text) parts) (
                  override_parts replaces spans parts
                    (offset + length part.text)
                    (transformed + length override)))
          → Sound (MasksParts offset (part ∷ parts)) (elim b [
            | false ↦
                override_parts replaces spans parts offset transformed
                >>= (λ rest. ok (part ∷ rest))
            | true ↦ override_of replaces offset spans part >>= (λ override.
                overridden part transformed override >>= (λ new.
                  override_parts replaces spans parts
                    (offset + length part.text)
                    (transformed + length override)
                  >>= (λ rest. ok (new ∷ rest))))
          ])
      by_kind false e same next =
          Sound-bind (MasksParts offset parts) (MasksParts offset (part ∷ parts))
            (override_parts replaces spans parts offset transformed) _ same
            (λ rest m. other_part offset part parts rest e m)
      by_kind true e same next =
          Sound-bind (MasksPart offset part.text) (MasksParts offset (part ∷ parts))
            (override_of replaces offset spans part) _ (override_of-Sound replaces k part offset)
            (λ override masked.
              Sound-bind (λ (new : ContentPart). new ≡ record part { text_override = override })
                (MasksParts offset (part ∷ parts)) (overridden part transformed override) _
                (if_elim
                  (Sound (λ (new : ContentPart). new ≡ record part { text_override = override }))
                  (ltb (max_semantic_joined_text_bytes - transformed) (length override))
                  {x = err json_limit} {y = ok (record part { text_override = override })}
                  (λ _. refl) (λ _. refl))
                (λ new q.
                  Sound-bind (MasksParts (offset + length part.text) parts)
                    (MasksParts offset (part ∷ parts))
                    (override_parts replaces spans parts (offset + length part.text)
                      (transformed + length override))
                    _ (next override)
                    (λ rest m.
                      subst (λ n. MasksParts offset (part ∷ parts) (n ∷ rest)) (sym q)
                        (text_part offset part override parts rest e masked m))))

-- The spans of a text that does not match are none.
pub spans_unmatched :
    (value : Bytes) (rules : List RedactionRule)
    → ArePatterns rules
    → WithinLimits
        (λ (r : List RedactionSpan × Bool). r.1 ≡ false → r.0 ≡ [])
        (aggregate_redaction_spans value rules)
unfolding aggregate_redaction_spans sort_spans
spans_unmatched value rules laws =
    by_candidates (collect_spans value rules 0) (collect-AreCandidates value rules 0 laws)
  where
    by_candidates :
        (r : Result RedactionError (List RedactionSpan))
        → WithinLimits (AreCandidates rules value) r
        → WithinLimits (λ (r : List RedactionSpan × Bool). r.1 ≡ false → r.0 ≡ []) (aggregated r)
    by_candidates (err e) k = k
    by_candidates (ok []) k = λ e. refl
    by_candidates (ok (c ∷ rest)) k = λ e. absurd (ground (arith, e))

module _ {D : Type 0} (json : Json D) (setup : Setup) where
  -- A text is written in the place of another: an encoding of the other, as the matches in it leave it.
  abbrev pub WritesMasked : Bytes → Processor D → Ending D → Type 0
  WritesMasked value p (failed e q) = Unit
  WritesMasked value p (done q) =
      (out : Bytes) × (encoded : Bytes) × (found : Bool) × Masked (is_sensitive setup.rules value)
        (IsPlaceholder setup.rules) 0 value out
      × (json.marshal out ≡ some encoded)
      × (write_bytes json setup encoded (mark setup found p) ≡ done q)

  -- What `processStringValue` writes of a text in the mode that redacts: each byte outside the matches
  -- of the enabled rules, and a placeholder of an enabled rule for each run of bytes inside them.
  pub process_string_value-WritesMasked :
      (value : Bytes) (p : Processor D)
      → ArePatterns setup.rules
      → setup.mode ≡ redact
      → is_some p.output ≡ true
      → WritesMasked value p (process_string_value json setup value p)
  unfolding process_string_value check_text write_json_string write_bytes redact_text_part
  process_string_value-WritesMasked value p laws m o =
      by_search (aggregate_redaction_spans value setup.rules)
        (aggregate-AreSpans value setup.rules laws) (spans_unmatched value setup.rules laws)
    where
      shown :
          (spans : List RedactionSpan) (matched : Bool)
          → AreSpans setup.rules value spans
          → (matched ≡ false → spans ≡ [])
          → Sound
              (Masked (is_sensitive setup.rules value) (IsPlaceholder setup.rules) 0 value)
              (redacted_string json setup value (spans, matched))
      shown spans true known k = redact_text_part-Sound setup.rules laws value spans known value 0
      shown spans false known k =
          Masked-same (λ i _ _. sym (ap (λ s. any (reaches i) s) (k refl)) ∙ known.same i)
            (Masked-plain {secret = λ i. false} 0 value (λ i. refl))

      encoded :
          (found : Bool) (out : Bytes) (r : Option Bytes)
          → json.marshal out ≡ r
          → Masked (is_sensitive setup.rules value) (IsPlaceholder setup.rules) 0 value out
          → (o : Ending D) → write_encoded json setup (mark setup found p) r ≡ o
          → WritesMasked value p o
      encoded found out r e masked (failed x q) w = tt
      encoded found out none e masked (done q) w = absurd cc
      encoded found out (some text) e masked (done q) w = (out, text, found, masked, e, w)

      redacted :
          (found : Bool) (r : Result RedactionError Bytes)
          → Sound (Masked (is_sensitive setup.rules value) (IsPlaceholder setup.rules) 0 value) r
          → WritesMasked value p (write_redacted json setup (mark setup found p) r)
      redacted found (err e) k = tt
      redacted found (ok out) k = encoded found out (json.marshal out) refl k _ refl

      written :
          (spans : List RedactionSpan) (matched : Bool) (out : Option BoundedOutput)
          → is_some out ≡ true
          → AreSpans setup.rules value spans
          → (matched ≡ false → spans ≡ [])
          → WritesMasked value p (elim out [
            | none ↦ done (mark setup matched p)
            | some _ ↦
                write_redacted json setup
                  (mark setup matched p)
                  (redacted_string json setup value (spans, matched))
          ])
      written spans matched none h known k = absurd (ground (arith, h))
      written spans matched (some x) h known k =
          redacted matched (redacted_string json setup value (spans, matched))
            (shown spans matched known k)

      by_search :
          (r : Result RedactionError (List RedactionSpan × Bool))
          → WithinLimits (λ (r : List RedactionSpan × Bool). AreSpans setup.rules value r.0) r
          → WithinLimits (λ (r : List RedactionSpan × Bool). r.1 ≡ false → r.0 ≡ []) r
          → WritesMasked value p (searched_string json setup value p r)
      by_search (err e) known k = tt
      by_search (ok (spans, matched)) known k =
          if_elim
            (λ (checked : Ending D).
              WritesMasked value p (checked ▷ write_string json setup value (spans, matched)))
            (matched && is_block setup.mode) (λ _. tt)
            (λ _. written spans matched p.output o known k)
