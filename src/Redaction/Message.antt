-- ===== src/Redaction/Message.antt =====
-- What processSemanticMessageText of internal/middleware/redaction.go makes of the parts of a message, in
-- the mode that redacts.
use mathlib.Core.Path.{subst}
use aegis_llm.Prelude.{
  ℕ, ◌+◌, ◌-◌, ◌≤◌, ◌==◌, ==_iff, ◌≡◌, refl, sym, ap, ◌∙◌, ◌⊎◌, inl, inr, Bool, true, false, not,
  ◌&&◌, List, [], ◌∷◌, ◌++◌, All, Result, ok, err, ltb, length, Bytes, arith, if_elim,
  if◌then◌else◌,
}
use aegis_llm.Redaction.Rules.{
  RedactionMode, redact, RedactionSpan, RedactionError, json_limit, pii_blocked,
  max_semantic_joined_text_bytes,
}
use aegis_llm.Redaction.Spans.{aggregate_redaction_spans}
use aegis_llm.Redaction.Cover.{is_sensitive, IsPlaceholder}
use aegis_llm.Redaction.Collect.{WithinLimits, ArePatterns, AreSpans, aggregate-AreSpans}
use aegis_llm.Redaction.Masked.{Masked, over}
use aegis_llm.Redaction.Inspected.{Sound, is_reported}
use aegis_llm.Redaction.Processor.{
  Setup, Processor, Ending, done, failed, ◌▷◌, is_block, is_detect, mark, check_text,
}
use aegis_llm.Redaction.Parts.{
  ContentPart, joined_bytes, joined_text, override_parts, with_parts, searched_parts,
  measured_parts, process_semantic_message_text,
}
use aegis_llm.Redaction.Written.{
  PartsMasked, no_parts, text_part, other_part, override_parts-PartsMasked, spans_unmatched,
}

-- The text of a message: the texts of its text parts in their order, with nothing between them.
abbrev pub text_of : ContentPart → Bytes
text_of part = if part.is_text then part.text else []

abbrev pub texts : List ContentPart → Bytes
texts [] = []
texts (part ∷ parts) = text_of part ++ texts parts

joined_text-texts : (parts : List ContentPart) → joined_text parts ≡ texts parts
unfolding joined_text
joined_text-texts [] = refl
joined_text-texts (part ∷ parts) = by_kind part.is_text (joined_text-texts parts)
  where
    by_kind :
        (b : Bool)
        → joined_text parts ≡ texts parts
        → (if b then part.text ++ joined_text parts else joined_text parts)
          ≡ ((if b then part.text else []) ++ texts parts)
    by_kind true e = ap (λ t. part.text ++ t) e
    by_kind false e = e

-- A part as it is read, which has no override yet.
abbrev pub IsFresh : ContentPart → Type 0
IsFresh part = part.text_override ≡ []

IsBlank : ContentPart → Type 0
IsBlank part = (part.is_text ≡ false) ⊎ (part.text ≡ [])

nil_of_length : (s : Bytes) → length s ≡ 0 → s ≡ []
nil_of_length [] h = refl
nil_of_length (a ∷ s) h = absurd (omega (arith, h))

-- Parts without a byte have no text.
joined_bytes-IsBlank :
    (parts : List ContentPart) (n m : ℕ)
    → joined_bytes parts n ≡ ok m
    → (n ≤ m) × (m ≡ n → All IsBlank parts)
unfolding joined_bytes IsBlank
joined_bytes-IsBlank [] n m q = (ground (arith, q), λ _. tt)
joined_bytes-IsBlank (part ∷ parts) n m q =
    if_elim
      (λ (r : Result RedactionError ℕ). r ≡ ok m → (n ≤ m) × (m ≡ n → All IsBlank (part ∷ parts)))
      (part.is_text && ltb (max_semantic_joined_text_bytes - n) (length part.text))
      {x = err json_limit}
      {y = joined_bytes parts (if part.is_text then n + length part.text else n)} (λ _ e. absurd cc)
      (λ _ e.
        by_kind part.is_text refl (joined_bytes-IsBlank parts (n + length part.text) m)
          (joined_bytes-IsBlank parts n m) e)
      q
  where
    by_kind :
        (b : Bool)
        → part.is_text ≡ b
        → (joined_bytes parts (n + length part.text) ≡ ok m
            → (n + length part.text ≤ m) × (m ≡ n + length part.text → All IsBlank parts))
        → (joined_bytes parts n ≡ ok m → (n ≤ m) × (m ≡ n → All IsBlank parts))
        → joined_bytes parts (if b then n + length part.text else n) ≡ ok m
        → (n ≤ m) × (m ≡ n → All IsBlank (part ∷ parts))
    by_kind true t long short e =
        let (most, blank) = long e in
        (
          omega (arith, most),
          λ h. (
            inr (nil_of_length part.text (omega (arith, most, h))),
            blank (omega (arith, most, h)),
          ),
        )
    by_kind false t long short e = let (most, blank) = short e in (most, λ h. (inl t, blank h))

joined_bytes-reported :
    (parts : List ContentPart) (n : ℕ) {e : RedactionError}
    → joined_bytes parts n ≡ err e
    → is_reported e ≡ true
unfolding joined_bytes
joined_bytes-reported [] n q = absurd cc
joined_bytes-reported (part ∷ parts) n {e} q =
    if_elim (λ (r : Result RedactionError ℕ). r ≡ err e → is_reported e ≡ true)
      (part.is_text && ltb (max_semantic_joined_text_bytes - n) (length part.text))
      {x = err json_limit}
      {y = joined_bytes parts (if part.is_text then n + length part.text else n)}
      (λ _ h. ground (arith, h))
      (λ _ h. joined_bytes-reported parts (if part.is_text then n + length part.text else n) h) q

module _ {secret : ℕ → Bool} {Placeholder : Bytes → Type 0} where
  -- Parts without a text may stay as they are.
  PartsMasked-blank :
      (at : ℕ) (parts : List ContentPart)
      → All IsFresh parts
      → All IsBlank parts
      → PartsMasked secret Placeholder at parts parts
  unfolding IsBlank
  PartsMasked-blank at [] fresh blank = no_parts at
  PartsMasked-blank at (part ∷ parts) fresh blank =
      by_kind part.is_text refl blank.0 (λ next. PartsMasked-blank next parts fresh.1 blank.1)
    where
      by_kind :
          (b : Bool)
          → part.is_text ≡ b
          → (part.is_text ≡ false) ⊎ (part.text ≡ [])
          → ((next : ℕ) → PartsMasked secret Placeholder next parts parts)
          → PartsMasked secret Placeholder at (part ∷ parts) (part ∷ parts)
      by_kind false t h rest = other_part at part parts parts t (rest at)
      by_kind true t (inl f) rest = absurd cc
      by_kind true t (inr e) rest =
          subst (λ o. PartsMasked secret Placeholder at (part ∷ parts) (o ∷ parts))
            (λ i. record part { text_override = sym fresh.0 i })
            (text_part at part [] parts parts t
              (subst (λ s. Masked secret Placeholder at s []) (sym e) (over at))
              (rest (at + length part.text)))

module _ {D : Type 0} (setup : Setup) (parts : List ContentPart)
    (k : List ContentPart → Processor D → Ending D) where
  -- How the step ends, where a text is the one of the message: with an error that the code reports, or
  -- with what is done with parts of which each text is masked at its place in the text.
  pub data EndsMasked (text : Bytes) : Ending D → Type 0 where
    stopped :
        (e : RedactionError) (q : Processor D) → is_reported e ≡ true → EndsMasked text (failed e q)
    went_on :
        (news : List ContentPart) (q : Processor D)
        → PartsMasked (is_sensitive setup.rules text) (IsPlaceholder setup.rules) 0 parts news
        → EndsMasked text (k news q)

  module _ (laws : ArePatterns setup.rules) (mode : setup.mode ≡ redact) (p : Processor D) where
    with_parts-EndsMasked :
        (r : Result RedactionError (List ContentPart)) (q : Processor D)
        → Sound
            (PartsMasked
              (is_sensitive setup.rules (joined_text parts))
              (IsPlaceholder setup.rules)
              0
              parts)
            r
        → EndsMasked (joined_text parts) (with_parts setup k q r)
    with_parts-EndsMasked (err e) q h = stopped e q h
    with_parts-EndsMasked (ok news) q h = went_on news q h

    replaces_matched : (matched : Bool) → (matched && not (is_detect setup.mode)) ≡ matched
    replaces_matched true = ap (λ m. not (is_detect m)) mode
    replaces_matched false = refl

    check_text-done : (matched : Bool) → check_text setup matched p ≡ done (mark setup matched p)
    unfolding check_text
    check_text-done true =
        ap
          (λ (m : RedactionMode).
            if is_block m then failed pii_blocked (mark setup true p) else done (mark setup true p))
          mode
    check_text-done false = refl

    searched_parts-EndsMasked :
        (r : Result RedactionError (List RedactionSpan × Bool))
        → WithinLimits
            (λ (r : List RedactionSpan × Bool). AreSpans setup.rules (joined_text parts) r.0)
            r
        → WithinLimits (λ (r : List RedactionSpan × Bool). r.1 ≡ false → r.0 ≡ []) r
        → EndsMasked (joined_text parts) (searched_parts setup parts k p r)
    unfolding override_parts check_text
    searched_parts-EndsMasked (err e) known none = stopped e p (rw known refl)
    searched_parts-EndsMasked (ok (spans, matched)) known unmatched =
        subst
          (λ o. EndsMasked (joined_text parts) (
            o ▷ (λ q.
              with_parts setup k q
                (override_parts (matched && not (is_detect setup.mode)) spans parts 0 0))))
          (sym (check_text-done matched))
          (with_parts-EndsMasked
            (override_parts (matched && not (is_detect setup.mode)) spans parts 0 0)
            (mark setup matched p)
            (override_parts-PartsMasked setup.rules laws (joined_text parts) spans known
              (matched && not (is_detect setup.mode))
              (λ e. unmatched (sym (replaces_matched matched) ∙ e)) parts 0 0))

    measured_parts-EndsMasked :
        (r : Result RedactionError ℕ)
        → All IsFresh parts
        → joined_bytes parts 0 ≡ r
        → EndsMasked (joined_text parts) (measured_parts setup parts k p r)
    unfolding aggregate_redaction_spans joined_text
    measured_parts-EndsMasked (err e) fresh q = stopped e p (joined_bytes-reported parts 0 q)
    measured_parts-EndsMasked (ok n) fresh q =
        if_elim (EndsMasked (joined_text parts)) (n == 0)
          (λ e. went_on parts p (
            PartsMasked-blank 0 parts fresh
              ((joined_bytes-IsBlank parts 0 n q).1 ((==_iff n 0).0 e))))
          (λ _.
            searched_parts-EndsMasked (aggregate_redaction_spans (joined_text parts) setup.rules)
              (aggregate-AreSpans (joined_text parts) setup.rules laws)
              (spans_unmatched (joined_text parts) setup.rules laws))

  -- In the mode that redacts, from parts without overrides, processSemanticMessageText either stops with an
  -- error that the code reports, or goes on with parts in which each text part has an override that is
  -- masked by the matches in the text of the message, also where a match spans several parts, and the
  -- others are as they were. The text of the message is the texts of its text parts, one after the other.
  pub message_parts-PartsMasked :
      (p : Processor D)
      → ArePatterns setup.rules
      → setup.mode ≡ redact
      → All IsFresh parts
      → EndsMasked (texts parts) (process_semantic_message_text setup parts k p)
  unfolding process_semantic_message_text
  message_parts-PartsMasked p laws mode fresh =
      subst (λ t. EndsMasked t (measured_parts setup parts k p (joined_bytes parts 0)))
        (joined_text-texts parts)
        (measured_parts-EndsMasked laws mode p (joined_bytes parts 0) fresh refl)
