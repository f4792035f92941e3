-- ===== src/Redaction/Parts.antt =====
-- internal/middleware/redaction.go: processSemanticMessageText, on the parts of a message.
use aegis_llm.Prelude.{
  ℕ, ◌+◌, ◌-◌, Bool, true, false, ◌&&◌, not, List, [], ◌∷◌, ◌++◌, Result, ok, err, ltb, ◌==◌,
  length, Bytes, if◌then◌else◌, ◌>>=◌,
}
use aegis_llm.Redaction.Rules.{
  RedactionSpan, RedactionError, json_limit, max_semantic_joined_text_bytes,
}
use aegis_llm.Redaction.Spans.{aggregate_redaction_spans}
use aegis_llm.Redaction.Text.{redact_text_part}
use aegis_llm.Redaction.Processor.{Processor, Ending, failed, Setup, ◌▷◌, check_text, is_detect}

-- `semanticContentPart`
pub record ContentPart : Type 0 where
  pub raw : Bytes
  pub is_text : Bool
  pub text : Bytes
  pub text_override : Bytes

-- The length of the text parts, within its bound.
unfoldable pub joined_bytes : List ContentPart → ℕ → Result RedactionError ℕ
joined_bytes [] n = ok n
joined_bytes (part ∷ parts) n =
    let rest = joined_bytes parts (if part.is_text then n + length part.text else n) in
    if part.is_text && ltb (max_semantic_joined_text_bytes - n) (length part.text)
    then err json_limit
    else rest

-- The texts of the text parts, one after the other.
unfoldable pub joined_text : List ContentPart → Bytes
joined_text [] = []
joined_text (part ∷ parts) =
    if part.is_text then part.text ++ joined_text parts else joined_text parts

-- What takes the place of a text.
abbrev pub override_of : Bool → ℕ → List RedactionSpan → ContentPart → Result RedactionError Bytes
unfolding redact_text_part
override_of replaces offset spans part =
    if replaces then redact_text_part part.text offset spans else ok part.text

abbrev pub overridden : ContentPart → ℕ → Bytes → Result RedactionError ContentPart
overridden part transformed override =
    if ltb (max_semantic_joined_text_bytes - transformed) (length override)
    then err json_limit
    else ok (record part { text_override = override })

-- The last loop: each text part gets its override.
unfoldable pub override_parts :
    Bool → List RedactionSpan → List ContentPart → ℕ → ℕ → Result RedactionError (List ContentPart)
override_parts replaces spans [] offset transformed = ok []
override_parts replaces spans (part ∷ parts) offset transformed = elim part.is_text [
  | false ↦ override_parts replaces spans parts offset transformed >>= (λ rest. ok (part ∷ rest))
  | true ↦ override_of replaces offset spans part >>= (λ override.
      overridden part transformed override >>= (λ new.
        override_parts replaces spans parts (offset + length part.text)
          (transformed + length override)
        >>= (λ rest. ok (new ∷ rest))))
]

module _ {D : Type 0} (setup : Setup) where
  abbrev pub with_parts :
      (List ContentPart → Processor D → Ending D)
      → Processor D
      → Result RedactionError (List ContentPart)
      → Ending D
  with_parts k p (ok parts) = k parts p
  with_parts k p (err e) = failed e p

  abbrev pub searched_parts :
      List ContentPart
      → (List ContentPart → Processor D → Ending D)
      → Processor D
      → Result RedactionError (List RedactionSpan × Bool)
      → Ending D
  unfolding override_parts check_text
  searched_parts parts k p (err e) = failed e p
  searched_parts parts k p (ok (spans, matched)) = check_text setup matched p ▷ (λ q.
      with_parts k q (override_parts (matched && not (is_detect setup.mode)) spans parts 0 0))

  abbrev pub measured_parts :
      List ContentPart
      → (List ContentPart → Processor D → Ending D)
      → Processor D
      → Result RedactionError ℕ
      → Ending D
  unfolding aggregate_redaction_spans joined_text
  measured_parts parts k p (err e) = failed e p
  measured_parts parts k p (ok n) =
      if n == 0
      then k parts p
      else searched_parts parts k p (aggregate_redaction_spans (joined_text parts) setup.rules)

  -- `processSemanticMessageText`, with what is done with the parts after it.
  unfoldable pub process_semantic_message_text :
      List ContentPart → (List ContentPart → Processor D → Ending D) → Processor D → Ending D
  unfolding joined_bytes
  process_semantic_message_text parts k p = measured_parts parts k p (joined_bytes parts 0)
