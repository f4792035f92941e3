-- ===== src/Redaction/Tests.antt =====
-- The redaction of internal/middleware/redaction.go at concrete texts and documents.
use aegis_llm.Prelude.{◌≡◌, refl, true, none, some, ok, List, [], ◌∷◌, Bytes, codes, pos, str_eq}
use aegis_llm.Redaction.Rules.{redact, block, RedactionSpan}
use aegis_llm.Redaction.Text.{redact_text_part}
use aegis_llm.Redaction.Number.{canonical_numeric_pii_candidate, is_security_field_alias}
use aegis_llm.Redaction.Processor.{
  JsonToken, string_token, Processor, Ending, done, process_string_value,
}
use aegis_llm.Redaction.Parts.{ContentPart, process_semantic_message_text}
use aegis_llm.Redaction.Json.{process_json, setup_for, new_processor}
use aegis_llm.Redaction.Answers.{IsAnswer, IsWithin, process_json-IsAnswer, process_json-IsWithin}
use aegis_llm.Redaction.Written.{WritesMasked, process_string_value-WritesMasked}
use aegis_llm.Redaction.Message.{EndsMasked, texts, message_parts-PartsMasked}
use aegis_llm.Redaction.Sample.{seven-IsPattern, scanner, note}

abbrev value : List JsonToken
value = string_token (codes "a77b7") ∷ []

abbrev spans : List RedactionSpan
spans =
    record { start = 1; end = 3; replacement = codes "[X]"; match_width = 2 }
    ∷ record { start = 4; end = 5; replacement = codes "[Y]"; match_width = 1 }
    ∷ []

-- A part from position 2 on: a span that starts before it is replaced in it too.
redacted_part : redact_text_part (codes "77b7c") 2 spans ≡ ok (codes "[X]7[Y]7c")
unfolding redact_text_part
redacted_part = refl

-- 0.15e2 is 15, and 1.5 is no integer.
candidate_integer : canonical_numeric_pii_candidate (codes "0.15e2") ≡ ok (some (codes "15"))
unfolding canonical_numeric_pii_candidate
candidate_integer = refl

candidate_fraction : canonical_numeric_pii_candidate (codes "-1.5") ≡ ok none
unfolding canonical_numeric_pii_candidate
candidate_fraction = refl

alias_model : is_security_field_alias (codes "Model") ≡ true
unfolding is_security_field_alias str_eq
alias_model = refl

process_string_value-WritesMasked_example :
    WritesMasked
      (note value)
      (setup_for (note value) (scanner redact) 100)
      (codes "a77b7")
      (new_processor (note value) (scanner redact) [] 100)
      (process_string_value
        (note value)
        (setup_for (note value) (scanner redact) 100)
        (codes "a77b7")
        (new_processor (note value) (scanner redact) [] 100))
process_string_value-WritesMasked_example =
    process_string_value-WritesMasked (note value) (setup_for (note value) (scanner redact) 100)
      (codes "a77b7") (new_processor (note value) (scanner redact) [] 100) (seven-IsPattern, tt)
      refl refl

abbrev part : Bytes → ContentPart
part text = record { raw = []; is_text = true; text = text; text_override = [] }

-- Two parts `a7` and `7b`.
abbrev split_sevens : List ContentPart
split_sevens = part (codes "a7") ∷ part (codes "7b") ∷ []

abbrev finish : List ContentPart → Processor (List JsonToken) → Ending (List JsonToken)
finish parts p = done p

message_parts-PartsMasked_example :
    EndsMasked
      (setup_for (note value) (scanner redact) 100)
      split_sevens
      finish
      (texts split_sevens)
      (process_semantic_message_text
        (setup_for (note value) (scanner redact) 100)
        split_sevens
        finish
        (new_processor (note value) (scanner redact) [] 100))
message_parts-PartsMasked_example =
    message_parts-PartsMasked (setup_for (note value) (scanner redact) 100) split_sevens finish
      (new_processor (note value) (scanner redact) [] 100) (seven-IsPattern, tt) refl
      (refl, (refl, tt))

process_json-IsAnswer_example :
    IsAnswer (process_json (note value) (scanner block) (codes "body") (pos 100))
process_json-IsAnswer_example =
    process_json-IsAnswer (note value) (scanner block) (seven-IsPattern, tt) (codes "body")
      (pos 100)

process_json-IsWithin_example :
    IsWithin (pos 100) (process_json (note value) (scanner redact) (codes "body") (pos 100))
process_json-IsWithin_example =
    process_json-IsWithin (note value) (scanner redact) (seven-IsPattern, tt) (codes "body")
      (pos 100)
