-- ===== src/Redaction/Rules.antt =====
-- internal/middleware/redaction.go: the rules, their limits and their first search.
use aegis_llm.Prelude.{
  ℕ, ◌≡◌, ◌≢◌, ◌≤◌, Bool, true, false, ◌&&◌, List, [], ◌∷◌, Memᴰ, Bytes, codes, length, any,
}

-- A compiled `regexp.Regexp`: `MatchString`, and the successive matches that do not overlap, as
-- `FindAllStringIndex(value, -1)` gives them.
pub record Pattern : Type 0 where
  pub match_string : Bytes → Bool
  pub find_all : Bytes → List (ℕ × ℕ)

-- What the package regexp documents of them: a match is an interval of the text, and a text matches
-- when it has a match.
pub record IsPattern (p : Pattern) : Type 0 where
  pub inside :
      (value : Bytes) (m : ℕ × ℕ) → Memᴰ m (p.find_all value) → (m.0 ≤ m.1) × (m.1 ≤ length value)
  pub found : (value : Bytes) → p.match_string value ≡ true → p.find_all value ≢ []
  pub missed : (value : Bytes) → p.match_string value ≡ false → p.find_all value ≡ []

-- `RedactionMode`; a mode that is not one of the three behaves as `ModeRedact`.
pub data RedactionMode : Type 0 where
  detect redact block : RedactionMode

pub record RedactionRule : Type 0 where
  pub name : Bytes
  pub pattern : Pattern
  pub replacement : Bytes
  pub enabled : Bool

pub record RedactionSpan : Type 0 where
  pub start : ℕ
  pub end : ℕ
  pub replacement : Bytes
  pub match_width : ℕ

abbrev pub max_semantic_json_string_bytes : ℕ
max_semantic_json_string_bytes = 524288

abbrev pub max_semantic_content_part_bytes : ℕ
max_semantic_content_part_bytes = 1048576

abbrev pub max_semantic_content_array_bytes : ℕ
max_semantic_content_array_bytes = 1048576

abbrev pub max_semantic_joined_text_bytes : ℕ
max_semantic_joined_text_bytes = 524288

abbrev pub max_semantic_content_parts : ℕ
max_semantic_content_parts = 4096

abbrev pub max_semantic_redaction_matches : ℕ
max_semantic_redaction_matches = 1024

abbrev pub max_semantic_numeric_pii_digits : ℕ
max_semantic_numeric_pii_digits = 32

abbrev pub max_semantic_json_depth : ℕ
max_semantic_json_depth = 64

abbrev pub max_semantic_json_values : ℕ
max_semantic_json_values = 100000

abbrev pub max_semantic_json_object_members : ℕ
max_semantic_json_object_members = 4096

abbrev pub max_semantic_request_body_bytes : ℕ
max_semantic_request_body_bytes = 4194304

-- `errInvalidSemanticJSON`, `errSemanticJSONLimit`, `errSemanticPIIBlocked`; then two ways in which
-- a run of the model can end that are not errors of the code: a slice out of range, which panics, and the
-- end of the fuel.
pub data RedactionError : Type 0 where
  invalid_json json_limit pii_blocked slice_panic out_of_fuel : RedactionError

-- `rulesMatchString`
unfoldable pub rules_match_string : Bytes → List RedactionRule → Bool
rules_match_string value rules = any (λ rule. rule.enabled && rule.pattern.match_string value) rules

abbrev rule : (Bytes → Pattern) → Bytes → Bytes → Bytes → RedactionRule
rule compile name pattern replacement = record {
  name = name;
  pattern = compile pattern;
  replacement = replacement;
  enabled = true;
}

-- `DefaultRedactionRules`, with `regexp.MustCompile` as a parameter.
unfoldable pub default_redaction_rules : (Bytes → Pattern) → List RedactionRule
default_redaction_rules compile =
    rule compile (codes "email") (codes "[a-zA-Z0-9._%+-]+@[a-zA-Z0-9.-]+\\.[a-zA-Z]{2,}")
      (codes "[EMAIL_REDACTED]")
    ∷ rule compile (codes "phone_us")
        (codes "(\\+?1[-.\\s]?)?\\(?\\d{3}\\)?[-.\\s]?\\d{3}[-.\\s]?\\d{4}")
        (codes "[PHONE_REDACTED]")
    ∷ rule compile (codes "ssn") (codes "\\d{3}-\\d{2}-\\d{4}") (codes "[SSN_REDACTED]")
    ∷ rule compile (codes "credit_card")
        (codes "\\b\\d{4}[-\\s]?\\d{4}[-\\s]?\\d{4}[-\\s]?\\d{4}\\b") (codes "[CC_REDACTED]")
    ∷ rule compile (codes "api_key_pattern") (codes "(sk-[a-zA-Z0-9]{20,}|AKIA[A-Z0-9]{16})")
        (codes "[KEY_REDACTED]")
    ∷ rule compile (codes "china_id") (codes "\\b\\d{17}[\\dXx]\\b") (codes "[ID_REDACTED]")
    ∷ rule compile (codes "china_phone") (codes "\\b1[3-9]\\d{9}\\b") (codes "[PHONE_REDACTED]")
    ∷ []
