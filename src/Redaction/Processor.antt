-- ===== src/Redaction/Processor.antt =====
-- internal/middleware/redaction.go: the state of the JSON processor and what it writes.
use aegis_llm.Prelude.{
  ℕ, suc, ◌+◌, ◌-◌, ◌*◌, Bool, true, false, ◌&&◌, List, [], ◌++◌, Result, ok, err, ltb, length,
  Bytes, Option, none, some, if◌then◌else◌,
}
use aegis_llm.Redaction.Rules.{
  RedactionRule, RedactionSpan, RedactionMode, detect, redact, block, RedactionError, json_limit,
  invalid_json, pii_blocked, max_semantic_json_string_bytes, max_semantic_json_depth,
  max_semantic_json_values, rules_match_string,
}
use aegis_llm.Redaction.Spans.{max, min, aggregate_redaction_spans}
use aegis_llm.Redaction.Text.{redact_text_part}
use aegis_llm.Redaction.Number.{canonical_numeric_pii_candidate}

-- `json.Token` under `UseNumber`.
pub data JsonToken : Type 0 where
  delim : ℕ → JsonToken
  string_token number_token : Bytes → JsonToken
  bool_token : Bool → JsonToken
  null_token : JsonToken

pub data TokenResult : Type 0 where
  token : JsonToken → TokenResult
  end_of_input malformed : TokenResult

-- What the code uses of the package encoding/json: a decoder over some bytes, its `Token`, its `More`, its
-- `Decode` into a `RawMessage`; and `Marshal` of a text.
pub record Json (D : Type 0) : Type 0 where
  pub start : Bytes → D
  pub next : D → D × TokenResult
  pub more : D → Bool
  pub raw : D → D × Option Bytes
  pub marshal : Bytes → Option Bytes

-- `boundedSemanticOutput`
pub record BoundedOutput : Type 0 where
  pub bytes : Bytes
  pub capacity : ℕ
  pub limit : ℕ

-- `newBoundedSemanticOutput`
abbrev pub new_bounded_output : ℕ → BoundedOutput
new_bounded_output limit = record { bytes = []; capacity = min limit 32768; limit = limit }

-- The capacity that `append` gets for what it needs.
abbrev pub grown_capacity : ℕ → BoundedOutput → ℕ
grown_capacity needed o =
    if ltb o.capacity needed then min (max needed (o.capacity * 2)) o.limit else o.capacity

-- `append`
unfoldable pub append_output : Bytes → BoundedOutput → Result RedactionError BoundedOutput
append_output value o =
    if ltb (o.limit - length o.bytes) (length value)
    then err json_limit
    else ok (record o {
      bytes = o.bytes ++ value;
      capacity = grown_capacity (length o.bytes + length value) o;
    })

-- The fields of `semanticJSONProcessor` that do not change.
pub record Setup : Type 0 where
  pub mode : RedactionMode
  pub rules : List RedactionRule
  pub output_max : ℕ

pub record Processor (D : Type 0) : Type 0 where
  pub decoder : D
  pub output : Option BoundedOutput
  pub values : ℕ
  pub found_pii : Bool

-- A call that ends without an error, or with one.
pub data Ending (D : Type 0) : Type 0 where
  done : Processor D → Ending D
  failed : RedactionError → Processor D → Ending D

infixl 5 ◌▷◌
abbrev pub ◌▷◌ : {D : Type 0} → Ending D → (Processor D → Ending D) → Ending D
done p ▷ k = k p
failed e p ▷ k = failed e p

abbrev pub is_detect : RedactionMode → Bool
is_detect detect = true
is_detect redact = false
is_detect block = false

abbrev pub is_block : RedactionMode → Bool
is_block block = true
is_block redact = false
is_block detect = false

module _ {D : Type 0} (setup : Setup) where
  -- `p.foundPII = true`, if a rule matched.
  abbrev pub mark : Bool → Processor D → Processor D
  mark matched p = record p { found_pii = if matched then true else p.found_pii }

  -- What is done when a rule matched, or not, where nothing can be replaced.
  unfoldable pub check_fixed : Bool → Processor D → Ending D
  check_fixed matched p =
      if matched
      then (if is_detect setup.mode then done (mark true p) else failed pii_blocked (mark true p))
      else done p

  -- What is done when a rule matched, or not, where the text can be replaced.
  unfoldable pub check_text : Bool → Processor D → Ending D
  check_text matched p =
      let marked = mark matched p in
      if matched && is_block setup.mode then failed pii_blocked marked else done marked

module _ {D : Type 0} (json : Json D) (setup : Setup) where
  abbrev pub appended : Processor D → Result RedactionError BoundedOutput → Ending D
  appended p (ok grown) = done (record p { output = some grown })
  appended p (err e) = failed e p

  abbrev pub write_into : Bytes → Processor D → Option BoundedOutput → Ending D
  unfolding append_output
  write_into value p none = done p
  write_into value p (some o) =
      if ltb (setup.output_max - length o.bytes) (length value)
      then failed json_limit p
      else appended p (append_output value o)

  -- `writeBytes`, which `writeString` is.
  unfoldable pub write_bytes : Bytes → Processor D → Ending D
  write_bytes value p = write_into value p p.output

  abbrev pub write_encoded : Processor D → Option Bytes → Ending D
  unfolding write_bytes
  write_encoded p none = failed invalid_json p
  write_encoded p (some encoded) = write_bytes encoded p

  -- `writeJSONString`
  unfoldable pub write_json_string : Bytes → Processor D → Ending D
  write_json_string value p = write_encoded p (json.marshal value)

  abbrev pub taken : Processor D → (JsonToken → Processor D → Ending D) → D × TokenResult → Ending D
  taken p k (d, token t) = k t (record p { decoder = d })
  taken p k (d, end_of_input) = failed invalid_json (record p { decoder = d })
  taken p k (d, malformed) = failed invalid_json (record p { decoder = d })

  -- The next token, or `errInvalidSemanticJSON`.
  unfoldable pub with_token : Processor D → (JsonToken → Processor D → Ending D) → Ending D
  with_token p k = taken p k (json.next p.decoder)

  -- The bounds at the head of `processValue` and `processContentTextValue`.
  unfoldable pub count_value : ℕ → Processor D → Ending D
  count_value depth p =
      if ltb max_semantic_json_depth depth
      then failed json_limit p
      else (let counted = record p { values = suc p.values } in
          if ltb max_semantic_json_values counted.values
          then failed json_limit counted
          else done counted)

  abbrev pub write_redacted : Processor D → Result RedactionError Bytes → Ending D
  unfolding write_json_string
  write_redacted p (err e) = failed e p
  write_redacted p (ok redacted) = write_json_string redacted p

  -- A text as the spans of its matches leave it.
  abbrev pub redacted_string : Bytes → List RedactionSpan × Bool → Result RedactionError Bytes
  unfolding redact_text_part
  redacted_string value (spans, matched) =
      if matched then redact_text_part value 0 spans else ok value

  abbrev pub write_string : Bytes → List RedactionSpan × Bool → Processor D → Ending D
  write_string value searched p = elim p.output [
    | none ↦ done p
    | some _ ↦ write_redacted p (redacted_string value searched)
  ]

  abbrev pub searched_string :
      Bytes → Processor D → Result RedactionError (List RedactionSpan × Bool) → Ending D
  unfolding check_text
  searched_string value p (err e) = failed e p
  searched_string value p (ok searched) =
      check_text setup searched.1 p ▷ write_string value searched

  -- `processStringValue`
  unfoldable pub process_string_value : Bytes → Processor D → Ending D
  unfolding aggregate_redaction_spans
  process_string_value value p =
      searched_string value p (aggregate_redaction_spans value setup.rules)

  abbrev pub by_candidate : Bytes → Processor D → Result RedactionError (Option Bytes) → Ending D
  unfolding rules_match_string write_bytes check_fixed
  by_candidate raw p (err e) = failed e p
  by_candidate raw p (ok none) = write_bytes raw p
  by_candidate raw p (ok (some integer)) =
      check_fixed setup (rules_match_string integer setup.rules) p ▷ write_bytes raw

  -- The case of a number of `processValue`.
  unfoldable pub process_number : Bytes → Processor D → Ending D
  unfolding rules_match_string canonical_numeric_pii_candidate write_bytes check_fixed
  process_number raw p =
      if ltb max_semantic_json_string_bytes (length raw)
      then failed json_limit p
      else (if rules_match_string raw setup.rules
          then (check_fixed setup true p ▷ write_bytes raw)
          else by_candidate raw p (canonical_numeric_pii_candidate raw))
