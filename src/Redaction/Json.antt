-- ===== src/Redaction/Json.antt =====
-- internal/middleware/redaction.go: ProcessJSON, which reads a body token by token.
use aegis_llm.Prelude.{
  ℕ, suc, zero, ◌+◌, ◌-◌, Bool, false, ◌||◌, not, List, [], ◌∷◌, ◌++◌, Result, ok, err, ltb, leb,
  ◌==◌, length, Bytes, codes, Option, none, some, if◌then◌else◌, ℤ, pos, leb_ℤ, pos_part,
}
use aegis_llm.Redaction.Rules.{
  RedactionRule, RedactionMode, detect, redact, block, RedactionError, json_limit, invalid_json,
  out_of_fuel, max_semantic_json_string_bytes, max_semantic_content_parts,
  max_semantic_content_part_bytes, max_semantic_content_array_bytes,
  max_semantic_request_body_bytes,
}
use aegis_llm.Redaction.Spans.{min}
use aegis_llm.Redaction.Processor.{
  Json, JsonToken, delim, string_token, number_token, bool_token, null_token, token, end_of_input,
  malformed, BoundedOutput, new_bounded_output, Setup, Processor, Ending, done, failed, ◌▷◌,
  write_bytes, with_token, count_value, process_string_value, process_number,
}
use aegis_llm.Redaction.Inspect.{inspect_semantic_text_content_part, depth_fuel}
use aegis_llm.Redaction.Parts.{ContentPart, process_semantic_message_text}
use aegis_llm.Redaction.Structure.{
  Context, generic, root, messages, message, message_content, content_part, Child, part_fuel,
  write_separator, process_object, process_array,
}

module _ {D : Type 0} (json : Json D) (setup : Setup) where
  abbrev pub Parts : Type 0
  Parts = List ContentPart

  abbrev pub read_part : Bytes → Bool × Bytes → ContentPart
  read_part raw (is_text, text) = record {
    raw = raw;
    is_text = is_text;
    text = text;
    text_override = [];
  }

  abbrev pub with_inspected :
      Bytes
      → (ContentPart → Processor D → Ending D)
      → Processor D
      → Result RedactionError (Bool × Bytes)
      → Ending D
  with_inspected raw k p (ok inspected) = k (read_part raw inspected) p
  with_inspected raw k p (err e) = failed e p

  -- A raw part within its bounds, inspected.
  abbrev pub with_raw :
      ℕ → (ContentPart → Processor D → Ending D) → Processor D → D × Option Bytes → Ending D
  unfolding inspect_semantic_text_content_part
  with_raw raw_bytes k p (d, none) = failed invalid_json (record p { decoder = d })
  with_raw raw_bytes k p (d, some raw) =
      let q = record p { decoder = d } in
      if ltb max_semantic_content_part_bytes (length raw)
        || ltb (max_semantic_content_array_bytes - raw_bytes) (length raw)
      then failed json_limit q
      else with_inspected raw k q (inspect_semantic_text_content_part json raw)

  abbrev pub closed_array : JsonToken → Processor D → Ending D
  closed_array (delim c) p = if c == b']' then done p else failed invalid_json p
  closed_array (string_token t) p = failed invalid_json p
  closed_array (number_token t) p = failed invalid_json p
  closed_array (bool_token b) p = failed invalid_json p
  closed_array null_token p = failed invalid_json p

  -- The first loop of `processContentPartsArray`: the parts, up to the closing token.
  unfoldable pub parts_loop :
      (Parts → Processor D → Ending D) → ℕ → Parts → ℕ → Processor D → Ending D
  unfolding with_token
  parts_loop k zero parts raw_bytes p = failed out_of_fuel p
  parts_loop k (suc fuel) parts raw_bytes p =
      if not (json.more p.decoder)
      then (with_token json setup p closed_array ▷ k parts)
      else (if leb max_semantic_content_parts (length parts)
          then failed json_limit p
          else with_raw raw_bytes
              (λ part. parts_loop k fuel (parts ++ (part ∷ [])) (raw_bytes + length part.raw)) p
              (json.raw p.decoder))

  -- What is left of the processor of a content part: the input of the part must end.
  abbrev pub resume : Processor D → Ending D → Ending D
  resume p (failed e sub) = failed e (record sub { decoder = p.decoder })
  resume p (done sub) = elim (json.next sub.decoder).1 [
    | end_of_input ↦ done (record sub { decoder = p.decoder })
    | token t ↦ failed invalid_json (record p { output = sub.output })
    | malformed ↦ failed invalid_json (record p { output = sub.output })
  ]

  abbrev pub override_for : ContentPart → Option Bytes
  override_for part = if part.is_text then some part.text_override else none

  -- `processContentPartRaw`
  abbrev pub process_content_part_raw : Child json setup → ContentPart → ℕ → Processor D → Ending D
  process_content_part_raw child part depth p =
      resume p
        (child depth content_part (override_for part) (record p { decoder = json.start part.raw }))

  -- The second loop of `processContentPartsArray`: the parts, from an index on.
  unfoldable pub write_parts : Child json setup → ℕ → Parts → ℕ → Processor D → Ending D
  write_parts child depth [] index p = done p
  write_parts child depth (part ∷ parts) index p =
      write_separator json setup index p
      ▷ process_content_part_raw child part (suc depth)
      ▷ write_parts child depth parts (suc index)

  -- What `processContentPartsArray` does with the parts it has read.
  abbrev pub process_parts : Child json setup → ℕ → Parts → Processor D → Ending D
  unfolding process_semantic_message_text write_parts write_bytes
  process_parts child depth parts =
      process_semantic_message_text setup parts
        (λ parts q. write_parts child depth parts 0 q ▷ write_bytes json setup (codes "]"))

  -- `processContentPartsArray`
  unfoldable pub process_content_parts_array : Child json setup → ℕ → Processor D → Ending D
  unfolding parts_loop write_bytes
  process_content_parts_array child depth p =
      write_bytes json setup (codes "[") p ▷ parts_loop (process_parts child depth) part_fuel [] 0

  abbrev pub process_list : Child json setup → ℕ → Context → Option Bytes → Processor D → Ending D
  unfolding process_array process_content_parts_array
  process_list child depth message_content override p = process_content_parts_array child depth p
  process_list child depth generic override p =
      process_array json setup child depth generic override p
  process_list child depth root override p = process_array json setup child depth root override p
  process_list child depth messages override p =
      process_array json setup child depth messages override p
  process_list child depth message override p =
      process_array json setup child depth message override p
  process_list child depth content_part override p =
      process_array json setup child depth content_part override p

  -- A value from its first token on.
  abbrev pub process_token :
      Child json setup → ℕ → Context → Option Bytes → JsonToken → Processor D → Ending D
  unfolding process_object process_string_value process_number write_bytes
  process_token child depth context override (delim c) p =
      if c == b'{'
      then process_object json setup child depth context override p
      else (if c == b'['
          then process_list child depth context override p
          else failed invalid_json p)
  process_token child depth context override (string_token value) p =
      if ltb max_semantic_json_string_bytes (length value)
      then failed json_limit p
      else process_string_value json setup value p
  process_token child depth context override (number_token raw) p = process_number json setup raw p
  process_token child depth context override (bool_token b) p =
      write_bytes json setup (if b then codes "true" else codes "false") p
  process_token child depth context override null_token p = write_bytes json setup (codes "null") p

  -- `processValue`, on fuel for the depth.
  unfoldable pub process_value : ℕ → ℕ → Context → Option Bytes → Processor D → Ending D
  unfolding count_value with_token
  process_value zero depth context override p = failed out_of_fuel p
  process_value (suc fuel) depth context override p =
      count_value json setup depth p
      ▷ (λ q. with_token json setup q (process_token (process_value fuel) depth context override))

-- What `ProcessJSON` answers: the canonical body, if there is one, or an error; and whether a rule
-- matched.
pub data Processed : Type 0 where
  processed : Option Bytes → Bool → Processed
  refused : RedactionError → Bool → Processed

-- `piiScanner`, without its lock.
pub record PiiScanner : Type 0 where
  pub mode : RedactionMode
  pub rules : List RedactionRule

abbrev pub output_for : RedactionMode → ℕ → Option BoundedOutput
output_for detect limit = none
output_for block limit = none
output_for redact limit = some (new_bounded_output limit)

abbrev pub output_bytes : Option BoundedOutput → Option Bytes
output_bytes none = none
output_bytes (some o) = some o.bytes

module _ {D : Type 0} (json : Json D) (scanner : PiiScanner) where
  abbrev pub setup_for : ℕ → Setup
  setup_for output_max = record {
    mode = scanner.mode;
    rules = scanner.rules;
    output_max = output_max;
  }

  abbrev pub new_processor : Bytes → ℕ → Processor D
  new_processor body output_max = record {
    decoder = json.start body;
    output = output_for scanner.mode output_max;
    values = 0;
    found_pii = false;
  }

  -- The one value must end the input.
  abbrev pub finish : Ending D → Processed
  finish (failed e p) = refused e p.found_pii
  finish (done p) = elim (json.next p.decoder).1 [
    | end_of_input ↦ processed (output_bytes p.output) p.found_pii
    | token t ↦ refused invalid_json p.found_pii
    | malformed ↦ refused invalid_json p.found_pii
  ]

  -- `ProcessJSON`
  unfoldable pub process_json : Bytes → ℤ → Processed
  unfolding process_value
  process_json body output_max =
      let limit = min (pos_part output_max) max_semantic_request_body_bytes in
      if ltb max_semantic_request_body_bytes (length body) || leb_ℤ output_max (pos 0)
      then refused json_limit false
      else finish
          (process_value json (setup_for limit) depth_fuel 0 root none (new_processor body limit))
