-- ===== src/Redaction/Structure.antt =====
-- internal/middleware/redaction.go: processObject and processArray.
use aegis_llm.Prelude.{
  ℕ, suc, zero, Bool, true, false, ◌&&◌, ◌||◌, not, List, [], ◌∷◌, ltb, ◌==◌, length, any, Bytes,
  codes, Option, none, some, if◌then◌else◌, str_eq,
}
use aegis_llm.Redaction.Rules.{
  json_limit, invalid_json, out_of_fuel, max_semantic_json_string_bytes,
  max_semantic_json_object_members, max_semantic_content_parts, rules_match_string,
}
use aegis_llm.Redaction.Number.{is_security_field_alias, is_content_part_field_alias}
use aegis_llm.Redaction.Processor.{
  Json, JsonToken, delim, string_token, number_token, bool_token, null_token, Setup, Processor,
  Ending, done, failed, ◌▷◌, check_fixed, write_bytes, write_json_string, with_token, count_value,
}
use aegis_llm.Redaction.Inspect.{value_fuel, member_fuel, text_key}

-- `semanticValueContext`
pub data Context : Type 0 where
  generic root messages message message_content content_part : Context

abbrev pub is_content_part : Context → Bool
is_content_part content_part = true
is_content_part generic = false
is_content_part root = false
is_content_part messages = false
is_content_part message = false
is_content_part message_content = false

-- The context of a member's value.
abbrev pub member_context : Context → Bytes → Context
member_context root key = if str_eq key (codes "messages") then messages else generic
member_context message key = if str_eq key (codes "content") then message_content else generic
member_context generic key = generic
member_context messages key = generic
member_context message_content key = generic
member_context content_part key = generic

abbrev pub element_context : Context → Context
element_context messages = message
element_context generic = generic
element_context root = generic
element_context message = generic
element_context message_content = generic
element_context content_part = generic

-- The fuel for the loop over the parts of a content array.
abbrev pub part_fuel : ℕ
part_fuel = suc max_semantic_content_parts

module _ {D : Type 0} (json : Json D) (setup : Setup) where
  -- How a value one level down is processed: its depth, its context, the override for the member
  -- `text` of a content part.
  abbrev pub Child : Type 0
  Child = ℕ → Context → Option Bytes → Processor D → Ending D

  abbrev pub closed_by : ℕ → Bytes → JsonToken → Processor D → Ending D
  unfolding write_bytes
  closed_by closing text (delim c) p =
      if c == closing then write_bytes json setup text p else failed invalid_json p
  closed_by closing text (string_token t) p = failed invalid_json p
  closed_by closing text (number_token t) p = failed invalid_json p
  closed_by closing text (bool_token b) p = failed invalid_json p
  closed_by closing text null_token p = failed invalid_json p

  -- The closing token, which is written.
  abbrev pub close : ℕ → Processor D → Ending D
  unfolding with_token
  close closing p = with_token json setup p (closed_by closing (closing ∷ []))

  abbrev pub override_value : Bytes → JsonToken → Processor D → Ending D
  unfolding write_json_string
  override_value override (string_token value) p =
      if ltb max_semantic_json_string_bytes (length value)
        || ltb max_semantic_json_string_bytes (length override)
      then failed json_limit p
      else write_json_string json setup override p
  override_value override (delim c) p = failed invalid_json p
  override_value override (number_token t) p = failed invalid_json p
  override_value override (bool_token b) p = failed invalid_json p
  override_value override null_token p = failed invalid_json p

  -- `processContentTextValue`
  unfoldable pub process_content_text_value : ℕ → Bytes → Processor D → Ending D
  unfolding count_value with_token
  process_content_text_value depth override p =
      count_value json setup depth p ▷ (λ q. with_token json setup q (override_value override))

  -- The value of a member: the text of a content part is overridden.
  abbrev pub member_value : Child → ℕ → Context → Option Bytes → Bytes → Processor D → Ending D
  unfolding process_content_text_value
  member_value child depth context none key p =
      child (suc depth) (member_context context key) none p
  member_value child depth context (some override) key p =
      if is_content_part context && str_eq key text_key
      then process_content_text_value (suc depth) override p
      else child (suc depth) (member_context context key) (some override) p

  abbrev pub write_separator : ℕ → Processor D → Ending D
  unfolding write_bytes
  write_separator before p = if before == 0 then done p else write_bytes json setup (codes ",") p

  -- A member whose name is accepted: the checks of the name, then what is written of it.
  abbrev pub process_key : ℕ → Context → ℕ → List Bytes → Bytes → Processor D → Ending D
  unfolding is_security_field_alias is_content_part_field_alias rules_match_string check_fixed
      write_bytes write_json_string
  process_key depth context members seen key p =
      if any (λ k. str_eq k key) seen
      then failed invalid_json p
      else (if depth == 0 && is_security_field_alias key
          then failed invalid_json p
          else (if is_content_part context && is_content_part_field_alias key
              then failed invalid_json p
              else (check_fixed setup (rules_match_string key setup.rules) p
                  ▷ write_separator members
                  ▷ write_json_string json setup key
                  ▷ write_bytes json setup (codes ":"))))

  abbrev pub member_key : (Bytes → Processor D → Ending D) → JsonToken → Processor D → Ending D
  member_key k (string_token key) p =
      if ltb max_semantic_json_string_bytes (length key) then failed json_limit p else k key p
  member_key k (delim c) p = failed invalid_json p
  member_key k (number_token t) p = failed invalid_json p
  member_key k (bool_token b) p = failed invalid_json p
  member_key k null_token p = failed invalid_json p

  -- The loop of `processObject`, with the members so far and their names.
  unfoldable pub object_loop :
      Child → ℕ → Context → Option Bytes → ℕ → ℕ → List Bytes → Processor D → Ending D
  unfolding with_token
  object_loop child depth context override zero members seen p = failed out_of_fuel p
  object_loop child depth context override (suc fuel) members seen p =
      if not (json.more p.decoder)
      then close b'}' p
      else (if ltb max_semantic_json_object_members (suc members)
          then failed json_limit p
          else with_token json setup p (
              member_key (λ key q.
                process_key depth context members seen key q
                ▷ member_value child depth context override key
                ▷ object_loop child depth context override fuel (suc members) (key ∷ seen))))

  -- `processObject`
  unfoldable pub process_object : Child → ℕ → Context → Option Bytes → Processor D → Ending D
  unfolding object_loop write_bytes
  process_object child depth context override p =
      write_bytes json setup (codes "{") p
      ▷ object_loop child depth context override member_fuel 0 []

  -- The loop of `processArray`, with the elements so far.
  unfoldable pub array_loop : Child → ℕ → Context → Option Bytes → ℕ → ℕ → Processor D → Ending D
  array_loop child depth context override zero items p = failed out_of_fuel p
  array_loop child depth context override (suc fuel) items p =
      if not (json.more p.decoder)
      then close b']' p
      else (write_separator items p
          ▷ child (suc depth) (element_context context) override
          ▷ array_loop child depth context override fuel (suc items))

  -- `processArray`
  unfoldable pub process_array : Child → ℕ → Context → Option Bytes → Processor D → Ending D
  unfolding array_loop write_bytes
  process_array child depth context override p =
      write_bytes json setup (codes "[") p ▷ array_loop child depth context override value_fuel 0
