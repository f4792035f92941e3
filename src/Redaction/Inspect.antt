-- ===== src/Redaction/Inspect.antt =====
-- internal/middleware/redaction.go: the bounded inspection of a content part.
use aegis_llm.Prelude.{
  ℕ, suc, zero, Bool, true, false, ◌&&◌, ◌||◌, not, [], Result, ok, err, ltb, ◌==◌, length, Bytes,
  codes, if◌then◌else◌, str_eq, ◌>>=◌,
}
use aegis_llm.Redaction.Rules.{
  RedactionError, json_limit, invalid_json, out_of_fuel, max_semantic_json_string_bytes,
  max_semantic_json_depth, max_semantic_json_values, max_semantic_json_object_members,
}
use aegis_llm.Redaction.Number.{is_content_part_field_alias}
use aegis_llm.Redaction.Processor.{
  Json, JsonToken, delim, string_token, number_token, bool_token, null_token, TokenResult, token,
  end_of_input, malformed,
}

-- The decoder of a content part, and the number of its values so far.
pub record Inspection (D : Type 0) : Type 0 where
  pub decoder : D
  pub values : ℕ

abbrev pub Inspected : Type 0 → Type 0
Inspected D = Result RedactionError (Inspection D)

-- A bound on the values of a run, for the fuel of its loops.
abbrev pub value_fuel : ℕ
value_fuel = suc max_semantic_json_values

abbrev pub member_fuel : ℕ
member_fuel = suc max_semantic_json_object_members

-- A value at depth 0 is at most this deep, and one more is refused.
abbrev pub depth_fuel : ℕ
depth_fuel = suc (suc max_semantic_json_depth)

-- What a content part shows of its fields `type` and `text`.
pub record PartFields : Type 0 where
  pub seen_type : Bool
  pub seen_text : Bool
  pub part_type : Bytes
  pub text : Bytes
  pub text_is_string : Bool

abbrev pub type_key : Bytes
type_key = codes "type"

abbrev pub text_key : Bytes
text_key = codes "text"

-- A name seen before is refused.
abbrev pub see_key : Bytes → PartFields → Result RedactionError PartFields
see_key key f =
    if str_eq key type_key
    then (if f.seen_type then err invalid_json else ok (record f { seen_type = true }))
    else (if str_eq key text_key
        then (if f.seen_text then err invalid_json else ok (record f { seen_text = true }))
        else ok f)

abbrev pub see_value : Bytes → JsonToken → PartFields → PartFields
see_value key (string_token value) f =
    if str_eq key type_key
    then record f { part_type = value }
    else (if str_eq key text_key then record f { text = value; text_is_string = true } else f)
see_value key (delim c) f = f
see_value key (number_token t) f = f
see_value key (bool_token b) f = f
see_value key null_token f = f

abbrev pub is_text_part : PartFields → Bool
is_text_part f = str_eq f.part_type text_key && f.seen_text && f.text_is_string

module _ {D : Type 0} (json : Json D) where
  -- The next token, or `errInvalidSemanticJSON`.
  abbrev pub read_token :
      Inspection D → D × TokenResult → Result RedactionError (JsonToken × Inspection D)
  read_token s (d, token t) = ok (t, record s { decoder = d })
  read_token s (d, end_of_input) = err invalid_json
  read_token s (d, malformed) = err invalid_json

  unfoldable pub inspect_token : Inspection D → Result RedactionError (JsonToken × Inspection D)
  inspect_token s = read_token s (json.next s.decoder)

  abbrev pub closed_by : ℕ → JsonToken × Inspection D → Inspected D
  closed_by closing (delim c, s) = if c == closing then ok s else err invalid_json
  closed_by closing (string_token t, s) = err invalid_json
  closed_by closing (number_token t, s) = err invalid_json
  closed_by closing (bool_token b, s) = err invalid_json
  closed_by closing (null_token, s) = err invalid_json

  abbrev pub inspect_closing : ℕ → Inspection D → Inspected D
  unfolding inspect_token
  inspect_closing closing s = inspect_token s >>= closed_by closing

  -- A member name, which is a text within its bound.
  abbrev pub part_key : JsonToken × Inspection D → Result RedactionError (Bytes × Inspection D)
  part_key (string_token key, s) =
      if ltb max_semantic_json_string_bytes (length key) then err json_limit else ok (key, s)
  part_key (delim c, s) = err invalid_json
  part_key (number_token t, s) = err invalid_json
  part_key (bool_token b, s) = err invalid_json
  part_key (null_token, s) = err invalid_json

  abbrev pub inspect_key : Inspection D → Result RedactionError (Bytes × Inspection D)
  unfolding inspect_token
  inspect_key s = inspect_token s >>= part_key

  -- A value's first token and what follows it, under `inspectBoundedSemanticValue` one level down.
  abbrev pub Child : Type 0
  Child = JsonToken → Inspection D → Inspected D

  abbrev pub inspect_child : Child → JsonToken × Inspection D → Inspected D
  inspect_child child (t, s) = child t s

  -- The loop over the members of an object.
  unfoldable pub inspect_members : Child → ℕ → ℕ → Inspection D → Inspected D
  unfolding inspect_token
  inspect_members child zero members s = err out_of_fuel
  inspect_members child (suc fuel) members s =
      if not (json.more s.decoder)
      then inspect_closing b'}' s
      else (if ltb max_semantic_json_object_members (suc members)
          then err json_limit
          else (inspect_key s >>= (λ (key, after).
              inspect_token after
              >>= inspect_child child
              >>= inspect_members child fuel (suc members))))

  -- The loop over the elements of an array.
  unfoldable pub inspect_elements : Child → ℕ → Inspection D → Inspected D
  unfolding inspect_token
  inspect_elements child zero s = err out_of_fuel
  inspect_elements child (suc fuel) s =
      if not (json.more s.decoder)
      then inspect_closing b']' s
      else (inspect_token s >>= inspect_child child >>= inspect_elements child fuel)

  abbrev pub inspect_scalar : ℕ → Inspection D → Inspected D
  inspect_scalar bytes s = if ltb max_semantic_json_string_bytes bytes then err json_limit else ok s

  -- What follows the first token of a value, once it is counted.
  abbrev pub inspect_rest : Child → JsonToken → Inspection D → Inspected D
  unfolding inspect_members inspect_elements
  inspect_rest child (delim c) s =
      if c == b'{'
      then inspect_members child member_fuel 0 s
      else (if c == b'[' then inspect_elements child value_fuel s else err invalid_json)
  inspect_rest child (string_token t) s = inspect_scalar (length t) s
  inspect_rest child (number_token t) s = inspect_scalar (length t) s
  inspect_rest child (bool_token b) s = ok s
  inspect_rest child null_token s = ok s

  -- `inspectBoundedSemanticValue`, on fuel for the depth.
  unfoldable pub inspect_bounded_semantic_value : ℕ → ℕ → JsonToken → Inspection D → Inspected D
  inspect_bounded_semantic_value zero depth t s = err out_of_fuel
  inspect_bounded_semantic_value (suc fuel) depth t s =
      let counted = record s { values = suc s.values } in
      if ltb max_semantic_json_depth depth || ltb max_semantic_json_values counted.values
      then err json_limit
      else inspect_rest (inspect_bounded_semantic_value fuel (suc depth)) t counted

  -- The input must end here.
  abbrev pub at_end : {A : Type 0} → D × TokenResult → A → Result RedactionError A
  at_end (d, end_of_input) a = ok a
  at_end (d, token t) a = err invalid_json
  at_end (d, malformed) a = err invalid_json

  -- The loop over the members of a content part.
  unfoldable pub inspect_part :
      ℕ → ℕ → PartFields → Inspection D → Result RedactionError (Bool × Bytes)
  unfolding inspect_token is_content_part_field_alias inspect_bounded_semantic_value
  inspect_part zero members f s = err out_of_fuel
  inspect_part (suc fuel) members f s =
      if not (json.more s.decoder)
      then (inspect_closing b'}' s
          >>= (λ after. at_end (json.next after.decoder) (is_text_part f, f.text)))
      else (if ltb max_semantic_json_object_members (suc members)
          then err json_limit
          else (inspect_key s >>= (λ (key, after).
              if is_content_part_field_alias key
              then err invalid_json
              else (see_key key f >>= (λ seen. inspect_token after >>= (λ (t, valued).
                  inspect_bounded_semantic_value depth_fuel 1 t valued
                  >>= inspect_part fuel (suc members) (see_value key t seen)))))))

  abbrev pub no_fields : PartFields
  no_fields = record {
    seen_type = false;
    seen_text = false;
    part_type = [];
    text = [];
    text_is_string = false;
  }

  abbrev pub inspect_other : JsonToken → Inspection D → Result RedactionError (Bool × Bytes)
  unfolding inspect_bounded_semantic_value
  inspect_other first s =
      inspect_bounded_semantic_value depth_fuel 0 first s
      >>= (λ after. at_end (json.next after.decoder) (false, []))

  abbrev pub inspect_first : JsonToken × Inspection D → Result RedactionError (Bool × Bytes)
  unfolding inspect_part
  inspect_first (delim c, s) =
      if c == b'{'
      then inspect_part member_fuel 0 no_fields (record s { values = 1 })
      else inspect_other (delim c) s
  inspect_first (string_token t, s) = inspect_other (string_token t) s
  inspect_first (number_token t, s) = inspect_other (number_token t) s
  inspect_first (bool_token b, s) = inspect_other (bool_token b) s
  inspect_first (null_token, s) = inspect_other null_token s

  -- `inspectSemanticTextContentPart`
  unfoldable pub inspect_semantic_text_content_part : Bytes → Result RedactionError (Bool × Bytes)
  unfolding inspect_token
  inspect_semantic_text_content_part raw =
      inspect_token (record { decoder = json.start raw; values = 0 }) >>= inspect_first
