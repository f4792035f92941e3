-- ===== src/Redaction/KeptStructure.antt =====
-- What processObject and processArray of internal/middleware/redaction.go keep.
use aegis_llm.Prelude.{
  ℕ, suc, zero, ◌+◌, ◌≤◌, refl, ◌&&◌, ◌||◌, not, List, [], ◌∷◌, ltb, ◌==◌, length, any, Bytes,
  codes, Option, none, some, arith, if_elim, str_eq,
}
use aegis_llm.Redaction.Rules.{
  json_limit, invalid_json, max_semantic_json_string_bytes, max_semantic_json_object_members,
  rules_match_string,
}
use aegis_llm.Redaction.Number.{is_security_field_alias, is_content_part_field_alias}
use aegis_llm.Redaction.Processor.{
  Json, JsonToken, delim, string_token, number_token, bool_token, null_token, Setup, Processor,
  Ending, done, ◌▷◌, check_fixed, write_bytes, write_json_string, with_token, count_value,
}
use aegis_llm.Redaction.Inspect.{member_fuel, value_fuel, text_key}
use aegis_llm.Redaction.Structure.{
  Context, is_content_part, member_context, element_context, Child, closed_by, close,
  override_value, process_content_text_value, member_value, write_separator, process_key,
  member_key, object_loop, process_object, array_loop, process_array,
}
use aegis_llm.Redaction.Kept.{
  Invariant, Good, Ends, Ends-bind, Ends-pred, stop, write_bytes-Ends, write_json_string-Ends,
  with_token-Ends, count_value-Ends, check_fixed-Ends,
}

module _ {D : Type 0} {json : Json D} {setup : Setup} {Q R : Processor D → Type 0}
    (inv : Invariant json setup Q R) where
  closed_by-Ends :
      (n closing : ℕ) (text : Bytes) (t : JsonToken) (p : Processor D)
      → Good inv n p
      → Ends inv n (closed_by json setup closing text t p)
  unfolding write_bytes
  closed_by-Ends n closing text (delim c) p g =
      if_elim (Ends inv n) (c == closing) (λ _. write_bytes-Ends inv n text p g)
        (λ _. stop inv n n p invalid_json refl g)
  closed_by-Ends n closing text (string_token t) p g = stop inv n n p invalid_json refl g
  closed_by-Ends n closing text (number_token t) p g = stop inv n n p invalid_json refl g
  closed_by-Ends n closing text (bool_token b) p g = stop inv n n p invalid_json refl g
  closed_by-Ends n closing text null_token p g = stop inv n n p invalid_json refl g

  pub close-Ends :
      (n closing : ℕ) (p : Processor D) → Good inv n p → Ends inv n (close json setup closing p)
  unfolding with_token write_bytes
  close-Ends n closing p g =
      with_token-Ends inv n n p (closed_by json setup closing (closing ∷ [])) g
        (closed_by-Ends n closing (closing ∷ []))

  override_value-Ends :
      (n : ℕ) (override : Bytes) (t : JsonToken) (p : Processor D)
      → Good inv n p
      → Ends inv n (override_value json setup override t p)
  unfolding write_json_string
  override_value-Ends n override (string_token value) p g =
      if_elim (Ends inv n)
        (ltb max_semantic_json_string_bytes (length value)
          || ltb max_semantic_json_string_bytes (length override))
        (λ _. stop inv n n p json_limit refl g) (λ _. write_json_string-Ends inv n override p g)
  override_value-Ends n override (delim c) p g = stop inv n n p invalid_json refl g
  override_value-Ends n override (number_token t) p g = stop inv n n p invalid_json refl g
  override_value-Ends n override (bool_token b) p g = stop inv n n p invalid_json refl g
  override_value-Ends n override null_token p g = stop inv n n p invalid_json refl g

  content_text-Ends :
      (n depth : ℕ) (override : Bytes) (p : Processor D)
      → Good inv n p
      → Ends inv (suc n) (process_content_text_value json setup depth override p)
  unfolding process_content_text_value count_value with_token write_json_string
  content_text-Ends n depth override p g =
      count_value-Ends inv n (suc n) depth p
        (λ q. with_token json setup q (override_value json setup override)) g
        (λ _ q h.
          with_token-Ends inv (suc n) (suc n) q (override_value json setup override) h
            (override_value-Ends (suc n) override))

  -- A child one level down counts its value and ends well.
  abbrev pub ChildEnds : Child json setup → ℕ → Type 0
  ChildEnds child depth =
      (n : ℕ) (context : Context) (override : Option Bytes) (p : Processor D)
      → Good inv n p
      → Ends inv (suc n) (child depth context override p)

  module _ (child : Child json setup) (depth : ℕ) (law : ChildEnds child (suc depth)) where
    member_value-Ends :
        (n : ℕ) (context : Context) (override : Option Bytes) (key : Bytes) (p : Processor D)
        → Good inv n p
        → Ends inv (suc n) (member_value json setup child depth context override key p)
    unfolding process_content_text_value
    member_value-Ends n context none key p g = law n (member_context context key) none p g
    member_value-Ends n context (some override) key p g =
        if_elim (Ends inv (suc n)) (is_content_part context && str_eq key text_key)
          (λ _. content_text-Ends n (suc depth) override p g)
          (λ _. law n (member_context context key) (some override) p g)

    pub write_separator-Ends :
        (n before : ℕ) (p : Processor D)
        → Good inv n p
        → Ends inv n (write_separator json setup before p)
    unfolding write_bytes
    write_separator-Ends n before p g =
        if_elim (Ends inv n) (before == 0) {x = done p} (λ _. g)
          (λ _. write_bytes-Ends inv n (codes ",") p g)

    process_key-Ends :
        (n : ℕ) (context : Context) (members : ℕ) (seen : List Bytes) (key : Bytes)
        (p : Processor D)
        → Good inv n p
        → Ends inv n (process_key json setup depth context members seen key p)
    unfolding is_security_field_alias is_content_part_field_alias rules_match_string check_fixed
        write_bytes write_json_string
    process_key-Ends n context members seen key p g =
        if_elim (Ends inv n) (any (λ k. str_eq k key) seen)
          (λ _. stop inv n n p invalid_json refl g)
          (λ _.
            if_elim (Ends inv n) (depth == 0 && is_security_field_alias key)
              (λ _. stop inv n n p invalid_json refl g)
              (λ _.
                if_elim (Ends inv n) (is_content_part context && is_content_part_field_alias key)
                  (λ _. stop inv n n p invalid_json refl g) (λ _. written)))
      where
        checked : Ending D
        checked = check_fixed setup (rules_match_string key setup.rules) p

        written : Ends inv n (
            check_fixed setup (rules_match_string key setup.rules) p
            ▷ write_separator json setup members
            ▷ write_json_string json setup key
            ▷ write_bytes json setup (codes ":"))
        written =
            Ends-bind inv n n
              (checked ▷ write_separator json setup members ▷ write_json_string json setup key)
              (write_bytes json setup (codes ":"))
              (Ends-bind inv n n (checked ▷ write_separator json setup members)
                (write_json_string json setup key)
                (Ends-bind inv n n checked (write_separator json setup members)
                  (check_fixed-Ends inv n (rules_match_string key setup.rules) p g)
                  (write_separator-Ends n members))
                (write_json_string-Ends inv n key))
              (write_bytes-Ends inv n (codes ":"))

    member_key-Ends :
        (n : ℕ) (k : Bytes → Processor D → Ending D) (t : JsonToken) (p : Processor D)
        → ((key : Bytes) (q : Processor D) → Good inv n q → Ends inv n (k key q))
        → Good inv n p
        → Ends inv n (member_key json setup k t p)
    member_key-Ends n k (string_token key) p f g =
        if_elim (Ends inv n) (ltb max_semantic_json_string_bytes (length key))
          (λ _. stop inv n n p json_limit refl g) (λ _. f key p g)
    member_key-Ends n k (delim c) p f g = stop inv n n p invalid_json refl g
    member_key-Ends n k (number_token t) p f g = stop inv n n p invalid_json refl g
    member_key-Ends n k (bool_token b) p f g = stop inv n n p invalid_json refl g
    member_key-Ends n k null_token p f g = stop inv n n p invalid_json refl g

    object_loop-Ends :
        (n : ℕ) (context : Context) (override : Option Bytes) (fuel members : ℕ) (seen : List Bytes)
        (p : Processor D)
        → member_fuel ≤ fuel + members
        → members ≤ max_semantic_json_object_members
        → Good inv n p
        → Ends inv n (object_loop json setup child depth context override fuel members seen p)
    unfolding object_loop with_token
    object_loop-Ends n context override zero members seen p enough few g =
        absurd (omega (arith, enough, few))
    object_loop-Ends n context override (suc fuel) members seen p enough few g =
        if_elim (Ends inv n) (not (json.more p.decoder)) (λ _. close-Ends n b'}' p g)
          (λ _.
            if_elim (Ends inv n) (ltb max_semantic_json_object_members (suc members))
              (λ _. stop inv n n p json_limit refl g)
              (λ e. with_token-Ends inv n n p _ g (λ t q h.
                member_key-Ends n _ t q
                  (λ key r i.
                    Ends-bind inv n n
                      (process_key json setup depth context members seen key r
                        ▷ member_value json setup child depth context override key)
                      (object_loop json setup child depth context override fuel (suc members)
                        (key ∷ seen))
                      (Ends-pred inv n _ (
                        Ends-bind inv n (suc n)
                          (process_key json setup depth context members seen key r)
                          (member_value json setup child depth context override key)
                          (process_key-Ends n context members seen key r i)
                          (member_value-Ends n context override key)))
                      (λ u j.
                        object_loop-Ends n context override fuel (suc members) (key ∷ seen) u
                          (omega (arith, enough)) (ground (arith, e)) j))
                  h)))

    pub process_object-Ends :
        (n : ℕ) (context : Context) (override : Option Bytes) (p : Processor D)
        → Good inv n p
        → Ends inv n (process_object json setup child depth context override p)
    unfolding process_object write_bytes
    process_object-Ends n context override p g =
        Ends-bind inv n n (write_bytes json setup (codes "{") p)
          (object_loop json setup child depth context override member_fuel 0 [])
          (write_bytes-Ends inv n (codes "{") p g)
          (λ q h.
            object_loop-Ends n context override member_fuel 0 [] q (omega arith) (omega arith) h)

    array_loop-Ends :
        (n : ℕ) (context : Context) (override : Option Bytes) (fuel items : ℕ) (p : Processor D)
        → value_fuel ≤ fuel + n
        → Good inv n p
        → Ends inv n (array_loop json setup child depth context override fuel items p)
    unfolding array_loop with_token
    array_loop-Ends n context override zero items p enough g =
        absurd (omega (arith, enough, g.0, g.1))
    array_loop-Ends n context override (suc fuel) items p enough g =
        if_elim (Ends inv n) (not (json.more p.decoder)) (λ _. close-Ends n b']' p g)
          (λ _. Ends-pred inv n _ (
            Ends-bind inv (suc n) (suc n)
              (write_separator json setup items p
                ▷ child (suc depth) (element_context context) override)
              (array_loop json setup child depth context override fuel (suc items))
              (Ends-bind inv n (suc n) (write_separator json setup items p)
                (child (suc depth) (element_context context) override)
                (write_separator-Ends n items p g)
                (λ q h. law n (element_context context) override q h))
              (λ q h.
                array_loop-Ends (suc n) context override fuel (suc items) q (omega (arith, enough))
                  h)))

    pub process_array-Ends :
        (n : ℕ) (context : Context) (override : Option Bytes) (p : Processor D)
        → Good inv n p
        → Ends inv n (process_array json setup child depth context override p)
    unfolding process_array write_bytes
    process_array-Ends n context override p g =
        Ends-bind inv n n (write_bytes json setup (codes "[") p)
          (array_loop json setup child depth context override value_fuel 0)
          (write_bytes-Ends inv n (codes "[") p g)
          (λ q h. array_loop-Ends n context override value_fuel 0 q (omega arith) h)
