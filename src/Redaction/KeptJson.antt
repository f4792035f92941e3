-- ===== src/Redaction/KeptJson.antt =====
-- What processValue of internal/middleware/redaction.go keeps, and that it ends.
use mathlib.Core.Path.{subst}
use aegis_llm.Prelude.{
  ℕ, suc, zero, ◌+◌, ◌-◌, ◌≤◌, ◌<◌, ◌≡◌, refl, sym, ap, ◌⊎◌, inl, inr, Bool, true, false, ◌&&◌,
  ◌||◌, not, List, [], ◌∷◌, ◌++◌, ltb, leb, ◌==◌, length, Bytes, codes, Option, none, some, arith,
  if_elim, if◌then◌else◌, Result, ok, err, length-append, ◌>>=◌,
}
use aegis_llm.Redaction.Rules.{
  RedactionError, RedactionSpan, json_limit, invalid_json, max_semantic_json_string_bytes,
  max_semantic_content_parts, max_semantic_content_part_bytes, max_semantic_content_array_bytes,
  max_semantic_json_depth, max_semantic_joined_text_bytes,
}
use aegis_llm.Redaction.Spans.{aggregate_redaction_spans}
use aegis_llm.Redaction.Text.{redact_text_part}
use aegis_llm.Redaction.Cover.{is_sensitive, IsPlaceholder}
use aegis_llm.Redaction.Collect.{WithinLimits, ArePatterns, AreSpans, aggregate-AreSpans}
use aegis_llm.Redaction.Rebuild.{Shows}
use aegis_llm.Redaction.Shown.{redact_text_part-Masked}
use aegis_llm.Redaction.Processor.{
  Json, JsonToken, delim, string_token, number_token, bool_token, null_token, TokenResult, token,
  end_of_input, malformed, Setup, Processor, Ending, done, failed, ◌▷◌, check_text, is_detect,
  write_bytes, with_token, count_value, process_string_value, process_number,
}
use aegis_llm.Redaction.Inspect.{inspect_semantic_text_content_part, depth_fuel}
use aegis_llm.Redaction.Inspected.{Sound, Sound-bind, is_reported, inspect-Sound}
use aegis_llm.Redaction.Parts.{
  ContentPart, joined_bytes, joined_text, override_of, overridden, override_parts, with_parts,
  searched_parts, measured_parts, process_semantic_message_text,
}
use aegis_llm.Redaction.Structure.{
  Context, generic, root, messages, message, message_content, content_part, Child, part_fuel,
  write_separator, process_object, process_array,
}
use aegis_llm.Redaction.Json.{
  read_part, with_inspected, with_raw, closed_array, parts_loop, resume, override_for,
  process_content_part_raw, write_parts, process_parts, process_content_parts_array, process_list,
  process_token, process_value,
}
use aegis_llm.Redaction.Kept.{
  Invariant, Good, Ends, Ends-bind, Ends-pred, stop, moved, write_bytes-Ends, with_token-Ends,
  count_value-Ends, check_text-Ends, process_string_value-Ends, process_number-Ends,
}
use aegis_llm.Redaction.KeptStructure.{
  ChildEnds, write_separator-Ends, process_object-Ends, process_array-Ends,
}

abbrev Parts : Type 0
Parts = List ContentPart

joined_bytes-Sound : (parts : Parts) (n : ℕ) → Sound (λ (x : ℕ). Unit) (joined_bytes parts n)
unfolding joined_bytes
joined_bytes-Sound [] n = tt
joined_bytes-Sound (part ∷ parts) n =
    if_elim (Sound (λ (x : ℕ). Unit))
      (part.is_text && ltb (max_semantic_joined_text_bytes - n) (length part.text)) (λ _. refl)
      (λ _. joined_bytes-Sound parts (if part.is_text then n + length part.text else n))

module _ (setup : Setup) (laws : ArePatterns setup.rules) (value : Bytes)
    (spans : List RedactionSpan) (known : AreSpans setup.rules value spans) where
  override_of-Sound :
      (replaces : Bool) (offset : ℕ) (part : ContentPart)
      → Sound (λ (x : Bytes). Unit) (override_of replaces offset spans part)
  unfolding redact_text_part
  override_of-Sound false offset part = tt
  override_of-Sound true offset part =
      by_cases (redact_text_part-Masked setup.rules laws value part.text offset spans known)
    where
      by_cases :
          (redact_text_part part.text offset spans ≡ err json_limit)
            ⊎ Shows
                (is_sensitive setup.rules value)
                (IsPlaceholder setup.rules)
                offset
                part.text
                (redact_text_part part.text offset spans)
          → Sound (λ (x : Bytes). Unit) (redact_text_part part.text offset spans)
      by_cases (inl e) = subst (Sound (λ (x : Bytes). Unit)) (sym e) refl
      by_cases (inr (out, e, m)) = subst (Sound (λ (x : Bytes). Unit)) (sym e) tt

  override_parts-Sound :
      (replaces : Bool) (parts : Parts) (offset transformed : ℕ)
      → Sound (λ (x : Parts). Unit) (override_parts replaces spans parts offset transformed)
  unfolding override_parts redact_text_part
  override_parts-Sound replaces [] offset transformed = tt
  override_parts-Sound replaces (part ∷ parts) offset transformed =
      by_kind part.is_text (override_parts-Sound replaces parts offset transformed) (λ override.
        override_parts-Sound replaces parts (offset + length part.text)
          (transformed + length override))
    where
      by_kind :
          (b : Bool)
          → Sound (λ (x : Parts). Unit) (override_parts replaces spans parts offset transformed)
          → ((override : Bytes)
              → Sound
                  (λ (x : Parts). Unit)
                  (override_parts replaces spans parts
                    (offset + length part.text)
                    (transformed + length override)))
          → Sound
              (λ (x : Parts). Unit)
              (elim b [
                | false ↦
                    override_parts replaces spans parts offset transformed
                    >>= (λ rest. ok (part ∷ rest))
                | true ↦ override_of replaces offset spans part >>= (λ override.
                    overridden part transformed override >>= (λ new.
                      override_parts replaces spans parts
                        (offset + length part.text)
                        (transformed + length override)
                      >>= (λ rest. ok (new ∷ rest))))
              ])
      by_kind false same next =
          Sound-bind (λ (x : Parts). Unit) (λ (x : Parts). Unit)
            (override_parts replaces spans parts offset transformed) _ same (λ rest _. tt)
      by_kind true same next =
          Sound-bind (λ (x : Bytes). Unit) (λ (x : Parts). Unit)
            (override_of replaces offset spans part) _ (override_of-Sound replaces offset part)
            (λ override _.
              Sound-bind (λ (x : ContentPart). Unit) (λ (x : Parts). Unit)
                (overridden part transformed override) _
                (if_elim (Sound (λ (x : ContentPart). Unit))
                  (ltb (max_semantic_joined_text_bytes - transformed) (length override))
                  {x = err json_limit} {y = ok (record part { text_override = override })}
                  (λ _. refl) (λ _. tt))
                (λ new _.
                  Sound-bind (λ (x : Parts). Unit) (λ (x : Parts). Unit)
                    (override_parts replaces spans parts (offset + length part.text)
                      (transformed + length override))
                    _ (next override) (λ rest _. tt)))

module _ {D : Type 0} {json : Json D} {setup : Setup} {Q R : Processor D → Type 0}
    (inv : Invariant json setup Q R) (laws : ArePatterns setup.rules) where
  -- What is done with the parts ends well.
  abbrev KeepsParts : ℕ → (Parts → Processor D → Ending D) → Type 0
  KeepsParts n k = (parts : Parts) (q : Processor D) → Good inv n q → Ends inv n (k parts q)

  message_text-Ends :
      (n : ℕ) (parts : Parts) (k : Parts → Processor D → Ending D) (p : Processor D)
      → KeepsParts n k
      → Good inv n p
      → Ends inv n (process_semantic_message_text setup parts k p)
  unfolding process_semantic_message_text joined_text override_parts check_text
      aggregate_redaction_spans
  message_text-Ends n parts k p f g = measured (joined_bytes parts 0) (joined_bytes-Sound parts 0)
    where
      given :
          (q : Processor D) (r : Result RedactionError Parts)
          → Sound (λ (x : Parts). Unit) r
          → Good inv n q
          → Ends inv n (with_parts setup k q r)
      given q (ok new) s h = f new q h
      given q (err e) s h = stop inv n n q e s h

      searched :
          (r : Result RedactionError (List RedactionSpan × Bool))
          → WithinLimits
              (λ (r : List RedactionSpan × Bool). AreSpans setup.rules (joined_text parts) r.0)
              r
          → Ends inv n (searched_parts setup parts k p r)
      searched (err e) known = stop inv n n p e (ap is_reported known) g
      searched (ok (spans, matched)) known =
          Ends-bind inv n n (check_text setup matched p) _ (check_text-Ends inv n matched p g)
            (λ q h.
              given q (override_parts (matched && not (is_detect setup.mode)) spans parts 0 0)
                (override_parts-Sound setup laws (joined_text parts) spans known
                  (matched && not (is_detect setup.mode)) parts 0 0)
                h)

      measured :
          (r : Result RedactionError ℕ)
          → Sound (λ (x : ℕ). Unit) r
          → Ends inv n (measured_parts setup parts k p r)
      measured (err e) s = stop inv n n p e s g
      measured (ok m) s =
          if_elim (Ends inv n) (m == 0) (λ _. f parts p g)
            (λ _.
              searched (aggregate_redaction_spans (joined_text parts) setup.rules)
                (aggregate-AreSpans (joined_text parts) setup.rules laws))

  closed_array-Ends :
      (n : ℕ) (t : JsonToken) (p : Processor D)
      → Good inv n p
      → Ends inv n (closed_array json setup t p)
  closed_array-Ends n (delim c) p g =
      if_elim (Ends inv n) (c == b']') {x = done p} (λ _. g)
        (λ _. stop inv n n p invalid_json refl g)
  closed_array-Ends n (string_token t) p g = stop inv n n p invalid_json refl g
  closed_array-Ends n (number_token t) p g = stop inv n n p invalid_json refl g
  closed_array-Ends n (bool_token b) p g = stop inv n n p invalid_json refl g
  closed_array-Ends n null_token p g = stop inv n n p invalid_json refl g

  with_raw-Ends :
      (n raw_bytes : ℕ) (k : ContentPart → Processor D → Ending D) (p : Processor D)
      (r : D × Option Bytes)
      → ((part : ContentPart) (q : Processor D) → Good inv n q → Ends inv n (k part q))
      → Good inv n p
      → Ends inv n (with_raw json setup raw_bytes k p r)
  unfolding inspect_semantic_text_content_part
  with_raw-Ends n raw_bytes k p (d, none) f g =
      stop inv n n (record p { decoder = d }) invalid_json refl (moved inv n p d g)
  with_raw-Ends n raw_bytes k p (d, some raw) f g =
      if_elim (Ends inv n)
        (ltb max_semantic_content_part_bytes (length raw)
          || ltb (max_semantic_content_array_bytes - raw_bytes) (length raw))
        (λ _. stop inv n n (record p { decoder = d }) json_limit refl (moved inv n p d g))
        (λ _. inspected (inspect_semantic_text_content_part json raw) (inspect-Sound json raw))
    where
      inspected :
          (i : Result RedactionError (Bool × Bytes))
          → Sound (λ (x : Bool × Bytes). Unit) i
          → Ends inv n (with_inspected json setup raw k (record p { decoder = d }) i)
      inspected (ok i) s =
          f (read_part json setup raw i) (record p { decoder = d }) (moved inv n p d g)
      inspected (err e) s = stop inv n n (record p { decoder = d }) e s (moved inv n p d g)

  parts_loop-Ends :
      (n : ℕ) (k : Parts → Processor D → Ending D) (fuel : ℕ) (parts : Parts) (raw_bytes : ℕ)
      (p : Processor D)
      → part_fuel ≤ fuel + length parts
      → length parts ≤ max_semantic_content_parts
      → KeepsParts n k
      → Good inv n p
      → Ends inv n (parts_loop json setup k fuel parts raw_bytes p)
  unfolding parts_loop with_token inspect_semantic_text_content_part
  parts_loop-Ends n k zero parts raw_bytes p enough few f g = absurd (omega (arith, enough, few))
  parts_loop-Ends n k (suc fuel) parts raw_bytes p enough few f g =
      if_elim (Ends inv n) (not (json.more p.decoder))
        (λ _.
          Ends-bind inv n n (with_token json setup p (closed_array json setup)) (k parts)
            (with_token-Ends inv n n p (closed_array json setup) g (closed_array-Ends n)) (f parts))
        (λ _.
          if_elim (Ends inv n) (leb max_semantic_content_parts (length parts))
            (λ _. stop inv n n p json_limit refl g)
            (λ e.
              with_raw-Ends n raw_bytes _ p (json.raw p.decoder)
                (λ part q h.
                  let longer = length-append parts (part ∷ []) in
                  parts_loop-Ends n k fuel (parts ++ (part ∷ [])) (raw_bytes + length part.raw) q
                    (omega (arith, enough, longer)) (room part (ground (arith, e)) longer) f h)
                g))
    where
      room :
          (part : ContentPart)
          → length parts < max_semantic_content_parts
          → length (parts ++ (part ∷ [])) ≡ length parts + 1
          → length (parts ++ (part ∷ [])) ≤ max_semantic_content_parts
      room part h e = omega (arith, h, e)

  resume-Ends :
      (n m : ℕ) (p : Processor D) (o : Ending D)
      → Good inv m p
      → Ends inv n o
      → Ends inv n (resume json setup p o)
  resume-Ends n m p (failed e sub) g h = (h.0, inv.fail_back sub p.decoder h.1)
  resume-Ends n m p (done sub) g h = by_end (json.next sub.decoder).1
    where
      by_end :
          (r : TokenResult)
          → Ends inv n (elim r [
            | end_of_input ↦ done (record sub { decoder = p.decoder })
            | token t ↦ failed invalid_json (record p { output = sub.output })
            | malformed ↦ failed invalid_json (record p { output = sub.output })
          ])
      by_end end_of_input = moved inv n sub p.decoder h
      by_end (token t) = (refl, inv.fail_output p sub g.2 h.2)
      by_end malformed = (refl, inv.fail_output p sub g.2 h.2)

  module _ (child : Child json setup) (depth : ℕ) (law : ChildEnds inv child (suc depth)) where
    write_parts-Ends :
        (n : ℕ) (parts : Parts) (index : ℕ) (p : Processor D)
        → Good inv n p
        → Ends inv n (write_parts json setup child depth parts index p)
    unfolding write_parts
    write_parts-Ends n [] index p g = g
    write_parts-Ends n (part ∷ parts) index p g =
        Ends-bind inv n n
          (write_separator json setup index p
            ▷ process_content_part_raw json setup child part (suc depth))
          (write_parts json setup child depth parts (suc index))
          (Ends-pred inv n _ (
            Ends-bind inv n (suc n) (write_separator json setup index p)
              (process_content_part_raw json setup child part (suc depth))
              (write_separator-Ends inv child depth law n index p g)
              (λ q h. resume-Ends (suc n) n q _ h (
                law n content_part (override_for json setup part)
                  (record q { decoder = json.start part.raw })
                  (moved inv n q (json.start part.raw) h)))))
          (λ q h. write_parts-Ends n parts (suc index) q h)

    content_parts-Ends :
        (n : ℕ) (p : Processor D)
        → Good inv n p
        → Ends inv n (process_content_parts_array json setup child depth p)
    unfolding process_content_parts_array parts_loop process_semantic_message_text write_parts
        write_bytes
    content_parts-Ends n p g =
        Ends-bind inv n n (write_bytes json setup (codes "[") p)
          (parts_loop json setup (process_parts json setup child depth) part_fuel [] 0)
          (write_bytes-Ends inv n (codes "[") p g)
          (λ q h.
            parts_loop-Ends n (process_parts json setup child depth) part_fuel [] 0 q (omega arith)
              (omega arith)
              (λ parts r i.
                message_text-Ends n parts _ r
                  (λ new u j.
                    Ends-bind inv n n (write_parts json setup child depth new 0 u)
                      (write_bytes json setup (codes "]")) (write_parts-Ends n new 0 u j)
                      (write_bytes-Ends inv n (codes "]")))
                  i)
              h)

    process_list-Ends :
        (n : ℕ) (context : Context) (override : Option Bytes) (p : Processor D)
        → Good inv n p
        → Ends inv n (process_list json setup child depth context override p)
    unfolding process_array process_content_parts_array
    process_list-Ends n message_content override p g = content_parts-Ends n p g
    process_list-Ends n generic override p g =
        process_array-Ends inv child depth law n generic override p g
    process_list-Ends n root override p g =
        process_array-Ends inv child depth law n root override p g
    process_list-Ends n messages override p g =
        process_array-Ends inv child depth law n messages override p g
    process_list-Ends n message override p g =
        process_array-Ends inv child depth law n message override p g
    process_list-Ends n content_part override p g =
        process_array-Ends inv child depth law n content_part override p g

    process_token-Ends :
        (n : ℕ) (context : Context) (override : Option Bytes) (t : JsonToken) (p : Processor D)
        → Good inv n p
        → Ends inv n (process_token json setup child depth context override t p)
    unfolding process_object process_array process_content_parts_array process_string_value
        process_number write_bytes
    process_token-Ends n context override (delim c) p g =
        if_elim (Ends inv n) (c == b'{')
          (λ _. process_object-Ends inv child depth law n context override p g)
          (λ _.
            if_elim (Ends inv n) (c == b'[') (λ _. process_list-Ends n context override p g)
              (λ _. stop inv n n p invalid_json refl g))
    process_token-Ends n context override (string_token value) p g =
        if_elim (Ends inv n) (ltb max_semantic_json_string_bytes (length value))
          (λ _. stop inv n n p json_limit refl g)
          (λ _. process_string_value-Ends inv laws n value p g)
    process_token-Ends n context override (number_token raw) p g = process_number-Ends inv n raw p g
    process_token-Ends n context override (bool_token b) p g = write_bytes-Ends inv n _ p g
    process_token-Ends n context override null_token p g = write_bytes-Ends inv n _ p g

  -- A value counts itself and ends well, on enough fuel for its depth.
  pub process_value-Ends :
      (fuel depth n : ℕ) (context : Context) (override : Option Bytes) (p : Processor D)
      → depth_fuel ≤ fuel + depth
      → depth ≤ suc max_semantic_json_depth
      → Good inv n p
      → Ends inv (suc n) (process_value json setup fuel depth context override p)
  unfolding process_value count_value with_token
  process_value-Ends zero depth n context override p enough low g =
      absurd (omega (arith, enough, low))
  process_value-Ends (suc fuel) depth n context override p enough low g =
      count_value-Ends inv n (suc n) depth p _ g (λ shallow q h.
        with_token-Ends inv (suc n) (suc n) q _ h (λ t r i.
          process_token-Ends (process_value json setup fuel) depth
            (λ m c o u j.
              process_value-Ends fuel (suc depth) m c o u (omega (arith, enough))
                (omega (arith, shallow)) j)
            (suc n) context override t r i))
