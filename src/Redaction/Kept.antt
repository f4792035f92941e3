-- ===== src/Redaction/Kept.antt =====
-- What every step of the JSON processor of internal/middleware/redaction.go keeps: an invariant that
-- survives the writing of an output, the change of the decoder and of the number of values, and a match
-- that does not block, survives a whole run.
use mathlib.Core.Path.{subst}
use aegis_llm.Prelude.{
  ℕ, suc, ◌-◌, ◌≤◌, ◌≡◌, refl, sym, ap, ◌⊎◌, inl, inr, Bool, true, false, List, Result, ok, err,
  ltb, length, Bytes, Option, none, some, arith, if_elim,
}
use aegis_llm.Redaction.Rules.{
  RedactionSpan, RedactionError, json_limit, invalid_json, RedactionMode, detect, redact, block,
  max_semantic_json_string_bytes, max_semantic_json_depth, max_semantic_json_values,
  rules_match_string,
}
use aegis_llm.Redaction.Spans.{aggregate_redaction_spans}
use aegis_llm.Redaction.Text.{redact_text_part}
use aegis_llm.Redaction.Number.{canonical_numeric_pii_candidate}
use aegis_llm.Redaction.Collect.{WithinLimits, ArePatterns, AreSpans, aggregate-AreSpans}
use aegis_llm.Redaction.Rebuild.{Shows}
use aegis_llm.Redaction.Shown.{redact_text_part-Masked}
use aegis_llm.Redaction.Processor.{
  Json, JsonToken, TokenResult, token, end_of_input, malformed, BoundedOutput, append_output, Setup,
  Processor, Ending, done, failed, ◌▷◌, is_detect, is_block, check_fixed, check_text, appended,
  write_into, write_bytes, write_encoded, write_json_string, taken, with_token, count_value,
  write_redacted, redacted_string, write_string, searched_string, process_string_value,
  by_candidate, process_number,
}
use aegis_llm.Redaction.Cover.{is_sensitive, IsPlaceholder}
use aegis_llm.Redaction.Candidate.{candidate-Sound}
use aegis_llm.Redaction.Inspected.{is_reported, Sound}

-- `Q` holds of the processor between two steps, `R` of the one that an error leaves behind.
pub record Invariant {D : Type 0} (json : Json D) (setup : Setup) (Q R : Processor D → Type 0)
    : Type 0 where
  pub read : (p : Processor D) (d : D) → Q p → Q (record p { decoder = d })
  pub count : (p : Processor D) (n : ℕ) → Q p → Q (record p { values = n })
  pub grow :
      (p : Processor D) (o grown : BoundedOutput) (value : Bytes)
      → Q p
      → p.output ≡ some o
      → length value ≤ setup.output_max - length o.bytes
      → append_output value o ≡ ok grown
      → Q (record p { output = some grown })
  pub match :
      (p : Processor D) → is_block setup.mode ≡ false → Q p → Q (record p { found_pii = true })
  pub fail : (p : Processor D) → Q p → R p
  pub fail_match : (p : Processor D) → Q p → R (record p { found_pii = true })
  pub fail_back : (p : Processor D) (d : D) → R p → R (record p { decoder = d })
  pub fail_output : (p sub : Processor D) → Q p → Q sub → R (record p { output = sub.output })

module _ {D : Type 0} {json : Json D} {setup : Setup} {Q R : Processor D → Type 0}
    (inv : Invariant json setup Q R) where
  -- At least so many values are counted, no more than the limit, and the invariant holds.
  abbrev pub Good : ℕ → Processor D → Type 0
  Good n p = (n ≤ p.values) × (p.values ≤ max_semantic_json_values) × Q p

  -- How a step ends: well, or with an error that the code has.
  abbrev pub Ends : ℕ → Ending D → Type 0
  Ends n (done p) = Good n p
  Ends n (failed e p) = (is_reported e ≡ true) × R p

  pub Ends-bind :
      (n m : ℕ) (o : Ending D) (k : Processor D → Ending D)
      → Ends n o
      → ((p : Processor D) → Good n p → Ends m (k p))
      → Ends m (o ▷ k)
  Ends-bind n m (done p) k h f = f p h
  Ends-bind n m (failed e p) k h f = h

  pub Ends-pred : (n : ℕ) (o : Ending D) → Ends (suc n) o → Ends n o
  Ends-pred n (done p) h = (omega (arith, h.0), h.1, h.2)
  Ends-pred n (failed e p) h = h

  pub stop :
      (n m : ℕ) (p : Processor D) (e : RedactionError)
      → is_reported e ≡ true
      → Good n p
      → Ends m (failed e p)
  stop n m p e r g = (r, inv.fail p g.2)

  pub moved : (n : ℕ) (p : Processor D) (d : D) → Good n p → Good n (record p { decoder = d })
  moved n p d g = (g.0, g.1, inv.read p d g.2)

  append-reported :
      (value : Bytes) (o : BoundedOutput)
      → (append_output value o ≡ err json_limit)
        ⊎ ((grown : BoundedOutput) × (append_output value o ≡ ok grown))
  unfolding append_output
  append-reported value o =
      if_elim (λ r. (r ≡ err json_limit) ⊎ ((grown : BoundedOutput) × (r ≡ ok grown)))
        (ltb (o.limit - length o.bytes) (length value)) (λ _. inl refl) (λ _. inr (_, refl))

  pub write_bytes-Ends :
      (n : ℕ) (value : Bytes) (p : Processor D) → Good n p → Ends n (write_bytes json setup value p)
  unfolding write_bytes append_output
  write_bytes-Ends n value p g = by_output p.output refl
    where
      by_output :
          (o : Option BoundedOutput) → p.output ≡ o → Ends n (write_into json setup value p o)
      by_output none e = g
      by_output (some o) e =
          if_elim (Ends n) (ltb (setup.output_max - length o.bytes) (length value))
            (λ _. stop n n p json_limit refl g)
            (λ fits. grown (append-reported value o) (ground (arith, fits)))
        where
          grown :
              (append_output value o ≡ err json_limit)
                ⊎ ((new : BoundedOutput) × (append_output value o ≡ ok new))
              → length value ≤ setup.output_max - length o.bytes
              → Ends n (appended json setup p (append_output value o))
          grown (inl q) fits =
              subst (λ r. Ends n (appended json setup p r)) (sym q) (stop n n p json_limit refl g)
          grown (inr (new, q)) fits =
              subst (λ r. Ends n (appended json setup p r)) (sym q)
                (g.0, g.1, inv.grow p o new value g.2 e fits q)

  pub write_json_string-Ends :
      (n : ℕ) (value : Bytes) (p : Processor D)
      → Good n p
      → Ends n (write_json_string json setup value p)
  unfolding write_json_string write_bytes
  write_json_string-Ends n value p g = by_result (json.marshal value)
    where
      by_result : (r : Option Bytes) → Ends n (write_encoded json setup p r)
      by_result none = stop n n p invalid_json refl g
      by_result (some encoded) = write_bytes-Ends n encoded p g

  pub with_token-Ends :
      (n m : ℕ) (p : Processor D) (k : JsonToken → Processor D → Ending D)
      → Good n p
      → ((t : JsonToken) (q : Processor D) → Good n q → Ends m (k t q))
      → Ends m (with_token json setup p k)
  unfolding with_token
  with_token-Ends n m p k g f = by_result (json.next p.decoder)
    where
      by_result : (r : D × TokenResult) → Ends m (taken json setup p k r)
      by_result (d, token t) = f t (record p { decoder = d }) (moved n p d g)
      by_result (d, end_of_input) =
          stop n m (record p { decoder = d }) invalid_json refl (moved n p d g)
      by_result (d, malformed) =
          stop n m (record p { decoder = d }) invalid_json refl (moved n p d g)

  -- A value that is counted is no deeper than the limit.
  pub count_value-Ends :
      (n m depth : ℕ) (p : Processor D) (k : Processor D → Ending D)
      → Good n p
      → (depth ≤ max_semantic_json_depth → (q : Processor D) → Good (suc n) q → Ends m (k q))
      → Ends m (count_value json setup depth p ▷ k)
  unfolding count_value
  count_value-Ends n m depth p k g f =
      if_elim (λ o. Ends m (o ▷ k)) (ltb max_semantic_json_depth depth)
        (λ _. stop n m p json_limit refl g)
        (λ e.
          if_elim (λ o. Ends m (o ▷ k)) (ltb max_semantic_json_values (suc p.values))
            (λ _. (
              refl,
              inv.fail (record p { values = suc p.values }) (inv.count p (suc p.values) g.2),
            ))
            (λ few.
              f (ground (arith, e)) (record p { values = suc p.values })
                (omega (arith, g.0), ground (arith, few), inv.count p (suc p.values) g.2)))

  matched-Good :
      (n : ℕ) (p : Processor D)
      → is_block setup.mode ≡ false
      → Good n p
      → Good n (record p { found_pii = true })
  matched-Good n p e g = (g.0, g.1, inv.match p e g.2)

  detect_block : (mode : RedactionMode) → is_detect mode ≡ true → is_block mode ≡ false
  detect_block detect h = refl
  detect_block redact h = refl
  detect_block block h = absurd (ground (arith, h))

  pub check_fixed-Ends :
      (n : ℕ) (matched : Bool) (p : Processor D) → Good n p → Ends n (check_fixed setup matched p)
  unfolding check_fixed
  check_fixed-Ends n false p g = g
  check_fixed-Ends n true p g =
      if_elim (Ends n) (is_detect setup.mode) (λ e. matched-Good n p (detect_block setup.mode e) g)
        (λ _. (refl, inv.fail_match p g.2))

  pub check_text-Ends :
      (n : ℕ) (matched : Bool) (p : Processor D) → Good n p → Ends n (check_text setup matched p)
  unfolding check_text
  check_text-Ends n false p g = g
  check_text-Ends n true p g =
      if_elim (Ends n) (is_block setup.mode) (λ _. (refl, inv.fail_match p g.2))
        (λ e. matched-Good n p e g)

  pub check_candidate-Ends :
      (n : ℕ) (raw : Bytes) (p : Processor D) (r : Result RedactionError (Option Bytes))
      → Sound (λ (x : Option Bytes). Unit) r
      → Good n p
      → Ends n (by_candidate json setup raw p r)
  unfolding rules_match_string write_bytes check_fixed
  check_candidate-Ends n raw p (err e) h g = stop n n p e h g
  check_candidate-Ends n raw p (ok none) h g = write_bytes-Ends n raw p g
  check_candidate-Ends n raw p (ok (some integer)) h g =
      Ends-bind n n (check_fixed setup (rules_match_string integer setup.rules) p)
        (write_bytes json setup raw)
        (check_fixed-Ends n (rules_match_string integer setup.rules) p g) (write_bytes-Ends n raw)

  pub process_number-Ends :
      (n : ℕ) (raw : Bytes) (p : Processor D) → Good n p → Ends n (process_number json setup raw p)
  unfolding process_number rules_match_string write_bytes check_fixed
      canonical_numeric_pii_candidate
  process_number-Ends n raw p g =
      if_elim (Ends n) (ltb max_semantic_json_string_bytes (length raw))
        (λ _. stop n n p json_limit refl g)
        (λ _.
          if_elim (Ends n) (rules_match_string raw setup.rules)
            (λ _.
              Ends-bind n n (check_fixed setup true p) (write_bytes json setup raw)
                (check_fixed-Ends n true p g) (write_bytes-Ends n raw))
            (λ _.
              check_candidate-Ends n raw p (canonical_numeric_pii_candidate raw)
                (candidate-Sound raw) g))

  module _ (laws : ArePatterns setup.rules) where
    write_redacted-Ends :
        (n : ℕ) (p : Processor D) (r : Result RedactionError Bytes)
        → Sound (λ (x : Bytes). Unit) r
        → Good n p
        → Ends n (write_redacted json setup p r)
    unfolding write_json_string
    write_redacted-Ends n p (err e) h g = stop n n p e h g
    write_redacted-Ends n p (ok out) h g = write_json_string-Ends n out p g

    redacted_string-Sound :
        (value : Bytes) (spans : List RedactionSpan) (matched : Bool)
        → AreSpans setup.rules value spans
        → Sound (λ (x : Bytes). Unit) (redacted_string json setup value (spans, matched))
    unfolding redact_text_part
    redacted_string-Sound value spans false known = tt
    redacted_string-Sound value spans true known =
        by_cases (redact_text_part-Masked setup.rules laws value value 0 spans known)
      where
        by_cases :
            (redact_text_part value 0 spans ≡ err json_limit)
              ⊎ Shows
                  (is_sensitive setup.rules value)
                  (IsPlaceholder setup.rules)
                  0
                  value
                  (redact_text_part value 0 spans)
            → Sound (λ (x : Bytes). Unit) (redact_text_part value 0 spans)
        by_cases (inl e) = subst (Sound (λ (x : Bytes). Unit)) (sym e) refl
        by_cases (inr (out, e, m)) = subst (Sound (λ (x : Bytes). Unit)) (sym e) tt

    pub process_string_value-Ends :
        (n : ℕ) (value : Bytes) (p : Processor D)
        → Good n p
        → Ends n (process_string_value json setup value p)
    unfolding process_string_value check_text write_json_string redact_text_part
    process_string_value-Ends n value p g =
        by_search (aggregate_redaction_spans value setup.rules)
          (aggregate-AreSpans value setup.rules laws)
      where
        by_output :
            (spans : List RedactionSpan) (matched : Bool) (q : Processor D)
            (o : Option BoundedOutput)
            → AreSpans setup.rules value spans
            → Good n q
            → Ends n (elim o [
              | none ↦ done q
              | some _ ↦
                  write_redacted json setup q (redacted_string json setup value (spans, matched))
            ])
        by_output spans matched q none known h = h
        by_output spans matched q (some o) known h =
            write_redacted-Ends n q (redacted_string json setup value (spans, matched))
              (redacted_string-Sound value spans matched known) h

        by_search :
            (r : Result RedactionError (List RedactionSpan × Bool))
            → WithinLimits (λ (r : List RedactionSpan × Bool). AreSpans setup.rules value r.0) r
            → Ends n (searched_string json setup value p r)
        by_search (err e) known = stop n n p e (ap is_reported known) g
        by_search (ok (spans, matched)) known =
            Ends-bind n n (check_text setup matched p)
              (write_string json setup value (spans, matched)) (check_text-Ends n matched p g)
              (λ q h. by_output spans matched q q.output known h)
