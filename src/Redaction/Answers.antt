-- ===== src/Redaction/Answers.antt =====
-- What ProcessJSON of internal/middleware/redaction.go answers.
use mathlib.Core.Path.{subst}
use aegis_llm.Prelude.{
  ℕ, ◌+◌, ◌-◌, ◌≤◌, ◌≡◌, refl, ap, Bool, true, false, ◌||◌, ◌++◌, ltb, length, Bytes, Option, none,
  some, arith, if_elim, if◌then◌else◌, Result, ok, err, length-append, is_some, ℤ, pos, leb_ℤ,
  pos_part,
}
use aegis_llm.Redaction.Rules.{
  RedactionMode, detect, redact, block, RedactionError, json_limit, invalid_json,
  max_semantic_request_body_bytes,
}
use aegis_llm.Redaction.Spans.{min}
use aegis_llm.Redaction.Collect.{ArePatterns}
use aegis_llm.Redaction.Processor.{
  Json, TokenResult, token, end_of_input, malformed, BoundedOutput, append_output, grown_capacity,
  Setup, Processor, Ending, done, failed, is_block,
}
use aegis_llm.Redaction.Inspect.{depth_fuel}
use aegis_llm.Redaction.Inspected.{is_reported}
use aegis_llm.Redaction.Structure.{root}
use aegis_llm.Redaction.Json.{
  process_value, Processed, processed, refused, PiiScanner, output_for, output_bytes, setup_for,
  new_processor, finish, process_json,
}
use aegis_llm.Redaction.Kept.{Invariant, Ends}
use aegis_llm.Redaction.KeptJson.{process_value-Ends}

-- An answer, or an error of the code.
abbrev pub IsAnswer : Processed → Type 0
IsAnswer (processed out found) = Unit
IsAnswer (refused e found) = is_reported e ≡ true

-- A body of the answer is within the limit.
abbrev pub IsWithin : ℤ → Processed → Type 0
IsWithin output_max (refused e found) = Unit
IsWithin output_max (processed none found) = Unit
IsWithin output_max (processed (some out) found) =
    (length out ≤ pos_part output_max) × (length out ≤ max_semantic_request_body_bytes)

-- No body, and no match.
abbrev pub IsClean : Processed → Type 0
IsClean (refused e found) = Unit
IsClean (processed out found) = (out ≡ none) × (found ≡ false)

-- There is a body.
abbrev pub IsWritten : Processed → Type 0
IsWritten (refused e found) = Unit
IsWritten (processed out found) = is_some out ≡ true

-- What the output holds is within its capacity, and its capacity within its limit.
abbrev pub OutputWithin : ℕ → Option BoundedOutput → Type 0
OutputWithin limit none = Unit
OutputWithin limit (some o) =
    (length o.bytes ≤ o.capacity) × (o.capacity ≤ o.limit) × (o.limit ≡ limit)

append-Within :
    (limit : ℕ) (value : Bytes) (o grown : BoundedOutput)
    → OutputWithin limit (some o)
    → append_output value o ≡ ok grown
    → OutputWithin limit (some grown)
unfolding append_output
append-Within limit value o grown h = by_room
  where
    new : BoundedOutput
    new = record o {
      bytes = o.bytes ++ value;
      capacity = grown_capacity (length o.bytes + length value) o;
    }

    within : ltb (o.limit - length o.bytes) (length value) ≡ false → OutputWithin limit (some new)
    within e = (ground (arith, e, h.0, h.1, length-append o.bytes value), ground (arith, h.1), h.2)

    by_room :
        (if ltb (o.limit - length o.bytes) (length value) then err json_limit else ok new)
          ≡ ok grown
        → OutputWithin limit (some grown)
    by_room =
        if_elim (λ r. r ≡ ok grown → OutputWithin limit (some grown))
          (ltb (o.limit - length o.bytes) (length value)) (λ _ q. absurd cc)
          (λ e q. subst (λ x. OutputWithin limit (some x)) (ok_injective q) (within e))
      where
        ok_injective : Path (Result RedactionError BoundedOutput) (ok new) (ok grown) → new ≡ grown
        ok_injective q = cc

module _ {D : Type 0} (json : Json D) (setup : Setup) where
  trivial_invariant : Invariant json setup (λ p. Unit) (λ p. Unit)
  trivial_invariant = record {
    read = λ p d q. tt;
    count = λ p n q. tt;
    grow = λ p o grown value q e fits a. tt;
    match = λ p e q. tt;
    fail = λ p q. tt;
    fail_match = λ p q. tt;
    fail_back = λ p d q. tt;
    fail_output = λ p sub q r. tt;
  }

  output_invariant :
      (limit : ℕ)
      → Invariant json setup (λ p. OutputWithin limit p.output) (λ p. OutputWithin limit p.output)
  output_invariant limit = record {
    read = λ p d q. q;
    count = λ p n q. q;
    grow = λ p o grown value q e fits a.
        append-Within limit value o grown (subst (OutputWithin limit) e q) a;
    match = λ p e q. q;
    fail = λ p q. q;
    fail_match = λ p q. q;
    fail_back = λ p d q. q;
    fail_output = λ p sub q r. r;
  }

  -- Nothing is written, and nothing was found yet.
  abbrev Clean : Processor D → Type 0
  Clean p = (p.output ≡ none) × (p.found_pii ≡ false)

  Clean-invariant : is_block setup.mode ≡ true → Invariant json setup Clean (λ p. Unit)
  Clean-invariant blocks = record {
    read = λ p d q. q;
    count = λ p n q. q;
    grow = λ p o grown value q e fits a. absurd (ground (arith, q.0, e));
    match = λ p e q. absurd (ground (arith, e, blocks));
    fail = λ p q. tt;
    fail_match = λ p q. tt;
    fail_back = λ p d q. tt;
    fail_output = λ p sub q r. tt;
  }

  written_invariant : Invariant json setup (λ p. is_some p.output ≡ true) (λ p. Unit)
  written_invariant = record {
    read = λ p d q. q;
    count = λ p n q. q;
    grow = λ p o grown value q e fits a. refl;
    match = λ p e q. q;
    fail = λ p q. tt;
    fail_match = λ p q. tt;
    fail_back = λ p d q. tt;
    fail_output = λ p sub q r. tt;
  }

module _ {D : Type 0} (json : Json D) (scanner : PiiScanner)
    (laws : ArePatterns scanner.rules) where
  -- What holds of a processor that ends well holds of the answer.
  finish-all :
      {Q R : Processor D → Type 0} (limit : ℕ)
      (inv : Invariant json (setup_for json scanner limit) Q R) (P : Processed → Type 0)
      (o : Ending D)
      → Ends inv 1 o
      → ((p : Processor D) → Q p → P (processed (output_bytes p.output) p.found_pii))
      → ((e : RedactionError) (found : Bool) → is_reported e ≡ true → P (refused e found))
      → P (finish json scanner o)
  finish-all limit inv P (failed e p) h good bad = bad e p.found_pii h.0
  finish-all limit inv P (done p) h good bad = by_end (json.next p.decoder).1
    where
      by_end :
          (r : TokenResult)
          → P (elim r [
            | end_of_input ↦ processed (output_bytes p.output) p.found_pii
            | token t ↦ refused invalid_json p.found_pii
            | malformed ↦ refused invalid_json p.found_pii
          ])
      by_end end_of_input = good p h.2
      by_end (token t) = bad invalid_json p.found_pii refl
      by_end malformed = bad invalid_json p.found_pii refl

  process_json-all :
      {Q R : Processor D → Type 0} (body : Bytes) (output_max : ℤ)
      (inv : Invariant json
        (setup_for json scanner (min (pos_part output_max) max_semantic_request_body_bytes))
        Q
        R)
      (P : Processed → Type 0)
      → Q (
          new_processor json scanner body
            (min (pos_part output_max) max_semantic_request_body_bytes))
      → ((p : Processor D) → Q p → P (processed (output_bytes p.output) p.found_pii))
      → ((e : RedactionError) (found : Bool) → is_reported e ≡ true → P (refused e found))
      → P (process_json json scanner body output_max)
  unfolding process_json process_value
  process_json-all body output_max inv P q good bad =
      let limit = min (pos_part output_max) max_semantic_request_body_bytes in
      if_elim P (ltb max_semantic_request_body_bytes (length body) || leb_ℤ output_max (pos 0))
        (λ _. bad json_limit false refl)
        (λ _.
          finish-all limit inv P
            (process_value json (setup_for json scanner limit) depth_fuel 0 root none
              (new_processor json scanner body limit))
            (process_value-Ends inv laws depth_fuel 0 0 root none
              (new_processor json scanner body limit) (omega arith) (omega arith)
              (omega arith, omega arith, q))
            good bad)

  -- `ProcessJSON` ends for every body and every decoder, whatever the decoder answers: with an answer or
  -- an error of the code. The loops stop at their bounds, and no slice is out of range.
  pub process_json-IsAnswer :
      (body : Bytes) (output_max : ℤ) → IsAnswer (process_json json scanner body output_max)
  process_json-IsAnswer body output_max =
      process_json-all body output_max (trivial_invariant json _) IsAnswer tt (λ p q. tt)
        (λ e found r. r)

  -- The canonical body is within the limit that is asked for, and within 4 MiB.
  pub process_json-IsWithin :
      (body : Bytes) (output_max : ℤ)
      → IsWithin output_max (process_json json scanner body output_max)
  process_json-IsWithin body output_max =
      process_json-all body output_max (output_invariant json _ limit) (IsWithin output_max)
        (initial scanner.mode) (λ p q. final p.output p.found_pii q) (λ e found r. tt)
    where
      limit : ℕ
      limit = min (pos_part output_max) max_semantic_request_body_bytes

      initial : (mode : RedactionMode) → OutputWithin limit (output_for mode limit)
      initial detect = tt
      initial block = tt
      initial redact = (omega arith, ground arith, refl)

      final :
          (o : Option BoundedOutput) (found : Bool)
          → OutputWithin limit o
          → IsWithin output_max (processed (output_bytes o) found)
      final none found q = tt
      final (some o) found q = (ground (arith, q.0, q.1, q.2), ground (arith, q.0, q.1, q.2))

  -- In the mode that blocks, what passes had no match in any of its names, texts and numbers.
  pub process_json-IsClean :
      (body : Bytes) (output_max : ℤ)
      → scanner.mode ≡ block
      → IsClean (process_json json scanner body output_max)
  process_json-IsClean body output_max e =
      process_json-all body output_max (Clean-invariant json _ (ap is_block e)) IsClean
        (ap (λ m. output_for m (min (pos_part output_max) max_semantic_request_body_bytes)) e, refl)
        (λ p q. (ap output_bytes q.0, q.1)) (λ x found r. tt)

  -- In the mode that redacts there is always a body to go on with.
  pub process_json-IsWritten :
      (body : Bytes) (output_max : ℤ)
      → scanner.mode ≡ redact
      → IsWritten (process_json json scanner body output_max)
  process_json-IsWritten body output_max e =
      process_json-all body output_max (written_invariant json _) IsWritten
        (ap
          (λ m. is_some (output_for m (min (pos_part output_max) max_semantic_request_body_bytes)))
          e)
        (λ p q. kept p.output q) (λ x found r. tt)
    where
      kept : (o : Option BoundedOutput) → is_some o ≡ true → is_some (output_bytes o) ≡ true
      kept none q = q
      kept (some o) q = refl
