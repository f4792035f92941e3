-- ===== src/Redaction/Gate.antt =====
-- internal/middleware/redaction.go: the middleware PIIRedaction and the piiScanner.
use aegis_llm.Prelude.{
  ℕ, Bool, List, [], ◌∷◌, Bytes, codes, Option, none, some, if◌then◌else◌, ℤ, pos, ltb_ℤ, leb_ℤ,
  length,
}
use aegis_llm.Server.Context.{RequestContext, Flow, returned, abort}
use aegis_llm.Middleware.Body.{
  default_max_request_body_size, BodyResult, body, body_error, too_large, read_failed,
  read_request_body, replace_request_body,
}
use aegis_llm.Redaction.Rules.{
  Pattern, RedactionRule, RedactionMode, detect, redact, block, RedactionError, json_limit,
  invalid_json, pii_blocked, slice_panic, out_of_fuel, default_redaction_rules,
  max_semantic_request_body_bytes,
}
use aegis_llm.Redaction.Processor.{Json}
use aegis_llm.Redaction.Json.{PiiScanner, Processed, processed, refused, process_json}

-- `RedactionConfig`; an empty mode is `none`.
pub record RedactionConfig : Type 0 where
  pub mode : Option RedactionMode
  pub rules : List RedactionRule
  pub max_request_body_size : ℤ

-- `PIIFinding`
pub record PiiFinding : Type 0 where
  pub rule : Bytes
  pub start : ℕ
  pub end : ℕ

-- `newPIIScanner`, with `regexp.MustCompile` as a parameter.
unfoldable pub new_pii_scanner : (Bytes → Pattern) → RedactionConfig → PiiScanner
unfolding default_redaction_rules
new_pii_scanner compile cfg = record {
  mode = elim cfg.mode [ none ↦ redact | some m ↦ m ];
  rules = elim cfg.rules [ [] ↦ default_redaction_rules compile | ◌∷◌ r rs ↦ r ∷ rs ];
}

-- The first match of a rule.
abbrev finding : RedactionRule → List (ℕ × ℕ) → List PiiFinding
finding rule [] = []
finding rule (m ∷ ms) = record { rule = rule.name; start = m.0; end = m.1 } ∷ []

-- `Scan`
unfoldable pub scan : List RedactionRule → Bytes → List PiiFinding
scan [] text = []
scan (rule ∷ rules) text =
    first_of (if rule.enabled then finding rule (rule.pattern.find_all text) else [])
      (scan rules text)
  where
    first_of : List PiiFinding → List PiiFinding → List PiiFinding
    first_of [] later = later
    first_of (f ∷ fs) later = f ∷ []

abbrev pub redaction_too_large : Bytes
redaction_too_large =
    codes "{\"error\":{\"message\":\"request body too large\",\"type\":\"invalid_request_error\"}}"

abbrev pub redaction_invalid_body : Bytes
redaction_invalid_body =
    codes "{\"error\":{\"message\":\"invalid request body\",\"type\":\"invalid_request_error\"}}"

-- `blockErrorJSON`
abbrev pub block_error_json : Bytes
block_error_json =
    codes
      "{\"error\":{\"message\":\"request blocked: contains personally identifiable information\",\"type\":\"content_policy_error\"}}"

-- The limit of the bodies that are processed.
abbrev pub semantic_body_limit : ℤ → ℤ
semantic_body_limit limit =
    let positive = if leb_ℤ limit (pos 0) then default_max_request_body_size else limit in
    if leb_ℤ positive (pos max_semantic_request_body_bytes)
    then positive
    else pos max_semantic_request_body_bytes

module _ {F D : Type 0} (json : Json D) (scanner : PiiScanner) (limit : ℤ)
    (next : RequestContext F → Flow F) where
  -- The answer to an error of `ProcessJSON`.
  unfoldable pub refuse_body : RedactionError → RequestContext F → Flow F
  unfolding abort
  refuse_body json_limit ctx = returned (abort (pos 413) redaction_too_large ctx)
  refuse_body pii_blocked ctx = returned (abort (pos 400) block_error_json ctx)
  refuse_body invalid_json ctx = returned (abort (pos 400) redaction_invalid_body ctx)
  refuse_body slice_panic ctx = returned (abort (pos 400) redaction_invalid_body ctx)
  refuse_body out_of_fuel ctx = returned (abort (pos 400) redaction_invalid_body ctx)

  -- The body that the request goes on with; in the modes that write none it stays as it is.
  abbrev pub with_processed : Option Bytes → RequestContext F → RequestContext F
  unfolding replace_request_body
  with_processed none ctx = replace_request_body ctx []
  with_processed (some b) ctx = replace_request_body ctx b

  abbrev pub forward : RedactionMode → Option Bytes → Bool → RequestContext F → Flow F
  unfolding abort
  forward detect out found ctx = next ctx
  forward block out found ctx =
      if found then returned (abort (pos 400) block_error_json ctx) else next ctx
  forward redact out found ctx = next (with_processed out ctx)

  abbrev pub decide : RequestContext F → Processed → Flow F
  unfolding refuse_body
  decide ctx (refused e found) = refuse_body e ctx
  decide ctx (processed out found) = forward scanner.mode out found ctx

  abbrev pub with_body : RequestContext F → BodyResult → Flow F
  unfolding process_json abort
  with_body ctx (body_error too_large) = returned (abort (pos 413) redaction_too_large ctx)
  with_body ctx (body_error read_failed) = returned (abort (pos 400) redaction_invalid_body ctx)
  with_body ctx (body b) =
      if ltb_ℤ (semantic_body_limit limit) (pos (length b))
      then returned (abort (pos 413) redaction_too_large ctx)
      else decide ctx (process_json json scanner b (semantic_body_limit limit))

  -- `PIIRedaction`, with the rest of the chain.
  unfoldable pub pii_redaction : RequestContext F → Flow F
  unfolding read_request_body
  pii_redaction ctx =
      let (read, result) = read_request_body ctx (semantic_body_limit limit) in
      with_body read result
