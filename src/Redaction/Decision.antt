-- ===== src/Redaction/Decision.antt =====
-- Which requests PIIRedaction of internal/middleware/redaction.go lets through, and with which body.
use aegis_llm.Prelude.{
  ◌≤◌, ◌≡◌, Bool, true, false, Option, none, some, Bytes, length, ℤ, pos, ltb_ℤ, pos_part,
}
use aegis_llm.Server.Context.{RequestContext, Flow, returned, abort}
use aegis_llm.Middleware.Body.{
  BodyResult, body, body_error, too_large, read_failed, replace_request_body,
}
use aegis_llm.Redaction.Rules.{detect, redact, block, json_limit, invalid_json, pii_blocked}
use aegis_llm.Redaction.Collect.{ArePatterns}
use aegis_llm.Redaction.Processor.{Json}
use aegis_llm.Redaction.Json.{PiiScanner, Processed, processed, refused, process_json}
use aegis_llm.Redaction.Gate.{
  semantic_body_limit, redaction_too_large, redaction_invalid_body, block_error_json,
}

module _ {F D : Type 0} (json : Json D) (scanner : PiiScanner) (limit : ℤ)
    (next : RequestContext F → Flow F) where
  -- What becomes of a request whose body was read, and why.
  pub data RedactionDecision (read : RequestContext F) (result : BodyResult) : Flow F → Type 0 where
    unread_large :
        result ≡ body_error too_large
        → RedactionDecision read result (returned (abort (pos 413) redaction_too_large read))
    unread :
        result ≡ body_error read_failed
        → RedactionDecision read result (returned (abort (pos 400) redaction_invalid_body read))
    large :
        (b : Bytes)
        → result ≡ body b
        → ltb_ℤ (semantic_body_limit limit) (pos (length b)) ≡ true
        → RedactionDecision read result (returned (abort (pos 413) redaction_too_large read))
    complex :
        (b : Bytes) (found : Bool)
        → result ≡ body b
        → ltb_ℤ (semantic_body_limit limit) (pos (length b)) ≡ false
        → process_json json scanner b (semantic_body_limit limit) ≡ refused json_limit found
        → RedactionDecision read result (returned (abort (pos 413) redaction_too_large read))
    malformed :
        (b : Bytes) (found : Bool)
        → result ≡ body b
        → ltb_ℤ (semantic_body_limit limit) (pos (length b)) ≡ false
        → process_json json scanner b (semantic_body_limit limit) ≡ refused invalid_json found
        → RedactionDecision read result (returned (abort (pos 400) redaction_invalid_body read))
    blocked :
        (b : Bytes) (found : Bool)
        → result ≡ body b
        → ltb_ℤ (semantic_body_limit limit) (pos (length b)) ≡ false
        → process_json json scanner b (semantic_body_limit limit) ≡ refused pii_blocked found
        → RedactionDecision read result (returned (abort (pos 400) block_error_json read))
    scanned :
        (b : Bytes) (out : Option Bytes) (found : Bool)
        → result ≡ body b
        → ltb_ℤ (semantic_body_limit limit) (pos (length b)) ≡ false
        → scanner.mode ≡ detect
        → process_json json scanner b (semantic_body_limit limit) ≡ processed out found
        → RedactionDecision read result (next read)
    clean :
        (b : Bytes)
        → result ≡ body b
        → ltb_ℤ (semantic_body_limit limit) (pos (length b)) ≡ false
        → scanner.mode ≡ block
        → process_json json scanner b (semantic_body_limit limit) ≡ processed none false
        → RedactionDecision read result (next read)
    redacted :
        (b out : Bytes) (found : Bool)
        → result ≡ body b
        → ltb_ℤ (semantic_body_limit limit) (pos (length b)) ≡ false
        → scanner.mode ≡ redact
        → process_json json scanner b (semantic_body_limit limit) ≡ processed (some out) found
        → length out ≤ pos_part (semantic_body_limit limit)
        → RedactionDecision read result (next (replace_request_body read out))

  module _ (laws : ArePatterns scanner.rules) (read : RequestContext F) (b : Bytes)
      (fits : ltb_ℤ (semantic_body_limit limit) (pos (length b)) ≡ false) where
    abbrev run : Processed
    run = process_json json scanner b (semantic_body_limit limit)
