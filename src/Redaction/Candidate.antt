-- ===== src/Redaction/Candidate.antt =====
-- What canonicalNumericPIICandidate of internal/middleware/redaction.go answers.
use aegis_llm.Prelude.{
  refl, Bool, ◌||◌, Result, Bytes, Option, none, some, true, false, ltb_ℤ, ℤ, pos, if_elim, ◌-ℤ◌,
  ◌+ℤ◌, ◌==◌, [], ◌∷◌,
}
use aegis_llm.Redaction.Rules.{RedactionError, max_semantic_json_string_bytes}
use aegis_llm.Redaction.Number.{
  split_at, is_exponent_mark, with_parsed, with_mantissa, parse_int, candidate_at,
  canonical_numeric_pii_candidate,
}
use aegis_llm.Redaction.Inspected.{Sound}

abbrev Answered : Result RedactionError (Option Bytes) → Type 0
Answered = Sound (λ (x : Option Bytes). Unit)

parsed-Sound :
    (negative : Bool) (mantissa : Bytes) (o : Option ℤ) → Answered (with_parsed negative mantissa o)
unfolding split_at candidate_at ◌+ℤ◌ ◌-ℤ◌
parsed-Sound negative mantissa none = refl
parsed-Sound negative mantissa (some exponent) =
    if_elim Answered
      (ltb_ℤ (pos max_semantic_json_string_bytes) exponent
        || ltb_ℤ exponent (pos 0 -ℤ pos max_semantic_json_string_bytes))
      (λ _. refl) (λ _. tt)

mantissa-Sound :
    (negative : Bool) (parts : Bytes × Option Bytes) → Answered (with_mantissa negative parts)
unfolding split_at parse_int candidate_at ◌+ℤ◌ ◌-ℤ◌
mantissa-Sound negative (mantissa, none) = tt
mantissa-Sound negative (mantissa, some text) = parsed-Sound negative mantissa (parse_int text)

pub candidate-Sound : (raw : Bytes) → Answered (canonical_numeric_pii_candidate raw)
unfolding canonical_numeric_pii_candidate split_at parse_int candidate_at ◌+ℤ◌ ◌-ℤ◌
candidate-Sound [] = mantissa-Sound false (split_at is_exponent_mark [])
candidate-Sound (c ∷ s) =
    if_elim Answered (c == b'-') (λ _. mantissa-Sound true (split_at is_exponent_mark s))
      (λ _. mantissa-Sound false (split_at is_exponent_mark (c ∷ s)))
