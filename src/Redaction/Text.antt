-- ===== src/Redaction/Text.antt =====
-- internal/middleware/redaction.go: redactTextPart, and the search and rewriting of a whole text.
use aegis_llm.Prelude.{
  ℕ, ◌+◌, ◌-◌, Bool, true, false, ◌||◌, ◌&&◌, List, [], ◌∷◌, ◌++◌, Result, ok, err, ltb, leb,
  length, drop, Bytes, if◌then◌else◌, ℤ, pos, ltb_ℤ, ◌+ℤ◌, ◌-ℤ◌, ◌>>=◌, not,
}
use aegis_llm.Redaction.Rules.{
  RedactionSpan, RedactionError, json_limit, slice_panic, max_semantic_json_string_bytes,
}
use aegis_llm.Prelude.{take}
use aegis_llm.Redaction.Spans.{max, min}

-- `s[from:to]`; out of range, Go panics.
abbrev pub slice : Bytes → ℕ → ℕ → Result RedactionError Bytes
slice s from to =
    if ltb to from || ltb (length s) to
    then err slice_panic
    else ok (take (to - from) (drop from s))

-- The part of a span inside a text that stands at a position.
abbrev pub clip_start : ℕ → RedactionSpan → ℕ
clip_start global_start span = max global_start span.start

abbrev pub clip_end : ℕ → RedactionSpan → ℕ
clip_end global_end span = min global_end span.end

abbrev pub is_outside : ℕ → ℕ → RedactionSpan → Bool
is_outside from to span = leb (clip_end to span) (clip_start from span)

-- The first loop of `redactTextPart`: whether a span is touched; its state is the length of the
-- output so far.
unfoldable pub measure : ℕ → ℕ → List RedactionSpan → ℤ → Bool → Result RedactionError Bool
unfolding ◌+ℤ◌ ◌-ℤ◌
measure from to [] output_len touched = ok touched
measure from to (span ∷ rest) output_len touched =
    let outside = is_outside from to span in
    let longer =
      output_len
      +ℤ (pos (length span.replacement) -ℤ pos (clip_end to span - clip_start from span)) in
    let later =
      measure from to rest (if outside then output_len else longer)
        (if outside then touched else true) in
    if not outside && ltb_ℤ (pos max_semantic_json_string_bytes) longer
    then err json_limit
    else later

-- The second loop: the output, from the cursor.
unfoldable pub rebuild : Bytes → ℕ → ℕ → List RedactionSpan → ℕ → Result RedactionError Bytes
unfolding take
rebuild text from to [] cursor = slice text (cursor - from) (length text)
rebuild text from to (span ∷ rest) cursor =
    let outside = is_outside from to span in
    let later = rebuild text from to rest (if outside then cursor else clip_end to span) in
    if outside
    then later
    else (slice text (cursor - from) (clip_start from span - from)
        >>= (λ kept. later >>= (λ tail. ok (kept ++ (span.replacement ++ tail)))))

-- `redactTextPart`
unfoldable pub redact_text_part : Bytes → ℕ → List RedactionSpan → Result RedactionError Bytes
unfolding measure rebuild
redact_text_part text global_start spans =
    let global_end = global_start + length text in
    measure global_start global_end spans (pos (length text)) false >>= (λ touched.
      if not touched then ok text else rebuild text global_start global_end spans global_start)
