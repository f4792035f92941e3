-- ===== src/Redaction/Number.antt =====
-- internal/middleware/redaction.go: canonicalNumericPIICandidate and the aliases of field names.
use aegis_llm.Prelude.{
  ℕ, suc, zero, ◌+◌, ◌-◌, ◌*◌, Bool, true, false, ◌||◌, ◌&&◌, not, [], ◌∷◌, ◌++◌, Result, ok, err,
  ltb, leb, ◌==◌, length, drop, Bytes, codes, Option, none, some, if◌then◌else◌, ℤ, pos, negsuc,
  ltb_ℤ, leb_ℤ, ◌+ℤ◌, ◌-ℤ◌, all, str_eq, is_empty, pos_part,
}
use aegis_llm.Redaction.Rules.{
  RedactionError, json_limit, max_semantic_json_string_bytes, max_semantic_numeric_pii_digits,
}
use aegis_llm.Prelude.{take}

-- How many bytes at the front of a text fold to a small letter: the letter, its capital, U+017F for
-- an s, U+212A for a k; 0 if none do.
unfoldable fold_width : ℕ → Bytes → ℕ
fold_width letter [] = 0
fold_width letter (a ∷ []) = if a == letter || a + 32 == letter then 1 else 0
fold_width letter (a ∷ b ∷ []) =
    if a == letter || a + 32 == letter
    then 1
    else (if letter == b's' && a == 0xc5 && b == 0xbf then 2 else 0)
fold_width letter (a ∷ b ∷ c ∷ s) =
    if a == letter || a + 32 == letter
    then 1
    else (if letter == b's' && a == 0xc5 && b == 0xbf
        then 2
        else (if letter == b'k' && a == 0xe2 && b == 0x84 && c == 0xaa then 3 else 0))

-- `strings.EqualFold` with a text of small ASCII letters.
unfoldable pub folds_to : Bytes → Bytes → Bool
unfolding fold_width
folds_to s [] = is_empty s
folds_to s (letter ∷ t) =
    let width = fold_width letter s in not (width == 0) && folds_to (drop width s) t

abbrev is_alias : Bytes → Bytes → Bool
is_alias name key = folds_to key name && not (str_eq key name)

-- `isSecurityFieldAlias`
unfoldable pub is_security_field_alias : Bytes → Bool
unfolding folds_to
is_security_field_alias key = is_alias (codes "model") key || is_alias (codes "stream") key

-- `isContentPartFieldAlias`
unfoldable pub is_content_part_field_alias : Bytes → Bool
unfolding folds_to
is_content_part_field_alias key = is_alias (codes "type") key || is_alias (codes "text") key

-- `strconv.ParseInt(s, 10, 64)` of the digits; a value out of range is left to the test of its size.
unfoldable digits_value : ℕ → Bytes → Option ℕ
digits_value acc [] = some acc
digits_value acc (d ∷ s) =
    let rest = digits_value (acc * 10 + (d - b'0')) s in
    if leb b'0' d && leb d b'9' then rest else none

unfoldable pub parse_int : Bytes → Option ℤ
unfolding digits_value
parse_int [] = none
parse_int (c ∷ s) =
    if c == b'-'
    then negative (digits_value 0 s) s
    else (if c == b'+'
        then positive (digits_value 0 s) s
        else positive (digits_value 0 (c ∷ s)) (c ∷ s))
  where
    positive : Option ℕ → Bytes → Option ℤ
    positive none t = none
    positive (some n) t = if is_empty t then none else some (pos n)

    negative : Option ℕ → Bytes → Option ℤ
    negative none t = none
    negative (some zero) t = if is_empty t then none else some (pos 0)
    negative (some (suc n)) t = some (negsuc n)

-- What stands before and after the first byte that passes a test.
unfoldable pub split_at : (ℕ → Bool) → Bytes → Bytes × Option Bytes
split_at p [] = ([], none)
split_at p (c ∷ s) =
    let (before, after) = split_at p s in if p c then ([], some s) else (c ∷ before, after)

-- `strings.Trim(s, "0") == ""`
abbrev pub is_all_zeros : Bytes → Bool
is_all_zeros s = all (λ c. c == b'0') s

-- `strings.TrimLeft(s, "0")`
unfoldable pub trim_zeros : Bytes → Bytes
trim_zeros [] = []
trim_zeros (c ∷ s) = let rest = trim_zeros s in if c == b'0' then rest else c ∷ s

unfoldable pub zeros : ℕ → Bytes
zeros zero = []
zeros (suc n) = b'0' ∷ zeros n

abbrev zero_text : Bytes
zero_text = b'0' ∷ []

-- The digits of an exact integer, if they are not too many.
abbrev rendered : Bool → Bytes → ℕ → Option Bytes
rendered negative [] zeros_to_append = some zero_text
rendered negative (c ∷ s) zeros_to_append =
    let digits = (c ∷ s) ++ zeros zeros_to_append in
    if ltb max_semantic_numeric_pii_digits (length (c ∷ s) + zeros_to_append)
    then none
    else some (if negative then b'-' ∷ digits else digits)

-- The digits before and after the point, as one integer with the point at a position.
unfoldable pub candidate_at : Bool → Bytes → ℤ → Option Bytes
unfolding take trim_zeros zeros
candidate_at negative digits position =
    if leb_ℤ position (pos 0)
    then (if is_all_zeros digits then some zero_text else none)
    else (let p = pos_part position in
        if ltb p (length digits)
        then (if not (is_all_zeros (drop p digits))
            then none
            else rendered negative (trim_zeros (take p digits)) 0)
        else rendered negative (trim_zeros digits) (p - length digits))

abbrev with_exponent : Bool → ℤ → Bytes × Option Bytes → Option Bytes
with_exponent negative exponent (whole, none) =
    candidate_at negative whole (pos (length whole) +ℤ exponent)
with_exponent negative exponent (whole, some fraction) =
    candidate_at negative (whole ++ fraction) (pos (length whole) +ℤ exponent)

abbrev is_point : ℕ → Bool
is_point c = c == b'.'

abbrev pub is_exponent_mark : ℕ → Bool
is_exponent_mark c = c == b'e' || c == b'E'

abbrev pub with_parsed : Bool → Bytes → Option ℤ → Result RedactionError (Option Bytes)
with_parsed negative mantissa none = err json_limit
with_parsed negative mantissa (some exponent) =
    if ltb_ℤ (pos max_semantic_json_string_bytes) exponent
      || ltb_ℤ exponent (pos 0 -ℤ pos max_semantic_json_string_bytes)
    then err json_limit
    else ok (with_exponent negative exponent (split_at is_point mantissa))

abbrev pub with_mantissa : Bool → Bytes × Option Bytes → Result RedactionError (Option Bytes)
with_mantissa negative (mantissa, none) =
    ok (with_exponent negative (pos 0) (split_at is_point mantissa))
with_mantissa negative (mantissa, some text) = with_parsed negative mantissa (parse_int text)

-- `canonicalNumericPIICandidate`
unfoldable pub canonical_numeric_pii_candidate : Bytes → Result RedactionError (Option Bytes)
unfolding split_at candidate_at parse_int ◌+ℤ◌ ◌-ℤ◌
canonical_numeric_pii_candidate [] = with_mantissa false (split_at is_exponent_mark [])
canonical_numeric_pii_candidate (c ∷ s) =
    if c == b'-'
    then with_mantissa true (split_at is_exponent_mark s)
    else with_mantissa false (split_at is_exponent_mark (c ∷ s))
