-- ===== src/VirtualKey/RoundTrip.antt =====
-- A token that `Issue` of internal/virtualkey/virtualkey.go makes is read back by `ValidateAt`, and what
-- `ValidateAt` accepts carries the signature of the key.
use aegis_llm.Prelude.{
  ℕ, ◌+◌, ◌*◌, ◌/◌, ◌≤◌, ◌<◌, ◌≡◌, refl, ap, ◌∙◌, Bool, true, false, ◌==◌, ltb, ℤ, pos, ltb_ℤ, ◌<ℤ◌,
  half64, Option, none, some, List, [], ◌∷◌, ◌++◌, arith, Bytes, codes, length, any, str_eq_refl,
  str_eq_sound, trim_space, ok, Result-cases, Option-cases, inl, inr,
}
use aegis_llm.Revocation.Writer.{max_token_ttl, second}
use aegis_llm.VirtualKey.Claims.{Claims, IssueOptions, issue, validate_claims}
use aegis_llm.VirtualKey.Issue.{issue-validates}
use aegis_llm.VirtualKey.Token.{
  Crypto, dot, split_dots, signing_input, segments, join_dots, sign, issue_token, bounded_token,
  checked, validate_payload, validate_parts, validate_at, min_signing_key_bytes,
  max_encoded_token_bytes,
}

abbrev pub has_dot : Bytes → Bool
has_dot s = any (λ c. c == b'.') s

-- A text without dots is one part, and a dot ends the part before it.
split_dots-one : (s : Bytes) → has_dot s ≡ false → split_dots s ≡ s ∷ []
unfolding split_dots
split_dots-one [] h = refl
split_dots-one (c ∷ s) h = ground (arith, h, split_dots-one s)

split_dots-cons :
    (s rest : Bytes) → has_dot s ≡ false → split_dots (s ++ (dot ++ rest)) ≡ s ∷ split_dots rest
unfolding split_dots
split_dots-cons [] rest h = refl
split_dots-cons (c ∷ s) rest h = ground (arith, h, split_dots-cons s rest)

-- What the parameter promises: base64 is decoded again and has no dots, the header names HS256, and
-- the JSON of claims of UTF-8 texts and finite amounts is read back.
pub record IsCrypto {F : Type 0} (crypto : Crypto F) (is_text : Claims F → Bool) : Type 0 where
  pub decode-encode : (raw : Bytes) → crypto.decode (crypto.encode raw) ≡ some raw
  pub no_dots : (raw : Bytes) → has_dot (crypto.encode raw) ≡ false
  pub names_algorithm : crypto.algorithm crypto.header ≡ some (codes "HS256")
  pub read-write :
      (c : Claims F) (raw : Bytes)
      → is_text c ≡ true
      → crypto.write_claims c ≡ some raw
      → crypto.read_claims raw ≡ some c

ltb_ℤ-le : (l m : ℕ) {z : ℤ} → z ≡ pos (l * second) → l * second ≤ m → ltb_ℤ (pos m) z ≡ false
ltb_ℤ-le l m e h = rw e (ground arith)

module _ {F : Type 0} (crypto : Crypto F) (is_text : Claims F → Bool) (is_negative : F → Bool) where
  -- The claims of a signed token, where they pass `validateClaims`.
  validate_parts-sign :
      (key expected : Bytes) (max_ttl now : ℤ) (c : Claims F) (raw : Bytes)
      → IsCrypto crypto is_text
      → is_text c ≡ true
      → crypto.write_claims c ≡ some raw
      → validate_claims is_negative c expected max_ttl now ≡ none
      → validate_parts crypto is_negative key expected max_ttl now (segments crypto key raw) ≡ ok c
  unfolding validate_parts validate_payload
  validate_parts-sign key expected max_ttl now c raw laws text written valid =
      rw
        (
          laws.decode-encode crypto.header,
          laws.names_algorithm,
          laws.decode-encode (crypto.mac key (signing_input crypto raw)),
          str_eq_refl (crypto.mac key (signing_input crypto raw)),
          validate_parts,
        )
        (rw (laws.decode-encode raw, laws.read-write c raw text written, validate_payload)
          (rw (valid, checked) refl))

  -- What `Issue` has done when it gives a token.
  record IsSigned (key : Bytes) (token : Bytes) (c : Claims F) : Type 0 where
    raw : Bytes
    written : crypto.write_claims c ≡ some raw
    long_key : ltb (length key) min_signing_key_bytes ≡ false
    short : ltb max_encoded_token_bytes (length token) ≡ false
    joined : token ≡ join_dots (segments crypto key raw)

  bounded_token-sign :
      (key token : Bytes) (d c : Claims F)
      → ltb (length key) min_signing_key_bytes ≡ false
      → bounded_token crypto d (sign crypto key d) ≡ ok (token, c)
      → (d ≡ c) × IsSigned key token c
  unfolding sign
  bounded_token-sign key token d c long h = elim (Option-cases (crypto.write_claims d)) [
    | inl e ↦ ground (arith, h, e)
    | inr (raw, e) ↦
        let same : d ≡ c = ground (arith, h, e) in
        (
          same,
          record {
            raw = raw;
            written = ground (arith, e, same);
            long_key = long;
            short = ground (arith, h, e);
            joined = ground (arith, h, e);
          },
        )
  ]

  issue_token-IsSigned :
      (key : Bytes) (random : Option Bytes) (o : IssueOptions F) (token : Bytes) (c : Claims F)
      → issue_token crypto is_negative key random o ≡ ok (token, c)
      → (issue is_negative random o ≡ ok c) × IsSigned key token c
  unfolding issue_token
  issue_token-IsSigned key random o token c h = elim (Result-cases (issue is_negative random o)) [
    | inl (e, q) ↦ ground (arith, h, q)
    | inr (d, q) ↦
        let (same, signed) =
          bounded_token-sign key token d c (ground (arith, h, q)) (ground (arith, h, q)) in
        (rw same at q, signed)
  ]

  split-segments :
      (key raw : Bytes)
      → IsCrypto crypto is_text
      → split_dots (join_dots (segments crypto key raw)) ≡ segments crypto key raw
  split-segments key raw laws =
      let a = crypto.encode crypto.header in
      let b = crypto.encode raw in
      let m = crypto.encode (crypto.mac key (signing_input crypto raw)) in
      split_dots-cons a (b ++ (dot ++ m)) (laws.no_dots crypto.header)
      ∙ ap (λ ps. a ∷ ps)
          (split_dots-cons b m (laws.no_dots raw)
            ∙ ap (λ ps. b ∷ ps)
                (split_dots-one m (laws.no_dots (crypto.mac key (signing_input crypto raw)))))

  -- A token that `Issue` gives is accepted by `ValidateAt` with the same key, and gives back its claims,
  -- from a minute before the issue until it expires, with the issuer of the options and their maximal
  -- lifetime, where that is a whole number of seconds, the times fit in 64 bits of nanoseconds, the
  -- claims are UTF-8 and finite, and base64 and JSON read what they write.
  pub validate_at-issue_token :
      (key : Bytes) (random : Option Bytes) (o : IssueOptions F) (token : Bytes) (c : Claims F)
      (lifetime now : ℕ)
      → IsCrypto crypto is_text
      → is_text c ≡ true
      → o.max_ttl ≡ pos (lifetime * second)
      → second ≤ o.now
      → o.now + lifetime * second < half64
      → lifetime * second ≤ max_token_ttl
      → o.now / second ≤ now + 60
      → pos now <ℤ c.expires_at
      → issue_token crypto is_negative key random o ≡ ok (token, c)
      → validate_at crypto is_negative token key (trim_space o.issuer) o.max_ttl (pos now) ≡ ok c
  unfolding validate_at
  validate_at-issue_token key random o token c lifetime now laws text whole start fits low early
        live h =
      let (issued, s) = issue_token-IsSigned key random o token c h in
      let valid =
        issue-validates is_negative random o c lifetime now whole start fits early live issued in
      let parts =
        validate_parts-sign key (trim_space o.issuer) o.max_ttl (pos now) c s.raw laws text
          s.written valid in
      let split = split-segments key s.raw laws in
      rw (ltb_ℤ-le lifetime max_token_ttl whole low, s.short, s.long_key, s.joined, split) parts

  -- What an accepted token shows: the signature of its first two parts by the key, and claims that are
  -- valid.
  pub record IsAccepted (key expected : Bytes) (max_ttl now : ℤ) (parts : List Bytes) (c : Claims F)
      : Type 0 where
    header : Bytes
    payload : Bytes
    signature : Bytes
    raw : Bytes
    three : parts ≡ header ∷ payload ∷ signature ∷ []
    signed : crypto.decode signature ≡ some (crypto.mac key (join_dots (header ∷ payload ∷ [])))
    carried : crypto.decode payload ≡ some raw
    claimed : crypto.read_claims raw ≡ some c
    valid : validate_claims is_negative c expected max_ttl now ≡ none

  validate_payload-claims :
      (expected : Bytes) (max_ttl now : ℤ) (payload : Bytes) (c : Claims F)
      → validate_payload crypto is_negative expected max_ttl now payload ≡ ok c
      → (raw : Bytes) × (crypto.decode payload ≡ some raw)
        × (crypto.read_claims raw ≡ some c)
        × (validate_claims is_negative c expected max_ttl now ≡ none)
  unfolding validate_payload
  validate_payload-claims expected max_ttl now payload c h =
      elim (Option-cases (crypto.decode payload)) [
        | inl e ↦ ground (arith, h, e)
        | inr (raw, e) ↦ elim (Option-cases (crypto.read_claims raw)) [
          | inl e2 ↦ ground (arith, h, e, e2)
          | inr (d, e2) ↦ elim (Option-cases (validate_claims is_negative d expected max_ttl now)) [
            | inr (x, e3) ↦ ground (arith, h, e, e2, e3)
            | inl e3 ↦
                let same : d ≡ c = ground (arith, h, e, e2, e3) in
                (raw, e, rw same at e2, rw same at e3)
          ]
        ]
      ]

  validate_parts-IsAccepted :
      (key expected : Bytes) (max_ttl now : ℤ) (parts : List Bytes) (c : Claims F)
      → validate_parts crypto is_negative key expected max_ttl now parts ≡ ok c
      → IsAccepted key expected max_ttl now parts c
  unfolding validate_parts
  validate_parts-IsAccepted key expected max_ttl now [] c h = cc
  validate_parts-IsAccepted key expected max_ttl now (a ∷ []) c h = cc
  validate_parts-IsAccepted key expected max_ttl now (a ∷ b ∷ []) c h = cc
  validate_parts-IsAccepted key expected max_ttl now (a ∷ b ∷ s ∷ d ∷ r) c h = cc
  validate_parts-IsAccepted key expected max_ttl now (a ∷ b ∷ s ∷ []) c h =
      elim (Option-cases (crypto.decode s)) [
        | inl e ↦ ground (arith, h, e)
        | inr (sum, e) ↦
            let same = str_eq_sound sum (crypto.mac key (a ++ (dot ++ b))) (ground (arith, h, e)) in
            let (raw, carried, claimed, valid) =
              validate_payload-claims expected max_ttl now b c (ground (arith, h, e)) in
            record {
              header = a;
              payload = b;
              signature = s;
              raw = raw;
              three = refl;
              signed = rw e (ap some same);
              carried = carried;
              claimed = claimed;
              valid = valid;
            }
      ]

  -- A token that `ValidateAt` accepts has three parts, of which the last is the key's HMAC of the first
  -- two; its claims are the JSON of the second, they pass `validateClaims`, and the key is long enough.
  pub validate_at-IsAccepted :
      (token key expected : Bytes) (max_ttl now : ℤ) (c : Claims F)
      → validate_at crypto is_negative token key expected max_ttl now ≡ ok c
      → IsAccepted key expected max_ttl now (split_dots token) c
        × (min_signing_key_bytes ≤ length key)
  unfolding validate_at
  validate_at-IsAccepted token key expected max_ttl now c h = (
    validate_parts-IsAccepted key expected max_ttl now (split_dots token) c (ground (arith, h)),
    ground (arith, h),
  )
