-- ===== src/VirtualKey/Token.antt =====
-- The text of a virtual key: `sign`, the end of `Issue`, and `ValidateAt` of
-- internal/virtualkey/virtualkey.go. HMAC-SHA-256, base64 and encoding/json are a parameter.
use aegis_llm.Prelude.{
  ℕ, Bool, not, ◌==◌, ltb, ℤ, pos, ltb_ℤ, Option, none, some, List, [], ◌∷◌, ◌++◌, Bytes, codes,
  length, str_eq, Result, ok, err, if◌then◌else◌,
}
use aegis_llm.Revocation.Writer.{max_token_ttl}
use aegis_llm.VirtualKey.Claims.{Claims, IssueOptions, KeyError, issue, validate_claims}

abbrev pub min_signing_key_bytes : ℕ
min_signing_key_bytes = 32

abbrev pub max_encoded_token_bytes : ℕ
max_encoded_token_bytes = 16384

-- `decode` is `base64.RawURLEncoding.DecodeString`, `mac key` is HMAC-SHA-256, `header` is the JSON of
-- the header, `algorithm` reads the field `alg` of such JSON, `write_claims` and `read_claims` are
-- `json.Marshal` and `json.Unmarshal` of the claims.
pub record Crypto (F : Type 0) : Type 0 where
  pub encode : Bytes → Bytes
  pub decode : Bytes → Option Bytes
  pub mac : Bytes → Bytes → Bytes
  pub header : Bytes
  pub algorithm : Bytes → Option Bytes
  pub write_claims : Claims F → Option Bytes
  pub read_claims : Bytes → Option (Claims F)

pub data TokenError : Type 0 where
  short_signing_key long_token long_max_ttl bad_format bad_header bad_algorithm bad_signature :
      TokenError
  bad_payload unencodable : TokenError
  bad_claims : KeyError → TokenError

abbrev pub dot : Bytes
dot = b'.' ∷ []

abbrev pub cons_first : ℕ → List Bytes → List Bytes
cons_first c [] = (c ∷ []) ∷ []
cons_first c (p ∷ ps) = (c ∷ p) ∷ ps

-- `strings.Split(token, ".")`
unfoldable pub split_dots : Bytes → List Bytes
split_dots [] = [] ∷ []
split_dots (c ∷ s) = let rest = split_dots s in if c == b'.' then [] ∷ rest else cons_first c rest

-- `strings.Join(segments, ".")`
abbrev pub join_dots : List Bytes → Bytes
join_dots [] = []
join_dots (p ∷ []) = p
join_dots (p ∷ q ∷ ps) = p ++ (dot ++ join_dots (q ∷ ps))

module _ {F : Type 0} (crypto : Crypto F) where
  abbrev pub signing_input : Bytes → Bytes
  signing_input raw = join_dots (crypto.encode crypto.header ∷ crypto.encode raw ∷ [])

  abbrev pub segments : Bytes → Bytes → List Bytes
  segments key raw =
      crypto.encode crypto.header
      ∷ crypto.encode raw
      ∷ crypto.encode (crypto.mac key (signing_input raw))
      ∷ []

  -- `sign`
  unfoldable pub sign : Bytes → Claims F → Option Bytes
  sign key claims = elim (crypto.write_claims claims) [
    | none ↦ none
    | some raw ↦ some (join_dots (segments key raw))
  ]

  abbrev pub bounded_token : Claims F → Option Bytes → Result TokenError (Bytes × Claims F)
  bounded_token claims none = err unencodable
  bounded_token claims (some token) =
      if ltb max_encoded_token_bytes (length token) then err long_token else ok (token, claims)

  abbrev pub sign_issued : Bytes → Result KeyError (Claims F) → Result TokenError (Bytes × Claims F)
  sign_issued key (err e) = err (bad_claims e)
  sign_issued key (ok claims) = bounded_token claims (sign key claims)

  -- `Issue`: a token and its claims.
  unfoldable pub issue_token :
      (F → Bool) → Bytes → Option Bytes → IssueOptions F → Result TokenError (Bytes × Claims F)
  unfolding issue sign
  issue_token is_negative key random o =
      if ltb (length key) min_signing_key_bytes
      then err short_signing_key
      else sign_issued key (issue is_negative random o)

  abbrev pub checked : (F → Bool) → Bytes → ℤ → ℤ → Claims F → Result TokenError (Claims F)
  checked is_negative expected max_ttl now claims =
      elim (validate_claims is_negative claims expected max_ttl now) [
        | some e ↦ err (bad_claims e)
        | none ↦ ok claims
      ]

  -- `ValidateAt` from the decoding of the claims.
  unfoldable pub validate_payload :
      (F → Bool) → Bytes → ℤ → ℤ → Bytes → Result TokenError (Claims F)
  unfolding validate_claims
  validate_payload is_negative expected max_ttl now payload = elim (crypto.decode payload) [
    | none ↦ err bad_payload
    | some raw ↦ elim (crypto.read_claims raw) [
      | none ↦ err bad_payload
      | some claims ↦ checked is_negative expected max_ttl now claims
    ]
  ]

  -- `subtle.ConstantTimeCompare(signature, mac.Sum(nil)) == 1`
  abbrev pub is_signed : Bytes → Bytes → Bytes → Bytes → Bool
  is_signed key header payload signature =
      str_eq signature (crypto.mac key (header ++ (dot ++ payload)))

  -- `ValidateAt` for the three parts of a token.
  unfoldable pub validate_parts :
      (F → Bool) → Bytes → Bytes → ℤ → ℤ → List Bytes → Result TokenError (Claims F)
  unfolding str_eq validate_payload
  validate_parts is_negative key expected max_ttl now (header ∷ payload ∷ signature ∷ []) =
      elim (crypto.decode header) [
        | none ↦ err bad_header
        | some json ↦ elim (crypto.algorithm json) [
          | none ↦ err bad_header
          | some alg ↦
              if not (str_eq alg (codes "HS256"))
              then err bad_algorithm
              else elim (crypto.decode signature) [
                | none ↦ err bad_signature
                | some sum ↦
                    if not (is_signed key header payload sum)
                    then err bad_signature
                    else validate_payload is_negative expected max_ttl now payload
              ]
        ]
      ]
  validate_parts is_negative key expected max_ttl now parts = err bad_format

  -- `ValidateAt`; `now` is in seconds.
  unfoldable pub validate_at :
      (F → Bool) → Bytes → Bytes → Bytes → ℤ → ℤ → Result TokenError (Claims F)
  unfolding split_dots validate_parts
  validate_at is_negative token key expected max_ttl now =
      if ltb_ℤ (pos max_token_ttl) max_ttl
      then err long_max_ttl
      else if ltb max_encoded_token_bytes (length token)
      then err long_token
      else if ltb (length key) min_signing_key_bytes
      then err short_signing_key
      else validate_parts is_negative key expected max_ttl now (split_dots token)
