-- ===== src/Middleware/Auth.antt =====
-- `Auth` of internal/middleware/auth.go: the bearer token, its claims and their revocation.
use aegis_llm.Prelude.{
  ℕ, ◌+◌, Bool, true, false, ◌&&◌, ◌||◌, ◌==◌, leb, ltb, ℤ, pos, Option, none, some, [], ◌∷◌, Bytes,
  codes, length, is_empty, Result, ok, err, if◌then◌else◌,
}
use aegis_llm.Server.Context.{RequestContext, Flow, returned, abort}
use aegis_llm.Server.Pipeline.{Middleware}
use aegis_llm.VirtualKey.Claims.{Claims}
use aegis_llm.VirtualKey.Token.{Crypto, TokenError, validate_at, max_encoded_token_bytes}
use aegis_llm.Revocation.Reader.{Verdict, revoked, allowed, cancelled, unavailable}

-- The store of `AuthConfig` is missing or tells the verdict on an issuer and a key id.
pub record AuthConfig (F : Type 0) : Type 0 where
  pub crypto : Crypto F
  pub is_negative : F → Bool
  pub signing_key : Bytes
  pub issuer : Bytes
  pub expiry : ℤ
  pub revocation : Option (Bytes → Bytes → Verdict)

abbrev pub auth_failure : Bytes
auth_failure =
    codes
      "{\"error\":{\"message\":\"invalid or expired virtual key\",\"type\":\"authentication_error\"}}"

abbrev pub auth_unavailable : Bytes
auth_unavailable =
    codes
      "{\"error\":{\"message\":\"authentication temporarily unavailable\",\"type\":\"authentication_error\"}}"

abbrev cons_left : ℕ → Option (Bytes × Bytes) → Option (Bytes × Bytes)
cons_left c none = none
cons_left c (some (left, right)) = some (c ∷ left, right)

-- `strings.SplitN(s, " ", 2)`, with `none` for a single part
unfoldable pub cut_space : Bytes → Option (Bytes × Bytes)
cut_space [] = none
cut_space (c ∷ s) = let rest = cut_space s in if c == b' ' then some ([], s) else cons_left c rest

abbrev lower : ℕ → ℕ
lower c = if leb b'A' c && leb c b'Z' then c + 32 else c

-- `strings.EqualFold(s, t)`, where no letter of `t` has a case outside ASCII
unfoldable pub equal_fold : Bytes → Bytes → Bool
equal_fold [] [] = true
equal_fold [] (d ∷ t) = false
equal_fold (c ∷ s) [] = false
equal_fold (c ∷ s) (d ∷ t) = (lower c == lower d) && equal_fold s t

-- The token of the header `Authorization`.
unfoldable pub bearer_token : Bytes → Option Bytes
unfolding cut_space equal_fold
bearer_token header =
    if is_empty header || ltb (7 + max_encoded_token_bytes) (length header)
    then none
    else elim (cut_space header) [
      | none ↦ none
      | some (scheme, token) ↦ if equal_fold scheme (codes "Bearer") then some token else none
    ]

module _ {F : Type 0} where
  -- The fields that `Auth` fills from the claims.
  abbrev pub identify : Claims F → RequestContext F → RequestContext F
  identify claims ctx = record ctx {
    virtual_key_id = claims.key_id;
    permissions = claims.models;
    budget = claims.budget_usd;
    key_source = claims.key_source;
    byok_key_id = claims.byok_key_id;
    max_rpm = claims.max_rpm;
    max_tpm = claims.max_tpm;
    max_concurrency = claims.max_concurrency;
  }

  abbrev pub reject : RequestContext F → Flow F
  reject ctx = returned (abort (pos 401) auth_failure ctx)

  abbrev pub give_up : RequestContext F → Flow F
  give_up ctx = returned (abort (pos 503) auth_unavailable ctx)

  -- The verdict on the claims of a token.
  abbrev pub admit : (RequestContext F → Flow F) → RequestContext F → Claims F → Verdict → Flow F
  admit next ctx claims revoked = reject ctx
  admit next ctx claims allowed = next (identify claims ctx)
  admit next ctx claims cancelled = give_up ctx
  admit next ctx claims unavailable = give_up ctx

  -- The verdict of the store, if there is one.
  abbrev pub judge :
      (RequestContext F → Flow F)
      → RequestContext F
      → Claims F
      → Option (Bytes → Bytes → Verdict)
      → Flow F
  judge next ctx claims none = give_up ctx
  judge next ctx claims (some verdict) = admit next ctx claims (verdict claims.issuer claims.key_id)

  abbrev pub check_claims :
      AuthConfig F
      → (RequestContext F → Flow F)
      → RequestContext F
      → Option (Result TokenError (Claims F))
      → Flow F
  check_claims cfg next ctx none = reject ctx
  check_claims cfg next ctx (some (err e)) = reject ctx
  check_claims cfg next ctx (some (ok claims)) = judge next ctx claims cfg.revocation

  -- The claims of the token of a request; `now` is the clock of `Validate`, in seconds.
  unfoldable pub claims_of_request :
      AuthConfig F → ℤ → RequestContext F → Option (Result TokenError (Claims F))
  unfolding bearer_token validate_at
  claims_of_request cfg now ctx = elim (bearer_token ctx.authorization) [
    | none ↦ none
    | some token ↦
        some
          (validate_at cfg.crypto cfg.is_negative token cfg.signing_key cfg.issuer cfg.expiry now)
  ]

  -- `Auth`
  unfoldable pub auth : AuthConfig F → ℤ → Middleware F
  unfolding claims_of_request abort
  auth cfg now next ctx = check_claims cfg next ctx (claims_of_request cfg now ctx)
