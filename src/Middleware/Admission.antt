-- ===== src/Middleware/Admission.antt =====
-- Which requests `Auth` of internal/middleware/auth.go lets through, alone and behind the revocation of
-- internal/revocation.
use aegis_llm.Prelude.{
  ◌≡◌, ◌≢◌, refl, true, false, ℤ, ◌<ℤ◌, pos, pos_part, Option, none, some, Bytes, Result, ok, err,
  inl, inr, ◌⊎◌,
}
use aegis_llm.Server.Context.{RequestContext, Flow, returned, abort}
use aegis_llm.VirtualKey.Claims.{Claims}
use aegis_llm.VirtualKey.Token.{TokenError}
use aegis_llm.Revocation.File.{Disk, Codec, read_snapshot}
use aegis_llm.Revocation.Writer.{Writer, Attempt, CommitResult, revoke, desired_retention}
use aegis_llm.Revocation.Reader.{
  ReaderState, refresh, check, Verdict, revoked, allowed, cancelled, unavailable,
}
use aegis_llm.Revocation.Revoke.{IsCodec, revoke-denied}
use aegis_llm.Middleware.Auth.{
  AuthConfig, auth, auth_failure, auth_unavailable, claims_of_request, judge, admit, check_claims,
}

module _ {F : Type 0} (cfg : AuthConfig F) (now : ℤ) where
  -- What becomes of a request, and why: a 401 without a valid token, a 503 without a verdict, a 401 for a
  -- revoked key, and else the chain, on a context that tells the claims.
  pub data Decision (next : RequestContext F → Flow F) (ctx : RequestContext F)
      : Flow F → Type 0 where
    no_token :
        claims_of_request cfg now ctx ≡ none
        → Decision next ctx (returned (abort (pos 401) auth_failure ctx))
    bad_token :
        (e : TokenError)
        → claims_of_request cfg now ctx ≡ some (err e)
        → Decision next ctx (returned (abort (pos 401) auth_failure ctx))
    no_store :
        (c : Claims F)
        → claims_of_request cfg now ctx ≡ some (ok c)
        → cfg.revocation ≡ none
        → Decision next ctx (returned (abort (pos 503) auth_unavailable ctx))
    no_verdict :
        (c : Claims F) (verdict : Bytes → Bytes → Verdict)
        → claims_of_request cfg now ctx ≡ some (ok c)
        → cfg.revocation ≡ some verdict
        → (verdict c.issuer c.key_id ≡ cancelled) ⊎ (verdict c.issuer c.key_id ≡ unavailable)
        → Decision next ctx (returned (abort (pos 503) auth_unavailable ctx))
    key_revoked :
        (c : Claims F) (verdict : Bytes → Bytes → Verdict)
        → claims_of_request cfg now ctx ≡ some (ok c)
        → cfg.revocation ≡ some verdict
        → verdict c.issuer c.key_id ≡ revoked
        → Decision next ctx (returned (abort (pos 401) auth_failure ctx))
    admitted :
        (c : Claims F) (verdict : Bytes → Bytes → Verdict)
        → claims_of_request cfg now ctx ≡ some (ok c)
        → cfg.revocation ≡ some verdict
        → verdict c.issuer c.key_id ≡ allowed
        → Decision next ctx (
            next (record ctx {
              virtual_key_id = c.key_id;
              permissions = c.models;
              budget = c.budget_usd;
              key_source = c.key_source;
              byok_key_id = c.byok_key_id;
              max_rpm = c.max_rpm;
              max_tpm = c.max_tpm;
              max_concurrency = c.max_concurrency;
            }))

  admit-Decision :
      (next : RequestContext F → Flow F) (ctx : RequestContext F) (c : Claims F)
      (verdict : Bytes → Bytes → Verdict)
      → claims_of_request cfg now ctx ≡ some (ok c)
      → cfg.revocation ≡ some verdict
      → (v : Verdict) → verdict c.issuer c.key_id ≡ v
      → Decision next ctx (admit next ctx c v)
  admit-Decision next ctx c verdict q s revoked e = key_revoked c verdict q s e
  admit-Decision next ctx c verdict q s allowed e = admitted c verdict q s e
  admit-Decision next ctx c verdict q s cancelled e = no_verdict c verdict q s (inl e)
  admit-Decision next ctx c verdict q s unavailable e = no_verdict c verdict q s (inr e)

  judge-Decision :
      (next : RequestContext F → Flow F) (ctx : RequestContext F) (c : Claims F)
      → claims_of_request cfg now ctx ≡ some (ok c)
      → (o : Option (Bytes → Bytes → Verdict)) → cfg.revocation ≡ o
      → Decision next ctx (judge next ctx c o)
  judge-Decision next ctx c q none e = no_store c q e
  judge-Decision next ctx c q (some verdict) e =
      admit-Decision next ctx c verdict q e (verdict c.issuer c.key_id) refl

  check_claims-Decision :
      (next : RequestContext F → Flow F) (ctx : RequestContext F)
      (r : Option (Result TokenError (Claims F)))
      → claims_of_request cfg now ctx ≡ r
      → Decision next ctx (check_claims cfg next ctx r)
  check_claims-Decision next ctx none e = no_token e
  check_claims-Decision next ctx (some (err x)) e = bad_token x e
  check_claims-Decision next ctx (some (ok c)) e = judge-Decision next ctx c e cfg.revocation refl

  -- `Auth` runs the rest of the chain exactly when the request has a valid token and the revocation store
  -- allows its key, and then on a context whose identity, permissions, budget, key source and limits are
  -- those of the claims. A request without a valid token or with a revoked key gets 401, and one for
  -- which the store is missing, cancelled or unavailable gets 503.
  pub auth-Decision :
      (next : RequestContext F → Flow F) (ctx : RequestContext F)
      → Decision next ctx (auth cfg now next ctx)
  unfolding auth
  auth-Decision next ctx = check_claims-Decision next ctx (claims_of_request cfg now ctx) refl

-- A refusal: the chain behind `Auth` does not run, and the client gets 401 or 503.
abbrev pub IsRefused : {F : Type 0} → RequestContext F → Flow F → Type 0
IsRefused ctx flow =
    (flow ≡ returned (abort (pos 401) auth_failure ctx))
    ⊎ (flow ≡ returned (abort (pos 503) auth_unavailable ctx))

admit-IsRefused :
    {F : Type 0} (next : RequestContext F → Flow F) (ctx : RequestContext F) (c : Claims F)
    (v : Verdict)
    → v ≢ allowed
    → IsRefused ctx (admit next ctx c v)
admit-IsRefused next ctx c revoked h = inl refl
admit-IsRefused next ctx c allowed h = absurd (h refl)
admit-IsRefused next ctx c cancelled h = inr refl
admit-IsRefused next ctx c unavailable h = inr refl

-- The configuration with the store of a reader.
abbrev pub with_reader : {F : Type 0} → AuthConfig F → Option ReaderState → AuthConfig F
with_reader cfg state = record cfg { revocation = some (check false state) }

-- After a successful `Revoke` and a refresh of the reader from the file that it left, before the
-- retention ends, `Auth` refuses every request whose token carries the revoked issuer and key id; the
-- identifiers are UTF-8 and the codec keeps its promises.
pub auth-IsRefused :
    {F : Type 0} (cfg : AuthConfig F) (now : ℤ) (next : RequestContext F → Flow F)
    (ctx : RequestContext F) (c : Claims F) (codec : Codec) (w : Writer) (time ttl : ℤ)
    (a : Attempt) (before after : Disk) (result : CommitResult) (state : Option ReaderState)
    → IsCodec codec
    → codec.is_text c.issuer ≡ true
    → codec.is_text c.key_id ≡ true
    → time <ℤ desired_retention a.now (pos_part ttl)
    → revoke codec w c.issuer c.key_id ttl a before ≡ (after, ok result)
    → claims_of_request cfg now ctx ≡ some (ok c)
    → IsRefused ctx (
        auth (with_reader cfg (some (refresh time (read_snapshot codec after) state))) now next ctx)
unfolding auth claims_of_request
auth-IsRefused cfg now next ctx c codec w time ttl a before after result state laws i k early h t =
    let s = some (refresh time (read_snapshot codec after) state) in
    let denied =
      revoke-denied codec w c.issuer c.key_id time ttl a before after result state laws i k early
        h in
    rw t (admit-IsRefused next ctx c (check false s c.issuer c.key_id) denied)
