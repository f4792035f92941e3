-- ===== src/RateLimit/Middleware.antt =====
-- `RateLimiter` of internal/middleware/ratelimit.go: the middleware around the limiter. The limiter
-- is shared by the requests, so that a call gives it back beside the way the request goes on.
use aegis_llm.Prelude.{
  ℕ, ◌+◌, ◌/◌, ◌-◌, Bool, not, ◌&&◌, ◌||◌, ltb, ℤ, pos, ltb_ℤ, add64, sub64, none, some, [], ◌∷◌,
  ◌++◌, Bytes, codes, length, is_empty, str_eq, if◌then◌else◌,
}
use aegis_llm.Server.Context.{RequestContext, Flow, returned, panicked, abort}
use aegis_llm.Middleware.Body.{
  BodyResult, body, body_error, too_large, read_failed, read_request_body,
}
use aegis_llm.RateLimit.Limiter.{
  Limiter, rpm, tpm, allow, allow_n, record_tokens, acquire_concurrency, release_concurrency,
  Release, effective_policy_limit,
}

pub record RateLimitConfig : Type 0 where
  pub backend : Bytes
  pub default_rpm : ℤ
  pub default_tpm : ℤ
  pub default_max_conc : ℤ
  pub max_request_body_size : ℤ

-- The clock at the three calls of the limiter that read it.
pub record Times : Type 0 where
  pub allowed : ℤ
  pub estimated : ℤ
  pub recorded : ℤ

-- The switch of `RateLimiter`: only the memory backend starts without an error.
unfoldable pub has_backend : Bytes → Bool
unfolding str_eq
has_backend name = str_eq name (codes "memory") || is_empty name

abbrev minute : ℤ
minute = pos 60000000000

-- `estimateTokensFromBody`, with four characters a token and at least one token
unfoldable pub estimate_tokens_from_body : Bytes → ℕ
estimate_tokens_from_body [] = 1
estimate_tokens_from_body (b ∷ bs) =
    let tokens = (length (b ∷ bs) + 4 - 1) / 4 in if ltb tokens 1 then 1 else tokens

-- `errorResponseJSON`, for texts that JSON does not escape
abbrev error_response : Bytes → Bytes → Bytes
error_response message kind =
    codes "{\"error\":{\"message\":\"" ++ message ++ codes "\",\"type\":\"" ++ kind ++ codes "\"}}"

abbrev rate_limit_error : Bytes → Bytes
rate_limit_error message = error_response message (codes "rate_limit_error")

abbrev limit_of : ℤ → ℤ → ℤ
limit_of default_max key_max =
    if ltb_ℤ (pos 0) key_max then effective_policy_limit default_max key_max else default_max

module _ {F : Type 0} where
  abbrev key_of_request : RequestContext F → Bytes
  key_of_request ctx = if is_empty ctx.virtual_key_id then ctx.remote_addr else ctx.virtual_key_id

  -- What follows `next`: the tokens beyond the estimate are recorded when it returned, and the
  -- deferred release runs on a panic too.
  unfoldable pub settle_request : Limiter → Bytes → ℤ → ℤ → Release → ℤ → Flow F → Limiter × Flow F
  unfolding record_tokens release_concurrency add64 sub64
  settle_request lim key tpm_limit estimate release now (panicked ctx) =
      ((release_concurrency lim release).0, panicked ctx)
  settle_request lim key tpm_limit estimate release now (returned ctx) =
      let actual = add64 ctx.input_tokens ctx.output_tokens in
      let recorded =
        if ltb_ℤ (pos 0) tpm_limit && ltb_ℤ estimate actual
        then record_tokens lim key tpm (sub64 actual estimate) minute now
        else lim in
      ((release_concurrency recorded release).0, returned ctx)

  -- From the acquisition of a concurrency lease to the end.
  unfoldable pub run_request :
      RateLimitConfig
      → ℤ
      → ℤ
      → ℤ
      → (RequestContext F → Flow F)
      → Limiter
      → RequestContext F
      → Limiter × Flow F
  unfolding acquire_concurrency effective_policy_limit settle_request abort
  run_request cfg tpm_limit estimate now next lim ctx =
      let (held, acquired) =
        acquire_concurrency lim (key_of_request ctx)
          (limit_of cfg.default_max_conc ctx.max_concurrency) in
      elim acquired [
        | none ↦ (
          held,
          returned (abort (pos 429) (rate_limit_error (codes "concurrency limit exceeded")) ctx),
        )
        | some release ↦
            settle_request held (key_of_request ctx) tpm_limit estimate release now (next ctx)
      ]

  -- The check of the tokens that a body is estimated to cost.
  unfoldable pub check_tokens :
      RateLimitConfig
      → ℤ
      → Times
      → (RequestContext F → Flow F)
      → Limiter
      → RequestContext F
      → BodyResult
      → Limiter × Flow F
  unfolding estimate_tokens_from_body allow_n run_request abort
  check_tokens cfg tpm_limit times next lim ctx (body_error too_large) = (
    lim,
    returned (
        abort (pos 413)
          (error_response (codes "request body too large") (codes "invalid_request_error")) ctx),
  )
  check_tokens cfg tpm_limit times next lim ctx (body_error read_failed) = (
    lim,
    returned (
        abort (pos 400)
          (error_response (codes "invalid request body") (codes "invalid_request_error")) ctx),
  )
  check_tokens cfg tpm_limit times next lim ctx (body b) =
      let estimate = pos (estimate_tokens_from_body b) in
      let (counted, allowed) =
        allow_n lim (key_of_request ctx) tpm estimate tpm_limit minute times.estimated in
      if allowed then run_request cfg tpm_limit estimate times.recorded next counted ctx else (
        counted,
        returned (abort (pos 429) (rate_limit_error (codes "rate limit exceeded (TPM)")) ctx),
      )

  -- `rateLimiter`
  unfoldable pub rate_limiter :
      RateLimitConfig
      → Times
      → (RequestContext F → Flow F)
      → Limiter
      → RequestContext F
      → Limiter × Flow F
  unfolding has_backend effective_policy_limit allow read_request_body check_tokens run_request
      abort
  rate_limiter cfg times next lim ctx =
      if not (has_backend cfg.backend)
      then (
        lim,
        returned (
            abort (pos 503)
              (error_response (codes "rate limit service unavailable") (codes "server_error")) ctx),
      )
      else (let tpm_limit = limit_of cfg.default_tpm ctx.max_tpm in
          let (counted, allowed) =
            allow lim (key_of_request ctx) rpm (limit_of cfg.default_rpm ctx.max_rpm) minute
              times.allowed in
          if not allowed
          then (
            counted,
            returned (abort (pos 429) (rate_limit_error (codes "rate limit exceeded (RPM)")) ctx),
          )
          else (if ltb_ℤ (pos 0) tpm_limit
              then (let (read, result) = read_request_body ctx cfg.max_request_body_size in
                  check_tokens cfg tpm_limit times next counted read result)
              else run_request cfg tpm_limit (pos 0) times.recorded next counted ctx))
