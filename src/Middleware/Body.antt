-- ===== src/Middleware/Body.antt =====
-- internal/middleware/body.go: the single bounded buffer of the request body.
use aegis_llm.Prelude.{
  ◌≡◌, true, false, ℤ, pos, leb_ℤ, ltb_ℤ, [], arith, Bytes, length, if◌then◌else◌, ◌≤ℤ◌,
}
use aegis_llm.Server.Context.{RequestContext, BodyStream, absent, fails, bytes}

-- config.DefaultMaxRequestBodySize and config.MaxRequestBodySizeLimit
abbrev pub default_max_request_body_size : ℤ
default_max_request_body_size = pos 4194304

abbrev pub max_request_body_size_limit : ℤ
max_request_body_size_limit = pos 4194304

pub data BodyError : Type 0 where
  too_large read_failed : BodyError

pub data BodyResult : Type 0 where
  body : Bytes → BodyResult
  body_error : BodyError → BodyResult

-- The limit in force: one that is not positive stands for the default.
abbrev pub effective_limit : ℤ → ℤ
effective_limit limit = if leb_ℤ limit (pos 0) then default_max_request_body_size else limit

-- `readAndReplaceBody`: what it answers, and the stream that it leaves behind.
unfoldable pub read_and_replace_body : BodyStream → ℤ → BodyResult × BodyStream
read_and_replace_body absent limit = (body [], absent)
read_and_replace_body fails limit =
    if ltb_ℤ max_request_body_size_limit (effective_limit limit)
    then (body_error too_large, fails)
    else (body_error read_failed, fails)
read_and_replace_body (bytes b) limit =
    if ltb_ℤ max_request_body_size_limit (effective_limit limit)
    then (body_error too_large, bytes b)
    else (if ltb_ℤ (effective_limit limit) (pos (length b))
        then (body_error too_large, bytes [])
        else (body b, bytes b))

-- A body that is read is within the limit, and within the gateway's hard limit.
read_and_replace-bounded :
    (stream : BodyStream) (limit : ℤ) (b : Bytes)
    → (read_and_replace_body stream limit).0 ≡ body b
    → (pos (length b) ≤ℤ effective_limit limit) × (pos (length b) ≤ℤ max_request_body_size_limit)
unfolding read_and_replace_body
read_and_replace-bounded absent limit b e = ground arith
read_and_replace-bounded fails limit b e = absurd (ground arith)
read_and_replace-bounded (bytes c) limit b e = ground arith

module _ {F : Type 0} where
  -- `readRequestBody`: the stream is read once, and its buffer is shared after that.
  unfoldable pub read_request_body : RequestContext F → ℤ → RequestContext F × BodyResult
  read_request_body ctx limit =
      if ctx.request_body_loaded
      then (ctx, body ctx.request_body)
      else (let (result, stream) = read_and_replace_body ctx.body_stream limit in
          elim result [
            | body b ↦ (
              record ctx { body_stream = stream; request_body = b; request_body_loaded = true },
              body b,
            )
            | body_error e ↦ (record ctx { body_stream = stream }, body_error e)
          ])

  -- `replaceRequestBody`
  unfoldable pub replace_request_body : RequestContext F → Bytes → RequestContext F
  replace_request_body ctx b = record ctx {
    request_body = b;
    request_body_loaded = true;
    body_stream = bytes b;
  }

  -- A first read that succeeds gives a body within the limit in force, and within the gateway's
  -- hard limit; the next read gives the same body and changes nothing.
  pub read_request_body-twice :
      (ctx : RequestContext F) (limit other : ℤ) {b : Bytes}
      → ctx.request_body_loaded ≡ false
      → (read_request_body ctx limit).1 ≡ body b
      → (pos (length b) ≤ℤ effective_limit limit)
        × (pos (length b) ≤ℤ max_request_body_size_limit)
        × (read_request_body (read_request_body ctx limit).0 other
            ≡ ((read_request_body ctx limit).0, body b))
  unfolding read_request_body
  read_request_body-twice ctx limit other {b} h e =
      let first : (read_and_replace_body ctx.body_stream limit).0 ≡ body b = ground arith in
      let bound = read_and_replace-bounded ctx.body_stream limit b first in
      (bound.0, bound.1, ground arith)
