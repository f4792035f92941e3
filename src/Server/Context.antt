-- ===== src/Server/Context.antt =====
-- `RequestContext` of internal/server/pipeline.go with its tracking response writer. `F` is the
-- type of dollar amounts (`float64`). A secret stands for its bytes; `none` after it is closed
-- and dropped. The client side of the connection is the three fields at the end.
use aegis_llm.Prelude.{
  Bool, true, false, ℤ, pos, List, [], ◌++◌, Option, none, some, Bytes, Map, if◌then◌else◌, leb_ℤ,
  ◌&&◌,
}

-- What `Request.Body` gives when it is read to its end.
pub data BodyStream : Type 0 where
  absent fails : BodyStream
  bytes : Bytes → BodyStream

pub record AuditEntry : Type 0 where
  pub method : Bytes
  pub path : Bytes
  pub status : ℤ
  pub input_tokens : ℤ
  pub output_tokens : ℤ
  pub provider : Bytes
  pub virtual_key_id : Bytes

pub record RequestContext (F : Type 0) : Type 0 where
  -- the client's request
  pub method : Bytes
  pub path : Bytes
  pub authorization : Bytes
  pub request_id : Bytes
  pub remote_addr : Bytes
  pub body_stream : BodyStream
  pub request_body : Bytes
  pub request_body_loaded : Bool
  -- identity
  pub virtual_key_id : Bytes
  pub permissions : List Bytes
  pub budget : F
  pub key_source : Bytes
  pub byok_key_id : Bytes
  pub max_rpm : ℤ
  pub max_tpm : ℤ
  pub max_concurrency : ℤ
  -- routing decision
  pub provider_id : Bytes
  pub provider_type : Bytes
  pub provider_api_key_id : Bytes
  pub provider_api_version : Bytes
  pub model : Bytes
  pub base_url : Bytes
  pub target_path : Bytes
  pub is_streaming : Bool
  pub can_fallback : Bool
  pub retryable_attempt : Bool
  pub upstream_auth_header : Bytes
  pub upstream_auth_prefix : Bytes
  pub upstream_extra_headers : Map Bytes
  pub transform_response : Option (Bytes → Option Bytes)
  pub transform_stream_line : Option (Bytes → Option (Bytes × Bool))
  pub provider_api_key : Option Bytes
  -- metrics
  pub input_tokens : ℤ
  pub output_tokens : ℤ
  pub status_code : ℤ
  pub provider_responded : Bool
  pub provider_failure : Bool
  -- pipeline state
  pub aborted : Bool
  pub abort_code : ℤ
  pub abort_body : Bytes
  pub committed : Bool
  pub response_status : ℤ
  pub audit : List AuditEntry
  -- what the client has received
  pub response_headers : Map Bytes
  pub client_status : Option ℤ
  pub client_body : Bytes

abbrev pub is_zero : ℤ → Bool
is_zero z = leb_ℤ z (pos 0) && leb_ℤ (pos 0) z

module _ {F : Type 0} where
  -- `Abort`
  unfoldable pub abort : ℤ → Bytes → RequestContext F → RequestContext F
  abort code body ctx = record ctx {
    aborted = true;
    abort_code = code;
    abort_body = body;
    status_code = code;
  }

  -- `trackingResponseWriter.WriteHeader`: only the first call reaches the client.
  unfoldable pub write_header : ℤ → RequestContext F → RequestContext F
  write_header code ctx = if ctx.committed then ctx else record ctx {
    committed = true;
    response_status = code;
    status_code = if is_zero ctx.status_code then code else ctx.status_code;
    client_status = some code;
  }

  -- `trackingResponseWriter.Write`
  unfoldable pub write : Bytes → RequestContext F → RequestContext F
  unfolding write_header
  write body ctx =
      let ready = write_header (pos 200) ctx in
      record ready { client_body = ready.client_body ++ body }

  -- `ResetAttempt`
  unfoldable pub reset_attempt : RequestContext F → RequestContext F
  reset_attempt ctx = record ctx {
    provider_id = [];
    provider_type = [];
    provider_api_key_id = [];
    provider_api_version = [];
    base_url = [];
    target_path = [];
    can_fallback = false;
    retryable_attempt = false;
    provider_responded = false;
    provider_failure = false;
    upstream_auth_header = [];
    upstream_auth_prefix = [];
    upstream_extra_headers = [];
    transform_response = none;
    transform_stream_line = none;
    provider_api_key = none;
  }

-- How a call of middleware ends: it returns, or a panic unwinds it.
pub data Flow (F : Type 0) : Type 0 where
  returned : RequestContext F → Flow F
  panicked : RequestContext F → Flow F

abbrev pub context : {F : Type 0} → Flow F → RequestContext F
context (returned ctx) = ctx
context (panicked ctx) = ctx
