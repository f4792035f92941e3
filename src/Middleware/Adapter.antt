-- ===== src/Middleware/Adapter.antt =====
-- `Adapter` of internal/middleware/adapter.go: the request in the format of its provider. The adapters of
-- adapter_openai.go and adapter_azure.go are in Middleware/Formats.
use aegis_llm.Prelude.{Bool, ℤ, pos, Option, none, some, Bytes, Map, lookup, insert, codes}
use aegis_llm.Server.Context.{RequestContext, Flow, returned, abort}
use aegis_llm.Server.Pipeline.{Middleware}
use aegis_llm.Middleware.Body.{
  BodyResult, body, body_error, too_large, read_failed, read_request_body, replace_request_body,
}

-- `ProtocolAdapter`; of `TransformRequest` the new body and the path. An error is `none`.
pub record ProtocolAdapter : Type 0 where
  pub name : Bytes
  pub transform_request : Bytes → Bytes → Bytes → Option (Bytes × Bytes)
  pub transform_response : Bytes → Option Bytes
  pub transform_stream_line : Bytes → Option (Bytes × Bool)
  pub supports_streaming : Bool
  pub auth_header : Bytes × Bytes
  pub extra_headers : Map Bytes

-- `AdapterRegistry`
abbrev pub AdapterRegistry : Type 0
AdapterRegistry = Map ProtocolAdapter

-- `Register`
unfoldable pub register : AdapterRegistry → ProtocolAdapter → AdapterRegistry
unfolding insert
register r adapter = insert adapter.name adapter r

-- `Get`
unfoldable pub get : AdapterRegistry → Bytes → Option ProtocolAdapter
unfolding lookup
get r provider_type = lookup provider_type r

abbrev pub unsupported_provider : Bytes
unsupported_provider =
    codes "{\"error\":{\"message\":\"unsupported provider type\",\"type\":\"server_error\"}}"

abbrev pub provider_body_too_large : Bytes
provider_body_too_large =
    codes "{\"error\":{\"message\":\"request body too large\",\"type\":\"invalid_request_error\"}}"

abbrev pub provider_body_invalid : Bytes
provider_body_invalid =
    codes "{\"error\":{\"message\":\"invalid request body\",\"type\":\"invalid_request_error\"}}"

abbrev pub provider_request_invalid : Bytes
provider_request_invalid =
    codes
      "{\"error\":{\"message\":\"invalid provider request\",\"type\":\"invalid_request_error\"}}"

module _ {F : Type 0} where
  -- The fields that an adapter fills, with the new body.
  unfoldable pub adapted :
      Bytes → ProtocolAdapter → Bytes → Bytes → RequestContext F → RequestContext F
  unfolding replace_request_body
  adapted kind adapter transformed path ctx = record (replace_request_body ctx transformed) {
    provider_type = kind;
    target_path = path;
    upstream_auth_header = adapter.auth_header.0;
    upstream_auth_prefix = adapter.auth_header.1;
    upstream_extra_headers = adapter.extra_headers;
    transform_response = some adapter.transform_response;
    transform_stream_line = some adapter.transform_stream_line;
  }

  -- From `TransformRequest` on.
  unfoldable pub transform :
      Bytes → ProtocolAdapter → (RequestContext F → Flow F) → RequestContext F → Bytes → Flow F
  unfolding adapted abort
  transform kind adapter next ctx raw =
      elim (adapter.transform_request raw ctx.model ctx.provider_api_version) [
        | none ↦ returned (abort (pos 400) provider_request_invalid ctx)
        | some (transformed, path) ↦ next (adapted kind adapter transformed path ctx)
      ]

  -- The answers to a body that cannot be read.
  unfoldable pub adapt_body :
      Bytes → ProtocolAdapter → (RequestContext F → Flow F) → RequestContext F → BodyResult → Flow F
  unfolding transform abort
  adapt_body kind adapter next ctx (body_error too_large) =
      returned (abort (pos 413) provider_body_too_large ctx)
  adapt_body kind adapter next ctx (body_error read_failed) =
      returned (abort (pos 400) provider_body_invalid ctx)
  adapt_body kind adapter next ctx (body raw) = transform kind adapter next ctx raw

  -- With the adapter that the registry gives.
  unfoldable pub adapt :
      Bytes → ℤ → (RequestContext F → Flow F) → RequestContext F → Option ProtocolAdapter → Flow F
  unfolding adapt_body read_request_body abort
  adapt kind limit next ctx none = returned (abort (pos 500) unsupported_provider ctx)
  adapt kind limit next ctx (some adapter) =
      let (ctx', result) = read_request_body ctx limit in adapt_body kind adapter next ctx' result

  -- `Adapter`
  unfoldable pub adapter : AdapterRegistry → Map Bytes → ℤ → Middleware F
  unfolding lookup get adapt abort
  adapter registry provider_types limit next ctx = elim (lookup ctx.provider_id provider_types) [
    | none ↦ returned (abort (pos 500) unsupported_provider ctx)
    | some kind ↦ adapt kind limit next ctx (get registry kind)
  ]
