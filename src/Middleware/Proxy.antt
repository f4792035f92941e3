-- ===== src/Middleware/Proxy.antt =====
-- `Proxy` of internal/middleware/proxy.go: one attempt at an upstream. The engine is the interface
-- `proxyEngine`; net/url is a parameter.
use aegis_llm.Prelude.{
  Bool, true, false, not, ◌&&◌, ◌||◌, ℤ, pos, leb_ℤ, Option, none, some, List, [], ◌∷◌, Bytes,
  codes, is_empty, has_prefix, is_some, if◌then◌else◌,
}
use aegis_llm.Server.Context.{RequestContext, returned, abort}
use aegis_llm.Server.Pipeline.{Middleware}
use aegis_llm.Middleware.Capture.{
  Effect, CaptureWriter, new_capture_writer, capture_all, flush_to, send_all,
}

-- `url.URL`, of which the code reads these fields.
pub record Url : Type 0 where
  pub scheme : Bytes
  pub host : Bytes
  pub has_user : Bool

-- `url.Parse`, and `base.ResolveReference(rel).String()`.
pub record Urls : Type 0 where
  pub parse : Bytes → Option Url
  pub resolve : Url → Url → Bytes

pub data DispatchError : Type 0 where
  transport read_failed other : DispatchError

pub record ProxyResult : Type 0 where
  pub status_code : ℤ
  pub input_tokens : ℤ
  pub output_tokens : ℤ

-- What a call of `Dispatch` writes and returns.
pub record Dispatched : Type 0 where
  pub effects : List Effect
  pub result : Option ProxyResult
  pub failure : Option DispatchError

abbrev pub Engine : Type 0 → Type 0
Engine F = Bytes → RequestContext F → Dispatched

-- `isRetryableStatus`
unfoldable pub is_retryable_status : ℤ → Bool
is_retryable_status status =
    (leb_ℤ status (pos 429) && leb_ℤ (pos 429) status) || leb_ℤ (pos 500) status

-- `isRetryableProxy`
unfoldable pub is_retryable_proxy : Option ProxyResult → DispatchError → Bool
unfolding is_retryable_status
is_retryable_proxy result transport = true
is_retryable_proxy none read_failed = false
is_retryable_proxy none other = false
is_retryable_proxy (some r) read_failed = is_retryable_status r.status_code
is_retryable_proxy (some r) other = is_retryable_status r.status_code

abbrev pub engine_unavailable : Bytes
engine_unavailable =
    codes "{\"error\":{\"message\":\"proxy engine unavailable\",\"type\":\"server_error\"}}"

abbrev pub incomplete_context : Bytes
incomplete_context =
    codes "{\"error\":{\"message\":\"incomplete proxy context\",\"type\":\"server_error\"}}"

abbrev pub invalid_target : Bytes
invalid_target =
    codes "{\"error\":{\"message\":\"invalid provider target\",\"type\":\"server_error\"}}"

abbrev pub request_failed : Bytes
request_failed =
    codes "{\"error\":{\"message\":\"upstream request failed\",\"type\":\"server_error\"}}"

-- `buildTargetURL`
unfoldable pub build_target_url : Urls → Bytes → Bytes → Option Bytes
unfolding has_prefix
build_target_url urls base_url target_path =
    let path = if is_empty target_path then b'/' ∷ [] else target_path in
    elim (urls.parse base_url) [
      | none ↦ none
      | some base ↦
          if is_empty base.scheme || is_empty base.host then none else elim (urls.parse path) [
            | none ↦ none
            | some rel ↦
                if not (is_empty rel.scheme) || not (is_empty rel.host) || rel.has_user
                then none
                else if not (has_prefix path (b'/' ∷ []))
                then none
                else some (urls.resolve base rel)
          ]
    ]

module _ {F : Type 0} where
  -- The fields of the context that a result fills.
  abbrev pub note_result : Option ProxyResult → RequestContext F → RequestContext F
  note_result none ctx = ctx
  note_result (some r) ctx = record ctx {
    provider_responded = true;
    provider_failure = is_retryable_status r.status_code;
    status_code = r.status_code;
    input_tokens = r.input_tokens;
    output_tokens = r.output_tokens;
  }

  -- A failure of the transport or of the upstream's body counts against the provider.
  abbrev pub note_failure : DispatchError → RequestContext F → RequestContext F
  note_failure transport ctx = record ctx { provider_failure = true }
  note_failure read_failed ctx = record ctx { provider_failure = true }
  note_failure other ctx = ctx

  -- The end of an attempt that failed with a result: what was captured is flushed.
  abbrev pub flush_failed : Bool → CaptureWriter → RequestContext F → RequestContext F
  flush_failed captured w ctx = if captured && not ctx.committed then flush_to w ctx else ctx

  -- `if err != nil` after `Dispatch`
  unfoldable pub after_failure :
      Bool
      → CaptureWriter
      → Option ProxyResult
      → DispatchError
      → RequestContext F
      → RequestContext F
  unfolding is_retryable_proxy flush_to abort
  after_failure captured w result e noted =
      let ctx = note_failure e noted in
      if captured && ctx.can_fallback && not ctx.committed && is_retryable_proxy result e
      then record ctx { retryable_attempt = true }
      else (if is_some result
          then flush_failed captured w ctx
          else abort (pos 502) request_failed ctx)

  -- The rest, after a dispatch that did not fail.
  unfoldable pub after_success : Bool → CaptureWriter → RequestContext F → RequestContext F
  unfolding is_retryable_status flush_to
  after_success captured w ctx =
      if not captured
      then ctx
      else (if ctx.can_fallback && is_retryable_status w.status && not w.overflowed
          then record ctx { retryable_attempt = true; provider_failure = true }
          else flush_to w ctx)

  -- Everything behind the call of `Dispatch`.
  unfoldable pub after_dispatch : Bool → Dispatched → RequestContext F → RequestContext F
  unfolding capture_all send_all is_retryable_status after_failure after_success
  after_dispatch captured d ctx =
      let w = capture_all d.effects new_capture_writer in
      let noted = note_result d.result (if captured then ctx else send_all d.effects ctx) in
      elim d.failure [
        | some e ↦ after_failure captured w d.result e noted
        | none ↦ after_success captured w noted
      ]

  abbrev pub dispatch : Engine F → RequestContext F → Option Bytes → RequestContext F
  dispatch engine ctx none = abort (pos 500) invalid_target ctx
  dispatch engine ctx (some target) =
      after_dispatch (ctx.can_fallback && not ctx.is_streaming) (engine target ctx) ctx

  -- `Proxy`
  unfoldable pub proxy : Urls → Option (Engine F) → Middleware F
  unfolding build_target_url after_dispatch abort
  proxy urls none next ctx = returned (abort (pos 500) engine_unavailable ctx)
  proxy urls (some engine) next ctx =
      if is_empty ctx.base_url || not (is_some ctx.provider_api_key)
      then returned (abort (pos 500) incomplete_context ctx)
      else returned (dispatch engine ctx (build_target_url urls ctx.base_url ctx.target_path))
