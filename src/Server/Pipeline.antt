-- ===== src/Server/Pipeline.antt =====
-- The pipeline of internal/server/pipeline.go. A middleware is a function of `next` and the
-- context. `next()` runs the rest of the chain on the shared context, and a panic in it unwinds
-- the caller unless the caller recovers.
use aegis_llm.Prelude.{
  false, not, ◌&&◌, ℤ, pos, List, [], ◌∷◌, none, Bytes, insert, codes, if◌then◌else◌,
}
use aegis_llm.Server.Context.{
  RequestContext, AuditEntry, Flow, returned, panicked, abort, write_header, write,
}
use aegis_llm.Server.RequestId.{safe}

abbrev pub Middleware : Type 0 → Type 0
Middleware F = (RequestContext F → Flow F) → RequestContext F → Flow F

abbrev pub no_response : Bytes
no_response =
    codes
      "{\"error\":{\"message\":\"gateway pipeline produced no response\",\"type\":\"server_error\"}}"

module _ {F : Type 0} where
  -- The guard behind the chain's end and behind every middleware.
  unfoldable pub ensure_response : RequestContext F → RequestContext F
  unfolding abort
  ensure_response ctx =
      if not ctx.aborted && not ctx.committed && not ctx.retryable_attempt
      then abort (pos 500) no_response ctx
      else ctx

  -- What `execute` does when the middleware has returned; a panic passes it by.
  abbrev pub settle_flow : Flow F → Flow F
  settle_flow (returned ctx) = returned (ensure_response ctx)
  settle_flow (panicked ctx) = panicked ctx

  -- `execute`, from the index of the first middleware of the list.
  unfoldable pub execute : List (Middleware F) → RequestContext F → Flow F
  unfolding ensure_response
  execute [] ctx = returned (if ctx.aborted then ctx else ensure_response ctx)
  execute (m ∷ ms) ctx = if ctx.aborted then returned ctx else settle_flow (m (execute ms) ctx)

  -- `RecoveryMiddleware`
  unfoldable pub recovered : Flow F → Flow F
  unfolding abort
  recovered (returned done) = returned done
  recovered (panicked done) =
      returned (abort (pos 500) (codes "{\"error\":\"internal server error\"}") done)

  unfoldable pub recovery : Middleware F
  unfolding recovered
  recovery next ctx = recovered (next ctx)

  -- `RequestIDMiddleware`; `fresh` is the id that `Generate` makes.
  unfoldable pub assign_request_id : Bytes → Middleware F
  unfolding safe insert
  assign_request_id fresh next ctx = next (record ctx {
    response_headers =
        insert (codes "X-Request-ID") (if safe ctx.request_id then ctx.request_id else fresh)
          ctx.response_headers;
  })

  -- One line of the audit log, with the given status.
  abbrev pub audit_entry : ℤ → RequestContext F → AuditEntry
  audit_entry status ctx = record {
    method = ctx.method;
    path = ctx.path;
    status = status;
    input_tokens = ctx.input_tokens;
    output_tokens = ctx.output_tokens;
    provider = ctx.provider_id;
    virtual_key_id = ctx.virtual_key_id;
  }

  unfoldable pub record_audit : ℤ → RequestContext F → RequestContext F
  record_audit status ctx = record ctx { audit = audit_entry status ctx ∷ ctx.audit }

  -- `AuditMiddleware`: the deferred function runs on a return and on a panic, which goes on.
  unfoldable pub audited : Flow F → Flow F
  unfolding record_audit
  audited (returned done) =
      returned
        (record_audit (if done.committed then done.response_status else done.status_code) done)
  audited (panicked done) =
      panicked (record_audit (if done.committed then done.response_status else pos 500) done)

  unfoldable pub audit_request : Middleware F
  unfolding audited
  audit_request next ctx = audited (next ctx)

  -- `NewPipeline`, followed by the policy middleware that `Use` appends.
  unfoldable pub new_pipeline : Bytes → List (Middleware F) → List (Middleware F)
  unfolding recovery assign_request_id audit_request
  new_pipeline fresh policy = recovery ∷ assign_request_id fresh ∷ audit_request ∷ policy

  -- `ServeHTTP` after the chain: the last guard, the error response, and the cleaning up.
  unfoldable pub finish_no_response : RequestContext F → RequestContext F
  unfolding abort
  finish_no_response ctx =
      if not ctx.aborted && not ctx.committed then abort (pos 500) no_response ctx else ctx

  unfoldable pub finish_error : RequestContext F → RequestContext F
  unfolding write_header write insert
  finish_error ctx =
      if ctx.aborted && not ctx.committed
      then write ctx.abort_body (
          write_header ctx.abort_code (record ctx {
            response_headers =
                insert (codes "Content-Type") (codes "application/json") ctx.response_headers;
          }))
      else ctx

  unfoldable pub cleanup : RequestContext F → RequestContext F
  cleanup ctx = record ctx {
    provider_api_key = none;
    request_body = [];
    request_body_loaded = false;
  }

  unfoldable pub finish : RequestContext F → RequestContext F
  unfolding finish_no_response finish_error cleanup
  finish ctx = cleanup (finish_error (finish_no_response ctx))

  -- `ServeHTTP`. A panic that no middleware recovers leaves it before the response is written.
  unfoldable pub finish_flow : Flow F → Flow F
  unfolding finish
  finish_flow (returned done) = returned (finish done)
  finish_flow (panicked done) = panicked done

  unfoldable pub serve_http : List (Middleware F) → RequestContext F → Flow F
  unfolding execute finish_flow
  serve_http ms ctx = finish_flow (execute ms ctx)
