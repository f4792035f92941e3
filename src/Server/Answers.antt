-- ===== src/Server/Answers.antt =====
-- What a request gets from the pipeline of internal/server/pipeline.go.
use mathlib.Core.Path.{subst}
use aegis_llm.Prelude.{
  ap, if_elim, ◌≡◌, refl, ◌∙◌, ◌⊎◌, inl, Bool, true, false, pos, List, [], ◌∷◌, none, some, Bytes,
  arith, All, insert, codes, if◌then◌else◌,
}
use aegis_llm.Server.Context.{RequestContext, AuditEntry, Flow, returned, panicked, context, abort}
use aegis_llm.Server.RequestId.{safe}
use aegis_llm.Server.Pipeline.{
  audit_entry, settle_flow, recovered, audited, finish_flow, Middleware, ensure_response, execute,
  recovery, assign_request_id, record_audit, audit_request, new_pipeline, finish, serve_http,
}

-- The response writer and `Abort` as they leave the context: the client has a status exactly
-- when the response is committed, then the committed one, and an aborted context carries the
-- code of its abort.
pub record IsHonest {F : Type 0} (ctx : RequestContext F) : Type 0 where
  pub received : ctx.client_status ≡ (if ctx.committed then some ctx.response_status else none)
  pub coded : (ctx.aborted ≡ false) ⊎ (ctx.status_code ≡ ctx.abort_code)

module _ {F : Type 0} where
  -- A middleware that keeps a context honest, if the rest of the chain does; the pipeline runs it only on
  -- contexts that are not aborted.
  abbrev pub KeepsHonest : Middleware F → Type 0
  KeepsHonest m =
      (next : RequestContext F → Flow F)
      → ((c : RequestContext F) → IsHonest c → IsHonest (context (next c)))
      → (c : RequestContext F) → c.aborted ≡ false
      → IsHonest c
      → IsHonest (context (m next c))

  ensure-IsHonest : (ctx : RequestContext F) → IsHonest ctx → IsHonest (ensure_response ctx)
  unfolding ensure_response
  ensure-IsHonest ctx h = record {
    received = ground (arith, h.received);
    coded = ground (arith, h.coded);
  }

  abbrev FlowHonest : Flow F → Type 0
  FlowHonest f = IsHonest (context f)

  settle-IsHonest : (f : Flow F) → IsHonest (context f) → IsHonest (context (settle_flow f))
  settle-IsHonest (returned ctx) h = ensure-IsHonest ctx h
  settle-IsHonest (panicked ctx) h = h

  execute-IsHonest :
      (ms : List (Middleware F)) (ctx : RequestContext F)
      → All KeepsHonest ms
      → IsHonest ctx
      → IsHonest (context (execute ms ctx))
  unfolding execute
  execute-IsHonest [] ctx k h = if_elim IsHonest ctx.aborted (λ _. h) (λ _. ensure-IsHonest ctx h)
  execute-IsHonest (m ∷ ms) ctx k h =
      if_elim FlowHonest ctx.aborted (λ _. h)
        (λ open_.
          settle-IsHonest (m (execute ms) ctx)
            (k.0 (execute ms) (λ c hc. execute-IsHonest ms c k.1 hc) ctx open_ h))

  -- A chain that returns has answered, or has left a retryable attempt.
  abbrev pub IsAnswered : RequestContext F → Type 0
  IsAnswered ctx = (ctx.aborted ≡ true) ⊎ (ctx.committed ≡ true) ⊎ (ctx.retryable_attempt ≡ true)

  ensure-IsAnswered : (ctx : RequestContext F) → IsAnswered (ensure_response ctx)
  unfolding ensure_response
  ensure-IsAnswered ctx = ground arith

  abbrev FlowAnswered : Flow F → Type 0
  FlowAnswered (returned ctx) = IsAnswered ctx
  FlowAnswered (panicked ctx) = Unit {0}

  settle-FlowAnswered : (f : Flow F) → FlowAnswered (settle_flow f)
  settle-FlowAnswered (returned ctx) = ensure-IsAnswered ctx
  settle-FlowAnswered (panicked ctx) = tt

  -- Whatever its middleware do, a chain that returns has aborted, has committed a response or has
  -- left a retryable attempt.
  pub execute-IsAnswered :
      (ms : List (Middleware F)) (ctx : RequestContext F) {done : RequestContext F}
      → execute ms ctx ≡ returned done
      → IsAnswered done
  execute-IsAnswered ms ctx e = subst FlowAnswered e (answered ms ctx)
    where
      answered : (ms : List (Middleware F)) (ctx : RequestContext F) → FlowAnswered (execute ms ctx)
      answered [] ctx =
          unfold execute in if_elim IsAnswered ctx.aborted (λ e. inl e) (λ _. ensure-IsAnswered ctx)
      answered (m ∷ ms) ctx =
          unfold execute in
          if_elim FlowAnswered ctx.aborted (λ e. inl e)
            (λ _. settle-FlowAnswered (m (execute ms) ctx))

  execute-cons :
      (m : Middleware F) (ms : List (Middleware F)) (ctx : RequestContext F)
      → ctx.aborted ≡ false
      → execute (m ∷ ms) ctx ≡ settle_flow (m (execute ms) ctx)
  unfolding execute
  execute-cons m ms ctx h =
      ap (λ (b : Bool). if b then returned ctx else settle_flow (m (execute ms) ctx)) h

  -- The chain behind `recovery` and `assign_request_id`, and the context that it starts from.
  abbrev pub with_id : Bytes → RequestContext F → RequestContext F
  with_id fresh ctx = record ctx {
    response_headers =
        insert (codes "X-Request-ID") (if safe ctx.request_id then ctx.request_id else fresh)
          ctx.response_headers;
  }

  -- The pipeline as a function of how its policy part ends.
  around : Flow F → Flow F
  unfolding recovered finish_flow audited
  around f = finish_flow (settle_flow (recovered (settle_flow (settle_flow (audited f)))))

  serve_http-around :
      (fresh : Bytes) (policy : List (Middleware F)) (ctx : RequestContext F)
      → ctx.aborted ≡ false
      → serve_http (new_pipeline fresh policy) ctx ≡ around (execute policy (with_id fresh ctx))
  unfolding serve_http new_pipeline around
  serve_http-around fresh policy ctx h = ap finish_flow (
      execute-cons recovery (assign_request_id fresh ∷ audit_request ∷ policy) ctx h
      ∙ ap (λ f. settle_flow (recovered f))
          (execute-cons (assign_request_id fresh) (audit_request ∷ policy) ctx h
            ∙ ap settle_flow (execute-cons audit_request policy (with_id fresh ctx) h)))

  -- The request has been answered, and its context holds no secret any more.
  pub record IsFinished (done : RequestContext F) : Type 0 where
    pub committed : done.committed ≡ true
    pub no_key : done.provider_api_key ≡ none
    pub no_body : done.request_body ≡ []

  finish-IsFinished : (ctx : RequestContext F) → IsFinished (finish ctx)
  unfolding finish
  finish-IsFinished ctx = record { committed = ground arith; no_key = refl; no_body = refl }

  recovered-returned : (f : Flow F) → (ctx : RequestContext F) × (recovered f ≡ returned ctx)
  unfolding recovered
  recovered-returned (returned ctx) = (ctx, refl)
  recovered-returned (panicked ctx) =
      (abort (pos 500) (codes "{\"error\":\"internal server error\"}") ctx, refl)

  around-IsFinished :
      (f : Flow F) → (done : RequestContext F) × (around f ≡ returned done) × IsFinished done
  unfolding around finish_flow
  around-IsFinished f =
      let (ctx, e) = recovered-returned (settle_flow (settle_flow (audited f))) in
      (
        finish (ensure_response ctx),
        ap (λ (g : Flow F). finish_flow (settle_flow g)) e,
        finish-IsFinished (ensure_response ctx),
      )

  -- Whatever the policy middleware do, a panic included, the request ends with a committed
  -- response, and with no provider key and no request body left in its context.
  pub serve_http-IsFinished :
      (fresh : Bytes) (policy : List (Middleware F)) (ctx : RequestContext F)
      → ctx.aborted ≡ false
      → (done : RequestContext F) × (serve_http (new_pipeline fresh policy) ctx ≡ returned done)
        × IsFinished done
  serve_http-IsFinished fresh policy ctx h =
      let (done, e, f) = around-IsFinished (execute policy (with_id fresh ctx)) in
      (done, serve_http-around fresh policy ctx h ∙ e, f)

  returned_status :
      (ctx : RequestContext F)
      → IsHonest ctx
      → IsAnswered ctx
      → (ctx.retryable_attempt ≡ true → (ctx.aborted ≡ true) ⊎ (ctx.committed ≡ true))
      → (finish (
          ensure_response (
            ensure_response (
              ensure_response (
                record_audit
                  (if ctx.committed then ctx.response_status else ctx.status_code)
                  ctx))))).client_status
        ≡ some (if ctx.committed then ctx.response_status else ctx.status_code)
  unfolding finish ensure_response record_audit
  returned_status ctx h a r = ground (arith, h.received, h.coded)

  panicked_status :
      (ctx : RequestContext F)
      → IsHonest ctx
      → (finish (
          ensure_response (
            abort (pos 500) (codes "{\"error\":\"internal server error\"}") (
              record_audit
                (if ctx.committed then ctx.response_status else pos 500)
                ctx)))).client_status
        ≡ some (if ctx.committed then ctx.response_status else pos 500)
  unfolding finish ensure_response record_audit
  panicked_status ctx h = ground (arith, h.received)

  finish-audit : (ctx : RequestContext F) → (finish ctx).audit ≡ ctx.audit
  unfolding finish
  finish-audit ctx = ground arith

  ensure-audit : (ctx : RequestContext F) → (ensure_response ctx).audit ≡ ctx.audit
  unfolding ensure_response
  ensure-audit ctx = ground arith

  -- The newest line of the audit log has the status that the client got.
  pub record AuditsStatus (done : RequestContext F) : Type 0 where
    pub entry : AuditEntry
    pub rest : List AuditEntry
    pub logged : done.audit ≡ entry ∷ rest
    pub received : done.client_status ≡ some entry.status

  around-AuditsStatus :
      (f : Flow F)
      → IsHonest (context f)
      → ((done : RequestContext F)
          → f ≡ returned done
          → IsAnswered done
            × (done.retryable_attempt ≡ true → (done.aborted ≡ true) ⊎ (done.committed ≡ true)))
      → (done : RequestContext F) × (around f ≡ returned done) × AuditsStatus done
  unfolding around finish_flow recovered audited
  around-AuditsStatus (returned ctx) h a = (
    finish (ensure_response (ensure_response (ensure_response logged_ctx))),
    refl,
    record {
      entry = head_line;
      rest = ctx.audit;
      logged =
          finish-audit (ensure_response (ensure_response (ensure_response logged_ctx)))
          ∙ ensure-audit (ensure_response (ensure_response logged_ctx))
          ∙ ensure-audit (ensure_response logged_ctx)
          ∙ ensure-audit logged_ctx;
      received = returned_status ctx h (a ctx refl).0 (a ctx refl).1;
    },
  )
    where
      logged_ctx : RequestContext F
      logged_ctx = record_audit (if ctx.committed then ctx.response_status else ctx.status_code) ctx

      head_line : AuditEntry
      head_line = audit_entry (if ctx.committed then ctx.response_status else ctx.status_code) ctx
  around-AuditsStatus (panicked ctx) h a = (
    finish (
        ensure_response
          (abort (pos 500) (codes "{\"error\":\"internal server error\"}") logged_ctx)),
    refl,
    record {
      entry = audit_entry (if ctx.committed then ctx.response_status else pos 500) ctx;
      rest = ctx.audit;
      logged =
          finish-audit (
            ensure_response
              (abort (pos 500) (codes "{\"error\":\"internal server error\"}") logged_ctx))
          ∙ ensure-audit
              (abort (pos 500) (codes "{\"error\":\"internal server error\"}") logged_ctx);
      received = panicked_status ctx h;
    },
  )
    where
      logged_ctx : RequestContext F
      logged_ctx = record_audit (if ctx.committed then ctx.response_status else pos 500) ctx

  -- The audit log tells the status that the client received, on a return and on a panic, where each
  -- policy middleware keeps a context that is not aborted honest, and a chain that returns with a
  -- retryable attempt has aborted or committed a response.
  pub serve_http-AuditsStatus :
      (fresh : Bytes) (policy : List (Middleware F)) (ctx : RequestContext F)
      → ctx.aborted ≡ false
      → IsHonest ctx
      → All KeepsHonest policy
      → ((done : RequestContext F)
          → execute policy (with_id fresh ctx) ≡ returned done
          → done.retryable_attempt ≡ true
          → (done.aborted ≡ true) ⊎ (done.committed ≡ true))
      → (done : RequestContext F) × (serve_http (new_pipeline fresh policy) ctx ≡ returned done)
        × AuditsStatus done
  serve_http-AuditsStatus fresh policy ctx h honest keeps settled =
      let start : IsHonest (with_id fresh ctx) = record {
        received = honest.received;
        coded = honest.coded;
      } in
      let (done, e, a) =
        around-AuditsStatus (execute policy (with_id fresh ctx))
          (execute-IsHonest policy (with_id fresh ctx) keeps start)
          (λ d q. (execute-IsAnswered policy (with_id fresh ctx) q, settled d q)) in
      (done, serve_http-around fresh policy ctx h ∙ e, a)
