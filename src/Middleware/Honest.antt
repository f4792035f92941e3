-- ===== src/Middleware/Honest.antt =====
-- `Auth`, `KMSInjector` and `Proxy` of internal/middleware keep the context honest, as the pipeline of
-- internal/server/pipeline.go relies on.
use aegis_llm.Prelude.{
  ◌≡◌, refl, inl, inr, Bool, false, not, ◌&&◌, ◌||◌, ℤ, List, [], ◌∷◌, Option, none, some, Bytes,
  is_some, is_empty, if◌then◌else◌, if_elim, Result, ok, err, pos,
}
use aegis_llm.Server.Context.{
  RequestContext, Flow, returned, panicked, context, abort, write_header, write,
}
use aegis_llm.Server.Answers.{IsHonest, KeepsHonest}
use aegis_llm.VirtualKey.Claims.{Claims}
use aegis_llm.VirtualKey.Token.{TokenError}
use aegis_llm.Revocation.Reader.{Verdict, revoked, allowed, cancelled, unavailable}
use aegis_llm.Middleware.Auth.{AuthConfig, auth, admit, judge, check_claims, claims_of_request}
use aegis_llm.Middleware.Keys.{
  KeyConfig, kms_injector, drop_key, with_key, fetch_key, resolve_key_id,
}
use aegis_llm.Middleware.Capture.{
  Effect, head, chunk, CaptureWriter, new_capture_writer, capture_all, flush_to, send_all,
}
use aegis_llm.Middleware.Proxy.{
  Urls, Engine, ProxyResult, DispatchError, transport, other, Dispatched, note_result, note_failure,
  after_failure, after_success, after_dispatch, dispatch, proxy, build_target_url,
  is_retryable_proxy, is_retryable_status, request_failed,
}

module _ {F : Type 0} where
  abort-IsHonest :
      (code : ℤ) (text : Bytes) (ctx : RequestContext F)
      → IsHonest ctx
      → IsHonest (abort code text ctx)
  unfolding abort
  abort-IsHonest code text ctx h = record { received = h.received; coded = inr refl }

  module _ (next : RequestContext F → Flow F)
      (keeps : (c : RequestContext F) → IsHonest c → IsHonest (context (next c))) where
    admit-IsHonest :
        (ctx : RequestContext F) (c : Claims F) (v : Verdict)
        → IsHonest ctx
        → IsHonest (context (admit next ctx c v))
    unfolding abort
    admit-IsHonest ctx c revoked h = abort-IsHonest _ _ ctx h
    admit-IsHonest ctx c allowed h = keeps _ (record { received = h.received; coded = h.coded })
    admit-IsHonest ctx c cancelled h = abort-IsHonest _ _ ctx h
    admit-IsHonest ctx c unavailable h = abort-IsHonest _ _ ctx h

    judge-IsHonest :
        (ctx : RequestContext F) (c : Claims F) (o : Option (Bytes → Bytes → Verdict))
        → IsHonest ctx
        → IsHonest (context (judge next ctx c o))
    judge-IsHonest ctx c none h = abort-IsHonest _ _ ctx h
    judge-IsHonest ctx c (some verdict) h = admit-IsHonest ctx c (verdict c.issuer c.key_id) h

    check_claims-IsHonest :
        (cfg : AuthConfig F) (ctx : RequestContext F) (r : Option (Result TokenError (Claims F)))
        → IsHonest ctx
        → IsHonest (context (check_claims cfg next ctx r))
    check_claims-IsHonest cfg ctx none h = abort-IsHonest _ _ ctx h
    check_claims-IsHonest cfg ctx (some (err e)) h = abort-IsHonest _ _ ctx h
    check_claims-IsHonest cfg ctx (some (ok c)) h = judge-IsHonest ctx c cfg.revocation h

    drop_key-IsHonest : (f : Flow F) → IsHonest (context f) → IsHonest (context (drop_key f))
    drop_key-IsHonest (returned ctx) h = record { received = h.received; coded = h.coded }
    drop_key-IsHonest (panicked ctx) h = h

    with_key-IsHonest :
        (ctx : RequestContext F) (key : Option Bytes)
        → IsHonest ctx
        → IsHonest (context (with_key next ctx key))
    with_key-IsHonest ctx none h = abort-IsHonest _ _ ctx h
    with_key-IsHonest ctx (some key) h =
        let ready : IsHonest (record ctx { provider_api_key = some key }) = record {
          received = h.received;
          coded = h.coded;
        } in
        drop_key-IsHonest (next (record ctx { provider_api_key = some key }))
          (keeps (record ctx { provider_api_key = some key }) ready)

    fetch_key-IsHonest :
        (id : Bytes) (ctx : RequestContext F) (service : Option (Bytes → Option Bytes))
        → IsHonest ctx
        → IsHonest (context (fetch_key id next ctx service))
    fetch_key-IsHonest id ctx none h = abort-IsHonest _ _ ctx h
    fetch_key-IsHonest id ctx (some provider) h =
        if_elim (λ (f : Flow F). IsHonest (context f)) (is_empty id) (λ _. abort-IsHonest _ _ ctx h)
          (λ _. with_key-IsHonest ctx (provider id) h)

  pub auth-KeepsHonest : (cfg : AuthConfig F) (now : ℤ) → KeepsHonest (auth cfg now)
  unfolding auth
  auth-KeepsHonest cfg now next keeps ctx open_ h =
      check_claims-IsHonest next keeps cfg ctx (claims_of_request cfg now ctx) h

  pub kms_injector-KeepsHonest : (cfg : KeyConfig) → KeepsHonest {F = F} (kms_injector cfg)
  unfolding kms_injector
  kms_injector-KeepsHonest cfg next keeps ctx open_ h =
      if_elim (λ (f : Flow F). IsHonest (context f)) (is_empty ctx.provider_id)
        (λ _. abort-IsHonest _ _ ctx h)
        (λ _.
          fetch_key-IsHonest next keeps (resolve_key_id ctx cfg.pool_key_mapping) ctx cfg.provider
            h)

  -- A context that is honest and not aborted.
  abbrev IsOpen : RequestContext F → Type 0
  IsOpen ctx =
      (ctx.client_status ≡ (if ctx.committed then some ctx.response_status else none))
      × (ctx.aborted ≡ false)

  IsOpen-IsHonest : (ctx : RequestContext F) → IsOpen ctx → IsHonest ctx
  IsOpen-IsHonest ctx o = record { received = o.0; coded = inl o.1 }

  write_header-IsOpen :
      (code : ℤ) (ctx : RequestContext F) → IsOpen ctx → IsOpen (write_header code ctx)
  unfolding write_header
  write_header-IsOpen code ctx o = if_elim IsOpen ctx.committed (λ _. o) (λ _. (refl, o.1))

  write-IsOpen : (p : Bytes) (ctx : RequestContext F) → IsOpen ctx → IsOpen (write p ctx)
  unfolding write
  write-IsOpen p ctx o = write_header-IsOpen (pos 200) ctx o

  flush-IsOpen : (w : CaptureWriter) (ctx : RequestContext F) → IsOpen ctx → IsOpen (flush_to w ctx)
  unfolding flush_to
  flush-IsOpen w ctx o =
      write-IsOpen w.body (write_header w.status ctx) (write_header-IsOpen w.status ctx o)

  send_all-IsOpen :
      (es : List Effect) (ctx : RequestContext F) → IsOpen ctx → IsOpen (send_all es ctx)
  unfolding send_all
  send_all-IsOpen [] ctx o = o
  send_all-IsOpen (head code ∷ es) ctx o =
      send_all-IsOpen es (write_header code ctx) (write_header-IsOpen code ctx o)
  send_all-IsOpen (chunk p ∷ es) ctx o = send_all-IsOpen es (write p ctx) (write-IsOpen p ctx o)

  note_result-IsOpen :
      (r : Option ProxyResult) (ctx : RequestContext F) → IsOpen ctx → IsOpen (note_result r ctx)
  note_result-IsOpen none ctx o = o
  note_result-IsOpen (some r) ctx o = o

  note_failure-IsOpen :
      (e : DispatchError) (ctx : RequestContext F) → IsOpen ctx → IsOpen (note_failure e ctx)
  note_failure-IsOpen transport ctx o = o
  note_failure-IsOpen DispatchError.read_failed ctx o = o
  note_failure-IsOpen other ctx o = o

  after_failure-IsHonest :
      (captured : Bool) (w : CaptureWriter) (r : Option ProxyResult) (e : DispatchError)
      (ctx : RequestContext F)
      → IsOpen ctx
      → IsHonest (after_failure captured w r e ctx)
  unfolding after_failure
  after_failure-IsHonest captured w r e ctx o =
      let noted = note_failure e ctx in
      let open_ = note_failure-IsOpen e ctx o in
      if_elim IsHonest
        (captured && noted.can_fallback && not noted.committed && is_retryable_proxy r e)
        (λ _. record { received = open_.0; coded = inl open_.1 })
        (λ _.
          if_elim IsHonest (is_some r)
            (λ _.
              if_elim IsHonest (captured && not noted.committed)
                (λ _. IsOpen-IsHonest (flush_to w noted) (flush-IsOpen w noted open_))
                (λ _. IsOpen-IsHonest noted open_))
            (λ _. abort-IsHonest (pos 502) request_failed noted (IsOpen-IsHonest noted open_)))

  after_success-IsHonest :
      (captured : Bool) (w : CaptureWriter) (ctx : RequestContext F)
      → IsOpen ctx
      → IsHonest (after_success captured w ctx)
  unfolding after_success
  after_success-IsHonest captured w ctx o =
      if_elim IsHonest (not captured) (λ _. IsOpen-IsHonest ctx o)
        (λ _.
          if_elim IsHonest (ctx.can_fallback && is_retryable_status w.status && not w.overflowed)
            (λ _. record { received = o.0; coded = inl o.1 })
            (λ _. IsOpen-IsHonest (flush_to w ctx) (flush-IsOpen w ctx o)))

  after_dispatch-IsHonest :
      (captured : Bool) (d : Dispatched) (ctx : RequestContext F)
      → IsOpen ctx
      → IsHonest (after_dispatch captured d ctx)
  unfolding after_dispatch
  after_dispatch-IsHonest captured d ctx o =
      let w = capture_all d.effects new_capture_writer in
      let noted = note_result d.result (if captured then ctx else send_all d.effects ctx) in
      let open_ : IsOpen noted =
        note_result-IsOpen d.result (if captured then ctx else send_all d.effects ctx)
          (if_elim IsOpen captured (λ _. o) (λ _. send_all-IsOpen d.effects ctx o)) in
      elim d.failure
        as (λ f. IsHonest (elim f [
          | some e ↦ after_failure captured w d.result e noted
          | none ↦ after_success captured w noted
        ])) [
          | some e ↦ after_failure-IsHonest captured w d.result e noted open_
          | none ↦ after_success-IsHonest captured w noted open_
        ]

  dispatch-IsHonest :
      (engine : Engine F) (ctx : RequestContext F) (target : Option Bytes)
      → IsOpen ctx
      → IsHonest (dispatch engine ctx target)
  dispatch-IsHonest engine ctx none o = abort-IsHonest _ _ ctx (IsOpen-IsHonest ctx o)
  dispatch-IsHonest engine ctx (some target) o =
      after_dispatch-IsHonest (ctx.can_fallback && not ctx.is_streaming) (engine target ctx) ctx o

  pub proxy-KeepsHonest :
      (urls : Urls) (engine : Option (Engine F)) → KeepsHonest (proxy urls engine)
  unfolding proxy
  proxy-KeepsHonest urls none next keeps ctx open_ h = abort-IsHonest _ _ ctx h
  proxy-KeepsHonest urls (some engine) next keeps ctx open_ h =
      if_elim (λ (f : Flow F). IsHonest (context f))
        (is_empty ctx.base_url || not (is_some ctx.provider_api_key))
        (λ _. abort-IsHonest _ _ ctx h)
        (λ _.
          dispatch-IsHonest engine ctx (build_target_url urls ctx.base_url ctx.target_path)
            (h.received, open_))
