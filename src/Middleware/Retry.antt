-- ===== src/Middleware/Retry.antt =====
-- What an attempt that may be tried again has done to the client: `Proxy` of
-- internal/middleware/proxy.go.
use aegis_llm.Prelude.{
  ◌≡◌, refl, ◌∙◌, Bool, true, false, not, ◌&&◌, ◌||◌, ℤ, pos, List, [], ◌∷◌, Option, none, some,
  arith, Bytes, is_some, if◌then◌else◌, if_elim, is_empty,
}
use aegis_llm.Server.Context.{
  RequestContext, Flow, returned, panicked, context, abort, write_header, write,
}
use aegis_llm.Middleware.Capture.{
  Effect, head, chunk, CaptureWriter, new_capture_writer, capture_all, flush_to, send_all,
}
use aegis_llm.Middleware.Proxy.{
  Urls, Engine, ProxyResult, DispatchError, transport, other, Dispatched, note_result, note_failure,
  flush_failed, after_failure, after_success, after_dispatch, dispatch, proxy, build_target_url,
  is_retryable_proxy, is_retryable_status,
}

module _ {F : Type 0} where
  -- The client has got nothing between the two.
  pub record IsUntouched (before after : RequestContext F) : Type 0 where
    pub committed : after.committed ≡ before.committed
    pub status : after.client_status ≡ before.client_status
    pub body : after.client_body ≡ before.client_body

  -- An attempt that is to be tried again has not touched the client.
  abbrev pub IsHeld : RequestContext F → RequestContext F → Type 0
  IsHeld before after = after.retryable_attempt ≡ true → IsUntouched before after

  abbrev pub FlowHeld : RequestContext F → Flow F → Type 0
  FlowHeld before (returned after) = IsHeld before after
  FlowHeld before (panicked after) = Unit {0}

  -- What does not mark an attempt is held, whatever it does.
  pub unmarked :
      (before after : RequestContext F)
      → after.retryable_attempt ≡ before.retryable_attempt
      → before.retryable_attempt ≡ false
      → IsHeld before after
  unmarked before after same h e = absurd (ground (arith, same, h, e))

  write_header-retryable :
      (code : ℤ) (ctx : RequestContext F)
      → (write_header code ctx).retryable_attempt ≡ ctx.retryable_attempt
  unfolding write_header
  write_header-retryable code ctx =
      if_elim (λ (c : RequestContext F). c.retryable_attempt ≡ ctx.retryable_attempt) ctx.committed
        (λ e. refl) (λ e. refl)

  write-retryable :
      (p : Bytes) (ctx : RequestContext F) → (write p ctx).retryable_attempt ≡ ctx.retryable_attempt
  unfolding write
  write-retryable p ctx = write_header-retryable (pos 200) ctx

  flush-retryable :
      (w : CaptureWriter) (ctx : RequestContext F)
      → (flush_to w ctx).retryable_attempt ≡ ctx.retryable_attempt
  unfolding flush_to
  flush-retryable w ctx =
      write-retryable w.body (write_header w.status ctx) ∙ write_header-retryable w.status ctx

  send-retryable :
      (es : List Effect) (ctx : RequestContext F)
      → (send_all es ctx).retryable_attempt ≡ ctx.retryable_attempt
  unfolding send_all
  send-retryable [] ctx = refl
  send-retryable (head code ∷ es) ctx =
      send-retryable es (write_header code ctx) ∙ write_header-retryable code ctx
  send-retryable (chunk p ∷ es) ctx = send-retryable es (write p ctx) ∙ write-retryable p ctx

  note_result-IsUntouched :
      (r : Option ProxyResult) (ctx : RequestContext F)
      → IsUntouched ctx (note_result r ctx)
        × ((note_result r ctx).retryable_attempt ≡ ctx.retryable_attempt)
  note_result-IsUntouched none ctx = (record { committed = refl; status = refl; body = refl }, refl)
  note_result-IsUntouched (some r) ctx =
      (record { committed = refl; status = refl; body = refl }, refl)

  note_failure-IsUntouched :
      (e : DispatchError) (ctx : RequestContext F)
      → IsUntouched ctx (note_failure e ctx)
        × ((note_failure e ctx).retryable_attempt ≡ ctx.retryable_attempt)
  note_failure-IsUntouched transport ctx =
      (record { committed = refl; status = refl; body = refl }, refl)
  note_failure-IsUntouched DispatchError.read_failed ctx =
      (record { committed = refl; status = refl; body = refl }, refl)
  note_failure-IsUntouched other ctx =
      (record { committed = refl; status = refl; body = refl }, refl)

  pub IsUntouched-on :
      {a b c : RequestContext F} → IsUntouched a b → IsUntouched b c → IsUntouched a c
  IsUntouched-on f g = record {
    committed = g.committed ∙ f.committed;
    status = g.status ∙ f.status;
    body = g.body ∙ f.body;
  }

  flush_failed-retryable :
      (captured : Bool) (w : CaptureWriter) (ctx : RequestContext F)
      → (flush_failed captured w ctx).retryable_attempt ≡ ctx.retryable_attempt
  flush_failed-retryable captured w ctx =
      if_elim (λ (c : RequestContext F). c.retryable_attempt ≡ ctx.retryable_attempt)
        (captured && not ctx.committed) (λ e. flush-retryable w ctx) (λ e. refl)

  -- A failed dispatch whose effects were not captured is not marked.
  after_failure-IsHeld :
      (captured : Bool) (w : CaptureWriter) (r : Option ProxyResult) (e : DispatchError)
      (before ctx : RequestContext F)
      → before.retryable_attempt ≡ false
      → ctx.retryable_attempt ≡ before.retryable_attempt
      → (captured ≡ true → IsUntouched before ctx)
      → IsHeld before (after_failure captured w r e ctx)
  unfolding after_failure abort
  after_failure-IsHeld captured w r e before ctx h same held =
      let noted = note_failure e ctx in
      let (quiet, kept) = note_failure-IsUntouched e ctx in
      if_elim (IsHeld before)
        (captured && noted.can_fallback && not noted.committed && is_retryable_proxy r e)
        (λ go _.
          let u = IsUntouched-on (held (ground arith)) quiet in
          record { committed = u.committed; status = u.status; body = u.body })
        (λ _.
          if_elim (IsHeld before) (is_some r)
            (λ _.
              unmarked before (flush_failed captured w noted)
                (flush_failed-retryable captured w noted ∙ kept ∙ same) h)
            (λ _.
              unmarked before (abort (pos 502) aegis_llm.Middleware.Proxy.request_failed noted)
                (kept ∙ same) h))

  after_success-IsHeld :
      (captured : Bool) (w : CaptureWriter) (before ctx : RequestContext F)
      → before.retryable_attempt ≡ false
      → ctx.retryable_attempt ≡ before.retryable_attempt
      → (captured ≡ true → IsUntouched before ctx)
      → IsHeld before (after_success captured w ctx)
  unfolding after_success
  after_success-IsHeld captured w before ctx h same held =
      if_elim (IsHeld before) (not captured) (λ _. unmarked before ctx same h)
        (λ on.
          if_elim (IsHeld before)
            (ctx.can_fallback && is_retryable_status w.status && not w.overflowed)
            (λ _ _.
              let u = held (ground arith) in
              record { committed = u.committed; status = u.status; body = u.body })
            (λ _. unmarked before (flush_to w ctx) (flush-retryable w ctx ∙ same) h))

  -- The context that an attempt goes on with: the client's writer has been used or not.
  ready-IsHeld :
      (captured : Bool) (es : List Effect) (r : Option ProxyResult) (ctx : RequestContext F)
      → ((note_result r (if captured then ctx else send_all es ctx)).retryable_attempt
          ≡ ctx.retryable_attempt)
        × (captured ≡ true
            → IsUntouched ctx (note_result r (if captured then ctx else send_all es ctx)))
  ready-IsHeld true es r ctx = let (u, same) = note_result-IsUntouched r ctx in (same, λ _. u)
  ready-IsHeld false es r ctx =
      ((note_result-IsUntouched r (send_all es ctx)).1 ∙ send-retryable es ctx, λ e. absurd cc)

  after_dispatch-IsHeld :
      (captured : Bool) (d : Dispatched) (ctx : RequestContext F)
      → ctx.retryable_attempt ≡ false
      → IsHeld ctx (after_dispatch captured d ctx)
  unfolding after_dispatch
  after_dispatch-IsHeld captured d ctx h =
      let w = capture_all d.effects new_capture_writer in
      let noted = note_result d.result (if captured then ctx else send_all d.effects ctx) in
      let (same, held) = ready-IsHeld captured d.effects d.result ctx in
      elim d.failure
        as (λ f. IsHeld ctx (elim f [
          | some e ↦ after_failure captured w d.result e noted
          | none ↦ after_success captured w noted
        ])) [
          | some e ↦ after_failure-IsHeld captured w d.result e ctx noted h same held
          | none ↦ after_success-IsHeld captured w ctx noted h same held
        ]

  dispatch-IsHeld :
      (engine : Engine F) (ctx : RequestContext F) (target : Option Bytes)
      → ctx.retryable_attempt ≡ false
      → IsHeld ctx (dispatch engine ctx target)
  unfolding abort
  dispatch-IsHeld engine ctx none h = unmarked ctx (dispatch engine ctx none) refl h
  dispatch-IsHeld engine ctx (some target) h =
      after_dispatch-IsHeld (ctx.can_fallback && not ctx.is_streaming) (engine target ctx) ctx h

  -- `Proxy`, on a context that is not marked, marks an attempt as one to try again only when the client
  -- has got nothing of it: no status and not a byte.
  pub proxy-IsHeld :
      (urls : Urls) (engine : Option (Engine F)) (next : RequestContext F → Flow F)
      (ctx : RequestContext F)
      → ctx.retryable_attempt ≡ false
      → FlowHeld ctx (proxy urls engine next ctx)
  unfolding proxy abort
  proxy-IsHeld urls none next ctx h = unmarked ctx (context (proxy urls none next ctx)) refl h
  proxy-IsHeld urls (some engine) next ctx h =
      if_elim (FlowHeld ctx) (is_empty ctx.base_url || not (is_some ctx.provider_api_key))
        (λ _ e. absurd (ground (arith, h, e)))
        (λ _. dispatch-IsHeld engine ctx (build_target_url urls ctx.base_url ctx.target_path) h)
