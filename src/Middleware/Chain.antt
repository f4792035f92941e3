-- ===== src/Middleware/Chain.antt =====
-- What an attempt that may be tried again has done to the client, for the end of the chain: `KMSInjector`
-- of internal/middleware/kms.go, `Adapter` of internal/middleware/adapter.go and `Proxy` of
-- internal/middleware/proxy.go, run by `execute` of internal/server/pipeline.go.
use aegis_llm.Prelude.{
  ◌≡◌, refl, ◌∙◌, false, not, ◌&&◌, ℤ, pos, List, [], ◌∷◌, Option, none, some, arith, Bytes,
  if_elim, All, Map, lookup,
}
use aegis_llm.Server.Context.{RequestContext, Flow, returned, panicked, abort}
use aegis_llm.Server.Pipeline.{Middleware, execute, ensure_response, settle_flow}
use aegis_llm.Middleware.Body.{
  BodyResult, body, body_error, too_large, read_failed, read_request_body,
}
use aegis_llm.Middleware.Adapter.{
  ProtocolAdapter, AdapterRegistry, get, adapter, adapt, adapt_body, adapted, unsupported_provider,
  provider_body_too_large, provider_body_invalid, provider_request_invalid,
}
use aegis_llm.Middleware.Keys.{
  KeyConfig, kms_injector, Cleared, on_return, on_panic, Injection, no_channel, no_service,
  unresolved, refused, injected, kms_injector-Injection, routing_error, service_unavailable,
  key_unresolved,
}
use aegis_llm.Middleware.Proxy.{Urls, Engine, proxy}
use aegis_llm.Middleware.Retry.{
  IsUntouched, IsHeld, FlowHeld, unmarked, IsUntouched-on, proxy-IsHeld,
}

module _ {F : Type 0} where
  Cleared-FlowHeld :
      (before : RequestContext F) (flow result : Flow F)
      → Cleared flow result
      → FlowHeld before flow
      → FlowHeld before result
  Cleared-FlowHeld before flow result (on_return ctx) h =
      λ e. let u = h e in record { committed = u.committed; status = u.status; body = u.body }
  Cleared-FlowHeld before flow result (on_panic ctx) h = tt

  settle-FlowHeld :
      (before : RequestContext F) (flow : Flow F)
      → FlowHeld before flow
      → FlowHeld before (settle_flow flow)
  unfolding ensure_response abort
  settle-FlowHeld before (returned ctx) h =
      if_elim (IsHeld before) (not ctx.aborted && not ctx.committed && not ctx.retryable_attempt)
        (λ g e. absurd (ground (arith, g, e))) (λ _. h)
  settle-FlowHeld before (panicked ctx) h = tt

  -- Middleware that hides nothing from the client: with a rest of the chain that is held, it is held.
  abbrev pub IsHolding : Middleware F → Type 0
  IsHolding m =
      (next : RequestContext F → Flow F)
      → ((c : RequestContext F) → c.retryable_attempt ≡ false → FlowHeld c (next c))
      → (ctx : RequestContext F) → ctx.retryable_attempt ≡ false
      → FlowHeld ctx (m next ctx)

  proxy-IsHolding : (urls : Urls) (engine : Option (Engine F)) → IsHolding (proxy urls engine)
  proxy-IsHolding urls engine next held ctx h = proxy-IsHeld urls engine next ctx h

  abort-IsHeld :
      (code : ℤ) (text : Bytes) (ctx : RequestContext F)
      → ctx.retryable_attempt ≡ false
      → IsHeld ctx (abort code text ctx)
  unfolding abort
  abort-IsHeld code text ctx h = unmarked ctx (abort code text ctx) refl h

  -- What is held from a context that shows the client the same is held.
  held_from :
      {before ctx : RequestContext F} (flow : Flow F)
      → IsUntouched before ctx
      → FlowHeld ctx flow
      → FlowHeld before flow
  held_from (returned after) u h = λ e. IsUntouched-on u (h e)
  held_from (panicked after) u h = tt

  kms_injector-IsHolding : (cfg : KeyConfig) → IsHolding (kms_injector cfg)
  kms_injector-IsHolding cfg next held ctx h =
      by_cases (kms_injector cfg next ctx) (kms_injector-Injection cfg next ctx)
    where
      by_cases : (flow : Flow F) → Injection cfg next ctx flow → FlowHeld ctx flow
      by_cases flow (no_channel e) = abort-IsHeld (pos 500) routing_error ctx h
      by_cases flow (no_service e) = abort-IsHeld (pos 503) service_unavailable ctx h
      by_cases flow (unresolved e) = abort-IsHeld (pos 500) key_unresolved ctx h
      by_cases flow (refused provider id e s m q) = abort-IsHeld (pos 503) service_unavailable ctx h
      by_cases flow (injected provider id key e s m n k result cleared) =
          let after = record ctx { provider_api_key = some key } in
          Cleared-FlowHeld ctx (next after) result cleared (
            held_from {before = ctx} {ctx = after} (next after)
              (record { committed = refl; status = refl; body = refl }) (held after h))

  -- Reading the body shows nothing to the client.
  read-IsUntouched :
      (ctx : RequestContext F) (limit : ℤ)
      → IsUntouched ctx (read_request_body ctx limit).0
        × ((read_request_body ctx limit).0.retryable_attempt ≡ ctx.retryable_attempt)
  unfolding read_request_body
  read-IsUntouched ctx limit = (
    record { committed = ground arith; status = ground arith; body = ground arith },
    ground arith,
  )

  adapter-IsHolding :
      (registry : AdapterRegistry) (kinds : Map Bytes) (limit : ℤ)
      → IsHolding (adapter registry kinds limit)
  unfolding adapter adapt
  adapter-IsHolding registry kinds limit next held ctx h =
      elim (lookup ctx.provider_id kinds)
        as (λ k. FlowHeld ctx (elim k [
          | none ↦ returned (abort (pos 500) unsupported_provider ctx)
          | some kind ↦ adapt kind limit next ctx (get registry kind)
        ])) [
          | none ↦ abort-IsHeld (pos 500) unsupported_provider ctx h
          | some kind ↦ with_adapter kind (get registry kind)
        ]
    where
      go_on :
          (kind : Bytes) (a : ProtocolAdapter) (c : RequestContext F) (r : BodyResult)
          → c.retryable_attempt ≡ false
          → FlowHeld c (adapt_body kind a next c r)
      go_on kind a c (body_error too_large) q = abort-IsHeld (pos 413) provider_body_too_large c q
      go_on kind a c (body_error read_failed) q = abort-IsHeld (pos 400) provider_body_invalid c q
      go_on kind a c (body raw) q =
          elim (a.transform_request raw c.model c.provider_api_version)
            as (λ t. FlowHeld c (elim t [
              | none ↦ returned (abort (pos 400) provider_request_invalid c)
              | some (transformed, path) ↦ next (adapted kind a transformed path c)
            ])) [
              | none ↦ abort-IsHeld (pos 400) provider_request_invalid c q
              | some (transformed, path) ↦
                  let after = adapted kind a transformed path c in
                  held_from {before = c} {ctx = after} (next after)
                    (record { committed = refl; status = refl; body = refl }) (held after q)
            ]

      with_adapter :
          (kind : Bytes) (a : Option ProtocolAdapter) → FlowHeld ctx (adapt kind limit next ctx a)
      with_adapter kind none = abort-IsHeld (pos 500) unsupported_provider ctx h
      with_adapter kind (some a) =
          let (c, r) = read_request_body ctx limit in
          let (u, same) = read-IsUntouched ctx limit in
          held_from (adapt_body kind a next c r) u (go_on kind a c r (same ∙ h))

  -- A chain of such middleware is held.
  pub execute-FlowHeld :
      (ms : List (Middleware F))
      → All IsHolding ms
      → (ctx : RequestContext F) → ctx.retryable_attempt ≡ false
      → FlowHeld ctx (execute ms ctx)
  unfolding execute ensure_response
  execute-FlowHeld [] hs ctx h =
      if_elim (IsHeld ctx) ctx.aborted (λ _. unmarked ctx ctx refl h)
        (λ _. settle-FlowHeld ctx (returned ctx) (unmarked ctx ctx refl h))
  execute-FlowHeld (m ∷ ms) (k, hs) ctx h =
      if_elim (FlowHeld ctx) ctx.aborted (λ _. unmarked ctx ctx refl h)
        (λ _.
          settle-FlowHeld ctx (m (execute ms) ctx)
            (k (execute ms) (λ c. execute-FlowHeld ms hs c) ctx h))

  -- The end of the gateway's chain behind the router: the key, the adapter, the proxy.
  abbrev pub provider_chain :
      KeyConfig → AdapterRegistry → Map Bytes → ℤ → Urls → Option (Engine F) → List (Middleware F)
  provider_chain cfg registry kinds limit urls engine =
      kms_injector cfg ∷ adapter registry kinds limit ∷ proxy urls engine ∷ []

  pub provider_chain-FlowHeld :
      (cfg : KeyConfig) (registry : AdapterRegistry) (kinds : Map Bytes) (limit : ℤ) (urls : Urls)
      (engine : Option (Engine F)) (ctx : RequestContext F)
      → ctx.retryable_attempt ≡ false
      → FlowHeld ctx (execute (provider_chain cfg registry kinds limit urls engine) ctx)
  provider_chain-FlowHeld cfg registry kinds limit urls engine =
      execute-FlowHeld (provider_chain cfg registry kinds limit urls engine) (
        kms_injector-IsHolding cfg,
        (adapter-IsHolding registry kinds limit, (proxy-IsHolding urls engine, tt)),
      )
