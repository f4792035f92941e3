-- ===== src/Middleware/Keys.antt =====
-- `KMSInjector` of internal/middleware/kms.go: the provider's key, for the time of one attempt.
use aegis_llm.Prelude.{
  ap, ◌∙◌, ◌⊎◌, str_eq_iff, ◌≡◌, ◌≢◌, refl, true, false, not, pos, Option, none, some, [], ◌∷◌,
  arith, Bytes, Map, lookup, codes, is_empty, str_eq, str_eq_sound, if◌then◌else◌, if_elim,
  Option-cases, Bool-cases, inl, inr,
}
use aegis_llm.Server.Context.{RequestContext, Flow, returned, panicked, abort}
use aegis_llm.Server.Pipeline.{Middleware}
use aegis_llm.VirtualKey.Claims.{pool}

-- `provider` is `GetKey` of the configured key service, if there is one.
pub record KeyConfig : Type 0 where
  pub provider : Option (Bytes → Option Bytes)
  pub pool_key_mapping : Map Bytes

abbrev pub routing_error : Bytes
routing_error =
    codes "{\"error\":{\"message\":\"internal routing error\",\"type\":\"server_error\"}}"

abbrev pub service_unavailable : Bytes
service_unavailable =
    codes "{\"error\":{\"message\":\"key service unavailable\",\"type\":\"server_error\"}}"

abbrev pub key_unresolved : Bytes
key_unresolved =
    codes "{\"error\":{\"message\":\"unable to resolve provider key\",\"type\":\"server_error\"}}"

empty_nil : (s : Bytes) → is_empty s ≡ true → s ≡ []
empty_nil [] h = refl
empty_nil (a ∷ s) h = cc

module _ {F : Type 0} where
  -- `resolveKeyID`; an empty id resolves to nothing.
  unfoldable pub resolve_key_id : RequestContext F → Map Bytes → Bytes
  unfolding str_eq lookup
  resolve_key_id ctx mapping =
      if not (str_eq ctx.key_source pool)
      then []
      else elim (lookup ctx.provider_id mapping) [ none ↦ [] | some id ↦ id ]

  -- What follows `next`: the key is closed and dropped, unless a panic passes by.
  abbrev pub drop_key : Flow F → Flow F
  drop_key (returned ctx) = returned (record ctx { provider_api_key = none })
  drop_key (panicked ctx) = panicked ctx

  -- The call of `next` with the key that the service gave.
  abbrev pub with_key : (RequestContext F → Flow F) → RequestContext F → Option Bytes → Flow F
  with_key next ctx none = returned (abort (pos 503) service_unavailable ctx)
  with_key next ctx (some key) = drop_key (next (record ctx { provider_api_key = some key }))

  abbrev pub fetch_key :
      Bytes
      → (RequestContext F → Flow F)
      → RequestContext F
      → Option (Bytes → Option Bytes)
      → Flow F
  fetch_key id next ctx none = returned (abort (pos 503) service_unavailable ctx)
  fetch_key id next ctx (some provider) =
      if is_empty id
      then returned (abort (pos 500) key_unresolved ctx)
      else with_key next ctx (provider id)

  -- `KMSInjector`
  unfoldable pub kms_injector : KeyConfig → Middleware F
  unfolding resolve_key_id abort
  kms_injector cfg next ctx =
      if is_empty ctx.provider_id
      then returned (abort (pos 500) routing_error ctx)
      else fetch_key (resolve_key_id ctx cfg.pool_key_mapping) next ctx cfg.provider

  -- The flow of the rest of the chain, and the one that the client of the chain sees: the key is gone
  -- from a context that returned, and nothing else has changed; a panic is passed on as it is.
  pub data Cleared : Flow F → Flow F → Type 0 where
    on_return :
        (ctx : RequestContext F)
        → Cleared (returned ctx) (returned (record ctx { provider_api_key = none }))
    on_panic : (ctx : RequestContext F) → Cleared (panicked ctx) (panicked ctx)

  drop_key-Cleared : (flow : Flow F) → Cleared flow (drop_key flow)
  drop_key-Cleared (returned ctx) = on_return ctx
  drop_key-Cleared (panicked ctx) = on_panic ctx

  -- What becomes of an attempt: an abort before the rest of the chain, or the rest of the chain with
  -- the key that the mapping names for the provider, which is gone when the chain has returned.
  pub data Injection (cfg : KeyConfig) (next : RequestContext F → Flow F) (ctx : RequestContext F)
      : Flow F → Type 0 where
    no_channel :
        ctx.provider_id ≡ [] → Injection cfg next ctx (returned (abort (pos 500) routing_error ctx))
    no_service :
        cfg.provider ≡ none
        → Injection cfg next ctx (returned (abort (pos 503) service_unavailable ctx))
    unresolved :
        (ctx.key_source ≢ pool)
          ⊎ (lookup ctx.provider_id cfg.pool_key_mapping ≡ none)
          ⊎ (lookup ctx.provider_id cfg.pool_key_mapping ≡ some [])
        → Injection cfg next ctx (returned (abort (pos 500) key_unresolved ctx))
    refused :
        (provider : Bytes → Option Bytes) (id : Bytes)
        → cfg.provider ≡ some provider
        → ctx.key_source ≡ pool
        → lookup ctx.provider_id cfg.pool_key_mapping ≡ some id
        → provider id ≡ none
        → Injection cfg next ctx (returned (abort (pos 503) service_unavailable ctx))
    injected :
        (provider : Bytes → Option Bytes) (id key : Bytes)
        → cfg.provider ≡ some provider
        → ctx.key_source ≡ pool
        → lookup ctx.provider_id cfg.pool_key_mapping ≡ some id
        → id ≢ []
        → provider id ≡ some key
        → (flow : Flow F) → Cleared (next (record ctx { provider_api_key = some key })) flow
        → Injection cfg next ctx flow

  -- An id that is not empty is what the mapping names, for a key of the pool.
  resolved :
      (ctx : RequestContext F) (mapping : Map Bytes)
      → is_empty (resolve_key_id ctx mapping) ≡ false
      → (ctx.key_source ≡ pool)
        × (lookup ctx.provider_id mapping ≡ some (resolve_key_id ctx mapping))
        × (resolve_key_id ctx mapping ≢ [])
  unfolding resolve_key_id
  resolved ctx mapping h = elim (Bool-cases (str_eq ctx.key_source pool)) [
    | inr e ↦ absurd (ground (arith, h, e))
    | inl e ↦ elim (Option-cases (lookup ctx.provider_id mapping)) [
      | inl n ↦ absurd (ground (arith, h, e, n))
      | inr (id, q) ↦
          (str_eq_sound ctx.key_source pool e, ground (arith, h, e, q), ground (arith, h, e, q))
    ]
  ]

  -- Why an id is empty.
  resolved_none :
      (ctx : RequestContext F) (mapping : Map Bytes)
      → is_empty (resolve_key_id ctx mapping) ≡ true
      → (ctx.key_source ≢ pool)
        ⊎ (lookup ctx.provider_id mapping ≡ none)
        ⊎ (lookup ctx.provider_id mapping ≡ some [])
  unfolding resolve_key_id
  resolved_none ctx mapping h = elim (Bool-cases (str_eq ctx.key_source pool)) [
    | inr e ↦ inl (λ q. absurd (ground (arith, e, (str_eq_iff ctx.key_source pool).1 q)))
    | inl e ↦ elim (Option-cases (lookup ctx.provider_id mapping)) [
      | inl n ↦ inr (inl n)
      | inr (id, q) ↦ inr (inr (q ∙ ap some (empty_nil id (ground (arith, h, e, q)))))
    ]
  ]

  with_key-Injection :
      (cfg : KeyConfig) (next : RequestContext F → Flow F) (ctx : RequestContext F)
      (provider : Bytes → Option Bytes)
      → cfg.provider ≡ some provider
      → is_empty (resolve_key_id ctx cfg.pool_key_mapping) ≡ false
      → Injection cfg next ctx
          (with_key next ctx (provider (resolve_key_id ctx cfg.pool_key_mapping)))
  with_key-Injection cfg next ctx provider p h =
      let id = resolve_key_id ctx cfg.pool_key_mapping in
      let (source, found, named) = resolved ctx cfg.pool_key_mapping h in
      elim (Option-cases (provider id)) [
        | inl e ↦ rw e (refused provider id p source found e)
        | inr (key, e) ↦ rw e (
            injected provider id key p source found named e _
              (drop_key-Cleared (next (record ctx { provider_api_key = some key }))))
      ]

  fetch_key-Injection :
      (cfg : KeyConfig) (next : RequestContext F → Flow F) (ctx : RequestContext F)
      (service : Option (Bytes → Option Bytes))
      → cfg.provider ≡ service
      → Injection cfg next ctx
          (fetch_key (resolve_key_id ctx cfg.pool_key_mapping) next ctx service)
  fetch_key-Injection cfg next ctx none e = no_service e
  fetch_key-Injection cfg next ctx (some provider) e =
      if_elim (Injection cfg next ctx) (is_empty (resolve_key_id ctx cfg.pool_key_mapping))
        (λ h. unresolved (resolved_none ctx cfg.pool_key_mapping h))
        (λ h. with_key-Injection cfg next ctx provider e h)

  -- `KMSInjector` calls the rest of the chain only with the key that the service gives for the id that
  -- the mapping names for the provider of a pool key, and drops it behind it when the chain returns; in
  -- every other case it aborts, with 500 or 503.
  pub kms_injector-Injection :
      (cfg : KeyConfig) (next : RequestContext F → Flow F) (ctx : RequestContext F)
      → Injection cfg next ctx (kms_injector cfg next ctx)
  unfolding kms_injector
  kms_injector-Injection cfg next ctx = elim (Bool-cases (is_empty ctx.provider_id)) [
    | inl h ↦ rw (h, kms_injector) (no_channel (empty_nil ctx.provider_id h))
    | inr h ↦ rw (h, kms_injector) (fetch_key-Injection cfg next ctx cfg.provider refl)
  ]
