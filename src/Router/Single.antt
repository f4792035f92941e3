-- ===== src/Router/Single.antt =====
-- The failover loop of internal/middleware/router.go never mixes two attempts: whatever the client gets
-- is from the last one.
use aegis_llm.Prelude.{
  ℕ, zero, suc, ◌<◌, ◌≡◌, refl, ◌⊎◌, inl, inr, Bool, true, false, not, ◌&&◌, ℤ, length, List, ◌∷◌,
  Option, none, some, arith, Bytes, if_elim, Map,
}
use mathlib.Core.Path.{subst}
use mathlib.Core.Option.{some-injective}
use aegis_llm.Breaker.{Lease}
use aegis_llm.Server.Context.{RequestContext, Flow, returned, panicked, context}
use aegis_llm.Server.Pipeline.{execute}
use aegis_llm.Router.Channel.{Channel}
use aegis_llm.Router.Table.{Table, route, has_unused_candidate}
use aegis_llm.Router.Failover.{
  Outcome, Round, stop, again, Request, settle_provider_lease, no_channel, goes_on, after_attempt,
  attempt_flow, attempt, round_on, round, route_loop, prepare_attempt, Environment,
}
use aegis_llm.Router.Attempts.{untried, route_loop-IsSound}
use aegis_llm.Middleware.Retry.{IsUntouched, FlowHeld, IsUntouched-on}
use aegis_llm.Middleware.Chain.{provider_chain, provider_chain-FlowHeld}
use aegis_llm.Middleware.Keys.{KeyConfig}
use aegis_llm.Middleware.Adapter.{AdapterRegistry}
use aegis_llm.Middleware.Proxy.{Urls, Engine}

module _ {F : Type 0} where
  -- The end of the loop, with all that the client has got from it: one call of `next`, or the answer
  -- that no channel is left, on a context at which the client has got nothing since `ctx`.
  pub record IsSingle (next : RequestContext F → Flow F) (ctx : RequestContext F) (out : Outcome F)
      : Type 0 where
    pub last : RequestContext F
    pub untouched : IsUntouched ctx last
    pub end : (out.flow ≡ next last) ⊎ (out.flow ≡ returned (no_channel last out.tried))

  Single_from :
      {next : RequestContext F → Flow F} {ctx ctx' : RequestContext F} {out : Outcome F}
      → IsUntouched ctx ctx'
      → IsSingle next ctx' out
      → IsSingle next ctx out
  Single_from u s = record { last = s.last; untouched = IsUntouched-on u s.untouched; end = s.end }

  abbrev pub RoundSingle : (RequestContext F → Flow F) → RequestContext F → Round F → Type 0
  RoundSingle next ctx (stop out) = IsSingle next ctx out
  RoundSingle next ctx (again t ctx' ids) = IsUntouched ctx ctx'

  goes_on-retryable : (ctx : RequestContext F) → goes_on ctx ≡ true → ctx.retryable_attempt ≡ true
  unfolding goes_on
  goes_on-retryable ctx h = ground arith

  after_attempt-Single :
      (next : RequestContext F → Flow F) (ctx last : RequestContext F) (t : Table)
      (ids : List Bytes) (flow : Flow F)
      → IsUntouched ctx last
      → flow ≡ next last
      → FlowHeld last flow
      → RoundSingle next ctx (after_attempt t ids flow)
  unfolding after_attempt
  after_attempt-Single next ctx last t ids (panicked c) u e held = record {
    last = last;
    untouched = u;
    end = inl e;
  }
  after_attempt-Single next ctx last t ids (returned c) u e held =
      if_elim (RoundSingle next ctx) (goes_on c)
        (λ on. IsUntouched-on u (held (goes_on-retryable c on)))
        (λ _. record { last = last; untouched = u; end = inl e })

  -- The context of an attempt shows the client what the loop's does.
  prepare-IsUntouched :
      (ctx : RequestContext F) (ch : Channel) (model : Bytes) (streaming : Bool) (canonical : Bytes)
      (fallback : Bool)
      → IsUntouched ctx (prepare_attempt ctx ch model streaming canonical fallback)
        × ((prepare_attempt ctx ch model streaming canonical fallback).retryable_attempt ≡ false)
  unfolding prepare_attempt
  prepare-IsUntouched ctx ch model streaming canonical fallback =
      (record { committed = refl; status = refl; body = refl }, refl)

  module _ (req : Request F)
      (held : (c : RequestContext F) → c.retryable_attempt ≡ false → FlowHeld c (req.next c)) where
    attempt-Single :
        (t : Table) (ctx : RequestContext F) (ids : List Bytes) (ch : Channel) (l : Lease)
        → RoundSingle req.next ctx (attempt req t ctx ids ch l)
    unfolding attempt attempt_flow
    attempt-Single t ctx ids ch l =
        let flow = attempt_flow req t ctx ids ch in
        let fallback =
          not req.streaming
          && has_unused_candidate (req.env.since_fallback (length ids)) t req.model (ch.id ∷ ids) in
        let last = prepare_attempt ctx ch req.model req.streaming req.canonical fallback in
        let (u, fresh) =
          prepare-IsUntouched ctx ch req.model req.streaming req.canonical fallback in
        after_attempt-Single req.next ctx last
          (settle_provider_lease t (context flow) ch.id l (req.env.now (length ids))) (ch.id ∷ ids)
          flow u refl (held last fresh)

    round-Single :
        (t : Table) (ctx : RequestContext F) (ids : List Bytes)
        → RoundSingle req.next ctx (round req t ctx ids)
    unfolding round
    round-Single t ctx ids =
        let n = length ids in
        let (t', answer) = route (req.env.draw n) (req.env.since n) t req.model ids in
        by_answer t' answer
      where
        by_answer :
            (t' : Table) (answer : Option (Channel × Lease))
            → RoundSingle req.next ctx (round_on req ctx ids t' answer)
        by_answer t' none = record {
          last = ctx;
          untouched = record { committed = refl; status = refl; body = refl };
          end = inr refl;
        }
        by_answer t' (some (ch, l)) = attempt-Single t' ctx ids ch l

    route_loop-Single :
        (fuel : ℕ) (t : Table) (ctx : RequestContext F) (ids : List Bytes) {out : Outcome F}
        → route_loop fuel req t ctx ids ≡ some out
        → IsSingle req.next ctx out
    unfolding route_loop
    route_loop-Single zero t ctx ids {out = out} e = absurd cc
    route_loop-Single (suc fuel) t ctx ids {out = out} e =
        by_round (round req t ctx ids) (round-Single t ctx ids)
          (λ t' ctx' ids' q. route_loop-Single fuel t' ctx' ids' q) e
      where
        by_round :
            (r : Round F)
            → RoundSingle req.next ctx r
            → ((t' : Table) (ctx' : RequestContext F) (ids' : List Bytes)
                → route_loop fuel req t' ctx' ids' ≡ some out
                → IsSingle req.next ctx' out)
            → elim r [ stop o ↦ some o | again t' ctx' ids' ↦ route_loop fuel req t' ctx' ids' ]
              ≡ some out
            → IsSingle req.next ctx out
        by_round (stop o) s ih q = subst (λ o. IsSingle req.next ctx o) (some-injective o out q) s
        by_round (again t' ctx' ids') u ih q = Single_from u (ih t' ctx' ids' q)

  -- With the gateway's provider chain behind it and fuel for one round per untried channel and one more,
  -- the loop ends, and the client gets bytes of at most one attempt: the outcome is one run of the chain,
  -- or the answer that no channel is left, on a context at which the client has got nothing since the
  -- loop began.
  pub route_loop-IsSingle :
      (fuel : ℕ) (env : Environment) (model : Bytes) (streaming : Bool) (canonical : Bytes)
      (cfg : KeyConfig) (registry : AdapterRegistry) (kinds : Map Bytes) (limit : ℤ) (urls : Urls)
      (engine : Option (Engine F)) (t : Table) (ctx : RequestContext F) (ids : List Bytes)
      → untried model ids t.channels < fuel
      → (out : Outcome F) × (route_loop fuel
            (record {
              env = env;
              next = execute (provider_chain cfg registry kinds limit urls engine);
              model = model;
              streaming = streaming;
              canonical = canonical;
            })
            t
            ctx
            ids
          ≡ some out)
        × IsSingle (execute (provider_chain cfg registry kinds limit urls engine)) ctx out
  route_loop-IsSingle fuel env model streaming canonical cfg registry kinds limit urls engine t ctx
        ids h =
      let req : Request F = record {
        env = env;
        next = execute (provider_chain cfg registry kinds limit urls engine);
        model = model;
        streaming = streaming;
        canonical = canonical;
      } in
      let (out, ends, _) = route_loop-IsSound fuel req t ctx ids h in
      (
        out,
        ends,
        route_loop-Single req (λ c. provider_chain-FlowHeld cfg registry kinds limit urls engine c)
            fuel t ctx ids ends,
      )
