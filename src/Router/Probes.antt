-- ===== src/Router/Probes.antt =====
-- The failover loop of internal/middleware/router.go gives every probe back: it leaves no breaker
-- half-open that was not half-open before.
use mathlib.Core.Path.{subst}
use aegis_llm.Prelude.{
  ℕ, zero, suc, ◌≡◌, refl, sym, ap, ◌∙◌, Bool, true, false, ℤ, List, ◌∷◌, Option, none, some, arith,
  Bytes, Map, length, lookup, insert, lookup-insert, if◌then◌else◌, str_eq, str_eq_iff, str_eq_refl,
  ==_iff,
}
use aegis_llm.Breaker.{
  Breaker, Lease, half_open, is_half_open, record_failure, record_success, release_probe,
}
use aegis_llm.Breaker.Leases.{Settlement, failure, success, release, settle}
use aegis_llm.Server.Context.{RequestContext, Flow, returned, panicked, context}
use aegis_llm.Router.Channel.{Channel}
use aegis_llm.Router.Scan.{ByClosed}
use aegis_llm.Router.Table.{Table, on_breaker, table_failure, table_success, table_release}
use aegis_llm.Router.Selection.{Chosen, nothing, by_closed, by_probe, ByProbe, route-Chosen}
use aegis_llm.Router.Failover.{
  Outcome, Round, stop, again, Request, settle_provider_lease, after_attempt, attempt_flow, attempt,
  round_on, round, route_loop,
}

-- The channel's breaker waits for a probe.
unfoldable pub is_probed : Map Breaker → Bytes → Bool
is_probed bs id = elim (lookup id bs) [ none ↦ false | some b ↦ is_half_open b.state ]

is_probed-insert :
    (id j : Bytes) (b : Breaker) (bs : Map Breaker)
    → is_probed (insert id b bs) j ≡ (if str_eq id j then is_half_open b.state else is_probed bs j)
unfolding is_probed
is_probed-insert id j b bs = ground (arith, lookup-insert id j b bs)

-- No settlement makes a breaker half-open, and that of its own probe ends the state.
settle-half_open :
    (b : Breaker) (l : Lease) (how : Settlement)
    → is_half_open (settle b l how).state ≡ true
    → is_half_open b.state ≡ true
unfolding settle record_failure record_success release_probe
settle-half_open b l (failure now) h = ground arith
settle-half_open b l success h = ground arith
settle-half_open b l release h = ground arith

settle-own_probe :
    (b : Breaker) (l : Lease) (how : Settlement)
    → l.probe ≡ true
    → l.generation ≡ b.generation
    → is_half_open (settle b l how).state ≡ false
unfolding settle record_failure record_success release_probe
settle-own_probe b l (failure now) p g = ground (arith, ==_iff b.generation l.generation)
settle-own_probe b l success p g = ground (arith, ==_iff b.generation l.generation)
settle-own_probe b l release p g = ground (arith, ==_iff b.generation l.generation)

-- What `settleProviderLease` makes of the context of an attempt.
abbrev settlement_of : {F : Type 0} → RequestContext F → ℤ → Settlement
settlement_of ctx now = elim ctx.provider_failure [
  | true ↦ failure now
  | false ↦ elim ctx.provider_responded [ true ↦ success | false ↦ release ]
]

module _ {F : Type 0} where
  settle-is_probed :
      (t : Table) (ctx : RequestContext F) (id : Bytes) (l : Lease) (now : ℤ) (j : Bytes)
      (b : Breaker)
      → lookup id t.breakers ≡ some b
      → is_probed (settle_provider_lease t ctx id l now).breakers j ≡ (
          if str_eq id j
          then is_half_open (settle b l (settlement_of ctx now)).state
          else is_probed t.breakers j)
  unfolding settle_provider_lease table_failure table_success table_release on_breaker settle
      is_probed
  settle-is_probed t ctx id l now j b e = ground (
    arith,
    str_eq_iff id j,
    lookup-insert id j (record_failure b l now) t.breakers,
    lookup-insert id j (record_success b l) t.breakers,
    lookup-insert id j (release_probe b l) t.breakers,
  )

  abbrev table_of : Round F → Table
  table_of (stop out) = out.table
  table_of (again t ctx ids) = t

  after_attempt-table :
      (t : Table) (ids : List Bytes) (flow : Flow F) → table_of (after_attempt t ids flow) ≡ t
  unfolding after_attempt
  after_attempt-table t ids (panicked ctx) = refl
  after_attempt-table t ids (returned ctx) = ground arith

  -- After a lease of a closed breaker.
  closed-keeps :
      (t : Table) (ctx : RequestContext F) (ch : Channel) (l : Lease) (now : ℤ) (j : Bytes)
      → ByClosed t.breakers ch l
      → is_probed (settle_provider_lease t ctx ch.id l now).breakers j ≡ true
      → is_probed t.breakers j ≡ true
  unfolding is_probed
  closed-keeps t ctx ch l now j by h = ground (
    arith,
    by.found,
    str_eq_iff ch.id j,
    settle-is_probed t ctx ch.id l now j by.breaker by.found,
    settle-half_open by.breaker l (settlement_of ctx now),
  )

  -- After the probe of an open breaker.
  probe-keeps :
      (t : Table) (since : ℤ → ℤ) (ctx : RequestContext F) (ch : Channel) (l : Lease)
      (after : Map Breaker) (now : ℤ) (j : Bytes)
      → ByProbe since t.breakers ch l after
      → is_probed (settle_provider_lease (record t { breakers = after }) ctx ch.id l now).breakers j
        ≡ true
      → is_probed t.breakers j ≡ true
  probe-keeps t since ctx ch l after now j by h =
      let b : Breaker = record (by.breaker) { state = half_open } in
      let found : lookup ch.id after ≡ some b = rw by.updated (
        lookup-insert ch.id ch.id b t.breakers
        ∙ ap (λ (c : Bool). if c then some b else lookup ch.id t.breakers) (str_eq_refl ch.id)) in
      let own : is_half_open (settle b l (settlement_of ctx now)).state ≡ false =
        settle-own_probe b l (settlement_of ctx now) (ap (λ (x : Lease). x.probe) by.lease_is)
          (ap (λ (x : Lease). x.generation) by.lease_is) in
      let before : is_probed after j
          ≡ (if str_eq ch.id j then is_half_open b.state else is_probed t.breakers j) =
        rw by.updated (is_probed-insert ch.id j b t.breakers) in
      ground (
        arith,
        own,
        before,
        settle-is_probed (record t { breakers = after }) ctx ch.id l now j b found,
      )

  round_on-keeps :
      (req : Request F) (t : Table) (ctx : RequestContext F) (ids : List Bytes) (j : Bytes)
      (draw : ℤ → Option ℤ) (since : ℤ → ℤ) {t' : Table} {r : Option (Channel × Lease)}
      → Chosen draw since t req.model ids t' r
      → is_probed (table_of (round_on req ctx ids t' r)).breakers j ≡ true
      → is_probed t.breakers j ≡ true
  unfolding round_on attempt
  round_on-keeps req t ctx ids j draw since (nothing none_left) h = h
  round_on-keeps req t ctx ids j draw since (by_closed ch l m e by low) h =
      let flow = attempt_flow req t ctx ids ch in
      closed-keeps t (context flow) ch l (req.env.now (length ids)) j by (
        subst (λ (x : Table). is_probed x.breakers j ≡ true)
          (after_attempt-table _ (ch.id ∷ ids) flow) h)
  round_on-keeps req t ctx ids j draw since (by_probe ch l after m e by none_closed) h =
      let flow = attempt_flow req (record t { breakers = after }) ctx ids ch in
      probe-keeps t since (context flow) ch l after (req.env.now (length ids)) j by (
        subst (λ (x : Table). is_probed x.breakers j ≡ true)
          (after_attempt-table _ (ch.id ∷ ids) flow) h)

  round-keeps :
      (req : Request F) (t : Table) (ctx : RequestContext F) (ids : List Bytes) (j : Bytes)
      → is_probed (table_of (round req t ctx ids)).breakers j ≡ true
      → is_probed t.breakers j ≡ true
  unfolding round
  round-keeps req t ctx ids j h =
      let n = length ids in
      round_on-keeps req t ctx ids j (req.env.draw n) (req.env.since n)
        (route-Chosen (req.env.draw n) (req.env.since n) t req.model ids) h

  -- However its attempts end, by a panic too, the loop leaves a breaker half-open only if it was
  -- half-open before: every probe that it took is given back.
  pub route_loop-keeps_probes :
      (fuel : ℕ) (req : Request F) (t : Table) (ctx : RequestContext F) (ids : List Bytes)
      (out : Outcome F) (j : Bytes)
      → route_loop fuel req t ctx ids ≡ some out
      → is_probed out.table.breakers j ≡ true
      → is_probed t.breakers j ≡ true
  unfolding route_loop
  route_loop-keeps_probes zero req t ctx ids out j e h = cc
  route_loop-keeps_probes (suc fuel) req t ctx ids out j e h =
      by_round (round req t ctx ids) refl e
        (λ t' ctx' ids' e'. route_loop-keeps_probes fuel req t' ctx' ids' out j e' h)
    where
      by_round :
          (r : Round F)
          → round req t ctx ids ≡ r
          → (elim r [ stop o ↦ some o | again t' ctx' ids' ↦ route_loop fuel req t' ctx' ids' ])
            ≡ some out
          → ((t' : Table) (ctx' : RequestContext F) (ids' : List Bytes)
              → route_loop fuel req t' ctx' ids' ≡ some out
              → is_probed t'.breakers j ≡ true)
          → is_probed t.breakers j ≡ true
      by_round (stop o) q p ih =
          let same : o ≡ out = cc in
          round-keeps req t ctx ids j (
            subst (λ r. is_probed (table_of r).breakers j ≡ true) (sym q)
              (subst (λ (x : Outcome F). is_probed x.table.breakers j ≡ true) (sym same) h))
      by_round (again t' ctx' ids') q p ih =
          round-keeps req t ctx ids j
            (subst (λ r. is_probed (table_of r).breakers j ≡ true) (sym q) (ih t' ctx' ids' p))
