-- ===== src/Router/Attempts.antt =====
-- The failover loop of internal/middleware/router.go ends, tries no channel twice, and ends a
-- request with an answer or a response.
use mathlib.Core.Path.{subst}
use aegis_llm.Prelude.{
  ℕ, zero, suc, ◌≤◌, ◌<◌, ◌≡◌, refl, ◌∙◌, ◌⊎◌, Bool, true, false, ℤ, List, [], ◌∷◌, Memᴰ, Option,
  some, arith, Bytes, length, select, str_eq_refl, if_elim,
}
use aegis_llm.Breaker.{Breaker, Lease, record_failure, record_success, release_probe}
use aegis_llm.Server.Context.{RequestContext, Flow, returned, panicked, context}
use aegis_llm.Router.Channel.{Channel, is_eligible}
use aegis_llm.Router.Table.{Table, on_breaker, table_failure, table_success, table_release}
use aegis_llm.Router.Selection.{Chosen, nothing, by_closed, by_probe, route-Chosen}
use aegis_llm.Router.Failover.{
  Outcome, Round, stop, again, Request, settle_provider_lease, no_channel, goes_on, after_attempt,
  attempt_flow, attempt, round_on, round, route_loop,
}

-- The ids tried since `start`, newest first: each is a configured channel that is enabled,
-- supports the model and had not been tried before.
pub data Trail (model : Bytes) (channels : List Channel) (start : List Bytes)
    : List Bytes → Type 0 where
  here : Trail model channels start start
  tried :
      {ids : List Bytes} (ch : Channel)
      → Trail model channels start ids
      → Memᴰ ch channels
      → is_eligible model ids ch ≡ true
      → Trail model channels start (ch.id ∷ ids)

Trail-first :
    {model : Bytes} {channels : List Channel} {ids : List Bytes} (ch : Channel) {new : List Bytes}
    → Memᴰ ch channels
    → is_eligible model ids ch ≡ true
    → Trail model channels (ch.id ∷ ids) new
    → Trail model channels ids new
Trail-first ch m e Trail.here = Trail.tried ch Trail.here m e
Trail-first ch m e (Trail.tried d r n f) = Trail.tried d (Trail-first ch m e r) n f

-- The number of channels that are left to try.
unfoldable pub untried : Bytes → List Bytes → List Channel → ℕ
untried model ids channels = length (select (is_eligible model ids) channels)

select_mono {ℓ} :
    {A : Type ℓ} (p q : A → Bool) (xs : List A)
    → ((a : A) → p a ≡ true → q a ≡ true)
    → length (select p xs) ≤ length (select q xs)
unfolding select
select_mono p q [] h = omega arith
select_mono p q (x ∷ xs) h = ground (arith, select_mono p q xs h, h x)

-- A test that fails where another one passes selects fewer entries.
length-select-lt {ℓ} :
    {A : Type ℓ} (p q : A → Bool) {x : A} (xs : List A)
    → ((a : A) → p a ≡ true → q a ≡ true)
    → Memᴰ x xs
    → p x ≡ false
    → q x ≡ true
    → length (select p xs) < length (select q xs)
unfolding select
length-select-lt p q [] h m np qx = elim m [ ]
length-select-lt p q (y ∷ xs) h (Memᴰ.head e) np qx =
    let np' : p y ≡ false = subst (λ a. p a ≡ false) e np in
    let qy : q y ≡ true = subst (λ a. q a ≡ true) e qx in ground (arith, select_mono p q xs h)
length-select-lt p q (y ∷ xs) h (Memᴰ.tail m) np qx =
    ground (arith, length-select-lt p q xs h m np qx, h y)

is_eligible-shrinks :
    (model : Bytes) (ids : List Bytes) (id : Bytes) (ch : Channel)
    → is_eligible model (id ∷ ids) ch ≡ true
    → is_eligible model ids ch ≡ true
unfolding is_eligible
is_eligible-shrinks model ids id ch h = ground arith

not_eligible_again :
    (model : Bytes) (ids : List Bytes) (ch : Channel) → is_eligible model (ch.id ∷ ids) ch ≡ false
unfolding is_eligible
not_eligible_again model ids ch = ground (arith, str_eq_refl ch.id)

untried-lt :
    (model : Bytes) (ids : List Bytes) (ch : Channel) (channels : List Channel)
    → Memᴰ ch channels
    → is_eligible model ids ch ≡ true
    → untried model (ch.id ∷ ids) channels < untried model ids channels
unfolding untried
untried-lt model ids ch channels m e =
    length-select-lt (is_eligible model (ch.id ∷ ids)) (is_eligible model ids) channels
      (λ d. is_eligible-shrinks model ids ch.id d) m (not_eligible_again model ids ch) e

on_breaker-channels :
    (f : Breaker → Breaker) (t : Table) (id : Bytes) → (on_breaker f t id).channels ≡ t.channels
unfolding on_breaker
on_breaker-channels f t id = ground arith

module _ {F : Type 0} where
  settle-channels :
      (t : Table) (ctx : RequestContext F) (id : Bytes) (l : Lease) (now : ℤ)
      → (settle_provider_lease t ctx id l now).channels ≡ t.channels
  unfolding settle_provider_lease table_failure table_success table_release
  settle-channels t ctx id l now = ground (
    arith,
    on_breaker-channels (λ b. record_failure b l now) t id,
    on_breaker-channels (λ b. record_success b l) t id,
    on_breaker-channels (λ b. release_probe b l) t id,
  )

  -- An answer that counts as an end: an abort or a committed response, if an attempt is still
  -- marked retryable.
  abbrev pub IsSettled : RequestContext F → Type 0
  IsSettled ctx = (ctx.retryable_attempt ≡ false) ⊎ (ctx.aborted ≡ true) ⊎ (ctx.committed ≡ true)

  abbrev pub FlowSettled : Flow F → Type 0
  FlowSettled (returned ctx) = IsSettled ctx
  FlowSettled (panicked ctx) = Unit {0}

  no_channel-IsSettled :
      (ctx : RequestContext F) (ids : List Bytes) → IsSettled (no_channel ctx ids)
  unfolding no_channel
  no_channel-IsSettled ctx [] = ground arith
  no_channel-IsSettled ctx (id ∷ ids) = ground arith

  -- What a round of the loop has done.
  abbrev RoundSound : Request F → Table → List Bytes → Round F → Type 0
  RoundSound req t ids (stop out) =
      Trail req.model t.channels ids out.tried
      × FlowSettled out.flow
      × (out.table.channels ≡ t.channels)
  RoundSound req t ids (again t' ctx ids') =
      (ch : Channel) × Memᴰ ch t.channels
      × (is_eligible req.model ids ch ≡ true)
      × (ids' ≡ ch.id ∷ ids)
      × (t'.channels ≡ t.channels)

  after_attempt_sound :
      (req : Request F) (t t' : Table) (ids : List Bytes) (ch : Channel) (flow : Flow F)
      → Memᴰ ch t.channels
      → is_eligible req.model ids ch ≡ true
      → t'.channels ≡ t.channels
      → RoundSound req t ids (after_attempt t' (ch.id ∷ ids) flow)
  unfolding after_attempt
  after_attempt_sound req t t' ids ch (panicked ctx) m e c = (Trail.tried ch Trail.here m e, tt, c)
  after_attempt_sound req t t' ids ch (returned ctx) m e c =
      if_elim (RoundSound req t ids) (goes_on ctx) (λ _. (ch, m, e, refl, c))
        (λ no_more. (Trail.tried ch Trail.here m e, unfold goes_on in (ground arith), c))

  attempt_sound :
      (req : Request F) (t t' : Table) (ctx : RequestContext F) (ids : List Bytes) (ch : Channel)
      (l : Lease)
      → Memᴰ ch t.channels
      → is_eligible req.model ids ch ≡ true
      → t'.channels ≡ t.channels
      → RoundSound req t ids (attempt req t' ctx ids ch l)
  unfolding attempt
  attempt_sound req t t' ctx ids ch l m e c =
      let flow = attempt_flow req t' ctx ids ch in
      after_attempt_sound req t
        (settle_provider_lease t' (context flow) ch.id l (req.env.now (length ids))) ids ch flow m e
        (settle-channels t' (context flow) ch.id l (req.env.now (length ids)) ∙ c)

  round_on_sound :
      (req : Request F) (t : Table) (ctx : RequestContext F) (ids : List Bytes)
      (draw : ℤ → Option ℤ) (since : ℤ → ℤ) {t' : Table} {r : Option (Channel × Lease)}
      → Chosen draw since t req.model ids t' r
      → RoundSound req t ids (round_on req ctx ids t' r)
  unfolding round_on
  round_on_sound req t ctx ids draw since (nothing h) =
      (Trail.here, no_channel-IsSettled ctx ids, refl)
  round_on_sound req t ctx ids draw since (by_closed ch l m e by low) =
      attempt_sound req t t ctx ids ch l m e refl
  round_on_sound req t ctx ids draw since (by_probe ch l after m e by none_closed) =
      attempt_sound req t (record t { breakers = after }) ctx ids ch l m e refl

  round_sound :
      (req : Request F) (t : Table) (ctx : RequestContext F) (ids : List Bytes)
      → RoundSound req t ids (round req t ctx ids)
  unfolding round
  round_sound req t ctx ids =
      let n = length ids in
      round_on_sound req t ctx ids (req.env.draw n) (req.env.since n)
        (route-Chosen (req.env.draw n) (req.env.since n) t req.model ids)

  -- What holds of the end of the loop.
  pub record IsSound (req : Request F) (t : Table) (ids : List Bytes) (out : Outcome F)
      : Type 0 where
    pub trail : Trail req.model t.channels ids out.tried
    pub settled : FlowSettled out.flow
    pub channels : out.table.channels ≡ t.channels

  -- The loop ends within as many rounds as there are channels to try, and one more. It tries
  -- only configured channels that are enabled and support the model, none of them twice, and a
  -- request that it returns with a retryable attempt has been aborted or has its response.
  pub route_loop-IsSound :
      (fuel : ℕ) (req : Request F) (t : Table) (ctx : RequestContext F) (ids : List Bytes)
      → untried req.model ids t.channels < fuel
      → (out : Outcome F) × (route_loop fuel req t ctx ids ≡ some out) × IsSound req t ids out
  unfolding route_loop
  route_loop-IsSound zero req t ctx ids h = elim h [ ]
  route_loop-IsSound (suc fuel) req t ctx ids h =
      by_round (round req t ctx ids) refl (round_sound req t ctx ids)
        (λ t' ctx' ids' h'. route_loop-IsSound fuel req t' ctx' ids' h')
    where
      later :
          (t' : Table) (ctx' : RequestContext F) (ch : Channel)
          → Memᴰ ch t.channels
          → is_eligible req.model ids ch ≡ true
          → t'.channels ≡ t.channels
          → (out : Outcome F) × (route_loop fuel req t' ctx' (ch.id ∷ ids) ≡ some out)
            × IsSound req t' (ch.id ∷ ids) out
          → (out : Outcome F) × (route_loop fuel req t' ctx' (ch.id ∷ ids) ≡ some out)
            × IsSound req t ids out
      later t' ctx' ch m e c (out, p, s) = (
        out,
        p,
        record {
          trail =
              Trail-first ch m e
                (subst (λ cs. Trail req.model cs (ch.id ∷ ids) out.tried) c s.trail);
          settled = s.settled;
          channels = s.channels ∙ c;
        },
      )

      by_round :
          (r : Round F)
          → round req t ctx ids ≡ r
          → RoundSound req t ids r
          → ((t' : Table) (ctx' : RequestContext F) (ids' : List Bytes)
              → untried req.model ids' t'.channels < fuel
              → (out : Outcome F) × (route_loop fuel req t' ctx' ids' ≡ some out)
                × IsSound req t' ids' out)
          → (out : Outcome F) × (route_loop (suc fuel) req t ctx ids ≡ some out)
            × IsSound req t ids out
      by_round (stop out) e (trail, settled, c) ih =
          (out, rw (e, route_loop) refl, record { trail = trail; settled = settled; channels = c })
      by_round (again t' ctx' ids') e (ch, m, el, q, c) ih =
          let fewer : untried req.model (ch.id ∷ ids) t'.channels < fuel =
            rw c (omega (arith, untried-lt req.model ids ch t.channels m el)) in
          let (out, p, s) = later t' ctx' ch m el c (ih t' ctx' (ch.id ∷ ids) fewer) in
          (out, rw (e, route_loop) (rw q p), s)
