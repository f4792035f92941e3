-- ===== src/Router/Failover.antt =====
-- The routing middleware of internal/middleware/router.go: the checks of the request, and the
-- loop that tries one channel after another on the same request.
use aegis_llm.Prelude.{
  ℕ, zero, suc, Bool, false, not, ◌&&◌, ◌||◌, ℤ, pos, List, [], ◌∷◌, Option, none, some, Bytes,
  codes, length, is_empty, if◌then◌else◌,
}
use aegis_llm.Breaker.{Lease}
use aegis_llm.Server.Context.{
  RequestContext, Flow, returned, panicked, context, abort, reset_attempt,
}
use aegis_llm.Middleware.Body.{
  BodyResult, body, body_error, too_large, read_failed, read_request_body, replace_request_body,
}
use aegis_llm.Router.Channel.{Channel, is_model_allowed}
use aegis_llm.Router.Table.{
  Table, route, has_unused_candidate, table_failure, table_success, table_release,
}

-- What the machine answers during the attempt of a number: the random source and the clock of
-- `Route`, the clock of `hasUnusedCandidate`, and the time of a recorded failure.
pub record Environment : Type 0 where
  pub draw : ℕ → ℤ → Option ℤ
  pub since : ℕ → ℤ → ℤ
  pub since_fallback : ℕ → ℤ → ℤ
  pub now : ℕ → ℤ

abbrev pub no_provider : Bytes
no_provider =
    codes
      "{\"error\":{\"message\":\"no available provider for requested model\",\"type\":\"service_error\"}}"

abbrev pub upstream_failed : Bytes
upstream_failed =
    codes "{\"error\":{\"message\":\"upstream request failed\",\"type\":\"server_error\"}}"

abbrev pub body_too_large : Bytes
body_too_large =
    codes "{\"error\":{\"message\":\"request body too large\",\"type\":\"invalid_request_error\"}}"

abbrev pub body_invalid : Bytes
body_invalid =
    codes "{\"error\":{\"message\":\"invalid request body\",\"type\":\"invalid_request_error\"}}"

module _ {F : Type 0} where
  -- `settleProviderLease`
  unfoldable pub settle_provider_lease : Table → RequestContext F → Bytes → Lease → ℤ → Table
  unfolding table_failure table_success table_release
  settle_provider_lease t ctx id lease now =
      if ctx.provider_failure
      then table_failure t id lease now
      else (if ctx.provider_responded
          then table_success t id lease
          else (if lease.probe then table_release t id lease else t))

  -- The context of one attempt at a channel.
  unfoldable pub prepare_attempt :
      RequestContext F → Channel → Bytes → Bool → Bytes → Bool → RequestContext F
  unfolding reset_attempt replace_request_body
  prepare_attempt ctx ch model streaming canonical fallback =
      let reset = reset_attempt (replace_request_body ctx canonical) in
      record reset {
        provider_id = ch.id;
        provider_type = ch.kind;
        provider_api_key_id = ch.key_id;
        provider_api_version = ch.api_version;
        model = model;
        base_url = ch.base_url;
        is_streaming = streaming;
        can_fallback = fallback;
      }

  -- The answer when `Route` finds no channel.
  unfoldable pub no_channel : RequestContext F → List Bytes → RequestContext F
  unfolding abort
  no_channel ctx tried = if ctx.committed then ctx else (elim tried [
    | [] ↦ abort (pos 503) no_provider ctx
    | id ∷ ids ↦ abort (pos 502) upstream_failed ctx
  ])

  -- Whether the loop goes on after an attempt that returned.
  unfoldable pub goes_on : RequestContext F → Bool
  goes_on ctx =
      if ctx.aborted || (ctx.committed && not ctx.retryable_attempt)
      then false
      else ctx.retryable_attempt

-- How the loop ends: the table, how the request goes on, and the channels tried, newest first.
pub record Outcome (F : Type 0) : Type 0 where
  pub table : Table
  pub flow : Flow F
  pub tried : List Bytes

-- One round of the loop ends it, or leaves the state for the next round.
pub data Round (F : Type 0) : Type 0 where
  stop : Outcome F → Round F
  again : Table → RequestContext F → List Bytes → Round F

-- What stays the same during the loop: the machine, `next`, and what the body asked for.
pub record Request (F : Type 0) : Type 0 where
  pub env : Environment
  pub next : RequestContext F → Flow F
  pub model : Bytes
  pub streaming : Bool
  pub canonical : Bytes

module _ {F : Type 0} where
  -- What `next` did, when the lease has been settled.
  unfoldable pub after_attempt : Table → List Bytes → Flow F → Round F
  unfolding goes_on
  after_attempt t tried (panicked ctx) =
      stop (record { table = t; flow = panicked ctx; tried = tried })
  after_attempt t tried (returned ctx) =
      if goes_on ctx
      then again t ctx tried
      else stop (record { table = t; flow = returned ctx; tried = tried })

  -- The call of `next` for a channel.
  unfoldable pub attempt_flow : Request F → Table → RequestContext F → List Bytes → Channel → Flow F
  unfolding has_unused_candidate prepare_attempt
  attempt_flow req t ctx tried ch =
      let fallback =
        not req.streaming
        && has_unused_candidate (req.env.since_fallback (length tried)) t req.model
            (ch.id ∷ tried) in
      req.next (prepare_attempt ctx ch req.model req.streaming req.canonical fallback)

  -- An attempt at the channel that `Route` has answered.
  unfoldable pub attempt :
      Request F → Table → RequestContext F → List Bytes → Channel → Lease → Round F
  unfolding attempt_flow settle_provider_lease after_attempt
  attempt req t ctx tried ch lease =
      let flow = attempt_flow req t ctx tried ch in
      after_attempt
        (settle_provider_lease t (context flow) ch.id lease (req.env.now (length tried)))
        (ch.id ∷ tried) flow

  -- One round, with the table and the answer of `Route`.
  unfoldable pub round_on :
      Request F → RequestContext F → List Bytes → Table → Option (Channel × Lease) → Round F
  unfolding no_channel attempt
  round_on req ctx tried t none =
      stop (record { table = t; flow = returned (no_channel ctx tried); tried = tried })
  round_on req ctx tried t (some (ch, lease)) = attempt req t ctx tried ch lease

  unfoldable pub round : Request F → Table → RequestContext F → List Bytes → Round F
  unfolding route round_on
  round req t ctx tried =
      let n = length tried in
      let (t', answer) = route (req.env.draw n) (req.env.since n) t req.model tried in
      round_on req ctx tried t' answer

  -- The `for` loop; `none` when the fuel runs out.
  unfoldable pub route_loop :
      ℕ → Request F → Table → RequestContext F → List Bytes → Option (Outcome F)
  unfolding round
  route_loop zero req t ctx tried = none
  route_loop (suc fuel) req t ctx tried = elim (round req t ctx tried) [
    | stop out ↦ some out
    | again t' ctx' tried' ↦ route_loop fuel req t' ctx' tried'
  ]

-- The checks of `routerWithTable` before the loop: an answer for the client, or the model, the
-- streaming flag and the body.
pub data Checked (F : Type 0) : Type 0 where
  refused : RequestContext F → Checked F
  accepted : RequestContext F → Bytes → Bool → Bytes → Checked F

abbrev pub model_required : Bytes
model_required =
    codes "{\"error\":{\"message\":\"model field is required\",\"type\":\"invalid_request_error\"}}"

abbrev pub model_forbidden : Bytes
model_forbidden =
    codes
      "{\"error\":{\"message\":\"model not permitted for this virtual key\",\"type\":\"permission_error\"}}"

module _ {F : Type 0} (decode : Bytes → Option (Bytes × Bool)) where
  check_model : RequestContext F → Bytes → Bool → Bytes → Checked F
  unfolding is_model_allowed abort
  check_model ctx model streaming raw =
      if is_empty model
      then refused (abort (pos 400) model_required ctx)
      else (if is_model_allowed model ctx.permissions
          then accepted ctx model streaming raw
          else refused (abort (pos 403) model_forbidden ctx))

  -- `extractModelFromRequest` and the checks after it. `decode` is `json.Unmarshal` into the
  -- fields `model` and `stream`.
  unfoldable pub check_body : RequestContext F → BodyResult → Checked F
  unfolding check_model abort
  check_body ctx (body_error too_large) = refused (abort (pos 413) body_too_large ctx)
  check_body ctx (body_error read_failed) = refused (abort (pos 400) body_invalid ctx)
  check_body ctx (body []) = check_model ctx [] false []
  check_body ctx (body (b ∷ bs)) = elim (decode (b ∷ bs)) [
    | none ↦ refused (abort (pos 400) body_invalid ctx)
    | some (model, streaming) ↦ check_model ctx model streaming (b ∷ bs)
  ]

  unfoldable pub check_request : RequestContext F → ℤ → Checked F
  unfolding read_request_body check_body
  check_request ctx limit =
      let (ctx', result) = read_request_body ctx limit in check_body ctx' result

  -- `routerWithTable`, with fuel for the loop.
  unfoldable pub router :
      ℕ
      → Environment
      → Table
      → ℤ
      → (RequestContext F → Flow F)
      → RequestContext F
      → Option (Outcome F)
  unfolding check_request route_loop
  router fuel env t limit next ctx = elim (check_request ctx limit) [
    | refused answer ↦ some (record { table = t; flow = returned answer; tried = [] })
    | accepted ctx' model streaming canonical ↦
        route_loop fuel
          (record {
            env = env;
            next = next;
            model = model;
            streaming = streaming;
            canonical = canonical;
          })
          t ctx' []
  ]
