-- ===== src/Quota/Middleware.antt =====
-- `Quota` of internal/middleware/quota.go. The rest of the chain runs on the store too, since other requests
-- use it meanwhile.
use aegis_llm.Prelude.{◌||◌, pos, leb_ℤ, Option, none, some, Bytes, codes, if◌then◌else◌}
use aegis_llm.Server.Context.{RequestContext, Flow, returned, panicked, abort}
use aegis_llm.Quota.Pricing.{Amounts}
use aegis_llm.Quota.Manager.{
  Manager, QuotaError, budget_exhausted, unknown_model_pricing, of_store, check_budget,
  record_request,
}

abbrev pub quota_unavailable : Bytes
quota_unavailable =
    codes "{\"error\":{\"message\":\"quota service unavailable\",\"type\":\"server_error\"}}"

abbrev pub no_budget : Bytes
no_budget = codes "{\"error\":{\"message\":\"budget exhausted\",\"type\":\"insufficient_quota\"}}"

module _ {F S : Type 0} (amounts : Amounts F) where
  -- What follows `next`.
  unfoldable pub charge : Manager F S → S → RequestContext F → S
  unfolding record_request
  charge m s ctx =
      if ctx.aborted || leb_ℤ (pos 400) ctx.status_code
      then s
      else (record_request amounts m ctx.virtual_key_id ctx.model ctx.input_tokens ctx.output_tokens
          s).0

  abbrev pub charged : Manager F S → S × Flow F → S × Flow F
  charged m (s, returned ctx) = (charge m s ctx, returned ctx)
  charged m (s, panicked ctx) = (s, panicked ctx)

  abbrev pub budgeted :
      Manager F S
      → (S → RequestContext F → S × Flow F)
      → S
      → RequestContext F
      → Option QuotaError
      → S × Flow F
  budgeted m next s ctx (some budget_exhausted) = (s, returned (abort (pos 429) no_budget ctx))
  budgeted m next s ctx (some unknown_model_pricing) =
      (s, returned (abort (pos 503) quota_unavailable ctx))
  budgeted m next s ctx (some (of_store e)) = (s, returned (abort (pos 503) quota_unavailable ctx))
  budgeted m next s ctx none = charged m (next s ctx)

  -- `Quota`
  unfoldable pub quota :
      Option (Manager F S) → (S → RequestContext F → S × Flow F) → S → RequestContext F → S × Flow F
  unfolding check_budget charge abort
  quota none next s ctx = (s, returned (abort (pos 503) quota_unavailable ctx))
  quota (some m) next s ctx =
      budgeted m next s ctx (check_budget amounts m s ctx.virtual_key_id ctx.budget)
