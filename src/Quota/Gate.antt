-- ===== src/Quota/Gate.antt =====
-- Which requests `Quota` of internal/middleware/quota.go lets through.
use aegis_llm.Prelude.{
  ◌≡◌, ◌≢◌, refl, Bool, true, false, ◌||◌, pos, leb_ℤ, Bytes, Option, none, some, Result, ok, err,
  if_elim, if◌then◌else◌, arith,
}
use aegis_llm.Server.Context.{RequestContext, Flow, returned, panicked, abort}
use aegis_llm.Quota.Pricing.{Amounts, calculate_cost}
use aegis_llm.Quota.Store.{Usage, StoreError, key_not_found, store_failed}
use aegis_llm.Quota.Manager.{
  Manager, QuotaError, of_store, unknown_model_pricing, effective_budget, stored_budget,
  check_budget, check_usage, compare_usage,
}
use aegis_llm.Quota.Middleware.{quota, budgeted, charge, charged, quota_unavailable, no_budget}

module _ {F S : Type 0} (amounts : Amounts F) where
  -- The budget of a key: its own one if that is positive, else the one that the store has for it if that
  -- is positive, else the default. A key that the store does not know is no error.
  pub data IsBudget (m : Manager F S) (s : S) (key : Bytes) (own : F) : F → Type 0 where
    of_key : amounts.is_below amounts.zero own ≡ true → IsBudget m s key own own
    of_stored :
        (stored : F) (e : Option StoreError)
        → amounts.is_below amounts.zero own ≡ false
        → m.store.get_budget s key ≡ (stored, e)
        → e ≢ some store_failed
        → amounts.is_below amounts.zero stored ≡ true
        → IsBudget m s key own stored
    of_default :
        (stored : F) (e : Option StoreError)
        → amounts.is_below amounts.zero own ≡ false
        → m.store.get_budget s key ≡ (stored, e)
        → e ≢ some store_failed
        → amounts.is_below amounts.zero stored ≡ false
        → IsBudget m s key own m.default_budget

  -- How the rest of the chain ends, and what is charged for it: nothing after a panic, an abort, a
  -- status of an error or for a model without a price, else the cost of the tokens, to the key.
  pub data IsCharged (m : Manager F S) : S × Flow F → S × Flow F → Type 0 where
    on_panic : (s : S) (ctx : RequestContext F) → IsCharged m (s, panicked ctx) (s, panicked ctx)
    on_abort :
        (s : S) (ctx : RequestContext F)
        → ctx.aborted ≡ true
        → IsCharged m (s, returned ctx) (s, returned ctx)
    on_error :
        (s : S) (ctx : RequestContext F)
        → leb_ℤ (pos 400) ctx.status_code ≡ true
        → IsCharged m (s, returned ctx) (s, returned ctx)
    unpriced :
        (s : S) (ctx : RequestContext F)
        → calculate_cost amounts m.pricing ctx.model ctx.input_tokens ctx.output_tokens ≡ none
        → IsCharged m (s, returned ctx) (s, returned ctx)
    priced :
        (s : S) (ctx : RequestContext F) (cost : F)
        → ctx.aborted ≡ false
        → leb_ℤ (pos 400) ctx.status_code ≡ false
        → calculate_cost amounts m.pricing ctx.model ctx.input_tokens ctx.output_tokens ≡ some cost
        → IsCharged m
            (s, returned ctx)
            (
              (m.store.record_usage ctx.virtual_key_id
                  (record {
                    input_tokens = ctx.input_tokens;
                    output_tokens = ctx.output_tokens;
                    cost = cost;
                  })
                  s).0,
              returned ctx,
            )

  -- What becomes of a request, and why.
  pub data QuotaDecision (manager : Option (Manager F S)) (next : S → RequestContext F → S × Flow F)
      (s : S) (ctx : RequestContext F) : S × Flow F → Type 0 where
    no_manager :
        manager ≡ none
        → QuotaDecision manager next s ctx (s, returned (abort (pos 503) quota_unavailable ctx))
    no_stored_budget :
        (m : Manager F S) (stored : F)
        → manager ≡ some m
        → amounts.is_below amounts.zero ctx.budget ≡ false
        → m.store.get_budget s ctx.virtual_key_id ≡ (stored, some store_failed)
        → QuotaDecision manager next s ctx (s, returned (abort (pos 503) quota_unavailable ctx))
    no_answer :
        (m : Manager F S) (budget : F) (e : StoreError)
        → manager ≡ some m
        → IsBudget m s ctx.virtual_key_id ctx.budget budget
        → amounts.is_at_most budget amounts.zero ≡ false
        → m.store.get_usage s ctx.virtual_key_id ≡ err e
        → QuotaDecision manager next s ctx (s, returned (abort (pos 503) quota_unavailable ctx))
    exhausted :
        (m : Manager F S) (budget : F) (u : Usage F)
        → manager ≡ some m
        → IsBudget m s ctx.virtual_key_id ctx.budget budget
        → amounts.is_at_most budget amounts.zero ≡ false
        → m.store.get_usage s ctx.virtual_key_id ≡ ok u
        → amounts.is_at_most budget u.total_cost ≡ true
        → QuotaDecision manager next s ctx (s, returned (abort (pos 429) no_budget ctx))
    unlimited :
        (m : Manager F S) (budget : F) (result : S × Flow F)
        → manager ≡ some m
        → IsBudget m s ctx.virtual_key_id ctx.budget budget
        → amounts.is_at_most budget amounts.zero ≡ true
        → IsCharged m (next s ctx) result
        → QuotaDecision manager next s ctx result
    within :
        (m : Manager F S) (budget : F) (u : Usage F) (result : S × Flow F)
        → manager ≡ some m
        → IsBudget m s ctx.virtual_key_id ctx.budget budget
        → amounts.is_at_most budget amounts.zero ≡ false
        → m.store.get_usage s ctx.virtual_key_id ≡ ok u
        → amounts.is_at_most budget u.total_cost ≡ false
        → IsCharged m (next s ctx) result
        → QuotaDecision manager next s ctx result

  -- A budget that is found, or the store that fails to tell one.
  data Found (m : Manager F S) (s : S) (key : Bytes) (own : F) : Result StoreError F → Type 0 where
    found : (budget : F) → IsBudget m s key own budget → Found m s key own (ok budget)
    lost :
        (stored : F) (e : StoreError)
        → amounts.is_below amounts.zero own ≡ false
        → m.store.get_budget s key ≡ (stored, some store_failed)
        → Found m s key own (err e)

  effective_budget-Found :
      (m : Manager F S) (s : S) (key : Bytes) (own : F)
      → Found m s key own (effective_budget amounts m s key own)
  unfolding effective_budget
  effective_budget-Found m s key own =
      if_elim (Found m s key own) (amounts.is_below amounts.zero own) (λ e. found own (of_key e))
        (λ e. by_stored e (m.store.get_budget s key) refl)
    where
      positive :
          (stored : F) (o : Option StoreError)
          → amounts.is_below amounts.zero own ≡ false
          → m.store.get_budget s key ≡ (stored, o)
          → o ≢ some store_failed
          → Found m s key own
              (ok (if amounts.is_below amounts.zero stored then stored else m.default_budget))
      positive stored o e q fine =
          if_elim (λ b. Found m s key own (ok b)) (amounts.is_below amounts.zero stored)
            (λ p. found stored (of_stored stored o e q fine p))
            (λ p. found m.default_budget (of_default stored o e q fine p))

      by_stored :
          amounts.is_below amounts.zero own ≡ false
          → (r : F × Option StoreError) → m.store.get_budget s key ≡ r
          → Found m s key own (stored_budget amounts m r)
      by_stored e (stored, some store_failed) q = lost stored store_failed e q
      by_stored e (stored, some key_not_found) q =
          positive stored (some key_not_found) e q (λ h. absurd cc)
      by_stored e (stored, none) q = positive stored none e q (λ h. absurd cc)

  charged-IsCharged : (m : Manager F S) (r : S × Flow F) → IsCharged m r (charged amounts m r)
  charged-IsCharged m (s, panicked ctx) = on_panic s ctx
  charged-IsCharged m (s, returned ctx) =
      unfold charge in
      if_elim (λ t. IsCharged m (s, returned ctx) (t, returned ctx))
        (ctx.aborted || leb_ℤ (pos 400) ctx.status_code) (λ e. failed ctx.aborted refl e)
        (λ e.
          by_cost e (calculate_cost amounts m.pricing ctx.model ctx.input_tokens ctx.output_tokens)
            refl)
    where
      failed :
          (b : Bool)
          → ctx.aborted ≡ b
          → (b || leb_ℤ (pos 400) ctx.status_code) ≡ true
          → IsCharged m (s, returned ctx) (s, returned ctx)
      failed true a e = on_abort s ctx a
      failed false a e = on_error s ctx e

      by_cost :
          (ctx.aborted || leb_ℤ (pos 400) ctx.status_code) ≡ false
          → (o : Option F)
          → calculate_cost amounts m.pricing ctx.model ctx.input_tokens ctx.output_tokens ≡ o
          → let r : S × Option QuotaError = elim o [
            | none ↦ (s, some unknown_model_pricing)
            | some cost ↦
                let (s', e) =
                  m.store.record_usage ctx.virtual_key_id
                    (record {
                      input_tokens = ctx.input_tokens;
                      output_tokens = ctx.output_tokens;
                      cost = cost;
                    })
                    s in
                (s', elim e [ none ↦ none | some x ↦ some (of_store x) ])
          ] in
            IsCharged m (s, returned ctx) (r.0, returned ctx)
      by_cost e none q = unpriced s ctx q
      by_cost e (some cost) q = priced s ctx cost (ground (arith, e)) (ground (arith, e)) q

  module _ (m : Manager F S) (next : S → RequestContext F → S × Flow F) (s : S)
      (ctx : RequestContext F) where
    usage-Decision :
        (budget : F) (r : Result StoreError (Usage F))
        → IsBudget m s ctx.virtual_key_id ctx.budget budget
        → amounts.is_at_most budget amounts.zero ≡ false
        → m.store.get_usage s ctx.virtual_key_id ≡ r
        → QuotaDecision
            (some m)
            next
            s
            ctx
            (budgeted amounts m next s ctx (compare_usage amounts budget r))
    usage-Decision budget (err e) b p u = no_answer m budget e refl b p u
    usage-Decision budget (ok used) b p u =
        if_elim (λ o. QuotaDecision (some m) next s ctx (budgeted amounts m next s ctx o))
          (amounts.is_at_most budget used.total_cost)
          (λ over. exhausted m budget used refl b p u over)
          (λ under. within m budget used _ refl b p u under (charged-IsCharged m (next s ctx)))

    budget-Decision :
        (r : Result StoreError F)
        → Found m s ctx.virtual_key_id ctx.budget r
        → QuotaDecision
            (some m)
            next
            s
            ctx
            (budgeted amounts m next s ctx (check_usage amounts m s ctx.virtual_key_id r))
    budget-Decision r (lost stored e below q) = no_stored_budget m stored refl below q
    budget-Decision r (found budget b) =
        if_elim (λ o. QuotaDecision (some m) next s ctx (budgeted amounts m next s ctx o))
          (amounts.is_at_most budget amounts.zero)
          (λ free. unlimited m budget _ refl b free (charged-IsCharged m (next s ctx)))
          (λ p. usage-Decision budget (m.store.get_usage s ctx.virtual_key_id) b p refl)

  -- `Quota` runs the rest of the chain exactly when the key has no budget or has spent less than it: its
  -- own budget if that is positive, else the stored one if positive, else the default. The store then
  -- records the cost of the tokens for the key, after a chain that returns without an abort, with a status
  -- below 400, for a model with a price, and nothing else. `Quota` answers 429 when the budget is spent, and
  -- 503 when there is no manager or its store fails; the store is then as it was.
  pub quota-Decision :
      (manager : Option (Manager F S)) (next : S → RequestContext F → S × Flow F) (s : S)
      (ctx : RequestContext F)
      → QuotaDecision manager next s ctx (quota amounts manager next s ctx)
  unfolding quota check_budget
  quota-Decision none next s ctx = no_manager refl
  quota-Decision (some m) next s ctx =
      budget-Decision m next s ctx (effective_budget amounts m s ctx.virtual_key_id ctx.budget)
        (effective_budget-Found m s ctx.virtual_key_id ctx.budget)
