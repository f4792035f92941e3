-- ===== src/Quota/Manager.antt =====
-- `Manager` of internal/quota/quota.go over any store.
use aegis_llm.Prelude.{ℤ, Option, none, some, Bytes, Result, ok, err, if◌then◌else◌}
use aegis_llm.Quota.Pricing.{Amounts, PricingTable, calculate_cost, new_pricing_table}
use aegis_llm.Quota.Store.{Store, Usage, StoreError, key_not_found, store_failed}

pub data QuotaError : Type 0 where
  budget_exhausted unknown_model_pricing : QuotaError
  of_store : StoreError → QuotaError

-- `Manager`, without the state of its store.
pub record Manager (F S : Type 0) : Type 0 where
  pub store : Store F S
  pub pricing : PricingTable F
  pub default_budget : F

module _ {F : Type 0} (amounts : Amounts F) where
  abbrev pub compare_usage : F → Result StoreError (Usage F) → Option QuotaError
  compare_usage budget (err e) = some (of_store e)
  compare_usage budget (ok u) =
      if amounts.is_at_most budget u.total_cost then some budget_exhausted else none

module _ {F S : Type 0} (amounts : Amounts F) where
  -- `NewManager`
  abbrev pub new_manager : Store F S → F → Manager F S
  new_manager store default_budget = record {
    store = store;
    pricing = new_pricing_table amounts;
    default_budget = default_budget;
  }

  abbrev pub stored_budget : Manager F S → F × Option StoreError → Result StoreError F
  stored_budget m (stored, some store_failed) = err store_failed
  stored_budget m (stored, some key_not_found) =
      ok (if amounts.is_below amounts.zero stored then stored else m.default_budget)
  stored_budget m (stored, none) =
      ok (if amounts.is_below amounts.zero stored then stored else m.default_budget)

  -- `effectiveBudget`
  unfoldable pub effective_budget : Manager F S → S → Bytes → F → Result StoreError F
  effective_budget m s key key_budget =
      if amounts.is_below amounts.zero key_budget
      then ok key_budget
      else stored_budget m (m.store.get_budget s key)

  abbrev pub check_usage : Manager F S → S → Bytes → Result StoreError F → Option QuotaError
  check_usage m s key (err e) = some (of_store e)
  check_usage m s key (ok budget) =
      if amounts.is_at_most budget amounts.zero
      then none
      else compare_usage amounts budget (m.store.get_usage s key)

  -- `CheckBudget`; `none` is no error.
  unfoldable pub check_budget : Manager F S → S → Bytes → F → Option QuotaError
  unfolding effective_budget
  check_budget m s key key_budget = check_usage m s key (effective_budget m s key key_budget)

  -- `RecordRequest`: the store afterwards, and the error that the middleware ignores.
  unfoldable pub record_request : Manager F S → Bytes → Bytes → ℤ → ℤ → S → S × Option QuotaError
  unfolding calculate_cost
  record_request m key model input output s =
      elim (calculate_cost amounts m.pricing model input output) [
        | none ↦ (s, some unknown_model_pricing)
        | some cost ↦
            let (s', e) =
              m.store.record_usage key
                (record { input_tokens = input; output_tokens = output; cost = cost }) s in
            (s', elim e [ none ↦ none | some x ↦ some (of_store x) ])
      ]

  -- `UsageOf`
  abbrev pub manager_usage : Manager F S → S → Bytes → Result StoreError (Usage F)
  manager_usage m s key = m.store.get_usage s key
