-- ===== src/Quota/Store.antt =====
-- `Store` and `MemoryStore` of internal/quota/quota.go. The start of the period, which no code reads, is
-- left out of the usage.
use aegis_llm.Prelude.{
  ℤ, pos, add64, Option, none, some, [], Bytes, Map, lookup, insert, Result, ok,
}
use aegis_llm.Quota.Pricing.{Amounts}

pub record Usage (F : Type 0) : Type 0 where
  pub key_id : Bytes
  pub total_cost : F
  pub total_tokens : ℤ
  pub request_count : ℤ

-- `UsageEntry`, of which the store reads these.
pub record UsageEntry (F : Type 0) : Type 0 where
  pub input_tokens : ℤ
  pub output_tokens : ℤ
  pub cost : F

pub data StoreError : Type 0 where
  key_not_found store_failed : StoreError

-- `Store` on states of `S`. `GetBudget` answers with an amount beside its error.
pub record Store (F S : Type 0) : Type 0 where
  pub get_usage : S → Bytes → Result StoreError (Usage F)
  pub record_usage : Bytes → UsageEntry F → S → S × Option StoreError
  pub get_budget : S → Bytes → F × Option StoreError
  pub set_budget : Bytes → F → S → S × Option StoreError

-- `MemoryStore`
pub record MemoryStore (F : Type 0) : Type 0 where
  pub budgets : Map F
  pub usage : Map (Usage F)

abbrev pub new_memory_store : {F : Type 0} → MemoryStore F
new_memory_store = record { budgets = []; usage = [] }

module _ {F : Type 0} (amounts : Amounts F) where
  abbrev pub no_usage : Bytes → Usage F
  no_usage key = record {
    key_id = key;
    total_cost = amounts.zero;
    total_tokens = pos 0;
    request_count = pos 0;
  }

  -- `u, ok := s.usage[keyID]`, with the usage that takes its place.
  unfoldable pub usage_of : MemoryStore F → Bytes → Usage F
  unfolding lookup
  usage_of s key = elim (lookup key s.usage) [ none ↦ no_usage key | some u ↦ u ]

  -- What `RecordUsage` adds to a usage.
  unfoldable pub add_usage : UsageEntry F → Usage F → Usage F
  unfolding add64
  add_usage e u = record u {
    total_cost = amounts.plus u.total_cost e.cost;
    total_tokens = add64 u.total_tokens (add64 e.input_tokens e.output_tokens);
    request_count = add64 u.request_count (pos 1);
  }

  -- `RecordUsage`
  unfoldable pub memory_record : Bytes → UsageEntry F → MemoryStore F → MemoryStore F
  unfolding insert usage_of add_usage
  memory_record key e s = record s { usage = insert key (add_usage e (usage_of s key)) s.usage }

  -- `GetBudget`
  unfoldable pub memory_budget : MemoryStore F → Bytes → F
  unfolding lookup
  memory_budget s key = elim (lookup key s.budgets) [ none ↦ amounts.zero | some b ↦ b ]

  -- `SetBudget`
  unfoldable pub memory_set : Bytes → F → MemoryStore F → MemoryStore F
  unfolding insert
  memory_set key budget s = record s { budgets = insert key budget s.budgets }

  -- `MemoryStore` as a `Store`; it has no errors.
  abbrev pub memory_store : Store F (MemoryStore F)
  memory_store = record {
    get_usage = λ s key. ok (usage_of s key);
    record_usage = λ key e s. (memory_record key e s, none);
    get_budget = λ s key. (memory_budget s key, none);
    set_budget = λ key budget s. (memory_set key budget s, none);
  }
