-- ===== src/Quota/Tests.antt =====
-- Budgets at concrete values, with amounts in whole cents: two requests of one key, one of another.
use aegis_llm.Prelude.{
  arith, ℕ, ◌*◌, ◌/◌, ◌≡◌, ℤ, ◌+ℤ◌, ltb_ℤ, leb_ℤ, pos, pos_part, List, [], ◌∷◌, some, Bytes, codes,
}
use aegis_llm.Server.Context.{RequestContext, Flow, returned}
use aegis_llm.Server.Sample.{sample_context}
use aegis_llm.Quota.Pricing.{Amounts}
use aegis_llm.Quota.Store.{
  MemoryStore, UsageEntry, new_memory_store, memory_store, usage_of, memory_budget,
}
use aegis_llm.Quota.Manager.{Manager, new_manager}
use aegis_llm.Quota.Middleware.{quota}
use aegis_llm.Quota.Ledger.{
  Call, recorded, budget_set, call_all, IsSum, entries_of, last_budget, call_all-spent,
}
use aegis_llm.Quota.Gate.{QuotaDecision, quota-Decision}

abbrev whole_cents : Amounts ℤ
whole_cents = record {
  zero = pos 0;
  plus = λ a b. a +ℤ b;
  times = λ a b. pos (pos_part a * pos_part b);
  over = λ a b. pos (pos_part a / pos_part b);
  of_int = λ z. pos (pos_part z * 100);
  cents = λ c. pos c;
  is_below = ltb_ℤ;
  is_at_most = leb_ℤ;
}

abbrev entry : ℕ → UsageEntry ℤ
entry cost = record { input_tokens = pos 10; output_tokens = pos 5; cost = pos cost }

abbrev a : Bytes
a = codes "a"

abbrev calls : List (Call ℤ)
calls =
    budget_set a (pos 50)
    ∷ recorded a (entry 30)
    ∷ recorded (codes "b") (entry 7)
    ∷ recorded a (entry 25)
    ∷ []

call_all-spent_example :
    IsSum whole_cents a
      (entries_of whole_cents a calls)
      (usage_of whole_cents (call_all whole_cents calls new_memory_store) a)
    × (memory_budget whole_cents (call_all whole_cents calls new_memory_store) a
        ≡ last_budget whole_cents a (pos 0) calls)
unfolding entries_of
call_all-spent_example = call_all-spent whole_cents a calls (omega arith)

abbrev manager : Manager ℤ (MemoryStore ℤ)
manager = new_manager whole_cents (memory_store whole_cents) (pos 0)

abbrev budget_context : RequestContext ℤ
budget_context = record sample_context { virtual_key_id = a }

abbrev answer : MemoryStore ℤ → RequestContext ℤ → MemoryStore ℤ × Flow ℤ
answer s ctx = (s, returned ctx)

quota-Decision_example :
    QuotaDecision whole_cents
      (some manager)
      answer
      (call_all whole_cents calls new_memory_store)
      budget_context
      (quota whole_cents
        (some manager)
        answer
        (call_all whole_cents calls new_memory_store)
        budget_context)
quota-Decision_example =
    quota-Decision whole_cents (some manager) answer (call_all whole_cents calls new_memory_store)
      budget_context
