-- ===== src/Quota/Ledger.antt =====
-- What the `MemoryStore` of internal/quota/quota.go tells of a key, against the history of calls.
use mathlib.Core.Path.{subst}
use aegis_llm.Prelude.{
  ℕ, ◌+◌, ◌<◌, ℤ, pos, half64, add64, add64_pos, length, arith, ◌≡◌, refl, sym, ap, ◌∙◌, Bool, true,
  false, List, [], ◌∷◌, Option, none, some, Bytes, lookup, lookup-insert, str_eq, str_eq_sound,
  if◌then◌else◌,
}
use aegis_llm.Quota.Pricing.{Amounts}
use aegis_llm.Quota.Store.{
  Usage, UsageEntry, MemoryStore, new_memory_store, no_usage, usage_of, add_usage, memory_record,
  memory_budget, memory_set,
}

-- The calls that change a store.
pub data Call (F : Type 0) : Type 0 where
  recorded : Bytes → UsageEntry F → Call F
  budget_set : Bytes → F → Call F

-- A value, or another one in its absence.
abbrev or_else {ℓ} : {V : Type ℓ} → V → Option V → V
or_else d none = d
or_else d (some v) = v

or_else_if {ℓ} :
    {V : Type ℓ} (d v : V) (o : Option V) (b : Bool)
    → or_else d (if b then some v else o) ≡ (if b then v else or_else d o)
or_else_if d v o true = refl
or_else_if d v o false = refl

if_same {ℓ} :
    {V : Type ℓ} (b : Bool) (v w d : V)
    → (b ≡ true → v ≡ w)
    → (if b then v else d) ≡ (if b then w else d)
if_same true v w d h = h refl
if_same false v w d h = refl

module _ {F : Type 0} (amounts : Amounts F) where
  usage-or_else :
      (s : MemoryStore F) (key : Bytes)
      → usage_of amounts s key ≡ or_else (no_usage amounts key) (lookup key s.usage)
  unfolding usage_of
  usage-or_else s key = or_elim (lookup key s.usage)
    where
      or_elim :
          (o : Option (Usage F))
          → elim o [ none ↦ no_usage amounts key | some u ↦ u ] ≡ or_else (no_usage amounts key) o
      or_elim none = refl
      or_elim (some u) = refl

  budget-or_else :
      (s : MemoryStore F) (key : Bytes)
      → memory_budget amounts s key ≡ or_else amounts.zero (lookup key s.budgets)
  unfolding memory_budget
  budget-or_else s key = or_elim (lookup key s.budgets)
    where
      or_elim :
          (o : Option F) → elim o [ none ↦ amounts.zero | some b ↦ b ] ≡ or_else amounts.zero o
      or_elim none = refl
      or_elim (some u) = refl

  abbrev pub call : Call F → MemoryStore F → MemoryStore F
  call (recorded key e) s = memory_record amounts key e s
  call (budget_set key b) s = memory_set amounts key b s

  -- The store after calls, the oldest one first.
  unfoldable pub call_all : List (Call F) → MemoryStore F → MemoryStore F
  unfolding memory_record memory_set
  call_all [] s = s
  call_all (c ∷ cs) s = call_all cs (call c s)

  -- The entries of a key.
  unfoldable pub entries_of : Bytes → List (Call F) → List (UsageEntry F)
  unfolding str_eq
  entries_of key [] = []
  entries_of key (recorded k e ∷ cs) =
      let rest = entries_of key cs in if str_eq k key then e ∷ rest else rest
  entries_of key (budget_set k b ∷ cs) = entries_of key cs

  -- The costs of entries and an amount, added up.
  unfoldable pub sum_costs : F → List (UsageEntry F) → F
  sum_costs sum [] = sum
  sum_costs sum (e ∷ es) = sum_costs (amounts.plus sum e.cost) es

  -- Their tokens, of the inputs and of the outputs, in the arithmetic of an `int64`.
  unfoldable pub sum_tokens : ℤ → List (UsageEntry F) → ℤ
  unfolding add64
  sum_tokens sum [] = sum
  sum_tokens sum (e ∷ es) = sum_tokens (add64 sum (add64 e.input_tokens e.output_tokens)) es

  -- A usage is what entries add up to.
  pub record IsSum (key : Bytes) (es : List (UsageEntry F)) (u : Usage F) : Type 0 where
    pub key_is : u.key_id ≡ key
    pub cost_is : u.total_cost ≡ sum_costs amounts.zero es
    pub tokens_are : u.total_tokens ≡ sum_tokens (pos 0) es
    pub requests_are : u.request_count ≡ pos (length es)

  -- A usage and entries, one after the other.
  unfoldable add_all : Usage F → List (UsageEntry F) → Usage F
  unfolding add_usage
  add_all u [] = u
  add_all u (e ∷ es) = add_all (add_usage amounts e u) es

  key-add_all : (u : Usage F) (es : List (UsageEntry F)) → (add_all u es).key_id ≡ u.key_id
  unfolding add_all
  key-add_all u [] = refl
  key-add_all u (e ∷ es) = key-add_all (add_usage amounts e u) es

  cost-add_all :
      (u : Usage F) (es : List (UsageEntry F))
      → (add_all u es).total_cost ≡ sum_costs u.total_cost es
  unfolding add_all sum_costs
  cost-add_all u [] = refl
  cost-add_all u (e ∷ es) = cost-add_all (add_usage amounts e u) es

  tokens-add_all :
      (u : Usage F) (es : List (UsageEntry F))
      → (add_all u es).total_tokens ≡ sum_tokens u.total_tokens es
  unfolding add_all sum_tokens
  tokens-add_all u [] = refl
  tokens-add_all u (e ∷ es) = tokens-add_all (add_usage amounts e u) es

  requests-add_all :
      (u : Usage F) (n : ℕ) (es : List (UsageEntry F))
      → u.request_count ≡ pos n
      → n + length es < half64
      → (add_all u es).request_count ≡ pos (n + length es)
  unfolding add_all
  requests-add_all u n [] q small = ground (arith, q)
  requests-add_all u n (e ∷ es) q small =
      requests-add_all (add_usage amounts e u) (n + 1) es
        (unfold add_usage in (ap (λ z. add64 z (pos 1)) q ∙ add64_pos n 1 (omega arith)))
        (omega arith)
      ∙ ap pos (omega arith)

  IsSum-add_all :
      (key : Bytes) (es : List (UsageEntry F))
      → length es < half64
      → IsSum key es (add_all (no_usage amounts key) es)
  IsSum-add_all key es small = record {
    key_is = key-add_all (no_usage amounts key) es;
    cost_is = cost-add_all (no_usage amounts key) es;
    tokens_are = tokens-add_all (no_usage amounts key) es;
    requests_are =
        requests-add_all (no_usage amounts key) 0 es refl (omega (arith, small))
        ∙ ap pos (omega arith);
  }

  -- What a key has spent: its entries of the history, one after the other.
  unfoldable pub spent : Bytes → Usage F → List (Call F) → Usage F
  unfolding add_usage
  spent key u [] = u
  spent key u (recorded k e ∷ cs) = spent key (if str_eq k key then add_usage amounts e u else u) cs
  spent key u (budget_set k b ∷ cs) = spent key u cs

  -- The budget that was set for a key last.
  unfoldable pub last_budget : Bytes → F → List (Call F) → F
  last_budget key b [] = b
  last_budget key b (recorded k e ∷ cs) = last_budget key b cs
  last_budget key b (budget_set k c ∷ cs) = last_budget key (if str_eq k key then c else b) cs

  usage-record :
      (k key : Bytes) (e : UsageEntry F) (s : MemoryStore F)
      → usage_of amounts (memory_record amounts k e s) key ≡ (
          if str_eq k key
          then add_usage amounts e (usage_of amounts s key)
          else usage_of amounts s key)
  unfolding memory_record
  usage-record k key e s =
      let v = add_usage amounts e (usage_of amounts s k) in
      usage-or_else (memory_record amounts k e s) key
      ∙ ap (or_else (no_usage amounts key)) (lookup-insert k key v s.usage)
      ∙ or_else_if (no_usage amounts key) v (lookup key s.usage) (str_eq k key)
      ∙ ap (λ d. if str_eq k key then v else d) (sym (usage-or_else s key))
      ∙ if_same (str_eq k key) v (add_usage amounts e (usage_of amounts s key))
          (usage_of amounts s key)
          (λ h. ap (λ j. add_usage amounts e (usage_of amounts s j)) (str_eq_sound k key h))

  budget-set :
      (k key : Bytes) (b : F) (s : MemoryStore F)
      → memory_budget amounts (memory_set amounts k b s) key
        ≡ (if str_eq k key then b else memory_budget amounts s key)
  unfolding memory_set
  budget-set k key b s =
      budget-or_else (memory_set amounts k b s) key
      ∙ ap (or_else amounts.zero) (lookup-insert k key b s.budgets)
      ∙ or_else_if amounts.zero b (lookup key s.budgets) (str_eq k key)
      ∙ ap (λ d. if str_eq k key then b else d) (sym (budget-or_else s key))

  usage-all :
      (key : Bytes) (cs : List (Call F)) (s : MemoryStore F)
      → usage_of amounts (call_all cs s) key ≡ spent key (usage_of amounts s key) cs
  unfolding call_all spent
  usage-all key [] s = refl
  usage-all key (recorded k e ∷ cs) s =
      usage-all key cs (memory_record amounts k e s)
      ∙ ap (λ u. spent key u cs) (usage-record k key e s)
  usage-all key (budget_set k b ∷ cs) s = usage-all key cs (memory_set amounts k b s)

  budget-all :
      (key : Bytes) (cs : List (Call F)) (s : MemoryStore F)
      → memory_budget amounts (call_all cs s) key ≡ last_budget key (memory_budget amounts s key) cs
  unfolding call_all last_budget memory_budget
  budget-all key [] s = refl
  budget-all key (recorded k e ∷ cs) s = budget-all key cs (memory_record amounts k e s)
  budget-all key (budget_set k b ∷ cs) s =
      budget-all key cs (memory_set amounts k b s)
      ∙ ap (λ u. last_budget key u cs) (budget-set k key b s)

  if_add_all :
      (b : Bool) (u : Usage F) (e : UsageEntry F) (es : List (UsageEntry F))
      → add_all (if b then add_usage amounts e u else u) es ≡ add_all u (if b then e ∷ es else es)
  unfolding add_all
  if_add_all true u e es = refl
  if_add_all false u e es = refl

  spent-add_all :
      (key : Bytes) (u : Usage F) (cs : List (Call F))
      → spent key u cs ≡ add_all u (entries_of key cs)
  unfolding spent add_all entries_of
  spent-add_all key u [] = refl
  spent-add_all key u (recorded k e ∷ cs) =
      spent-add_all key (if str_eq k key then add_usage amounts e u else u) cs
      ∙ if_add_all (str_eq k key) u e (entries_of key cs)
  spent-add_all key u (budget_set k b ∷ cs) = spent-add_all key u cs

  -- After any calls on a new store, in any order and for any keys, the usage of a key is the sum of all its
  -- own entries since the store was made, and not only of those of a month: of their costs, of their input
  -- and output tokens in `int64` arithmetic, and of their number, which is below 2^63. Its budget is the
  -- one that was set for it last.
  pub call_all-spent :
      (key : Bytes) (cs : List (Call F))
      → length (entries_of key cs) < half64
      → IsSum key (entries_of key cs) (usage_of amounts (call_all cs new_memory_store) key)
        × (memory_budget amounts (call_all cs new_memory_store) key
            ≡ last_budget key amounts.zero cs)
  unfolding usage_of memory_budget
  call_all-spent key cs small = (
    subst (IsSum key (entries_of key cs))
        (sym (usage-all key cs new_memory_store ∙ spent-add_all key (no_usage amounts key) cs))
        (IsSum-add_all key (entries_of key cs) small),
    budget-all key cs new_memory_store,
  )
