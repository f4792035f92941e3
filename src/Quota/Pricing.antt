-- ===== src/Quota/Pricing.antt =====
-- `PricingTable` of internal/quota/quota.go. The type of dollar amounts with its operations, `float64` in
-- the program, is a parameter.
use aegis_llm.Prelude.{
  ℕ, Bool, true, false, ℤ, List, [], ◌∷◌, Option, none, some, Bytes, Map, lookup, insert, member,
  codes, if◌then◌else◌,
}

-- `of_int` is the conversion of an `int`, `cents` a constant of the program, given in cents, and
-- `is_below` and `is_at_most` are `<` and `<=`.
pub record Amounts (F : Type 0) : Type 0 where
  pub zero : F
  pub plus : F → F → F
  pub times : F → F → F
  pub over : F → F → F
  pub of_int : ℤ → F
  pub cents : ℕ → F
  pub is_below : F → F → Bool
  pub is_at_most : F → F → Bool

-- `ModelPricing`
pub record ModelPricing (F : Type 0) : Type 0 where
  pub model : Bytes
  pub input_per_million : F
  pub output_per_million : F

abbrev pub PricingTable : Type 0 → Type 0
PricingTable F = Map (ModelPricing F)

module _ {F : Type 0} (amounts : Amounts F) where
  abbrev pub price : Bytes → ℕ → ℕ → ModelPricing F
  price model input output = record {
    model = model;
    input_per_million = amounts.cents input;
    output_per_million = amounts.cents output;
  }

  -- The `defaults` of `NewPricingTable`.
  abbrev pub default_prices : List (ModelPricing F)
  default_prices =
      price (codes "gpt-4o") 250 1000
      ∷ price (codes "gpt-4o-mini") 15 60
      ∷ price (codes "gpt-4.1") 200 800
      ∷ price (codes "claude-sonnet-4-20250514") 300 1500
      ∷ price (codes "claude-haiku-3-5") 80 400
      ∷ price (codes "gemini-2.5-pro") 125 1000
      ∷ price (codes "gemini-2.5-flash") 15 60
      ∷ price (codes "deepseek-v3") 27 110
      ∷ price (codes "deepseek-r1") 55 219
      ∷ []

  -- `Set`
  unfoldable pub set_price : ModelPricing F → PricingTable F → PricingTable F
  unfolding insert
  set_price p table = insert p.model p table

  -- The loop of `NewPricingTable`.
  unfoldable pub set_prices : List (ModelPricing F) → PricingTable F → PricingTable F
  unfolding set_price
  set_prices [] table = table
  set_prices (p ∷ ps) table = set_prices ps (set_price p table)

  -- `NewPricingTable`
  unfoldable pub new_pricing_table : PricingTable F
  unfolding set_prices
  new_pricing_table = set_prices default_prices []

  -- `float64(tokens) / TokensPerMillion * price`
  abbrev pub cost_of : ℤ → F → F
  cost_of tokens per_million =
      amounts.times (amounts.over (amounts.of_int tokens) (amounts.cents 100000000)) per_million

  -- `CalculateCost`; a model without a price is `none`.
  unfoldable pub calculate_cost : PricingTable F → Bytes → ℤ → ℤ → Option F
  unfolding lookup
  calculate_cost table model input output = elim (lookup model table) [
    | none ↦ none
    | some p ↦
        some
          (amounts.plus (cost_of input p.input_per_million) (cost_of output p.output_per_million))
  ]

  -- `RequireModels`; whether every model has a price.
  unfoldable pub require_models : PricingTable F → List Bytes → Bool
  unfolding lookup
  require_models table [] = true
  require_models table (model ∷ models) =
      let rest = require_models table models in if member model table then rest else false
