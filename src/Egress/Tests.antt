-- ===== src/Egress/Tests.antt =====
-- The allowlist of internal/egress at concrete values: a wildcard entry and the names below it.
use Prim.Native.Nat.{◌^◌}
use aegis_llm.Prelude.{
  ℕ, ◌+◌, ◌*◌, ◌==◌, ◌≡◌, refl, ◌↔◌, Bool, true, false, not, none, List, [], ◌∷◌, Memᴰ, arith,
  Bytes, codes, any,
}
use aegis_llm.Egress.Authority.{Addresses, Endpoint}
use aegis_llm.Egress.Rules.{Rule, parse_rule, endpoint_allowed, host_allowed}
use aegis_llm.Egress.Allowed.{Authorizes, endpoint_allowed_iff}
use aegis_llm.Egress.Parsed.{IfSome, IsEndpoint}
use aegis_llm.Egress.Source.{IsWrittenFor}
use aegis_llm.Egress.Entries.{IsRule, parse_rule-IsRule, host_allowed-IsRule}
use aegis_llm.Egress.Address.{v4, v6, quad, mapped_prefix, public_dns_address}
use aegis_llm.Egress.Public.{
  special_ranges, is_within, public_dns_address-range, public_dns_address-mapped,
}

-- No text is the literal of an address.
abbrev names_only : Addresses ℕ
names_only = record { parse = λ text. none; has_zone = λ a. false; unmap = λ a. a; print = λ a. [] }

parse_rule-IsRule_example :
    IfSome (IsRule names_only (codes "*.openai.com")) (parse_rule names_only (codes "*.openai.com"))
parse_rule-IsRule_example = parse_rule-IsRule names_only (codes "*.openai.com")

abbrev same : ℕ → ℕ → Bool
same a b = a == b

abbrev target : Endpoint ℕ
target = record { host = codes "api.openai.com"; port = codes "443"; ip = none }

abbrev rules : List (Rule ℕ)
rules = record { host = codes "openai.com"; port = codes "443"; wildcard = true; ip = none } ∷ []

endpoint_allowed_iff_example :
    (endpoint_allowed same target rules ≡ true)
    ↔ ((rule : Rule ℕ) × Memᴰ rule rules × (target.port ≡ rule.port) × Authorizes same target rule)
endpoint_allowed_iff_example = endpoint_allowed_iff same target rules

host_allowed-IsRule_example :
    (e : Endpoint ℕ) × IsWrittenFor names_only (codes "API.openai.com") e.host e.port e.ip
    × IsEndpoint names_only e.host e.port e.ip
    × ((raw : Bytes) × Memᴰ raw (codes "*.openai.com" ∷ [])
        × ((rule : Rule ℕ) × IsRule names_only raw rule
            × (e.port ≡ rule.port)
            × Authorizes same e rule))
unfolding host_allowed
host_allowed-IsRule_example =
    host_allowed-IsRule names_only same (codes "API.openai.com") (codes "*.openai.com" ∷ []) refl

public_dns_address-range_example :
    public_dns_address (v4 (quad 169 254 169 254))
    ≡ not (any (is_within (quad 169 254 169 254)) special_ranges)
public_dns_address-range_example = public_dns_address-range (quad 169 254 169 254)

public_dns_address-mapped_example :
    public_dns_address (v6 (mapped_prefix * 2 ^ 32 + quad 10 0 0 1) [])
    ≡ not (any (is_within (quad 10 0 0 1)) special_ranges)
public_dns_address-mapped_example = public_dns_address-mapped (quad 10 0 0 1) (omega arith)
