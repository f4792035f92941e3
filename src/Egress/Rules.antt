-- ===== src/Egress/Rules.antt =====
-- The allowlist of internal/egress/egress.go: its rules, their parsing, and the endpoints that they allow.
-- An error is `none`.
use aegis_llm.Prelude.{
  Bool, true, false, not, ◌&&◌, ◌||◌, Option, none, some, List, [], ◌∷◌, Bytes, codes, drop,
  is_empty, is_some, str_eq, has_prefix, has_suffix, if◌then◌else◌,
}
use aegis_llm.Egress.Port.{normalize_port}
use aegis_llm.Egress.Authority.{
  Addresses, Endpoint, default_https_port, has_byte, is_malformed, parse_rule_authority,
  parse_authority, endpoint_for_host,
}

-- `Rule`; the rule of an IP literal has its address.
pub record Rule (A : Type 0) : Type 0 where
  pub host : Bytes
  pub port : Bytes
  pub wildcard : Bool
  pub ip : Option A

-- `url.URL`, of which `ParseHTTPSURL` reads these; `raw_fragment` is `RawFragment`.
pub record TargetUrl : Type 0 where
  pub scheme : Bytes
  pub opaque : Bytes
  pub has_user : Bool
  pub fragment : Bytes
  pub raw_fragment : Bytes
  pub host : Bytes
  pub hostname : Bytes
  pub port : Bytes

abbrev pub wildcard_prefix : Bytes
wildcard_prefix = codes "*."

module _ {A : Type 0} (net : Addresses A) where
  -- The end of `parseRule`.
  abbrev pub rule_of : Bool → Option (Endpoint A × Bool) → Option (Rule A)
  rule_of wildcard none = none
  rule_of wildcard (some (e, explicit)) =
      if (wildcard && is_some e.ip) || (is_some e.ip && not explicit)
      then none
      else some (record { host = e.host; port = e.port; wildcard = wildcard; ip = e.ip })

  -- `parseRule`
  unfoldable pub parse_rule : Bytes → Option (Rule A)
  unfolding is_malformed has_prefix parse_rule_authority
  parse_rule raw =
      if is_empty raw || is_malformed raw
      then none
      else (if has_prefix raw wildcard_prefix
          then (if has_byte b':' (drop 2 raw)
              then none
              else rule_of true (parse_rule_authority net (drop 2 raw)))
          else rule_of false (parse_rule_authority net raw))

  -- The loop of `ParseAllowlist`.
  unfoldable pub parse_rules : List Bytes → Option (List (Rule A))
  unfolding parse_rule
  parse_rules [] = some []
  parse_rules (raw ∷ entries) = elim (parse_rule raw) [
    | none ↦ none
    | some rule ↦ elim (parse_rules entries) [ none ↦ none | some rules ↦ some (rule ∷ rules) ]
  ]

  -- `ParseAllowlist`
  unfoldable pub parse_allowlist : List Bytes → Option (List (Rule A))
  unfolding parse_rules
  parse_allowlist [] = none
  parse_allowlist (raw ∷ entries) = parse_rules (raw ∷ entries)

  -- `ValidateAllowlist`
  unfoldable pub validate_allowlist : List Bytes → Bool
  unfolding parse_allowlist
  validate_allowlist entries = is_some (parse_allowlist entries)

  -- `ParseHTTPSURL`; `url` is `url.Parse`.
  unfoldable pub parse_https_url : (Bytes → Option TargetUrl) → Bytes → Option (Endpoint A)
  unfolding str_eq has_suffix normalize_port endpoint_for_host
  parse_https_url url raw = if has_byte b'#' raw then none else elim (url raw) [
    | none ↦ none
    | some u ↦
        if not (str_eq u.scheme (codes "https"))
          || not (is_empty u.opaque)
          || u.has_user
          || not (is_empty u.fragment)
          || not (is_empty u.raw_fragment)
          || is_empty u.host
          || is_empty u.hostname
          || has_suffix u.host (b':' ∷ [])
        then none
        else if is_empty u.port
        then endpoint_for_host net u.hostname default_https_port
        else elim (normalize_port u.port) [
          | none ↦ none
          | some port ↦ endpoint_for_host net u.hostname port
        ]
  ]

module _ {A : Type 0} (same_ip : A → A → Bool) where
  -- The rules for the address of an IP literal.
  abbrev pub matches_ip : A → Option A → Bool
  matches_ip ip none = false
  matches_ip ip (some rule_ip) = same_ip ip rule_ip

  -- The rules for a name.
  abbrev pub matches_name : Bytes → Rule A → Bool
  matches_name host rule =
      if is_some rule.ip
      then false
      else (if rule.wildcard
          then not (str_eq host rule.host) && has_suffix host (b'.' ∷ rule.host)
          else str_eq host rule.host)

  abbrev pub matches : Endpoint A → Rule A → Option A → Bool
  matches e rule none = matches_name e.host rule
  matches e rule (some ip) = matches_ip ip rule.ip

  -- `EndpointAllowed`; `same_ip` is `==` on addresses.
  unfoldable pub endpoint_allowed : Endpoint A → List (Rule A) → Bool
  unfolding str_eq has_suffix
  endpoint_allowed e [] = false
  endpoint_allowed e (rule ∷ rules) =
      let rest = endpoint_allowed e rules in
      if not (str_eq e.port rule.port) then rest else (if matches e rule e.ip then true else rest)

  abbrev pub allowed_by : Option (Endpoint A) → Option (List (Rule A)) → Bool
  allowed_by e none = false
  allowed_by none (some rules) = false
  allowed_by (some e) (some rules) = endpoint_allowed e rules

  -- `HostAllowed`
  unfoldable pub host_allowed : Addresses A → Bytes → List Bytes → Bool
  unfolding endpoint_allowed parse_authority parse_allowlist
  host_allowed net authority domains =
      allowed_by (parse_authority net authority true) (parse_allowlist net domains)
