-- ===== src/Egress/Authority.antt =====
-- The parsing of authorities in internal/egress/egress.go: DNS names, `net.SplitHostPort`, endpoints. An
-- address is a value of `A`. An error is `none`.
use aegis_llm.Prelude.{
  ℕ, suc, ◌+◌, Bool, true, false, not, ◌&&◌, ◌||◌, ◌==◌, leb, Option, none, some, [], ◌∷◌, reverse,
  Bytes, codes, length, any, all, is_empty, str_eq, has_prefix, trim_space, if◌then◌else◌,
}
use aegis_llm.VirtualKey.Token.{split_dots}
use aegis_llm.Egress.Port.{normalize_port}

-- net/netip: `ParseAddr`, `Zone() != ""`, `Unmap`, `String`.
pub record Addresses (A : Type 0) : Type 0 where
  pub parse : Bytes → Option A
  pub has_zone : A → Bool
  pub unmap : A → A
  pub print : A → Bytes

-- `Endpoint`; an IP literal has its address.
pub record Endpoint (A : Type 0) : Type 0 where
  pub host : Bytes
  pub port : Bytes
  pub ip : Option A

abbrev pub default_https_port : Bytes
default_https_port = codes "443"

-- What `validateDNSName` allows in a label.
abbrev pub is_label_char : ℕ → Bool
is_label_char c = (leb b'a' c && leb c b'z') || (leb b'0' c && leb c b'9') || c == b'-'

-- `char == '-'` at the first index, or at the last one.
abbrev pub is_hyphen_first : Bytes → Bool
is_hyphen_first [] = false
is_hyphen_first (c ∷ s) = c == b'-'

-- A label of `validateDNSName`
unfoldable pub is_label : Bytes → Bool
is_label label =
    not (is_empty label)
    && leb (length label) 63
    && all is_label_char label
    && not (is_hyphen_first label)
    && not (is_hyphen_first (reverse label))

-- `validateDNSName`
unfoldable pub validate_dns_name : Bytes → Bool
unfolding is_label split_dots
validate_dns_name host = leb (length host) 253 && all is_label (split_dots host)

-- `strings.ToLower`: ASCII letters, and the two characters beyond ASCII that have an ASCII lower case,
-- U+0130 and U+212A. Every other one keeps a byte beyond ASCII, of which no DNS name is made.
unfoldable pub to_lower : Bytes → Bytes
to_lower [] = []
to_lower (a ∷ []) = (if leb b'A' a && leb a b'Z' then a + 32 else a) ∷ []
to_lower (a ∷ b ∷ []) =
    if a == 0xc4 && b == 0xb0
    then b'i' ∷ []
    else (if leb b'A' a && leb a b'Z' then a + 32 else a) ∷ to_lower (b ∷ [])
to_lower (a ∷ b ∷ c ∷ s) =
    let rest = to_lower (b ∷ c ∷ s) in
    let after_two = to_lower (c ∷ s) in
    let after_three = to_lower s in
    if a == 0xc4 && b == 0xb0
    then b'i' ∷ after_two
    else (if a == 0xe2 && b == 0x84 && c == 0xaa
        then b'k' ∷ after_three
        else (if leb b'A' a && leb a b'Z' then a + 32 else a) ∷ rest)

-- `strings.Count(raw, ":")`
unfoldable pub count_colons : Bytes → ℕ
count_colons [] = 0
count_colons (c ∷ s) = let rest = count_colons s in if c == b':' then suc rest else rest

-- `strings.TrimSuffix(rawHost, ".")`
abbrev pub trim_dot_rev : Bytes → Bytes
trim_dot_rev [] = []
trim_dot_rev (c ∷ s) = if c == b'.' then s else c ∷ s

abbrev pub trim_dot : Bytes → Bytes
trim_dot s = reverse (trim_dot_rev (reverse s))

-- The bytes before the first `c`, and those behind it.
unfoldable pub cut : ℕ → Bytes → Option (Bytes × Bytes)
cut c [] = none
cut c (d ∷ s) =
    let rest = cut c s in
    if d == c
    then some ([], s)
    else elim rest [ none ↦ none | some (before, after) ↦ some (d ∷ before, after) ]

abbrev pub has_byte : ℕ → Bytes → Bool
has_byte c s = any (λ d. d == c) s

abbrev pub plain_port : Bytes → Bytes → Option (Bytes × Bytes)
plain_port host port =
    if has_byte b':' port
      || has_byte b'[' host
      || has_byte b'[' port
      || has_byte b']' host
      || has_byte b']' port
    then none
    else some (host, port)

abbrev pub bracketed_port : Bytes → Bytes → Option (Bytes × Bytes)
bracketed_port host [] = none
bracketed_port host (c ∷ port) =
    if not (c == b':')
      || has_byte b':' port
      || has_byte b'[' host
      || has_byte b'[' port
      || has_byte b']' port
    then none
    else some (host, port)

-- `net.SplitHostPort`. Without brackets the last colon is the only one.
unfoldable pub split_host_port : Bytes → Option (Bytes × Bytes)
unfolding cut
split_host_port [] = none
split_host_port (c ∷ s) =
    if c == b'['
    then elim (cut b']' s) [ none ↦ none | some (host, rest) ↦ bracketed_port host rest ]
    else elim (cut b':' (c ∷ s)) [ none ↦ none | some (host, port) ↦ plain_port host port ]

-- What the guards of `parseRule` and `parseAuthority` refuse; `://` has a `/`.
unfoldable pub is_malformed : Bytes → Bool
unfolding str_eq trim_space
is_malformed raw =
    not (str_eq raw (trim_space raw))
    || any (λ c. any (λ d. d == c) (b' ' ∷ 9 ∷ 13 ∷ 10 ∷ codes "/@?#")) raw

module _ {A : Type 0} (net : Addresses A) where
  abbrev pub literal_endpoint : Bytes → A → Option (Endpoint A)
  literal_endpoint port addr =
      if net.has_zone addr
      then none
      else some
          (record { host = net.print (net.unmap addr); port = port; ip = some (net.unmap addr) })

  abbrev pub named_endpoint : Bytes → Bytes → Option (Endpoint A)
  named_endpoint host port =
      if has_byte b':' host || not (validate_dns_name (to_lower host))
      then none
      else some (record { host = to_lower host; port = port; ip = none })

  -- `endpointForHost`
  unfoldable pub endpoint_for_host : Bytes → Bytes → Option (Endpoint A)
  unfolding to_lower validate_dns_name
  endpoint_for_host raw port =
      let host = trim_dot raw in
      if is_empty host then none else elim (net.parse host) [
        | some addr ↦ literal_endpoint port addr
        | none ↦ named_endpoint host port
      ]

  abbrev pub with_port : Option (Endpoint A) → Bool → Option (Endpoint A × Bool)
  with_port none explicit = none
  with_port (some e) explicit = some (e, explicit)

  abbrev pub explicit_authority : Option (Bytes × Bytes) → Option (Endpoint A × Bool)
  explicit_authority none = none
  explicit_authority (some (host, port)) = elim (normalize_port port) [
    | none ↦ none
    | some normal ↦ with_port (endpoint_for_host host normal) true
  ]

  -- `parseRuleAuthority`
  unfoldable pub parse_rule_authority : Bytes → Option (Endpoint A × Bool)
  unfolding count_colons has_prefix split_host_port normalize_port endpoint_for_host
  parse_rule_authority raw =
      if has_prefix raw (b'[' ∷ []) || count_colons raw == 1
      then explicit_authority (split_host_port raw)
      else with_port (endpoint_for_host raw default_https_port) false

  -- `parseAuthority`
  unfoldable pub parse_authority : Bytes → Bool → Option (Endpoint A)
  unfolding is_malformed parse_rule_authority
  parse_authority raw allow_implicit_port =
      if is_empty raw || is_malformed raw then none else elim (parse_rule_authority raw) [
        | none ↦ none
        | some (e, explicit) ↦ if not explicit && not allow_implicit_port then none else some e
      ]
