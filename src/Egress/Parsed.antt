-- ===== src/Egress/Parsed.antt =====
-- What the parsing of authorities in internal/egress/egress.go answers.
use aegis_llm.Prelude.{
  ℕ, ◌==◌, ◌≡◌, refl, ◌⊎◌, inl, inr, Bool, true, false, not, ◌||◌, Option, none, some, [], ◌∷◌,
  arith, Bytes, is_empty, has_prefix, if_elim,
}
use aegis_llm.Egress.Port.{normalize_port, IsPort, normalize_port-IsPort}
use aegis_llm.Egress.Authority.{
  Addresses, Endpoint, default_https_port, has_byte, parse_rule_authority, endpoint_for_host, cut,
  bracketed_port, plain_port, explicit_authority, with_port, split_host_port, literal_endpoint,
  named_endpoint, validate_dns_name, to_lower, trim_dot, count_colons,
}

-- What holds of the value, if there is one.
abbrev pub IfSome {ℓ κ} : {A : Type ℓ} → (A → Type κ) → Option A → Type κ
IfSome P none = Unit
IfSome P (some a) = P a

pub IfSome-some {ℓ κ} :
    {A : Type ℓ} (P : A → Type κ) (o : Option A) {a : A} → IfSome P o → o ≡ some a → P a
IfSome-some P o h e = rw e at h

-- What makes an endpoint one that the code may call: its port is a port, and its host is a valid name,
-- or the print of its address.
pub record IsEndpoint {A : Type 0} (net : Addresses A) (host port : Bytes) (ip : Option A)
    : Type 0 where
  pub port_valid : IsPort port
  pub host_valid :
      ((ip ≡ none) × (validate_dns_name host ≡ true))
      ⊎ ((a : A) × (ip ≡ some a) × (host ≡ net.print a))

-- The text has the byte.
has_byte-cons : (c d : ℕ) (s : Bytes) → has_byte c s ≡ true → has_byte c (d ∷ s) ≡ true
has_byte-cons c d s h = ground (arith, h)

cut-has_byte :
    (c d : ℕ) (s : Bytes)
    → IfSome (λ (p : Bytes × Bytes). has_byte d p.1 ≡ true → has_byte d s ≡ true) (cut c s)
      × IfSome (λ (p : Bytes × Bytes). has_byte c s ≡ true) (cut c s)
unfolding cut
cut-has_byte c d [] = (tt, tt)
cut-has_byte c d (b ∷ s) =
    if_elim
      (λ o.
        IfSome (λ (p : Bytes × Bytes). has_byte d p.1 ≡ true → has_byte d (b ∷ s) ≡ true) o
        × IfSome (λ (p : Bytes × Bytes). has_byte c (b ∷ s) ≡ true) o)
      (b == c) (λ e. (λ h. has_byte-cons d b s h, ground (arith, e)))
      (λ e. step (cut c s) (cut-has_byte c d s))
  where
    step :
        (o : Option (Bytes × Bytes))
        → IfSome (λ (p : Bytes × Bytes). has_byte d p.1 ≡ true → has_byte d s ≡ true) o
          × IfSome (λ (p : Bytes × Bytes). has_byte c s ≡ true) o
        → IfSome
            (λ (p : Bytes × Bytes). has_byte d p.1 ≡ true → has_byte d (b ∷ s) ≡ true)
            (elim o [ none ↦ none | some (before, after) ↦ some (b ∷ before, after) ])
          × IfSome
              (λ (p : Bytes × Bytes). has_byte c (b ∷ s) ≡ true)
              (elim o [ none ↦ none | some (before, after) ↦ some (b ∷ before, after) ])
    step none h = (tt, tt)
    step (some (before, after)) h = (λ q. has_byte-cons d b s (h.0 q), has_byte-cons c b s h.1)

bracketed-colon :
    (host rest : Bytes)
    → IfSome (λ (p : Bytes × Bytes). has_byte b':' rest ≡ true) (bracketed_port host rest)
bracketed-colon host [] = tt
bracketed-colon host (c ∷ port) =
    if_elim (IfSome (λ (p : Bytes × Bytes). has_byte b':' (c ∷ port) ≡ true))
      (not (c == b':')
        || has_byte b':' port
        || has_byte b'[' host
        || has_byte b'[' port
        || has_byte b']' port)
      {x = none} {y = some (host, port)} (λ _. tt) (λ e. ground (arith, e))

-- A host and a port are split only at a colon.
split-colon :
    (raw : Bytes) → IfSome (λ (p : Bytes × Bytes). has_byte b':' raw ≡ true) (split_host_port raw)
unfolding split_host_port
split-colon [] = tt
split-colon (c ∷ s) =
    if_elim (IfSome (λ (p : Bytes × Bytes). has_byte b':' (c ∷ s) ≡ true)) (c == b'[')
      (λ _. bracket (cut b']' s) (cut-has_byte b']' b':' s).0)
      (λ _. plain (cut b':' (c ∷ s)) (cut-has_byte b':' b':' (c ∷ s)).1)
  where
    bracket :
        (o : Option (Bytes × Bytes))
        → IfSome (λ (p : Bytes × Bytes). has_byte b':' p.1 ≡ true → has_byte b':' s ≡ true) o
        → IfSome
            (λ (p : Bytes × Bytes). has_byte b':' (c ∷ s) ≡ true)
            (elim o [ none ↦ none | some (host, rest) ↦ bracketed_port host rest ])
    bracket none h = tt
    bracket (some (host, rest)) h = inside (bracketed_port host rest) (bracketed-colon host rest)
      where
        inside :
            (o : Option (Bytes × Bytes))
            → IfSome (λ (p : Bytes × Bytes). has_byte b':' rest ≡ true) o
            → IfSome (λ (p : Bytes × Bytes). has_byte b':' (c ∷ s) ≡ true) o
        inside none q = tt
        inside (some p) q = has_byte-cons b':' c s (h q)

    plain :
        (o : Option (Bytes × Bytes))
        → IfSome (λ (p : Bytes × Bytes). has_byte b':' (c ∷ s) ≡ true) o
        → IfSome
            (λ (p : Bytes × Bytes). has_byte b':' (c ∷ s) ≡ true)
            (elim o [ none ↦ none | some (host, port) ↦ plain_port host port ])
    plain none h = tt
    plain (some (host, port)) h =
        if_elim (IfSome (λ (p : Bytes × Bytes). has_byte b':' (c ∷ s) ≡ true))
          (has_byte b':' port
            || has_byte b'[' host
            || has_byte b'[' port
            || has_byte b']' host
            || has_byte b']' port)
          {x = none} {y = some (host, port)} (λ _. tt) (λ _. h)

or_not : (a b : Bool) → (a || not b) ≡ false → b ≡ true
or_not a b h = ground (arith, h)

count-has_byte : (s : Bytes) → (count_colons s == 1) ≡ true → has_byte b':' s ≡ true
unfolding count_colons
count-has_byte [] h = cc
count-has_byte (c ∷ s) h = ground (arith, h, count-has_byte s)

module _ {A : Type 0} (net : Addresses A) where
  -- The endpoint of a value, if there is one.
  abbrev pub EndpointOk : Option (Endpoint A) → Type 0
  EndpointOk = IfSome (λ e. IsEndpoint net e.host e.port e.ip)

  endpoint_for_host-IfSome :
      (P : Endpoint A → Type 0) (raw port : Bytes)
      → ((host : Bytes)
          → validate_dns_name host ≡ true
          → P (record { host = host; port = port; ip = none }))
      → ((a : A) → P (record { host = net.print a; port = port; ip = some a }))
      → IfSome P (endpoint_for_host net raw port)
  unfolding endpoint_for_host
  endpoint_for_host-IfSome P raw port named literal =
      if_elim (IfSome P) (is_empty (trim_dot raw)) (λ _. tt)
        (λ _. by_address (net.parse (trim_dot raw)))
    where
      by_address :
          (o : Option A)
          → IfSome P (elim o [
            | some addr ↦ literal_endpoint net port addr
            | none ↦ named_endpoint net (trim_dot raw) port
          ])
      by_address none =
          let host = trim_dot raw in
          if_elim (IfSome P) (has_byte b':' host || not (validate_dns_name (to_lower host)))
            {x = none} {y = some (record { host = to_lower host; port = port; ip = none })}
            (λ _. tt)
            (λ e.
              named (to_lower host)
                (or_not (has_byte b':' host) (validate_dns_name (to_lower host)) e))
      by_address (some addr) =
          if_elim (IfSome P) (net.has_zone addr) {x = none}
            {y = some (record {
              host = net.print (net.unmap addr);
              port = port;
              ip = some (net.unmap addr);
            })}
            (λ _. tt) (λ _. literal (net.unmap addr))

  endpoint_for_host-Ok :
      (raw port : Bytes) → IsPort port → EndpointOk (endpoint_for_host net raw port)
  endpoint_for_host-Ok raw port p =
      endpoint_for_host-IfSome (λ e. IsEndpoint net e.host e.port e.ip) raw port
        (λ host valid. record { port_valid = p; host_valid = inl (refl, valid) })
        (λ a. record { port_valid = p; host_valid = inr (a, refl, refl) })

  -- What an authority gives: a valid endpoint, with the default port where the text has no colon.
  abbrev pub AuthorityOk : Bytes → Endpoint A × Bool → Type 0
  AuthorityOk raw r =
      IsEndpoint net r.0.host r.0.port r.0.ip
      × (has_byte b':' raw ≡ false → (r.0.port ≡ default_https_port) × (r.1 ≡ false))

  explicit-Ok :
      (raw : Bytes) (o : Option (Bytes × Bytes))
      → IfSome (λ (p : Bytes × Bytes). has_byte b':' raw ≡ true) o
      → IfSome (AuthorityOk raw) (explicit_authority net o)
  explicit-Ok raw none h = tt
  explicit-Ok raw (some (host, port)) h =
      by_port (normalize_port port) (normal (normalize_port port) refl)
    where
      normal : (o : Option Bytes) → normalize_port port ≡ o → IfSome IsPort o
      normal none e = tt
      normal (some q) e = (normalize_port-IsPort port e).0

      with_endpoint :
          (o : Option (Endpoint A)) → EndpointOk o → IfSome (AuthorityOk raw) (with_port net o true)
      with_endpoint none k = tt
      with_endpoint (some e) k = (k, λ c. absurd (ground (arith, h, c)))

      by_port :
          (o : Option Bytes)
          → IfSome IsPort o
          → IfSome
              (AuthorityOk raw)
              (elim o [ none ↦ none | some q ↦ with_port net (endpoint_for_host net host q) true ])
      by_port none k = tt
      by_port (some q) k =
          with_endpoint (endpoint_for_host net host q) (endpoint_for_host-Ok host q k)

  implicit-Ok :
      (raw : Bytes) (o : Option (Endpoint A))
      → EndpointOk o
      → IfSome (λ (e : Endpoint A). e.port ≡ default_https_port) o
      → IfSome (AuthorityOk raw) (with_port net o false)
  implicit-Ok raw none k q = tt
  implicit-Ok raw (some e) k q = (k, λ c. (q, refl))

  port-endpoint_for_host :
      (raw port : Bytes)
      → IfSome (λ (e : Endpoint A). e.port ≡ port) (endpoint_for_host net raw port)
  port-endpoint_for_host raw port =
      endpoint_for_host-IfSome (λ e. e.port ≡ port) raw port (λ _ _. refl) (λ _. refl)

  pub parse_rule_authority-Ok :
      (raw : Bytes) → IfSome (AuthorityOk raw) (parse_rule_authority net raw)
  unfolding parse_rule_authority
  parse_rule_authority-Ok raw =
      if_elim (IfSome (AuthorityOk raw)) (has_prefix raw (b'[' ∷ []) || count_colons raw == 1)
        (λ _. explicit-Ok raw (split_host_port raw) (split-colon raw))
        (λ _.
          implicit-Ok raw (endpoint_for_host net raw default_https_port)
            (endpoint_for_host-Ok raw default_https_port (443, omega arith, omega arith, refl))
            (port-endpoint_for_host raw default_https_port))
