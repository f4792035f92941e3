-- ===== src/Egress/Source.antt =====
-- Where the endpoint of an authority in internal/egress/egress.go comes from: which part of the text is its
-- host, which its port, and what is made of the two.
use mathlib.Core.Path.{subst}
use aegis_llm.Prelude.{
  ℕ, ◌==◌, ==_iff, ◌≡◌, refl, sym, ap, ◌∙◌, ◌⊎◌, inl, inr, Bool, true, false, not, ◌||◌, Option,
  none, some, [], ◌∷◌, ◌++◌, Bytes, is_empty, has_prefix, if_elim,
}
use aegis_llm.Egress.Port.{normalize_port}
use aegis_llm.Egress.Authority.{
  Addresses, Endpoint, default_https_port, has_byte, parse_rule_authority, endpoint_for_host, cut,
  bracketed_port, plain_port, explicit_authority, with_port, split_host_port, literal_endpoint,
  named_endpoint, validate_dns_name, to_lower, trim_dot, count_colons,
}
use aegis_llm.Egress.Parsed.{IfSome}

-- How a text is a host and a port: `host`, with the port 443, `host:port` or `[host]:port`, where the
-- port is brought to its normal form.
pub data Splits (raw : Bytes) : Bytes → Bytes → Type 0 where
  bare : Splits raw raw default_https_port
  plain :
      (host port normal : Bytes)
      → raw ≡ host ++ b':' ∷ port
      → normalize_port port ≡ some normal
      → Splits raw host normal
  bracketed :
      (host port normal : Bytes)
      → raw ≡ b'[' ∷ (host ++ b']' ∷ b':' ∷ port)
      → normalize_port port ≡ some normal
      → Splits raw host normal

-- What a text `host` or `host.` stands for: the address that it is the literal of, printed in its
-- normal form, or else the name in lower case.
pub data StandsFor {A : Type 0} (net : Addresses A) (text : Bytes) : Bytes → Option A → Type 0 where
  named : net.parse (trim_dot text) ≡ none → StandsFor net text (to_lower (trim_dot text)) none
  literal :
      (a : A)
      → net.parse (trim_dot text) ≡ some a
      → StandsFor net text (net.print (net.unmap a)) (some (net.unmap a))

-- An endpoint is the one that a text is written for.
pub record IsWrittenFor {A : Type 0} (net : Addresses A) (raw host port : Bytes) (ip : Option A)
    : Type 0 where
  pub text : Bytes
  pub splits : Splits raw text port
  pub stands_for : StandsFor net text host ip

cut-parts : (c : ℕ) (s : Bytes) → IfSome (λ (p : Bytes × Bytes). s ≡ p.0 ++ c ∷ p.1) (cut c s)
unfolding cut
cut-parts c [] = tt
cut-parts c (d ∷ s) =
    if_elim (IfSome (λ (p : Bytes × Bytes). d ∷ s ≡ p.0 ++ c ∷ p.1)) (d == c)
      (λ e. ap (λ x. x ∷ s) ((==_iff d c).0 e)) (λ _. later (cut c s) (cut-parts c s))
  where
    later :
        (o : Option (Bytes × Bytes))
        → IfSome (λ (p : Bytes × Bytes). s ≡ p.0 ++ c ∷ p.1) o
        → IfSome
            (λ (p : Bytes × Bytes). d ∷ s ≡ p.0 ++ c ∷ p.1)
            (elim o [ none ↦ none | some (before, after) ↦ some (d ∷ before, after) ])
    later none h = tt
    later (some (before, after)) h = ap (λ t. d ∷ t) h

-- The text is `host:port` or `[host]:port`.
abbrev Joins : Bytes → Bytes × Bytes → Type 0
Joins raw p = (raw ≡ p.0 ++ b':' ∷ p.1) ⊎ (raw ≡ b'[' ∷ (p.0 ++ b']' ∷ b':' ∷ p.1))

is_colon : (b x y z t : Bool) → (not b || x || y || z || t) ≡ false → b ≡ true
is_colon true x y z t h = refl
is_colon false x y z t h = absurd cc

bracketed_port-parts :
    (host rest : Bytes)
    → IfSome (λ (p : Bytes × Bytes). (p.0 ≡ host) × (rest ≡ b':' ∷ p.1)) (bracketed_port host rest)
bracketed_port-parts host [] = tt
bracketed_port-parts host (c ∷ port) =
    if_elim (IfSome (λ (p : Bytes × Bytes). (p.0 ≡ host) × (c ∷ port ≡ b':' ∷ p.1)))
      (not (c == b':')
        || has_byte b':' port
        || has_byte b'[' host
        || has_byte b'[' port
        || has_byte b']' port)
      {x = none} {y = some (host, port)} (λ _. tt)
      (λ e. (
        refl,
        ap (λ x. x ∷ port)
            ((==_iff c b':').0 (
              is_colon (c == b':') (has_byte b':' port) (has_byte b'[' host) (has_byte b'[' port)
                (has_byte b']' port) e)),
      ))

split_host_port-Joins : (raw : Bytes) → IfSome (Joins raw) (split_host_port raw)
unfolding split_host_port
split_host_port-Joins [] = tt
split_host_port-Joins (c ∷ s) =
    if_elim (IfSome (Joins (c ∷ s))) (c == b'[')
      (λ e. bracket ((==_iff c b'[').0 e) (cut b']' s) (cut-parts b']' s))
      (λ _. unbracketed (cut b':' (c ∷ s)) (cut-parts b':' (c ∷ s)))
  where
    bracket :
        c ≡ b'['
        → (o : Option (Bytes × Bytes)) → IfSome (λ (p : Bytes × Bytes). s ≡ p.0 ++ b']' ∷ p.1) o
        → IfSome
            (Joins (c ∷ s))
            (elim o [ none ↦ none | some (host, rest) ↦ bracketed_port host rest ])
    bracket first none h = tt
    bracket first (some (host, rest)) h =
        inside (bracketed_port host rest) (bracketed_port-parts host rest)
      where
        inside :
            (o : Option (Bytes × Bytes))
            → IfSome (λ (p : Bytes × Bytes). (p.0 ≡ host) × (rest ≡ b':' ∷ p.1)) o
            → IfSome (Joins (c ∷ s)) o
        inside none q = tt
        inside (some (name, port)) q = inr (
            ap (λ x. x ∷ s) first
            ∙ ap (λ t. b'[' ∷ t)
                (h ∙ ap (λ r. host ++ b']' ∷ r) q.1 ∙ ap (λ n. n ++ b']' ∷ b':' ∷ port) (sym q.0)))

    unbracketed :
        (o : Option (Bytes × Bytes))
        → IfSome (λ (p : Bytes × Bytes). c ∷ s ≡ p.0 ++ b':' ∷ p.1) o
        → IfSome (Joins (c ∷ s)) (elim o [ none ↦ none | some (host, port) ↦ plain_port host port ])
    unbracketed none h = tt
    unbracketed (some (host, port)) h =
        if_elim (IfSome (Joins (c ∷ s)))
          (has_byte b':' port
            || has_byte b'[' host
            || has_byte b'[' port
            || has_byte b']' host
            || has_byte b']' port)
          {x = none} {y = some (host, port)} (λ _. tt) (λ _. inl h)

module _ {A : Type 0} (net : Addresses A) where
  -- The endpoint of a host and a port.
  abbrev IsFor : Bytes → Bytes → Endpoint A → Type 0
  IsFor text port e = (e.port ≡ port) × StandsFor net text e.host e.ip

  endpoint_for_host-IsFor :
      (text port : Bytes) → IfSome (IsFor text port) (endpoint_for_host net text port)
  unfolding endpoint_for_host
  endpoint_for_host-IsFor text port =
      if_elim (IfSome (IsFor text port)) (is_empty (trim_dot text)) (λ _. tt)
        (λ _. by_address (net.parse (trim_dot text)) refl)
    where
      by_address :
          (o : Option A)
          → net.parse (trim_dot text) ≡ o
          → IfSome (IsFor text port) (elim o [
            | some addr ↦ literal_endpoint net port addr
            | none ↦ named_endpoint net (trim_dot text) port
          ])
      by_address none q =
          let host = trim_dot text in
          if_elim (IfSome (IsFor text port))
            (has_byte b':' host || not (validate_dns_name (to_lower host))) {x = none}
            {y = some (record { host = to_lower host; port = port; ip = none })} (λ _. tt)
            (λ _. (refl, named q))
      by_address (some addr) q =
          if_elim (IfSome (IsFor text port)) (net.has_zone addr) {x = none}
            {y = some (record {
              host = net.print (net.unmap addr);
              port = port;
              ip = some (net.unmap addr);
            })}
            (λ _. tt) (λ _. (refl, literal addr q))

  abbrev WrittenFor : Bytes → Endpoint A × Bool → Type 0
  WrittenFor raw r = IsWrittenFor net raw r.0.host r.0.port r.0.ip

  with_port-WrittenFor :
      (raw text port : Bytes) (o : Option (Endpoint A)) (explicit : Bool)
      → Splits raw text port
      → IfSome (IsFor text port) o
      → IfSome (WrittenFor raw) (with_port net o explicit)
  with_port-WrittenFor raw text port none explicit s h = tt
  with_port-WrittenFor raw text port (some e) explicit s (q, h) = record {
    text = text;
    splits = subst (Splits raw text) (sym q) s;
    stands_for = h;
  }

  explicit-WrittenFor :
      (raw : Bytes) (o : Option (Bytes × Bytes))
      → IfSome (Joins raw) o
      → IfSome (WrittenFor raw) (explicit_authority net o)
  explicit-WrittenFor raw none h = tt
  explicit-WrittenFor raw (some (host, port)) h = by_port (normalize_port port) refl
    where
      split :
          (normal : Bytes)
          → normalize_port port ≡ some normal
          → Joins raw (host, port)
          → Splits raw host normal
      split normal q (inl e) = plain host port normal e q
      split normal q (inr e) = bracketed host port normal e q

      by_port :
          (o : Option Bytes)
          → normalize_port port ≡ o
          → IfSome
              (WrittenFor raw)
              (elim o [ none ↦ none | some q ↦ with_port net (endpoint_for_host net host q) true ])
      by_port none q = tt
      by_port (some normal) q =
          with_port-WrittenFor raw host normal (endpoint_for_host net host normal) true
            (split normal q h) (endpoint_for_host-IsFor host normal)

  -- The endpoint of an authority is the one that its text is written for.
  pub parse_rule_authority-IsWrittenFor :
      (raw : Bytes)
      → IfSome
          (λ (r : Endpoint A × Bool). IsWrittenFor net raw r.0.host r.0.port r.0.ip)
          (parse_rule_authority net raw)
  unfolding parse_rule_authority
  parse_rule_authority-IsWrittenFor raw =
      if_elim (IfSome (WrittenFor raw)) (has_prefix raw (b'[' ∷ []) || count_colons raw == 1)
        (λ _. explicit-WrittenFor raw (split_host_port raw) (split_host_port-Joins raw))
        (λ _.
          with_port-WrittenFor raw raw default_https_port
            (endpoint_for_host net raw default_https_port) false bare
            (endpoint_for_host-IsFor raw default_https_port))
