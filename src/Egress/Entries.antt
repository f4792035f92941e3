-- ===== src/Egress/Entries.antt =====
-- What an allowlist of internal/egress/egress.go lets out, from its entries.
use mathlib.Core.Path.{subst, sym}
use aegis_llm.Prelude.{
  ==_iff, ◌≡◌, refl, ap, ◌∙◌, ◌⊎◌, inl, inr, ◌++◌, Bool, true, false, not, ◌&&◌, ◌||◌, Option, none,
  some, List, [], ◌∷◌, Memᴰ, arith, Bytes, drop, is_empty, is_some, has_prefix, if◌then◌else◌,
  if_elim,
}
use aegis_llm.Egress.Authority.{
  Addresses, Endpoint, default_https_port, has_byte, is_malformed, parse_rule_authority,
  parse_authority,
}
use aegis_llm.Egress.Rules.{
  Rule, parse_rule, rule_of, parse_rules, parse_allowlist, host_allowed, allowed_by,
  wildcard_prefix,
}
use aegis_llm.Egress.Parsed.{IfSome, IsEndpoint, EndpointOk, AuthorityOk, parse_rule_authority-Ok}
use aegis_llm.Egress.Source.{IsWrittenFor, parse_rule_authority-IsWrittenFor}
use aegis_llm.Egress.Allowed.{Authorizes, endpoint_allowed_iff}

module _ {A : Type 0} (net : Addresses A) where
  -- A rule that came of an entry: it is for the host and the port that are written in the entry, behind
  -- `*.` if it is a wildcard rule.
  pub record IsRule (raw : Bytes) (rule : Rule A) : Type 0 where
    pub text : Bytes
    pub entry :
        ((rule.wildcard ≡ true) × (raw ≡ wildcard_prefix ++ text))
        ⊎ ((rule.wildcard ≡ false) × (raw ≡ text))
    pub written : IsWrittenFor net text rule.host rule.port rule.ip
    pub endpoint : IsEndpoint net rule.host rule.port rule.ip
    pub wildcard : rule.wildcard ≡ true → (rule.port ≡ default_https_port) × (rule.ip ≡ none)
    pub host_only : has_byte b':' raw ≡ false → (rule.port ≡ default_https_port) × (rule.ip ≡ none)

  wildcard_prefix-split :
      (raw : Bytes) → has_prefix raw wildcard_prefix ≡ true → raw ≡ wildcard_prefix ++ drop 2 raw
  unfolding has_prefix
  wildcard_prefix-split [] h = absurd cc
  wildcard_prefix-split (a ∷ []) h = absurd (ground (arith, h))
  wildcard_prefix-split (a ∷ b ∷ s) h =
      let star : a ≡ b'*' = (==_iff a b'*').0 (ground (arith, h)) in
      let dot : b ≡ b'.' = (==_iff b b'.').0 (ground (arith, h)) in
      ap (λ x. x ∷ b ∷ s) star ∙ ap (λ x. b'*' ∷ x ∷ s) dot

  rule_of-IsRule :
      (raw text : Bytes) (wild : Bool) (o : Option (Endpoint A × Bool))
      → IfSome (AuthorityOk net text) o
      → IfSome (λ (r : Endpoint A × Bool). IsWrittenFor net text r.0.host r.0.port r.0.ip) o
      → ((wild ≡ true) × (raw ≡ wildcard_prefix ++ text)) ⊎ ((wild ≡ false) × (raw ≡ text))
      → (wild ≡ true → has_byte b':' text ≡ false)
      → (has_byte b':' raw ≡ false → has_byte b':' text ≡ false)
      → IfSome (IsRule raw) (rule_of net wild o)
  rule_of-IsRule raw text wild none k z y w h = tt
  rule_of-IsRule raw text wild (some (e, explicit)) k z y w h =
      if_elim (IfSome (IsRule raw)) ((wild && is_some e.ip) || (is_some e.ip && not explicit))
        {x = none} {y = some (record { host = e.host; port = e.port; wildcard = wild; ip = e.ip })}
        (λ _. tt)
        (λ g.
          let only : has_byte b':' text ≡ false → (e.port ≡ default_https_port) × (e.ip ≡ none) =
            λ c. let (port, implicit) = k.1 c in (port, no_ip e.ip wild explicit g implicit) in
          record {
            text = text;
            entry = y;
            written = z;
            endpoint = k.0;
            wildcard = λ c. only (w c);
            host_only = λ c. only (h c);
          })
    where
      no_ip :
          (ip : Option A) (x y : Bool)
          → ((x && is_some ip) || (is_some ip && not y)) ≡ false
          → y ≡ false
          → ip ≡ none
      no_ip none x y g q = refl
      no_ip (some a) x y g q = absurd (ground (arith, g, q))

  -- What `parseRule` makes of an entry: a rule for the host and the port that are written in it, behind `*.`
  -- if it is a wildcard rule; its port is a number from 1 to 65535 in plain digits, and its host a valid
  -- name or the print of an address. A wildcard rule, and the rule of an entry without a colon,
  -- is one for a name at port 443.
  pub parse_rule-IsRule : (raw : Bytes) → IfSome (IsRule raw) (parse_rule net raw)
  unfolding parse_rule
  parse_rule-IsRule raw =
      if_elim (IfSome (IsRule raw)) (is_empty raw || is_malformed raw) (λ _. tt)
        (λ _.
          if_elim (IfSome (IsRule raw)) (has_prefix raw wildcard_prefix)
            (λ starred.
              if_elim (IfSome (IsRule raw)) (has_byte b':' (drop 2 raw)) (λ _. tt)
                (λ c.
                  rule_of-IsRule raw (drop 2 raw) true (parse_rule_authority net (drop 2 raw))
                    (parse_rule_authority-Ok net (drop 2 raw))
                    (parse_rule_authority-IsWrittenFor net (drop 2 raw))
                    (inl (refl, wildcard_prefix-split raw starred)) (λ _. c) (λ _. c)))
            (λ _.
              rule_of-IsRule raw raw false (parse_rule_authority net raw)
                (parse_rule_authority-Ok net raw) (parse_rule_authority-IsWrittenFor net raw)
                (inr (refl, refl)) (λ e. absurd cc) (λ c. c)))

  parse_rules-IsRule :
      (entries : List Bytes)
      → IfSome
          (λ (rules : List (Rule A)).
            (rule : Rule A) → Memᴰ rule rules → (raw : Bytes) × Memᴰ raw entries × IsRule raw rule)
          (parse_rules net entries)
  unfolding parse_rules
  parse_rules-IsRule [] = λ rule m. elim m [ ]
  parse_rules-IsRule (raw ∷ entries) =
      both (parse_rule net raw) (parse_rule-IsRule raw) (parse_rules net entries)
        (parse_rules-IsRule entries)
    where
      Sourced : List Bytes → List (Rule A) → Type 0
      Sourced texts rules =
          (rule : Rule A) → Memᴰ rule rules → (text : Bytes) × Memᴰ text texts × IsRule text rule

      pick :
          (r rule : Rule A) (rs : List (Rule A))
          → IsRule raw r
          → Sourced entries rs
          → Memᴰ rule (r ∷ rs)
          → (text : Bytes) × Memᴰ text (raw ∷ entries) × IsRule text rule
      pick r rule rs k ks (Memᴰ.head e) = (raw, Memᴰ.head refl, subst (IsRule raw) (sym e) k)
      pick r rule rs k ks (Memᴰ.tail m) = let (text, n, q) = ks rule m in (text, Memᴰ.tail n, q)

      both :
          (o : Option (Rule A))
          → IfSome (IsRule raw) o
          → (os : Option (List (Rule A))) → IfSome (Sourced entries) os
          → IfSome (Sourced (raw ∷ entries)) (elim o [
            | none ↦ none
            | some rule ↦ elim os [ none ↦ none | some rules ↦ some (rule ∷ rules) ]
          ])
      both none k os ks = tt
      both (some r) k none ks = tt
      both (some r) k (some rs) ks = λ rule m. pick r rule rs k ks m

  parse_allowlist-IsRule :
      (entries : List Bytes)
      → IfSome
          (λ (rules : List (Rule A)).
            (rule : Rule A) → Memᴰ rule rules → (raw : Bytes) × Memᴰ raw entries × IsRule raw rule)
          (parse_allowlist net entries)
  unfolding parse_allowlist
  parse_allowlist-IsRule [] = tt
  parse_allowlist-IsRule (raw ∷ entries) = parse_rules-IsRule (raw ∷ entries)

  parse_authority-Ok :
      (raw : Bytes) (implicit : Bool) → EndpointOk net (parse_authority net raw implicit)
  unfolding parse_authority
  parse_authority-Ok raw implicit =
      if_elim (EndpointOk net) (is_empty raw || is_malformed raw) (λ _. tt)
        (λ _. by_parts (parse_rule_authority net raw) (parse_rule_authority-Ok net raw))
    where
      by_parts :
          (o : Option (Endpoint A × Bool))
          → IfSome (AuthorityOk net raw) o
          → EndpointOk net (elim o [
            | none ↦ none
            | some (e, explicit) ↦ if not explicit && not implicit then none else some e
          ])
      by_parts none k = tt
      by_parts (some (e, explicit)) k =
          if_elim (EndpointOk net) (not explicit && not implicit) {x = none} {y = some e} (λ _. tt)
            (λ _. k.0)

  parse_authority-IsWrittenFor :
      (raw : Bytes) (implicit : Bool)
      → IfSome
          (λ (e : Endpoint A). IsWrittenFor net raw e.host e.port e.ip)
          (parse_authority net raw implicit)
  unfolding parse_authority
  parse_authority-IsWrittenFor raw implicit =
      if_elim (IfSome (λ (e : Endpoint A). IsWrittenFor net raw e.host e.port e.ip))
        (is_empty raw || is_malformed raw) (λ _. tt)
        (λ _. by_parts (parse_rule_authority net raw) (parse_rule_authority-IsWrittenFor net raw))
    where
      by_parts :
          (o : Option (Endpoint A × Bool))
          → IfSome (λ (r : Endpoint A × Bool). IsWrittenFor net raw r.0.host r.0.port r.0.ip) o
          → IfSome
              (λ (e : Endpoint A). IsWrittenFor net raw e.host e.port e.ip)
              (elim o [
                | none ↦ none
                | some (e, explicit) ↦ if not explicit && not implicit then none else some e
              ])
      by_parts none k = tt
      by_parts (some (e, explicit)) k =
          if_elim (IfSome (λ (e : Endpoint A). IsWrittenFor net raw e.host e.port e.ip))
            (not explicit && not implicit) {x = none} {y = some e} (λ _. tt) (λ _. k)

  -- `HostAllowed` lets out only what the allowlist has an entry for. The authority is written for a valid
  -- endpoint, as `host`, `host:port` or `[host]:port`, and some entry is written the same way, possibly
  -- behind `*.`, for a rule with the port of the endpoint and with its name or its address, or, behind
  -- `*.`, with a name above its own. An entry without a colon is one for a name at port 443 only.
  pub host_allowed-IsRule :
      (same_ip : A → A → Bool) (authority : Bytes) (domains : List Bytes)
      → host_allowed same_ip net authority domains ≡ true
      → (e : Endpoint A) × IsWrittenFor net authority e.host e.port e.ip
        × IsEndpoint net e.host e.port e.ip
        × ((raw : Bytes) × Memᴰ raw domains
            × ((rule : Rule A) × IsRule raw rule
                × (e.port ≡ rule.port)
                × Authorizes same_ip e rule))
  unfolding host_allowed
  host_allowed-IsRule same_ip authority domains h =
      by_parts (parse_authority net authority true) (parse_authority-IsWrittenFor authority true)
        (parse_authority-Ok authority true) (parse_allowlist net domains)
        (parse_allowlist-IsRule domains) h
    where
      by_parts :
          (oe : Option (Endpoint A))
          → IfSome (λ (e : Endpoint A). IsWrittenFor net authority e.host e.port e.ip) oe
          → EndpointOk net oe
          → (o : Option (List (Rule A)))
          → IfSome
              (λ (rules : List (Rule A)).
                (rule : Rule A)
                → Memᴰ rule rules
                → (raw : Bytes) × Memᴰ raw domains × IsRule raw rule)
              o
          → allowed_by same_ip oe o ≡ true
          → (e : Endpoint A) × IsWrittenFor net authority e.host e.port e.ip
            × IsEndpoint net e.host e.port e.ip
            × ((raw : Bytes) × Memᴰ raw domains
                × ((rule : Rule A) × IsRule raw rule
                    × (e.port ≡ rule.port)
                    × Authorizes same_ip e rule))
      by_parts oe p k none ks q = absurd (ground (arith, q))
      by_parts none p k (some rules) ks q = absurd (ground (arith, q))
      by_parts (some e) p k (some rules) ks q =
          let (rule, m, port, a) = (endpoint_allowed_iff same_ip e rules).0 q in
          let (raw, n, r) = ks rule m in (e, p, k, (raw, n, (rule, r, port, a)))
