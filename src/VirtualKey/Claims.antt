-- ===== src/VirtualKey/Claims.antt =====
-- `Claims`, `Issue` and `validateClaims` of internal/virtualkey/virtualkey.go. `F` is the type of
-- dollar amounts with its test for negative ones. Their text, signed, is in VirtualKey/Token.
use aegis_llm.Prelude.{
  ℕ, ◌+◌, ◌*◌, Bool, not, ◌&&◌, ◌||◌, ltb, leb, ℤ, pos, pos_part, neg_part, leb_ℤ, ltb_ℤ, add64,
  sub64, half64, Option, none, some, List, [], ◌∷◌, ◌++◌, Bytes, codes, length, any, is_empty,
  is_blank, trim_space, str_eq, Result, ok, err, if◌then◌else◌,
}
use aegis_llm.Revocation.Snapshot.{max_identifier_bytes}
use aegis_llm.Revocation.Writer.{max_token_ttl, second, unix}

pub record Claims (F : Type 0) : Type 0 where
  pub key_id : Bytes
  pub subject : Bytes
  pub models : List Bytes
  pub max_rpm : ℤ
  pub max_tpm : ℤ
  pub max_concurrency : ℤ
  pub budget_usd : F
  pub key_source : Bytes
  pub byok_key_id : Bytes
  pub pool_group : Bytes
  pub issued_at : ℤ
  pub expires_at : ℤ
  pub issuer : Bytes

-- Durations are nanoseconds, `now` is in nanoseconds since 1970.
pub record IssueOptions (F : Type 0) : Type 0 where
  pub key_id : Bytes
  pub subject : Bytes
  pub models : List Bytes
  pub max_rpm : ℤ
  pub max_tpm : ℤ
  pub max_concurrency : ℤ
  pub budget_usd : F
  pub pool_group : Bytes
  pub ttl : ℤ
  pub max_ttl : ℤ
  pub issuer : Bytes
  pub now : ℕ

pub data KeyError : Type 0 where
  no_subject no_issuer bad_models negative_limit bad_max_ttl bad_ttl no_randomness long_key_id :
      KeyError
  no_key_id no_models expired from_future bad_issued_at bad_expiry too_long_lived wrong_issuer
        bad_key_source :
      KeyError

abbrev pub pool : Bytes
pool = codes "pool"

-- The loop of `normalizeModels`, with the models seen so far.
unfoldable pub distinct_models : List Bytes → List Bytes → Option (List Bytes)
unfolding trim_space str_eq
distinct_models seen [] = some []
distinct_models seen (m ∷ ms) =
    let model = trim_space m in
    let known = distinct_models seen ms in
    let new = distinct_models (model ∷ seen) ms in
    if is_empty model
    then none
    else (if any (λ s. str_eq s model) seen
        then known
        else elim new [ none ↦ none | some rest ↦ some (model ∷ rest) ])

-- `normalizeModels`
unfoldable pub normalize_models : List Bytes → Option (List Bytes)
unfolding distinct_models
normalize_models [] = none
normalize_models (m ∷ ms) = distinct_models [] (m ∷ ms)

-- The seconds of a `time.Time`, counted from the year 1, wrap around.
abbrev pub internal : ℤ → ℤ
internal t = add64 t (pos 62135596800)

-- `time.Unix(b, 0).Sub(time.Unix(a, 0)) > limit`: the difference saturates.
unfoldable pub lasts_longer : ℤ → ℤ → ℤ → Bool
unfolding add64 sub64
lasts_longer a b limit =
    let d = sub64 (internal b) (internal a) in
    if ltb (pos_part d * second) half64 && leb (neg_part d * second) half64
    then ltb (pos_part limit + neg_part d * second) (pos_part d * second + neg_part limit)
    else not (ltb_ℤ (internal b) (internal a))

module _ {F : Type 0} (is_negative : F → Bool) where
  abbrev pub has_negative : ℤ → ℤ → ℤ → F → Bool
  has_negative rpm concurrency tpm budget =
      ltb_ℤ rpm (pos 0) || ltb_ℤ concurrency (pos 0) || ltb_ℤ tpm (pos 0) || is_negative budget

  -- `if opts.TTL == 0 { opts.TTL = opts.MaxTTL }`
  abbrev pub effective_ttl : IssueOptions F → ℤ
  effective_ttl o = if leb_ℤ o.ttl (pos 0) && leb_ℤ (pos 0) o.ttl then o.max_ttl else o.ttl

  -- The key id: the one asked for, or "vk_" and 24 random characters.
  abbrev pub key_id_of : Option Bytes → Bytes → Option Bytes
  key_id_of random asked =
      if is_blank asked
      then elim random [ none ↦ none | some r ↦ some (codes "vk_" ++ r) ]
      else some (trim_space asked)

  abbrev pub claims_of : IssueOptions F → List Bytes → Bytes → Claims F
  claims_of o models key_id = record {
    key_id = key_id;
    subject = trim_space o.subject;
    models = models;
    max_rpm = o.max_rpm;
    max_tpm = o.max_tpm;
    max_concurrency = o.max_concurrency;
    budget_usd = o.budget_usd;
    key_source = pool;
    byok_key_id = [];
    pool_group = trim_space o.pool_group;
    issued_at = unix o.now;
    expires_at = unix (o.now + pos_part (effective_ttl o));
    issuer = trim_space o.issuer;
  }

  -- `Issue` after the checks of its options.
  abbrev pub with_key_id : IssueOptions F → List Bytes → Option Bytes → Result KeyError (Claims F)
  with_key_id o models none = err no_randomness
  with_key_id o models (some key_id) =
      if ltb max_identifier_bytes (length key_id)
      then err long_key_id
      else ok (claims_of o models key_id)

  abbrev pub with_models :
      Option Bytes → IssueOptions F → Option (List Bytes) → Result KeyError (Claims F)
  with_models random o none = err bad_models
  with_models random o (some models) =
      if has_negative o.max_rpm o.max_concurrency o.max_tpm o.budget_usd
      then err negative_limit
      else (if leb_ℤ o.max_ttl (pos 0) || ltb_ℤ (pos max_token_ttl) o.max_ttl
          then err bad_max_ttl
          else (if ltb_ℤ (effective_ttl o) (pos second) || ltb_ℤ o.max_ttl (effective_ttl o)
              then err bad_ttl
              else with_key_id o models (key_id_of random o.key_id)))

  -- `Issue`, up to the signing of the claims; `random` is what `generateKeyID` draws.
  unfoldable pub issue : Option Bytes → IssueOptions F → Result KeyError (Claims F)
  unfolding normalize_models trim_space
  issue random o =
      if is_blank o.subject
      then err no_subject
      else (if is_blank o.issuer
          then err no_issuer
          else with_models random o (normalize_models o.models))

  -- `validateClaims`; `now` is in seconds.
  unfoldable pub validate_claims : Claims F → Bytes → ℤ → ℤ → Option KeyError
  unfolding str_eq lasts_longer add64
  validate_claims c expected max_ttl now =
      if is_empty c.key_id
      then some no_key_id
      else if ltb max_identifier_bytes (length c.key_id)
      then some long_key_id
      else if leb (length c.models) 0
      then some no_models
      else if leb_ℤ c.expires_at now
      then some expired
      else if ltb_ℤ (add64 now (pos 60)) c.issued_at
      then some from_future
      else if ltb_ℤ (pos 0) max_ttl && leb_ℤ c.issued_at (pos 0)
      then some bad_issued_at
      else if ltb_ℤ (pos 0) max_ttl && leb_ℤ c.expires_at c.issued_at
      then some bad_expiry
      else if ltb_ℤ (pos 0) max_ttl && lasts_longer c.issued_at c.expires_at max_ttl
      then some too_long_lived
      else if not (is_empty expected) && not (str_eq c.issuer expected)
      then some wrong_issuer
      else if not (str_eq c.key_source pool) || not (is_empty c.byok_key_id)
      then some bad_key_source
      else if has_negative c.max_rpm c.max_concurrency c.max_tpm c.budget_usd
      then some negative_limit
      else none
