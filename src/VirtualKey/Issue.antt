-- ===== src/VirtualKey/Issue.antt =====
-- The claims that `Issue` of internal/virtualkey/virtualkey.go makes pass `validateClaims`.
use mathlib.Core.Path.{subst}
use aegis_llm.Prelude.{
  ℕ, ◌+◌, ◌*◌, ◌/◌, ◌≤◌, ◌<◌, ◌≡◌, refl, ap, ◌∙◌, Bool, true, false, not, ◌&&◌, ltb, leb, ℤ, pos,
  pos_part, leb_ℤ, ltb_ℤ, ◌≤ℤ◌, ◌<ℤ◌, add64_pos, sub64_pos, add64, half64, Option, none, some, List,
  [], ◌∷◌, arith, Bytes, length, is_empty, trim_space, str_eq, str_eq_refl, ok, Option-cases, inl,
  inr,
}
use aegis_llm.Revocation.Snapshot.{max_identifier_bytes}
use aegis_llm.Revocation.Writer.{max_token_ttl, second, unix}
use aegis_llm.VirtualKey.Claims.{
  Claims, IssueOptions, issue, validate_claims, lasts_longer, normalize_models, distinct_models,
  has_negative, effective_ttl, key_id_of, claims_of, pool,
}

-- The models of a key are never an empty list.
normalize_models-some : (ms out : List Bytes) → normalize_models ms ≡ some out → 0 < length out
unfolding normalize_models distinct_models
normalize_models-some [] out h = cc
normalize_models-some (m ∷ ms) out h = ground (arith, h)

-- Between times after 1970 that stay far from the end of the 64 bits, the difference is exact.
lasts_longer-exact :
    (a b limit : ℕ)
    → a ≤ b
    → b ≤ a + limit
    → b < 9223372037
    → lasts_longer (pos a) (pos b) (pos (limit * second)) ≡ false
unfolding lasts_longer
lasts_longer-exact a b limit h k small =
    let ia = add64_pos a 62135596800 (omega arith) in
    let ib = add64_pos b 62135596800 (omega arith) in
    let d = sub64_pos (b + 62135596800) (a + 62135596800) (omega arith) (omega arith) in
    rw (ia, ib, d) (ground arith)

leb_ℤ-lt : (a b : ℕ) → a < b → leb_ℤ (pos b) (pos a) ≡ false
leb_ℤ-lt a b h = ground arith

and_no : (a b : Bool) → b ≡ false → (a && b) ≡ false
and_no a b h = ground (arith, h)

module _ {F : Type 0} (is_negative : F → Bool) where
  -- What `Issue` has checked when it gives claims.
  record IsIssued (o : IssueOptions F) (c : Claims F) : Type 0 where
    models : List Bytes
    key_id : Bytes
    made : c ≡ claims_of is_negative o models key_id
    some_model : 0 < length models
    some_key_id : is_empty key_id ≡ false
    short : length key_id ≤ max_identifier_bytes
    limits : has_negative is_negative o.max_rpm o.max_concurrency o.max_tpm o.budget_usd ≡ false
    long : pos second ≤ℤ effective_ttl is_negative o
    within : effective_ttl is_negative o ≤ℤ o.max_ttl
    bounded : o.max_ttl ≤ℤ pos max_token_ttl

  issue-IsIssued :
      (random : Option Bytes) (o : IssueOptions F) (c : Claims F)
      → issue is_negative random o ≡ ok c
      → IsIssued o c
  unfolding issue
  issue-IsIssued random o c h = elim (Option-cases (normalize_models o.models)) [
    | inl e ↦ ground (arith, h, e)
    | inr (ms, e) ↦ elim (Option-cases (key_id_of is_negative random o.key_id)) [
      | inl e2 ↦ ground (arith, h, e, e2)
      | inr (k, e2) ↦ record {
        models = ms;
        key_id = k;
        made = ground (arith, h, e, e2);
        some_model = normalize_models-some o.models ms e;
        some_key_id = ground (arith, e2);
        short = ground (arith, h, e, e2);
        limits = ground (arith, h, e, e2);
        long = ground (arith, h, e, e2);
        within = ground (arith, h, e, e2);
        bounded = ground (arith, h, e, e2);
      }
    ]
  ]

  made-lasts :
      (o : IssueOptions F) (c : Claims F) (lifetime : ℕ)
      → o.max_ttl ≡ pos (lifetime * second)
      → o.now + lifetime * second < half64
      → IsIssued o c
      → (lasts_longer (unix o.now) (unix (o.now + pos_part (effective_ttl is_negative o))) o.max_ttl
          ≡ false)
        × (o.now / second < (o.now + pos_part (effective_ttl is_negative o)) / second)
        × ((o.now + pos_part (effective_ttl is_negative o)) / second < 9223372037)
  made-lasts o c lifetime whole small i =
      let t = pos_part (effective_ttl is_negative o) in
      let low : second ≤ t = ground (arith, i.long) in
      let high : t ≤ lifetime * second = ground (arith, i.within, whole) in
      let exact =
        lasts_longer-exact (o.now / second) ((o.now + t) / second) lifetime (omega (arith, low))
          (omega (arith, high)) (omega (arith, high, small)) in
      (
        ap (λ z. lasts_longer (unix o.now) (unix (o.now + t)) z) whole ∙ exact,
        omega (arith, low),
        omega (arith, high, small),
      )

  validate-none :
      (c : Claims F) (expected : Bytes) (max_ttl now : ℤ)
      → is_empty c.key_id ≡ false
      → ltb max_identifier_bytes (length c.key_id) ≡ false
      → leb (length c.models) 0 ≡ false
      → leb_ℤ c.expires_at now ≡ false
      → ltb_ℤ (add64 now (pos 60)) c.issued_at ≡ false
      → leb_ℤ c.issued_at (pos 0) ≡ false
      → leb_ℤ c.expires_at c.issued_at ≡ false
      → lasts_longer c.issued_at c.expires_at max_ttl ≡ false
      → str_eq c.issuer expected ≡ true
      → str_eq c.key_source pool ≡ true
      → is_empty c.byok_key_id ≡ true
      → has_negative is_negative c.max_rpm c.max_concurrency c.max_tpm c.budget_usd ≡ false
      → validate_claims is_negative c expected max_ttl now ≡ none
  unfolding validate_claims
  validate-none c expected max_ttl now a b d e f g h j k l m n =
      let g2 = and_no (ltb_ℤ (pos 0) max_ttl) (leb_ℤ c.issued_at (pos 0)) g in
      let h2 = and_no (ltb_ℤ (pos 0) max_ttl) (leb_ℤ c.expires_at c.issued_at) h in
      let j2 = and_no (ltb_ℤ (pos 0) max_ttl) (lasts_longer c.issued_at c.expires_at max_ttl) j in
      let k2 = and_no (not (is_empty expected)) (not (str_eq c.issuer expected)) (ap not k) in
      rw (a, b, d, e, f, g2, h2, j2, k2, l, m, n) refl

  -- The claims of a key that `Issue` gives pass `validateClaims` from a minute before the issue until
  -- the key expires, with the issuer of the options and their maximal lifetime, where that is a whole
  -- number of seconds and the times fit in 64 bits of nanoseconds.
  pub issue-validates :
      (random : Option Bytes) (o : IssueOptions F) (c : Claims F) (lifetime now : ℕ)
      → o.max_ttl ≡ pos (lifetime * second)
      → second ≤ o.now
      → o.now + lifetime * second < half64
      → o.now / second ≤ now + 60
      → pos now <ℤ c.expires_at
      → issue is_negative random o ≡ ok c
      → validate_claims is_negative c (trim_space o.issuer) o.max_ttl (pos now) ≡ none
  unfolding validate_claims
  issue-validates random o c lifetime now whole after_start small early unexpired h =
      let i = issue-IsIssued random o c h in
      let (exact, later, soon) = made-lasts o c lifetime whole small i in
      let made = i.made in
      let live : pos now <ℤ unix (o.now + pos_part (effective_ttl is_negative o)) =
        subst (λ (x : Claims F). pos now <ℤ x.expires_at) made unexpired in
      let sixty = add64_pos now 60 (omega (arith, live, soon)) in
      rw made (
        validate-none (claims_of is_negative o i.models i.key_id) (trim_space o.issuer) o.max_ttl
          (pos now) i.some_key_id (ground (arith, i.short)) (ground (arith, i.some_model))
          (leb_ℤ-lt now ((o.now + pos_part (effective_ttl is_negative o)) / second)
            (omega (arith, live)))
          (rw sixty (ground (arith, early))) (ground (arith, after_start)) (ground (arith, later))
          exact (str_eq_refl (trim_space o.issuer)) (str_eq_refl pool) refl i.limits)
