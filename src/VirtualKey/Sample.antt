-- ===== src/VirtualKey/Sample.antt =====
-- A codec of tokens for the tests, and a token: it shifts bytes by 47 for base64, signs a text with itself, and
-- writes the claims of the pool whose texts are all "u".
use mathlib.Core.Path.{subst}
use mathlib.Core.Option.{some-injective}
use aegis_llm.Prelude.{
  ap, ℕ, ◌+◌, ◌-◌, ◌≡◌, refl, Bool, true, false, ◌&&◌, ltb, ltb_ℤ, ℤ, pos, negsuc, pos_part,
  neg_part, sub_ℕ, Option, none, some, List, [], ◌∷◌, arith, Bytes, codes, is_empty, str_eq,
  str_eq_sound, and_true, if◌then◌else◌, Result, ok, err,
}
use aegis_llm.Revocation.Sample.{u, is_u}
use aegis_llm.VirtualKey.Claims.{Claims, IssueOptions, pool, claims_of}
use aegis_llm.VirtualKey.Token.{Crypto, TokenError, issue_token}
use aegis_llm.VirtualKey.RoundTrip.{IsCrypto, has_dot}

unfoldable pub shift : Bytes → Bytes
shift [] = []
shift (c ∷ s) = (c + 47) ∷ shift s

abbrev cons_some : ℕ → Option Bytes → Option Bytes
cons_some c none = none
cons_some c (some s) = some (c ∷ s)

unfoldable pub unshift : Bytes → Option Bytes
unshift [] = some []
unshift (c ∷ s) = let rest = unshift s in if ltb c 47 then none else cons_some (c - 47) rest

abbrev write_numbers : Claims ℤ → Option Bytes
write_numbers c = some (
    pos_part c.max_rpm
    ∷ neg_part c.max_rpm
    ∷ pos_part c.max_tpm
    ∷ neg_part c.max_tpm
    ∷ pos_part c.max_concurrency
    ∷ neg_part c.max_concurrency
    ∷ pos_part c.budget_usd
    ∷ neg_part c.budget_usd
    ∷ pos_part c.issued_at
    ∷ neg_part c.issued_at
    ∷ pos_part c.expires_at
    ∷ neg_part c.expires_at
    ∷ [])

abbrev with_numbers : ℤ → ℤ → ℤ → ℤ → ℤ → ℤ → Claims ℤ
with_numbers rpm tpm concurrency budget issued expires = record {
  key_id = u;
  subject = u;
  models = u ∷ [];
  max_rpm = rpm;
  max_tpm = tpm;
  max_concurrency = concurrency;
  budget_usd = budget;
  key_source = pool;
  byok_key_id = [];
  pool_group = [];
  issued_at = issued;
  expires_at = expires;
  issuer = u;
}

abbrev read_numbers : Bytes → Option (Claims ℤ)
read_numbers (a ∷ b ∷ c ∷ d ∷ e ∷ f ∷ g ∷ h ∷ i ∷ j ∷ k ∷ l ∷ []) =
    some (with_numbers (sub_ℕ a b) (sub_ℕ c d) (sub_ℕ e f) (sub_ℕ g h) (sub_ℕ i j) (sub_ℕ k l))
read_numbers raw = none

abbrev is_one_u : List Bytes → Bool
is_one_u (m ∷ []) = is_u m
is_one_u ms = false

abbrev pub is_text_u : Claims ℤ → Bool
is_text_u c =
    is_u c.key_id
    && (is_u c.subject
        && (is_one_u c.models
            && (str_eq c.key_source pool
                && (is_empty c.byok_key_id && (is_empty c.pool_group && is_u c.issuer)))))

abbrev pub sample_crypto : Crypto ℤ
sample_crypto = record {
  encode = shift;
  decode = unshift;
  mac = λ key text. text;
  header = codes "h";
  algorithm = λ json. some (codes "HS256");
  write_claims = write_numbers;
  read_claims = read_numbers;
}

parts_eq : (z : ℤ) → sub_ℕ (pos_part z) (neg_part z) ≡ z
parts_eq (pos n) = ground arith
parts_eq (negsuc n) = ground arith

unshift-shift : (s : Bytes) → unshift (shift s) ≡ some s
unfolding unshift shift
unshift-shift [] = refl
unshift-shift (c ∷ s) = ground (arith, unshift-shift s)

shift-dots : (s : Bytes) → has_dot (shift s) ≡ false
unfolding shift
shift-dots [] = refl
shift-dots (c ∷ s) = ground (arith, shift-dots s)

empty_nil : (s : Bytes) → is_empty s ≡ true → s ≡ []
empty_nil [] h = refl
empty_nil (a ∷ s) h = cc

one_u : (ms : List Bytes) → is_one_u ms ≡ true → ms ≡ u ∷ []
one_u [] h = cc
one_u (m ∷ []) h = ground (arith, str_eq_sound m u h)
one_u (m ∷ n ∷ ms) h = cc

texts_eq :
    (c : Claims ℤ)
    → is_text_u c ≡ true
    → with_numbers c.max_rpm c.max_tpm c.max_concurrency c.budget_usd c.issued_at c.expires_at ≡ c
texts_eq c h =
    let (k, h1) = and_true (is_u c.key_id) _ h in
    let (s, h2) = and_true (is_u c.subject) _ h1 in
    let (m, h3) = and_true (is_one_u c.models) _ h2 in
    let (p, h4) = and_true (str_eq c.key_source pool) _ h3 in
    let (b, h5) = and_true (is_empty c.byok_key_id) _ h4 in
    let (g, i) = and_true (is_empty c.pool_group) _ h5 in
    let k' = str_eq_sound c.key_id u k in
    let s' = str_eq_sound c.subject u s in
    let m' = one_u c.models m in
    let p' = str_eq_sound c.key_source pool p in
    let b' = empty_nil c.byok_key_id b in
    let g' = empty_nil c.pool_group g in
    let i' = str_eq_sound c.issuer u i in ground (arith, k', s', m', p', b', g', i')

numbers_trip :
    (c : Claims ℤ) (raw : Bytes)
    → is_text_u c ≡ true
    → write_numbers c ≡ some raw
    → read_numbers raw ≡ some c
numbers_trip c raw t w =
    subst (λ r. read_numbers r ≡ some c) (some-injective _ raw w)
      (rw
        (
          parts_eq c.max_rpm,
          parts_eq c.max_tpm,
          parts_eq c.max_concurrency,
          parts_eq c.budget_usd,
          parts_eq c.issued_at,
          parts_eq c.expires_at,
        )
        (ap some (texts_eq c t)))

pub sample_crypto-IsCrypto : IsCrypto sample_crypto is_text_u
sample_crypto-IsCrypto = record {
  decode-encode = unshift-shift;
  no_dots = shift-dots;
  names_algorithm = refl;
  read-write = numbers_trip;
}

abbrev pub is_debt : ℤ → Bool
is_debt z = ltb_ℤ z (pos 0)

abbrev pub signing_key : Bytes
signing_key = codes "0123456789abcdef0123456789abcdef"

abbrev pub u_options : IssueOptions ℤ
u_options = record {
  key_id = u;
  subject = u;
  models = u ∷ [];
  max_rpm = pos 10;
  max_tpm = pos 0;
  max_concurrency = pos 2;
  budget_usd = pos 500;
  pool_group = [];
  ttl = pos 0;
  max_ttl = pos 3600000000000;
  issuer = u;
  now = 1000000000000;
}

abbrev pub u_claims : Claims ℤ
u_claims = claims_of is_debt u_options (u ∷ []) u

abbrev token_of : Result TokenError (Bytes × Claims ℤ) → Bytes
token_of (ok (token, claims)) = token
token_of (err e) = []

-- The token of `u_claims`.
abbrev pub u_token : Bytes
u_token = token_of (issue_token sample_crypto is_debt signing_key none u_options)
