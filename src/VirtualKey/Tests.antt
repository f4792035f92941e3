-- ===== src/VirtualKey/Tests.antt =====
-- A key of an hour that is issued and checked, with amounts in whole cents.
use aegis_llm.Prelude.{
  ◌≡◌, refl, ℤ, pos, none, [], ◌∷◌, arith, codes, trim_space, str_eq, ok, ◌≤◌, length,
}
use aegis_llm.VirtualKey.Claims.{Claims, IssueOptions, issue, normalize_models, claims_of}
use aegis_llm.VirtualKey.Token.{
  TokenError, issue_token, validate_at, split_dots, min_signing_key_bytes,
}
use aegis_llm.VirtualKey.RoundTrip.{IsAccepted, validate_at-issue_token, validate_at-IsAccepted}
use aegis_llm.VirtualKey.Sample.{
  sample_crypto, sample_crypto-IsCrypto, is_text_u, is_debt, signing_key, u_options, u_claims,
  u_token,
}
use aegis_llm.Revocation.Sample.{u}

abbrev options : IssueOptions ℤ
options = record {
  key_id = codes "vk_1";
  subject = codes "team";
  models = codes "m" ∷ [];
  max_rpm = pos 10;
  max_tpm = pos 0;
  max_concurrency = pos 2;
  budget_usd = pos 500;
  pool_group = [];
  ttl = pos 0;
  max_ttl = pos 3600000000000;
  issuer = codes "aegis";
  now = 1000000000000;
}

abbrev hour_key : Claims ℤ
hour_key = claims_of is_debt options (codes "m" ∷ []) (codes "vk_1")

validate_at-issue_token_example :
    validate_at sample_crypto is_debt u_token signing_key
      (trim_space u)
      (pos 3600000000000)
      (pos 2000)
    ≡ ok u_claims
unfolding issue_token issue trim_space normalize_models str_eq aegis_llm.VirtualKey.Sample.shift
    aegis_llm.VirtualKey.Token.sign
validate_at-issue_token_example =
    validate_at-issue_token sample_crypto is_text_u is_debt signing_key none u_options u_token
      u_claims 3600 2000 sample_crypto-IsCrypto refl refl (omega arith) (omega arith) (omega arith)
      (omega arith) (omega arith) refl

validate_at-IsAccepted_example :
    IsAccepted sample_crypto is_text_u is_debt signing_key u
      (pos 3600000000000)
      (pos 2000)
      (split_dots u_token)
      u_claims
    × (min_signing_key_bytes ≤ length signing_key)
unfolding issue_token issue trim_space normalize_models str_eq aegis_llm.VirtualKey.Sample.shift
    aegis_llm.VirtualKey.Token.sign aegis_llm.VirtualKey.Sample.unshift validate_at split_dots
validate_at-IsAccepted_example =
    validate_at-IsAccepted sample_crypto is_text_u is_debt u_token signing_key u (pos 3600000000000)
      (pos 2000) u_claims refl
