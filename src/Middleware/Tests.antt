-- ===== src/Middleware/Tests.antt =====
-- The middleware at concrete values: a body of two bytes, the token of a revoked key, an upstream that
-- is overloaded.
use aegis_llm.Prelude.{
  has_prefix, if◌then◌else◌, ap, sym, inl, inr, ℕ, ◌+◌, ◌≤◌, ◌<ℤ◌, ℤ, pos, ◌≡◌, ◌≢◌, refl, ◌≤ℤ◌,
  codes, length, Bytes, Option, none, some, List, [], ◌∷◌, ◌++◌, Bool, true, false, arith, str_eq,
  lookup, Result, ok, err,
}
use aegis_llm.Server.Context.{RequestContext, Flow, returned, context}
use aegis_llm.Server.Pipeline.{Middleware, execute, serve_http, new_pipeline}
use aegis_llm.Server.Answers.{AuditsStatus, serve_http-AuditsStatus}
use aegis_llm.Middleware.Honest.{kms_injector-KeepsHonest, proxy-KeepsHonest}
use aegis_llm.Server.Sample.{sample_context}
use aegis_llm.VirtualKey.Claims.{pool}
use aegis_llm.VirtualKey.Sample.{sample_crypto, is_debt, signing_key, u_claims, u_token}
use aegis_llm.Revocation.Sample.{u, sample_codec, sample_codec-IsCodec}
use aegis_llm.Revocation.File.{Disk, directory, missing, no_fault, read_snapshot}
use aegis_llm.Revocation.Writer.{Writer, Attempt, init, revoke}
use aegis_llm.Revocation.Reader.{refresh}
use aegis_llm.Middleware.Auth.{AuthConfig, auth, claims_of_request}
use aegis_llm.Middleware.Admission.{Decision, auth-Decision, IsRefused, with_reader, auth-IsRefused}
use aegis_llm.Middleware.Keys.{
  resolve_key_id, KeyConfig, kms_injector, Injection, kms_injector-Injection,
}
use aegis_llm.Middleware.Capture.{
  Effect, head, chunk, new_capture_writer, capture_all, flush_to, send_all,
}
use aegis_llm.Middleware.Replay.{IsKept, capture_all-IsKept, flush-capture_all}
use aegis_llm.Middleware.Proxy.{Urls, Engine, proxy, build_target_url, after_dispatch}
use aegis_llm.Middleware.Retry.{FlowHeld, proxy-IsHeld}

abbrev answer : RequestContext ℤ → Flow ℤ
answer ctx = returned ctx

abbrev config : AuthConfig ℤ
config = record {
  crypto = sample_crypto;
  is_negative = is_debt;
  signing_key = signing_key;
  issuer = u;
  expiry = pos 3600000000000;
  revocation = none;
}

abbrev bearer_context : RequestContext ℤ
bearer_context = record sample_context { authorization = codes "Bearer " ++ u_token }

auth-Decision_example :
    Decision config (pos 2000) answer bearer_context (auth config (pos 2000) answer bearer_context)
auth-Decision_example = auth-Decision config (pos 2000) answer bearer_context

abbrev writer : Writer
writer = record { path = codes "/var/lib/aegis/revocation.json"; lock_timeout = pos 1000000000 }

abbrev at : ℕ → Attempt
at now = record { now = now; locked = true; fault = no_fault }

abbrev initialized : Disk
initialized =
    (init sample_codec writer (at 5000000000)
      (record { parent = directory 448; place = missing })).0

abbrev ttl : ℤ
ttl = pos 3600000000000

abbrev after : Disk
after = (revoke sample_codec writer u u ttl (at 7000000000) initialized).0

auth-IsRefused_example : IsRefused bearer_context (
    auth
      (with_reader config (some (refresh (pos 2000) (read_snapshot sample_codec after) none)))
      (pos 2000)
      answer
      bearer_context)
unfolding revoke init aegis_llm.Prelude.trim_space aegis_llm.Revocation.Sample.encode_u
    aegis_llm.Revocation.Sample.decode_u claims_of_request aegis_llm.VirtualKey.Token.issue_token
    aegis_llm.VirtualKey.Claims.issue aegis_llm.VirtualKey.Claims.normalize_models str_eq
    aegis_llm.VirtualKey.Sample.shift aegis_llm.VirtualKey.Sample.unshift
    aegis_llm.VirtualKey.Token.sign
auth-IsRefused_example =
    auth-IsRefused config (pos 2000) answer bearer_context u_claims sample_codec writer (pos 2000)
      ttl (at 7000000000) initialized after
      (record { generation = 2; updated_at = pos 7; changed = true }) none sample_codec-IsCodec refl
      refl (omega arith) refl refl

abbrev keys : KeyConfig
keys = record {
  provider = some (λ id. some (codes "sk"));
  pool_key_mapping = (codes "p", codes "k") ∷ [];
}

abbrev routed : RequestContext ℤ
routed = record sample_context {
  provider_id = codes "p";
  key_source = pool;
  base_url = codes "https://api.openai.com";
  can_fallback = true;
  provider_api_key = some (codes "sk");
}

kms_injector-Injection_example : Injection keys answer routed (kms_injector keys answer routed)
kms_injector-Injection_example = kms_injector-Injection keys answer routed

abbrev effects : List Effect
effects = head (pos 503) ∷ chunk (codes "busy") ∷ []

capture_all-IsKept_example :
    IsKept new_capture_writer effects (capture_all effects new_capture_writer)
capture_all-IsKept_example = capture_all-IsKept effects new_capture_writer (omega arith)

flush-capture_all_example :
    flush_to (capture_all effects new_capture_writer) sample_context
    ≡ send_all effects sample_context
unfolding aegis_llm.Middleware.Capture.sent
flush-capture_all_example =
    flush-capture_all (head (pos 503)) (chunk (codes "busy") ∷ []) sample_context (omega arith)

abbrev urls : Urls
urls = record {
  parse = λ text. some (record { scheme = codes "https"; host = codes "h"; has_user = false });
  resolve = λ base rel. codes "https://h/v1";
}

abbrev overloaded : Engine ℤ
overloaded target ctx = record { effects = effects; result = none; failure = none }

proxy-IsHeld_example : FlowHeld routed (proxy urls (some overloaded) answer routed)
proxy-IsHeld_example = proxy-IsHeld urls (some overloaded) answer routed refl

-- An upstream that answers, for a request that is tried once.
abbrev answers : Engine ℤ
answers target ctx = record {
  effects = head (pos 200) ∷ chunk (codes "ok") ∷ [];
  result = some (record { status_code = pos 200; input_tokens = pos 3; output_tokens = pos 5 });
  failure = none;
}

abbrev tried_once : RequestContext ℤ
tried_once = record routed { can_fallback = false; provider_api_key = none }

-- `url.Parse` of a path and of a base URL.
abbrev paths : Urls
unfolding has_prefix
paths = record {
  parse = λ text.
      if has_prefix text (codes "/")
      then some (record { scheme = []; host = []; has_user = false })
      else some (record { scheme = codes "https"; host = codes "h"; has_user = false });
  resolve = λ base rel. codes "https://h/v1";
}

abbrev policy : List (Middleware ℤ)
policy = kms_injector keys ∷ proxy paths (some answers) ∷ []

serve_http-AuditsStatus_example :
    (done : RequestContext ℤ) × (serve_http (new_pipeline (codes "f") policy) tried_once
      ≡ returned done)
    × AuditsStatus done
unfolding execute kms_injector proxy resolve_key_id str_eq lookup has_prefix build_target_url
    after_dispatch aegis_llm.Middleware.Capture.send_all aegis_llm.Server.Context.write
    aegis_llm.Server.Context.write_header
serve_http-AuditsStatus_example =
    serve_http-AuditsStatus (codes "f") policy tried_once refl
      (record { received = refl; coded = inl refl })
      (kms_injector-KeepsHonest keys, (proxy-KeepsHonest paths (some answers), tt))
      (λ done e r. inr (ap (λ f. (context f).committed) (sym e)))
