-- ===== src/Server/Sample.antt =====
-- A request at its start, for the tests.
use aegis_llm.Prelude.{codes, ℤ, pos, [], none, false}
use aegis_llm.Server.Context.{RequestContext, bytes}

abbrev pub sample_context : RequestContext ℤ
sample_context = record {
  method = codes "POST";
  path = codes "/v1/chat/completions";
  authorization = [];
  request_id = codes "r1";
  remote_addr = [];
  body_stream = bytes (codes "{}");
  request_body = [];
  request_body_loaded = false;
  virtual_key_id = [];
  permissions = [];
  budget = pos 0;
  key_source = [];
  byok_key_id = [];
  max_rpm = pos 0;
  max_tpm = pos 0;
  max_concurrency = pos 0;
  provider_id = [];
  provider_type = [];
  provider_api_key_id = [];
  provider_api_version = [];
  model = [];
  base_url = [];
  target_path = [];
  is_streaming = false;
  can_fallback = false;
  retryable_attempt = false;
  upstream_auth_header = [];
  upstream_auth_prefix = [];
  upstream_extra_headers = [];
  transform_response = none;
  transform_stream_line = none;
  provider_api_key = none;
  input_tokens = pos 0;
  output_tokens = pos 0;
  status_code = pos 0;
  provider_responded = false;
  provider_failure = false;
  aborted = false;
  abort_code = pos 0;
  abort_body = [];
  committed = false;
  response_status = pos 0;
  audit = [];
  response_headers = [];
  client_status = none;
  client_body = [];
}
