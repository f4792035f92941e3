-- ===== src/Middleware/Formats.antt =====
-- The provider adapters whose formats are those of the client: internal/middleware/adapter_openai.go and
-- adapter_azure.go, and the registry of `NewAdapterRegistry` in adapter.go. net/url is a parameter.
use aegis_llm.Prelude.{
  Bool, true, false, [], ◌++◌, Option, some, Bytes, codes, is_blank, if◌then◌else◌,
}
use aegis_llm.Middleware.Adapter.{ProtocolAdapter, AdapterRegistry, register}

abbrev pub path_chat_completions : Bytes
path_chat_completions = codes "/v1/chat/completions"

-- `bearerAuth`
abbrev pub bearer_auth : Bytes × Bytes
bearer_auth = (codes "Authorization", codes "Bearer ")

-- `passthroughStreamLine`
abbrev pub passthrough_stream_line : Bytes → Option (Bytes × Bool)
passthrough_stream_line line = some (line, false)

-- `OpenAIAdapter`, `DeepSeekAdapter` and `OpenRouterAdapter`, which differ in their names.
abbrev pub compatible_adapter : Bytes → ProtocolAdapter
compatible_adapter name = record {
  name = name;
  transform_request = λ body model api_version. some (body, path_chat_completions);
  transform_response = λ body. some body;
  transform_stream_line = passthrough_stream_line;
  supports_streaming = true;
  auth_header = bearer_auth;
  extra_headers = [];
}

abbrev pub default_azure_api_version : Bytes
default_azure_api_version = codes "2024-10-21"

-- `url.PathEscape`, and `Encode` of a single query value.
pub record Escapes : Type 0 where
  pub path_escape : Bytes → Bytes
  pub encode_query : Bytes → Bytes → Bytes

module _ (escapes : Escapes) where
  -- The path of `AzureAdapter`.
  unfoldable pub azure_path : Bytes → Bytes → Bytes
  azure_path model api_version =
      let version = if is_blank api_version then default_azure_api_version else api_version in
      codes "/openai/deployments/"
      ++ (escapes.path_escape model
          ++ (codes "/chat/completions"
              ++ (codes "?" ++ escapes.encode_query (codes "api-version") version)))

  -- `AzureAdapter`
  abbrev pub azure_adapter : ProtocolAdapter
  azure_adapter = record {
    name = codes "azure";
    transform_request = λ body model api_version. some (body, azure_path model api_version);
    transform_response = λ body. some body;
    transform_stream_line = passthrough_stream_line;
    supports_streaming = true;
    auth_header = (codes "api-key", []);
    extra_headers = [];
  }

  -- `NewAdapterRegistry`; the adapters of Anthropic and Google, which translate JSON, are arguments.
  unfoldable pub new_adapter_registry : ProtocolAdapter → ProtocolAdapter → AdapterRegistry
  unfolding register azure_path
  new_adapter_registry anthropic gemini =
      register
        (register
          (register
            (register
              (register (register [] (compatible_adapter (codes "openai")))
                (compatible_adapter (codes "deepseek")))
              (compatible_adapter (codes "openrouter")))
            azure_adapter)
          anthropic)
        gemini
