-- ===== src/Config/Types.antt =====
-- The configuration records of internal/config/config.go, and the errors of `LoadConfig`. A rate or a
-- ratio is a `Float64`; `uint32` fields are natural numbers.
use strait.Base.{Float64, ℕ, Bool, List, Bytes, ℤ}

-- `ClientTokenConfig`
pub record ClientTokenConfig : Type 0 where
  pub name : Bytes
  pub value_env : Bytes
  pub value : Bytes
  pub rate_limit_qps : Float64
  pub rate_limit_burst : ℤ
  pub disabled : Bool
  pub allowed_models : List Bytes

-- `AuthConfig`
pub record AuthConfig : Type 0 where
  pub rate_limit_qps : Float64
  pub rate_limit_burst : ℤ
  pub tokens : List ClientTokenConfig

-- `ServerConfig`
pub record ServerConfig : Type 0 where
  pub host : Bytes
  pub port : ℤ
  pub read_timeout : Bytes
  pub read_header_timeout : Bytes
  pub write_timeout : Bytes
  pub idle_timeout : Bytes
  pub shutdown_timeout : Bytes
  pub trusted_proxy_cidrs : List Bytes

-- `MetricsConfig`
pub record MetricsConfig : Type 0 where
  pub bearer_token_env : Bytes
  pub bearer_token : Bytes
  pub allowed_cidrs : List Bytes

-- `UpstreamConfig`
pub record UpstreamConfig : Type 0 where
  pub retryable_status_codes : List ℤ
  pub retry_backoff : Bytes
  pub default_max_retries : ℤ
  pub health_check_interval : Bytes
  pub health_check_timeout : Bytes
  pub breaker_interval : Bytes
  pub breaker_timeout : Bytes
  pub breaker_failure_ratio : Float64
  pub breaker_minimum_requests : ℕ
  pub breaker_half_open_requests : ℕ
  pub default_timeout_non_stream : Bytes
  pub default_timeout_stream : Bytes

-- `ProviderConfig`
pub record ProviderConfig : Type 0 where
  pub name : Bytes
  pub base_url : Bytes
  pub api_key_env : Bytes
  pub api_key : Bytes
  pub models : List Bytes
  pub max_retries : ℤ
  pub health_check_path : Bytes
  pub timeout_non_stream : Bytes
  pub timeout_stream : Bytes

-- `Config`
pub record Config : Type 0 where
  pub server : ServerConfig
  pub metrics : MetricsConfig
  pub auth : AuthConfig
  pub upstream : UpstreamConfig
  pub providers : List ProviderConfig

-- The errors, in the order of `LoadConfig`; the names and indices in the messages are left out.
pub data ConfigError : Type 0 where
  open_failed decode_failed : ConfigError
  inline_token_value no_value_env token_env_unset : ConfigError
  inline_api_key api_key_env_unset inline_bearer_token : ConfigError
  bad_port bad_duration bad_default_qps bad_default_burst no_tokens : ConfigError
  bad_trusted_proxy_cidr bad_metrics_cidr no_providers : ConfigError
  empty_provider_name duplicate_provider_name bad_base_url no_models negative_max_retries :
      ConfigError
  empty_token_name duplicate_token_name empty_token_value duplicate_token_value : ConfigError
  negative_token_qps negative_token_burst : ConfigError
