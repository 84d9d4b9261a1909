-- ===== src/Config/Load.antt =====
-- `LoadConfig` and `ResolveConfigPath` of internal/config/config.go. What stands for the calls of the
-- standard library is explained in Config/Validate and Config/Resolve.
use strait.Base.{
  finite, Bool, Option, none, some, [], Bytes, codes, is_empty, if◌then◌else◌, ℤ, pos,
}
use strait.Config.Types.{Config, ConfigError, open_failed, decode_failed}
use strait.Config.Normalize.{set_defaults, normalize_config, apply_upstream_defaults}
use strait.Config.Resolve.{
  Resolved, settled, refused, ◌>>=◌, resolve_structured_tokens, resolve_provider_api_keys,
  resolve_metrics_config,
}
use strait.Config.Validate.{Url, Ip, validate_config}

unfoldable pub non_empty_or : Bytes → Bytes → Bytes
non_empty_or path other = if is_empty path then other else path

-- `ResolveConfigPath`, with the value of `GATEWAY_CONFIG_PATH`
unfoldable pub resolve_config_path : (Bytes → Bytes) → Bytes → Bytes → Bytes
unfolding non_empty_or
resolve_config_path trim_space explicit_path env_path =
    non_empty_or (trim_space explicit_path)
      (non_empty_or (trim_space env_path) (codes "config.yaml"))

-- `&Config{}`
abbrev pub empty_config : Config
empty_config = record {
  server = record {
    host = [];
    port = pos 0;
    read_timeout = [];
    read_header_timeout = [];
    write_timeout = [];
    idle_timeout = [];
    shutdown_timeout = [];
    trusted_proxy_cidrs = [];
  };
  metrics = record { bearer_token_env = []; bearer_token = []; allowed_cidrs = [] };
  auth = record { rate_limit_qps = finite (pos 0); rate_limit_burst = pos 0; tokens = [] };
  upstream = record {
    retryable_status_codes = [];
    retry_backoff = [];
    default_max_retries = pos 0;
    health_check_interval = [];
    health_check_timeout = [];
    breaker_interval = [];
    breaker_timeout = [];
    breaker_failure_ratio = finite (pos 0);
    breaker_minimum_requests = 0;
    breaker_half_open_requests = 0;
    default_timeout_non_stream = [];
    default_timeout_stream = [];
  };
  providers = [];
}

unfoldable pub accepted : Config → Option ConfigError → Resolved Config
accepted c none = settled c
accepted c (some e) = refused e

module _ (trim_space : Bytes → Bytes) (lookup_env : Bytes → Option Bytes)
    (parse_duration : Bytes → Option ℤ) (cidr_ok : Bytes → Bool) (parse_url : Bytes → Option Url)
    (parse_ip : Bytes → Option Ip) where
  -- The three functions that read the environment.
  unfoldable pub resolve_environment : Config → Resolved Config
  unfolding resolve_structured_tokens resolve_provider_api_keys resolve_metrics_config
  resolve_environment c = do
    tokens ← resolve_structured_tokens trim_space lookup_env c.auth.tokens
    providers ← resolve_provider_api_keys trim_space lookup_env c.providers
    metrics ← resolve_metrics_config trim_space lookup_env c.metrics
    settled (record c {
      auth = record c.auth { tokens = tokens };
      providers = providers;
      metrics = metrics;
    })

  unfoldable pub finish_config : Config → Resolved Config
  unfolding accepted normalize_config apply_upstream_defaults validate_config
  finish_config c =
      let final = apply_upstream_defaults trim_space (normalize_config trim_space c) in
      accepted final (validate_config trim_space parse_duration cidr_ok parse_url parse_ip final)

  unfoldable pub decoded_config : Option Config → Resolved Config
  unfolding resolve_environment finish_config
  decoded_config none = refused decode_failed
  decoded_config (some c) = do c' ← resolve_environment c; finish_config c'

  -- `LoadConfig`, as far as `GlobalConfig = cfg`; the file gives the decoder of its text, which
  -- overrides fields of the defaults, and `none` stands for an error of `os.Open`.
  unfoldable pub load_config : Option (Config → Option Config) → Resolved Config
  unfolding decoded_config set_defaults
  load_config none = refused open_failed
  load_config (some decode) = decoded_config (decode (set_defaults empty_config))
