-- ===== src/Config/Normalize.antt =====
-- The defaults of `LoadConfig` and the normal form of a configuration, internal/config/config.go.
-- `trim_space` stands for `strings.TrimSpace`.
use strait.Base.{
  finite, at_most_zero, above_one, ℕ, Bool, true, false, ◌||◌, List, [], ◌∷◌, map, Bytes, codes,
  same, is_empty, ltz, ◌==◌, if◌then◌else◌, ℤ, pos,
}
use strait.Config.Types.{ClientTokenConfig, ProviderConfig, Config}

abbrev pub status_codes : List ℤ
status_codes = pos 429 ∷ pos 500 ∷ pos 502 ∷ pos 503 ∷ pos 504 ∷ []

-- `setDefaults`
unfoldable pub set_defaults : Config → Config
set_defaults c = record c {
  server = record c.server {
    port = pos 8080;
    read_timeout = codes "300s";
    read_header_timeout = codes "10s";
    write_timeout = codes "300s";
    idle_timeout = codes "120s";
    shutdown_timeout = codes "300s";
  };
  auth = record c.auth { rate_limit_qps = finite (pos 10000000000); rate_limit_burst = pos 20 };
  upstream = record {
    retryable_status_codes = status_codes;
    retry_backoff = codes "200ms";
    default_max_retries = pos 1;
    health_check_interval = codes "15s";
    health_check_timeout = codes "2s";
    breaker_interval = codes "10s";
    breaker_timeout = codes "15s";
    breaker_failure_ratio = finite (pos 500000000);
    breaker_minimum_requests = 5;
    breaker_half_open_requests = 3;
    default_timeout_non_stream = codes "120s";
    default_timeout_stream = codes "300s";
  };
}

abbrev pub member : Bytes → List Bytes → Bool
member s [] = false
member s (t ∷ ts) = same t s || member s ts

-- `strings.TrimRight(s, "/")`
unfoldable pub trim_slashes : Bytes → Bytes
trim_slashes [] = []
trim_slashes (c ∷ s) =
    let rest = trim_slashes s in
    if is_empty rest then (if c == b'/' then [] else c ∷ []) else c ∷ rest

unfoldable pub not_negative : ℤ → ℤ
not_negative n = if ltz n (pos 0) then pos 0 else n

unfoldable pub clamp_retries : ProviderConfig → ProviderConfig
unfolding not_negative
clamp_retries p = record p { max_retries = not_negative p.max_retries }

unfoldable pub default_count : ℕ → ℕ → ℕ
default_count n default = if n == 0 then default else n

module _ (trim_space : Bytes → Bytes) where
  -- The loop of `uniqueNonEmpty`; `seen` has the items of `out`.
  unfoldable pub unique_loop : List Bytes → List Bytes → List Bytes
  unique_loop seen [] = []
  unique_loop seen (item ∷ items) = elim (is_empty (trim_space item)) [
    | true ↦ unique_loop seen items
    | false ↦ elim (member (trim_space item) seen) [
      | true ↦ unique_loop seen items
      | false ↦ trim_space item ∷ unique_loop (trim_space item ∷ seen) items
    ]
  ]

  -- `uniqueNonEmpty`
  unfoldable pub unique_non_empty : List Bytes → List Bytes
  unfolding unique_loop
  unique_non_empty items = unique_loop [] items

  unfoldable pub normalize_token : ClientTokenConfig → ClientTokenConfig
  normalize_token t = record t {
    name = trim_space t.name;
    value_env = trim_space t.value_env;
    value = trim_space t.value;
  }

  unfoldable pub normalize_provider : ProviderConfig → ProviderConfig
  unfolding unique_non_empty trim_slashes
  normalize_provider p = record p {
    name = trim_space p.name;
    base_url = trim_slashes (trim_space p.base_url);
    api_key_env = trim_space p.api_key_env;
    api_key = trim_space p.api_key;
    models = unique_non_empty p.models;
    health_check_path = trim_space p.health_check_path;
  }

  -- `normalizeConfig`
  unfoldable pub normalize_config : Config → Config
  unfolding normalize_token normalize_provider
  normalize_config c = record {
    server = record {
      host = trim_space c.server.host;
      port = c.server.port;
      read_timeout = trim_space c.server.read_timeout;
      read_header_timeout = trim_space c.server.read_header_timeout;
      write_timeout = trim_space c.server.write_timeout;
      idle_timeout = trim_space c.server.idle_timeout;
      shutdown_timeout = trim_space c.server.shutdown_timeout;
      trusted_proxy_cidrs = unique_non_empty (map trim_space c.server.trusted_proxy_cidrs);
    };
    metrics = record {
      bearer_token_env = trim_space c.metrics.bearer_token_env;
      bearer_token = trim_space c.metrics.bearer_token;
      allowed_cidrs = unique_non_empty (map trim_space c.metrics.allowed_cidrs);
    };
    auth = record c.auth { tokens = map normalize_token c.auth.tokens };
    upstream = record c.upstream {
      retry_backoff = trim_space c.upstream.retry_backoff;
      health_check_interval = trim_space c.upstream.health_check_interval;
      health_check_timeout = trim_space c.upstream.health_check_timeout;
      breaker_interval = trim_space c.upstream.breaker_interval;
      breaker_timeout = trim_space c.upstream.breaker_timeout;
    };
    providers = map normalize_provider c.providers;
  }

  unfoldable pub default_text : Bytes → Bytes → Bytes
  default_text value default = if is_empty (trim_space value) then default else value

  -- `applyUpstreamDefaults`
  unfoldable pub apply_upstream_defaults : Config → Config
  unfolding default_text not_negative default_count clamp_retries
  apply_upstream_defaults c = record c {
    upstream = record c.upstream {
      default_max_retries = not_negative c.upstream.default_max_retries;
      retryable_status_codes =
          if is_empty c.upstream.retryable_status_codes
          then status_codes
          else c.upstream.retryable_status_codes;
      retry_backoff = default_text c.upstream.retry_backoff (codes "200ms");
      health_check_interval = default_text c.upstream.health_check_interval (codes "15s");
      health_check_timeout = default_text c.upstream.health_check_timeout (codes "2s");
      breaker_interval = default_text c.upstream.breaker_interval (codes "10s");
      breaker_timeout = default_text c.upstream.breaker_timeout (codes "15s");
      breaker_failure_ratio =
          if at_most_zero c.upstream.breaker_failure_ratio
            || above_one c.upstream.breaker_failure_ratio
          then finite (pos 500000000)
          else c.upstream.breaker_failure_ratio;
      breaker_minimum_requests = default_count c.upstream.breaker_minimum_requests 5;
      breaker_half_open_requests = default_count c.upstream.breaker_half_open_requests 3;
    };
    providers = map clamp_retries c.providers;
  }
