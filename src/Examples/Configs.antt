-- ===== src/Examples/Configs.antt =====
-- A configuration with one provider and two tokens, loaded.
use strait.Base.{
  finite, Bool, true, false, Option, none, some, [], ◌∷◌, ◌++◌, map, Bytes, codes, same, leb, ◌&&◌,
  if◌then◌else◌, ℤ, pos, ◌≤ℤ◌, ◌≡◌, ◌↔◌, refl, arith,
}
use strait.Config.Types.{ClientTokenConfig, ProviderConfig, Config}
use strait.Config.Normalize.{status_codes}
use strait.Config.Resolve.{settled}
use strait.Config.Validate.{Url, Ip, validate_config, validate_timeout}
use strait.Config.Load.{load_config}
use strait.Config.Accepts.{WellFormedConfig, validate_config_iff}
use strait.Config.Loaded.{load_config-WellFormed}
use strait.Config.Clients.{token_config, loaded_token-resolves}
use strait.Auth.Tokens.{resolve_token}
use strait.Auth.Resolved.{configured}
use strait.Gateway.{ProviderRoute}
use strait.Proxy.Timeout.{provider_timeout, provider_timeout-positive, padded_timeout-ignored}

-- On texts without white space around them.
abbrev untouched : Bytes → Bytes
untouched s = s

-- Every variable is set to its own name.
abbrev own_name : Bytes → Option Bytes
own_name name = some name

abbrev one_second : Bytes → Option ℤ
one_second s = some (pos 1000000000)

abbrev any_cidr : Bytes → Bool
any_cidr s = true

abbrev secure_url : Bytes → Option Url
secure_url s =
    some (record { scheme = codes "https"; host = codes "api.test"; hostname = codes "api.test" })

abbrev no_ip : Bytes → Option Ip
no_ip s = none

abbrev token_named : Bytes → Bytes → ClientTokenConfig
token_named name value = record {
  name = name;
  value_env = codes "KEY_" ++ name;
  value = value;
  rate_limit_qps = finite (pos 0);
  rate_limit_burst = pos 0;
  disabled = false;
  allowed_models = [];
}

abbrev one_provider : ProviderConfig
one_provider = record {
  name = codes "p";
  base_url = codes "https://api.test";
  api_key_env = [];
  api_key = [];
  models = codes "m" ∷ [];
  max_retries = pos 1;
  health_check_path = [];
  timeout_non_stream = [];
  timeout_stream = [];
}

-- The file gives tokens and a provider.
abbrev small_file : Config → Option Config
small_file c = some (record c {
  auth = record c.auth { tokens = token_named (codes "a") [] ∷ token_named (codes "b") [] ∷ [] };
  providers = one_provider ∷ [];
})

abbrev small_config : Config
small_config = record {
  server = record {
    host = [];
    port = pos 8080;
    read_timeout = codes "300s";
    read_header_timeout = codes "10s";
    write_timeout = codes "300s";
    idle_timeout = codes "120s";
    shutdown_timeout = codes "300s";
    trusted_proxy_cidrs = [];
  };
  metrics = record { bearer_token_env = []; bearer_token = []; allowed_cidrs = [] };
  auth = record {
    rate_limit_qps = finite (pos 10000000000);
    rate_limit_burst = pos 20;
    tokens = token_named (codes "a") (codes "KEY_a") ∷ token_named (codes "b") (codes "KEY_b") ∷ [];
  };
  upstream = record {
    retryable_status_codes = status_codes;
    retry_backoff = codes "200ms";
    default_max_retries = pos 1;
    health_check_interval = codes "15s";
    health_check_timeout = codes "2s";
    breaker_interval = codes "10s";
    breaker_timeout = codes "15s";
    breaker_failure_ratio = finite (pos 500000000);
    breaker_minimum_requests = 5;
    breaker_half_open_requests = 3;
    default_timeout_non_stream = codes "120s";
    default_timeout_stream = codes "300s";
  };
  providers = one_provider ∷ [];
}

small_file-loaded :
    load_config untouched own_name one_second any_cidr secure_url no_ip (some small_file)
    ≡ settled small_config
unfolding load_config same
small_file-loaded = refl

load_config-WellFormed_example :
    WellFormedConfig untouched one_second any_cidr secure_url no_ip small_config
load_config-WellFormed_example =
    load_config-WellFormed untouched own_name one_second any_cidr secure_url no_ip (some small_file)
      small_config small_file-loaded

loaded_token-resolves_example :
    resolve_token untouched untouched (map token_config small_config.auth.tokens) (codes "KEY_a")
    ≡ some (configured untouched untouched (token_config (token_named (codes "a") (codes "KEY_a"))))
loaded_token-resolves_example =
    loaded_token-resolves untouched untouched own_name one_second any_cidr secure_url no_ip
      (some small_file) small_config [] (token_named (codes "a") (codes "KEY_a"))
      (token_named (codes "b") (codes "KEY_b") ∷ []) (λ s. refl) small_file-loaded refl refl

validate_config_iff_example :
    (validate_config untouched one_second any_cidr secure_url no_ip small_config ≡ none)
    ↔ WellFormedConfig untouched one_second any_cidr secure_url no_ip small_config
validate_config_iff_example =
    validate_config_iff untouched one_second any_cidr secure_url no_ip small_config

abbrev small_route : Bytes → ProviderRoute
small_route timeout = record {
  name = codes "p";
  base_url = codes "https://api.test";
  api_key = [];
  priority = 0;
  max_retries = 1;
  health_check_path = [];
  timeout_non_stream = timeout;
  timeout_stream = [];
}

-- A duration begins with a digit.
abbrev starts_with_digit : Bytes → Option ℤ
starts_with_digit [] = none
starts_with_digit (c ∷ s) = if leb b'0' c && leb c b'9' then some (pos 5000000000) else none

abbrev without_space : Bytes → Bytes
without_space [] = []
without_space (c ∷ s) = if leb c b' ' then s else c ∷ s

provider_timeout-positive_example :
    pos 1
    ≤ℤ provider_timeout starts_with_digit small_config.upstream (small_route (codes "5s")) true
provider_timeout-positive_example =
    provider_timeout-positive starts_with_digit small_config.upstream (small_route (codes "5s"))
      true

padded_timeout-ignored_example :
    (validate_timeout without_space starts_with_digit (codes " 5s") ≡ none)
    × (provider_timeout starts_with_digit small_config.upstream (small_route (codes " 5s")) false
        ≡ provider_timeout starts_with_digit small_config.upstream (small_route []) false)
padded_timeout-ignored_example =
    padded_timeout-ignored starts_with_digit without_space small_config.upstream
      (small_route (codes " 5s")) (pos 5000000000) refl (omega arith) refl
