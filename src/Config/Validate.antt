-- ===== src/Config/Validate.antt =====
-- `validateConfig` of internal/config/config.go; a result `none` is the error nil. `parse_duration` stands
-- for `time.ParseDuration` in nanoseconds, `cidr_ok` for `net.ParseCIDR` without an error, `parse_url`
-- for `url.Parse`, and `parse_ip` for `net.ParseIP`.
use strait.Base.{
  at_most_zero, below_zero, Bool, true, false, not, ◌||◌, Option, none, some, List, [], ◌∷◌, Bytes,
  codes, same, is_empty, ltz, lez, if◌then◌else◌, ℤ, pos,
}
use strait.Config.Types.{
  ClientTokenConfig, AuthConfig, ProviderConfig, Config, ConfigError, bad_port, bad_duration,
  bad_default_qps, bad_default_burst, no_tokens, bad_trusted_proxy_cidr, bad_metrics_cidr,
  no_providers, empty_provider_name, duplicate_provider_name, bad_base_url, no_models,
  negative_max_retries, empty_token_name, duplicate_token_name, empty_token_value,
  duplicate_token_value, negative_token_qps, negative_token_burst,
}
use strait.Config.Normalize.{member}

-- The parts of a URL that are looked at: `Scheme`, `Host` and `Hostname()`.
pub record Url : Type 0 where
  pub scheme : Bytes
  pub host : Bytes
  pub hostname : Bytes

-- `IsLoopback` and `IsPrivate` of an address.
pub record Ip : Type 0 where
  pub is_loopback : Bool
  pub is_private : Bool

-- `if err := ...; err != nil { return err }`, then the rest.
unfoldable pub first_error : Option ConfigError → Option ConfigError → Option ConfigError
first_error none rest = rest
first_error (some e) rest = some e

unfoldable pub check_duration : Option ℤ → Option ConfigError
check_duration none = some bad_duration
check_duration (some d) = if lez d (pos 0) then some bad_duration else none

unfoldable pub is_local_ip : Option Ip → Bool
is_local_ip none = false
is_local_ip (some ip) = ip.is_loopback || ip.is_private

-- The loop of `validateTokenCatalog`.
unfoldable pub check_tokens : List Bytes → List Bytes → List ClientTokenConfig → Option ConfigError
check_tokens seen_names seen_values [] = none
check_tokens seen_names seen_values (t ∷ ts) = elim t.disabled [
  | true ↦ check_tokens seen_names seen_values ts
  | false ↦
      let rest = check_tokens (t.name ∷ seen_names) (t.value ∷ seen_values) ts in
      if is_empty t.name
      then some empty_token_name
      else if member t.name seen_names
      then some duplicate_token_name
      else if is_empty t.value
      then some empty_token_value
      else if member t.value seen_values
      then some duplicate_token_value
      else if below_zero t.rate_limit_qps
      then some negative_token_qps
      else if ltz t.rate_limit_burst (pos 0)
      then some negative_token_burst
      else rest
]

-- `validateTokenCatalog`
unfoldable pub validate_token_catalog : AuthConfig → Option ConfigError
unfolding check_tokens
validate_token_catalog auth = check_tokens [] [] auth.tokens

module _ (trim_space : Bytes → Bytes) (parse_duration : Bytes → Option ℤ) where
  -- `validatePositiveDuration`
  unfoldable pub validate_positive_duration : Bytes → Option ConfigError
  unfolding check_duration
  validate_positive_duration raw = check_duration (parse_duration (trim_space raw))

  unfoldable pub validate_durations : List Bytes → Option ConfigError
  unfolding first_error validate_positive_duration
  validate_durations [] = none
  validate_durations (raw ∷ raws) =
      first_error (validate_positive_duration raw) (validate_durations raws)

  -- A timeout of a provider, which may be left out.
  unfoldable pub validate_timeout : Bytes → Option ConfigError
  unfolding validate_positive_duration
  validate_timeout raw =
      if not (is_empty (trim_space raw)) then validate_positive_duration (trim_space raw) else none

module _ (trim_space : Bytes → Bytes) (parse_url : Bytes → Option Url)
    (parse_ip : Bytes → Option Ip) where
  -- `isPrivateOrLoopbackHost`
  unfoldable pub is_private_or_loopback_host : Bytes → Bool
  unfolding is_local_ip
  is_private_or_loopback_host host =
      if same (trim_space host) (codes "localhost")
      then true
      else is_local_ip (parse_ip (trim_space host))

  unfoldable pub check_url : Option Url → Option ConfigError
  unfolding is_private_or_loopback_host
  check_url none = some bad_base_url
  check_url (some u) =
      if is_empty u.scheme || is_empty u.host
      then some bad_base_url
      else if same u.scheme (codes "https")
      then none
      else if same u.scheme (codes "http")
      then (if is_private_or_loopback_host u.hostname then none else some bad_base_url)
      else some bad_base_url

  -- `validateProviderBaseURL`
  unfoldable pub validate_provider_base_url : Bytes → Option ConfigError
  unfolding check_url
  validate_provider_base_url raw = check_url (parse_url (trim_space raw))

module _ (cidr_ok : Bytes → Bool) where
  unfoldable pub validate_cidrs : ConfigError → List Bytes → Option ConfigError
  validate_cidrs e [] = none
  validate_cidrs e (cidr ∷ cidrs) =
      let rest = validate_cidrs e cidrs in if not (cidr_ok cidr) then some e else rest

-- The fields that `validateConfig` takes for durations.
abbrev pub durations : Config → List Bytes
durations c =
    c.server.read_timeout ∷ c.server.read_header_timeout ∷ c.server.write_timeout
    ∷ c.server.idle_timeout ∷ c.server.shutdown_timeout ∷ c.upstream.retry_backoff
    ∷ c.upstream.health_check_interval ∷ c.upstream.health_check_timeout
    ∷ c.upstream.breaker_interval ∷ c.upstream.breaker_timeout
    ∷ c.upstream.default_timeout_non_stream ∷ c.upstream.default_timeout_stream ∷ []

module _ (trim_space : Bytes → Bytes) (parse_duration : Bytes → Option ℤ) (cidr_ok : Bytes → Bool)
    (parse_url : Bytes → Option Url) (parse_ip : Bytes → Option Ip) where
  -- A provider whose name is new.
  unfoldable pub validate_provider : ProviderConfig → Option ConfigError
  unfolding first_error validate_provider_base_url validate_timeout
  validate_provider p =
      first_error (validate_provider_base_url trim_space parse_url parse_ip p.base_url) (
        if is_empty p.models
        then some no_models
        else if ltz p.max_retries (pos 0)
        then some negative_max_retries
        else first_error (validate_timeout trim_space parse_duration p.timeout_non_stream)
            (validate_timeout trim_space parse_duration p.timeout_stream))

  -- The loop over the providers.
  unfoldable pub validate_providers : List Bytes → List ProviderConfig → Option ConfigError
  unfolding first_error validate_provider
  validate_providers seen [] = none
  validate_providers seen (p ∷ ps) =
      let rest = validate_providers (p.name ∷ seen) ps in
      if is_empty p.name
      then some empty_provider_name
      else if member p.name seen
      then some duplicate_provider_name
      else first_error (validate_provider p) rest

  -- The last checks of `validateConfig`.
  unfoldable pub check_catalog : Config → Option ConfigError
  unfolding first_error validate_providers validate_token_catalog
  check_catalog c =
      if is_empty c.providers
      then some no_providers
      else first_error (validate_providers [] c.providers) (validate_token_catalog c.auth)

  -- From the check of the networks on.
  unfoldable pub check_networks : Config → Option ConfigError
  unfolding first_error validate_cidrs check_catalog
  check_networks c =
      first_error (validate_cidrs cidr_ok bad_trusted_proxy_cidr c.server.trusted_proxy_cidrs) (
        first_error (validate_cidrs cidr_ok bad_metrics_cidr c.metrics.allowed_cidrs)
          (check_catalog c))

  -- From the check of `auth.rate_limit_qps` on.
  unfoldable pub check_auth : Config → Option ConfigError
  unfolding check_networks
  check_auth c =
      if at_most_zero c.auth.rate_limit_qps
      then some bad_default_qps
      else if lez c.auth.rate_limit_burst (pos 0)
      then some bad_default_burst
      else if is_empty c.auth.tokens
      then some no_tokens
      else check_networks c

  -- `validateConfig`
  unfoldable pub validate_config : Config → Option ConfigError
  unfolding first_error validate_durations check_auth
  validate_config c =
      if lez c.server.port (pos 0) || ltz (pos 65535) c.server.port
      then some bad_port
      else first_error (validate_durations trim_space parse_duration (durations c)) (check_auth c)
