-- ===== src/Config/Accepts.antt =====
-- The configurations that `validateConfig` of internal/config/config.go accepts, said without it.
use strait.Base.{
  Float64, at_most_zero, at_most_zero_iff, IsPositiveOrNan, Every, is_empty_iff, Bool, true, ◌||◌,
  Option, none, some, List, [], ◌∷◌, Bytes, is_empty, ltz, lez, if◌then◌else◌, ℤ, pos, ◌≤ℤ◌, ◌≡◌,
  ◌≢◌, ◌↔◌, ◌⊎◌, refl, arith,
}
use strait.Config.Types.{
  ClientTokenConfig, ProviderConfig, Config, ConfigError, bad_port, bad_default_qps,
  bad_default_burst, no_tokens, bad_trusted_proxy_cidr, bad_metrics_cidr,
}
use strait.Config.Validate.{
  Url, Ip, first_error, validate_token_catalog, validate_positive_duration, validate_timeout,
  validate_provider_base_url, durations, check_url, validate_provider, validate_providers,
  check_catalog, check_networks, check_auth, validate_config,
}
use strait.Config.WellFormed.{
  Apart, IsDuration, SafeUrl, Unseen, WellFormedTokens, in_use, names_of, values_of,
  first_error_iff, Unseen-cons, check_duration_iff, check_tokens_iff, validate_durations_iff,
  validate_cidrs_iff, check_url_iff,
}

then_iff :
    (P Q : Type 0) (m n : Option ConfigError)
    → (m ≡ none) ↔ P
    → (n ≡ none) ↔ Q
    → (first_error m n ≡ none) ↔ (P × Q)
then_iff P Q m n h k =
    let f = first_error_iff m n in
    (λ e. let r = f.0 e in (h.0 r.0, k.0 r.1), λ e. f.1 (h.1 e.0, k.1 e.1))

port_guard :
    (P : Type 0) (m : Option ConfigError) (port : ℤ)
    → (m ≡ none) ↔ P
    → ((if lez port (pos 0) || ltz (pos 65535) port then some bad_port else m) ≡ none)
      ↔ ((pos 1 ≤ℤ port) × (port ≤ℤ pos 65535) × P)
port_guard P m port h = ground (arith, h)

auth_guards :
    (P : Type 0) (m : Option ConfigError) (qps : Float64) (burst : ℤ)
    (tokens : List ClientTokenConfig)
    → (m ≡ none) ↔ P
    → ((if at_most_zero qps
          then some bad_default_qps
          else if lez burst (pos 0)
          then some bad_default_burst
          else if is_empty tokens
          then some no_tokens
          else m)
        ≡ none)
      ↔ (IsPositiveOrNan qps × (pos 1 ≤ℤ burst) × (tokens ≢ []) × P)
auth_guards P m qps burst tokens h = ground (arith, h, at_most_zero_iff qps, is_empty_iff tokens)

abbrev provider_names : List ProviderConfig → List Bytes
provider_names [] = []
provider_names (p ∷ ps) = p.name ∷ provider_names ps

module _ (trim_space : Bytes → Bytes) (parse_duration : Bytes → Option ℤ) where
  -- A timeout that may be left out.
  abbrev IsTimeout : Bytes → Type 0
  IsTimeout raw = (trim_space raw ≡ []) ⊎ IsDuration trim_space parse_duration (trim_space raw)

  validate_timeout_iff :
      (raw : Bytes) → (validate_timeout trim_space parse_duration raw ≡ none) ↔ IsTimeout raw
  unfolding validate_timeout validate_positive_duration
  validate_timeout_iff raw = ground (
    arith,
    is_empty_iff (trim_space raw),
    check_duration_iff (parse_duration (trim_space (trim_space raw))),
  )

module _ (trim_space : Bytes → Bytes) (parse_duration : Bytes → Option ℤ) (cidr_ok : Bytes → Bool)
    (parse_url : Bytes → Option Url) (parse_ip : Bytes → Option Ip) where
  -- A provider has a name, a safe base URL, a model, no negative number of retries, and timeouts.
  abbrev FitsProvider : ProviderConfig → Type 0
  FitsProvider p =
      (p.name ≢ [])
      × SafeUrl trim_space parse_url parse_ip (parse_url (trim_space p.base_url))
      × (p.models ≢ [])
      × (pos 0 ≤ℤ p.max_retries)
      × IsTimeout trim_space parse_duration p.timeout_non_stream
      × IsTimeout trim_space parse_duration p.timeout_stream

  validate_provider_iff :
      (p : ProviderConfig)
      → ((p.name ≢ [])
          × (validate_provider trim_space parse_duration cidr_ok parse_url parse_ip p ≡ none))
        ↔ FitsProvider p
  unfolding validate_provider validate_provider_base_url
  validate_provider_iff p = ground (
    arith,
    is_empty_iff p.models,
    check_url_iff trim_space parse_url parse_ip (parse_url (trim_space p.base_url)),
    validate_timeout_iff trim_space parse_duration p.timeout_non_stream,
    validate_timeout_iff trim_space parse_duration p.timeout_stream,
    first_error_iff (validate_timeout trim_space parse_duration p.timeout_non_stream)
        (validate_timeout trim_space parse_duration p.timeout_stream),
    first_error_iff (check_url trim_space parse_url parse_ip (parse_url (trim_space p.base_url))) _,
  )

  abbrev pub WellFormedProviders : List ProviderConfig → Type 0
  WellFormedProviders ps = Every FitsProvider ps × Apart (provider_names ps)

  validate_providers_iff :
      (seen : List Bytes) (ps : List ProviderConfig)
      → (validate_providers trim_space parse_duration cidr_ok parse_url parse_ip seen ps ≡ none)
        ↔ (Unseen seen (provider_names ps) × WellFormedProviders ps)
  unfolding validate_providers
  validate_providers_iff seen [] = ground arith
  validate_providers_iff seen (p ∷ ps) = ground (
    arith,
    is_empty_iff p.name,
    validate_provider_iff p,
    Unseen-cons p.name seen (provider_names ps),
    validate_providers_iff (p.name ∷ seen) ps,
    first_error_iff (validate_provider trim_space parse_duration cidr_ok parse_url parse_ip p) (
        validate_providers trim_space parse_duration cidr_ok parse_url parse_ip (p.name ∷ seen) ps),
  )

  Unseen-nothing : (ns : List Bytes) → Unseen [] ns
  Unseen-nothing [] = tt
  Unseen-nothing (n ∷ ns) = (refl, Unseen-nothing ns)

  providers_iff :
      (ps : List ProviderConfig)
      → (validate_providers trim_space parse_duration cidr_ok parse_url parse_ip [] ps ≡ none)
        ↔ WellFormedProviders ps
  providers_iff ps =
      ground (arith, validate_providers_iff [] ps, Unseen-nothing (provider_names ps))

  tokens_iff :
      (c : Config) → (validate_token_catalog c.auth ≡ none) ↔ WellFormedTokens c.auth.tokens
  unfolding validate_token_catalog
  tokens_iff c = ground (
    arith,
    check_tokens_iff [] [] c.auth.tokens,
    Unseen-nothing (names_of (in_use c.auth.tokens)),
    Unseen-nothing (values_of (in_use c.auth.tokens)),
  )

  abbrev GoodCatalog : Config → Type 0
  GoodCatalog c =
      (c.providers ≢ []) × WellFormedProviders c.providers × WellFormedTokens c.auth.tokens

  check_catalog_iff :
      (c : Config)
      → (check_catalog trim_space parse_duration cidr_ok parse_url parse_ip c ≡ none)
        ↔ GoodCatalog c
  unfolding check_catalog
  check_catalog_iff c = ground (
    arith,
    is_empty_iff c.providers,
    first_error_iff
        (validate_providers trim_space parse_duration cidr_ok parse_url parse_ip [] c.providers)
        (validate_token_catalog c.auth),
    providers_iff c.providers,
    tokens_iff c,
  )

  abbrev GoodNetworks : Config → Type 0
  GoodNetworks c =
      Every (λ cidr. cidr_ok cidr ≡ true) c.server.trusted_proxy_cidrs
      × (Every (λ cidr. cidr_ok cidr ≡ true) c.metrics.allowed_cidrs × GoodCatalog c)

  check_networks_iff :
      (c : Config)
      → (check_networks trim_space parse_duration cidr_ok parse_url parse_ip c ≡ none)
        ↔ GoodNetworks c
  unfolding check_networks
  check_networks_iff c =
      then_iff _ _ _ _
        (validate_cidrs_iff cidr_ok bad_trusted_proxy_cidr c.server.trusted_proxy_cidrs)
        (then_iff _ _ _ _ (validate_cidrs_iff cidr_ok bad_metrics_cidr c.metrics.allowed_cidrs)
          (check_catalog_iff c))

  abbrev GoodAuth : Config → Type 0
  GoodAuth c =
      IsPositiveOrNan c.auth.rate_limit_qps
      × (pos 1 ≤ℤ c.auth.rate_limit_burst)
      × (c.auth.tokens ≢ [])
      × GoodNetworks c

  check_auth_iff :
      (c : Config)
      → (check_auth trim_space parse_duration cidr_ok parse_url parse_ip c ≡ none) ↔ GoodAuth c
  unfolding check_auth
  check_auth_iff c =
      auth_guards _ _ c.auth.rate_limit_qps c.auth.rate_limit_burst c.auth.tokens
        (check_networks_iff c)

  -- The fields that have to be positive durations.
  abbrev GoodDurations : Config → Type 0
  GoodDurations c = Every (IsDuration trim_space parse_duration) (
      c.server.read_timeout ∷ c.server.read_header_timeout ∷ c.server.write_timeout
      ∷ c.server.idle_timeout ∷ c.server.shutdown_timeout ∷ c.upstream.retry_backoff
      ∷ c.upstream.health_check_interval ∷ c.upstream.health_check_timeout
      ∷ c.upstream.breaker_interval ∷ c.upstream.breaker_timeout
      ∷ c.upstream.default_timeout_non_stream ∷ c.upstream.default_timeout_stream ∷ [])

  -- A configuration that can be run.
  abbrev pub WellFormedConfig : Config → Type 0
  WellFormedConfig c =
      (pos 1 ≤ℤ c.server.port) × (c.server.port ≤ℤ pos 65535) × (GoodDurations c × GoodAuth c)

  -- The validation of a configuration finds no error exactly when the port is from 1 to 65535, the
  -- twelve durations and the default burst are positive, the default rate is positive or NaN, the
  -- networks are read, there are tokens and providers, the providers have different names, base
  -- URLs of the scheme https, or http to localhost or to a loopback or private address, models, no
  -- negative number of retries and positive timeouts or none, and the tokens in use have different
  -- names and values, none of them empty, a burst that is not negative and a rate that is not
  -- negative or NaN.
  pub validate_config_iff :
      (c : Config)
      → (validate_config trim_space parse_duration cidr_ok parse_url parse_ip c ≡ none)
        ↔ WellFormedConfig c
  unfolding validate_config
  validate_config_iff c = port_guard _ _ c.server.port (
      then_iff _ _ _ _ (validate_durations_iff trim_space parse_duration (durations c))
        (check_auth_iff c))

  pub WellFormedConfig-tokens : (c : Config) → WellFormedConfig c → WellFormedTokens c.auth.tokens
  WellFormedConfig-tokens c (_, _, (_, (_, _, _, (_, (_, (_, _, tokens)))))) = tokens
