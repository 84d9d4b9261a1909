-- ===== src/Proxy/Timeout.antt =====
-- `providerTimeout` of internal/proxy/timeout.go, and the timeouts that `validateConfig` of
-- internal/config/config.go accepts. `parse_duration` stands for `time.ParseDuration`, in nanoseconds.
use strait.Base.{
  Bool, true, false, Option, none, some, [], Bytes, is_empty, ltz, lez, if◌then◌else◌, ℤ, pos, ◌≤ℤ◌,
  ◌≡◌, refl, arith,
}
use strait.Gateway.{ProviderRoute}
use strait.Config.Types.{UpstreamConfig}
use strait.Config.Validate.{validate_timeout, validate_positive_duration, check_duration}

unfoldable pub positive_or_zero : Option ℤ → ℤ
positive_or_zero none = pos 0
positive_or_zero (some d) = if lez d (pos 0) then pos 0 else d

module _ (parse_duration : Bytes → Option ℤ) where
  -- `parseDuration`
  unfoldable pub parse_timeout : Bytes → ℤ
  unfolding positive_or_zero
  parse_timeout s = if is_empty s then pos 0 else positive_or_zero (parse_duration s)

  -- The first that is above zero.
  unfoldable pub first_timeout : Bytes → Bytes → ℤ → ℤ
  unfolding parse_timeout
  first_timeout own default fallback =
      if ltz (pos 0) (parse_timeout own)
      then parse_timeout own
      else if ltz (pos 0) (parse_timeout default)
      then parse_timeout default
      else fallback

  -- `providerTimeout`
  unfoldable pub provider_timeout : UpstreamConfig → ProviderRoute → Bool → ℤ
  unfolding first_timeout
  provider_timeout u p is_stream =
      if is_stream
      then first_timeout p.timeout_stream u.default_timeout_stream (pos 300000000000)
      else first_timeout p.timeout_non_stream u.default_timeout_non_stream (pos 120000000000)

  first_timeout-positive :
      (own default : Bytes) (fallback : ℤ)
      → pos 1 ≤ℤ fallback
      → pos 1 ≤ℤ first_timeout own default fallback
  unfolding first_timeout
  first_timeout-positive own default fallback h = ground arith

  -- The timeout of an attempt is at least one nanosecond, whatever the configuration says.
  pub provider_timeout-positive :
      (u : UpstreamConfig) (p : ProviderRoute) (is_stream : Bool)
      → pos 1 ≤ℤ provider_timeout u p is_stream
  unfolding provider_timeout
  provider_timeout-positive u p true =
      first_timeout-positive p.timeout_stream u.default_timeout_stream _ (omega arith)
  provider_timeout-positive u p false =
      first_timeout-positive p.timeout_non_stream u.default_timeout_non_stream _ (omega arith)

  parse_timeout-none : (s : Bytes) → parse_duration s ≡ none → parse_timeout s ≡ pos 0
  unfolding parse_timeout
  parse_timeout-none s h = rw h (ground arith)

  no_own_timeout :
      (own default : Bytes) (fallback : ℤ)
      → parse_duration own ≡ none
      → first_timeout own default fallback ≡ first_timeout [] default fallback
  unfolding first_timeout
  no_own_timeout own default fallback h = rw (parse_timeout-none own h) refl

  module _ (trim_space : Bytes → Bytes) where
    accepted_timeout :
        (raw : Bytes) (d : ℤ)
        → parse_duration (trim_space (trim_space raw)) ≡ some d
        → pos 1 ≤ℤ d
        → validate_timeout trim_space parse_duration raw ≡ none
    unfolding validate_timeout validate_positive_duration check_duration
    accepted_timeout raw d h l = rw h (ground (arith, l))

    -- A timeout of a provider that is a duration only without the white space around it is accepted,
    -- and has no effect.
    pub padded_timeout-ignored :
        (u : UpstreamConfig) (p : ProviderRoute) (d : ℤ)
        → parse_duration (trim_space (trim_space p.timeout_non_stream)) ≡ some d
        → pos 1 ≤ℤ d
        → parse_duration p.timeout_non_stream ≡ none
        → (validate_timeout trim_space parse_duration p.timeout_non_stream ≡ none)
          × (provider_timeout u p false
              ≡ provider_timeout u (record p { timeout_non_stream = [] }) false)
    unfolding provider_timeout
    padded_timeout-ignored u p d h l k = (
      accepted_timeout p.timeout_non_stream d h l,
      no_own_timeout p.timeout_non_stream u.default_timeout_non_stream _ k,
    )
