-- ===== src/Health.antt =====
-- The health of the upstream providers, internal/proxy/health.go and internal/proxy/transport.go.
-- The mutexes make each function atomic, so a call is one step on the map.
pub mod Agreement
pub mod Refresh
pub mod Readiness
use strait.Base.{
  ℕ, Bool, true, false, not, ◌&&◌, ◌||◌, Option, none, some, List, [], ◌∷◌, ◌++◌, Bytes, same, leb,
  ◌==◌, if◌then◌else◌, is_empty, Dict, lookup, put,
}

-- `gobreaker.State`
pub data BreakerState : Type 0 where
  closed half_open open_state : BreakerState

-- Who wrote a status.
pub data Source : Type 0 where
  bootstrap active passive : Source

-- `ProviderDependencyStatus`; `none` stands for the empty texts.
pub record ProviderDependencyStatus : Type 0 where
  pub name : Bytes
  pub base_url : Bytes
  pub healthy : Bool
  pub breaker_state : Option BreakerState
  pub status_code : ℕ
  pub last_error : Option Bytes
  pub source : Source
  pub updated_at : ℕ

-- The fields of `config.ProviderConfig` that the health monitor reads.
pub record ProviderConfig : Type 0 where
  pub name : Bytes
  pub base_url : Bytes
  pub health_check_path : Bytes

abbrev pub HealthMap : Type 0
HealthMap = Dict ProviderDependencyStatus

-- `providerHealthVerdict`
pub data Verdict : Type 0 where
  inconclusive healthy_verdict unhealthy_verdict : Verdict

unfoldable pub bootstrap_status : ℕ → ProviderConfig → ProviderDependencyStatus
bootstrap_status now p = record {
  name = p.name;
  base_url = p.base_url;
  healthy = true;
  breaker_state = none;
  status_code = 0;
  last_error = none;
  source = bootstrap;
  updated_at = now;
}

-- The status of one configured provider in the next map.
unfoldable pub kept_status :
    ℕ → ProviderConfig → Option ProviderDependencyStatus → ProviderDependencyStatus
unfolding bootstrap_status
kept_status now p (some s) = record s { base_url = p.base_url }
kept_status now p none = bootstrap_status now p

-- The loop of `RefreshProviderHealthSnapshot` over the configured providers.
unfoldable pub refresh_loop : ℕ → HealthMap → HealthMap → List ProviderConfig → HealthMap
unfolding kept_status
refresh_loop now old next [] = next
refresh_loop now old next (p ∷ ps) =
    refresh_loop now old (put p.name (kept_status now p (lookup p.name old)) next) ps

-- `RefreshProviderHealthSnapshot`
unfoldable pub refresh_provider_health_snapshot : ℕ → List ProviderConfig → HealthMap → HealthMap
unfolding refresh_loop
refresh_provider_health_snapshot now providers old = refresh_loop now old [] providers

-- `classifyPassiveProbeVerdict`: `none` is a missing response, and `failed` is `err != nil`.
unfoldable pub classify_passive_probe_verdict : Option ℕ → Bool → Verdict
classify_passive_probe_verdict none failed = unhealthy_verdict
classify_passive_probe_verdict (some status) failed =
    if failed
    then unhealthy_verdict
    else if status == 401 || status == 403 || status == 404 || status == 408 || status == 429
    then unhealthy_verdict
    else if leb 500 status
    then unhealthy_verdict
    else healthy_verdict

-- The `switch` of `classifyActiveProbeVerdict`.
unfoldable pub active_switch : ℕ → Verdict
active_switch status =
    if status == 200
    then healthy_verdict
    else if status == 408 || status == 429 || leb 500 status
    then unhealthy_verdict
    else if leb 400 status
    then inconclusive
    else healthy_verdict

-- `classifyActiveProbeVerdict`; `trim_space` is `strings.TrimSpace`
unfoldable pub classify_active_probe_verdict :
    (Bytes → Bytes) → ProviderConfig → Option ℕ → Bool → Verdict
unfolding classify_passive_probe_verdict active_switch
classify_active_probe_verdict trim_space p none failed = unhealthy_verdict
classify_active_probe_verdict trim_space p (some status) failed =
    if failed
    then unhealthy_verdict
    else if not (is_empty (trim_space p.health_check_path))
    then classify_passive_probe_verdict (some status) false
    else active_switch status

abbrev pub is_healthy : Verdict → Bool
is_healthy healthy_verdict = true
is_healthy _ = false

-- `updateProviderHealth` at time `now`
unfoldable pub update_provider_health :
    ℕ → Bytes → Bytes → Bool → ℕ → Option Bytes → Source → HealthMap → HealthMap
update_provider_health now name base_url healthy status err source m =
    put name
      (record {
        name = name;
        base_url = base_url;
        healthy = healthy;
        breaker_state = none;
        status_code = status;
        last_error = err;
        source = source;
        updated_at = now;
      })
      m

abbrev is_some : Option Bytes → Bool
is_some none = false
is_some (some e) = true

abbrev status_or_zero : Option ℕ → ℕ
status_or_zero none = 0
status_or_zero (some status) = status

-- `markPassiveProbeResult`; an error is its message
unfoldable pub mark_passive_probe_result :
    ℕ → Bytes → Bytes → Option ℕ → Option Bytes → HealthMap → HealthMap
unfolding classify_passive_probe_verdict update_provider_health
mark_passive_probe_result now name base_url resp err m =
    let verdict = classify_passive_probe_verdict resp (is_some err) in
    update_provider_health now name base_url (is_healthy verdict) (status_or_zero resp) err passive
      m

-- What an active probe comes to: no request could be built, it failed, or a status came back.
pub data Probe : Type 0 where
  build_failed request_failed : Bytes → Probe
  answered : ℕ → Probe

-- The end of `probeProvider`, on the verdict; `status_text` is `http.StatusText`.
unfoldable pub apply_verdict :
    (ℕ → Bytes) → ℕ → ProviderConfig → ℕ → Verdict → HealthMap → HealthMap
unfolding update_provider_health
apply_verdict status_text now p status inconclusive m = m
apply_verdict status_text now p status healthy_verdict m =
    update_provider_health now p.name p.base_url true status none active m
apply_verdict status_text now p status unhealthy_verdict m =
    update_provider_health now p.name p.base_url false status (some (status_text status)) active m

-- `probeProvider`
unfoldable pub probe_provider :
    (Bytes → Bytes) → (ℕ → Bytes) → ℕ → ProviderConfig → Probe → HealthMap → HealthMap
unfolding classify_active_probe_verdict apply_verdict
probe_provider trim_space status_text now p (build_failed e) m =
    update_provider_health now p.name p.base_url false 0 (some e) active m
probe_provider trim_space status_text now p (request_failed e) m =
    update_provider_health now p.name p.base_url false 0 (some e) active m
probe_provider trim_space status_text now p (answered status) m =
    apply_verdict status_text now p status
      (classify_active_probe_verdict trim_space p (some status) false) m

key_with_host : Bytes → Option Bytes → Bytes
key_with_host name none = []
key_with_host name (some []) = []
key_with_host name (some (c ∷ host)) = name ++ (b'@' ∷ c ∷ host)

-- `state != gobreaker.StateOpen`, where the state is known.
abbrev pub breaker_health : Option BreakerState → Bool × Bool
breaker_health none = (false, true)
breaker_health (some open_state) = (true, false)
breaker_health (some _) = (true, true)

-- The status of the snapshot: known, and healthy.
abbrev pub snapshot_health : Option ProviderDependencyStatus → Bool × Bool
snapshot_health none = (false, true)
snapshot_health (some s) = (true, s.healthy)

-- The `switch breakerState` of `GetEffectiveUpstreamStatuses`.
unfoldable pub overlay_status :
    Option BreakerState → ProviderDependencyStatus → ProviderDependencyStatus
overlay_status (some open_state) s = record s { breaker_state = some open_state; healthy = false }
overlay_status (some half_open) s = record s { breaker_state = some half_open }
overlay_status _ s = s

-- `url.Parse` gives the host of a base URL, or an error; `breakers` is `cbMap` with the state of
-- each breaker.
module _ (host_of : Bytes → Option Bytes) (breakers : Bytes → Option BreakerState) where
  -- `breakerKeyForProvider`
  unfoldable pub breaker_key_for_provider : Bytes → Bytes → Bytes
  unfolding key_with_host
  breaker_key_for_provider name base_url =
      if is_empty name then [] else key_with_host name (host_of base_url)

  -- `circuitBreakerStateForProvider`: `none` is not known
  unfoldable pub circuit_breaker_state_for_provider : Bytes → Bytes → Option BreakerState
  unfolding breaker_key_for_provider
  circuit_breaker_state_for_provider name base_url =
      let key = breaker_key_for_provider name base_url in
      if is_empty key then none else breakers key

  -- `resolveCircuitBreakerHealth`: known, and healthy
  unfoldable pub resolve_circuit_breaker_health : Bytes → Bytes → Bool × Bool
  resolve_circuit_breaker_health name base_url =
      breaker_health (circuit_breaker_state_for_provider name base_url)

  -- `resolveProviderHealth`
  unfoldable pub resolve_provider_health : HealthMap → Bytes → Bytes → Bool × Bool
  unfolding resolve_circuit_breaker_health
  resolve_provider_health m name base_url =
      let (known, healthy) = resolve_circuit_breaker_health name base_url in
      if known && not healthy then (true, false) else snapshot_health (lookup name m)

  unfoldable pub overlay_one :
      ProviderConfig → Option ProviderDependencyStatus → HealthMap → HealthMap
  unfolding overlay_status
  overlay_one p none m = m
  overlay_one p (some s) m =
      put p.name (overlay_status (circuit_breaker_state_for_provider p.name p.base_url) s) m

  -- `GetEffectiveUpstreamStatuses`: the loop over the configured providers
  unfoldable pub get_effective_upstream_statuses : List ProviderConfig → HealthMap → HealthMap
  unfolding overlay_one
  get_effective_upstream_statuses [] m = m
  get_effective_upstream_statuses (p ∷ ps) m =
      get_effective_upstream_statuses ps (overlay_one p (lookup p.name m) m)
