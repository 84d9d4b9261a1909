-- ===== src/Examples/Providers.antt =====
-- Providers in the router, the health snapshot and the readiness answer.
use strait.Base.{
  Bool, true, false, ◌≡◌, ◌↔◌, ◌⊎◌, refl, Option, none, some, List, [], ◌∷◌, Bytes, codes, same,
  is_empty, lookup,
}
use strait.Gateway.{ProviderRoute}
use strait.Health.{
  ProviderConfig, ProviderDependencyStatus, HealthMap, BreakerState, open_state, bootstrap,
  refresh_provider_health_snapshot,
}
use strait.Health.Refresh.{Carries, refresh_exact}
use strait.Health.Readiness.{
  AllDown, unhealthy, build_ready_health_response, build_ready_health_response_exact,
}
use strait.Router.Table.{RequestedBody, model_router}
use strait.Router.Sound.{serving, IsRouted, model_router_exact}
use strait.Router.Table

abbrev configured : Bytes → List Bytes → Table.ProviderConfig
configured name models = record {
  name = name;
  base_url = codes "https://h";
  api_key = [];
  models = models;
  max_retries = 1;
  health_check_path = [];
  timeout_non_stream = [];
  timeout_stream = [];
}

abbrev two_providers : List Table.ProviderConfig
two_providers =
    configured (codes "a") (codes "m" ∷ [])
    ∷ configured (codes "b") (codes "n" ∷ codes "m" ∷ [])
    ∷ []

-- Provider "a" is known to be unhealthy, provider "b" to be healthy.
abbrev a_down : ProviderRoute → Bool × Bool
a_down p = (true, same p.name (codes "b"))

abbrev body_for_m : RequestedBody
body_for_m = record { decode_failed = false; requested_model = codes "m" }

model_router_exact_example :
    IsRouted
      (some a_down)
      (codes "m")
      (serving (codes "m") 0 two_providers)
      (model_router two_providers (some a_down) (some body_for_m))
model_router_exact_example = model_router_exact two_providers (some a_down) body_for_m refl refl

abbrev provider : Bytes → ProviderConfig
provider name = record { name = name; base_url = codes "https://h"; health_check_path = [] }

abbrev status_of : Bytes → ProviderDependencyStatus
status_of name = record {
  name = name;
  base_url = codes "https://old";
  healthy = true;
  breaker_state = none;
  status_code = 200;
  last_error = none;
  source = bootstrap;
  updated_at = 1;
}

abbrev snapshot : HealthMap
snapshot = (codes "a", status_of (codes "a")) ∷ (codes "c", status_of (codes "c")) ∷ []

abbrev one_host : Bytes → Option Bytes
one_host url = some (codes "h")

abbrev all_open : Bytes → Option BreakerState
all_open key = some open_state

refresh_exact_example :
    (lookup (codes "c") (
        refresh_provider_health_snapshot 7
          (provider (codes "b") ∷ provider (codes "a") ∷ [])
          snapshot)
      ≡ none)
    × (st : ProviderDependencyStatus) × (lookup (codes "a") (
          refresh_provider_health_snapshot 7
            (provider (codes "b") ∷ provider (codes "a") ∷ [])
            snapshot)
        ≡ some st)
    × Carries (provider (codes "a")) (lookup (codes "a") snapshot) st
unfolding same
refresh_exact_example =
    refresh_exact 7 snapshot (provider (codes "b") ∷ []) [] (provider (codes "a")) (codes "c") tt
      (refl, (refl, tt))

build_ready_health_response_exact_example :
    (((build_ready_health_response snapshot).1 ≡ 503)
      ↔ ((is_empty snapshot ≡ false) × AllDown snapshot))
    × (((build_ready_health_response snapshot).0.status ≡ unhealthy)
        ↔ ((build_ready_health_response snapshot).1 ≡ 503))
    × (((build_ready_health_response snapshot).1 ≡ 200)
        ⊎ ((build_ready_health_response snapshot).1 ≡ 503))
build_ready_health_response_exact_example = build_ready_health_response_exact snapshot
