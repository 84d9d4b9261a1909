-- ===== src/Health/Readiness.antt =====
-- The readiness answer, internal/router/router.go.
use strait.Base.{
  ℕ, Bool, true, false, not, ◌&&◌, ◌≡◌, ◌↔◌, ◌⊎◌, refl, arith, Option, none, some, List, [], ◌∷◌,
  ◌++◌, is_empty, if◌then◌else◌,
}
use strait.Health.{BreakerState, Source, bootstrap, HealthMap}

-- The texts of `Status`.
pub data Readiness : Type 0 where
  ok degraded unhealthy : Readiness

pub data Feature : Type 0 where
  provider_health_unverified all_providers_down : Feature

-- `healthResponse`
pub record HealthResponse : Type 0 where
  pub status : Readiness
  pub degraded_features : List Feature

abbrev from_bootstrap : Source → Bool
from_bootstrap bootstrap = true
from_bootstrap _ = false

abbrev is_unset : Option BreakerState → Bool
is_unset none = true
is_unset (some b) = false

-- The loop of `providersNeedHealthVerification`; a map is read in any order.
unfoldable pub need_verification_loop : Bool → HealthMap → Bool
need_verification_loop unverified [] = unverified
need_verification_loop unverified ((k, s) ∷ m) =
    let rest =
      need_verification_loop
        (if from_bootstrap s.source && is_unset s.breaker_state then true else unverified) m in
    if not (from_bootstrap s.source) && s.healthy then false else rest

-- `providersNeedHealthVerification`
unfoldable pub providers_need_health_verification : HealthMap → Bool
unfolding need_verification_loop
providers_need_health_verification m = if is_empty m then false else need_verification_loop false m

-- The loop that looks for a healthy provider.
unfoldable pub all_unhealthy : HealthMap → Bool
all_unhealthy [] = true
all_unhealthy ((k, s) ∷ m) = let rest = all_unhealthy m in if s.healthy then false else rest

-- `buildReadyHealthResponse`: the response and its HTTP status
unfoldable pub build_ready_health_response : HealthMap → HealthResponse × ℕ
unfolding providers_need_health_verification all_unhealthy
build_ready_health_response m =
    let verify = providers_need_health_verification m in
    let features = if verify then provider_health_unverified ∷ [] else [] in
    let down = not (is_empty m) && all_unhealthy m in
    (
      record {
        status = if down then unhealthy else if verify then degraded else ok;
        degraded_features = if down then features ++ all_providers_down ∷ [] else features;
      },
      if down then 503 else 200,
    )

-- Every provider of the map is down.
abbrev pub AllDown : HealthMap → Type 0
AllDown [] = Unit
AllDown ((k, s) ∷ m) = (s.healthy ≡ false) × AllDown m

all_unhealthy_iff : (m : HealthMap) → (all_unhealthy m ≡ true) ↔ AllDown m
unfolding all_unhealthy
all_unhealthy_iff [] = (λ h. tt, λ h. refl)
all_unhealthy_iff ((k, s) ∷ m) = ground (arith, all_unhealthy_iff m)

-- `/health/ready` answers 503 exactly when there are providers and all are down, and its status is
-- "unhealthy" exactly then; otherwise it answers 200.
pub build_ready_health_response_exact :
    (m : HealthMap)
    → (((build_ready_health_response m).1 ≡ 503) ↔ ((is_empty m ≡ false) × AllDown m))
      × (((build_ready_health_response m).0.status ≡ unhealthy)
          ↔ ((build_ready_health_response m).1 ≡ 503))
      × (((build_ready_health_response m).1 ≡ 200) ⊎ ((build_ready_health_response m).1 ≡ 503))
unfolding build_ready_health_response
build_ready_health_response_exact m = ground (arith, all_unhealthy_iff m)
