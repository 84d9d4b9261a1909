-- ===== src/Router/Order.antt =====
-- `applyHealthAwareRouting` of internal/middleware/router.go.
use strait.Base.{
  Bool, true, false, not, ◌&&◌, ◌||◌, Option, none, some, List, [], ◌∷◌, ◌++◌, length, ltb,
  if◌then◌else◌,
}
use strait.Gateway.{
  ProviderRoute, RouteCandidateTrace, RoutePolicy, configured_order, healthy_first,
}

-- `routeEntry`
pub record RouteEntry : Type 0 where
  pub candidates : List ProviderRoute
  pub route_candidates : List RouteCandidateTrace

-- `providerHealthResolver`, with the results `known` and `healthy`
abbrev pub HealthResolver : Type 0
HealthResolver = ProviderRoute → Bool × Bool

-- The variables of the loop.
pub record Split : Type 0 where
  pub healthy_candidates : List ProviderRoute
  pub unhealthy_candidates : List ProviderRoute
  pub healthy_traces : List RouteCandidateTrace
  pub unhealthy_traces : List RouteCandidateTrace
  pub saw_unhealthy : Bool
  pub reordered : Bool

-- `known && !healthy`
unfoldable pub known_unhealthy : HealthResolver → ProviderRoute → Bool
known_unhealthy resolver c = (resolver c).0 && not (resolver c).1

-- One round of the loop.
unfoldable pub place : HealthResolver → ProviderRoute → RouteCandidateTrace → Split → Split
unfolding known_unhealthy
place resolver c t s =
    if known_unhealthy resolver c
    then record s {
      saw_unhealthy = true;
      unhealthy_candidates = s.unhealthy_candidates ++ c ∷ [];
      unhealthy_traces = s.unhealthy_traces ++ t ∷ [];
    }
    else record s {
      reordered = s.reordered || s.saw_unhealthy;
      healthy_candidates = s.healthy_candidates ++ c ∷ [];
      healthy_traces = s.healthy_traces ++ t ∷ [];
    }

-- The loop; `none` where `entry.routeCandidates[i]` is out of range.
unfoldable pub split_loop :
    HealthResolver → List ProviderRoute → List RouteCandidateTrace → Split → Option Split
unfolding place
split_loop resolver [] ts s = some s
split_loop resolver (c ∷ cs) [] s = none
split_loop resolver (c ∷ cs) (t ∷ ts) s = split_loop resolver cs ts (place resolver c t s)

unfoldable pub no_split : Split
no_split = record {
  healthy_candidates = [];
  unhealthy_candidates = [];
  healthy_traces = [];
  unhealthy_traces = [];
  saw_unhealthy = false;
  reordered = false;
}

-- Behind the loop.
unfoldable pub join : RouteEntry → Split → RouteEntry × RoutePolicy
join entry s = if not s.reordered then (entry, configured_order) else (
  record {
    candidates = s.healthy_candidates ++ s.unhealthy_candidates;
    route_candidates = s.healthy_traces ++ s.unhealthy_traces;
  },
  healthy_first,
)

unfoldable pub reorder : HealthResolver → RouteEntry → Option (RouteEntry × RoutePolicy)
unfolding split_loop no_split join
reorder resolver entry =
    if ltb (length entry.candidates) 2
    then some (entry, configured_order)
    else elim (split_loop resolver entry.candidates entry.route_candidates no_split) [
      | none ↦ none
      | some s ↦ some (join entry s)
    ]

-- `applyHealthAwareRouting`; `none` is a panic, for an index out of range.
unfoldable pub apply_health_aware_routing :
    Option HealthResolver → RouteEntry → Option (RouteEntry × RoutePolicy)
unfolding reorder
apply_health_aware_routing none entry = some (entry, configured_order)
apply_health_aware_routing (some resolver) entry = reorder resolver entry
