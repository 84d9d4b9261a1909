-- ===== src/Router/Table.antt =====
-- `buildRouteTable`, `lookupRoute` and `ModelRouterMiddleware` of internal/middleware/router.go.
use strait.Base.{
  ℕ, ◌+◌, Bool, Option, none, some, List, [], ◌∷◌, ◌++◌, Bytes, Dict, lookup, put, is_empty,
  if◌then◌else◌,
}
use strait.Gateway.{
  ProviderRoute, RouteCandidateTrace, RoutePolicy, GatewayContext, set_active_provider,
}
use strait.Router.Order.{RouteEntry, HealthResolver, apply_health_aware_routing}

-- `ProviderConfig` of internal/config/config.go, as `buildRouteTable` reads it.
pub record ProviderConfig : Type 0 where
  pub name : Bytes
  pub base_url : Bytes
  pub api_key : Bytes
  pub models : List Bytes
  pub max_retries : ℕ
  pub health_check_path : Bytes
  pub timeout_non_stream : Bytes
  pub timeout_stream : Bytes

unfoldable pub route_of : ℕ → ProviderConfig → ProviderRoute
route_of i provider = record {
  name = provider.name;
  base_url = provider.base_url;
  api_key = provider.api_key;
  priority = i + 1;
  max_retries = provider.max_retries;
  health_check_path = provider.health_check_path;
  timeout_non_stream = provider.timeout_non_stream;
  timeout_stream = provider.timeout_stream;
}

-- A missing key reads as the empty slice.
unfoldable pub providers_of : Bytes → Dict (List ProviderRoute) → List ProviderRoute
providers_of m by_model = elim (lookup m by_model) [ none ↦ [] | some ps ↦ ps ]

-- `for _, supportedModel := range provider.Models`
unfoldable pub add_models :
    ProviderRoute → List Bytes → Dict (List ProviderRoute) → Dict (List ProviderRoute)
unfolding providers_of
add_models route [] by_model = by_model
add_models route (m ∷ ms) by_model =
    add_models route ms (put m (providers_of m by_model ++ route ∷ []) by_model)

-- `for i := range cfg.Providers`
unfoldable pub add_providers :
    ℕ → List ProviderConfig → Dict (List ProviderRoute) → Dict (List ProviderRoute)
unfolding add_models route_of
add_providers i [] by_model = by_model
add_providers i (p ∷ ps) by_model =
    add_providers (i + 1) ps (add_models (route_of i p) p.models by_model)

unfoldable pub trace_of : ProviderRoute → RouteCandidateTrace
trace_of c = record { provider = c.name; priority = c.priority }

-- `buildRouteCandidates`
unfoldable pub build_route_candidates : List ProviderRoute → List RouteCandidateTrace
unfolding trace_of
build_route_candidates [] = []
build_route_candidates (c ∷ cs) = trace_of c ∷ build_route_candidates cs

-- The entries of the table, for each model; the order of a Go map is not defined.
unfoldable pub entries : Dict (List ProviderRoute) → Dict RouteEntry
unfolding build_route_candidates
entries [] = []
entries ((m, providers) ∷ rest) =
    (m, record { candidates = providers; route_candidates = build_route_candidates providers })
    ∷ entries rest

-- `buildRouteTable`
unfoldable pub build_route_table : List ProviderConfig → Dict RouteEntry
unfolding entries add_providers
build_route_table providers = entries (add_providers 0 providers [])

-- The results of a lookup: a panic, no route, or the candidates in their order.
pub data Route : Type 0 where
  out_of_range no_route : Route
  found : RouteEntry → RoutePolicy → Route

unfoldable pub resolved : Option (RouteEntry × RoutePolicy) → Route
resolved none = out_of_range
resolved (some (entry, policy)) = found entry policy

-- `lookupRoute`, in a configured gateway
unfoldable pub lookup_route : List ProviderConfig → Option HealthResolver → Bytes → Route
unfolding resolved build_route_table apply_health_aware_routing
lookup_route providers resolver target_model =
    if is_empty target_model
    then no_route
    else elim (lookup target_model (build_route_table providers)) [
      | none ↦ no_route
      | some entry ↦ resolved (apply_health_aware_routing resolver entry)
    ]

-- The error replies of `ModelRouterMiddleware`, by their codes.
pub data RouteError : Type 0 where
  missing_body_context invalid_json missing_required_field model_not_found : RouteError

-- What `ModelRouterMiddleware` does with a request: an error reply with its status, a panic, or a
-- call of the next handler with this gateway context.
pub data RouterReply : Type 0 where
  rejected : ℕ → RouteError → RouterReply
  panics : RouterReply
  next : GatewayContext → RouterReply

-- The parts of the body context that the middleware reads.
pub record RequestedBody : Type 0 where
  pub decode_failed : Bool
  pub requested_model : Bytes

unfoldable pub gateway_context : Bytes → RouteEntry → RoutePolicy → ProviderRoute → GatewayContext
unfolding set_active_provider
gateway_context m entry policy active = set_active_provider active (record {
  requested_model = m;
  target_provider = [];
  target_model = m;
  api_key = [];
  base_url = [];
  candidate_providers = entry.candidates;
  route_selection_policy = policy;
  route_candidates = entry.route_candidates;
  attempted_providers = [];
  upstream_attempts = [];
  failover_events = [];
  failover_count = 0;
  stream_outcome = none;
  stream_chunks = 0;
  stream_bytes = 0;
  final_error = none;
})

-- `route.candidates[0]`
unfoldable pub dispatch : Bytes → RouteEntry → RoutePolicy → List ProviderRoute → RouterReply
unfolding gateway_context
dispatch m entry policy [] = panics
dispatch m entry policy (p ∷ ps) = next (gateway_context m entry policy p)

unfoldable pub route_reply : Bytes → Route → RouterReply
unfolding dispatch
route_reply m out_of_range = panics
route_reply m no_route = rejected 404 model_not_found
route_reply m (found entry policy) = dispatch m entry policy entry.candidates

-- `ModelRouterMiddleware`
unfoldable pub model_router :
    List ProviderConfig → Option HealthResolver → Option RequestedBody → RouterReply
unfolding route_reply lookup_route
model_router providers resolver none = rejected 500 missing_body_context
model_router providers resolver (some body) =
    if body.decode_failed
    then rejected 400 invalid_json
    else if is_empty body.requested_model
    then rejected 400 missing_required_field
    else route_reply body.requested_model (lookup_route providers resolver body.requested_model)
