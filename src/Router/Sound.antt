-- ===== src/Router/Sound.antt =====
-- What the model router of internal/middleware/router.go decides, from the configuration alone.
use strait.Base.{
  ℕ, ◌+◌, false, Option, none, some, List, [], ◌∷◌, ◌++◌, append-nil, append_assoc, Bytes, same,
  same_iff, Dict, lookup, put, lookup-put, is_empty, if◌then◌else◌, ◌≡◌, refl, sym, ap, ◌∙◌, arith,
  Bool-cases, not, inl, inr,
}
use strait.Gateway.{
  ProviderRoute, RoutePolicy, RouteCandidateTrace, GatewayContext, noted, set_active_provider,
  note_provider_attempt, last_is,
}
use strait.Router.Order.{RouteEntry, HealthResolver, apply_health_aware_routing}
use strait.Router.Table.{
  ProviderConfig, route_of, providers_of, add_models, add_providers, build_route_candidates,
  entries, build_route_table, no_route, resolved, lookup_route, model_not_found, RouterReply,
  rejected, RequestedBody, dispatch, route_reply, model_router, trace_of, gateway_context, next,
}
use strait.Router.Preferred.{preferred, policy_for, entry_of, apply-preferred, is_down, keep}

-- The route of the provider at index `i` of the configuration.
abbrev configured : ℕ → ProviderConfig → ProviderRoute
configured i p = record {
  name = p.name;
  base_url = p.base_url;
  api_key = p.api_key;
  priority = i + 1;
  max_retries = p.max_retries;
  health_check_path = p.health_check_path;
  timeout_non_stream = p.timeout_non_stream;
  timeout_stream = p.timeout_stream;
}

abbrev mentions : Bytes → ProviderRoute → List Bytes → List ProviderRoute
mentions m route [] = []
mentions m route (j ∷ ms) =
    let rest = mentions m route ms in if same j m then route ∷ rest else rest

-- The candidates for a model in the order of the configuration, one for each mention of the model.
abbrev pub serving : Bytes → ℕ → List ProviderConfig → List ProviderRoute
serving m i [] = []
serving m i (p ∷ ps) = mentions m (configured i p) p.models ++ serving m (i + 1) ps

abbrev traces : List ProviderRoute → List RouteCandidateTrace
traces [] = []
traces (c ∷ cs) = record { provider = c.name; priority = c.priority } ∷ traces cs

-- The gateway context with these candidates, of which `p` is the active one.
abbrev pub handed : Bytes → RoutePolicy → List ProviderRoute → ProviderRoute → GatewayContext
handed m policy cs p = record {
  requested_model = m;
  target_provider = p.name;
  target_model = m;
  api_key = p.api_key;
  base_url = p.base_url;
  candidate_providers = cs;
  route_selection_policy = policy;
  route_candidates = traces cs;
  attempted_providers = if is_empty p.name then [] else p.name ∷ [];
  upstream_attempts = [];
  failover_events = [];
  failover_count = 0;
  stream_outcome = none;
  stream_chunks = 0;
  stream_bytes = 0;
  final_error = none;
}

-- The reply for a model, from the candidates in the order of the configuration.
abbrev pub IsRouted : Option HealthResolver → Bytes → List ProviderRoute → RouterReply → Type 0
IsRouted resolver m [] reply = reply ≡ rejected 404 model_not_found
IsRouted resolver m (c ∷ cs) reply =
    (p : ProviderRoute) × (ps : List ProviderRoute) × (preferred resolver (c ∷ cs) ≡ p ∷ ps)
    × (reply ≡ next (handed m (policy_for resolver (c ∷ cs)) (p ∷ ps) p))

-- A list as the value of a map that holds no empty one.
abbrev occupied : List ProviderRoute → Option (List ProviderRoute)
occupied [] = none
occupied (c ∷ cs) = some (c ∷ cs)

abbrev Occupied : Dict (List ProviderRoute) → Type 0
Occupied d = (m : Bytes) → lookup m d ≡ occupied (providers_of m d)

grown :
    (xs ys : List ProviderRoute) (c : ProviderRoute) → some (xs ++ c ∷ ys) ≡ occupied (xs ++ c ∷ ys)
grown [] ys c = refl
grown (x ∷ xs) ys c = refl

put-Occupied :
    (k : Bytes) (route : ProviderRoute) (d : Dict (List ProviderRoute))
    → Occupied d
    → Occupied (put k (providers_of k d ++ route ∷ []) d)
unfolding providers_of
put-Occupied k route d h m = ground (
  arith,
  Bool-cases (same k m),
  lookup-put k m (providers_of k d ++ route ∷ []) d,
  h m,
  grown (providers_of k d) [] route,
)

providers_of-put :
    (m k : Bytes) (route : ProviderRoute) (d : Dict (List ProviderRoute))
    → providers_of m (put k (providers_of k d ++ route ∷ []) d)
      ≡ (if same k m then providers_of k d ++ route ∷ [] else providers_of m d)
unfolding providers_of
providers_of-put m k route d =
    ground (arith, Bool-cases (same k m), lookup-put k m (providers_of k d ++ route ∷ []) d)

add_models-Occupied :
    (route : ProviderRoute) (ms : List Bytes) (d : Dict (List ProviderRoute))
    → Occupied d
    → Occupied (add_models route ms d)
unfolding add_models
add_models-Occupied route [] d h = h
add_models-Occupied route (m ∷ ms) d h = add_models-Occupied route ms _ (put-Occupied m route d h)

providers_of-add_models :
    (m : Bytes) (route : ProviderRoute) (ms : List Bytes) (d : Dict (List ProviderRoute))
    → providers_of m (add_models route ms d) ≡ providers_of m d ++ mentions m route ms
unfolding add_models
providers_of-add_models m route [] d = sym (append-nil _)
providers_of-add_models m route (j ∷ ms) d =
    providers_of-add_models m route ms (put j (providers_of j d ++ route ∷ []) d)
    ∙ ground (
      arith,
      Bool-cases (same j m),
      same_iff j m,
      providers_of-put m j route d,
      append_assoc (providers_of m d) (route ∷ []) (mentions m route ms),
    )

add_providers-Occupied :
    (i : ℕ) (ps : List ProviderConfig) (d : Dict (List ProviderRoute))
    → Occupied d
    → Occupied (add_providers i ps d)
unfolding add_providers route_of
add_providers-Occupied i [] d h = h
add_providers-Occupied i (p ∷ ps) d h =
    add_providers-Occupied (i + 1) ps _ (add_models-Occupied (configured i p) p.models d h)

providers_of-add_providers :
    (m : Bytes) (i : ℕ) (ps : List ProviderConfig) (d : Dict (List ProviderRoute))
    → providers_of m (add_providers i ps d) ≡ providers_of m d ++ serving m i ps
unfolding add_providers route_of
providers_of-add_providers m i [] d = sym (append-nil _)
providers_of-add_providers m i (p ∷ ps) d =
    providers_of-add_providers m (i + 1) ps (add_models (configured i p) p.models d)
    ∙ ap (λ xs. xs ++ serving m (i + 1) ps) (providers_of-add_models m (configured i p) p.models d)
    ∙ append_assoc (providers_of m d) (mentions m (configured i p) p.models) (serving m (i + 1) ps)

abbrev mapped : Option (List ProviderRoute) → Option RouteEntry
mapped none = none
mapped (some cs) = some (entry_of cs)

lookup-entries :
    (m : Bytes) (d : Dict (List ProviderRoute)) → lookup m (entries d) ≡ mapped (lookup m d)
unfolding lookup entries
lookup-entries m [] = refl
lookup-entries m ((k, v) ∷ d) = ground (arith, Bool-cases (same k m), lookup-entries m d)

lookup-serving :
    (m : Bytes) (providers : List ProviderConfig)
    → lookup m (build_route_table providers) ≡ mapped (occupied (serving m 0 providers))
unfolding build_route_table lookup providers_of
lookup-serving m providers =
    lookup-entries m (add_providers 0 providers [])
    ∙ ap mapped (add_providers-Occupied 0 providers [] (λ k. nothing k) m)
    ∙ ap (λ cs. mapped (occupied cs)) (providers_of-add_providers m 0 providers [] ∙ none_before)
  where
    nothing : Occupied []
    nothing k = refl

    none_before : providers_of m [] ++ serving m 0 providers ≡ serving m 0 providers
    none_before = refl

build_route_candidates-lem : (cs : List ProviderRoute) → build_route_candidates cs ≡ traces cs
unfolding build_route_candidates trace_of
build_route_candidates-lem [] = refl
build_route_candidates-lem (c ∷ cs) =
    ap (λ ts. record { provider = c.name; priority = c.priority } ∷ ts)
      (build_route_candidates-lem cs)

append-some :
    (xs ys : List ProviderRoute) (c : ProviderRoute)
    → (p : ProviderRoute) × (ps : List ProviderRoute) × (xs ++ c ∷ ys ≡ p ∷ ps)
append-some [] ys c = (c, ys, refl)
append-some (x ∷ xs) ys c = (x, xs ++ c ∷ ys, refl)

preferred-some :
    (resolver : Option HealthResolver) (c : ProviderRoute) (cs : List ProviderRoute)
    → (p : ProviderRoute) × (ps : List ProviderRoute) × (preferred resolver (c ∷ cs) ≡ p ∷ ps)
preferred-some none c cs = (c, cs, refl)
preferred-some (some resolver) c cs = elim (Bool-cases (is_down resolver c)) [
  | inl e ↦ rw e (append-some (keep (λ d. not (is_down resolver d)) cs) _ c)
  | inr e ↦ rw e (c, _, refl)
]

noted_first : (n : Bytes) → noted n [] ≡ (if is_empty n then [] else n ∷ [])
unfolding noted last_is
noted_first [] = refl
noted_first (c ∷ n) = refl

-- The reply for candidates in their order, from what the middleware does with them.
dispatched :
    (m : Bytes) (policy : RoutePolicy) (p : ProviderRoute) (ps : List ProviderRoute)
    → dispatch m (entry_of (p ∷ ps)) policy (p ∷ ps) ≡ next (handed m policy (p ∷ ps) p)
unfolding dispatch gateway_context set_active_provider note_provider_attempt
dispatched m policy p ps = rw (build_route_candidates-lem (p ∷ ps), noted_first p.name) refl

-- With a decoded body that names a model, `ModelRouterMiddleware` never reads out of range. It
-- answers 404 when no configured provider lists the model. Otherwise it calls the next handler
-- with every provider that lists it, once for each mention: in the order of the configuration
-- without a health resolver; with one, those not known to be unhealthy first and the others behind
-- them, each group in the order of the configuration. The first is the active provider, the traces
-- are those of the candidates, and the policy tells whether the order was changed.
pub model_router_exact :
    (providers : List ProviderConfig) (resolver : Option HealthResolver) (body : RequestedBody)
    → body.decode_failed ≡ false
    → is_empty body.requested_model ≡ false
    → IsRouted resolver body.requested_model
        (serving body.requested_model 0 providers)
        (model_router providers resolver (some body))
unfolding model_router lookup_route resolved route_reply
model_router_exact providers resolver body h k =
    rw (h, k, lookup-serving body.requested_model providers)
      (by_candidates (serving body.requested_model 0 providers))
  where
    m : Bytes
    m = body.requested_model

    by_candidates :
        (cs : List ProviderRoute)
        → IsRouted resolver m cs (
            route_reply m (elim (mapped (occupied cs)) [
              | none ↦ no_route
              | some entry ↦ resolved (apply_health_aware_routing resolver entry)
            ]))
    by_candidates [] = refl
    by_candidates (c ∷ cs) =
        let first = preferred-some resolver c cs in
        (
          first.0,
          first.1,
          first.2,
          rw (apply-preferred resolver (c ∷ cs), first.2)
              (dispatched m (policy_for resolver (c ∷ cs)) first.0 first.1),
        )
