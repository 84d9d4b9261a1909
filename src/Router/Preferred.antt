-- ===== src/Router/Preferred.antt =====
-- The order by health of internal/middleware/router.go against a stable partition.
use strait.Base.{
  ℕ, suc, Bool, true, false, not, ◌&&◌, ◌||◌, Option, none, some, List, [], ◌∷◌, ◌++◌, append-nil,
  append_assoc, is_empty, if◌then◌else◌, length, ltb, ◌≡◌, inl, inr, refl, ap, ◌∙◌, arith,
  Bool-cases,
}
use strait.Gateway.{ProviderRoute, RoutePolicy, configured_order, healthy_first}
use strait.Router.Order.{
  RouteEntry, HealthResolver, Split, known_unhealthy, place, split_loop, no_split, join, reorder,
  apply_health_aware_routing,
}
use strait.Router.Table.{trace_of, build_route_candidates}

-- The resolver knows the provider, and not as healthy.
abbrev pub is_down : HealthResolver → ProviderRoute → Bool
is_down resolver c = (resolver c).0 && not (resolver c).1

abbrev pub keep : (ProviderRoute → Bool) → List ProviderRoute → List ProviderRoute
keep f [] = []
keep f (c ∷ cs) = let rest = keep f cs in if f c then c ∷ rest else rest

-- Those that are not known to be unhealthy, then the others, each group in its order.
abbrev pub preferred : Option HealthResolver → List ProviderRoute → List ProviderRoute
preferred none cs = cs
preferred (some resolver) cs = keep (λ c. not (is_down resolver c)) cs ++ keep (is_down resolver) cs

-- Some candidate that is known to be unhealthy stands before one that is not.
abbrev out_of_order : HealthResolver → List ProviderRoute → Bool
out_of_order resolver [] = false
out_of_order resolver (c ∷ cs) =
    let rest = out_of_order resolver cs in
    if is_down resolver c then not (is_empty (keep (λ d. not (is_down resolver d)) cs)) else rest

abbrev pub policy_for : Option HealthResolver → List ProviderRoute → RoutePolicy
policy_for none cs = configured_order
policy_for (some resolver) cs = if out_of_order resolver cs then healthy_first else configured_order

traces-append :
    (xs ys : List ProviderRoute)
    → build_route_candidates (xs ++ ys) ≡ build_route_candidates xs ++ build_route_candidates ys
unfolding build_route_candidates
traces-append [] ys = refl
traces-append (x ∷ xs) ys = ap (λ ts. trace_of x ∷ ts) (traces-append xs ys)

module _ (resolver : HealthResolver) where
  abbrev bad : ProviderRoute → Bool
  bad = is_down resolver

  abbrev good : ProviderRoute → Bool
  good c = not (is_down resolver c)

  -- What the loop adds to its variables.
  abbrev after : List ProviderRoute → Split → Split
  after cs s = record {
    healthy_candidates = s.healthy_candidates ++ keep good cs;
    unhealthy_candidates = s.unhealthy_candidates ++ keep bad cs;
    healthy_traces = s.healthy_traces ++ build_route_candidates (keep good cs);
    unhealthy_traces = s.unhealthy_traces ++ build_route_candidates (keep bad cs);
    saw_unhealthy = s.saw_unhealthy || not (is_empty (keep bad cs));
    reordered =
        s.reordered || out_of_order resolver cs || s.saw_unhealthy && not (is_empty (keep good cs));
  }

  seen_before : (r s o g : Bool) → (r || s) || o || s && g ≡ r || o || s && true
  seen_before r s o g = ground arith

  out_of_order-good :
      (cs : List ProviderRoute) → out_of_order resolver cs ≡ true → is_empty (keep good cs) ≡ false
  out_of_order-good (c ∷ cs) h =
      ground (arith, Bool-cases (is_down resolver c), out_of_order-good cs)
  out_of_order-good [] h = cc

  after-place :
      (c : ProviderRoute) (cs : List ProviderRoute) (s : Split)
      → after cs (place resolver c (trace_of c) s) ≡ after (c ∷ cs) s
  unfolding place build_route_candidates known_unhealthy
  after-place c cs s = elim (Bool-cases (is_down resolver c)) [
    | inl e ↦ rw e (
        ground (
          arith,
          out_of_order-good cs,
          append_assoc s.unhealthy_candidates (c ∷ []) (keep bad cs),
          append_assoc s.unhealthy_traces (trace_of c ∷ []) (build_route_candidates (keep bad cs)),
        ))
    | inr e ↦
        rw
          (
            e,
            append_assoc s.healthy_candidates (c ∷ []) (keep good cs),
            append_assoc s.healthy_traces (trace_of c ∷ []) (build_route_candidates (keep good cs)),
            seen_before s.reordered s.saw_unhealthy (out_of_order resolver cs)
                (not (is_empty (keep good cs))),
          )
          refl
  ]

  split_loop-after :
      (cs : List ProviderRoute) (s : Split)
      → split_loop resolver cs (build_route_candidates cs) s ≡ some (after cs s)
  unfolding split_loop build_route_candidates
  split_loop-after [] s = ground (
    arith,
    append-nil s.healthy_candidates,
    append-nil s.unhealthy_candidates,
    append-nil s.healthy_traces,
    append-nil s.unhealthy_traces,
  )
  split_loop-after (c ∷ cs) s =
      split_loop-after cs (place resolver c (trace_of c) s) ∙ ap some (after-place c cs s)

  none_good : (cs : List ProviderRoute) → is_empty (keep good cs) ≡ true → keep bad cs ≡ cs
  none_good [] h = refl
  none_good (c ∷ cs) h = ground (arith, Bool-cases (bad c), none_good cs)

  -- Where nothing is out of order, the healthy candidates are in front already.
  in_order :
      (cs : List ProviderRoute)
      → out_of_order resolver cs ≡ false
      → preferred (some resolver) cs ≡ cs
  in_order [] h = refl
  in_order (c ∷ cs) h = ground (arith, Bool-cases (bad c), in_order cs, none_good cs)

  join-preferred :
      (cs : List ProviderRoute)
      → join
          (record { candidates = cs; route_candidates = build_route_candidates cs })
          (after cs no_split)
        ≡ (
          record {
            candidates = preferred (some resolver) cs;
            route_candidates = build_route_candidates (preferred (some resolver) cs);
          },
          policy_for (some resolver) cs,
        )
  unfolding join no_split
  join-preferred cs = elim (Bool-cases (out_of_order resolver cs)) [
    | inl e ↦ rw e (ground (arith, traces-append (keep good cs) (keep bad cs)))
    | inr e ↦ rw e (ground (arith, in_order cs))
  ]

abbrev pub entry_of : List ProviderRoute → RouteEntry
entry_of cs = record { candidates = cs; route_candidates = build_route_candidates cs }

two_or_more : (n : ℕ) → ltb (suc (suc n)) 2 ≡ false
two_or_more n = ground arith

pub apply-preferred :
    (resolver : Option HealthResolver) (cs : List ProviderRoute)
    → apply_health_aware_routing resolver (entry_of cs)
      ≡ some (entry_of (preferred resolver cs), policy_for resolver cs)
unfolding apply_health_aware_routing reorder known_unhealthy
apply-preferred none cs = refl
apply-preferred (some resolver) [] = refl
apply-preferred (some resolver) (c ∷ []) = ground (arith, Bool-cases (is_down resolver c))
apply-preferred (some resolver) (c ∷ d ∷ cs) =
    rw (split_loop-after resolver (c ∷ d ∷ cs) no_split, two_or_more (length cs))
      (ap some (join-preferred resolver (c ∷ d ∷ cs)))
