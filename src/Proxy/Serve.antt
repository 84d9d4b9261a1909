-- ===== src/Proxy/Serve.antt =====
-- `gatewayProxyHandler.ServeHTTP` of internal/proxy/proxy.go, with explicit state. Log lines and
-- the gauge of active requests, which each request raises and lowers again, are left out.
use strait.Base.{
  ℕ, suc, ◌+◌, Bool, true, false, not, Option, none, some, List, [], ◌∷◌, Bytes, length, get_elem?,
  ltb, if◌then◌else◌,
}
use strait.Gateway.{
  ProviderRoute, GatewayContext, Reason, unknown, ErrorCode, missing_gateway_context,
  set_active_provider, record_failover, set_terminal_error,
}
use strait.Health.{HealthMap}
use strait.Proxy.Classify.{classify_terminal_proxy_failure}
use strait.Proxy.State.{
  Upstream, failed_over, Run, Reply, silent, failed, Outcome, moved_on, returned,
  effective_retry_count, note,
}
use strait.Proxy.Attempts.{attempt_loop}

-- `nextProviderName`; the text "none" where there is no such provider
unfoldable pub next_provider_name : List ProviderRoute → ℕ → Bytes
next_provider_name providers i = elim (get_elem? providers i) [
  | none ↦ b'n' ∷ b'o' ∷ b'n' ∷ b'e' ∷ []
  | some p ↦ p.name
]

-- The count and the trace of a failover, where a provider is left.
unfoldable pub note_failover : List ProviderRoute → ProviderRoute → ℕ → Run → Run
unfolding next_provider_name record_failover
note_failover candidates p i r =
    let next = next_provider_name candidates (i + 1) in
    if ltb (i + 1) (length candidates)
    then note (failed_over p.name next r.last_reason) (record r {
      ctx =
          record_failover
            (record {
              from_provider = p.name;
              to_provider = next;
              provider_index = i;
              failover_count = r.ctx.failover_count + 1;
              reason = r.last_reason;
            })
            (record r.ctx { failover_count = r.ctx.failover_count + 1 });
    })
    else r

-- The variables at the start of `ServeHTTP`.
unfoldable pub start : GatewayContext → HealthMap → Run
start g health = record {
  ctx = g;
  final_err = none;
  total_retries = 0;
  last_reason = unknown;
  health = health;
  metrics = [];
}

-- Behind `attemptLoop`: `rest` is the failover and the next providers.
unfoldable pub follow : (Run → Run × Reply) → Outcome → Run × Reply
follow rest (moved_on r) = rest r
follow rest (returned r reply) = (r, reply)

-- `gatewayCtx.SetActiveProvider(provider)`
unfoldable pub activate : ProviderRoute → Run → Run
activate p r = record r { ctx = set_active_provider p r.ctx }

-- The request is compiled before the first attempt; `attempted` is what the attempts come to.
unfoldable pub compile_check : Bool → Run → Outcome → Outcome
unfolding set_terminal_error
compile_check true r attempted = attempted
compile_check false r attempted =
    returned
      (record r {
        ctx =
            set_terminal_error 500 ErrorCode.upstream_request_build_failed
              Reason.upstream_request_build_failed r.ctx;
      })
      (failed 500 ErrorCode.upstream_request_build_failed none)

module _ (to_lower : Bytes → Bytes) where
  -- Behind the loops: no provider has answered.
  unfoldable pub give_up : Upstream → Run → Run × Reply
  unfolding set_terminal_error
  give_up u r =
      let failure =
        classify_terminal_proxy_failure to_lower u.final_ctx r.final_err r.last_reason in
      (
        record r {
          ctx =
              set_terminal_error failure.failure_status failure.failure_code failure.failure_reason
                r.ctx;
        },
        if failure.suppress_response
            then silent (some (r.total_retries, r.ctx.failover_count))
            else failed failure.failure_status failure.failure_code
                (some (r.total_retries, r.ctx.failover_count)),
      )

  -- The compiled request and `attemptLoop`.
  unfoldable pub try_provider : Upstream → ProviderRoute → ℕ → Run → Outcome
  unfolding compile_check
  try_provider u p i r =
      let budget = suc (effective_retry_count u p) in
      compile_check (u.compiles p) r (attempt_loop to_lower u p i budget budget 1 r)

  -- `for providerIndex, provider := range gatewayCtx.CandidateProviders`
  unfoldable pub provider_loop :
      Upstream → List ProviderRoute → List ProviderRoute → ℕ → Run → Run × Reply
  unfolding note_failover give_up follow try_provider activate
  provider_loop u candidates [] i r = give_up u r
  provider_loop u candidates (p ∷ ps) i r =
      follow (λ r'. provider_loop u candidates ps (i + 1) (note_failover candidates p i r'))
        (try_provider u p i (activate p r))

  -- The check for candidates.
  unfoldable pub serve_candidates : Upstream → List ProviderRoute → Run → Run × Reply
  unfolding set_terminal_error
  serve_candidates u [] r = (
    record r {
      ctx = set_terminal_error 503 ErrorCode.no_route_candidates Reason.no_route_candidates r.ctx;
    },
    failed 503 ErrorCode.no_route_candidates none,
  )
  serve_candidates u (p ∷ ps) r = provider_loop u (p ∷ ps) (p ∷ ps) 0 r

  -- `ServeHTTP` with a gateway context; `has_body` tells whether there is a body context.
  unfoldable pub serve : Upstream → Bool → GatewayContext → HealthMap → Run × Reply
  unfolding start serve_candidates set_terminal_error
  serve u has_body g health =
      let r = start g health in
      if not has_body
      then (
        record r {
          ctx =
              set_terminal_error 500 ErrorCode.missing_body_context Reason.missing_body_context
                r.ctx;
        },
        failed 500 ErrorCode.missing_body_context none,
      )
      else serve_candidates u g.candidate_providers r

  -- `ServeHTTP`
  unfoldable pub serve_http :
      Upstream → Bool → Option GatewayContext → HealthMap → Option Run × Reply
  unfolding serve
  serve_http u has_body none health = (none, failed 500 missing_gateway_context none)
  serve_http u has_body (some g) health =
      let (r, reply) = serve u has_body g health in (some r, reply)
