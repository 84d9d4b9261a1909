-- ===== src/Proxy/Accounts.antt =====
-- Bounds on the attempts of a request and the truth of its counters, for `ServeHTTP` of
-- internal/proxy/proxy.go.
use strait.Base.{
  ℕ, zero, suc, ◌+◌, Bool, true, false, ◌≡◌, refl, arith, some, List, [], ◌∷◌, Bytes, length,
  length-append, ltb, if◌then◌else◌, Bool-cases, inl, inr,
}
use strait.Gateway.{ProviderRoute, ErrorCode, GatewayContext, set_active_provider}
use strait.Health.{HealthMap}
use strait.Proxy.Classify.{classify_terminal_proxy_failure}
use strait.Proxy.State.{
  Upstream, Run, Reply, silent, failed, Step, again, advance, finished, Outcome, moved_on, returned,
  effective_retry_count,
}
use strait.Proxy.Attempts.{resume, attempt_loop}
use strait.Proxy.Serve.{
  note_failover, start, follow, give_up, activate, compile_check, try_provider, provider_loop,
  serve_candidates, serve,
}
use strait.Proxy.Ledger.{Ledger, Tells, OnStep, attempt_once-Ledger}

abbrev pub OnOutcome : (Run → Type 0) → Outcome → Type 0
OnOutcome P (moved_on r) = P r
OnOutcome P (returned r reply) = P r × Tells r reply

resume-Ledger :
    (rest : Run → Outcome) (s : Step)
    → OnStep Ledger s
    → ((r' : Run) → Ledger r' → OnOutcome Ledger (rest r'))
    → OnOutcome Ledger (resume rest s)
unfolding resume
resume-Ledger rest (again r') t h = h r' t
resume-Ledger rest (advance r') t h = t
resume-Ledger rest (finished r' reply) t h = t

-- The counters agree with the traces, and the reply tells them.
abbrev pub Closes : Run × Reply → Type 0
Closes (r, reply) = Ledger r × Tells r reply

told :
    (r : Run) (suppressed : Bool) (status : ℕ) (code : ErrorCode)
    → Tells r (
        if suppressed
        then silent (some (r.total_retries, r.ctx.failover_count))
        else failed status code (some (r.total_retries, r.ctx.failover_count)))
told r true status code = (refl, refl)
told r false status code = (refl, refl)

module _ (to_lower : Bytes → Bytes) (u : Upstream) where
  attempt_loop-Ledger :
      (p : ProviderRoute) (i budget left attempt : ℕ) (r : Run)
      → Ledger r
      → OnOutcome Ledger (attempt_loop to_lower u p i budget left attempt r)
  unfolding attempt_loop
  attempt_loop-Ledger p i budget zero attempt r l = l
  attempt_loop-Ledger p i budget (suc left) attempt r l =
      resume-Ledger (attempt_loop to_lower u p i budget left (attempt + 1)) _
        (attempt_once-Ledger to_lower u _ r l) (attempt_loop-Ledger p i budget left (attempt + 1))

  note_failover-Ledger :
      (candidates : List ProviderRoute) (p : ProviderRoute) (i : ℕ) (r : Run)
      → Ledger r
      → Ledger (note_failover candidates p i r)
  unfolding note_failover
  note_failover-Ledger candidates p i r l = elim (Bool-cases (ltb (i + 1) (length candidates))) [
    | inl e ↦ rw e (record { retries = l.retries; failovers = omega (arith, length-append {0}) })
    | inr e ↦ rw e l
  ]

  activate-Ledger : (p : ProviderRoute) (r : Run) → Ledger r → Ledger (activate p r)
  unfolding activate set_active_provider
  activate-Ledger p r l = record { retries = l.retries; failovers = l.failovers }

  try_provider-Ledger :
      (p : ProviderRoute) (i : ℕ) (r : Run)
      → Ledger r
      → OnOutcome Ledger (try_provider to_lower u p i r)
  unfolding try_provider
  try_provider-Ledger p i r l = checked (u.compiles p) _ (
      attempt_loop-Ledger p i (suc (effective_retry_count u p)) (suc (effective_retry_count u p)) 1
        r l)
    where
      checked :
          (b : Bool) (o : Outcome) → OnOutcome Ledger o → OnOutcome Ledger (compile_check b r o)
      checked true o h = h
      checked false o h = (record { retries = l.retries; failovers = l.failovers }, tt)

  follow-Closes :
      (rest : Run → Run × Reply) (o : Outcome)
      → OnOutcome Ledger o
      → ((r : Run) → Ledger r → Closes (rest r))
      → Closes (follow rest o)
  unfolding follow
  follow-Closes rest (moved_on r) l h = h r l
  follow-Closes rest (returned r reply) l h = l

  give_up-Closes : (r : Run) → Ledger r → Closes (give_up to_lower u r)
  unfolding give_up
  give_up-Closes r l = (
    record { retries = l.retries; failovers = l.failovers },
    told (give_up to_lower u r).0
        (classify_terminal_proxy_failure to_lower u.final_ctx r.final_err
          r.last_reason).suppress_response
        _ _,
  )

  provider_loop-Closes :
      (candidates ps : List ProviderRoute) (i : ℕ) (r : Run)
      → Ledger r
      → Closes (provider_loop to_lower u candidates ps i r)
  unfolding provider_loop
  provider_loop-Closes candidates [] i r l = give_up-Closes r l
  provider_loop-Closes candidates (p ∷ ps) i r l =
      follow-Closes _ (try_provider to_lower u p i (activate p r))
        (try_provider-Ledger p i (activate p r) (activate-Ledger p r l))
        λ r' l'.
          provider_loop-Closes candidates ps (i + 1) (note_failover candidates p i r')
            (note_failover-Ledger candidates p i r' l')

  -- On a fresh context, the count of retries is the number of recorded attempts that ended in a
  -- retry, the count of failovers is the number of recorded failovers, and the headers of the reply
  -- have these two numbers where they are set.
  pub serve-Closes :
      (has_body : Bool) (g : GatewayContext) (health : HealthMap)
      → g.upstream_attempts ≡ []
      → g.failover_events ≡ []
      → g.failover_count ≡ 0
      → Closes (serve to_lower u has_body g health)
  unfolding serve serve_candidates
  serve-Closes true g health a e c =
      candidates g.candidate_providers (start g health) (ground arith)
    where
      candidates :
          (ps : List ProviderRoute) (r : Run) → Ledger r → Closes (serve_candidates to_lower u ps r)
      candidates [] r l = (record { retries = l.retries; failovers = l.failovers }, tt)
      candidates (p ∷ ps) r l = provider_loop-Closes (p ∷ ps) (p ∷ ps) 0 r l
  serve-Closes false g health a e c = (ground arith, tt)
