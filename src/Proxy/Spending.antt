-- ===== src/Proxy/Spending.antt =====
-- Bounds on the attempts and the failovers of a request, for `ServeHTTP` of
-- internal/proxy/proxy.go.
use strait.Base.{
  ℕ, zero, suc, ◌+◌, ◌-◌, ◌≤◌, Bool, true, false, ◌≡◌, arith, List, [], ◌∷◌, Bytes, length,
}
use strait.Gateway.{ProviderRoute, GatewayContext, set_active_provider}
use strait.Health.{HealthMap}
use strait.Proxy.State.{
  Upstream, Run, Reply, Step, again, advance, finished, Outcome, moved_on, returned,
  effective_retry_count,
}
use strait.Proxy.Attempts.{resume, attempt_loop}
use strait.Proxy.Serve.{
  note_failover, start, follow, activate, compile_check, try_provider, provider_loop,
  serve_candidates, serve,
}
use strait.Proxy.Ledger.{Tries, OnStep, attempt_once-Tries}
use strait.Proxy.Accounts.{OnOutcome}

resume-Tries :
    (n : ℕ) (r : Run) (rest : Run → Outcome) (s : Step)
    → OnStep (Tries 1 r) s
    → ((r' : Run) → OnOutcome (Tries n r') (rest r'))
    → OnOutcome (Tries (suc n) r) (resume rest s)
unfolding resume
resume-Tries n r rest (again r') t h = lift (rest r') (h r')
  where
    lift : (o : Outcome) → OnOutcome (Tries n r') o → OnOutcome (Tries (suc n) r) o
    lift (moved_on r'') t' = ground arith
    lift (returned r'' reply) t' = ground arith
resume-Tries n r rest (advance r') t h = ground arith
resume-Tries n r rest (finished r' reply) t h = ground arith

-- The attempts that the budgets of the providers allow.
abbrev pub attempts_allowed : Upstream → List ProviderRoute → ℕ
attempts_allowed u [] = 0
attempts_allowed u (p ∷ ps) = suc (effective_retry_count u p) + attempts_allowed u ps

-- From `r` to `r'` at most `n` attempts and `m` failovers.
pub record Spends (n m : ℕ) (r r' : Run) : Type 0 where
  pub attempts : length r'.ctx.upstream_attempts ≤ length r.ctx.upstream_attempts + n
  pub failovers : r'.ctx.failover_count ≤ r.ctx.failover_count + m

-- The failovers that are left behind provider `i`.
abbrev failovers_left : List ProviderRoute → ℕ
failovers_left [] = 0
failovers_left (p ∷ ps) = length ps

Spends-activate :
    (p : ProviderRoute) (r : Run) (n m : ℕ) (s : Run) → Spends n m (activate p r) s → Spends n m r s
unfolding activate set_active_provider
Spends-activate p r n m s sp = ground arith

module _ (to_lower : Bytes → Bytes) (u : Upstream) where
  attempt_loop-Tries :
      (p : ProviderRoute) (i budget left attempt : ℕ) (r : Run)
      → OnOutcome (Tries left r) (attempt_loop to_lower u p i budget left attempt r)
  unfolding attempt_loop
  attempt_loop-Tries p i budget zero attempt r = ground arith
  attempt_loop-Tries p i budget (suc left) attempt r =
      resume-Tries left r (attempt_loop to_lower u p i budget left (attempt + 1)) _
        (attempt_once-Tries to_lower u _ r) (attempt_loop-Tries p i budget left (attempt + 1))

  note_failover-Spends :
      (candidates ps : List ProviderRoute) (p : ProviderRoute) (i m : ℕ) (r s : Run)
      → length candidates ≡ i + length (p ∷ ps)
      → Spends m (failovers_left ps) (note_failover candidates p i r) s
      → Spends m (length ps) r s
  unfolding note_failover
  note_failover-Spends candidates [] p i m r s h sp = ground arith
  note_failover-Spends candidates (q ∷ qs) p i m r s h sp = ground arith

  try_provider-Tries :
      (p : ProviderRoute) (i : ℕ) (r : Run)
      → OnOutcome (Tries (suc (effective_retry_count u p)) r) (try_provider to_lower u p i r)
  unfolding try_provider
  try_provider-Tries p i r = checked (u.compiles p) _ (
      attempt_loop-Tries p i (suc (effective_retry_count u p)) (suc (effective_retry_count u p)) 1
        r)
    where
      checked :
          (b : Bool) (o : Outcome)
          → OnOutcome (Tries (suc (effective_retry_count u p)) r) o
          → OnOutcome (Tries (suc (effective_retry_count u p)) r) (compile_check b r o)
      checked true o h = h
      checked false o h = (ground arith, tt)

  Spends-follow :
      (n m k : ℕ) (r : Run) (rest : Run → Run × Reply) (o : Outcome)
      → OnOutcome (Tries n r) o
      → ((r' : Run) → Spends m k r' (rest r').0)
      → Spends (n + m) k r (follow rest o).0
  unfolding follow
  Spends-follow n m k r rest (moved_on r') t h = let spent = h r' in ground arith
  Spends-follow n m k r rest (returned r' reply) t h = ground arith

  provider_loop-Spends :
      (candidates ps : List ProviderRoute) (i : ℕ) (r : Run)
      → length candidates ≡ i + length ps
      → Spends
          (attempts_allowed u ps)
          (failovers_left ps)
          r
          (provider_loop to_lower u candidates ps i r).0
  unfolding provider_loop
  provider_loop-Spends candidates [] i r h = ground arith
  provider_loop-Spends candidates (p ∷ ps) i r h = Spends-activate p r _ _ _ (
      Spends-follow (suc (effective_retry_count u p)) (attempts_allowed u ps) (length ps)
        (activate p r) _ (try_provider to_lower u p i (activate p r))
        (try_provider-Tries p i (activate p r))
        λ r'. note_failover-Spends candidates ps p i (attempts_allowed u ps) r' _ h (
          provider_loop-Spends candidates ps (i + 1) (note_failover candidates p i r')
            (omega arith)))

  -- A request makes at most as many attempts as the retry budgets of its candidates allow, one more
  -- than the retries for each, and at most one failover less than it has candidates.
  pub serve-Spends :
      (has_body : Bool) (g : GatewayContext) (health : HealthMap)
      → Spends
          (attempts_allowed u g.candidate_providers)
          (length g.candidate_providers - 1)
          (start g health)
          (serve to_lower u has_body g health).0
  unfolding serve serve_candidates
  serve-Spends true g health = candidates g.candidate_providers (start g health)
    where
      candidates :
          (ps : List ProviderRoute) (r : Run)
          → Spends (attempts_allowed u ps) (length ps - 1) r (serve_candidates to_lower u ps r).0
      candidates [] r = ground arith
      candidates (p ∷ ps) r =
          let sp = provider_loop-Spends (p ∷ ps) (p ∷ ps) 0 r (omega arith) in
          record { attempts = sp.attempts; failovers = omega arith }
  serve-Spends false g health = ground arith
