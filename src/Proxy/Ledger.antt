-- ===== src/Proxy/Ledger.antt =====
-- What the handler of internal/proxy/proxy.go records of its attempts, retries and failovers.
use strait.Base.{
  ℕ, ◌+◌, ◌≤◌, Bool, true, false, ◌≡◌, arith, none, some, List, [], ◌∷◌, ◌++◌, Bytes, length,
  length-append, if◌then◌else◌,
}
use strait.Gateway.{
  Reason, AttemptResult, retry, retry_exhausted, failover, error, returned_response,
  UpstreamAttemptTrace,
}
use strait.Proxy.Classify.{
  Action, return_response, retry_same_provider, failover_next_provider, terminate_request,
}
use strait.Proxy.State.{
  Attempt, Upstream, Run, Reply, silent, forwarded, failed, Step, again, advance, finished,
  retry_attempt_result, upstream_status_label, Place, trace_of,
}
use strait.Proxy.Attempts.{
  observe, on_retry, on_failover, on_terminate, on_return, act, decide, attempt_once,
}

abbrev pub is_retry : AttemptResult → Bool
is_retry retry = true
is_retry retry_exhausted = true
is_retry _ = false

-- The recorded attempts that ended in a retry, or would have.
abbrev pub retries_in : List UpstreamAttemptTrace → ℕ
retries_in [] = 0
retries_in (t ∷ ts) = (if is_retry t.result then 1 else 0) + retries_in ts

retries_in-append :
    (ts : List UpstreamAttemptTrace) (t : UpstreamAttemptTrace)
    → retries_in (ts ++ t ∷ []) ≡ retries_in ts + (if is_retry t.result then 1 else 0)
retries_in-append [] t = omega arith
retries_in-append (x ∷ ts) t = omega (arith, retries_in-append ts t)

-- The counters agree with the traces.
pub record Ledger (r : Run) : Type 0 where
  pub retries : r.total_retries ≡ retries_in r.ctx.upstream_attempts
  pub failovers : r.ctx.failover_count ≡ length r.ctx.failover_events

-- From `r` to `r'` the handler made at most `n` attempts at one provider.
pub record Tries (n : ℕ) (r r' : Run) : Type 0 where
  pub attempts : length r'.ctx.upstream_attempts ≤ length r.ctx.upstream_attempts + n
  pub failover_count : r'.ctx.failover_count ≡ r.ctx.failover_count
  pub failover_events : r'.ctx.failover_events ≡ r.ctx.failover_events

-- The headers of a reply tell the counters.
abbrev pub Tells : Run → Reply → Type 0
Tells r (silent none) = Unit
Tells r (silent (some (retries, failovers))) =
    (retries ≡ r.total_retries) × (failovers ≡ r.ctx.failover_count)
Tells r (forwarded p code retries failovers) =
    (retries ≡ r.total_retries) × (failovers ≡ r.ctx.failover_count)
Tells r (failed status code none) = Unit
Tells r (failed status code (some (retries, failovers))) =
    (retries ≡ r.total_retries) × (failovers ≡ r.ctx.failover_count)

abbrev pub OnStep : (Run → Type 0) → Step → Type 0
OnStep P (again r) = P r
OnStep P (advance r) = P r
OnStep P (finished r reply) = P r × Tells r reply

-- One trace more.
length-concat :
    (ts : List UpstreamAttemptTrace) (t : UpstreamAttemptTrace)
    → length (ts ++ t ∷ []) ≡ length ts + 1
length-concat ts t = length-append ts (t ∷ [])

module _ (pl : Place) (a : Attempt) (why : Reason) (r : Run) where
  on_retry-Tries : OnStep (Tries 1 r) (on_retry pl a why (observe pl a r))
  unfolding on_retry observe
  on_retry-Tries = ground (
    arith,
    length-concat r.ctx.upstream_attempts
        (trace_of pl a why (retry_attempt_result pl.attempt pl.budget)),
  )

  on_retry-Ledger : Ledger r → OnStep Ledger (on_retry pl a why (observe pl a r))
  unfolding on_retry observe trace_of
  on_retry-Ledger l = ground (
    arith,
    retries_in-append r.ctx.upstream_attempts
        (trace_of pl a why (retry_attempt_result pl.attempt pl.budget)),
  )

  on_failover-Tries : OnStep (Tries 1 r) (on_failover pl a why (observe pl a r))
  unfolding on_failover observe
  on_failover-Tries =
      ground (arith, length-concat r.ctx.upstream_attempts (trace_of pl a why failover))

  on_failover-Ledger : Ledger r → OnStep Ledger (on_failover pl a why (observe pl a r))
  unfolding on_failover observe trace_of
  on_failover-Ledger l =
      ground (arith, retries_in-append r.ctx.upstream_attempts (trace_of pl a why failover))

  on_terminate-Tries : OnStep (Tries 1 r) (on_terminate pl a why (observe pl a r))
  unfolding on_terminate observe
  on_terminate-Tries =
      ground (arith, length-concat r.ctx.upstream_attempts (trace_of pl a why error))

  on_terminate-Ledger : Ledger r → OnStep Ledger (on_terminate pl a why (observe pl a r))
  unfolding on_terminate observe trace_of
  on_terminate-Ledger l =
      ground (arith, retries_in-append r.ctx.upstream_attempts (trace_of pl a why error))

module _ (to_lower : Bytes → Bytes) (pl : Place) (a : Attempt) (r : Run) where
  on_return-Tries : OnStep (Tries 1 r) (on_return to_lower pl a (observe pl a r))
  unfolding on_return observe
  on_return-Tries = ground (
    arith,
    length-concat r.ctx.upstream_attempts
        (trace_of pl a (upstream_status_label a.response none) returned_response),
  )

  on_return-Ledger : Ledger r → OnStep Ledger (on_return to_lower pl a (observe pl a r))
  unfolding on_return observe trace_of
  on_return-Ledger l = ground (
    arith,
    retries_in-append r.ctx.upstream_attempts
        (trace_of pl a (upstream_status_label a.response none) returned_response),
  )

module _ (to_lower : Bytes → Bytes) (u : Upstream) where
  act-Tries :
      (d : Action) (pl : Place) (a : Attempt) (why : Reason) (r : Run)
      → OnStep (Tries 1 r) (act to_lower d pl a why (observe pl a r))
  unfolding act
  act-Tries retry_same_provider pl a why r = on_retry-Tries pl a why r
  act-Tries failover_next_provider pl a why r = on_failover-Tries pl a why r
  act-Tries terminate_request pl a why r = on_terminate-Tries pl a why r
  act-Tries return_response pl a why r = on_return-Tries to_lower pl a r

  act-Ledger :
      (d : Action) (pl : Place) (a : Attempt) (why : Reason) (r : Run)
      → Ledger r
      → OnStep Ledger (act to_lower d pl a why (observe pl a r))
  unfolding act
  act-Ledger retry_same_provider pl a why r = on_retry-Ledger pl a why r
  act-Ledger failover_next_provider pl a why r = on_failover-Ledger pl a why r
  act-Ledger terminate_request pl a why r = on_terminate-Ledger pl a why r
  act-Ledger return_response pl a why r = on_return-Ledger to_lower pl a r

  pub attempt_once-Tries :
      (pl : Place) (r : Run) → OnStep (Tries 1 r) (attempt_once to_lower u pl r)
  unfolding attempt_once
  attempt_once-Tries pl r =
      let a = u.at pl.index pl.attempt in
      act-Tries (decide to_lower u a).action pl a (decide to_lower u a).reason r

  pub attempt_once-Ledger :
      (pl : Place) (r : Run) → Ledger r → OnStep Ledger (attempt_once to_lower u pl r)
  unfolding attempt_once
  attempt_once-Ledger pl r =
      let a = u.at pl.index pl.attempt in
      act-Ledger (decide to_lower u a).action pl a (decide to_lower u a).reason r
