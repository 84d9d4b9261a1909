-- ===== src/Proxy/State.antt =====
-- The state of a request in internal/proxy/proxy.go, its environment and its reply.
use strait.Base.{ℕ, Bool, Option, none, some, List, [], ◌∷◌, ◌++◌, Bytes, ltb, if◌then◌else◌}
use strait.Gateway.{
  ProviderRoute, GatewayContext, Reason, network_error, no_response, status_label, AttemptResult,
  retry, retry_exhausted, UpstreamAttemptTrace, StreamOutcome, ErrorCode, add_upstream_attempt,
}
use strait.Health.{HealthMap}
use strait.Proxy.Classify.{UpstreamError, ContextState}

-- The transfer of a response to the client by the adapter: its error, the state of the request's
-- context behind it, and the counters of the `ttftWriter`.
pub record Transfer : Type 0 where
  pub write_err : Option UpstreamError
  pub write_ctx : ContextState
  pub first_chunk_seen : Bool
  pub chunk_count : ℕ
  pub bytes_written : ℕ

-- What the environment does at one attempt. `client.Do` gives a response, of which the status code
-- is kept, or an error; `backoff_completed` is the result of `waitRetryBackoff`.
pub record Attempt : Type 0 where
  pub response : Option ℕ
  pub err : Option UpstreamError
  pub ctx : ContextState
  pub now : ℕ
  pub duration_ms : ℕ
  pub backoff_completed : Bool
  pub streaming : Bool
  pub transfer : Transfer

-- The configuration of a request and its environment: `at i n` is attempt `n` at provider `i`, and
-- `compiles` tells whether `requestTemplate.compile` succeeds.
pub record Upstream : Type 0 where
  pub retryable : List ℕ
  pub default_max_retries : ℕ
  pub compiles : ProviderRoute → Bool
  pub at : ℕ → ℕ → Attempt
  pub final_ctx : ContextState

-- The counters of internal/metrics that the handler moves.
pub data Metric : Type 0 where
  observed : Bytes → Reason → Metric
  final_success : Bytes → Reason → Metric
  retried : Bytes → Reason → Metric
  failed_over : Bytes → Bytes → Reason → Metric
  stream_ended : Bytes → StreamOutcome → Metric

-- The variables of the handler and what it writes to.
pub record Run : Type 0 where
  pub ctx : GatewayContext
  pub final_err : Option UpstreamError
  pub total_retries : ℕ
  pub last_reason : Reason
  pub health : HealthMap
  pub metrics : List Metric

-- What the client gets. `forwarded` has the provider, the status and the headers for retries and
-- failovers; `failed` has the status, the code, and those headers where they are set;
-- `silent` writes nothing more, and has those headers where they are set.
pub data Reply : Type 0 where
  silent : Option (ℕ × ℕ) → Reply
  forwarded : Bytes → ℕ → ℕ → ℕ → Reply
  failed : ℕ → ErrorCode → Option (ℕ × ℕ) → Reply

-- After an attempt: `continue attemptLoop`, `break attemptLoop`, or `return`.
pub data Step : Type 0 where
  again advance : Run → Step
  finished : Run → Reply → Step

-- After `attemptLoop`: the code behind it, or `return`.
pub data Outcome : Type 0 where
  moved_on : Run → Outcome
  returned : Run → Reply → Outcome

-- `effectiveRetryCount`
unfoldable pub effective_retry_count : Upstream → ProviderRoute → ℕ
effective_retry_count u p = if ltb 0 p.max_retries then p.max_retries else u.default_max_retries

-- `retryAttemptResult`
unfoldable pub retry_attempt_result : ℕ → ℕ → AttemptResult
retry_attempt_result attempt budget = if ltb attempt budget then retry else retry_exhausted

-- `upstreamStatusLabel`
unfoldable pub upstream_status_label : Option ℕ → Option UpstreamError → Reason
upstream_status_label resp (some e) = network_error
upstream_status_label none none = no_response
upstream_status_label (some code) none = status_label code

abbrev pub code_or_zero : Option ℕ → ℕ
code_or_zero none = 0
code_or_zero (some code) = code

abbrev pub error_text : Option UpstreamError → Option Bytes
error_text none = none
error_text (some e) = some e.message

-- The arguments that the statements of one attempt share.
pub record Place : Type 0 where
  pub provider : ProviderRoute
  pub index : ℕ
  pub budget : ℕ
  pub attempt : ℕ

-- The trace of an attempt.
unfoldable pub trace_of : Place → Attempt → Reason → AttemptResult → UpstreamAttemptTrace
trace_of pl a why result = record {
  provider = pl.provider.name;
  provider_index = pl.index;
  attempt = pl.attempt;
  attempt_budget = pl.budget;
  status_code = code_or_zero a.response;
  result = result;
  reason = why;
  duration_ms = a.duration_ms;
}

-- `recordUpstreamAttempt`
unfoldable pub record_upstream_attempt :
    Place → Attempt → Reason → AttemptResult → GatewayContext → GatewayContext
unfolding add_upstream_attempt
record_upstream_attempt pl a why result g = add_upstream_attempt (trace_of pl a why result) g

abbrev pub note : Metric → Run → Run
note metric r = record r { metrics = r.metrics ++ metric ∷ [] }
