-- ===== src/Proxy/Classify.antt =====
-- How internal/proxy/proxy.go reads the outcome of an attempt.
-- An error is what the code asks of it: `errors.Is` for each listed error, `net.Error.Timeout`, and
-- its message. `to_lower` is `strings.ToLower`. The request's context is read once for an attempt.
use strait.Base.{
  ℕ, Bool, true, false, ◌||◌, Option, none, some, List, [], ◌∷◌, Bytes, codes, contains, ◌==◌,
  if◌then◌else◌,
}
use strait.Gateway.{
  Reason, unknown, client_canceled, upstream_timeout, upstream_unavailable, network_error,
  no_response, status, ErrorCode, upstream_request_timeout, all_upstreams_unavailable,
  StreamOutcome, completed, empty, stream_canceled, upstream_error,
}

pub record UpstreamError : Type 0 where
  pub is_canceled : Bool
  pub is_closed : Bool
  pub is_broken_pipe : Bool
  pub is_connection_reset : Bool
  pub is_deadline_exceeded : Bool
  pub is_net_timeout : Bool
  pub message : Bytes

-- `r.Context().Err()`
pub data ContextState : Type 0 where
  live context_canceled deadline_exceeded : ContextState

abbrev pub is_context_canceled : ContextState → Bool
is_context_canceled context_canceled = true
is_context_canceled _ = false

abbrev pub is_context_done : ContextState → Bool
is_context_done live = false
is_context_done _ = true

-- `upstreamAttemptAction`
pub data Action : Type 0 where
  return_response retry_same_provider failover_next_provider terminate_request : Action

-- `upstreamAttemptDecision`
pub record Decision : Type 0 where
  pub action : Action
  pub reason : Reason

-- `shouldFailoverStatusCode`
unfoldable pub should_failover_status_code : ℕ → Bool
should_failover_status_code code = code == 401 || code == 403 || code == 404 || code == 429

-- `isRetryableStatusCode`, over the configured codes
unfoldable pub is_retryable_status_code : List ℕ → ℕ → Bool
is_retryable_status_code [] code = false
is_retryable_status_code (c ∷ cs) code = code == c || is_retryable_status_code cs code

-- `terminalProxyFailure`, without its message
pub record TerminalFailure : Type 0 where
  pub failure_status : ℕ
  pub failure_code : ErrorCode
  pub failure_reason : Reason
  pub suppress_response : Bool

abbrev pub is_cancel : Reason → Bool
is_cancel client_canceled = true
is_cancel _ = false

abbrev pub is_timeout : Reason → Bool
is_timeout upstream_timeout = true
is_timeout _ = false

-- The default reason is named.
unfoldable pub named_reason : Reason → Reason
named_reason unknown = upstream_unavailable
named_reason r = r

module _ (to_lower : Bytes → Bytes) where
  -- The texts that `isClientCanceledRequest` and `isClientCanceledStream` look for.
  unfoldable pub tells_disconnect : Bytes → Bool
  tells_disconnect message =
      let msg = to_lower message in
      contains msg (codes "broken pipe")
      || contains msg (codes "connection reset by peer")
      || contains msg (codes "use of closed network connection")
      || contains msg (codes "client disconnected")

  -- The tests on the error alone.
  unfoldable pub is_disconnect : UpstreamError → Bool
  is_disconnect e =
      e.is_canceled
      || e.is_closed
      || e.is_broken_pipe
      || e.is_connection_reset
      || tells_disconnect e.message

  -- `isClientCanceledRequest`
  unfoldable pub is_client_canceled_request : ContextState → Option UpstreamError → Bool
  is_client_canceled_request ctx none = false
  is_client_canceled_request ctx (some e) = is_context_canceled ctx || is_disconnect e

  -- `isClientCanceledStream`
  unfoldable pub is_client_canceled_stream : ContextState → Option UpstreamError → Bool
  is_client_canceled_stream ctx none = false
  is_client_canceled_stream ctx (some e) = is_context_done ctx || is_disconnect e

  -- `isUpstreamTimeoutError`
  unfoldable pub is_upstream_timeout_error : ContextState → Option UpstreamError → Bool
  is_upstream_timeout_error ctx none = false
  is_upstream_timeout_error ctx (some e) =
      if is_client_canceled_request ctx (some e)
      then false
      else e.is_deadline_exceeded
        || e.is_net_timeout
        || contains (to_lower e.message) (codes "timeout")

  plain_reason : Option ℕ → Option UpstreamError → Reason
  plain_reason resp (some e) = network_error
  plain_reason none none = no_response
  plain_reason (some code) none = status code

  -- `upstreamFailureReason`
  unfoldable pub upstream_failure_reason : ContextState → Option ℕ → Option UpstreamError → Reason
  unfolding plain_reason
  upstream_failure_reason ctx resp err =
      if is_client_canceled_request ctx err
      then client_canceled
      else if is_upstream_timeout_error ctx err
      then upstream_timeout
      else plain_reason resp err

  -- The action, behind the test for a canceled request.
  unfoldable pub attempt_action : List ℕ → Option ℕ → Option UpstreamError → Action
  attempt_action retryable resp (some e) = retry_same_provider
  attempt_action retryable none none = retry_same_provider
  attempt_action retryable (some code) none =
      if should_failover_status_code code
      then failover_next_provider
      else if is_retryable_status_code retryable code
      then retry_same_provider
      else return_response

  -- `classifyUpstreamAttempt`
  unfoldable pub classify_upstream_attempt :
      List ℕ → ContextState → Option ℕ → Option UpstreamError → Decision
  unfolding attempt_action upstream_failure_reason
  classify_upstream_attempt retryable ctx resp err = record {
    action =
        if is_client_canceled_request ctx err
        then terminate_request
        else attempt_action retryable resp err;
    reason = upstream_failure_reason ctx resp err;
  }

  -- `classifyTerminalProxyFailure`
  unfoldable pub classify_terminal_proxy_failure :
      ContextState → Option UpstreamError → Reason → TerminalFailure
  unfolding named_reason
  classify_terminal_proxy_failure ctx err last =
      if is_client_canceled_request ctx err || is_cancel last
      then record {
        failure_status = 499;
        failure_code = client_canceled;
        failure_reason = client_canceled;
        suppress_response = true;
      }
      else if is_timeout last || is_upstream_timeout_error ctx err
      then record {
        failure_status = 504;
        failure_code = upstream_request_timeout;
        failure_reason = upstream_timeout;
        suppress_response = false;
      }
      else record {
        failure_status = 503;
        failure_code = all_upstreams_unavailable;
        failure_reason = named_reason last;
        suppress_response = false;
      }

  -- `classifyStreamOutcome`
  unfoldable pub classify_stream_outcome :
      ContextState → Option UpstreamError → Bool → StreamOutcome
  classify_stream_outcome ctx none first_chunk_seen = if first_chunk_seen then completed else empty
  classify_stream_outcome ctx (some e) first_chunk_seen =
      if is_client_canceled_stream ctx (some e) then stream_canceled else upstream_error
