-- ===== src/Gateway.antt =====
-- internal/model/gateway.go: the records that a request carries through the gateway.
use strait.Base.{ℕ, Bool, false, Option, some, List, [], ◌∷◌, ◌++◌, Bytes, same, if◌then◌else◌}

-- `ProviderRoute`. `MaxRetries` is at least 0 in a loaded configuration (`applyUpstreamDefaults`).
pub record ProviderRoute : Type 0 where
  pub name : Bytes
  pub base_url : Bytes
  pub api_key : Bytes
  pub priority : ℕ
  pub max_retries : ℕ
  pub health_check_path : Bytes
  pub timeout_non_stream : Bytes
  pub timeout_stream : Bytes

-- `RouteCandidateTrace`
pub record RouteCandidateTrace : Type 0 where
  pub provider : Bytes
  pub priority : ℕ

-- Why an attempt did not return a response; `status n` is the text "status_n",
-- and `status_label n`, which a returned response leaves, is "n".
pub data Reason : Type 0 where
  unknown client_canceled upstream_timeout upstream_unavailable network_error no_response : Reason
  status status_label : ℕ → Reason
  missing_body_context no_route_candidates upstream_request_build_failed : Reason

-- The `Result` texts of an attempt.
pub data AttemptResult : Type 0 where
  retry retry_exhausted failover error returned_response : AttemptResult

-- `UpstreamAttemptTrace`
pub record UpstreamAttemptTrace : Type 0 where
  pub provider : Bytes
  pub provider_index : ℕ
  pub attempt : ℕ
  pub attempt_budget : ℕ
  pub status_code : ℕ
  pub result : AttemptResult
  pub reason : Reason
  pub duration_ms : ℕ

-- `UpstreamFailoverTrace`
pub record UpstreamFailoverTrace : Type 0 where
  pub from_provider : Bytes
  pub to_provider : Bytes
  pub provider_index : ℕ
  pub failover_count : ℕ
  pub reason : Reason

-- The outcomes of a stream.
pub data StreamOutcome : Type 0 where
  completed empty stream_canceled upstream_error : StreamOutcome

-- The routing policies of internal/middleware/router.go.
pub data RoutePolicy : Type 0 where
  configured_order healthy_first : RoutePolicy

-- The codes of a final error.
pub data ErrorCode : Type 0 where
  missing_gateway_context missing_body_context no_route_candidates : ErrorCode
  upstream_request_build_failed client_canceled : ErrorCode
  upstream_request_timeout all_upstreams_unavailable : ErrorCode

-- What `SetTerminalError` stores; each call gives the type "server_error".
pub record TerminalError : Type 0 where
  pub final_status : ℕ
  pub final_code : ErrorCode
  pub final_reason : Reason

-- `GatewayContext`
pub record GatewayContext : Type 0 where
  pub requested_model : Bytes
  pub target_provider : Bytes
  pub target_model : Bytes
  pub api_key : Bytes
  pub base_url : Bytes
  pub candidate_providers : List ProviderRoute
  pub route_selection_policy : RoutePolicy
  pub route_candidates : List RouteCandidateTrace
  pub attempted_providers : List Bytes
  pub upstream_attempts : List UpstreamAttemptTrace
  pub failover_events : List UpstreamFailoverTrace
  pub failover_count : ℕ
  pub stream_outcome : Option StreamOutcome
  pub stream_chunks : ℕ
  pub stream_bytes : ℕ
  pub final_error : Option TerminalError

unfoldable pub last_is : Bytes → List Bytes → Bool
last_is p [] = false
last_is p (x ∷ []) = same x p
last_is p (x ∷ y ∷ xs) = last_is p (y ∷ xs)

-- The attempted providers after `noteProviderAttempt`.
unfoldable pub noted : Bytes → List Bytes → List Bytes
unfolding last_is
noted [] attempted = attempted
noted (c ∷ p) attempted = if last_is (c ∷ p) attempted then attempted else attempted ++ (c ∷ p) ∷ []

-- `noteProviderAttempt`
unfoldable pub note_provider_attempt : Bytes → GatewayContext → GatewayContext
note_provider_attempt p g = record g { attempted_providers = noted p g.attempted_providers }

-- `SetActiveProvider`
unfoldable pub set_active_provider : ProviderRoute → GatewayContext → GatewayContext
unfolding note_provider_attempt
set_active_provider p g =
    note_provider_attempt p.name
      (record g { target_provider = p.name; api_key = p.api_key; base_url = p.base_url })

-- `RecordUpstreamAttempt`
unfoldable pub add_upstream_attempt : UpstreamAttemptTrace → GatewayContext → GatewayContext
add_upstream_attempt t g = record g { upstream_attempts = g.upstream_attempts ++ t ∷ [] }

-- `RecordFailover`
unfoldable pub record_failover : UpstreamFailoverTrace → GatewayContext → GatewayContext
record_failover t g = record g { failover_events = g.failover_events ++ t ∷ [] }

-- `SetTerminalError`
unfoldable pub set_terminal_error : ℕ → ErrorCode → Reason → GatewayContext → GatewayContext
set_terminal_error s c r g = record g {
  final_error = some (record { final_status = s; final_code = c; final_reason = r });
}
