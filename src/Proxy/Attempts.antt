-- ===== src/Proxy/Attempts.antt =====
-- The attempts at one provider, internal/proxy/proxy.go: `attemptLoop` of `ServeHTTP`.
use strait.Base.{ℕ, zero, suc, ◌+◌, not, none, some, Bytes, ltb, if◌then◌else◌}
use strait.Gateway.{
  ProviderRoute, Reason, failover, error, returned_response, ErrorCode, set_terminal_error,
}
use strait.Health.{mark_passive_probe_result}
use strait.Proxy.Classify.{
  Action, Decision, return_response, retry_same_provider, failover_next_provider, terminate_request,
  is_client_canceled_request, classify_upstream_attempt, classify_stream_outcome,
}
use strait.Proxy.State.{
  Attempt, Upstream, observed, final_success, retried, stream_ended, Run, silent, forwarded, Step,
  again, advance, finished, Outcome, moved_on, returned, retry_attempt_result,
  upstream_status_label, code_or_zero, error_text, Place, record_upstream_attempt, note,
}

-- The passive health mark and the observation behind `client.Do`.
unfoldable pub observe : Place → Attempt → Run → Run
unfolding mark_passive_probe_result upstream_status_label
observe pl a r =
    note (observed pl.provider.name (upstream_status_label a.response a.err)) (record r {
      health =
          mark_passive_probe_result a.now pl.provider.name pl.provider.base_url a.response
            (error_text a.err) r.health;
    })

-- `case upstreamAttemptRetrySameProvider`
unfoldable pub on_retry : Place → Attempt → Reason → Run → Step
unfolding retry_attempt_result record_upstream_attempt set_terminal_error
on_retry pl a why r =
    let counted = note (retried pl.provider.name why) (record r {
      ctx = record_upstream_attempt pl a why (retry_attempt_result pl.attempt pl.budget) r.ctx;
      final_err = a.err;
      total_retries = r.total_retries + 1;
      last_reason = why;
    }) in
    if not (ltb pl.attempt pl.budget)
    then advance counted
    else if a.backoff_completed
    then again counted
    else finished
        (record counted {
          ctx = set_terminal_error 499 ErrorCode.client_canceled Reason.client_canceled counted.ctx;
          last_reason = Reason.client_canceled;
        })
        (silent none)

-- `case upstreamAttemptFailoverNextProvider`
unfoldable pub on_failover : Place → Attempt → Reason → Run → Step
unfolding record_upstream_attempt
on_failover pl a why r =
    advance (record r { ctx = record_upstream_attempt pl a why failover r.ctx; last_reason = why })

-- `case upstreamAttemptTerminateRequest`
unfoldable pub on_terminate : Place → Attempt → Reason → Run → Step
unfolding record_upstream_attempt set_terminal_error
on_terminate pl a why r =
    finished
      (record r {
        ctx =
            set_terminal_error 499 ErrorCode.client_canceled Reason.client_canceled
              (record_upstream_attempt pl a why error r.ctx);
        final_err = a.err;
        last_reason = why;
      })
      (silent none)

-- Behind a round: `again` is the rest of the loop.
unfoldable pub resume : (Run → Outcome) → Step → Outcome
resume rest (again r) = rest r
resume rest (advance r) = moved_on r
resume rest (finished r reply) = returned r reply

module _ (to_lower : Bytes → Bytes) where
  -- `finishStreamingRequest`, where the response is a stream.
  unfoldable pub finish_streaming_request : Place → Attempt → Run → Run
  finish_streaming_request pl a r =
      let outcome =
        classify_stream_outcome to_lower a.transfer.write_ctx a.transfer.write_err
          a.transfer.first_chunk_seen in
      note (stream_ended pl.provider.name outcome) (record r {
        ctx = record r.ctx {
          stream_outcome = some outcome;
          stream_chunks = a.transfer.chunk_count;
          stream_bytes = a.transfer.bytes_written;
        };
      })

  -- The test of `writeErr`.
  unfoldable pub close_transfer : Attempt → Run → Run
  unfolding set_terminal_error
  close_transfer a r = record r {
    ctx =
        if is_client_canceled_request to_lower a.transfer.write_ctx a.transfer.write_err
        then set_terminal_error 499 ErrorCode.client_canceled Reason.client_canceled r.ctx
        else r.ctx;
  }

  -- `case upstreamAttemptReturn`
  unfoldable pub on_return : Place → Attempt → Run → Step
  unfolding record_upstream_attempt upstream_status_label finish_streaming_request close_transfer
  on_return pl a r =
      let label = upstream_status_label a.response none in
      let sent =
        note (final_success pl.provider.name label)
          (record r { ctx = record_upstream_attempt pl a label returned_response r.ctx }) in
      let streamed = if a.streaming then finish_streaming_request pl a sent else sent in
      finished (close_transfer a streamed)
        (forwarded pl.provider.name (code_or_zero a.response) r.total_retries r.ctx.failover_count)

  -- The `switch decision.Action`.
  unfoldable pub act : Action → Place → Attempt → Reason → Run → Step
  unfolding on_retry on_failover on_terminate on_return
  act retry_same_provider pl a why r = on_retry pl a why r
  act failover_next_provider pl a why r = on_failover pl a why r
  act terminate_request pl a why r = on_terminate pl a why r
  act return_response pl a why r = on_return pl a r

  -- The decision on an attempt.
  unfoldable pub decide : Upstream → Attempt → Decision
  decide u a = classify_upstream_attempt to_lower u.retryable a.ctx a.response a.err

  -- One round of `attemptLoop`.
  unfoldable pub attempt_once : Upstream → Place → Run → Step
  unfolding act observe decide
  attempt_once u pl r =
      let a = u.at pl.index pl.attempt in
      act (decide u a).action pl a (decide u a).reason (observe pl a r)

  -- `attemptLoop`, with the number of attempts that are left.
  unfoldable pub attempt_loop : Upstream → ProviderRoute → ℕ → ℕ → ℕ → ℕ → Run → Outcome
  unfolding resume
  attempt_loop u p i budget zero attempt r = moved_on r
  attempt_loop u p i budget (suc left) attempt r =
      resume (attempt_loop u p i budget left (attempt + 1))
        (attempt_once u (record { provider = p; index = i; budget = budget; attempt = attempt }) r)
