-- ===== src/Proxy/Forwarded.antt =====
-- The reply of `ServeHTTP` is the response of the first provider that answers.
use strait.Base.{
  ℕ, zero, suc, ◌+◌, Bool, true, false, ◌≡◌, ◌↔◌, refl, arith, List, [], ◌∷◌, Bytes, ltb,
}
use strait.Gateway.{ProviderRoute, GatewayContext, Reason}
use strait.Health.{HealthMap}
use strait.Proxy.Classify.{
  Action, return_response, retry_same_provider, failover_next_provider, terminate_request,
}
use strait.Proxy.State.{
  Attempt, Upstream, Run, Reply, Outcome, moved_on, returned, code_or_zero, Place,
}
use strait.Proxy.Attempts.{
  on_retry, on_failover, on_return, act, resume, attempt_once, attempt_loop,
}
use strait.Proxy.Serve.{
  note_failover, start, follow, compile_check, try_provider, provider_loop, serve_candidates, serve,
}
use strait.Proxy.Answer.{
  Forwards, Answers, at_once, on_later, GivesUp, fails_over, exhausts, gives_up_later, Serves,
  first, behind, provider_loop-Serves,
}

abbrev Returns : Bytes → ℕ → Outcome → Type 0
Returns name code (moved_on r) = ⊥
Returns name code (returned r reply) = Forwards name code reply

abbrev MovesOn : Outcome → Type 0
MovesOn (moved_on r) = Unit
MovesOn (returned r reply) = ⊥

before_last : (n left budget : ℕ) → n + suc left ≡ budget → ltb n budget ≡ true
before_last n left budget h = ground arith

at_last : (n left budget : ℕ) → n + left ≡ budget → left ≡ zero → ltb n budget ≡ false
at_last n left budget h e = ground arith

module _ (to_lower : Bytes → Bytes) (pl : Place) (a : Attempt) (why : Reason) (r : Run) where
  act-Returns :
      (d : Action) (rest : Run → Outcome) (code : ℕ)
      → d ≡ return_response
      → code_or_zero a.response ≡ code
      → Returns pl.provider.name code (resume rest (act to_lower d pl a why r))
  unfolding act resume on_return
  act-Returns return_response rest code e c = (refl, c)
  act-Returns retry_same_provider rest code e c = cc
  act-Returns failover_next_provider rest code e c = cc
  act-Returns terminate_request rest code e c = cc

  act_retries :
      (d : Action) (rest : Run → Outcome) (P : Outcome → Type 0)
      → d ≡ retry_same_provider
      → a.backoff_completed ≡ true
      → ltb pl.attempt pl.budget ≡ true
      → ((r' : Run) → P (rest r'))
      → P (resume rest (act to_lower d pl a why r))
  unfolding act resume on_retry
  act_retries retry_same_provider rest P e b t h = rw (t, b) (h _)
  act_retries return_response rest P e b t h = cc
  act_retries failover_next_provider rest P e b t h = cc
  act_retries terminate_request rest P e b t h = cc

  act_exhausts :
      (d : Action) (rest : Run → Outcome)
      → d ≡ retry_same_provider
      → ltb pl.attempt pl.budget ≡ false
      → MovesOn (resume rest (act to_lower d pl a why r))
  unfolding act resume on_retry
  act_exhausts retry_same_provider rest e t = rw t tt
  act_exhausts return_response rest e t = cc
  act_exhausts failover_next_provider rest e t = cc
  act_exhausts terminate_request rest e t = cc

  act_fails_over :
      (d : Action) (rest : Run → Outcome)
      → d ≡ failover_next_provider
      → MovesOn (resume rest (act to_lower d pl a why r))
  unfolding act resume on_failover
  act_fails_over failover_next_provider rest e = tt
  act_fails_over retry_same_provider rest e = cc
  act_fails_over return_response rest e = cc
  act_fails_over terminate_request rest e = cc

module _ (to_lower : Bytes → Bytes) (u : Upstream) where
  attempt_loop-Returns :
      (p : ProviderRoute) (i budget : ℕ) {left n code : ℕ} (r : Run)
      → Answers to_lower u i left n code
      → n + left ≡ suc budget
      → Returns p.name code (attempt_loop to_lower u p i budget left n r)
  unfolding attempt_loop attempt_once
  attempt_loop-Returns p i budget r (at_once d c) h = act-Returns to_lower _ _ _ _ _ _ _ d c
  attempt_loop-Returns p i budget {n = n} {code = code} r (on_later {left} d b l) h =
      act_retries to_lower _ _ _ _ _ _ (Returns p.name code) d b
        (before_last n left budget (omega arith))
        (λ r'. attempt_loop-Returns p i budget r' l (omega arith))

  attempt_loop-MovesOn :
      (p : ProviderRoute) (i budget : ℕ) {left n : ℕ} (r : Run)
      → GivesUp to_lower u i left n
      → n + left ≡ suc budget
      → MovesOn (attempt_loop to_lower u p i budget left n r)
  unfolding attempt_loop attempt_once
  attempt_loop-MovesOn p i budget r (fails_over d) h = act_fails_over to_lower _ _ _ _ _ _ d
  attempt_loop-MovesOn p i budget {n = n} r (exhausts {left} d z) h =
      act_exhausts to_lower _ _ _ _ _ _ d (at_last n left budget (omega arith) z)
  attempt_loop-MovesOn p i budget {n = n} r (gives_up_later {left} d b l) h =
      act_retries to_lower _ _ _ _ _ _ MovesOn d b (before_last n left budget (omega arith))
        (λ r'. attempt_loop-MovesOn p i budget r' l (omega arith))

  follow-Forwards :
      (rest : Run → Run × Reply) (o : Outcome) (name : Bytes) (code : ℕ)
      → Returns name code o
      → Forwards name code (follow rest o).1
  unfolding follow
  follow-Forwards rest (returned r reply) name code h = h
  follow-Forwards rest (moved_on r) name code h = absurd h

  follow-MovesOn :
      (rest : Run → Run × Reply) (o : Outcome) (P : Run × Reply → Type 0)
      → MovesOn o
      → ((r : Run) → P (rest r))
      → P (follow rest o)
  unfolding follow
  follow-MovesOn rest (moved_on r) P m h = h r
  follow-MovesOn rest (returned r reply) P m h = absurd m

  compiled :
      (b : Bool) (r : Run) (o : Outcome) (P : Outcome → Type 0)
      → b ≡ true
      → P o
      → P (compile_check b r o)
  unfolding compile_check
  compiled true r o P e h = h
  compiled false r o P e h = cc

  provider_loop-Forwards :
      (candidates : List ProviderRoute) {ps : List ProviderRoute} {i code : ℕ} {name : Bytes}
      (r : Run)
      → Serves to_lower u ps i name code
      → Forwards name code (provider_loop to_lower u candidates ps i r).1
  unfolding provider_loop try_provider
  provider_loop-Forwards candidates {i = i} r (first {p} {ps} c a) =
      follow-Forwards _ _ _ _
        (compiled _ _ _ (Returns p.name _) c (attempt_loop-Returns p i _ _ a (omega arith)))
  provider_loop-Forwards candidates {i = i} {code = code} {name = name} r (behind {p} {ps} c g s) =
      follow-MovesOn _ _ (λ o. Forwards name code o.1)
        (compiled _ _ _ MovesOn c (attempt_loop-MovesOn p i _ _ g (omega arith)))
        (λ r'. provider_loop-Forwards candidates (note_failover candidates p i r') s)

module _ (to_lower : Bytes → Bytes) (u : Upstream) (g : GatewayContext) (health : HealthMap) where
  serve_candidates-Forwards :
      (ps : List ProviderRoute) (r : Run) (name : Bytes) (code : ℕ)
      → Forwards name code (serve_candidates to_lower u ps r).1 ↔ Serves to_lower u ps 0 name code
  unfolding serve_candidates
  serve_candidates-Forwards [] r name code = (λ f. absurd f, λ s. no_candidates s)
    where
      no_candidates : {n : Bytes} {c : ℕ} → Serves to_lower u [] 0 n c → ⊥
      no_candidates s = elim s [ ]
  serve_candidates-Forwards (p ∷ ps) r name code = (
    provider_loop-Serves to_lower u (p ∷ ps) (p ∷ ps) 0 r name code,
    provider_loop-Forwards to_lower u (p ∷ ps) r,
  )

  -- With a body context, `ServeHTTP` forwards a response of provider `name` with status `code`
  -- exactly when `name` is the first candidate that is not given up and one of its attempts, within
  -- its budget of retries + 1, returns a response with that status. Each candidate before it must
  -- compile the request and is given up, by a status that fails over or by its last retry.
  pub serve-Forwards_iff :
      (name : Bytes) (code : ℕ)
      → Forwards name code (serve to_lower u true g health).1
        ↔ Serves to_lower u g.candidate_providers 0 name code
  unfolding serve
  serve-Forwards_iff name code =
      serve_candidates-Forwards g.candidate_providers (start g health) name code
