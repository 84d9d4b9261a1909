-- ===== src/Proxy/Answer.antt =====
-- Which provider answers a request: `ServeHTTP` of internal/proxy/proxy.go against a description
-- that knows only the outcomes of the attempts.
use strait.Base.{
  ℕ, zero, suc, ◌+◌, Bool, true, false, ◌≡◌, ◌⊎◌, inl, inr, refl, sym, ◌∙◌, subst, arith, Option,
  List, [], ◌∷◌, Bytes, ltb, if◌then◌else◌,
}
use strait.Gateway.{ProviderRoute, Reason, ErrorCode}
use strait.Proxy.Classify.{
  Action, return_response, retry_same_provider, failover_next_provider, terminate_request,
}
use strait.Proxy.State.{
  Attempt, Upstream, Run, Reply, silent, forwarded, failed, Step, again, advance, finished, Outcome,
  moved_on, returned, effective_retry_count, code_or_zero, Place,
}
use strait.Proxy.Attempts.{observe, on_retry, act, resume, decide, attempt_once, attempt_loop}
use strait.Proxy.Serve.{note_failover, follow, activate, compile_check, try_provider, provider_loop}

-- The reply forwards a response of this provider with this status code.
abbrev pub Forwards : Bytes → ℕ → Reply → Type 0
Forwards name code (forwarded n c retries failovers) = (n ≡ name) × (c ≡ code)
Forwards name code (silent headers) = ⊥
Forwards name code (failed status error_code headers) = ⊥

ltb_false : (n budget : ℕ) → ltb n budget ≡ true → budget ≡ n → ⊥
ltb_false n budget t e = ground arith

none_left : (n left budget : ℕ) → ltb n budget ≡ false → n + left ≡ budget → left ≡ zero
none_left n left budget t e = ground arith

module _ (to_lower : Bytes → Bytes) (u : Upstream) where
  -- The action on attempt `n` at provider `i`.
  abbrev pub action_at : ℕ → ℕ → Action
  action_at i n = (decide to_lower u (u.at i n)).action

  -- Provider `i`, with `left` attempts from attempt `n` on, answers with `code`.
  pub data Answers (i : ℕ) : ℕ → ℕ → ℕ → Type 0 where
    at_once :
        {left n code : ℕ}
        → action_at i n ≡ return_response
        → code_or_zero (u.at i n).response ≡ code
        → Answers i (suc left) n code
    on_later :
        {left n code : ℕ}
        → action_at i n ≡ retry_same_provider
        → (u.at i n).backoff_completed ≡ true
        → Answers i (suc left) (n + 1) code
        → Answers i (suc (suc left)) n code

  -- Provider `i` is given up, for a status that fails over or when no attempt is left.
  pub data GivesUp (i : ℕ) : ℕ → ℕ → Type 0 where
    fails_over : {left n : ℕ} → action_at i n ≡ failover_next_provider → GivesUp i (suc left) n
    exhausts :
        {left n : ℕ} → action_at i n ≡ retry_same_provider → left ≡ zero → GivesUp i (suc left) n
    gives_up_later :
        {left n : ℕ}
        → action_at i n ≡ retry_same_provider
        → (u.at i n).backoff_completed ≡ true
        → GivesUp i (suc left) (n + 1)
        → GivesUp i (suc (suc left)) n

  -- The first provider that is not given up answers.
  pub data Serves : List ProviderRoute → ℕ → Bytes → ℕ → Type 0 where
    first :
        {p : ProviderRoute} {ps : List ProviderRoute} {i code : ℕ}
        → u.compiles p ≡ true
        → Answers i (suc (effective_retry_count u p)) 1 code
        → Serves (p ∷ ps) i p.name code
    behind :
        {p : ProviderRoute} {ps : List ProviderRoute} {i code : ℕ} {name : Bytes}
        → u.compiles p ≡ true
        → GivesUp i (suc (effective_retry_count u p)) 1
        → Serves ps (i + 1) name code
        → Serves (p ∷ ps) i name code

  -- What a round comes to, by its action.
  abbrev Round : Place → Attempt → Action → Step → Type 0
  Round pl a d (again r) =
      (d ≡ retry_same_provider) × (a.backoff_completed ≡ true) × (ltb pl.attempt pl.budget ≡ true)
  Round pl a d (advance r) =
      ((d ≡ retry_same_provider) × (ltb pl.attempt pl.budget ≡ false))
      ⊎ (d ≡ failover_next_provider)
  Round pl a d (finished r (forwarded name code x y)) =
      (d ≡ return_response) × (name ≡ pl.provider.name) × (code_or_zero a.response ≡ code)
  Round pl a d (finished r (silent x)) = Unit
  Round pl a d (finished r (failed x y z)) = Unit

  act-Round :
      (d : Action) (pl : Place) (a : Attempt) (why : Reason) (r : Run)
      → Round pl a d (act to_lower d pl a why r)
  unfolding act
  act-Round retry_same_provider pl a why r = unfold on_retry in ground arith
  act-Round failover_next_provider pl a why r = inr refl
  act-Round terminate_request pl a why r = tt
  act-Round return_response pl a why r = (refl, refl, refl)

  -- What the attempts at a provider come to.
  abbrev Settles : ProviderRoute → ℕ → ℕ → ℕ → Outcome → Type 0
  Settles p i left n (moved_on r) = GivesUp i left n
  Settles p i left n (returned r (forwarded name code x y)) =
      (name ≡ p.name) × Answers i left n code
  Settles p i left n (returned r (silent x)) = Unit
  Settles p i left n (returned r (failed x y z)) = Unit

  Settles-later :
      (p : ProviderRoute) (i left n : ℕ) (o : Outcome)
      → action_at i n ≡ retry_same_provider
      → (u.at i n).backoff_completed ≡ true
      → Settles p i (suc left) (n + 1) o
      → Settles p i (suc (suc left)) n o
  Settles-later p i left n (moved_on r) d b h = gives_up_later d b h
  Settles-later p i left n (returned r (forwarded name code x y)) d b (e, h) = (e, on_later d b h)
  Settles-later p i left n (returned r (silent x)) d b h = tt
  Settles-later p i left n (returned r (failed x y z)) d b h = tt

  abbrev SettlesNext : ProviderRoute → ℕ → ℕ → ℕ → Outcome → Type 0
  SettlesNext p i zero n o = Unit
  SettlesNext p i (suc left) n o = Settles p i (suc left) n o

  resume-Settles :
      (p : ProviderRoute) (i budget left n : ℕ) (rest : Run → Outcome) (s : Step)
      → Round
          (record { provider = p; index = i; budget = budget; attempt = n })
          (u.at i n)
          (action_at i n)
          s
      → ((r : Run) → SettlesNext p i left (n + 1) (rest r))
      → n + left ≡ budget
      → Settles p i (suc left) n (resume rest s)
  unfolding resume
  resume-Settles p i budget zero n rest (again r) (d, b, t) h e =
      absurd (ltb_false n budget t (omega arith))
  resume-Settles p i budget (suc l) n rest (again r) (d, b, t) h e =
      Settles-later p i l n (rest r) d b (h r)
  resume-Settles p i budget left n rest (advance r) (inl (d, t)) h e =
      exhausts d (none_left n left budget t e)
  resume-Settles p i budget left n rest (advance r) (inr d) h e = fails_over d
  resume-Settles p i budget left n rest (finished r (forwarded name code x y)) (d, m, c) h e =
      (m, at_once d c)
  resume-Settles p i budget left n rest (finished r (silent x)) t h e = tt
  resume-Settles p i budget left n rest (finished r (failed x y z)) t h e = tt

  attempt_once-Round :
      (pl : Place) (r : Run)
      → Round pl
          (u.at pl.index pl.attempt)
          (action_at pl.index pl.attempt)
          (attempt_once to_lower u pl r)
  unfolding attempt_once
  attempt_once-Round pl r =
      let a = u.at pl.index pl.attempt in
      act-Round (decide to_lower u a).action pl a (decide to_lower u a).reason (observe pl a r)

  attempt_loop-Settles :
      (p : ProviderRoute) (i budget left n : ℕ) (r : Run)
      → n + left ≡ budget
      → Settles p i (suc left) n (attempt_loop to_lower u p i budget (suc left) n r)
  unfolding attempt_loop
  attempt_loop-Settles p i budget zero n r h =
      resume-Settles p i budget zero n (attempt_loop to_lower u p i budget zero (n + 1)) _
        (attempt_once-Round _ r) (λ r'. tt) h
  attempt_loop-Settles p i budget (suc left) n r h =
      resume-Settles p i budget (suc left) n (attempt_loop to_lower u p i budget (suc left) (n + 1))
        _ (attempt_once-Round _ r)
        (λ r'. attempt_loop-Settles p i budget left (n + 1) r' (omega arith)) h

  -- The same, with the check that the request compiles.
  abbrev Tried : ProviderRoute → ℕ → Outcome → Type 0
  Tried p i (moved_on r) = (u.compiles p ≡ true) × GivesUp i (suc (effective_retry_count u p)) 1
  Tried p i (returned r (forwarded name code x y)) =
      (name ≡ p.name) × (u.compiles p ≡ true) × Answers i (suc (effective_retry_count u p)) 1 code
  Tried p i (returned r (silent x)) = Unit
  Tried p i (returned r (failed x y z)) = Unit

  compile_check-Tried :
      (p : ProviderRoute) (i : ℕ) (r : Run) (b : Bool) (o : Outcome)
      → u.compiles p ≡ b
      → Settles p i (suc (effective_retry_count u p)) 1 o
      → Tried p i (compile_check b r o)
  unfolding compile_check
  compile_check-Tried p i r true (moved_on r') e h = (e, h)
  compile_check-Tried p i r true (returned r' (forwarded name code x y)) e (m, h) = (m, e, h)
  compile_check-Tried p i r true (returned r' (silent x)) e h = tt
  compile_check-Tried p i r true (returned r' (failed x y z)) e h = tt
  compile_check-Tried p i r false o e h = tt

  try_provider-Tried :
      (p : ProviderRoute) (i : ℕ) (r : Run) → Tried p i (try_provider to_lower u p i r)
  unfolding try_provider
  try_provider-Tried p i r = compile_check-Tried p i r (u.compiles p) _ refl (
      attempt_loop-Settles p i (suc (effective_retry_count u p)) (effective_retry_count u p) 1 r
        (omega arith))

  follow-Serves :
      (p : ProviderRoute) (ps : List ProviderRoute) (i : ℕ) (rest : Run → Run × Reply) (o : Outcome)
      (name : Bytes) (code : ℕ)
      → Tried p i o
      → ((r : Run) → Forwards name code (rest r).1 → Serves ps (i + 1) name code)
      → Forwards name code (follow rest o).1
      → Serves (p ∷ ps) i name code
  unfolding follow
  follow-Serves p ps i rest (moved_on r) name code (c, g) h f = behind c g (h r f)
  follow-Serves p ps i rest (returned r (forwarded m d x y)) name code (e, c, a) h (f, g) =
      subst (λ t. Serves (p ∷ ps) i t code) (sym e ∙ f)
        (subst (λ t. Serves (p ∷ ps) i p.name t) g (first c a))
  follow-Serves p ps i rest (returned r (silent x)) name code t h f = absurd f
  follow-Serves p ps i rest (returned r (failed x y z)) name code t h f = absurd f

  pub provider_loop-Serves :
      (candidates ps : List ProviderRoute) (i : ℕ) (r : Run) (name : Bytes) (code : ℕ)
      → Forwards name code (provider_loop to_lower u candidates ps i r).1
      → Serves ps i name code
  unfolding provider_loop
  provider_loop-Serves candidates [] i r name code f = absurd (gives_none _ _ _ _ f)
    where
      gives_none :
          (b : Bool) (status : ℕ) (e : ErrorCode) (h : Option (ℕ × ℕ))
          → Forwards name code (if b then silent h else failed status e h)
          → ⊥
      gives_none true status e h f = f
      gives_none false status e h f = f
  provider_loop-Serves candidates (p ∷ ps) i r name code f =
      follow-Serves p ps i _ (try_provider to_lower u p i (activate p r)) name code
        (try_provider-Tried p i (activate p r))
        (λ r' f'.
          provider_loop-Serves candidates ps (i + 1) (note_failover candidates p i r') name code f')
        f
