-- ===== src/Examples/Requests.antt =====
-- Requests through internal/proxy/proxy.go: the first of two
-- providers answers 429, the second one 200.
use strait.Base.{
  ℕ, zero, suc, true, false, ◌↔◌, refl, none, some, List, [], ◌∷◌, Bytes, codes, length, ◌-◌,
}
use strait.Gateway.{ProviderRoute, GatewayContext, configured_order}
use strait.Proxy.Classify.{live}
use strait.Proxy.State.{Attempt, Upstream}
use strait.Proxy.Serve.{start, serve}
use strait.Proxy.Accounts.{Closes, serve-Closes}
use strait.Proxy.Spending.{Spends, attempts_allowed, serve-Spends}
use strait.Proxy.Answer.{Forwards, Serves}
use strait.Proxy.Forwarded.{serve-Forwards_iff}

abbrev same_text : Bytes → Bytes
same_text s = s

abbrev route : Bytes → ℕ → ProviderRoute
route name priority = record {
  name = name;
  base_url = codes "https://h";
  api_key = [];
  priority = priority;
  max_retries = 1;
  health_check_path = [];
  timeout_non_stream = [];
  timeout_stream = [];
}

abbrev two_routes : List ProviderRoute
two_routes = route (codes "a") 1 ∷ route (codes "b") 2 ∷ []

abbrev fresh_context : GatewayContext
fresh_context = record {
  requested_model = codes "m";
  target_provider = [];
  target_model = codes "m";
  api_key = [];
  base_url = [];
  candidate_providers = two_routes;
  route_selection_policy = configured_order;
  route_candidates = [];
  attempted_providers = [];
  upstream_attempts = [];
  failover_events = [];
  failover_count = 0;
  stream_outcome = none;
  stream_chunks = 0;
  stream_bytes = 0;
  final_error = none;
}

abbrev answering : ℕ → Attempt
answering status = record {
  response = some status;
  err = none;
  ctx = live;
  now = 0;
  duration_ms = 5;
  backoff_completed = true;
  streaming = false;
  transfer = record {
    write_err = none;
    write_ctx = live;
    first_chunk_seen = true;
    chunk_count = 1;
    bytes_written = 10;
  };
}

abbrev answers_at : ℕ → ℕ → Attempt
answers_at zero n = answering 429
answers_at (suc i) n = answering 200

abbrev two_upstreams : Upstream
two_upstreams = record {
  retryable = 429 ∷ 500 ∷ [];
  default_max_retries = 2;
  compiles = λ p. true;
  at = answers_at;
  final_ctx = live;
}

serve-Forwards_iff_example :
    Forwards (codes "b") 200 (serve same_text two_upstreams true fresh_context []).1
    ↔ Serves same_text two_upstreams two_routes 0 (codes "b") 200
serve-Forwards_iff_example =
    serve-Forwards_iff same_text two_upstreams fresh_context [] (codes "b") 200

serve-Closes_example : Closes (serve same_text two_upstreams true fresh_context [])
serve-Closes_example = serve-Closes same_text two_upstreams true fresh_context [] refl refl refl

serve-Spends_example :
    Spends
      (attempts_allowed two_upstreams two_routes)
      (length two_routes - 1)
      (start fresh_context [])
      (serve same_text two_upstreams true fresh_context []).0
serve-Spends_example = serve-Spends same_text two_upstreams true fresh_context []
