-- ===== src/Lib.antt =====
-- Strait, a gateway between chat clients and model providers.
--
-- A request passes a chain of middlewares and then the proxy. It gets its identifiers
-- (internal/middleware/requestmeta.go). The token of the client is looked up
-- (internal/middleware/auth.go), and its list of models is enforced (model_allowlist.go). The
-- body middleware reads the body once and inspects it without decoding it
-- (internal/middleware/body_scan.go), and inserts the option that makes a provider report its
-- usage in a stream (body.go). The rate limiter (ratelimit.go, local_limiter.go) keeps a token
-- bucket for each client. The model router (router.go) turns the model's name into an ordered
-- list of providers, with those that are known to be unhealthy behind the others. The proxy
-- (internal/proxy/proxy.go) tries the providers in that order, retries within the budget of
-- each, fails over to the next, and records every attempt in the gateway context
-- (internal/model/gateway.go). Health (internal/proxy/health.go, transport.go) is a snapshot
-- that active probes and the proxy's own attempts write, with the states of the circuit
-- breakers laid over it; the router and the readiness answer (internal/router/router.go) read
-- it. The proxy translates the responses of a provider with another format (internal/adapter):
-- streams line by line (stream_translator.go), and whole responses by two fast paths
-- (anthropic_response_fast.go, anthropic_response_tool_fast.go) in front of a general one
-- (anthropic_provider.go). Requests have a simple path (anthropic_request_fast.go) in front of
-- the general one too. The configuration (internal/config/config.go) is read and validated
-- once; the timeouts of attempts are taken from it (internal/proxy/timeout.go).
--
-- Files: Base and its children have what all parts share. BodyScan is body_scan.go: Result has
-- the errors, Lexer the tokens, Value the skipping of values, Inspect the inspection. Body is
-- body.go: Inject has the middleware. Limiter is local_limiter.go and ratelimit.go: Bucket and
-- Keyed have the definitions, Address those of ip_cidr.go, with the package net as the record
-- NetLib and its theorems in child modules. Router is middleware/router.go: Order has the
-- order by health, Table the table and the middleware. Auth is auth.go and model_allowlist.go,
-- with the definitions in Tokens. Meta is requestmeta.go. Gateway is model/gateway.go. Health
-- has health.go and the keys of transport.go, its child Readiness the readiness answer. Proxy
-- is proxy.go: Classify reads the outcome of an attempt, State has the records, Attempts the
-- attempts at one provider, and Serve the handler; its child Timeout is timeout.go. Config is
-- config.go: Normalize, Resolve, Validate and Load have its functions, in the order of Types.
-- Adapter.Stream is stream_translator.go: Lines, Chunks, Dispatch and Run have the
-- definitions. Adapter.Response is anthropic_response_fast.go: Lexer, Skip, Parse and
-- Translate. Adapter.Tool is anthropic_response_tool_fast.go, in Quoted and Translate, and
-- General the general path of anthropic_provider.go. Adapter.Request is the translation of
-- requests: Content is anthropic_request_content.go, General the general path of
-- anthropic_provider.go, and Fast anthropic_request_fast.go. Adapter.Json has the functions
-- that append JSON fields. The other files have proofs, and Examples applies the theorems to
-- concrete inputs. A function has the name of the source's function in snake case; a helper
-- that stands for a part of a function stands directly before it.
--
-- State is passed explicitly. A handler is a function from its state and its request to the
-- new state and the reply. A position in a body is the rest of the body from there on, and an
-- access out of range is the result `panic`. What happens outside the program is an argument:
-- the outcome of each attempt, the clock, the environment, the results of `strconv.Unquote`,
-- `strconv.AppendQuote`, `strings.TrimSpace`, `json.Unmarshal` and `url.Parse`, the number of
-- writes that a client takes, and the states of the third-party circuit breakers.
--
-- Bounds: a scan has fuel for one more round than there are unread bytes; each round reads a
-- byte at least, so that the fuel never runs out. The attempts at a provider are counted down
-- from its budget, as in the source. Tokens and rates are counted in billionths and times in
-- nanoseconds, on integers, where the source has `float64`; rounding is not modelled. The
-- rates of a configuration and of a token may also be infinite or NaN (Base/Float); the
-- limiter is modelled for finite ones. A `float32` of a request is the integer multiple of the
-- smallest one. The counter of limiter calls has 64 bits.
--
-- Not modelled: the adapters that only copy, the decoding of YAML and JSON into records, log
-- lines, metrics other than those of the proxy, and the wiring of the handlers. Mutexes make
-- their functions atomic, so that these are single steps.
pub mod Base
pub mod BodyScan
pub mod Gateway
pub mod Health
pub mod Proxy
pub mod Router
pub mod Body
pub mod Limiter
pub mod Auth
pub mod Meta
pub mod Adapter
pub mod Config
mod Examples
