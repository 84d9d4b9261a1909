-- ===== src/Body/Inject.antt =====
-- `BodyContextMiddleware` of internal/middleware/body.go and the functions that it calls. `unquote`
-- stands for `strconv.Unquote` and `trim_space` for `strings.TrimSpace` and `bytes.TrimSpace`.
use strait.Base.{
  ℕ, ◌+◌, ◌-◌, Bool, true, false, not, ◌&&◌, ◌||◌, Option, none, some, [], ◌∷◌, ◌++◌, Bytes, codes,
  contains, length, take, drop, is_empty, ◌==◌, ltb, leb, if◌then◌else◌, ℤ, pos, pos_part, ◌-ℤ◌,
  ltz, lez,
}
use strait.BodyScan.Result.{Error, Scan, ok, fail, panic, exhausted}
use strait.BodyScan.Lexer.{is_space}
use strait.BodyScan.Inspect.{Inspection, no_inspection, inspect_request_body}

abbrev pub stream_options_key : Bytes
stream_options_key = codes "\"stream_options\""

abbrev pub include_usage_field : Bytes
include_usage_field = codes "\"include_usage\":true"

abbrev pub stream_options_member : Bytes
stream_options_member = codes ",\"stream_options\":{\"include_usage\":true}"

-- `bytes.TrimRight(body, " \t\r\n")`
unfoldable pub trim_right : Bytes → Bytes
unfolding is_space
trim_right [] = []
trim_right (c ∷ s) = let rest = trim_right s in if is_empty rest && is_space c then [] else c ∷ rest

-- `s[len(s)-1]`, where there is one
unfoldable pub last_byte : Bytes → Option ℕ
last_byte [] = none
last_byte (c ∷ []) = some c
last_byte (c ∷ d ∷ s) = last_byte (d ∷ s)

unfoldable pub ends_with : ℕ → Bytes → Bool
unfolding last_byte
ends_with b s = elim (last_byte s) [ none ↦ false | some c ↦ c == b ]

-- `injectStreamIncludeUsageFast`; `none` is the result false.
unfoldable pub inject_stream_include_usage_fast : Bytes → Option Bytes
unfolding trim_right ends_with contains
inject_stream_include_usage_fast raw =
    let trimmed = trim_right raw in
    if not (ends_with b'}' trimmed)
    then none
    else if contains trimmed stream_options_key
    then none
    else some (
        take (length trimmed - 1) trimmed
        ++ stream_options_member
        ++ b'}' ∷ drop (length trimmed) raw)

-- `body[i:j]`; `none` is a panic.
unfoldable pub slice : Bytes → ℕ → ℕ → Option Bytes
slice body i j = if leb i j && leb j (length body) then some (take (j - i) (drop i body)) else none

unfoldable pub with_field : Bool → Bytes → Bytes → Bytes
with_field alone before behind =
    before ++ (if alone then [] else b',' ∷ []) ++ include_usage_field ++ behind

-- What a body is extended to; `none` is a panic, and the flag tells `StreamOptionsInjected`.
abbrev pub Extended : Type 0
Extended = Option (Bytes × Bool)

unfoldable pub fast_or_raw : Bytes → Option Bytes → Extended
fast_or_raw raw none = some (raw, false)
fast_or_raw raw (some injected) = some (injected, true)

module _ (trim_space : Bytes → Bytes) where
  unfoldable pub separated : Bytes → ℕ → Option Bytes → Extended
  unfolding with_field
  separated raw insert_at none = none
  separated raw insert_at (some between) =
      some
        (with_field (is_empty (trim_space between)) (take insert_at raw) (drop insert_at raw), true)

  -- `injectIncludeUsageIntoStreamOptions`, with the flag of its caller
  unfoldable pub inject_include_usage : Bytes → ℤ → ℤ → Extended
  unfolding separated slice
  inject_include_usage raw object_start object_end =
      let insert_at = object_end -ℤ pos 1 in
      if ltz object_start (pos 0)
        || lez object_end object_start
        || ltz insert_at (pos 0)
        || ltz (pos (length raw)) insert_at
      then some (raw, true)
      else separated raw (pos_part insert_at)
          (slice raw (pos_part object_start + 1) (pos_part insert_at))

  -- `buildUpstreamBodyFromInspection`
  unfoldable pub build_upstream_body_from_inspection : Bytes → Inspection → Extended
  unfolding fast_or_raw inject_stream_include_usage_fast inject_include_usage
  build_upstream_body_from_inspection raw info =
      if is_empty raw || not info.stream
      then some (raw, false)
      else if not info.has_stream_options
      then fast_or_raw raw (inject_stream_include_usage_fast raw)
      else if info.has_include_usage || lez info.object_end info.object_start
      then some (raw, false)
      else inject_include_usage raw info.object_start info.object_end

-- `RequestBodyContext`
pub record RequestBodyContext : Type 0 where
  pub raw_body : Bytes
  pub upstream_body : Bytes
  pub requested_model : Bytes
  pub is_stream : Bool
  pub stream_options_injected : Bool
  pub decode_error : Option Error

-- The body of a request: missing, or the bytes that arrive, and whether reading fails behind them.
pub data Incoming : Type 0 where
  no_body : Incoming
  sends : Bytes → Bool → Incoming

pub data BodyError : Type 0 where
  missing_request_body request_body_too_large request_body_read_failed : BodyError

-- An error reply, a panic, a scan without end, or a call of the next handler, where the request's
-- body is the upstream body.
pub data BodyReply : Type 0 where
  rejected : ℕ → BodyError → BodyReply
  panics hangs : BodyReply
  next : RequestBodyContext → BodyReply

-- `maxBodyBytes`, with its default of 4 MiB
unfoldable pub body_limit : ℤ → ℕ
body_limit n = if lez n (pos 0) then 4194304 else pos_part n

unfoldable pub decoded : Bytes → Inspection → Extended → BodyReply
decoded raw info none = panics
decoded raw info (some (upstream, injected)) = next (record {
  raw_body = raw;
  upstream_body = upstream;
  requested_model = info.model;
  is_stream = info.stream;
  stream_options_injected = injected;
  decode_error = none;
})

module _ (unquote : Bytes → Option Bytes) (trim_space : Bytes → Bytes) where
  unfoldable pub inspected : Bytes → Scan Inspection → BodyReply
  unfolding decoded build_upstream_body_from_inspection no_inspection
  inspected raw (ok info) =
      decoded raw info (build_upstream_body_from_inspection trim_space raw info)
  inspected raw (fail e) = next (record {
    raw_body = raw;
    upstream_body = raw;
    requested_model = no_inspection.model;
    is_stream = no_inspection.stream;
    stream_options_injected = false;
    decode_error = some e;
  })
  inspected raw panic = panics
  inspected raw exhausted = hangs

  -- `BodyContextMiddleware`: `http.MaxBytesReader` fails once more bytes than the limit arrive.
  unfoldable pub body_context : ℤ → Incoming → BodyReply
  unfolding inspected body_limit inspect_request_body
  body_context max no_body = rejected 400 missing_request_body
  body_context max (sends raw fails) =
      if ltb (body_limit max) (length raw)
      then rejected 413 request_body_too_large
      else if fails
      then rejected 400 request_body_read_failed
      else inspected raw (inspect_request_body unquote trim_space raw)
