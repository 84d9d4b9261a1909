-- ===== src/BodyScan/Inspect.antt =====
-- The inspection of a request body, internal/middleware/body_scan.go.
-- `unquote` stands for `strconv.Unquote` and `trim_space` for `strings.TrimSpace`. When the
-- inspection fails the source also returns what it had found, which no caller reads.
use strait.Base.{
  ℕ, zero, suc, ◌-◌, Bool, true, false, not, ◌||◌, Option, [], ◌∷◌, Bytes, same, codes, length,
  is_empty, ◌==◌, if◌then◌else◌, ℤ, pos, negsuc,
}
use strait.BodyScan.Result.{
  Error, Scan, ok, fail, panic, exhausted, ◌>>=◌, body_not_object, trailing_content,
  expected_object, unexpected_end_of_json_object, end_after_colon, model_not_string,
  stream_not_boolean, not_array, response_format_not_object, stream_options_not_object,
  end_after_object_value, expected_comma_or_brace,
}
use strait.BodyScan.Lexer.{skip_whitespace, scan_bool, scan_string}
use strait.BodyScan.Value.{skip_colon, skip_value}

-- `requestBodyInspection`
pub record Inspection : Type 0 where
  pub model : Bytes
  pub stream : Bool
  pub has_stream_options : Bool
  pub has_include_usage : Bool
  pub object_start : ℤ
  pub object_end : ℤ

unfoldable pub no_inspection : Inspection
no_inspection = record {
  model = [];
  stream = false;
  has_stream_options = false;
  has_include_usage = false;
  object_start = negsuc 0;
  object_end = negsuc 0;
}

-- `fmt.Errorf("…: %w", err)`
unfoldable pub wrap {ℓ} : {A : Type ℓ} → (Error → Error) → Scan A → Scan A
wrap message (ok a) = ok a
wrap message (fail e) = fail (message e)
wrap message panic = panic
wrap message exhausted = exhausted

-- `if body[idx] != b { return …, e }`
unfoldable pub require : ℕ → Error → Bytes → Scan Bytes
require b e [] = panic
require b e (c ∷ s) = if not (c == b) then fail e else ok (c ∷ s)

-- `if idx >= len(body) { return …, e }`
unfoldable pub require_more : Error → Bytes → Scan Bytes
require_more e [] = fail e
require_more e (c ∷ s) = ok (c ∷ s)

-- The end of a round of `inspectObjectForKey`: `again` is the next round.
unfoldable pub key_next : (Bool → Bytes → Scan (Bool × Bytes)) → Bool → Bytes → Scan (Bool × Bytes)
key_next again found [] = fail end_after_object_value
key_next again found (c ∷ s) =
    if c == b','
    then again found s
    else if c == b'}'
    then ok (found, s)
    else fail expected_comma_or_brace

unfoldable pub top_next :
    (Inspection → Bytes → Scan (Inspection × Bytes))
    → Inspection
    → Bytes
    → Scan (Inspection × Bytes)
top_next again info [] = fail end_after_object_value
top_next again info (c ∷ s) =
    if c == b','
    then again info s
    else if c == b'}'
    then ok (info, s)
    else fail expected_comma_or_brace

-- The end of `inspectRequestBody`.
unfoldable pub finish_inspection : Inspection × Bytes → Scan Inspection
finish_inspection (info, rest) =
    if not (is_empty (skip_whitespace rest)) then fail trailing_content else ok info

module _ (unquote : Bytes → Option Bytes) where
  unfoldable pub key_item :
      Bytes
      → (Bytes → Scan Bytes)
      → (Bool → Bytes → Scan (Bool × Bytes))
      → Bool
      → Bytes
      → Scan (Bool × Bytes)
  unfolding key_next skip_colon
  key_item target skip again found [] = fail unexpected_end_of_json_object
  key_item target skip again found (c ∷ s) = if c == b'}' then ok (found, s) else (do
    (key, next) ← scan_string unquote (c ∷ s)
    let found' = same key target || found
    colon ← skip_colon (skip_whitespace next)
    value ← skip (skip_whitespace colon)
    key_next again found' (skip_whitespace value))

  -- The loop of `inspectObjectForKey`.
  unfoldable pub key_loop : Bytes → (Bytes → Scan Bytes) → ℕ → Bool → Bytes → Scan (Bool × Bytes)
  unfolding key_item
  key_loop target skip zero found s = exhausted
  key_loop target skip (suc k) found s =
      key_item target skip (key_loop target skip k) found (skip_whitespace s)

  -- `inspectObjectForKey`
  unfoldable pub inspect_object_for_key : ℕ → Bytes → Bytes → Scan (Bool × Bytes)
  unfolding key_loop
  inspect_object_for_key f target [] = fail expected_object
  inspect_object_for_key f target (c ∷ s) =
      if not (c == b'{')
      then fail expected_object
      else key_loop target (skip_value unquote f) f false s

module _ (unquote : Bytes → Option Bytes) (trim_space : Bytes → Bytes) where
  unfoldable pub set_model : Inspection → Bytes × Bytes → Scan (Inspection × Bytes)
  set_model info (model, next) = ok (record info { model = trim_space model }, next)

  unfoldable pub set_stream : Inspection → Bool × Bytes → Scan (Inspection × Bytes)
  set_stream info (stream, next) = ok (record info { stream = stream }, next)

  -- `n` is `len(body)`, so that `idx` is `n - length s`.
  unfoldable pub set_options : ℕ → Inspection → Bytes → Bool × Bytes → Scan (Inspection × Bytes)
  set_options n info s (found, next) = ok (
    record info {
      has_stream_options = true;
      has_include_usage = found;
      object_start = pos (n - length s);
      object_end = pos (n - length next);
    },
    next,
  )

  -- The `switch key` of `inspectTopLevelObject`, with fuel `f` for each value.
  unfoldable pub member_switch : ℕ → ℕ → Bytes → Inspection → Bytes → Scan (Inspection × Bytes)
  unfolding set_model set_stream set_options wrap require
  member_switch n f key info s =
      if same key (codes "model")
      then wrap model_not_string (scan_string unquote s) >>= set_model info
      else if same key (codes "stream")
      then wrap stream_not_boolean (scan_bool s) >>= set_stream info
      else if same key (codes "messages") || same key (codes "tools")
      then (do
        value ← require b'[' (not_array key) s
        next ← skip_value unquote f value
        ok (info, next))
      else if same key (codes "response_format")
      then (do
        value ← require b'{' response_format_not_object s
        next ← skip_value unquote f value
        ok (info, next))
      else if same key (codes "stream_options")
      then (do
        value ← require b'{' stream_options_not_object s
        inspect_object_for_key unquote f (codes "include_usage") value >>= set_options n info value)
      else (do next ← skip_value unquote f s; ok (info, next))

  unfoldable pub top_item :
      ℕ
      → ℕ
      → (Inspection → Bytes → Scan (Inspection × Bytes))
      → Inspection
      → Bytes
      → Scan (Inspection × Bytes)
  unfolding top_next skip_colon require_more member_switch
  top_item n f again info [] = fail unexpected_end_of_json_object
  top_item n f again info (c ∷ s) = if c == b'}' then ok (info, s) else (do
    (key, next) ← scan_string unquote (c ∷ s)
    colon ← skip_colon (skip_whitespace next)
    value ← require_more end_after_colon (skip_whitespace colon)
    (info', rest) ← member_switch n f key info value
    top_next again info' (skip_whitespace rest))

  -- The loop of `inspectTopLevelObject`.
  unfoldable pub top_loop : ℕ → ℕ → ℕ → Inspection → Bytes → Scan (Inspection × Bytes)
  unfolding top_item
  top_loop n f zero info s = exhausted
  top_loop n f (suc k) info s = top_item n f (top_loop n f k) info (skip_whitespace s)

  -- `inspectTopLevelObject`
  unfoldable pub inspect_top_level_object : ℕ → ℕ → Inspection → Bytes → Scan (Inspection × Bytes)
  unfolding top_loop
  inspect_top_level_object n f info [] = fail expected_object
  inspect_top_level_object n f info (c ∷ s) =
      if not (c == b'{') then fail expected_object else top_loop n f f info s

  -- `inspectRequestBody` behind the white space; `n` is `len(body)`.
  unfoldable pub inspect_object : ℕ → Bytes → Scan Inspection
  unfolding inspect_top_level_object no_inspection finish_inspection
  inspect_object n [] = fail body_not_object
  inspect_object n (c ∷ s) =
      if not (c == b'{')
      then fail body_not_object
      else inspect_top_level_object n (suc n) no_inspection (c ∷ s) >>= finish_inspection

  -- `inspectRequestBody`
  unfoldable pub inspect_request_body : Bytes → Scan Inspection
  unfolding inspect_object
  inspect_request_body body = inspect_object (length body) (skip_whitespace body)
