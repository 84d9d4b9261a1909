-- ===== src/Meta/Request.antt =====
-- `buildRequestMeta` of internal/middleware/requestmeta.go. The random bytes are arguments, and so
-- is the result when `rand.Read` fails, which are other bytes. `trim_space` stands for
-- `strings.TrimSpace` and `to_lower` for `strings.ToLower`. A text is read by bytes where the
-- source reads runes: a byte beyond ASCII is refused as each rune beyond ASCII is.
use strait.Base.{
  ℕ, ◌+◌, ◌/◌, ◌%◌, Bool, true, false, not, ◌&&◌, ◌||◌, List, [], ◌∷◌, ◌++◌, Bytes, codes, length,
  is_empty, leb, ltb, ◌==◌, if◌then◌else◌,
}

-- `RequestMetaContext`
pub record RequestMetaContext : Type 0 where
  pub request_id : Bytes
  pub trace_id : Bytes
  pub trace_parent : Bytes
  pub trace_state : Bytes

abbrev pub between : ℕ → ℕ → ℕ → Bool
between low high ch = leb low ch && leb ch high

unfoldable pub is_id_char : ℕ → Bool
is_id_char ch =
    between b'a' b'z' ch
    || between b'A' b'Z' ch
    || between b'0' b'9' ch
    || ch == b'-'
    || ch == b'_'
    || ch == b'.'
    || ch == b':'
    || ch == b'/'

unfoldable pub is_hex_char : ℕ → Bool
is_hex_char ch = between b'0' b'9' ch || between b'a' b'f' ch

-- A loop over a text that returns at the first character without the property.
abbrev pub every : (ℕ → Bool) → Bytes → Bool
every f [] = true
every f (c ∷ s) = f c && every f s

-- `sanitizeRequestID`
unfoldable pub sanitize_request_id : (Bytes → Bytes) → Bytes → Bytes
unfolding is_id_char
sanitize_request_id trim_space raw =
    let id = trim_space raw in
    if is_empty id || ltb 128 (length id) then [] else if every is_id_char id then id else []

unfoldable pub prepend : ℕ → List Bytes → List Bytes
prepend c [] = (c ∷ []) ∷ []
prepend c (part ∷ parts) = (c ∷ part) ∷ parts

-- `strings.Split(tp, "-")`
unfoldable pub split : Bytes → List Bytes
unfolding prepend
split [] = [] ∷ []
split (c ∷ s) = let rest = split s in if c == b'-' then [] ∷ rest else prepend c rest

-- `isLowerHex`
unfoldable pub is_lower_hex : Bytes → ℕ → Bool
unfolding is_hex_char
is_lower_hex s expected_len = length s == expected_len && every is_hex_char s

-- `isAllZeros`
unfoldable pub is_all_zeros : Bytes → Bool
is_all_zeros s = every (λ ch. ch == b'0') s

unfoldable pub valid_parts : List Bytes → Bool
unfolding is_lower_hex is_all_zeros
valid_parts (version ∷ trace_id ∷ parent_id ∷ trace_flags ∷ []) =
    is_lower_hex version 2
    && is_lower_hex trace_id 32
    && is_lower_hex parent_id 16
    && is_lower_hex trace_flags 2
    && not (is_all_zeros trace_id || is_all_zeros parent_id)
valid_parts _ = false

-- `isValidTraceParent`
unfoldable pub is_valid_trace_parent : Bytes → Bool
unfolding split valid_parts
is_valid_trace_parent tp = valid_parts (split tp)

unfoldable pub second_of_four : List Bytes → Bytes
second_of_four (version ∷ trace_id ∷ parent_id ∷ trace_flags ∷ []) = trace_id
second_of_four _ = []

-- `traceIDFromTraceParent`
unfoldable pub trace_id_from_trace_parent : Bytes → Bytes
unfolding split second_of_four
trace_id_from_trace_parent tp = second_of_four (split tp)

unfoldable pub hex_digit : ℕ → ℕ
hex_digit n = if ltb n 10 then b'0' + n else 87 + n

-- `hex.EncodeToString`
unfoldable pub hex_encode : Bytes → Bytes
unfolding hex_digit
hex_encode [] = []
hex_encode (b ∷ s) = hex_digit (b / 16) ∷ hex_digit (b % 16) ∷ hex_encode s

-- `generateTraceParent`, from 16 and 8 random bytes
unfoldable pub generate_trace_parent : Bytes → Bytes → Bytes
unfolding hex_encode
generate_trace_parent trace parent =
    b'0' ∷ b'0' ∷ b'-' ∷ (hex_encode trace ++ b'-' ∷ (hex_encode parent ++ b'-' ∷ b'0' ∷ b'1' ∷ []))

-- The headers of a request, and the random bytes.
pub record MetaInput : Type 0 where
  pub x_request_id : Bytes
  pub traceparent : Bytes
  pub tracestate : Bytes
  pub id_bytes : Bytes
  pub trace_bytes : Bytes
  pub parent_bytes : Bytes

module _ (trim_space : Bytes → Bytes) (to_lower : Bytes → Bytes) where
  unfoldable pub chosen_id : MetaInput → Bytes
  unfolding sanitize_request_id hex_encode
  chosen_id i =
      let id = sanitize_request_id trim_space i.x_request_id in
      if is_empty id then codes "req_" ++ hex_encode i.id_bytes else id

  unfoldable pub chosen_parent : MetaInput → Bytes
  unfolding is_valid_trace_parent generate_trace_parent
  chosen_parent i =
      let sent = to_lower (trim_space i.traceparent) in
      if not (is_valid_trace_parent sent)
      then generate_trace_parent i.trace_bytes i.parent_bytes
      else sent

  -- `buildRequestMeta`
  unfoldable pub build_request_meta : MetaInput → RequestMetaContext
  unfolding chosen_id chosen_parent trace_id_from_trace_parent
  build_request_meta i = record {
    request_id = chosen_id i;
    trace_id = trace_id_from_trace_parent (chosen_parent i);
    trace_parent = chosen_parent i;
    trace_state = trim_space i.tracestate;
  }
