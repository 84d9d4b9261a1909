-- ===== src/Adapter/Tool/Quoted.antt =====
-- `appendQuotedJSONBytes` and `normalizeJSONRawMessage` of
-- internal/adapter/anthropic_response_tool_fast.go.
use strait.Base.{
  ℕ, ◌+◌, ◌/◌, ◌%◌, ◌||◌, [], ◌∷◌, ◌++◌, Bytes, codes, is_empty, ltb, ◌==◌, if◌then◌else◌,
}

-- `hex[n]`, for n below 16
unfoldable pub hex_of : ℕ → ℕ
hex_of n = if ltb n 10 then b'0' + n else 87 + n

-- The `switch` over a byte.
unfoldable pub quoted_byte : ℕ → Bytes
unfolding hex_of
quoted_byte b =
    if b == b'\\' || b == b'"'
    then b'\\' ∷ b ∷ []
    else if b == 0x08
    then codes "\\b"
    else if b == 0x0c
    then codes "\\f"
    else if b == b'\n'
    then codes "\\n"
    else if b == b'\r'
    then codes "\\r"
    else if b == b'\t'
    then codes "\\t"
    else if ltb b 0x20
    then codes "\\u00" ++ (hex_of (b / 16) ∷ hex_of (b % 16) ∷ [])
    else b ∷ []

-- The loop, and the closing quote.
unfoldable pub quoted_bytes : Bytes → Bytes
unfolding quoted_byte
quoted_bytes [] = b'"' ∷ []
quoted_bytes (b ∷ raw) = quoted_byte b ++ quoted_bytes raw

-- `appendQuotedJSONBytes`
unfoldable pub append_quoted_json_bytes : Bytes → Bytes → Bytes
unfolding quoted_bytes
append_quoted_json_bytes dst raw = dst ++ b'"' ∷ quoted_bytes raw

-- `normalizeJSONRawMessage`
unfoldable pub normalize_json_raw_message : Bytes → Bytes
normalize_json_raw_message raw = if is_empty raw then codes "null" else raw
