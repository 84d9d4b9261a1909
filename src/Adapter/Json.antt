-- ===== src/Adapter/Json.antt =====
-- The texts that the adapters append: fields of JSON objects (internal/adapter/stream_translator.go
-- and anthropic_request_fast.go). `quote` stands for `strconv.AppendQuote`. Each function gives the
-- text that is appended.
use strait.Base.{
  ℕ, zero, suc, ◌+◌, ◌/◌, ◌%◌, Bool, List, [], ◌∷◌, ◌++◌, Bytes, codes, ltb, if◌then◌else◌, ℤ, pos,
  negsuc,
}

-- Decimal digits, with fuel for each of them.
unfoldable pub digits : ℕ → ℕ → Bytes
digits zero n = []
digits (suc f) n =
    let rest = digits f (n / 10) in
    if ltb n 10 then (b'0' + n) ∷ [] else rest ++ (b'0' + n % 10) ∷ []

-- `strconv.AppendInt` in base 10
unfoldable pub append_int : ℤ → Bytes
unfolding digits
append_int (pos n) = digits (suc n) n
append_int (negsuc n) = b'-' ∷ digits (suc (suc n)) (suc n)

-- Texts that are appended one behind the other.
abbrev pub joined : List Bytes → Bytes
joined [] = []
joined (s ∷ ss) = s ++ joined ss

abbrev pub quoted_key : Bytes → Bytes
quoted_key key = b'"' ∷ (key ++ codes "\":")

-- `appendJSONConstStringField`
unfoldable pub append_json_const_string_field : Bytes → Bytes → Bytes
append_json_const_string_field key value = quoted_key key ++ (b'"' ∷ (value ++ b'"' ∷ []))

-- `appendJSONIntField`
unfoldable pub append_json_int_field : Bytes → ℤ → Bytes
append_json_int_field key value = quoted_key key ++ append_int value

-- `appendJSONBoolField`
unfoldable pub append_json_bool_field : Bytes → Bool → Bytes
append_json_bool_field key value = quoted_key key ++ (if value then codes "true" else codes "false")

module _ (quote : Bytes → Bytes) where
  -- `appendJSONStringField`
  unfoldable pub append_json_string_field : Bytes → Bytes → Bytes
  append_json_string_field key value = quoted_key key ++ quote value

  -- Values with commas between them.
  unfoldable pub quoted_items : List Bytes → Bytes
  quoted_items [] = []
  quoted_items (v ∷ []) = quote v
  quoted_items (v ∷ w ∷ vs) = quote v ++ b',' ∷ quoted_items (w ∷ vs)

  -- `appendJSONStringArrayField`
  unfoldable pub append_json_string_array_field : Bytes → List Bytes → Bytes
  unfolding quoted_items
  append_json_string_array_field key values =
      quoted_key key ++ (b'[' ∷ (quoted_items values ++ b']' ∷ []))
