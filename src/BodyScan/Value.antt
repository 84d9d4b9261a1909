-- ===== src/BodyScan/Value.antt =====
-- `skipJSONValue`, `skipJSONObject` and `skipJSONArray` of internal/middleware/body_scan.go.
-- Fuel bounds the depth of `skipJSONValue` and the rounds of each loop: a number above the count of
-- unread bytes is enough for both (BodyScan/Progress).
use strait.Base.{ℕ, zero, suc, Option, not, ◌||◌, [], ◌∷◌, Bytes, ◌==◌, if◌then◌else◌, codes}
use strait.BodyScan.Result.{
  Scan, ok, fail, exhausted, ◌>>=◌, expected_object, expected_array, expected_colon,
  end_after_object_value, expected_comma_or_brace, unexpected_end_of_value, invalid_value,
  unexpected_end_of_object, unexpected_end_of_array, end_after_array_value,
  expected_comma_or_bracket,
}
use strait.BodyScan.Lexer.{is_digit, skip_whitespace, skip_literal, skip_number, scan_string}

-- `idx >= len(body) || body[idx] != ':'`
unfoldable pub skip_colon : Bytes → Scan Bytes
skip_colon [] = fail expected_colon
skip_colon (c ∷ s) = if not (c == b':') then fail expected_colon else ok s

-- After an array value: `again` is the next round of the loop.
unfoldable pub array_next : (Bytes → Scan Bytes) → Bytes → Scan Bytes
array_next again [] = fail end_after_array_value
array_next again (c ∷ s) =
    if c == b',' then again s else if c == b']' then ok s else fail expected_comma_or_bracket

unfoldable pub array_item : (Bytes → Scan Bytes) → (Bytes → Scan Bytes) → Bytes → Scan Bytes
array_item skip again [] = fail unexpected_end_of_array
array_item skip again (c ∷ s) =
    if c == b']' then ok s else (do next ← skip (c ∷ s); array_next again (skip_whitespace next))

-- The loop of `skipJSONArray`; `skip` is `skipJSONValue`.
unfoldable pub array_loop : (Bytes → Scan Bytes) → ℕ → Bytes → Scan Bytes
unfolding array_item array_next
array_loop skip zero s = exhausted
array_loop skip (suc k) s = array_item skip (array_loop skip k) (skip_whitespace s)

-- `skipJSONArray`: the guard, and the loop behind the bracket.
unfoldable pub skip_array : (Bytes → Scan Bytes) → Bytes → Scan Bytes
skip_array loop [] = fail expected_array
skip_array loop (c ∷ s) = if not (c == b'[') then fail expected_array else loop s

-- `skipJSONObject`, likewise.
unfoldable pub skip_object : (Bytes → Scan Bytes) → Bytes → Scan Bytes
skip_object loop [] = fail expected_object
skip_object loop (c ∷ s) = if not (c == b'{') then fail expected_object else loop s

unfoldable pub object_next : (Bytes → Scan Bytes) → Bytes → Scan Bytes
object_next again [] = fail end_after_object_value
object_next again (c ∷ s) =
    if c == b',' then again s else if c == b'}' then ok s else fail expected_comma_or_brace

module _ (unquote : Bytes → Option Bytes) where
  unfoldable pub object_item : (Bytes → Scan Bytes) → (Bytes → Scan Bytes) → Bytes → Scan Bytes
  object_item skip again [] = fail unexpected_end_of_object
  object_item skip again (c ∷ s) = if c == b'}' then ok s else (do
    (_, next) ← scan_string unquote (c ∷ s)
    colon ← skip_colon (skip_whitespace next)
    value ← skip (skip_whitespace colon)
    object_next again (skip_whitespace value))

  -- The loop of `skipJSONObject`.
  unfoldable pub object_loop : (Bytes → Scan Bytes) → ℕ → Bytes → Scan Bytes
  unfolding object_item skip_colon object_next
  object_loop skip zero s = exhausted
  object_loop skip (suc k) s = object_item skip (object_loop skip k) (skip_whitespace s)

  -- The `switch` of `skipJSONValue`; `objects` and `arrays` are the loops behind an opening byte.
  unfoldable pub value_switch : (Bytes → Scan Bytes) → (Bytes → Scan Bytes) → Bytes → Scan Bytes
  unfolding skip_object skip_array
  value_switch objects arrays [] = fail unexpected_end_of_value
  value_switch objects arrays (c ∷ s) =
      if c == b'{'
      then skip_object objects (c ∷ s)
      else if c == b'['
      then skip_array arrays (c ∷ s)
      else if c == b'"'
      then (do (_, next) ← scan_string unquote (c ∷ s); ok next)
      else if c == b't'
      then skip_literal (codes "true") (c ∷ s)
      else if c == b'f'
      then skip_literal (codes "false") (c ∷ s)
      else if c == b'n'
      then skip_literal (codes "null") (c ∷ s)
      else if c == b'-' || is_digit c
      then skip_number (c ∷ s)
      else fail invalid_value

  -- `skipJSONValue`
  unfoldable pub skip_value : ℕ → Bytes → Scan Bytes
  unfolding object_loop array_loop value_switch
  skip_value zero s = exhausted
  skip_value (suc f) s =
      value_switch (object_loop (skip_value f) f) (array_loop (skip_value f) f) (skip_whitespace s)
