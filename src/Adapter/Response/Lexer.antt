-- ===== src/Adapter/Response/Lexer.antt =====
-- White space, literals, strings and numbers of internal/adapter/anthropic_response_fast.go.
-- `unquote` stands for `strconv.Unquote` and `atoi` for `strconv.Atoi`, with `none` for an error.
use strait.Base.{
  ℕ, Bool, true, false, not, ◌&&◌, ◌||◌, Option, none, some, [], ◌∷◌, ◌++◌, Bytes, ltb, leb, ◌==◌,
  if◌then◌else◌, length, codes, ℤ, Scanned, ok, fail, panic, ◌>>=◌,
}

-- An error, or `false` for `ok`: the caller falls back to the general translation in both cases.
pub data Declined : Type 0 where
  declined : Declined

abbrev pub Read : Type 0 → Type 0
Read A = Scanned Declined A

-- `isAdapterJSONDigit`
unfoldable pub is_adapter_json_digit : ℕ → Bool
is_adapter_json_digit b = leb b'0' b && leb b b'9'

-- `skipAdapterJSONWhitespace`
unfoldable pub skip_adapter_json_whitespace : Bytes → Bytes
skip_adapter_json_whitespace [] = []
skip_adapter_json_whitespace (c ∷ s) =
    if c == b' ' || c == b'\t' || c == b'\r' || c == b'\n'
    then skip_adapter_json_whitespace s
    else c ∷ s

-- The loop of `skipAdapterJSONLiteral`.
unfoldable pub match_adapter_literal : Bytes → Bytes → Read (Unit × Bytes)
match_adapter_literal [] s = ok (tt, s)
match_adapter_literal (l ∷ ls) [] = panic
match_adapter_literal (l ∷ ls) (c ∷ s) =
    let rest = match_adapter_literal ls s in if not (c == l) then fail declined else rest

-- `skipAdapterJSONLiteral`
unfoldable pub skip_adapter_json_literal : Bytes → Bytes → Read (Unit × Bytes)
unfolding match_adapter_literal
skip_adapter_json_literal literal s =
    if ltb (length s) (length literal) then fail declined else match_adapter_literal literal s

module _ (unquote : Bytes → Option Bytes) where
  unfoldable pub unquoted_value : Bytes → Option Bytes → Read (Bytes × Bytes)
  unquoted_value s none = fail declined
  unquoted_value s (some text) = ok (text, s)

  -- The closing quote: `text` is `data[start+1:idx]`.
  unfoldable pub close_adapter_string : Bytes → Bool → Bytes → Read (Bytes × Bytes)
  unfolding unquoted_value
  close_adapter_string text false s = ok (text, s)
  close_adapter_string text true s = unquoted_value s (unquote (b'"' ∷ (text ++ b'"' ∷ [])))

  -- The loop of `scanAdapterJSONString`. With `jumped` the byte is the second of `idx += 2`.
  unfoldable pub adapter_string_loop : Bytes → Bool → Bool → Bytes → Read (Bytes × Bytes)
  unfolding close_adapter_string
  adapter_string_loop text has_escape jumped [] = fail declined
  adapter_string_loop text has_escape jumped (c ∷ s) =
      let escape = not jumped && c == b'\\' in
      let rest = adapter_string_loop (text ++ c ∷ []) (has_escape || escape) escape s in
      if jumped
      then rest
      else if c == b'"'
      then close_adapter_string text has_escape s
      else if c == b'\\'
      then rest
      else if ltb c 0x20
      then fail declined
      else rest

  -- `scanAdapterJSONString`
  unfoldable pub scan_adapter_json_string : Bytes → Read (Bytes × Bytes)
  unfolding adapter_string_loop
  scan_adapter_json_string [] = fail declined
  scan_adapter_json_string (c ∷ s) =
      if not (c == b'"') then fail declined else adapter_string_loop [] false false s

  unfoldable pub null_text : Read (Unit × Bytes) → Read (Bytes × Bytes)
  null_text m = do (_, next) ← m; ok ([], next)

  -- `scanAdapterJSONStringOrNull`
  unfoldable pub scan_adapter_json_string_or_null : Bytes → Read (Bytes × Bytes)
  unfolding scan_adapter_json_string skip_adapter_json_literal null_text
  scan_adapter_json_string_or_null [] = null_text (skip_adapter_json_literal (codes "null") [])
  scan_adapter_json_string_or_null (c ∷ s) =
      if c == b'"'
      then scan_adapter_json_string (c ∷ s)
      else null_text (skip_adapter_json_literal (codes "null") (c ∷ s))

-- The digits in front, and what is behind them.
unfoldable pub split_adapter_digits : Bytes → Bytes × Bytes
split_adapter_digits [] = ([], [])
split_adapter_digits (c ∷ s) =
    let rest = split_adapter_digits s in
    if is_adapter_json_digit c then (c ∷ rest.0, rest.1) else ([], c ∷ s)

module _ (atoi : Bytes → Option ℤ) where
  unfoldable pub int_value : Option ℤ → Bytes → Read (ℤ × Bytes)
  int_value none s = fail declined
  int_value (some v) s = ok (v, s)

  -- Behind the sign.
  unfoldable pub int_digits : Bytes → Bytes → Read (ℤ × Bytes)
  unfolding int_value split_adapter_digits
  int_digits sign [] = fail declined
  int_digits sign (c ∷ s) =
      let parts = split_adapter_digits (c ∷ s) in
      if not (is_adapter_json_digit c)
      then fail declined
      else int_value (atoi (sign ++ parts.0)) parts.1

  -- `scanAdapterJSONInt`
  unfoldable pub scan_adapter_json_int : Bytes → Read (ℤ × Bytes)
  unfolding int_digits
  scan_adapter_json_int [] = fail declined
  scan_adapter_json_int (c ∷ s) = if c == b'-' then int_digits (c ∷ []) s else int_digits [] (c ∷ s)
