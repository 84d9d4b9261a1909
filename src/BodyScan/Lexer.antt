-- ===== src/BodyScan/Lexer.antt =====
-- White space, literals, numbers and strings of internal/middleware/body_scan.go.
-- `unquote` stands for `strconv.Unquote`, with `none` for its error.
use strait.Base.{
  ℕ, Bool, true, false, not, ◌&&◌, ◌||◌, Option, none, some, [], ◌∷◌, ◌++◌, Bytes, ltb, leb, ◌==◌,
  if◌then◌else◌, length, is_empty, codes,
}
use strait.BodyScan.Result.{
  Error, Scan, ok, fail, panic, ◌>>=◌, expected_string, bad_escape, control_character,
  unterminated_string, expected_boolean, end_of_literal, expected_literal, invalid_number,
  invalid_fraction, invalid_exponent,
}

-- `isJSONDigit`
unfoldable pub is_digit : ℕ → Bool
is_digit b = leb b'0' b && leb b b'9'

-- The cases of `skipJSONWhitespace`.
unfoldable pub is_space : ℕ → Bool
is_space b = b == b' ' || b == b'\t' || b == b'\r' || b == b'\n'

-- `skipJSONWhitespace`
unfoldable pub skip_whitespace : Bytes → Bytes
skip_whitespace [] = []
skip_whitespace (c ∷ s) = if is_space c then skip_whitespace s else c ∷ s

-- The loop `for idx < len(body) && isJSONDigit(body[idx]) { idx++ }`.
unfoldable pub skip_digits : Bytes → Bytes
skip_digits [] = []
skip_digits (c ∷ s) = if is_digit c then skip_digits s else c ∷ s

-- The loop of `skipJSONLiteral`, over what is left of the literal.
unfoldable pub match_literal : Bytes → Bytes → Bytes → Scan Bytes
match_literal literal [] s = ok s
match_literal literal (l ∷ ls) [] = panic
match_literal literal (l ∷ ls) (c ∷ s) =
    let rest = match_literal literal ls s in
    if not (c == l) then fail (expected_literal literal) else rest

-- `skipJSONLiteral`
unfoldable pub skip_literal : Bytes → Bytes → Scan Bytes
unfolding match_literal
skip_literal literal s =
    if ltb (length s) (length literal) then fail end_of_literal else match_literal literal literal s

-- `scanJSONBool`
unfoldable pub scan_bool : Bytes → Scan (Bool × Bytes)
unfolding skip_literal
scan_bool s = elim (skip_literal (codes "true") s) [
  | ok next ↦ ok (true, next)
  | panic ↦ panic
  | _ ↦ elim (skip_literal (codes "false") s) [
    | ok next ↦ ok (false, next)
    | panic ↦ panic
    | _ ↦ fail expected_boolean
  ]
]

-- A sign, then the check that something follows it.
unfoldable pub skip_minus : Bytes → Scan Bytes
skip_minus [] = panic
skip_minus (c ∷ s) =
    if c == b'-' then (if is_empty s then fail invalid_number else ok s) else ok (c ∷ s)

unfoldable pub skip_integer : Bytes → Scan Bytes
skip_integer [] = panic
skip_integer (c ∷ s) =
    if c == b'0'
    then ok s
    else if not (is_digit c)
    then fail invalid_number
    else ok (skip_digits (c ∷ s))

-- The number up to its fraction.
unfoldable pub skip_whole : Bytes → Scan Bytes
unfolding skip_minus skip_integer
skip_whole s = do unsigned ← skip_minus s; skip_integer unsigned

-- At least one digit, or the error.
unfoldable pub need_digits : Error → Bytes → Scan Bytes
need_digits e [] = fail e
need_digits e (c ∷ s) = if not (is_digit c) then fail e else ok (skip_digits (c ∷ s))

unfoldable pub skip_fraction : Bytes → Scan Bytes
unfolding need_digits
skip_fraction [] = ok []
skip_fraction (c ∷ s) = if c == b'.' then need_digits invalid_fraction s else ok (c ∷ s)

unfoldable pub skip_sign : Bytes → Bytes
skip_sign [] = []
skip_sign (c ∷ s) = if c == b'+' || c == b'-' then s else c ∷ s

unfoldable pub skip_exponent : Bytes → Scan Bytes
unfolding need_digits skip_sign
skip_exponent [] = ok []
skip_exponent (c ∷ s) =
    if c == b'e' || c == b'E' then need_digits invalid_exponent (skip_sign s) else ok (c ∷ s)

-- `skipJSONNumber`; the last test is `idx == start`
unfoldable pub skip_number : Bytes → Scan Bytes
unfolding skip_whole skip_fraction skip_exponent
skip_number s = do
  whole ← skip_whole s
  fraction ← skip_fraction whole
  next ← skip_exponent fraction
  if length next == length s then fail invalid_number else ok next

module _ (unquote : Bytes → Option Bytes) where
  unquoted : Bytes → Option Bytes → Scan (Bytes × Bytes)
  unquoted s none = fail bad_escape
  unquoted s (some text) = ok (text, s)

  -- The closing quote: `text` is `body[start+1:idx]`.
  close_string : Bytes → Bool → Bytes → Scan (Bytes × Bytes)
  unfolding unquoted
  close_string text false s = ok (text, s)
  close_string text true s = unquoted s (unquote (b'"' ∷ (text ++ b'"' ∷ [])))

  -- The loop of `scanJSONString`. With `jumped` the byte is the second of `idx += 2`.
  unfoldable pub string_loop : Bytes → Bool → Bool → Bytes → Scan (Bytes × Bytes)
  unfolding close_string
  string_loop text has_escape jumped [] = fail unterminated_string
  string_loop text has_escape jumped (c ∷ s) =
      let escape = not jumped && c == b'\\' in
      let rest = string_loop (text ++ c ∷ []) (has_escape || escape) escape s in
      if jumped
      then rest
      else if c == b'"'
      then close_string text has_escape s
      else if c == b'\\'
      then rest
      else if ltb c 0x20
      then fail control_character
      else rest

  -- `scanJSONString`
  unfoldable pub scan_string : Bytes → Scan (Bytes × Bytes)
  unfolding string_loop
  scan_string [] = fail expected_string
  scan_string (c ∷ s) =
      if not (c == b'"') then fail expected_string else string_loop [] false false s
