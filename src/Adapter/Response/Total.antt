-- ===== src/Adapter/Response/Total.antt =====
-- The scanning functions of internal/adapter/anthropic_response_fast.go read within the data and end.
use strait.Base.{
  ℕ, suc, ◌-◌, ◌≤◌, Bool, false, not, ◌&&◌, ◌||◌, Option, [], ◌∷◌, ◌++◌, arith, Bytes, codes,
  length, ◌==◌, ℤ, PairBelow, PairBelow-mono,
}
use strait.Adapter.Response.Lexer.{
  skip_adapter_json_whitespace, match_adapter_literal, skip_adapter_json_literal,
  adapter_string_loop, scan_adapter_json_string, null_text, scan_adapter_json_string_or_null,
  split_adapter_digits, int_digits, scan_adapter_json_int,
}

pub length-skip_adapter_json_whitespace :
    (s : Bytes) → length (skip_adapter_json_whitespace s) ≤ length s
unfolding skip_adapter_json_whitespace
length-skip_adapter_json_whitespace [] = omega arith
length-skip_adapter_json_whitespace (c ∷ s) = ground (arith, length-skip_adapter_json_whitespace s)

match_literal-PairBelow :
    (ls s : Bytes)
    → length ls ≤ length s
    → PairBelow (suc (length s) - length ls) (match_adapter_literal ls s)
unfolding match_adapter_literal
match_literal-PairBelow [] s h = omega arith
match_literal-PairBelow (l ∷ ls) [] h = omega arith
match_literal-PairBelow (l ∷ ls) (c ∷ s) h = ground (arith, match_literal-PairBelow ls s)

pub skip_literal-PairBelow :
    (l : ℕ) (ls s : Bytes) → PairBelow (length s) (skip_adapter_json_literal (l ∷ ls) s)
unfolding skip_adapter_json_literal
skip_literal-PairBelow l ls s = ground (
  arith,
  match_literal-PairBelow (l ∷ ls) s,
  PairBelow-mono (suc (length s) - length (l ∷ ls)) (length s) (match_adapter_literal (l ∷ ls) s),
)

module _ (unquote : Bytes → Option Bytes) where
  string_loop-PairBelow :
      (text : Bytes) (has_escape jumped : Bool) (s : Bytes)
      → PairBelow (length s) (adapter_string_loop unquote text has_escape jumped s)
  unfolding adapter_string_loop
  string_loop-PairBelow text e j [] = tt
  string_loop-PairBelow text e j (c ∷ s) = ground (
    arith,
    string_loop-PairBelow (text ++ c ∷ []) (e || not j && c == b'\\') (not j && c == b'\\') s,
  )

  pub scan_string-PairBelow :
      (s : Bytes) → PairBelow (length s) (scan_adapter_json_string unquote s)
  unfolding scan_adapter_json_string
  scan_string-PairBelow [] = tt
  scan_string-PairBelow (c ∷ s) = ground (arith, string_loop-PairBelow [] false false s)

  pub scan_string_or_null-PairBelow :
      (s : Bytes) → PairBelow (length s) (scan_adapter_json_string_or_null unquote s)
  unfolding scan_adapter_json_string_or_null null_text
  scan_string_or_null-PairBelow [] = ground (arith, skip_literal-PairBelow b'n' (codes "ull") [])
  scan_string_or_null-PairBelow (c ∷ s) =
      ground
        (arith, scan_string-PairBelow (c ∷ s), skip_literal-PairBelow b'n' (codes "ull") (c ∷ s))

length-split_digits : (s : Bytes) → length (split_adapter_digits s).1 ≤ length s
unfolding split_adapter_digits
length-split_digits [] = omega arith
length-split_digits (c ∷ s) = ground (arith, length-split_digits s)

module _ (atoi : Bytes → Option ℤ) where
  int_digits-PairBelow : (sign s : Bytes) → PairBelow (length s) (int_digits atoi sign s)
  unfolding int_digits split_adapter_digits
  int_digits-PairBelow sign [] = tt
  int_digits-PairBelow sign (c ∷ s) = ground (arith, length-split_digits s)

  pub scan_int-PairBelow : (s : Bytes) → PairBelow (length s) (scan_adapter_json_int atoi s)
  unfolding scan_adapter_json_int
  scan_int-PairBelow [] = tt
  scan_int-PairBelow (c ∷ s) = ground (
    arith,
    int_digits-PairBelow (c ∷ []) s,
    int_digits-PairBelow [] (c ∷ s),
    PairBelow-mono (length s) (length (c ∷ s)) (int_digits atoi (c ∷ []) s),
  )
