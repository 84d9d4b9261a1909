-- ===== src/BodyScan/Progress.antt =====
-- The lexical functions of internal/middleware/body_scan.go read within the body and move forward:
-- no access is out of range.
use strait.Base.{
  Below, PairBelow, Below-mono, Below-bind, ℕ, suc, ◌+◌, ◌-◌, ◌≤◌, ◌<◌, Bool, false, not, ◌&&◌,
  ◌||◌, Option, [], ◌∷◌, ◌++◌, arith, Bytes, length, ◌==◌, if◌then◌else◌,
}
use strait.BodyScan.Result.{
  Error, ok, fail, ◌>>=◌, invalid_number, invalid_fraction, invalid_exponent,
}
use strait.BodyScan.Lexer.{
  skip_whitespace, skip_digits, match_literal, skip_literal, skip_whole, need_digits, skip_fraction,
  skip_sign, skip_exponent, skip_number, string_loop, scan_string,
}

pub length-skip_whitespace : (s : Bytes) → length (skip_whitespace s) ≤ length s
unfolding skip_whitespace
length-skip_whitespace [] = omega arith
length-skip_whitespace (c ∷ s) = ground (arith, length-skip_whitespace s)

pub length-skip_digits : (s : Bytes) → length (skip_digits s) ≤ length s
unfolding skip_digits
length-skip_digits [] = omega arith
length-skip_digits (c ∷ s) = ground (arith, length-skip_digits s)

match_literal-Below :
    (literal ls s : Bytes)
    → length ls ≤ length s
    → Below (length s + 1 - length ls) (match_literal literal ls s)
unfolding match_literal
match_literal-Below literal [] s h = omega arith
match_literal-Below literal (l ∷ ls) [] h = omega arith
match_literal-Below literal (l ∷ ls) (c ∷ s) h = ground (arith, match_literal-Below literal ls s)

pub skip_literal-Below : (l : ℕ) (ls s : Bytes) → Below (length s) (skip_literal (l ∷ ls) s)
unfolding skip_literal
skip_literal-Below l ls s = ground (
  arith,
  match_literal-Below (l ∷ ls) (l ∷ ls) s,
  Below-mono (length s + 1 - length (l ∷ ls)) (length s) (match_literal (l ∷ ls) (l ∷ ls) s),
)

need_digits-Below : (e : Error) (s : Bytes) → Below (length s) (need_digits e s)
unfolding need_digits skip_digits
need_digits-Below e [] = tt
need_digits-Below e (c ∷ s) = ground (arith, length-skip_digits s)

skip_whole-Below : (c : ℕ) (s : Bytes) → Below (length (c ∷ s)) (skip_whole (c ∷ s))
unfolding skip_whole skip_digits
skip_whole-Below c [] = ground arith
skip_whole-Below c (d ∷ s) = ground (arith, length-skip_digits s)

skip_fraction-Below : (s : Bytes) → Below (suc (length s)) (skip_fraction s)
unfolding skip_fraction
skip_fraction-Below [] = omega arith
skip_fraction-Below (c ∷ s) = ground (arith, need_digits-Below invalid_fraction s)

skip_exponent-Below : (s : Bytes) → Below (suc (length s)) (skip_exponent s)
unfolding skip_exponent skip_sign
skip_exponent-Below [] = omega arith
skip_exponent-Below (c ∷ []) = ground arith
skip_exponent-Below (c ∷ d ∷ s) =
    ground (arith, need_digits-Below invalid_exponent s, need_digits-Below invalid_exponent (d ∷ s))

moved-Below :
    (n : ℕ) (next : Bytes)
    → length next < n
    → Below n (if length next == n then fail invalid_number else ok next)
moved-Below n next h = ground arith

skip_tail-Below :
    (n : ℕ) (whole : Bytes)
    → length whole < n
    → Below n (do
      fraction ← skip_fraction whole
      next ← skip_exponent fraction
      if length next == n then fail invalid_number else ok next)
skip_tail-Below n whole h =
    Below-bind n n (skip_fraction whole) _
      (Below-mono (suc (length whole)) n _ h (skip_fraction-Below whole))
      λ fraction h'.
        Below-bind n n (skip_exponent fraction) _
          (Below-mono (suc (length fraction)) n _ h' (skip_exponent-Below fraction)) (moved-Below n)

pub skip_number-Below : (c : ℕ) (s : Bytes) → Below (length (c ∷ s)) (skip_number (c ∷ s))
unfolding skip_number
skip_number-Below c s =
    Below-bind (length (c ∷ s)) _ (skip_whole (c ∷ s)) _ (skip_whole-Below c s)
      (skip_tail-Below (length (c ∷ s)))

module _ (unquote : Bytes → Option Bytes) where
  string_loop-Below :
      (text : Bytes) (has_escape jumped : Bool) (s : Bytes)
      → PairBelow (length s) (string_loop unquote text has_escape jumped s)
  unfolding string_loop
  string_loop-Below text e j [] = tt
  string_loop-Below text e j (c ∷ s) =
      ground (
        arith,
        string_loop-Below (text ++ c ∷ []) (e || not j && c == b'\\') (not j && c == b'\\') s,
      )

  pub scan_string-Below : (s : Bytes) → PairBelow (length s) (scan_string unquote s)
  unfolding scan_string
  scan_string-Below [] = tt
  scan_string-Below (c ∷ s) = ground (arith, string_loop-Below [] false false s)
