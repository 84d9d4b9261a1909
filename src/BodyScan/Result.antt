-- ===== src/BodyScan/Result.antt =====
-- Results of the scanning functions of internal/middleware/body_scan.go.
use strait.Base.{Bytes, Scanned}
pub use strait.Base.{ok, fail, panic, exhausted, ◌>>=◌}

-- The error messages, in the order of the source. `%w` keeps the wrapped error.
pub data Error : Type 0 where
  body_not_object trailing_content : Error
  expected_object unexpected_end_of_json_object expected_colon end_after_colon : Error
  model_not_string stream_not_boolean : Error → Error
  not_array : Bytes → Error
  response_format_not_object stream_options_not_object : Error
  end_after_object_value expected_comma_or_brace : Error
  unexpected_end_of_value invalid_value : Error
  unexpected_end_of_object expected_array unexpected_end_of_array : Error
  end_after_array_value expected_comma_or_bracket : Error
  expected_string bad_escape control_character unterminated_string : Error
  expected_boolean end_of_literal : Error
  expected_literal : Bytes → Error
  invalid_number invalid_fraction invalid_exponent : Error

-- The position that comes with an error is left out, since no caller reads it.
abbrev pub Scan {ℓ} : Type ℓ → Type ℓ
Scan A = Scanned Error A
