-- ===== src/Examples/Responses.antt =====
-- A response of the provider with two text blocks through the fast translation.
use strait.Base.{
  ℕ, ◌+◌, ◌*◌, ◌-◌, [], ◌∷◌, ◌++◌, Option, none, some, Bytes, codes, contains, has_prefix, ℤ, pos,
  ◌≡◌, refl, ok,
}
use strait.Adapter.Response.Lexer.{is_adapter_json_digit}
use strait.Adapter.Response.Parse.{TextOnlyResponse}
use strait.Adapter.Response.Translate.{translate_anthropic_text_only_to_openai}
use strait.Adapter.Response.Terminates.{Answers, translate_anthropic_text_only_to_openai-Answers}
use strait.Adapter.Response.Completion.{written_completion}
use strait.Adapter.Response.RoundTrip.{Sent, written_response, translate-written_response}

abbrev no_unquote : Bytes → Option Bytes
no_unquote s = none

abbrev decimal : ℕ → Bytes → ℕ
decimal n [] = n
decimal n (c ∷ s) = decimal (n * 10 + (c - b'0')) s

-- `strconv.Atoi` on digits.
abbrev digits_only : Bytes → Option ℤ
digits_only s = some (pos (decimal 0 s))

abbrev within_quotes : Bytes → Bytes
within_quotes s = b'"' ∷ (s ++ b'"' ∷ [])

abbrev two_blocks : Sent
two_blocks = record {
  raw_id = codes "msg_1";
  raw_model = codes "claude";
  raw_stop = codes "end_turn";
  raw_blocks = codes "Hel" ∷ codes "lo" ∷ [];
  input_num = codes "3";
  output_num = codes "12";
}

abbrev hello : TextOnlyResponse
hello = record {
  id = codes "msg_1";
  model = codes "claude";
  text = codes "Hello";
  stop_reason = codes "end_turn";
  input_tokens = pos 3;
  output_tokens = pos 12;
}

translate-written_response_example :
    translate_anthropic_text_only_to_openai within_quotes no_unquote digits_only 7
      (written_response two_blocks [])
    ≡ ok (written_completion within_quotes 7 hello)
unfolding is_adapter_json_digit contains has_prefix
translate-written_response_example =
    translate-written_response no_unquote digits_only within_quotes 7 two_blocks
      (codes "Hel" ∷ codes "lo" ∷ []) hello []
      (
        (refl, refl),
        (refl, refl),
        (refl, refl),
        ((refl, refl), ((refl, refl), tt)),
        refl,
        (refl, refl),
        (refl, refl),
      )
      refl refl

translate_anthropic_text_only_to_openai-Answers_example : Answers (
    translate_anthropic_text_only_to_openai within_quotes no_unquote digits_only 7
      (written_response two_blocks []))
translate_anthropic_text_only_to_openai-Answers_example =
    translate_anthropic_text_only_to_openai-Answers no_unquote digits_only within_quotes 7
      (written_response two_blocks [])
