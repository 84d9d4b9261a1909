-- ===== src/Adapter/Response/Translate.antt =====
-- `translateAnthropicTextOnlyToOpenAI` of internal/adapter/anthropic_response_fast.go. `quote` stands
-- for `strconv.AppendQuote`.
use strait.Base.{
  ℕ, ◌+◌, ◌-◌, ◌%◌, ◌^◌, ◌||◌, Option, [], ◌∷◌, Bytes, codes, contains, if◌then◌else◌, ℤ, pos,
  pos_part, neg_part, sub_ℕ, ok, fail, ◌>>=◌,
}
use strait.Adapter.Json.{joined, append_int}
use strait.Adapter.Stream.Chunks.{stop_reason_to_finish_reason}
use strait.Adapter.Response.Lexer.{Read, declined}
use strait.Adapter.Response.Parse.{TextOnlyResponse, parse_anthropic_text_only_response}

-- The sum of two values of the type `int`, of 64 bits: it wraps around.
unfoldable pub int_sum : ℤ → ℤ → ℤ
int_sum a b =
    sub_ℕ
      ((pos_part a + pos_part b + 2 ^ 63 + (2 ^ 64 - (neg_part a + neg_part b) % 2 ^ 64)) % 2 ^ 64)
      (2 ^ 63)

module _ (quote : Bytes → Bytes) where
  -- The text of `out`.
  unfoldable pub text_only_completion : ℕ → TextOnlyResponse → Bytes
  unfolding int_sum
  text_only_completion created r = joined (
      codes "{\"id\":"
      ∷ quote r.id
      ∷ codes ",\"object\":\"chat.completion\",\"created\":"
      ∷ append_int (pos created)
      ∷ codes ",\"model\":"
      ∷ quote r.model
      ∷ codes ",\"choices\":[{\"index\":0,\"message\":{\"role\":\"assistant\",\"content\":"
      ∷ quote r.text
      ∷ codes "},\"finish_reason\":"
      ∷ quote (stop_reason_to_finish_reason r.stop_reason)
      ∷ codes "}],\"usage\":{\"prompt_tokens\":"
      ∷ append_int r.input_tokens
      ∷ codes ",\"completion_tokens\":"
      ∷ append_int r.output_tokens
      ∷ codes ",\"total_tokens\":"
      ∷ append_int (int_sum r.input_tokens r.output_tokens)
      ∷ codes "}}"
      ∷ [])

  -- `translateAnthropicTextOnlyToOpenAI`, at the time `created`
  unfoldable pub translate_anthropic_text_only_to_openai :
      (Bytes → Option Bytes) → (Bytes → Option ℤ) → ℕ → Bytes → Read Bytes
  unfolding text_only_completion
  translate_anthropic_text_only_to_openai unquote atoi created s =
      if contains s (codes "\"tool_use\"") || contains s (codes "\"error\"")
      then fail declined
      else (do
        r ← parse_anthropic_text_only_response unquote atoi s
        ok (text_only_completion created r))
