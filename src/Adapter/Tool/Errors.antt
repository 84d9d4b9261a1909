-- ===== src/Adapter/Tool/Errors.antt =====
-- Errors of `TranslateAnthropicToOpenAI`, internal/adapter/anthropic_provider.go.
use strait.Base.{
  Bool-cases, inl, inr, ℕ, Bool, true, false, ◌||◌, Option, none, some, Bytes, codes, contains,
  if◌then◌else◌, ℤ, ◌≡◌, refl, arith, fail,
}
use strait.Adapter.Response.Lexer.{declined}
use strait.Adapter.Response.Translate.{translate_anthropic_text_only_to_openai}
use strait.Adapter.Tool.Translate.{
  ToolUseResponse, with_response, translate_anthropic_tool_use_to_openai,
}
use strait.Adapter.Tool.General.{
  ChatCompletionResponse, general_translation, text_only_or, tool_use_or, provider_failed,
  translate_anthropic_to_openai,
}

or_true : (b : Bool) → (b || true) ≡ true
or_true true = refl
or_true false = refl

if_none : (b : Bool) (o : Option Bytes) → b ≡ true → (if b then none else o) ≡ none
if_none true o h = refl
if_none false o h = ground arith

module _ (quote : Bytes → Bytes) (unquote : Bytes → Option Bytes) (atoi : Bytes → Option ℤ)
    (marshal_input : Bytes → Bytes) (marshal : ChatCompletionResponse → Bytes)
    (unmarshal_tool_use unmarshal : Bytes → Option ToolUseResponse) where
  text_only_error :
      (created : ℕ) (s : Bytes)
      → contains s (codes "\"error\"") ≡ true
      → translate_anthropic_text_only_to_openai quote unquote atoi created s ≡ fail declined
  unfolding translate_anthropic_text_only_to_openai
  text_only_error created s h = rw (h, or_true (contains s (codes "\"tool_use\""))) refl

  with_response-error :
      (created : ℕ) (o : Option ToolUseResponse)
      → ((r : ToolUseResponse) → o ≡ some r → r.has_error ≡ true)
      → with_response quote created o ≡ none
  unfolding with_response
  with_response-error created none h = refl
  with_response-error created (some r) h = if_none r.has_error _ (h r refl)

  tool_use_error :
      (created : ℕ) (s : Bytes)
      → ((r : ToolUseResponse) → unmarshal_tool_use s ≡ some r → r.has_error ≡ true)
      → translate_anthropic_tool_use_to_openai quote unmarshal_tool_use created s ≡ none
  unfolding translate_anthropic_tool_use_to_openai
  tool_use_error created s h = elim (Bool-cases (contains s (codes "\"tool_use\""))) [
    | inl e ↦ rw e (with_response-error created (unmarshal_tool_use s) h)
    | inr e ↦ rw e refl
  ]

  general_error :
      (created : ℕ) (r : ToolUseResponse)
      → r.has_error ≡ true
      → general_translation marshal_input marshal created (some r) ≡ provider_failed
  unfolding general_translation
  general_error created r k = rw k refl

  -- A response with the marker of an error, which `AnthropicResponse` holds as one with an error,
  -- and which the decoder of the second path refuses or holds as one with an error too, is the
  -- error of the provider: no path translates it.
  pub translate_anthropic_to_openai-error :
      (created : ℕ) (s : Bytes) (r : ToolUseResponse)
      → contains s (codes "\"error\"") ≡ true
      → ((r' : ToolUseResponse) → unmarshal_tool_use s ≡ some r' → r'.has_error ≡ true)
      → unmarshal s ≡ some r
      → r.has_error ≡ true
      → translate_anthropic_to_openai marshal_input marshal quote unquote atoi unmarshal_tool_use
          unmarshal created s
        ≡ provider_failed
  unfolding translate_anthropic_to_openai text_only_or tool_use_or
  translate_anthropic_to_openai-error created s r marked g h k =
      rw
        (text_only_error created s marked, tool_use_error created s g, h, general_error created r k)
        refl
