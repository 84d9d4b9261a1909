-- ===== src/Adapter/Tool/General.antt =====
-- The general path of `TranslateAnthropicToOpenAI`, internal/adapter/anthropic_provider.go, and the
-- order of its three paths. `marshal_input` stands for `json.Marshal` of the decoded input of a tool
-- block, and `marshal` for `json.Marshal` of the completion.
use strait.Base.{
  ℕ, Option, none, some, List, [], ◌∷◌, ◌++◌, Bytes, codes, same, if◌then◌else◌, ℤ, ok, fail, panic,
  exhausted,
}
use strait.Adapter.Stream.Chunks.{stop_reason_to_finish_reason}
use strait.Adapter.Response.Lexer.{Read}
use strait.Adapter.Response.Translate.{int_sum, translate_anthropic_text_only_to_openai}
use strait.Adapter.Tool.Translate.{
  ToolUseContentRef, ToolUseResponse, translate_anthropic_tool_use_to_openai,
}

-- `ToolCall` of internal/model/gateway.go, of the type "function"
pub record ToolCall : Type 0 where
  pub call_id : Bytes
  pub call_name : Bytes
  pub arguments : Bytes

-- `ChatCompletionResponse` of internal/model/gateway.go, with its one choice
pub record ChatCompletionResponse : Type 0 where
  pub id : Bytes
  pub created : ℕ
  pub model : Bytes
  pub content : Bytes
  pub tool_calls : List ToolCall
  pub finish_reason : Bytes
  pub prompt_tokens : ℤ
  pub completion_tokens : ℤ
  pub total_tokens : ℤ

-- The results of `TranslateAnthropicToOpenAI`: a body, the errors of decoding and of a response with
-- an error, an index out of range, and the end of the fuel of the first path.
pub data Translation : Type 0 where
  translated : Bytes → Translation
  unmarshal_failed provider_failed : Translation
  crashed out_of_fuel : Translation

-- The next path, unless the first one is taken.
unfoldable pub text_only_or : Read Bytes → Translation → Translation
text_only_or (ok out) other = translated out
text_only_or (fail e) other = other
text_only_or panic other = crashed
text_only_or exhausted other = out_of_fuel

unfoldable pub tool_use_or : Option Bytes → Translation → Translation
tool_use_or none other = other
tool_use_or (some out) other = translated out

module _ (marshal_input : Bytes → Bytes) where
  -- A round of the loop over the blocks.
  unfoldable pub add_content : ToolUseContentRef → Bytes × List ToolCall → Bytes × List ToolCall
  add_content b (text, calls) =
      if same b.block_type (codes "text")
      then (text ++ b.text, calls)
      else if same b.block_type (codes "tool_use")
      then (
        text,
        calls
            ++ record {
              call_id = b.block_id;
              call_name = b.name;
              arguments = marshal_input b.input;
            }
              ∷ [],
      )
      else (text, calls)

  unfoldable pub over_content :
      List ToolUseContentRef → Bytes × List ToolCall → Bytes × List ToolCall
  unfolding add_content
  over_content [] acc = acc
  over_content (b ∷ bs) acc = over_content bs (add_content b acc)

  unfoldable pub general_completion : ℕ → ToolUseResponse → ChatCompletionResponse
  unfolding over_content int_sum
  general_completion created r =
      let acc = over_content r.content ([], []) in
      record {
        id = r.id;
        created = created;
        model = r.model;
        content = acc.0;
        tool_calls = acc.1;
        finish_reason = stop_reason_to_finish_reason r.stop_reason;
        prompt_tokens = r.input_tokens;
        completion_tokens = r.output_tokens;
        total_tokens = int_sum r.input_tokens r.output_tokens;
      }

  module _ (marshal : ChatCompletionResponse → Bytes) where
    unfoldable pub general_translation : ℕ → Option ToolUseResponse → Translation
    unfolding general_completion
    general_translation created none = unmarshal_failed
    general_translation created (some r) =
        if r.has_error then provider_failed else translated (marshal (general_completion created r))

    -- `TranslateAnthropicToOpenAI`; `unmarshal_tool_use` is the decoder of the second path, and
    -- `unmarshal` the one into `AnthropicResponse`.
    unfoldable pub translate_anthropic_to_openai :
        (Bytes → Bytes)
        → (Bytes → Option Bytes)
        → (Bytes → Option ℤ)
        → (Bytes → Option ToolUseResponse)
        → (Bytes → Option ToolUseResponse)
        → ℕ
        → Bytes
        → Translation
    unfolding general_translation text_only_or tool_use_or
    translate_anthropic_to_openai quote unquote atoi unmarshal_tool_use unmarshal created s =
        text_only_or (translate_anthropic_text_only_to_openai quote unquote atoi created s) (
          tool_use_or (translate_anthropic_tool_use_to_openai quote unmarshal_tool_use created s)
            (general_translation created (unmarshal s)))
