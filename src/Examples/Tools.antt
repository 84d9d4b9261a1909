-- ===== src/Examples/Tools.antt =====
-- A response that uses a tool through the fast translation, and a quoted text.
use strait.Base.{
  subst, [], ◌∷◌, ◌++◌, true, false, Option, none, some, Bytes, codes, ℤ, pos, ◌≡◌, refl, contains,
  has_prefix,
}
use strait.Adapter.Tool.Quoted.{append_quoted_json_bytes}
use strait.Adapter.Tool.Decoded.{json_string_text, json_string_text-append_quoted_json_bytes}
use strait.Adapter.Tool.Translate.{ToolUseResponse, translate_anthropic_tool_use_to_openai}
use strait.Adapter.Tool.General.{
  ChatCompletionResponse, provider_failed, translate_anthropic_to_openai,
}
use strait.Adapter.Tool.Errors.{translate_anthropic_to_openai-error}
use strait.Adapter.Tool.Agreement.{expected_answer, translate_anthropic_tool_use_to_openai-expected}

abbrev in_marks : Bytes → Bytes
in_marks s = b'"' ∷ (s ++ b'"' ∷ [])

abbrev tool_answer : ToolUseResponse
tool_answer = record {
  id = codes "msg_1";
  model = codes "claude";
  stop_reason = codes "tool_use";
  input_tokens = pos 3;
  output_tokens = pos 12;
  has_error = false;
  content =
      record {
        block_type = codes "text";
        text = codes "Looking it up.";
        block_id = [];
        name = [];
        input = [];
      }
      ∷ record {
        block_type = codes "tool_use";
        text = [];
        block_id = codes "t1";
        name = codes "weather";
        input = codes "{\"city\":\"Rome\"}";
      }
      ∷ [];
}

-- The data of the response; only the marker of a tool is looked at.
abbrev tool_data : Bytes
tool_data = codes "{\"type\":\"tool_use\"}"

abbrev always : Bytes → Option ToolUseResponse
always s = some tool_answer

translate_anthropic_tool_use_to_openai-expected_example :
    translate_anthropic_tool_use_to_openai in_marks always 7 tool_data
    ≡ expected_answer in_marks 7 tool_data (some tool_answer)
translate_anthropic_tool_use_to_openai-expected_example =
    translate_anthropic_tool_use_to_openai-expected in_marks always 7 tool_data

json_string_text-append_quoted_json_bytes_example :
    json_string_text (append_quoted_json_bytes [] (codes "{\"a\":\"b\\n\"}"))
    ≡ some (codes "{\"a\":\"b\\n\"}")
json_string_text-append_quoted_json_bytes_example =
    json_string_text-append_quoted_json_bytes (codes "{\"a\":\"b\\n\"}")

abbrev error_answer : ToolUseResponse
error_answer = record tool_answer { has_error = true }

abbrev with_error : Bytes → Option ToolUseResponse
with_error s = some error_answer

abbrev error_data : Bytes
error_data = codes "{\"type\":\"error\",\"error\":{}}"

abbrev no_text_of : Bytes → Option Bytes
no_text_of s = none

abbrev no_number : Bytes → Option ℤ
no_number s = none

abbrev same_input : Bytes → Bytes
same_input s = s

abbrev content_only : ChatCompletionResponse → Bytes
content_only c = c.content

abbrev HasFailed : Option ToolUseResponse → Type 0
HasFailed none = Unit
HasFailed (some r) = r.has_error ≡ true

translate_anthropic_to_openai-error_example :
    translate_anthropic_to_openai same_input content_only in_marks no_text_of no_number with_error
      with_error 7 error_data
    ≡ provider_failed
unfolding contains has_prefix
translate_anthropic_to_openai-error_example =
    translate_anthropic_to_openai-error in_marks no_text_of no_number same_input content_only
      with_error with_error 7 error_data error_answer refl (λ r e. subst HasFailed e refl) refl refl
