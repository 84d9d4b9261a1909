-- ===== src/Adapter/Request/General.antt =====
-- The general path of `TranslateOpenAIToAnthropicBody`, internal/adapter/anthropic_provider.go.
-- `marshal_indent` stands for `json.MarshalIndent`, `quote` for `%q`.
use strait.Base.{
  Bool, not, Option, none, some, List, [], ◌∷◌, ◌++◌, map, Bytes, codes, same, is_empty,
  if◌then◌else◌, ℤ, pos, pos_part, neg_part, ◌+◌, ◌==◌,
}
use strait.Adapter.Tool.General.{ToolCall}
use strait.Adapter.Request.Types.{
  ContentPart, RichMessage, JsonSchemaFormat, ResponseFormat, ChatCompletionRequest,
  AnthropicContentBlock, text_block, tool_use_block, tool_result_block, MessageContent,
  text_content, block_content, AnthropicMessage, AnthropicRequest,
}
use strait.Adapter.Request.Content.{
  OpenAiMessageContent, string_content, parts_content, decode_openai_message_content, text_only,
  anthropic_blocks, tool_call_arguments_as_input,
}

abbrev pub is_zero : ℤ → Bool
is_zero n = pos_part n + neg_part n == 0

-- `if maxTokens == 0 { maxTokens = 4096 }`
unfoldable pub default_max_tokens : ℤ → ℤ
default_max_tokens n = if is_zero n then pos 4096 else n

unfoldable pub decoded_text : Option OpenAiMessageContent → Bytes
unfolding text_only
decoded_text none = []
decoded_text (some content) = text_only content

unfoldable pub user_content : Bytes → Option OpenAiMessageContent → MessageContent
unfolding anthropic_blocks
user_content raw none = text_content raw
user_content raw (some (string_content text)) = text_content text
user_content raw (some (parts_content parts)) =
    block_content (anthropic_blocks (parts_content parts))

abbrev json_object_directive : Bytes
json_object_directive =
    codes
      "\n\nIMPORTANT: You must respond with a valid JSON object only. Do not include any explanation, markdown formatting, or text outside the JSON object."

module _ (marshal_indent : Bytes → Bytes) (quote : Bytes → Bytes) where
  unfoldable pub schema_directive : JsonSchemaFormat → Bytes
  schema_directive f =
      let schema_desc =
        if is_empty f.description then [] else codes " (" ++ (f.description ++ codes ")") in
      if not (is_empty f.schema)
      then codes "\n\nIMPORTANT: Respond ONLY with a valid JSON object"
        ++ (schema_desc
            ++ (codes
                  " that strictly conforms to the following JSON Schema. Do not include any explanation or text outside the JSON object.\n\nSchema:\n```json\n"
                ++ (marshal_indent f.schema ++ codes "\n```")))
      else codes "\n\nIMPORTANT: Respond ONLY with a valid JSON object named "
        ++ (quote f.name
            ++ (schema_desc
                ++ codes ". Do not include any explanation or text outside the JSON object."))

  unfoldable pub with_schema : Option JsonSchemaFormat → Bytes
  unfolding schema_directive
  with_schema none = json_object_directive
  with_schema (some f) = schema_directive f

  -- `adaptResponseFormatForAnthropic`, on the system prompt
  unfoldable pub adapt_response_format_for_anthropic : Option ResponseFormat → Bytes → Bytes
  unfolding with_schema
  adapt_response_format_for_anthropic none system = system
  adapt_response_format_for_anthropic (some rf) system =
      if same rf.format_type (codes "json_object")
      then system ++ json_object_directive
      else if same rf.format_type (codes "json_schema")
      then system ++ with_schema rf.json_schema
      else system

module _ (trim_space : Bytes → Bytes) (unmarshal_text : Bytes → Option Bytes)
    (unmarshal_parts : Bytes → Option (List ContentPart)) (valid : Bytes → Bool) where
  abbrev decode : Bytes → Option OpenAiMessageContent
  decode raw = decode_openai_message_content unmarshal_text unmarshal_parts trim_space raw

  -- `contentAsString`
  unfoldable pub content_as_string : Bytes → Bytes
  unfolding decoded_text decode_openai_message_content
  content_as_string raw = decoded_text (decode raw)

  -- `translateUserMessage`
  unfoldable pub translate_user_message : RichMessage → AnthropicMessage
  unfolding user_content decode_openai_message_content
  translate_user_message m = record {
    role = codes "user";
    content =
        if is_empty m.content then text_content [] else user_content m.content (decode m.content);
  }

  unfoldable pub tool_call_block : ToolCall → AnthropicContentBlock
  unfolding tool_call_arguments_as_input
  tool_call_block c =
      tool_use_block c.call_id c.call_name (tool_call_arguments_as_input valid c.arguments)

  -- `translateAssistantMessage`
  unfoldable pub translate_assistant_message : RichMessage → AnthropicMessage
  unfolding content_as_string tool_call_block
  translate_assistant_message m =
      let text = content_as_string m.content in
      record {
        role = codes "assistant";
        content =
            if is_empty m.tool_calls
            then text_content text
            else block_content (
                (if is_empty text then [] else text_block text ∷ [])
                ++ map tool_call_block m.tool_calls);
      }

  -- `translateToolResultMessage`
  unfoldable pub translate_tool_result_message : RichMessage → AnthropicMessage
  unfolding content_as_string
  translate_tool_result_message m = record {
    role = codes "user";
    content = block_content (tool_result_block m.tool_call_id (content_as_string m.content) ∷ []);
  }

  -- The loop over the messages, on the system prompt and the messages so far.
  unfoldable pub over_messages :
      List RichMessage → Bytes × List AnthropicMessage → Bytes × List AnthropicMessage
  unfolding content_as_string translate_user_message translate_assistant_message
      translate_tool_result_message
  over_messages [] acc = acc
  over_messages (m ∷ ms) (system, messages) = over_messages ms (
      if same m.role (codes "system")
      then (content_as_string m.content, messages)
      else if same m.role (codes "tool")
      then (system, messages ++ translate_tool_result_message m ∷ [])
      else if same m.role (codes "assistant")
      then (system, messages ++ translate_assistant_message m ∷ [])
      else (system, messages ++ translate_user_message m ∷ []))

  -- The request that the general path marshals.
  unfoldable pub general_request :
      (Bytes → Bytes) → (Bytes → Bytes) → ChatCompletionRequest → AnthropicRequest
  unfolding over_messages default_max_tokens adapt_response_format_for_anthropic
  general_request marshal_indent quote r =
      let acc = over_messages r.messages ([], []) in
      record {
        model = r.model;
        messages = acc.1;
        max_tokens = default_max_tokens r.max_tokens;
        temperature = r.temperature;
        stream = r.stream;
        system = adapt_response_format_for_anthropic marshal_indent quote r.response_format acc.0;
        top_p = r.top_p;
        stop_sequences = r.stop;
        tools = r.tools;
      }
