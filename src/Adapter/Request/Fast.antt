-- ===== src/Adapter/Request/Fast.antt =====
-- `translateOpenAIToAnthropicSimple` of internal/adapter/anthropic_request_fast.go, and
-- `TranslateOpenAIToAnthropicBody` of internal/adapter/anthropic_provider.go. `append_float` stands for
-- `strconv.AppendFloat`, `unmarshal` for `json.Unmarshal` of a request, `marshal` for `json.Marshal`.
use strait.Base.{
  Bool, true, false, not, ◌&&◌, ◌||◌, Option, none, some, List, [], ◌∷◌, ◌++◌, Bytes, codes, same,
  is_empty, if◌then◌else◌, ℤ,
}
use strait.Adapter.Json.{
  joined, quoted_key, append_json_string_field, append_json_int_field, append_json_bool_field,
  append_json_string_array_field,
}
use strait.Adapter.Request.Types.{
  ContentPart, RichMessage, ResponseFormat, ChatCompletionRequest, AnthropicRequest,
}
use strait.Adapter.Request.General.{is_zero, default_max_tokens, general_request}

-- `anthropicSimpleMessage`
pub record AnthropicSimpleMessage : Type 0 where
  pub role : Bytes
  pub content : Bytes

-- `req.ResponseFormat != nil && ...`
unfoldable pub is_special_format : Option ResponseFormat → Bool
is_special_format none = false
is_special_format (some rf) =
    not (is_empty rf.format_type) && not (same rf.format_type (codes "text"))

-- A message in the loop, with its content.
unfoldable pub simple_message :
    RichMessage
    → Option Bytes
    → Bytes × List AnthropicSimpleMessage
    → Option (Bytes × List AnthropicSimpleMessage)
simple_message m none acc = none
simple_message m (some content) (system, messages) =
    if same m.role (codes "system")
    then some (content, messages)
    else if same m.role (codes "user") || same m.role (codes "assistant")
    then some (system, messages ++ record { role = m.role; content = content } ∷ [])
    else none

module _ (unmarshal_text : Bytes → Option Bytes) where
  -- `rawMessageAsSimpleString`
  unfoldable pub raw_message_as_simple_string : Bytes → Option Bytes
  raw_message_as_simple_string raw = if is_empty raw then some [] else unmarshal_text raw

  -- A round of the loop.
  unfoldable pub simple_round :
      RichMessage
      → Bytes × List AnthropicSimpleMessage
      → Option (Bytes × List AnthropicSimpleMessage)
  unfolding simple_message raw_message_as_simple_string
  simple_round m acc =
      if not (is_empty m.tool_calls) || not (is_empty m.tool_call_id) || not (is_empty m.name)
      then none
      else simple_message m (raw_message_as_simple_string m.content) acc

  unfoldable pub simple_messages :
      List RichMessage
      → Option (Bytes × List AnthropicSimpleMessage)
      → Option (Bytes × List AnthropicSimpleMessage)
  unfolding simple_round
  simple_messages ms none = none
  simple_messages [] (some acc) = some acc
  simple_messages (m ∷ ms) (some acc) = simple_messages ms (simple_round m acc)

  unfoldable pub some_messages :
      Option (Bytes × List AnthropicSimpleMessage) → Option (Bytes × List AnthropicSimpleMessage)
  some_messages none = none
  some_messages (some (system, messages)) =
      if is_empty messages then none else some (system, messages)

  -- The system prompt and the messages of a simple request.
  unfoldable pub simple_parts : ChatCompletionRequest → Option (Bytes × List AnthropicSimpleMessage)
  unfolding simple_messages some_messages is_special_format
  simple_parts r =
      if not (is_empty r.tools)
      then none
      else if is_special_format r.response_format
      then none
      else some_messages (simple_messages r.messages (some ([], [])))

module _ (quote : Bytes → Bytes) (append_float : ℤ → Bytes) where
  unfoldable pub message_text : AnthropicSimpleMessage → Bytes
  message_text m = joined (
      codes "{"
      ∷ append_json_string_field quote (codes "role") m.role
      ∷ codes ","
      ∷ append_json_string_field quote (codes "content") m.content
      ∷ codes "}"
      ∷ [])

  -- The loop over the messages, with commas between them.
  unfoldable pub message_texts : List AnthropicSimpleMessage → Bytes
  unfolding message_text
  message_texts [] = []
  message_texts (m ∷ []) = message_text m
  message_texts (m ∷ n ∷ ms) = message_text m ++ (codes "," ++ message_texts (n ∷ ms))

  -- `appendJSONFloat32Field`
  unfoldable pub append_json_float32_field : Bytes → ℤ → Bytes
  append_json_float32_field key value = quoted_key key ++ append_float value

  unfoldable pub optional_field : Bool → Bytes → Bytes
  optional_field left_out field = if left_out then [] else codes "," ++ field

  -- The text of `buf`.
  unfoldable pub simple_body : ChatCompletionRequest → Bytes × List AnthropicSimpleMessage → Bytes
  unfolding message_texts append_json_float32_field optional_field default_max_tokens
  simple_body r (system, messages) = joined (
      codes "{"
      ∷ append_json_string_field quote (codes "model") r.model
      ∷ codes ","
      ∷ append_json_int_field (codes "max_tokens") (default_max_tokens r.max_tokens)
      ∷ optional_field (is_zero r.temperature)
          (append_json_float32_field (codes "temperature") r.temperature)
      ∷ optional_field (not r.stream) (append_json_bool_field (codes "stream") true)
      ∷ optional_field (is_zero r.top_p) (append_json_float32_field (codes "top_p") r.top_p)
      ∷ optional_field (is_empty system) (append_json_string_field quote (codes "system") system)
      ∷ optional_field (is_empty r.stop)
          (append_json_string_array_field quote (codes "stop_sequences") r.stop)
      ∷ codes ",\"messages\":["
      ∷ message_texts messages
      ∷ codes "]}"
      ∷ [])

  unfoldable pub with_parts :
      ChatCompletionRequest → Option (Bytes × List AnthropicSimpleMessage) → Option Bytes
  unfolding simple_body
  with_parts r none = none
  with_parts r (some parts) = some (simple_body r parts)

  -- `translateOpenAIToAnthropicSimple`
  unfoldable pub translate_openai_to_anthropic_simple :
      (Bytes → Option Bytes) → ChatCompletionRequest → Option Bytes
  unfolding with_parts simple_parts
  translate_openai_to_anthropic_simple unmarshal_text r =
      with_parts r (simple_parts unmarshal_text r)

unfoldable pub or_marshal : Option Bytes → Bytes → Bytes
or_marshal none body = body
or_marshal (some fast) body = fast

module _ (trim_space : Bytes → Bytes) (unmarshal_text : Bytes → Option Bytes)
    (unmarshal_parts : Bytes → Option (List ContentPart)) (valid : Bytes → Bool)
    (marshal_indent : Bytes → Bytes) (quote : Bytes → Bytes) (append_float : ℤ → Bytes)
    (marshal : AnthropicRequest → Bytes) where
  unfoldable pub translate_decoded : Option ChatCompletionRequest → Option Bytes
  unfolding or_marshal translate_openai_to_anthropic_simple general_request
  translate_decoded none = none
  translate_decoded (some r) = some (
      or_marshal (translate_openai_to_anthropic_simple quote append_float unmarshal_text r) (
        marshal
          (general_request trim_space unmarshal_text unmarshal_parts valid marshal_indent quote r)))

  -- `TranslateOpenAIToAnthropicBody`; `none` for an error
  unfoldable pub translate_openai_to_anthropic_body :
      (Bytes → Option ChatCompletionRequest) → Bytes → Option Bytes
  unfolding translate_decoded
  translate_openai_to_anthropic_body unmarshal body =
      if is_empty body then none else translate_decoded (unmarshal body)
