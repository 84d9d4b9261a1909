-- ===== src/Adapter/Request/Types.antt =====
-- Requests of the two formats: internal/model/gateway.go and internal/adapter/anthropic_provider.go. A
-- `float32` is the integer multiple of 2^-149 that it is.
use strait.Base.{Bool, Option, List, Bytes, ℤ}
use strait.Adapter.Tool.General.{ToolCall}

-- `ContentPart`, with the URL of its `ImageURL`
pub record ContentPart : Type 0 where
  pub part_type : Bytes
  pub text : Bytes
  pub image_url : Option Bytes

-- `RichMessage`; `content` is raw JSON
pub record RichMessage : Type 0 where
  pub role : Bytes
  pub content : Bytes
  pub tool_calls : List ToolCall
  pub tool_call_id : Bytes
  pub name : Bytes

-- `JSONSchemaFormat`, without the flag that is not read
pub record JsonSchemaFormat : Type 0 where
  pub name : Bytes
  pub description : Bytes
  pub schema : Bytes

-- `ResponseFormat`
pub record ResponseFormat : Type 0 where
  pub format_type : Bytes
  pub json_schema : Option JsonSchemaFormat

-- `ToolFunction`, as the one field of `Tool` that is read; `parameters` is JSON
pub record ToolFunction : Type 0 where
  pub name : Bytes
  pub description : Bytes
  pub parameters : Bytes

-- `ChatCompletionRequest`, without the penalties, which are not read
pub record ChatCompletionRequest : Type 0 where
  pub model : Bytes
  pub messages : List RichMessage
  pub temperature : ℤ
  pub stream : Bool
  pub max_tokens : ℤ
  pub top_p : ℤ
  pub stop : List Bytes
  pub tools : List ToolFunction
  pub response_format : Option ResponseFormat

-- The input of a tool: raw JSON, or a text.
pub data ToolInput : Type 0 where
  raw_input : Bytes → ToolInput
  text_input : Bytes → ToolInput

-- `AnthropicContentBlock`, by its type
pub data AnthropicContentBlock : Type 0 where
  text_block : Bytes → AnthropicContentBlock
  image_block : Bytes → AnthropicContentBlock
  tool_use_block : Bytes → Bytes → ToolInput → AnthropicContentBlock
  tool_result_block : Bytes → Bytes → AnthropicContentBlock

-- `Content` of an `AnthropicMessage`
pub data MessageContent : Type 0 where
  text_content : Bytes → MessageContent
  block_content : List AnthropicContentBlock → MessageContent

-- `AnthropicMessage`
pub record AnthropicMessage : Type 0 where
  pub role : Bytes
  pub content : MessageContent

-- `AnthropicRequest`; a tool is `AnthropicTool`, with the fields of `ToolFunction`
pub record AnthropicRequest : Type 0 where
  pub model : Bytes
  pub messages : List AnthropicMessage
  pub max_tokens : ℤ
  pub temperature : ℤ
  pub stream : Bool
  pub system : Bytes
  pub top_p : ℤ
  pub stop_sequences : List Bytes
  pub tools : List ToolFunction
