-- ===== src/Adapter/Request/Content.antt =====
-- The content of a message: internal/adapter/anthropic_request_content.go. `unmarshal_text` and
-- `unmarshal_parts` stand for `json.Unmarshal` into a string and into parts, `valid` for `json.Valid`.
use strait.Base.{
  ℕ, ◌+◌, Bool, Option, none, some, List, [], ◌∷◌, ◌++◌, Bytes, codes, same, is_empty, length, ◌==◌,
  if◌then◌else◌,
}
use strait.Adapter.Request.Types.{
  ContentPart, ToolInput, raw_input, text_input, AnthropicContentBlock, text_block, image_block,
}

-- `openAIMessageContent`, by its kind
pub data OpenAiMessageContent : Type 0 where
  string_content : Bytes → OpenAiMessageContent
  parts_content : List ContentPart → OpenAiMessageContent

unfoldable pub as_string : Option Bytes → Option OpenAiMessageContent
as_string none = none
as_string (some text) = some (string_content text)

unfoldable pub as_parts : Option (List ContentPart) → Option OpenAiMessageContent
as_parts none = none
as_parts (some parts) = some (parts_content parts)

module _ (unmarshal_text : Bytes → Option Bytes)
    (unmarshal_parts : Bytes → Option (List ContentPart)) where
  unfoldable pub decode_trimmed : Bytes → Option OpenAiMessageContent
  unfolding as_string as_parts
  decode_trimmed [] = some (string_content [])
  decode_trimmed (c ∷ s) =
      if c == b'"'
      then as_string (unmarshal_text (c ∷ s))
      else if c == b'['
      then as_parts (unmarshal_parts (c ∷ s))
      else none

  -- `decodeOpenAIMessageContent`
  unfoldable pub decode_openai_message_content :
      (Bytes → Bytes) → Bytes → Option OpenAiMessageContent
  unfolding decode_trimmed
  decode_openai_message_content trim_space raw = decode_trimmed (trim_space raw)

-- The length of the texts: the first loop of `textOnly`.
unfoldable pub text_total : List ContentPart → ℕ
text_total [] = 0
text_total (p ∷ ps) =
    let rest = text_total ps in
    if same p.part_type (codes "text") then length p.text + rest else rest

-- The second loop.
unfoldable pub part_texts : List ContentPart → Bytes
part_texts [] = []
part_texts (p ∷ ps) =
    let rest = part_texts ps in if same p.part_type (codes "text") then p.text ++ rest else rest

-- `textOnly`
unfoldable pub text_only : OpenAiMessageContent → Bytes
unfolding text_total part_texts
text_only (string_content text) = text
text_only (parts_content parts) =
    if is_empty parts then [] else if text_total parts == 0 then [] else part_texts parts

-- A part in `anthropicBlocks`, in front of the blocks of the others.
unfoldable pub add_image : Option Bytes → List AnthropicContentBlock → List AnthropicContentBlock
add_image none blocks = blocks
add_image (some url) blocks = image_block url ∷ blocks

unfoldable pub part_blocks : List ContentPart → List AnthropicContentBlock
unfolding add_image
part_blocks [] = []
part_blocks (p ∷ ps) =
    let rest = part_blocks ps in
    if same p.part_type (codes "text")
    then text_block p.text ∷ rest
    else if same p.part_type (codes "image_url")
    then add_image p.image_url rest
    else rest

-- `anthropicBlocks`
unfoldable pub anthropic_blocks : OpenAiMessageContent → List AnthropicContentBlock
unfolding part_blocks
anthropic_blocks (string_content text) = []
anthropic_blocks (parts_content parts) = part_blocks parts

-- `toolCallArgumentsAsInput`
unfoldable pub tool_call_arguments_as_input : (Bytes → Bool) → Bytes → ToolInput
tool_call_arguments_as_input valid arguments =
    if valid arguments then raw_input arguments else text_input arguments
