-- ===== src/Adapter/Tool/Translate.antt =====
-- `translateAnthropicToolUseToOpenAI` of internal/adapter/anthropic_response_tool_fast.go. `unmarshal`
-- stands for `json.Unmarshal` into the response struct, with `none` for an error.
use strait.Base.{
  ℕ, zero, suc, ◌+◌, Bool, true, false, not, Option, none, some, List, [], ◌∷◌, ◌++◌, Bytes, codes,
  same, contains, length, ltb, if◌then◌else◌, ℤ, pos,
}
use strait.Adapter.Json.{
  joined, append_int, append_json_string_field, append_json_const_string_field,
  append_json_int_field,
}
use strait.Adapter.Stream.Chunks.{stop_reason_to_finish_reason}
use strait.Adapter.Response.Translate.{int_sum}
use strait.Adapter.Tool.Quoted.{append_quoted_json_bytes, normalize_json_raw_message}

-- `anthropicToolUseContentRef`; `input` is the raw JSON text, empty when the field is missing.
pub record ToolUseContentRef : Type 0 where
  pub block_type : Bytes
  pub text : Bytes
  pub block_id : Bytes
  pub name : Bytes
  pub input : Bytes

-- `anthropicToolUseResponse`
pub record ToolUseResponse : Type 0 where
  pub id : Bytes
  pub model : Bytes
  pub stop_reason : Bytes
  pub input_tokens : ℤ
  pub output_tokens : ℤ
  pub has_error : Bool
  pub content : List ToolUseContentRef

-- The first loop: `textLen` and `toolCount`, or `none` for a block of another type.
unfoldable pub count_blocks : ℕ → ℕ → List ToolUseContentRef → Option (ℕ × ℕ)
count_blocks text_len tool_count [] = some (text_len, tool_count)
count_blocks text_len tool_count (b ∷ bs) = elim (same b.block_type (codes "text")) [
  | true ↦ count_blocks (text_len + length b.text) tool_count bs
  | false ↦ elim (same b.block_type (codes "tool_use")) [
    | true ↦ count_blocks text_len (suc tool_count) bs
    | false ↦ none
  ]
]

-- The second loop.
unfoldable pub write_texts : List ToolUseContentRef → Bytes
write_texts [] = []
write_texts (b ∷ bs) =
    let rest = write_texts bs in if same b.block_type (codes "text") then b.text ++ rest else rest

module _ (quote : Bytes → Bytes) where
  unfoldable pub tool_call_text : ToolUseContentRef → Bytes
  tool_call_text b = joined (
      codes "{\"id\":"
      ∷ quote b.block_id
      ∷ codes ",\"type\":\"function\",\"function\":{\"name\":"
      ∷ quote b.name
      ∷ codes ",\"arguments\":"
      ∷ append_quoted_json_bytes [] (normalize_json_raw_message b.input)
      ∷ codes "}}"
      ∷ [])

  -- The third loop, from the index `tool_index`.
  unfoldable pub write_tool_calls : ℕ → List ToolUseContentRef → Bytes
  unfolding tool_call_text
  write_tool_calls tool_index [] = []
  write_tool_calls tool_index (b ∷ bs) = elim (same b.block_type (codes "tool_use")) [
    | true ↦
        (if ltb 0 tool_index then codes "," else [])
        ++ (tool_call_text b ++ write_tool_calls (suc tool_index) bs)
    | false ↦ write_tool_calls tool_index bs
  ]

  -- The text of `out`, around the content and the tool calls.
  unfoldable pub tool_use_completion : ℕ → ToolUseResponse → Bytes → Bytes → Bytes
  tool_use_completion created r text calls = joined (
      codes "{"
      ∷ append_json_string_field quote (codes "id") r.id
      ∷ codes ","
      ∷ append_json_const_string_field (codes "object") (codes "chat.completion")
      ∷ codes ","
      ∷ append_json_int_field (codes "created") (pos created)
      ∷ codes ","
      ∷ append_json_string_field quote (codes "model") r.model
      ∷ codes ",\"choices\":[{\"index\":0,\"message\":{\"role\":\"assistant\",\"content\":"
      ∷ quote text
      ∷ codes ",\"tool_calls\":["
      ∷ calls
      ∷ codes "]},\"finish_reason\":"
      ∷ quote (stop_reason_to_finish_reason r.stop_reason)
      ∷ codes "}],\"usage\":{\"prompt_tokens\":"
      ∷ append_int r.input_tokens
      ∷ codes ",\"completion_tokens\":"
      ∷ append_int r.output_tokens
      ∷ codes ",\"total_tokens\":"
      ∷ append_int (int_sum r.input_tokens r.output_tokens)
      ∷ codes "}}"
      ∷ [])

  -- After the count of the blocks.
  unfoldable pub with_counts : ℕ → ToolUseResponse → Option (ℕ × ℕ) → Option Bytes
  unfolding tool_use_completion write_texts write_tool_calls
  with_counts created r none = none
  with_counts created r (some (text_len, zero)) = none
  with_counts created r (some (text_len, suc n)) = some (
      tool_use_completion created r (if ltb 0 text_len then write_texts r.content else [])
        (write_tool_calls 0 r.content))

  unfoldable pub with_response : ℕ → Option ToolUseResponse → Option Bytes
  unfolding with_counts count_blocks
  with_response created none = none
  with_response created (some r) =
      if r.has_error then none else with_counts created r (count_blocks 0 0 r.content)

  -- `translateAnthropicToolUseToOpenAI`, at the time `created`; `none` for `false`
  unfoldable pub translate_anthropic_tool_use_to_openai :
      (Bytes → Option ToolUseResponse) → ℕ → Bytes → Option Bytes
  unfolding with_response
  translate_anthropic_tool_use_to_openai unmarshal created s =
      if not (contains s (codes "\"tool_use\"")) then none else with_response created (unmarshal s)
