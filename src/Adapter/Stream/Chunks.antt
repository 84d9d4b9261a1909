-- ===== src/Adapter/Stream/Chunks.antt =====
-- The chunks that a translated stream consists of, internal/adapter/stream_translator.go.
-- `quote` stands for `strconv.AppendQuote`.
use strait.Base.{ℕ, Option, none, some, [], ◌∷◌, Bytes, codes, same, if◌then◌else◌, ℤ, pos}
use strait.Adapter.Json.{
  joined, append_int, append_json_string_field, append_json_const_string_field,
  append_json_int_field,
}

-- The fields of `anthropicStreamState` that go into each chunk; `created` is in seconds.
pub record ChunkMeta : Type 0 where
  pub created : ℕ
  pub msg_id : Bytes
  pub model : Bytes

-- `stopReasonToFinishReason` of internal/adapter/anthropic_provider.go
unfoldable pub stop_reason_to_finish_reason : Bytes → Bytes
stop_reason_to_finish_reason reason =
    if same reason (codes "tool_use")
    then codes "tool_calls"
    else if same reason (codes "max_tokens")
    then codes "length"
    else codes "stop"

abbrev pub done_payload : Bytes
done_payload = codes "[DONE]"

-- `sseDoneChunk`
abbrev pub done_chunk : Bytes
done_chunk = codes "data: [DONE]\n\n"

-- `assistantRoleDelta`
abbrev pub assistant_role_delta : Bytes
assistant_role_delta = codes "{\"role\":\"assistant\",\"content\":\"\"}"

module _ (quote : Bytes → Bytes) where
  unfoldable pub finish_text : Option Bytes → Bytes
  finish_text none = codes "null"
  finish_text (some reason) = quote reason

  -- The text that `writeChunk` writes.
  unfoldable pub chunk : ChunkMeta → Bytes → Option Bytes → Bytes
  unfolding finish_text
  chunk m delta finish = joined (
      codes "data: {"
      ∷ append_json_string_field quote (codes "id") m.msg_id
      ∷ codes ","
      ∷ append_json_const_string_field (codes "object") (codes "chat.completion.chunk")
      ∷ codes ","
      ∷ append_json_int_field (codes "created") (pos m.created)
      ∷ codes ","
      ∷ append_json_string_field quote (codes "model") m.model
      ∷ codes ",\"choices\":[{\"index\":0,\"delta\":"
      ∷ delta
      ∷ codes ",\"finish_reason\":"
      ∷ finish_text finish
      ∷ codes "}]}\n\n"
      ∷ [])

  -- `textDelta`
  unfoldable pub text_delta : Bytes → Bytes
  text_delta text = joined (codes "{\"content\":" ∷ quote text ∷ codes "}" ∷ [])

  -- `toolHeaderDelta`
  unfoldable pub tool_header_delta : ℤ → Bytes → Bytes → Bytes
  tool_header_delta index tool_id tool_name = joined (
      codes "{\"tool_calls\":[{\"index\":"
      ∷ append_int index
      ∷ codes ",\"id\":"
      ∷ quote tool_id
      ∷ codes ",\"type\":\"function\",\"function\":{\"name\":"
      ∷ quote tool_name
      ∷ codes ",\"arguments\":\"\"}}]}"
      ∷ [])

  -- `toolArgumentDelta`
  unfoldable pub tool_argument_delta : ℤ → Bytes → Bytes
  tool_argument_delta index partial_json = joined (
      codes "{\"tool_calls\":[{\"index\":"
      ∷ append_int index
      ∷ codes ",\"function\":{\"arguments\":"
      ∷ quote partial_json
      ∷ codes "}}]}"
      ∷ [])
