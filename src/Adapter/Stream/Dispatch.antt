-- ===== src/Adapter/Stream/Dispatch.antt =====
-- What an event of the provider becomes: `dispatchAnthropicSSEEvent` and `dispatchAnthropicEvent`
-- of internal/adapter/stream_translator.go.
use strait.Base.{
  ℕ, zero, suc, Option, none, some, List, [], ◌∷◌, ◌++◌, Bytes, codes, same, is_empty,
  if◌then◌else◌, ℤ,
}
use strait.Adapter.Stream.Lines.{SseEvent}
use strait.Adapter.Stream.Chunks.{
  ChunkMeta, stop_reason_to_finish_reason, assistant_role_delta, chunk, text_delta,
  tool_header_delta, tool_argument_delta,
}

-- A block that starts, and a delta: the fields that the payload structs name.
pub record BlockStart : Type 0 where
  pub index : ℤ
  pub block_type : Bytes
  pub block_id : Bytes
  pub block_name : Bytes

pub record BlockDelta : Type 0 where
  pub index : ℤ
  pub delta_type : Bytes
  pub text : Bytes
  pub partial_json : Bytes

-- `json.Unmarshal` into the payload structs; `none` is an error. The error of a message delta is
-- ignored by the source, so its stop reason is what is decoded, or empty.
pub record Decoder : Type 0 where
  pub event_kind : Bytes → Option Bytes
  pub message_start : Bytes → Option (Bytes × Bytes)
  pub block_start : Bytes → Option BlockStart
  pub block_delta : Bytes → Option BlockDelta
  pub stop_reason : Bytes → Bytes

-- The client's connection: the texts written so far, and how many more writes it takes.
pub record Writer : Type 0 where
  pub written : List Bytes
  pub room : ℕ

-- `anthropicStreamState`
pub record StreamState : Type 0 where
  pub meta : ChunkMeta
  pub writer : Writer

-- After a call that may write: go on, or return the error of the write.
pub data Progress : Type 0 where
  going : StreamState → Progress
  write_failed : StreamState → Progress

unfoldable pub write_to : ℕ → Bytes → StreamState → Progress
write_to zero text s = write_failed s
write_to (suc room) text s =
    going (record s { writer = record { written = s.writer.written ++ text ∷ []; room = room } })

-- `w.Write`
unfoldable pub write : Bytes → StreamState → Progress
unfolding write_to
write text s = write_to s.writer.room text s

-- `if value != "" { field = value }`
unfoldable pub unless_empty : Bytes → Bytes → Bytes
unless_empty value old = if is_empty value then old else value

unfoldable pub start_meta : Option (Bytes × Bytes) → ChunkMeta → ChunkMeta
unfolding unless_empty
start_meta none m = m
start_meta (some (id, model)) m = record m {
  msg_id = unless_empty id m.msg_id;
  model = unless_empty model m.model;
}

module _ (quote : Bytes → Bytes) where
  -- `writeChunk`
  unfoldable pub write_chunk : Bytes → Option Bytes → StreamState → Progress
  unfolding write
  write_chunk delta finish s = write (chunk quote s.meta delta finish) s

  unfoldable pub on_block_start : Option BlockStart → StreamState → Progress
  unfolding write_chunk
  on_block_start none s = going s
  on_block_start (some b) s =
      if same b.block_type (codes "tool_use")
      then write_chunk (tool_header_delta quote b.index b.block_id b.block_name) none s
      else going s

  unfoldable pub on_block_delta : Option BlockDelta → StreamState → Progress
  unfolding write_chunk
  on_block_delta none s = going s
  on_block_delta (some b) s =
      if same b.delta_type (codes "text_delta")
      then write_chunk (text_delta quote b.text) none s
      else if same b.delta_type (codes "input_json_delta")
      then write_chunk (tool_argument_delta quote b.index b.partial_json) none s
      else going s

  module _ (d : Decoder) where
    -- `dispatchAnthropicEvent`
    unfoldable pub dispatch_anthropic_event : Bytes → Bytes → StreamState → Progress
    unfolding write_chunk start_meta on_block_start on_block_delta
    dispatch_anthropic_event kind payload s =
        if same kind (codes "message_start")
        then write_chunk assistant_role_delta none
            (record s { meta = start_meta (d.message_start payload) s.meta })
        else if same kind (codes "content_block_start")
        then on_block_start (d.block_start payload) s
        else if same kind (codes "content_block_delta")
        then on_block_delta (d.block_delta payload) s
        else if same kind (codes "message_delta")
        then write_chunk (codes "{}") (some (stop_reason_to_finish_reason (d.stop_reason payload)))
            s
        else going s

    unfoldable pub dispatch_kind : Option Bytes → Bytes → StreamState → Progress
    unfolding dispatch_anthropic_event
    dispatch_kind none payload s = going s
    dispatch_kind (some kind) payload s =
        if is_empty kind then going s else dispatch_anthropic_event kind payload s

    -- `dispatchAnthropicSSEEvent`
    unfoldable pub dispatch_anthropic_sse_event : SseEvent → StreamState → Progress
    unfolding dispatch_kind
    dispatch_anthropic_sse_event e s =
        dispatch_kind (if is_empty e.event_type then d.event_kind e.payload else some e.event_type)
          e.payload s
