-- ===== src/Adapter/Stream/Items.antt =====
-- What an event of the provider is to become, and that `dispatchAnthropicSSEEvent` of
-- internal/adapter/stream_translator.go writes it.
use strait.Base.{
  Bool, true, false, not, Option, none, some, List, [], ◌∷◌, Bytes, codes, same, is_empty,
  if◌then◌else◌, ℤ, ◌≡◌, refl, inl, inr, Bool-cases,
}
use strait.Adapter.Stream.Lines.{SseEvent, has_data}
use strait.Adapter.Stream.Chunks.{
  ChunkMeta, stop_reason_to_finish_reason, done_payload, assistant_role_delta, chunk, text_delta,
  tool_header_delta, tool_argument_delta,
}
use strait.Adapter.Stream.Dispatch.{
  BlockStart, BlockDelta, Decoder, StreamState, Progress, going, write, start_meta,
  dispatch_anthropic_sse_event, dispatch_kind, dispatch_anthropic_event, on_block_start,
  on_block_delta, write_chunk,
}

-- What an event says to the client.
pub data Item : Type 0 where
  role : Option (Bytes × Bytes) → Item
  text : Bytes → Item
  tool_header : ℤ → Bytes → Bytes → Item
  tool_arguments : ℤ → Bytes → Item
  stop : Bytes → Item

abbrev block_item : Option BlockStart → Option Item
block_item none = none
block_item (some b) =
    if same b.block_type (codes "tool_use")
    then some (tool_header b.index b.block_id b.block_name)
    else none

abbrev delta_item : Option BlockDelta → Option Item
delta_item none = none
delta_item (some b) =
    if same b.delta_type (codes "text_delta")
    then some (text b.text)
    else if same b.delta_type (codes "input_json_delta")
    then some (tool_arguments b.index b.partial_json)
    else none

abbrev pub item_meta : Item → ChunkMeta → ChunkMeta
item_meta (role start) m = start_meta start m
item_meta _ m = m

module _ (quote : Bytes → Bytes) where
  abbrev pub item_chunk : ChunkMeta → Item → Bytes
  item_chunk m (role start) = chunk quote m assistant_role_delta none
  item_chunk m (text t) = chunk quote m (text_delta quote t) none
  item_chunk m (tool_header i id name) = chunk quote m (tool_header_delta quote i id name) none
  item_chunk m (tool_arguments i json) = chunk quote m (tool_argument_delta quote i json) none
  item_chunk m (stop reason) =
      chunk quote m (codes "{}") (some (stop_reason_to_finish_reason reason))

module _ (d : Decoder) where
  abbrev kind_item : Bytes → Bytes → Option Item
  kind_item kind payload =
      if is_empty kind
      then none
      else if same kind (codes "message_start")
      then some (role (d.message_start payload))
      else if same kind (codes "content_block_start")
      then block_item (d.block_start payload)
      else if same kind (codes "content_block_delta")
      then delta_item (d.block_delta payload)
      else if same kind (codes "message_delta")
      then some (stop (d.stop_reason payload))
      else none

  abbrev named_item : Option Bytes → Bytes → Option Item
  named_item none payload = none
  named_item (some kind) payload = kind_item kind payload

  -- The item of an event: by its type, or else by the type in its data.
  abbrev pub item_of : SseEvent → Option Item
  item_of e =
      named_item (if is_empty e.event_type then d.event_kind e.payload else some e.event_type)
        e.payload

-- The chunks of the events up to the first that says the end marker, and whether there is one.
module _ (quote : Bytes → Bytes) (d : Decoder) where
  abbrev pub with_item :
      Option Item → (ChunkMeta → List Bytes × Bool) → ChunkMeta → List Bytes × Bool
  with_item none rest m = rest m
  with_item (some it) rest m =
      (item_chunk quote (item_meta it m) it ∷ (rest (item_meta it m)).0, (rest (item_meta it m)).1)

  abbrev pub event_chunks : List SseEvent → ChunkMeta → List Bytes × Bool
  event_chunks [] m = ([], false)
  event_chunks (e ∷ es) m =
      let rest = event_chunks es in
      if not (has_data e)
      then rest m
      else if same e.payload done_payload
      then ([], true)
      else with_item (item_of d e) rest m

  abbrev pub send : Option Item → StreamState → Progress
  send none s = going s
  send (some it) s =
      write (item_chunk quote (item_meta it s.meta) it) (record s { meta = item_meta it s.meta })

  on_block_start-send :
      (o : Option BlockStart) (s : StreamState) → on_block_start quote o s ≡ send (block_item o) s
  unfolding on_block_start
  on_block_start-send none s = refl
  on_block_start-send (some b) s = elim (Bool-cases (same b.block_type (codes "tool_use"))) [
    | inl e ↦ rw e refl
    | inr e ↦ rw e refl
  ]

  on_block_delta-send :
      (o : Option BlockDelta) (s : StreamState) → on_block_delta quote o s ≡ send (delta_item o) s
  unfolding on_block_delta
  on_block_delta-send none s = refl
  on_block_delta-send (some b) s = elim (Bool-cases (same b.delta_type (codes "text_delta"))) [
    | inl e ↦ rw e refl
    | inr e ↦ elim (Bool-cases (same b.delta_type (codes "input_json_delta"))) [
      | inl f ↦ rw (e, f) refl
      | inr f ↦ rw (e, f) refl
    ]
  ]

  if-send :
      (b : Bool) (p q : Progress) (x y : Option Item) (s : StreamState)
      → p ≡ send x s
      → q ≡ send y s
      → (if b then p else q) ≡ send (if b then x else y) s
  if-send true p q x y s h k = h
  if-send false p q x y s h k = k

  dispatch_kind-send :
      (o : Option Bytes) (payload : Bytes) (s : StreamState)
      → dispatch_kind quote d o payload s ≡ send (named_item d o payload) s
  unfolding dispatch_kind dispatch_anthropic_event write_chunk
  dispatch_kind-send none payload s = refl
  dispatch_kind-send (some kind) payload s = if-send (is_empty kind) _ _ none _ s refl (
      if-send (same kind (codes "message_start")) _ _ (some (role (d.message_start payload))) _ s
        refl
        (if-send (same kind (codes "content_block_start")) _ _ (block_item (d.block_start payload))
          _ s (on_block_start-send (d.block_start payload) s)
          (if-send (same kind (codes "content_block_delta")) _ _
            (delta_item (d.block_delta payload)) _ s (on_block_delta-send (d.block_delta payload) s)
            (if-send (same kind (codes "message_delta")) _ _ (some (stop (d.stop_reason payload)))
              none s refl refl))))

  pub dispatch-send :
      (e : SseEvent) (s : StreamState)
      → dispatch_anthropic_sse_event quote d e s ≡ send (item_of d e) s
  unfolding dispatch_anthropic_sse_event
  dispatch-send e s =
      dispatch_kind-send
        (if is_empty e.event_type then d.event_kind e.payload else some e.event_type) e.payload s
