-- ===== src/Adapter/Stream/Lines.antt =====
-- Lines and events of a stream: `readSSELine` and `anthropicSSEEvent` of
-- internal/adapter/stream_translator.go. `trim_space` stands for `bytes.TrimSpace`.
use strait.Base.{
  Bool, true, false, not, ◌&&◌, ◌||◌, List, [], ◌∷◌, ◌++◌, Bytes, codes, has_prefix, length, drop,
  is_empty, ◌==◌, if◌then◌else◌,
}

-- `bytes.TrimRight(line, "\r\n")`
unfoldable pub trim_line_end : Bytes → Bytes
trim_line_end [] = []
trim_line_end (c ∷ s) =
    let rest = trim_line_end s in
    if is_empty rest && (c == b'\r' || c == b'\n') then [] else c ∷ rest

-- The bytes up to a line feed, that included, each line trimmed, and the bytes behind the last one.
-- `ReadSlice` gives a long line in pieces, which `readSSELine` joins.
unfoldable pub split_lines : Bytes → Bytes → List Bytes × Bytes
unfolding trim_line_end
split_lines line [] = ([], line)
split_lines line (c ∷ s) = elim (c == b'\n') [
  | true ↦ let rest = split_lines [] s in (trim_line_end (line ++ c ∷ []) ∷ rest.0, rest.1)
  | false ↦ split_lines (line ++ c ∷ []) s
]

-- `anthropicSSEEvent`
pub record SseEvent : Type 0 where
  pub event_type : Bytes
  pub payload : Bytes

-- `reset`
abbrev pub no_event : SseEvent
no_event = record { event_type = []; payload = [] }

abbrev pub event_prefix : Bytes
event_prefix = codes "event:"

abbrev pub data_prefix : Bytes
data_prefix = codes "data:"

-- `hasData`
unfoldable pub has_data : SseEvent → Bool
has_data e = not (is_empty e.payload)

module _ (trim_space : Bytes → Bytes) where
  unfoldable pub add_payload : Bytes → SseEvent → SseEvent
  unfolding has_data
  add_payload p e =
      if is_empty p
      then e
      else record e { payload = if has_data e then e.payload ++ b'\n' ∷ p else p }

  -- `consume`
  unfoldable pub consume : Bytes → SseEvent → SseEvent
  unfolding add_payload
  consume line e =
      if has_prefix line event_prefix
      then record e { event_type = trim_space (drop (length event_prefix) line) }
      else if has_prefix line data_prefix
      then add_payload (trim_space (drop (length data_prefix) line)) e
      else e
