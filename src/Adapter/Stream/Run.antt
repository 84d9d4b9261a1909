-- ===== src/Adapter/Stream/Run.antt =====
-- `TranslateAnthropicStream` of internal/adapter/stream_translator.go. The response headers and the
-- flushes behind each write are left out.
use strait.Base.{ℕ, not, List, [], ◌∷◌, ◌++◌, Bytes, codes, same, is_empty, if◌then◌else◌, pos}
use strait.Adapter.Json.{append_int}
use strait.Adapter.Stream.Lines.{SseEvent, no_event, has_data, consume, split_lines, trim_line_end}
use strait.Adapter.Stream.Chunks.{done_payload, done_chunk}
use strait.Adapter.Stream.Dispatch.{
  Decoder, Writer, StreamState, Progress, going, write_failed, write, dispatch_anthropic_sse_event,
}

-- How the provider's response body ends behind its last byte.
pub data Ending : Type 0 where
  eof broken : Ending

-- The results of `TranslateAnthropicStream`: nil, an error of a write, an error of a read.
pub data Ended : Type 0 where
  finished failed_write failed_read : StreamState → Ended

-- A round of the loop: go on with an event that is read so far, `goto done`, or return an error.
pub data Round : Type 0 where
  next : SseEvent → StreamState → Round
  done : StreamState → Round
  failed : StreamState → Round

unfoldable pub after_dispatch : Progress → Round
after_dispatch (going s) = next no_event s
after_dispatch (write_failed s) = failed s

-- `writeDone`
unfoldable pub write_done : StreamState → Ended
unfolding write
write_done s = elim (write done_chunk s) [
  | going s' ↦ finished s'
  | write_failed s' ↦ failed_write s'
]

-- Behind the loop, unless it has jumped to `done`.
unfoldable pub at_end : Ending → Round → Ended
unfolding write_done
at_end eof (next e s) = write_done s
at_end broken (next e s) = failed_read s
at_end ending (done s) = write_done s
at_end ending (failed s) = failed_write s

module _ (quote : Bytes → Bytes) (d : Decoder) (trim_space : Bytes → Bytes) where
  -- What a line does, in the loop.
  unfoldable pub on_line : Bytes → SseEvent → StreamState → Round
  unfolding after_dispatch
  on_line line e s =
      if not (is_empty line)
      then next (consume trim_space line e) s
      else if not (has_data e)
      then next no_event s
      else if same e.payload done_payload
      then done s
      else after_dispatch (dispatch_anthropic_sse_event quote d e s)

  unfoldable pub then_line : Round → Bytes → Round
  unfolding on_line
  then_line (next e s) line = on_line line e s
  then_line (done s) line = done s
  then_line (failed s) line = failed s

  -- The loop over the complete lines.
  unfoldable pub over_lines : List Bytes → Round → Round
  unfolding then_line
  over_lines [] r = r
  over_lines (line ∷ lines) r = over_lines lines (then_line r line)

  -- The last read: the bytes behind the last line feed, or an error.
  unfoldable pub last_read : Ending → Bytes → Round → Round
  unfolding then_line
  last_read eof rest r = then_line r (trim_line_end rest)
  last_read broken rest r = r

  -- `TranslateAnthropicStream`, on a body with its ending, at the time `created`
  unfoldable pub translate_anthropic_stream : Bytes → Ending → ℕ → Bytes → Writer → Ended
  unfolding over_lines last_read at_end
  translate_anthropic_stream body ending created fallback_model w =
      let lines = split_lines [] body in
      at_end ending (
        last_read ending lines.1 (
          over_lines lines.0 (
            next no_event (record {
              meta = record {
                created = created;
                msg_id = codes "chatcmpl-anthropic-" ++ append_int (pos created);
                model = fallback_model;
              };
              writer = w;
            }))))
