-- ===== src/Examples/Streams.antt =====
-- A short stream of the provider: an event with a text, and the closing event.
use strait.Base.{[], ◌∷◌, ◌++◌, none, some, Bytes, codes, pos, ◌≡◌}
use Prim.Native.Nat.{compare, eq}
use strait.Adapter.Json.{append_int}
use strait.Adapter.Stream.Dispatch.{Decoder, Writer}
use strait.Adapter.Stream.Items.{event_chunks}
use strait.Adapter.Stream.Run.{eof, translate_anthropic_stream}
use strait.Adapter.Stream.Refines.{report, verdict, events, report-translate_anthropic_stream}

abbrev in_quotes : Bytes → Bytes
in_quotes s = b'"' ∷ (s ++ b'"' ∷ [])

-- `bytes.TrimSpace`, on a text with at most one space in front.
abbrev no_space : Bytes → Bytes
no_space [] = []
no_space (c ∷ s) = elim (compare c b' ') [ eq ↦ s | _ ↦ c ∷ s ]

-- Every payload is taken for the text of a delta.
abbrev texts_only : Decoder
texts_only = record {
  event_kind = λ payload. none;
  message_start = λ payload. none;
  block_start = λ payload. none;
  block_delta = λ payload. some (record {
    index = pos 0;
    delta_type = codes "text_delta";
    text = payload;
    partial_json = [];
  });
  stop_reason = λ payload. [];
}

abbrev two_events : Bytes
two_events = codes "event: content_block_delta\ndata: hello\n\ndata: [DONE]\n\n"

abbrev two_writes : Writer
two_writes = record { written = []; room = 2 }

report-translate_anthropic_stream_example :
    report (
      translate_anthropic_stream in_quotes texts_only no_space two_events eof 7
        (codes "claude")
        two_writes)
    ≡ verdict eof two_writes (
        event_chunks in_quotes texts_only
          (events in_quotes texts_only no_space eof two_events)
          (record {
            created = 7;
            msg_id = codes "chatcmpl-anthropic-" ++ append_int (pos 7);
            model = codes "claude";
          }))
report-translate_anthropic_stream_example =
    report-translate_anthropic_stream in_quotes texts_only no_space two_events eof 7
      (codes "claude") two_writes
