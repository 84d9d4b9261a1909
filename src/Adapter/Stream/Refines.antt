-- ===== src/Adapter/Stream/Refines.antt =====
-- `TranslateAnthropicStream` of internal/adapter/stream_translator.go against a description by events:
-- the lines between blank lines make an event, an event makes one chunk at most, and the chunks go
-- out in order, followed by the closing text.
use strait.Base.{
  ℕ, zero, suc, Bool, true, false, Option, none, some, List, [], ◌∷◌, ◌++◌, map, append-nil,
  append_assoc, Bytes, codes, same, is_empty, length, take, ltb, if◌then◌else◌, pos, ◌≡◌, refl, sym,
  ◌∙◌, ap, inl, inr, Bool-cases, arith,
}
use strait.Adapter.Json.{append_int}
use strait.Adapter.Stream.Lines.{SseEvent, no_event, has_data, split_lines, trim_line_end}
use strait.Adapter.Stream.Chunks.{ChunkMeta, done_payload, done_chunk}
use strait.Adapter.Stream.Groups.{
  closed_groups, event_from, event_from-append, event_of, map-event_from,
}
use strait.Adapter.Stream.Dispatch.{Decoder, Writer, StreamState, write, write_to}
use strait.Adapter.Stream.Items.{
  Item, item_chunk, item_meta, item_of, with_item, event_chunks, send, dispatch-send,
}
use strait.Adapter.Stream.Run.{
  Ending, eof, broken, Ended, finished, failed_write, failed_read, Round, next, done, failed,
  after_dispatch, write_done, at_end, on_line, then_line, over_lines, last_read,
  translate_anthropic_stream,
}

-- How a run ends.
pub data EndKind : Type 0 where
  complete write_error read_error : EndKind

abbrev pub full : Ending → List Bytes × Bool → List Bytes
full eof c = c.0 ++ done_chunk ∷ []
full broken c = if c.1 then c.0 ++ done_chunk ∷ [] else c.0

abbrev clean : Ending → Bool → EndKind
clean eof said_done = complete
clean broken said_done = if said_done then complete else read_error

-- What a run is to come to: the texts behind those already written, as far as there is room.
abbrev pub verdict : Ending → Writer → List Bytes × Bool → List Bytes × EndKind
verdict ending w c = (
  w.written ++ take w.room (full ending c),
  if ltb w.room (length (full ending c)) then write_error else clean ending c.1,
)

full-cons :
    (ending : Ending) (x : Bytes) (c : List Bytes × Bool)
    → full ending (x ∷ c.0, c.1) ≡ x ∷ full ending c
full-cons eof x c = refl
full-cons broken x (xs, true) = refl
full-cons broken x (xs, false) = refl

verdict_zero :
    (ending : Ending) (ws : List Bytes) (x : Bytes) (c : List Bytes × Bool)
    → verdict ending (record { written = ws; room = 0 }) (x ∷ c.0, c.1) ≡ (ws, write_error)
verdict_zero ending ws x c = rw (full-cons ending x c) (ground (arith, append-nil ws))

verdict-suc :
    (ending : Ending) (room : ℕ) (ws : List Bytes) (x : Bytes) (c : List Bytes × Bool)
    → verdict ending (record { written = ws ++ x ∷ []; room = room }) c
      ≡ verdict ending (record { written = ws; room = suc room }) (x ∷ c.0, c.1)
verdict-suc ending room ws x c =
    rw (full-cons ending x c) (ground (arith, append_assoc ws (x ∷ []) (take room (full ending c))))

abbrev pub report : Ended → List Bytes × EndKind
report (finished s) = (s.writer.written, complete)
report (failed_write s) = (s.writer.written, write_error)
report (failed_read s) = (s.writer.written, read_error)

ltb_zero : (n : ℕ) → ltb n 0 ≡ false
ltb_zero n = ground arith

ltb-suc_one : (n : ℕ) → ltb (suc n) 1 ≡ false
ltb-suc_one n = ground arith

take_nil : (n : ℕ) → take {A = Bytes} n [] ≡ []
take_nil zero = refl
take_nil (suc n) = refl

write_done-report :
    (room : ℕ) (m : ChunkMeta) (ws : List Bytes)
    → report (write_done (record { meta = m; writer = record { written = ws; room = room } }))
      ≡ (ws ++ take room (done_chunk ∷ []), if ltb room 1 then write_error else complete)
unfolding write_done write write_to
write_done-report zero m ws = ap (λ xs. (xs, write_error)) (sym (append-nil ws))
write_done-report (suc room) m ws = rw (ltb-suc_one room, take_nil room) refl

module _ (quote : Bytes → Bytes) (d : Decoder) (trim_space : Bytes → Bytes) where
  over_lines-failed :
      (lines : List Bytes) (s : StreamState)
      → over_lines quote d trim_space lines (failed s) ≡ failed s
  unfolding over_lines then_line
  over_lines-failed [] s = refl
  over_lines-failed (l ∷ lines) s = over_lines-failed lines s

  over_lines-done :
      (lines : List Bytes) (s : StreamState) → over_lines quote d trim_space lines (done s) ≡ done s
  unfolding over_lines then_line
  over_lines-done [] s = refl
  over_lines-done (l ∷ lines) s = over_lines-done lines s

  -- A run over more lines.
  abbrev Runs : Ending → List Bytes → List SseEvent → Round → Writer → ChunkMeta → Type 0
  Runs ending lines es r w m =
      report (at_end ending (over_lines quote d trim_space lines r))
      ≡ verdict ending w (event_chunks quote d es m)

  end-Runs :
      (ending : Ending) (e : SseEvent) (s : StreamState)
      → Runs ending [] [] (next e s) s.writer s.meta
  unfolding at_end over_lines
  end-Runs eof e s = write_done-report s.writer.room s.meta s.writer.written
  end-Runs broken e s =
      rw (take_nil s.writer.room, ltb_zero s.writer.room, append-nil s.writer.written) refl

  done-Runs :
      (ending : Ending) (lines : List Bytes) (s : StreamState)
      → report (at_end ending (over_lines quote d trim_space lines (done s)))
        ≡ verdict ending s.writer ([], true)
  unfolding at_end
  done-Runs eof lines s =
      rw (over_lines-done lines s) (write_done-report s.writer.room s.meta s.writer.written)
  done-Runs broken lines s =
      rw (over_lines-done lines s) (write_done-report s.writer.room s.meta s.writer.written)

  sent-Runs :
      (ending : Ending) (lines : List Bytes) (es : List SseEvent) (o : Option Item) (room : ℕ)
      (m : ChunkMeta) (ws : List Bytes)
      → ((s' : StreamState) → Runs ending lines es (next no_event s') s'.writer s'.meta)
      → report (
          at_end ending (
            over_lines quote d trim_space lines (
              after_dispatch (
                send quote d o
                  (record { meta = m; writer = record { written = ws; room = room } })))))
        ≡ verdict ending
            (record { written = ws; room = room })
            (with_item quote d o (event_chunks quote d es) m)
  unfolding after_dispatch write write_to at_end
  sent-Runs ending lines es none room m ws ih = ih _
  sent-Runs ending lines es (some it) zero m ws ih = rw (over_lines-failed lines) (
      sym (
        verdict_zero ending ws (item_chunk quote (item_meta it m) it)
          (event_chunks quote d es (item_meta it m))))
  sent-Runs ending lines es (some it) (suc room) m ws ih =
      ih _
      ∙ verdict-suc ending room ws (item_chunk quote (item_meta it m) it)
          (event_chunks quote d es (item_meta it m))

  closed-Runs :
      (ending : Ending) (line : Bytes) (lines : List Bytes) (es : List SseEvent) (e : SseEvent)
      (s : StreamState)
      → is_empty line ≡ true
      → ((s' : StreamState) → Runs ending lines es (next no_event s') s'.writer s'.meta)
      → report (
          at_end ending (over_lines quote d trim_space lines (on_line quote d trim_space line e s)))
        ≡ verdict ending s.writer (event_chunks quote d (e ∷ es) s.meta)
  unfolding on_line
  closed-Runs ending line lines es e s h ih = elim (Bool-cases (has_data e)) [
    | inr no_data ↦ rw (h, no_data) (ih s)
    | inl data_seen ↦ elim (Bool-cases (same e.payload done_payload)) [
      | inl said ↦ rw (h, data_seen, said) (done-Runs ending lines s)
      | inr more ↦
          rw (h, data_seen, more, dispatch-send quote d e s)
            (sent-Runs ending lines es (item_of d e) s.writer.room s.meta s.writer.written ih)
    ]
  ]

  line-Runs :
      (ending : Ending) (line : Bytes) (lines acc : List Bytes) (s : StreamState) (b : Bool)
      → is_empty line ≡ b
      → ((acc' : List Bytes) (s' : StreamState)
          → Runs ending lines
              (map (event_from trim_space no_event) (closed_groups acc' lines))
              (next (event_from trim_space no_event acc') s')
              s'.writer
              s'.meta)
      → report (
          at_end ending (
            over_lines quote d trim_space lines
              (on_line quote d trim_space line (event_from trim_space no_event acc) s)))
        ≡ verdict ending s.writer (
            event_chunks quote d
              (map (event_from trim_space no_event) (
                if b then acc ∷ closed_groups [] lines else closed_groups (acc ++ line ∷ []) lines))
              s.meta)
  unfolding on_line
  line-Runs ending line lines acc s true h ih =
      closed-Runs ending line lines _ (event_from trim_space no_event acc) s h (ih [])
  line-Runs ending line lines acc s false h ih =
      rw (h, sym (event_from-append trim_space no_event acc line)) (ih (acc ++ line ∷ []) s)

  run_from :
      (ending : Ending) (lines acc : List Bytes) (s : StreamState)
      → Runs ending lines
          (map (event_from trim_space no_event) (closed_groups acc lines))
          (next (event_from trim_space no_event acc) s)
          s.writer
          s.meta
  unfolding over_lines then_line
  run_from ending [] acc s = end-Runs ending (event_from trim_space no_event acc) s
  run_from ending (line ∷ lines) acc s =
      line-Runs ending line lines acc s (is_empty line) refl
        (λ acc' s'. run_from ending lines acc' s')

  over_lines-append :
      (lines : List Bytes) (r : Round) (line : Bytes)
      → over_lines quote d trim_space (lines ++ line ∷ []) r
        ≡ then_line quote d trim_space (over_lines quote d trim_space lines r) line
  unfolding over_lines
  over_lines-append [] r line = refl
  over_lines-append (l ∷ lines) r line =
      over_lines-append lines (then_line quote d trim_space r l) line

  -- The lines of a body: the bytes behind the last line feed are one too, unless the body breaks off.
  abbrev all_lines : Ending → List Bytes × Bytes → List Bytes
  all_lines eof lines = lines.0 ++ trim_line_end lines.1 ∷ []
  all_lines broken lines = lines.0

  abbrev pub events : Ending → Bytes → List SseEvent
  events ending body =
      map (event_of trim_space) (closed_groups [] (all_lines ending (split_lines [] body)))

  last-Runs :
      (ending : Ending) (lines : List Bytes × Bytes) (s : StreamState)
      → report (
          at_end ending (
            last_read quote d trim_space ending lines.1
              (over_lines quote d trim_space lines.0 (next no_event s))))
        ≡ verdict ending s.writer (
            event_chunks quote d
              (map (event_from trim_space no_event) (closed_groups [] (all_lines ending lines)))
              s.meta)
  unfolding last_read
  last-Runs eof lines s =
      rw (sym (over_lines-append lines.0 (next no_event s) (trim_line_end lines.1)))
        (run_from eof (lines.0 ++ trim_line_end lines.1 ∷ []) [] s)
  last-Runs broken lines s = run_from broken lines.0 [] s

  -- The translation of a stream writes the chunks of its events in order up to the first event
  -- that has the end marker, and then the closing text, as far as the client takes writes, where
  -- the lines between blank lines make an event, its type is the last one named and its payload
  -- joins the data lines that are not blank; a body that breaks off before the end marker ends
  -- with a read error and without the closing text.
  pub report-translate_anthropic_stream :
      (body : Bytes) (ending : Ending) (created : ℕ) (fallback_model : Bytes) (w : Writer)
      → report (translate_anthropic_stream quote d trim_space body ending created fallback_model w)
        ≡ verdict ending w (
            event_chunks quote d (events ending body) (record {
              created = created;
              msg_id = codes "chatcmpl-anthropic-" ++ append_int (pos created);
              model = fallback_model;
            }))
  unfolding translate_anthropic_stream
  report-translate_anthropic_stream body ending created fallback_model w =
      rw
        (sym
          (map-event_from trim_space (closed_groups [] (all_lines ending (split_lines [] body)))))
        (last-Runs ending (split_lines [] body) _)
