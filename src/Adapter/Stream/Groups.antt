-- ===== src/Adapter/Stream/Groups.antt =====
-- What the lines of an event amount to, described apart from `consume` of
-- internal/adapter/stream_translator.go: the type is the last one named, the payload joins the data.
use strait.Base.{
  List, [], ◌∷◌, ◌++◌, append-nil, append_assoc, map, Bytes, is_empty, length, drop, has_prefix,
  if◌then◌else◌, ◌≡◌, refl, sym, ap, ◌∙◌, inl, inr, Bool-cases,
}
use strait.Adapter.Stream.Lines.{
  SseEvent, no_event, has_data, consume, add_payload, event_prefix, data_prefix,
}

-- Lines up to each blank line; those behind the last blank line are dropped.
abbrev pub closed_groups : List Bytes → List Bytes → List (List Bytes)
closed_groups acc [] = []
closed_groups acc (line ∷ lines) =
    if is_empty line then acc ∷ closed_groups [] lines else closed_groups (acc ++ line ∷ []) lines

abbrev line_tails : List Bytes → Bytes
line_tails [] = []
line_tails (p ∷ ps) = b'\n' ∷ (p ++ line_tails ps)

abbrev joined_from : Bytes → List Bytes → Bytes
joined_from [] [] = []
joined_from [] (p ∷ ps) = p ++ line_tails ps
joined_from (c ∷ s) ps = (c ∷ s) ++ line_tails ps

abbrev unless_blank : Bytes → List Bytes → List Bytes
unless_blank p ps = if is_empty p then ps else p ∷ ps

module _ (trim_space : Bytes → Bytes) where
  abbrev last_type : Bytes → List Bytes → Bytes
  last_type kind [] = kind
  last_type kind (line ∷ lines) =
      if has_prefix line event_prefix
      then last_type (trim_space (drop (length event_prefix) line)) lines
      else last_type kind lines

  abbrev payloads : List Bytes → List Bytes
  payloads [] = []
  payloads (line ∷ lines) =
      let rest = payloads lines in
      if has_prefix line event_prefix
      then rest
      else if has_prefix line data_prefix
      then unless_blank (trim_space (drop (length data_prefix) line)) rest
      else rest

  -- The type named last, and the data of the lines, those that are blank left out, with a line feed
  -- between each two.
  abbrev pub event_of : List Bytes → SseEvent
  event_of lines = record {
    event_type = last_type [] lines;
    payload = joined_from [] (payloads lines);
  }

  abbrev pub event_from : SseEvent → List Bytes → SseEvent
  event_from e [] = e
  event_from e (line ∷ lines) = event_from (consume trim_space line e) lines

  pub event_from-append :
      (e : SseEvent) (acc : List Bytes) (line : Bytes)
      → event_from e (acc ++ line ∷ []) ≡ consume trim_space line (event_from e acc)
  event_from-append e [] line = refl
  event_from-append e (l ∷ acc) line = event_from-append (consume trim_space l e) acc line

  joined_from_nil : (a : Bytes) → joined_from a [] ≡ a
  joined_from_nil [] = refl
  joined_from_nil (c ∷ s) = append-nil (c ∷ s)

  joined_from-add :
      (p : Bytes) (kind a : Bytes) (ps : List Bytes)
      → joined_from
          (add_payload trim_space p (record { event_type = kind; payload = a })).payload
          ps
        ≡ joined_from a (unless_blank p ps)
  unfolding add_payload has_data
  joined_from-add [] kind a ps = refl
  joined_from-add (c ∷ p) kind [] ps = refl
  joined_from-add (c ∷ p) kind (d ∷ a) ps =
      ap (λ xs. d ∷ xs) (append_assoc a (b'\n' ∷ c ∷ p) (line_tails ps))

  add_payload-type :
      (p : Bytes) (e : SseEvent) → (add_payload trim_space p e).event_type ≡ e.event_type
  unfolding add_payload
  add_payload-type [] e = refl
  add_payload-type (c ∷ p) e = refl

  type_lem :
      (e : SseEvent) (lines : List Bytes)
      → (event_from e lines).event_type ≡ last_type e.event_type lines
  unfolding consume
  type_lem e [] = refl
  type_lem e (line ∷ lines) =
      type_lem (consume trim_space line e) lines
      ∙ elim (Bool-cases (has_prefix line event_prefix)) [
        | inl h ↦ rw h refl
        | inr h ↦ elim (Bool-cases (has_prefix line data_prefix)) [
          | inl k ↦ rw (h, k, add_payload-type (trim_space (drop (length data_prefix) line)) e) refl
          | inr k ↦ rw (h, k) refl
        ]
      ]

  payload_lem :
      (e : SseEvent) (lines : List Bytes)
      → (event_from e lines).payload ≡ joined_from e.payload (payloads lines)
  unfolding consume
  payload_lem e [] = sym (joined_from_nil e.payload)
  payload_lem e (line ∷ lines) =
      payload_lem (consume trim_space line e) lines
      ∙ elim (Bool-cases (has_prefix line event_prefix)) [
        | inl h ↦ rw h refl
        | inr h ↦ elim (Bool-cases (has_prefix line data_prefix)) [
          | inl k ↦
              rw (h, k)
                (joined_from-add (trim_space (drop (length data_prefix) line)) e.event_type
                  e.payload (payloads lines))
          | inr k ↦ rw (h, k) refl
        ]
      ]

  event_from_lem : (lines : List Bytes) → event_from no_event lines ≡ event_of lines
  event_from_lem lines =
      λ i. record { event_type = type_lem no_event lines i; payload = payload_lem no_event lines i }

  pub map-event_from : (gs : List (List Bytes)) → map (event_from no_event) gs ≡ map event_of gs
  map-event_from [] = refl
  map-event_from (g ∷ gs) = λ i. event_from_lem g i ∷ map-event_from gs i
