-- ===== src/Adapter/Request/Agreement.antt =====
-- The simple path of internal/adapter/anthropic_request_fast.go sends what the general path of
-- internal/adapter/anthropic_provider.go builds.
use strait.Base.{
  Bool, true, false, not, ◌&&◌, ◌||◌, Option, none, some, List, [], ◌∷◌, map, Bytes, codes, same,
  is_empty, if◌then◌else◌, ◌≡◌, refl, sym, ap, ◌∙◌, ◌⊎◌, inl, inr, arith,
}
use strait.Adapter.Request.Types.{
  ContentPart, RichMessage, ResponseFormat, ChatCompletionRequest, AnthropicRequest,
}
use strait.Adapter.Request.General.{
  default_max_tokens, adapt_response_format_for_anthropic, over_messages, general_request,
}
use strait.Adapter.Request.Fast.{
  is_special_format, simple_message, raw_message_as_simple_string, simple_round, simple_messages,
  some_messages, simple_parts,
}
use strait.Adapter.Request.Roles.{
  if-false, other_role, Acc, in_general, simple_anthropic, ReadsStrings, NoNull, some-inj, no_some,
  decoded-simple, message-agree,
}

-- A guard that has let the request pass.
passed :
    {A : Type 0} (b : Bool) (o : Option A) (x : A)
    → (if b then none else o) ≡ some x
    → (b ≡ false) × (o ≡ some x)
passed true o x h = elim (no_some x h) [ ]
passed false o x h = (refl, h)

Option-cases : {A : Type 0} (o : Option A) → (o ≡ none) ⊎ ((x : A) × (o ≡ some x))
Option-cases none = inl refl
Option-cases (some x) = inr (x, refl)

no_calls : (a b c : Bool) → (not a || b || c) ≡ false → a ≡ true
no_calls a b c h = ground arith

not-false : (b : Bool) → not b ≡ false → b ≡ true
not-false true h = refl
not-false false h = ground arith

-- An empty type, and "text", are no other type.
plain_type :
    (t x : Bytes)
    → (not (is_empty t) && not (same t (codes "text"))) ≡ false
    → same [] x ≡ false
    → same (codes "text") x ≡ false
    → same t x ≡ false
plain_type [] x h k l = k
plain_type (c ∷ s) x h k l =
    other_role (c ∷ s) (codes "text") x (not-false (same (c ∷ s) (codes "text")) h) l

no_object :
    (same [] (codes "json_object") ≡ false) × (same (codes "text") (codes "json_object") ≡ false)
unfolding same
no_object = (refl, refl)

no_schema :
    (same [] (codes "json_schema") ≡ false) × (same (codes "text") (codes "json_schema") ≡ false)
unfolding same
no_schema = (refl, refl)

no_items : {A : Type 0} (xs : List A) → not (is_empty xs) ≡ false → xs ≡ []
no_items [] h = refl
no_items (x ∷ xs) h = ground arith

module _ (trim_space : Bytes → Bytes) (unmarshal_text : Bytes → Option Bytes)
    (unmarshal_parts : Bytes → Option (List ContentPart)) (valid : Bytes → Bool) where
  read-agree :
      (m : RichMessage) (o : Option Bytes) (ms : List RichMessage) (acc acc' : Acc)
      → ReadsStrings trim_space unmarshal_text unmarshal_parts valid
      → trim_space [] ≡ []
      → same (trim_space m.content) (codes "null") ≡ false
      → is_empty m.tool_calls ≡ true
      → raw_message_as_simple_string unmarshal_text m.content ≡ o
      → simple_message m o acc ≡ some acc'
      → over_messages trim_space unmarshal_text unmarshal_parts valid (m ∷ ms) (in_general acc)
        ≡ over_messages trim_space unmarshal_text unmarshal_parts valid ms (in_general acc')
  unfolding simple_message
  read-agree m none ms acc acc' reads empty no_null calls h s = elim (no_some acc' s) [ ]
  read-agree m (some v) ms acc acc' reads empty no_null calls h s =
      message-agree trim_space unmarshal_text unmarshal_parts valid m v ms acc acc'
        (decoded-simple trim_space unmarshal_text unmarshal_parts valid m.content v reads empty
          no_null h)
        h calls s

  round-agree :
      (m : RichMessage) (ms : List RichMessage) (acc acc' : Acc)
      → ReadsStrings trim_space unmarshal_text unmarshal_parts valid
      → trim_space [] ≡ []
      → same (trim_space m.content) (codes "null") ≡ false
      → simple_round unmarshal_text m acc ≡ some acc'
      → over_messages trim_space unmarshal_text unmarshal_parts valid (m ∷ ms) (in_general acc)
        ≡ over_messages trim_space unmarshal_text unmarshal_parts valid ms (in_general acc')
  unfolding simple_round
  round-agree m ms acc acc' reads empty no_null h =
      let p =
        passed _ (simple_message m (raw_message_as_simple_string unmarshal_text m.content) acc) acc'
          h in
      read-agree m (raw_message_as_simple_string unmarshal_text m.content) ms acc acc' reads empty
        no_null
        (no_calls (is_empty m.tool_calls) (not (is_empty m.tool_call_id)) (not (is_empty m.name))
          p.0)
        refl p.1

  no_more : (ms : List RichMessage) → simple_messages unmarshal_text ms none ≡ none
  unfolding simple_messages
  no_more [] = refl
  no_more (m ∷ ms) = refl

  messages-agree :
      (ms : List RichMessage) (acc acc' : Acc)
      → ReadsStrings trim_space unmarshal_text unmarshal_parts valid
      → trim_space [] ≡ []
      → NoNull trim_space unmarshal_text unmarshal_parts valid ms
      → simple_messages unmarshal_text ms (some acc) ≡ some acc'
      → over_messages trim_space unmarshal_text unmarshal_parts valid ms (in_general acc)
        ≡ in_general acc'
  unfolding simple_messages over_messages
  messages-agree [] acc acc' reads empty nn h = ap in_general (some-inj acc acc' h)
  messages-agree (m ∷ ms) acc acc' reads empty (no_null, nn) h =
      elim (Option-cases (simple_round unmarshal_text m acc)) [
        | inl e ↦
            elim (no_some acc'
              (sym (no_more ms) ∙ ap (simple_messages unmarshal_text ms) (sym e) ∙ h)) [ ]
        | inr (next, e) ↦
            round-agree m ms acc next reads empty no_null e
            ∙ messages-agree ms next acc' reads empty nn
                (ap (simple_messages unmarshal_text ms) (sym e) ∙ h)
      ]

  plain_format :
      (marshal_indent quote : Bytes → Bytes) (o : Option ResponseFormat) (system : Bytes)
      → is_special_format o ≡ false
      → adapt_response_format_for_anthropic marshal_indent quote o system ≡ system
  unfolding is_special_format adapt_response_format_for_anthropic
  plain_format marshal_indent quote none system h = refl
  plain_format marshal_indent quote (some rf) system h =
      let kind = rf.format_type in
      if-false _ _ _ (plain_type kind (codes "json_object") h no_object.0 no_object.1)
      ∙ if-false _ _ _ (plain_type kind (codes "json_schema") h no_schema.0 no_schema.1)

  -- The request that the simple path writes.
  abbrev pub simple_request : ChatCompletionRequest → Acc → AnthropicRequest
  simple_request r parts = record {
    model = r.model;
    messages = map simple_anthropic parts.1;
    max_tokens = default_max_tokens r.max_tokens;
    temperature = r.temperature;
    stream = r.stream;
    system = parts.0;
    top_p = r.top_p;
    stop_sequences = r.stop;
    tools = [];
  }

  some_messages-lem :
      (o : Option Acc) (parts : Acc) → some_messages unmarshal_text o ≡ some parts → o ≡ some parts
  unfolding some_messages
  some_messages-lem none parts h = h
  some_messages-lem (some (system, [])) parts h = elim (no_some parts h) [ ]
  some_messages-lem (some (system, m ∷ ms)) parts h = h

  -- Where the simple path takes a request, no content of a message is null, and a raw text that
  -- decodes to a string and is not null is a string with insignificant white space around it, the
  -- general path builds the request with the system prompt and the messages that the simple path
  -- has collected, without tools, and with the other fields as they are, 4096 for an absent limit
  -- of tokens.
  pub general_request-simple :
      (marshal_indent quote : Bytes → Bytes) (r : ChatCompletionRequest) (parts : Acc)
      → ReadsStrings trim_space unmarshal_text unmarshal_parts valid
      → trim_space [] ≡ []
      → NoNull trim_space unmarshal_text unmarshal_parts valid r.messages
      → simple_parts unmarshal_text r ≡ some parts
      → general_request trim_space unmarshal_text unmarshal_parts valid marshal_indent quote r
        ≡ simple_request r parts
  unfolding general_request simple_parts
  general_request-simple marshal_indent quote r parts reads empty nn h =
      let p = passed (not (is_empty r.tools)) _ parts h in
      let q = passed (is_special_format r.response_format) _ parts p.1 in
      let loop =
        messages-agree r.messages ([], []) parts reads empty nn (some_messages-lem _ parts q.1) in
      λ i. record {
        model = r.model;
        messages = (loop i).1;
        max_tokens = default_max_tokens r.max_tokens;
        temperature = r.temperature;
        stream = r.stream;
        system = (plain_format marshal_indent quote r.response_format _ q.0 ∙ ap (λ x. x.0) loop) i;
        top_p = r.top_p;
        stop_sequences = r.stop;
        tools = no_items r.tools p.0 i;
      }
