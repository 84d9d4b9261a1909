-- ===== src/Adapter/Request/Roles.antt =====
-- A message in the simple path of internal/adapter/anthropic_request_fast.go and in the general path of
-- internal/adapter/anthropic_provider.go.
use strait.Base.{
  Bool, true, false, ◌||◌, Option, none, some, List, [], ◌∷◌, ◌++◌, map, Bytes, codes, same,
  same_iff, is_empty, ◌==◌, if◌then◌else◌, ◌≡◌, refl, sym, subst, ap, ◌∙◌, inl, inr, Bool-cases,
  arith,
}
use strait.Adapter.Request.Types.{
  ContentPart, RichMessage, MessageContent, text_content, AnthropicMessage,
}
use strait.Adapter.Request.Content.{
  OpenAiMessageContent, string_content, as_string, decode_trimmed, decode_openai_message_content,
  text_only,
}
use strait.Adapter.Request.General.{
  decoded_text, user_content, content_as_string, translate_user_message,
  translate_assistant_message, translate_tool_result_message, over_messages,
}
use strait.Adapter.Request.Fast.{
  AnthropicSimpleMessage, simple_message, raw_message_as_simple_string,
}

abbrev pub simple_anthropic : AnthropicSimpleMessage → AnthropicMessage
simple_anthropic m = record { role = m.role; content = text_content m.content }

if-true : {A : Type 0} (b : Bool) (x y : A) → b ≡ true → (if b then x else y) ≡ x
if-true true x y h = refl
if-true false x y h = ground arith

pub if-false : {A : Type 0} (b : Bool) (x y : A) → b ≡ false → (if b then x else y) ≡ y
if-false true x y h = ground arith
if-false false x y h = refl

pub some-inj : {A : Type 0} (x y : A) → some x ≡ some y → x ≡ y
some-inj x y h = cc

pub no_some : {A : Type 0} (x : A) → none ≡ some x → ⊥
no_some x h = cc

-- A role is one name only.
pub other_role : (role a b : Bytes) → same role a ≡ true → same a b ≡ false → same role b ≡ false
other_role role a b h k = subst (λ r. same r b ≡ false) (sym ((same_iff role a).0 h)) k

user_no_tool : same (codes "user") (codes "tool") ≡ false
unfolding same
user_no_tool = refl

user_no_assistant : same (codes "user") (codes "assistant") ≡ false
unfolding same
user_no_assistant = refl

assistant_no_tool : same (codes "assistant") (codes "tool") ≡ false
unfolding same
assistant_no_tool = refl

or-first : (a b : Bool) → a ≡ true → (a || b) ≡ true
or-first a b h = ground arith

or-second : (a b : Bool) → b ≡ true → (a || b) ≡ true
or-second a b h = ground arith

or-neither : (a b : Bool) → a ≡ false → b ≡ false → (a || b) ≡ false
or-neither a b h k = ground arith

abbrev with_role : Bytes → MessageContent → AnthropicMessage
with_role role content = record { role = role; content = content }

if_content :
    (b : Bool) (y : MessageContent) (o : Option OpenAiMessageContent) (v : Bytes)
    → b ≡ true
    → o ≡ some (string_content v)
    → (if b then text_content (decoded_text o) else y) ≡ text_content v
unfolding decoded_text text_only
if_content true y o v h e = rw e refl
if_content false y o v h e = ground arith

map-add :
    (ms : List AnthropicSimpleMessage) (m : AnthropicSimpleMessage)
    → map simple_anthropic (ms ++ m ∷ []) ≡ map simple_anthropic ms ++ simple_anthropic m ∷ []
map-add [] m = refl
map-add (n ∷ ms) m = ap (λ xs. simple_anthropic n ∷ xs) (map-add ms m)

abbrev pub Acc : Type 0
Acc = Bytes × List AnthropicSimpleMessage

abbrev pub in_general : Acc → Bytes × List AnthropicMessage
in_general acc = (acc.0, map simple_anthropic acc.1)

-- The first byte of a string.
abbrev Quoted : Bytes → Type 0
Quoted [] = ⊥
Quoted (c ∷ s) = (c == b'"') ≡ true

module _ (trim_space : Bytes → Bytes) (unmarshal_text : Bytes → Option Bytes)
    (unmarshal_parts : Bytes → Option (List ContentPart)) (valid : Bytes → Bool) where
  -- What decodes to a string is a string, with white space around it that does not matter, or null.
  abbrev pub ReadsStrings : Type 0
  ReadsStrings =
      (raw v : Bytes)
      → unmarshal_text raw ≡ some v
      → same (trim_space raw) (codes "null") ≡ false
      → Quoted (trim_space raw) × (unmarshal_text (trim_space raw) ≡ some v)

  abbrev pub NoNull : List RichMessage → Type 0
  NoNull [] = Unit
  NoNull (m ∷ ms) = (same (trim_space m.content) (codes "null") ≡ false) × NoNull ms

  decode_trimmed-Quoted :
      (s v : Bytes)
      → Quoted s
      → unmarshal_text s ≡ some v
      → decode_trimmed unmarshal_text unmarshal_parts s ≡ some (string_content v)
  unfolding decode_trimmed as_string
  decode_trimmed-Quoted [] v q h = elim q [ ]
  decode_trimmed-Quoted (c ∷ s) v q h = rw (q, h) refl

  pub decoded-simple :
      (raw v : Bytes)
      → ReadsStrings
      → trim_space [] ≡ []
      → same (trim_space raw) (codes "null") ≡ false
      → raw_message_as_simple_string unmarshal_text raw ≡ some v
      → decode_openai_message_content unmarshal_text unmarshal_parts trim_space raw
        ≡ some (string_content v)
  unfolding decode_openai_message_content raw_message_as_simple_string decode_trimmed as_string
  decoded-simple [] v reads empty no_null h = rw empty (ap as_string h)
  decoded-simple (c ∷ s) v reads empty no_null h =
      let r = reads (c ∷ s) v h no_null in decode_trimmed-Quoted (trim_space (c ∷ s)) v r.0 r.1

  user_content-simple :
      (raw v : Bytes) (o : Option OpenAiMessageContent)
      → o ≡ some (string_content v)
      → raw_message_as_simple_string unmarshal_text raw ≡ some v
      → (if is_empty raw then text_content [] else user_content raw o) ≡ text_content v
  unfolding raw_message_as_simple_string user_content
  user_content-simple [] v o e h = ap text_content (some-inj [] v h)
  user_content-simple (c ∷ s) v o e h = rw e refl

  user-simple :
      (m : RichMessage) (v : Bytes)
      → decode_openai_message_content unmarshal_text unmarshal_parts trim_space m.content
        ≡ some (string_content v)
      → raw_message_as_simple_string unmarshal_text m.content ≡ some v
      → same m.role (codes "user") ≡ true
      → translate_user_message trim_space unmarshal_text unmarshal_parts valid m
        ≡ simple_anthropic (record { role = m.role; content = v })
  unfolding translate_user_message
  user-simple m v e h r = λ i. record {
    role = sym ((same_iff m.role (codes "user")).0 r) i;
    content = user_content-simple m.content v _ e h i;
  }

  assistant-simple :
      (m : RichMessage) (v : Bytes)
      → decode_openai_message_content unmarshal_text unmarshal_parts trim_space m.content
        ≡ some (string_content v)
      → is_empty m.tool_calls ≡ true
      → same m.role (codes "assistant") ≡ true
      → translate_assistant_message trim_space unmarshal_text unmarshal_parts valid m
        ≡ simple_anthropic (record { role = m.role; content = v })
  unfolding translate_assistant_message content_as_string decoded_text text_only
  assistant-simple m v e h r =
      ap (with_role (codes "assistant")) (if_content (is_empty m.tool_calls) _ _ v h e)
      ∙ ap (λ role. with_role role (text_content v))
          (sym ((same_iff m.role (codes "assistant")).0 r))

  -- A message that is no system prompt.
  general_role :
      (m : RichMessage) (v system : Bytes) (messages : List AnthropicSimpleMessage) (acc' : Acc)
      → decode_openai_message_content unmarshal_text unmarshal_parts trim_space m.content
        ≡ some (string_content v)
      → raw_message_as_simple_string unmarshal_text m.content ≡ some v
      → is_empty m.tool_calls ≡ true
      → (if same m.role (codes "user") || same m.role (codes "assistant")
          then some (system, messages ++ record { role = m.role; content = v } ∷ [])
          else none)
        ≡ some acc'
      → (if same m.role (codes "tool")
          then (
            system,
            map simple_anthropic messages
                ++ translate_tool_result_message trim_space unmarshal_text unmarshal_parts valid m
                  ∷ [],
          )
          else if same m.role (codes "assistant")
          then (
            system,
            map simple_anthropic messages
                ++ translate_assistant_message trim_space unmarshal_text unmarshal_parts valid m
                  ∷ [],
          )
          else (
            system,
            map simple_anthropic messages
                ++ translate_user_message trim_space unmarshal_text unmarshal_parts valid m ∷ [],
          ))
        ≡ in_general acc'
  general_role m v system messages acc' e h calls s =
      let message : AnthropicSimpleMessage = record { role = m.role; content = v } in
      elim (Bool-cases (same m.role (codes "user"))) [
        | inl u ↦
            if-false _ _ _ (other_role m.role (codes "user") (codes "tool") u user_no_tool)
            ∙ if-false _ _ _
                (other_role m.role (codes "user") (codes "assistant") u user_no_assistant)
            ∙ ap (λ x. (system, map simple_anthropic messages ++ x ∷ [])) (user-simple m v e h u)
            ∙ ap (λ xs. (system, xs)) (sym (map-add messages message))
            ∙ ap in_general (
                some-inj (system, messages ++ message ∷ []) acc'
                  (sym (if-true _ _ _ (or-first _ _ u)) ∙ s))
        | inr no_user ↦ elim (Bool-cases (same m.role (codes "assistant"))) [
          | inl a ↦
              if-false _ _ _
                (other_role m.role (codes "assistant") (codes "tool") a assistant_no_tool)
              ∙ if-true _ _ _ a
              ∙ ap (λ x. (system, map simple_anthropic messages ++ x ∷ []))
                  (assistant-simple m v e calls a)
              ∙ ap (λ xs. (system, xs)) (sym (map-add messages message))
              ∙ ap in_general (
                  some-inj (system, messages ++ message ∷ []) acc'
                    (sym (if-true _ _ _ (or-second _ _ a)) ∙ s))
          | inr no_assistant ↦
              elim (no_some acc'
                (sym (if-false _ _ _ (or-neither _ _ no_user no_assistant)) ∙ s)) [ ]
        ]
      ]

  -- One message, in both loops.
  pub message-agree :
      (m : RichMessage) (v : Bytes) (ms : List RichMessage) (acc acc' : Acc)
      → decode_openai_message_content unmarshal_text unmarshal_parts trim_space m.content
        ≡ some (string_content v)
      → raw_message_as_simple_string unmarshal_text m.content ≡ some v
      → is_empty m.tool_calls ≡ true
      → simple_message m (some v) acc ≡ some acc'
      → over_messages trim_space unmarshal_text unmarshal_parts valid (m ∷ ms) (in_general acc)
        ≡ over_messages trim_space unmarshal_text unmarshal_parts valid ms (in_general acc')
  unfolding over_messages simple_message content_as_string decoded_text text_only
  message-agree m v ms (system, messages) acc' e h calls s =
      ap (over_messages trim_space unmarshal_text unmarshal_parts valid ms)
        (elim (Bool-cases (same m.role (codes "system"))) [
          | inl is_system ↦
              if-true _ _ _ is_system
              ∙ ap (λ o. (decoded_text o, map simple_anthropic messages)) e
              ∙ ap in_general (some-inj (v, messages) acc' (sym (if-true _ _ _ is_system) ∙ s))
          | inr no_system ↦
              if-false _ _ _ no_system
              ∙ general_role m v system messages acc' e h calls (sym (if-false _ _ _ no_system) ∙ s)
        ])
