-- ===== src/Adapter/Tool/Agreement.antt =====
-- `translateAnthropicToolUseToOpenAI` of internal/adapter/anthropic_response_tool_fast.go against the
-- general path of internal/adapter/anthropic_provider.go.
use strait.Base.{
  ℕ, zero, suc, ◌+◌, Bool, true, false, not, ◌&&◌, ◌||◌, Option, none, some, List, [], ◌∷◌, ◌++◌,
  append-nil, append_assoc, Bytes, codes, same, same_iff, contains, length, length-append, ltb,
  ◌==◌, if◌then◌else◌, pos, ◌≡◌, refl, sym, ap, ◌∙◌, subst, inl, inr, Bool-cases, arith,
}
use strait.Adapter.Json.{
  joined, append_int, append_json_string_field, append_json_const_string_field,
  append_json_int_field,
}
use strait.Adapter.Tool.Quoted.{append_quoted_json_bytes, normalize_json_raw_message}
use strait.Adapter.Tool.Translate.{
  ToolUseContentRef, ToolUseResponse, count_blocks, write_texts, tool_call_text, write_tool_calls,
  tool_use_completion, with_counts, with_response, translate_anthropic_tool_use_to_openai,
}
use strait.Adapter.Tool.General.{
  ToolCall, ChatCompletionResponse, add_content, over_content, general_completion,
}

abbrev is_text : ToolUseContentRef → Bool
is_text b = same b.block_type (codes "text")

abbrev is_tool : ToolUseContentRef → Bool
is_tool b = same b.block_type (codes "tool_use")

-- Every block is a text or a use of a tool.
abbrev all_known : List ToolUseContentRef → Bool
all_known [] = true
all_known (b ∷ bs) = (is_text b || is_tool b) && all_known bs

abbrev uses_tool : List ToolUseContentRef → Bool
uses_tool [] = false
uses_tool (b ∷ bs) = is_tool b || uses_tool bs

abbrev call_of : ToolUseContentRef → ToolCall
call_of b = record {
  call_id = b.block_id;
  call_name = b.name;
  arguments = normalize_json_raw_message b.input;
}

abbrev calls : List ToolUseContentRef → List ToolCall
calls [] = []
calls (b ∷ bs) = if is_tool b then call_of b ∷ calls bs else calls bs

text_no_tool : (b : ToolUseContentRef) → is_text b ≡ true → is_tool b ≡ false
unfolding same
text_no_tool b h =
    subst (λ t. same t (codes "tool_use") ≡ false)
      (sym ((same_iff b.block_type (codes "text")).0 h)) refl

over_content-lem :
    (bs : List ToolUseContentRef) (text : Bytes) (cs : List ToolCall)
    → over_content normalize_json_raw_message bs (text, cs)
      ≡ (text ++ write_texts bs, cs ++ calls bs)
unfolding over_content add_content write_texts
over_content-lem [] text cs = rw (append-nil text, append-nil cs) refl
over_content-lem (b ∷ bs) text cs = elim (Bool-cases (is_text b)) [
  | inl e ↦
      rw (e, text_no_tool b e)
        (over_content-lem bs (text ++ b.text) cs
          ∙ ap (λ x. (x, cs ++ calls bs)) (append_assoc text b.text (write_texts bs)))
  | inr e ↦ elim (Bool-cases (is_tool b)) [
    | inl k ↦
        rw (e, k)
          (over_content-lem bs text (cs ++ call_of b ∷ [])
            ∙ ap (λ x. (text ++ write_texts bs, x)) (append_assoc cs (call_of b ∷ []) (calls bs)))
    | inr k ↦ rw (e, k) (over_content-lem bs text cs)
  ]
]

abbrev count_tools : List ToolUseContentRef → ℕ
count_tools [] = 0
count_tools (b ∷ bs) = if is_tool b then suc (count_tools bs) else count_tools bs

if-counts :
    (b : Bool) (x x' y y' : ℕ)
    → x ≡ x'
    → y ≡ y'
    → if◌then◌else◌ {A = Option (ℕ × ℕ)} b (some (x, y)) none
      ≡ if◌then◌else◌ {A = Option (ℕ × ℕ)} b (some (x', y')) none
if-counts true x x' y y' h k = λ i. some (h i, k i)
if-counts false x x' y y' h k = refl

count_blocks-lem :
    (bs : List ToolUseContentRef) (l n : ℕ)
    → count_blocks l n bs
      ≡ (if all_known bs then some (l + length (write_texts bs), n + count_tools bs) else none)
unfolding count_blocks write_texts
count_blocks-lem [] l n = if-counts true _ _ _ _ (omega arith) (omega arith)
count_blocks-lem (b ∷ bs) l n = elim (Bool-cases (is_text b)) [
  | inl e ↦
      rw (e, text_no_tool b e, count_blocks)
        (count_blocks-lem bs (l + length b.text) n
          ∙ if-counts (all_known bs) _ _ _ _ (omega (arith, length-append b.text (write_texts bs)))
              refl)
  | inr e ↦ elim (Bool-cases (is_tool b)) [
    | inl k ↦
        rw (e, k, count_blocks)
          (count_blocks-lem bs l (suc n) ∙ if-counts (all_known bs) _ _ _ _ refl (omega arith))
    | inr k ↦ rw (e, k, count_blocks) refl
  ]
]

counted_from_zero :
    (bs : List ToolUseContentRef)
    → count_blocks 0 0 bs
      ≡ (if all_known bs then some (length (write_texts bs), count_tools bs) else none)
counted_from_zero bs =
    count_blocks-lem bs 0 0 ∙ if-counts (all_known bs) _ _ _ _ (omega arith) (omega arith)

ltb_pos : (k : ℕ) → ltb 0 (suc k) ≡ true
ltb_pos k = ground arith

-- The test `textLen > 0` makes no difference.
texts_guard : (s : Bytes) → (if ltb 0 (length s) then s else []) ≡ s
texts_guard [] = refl
texts_guard (c ∷ s) = rw (ltb_pos (length s)) refl

module _ (quote : Bytes → Bytes) where
  abbrev call_text : ToolCall → Bytes
  call_text c = joined (
      codes "{\"id\":"
      ∷ quote c.call_id
      ∷ codes ",\"type\":\"function\",\"function\":{\"name\":"
      ∷ quote c.call_name
      ∷ codes ",\"arguments\":"
      ∷ append_quoted_json_bytes [] c.arguments
      ∷ codes "}}"
      ∷ [])

  abbrev call_tails : List ToolCall → Bytes
  call_tails [] = []
  call_tails (c ∷ cs) = codes "," ++ (call_text c ++ call_tails cs)

  -- With commas between them.
  abbrev call_texts : List ToolCall → Bytes
  call_texts [] = []
  call_texts (c ∷ cs) = call_text c ++ call_tails cs

  write_tool_calls-tails :
      (k : ℕ) (bs : List ToolUseContentRef)
      → write_tool_calls quote (suc k) bs ≡ call_tails (calls bs)
  unfolding write_tool_calls tool_call_text
  write_tool_calls-tails k [] = refl
  write_tool_calls-tails k (b ∷ bs) = elim (Bool-cases (is_tool b)) [
    | inl e ↦
        rw (e, write_tool_calls, ltb_pos k)
          (ap (λ x. codes "," ++ (call_text (call_of b) ++ x)) (write_tool_calls-tails (suc k) bs))
    | inr e ↦ rw (e, write_tool_calls) (write_tool_calls-tails k bs)
  ]

  write_tool_calls-lem :
      (bs : List ToolUseContentRef) → write_tool_calls quote 0 bs ≡ call_texts (calls bs)
  unfolding write_tool_calls tool_call_text
  write_tool_calls-lem [] = refl
  write_tool_calls-lem (b ∷ bs) = elim (Bool-cases (is_tool b)) [
    | inl e ↦
        rw (e, write_tool_calls)
          (ap (λ x. call_text (call_of b) ++ x) (write_tool_calls-tails 0 bs))
    | inr e ↦ rw (e, write_tool_calls) (write_tool_calls-lem bs)
  ]

  -- A completion as JSON text.
  abbrev pub completion_text : ChatCompletionResponse → Bytes
  completion_text c = joined (
      codes "{"
      ∷ append_json_string_field quote (codes "id") c.id
      ∷ codes ","
      ∷ append_json_const_string_field (codes "object") (codes "chat.completion")
      ∷ codes ","
      ∷ append_json_int_field (codes "created") (pos c.created)
      ∷ codes ","
      ∷ append_json_string_field quote (codes "model") c.model
      ∷ codes ",\"choices\":[{\"index\":0,\"message\":{\"role\":\"assistant\",\"content\":"
      ∷ quote c.content
      ∷ codes ",\"tool_calls\":["
      ∷ call_texts c.tool_calls
      ∷ codes "]},\"finish_reason\":"
      ∷ quote c.finish_reason
      ∷ codes "}],\"usage\":{\"prompt_tokens\":"
      ∷ append_int c.prompt_tokens
      ∷ codes ",\"completion_tokens\":"
      ∷ append_int c.completion_tokens
      ∷ codes ",\"total_tokens\":"
      ∷ append_int c.total_tokens
      ∷ codes "}}"
      ∷ [])

  completion-lem :
      (created : ℕ) (r : ToolUseResponse)
      → tool_use_completion quote created r
          (write_texts r.content)
          (write_tool_calls quote 0 r.content)
        ≡ completion_text (general_completion normalize_json_raw_message created r)
  unfolding tool_use_completion general_completion
  completion-lem created r =
      rw (over_content-lem r.content [] [], write_tool_calls-lem r.content) refl

  -- What the fast path is to give, by the general path.
  abbrev fast_answer : ℕ → ToolUseResponse → Option Bytes
  fast_answer created r =
      if not r.has_error && (all_known r.content && uses_tool r.content)
      then some (completion_text (general_completion normalize_json_raw_message created r))
      else none

  abbrev pub expected_answer : ℕ → Bytes → Option ToolUseResponse → Option Bytes
  expected_answer created s none = none
  expected_answer created s (some r) =
      if contains s (codes "\"tool_use\"") then fast_answer created r else none

  with_counts-lem :
      (created : ℕ) (r : ToolUseResponse) (n : ℕ) (b : Bool)
      → not (n == 0) ≡ b
      → with_counts quote created r (some (length (write_texts r.content), n)) ≡ (
          if b
          then some (completion_text (general_completion normalize_json_raw_message created r))
          else none)
  unfolding with_counts
  with_counts-lem created r zero true h = ground arith
  with_counts-lem created r zero false h = refl
  with_counts-lem created r (suc n) true h =
      rw (texts_guard (write_texts r.content), completion-lem created r) refl
  with_counts-lem created r (suc n) false h = ground arith

  counted : (bs : List ToolUseContentRef) → not (count_tools bs == 0) ≡ uses_tool bs
  counted [] = refl
  counted (b ∷ bs) = elim (Bool-cases (is_tool b)) [
    | inl e ↦ rw e (ground arith)
    | inr e ↦ rw e (counted bs)
  ]

  with_response-lem :
      (created : ℕ) (r : ToolUseResponse)
      → with_response quote created (some r) ≡ fast_answer created r
  unfolding with_response with_counts general_completion
  with_response-lem created r = elim (Bool-cases r.has_error) [
    | inl e ↦ rw e refl
    | inr e ↦ elim (Bool-cases (all_known r.content)) [
      | inl k ↦
          rw (e, counted_from_zero r.content, k)
            (with_counts-lem created r (count_tools r.content) (uses_tool r.content)
              (counted r.content))
      | inr k ↦ rw (e, counted_from_zero r.content, k) refl
    ]
  ]

  decoded-lem :
      (o : Option ToolUseResponse) (created : ℕ) (b : Bool) (s : Bytes)
      → contains s (codes "\"tool_use\"") ≡ b
      → (if not b then none else with_response quote created o) ≡ expected_answer created s o
  unfolding with_response
  decoded-lem none created true s h = refl
  decoded-lem none created false s h = refl
  decoded-lem (some r) created true s h = rw h (with_response-lem created r)
  decoded-lem (some r) created false s h = rw h refl

  -- The fast translation of tools answers exactly when the data has the marker of a tool, is
  -- decoded without an error and has only texts and uses of tools, one of these at least; its
  -- answer is then the text of the completion that the general path builds, with the raw inputs as
  -- arguments, or null for none.
  pub translate_anthropic_tool_use_to_openai-expected :
      (unmarshal : Bytes → Option ToolUseResponse) (created : ℕ) (s : Bytes)
      → translate_anthropic_tool_use_to_openai quote unmarshal created s
        ≡ expected_answer created s (unmarshal s)
  unfolding translate_anthropic_tool_use_to_openai
  translate_anthropic_tool_use_to_openai-expected unmarshal created s =
      decoded-lem (unmarshal s) created (contains s (codes "\"tool_use\"")) s refl
