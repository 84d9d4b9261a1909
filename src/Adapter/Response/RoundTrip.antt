-- ===== src/Adapter/Response/RoundTrip.antt =====
-- A response of the provider, as it is written without white space, through
-- `translateAnthropicTextOnlyToOpenAI` of internal/adapter/anthropic_response_fast.go.
use strait.Base.{
  ℕ, suc, ◌-◌, ◌≤◌, true, false, Option, List, [], ◌∷◌, ◌++◌, Bytes, codes, contains, ltb, same,
  length, length-append, subst, ℤ, ◌≡◌, refl, ap, ◌∙◌, arith, ok, ◌>>=◌,
}
use strait.Adapter.Response.Lexer.{
  skip_adapter_json_whitespace, scan_adapter_json_string_or_null, skip_adapter_json_literal,
  match_adapter_literal,
}
use strait.Adapter.Response.Skip.{members_loop, read_members, skip_adapter_json_value, skip_switch}
use strait.Adapter.Response.Parse.{
  Parsed, TextOnlyResponse, nothing_parsed, skip_member, response_member, check_response,
  parse_anthropic_text_only_response,
}
use strait.Adapter.Response.Completion.{written_completion}
use strait.Adapter.Response.Translate.{
  text_only_completion, translate_anthropic_text_only_to_openai,
}
use strait.Adapter.Response.Texts.{
  Says, Counts, scan_adapter_json_string-Says, member-more, member-last, read_members-lem,
}
use strait.Adapter.Response.Written.{
  written_blocks, written_usage, concatenated, AllSay, skip_member-text, content_array-written,
  usage-written,
}

-- The raw texts of a response.
pub record Sent : Type 0 where
  pub raw_id : Bytes
  pub raw_model : Bytes
  pub raw_stop : Bytes
  pub raw_blocks : List Bytes
  pub input_num : Bytes
  pub output_num : Bytes

abbrev behind_id : Sent → Bytes → Bytes
behind_id r rest =
    codes "\",\"type\":\"message\",\"role\":\"assistant\",\"model\":\""
    ++ (r.raw_model
        ++ (codes "\",\"content\":"
            ++ written_blocks r.raw_blocks (
                codes ",\"stop_reason\":\""
                ++ (r.raw_stop
                    ++ (codes "\",\"stop_sequence\":null,\"usage\":"
                        ++ written_usage r.input_num r.output_num (codes "}" ++ rest))))))

-- Behind the opening brace.
abbrev written_members : Sent → Bytes → Bytes
written_members r rest = codes "\"id\":\"" ++ (r.raw_id ++ behind_id r rest)

abbrev pub written_response : Sent → Bytes → Bytes
written_response r rest = codes "{" ++ written_members r rest

-- The raw texts say a response: its text is that of the blocks, one behind the other.
abbrev pub Describes :
    (Bytes → Option Bytes) → (Bytes → Option ℤ) → Sent → List Bytes → TextOnlyResponse → Type 0
Describes unquote atoi sent values r =
    Says unquote sent.raw_id r.id
    × Says unquote sent.raw_model r.model
    × Says unquote sent.raw_stop r.stop_reason
    × AllSay unquote sent.raw_blocks values
    × (concatenated values ≡ r.text)
    × Counts atoi sent.input_num r.input_tokens
    × Counts atoi sent.output_num r.output_tokens

abbrev all_parsed : TextOnlyResponse → Bytes → Parsed
all_parsed r text = record {
  resp = record r { text = text };
  have_id = true;
  have_model = true;
  have_content = true;
  have_usage = true;
}

skip_whitespace-blocks :
    (raws : List Bytes) (rest : Bytes)
    → skip_adapter_json_whitespace (written_blocks raws rest) ≡ written_blocks raws rest
unfolding skip_adapter_json_whitespace
skip_whitespace-blocks [] rest = refl
skip_whitespace-blocks (raw ∷ raws) rest = refl

enough_rounds : (n : ℕ) → 7 ≤ n → suc (suc (suc (suc (suc (suc (suc (suc (n - 7)))))))) ≡ suc n
enough_rounds n h = omega arith

not_shorter : (n : ℕ) → ltb (suc (suc (suc (suc n)))) 4 ≡ false
not_shorter n = ground arith

module _ (unquote : Bytes → Option Bytes) (atoi : Bytes → Option ℤ) where
  skip_member-null :
      (fuel : ℕ) {A : Type 0} (a : A) (rest : Bytes)
      → skip_member unquote atoi (suc fuel) a (codes "null" ++ rest) ≡ ok (a, rest)
  unfolding skip_member skip_adapter_json_value skip_switch skip_adapter_json_literal
      match_adapter_literal skip_adapter_json_whitespace
  skip_member-null fuel a rest = rw (not_shorter (length rest)) refl

  id-read :
      (fuel : ℕ) (raw value rest : Bytes) (p : Parsed)
      → Says unquote raw value
      → response_member unquote atoi fuel (codes "id") p (b'"' ∷ (raw ++ b'"' ∷ rest))
        ≡ ok (record p { resp = record p.resp { id = value }; have_id = true }, rest)
  unfolding response_member same
  id-read fuel raw value rest p h = rw (scan_adapter_json_string-Says unquote raw value rest h) refl

  model-read :
      (fuel : ℕ) (raw value rest : Bytes) (p : Parsed)
      → Says unquote raw value
      → response_member unquote atoi fuel (codes "model") p (b'"' ∷ (raw ++ b'"' ∷ rest))
        ≡ ok (record p { resp = record p.resp { model = value }; have_model = true }, rest)
  unfolding response_member same
  model-read fuel raw value rest p h =
      rw (scan_adapter_json_string-Says unquote raw value rest h) refl

  stop_reason-read :
      (fuel : ℕ) (raw value rest : Bytes) (p : Parsed)
      → Says unquote raw value
      → response_member unquote atoi fuel (codes "stop_reason") p (b'"' ∷ (raw ++ b'"' ∷ rest))
        ≡ ok (record p { resp = record p.resp { stop_reason = value } }, rest)
  unfolding response_member same scan_adapter_json_string_or_null
  stop_reason-read fuel raw value rest p h =
      rw (scan_adapter_json_string-Says unquote raw value rest h) refl

  content-read :
      (fuel : ℕ) (raws values : List Bytes) (rest : Bytes) (p : Parsed)
      → AllSay unquote raws values
      → response_member unquote atoi fuel (codes "content") p (written_blocks raws rest)
        ≡ ok (
          record p { resp = record p.resp { text = concatenated values }; have_content = true },
          rest,
        )
  unfolding response_member same
  content-read fuel raws values rest p h =
      ap
        (λ m. do
          (value, next) ← m
          ok (record p { resp = record p.resp { text = value }; have_content = true }, next))
        (content_array-written unquote atoi fuel raws values rest h)

  usage-read :
      (fuel : ℕ) (input_num output_num : Bytes) (input output : ℤ) (rest : Bytes) (p : Parsed)
      → Counts atoi input_num input
      → Counts atoi output_num output
      → response_member unquote atoi fuel
          (codes "usage")
          p
          (written_usage input_num output_num rest)
        ≡ ok (
          record p {
            resp = record p.resp { input_tokens = input; output_tokens = output };
            have_usage = true;
          },
          rest,
        )
  unfolding response_member same
  usage-read fuel input_num output_num input output rest p h k =
      ap
        (λ m. do
          (value, next) ← m
          ok (
            record p {
              resp = record p.resp { input_tokens = value.input; output_tokens = value.output };
              have_usage = true;
            },
            next,
          ))
        (usage-written unquote atoi fuel input_num output_num input output rest h k)

  members-read :
      (fuel k : ℕ) (sent : Sent) (values : List Bytes) (r : TextOnlyResponse) (rest : Bytes)
      → Describes unquote atoi sent values r
      → members_loop unquote
          (response_member unquote atoi (suc fuel))
          (suc (suc (suc (suc (suc (suc (suc (suc k))))))))
          nothing_parsed
          (written_members sent rest)
        ≡ ok (all_parsed r (concatenated values), rest)
  unfolding response_member same skip_adapter_json_whitespace
  members-read fuel k sent values r rest
        (h_id, h_model, h_stop, h_blocks, h_text, h_input, h_output) =
      let member = response_member unquote atoi (suc fuel) in
      let p1 : Parsed = record nothing_parsed {
        resp = record nothing_parsed.resp { id = r.id };
        have_id = true;
      } in
      let p2 : Parsed = record p1 {
        resp = record p1.resp { model = r.model };
        have_model = true;
      } in
      let p3 : Parsed = record p2 {
        resp = record p2.resp { text = concatenated values };
        have_content = true;
      } in
      let p4 : Parsed = record p3 { resp = record p3.resp { stop_reason = r.stop_reason } } in
      let p5 : Parsed = all_parsed r (concatenated values) in
      member-more unquote member (codes "id") (codes "id") _ nothing_parsed p1 _ _ _ (refl, refl)
        refl (id-read (suc fuel) sent.raw_id r.id _ nothing_parsed h_id)
        (member-more unquote member (codes "type") (codes "type") _ p1 p1 _ _ _ (refl, refl) refl
          (skip_member-text unquote atoi fuel p1 (codes "message") (codes "message") _ (refl, refl))
          (member-more unquote member (codes "role") (codes "role") _ p1 p1 _ _ _ (refl, refl) refl
            (skip_member-text unquote atoi fuel p1 (codes "assistant") (codes "assistant") _
              (refl, refl))
            (member-more unquote member (codes "model") (codes "model") _ p1 p2 _ _ _ (refl, refl)
              refl (model-read (suc fuel) sent.raw_model r.model _ p1 h_model)
              (member-more unquote member (codes "content") (codes "content") _ p2 p3 _ _ _
                (refl, refl) (skip_whitespace-blocks sent.raw_blocks _)
                (content-read (suc fuel) sent.raw_blocks values _ p2 h_blocks)
                (member-more unquote member (codes "stop_reason") (codes "stop_reason") _ p3 p4 _ _
                  _ (refl, refl) refl
                  (stop_reason-read (suc fuel) sent.raw_stop r.stop_reason _ p3 h_stop)
                  (member-more unquote member (codes "stop_sequence") (codes "stop_sequence") _ p4
                    p4 _ _ _ (refl, refl) refl (skip_member-null fuel p4 _)
                    (member-last unquote member (codes "usage") (codes "usage") _ p4 p5 _ rest
                      (refl, refl) refl
                      (usage-read (suc fuel) sent.input_num sent.output_num r.input_tokens
                        r.output_tokens _ p4 h_input h_output))))))))

  members-written :
      (fuel : ℕ) (sent : Sent) (values : List Bytes) (r : TextOnlyResponse) (rest : Bytes)
      → Describes unquote atoi sent values r
      → read_members unquote
          (response_member unquote atoi (suc fuel))
          nothing_parsed
          (written_response sent rest)
        ≡ ok (all_parsed r (concatenated values), rest)
  members-written fuel sent values r rest h =
      let s = written_members sent rest in
      read_members-lem unquote (response_member unquote atoi (suc fuel)) nothing_parsed s _ (
        subst
          (λ n.
            members_loop unquote (response_member unquote atoi (suc fuel)) n nothing_parsed s
            ≡ ok (all_parsed r (concatenated values), rest))
          (enough_rounds (length s)
            (omega (arith, length-append sent.raw_id (behind_id sent rest))))
          (members-read fuel (length s - 7) sent values r rest h))

  all_parsed-lem :
      (r : TextOnlyResponse) (text rest : Bytes)
      → text ≡ r.text
      → check_response (all_parsed r text, rest) ≡ ok r
  unfolding check_response
  all_parsed-lem r text rest h = λ i. ok (record {
    id = r.id;
    model = r.model;
    text = h i;
    stop_reason = r.stop_reason;
    input_tokens = r.input_tokens;
    output_tokens = r.output_tokens;
  })

  pub parse-written_response :
      (sent : Sent) (values : List Bytes) (r : TextOnlyResponse) (rest : Bytes)
      → Describes unquote atoi sent values r
      → parse_anthropic_text_only_response unquote atoi (written_response sent rest) ≡ ok r
  unfolding parse_anthropic_text_only_response skip_adapter_json_whitespace
  parse-written_response sent values r rest
        (h_id, h_model, h_stop, h_blocks, h_text, h_input, h_output) =
      ap (λ m. do p ← m; check_response p)
        (members-written (length (written_response sent rest)) sent values r rest
          (h_id, h_model, h_stop, h_blocks, h_text, h_input, h_output))
      ∙ all_parsed-lem r (concatenated values) rest h_text

  -- A text response that is written without white space, with the fields in the order of the
  -- provider, any number of text blocks, raw strings that unquote to values and numerals that atoi
  -- reads, and without the markers of a tool or an error, is translated to the completion with
  -- these values and with the texts of the blocks one behind the other, whatever follows it.
  pub translate-written_response :
      (quote : Bytes → Bytes) (created : ℕ) (sent : Sent) (values : List Bytes)
      (r : TextOnlyResponse) (rest : Bytes)
      → Describes unquote atoi sent values r
      → contains (written_response sent rest) (codes "\"tool_use\"") ≡ false
      → contains (written_response sent rest) (codes "\"error\"") ≡ false
      → translate_anthropic_text_only_to_openai quote unquote atoi created
          (written_response sent rest)
        ≡ ok (written_completion quote created r)
  unfolding translate_anthropic_text_only_to_openai text_only_completion
  translate-written_response quote created sent values r rest h no_tool no_error =
      rw (no_tool, no_error, parse-written_response sent values r rest h) refl
