-- ===== src/Adapter/Response/Written.antt =====
-- The parts of a response of the provider, as they are written without white space, through the
-- parsers of internal/adapter/anthropic_response_fast.go.
use strait.Base.{
  ℕ, zero, suc, ◌≤◌, Bool, true, false, Option, List, [], ◌∷◌, ◌++◌, append-nil, append_assoc,
  Bytes, codes, same, length, length-append, if◌then◌else◌, ℤ, pos, ◌≡◌, refl, sym, ap, ◌∙◌, arith,
  ok, ◌>>=◌,
}
use strait.Adapter.Response.Lexer.{is_adapter_json_digit, skip_adapter_json_whitespace}
use strait.Adapter.Response.Skip.{
  then_next, items_loop, read_items, skip_adapter_json_value, skip_switch, skip_text,
}
use strait.Adapter.Response.Parse.{
  TextBlock, ContentText, UsageCounts, add_block, skip_member, block_member, check_block,
  parse_anthropic_text_block, content_item, content_text, parse_anthropic_text_content_array,
  usage_member, check_usage, parse_anthropic_usage_object,
}
use strait.Adapter.Response.Texts.{
  Says, Counts, scan_adapter_json_string-Says, scan_adapter_json_int-Counts, skip_whitespace-Counts,
  item-read, read_items-lem, member-more, member-last, read_members-lem,
}

-- A text block, with what is behind it.
abbrev written_block : Bytes → Bytes → Bytes
written_block raw rest = codes "{\"type\":\"text\",\"text\":\"" ++ (raw ++ (codes "\"}" ++ rest))

abbrev more_blocks : List Bytes → Bytes → Bytes
more_blocks [] rest = codes "]" ++ rest
more_blocks (raw ∷ raws) rest = codes "," ++ written_block raw (more_blocks raws rest)

abbrev pub written_blocks : List Bytes → Bytes → Bytes
written_blocks [] rest = codes "[]" ++ rest
written_blocks (raw ∷ raws) rest = codes "[" ++ written_block raw (more_blocks raws rest)

abbrev pub written_usage : Bytes → Bytes → Bytes → Bytes
written_usage input output rest =
    codes "{\"input_tokens\":"
    ++ (input ++ (codes ",\"output_tokens\":" ++ (output ++ (codes "}" ++ rest))))

abbrev pub concatenated : List Bytes → Bytes
concatenated [] = []
concatenated (v ∷ vs) = v ++ concatenated vs

abbrev pub AllSay : (Bytes → Option Bytes) → List Bytes → List Bytes → Type 0
AllSay unquote [] [] = Unit
AllSay unquote (raw ∷ raws) (v ∷ values) = Says unquote raw v × AllSay unquote raws values
AllSay unquote _ _ = ⊥

length-more_blocks :
    (raws : List Bytes) (rest : Bytes) → length raws ≤ length (more_blocks raws rest)
length-more_blocks [] rest = omega arith
length-more_blocks (raw ∷ raws) rest =
    omega (
      arith,
      length-more_blocks raws rest,
      length-append raw (codes "\"}" ++ more_blocks raws rest),
    )

abbrev no_text : ContentText
no_text = record { text = []; builder = []; multi = false }

abbrev added : ContentText → List Bytes → ContentText
added t [] = t
added t (v ∷ values) = added (add_block v t) values

content_text-add_block :
    (v text builder : Bytes) (multi : Bool)
    → content_text (add_block v (record { text = text; builder = builder; multi = multi }))
      ≡ (if multi then builder else text) ++ v
unfolding content_text add_block
content_text-add_block v text builder true = refl
content_text-add_block v [] builder false = refl
content_text-add_block v (c ∷ text) builder false = refl

content_text-added :
    (t : ContentText) (values : List Bytes)
    → content_text (added t values) ≡ content_text t ++ concatenated values
unfolding content_text
content_text-added t [] = sym (append-nil (content_text t))
content_text-added t (v ∷ values) =
    content_text-added (add_block v t) values
    ∙ ap (λ x. x ++ concatenated values) (content_text-add_block v t.text t.builder t.multi)
    ∙ append_assoc (content_text t) v (concatenated values)

module _ (unquote : Bytes → Option Bytes) (atoi : Bytes → Option ℤ) (fuel : ℕ) where
  pub skip_member-text :
      {A : Type 0} (a : A) (raw value rest : Bytes)
      → Says unquote raw value
      → skip_member unquote atoi (suc fuel) a (b'"' ∷ (raw ++ b'"' ∷ rest)) ≡ ok (a, rest)
  unfolding skip_member skip_adapter_json_value skip_switch skip_text skip_adapter_json_whitespace
  skip_member-text a raw value rest h =
      rw (scan_adapter_json_string-Says unquote raw value rest h) refl

  block_type-read :
      (rest : Bytes) (b : TextBlock)
      → block_member unquote atoi fuel (codes "type") b (codes "\"text\"" ++ rest)
        ≡ ok (record b { block_type = codes "text" }, rest)
  unfolding block_member same
  block_type-read rest b =
      rw (scan_adapter_json_string-Says unquote (codes "text") (codes "text") rest (refl, refl))
        refl

  block_text-read :
      (raw value rest : Bytes) (b : TextBlock)
      → Says unquote raw value
      → block_member unquote atoi fuel (codes "text") b (b'"' ∷ (raw ++ b'"' ∷ rest))
        ≡ ok (record b { block_text = value }, rest)
  unfolding block_member same
  block_text-read raw value rest b h =
      rw (scan_adapter_json_string-Says unquote raw value rest h) refl

  parse_block-written :
      (raw value rest : Bytes)
      → Says unquote raw value
      → parse_anthropic_text_block unquote atoi fuel (written_block raw rest) ≡ ok (value, rest)
  unfolding parse_anthropic_text_block check_block same skip_adapter_json_whitespace
  parse_block-written raw value rest h =
      let start : TextBlock = record { block_type = []; block_text = [] } in
      let typed : TextBlock = record { block_type = codes "text"; block_text = [] } in
      ap (λ m. do b ← m; check_block b)
        (read_members-lem unquote (block_member unquote atoi fuel) start _ _ (
          member-more unquote _ (codes "type") (codes "type") _ start typed _ _ _ (refl, refl) refl
            (block_type-read _ start)
            (member-last unquote _ (codes "text") (codes "text") _ typed _ _ _ (refl, refl) refl
              (block_text-read raw value (b'}' ∷ rest) typed h))))

  content_item-written :
      (t : ContentText) (raw value rest : Bytes)
      → Says unquote raw value
      → content_item unquote atoi fuel t (written_block raw rest) ≡ ok (add_block value t, rest)
  unfolding content_item
  content_item-written t raw value rest h =
      ap (λ m. do (block_text, next) ← m; ok (add_block block_text t, next))
        (parse_block-written raw value rest h)

  more_blocks-read :
      (k : ℕ) (t : ContentText) (raws values : List Bytes) (rest : Bytes)
      → AllSay unquote raws values
      → length raws ≤ k
      → then_next b']'
          (items_loop (content_item unquote atoi fuel) k)
          t
          (skip_adapter_json_whitespace (more_blocks raws rest))
        ≡ ok (added t values, rest)
  unfolding then_next skip_adapter_json_whitespace
  more_blocks-read k t [] [] rest h l = refl
  more_blocks-read zero t (raw ∷ raws) (v ∷ values) rest h l = ground arith
  more_blocks-read (suc k) t (raw ∷ raws) (v ∷ values) rest (h, hs) l =
      item-read (content_item unquote atoi fuel) k b'{' t (add_block v t) _ (more_blocks raws rest)
        refl refl (content_item-written t raw v (more_blocks raws rest) h)
      ∙ more_blocks-read k (add_block v t) raws values rest hs (omega arith)
  more_blocks-read k t [] (v ∷ values) rest h l = elim h [ ]
  more_blocks-read k t (raw ∷ raws) [] rest h l = elim h [ ]

  pub content_array-written :
      (raws values : List Bytes) (rest : Bytes)
      → AllSay unquote raws values
      → parse_anthropic_text_content_array unquote atoi fuel (written_blocks raws rest)
        ≡ ok (concatenated values, rest)
  unfolding parse_anthropic_text_content_array read_items skip_adapter_json_whitespace
  content_array-written [] [] rest h = refl
  content_array-written [] (v ∷ values) rest h = elim h [ ]
  content_array-written (raw ∷ raws) [] rest h = elim h [ ]
  content_array-written (raw ∷ raws) (v ∷ values) rest (h, hs) =
      let block = written_block raw (more_blocks raws rest) in
      ap (λ m. do (t, next) ← m; ok (content_text t, next))
        (read_items-lem (content_item unquote atoi fuel) no_text block
          (ok (added no_text (v ∷ values), rest))
          (item-read (content_item unquote atoi fuel) (length block) b'{' no_text
              (add_block v no_text) _ (more_blocks raws rest) refl refl
              (content_item-written no_text raw v (more_blocks raws rest) h)
            ∙ more_blocks-read (length block) (add_block v no_text) raws values rest hs (
                omega (
                  arith,
                  length-more_blocks raws rest,
                  length-append raw (codes "\"}" ++ more_blocks raws rest),
                ))))
      ∙ ap (λ x. ok (x, rest)) (content_text-added no_text (v ∷ values))

  input_tokens-read :
      (num : Bytes) (v : ℤ) (rest : Bytes) (u : UsageCounts)
      → Counts atoi num v
      → usage_member unquote atoi fuel (codes "input_tokens") u (num ++ b',' ∷ rest)
        ≡ ok (record u { input = v; have_input = true }, b',' ∷ rest)
  unfolding usage_member same is_adapter_json_digit
  input_tokens-read num v rest u h =
      rw (scan_adapter_json_int-Counts atoi num v b',' rest h refl) refl

  output_tokens-read :
      (num : Bytes) (v : ℤ) (rest : Bytes) (u : UsageCounts)
      → Counts atoi num v
      → usage_member unquote atoi fuel (codes "output_tokens") u (num ++ b'}' ∷ rest)
        ≡ ok (record u { output = v; have_output = true }, b'}' ∷ rest)
  unfolding usage_member same is_adapter_json_digit
  output_tokens-read num v rest u h =
      rw (scan_adapter_json_int-Counts atoi num v b'}' rest h refl) refl

  pub usage-written :
      (input_num output_num : Bytes) (input output : ℤ) (rest : Bytes)
      → Counts atoi input_num input
      → Counts atoi output_num output
      → parse_anthropic_usage_object unquote atoi fuel (written_usage input_num output_num rest)
        ≡ ok
            (record { input = input; output = output; have_input = true; have_output = true }, rest)
  unfolding parse_anthropic_usage_object check_usage
  usage-written input_num output_num input output rest h k =
      let start : UsageCounts = record {
        input = pos 0;
        output = pos 0;
        have_input = false;
        have_output = false;
      } in
      let half : UsageCounts = record {
        input = input;
        output = pos 0;
        have_input = true;
        have_output = false;
      } in
      ap (λ m. do u ← m; check_usage u)
        (read_members-lem unquote (usage_member unquote atoi fuel) start _ _ (
          member-more unquote _ (codes "input_tokens") (codes "input_tokens") _ start half _ _ _
            (refl, refl) (skip_whitespace-Counts atoi input_num input _ h)
            (input_tokens-read input_num input _ start h)
            (member-last unquote _ (codes "output_tokens") (codes "output_tokens") _ half _ _ _
              (refl, refl) (skip_whitespace-Counts atoi output_num output _ k)
              (output_tokens-read output_num output rest half k))))
