-- ===== src/Adapter/Response/Terminates.antt =====
-- `parseAnthropicTextOnlyResponse` of internal/adapter/anthropic_response_fast.go ends within the data.
use strait.Base.{
  ℕ, zero, suc, ◌≤◌, ◌<◌, Bool, true, false, ◌||◌, Option, [], ◌∷◌, arith, Bytes, codes, same,
  length, ◌==◌, if◌then◌else◌, ℤ, ok, fail, panic, exhausted, ◌>>=◌, PairBelow, PairBelow-mono,
  PairBelow-bind_pair, Threads,
}
use strait.Adapter.Response.Lexer.{Read, is_adapter_json_digit, skip_adapter_json_whitespace}
use strait.Adapter.Response.Skip.{skip_text, skip_int, skip_switch, skip_adapter_json_value}
use strait.Adapter.Response.Parse.{
  TextBlock, UsageCounts, skip_member, block_member, check_block, parse_anthropic_text_block,
  content_item, parse_anthropic_text_content_array, usage_member, check_usage,
  parse_anthropic_usage_object, response_member, check_response, parse_anthropic_text_only_response,
}
use strait.Adapter.Response.Translate.{
  text_only_completion, translate_anthropic_text_only_to_openai,
}
use strait.Adapter.Response.Total.{
  length-skip_adapter_json_whitespace, skip_literal-PairBelow, scan_string-PairBelow,
  scan_string_or_null-PairBelow, scan_int-PairBelow,
}
use strait.Adapter.Response.Loops.{read_items-PairBelow, read_members-PairBelow}

if-PairBelow :
    {A : Type 0} (n : ℕ) (b : Bool) (p q : Read (A × Bytes))
    → PairBelow n p
    → PairBelow n q
    → PairBelow n (if b then p else q)
if-PairBelow n true p q h k = h
if-PairBelow n false p q h k = k

-- What is done with a value after it is read.
then-PairBelow :
    {A B : Type 0} (n : ℕ) (m : Read (A × Bytes)) (f : A → B)
    → PairBelow n m
    → PairBelow n (do (a, next) ← m; ok (f a, next))
then-PairBelow n m f h = PairBelow-bind_pair n n m _ h λ a rest l. l

check_block-PairBelow :
    (n : ℕ) (b : TextBlock) (s : Bytes) → length s < n → PairBelow n (check_block (b, s))
unfolding check_block
check_block-PairBelow n b s l = if-PairBelow n _ (fail _) (ok (b.block_text, s)) tt l

check_usage-PairBelow :
    (n : ℕ) (u : UsageCounts) (s : Bytes) → length s < n → PairBelow n (check_usage (u, s))
unfolding check_usage
check_usage-PairBelow n u s l = if-PairBelow n _ (fail _) (ok (u, s)) tt l

module _ (unquote : Bytes → Option Bytes) (atoi : Bytes → Option ℤ) where
  skip_switch-PairBelow :
      (skip : Bytes → Read (Unit × Bytes)) (s : Bytes)
      → ((t : Bytes) → length t < length s → PairBelow (length t) (skip t))
      → PairBelow (length s) (skip_switch unquote atoi skip s)
  unfolding skip_switch skip_text skip_int
  skip_switch-PairBelow skip [] h = tt
  skip_switch-PairBelow skip (c ∷ s) h =
      let n = length (c ∷ s) in
      if-PairBelow n (c == b'{') _ _
        (read_members-PairBelow unquote (λ key u. skip) n tt (c ∷ s) (λ key u. h) (omega arith))
        (if-PairBelow n (c == b'[') _ _
          (read_items-PairBelow n (λ u. skip) tt (c ∷ s) (λ u. h) (omega arith))
          (if-PairBelow n (c == b'"') _ _
            (then-PairBelow n _ (λ text. tt) (scan_string-PairBelow unquote (c ∷ s)))
            (if-PairBelow n (c == b't') _ _ (skip_literal-PairBelow b't' (codes "rue") (c ∷ s)) (
              if-PairBelow n (c == b'f') _ _ (skip_literal-PairBelow b'f' (codes "alse") (c ∷ s)) (
                if-PairBelow n (c == b'n') _ _ (skip_literal-PairBelow b'n' (codes "ull") (c ∷ s)) (
                  if-PairBelow n (c == b'-' || is_adapter_json_digit c) _ (fail _)
                    (then-PairBelow n _ (λ v. tt) (scan_int-PairBelow atoi (c ∷ s))) tt))))))

  skip_value-PairBelow :
      (f : ℕ) (s : Bytes)
      → length s < f
      → PairBelow (length s) (skip_adapter_json_value unquote atoi f s)
  unfolding skip_adapter_json_value
  skip_value-PairBelow zero s l = omega arith
  skip_value-PairBelow (suc f) s l =
      let w = skip_adapter_json_whitespace s in
      PairBelow-mono (length w) (length s)
        (skip_switch unquote atoi (skip_adapter_json_value unquote atoi f) w)
        (length-skip_adapter_json_whitespace s)
        (skip_switch-PairBelow (skip_adapter_json_value unquote atoi f) w
          λ t l'. skip_value-PairBelow f t (omega (arith, length-skip_adapter_json_whitespace s)))

  module _ (f : ℕ) where
    skip_member-PairBelow : {A : Type 0} → Threads f (skip_member unquote atoi f {A = A})
    unfolding skip_member
    skip_member-PairBelow a s l = then-PairBelow _ _ (λ u. a) (skip_value-PairBelow f s l)

    block_member-PairBelow : (key : Bytes) → Threads f (block_member unquote atoi f key)
    unfolding block_member
    block_member-PairBelow key b s l =
        if-PairBelow _ (same key (codes "type")) _ _
          (then-PairBelow _ _ (λ v. record b { block_type = v }) (scan_string-PairBelow unquote s))
          (if-PairBelow _ (same key (codes "text")) _ _
            (then-PairBelow _ _ (λ v. record b { block_text = v })
              (scan_string-PairBelow unquote s))
            (skip_member-PairBelow b s l))

    block-PairBelow :
        (s : Bytes)
        → length s ≤ f
        → PairBelow (length s) (parse_anthropic_text_block unquote atoi f s)
    unfolding parse_anthropic_text_block
    block-PairBelow s l =
        PairBelow-bind_pair (length s) _ _ _
          (read_members-PairBelow unquote _ f _ s block_member-PairBelow l)
          (check_block-PairBelow (length s))

    content_item-PairBelow : Threads f (content_item unquote atoi f)
    unfolding content_item
    content_item-PairBelow t s l = then-PairBelow _ _ _ (block-PairBelow s (omega arith))

    content-PairBelow :
        (s : Bytes)
        → length s ≤ f
        → PairBelow (length s) (parse_anthropic_text_content_array unquote atoi f s)
    unfolding parse_anthropic_text_content_array
    content-PairBelow s l =
        then-PairBelow _ _ _ (read_items-PairBelow f _ _ s content_item-PairBelow l)

    usage_member-PairBelow : (key : Bytes) → Threads f (usage_member unquote atoi f key)
    unfolding usage_member
    usage_member-PairBelow key u s l =
        if-PairBelow _ (same key (codes "input_tokens")) _ _
          (then-PairBelow _ _ (λ v. record u { input = v; have_input = true })
            (scan_int-PairBelow atoi s))
          (if-PairBelow _ (same key (codes "output_tokens")) _ _
            (then-PairBelow _ _ (λ v. record u { output = v; have_output = true })
              (scan_int-PairBelow atoi s))
            (skip_member-PairBelow u s l))

    usage-PairBelow :
        (s : Bytes)
        → length s ≤ f
        → PairBelow (length s) (parse_anthropic_usage_object unquote atoi f s)
    unfolding parse_anthropic_usage_object
    usage-PairBelow s l =
        PairBelow-bind_pair (length s) _ _ _
          (read_members-PairBelow unquote _ f _ s usage_member-PairBelow l)
          (check_usage-PairBelow (length s))

    response_member-PairBelow : (key : Bytes) → Threads f (response_member unquote atoi f key)
    unfolding response_member
    response_member-PairBelow key p s l =
        if-PairBelow _ (same key (codes "id")) _ _
          (then-PairBelow _ _ _ (scan_string-PairBelow unquote s))
          (if-PairBelow _ (same key (codes "model")) _ _
            (then-PairBelow _ _ _ (scan_string-PairBelow unquote s))
            (if-PairBelow _ (same key (codes "stop_reason")) _ _
              (then-PairBelow _ _ _ (scan_string_or_null-PairBelow unquote s))
              (if-PairBelow _ (same key (codes "content")) _ _
                (then-PairBelow _ _ _ (content-PairBelow s (omega arith)))
                (if-PairBelow _ (same key (codes "usage")) _ _
                  (then-PairBelow _ _ _ (usage-PairBelow s (omega arith)))
                  (if-PairBelow _ (same key (codes "error")) (fail _) _ tt
                    (skip_member-PairBelow p s l))))))

-- A result, or a fall back to the general translation.
abbrev pub Answers : {A : Type 0} → Read A → Type 0
Answers (ok a) = Unit
Answers (fail e) = Unit
Answers panic = ⊥
Answers exhausted = ⊥

Answers-bind :
    {A B : Type 0} (n : ℕ) (m : Read (A × Bytes)) (f : A × Bytes → Read B)
    → PairBelow n m
    → ((a : A) (rest : Bytes) → Answers (f (a, rest)))
    → Answers (m >>= f)
Answers-bind n (ok (a, rest)) f b h = h a rest
Answers-bind n (fail e) f b h = tt
Answers-bind n panic f b h = b
Answers-bind n exhausted f b h = b

Answers-map : {A B : Type 0} (m : Read A) (f : A → B) → Answers m → Answers (do a ← m; ok (f a))
Answers-map (ok a) f h = tt
Answers-map (fail e) f h = tt
Answers-map panic f h = h
Answers-map exhausted f h = h

if-Answers :
    {A : Type 0} (b : Bool) (p q : Read A) → Answers p → Answers q → Answers (if b then p else q)
if-Answers true p q h k = h
if-Answers false p q h k = k

module _ (unquote : Bytes → Option Bytes) (atoi : Bytes → Option ℤ) where
  parse-Answers : (s : Bytes) → Answers (parse_anthropic_text_only_response unquote atoi s)
  unfolding parse_anthropic_text_only_response check_response
  parse-Answers s =
      let w = skip_adapter_json_whitespace s in
      Answers-bind (length w) _ _
        (read_members-PairBelow unquote _ (suc (length s)) _ w
          (response_member-PairBelow unquote atoi (suc (length s)))
          (omega (arith, length-skip_adapter_json_whitespace s)))
        λ p rest. if-Answers _ (fail _) (ok p.resp) tt tt

  -- The fast translation of any data gives a completion or falls back: no access is out of range
  -- and every loop ends.
  pub translate_anthropic_text_only_to_openai-Answers :
      (quote : Bytes → Bytes) (created : ℕ) (s : Bytes)
      → Answers (translate_anthropic_text_only_to_openai quote unquote atoi created s)
  unfolding translate_anthropic_text_only_to_openai
  translate_anthropic_text_only_to_openai-Answers quote created s = if-Answers _ (fail _) _ tt (
      Answers-map (parse_anthropic_text_only_response unquote atoi s)
        (text_only_completion quote created) (parse-Answers s))
