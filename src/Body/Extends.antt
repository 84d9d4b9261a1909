-- ===== src/Body/Extends.antt =====
-- `BodyContextMiddleware` hands every body that it reads to the next handler, and what it sends to
-- a provider differs from the body by one insertion at most.
use strait.Base.{
  ℕ, zero, suc, ◌+◌, ◌-◌, ◌≤◌, ◌<◌, Bool, true, false, not, ◌||◌, Option, none, some, [], ◌∷◌, ◌++◌,
  append_assoc, arith, inl, inr, Bool-cases, Bytes, length, take, drop, is_empty, contains, ltb,
  leb, if◌then◌else◌, ◌≡◌, refl, sym, ap, ◌∙◌, subst, ℤ, pos, pos_part, neg_part, ◌-ℤ◌, -ℤ_parts,
  ltz, lez,
}
use strait.BodyScan.Result.{Error, Scan, ok, fail}
use strait.BodyScan.Inspect.{Inspection, inspect_request_body}
use strait.BodyScan.Terminates.{Settled, inspect_request_body-Settled}
use strait.Body.Span.{Spanned, inspect_request_body-Spanned}
use strait.Body.Inject.{
  stream_options_key, stream_options_member, trim_right, last_byte, ends_with,
  inject_stream_include_usage_fast, slice, with_field, Extended, fast_or_raw, separated,
  inject_include_usage, build_upstream_body_from_inspection, sends, BodyReply, next, body_limit,
  decoded, inspected, body_context,
}

-- The upstream body for a raw body, and whether it is another one: nothing is inserted, or a member
-- before a closing brace, or a field with or without a comma before it.
pub data Extends (raw : Bytes) : Bytes → Bool → Type 0 where
  unchanged : Extends raw raw false
  with_member :
      (before behind : Bytes)
      → before ++ b'}' ∷ behind ≡ raw
      → Extends raw (before ++ stream_options_member ++ b'}' ∷ behind) true
  with_usage :
      (alone : Bool) (before behind : Bytes)
      → before ++ behind ≡ raw
      → Extends raw (with_field alone before behind) true

take-drop : (n : ℕ) (s : Bytes) → take n s ++ drop n s ≡ s
take-drop zero s = refl
take-drop (suc n) [] = refl
take-drop (suc n) (c ∷ s) = ap (λ t. c ∷ t) (take-drop n s)

trim_right-append : (s : Bytes) → trim_right s ++ drop (length (trim_right s)) s ≡ s
unfolding trim_right
trim_right-append [] = refl
trim_right-append (c ∷ s) = ground (arith, trim_right-append s)

ends_with-append : (b : ℕ) (s : Bytes) → ends_with b s ≡ true → take (length s - 1) s ++ b ∷ [] ≡ s
unfolding ends_with last_byte
ends_with-append b [] h = cc
ends_with-append b (c ∷ []) h = ground arith
ends_with-append b (c ∷ d ∷ s) h = ground (arith, ends_with-append b (d ∷ s) h)

-- What a step of the extension comes to.
abbrev Extending : Bytes → Extended → Type 0
Extending raw none = ⊥
Extending raw (some (upstream, injected)) = Extends raw upstream injected

fast-Extending :
    (raw : Bytes) → Extending raw (fast_or_raw raw (inject_stream_include_usage_fast raw))
unfolding fast_or_raw inject_stream_include_usage_fast
fast-Extending raw = elim (Bool-cases (ends_with b'}' (trim_right raw))) [
  | inr e ↦ rw e unchanged
  | inl e ↦ by_key (contains (trim_right raw) stream_options_key) e
]
  where
    trimmed : Bytes
    trimmed = trim_right raw

    by_key :
        (b : Bool)
        → ends_with b'}' (trim_right raw) ≡ true
        → Extending raw (
            fast_or_raw raw (
              if not (ends_with b'}' (trim_right raw))
              then none
              else if b
              then none
              else some (
                  take (length (trim_right raw) - 1) (trim_right raw)
                  ++ stream_options_member
                  ++ b'}' ∷ drop (length (trim_right raw)) raw)))
    by_key true e = rw e unchanged
    by_key false e = rw e (
        with_member (take (length (trim_right raw) - 1) (trim_right raw))
          (drop (length (trim_right raw)) raw)
          (sym (
              append_assoc (take (length (trim_right raw) - 1) (trim_right raw)) (b'}' ∷ [])
                (drop (length (trim_right raw)) raw))
            ∙ ap (λ s. s ++ drop (length (trim_right raw)) raw)
                (ends_with-append b'}' (trim_right raw) e)
            ∙ trim_right-append raw))

within : (b n : ℕ) → b ≤ n → leb b n ≡ true
within b n h = ground arith

pred_pos : (b : ℤ) → neg_part b ≡ 0 → 0 < pos_part b → neg_part (b -ℤ pos 1) ≡ 0
unfolding ◌-ℤ◌
pred_pos b h k = ground arith

in_range :
    (raw : Bytes) (a b : ℤ)
    → neg_part a ≡ 0
    → neg_part b ≡ 0
    → pos_part a + 2 ≤ pos_part b
    → pos_part b ≤ length raw
    → (ltz a (pos 0) || lez b a || ltz (b -ℤ pos 1) (pos 0) || ltz (pos (length raw)) (b -ℤ pos 1))
      ≡ false
in_range raw a b ha hb w l = ground (arith, -ℤ_parts b (pos 1), pred_pos b hb (omega arith))

module _ (trim_space : Bytes → Bytes) where
  separated-Extending :
      (raw : Bytes) (i j : ℕ)
      → i ≤ j
      → j ≤ length raw
      → Extending raw (separated trim_space raw j (slice raw i j))
  unfolding separated slice
  separated-Extending raw i j h k =
      rw (within i j h, within j (length raw) k)
        (with_usage (is_empty (trim_space (take (j - i) (drop i raw)))) (take j raw) (drop j raw)
          (take-drop j raw))

  inject_include_usage-Extending :
      (raw : Bytes) (a b : ℤ)
      → neg_part a ≡ 0
      → neg_part b ≡ 0
      → pos_part a + 2 ≤ pos_part b
      → pos_part b ≤ length raw
      → Extending raw (inject_include_usage trim_space raw a b)
  unfolding inject_include_usage
  inject_include_usage-Extending raw a b ha hb w l = rw (in_range raw a b ha hb w l) (
      separated-Extending raw (pos_part a + 1) (pos_part (b -ℤ pos 1))
        (omega (arith, -ℤ_parts b (pos 1), pred_pos b hb (omega arith)))
        (omega (arith, -ℤ_parts b (pos 1), pred_pos b hb (omega arith))))

  in_order :
      (info : Inspection)
      → info.has_include_usage ≡ false
      → neg_part info.object_start ≡ 0
      → neg_part info.object_end ≡ 0
      → pos_part info.object_start + 2 ≤ pos_part info.object_end
      → (info.has_include_usage || lez info.object_end info.object_start) ≡ false
  in_order info f ha hb w = ground arith

  build-Extending :
      (raw : Bytes) (info : Inspection)
      → Spanned (length raw) info
      → Extending raw (build_upstream_body_from_inspection trim_space raw info)
  unfolding build_upstream_body_from_inspection
  build-Extending raw info h = elim (Bool-cases (is_empty raw || not info.stream)) [
    | inl e ↦ rw e unchanged
    | inr e ↦ rw e (by_options info h)
  ]
    where
      by_options :
          (info : Inspection)
          → Spanned (length raw) info
          → Extending raw (
              if not info.has_stream_options
              then fast_or_raw raw (inject_stream_include_usage_fast raw)
              else if info.has_include_usage || lez info.object_end info.object_start
              then some (raw, false)
              else inject_include_usage trim_space raw info.object_start info.object_end)
      by_options info (inl h) = rw h (fast-Extending raw)
      by_options info (inr (ha, hb, w, l)) = elim (Bool-cases info.has_stream_options) [
        | inr e ↦ rw e (fast-Extending raw)
        | inl e ↦ elim (Bool-cases info.has_include_usage) [
          | inl f ↦ rw (e, f) unchanged
          | inr f ↦ rw e (
              subst
                (λ c. Extending raw (
                  if c
                  then some (raw, false)
                  else inject_include_usage trim_space raw info.object_start info.object_end))
                (sym (in_order info f ha hb w))
                (inject_include_usage-Extending raw info.object_start info.object_end ha hb w l))
        ]
      ]

-- The context that the next handler gets.
pub data Delivers (raw : Bytes) : Scan Inspection → BodyReply → Type 0 where
  undecoded :
      (e : Error)
      → Delivers raw (fail e) (
          next (record {
            raw_body = raw;
            upstream_body = raw;
            requested_model = [];
            is_stream = false;
            stream_options_injected = false;
            decode_error = some e;
          }))
  extended :
      (info : Inspection) (upstream : Bytes) (injected : Bool)
      → Extends raw upstream injected
      → Delivers raw (ok info) (
          next (record {
            raw_body = raw;
            upstream_body = upstream;
            requested_model = info.model;
            is_stream = info.stream;
            stream_options_injected = injected;
            decode_error = none;
          }))

decoded-Delivers :
    (raw : Bytes) (info : Inspection) (x : Extended)
    → Extending raw x
    → Delivers raw (ok info) (decoded raw info x)
unfolding decoded
decoded-Delivers raw info none h = absurd h
decoded-Delivers raw info (some (upstream, injected)) h = extended info upstream injected h

module _ (unquote : Bytes → Option Bytes) (trim_space : Bytes → Bytes) where
  inspected-Delivers :
      (raw : Bytes) (r : Scan Inspection)
      → Settled r
      → ((info : Inspection) → r ≡ ok info → Spanned (length raw) info)
      → Delivers raw r (inspected unquote trim_space raw r)
  unfolding inspected
  inspected-Delivers raw r (inl (info, e)) h = rw e (
      decoded-Delivers raw info (build_upstream_body_from_inspection trim_space raw info)
        (build-Extending trim_space raw info (h info e)))
  inspected-Delivers raw r (inr (x, e)) h = rw e (undecoded x)

  -- A body of at most the limit that is read without an error reaches the next handler, as it was
  -- sent: with the model and the stream flag of its inspection and no error, or, when the
  -- inspection fails, with its error and no model. The body for the provider is the same, or it is
  -- the body with the stream options or the field `include_usage` inserted at one place, and the
  -- flag tells which. In particular no slice is out of range.
  pub body_context-Delivers :
      (max : ℤ) (raw : Bytes)
      → length raw ≤ body_limit max
      → Delivers raw
          (inspect_request_body unquote trim_space raw)
          (body_context unquote trim_space max (sends raw false))
  unfolding body_context
  body_context-Delivers max raw l = rw (fits (body_limit max) (length raw) l) (
      inspected-Delivers raw (inspect_request_body unquote trim_space raw)
        (inspect_request_body-Settled unquote trim_space raw)
        (inspect_request_body-Spanned unquote trim_space raw))
    where
      fits : (m n : ℕ) → n ≤ m → ltb m n ≡ false
      fits m n h = ground arith
