-- ===== src/Body/Span.antt =====
-- The span of `stream_options` that `inspectRequestBody` reports lies within the body.
use strait.Base.{
  Below, PairBelow, ℕ, zero, suc, ◌+◌, ◌≤◌, ◌<◌, Bool, false, not, Option, [], ◌∷◌, arith, inl, inr,
  Bool-cases, Bytes, length, codes, ◌==◌, ◌≡◌, ◌⊎◌, refl, subst, if◌then◌else◌, pos_part, neg_part,
}
use strait.BodyScan.Result.{
  Error, Scan, ok, fail, panic, exhausted, ◌>>=◌, end_after_colon, body_not_object, expected_object,
}
use strait.BodyScan.Lexer.{skip_whitespace, scan_string}
use strait.BodyScan.Value.{skip_colon, skip_value}
use strait.BodyScan.Inspect.{
  Inspection, no_inspection, require_more, key_loop, inspect_object_for_key, top_next, set_options,
  member_switch, top_item, top_loop, inspect_object, finish_inspection, inspect_top_level_object,
  inspect_request_body,
}
use strait.BodyScan.Progress.{length-skip_whitespace, scan_string-Below}
use strait.BodyScan.Total.{skip_value-Skips}
use strait.BodyScan.Settles.{colon-Below, key_loop-Threads}
use strait.BodyScan.Terminates.{Stays, require_more-Stays, member_switch-PairBelow}

-- Where there are stream options, their span is within `n` bytes and has both its braces.
abbrev pub Spanned : ℕ → Inspection → Type 0
Spanned n info =
    (info.has_stream_options ≡ false)
    ⊎ (neg_part info.object_start ≡ 0)
      × (neg_part info.object_end ≡ 0)
      × (pos_part info.object_start + 2 ≤ pos_part info.object_end)
      × (pos_part info.object_end ≤ n)

abbrev Spans : ℕ → Scan (Inspection × Bytes) → Type 0
Spans n (ok (info, rest)) = Spanned n info
Spans n (fail e) = Unit
Spans n panic = Unit
Spans n exhausted = Unit

abbrev Far : ℕ → Scan (Bool × Bytes) → Type 0
Far n (ok (a, rest)) = length rest + 2 ≤ n
Far n (fail e) = Unit
Far n panic = Unit
Far n exhausted = Unit

-- Rules for a chain of scans, into any property that an error has.
module _ {ℓ} {B : Type ℓ} (P : Scan B → Type 0) (P-fail : (e : Error) → P (fail e)) where
  after_bytes :
      (n : ℕ) (m : Scan Bytes) (f : Bytes → Scan B)
      → Below n m
      → ((rest : Bytes) → length rest < n → P (f rest))
      → P (m >>= f)
  after_bytes n (ok rest) f b h = h rest b
  after_bytes n (fail e) f b h = P-fail e
  after_bytes n panic f b h = absurd b
  after_bytes n exhausted f b h = absurd b

  after_pair {κ} :
      {A : Type κ} (n : ℕ) (m : Scan (A × Bytes)) (f : A × Bytes → Scan B)
      → PairBelow n m
      → ((a : A) (rest : Bytes) → m ≡ ok (a, rest) → length rest < n → P (f (a, rest)))
      → P (m >>= f)
  after_pair n (ok (a, rest)) f b h = h a rest refl b
  after_pair n (fail e) f b h = P-fail e
  after_pair n panic f b h = absurd b
  after_pair n exhausted f b h = absurd b

  after_stays :
      (n : ℕ) (m : Scan Bytes) (f : Bytes → Scan B)
      → Stays n m
      → ((c : ℕ) (rest : Bytes) → length (c ∷ rest) ≤ n → P (f (c ∷ rest)))
      → P (m >>= f)
  after_stays n (ok []) f b h = absurd (omega arith)
  after_stays n (ok (c ∷ rest)) f b h = h c rest b.0
  after_stays n (fail e) f b h = P-fail e
  after_stays n panic f b h = absurd b
  after_stays n exhausted f b h = absurd b

Far-of : (n : ℕ) (m : Scan (Bool × Bytes)) → PairBelow n m → Far (suc n) m
Far-of n (ok (a, rest)) b = omega arith
Far-of n (fail e) b = tt
Far-of n panic b = tt
Far-of n exhausted b = tt

module _ (unquote : Bytes → Option Bytes) (trim_space : Bytes → Bytes) where
  inspect_object_for_key-Far :
      (f : ℕ) (target s : Bytes)
      → length s ≤ f
      → Far (length s) (inspect_object_for_key unquote f target s)
  unfolding inspect_object_for_key
  inspect_object_for_key-Far f target [] l = tt
  inspect_object_for_key-Far f target (c ∷ s) l = ground (
    arith,
    Far-of (length s) (key_loop unquote target (skip_value unquote f) f false s) (
        key_loop-Threads unquote f f target (skip_value unquote f) (skip_value-Skips unquote f)
          (omega arith) false s (omega arith)),
  )

  set_options-Spans :
      (n : ℕ) (info : Inspection) (s : Bytes) (m : Scan (Bool × Bytes))
      → length s ≤ n
      → Far (length s) m
      → Spans n (m >>= set_options unquote trim_space n info s)
  unfolding set_options
  set_options-Spans n info s (ok (found, next)) l b = omega arith
  set_options-Spans n info s (fail e) l b = tt
  set_options-Spans n info s panic l b = tt
  set_options-Spans n info s exhausted l b = tt

  member_switch-Spans :
      (n f : ℕ) (key : Bytes) (info : Inspection) (c : ℕ) (s : Bytes)
      → length (c ∷ s) ≤ f
      → length (c ∷ s) ≤ n
      → Spanned n info
      → Spans n (member_switch unquote trim_space n f key info (c ∷ s))
  unfolding member_switch
  member_switch-Spans n f key info c s l m h = ground (
    arith,
    set_options-Spans n info (c ∷ s)
        (inspect_object_for_key unquote f (codes "include_usage") (c ∷ s)) m
        (inspect_object_for_key-Far f (codes "include_usage") (c ∷ s) l),
  )

  -- A loop that keeps the span within `n` bytes, on inputs of at most `n` and fewer than `k` bytes.
  abbrev Keeps : ℕ → ℕ → (Inspection → Bytes → Scan (Inspection × Bytes)) → Type 0
  Keeps n k again =
      (info : Inspection) (s : Bytes)
      → length s < k
      → length s ≤ n
      → Spanned n info
      → Spans n (again info s)

  top_next-Spans :
      (n k : ℕ) (again : Inspection → Bytes → Scan (Inspection × Bytes)) (info : Inspection)
      (s : Bytes)
      → Keeps n k again
      → length s ≤ k
      → length s ≤ n
      → Spanned n info
      → Spans n (top_next again info s)
  unfolding top_next
  top_next-Spans n k again info [] ha l m h = tt
  top_next-Spans n k again info (c ∷ s) ha l m h =
      ground (arith, ha info s (omega arith) (omega arith) h)

  member_end :
      (n : ℕ) (m : Scan (Inspection × Bytes)) (info : Inspection) (rest : Bytes)
      → Spans n m
      → m ≡ ok (info, rest)
      → Spanned n info
  member_end n (ok (i, r)) info rest h e = subst (λ m. Spans n m) e h
  member_end n (fail x) info rest h e = cc
  member_end n panic info rest h e = cc
  member_end n exhausted info rest h e = cc

  top_item-Spans :
      (n f k : ℕ) (again : Inspection → Bytes → Scan (Inspection × Bytes)) (info : Inspection)
      (s : Bytes)
      → Keeps n k again
      → length s ≤ k
      → k ≤ f
      → length s ≤ n
      → Spanned n info
      → Spans n (top_item unquote trim_space n f again info s)
  unfolding top_item
  top_item-Spans n f k again info [] ha l q m h = tt
  top_item-Spans n f k again info (c ∷ s) ha l q m h = elim (Bool-cases (c == b'}')) [
    | inl e ↦ rw e h
    | inr e ↦ rw e (
        after_pair (Spans n) (λ x. tt) (length (c ∷ s)) (scan_string unquote (c ∷ s)) _
          (scan_string-Below unquote (c ∷ s))
          λ key next e1 b1.
            after_bytes (Spans n) (λ x. tt) (length next) (skip_colon (skip_whitespace next)) _
              (colon-Below next)
              λ colon b2.
                after_stays (Spans n) (λ x. tt) (length (skip_whitespace colon))
                  (require_more end_after_colon (skip_whitespace colon)) _
                  (require_more-Stays end_after_colon (skip_whitespace colon))
                  λ d value b3.
                    after_pair (Spans n) (λ x. tt) (length (d ∷ value))
                      (member_switch unquote trim_space n f key info (d ∷ value)) _
                      (member_switch-PairBelow unquote trim_space n f key info d value
                        (omega (arith, length-skip_whitespace colon)))
                      λ info' rest e4 b4.
                        top_next-Spans n k again info' (skip_whitespace rest) ha
                          (omega (arith, length-skip_whitespace rest, length-skip_whitespace colon))
                          (omega (arith, length-skip_whitespace rest, length-skip_whitespace colon))
                          (member_end n (member_switch unquote trim_space n f key info (d ∷ value))
                            info' rest
                            (member_switch-Spans n f key info d value
                              (omega (arith, length-skip_whitespace colon))
                              (omega (arith, length-skip_whitespace colon)) h)
                            e4))
  ]

  top_loop-Keeps : (n f k : ℕ) → k ≤ f → Keeps n k (top_loop unquote trim_space n f k)
  unfolding top_loop
  top_loop-Keeps n f zero l info s e m h = absurd (omega arith)
  top_loop-Keeps n f (suc k) l info s e m h =
      top_item-Spans n f k (top_loop unquote trim_space n f k) info (skip_whitespace s)
        (top_loop-Keeps n f k (omega arith)) (omega (arith, length-skip_whitespace s)) (omega arith)
        (omega (arith, length-skip_whitespace s)) h

  finish-Spanned :
      (n : ℕ) (m : Scan (Inspection × Bytes)) (info : Inspection)
      → Spans n m
      → (m >>= finish_inspection) ≡ ok info
      → Spanned n info
  unfolding finish_inspection
  finish-Spanned n (ok (i, r)) info h e = ground arith
  finish-Spanned n (fail x) info h e = cc
  finish-Spanned n panic info h e = cc
  finish-Spanned n exhausted info h e = cc

  inspect_object-Spanned :
      (n : ℕ) (s : Bytes) (info : Inspection)
      → length s ≤ n
      → inspect_object unquote trim_space n s ≡ ok info
      → Spanned n info
  unfolding inspect_object inspect_top_level_object no_inspection
  inspect_object-Spanned n [] info l e = cc
  inspect_object-Spanned n (c ∷ s) info l h = elim (Bool-cases (c == b'{')) [
    | inl e ↦
        finish-Spanned n (top_loop unquote trim_space n (suc n) (suc n) no_inspection s) info
          (top_loop-Keeps n (suc n) (suc n) (omega arith) no_inspection s (omega arith)
            (omega arith) (inl refl))
          (subst
            (λ b.
              (if not b
                then fail body_not_object
                else (if not b
                    then fail expected_object
                    else top_loop unquote trim_space n (suc n) (suc n) no_inspection s)
                  >>= finish_inspection)
              ≡ ok info)
            e h)
    | inr e ↦ ground arith
  ]

  -- When `inspectRequestBody` succeeds on a body with stream options, the reported span starts
  -- and ends within the body and holds at least the two braces.
  pub inspect_request_body-Spanned :
      (body : Bytes) (info : Inspection)
      → inspect_request_body unquote trim_space body ≡ ok info
      → Spanned (length body) info
  unfolding inspect_request_body
  inspect_request_body-Spanned body info =
      inspect_object-Spanned (length body) (skip_whitespace body) info (length-skip_whitespace body)
