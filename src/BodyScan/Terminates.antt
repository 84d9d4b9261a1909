-- ===== src/BodyScan/Terminates.antt =====
-- The inspection of a body ends with a result or with an error, whatever the body.
use strait.Base.{
  Threads, PairBelow-mono, PairBelow-bind, PairBelow-bind_pair, Below, PairBelow, ℕ, zero, suc, ◌≤◌,
  ◌<◌, Option, [], ◌∷◌, arith, inl, inr, Bool-cases, Bytes, length, codes, is_empty, ◌==◌, ◌≡◌, ◌⊎◌,
  refl,
}
use strait.BodyScan.Result.{
  Error, Scan, ok, fail, panic, exhausted, ◌>>=◌, end_after_colon, body_not_object,
  trailing_content,
}
use strait.BodyScan.Lexer.{skip_whitespace, scan_string}
use strait.BodyScan.Value.{skip_colon}
use strait.BodyScan.Inspect.{
  Inspection, no_inspection, require, require_more, top_next, member_switch, top_item, top_loop,
  inspect_top_level_object, inspect_object, finish_inspection, inspect_request_body,
}
use strait.BodyScan.Progress.{length-skip_whitespace, scan_string-Below}
use strait.BodyScan.Total.{skip_value-Skips}
use strait.BodyScan.Settles.{
  scan_bool-PairBelow, top_next-PairBelow, colon-Below, inspect_object_for_key-PairBelow,
}

-- A test of the first byte leaves the position alone.
abbrev pub Stays : ℕ → Scan Bytes → Type 0
Stays n (ok rest) = (length rest ≤ n) × (0 < length rest)
Stays n (fail e) = Unit
Stays n panic = ⊥
Stays n exhausted = ⊥

pub require_more-Stays : (e : Error) (s : Bytes) → Stays (length s) (require_more e s)
unfolding require_more
require_more-Stays e [] = tt
require_more-Stays e (c ∷ s) = omega arith

require-Below :
    (b : ℕ) (e : Error) (c : ℕ) (s : Bytes) → Below (suc (length (c ∷ s))) (require b e (c ∷ s))
unfolding require
require-Below b e c s = ground arith

-- A scan that ends.
abbrev pub Settled {ℓ} : {A : Type ℓ} → Scan A → Type ℓ
Settled {A} r = ((a : A) × (r ≡ ok a)) ⊎ ((e : Error) × (r ≡ fail e))

PairBelow-bind-Stays {ℓ} :
    {B : Type ℓ} (n k : ℕ) (m : Scan Bytes) (f : Bytes → Scan (B × Bytes))
    → Stays n m
    → ((c : ℕ) (rest : Bytes) → length (c ∷ rest) ≤ n → PairBelow k (f (c ∷ rest)))
    → PairBelow k (m >>= f)
PairBelow-bind-Stays n k (ok []) f b h = absurd (omega arith)
PairBelow-bind-Stays n k (ok (c ∷ rest)) f b h = h c rest b.0
PairBelow-bind-Stays n k (fail e) f b h = tt
PairBelow-bind-Stays n k panic f b h = b
PairBelow-bind-Stays n k exhausted f b h = b

module _ (unquote : Bytes → Option Bytes) (trim_space : Bytes → Bytes) where
  pub member_switch-PairBelow :
      (n f : ℕ) (key : Bytes) (info : Inspection) (c : ℕ) (s : Bytes)
      → length (c ∷ s) < f
      → PairBelow (length (c ∷ s)) (member_switch unquote trim_space n f key info (c ∷ s))
  unfolding member_switch
  member_switch-PairBelow n f key info c s l = ground (
    arith,
    scan_string-Below unquote (c ∷ s),
    scan_bool-PairBelow (c ∷ s),
    skip_value-Skips unquote f (c ∷ s),
    inspect_object_for_key-PairBelow unquote f (codes "include_usage") (c ∷ s),
  )

  top_item-PairBelow :
      (n f k : ℕ) (again : Inspection → Bytes → Scan (Inspection × Bytes)) (info : Inspection)
      (s : Bytes)
      → Threads k again
      → length s ≤ k
      → k ≤ f
      → PairBelow (length s) (top_item unquote trim_space n f again info s)
  unfolding top_item
  top_item-PairBelow n f k again info [] ha l m = tt
  top_item-PairBelow n f k again info (c ∷ s) ha l m = elim (Bool-cases (c == b'}')) [
    | inl e ↦ rw e (omega arith)
    | inr e ↦ rw e (
        PairBelow-bind_pair (length (c ∷ s)) _ (scan_string unquote (c ∷ s)) _
          (scan_string-Below unquote (c ∷ s))
          λ key next b.
            PairBelow-bind (length next) _ (skip_colon (skip_whitespace next)) _ (colon-Below next)
              λ colon b'.
                PairBelow-bind-Stays (length (skip_whitespace colon)) _
                  (require_more end_after_colon (skip_whitespace colon)) _
                  (require_more-Stays end_after_colon (skip_whitespace colon))
                  λ d value b''.
                    PairBelow-bind_pair (length (d ∷ value)) _
                      (member_switch unquote trim_space n f key info (d ∷ value)) _
                      (member_switch-PairBelow n f key info d value
                        (omega (arith, length-skip_whitespace colon)))
                      λ info' rest b3.
                        PairBelow-mono _ _ (top_next again info' (skip_whitespace rest))
                          (omega (arith, length-skip_whitespace rest, length-skip_whitespace colon))
                          (top_next-PairBelow k again info' (skip_whitespace rest) ha (
                            omega
                              (arith, length-skip_whitespace rest, length-skip_whitespace colon))))
  ]

  top_loop-Threads : (n f k : ℕ) → k ≤ f → Threads k (top_loop unquote trim_space n f k)
  unfolding top_loop
  top_loop-Threads n f zero l a s e = absurd (omega arith)
  top_loop-Threads n f (suc k) l a s e =
      PairBelow-mono _ _
        (top_item unquote trim_space n f (top_loop unquote trim_space n f k) a (skip_whitespace s))
        (length-skip_whitespace s)
        (top_item-PairBelow n f k (top_loop unquote trim_space n f k) a (skip_whitespace s)
          (top_loop-Threads n f k (omega arith)) (omega (arith, length-skip_whitespace s))
          (omega arith))

  finish-Settled :
      (n : ℕ) (m : Scan (Inspection × Bytes)) → PairBelow n m → Settled (m >>= finish_inspection)
  unfolding finish_inspection
  finish-Settled n (ok (info, rest)) b = elim (Bool-cases (is_empty (skip_whitespace rest))) [
    | inl e ↦ inl (info, rw e)
    | inr e ↦ inr (trailing_content, rw e)
  ]
  finish-Settled n (fail e) b = inr (e, refl)
  finish-Settled n panic b = absurd b
  finish-Settled n exhausted b = absurd b

  inspect_object-Settled :
      (n : ℕ) (s : Bytes) → length s ≤ n → Settled (inspect_object unquote trim_space n s)
  unfolding inspect_object inspect_top_level_object
  inspect_object-Settled n [] l = inr (body_not_object, refl)
  inspect_object-Settled n (c ∷ s) l = elim (Bool-cases (c == b'{')) [
    | inl e ↦ rw e (
        finish-Settled (length s) (top_loop unquote trim_space n (suc n) (suc n) no_inspection s)
          (top_loop-Threads n (suc n) (suc n) (omega arith) no_inspection s (omega arith)))
    | inr e ↦ inr (body_not_object, rw e)
  ]

  -- For every body, whatever `strconv.Unquote` and `strings.TrimSpace` return, `inspectRequestBody`
  -- returns an inspection or an error: no access is out of range, and every loop ends.
  pub inspect_request_body-Settled :
      (body : Bytes) → Settled (inspect_request_body unquote trim_space body)
  unfolding inspect_request_body
  inspect_request_body-Settled body =
      inspect_object-Settled (length body) (skip_whitespace body) (length-skip_whitespace body)
