-- ===== src/BodyScan/Settles.antt =====
-- `inspectObjectForKey` reads within the body and ends; the rules for scans with a value.
use strait.Base.{
  PairBelow-mono, PairBelow-bind, PairBelow-bind_pair, Threads, Below, PairBelow, Skips, Below-mono,
  ℕ, zero, suc, ◌≤◌, ◌||◌, Bool, false, Option, [], ◌∷◌, arith, inl, inr, Bool-cases, Bytes, length,
  codes, same, ◌==◌,
}
use strait.BodyScan.Result.{Error, Scan, ok, fail, panic, exhausted}
use strait.BodyScan.Lexer.{skip_whitespace, scan_bool, scan_string}
use strait.BodyScan.Value.{skip_colon, skip_value}
use strait.BodyScan.Inspect.{
  Inspection, wrap, key_next, key_item, key_loop, inspect_object_for_key, top_next,
}
use strait.BodyScan.Progress.{length-skip_whitespace, skip_literal-Below, scan_string-Below}
use strait.BodyScan.Total.{skip_colon-Below, skip_value-Skips}

pub PairBelow-wrap {ℓ} :
    {A : Type ℓ} (n : ℕ) (message : Error → Error) (m : Scan (A × Bytes))
    → PairBelow n m
    → PairBelow n (wrap message m)
unfolding wrap
PairBelow-wrap n message (ok (a, rest)) b = b
PairBelow-wrap n message (fail e) b = b
PairBelow-wrap n message panic b = b
PairBelow-wrap n message exhausted b = b

pub scan_bool-PairBelow : (s : Bytes) → PairBelow (length s) (scan_bool s)
unfolding scan_bool
scan_bool-PairBelow s =
    ground
      (arith, skip_literal-Below b't' (codes "rue") s, skip_literal-Below b'f' (codes "alse") s)

key_next-PairBelow :
    (n : ℕ) (again : Bool → Bytes → Scan (Bool × Bytes)) (found : Bool) (s : Bytes)
    → Threads n again
    → length s ≤ n
    → PairBelow (length s) (key_next again found s)
unfolding key_next
key_next-PairBelow n again found [] h l = tt
key_next-PairBelow n again found (c ∷ s) h l =
    ground (arith, h found s, PairBelow-mono (length s) (length (c ∷ s)) (again found s))

pub top_next-PairBelow :
    (n : ℕ) (again : Inspection → Bytes → Scan (Inspection × Bytes)) (info : Inspection) (s : Bytes)
    → Threads n again
    → length s ≤ n
    → PairBelow (length s) (top_next again info s)
unfolding top_next
top_next-PairBelow n again info [] h l = tt
top_next-PairBelow n again info (c ∷ s) h l =
    ground (arith, h info s, PairBelow-mono (length s) (length (c ∷ s)) (again info s))

pub colon-Below : (s : Bytes) → Below (length s) (skip_colon (skip_whitespace s))
colon-Below s =
    Below-mono _ _ (skip_colon (skip_whitespace s)) (length-skip_whitespace s)
      (skip_colon-Below (skip_whitespace s))

module _ (unquote : Bytes → Option Bytes) where
  key_item-PairBelow :
      (n : ℕ) (target : Bytes) (skip : Bytes → Scan Bytes)
      (again : Bool → Bytes → Scan (Bool × Bytes)) (found : Bool) (s : Bytes)
      → Skips n skip
      → Threads n again
      → length s ≤ n
      → PairBelow (length s) (key_item unquote target skip again found s)
  unfolding key_item
  key_item-PairBelow n target skip again found [] hs ha l = tt
  key_item-PairBelow n target skip again found (c ∷ s) hs ha l = elim (Bool-cases (c == b'}')) [
    | inl e ↦ rw e (omega arith)
    | inr e ↦ rw e (
        PairBelow-bind_pair (length (c ∷ s)) _ (scan_string unquote (c ∷ s)) _
          (scan_string-Below unquote (c ∷ s))
          λ key next b.
            PairBelow-bind (length next) _ (skip_colon (skip_whitespace next)) _ (colon-Below next)
              λ colon b'.
                PairBelow-bind (length next) _ (skip (skip_whitespace colon)) _
                  (Below-mono _ _ (skip (skip_whitespace colon))
                    (omega (arith, length-skip_whitespace colon))
                    (hs (skip_whitespace colon) (omega (arith, length-skip_whitespace colon))))
                  λ value b''.
                    PairBelow-mono _ _
                      (key_next again (same key target || found) (skip_whitespace value))
                      (omega (arith, length-skip_whitespace value))
                      (key_next-PairBelow n again (same key target || found) (skip_whitespace value)
                        ha (omega (arith, length-skip_whitespace value))))
  ]

  pub key_loop-Threads :
      (n k : ℕ) (target : Bytes) (skip : Bytes → Scan Bytes)
      → Skips n skip
      → k ≤ n
      → Threads k (key_loop unquote target skip k)
  unfolding key_loop
  key_loop-Threads n zero target skip h l a s e = absurd (omega arith)
  key_loop-Threads n (suc k) target skip h l a s e =
      PairBelow-mono _ _
        (key_item unquote target skip (key_loop unquote target skip k) a (skip_whitespace s))
        (length-skip_whitespace s)
        (key_item-PairBelow k target skip (key_loop unquote target skip k) a (skip_whitespace s)
          (λ t ht. h t (omega arith)) (key_loop-Threads n k target skip h (omega arith))
          (omega (arith, length-skip_whitespace s)))

  pub inspect_object_for_key-PairBelow :
      (f : ℕ) (target s : Bytes)
      → length s ≤ f
      → PairBelow (length s) (inspect_object_for_key unquote f target s)
  unfolding inspect_object_for_key
  inspect_object_for_key-PairBelow f target [] l = tt
  inspect_object_for_key-PairBelow f target (c ∷ s) l = ground (
    arith,
    key_loop-Threads f f target (skip_value unquote f) (skip_value-Skips unquote f) (omega arith)
        false s,
    PairBelow-mono (length s) (length (c ∷ s))
        (key_loop unquote target (skip_value unquote f) f false s),
  )
