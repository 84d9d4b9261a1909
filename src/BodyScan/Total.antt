-- ===== src/BodyScan/Total.antt =====
-- `skipJSONValue` and its loops end within the body: fuel above the number of unread bytes is
-- enough, no access is out of range, and a value takes at least one byte.
use strait.Base.{
  Below, Skips, Below-mono, Below-bind, Below-bind_pair, ℕ, zero, suc, ◌≤◌, ◌<◌, Option, [], ◌∷◌,
  arith, inl, inr, Bool-cases, Bytes, length, codes, ◌==◌,
}
use strait.BodyScan.Result.{Scan, ◌>>=◌}
use strait.BodyScan.Lexer.{skip_whitespace, scan_string}
use strait.BodyScan.Value.{
  skip_colon, array_next, array_item, array_loop, object_next, object_item, object_loop,
  value_switch, skip_value,
}
use strait.BodyScan.Progress.{
  length-skip_whitespace, skip_literal-Below, skip_number-Below, scan_string-Below,
}

pub skip_colon-Below : (s : Bytes) → Below (length s) (skip_colon s)
unfolding skip_colon
skip_colon-Below [] = tt
skip_colon-Below (c ∷ s) = ground arith

array_next-Below :
    (n : ℕ) (again : Bytes → Scan Bytes) (s : Bytes)
    → Skips n again
    → length s ≤ n
    → Below (length s) (array_next again s)
unfolding array_next
array_next-Below n again [] h l = tt
array_next-Below n again (c ∷ s) h l =
    ground (arith, h s, Below-mono (length s) (length (c ∷ s)) (again s))

array_item-Below :
    (n : ℕ) (skip again : Bytes → Scan Bytes) (s : Bytes)
    → Skips (suc n) skip
    → Skips n again
    → length s ≤ n
    → Below (length s) (array_item skip again s)
unfolding array_item
array_item-Below n skip again [] hs ha l = tt
array_item-Below n skip again (c ∷ s) hs ha l = elim (Bool-cases (c == b']')) [
  | inl e ↦ rw e (omega arith)
  | inr e ↦ rw e (
      Below-bind (length (c ∷ s)) _ (skip (c ∷ s)) _ (hs (c ∷ s) (omega arith)) λ next b.
        Below-mono _ _ (array_next again (skip_whitespace next))
          (omega (arith, length-skip_whitespace next))
          (array_next-Below n again (skip_whitespace next) ha
            (omega (arith, length-skip_whitespace next))))
]

array_loop-Skips :
    (n k : ℕ) (skip : Bytes → Scan Bytes) → Skips n skip → k ≤ n → Skips k (array_loop skip k)
unfolding array_loop
array_loop-Skips n zero skip h l s e = absurd (omega arith)
array_loop-Skips n (suc k) skip h l s e =
    Below-mono _ _ (array_item skip (array_loop skip k) (skip_whitespace s))
      (length-skip_whitespace s)
      (array_item-Below k skip (array_loop skip k) (skip_whitespace s) (λ t ht. h t (omega arith))
        (array_loop-Skips n k skip h (omega arith)) (omega (arith, length-skip_whitespace s)))

object_next-Below :
    (n : ℕ) (again : Bytes → Scan Bytes) (s : Bytes)
    → Skips n again
    → length s ≤ n
    → Below (length s) (object_next again s)
unfolding object_next
object_next-Below n again [] h l = tt
object_next-Below n again (c ∷ s) h l =
    ground (arith, h s, Below-mono (length s) (length (c ∷ s)) (again s))

module _ (unquote : Bytes → Option Bytes) where
  -- Behind the key of a member.
  member-Below :
      (n : ℕ) (skip again : Bytes → Scan Bytes) (s : Bytes)
      → Skips n skip
      → Skips n again
      → length s < n
      → Below (length s) (do
        colon ← skip_colon (skip_whitespace s)
        value ← skip (skip_whitespace colon)
        object_next again (skip_whitespace value))
  member-Below n skip again s hs ha l =
      Below-bind (length s) _ (skip_colon (skip_whitespace s)) _
        (Below-mono _ _ (skip_colon (skip_whitespace s)) (length-skip_whitespace s)
          (skip_colon-Below (skip_whitespace s)))
        λ colon b.
          Below-bind (length s) _ (skip (skip_whitespace colon)) _
            (Below-mono _ _ (skip (skip_whitespace colon))
              (omega (arith, length-skip_whitespace colon))
              (hs (skip_whitespace colon) (omega (arith, length-skip_whitespace colon))))
            λ value b'.
              Below-mono _ _ (object_next again (skip_whitespace value))
                (omega (arith, length-skip_whitespace value))
                (object_next-Below n again (skip_whitespace value) ha
                  (omega (arith, length-skip_whitespace value)))

  object_item-Below :
      (n : ℕ) (skip again : Bytes → Scan Bytes) (s : Bytes)
      → Skips n skip
      → Skips n again
      → length s ≤ n
      → Below (length s) (object_item unquote skip again s)
  unfolding object_item
  object_item-Below n skip again [] hs ha l = tt
  object_item-Below n skip again (c ∷ s) hs ha l = elim (Bool-cases (c == b'}')) [
    | inl e ↦ rw e (omega arith)
    | inr e ↦ rw e (
        Below-bind_pair (length (c ∷ s)) _ (scan_string unquote (c ∷ s)) _
          (scan_string-Below unquote (c ∷ s))
          λ key next b.
            Below-mono _ _ _ (omega arith) (member-Below n skip again next hs ha (omega arith)))
  ]

  object_loop-Skips :
      (n k : ℕ) (skip : Bytes → Scan Bytes)
      → Skips n skip
      → k ≤ n
      → Skips k (object_loop unquote skip k)
  unfolding object_loop
  object_loop-Skips n zero skip h l s e = absurd (omega arith)
  object_loop-Skips n (suc k) skip h l s e =
      Below-mono _ _ (object_item unquote skip (object_loop unquote skip k) (skip_whitespace s))
        (length-skip_whitespace s)
        (object_item-Below k skip (object_loop unquote skip k) (skip_whitespace s)
          (λ t ht. h t (omega arith)) (object_loop-Skips n k skip h (omega arith))
          (omega (arith, length-skip_whitespace s)))

  value_switch-Below :
      (n : ℕ) (objects arrays : Bytes → Scan Bytes) (s : Bytes)
      → Skips n objects
      → Skips n arrays
      → length s ≤ n
      → Below (length s) (value_switch unquote objects arrays s)
  unfolding value_switch
  value_switch-Below n objects arrays [] ho ha l = tt
  value_switch-Below n objects arrays (c ∷ s) ho ha l = ground (
    arith,
    ho s,
    ha s,
    Below-mono (length s) (length (c ∷ s)) (objects s),
    Below-mono (length s) (length (c ∷ s)) (arrays s),
    scan_string-Below unquote (c ∷ s),
    skip_literal-Below b't' (codes "rue") (c ∷ s),
    skip_literal-Below b'f' (codes "alse") (c ∷ s),
    skip_literal-Below b'n' (codes "ull") (c ∷ s),
    skip_number-Below c s,
  )

  pub skip_value-Skips : (f : ℕ) → Skips f (skip_value unquote f)
  unfolding skip_value
  skip_value-Skips zero s l = absurd (omega arith)
  skip_value-Skips (suc f) s l =
      Below-mono _ _
        (value_switch unquote (object_loop unquote (skip_value unquote f) f)
          (array_loop (skip_value unquote f) f) (skip_whitespace s))
        (length-skip_whitespace s)
        (value_switch-Below f (object_loop unquote (skip_value unquote f) f)
          (array_loop (skip_value unquote f) f) (skip_whitespace s)
          (object_loop-Skips f f (skip_value unquote f) (skip_value-Skips f) (omega arith))
          (array_loop-Skips f f (skip_value unquote f) (skip_value-Skips f) (omega arith))
          (omega (arith, length-skip_whitespace s)))
