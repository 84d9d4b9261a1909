-- ===== src/Adapter/Response/Loops.antt =====
-- The loops over members and items of internal/adapter/anthropic_response_fast.go read within the data
-- and end.
use strait.Base.{
  ℕ, zero, suc, ◌≤◌, ◌<◌, Option, [], ◌∷◌, arith, Bytes, length, ◌==◌, inl, inr, Bool-cases, ◌>>=◌,
  PairBelow, PairBelow-mono, PairBelow-bind_pair, Threads,
}
use strait.Adapter.Response.Lexer.{Read, skip_adapter_json_whitespace, scan_adapter_json_string}
use strait.Adapter.Response.Skip.{
  after_colon, then_next, item_round, items_loop, read_items, member_round, members_loop,
  read_members,
}
use strait.Adapter.Response.Total.{length-skip_adapter_json_whitespace, scan_string-PairBelow}

after_colon-PairBelow : (s : Bytes) → PairBelow (length s) (after_colon s)
unfolding after_colon
after_colon-PairBelow [] = tt
after_colon-PairBelow (c ∷ s) = ground arith

module _ {A : Type 0} where
  then_next-PairBelow :
      (close n : ℕ) (again : A → Bytes → Read (A × Bytes)) (a : A) (s : Bytes)
      → Threads n again
      → length s ≤ n
      → PairBelow (length s) (then_next close again a s)
  unfolding then_next
  then_next-PairBelow close n again a [] h l = tt
  then_next-PairBelow close n again a (c ∷ s) h l =
      ground (arith, h a s, PairBelow-mono (length s) (length (c ∷ s)) (again a s))

  -- Behind white space.
  next_value-PairBelow :
      (close n : ℕ) (again : A → Bytes → Read (A × Bytes)) (a : A) (s : Bytes)
      → Threads n again
      → length s < n
      → PairBelow n (then_next close again a (skip_adapter_json_whitespace s))
  next_value-PairBelow close n again a s h l =
      PairBelow-mono (length (skip_adapter_json_whitespace s)) n
        (then_next close again a (skip_adapter_json_whitespace s))
        (omega (arith, length-skip_adapter_json_whitespace s))
        (then_next-PairBelow close n again a (skip_adapter_json_whitespace s) h
          (omega (arith, length-skip_adapter_json_whitespace s)))

  item_round-PairBelow :
      (item again : A → Bytes → Read (A × Bytes)) (a : A) (s : Bytes)
      → Threads (suc (length s)) item
      → Threads (length s) again
      → PairBelow (length s) (item_round item again a s)
  unfolding item_round
  item_round-PairBelow item again a [] hi ha = tt
  item_round-PairBelow item again a (c ∷ s) hi ha = elim (Bool-cases (c == b']')) [
    | inl e ↦ rw e (omega arith)
    | inr e ↦ rw e (
        PairBelow-bind_pair (length (c ∷ s)) _ (item a (c ∷ s)) _ (hi a (c ∷ s) (omega arith))
          λ a' rest l. next_value-PairBelow b']' (length (c ∷ s)) again a' rest ha l)
  ]

  Threads-mono : (m n : ℕ) (f : A → Bytes → Read (A × Bytes)) → m ≤ n → Threads n f → Threads m f
  Threads-mono m n f h t a s l = t a s (omega arith)

  items_loop-Threads :
      (n k : ℕ) (item : A → Bytes → Read (A × Bytes))
      → n ≤ k
      → Threads n item
      → Threads n (items_loop item k)
  unfolding items_loop
  items_loop-Threads n zero item h t a s l = omega arith
  items_loop-Threads n (suc k) item h t a s l =
      let w = skip_adapter_json_whitespace s in
      PairBelow-mono (length w) (length s) (item_round item (items_loop item k) a w)
        (length-skip_adapter_json_whitespace s)
        (item_round-PairBelow item (items_loop item k) a w
          (Threads-mono (suc (length w)) n item
            (omega (arith, length-skip_adapter_json_whitespace s)) t)
          (items_loop-Threads (length w) k item
            (omega (arith, length-skip_adapter_json_whitespace s))
            (Threads-mono (length w) n item (omega (arith, length-skip_adapter_json_whitespace s))
              t)))

  pub read_items-PairBelow :
      (n : ℕ) (item : A → Bytes → Read (A × Bytes)) (a : A) (s : Bytes)
      → Threads n item
      → length s ≤ n
      → PairBelow (length s) (read_items item a s)
  unfolding read_items
  read_items-PairBelow n item a [] t l = tt
  read_items-PairBelow n item a (c ∷ s) t l = elim (Bool-cases (c == b'[')) [
    | inl e ↦ rw e (
        PairBelow-mono (length s) (length (c ∷ s)) (items_loop item (suc (length s)) a s)
          (omega arith)
          (items_loop-Threads (suc (length s)) (suc (length s)) item (omega arith)
            (Threads-mono (suc (length s)) n item l t) a s (omega arith)))
    | inr e ↦ rw e tt
  ]

  module _ (unquote : Bytes → Option Bytes) (member : Bytes → A → Bytes → Read (A × Bytes)) where
    member_value-PairBelow :
        (again : A → Bytes → Read (A × Bytes)) (key : Bytes) (a : A) (n : ℕ) (s : Bytes)
        → ((key' : Bytes) → Threads n (member key'))
        → Threads n again
        → length s < n
        → PairBelow n (do
          (a', after) ← member key a (skip_adapter_json_whitespace s)
          then_next b'}' again a' (skip_adapter_json_whitespace after))
    member_value-PairBelow again key a n s hm ha l =
        let w = skip_adapter_json_whitespace s in
        PairBelow-bind_pair n n (member key a w) _
          (PairBelow-mono (length w) n (member key a w)
            (omega (arith, length-skip_adapter_json_whitespace s))
            (hm key a w (omega (arith, length-skip_adapter_json_whitespace s))))
          λ a' rest l'. next_value-PairBelow b'}' n again a' rest ha l'

    member_round-PairBelow :
        (again : A → Bytes → Read (A × Bytes)) (a : A) (s : Bytes)
        → ((key : Bytes) → Threads (length s) (member key))
        → Threads (length s) again
        → PairBelow (length s) (member_round unquote member again a s)
    unfolding member_round
    member_round-PairBelow again a [] hm ha = tt
    member_round-PairBelow again a (c ∷ s) hm ha = elim (Bool-cases (c == b'}')) [
      | inl e ↦ rw e (omega arith)
      | inr e ↦ rw e (
          PairBelow-bind_pair (length (c ∷ s)) _ (scan_adapter_json_string unquote (c ∷ s)) _
            (scan_string-PairBelow unquote (c ∷ s))
            λ key rest l.
              PairBelow-bind_pair (length (c ∷ s)) _
                (after_colon (skip_adapter_json_whitespace rest)) _
                (PairBelow-mono (length (skip_adapter_json_whitespace rest)) (length (c ∷ s))
                  (after_colon (skip_adapter_json_whitespace rest))
                  (omega (arith, length-skip_adapter_json_whitespace rest))
                  (after_colon-PairBelow (skip_adapter_json_whitespace rest)))
                λ u value l'. member_value-PairBelow again key a (length (c ∷ s)) value hm ha l')
    ]

    members_loop-Threads :
        (n k : ℕ)
        → n ≤ k
        → ((key : Bytes) → Threads n (member key))
        → Threads n (members_loop unquote member k)
    unfolding members_loop
    members_loop-Threads n zero h t a s l = omega arith
    members_loop-Threads n (suc k) h t a s l =
        let w = skip_adapter_json_whitespace s in
        PairBelow-mono (length w) (length s)
          (member_round unquote member (members_loop unquote member k) a w)
          (length-skip_adapter_json_whitespace s)
          (member_round-PairBelow (members_loop unquote member k) a w
            (λ key.
              Threads-mono (length w) n (member key)
                (omega (arith, length-skip_adapter_json_whitespace s)) (t key))
            (members_loop-Threads (length w) k
              (omega (arith, length-skip_adapter_json_whitespace s))
              (λ key.
                Threads-mono (length w) n (member key)
                  (omega (arith, length-skip_adapter_json_whitespace s)) (t key))))

    pub read_members-PairBelow :
        (n : ℕ) (a : A) (s : Bytes)
        → ((key : Bytes) → Threads n (member key))
        → length s ≤ n
        → PairBelow (length s) (read_members unquote member a s)
    unfolding read_members
    read_members-PairBelow n a [] t l = tt
    read_members-PairBelow n a (c ∷ s) t l = elim (Bool-cases (c == b'{')) [
      | inl e ↦ rw e (
          PairBelow-mono (length s) (length (c ∷ s))
            (members_loop unquote member (suc (length s)) a s) (omega arith)
            (members_loop-Threads (suc (length s)) (suc (length s)) (omega arith)
              (λ key. Threads-mono (suc (length s)) n (member key) l (t key)) a s (omega arith)))
      | inr e ↦ rw e tt
    ]
