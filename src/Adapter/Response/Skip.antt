-- ===== src/Adapter/Response/Skip.antt =====
-- The loops of internal/adapter/anthropic_response_fast.go over the members of an object and the
-- items of an array, which the source writes out in each function, and `skipAdapterJSONValue`.
use strait.Base.{
  ℕ, zero, suc, not, ◌||◌, Option, [], ◌∷◌, Bytes, codes, ◌==◌, if◌then◌else◌, length, ℤ, ok, fail,
  exhausted, ◌>>=◌,
}
use strait.Adapter.Response.Lexer.{
  Read, declined, is_adapter_json_digit, skip_adapter_json_whitespace, skip_adapter_json_literal,
  scan_adapter_json_string, scan_adapter_json_int,
}

-- `idx >= len(data) || data[idx] != ':'`
unfoldable pub after_colon : Bytes → Read (Unit × Bytes)
after_colon [] = fail declined
after_colon (c ∷ s) = if not (c == b':') then fail declined else ok (tt, s)

module _ {A : Type 0} where
  -- Behind a member or an item: the closing byte, or a comma and the next round of the loop.
  unfoldable pub then_next : ℕ → (A → Bytes → Read (A × Bytes)) → A → Bytes → Read (A × Bytes)
  then_next close again a [] = fail declined
  then_next close again a (c ∷ s) =
      if c == close then ok (a, s) else if not (c == b',') then fail declined else again a s

  -- A round of the loop over an array; `item` reads an item, given what was read before.
  unfoldable pub item_round :
      (A → Bytes → Read (A × Bytes)) → (A → Bytes → Read (A × Bytes)) → A → Bytes → Read (A × Bytes)
  unfolding then_next
  item_round item again a [] = fail declined
  item_round item again a (c ∷ s) = if c == b']' then ok (a, s) else (do
    (a', next) ← item a (c ∷ s)
    then_next b']' again a' (skip_adapter_json_whitespace next))

  unfoldable pub items_loop : (A → Bytes → Read (A × Bytes)) → ℕ → A → Bytes → Read (A × Bytes)
  unfolding item_round
  items_loop item zero a s = exhausted
  items_loop item (suc k) a s =
      item_round item (items_loop item k) a (skip_adapter_json_whitespace s)

  -- An array: the guard, and the loop behind the bracket, with a round for each byte.
  unfoldable pub read_items : (A → Bytes → Read (A × Bytes)) → A → Bytes → Read (A × Bytes)
  unfolding items_loop
  read_items item a [] = fail declined
  read_items item a (c ∷ s) =
      if not (c == b'[') then fail declined else items_loop item (suc (length s)) a s

  module _ (unquote : Bytes → Option Bytes) (member : Bytes → A → Bytes → Read (A × Bytes)) where
    -- A round of the loop over an object; `member` reads the value of a key.
    unfoldable pub member_round : (A → Bytes → Read (A × Bytes)) → A → Bytes → Read (A × Bytes)
    unfolding then_next after_colon
    member_round again a [] = fail declined
    member_round again a (c ∷ s) = if c == b'}' then ok (a, s) else (do
      (key, next) ← scan_adapter_json_string unquote (c ∷ s)
      (_, value) ← after_colon (skip_adapter_json_whitespace next)
      (a', after) ← member key a (skip_adapter_json_whitespace value)
      then_next b'}' again a' (skip_adapter_json_whitespace after))

    unfoldable pub members_loop : ℕ → A → Bytes → Read (A × Bytes)
    unfolding member_round
    members_loop zero a s = exhausted
    members_loop (suc k) a s = member_round (members_loop k) a (skip_adapter_json_whitespace s)

    -- An object: the guard, and the loop behind the brace, with a round for each byte.
    unfoldable pub read_members : A → Bytes → Read (A × Bytes)
    unfolding members_loop
    read_members a [] = fail declined
    read_members a (c ∷ s) =
        if not (c == b'{') then fail declined else members_loop (suc (length s)) a s

module _ (unquote : Bytes → Option Bytes) (atoi : Bytes → Option ℤ) where
  unfoldable pub skip_text : Bytes → Read (Unit × Bytes)
  skip_text s = do (_, next) ← scan_adapter_json_string unquote s; ok (tt, next)

  unfoldable pub skip_int : Bytes → Read (Unit × Bytes)
  skip_int s = do (_, next) ← scan_adapter_json_int atoi s; ok (tt, next)

  -- The `switch` of `skipAdapterJSONValue`; `skip` is that function, for the values inside.
  unfoldable pub skip_switch : (Bytes → Read (Unit × Bytes)) → Bytes → Read (Unit × Bytes)
  unfolding skip_text skip_int read_members read_items
  skip_switch skip [] = fail declined
  skip_switch skip (c ∷ s) =
      if c == b'{'
      then read_members unquote (λ key u. skip) tt (c ∷ s)
      else if c == b'['
      then read_items (λ u. skip) tt (c ∷ s)
      else if c == b'"'
      then skip_text (c ∷ s)
      else if c == b't'
      then skip_adapter_json_literal (codes "true") (c ∷ s)
      else if c == b'f'
      then skip_adapter_json_literal (codes "false") (c ∷ s)
      else if c == b'n'
      then skip_adapter_json_literal (codes "null") (c ∷ s)
      else if c == b'-' || is_adapter_json_digit c
      then skip_int (c ∷ s)
      else fail declined

  -- `skipAdapterJSONValue`, with fuel for the depth.
  unfoldable pub skip_adapter_json_value : ℕ → Bytes → Read (Unit × Bytes)
  unfolding skip_switch
  skip_adapter_json_value zero s = exhausted
  skip_adapter_json_value (suc f) s =
      skip_switch (skip_adapter_json_value f) (skip_adapter_json_whitespace s)
