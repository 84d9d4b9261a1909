-- ===== src/Adapter/Response/Texts.antt =====
-- What the scanning functions of internal/adapter/anthropic_response_fast.go read: strings and
-- numerals, and members of objects that are written without white space.
use strait.Base.{
  ℕ, suc, Bool, true, false, not, ◌&&◌, ◌||◌, Option, some, [], ◌∷◌, ◌++◌, append-nil, append_assoc,
  Bytes, ltb, ◌==◌, length, if◌then◌else◌, ℤ, ◌≡◌, refl, ◌∙◌, arith, ok,
}
use strait.Adapter.Response.Lexer.{
  Read, is_adapter_json_digit, skip_adapter_json_whitespace, close_adapter_string,
  adapter_string_loop, scan_adapter_json_string, split_adapter_digits, int_digits, int_value,
  scan_adapter_json_int,
}
use strait.Adapter.Response.Skip.{
  after_colon, then_next, item_round, items_loop, read_items, member_round, members_loop,
  read_members,
}

-- The text between the quotes of a string; with `jumped` behind a backslash.
abbrev well_formed : Bool → Bytes → Bool
well_formed jumped [] = not jumped
well_formed jumped (c ∷ s) =
    (jumped || c == b'\\' || (not (c == b'"') && not (ltb c 0x20)))
    && well_formed (not jumped && c == b'\\') s

abbrev escapes : Bool → Bytes → Bool
escapes jumped [] = false
escapes jumped (c ∷ s) = (not jumped && c == b'\\') || escapes (not jumped && c == b'\\') s

both : (a b : Bool) → (a && b) ≡ true → (a ≡ true) × (b ≡ true)
both true b h = (refl, h)
both false b h = grind arith

or_false : (b : Bool) → (b || false) ≡ b
or_false true = refl
or_false false = refl

or_assoc : (a b c : Bool) → ((a || b) || c) ≡ (a || (b || c))
or_assoc true b c = refl
or_assoc false b c = refl

module _ (unquote : Bytes → Option Bytes) where
  -- A raw text says a value: without an escape it is the value itself.
  abbrev string_value : Bytes → Option Bytes
  string_value raw = if escapes false raw then unquote (b'"' ∷ (raw ++ b'"' ∷ [])) else some raw

  abbrev pub Says : Bytes → Bytes → Type 0
  Says raw value = (well_formed false raw ≡ true) × (string_value raw ≡ some value)

  string_loop-step :
      (text : Bytes) (e j : Bool) (c : ℕ) (s : Bytes)
      → (j || c == b'\\' || (not (c == b'"') && not (ltb c 0x20))) ≡ true
      → adapter_string_loop unquote text e j (c ∷ s)
        ≡ adapter_string_loop unquote
            (text ++ c ∷ [])
            (e || not j && c == b'\\')
            (not j && c == b'\\')
            s
  unfolding adapter_string_loop
  string_loop-step text e j c s h = ground arith

  string_loop-close :
      (text : Bytes) (e j : Bool) (raw rest : Bytes)
      → well_formed j raw ≡ true
      → adapter_string_loop unquote text e j (raw ++ b'"' ∷ rest)
        ≡ close_adapter_string unquote (text ++ raw) (e || escapes j raw) rest
  unfolding adapter_string_loop
  string_loop-close text e false [] rest h = rw (append-nil text, or_false e) refl
  string_loop-close text e true [] rest h = grind arith
  string_loop-close text e j (c ∷ s) rest h =
      let p = both (j || c == b'\\' || (not (c == b'"') && not (ltb c 0x20))) _ h in
      string_loop-step text e j c (s ++ b'"' ∷ rest) p.0
      ∙ string_loop-close (text ++ c ∷ []) (e || not j && c == b'\\') (not j && c == b'\\') s rest
          p.1
      ∙ λ i.
          close_adapter_string unquote (append_assoc text (c ∷ []) s i)
            (or_assoc e (not j && c == b'\\') (escapes (not j && c == b'\\') s) i) rest

  close-value :
      (raw value rest : Bytes) (b : Bool)
      → (if b then unquote (b'"' ∷ (raw ++ b'"' ∷ [])) else some raw) ≡ some value
      → close_adapter_string unquote raw b rest ≡ ok (value, rest)
  unfolding close_adapter_string
  close-value raw value rest true h = rw h refl
  close-value raw value rest false h = cc

  pub scan_adapter_json_string-Says :
      (raw value rest : Bytes)
      → Says raw value
      → scan_adapter_json_string unquote (b'"' ∷ (raw ++ b'"' ∷ rest)) ≡ ok (value, rest)
  unfolding scan_adapter_json_string close_adapter_string
  scan_adapter_json_string-Says raw value rest h =
      string_loop-close [] false false raw rest h.0
      ∙ close-value raw value rest (escapes false raw) h.1

abbrev all_digits : Bytes → Bool
all_digits [] = true
all_digits (c ∷ s) = is_adapter_json_digit c && all_digits s

split-all_digits :
    (s : Bytes) (x : ℕ) (rest : Bytes)
    → all_digits s ≡ true
    → is_adapter_json_digit x ≡ false
    → split_adapter_digits (s ++ x ∷ rest) ≡ (s, x ∷ rest)
unfolding split_adapter_digits
split-all_digits [] x rest h k = rw k refl
split-all_digits (c ∷ s) x rest h k =
    let p = both (is_adapter_json_digit c) _ h in rw (p.0, split-all_digits s x rest p.1 k) refl

digit-no_minus : (c : ℕ) → is_adapter_json_digit c ≡ true → (c == b'-') ≡ false
unfolding is_adapter_json_digit
digit-no_minus c h = ground arith

module _ (atoi : Bytes → Option ℤ) where
  -- A numeral counts a value.
  abbrev pub Counts : Bytes → ℤ → Type 0
  Counts [] v = ⊥
  Counts (c ∷ s) v = (all_digits (c ∷ s) ≡ true) × (atoi (c ∷ s) ≡ some v)

  pub scan_adapter_json_int-Counts :
      (num : Bytes) (v : ℤ) (x : ℕ) (rest : Bytes)
      → Counts num v
      → is_adapter_json_digit x ≡ false
      → scan_adapter_json_int atoi (num ++ x ∷ rest) ≡ ok (v, x ∷ rest)
  unfolding scan_adapter_json_int int_digits int_value
  scan_adapter_json_int-Counts [] v x rest h k = elim h [ ]
  scan_adapter_json_int-Counts (c ∷ s) v x rest h k =
      let p = both (is_adapter_json_digit c) _ h.0 in
      rw (digit-no_minus c p.0, p.0, split-all_digits s x rest p.1 k, h.1) refl

  pub skip_whitespace-Counts :
      (num : Bytes) (v : ℤ) (rest : Bytes)
      → Counts num v
      → skip_adapter_json_whitespace (num ++ rest) ≡ num ++ rest
  unfolding skip_adapter_json_whitespace is_adapter_json_digit
  skip_whitespace-Counts [] v rest h = elim h [ ]
  skip_whitespace-Counts (c ∷ s) v rest h = ground arith

module _ {A : Type 0} where
  module _ (item : A → Bytes → Read (A × Bytes)) where
    pub item-read :
        (k c : ℕ) (a a' : A) (s t : Bytes)
        → (c == b']') ≡ false
        → skip_adapter_json_whitespace (c ∷ s) ≡ c ∷ s
        → item a (c ∷ s) ≡ ok (a', t)
        → items_loop item (suc k) a (c ∷ s)
          ≡ then_next b']' (items_loop item k) a' (skip_adapter_json_whitespace t)
    unfolding items_loop item_round
    item-read k c a a' s t h w r = rw (w, h, r) refl

    pub read_items-lem :
        (a : A) (s : Bytes) (r : Read (A × Bytes))
        → items_loop item (suc (length s)) a s ≡ r
        → read_items item a (b'[' ∷ s) ≡ r
    unfolding read_items
    read_items-lem a s r h = h

  module _ (unquote : Bytes → Option Bytes) (member : Bytes → A → Bytes → Read (A × Bytes)) where
    member-read :
        (k : ℕ) (raw key : Bytes) (a a' : A) (v t : Bytes)
        → Says unquote raw key
        → skip_adapter_json_whitespace v ≡ v
        → member key a v ≡ ok (a', t)
        → members_loop unquote member (suc k) a (b'"' ∷ (raw ++ b'"' ∷ b':' ∷ v))
          ≡ then_next b'}' (members_loop unquote member k) a' (skip_adapter_json_whitespace t)
    unfolding members_loop member_round after_colon skip_adapter_json_whitespace
    member-read k raw key a a' v t h w r =
        rw (scan_adapter_json_string-Says unquote raw key (b':' ∷ v) h, w, r) refl

    pub member-more :
        (raw key : Bytes) (k : ℕ) (a a' : A) (v s : Bytes) (r : Read (A × Bytes))
        → Says unquote raw key
        → skip_adapter_json_whitespace v ≡ v
        → member key a v ≡ ok (a', b',' ∷ s)
        → members_loop unquote member k a' s ≡ r
        → members_loop unquote member (suc k) a (b'"' ∷ (raw ++ b'"' ∷ b':' ∷ v)) ≡ r
    unfolding then_next skip_adapter_json_whitespace
    member-more raw key k a a' v s r h w e rest = member-read k raw key a a' v _ h w e ∙ rest

    pub member-last :
        (raw key : Bytes) (k : ℕ) (a a' : A) (v s : Bytes)
        → Says unquote raw key
        → skip_adapter_json_whitespace v ≡ v
        → member key a v ≡ ok (a', b'}' ∷ s)
        → members_loop unquote member (suc k) a (b'"' ∷ (raw ++ b'"' ∷ b':' ∷ v)) ≡ ok (a', s)
    unfolding then_next skip_adapter_json_whitespace
    member-last raw key k a a' v s h w e = member-read k raw key a a' v _ h w e

    pub read_members-lem :
        (a : A) (s : Bytes) (r : Read (A × Bytes))
        → members_loop unquote member (suc (length s)) a s ≡ r
        → read_members unquote member a (b'{' ∷ s) ≡ r
    unfolding read_members
    read_members-lem a s r h = h
