-- ===== src/Meta/Traced.antt =====
-- Every request gets a safe identifier and a trace identifier of the right form.
use strait.Base.{
  Every, Bool, ◌⊎◌, ℕ, ◌-◌, ◌*◌, ◌/◌, ◌%◌, ◌≤◌, ◌<◌, true, List, [], ◌∷◌, ◌++◌, ◌≡◌, refl, arith,
  inl, inr, Bool-cases, Bytes, codes, length,
}
use strait.Meta.Request.{
  is_id_char, is_hex_char, every, sanitize_request_id, prepend, split, is_lower_hex, valid_parts,
  is_valid_trace_parent, second_of_four, trace_id_from_trace_parent, hex_digit, hex_encode,
  generate_trace_parent, MetaInput, chosen_id, chosen_parent, build_request_meta,
}

-- A letter, a digit, or one of "-_.:/".
abbrev pub IsIdChar : ℕ → Type 0
IsIdChar c =
    ((b'a' ≤ c) × (c ≤ b'z'))
    ⊎ ((b'A' ≤ c) × (c ≤ b'Z'))
    ⊎ ((b'0' ≤ c) × (c ≤ b'9'))
    ⊎ (c ≡ b'-')
    ⊎ (c ≡ b'_')
    ⊎ (c ≡ b'.')
    ⊎ (c ≡ b':')
    ⊎ (c ≡ b'/')

-- A lower-case hexadecimal digit.
abbrev pub IsHexChar : ℕ → Type 0
IsHexChar c = ((b'0' ≤ c) × (c ≤ b'9')) ⊎ ((b'a' ≤ c) × (c ≤ b'f'))

is_id_char-IsIdChar : (c : ℕ) → is_id_char c ≡ true → IsIdChar c
unfolding is_id_char
is_id_char-IsIdChar c h = ground arith

is_hex_char-IsHexChar : (c : ℕ) → is_hex_char c ≡ true → IsHexChar c
unfolding is_hex_char
is_hex_char-IsHexChar c h = ground arith

every-Every :
    (f : ℕ → Bool) (P : ℕ → Type 0)
    → ((c : ℕ) → f c ≡ true → P c)
    → (s : Bytes) → every f s ≡ true
    → Every P s
every-Every f P h [] k = tt
every-Every f P h (c ∷ s) k = ground (arith, h c, every-Every f P h s)

is_lower_hex-IsHexChar :
    (s : Bytes) (n : ℕ) → is_lower_hex s n ≡ true → (length s ≡ n) × Every IsHexChar s
unfolding is_lower_hex
is_lower_hex-IsHexChar s n h =
    ground (arith, every-Every is_hex_char IsHexChar is_hex_char-IsHexChar s)

-- A text of this many bytes.
abbrev pub AreBytes : ℕ → Bytes → Type 0
AreBytes n [] = n ≡ 0
AreBytes n (b ∷ s) = (b < 256) × (0 < n) × AreBytes (n - 1) s

hex_digit-hex : (n : ℕ) → n < 16 → is_hex_char (hex_digit n) ≡ true
unfolding is_hex_char hex_digit
hex_digit-hex n h = ground arith

hex_encode-hex : (n : ℕ) (s : Bytes) → AreBytes n s → every is_hex_char (hex_encode s) ≡ true
unfolding hex_encode
hex_encode-hex n [] h = refl
hex_encode-hex n (b ∷ s) (l, k, h) =
    rw (hex_digit-hex (b / 16) (omega arith), hex_digit-hex (b % 16) (omega arith))
      (hex_encode-hex (n - 1) s h)

length-hex_encode : (n : ℕ) (s : Bytes) → AreBytes n s → length (hex_encode s) ≡ 2 * n
unfolding hex_encode
length-hex_encode n [] h = omega arith
length-hex_encode n (b ∷ s) (l, k, h) = omega (arith, length-hex_encode (n - 1) s h)

-- A hexadecimal text before a dash is the first part.
split-hex :
    (s rest : Bytes) → every is_hex_char s ≡ true → split (s ++ b'-' ∷ rest) ≡ s ∷ split rest
unfolding split prepend is_hex_char
split-hex [] rest h = refl
split-hex (c ∷ s) rest h = ground (arith, split-hex s rest)

generated-id :
    (trace parent : Bytes)
    → AreBytes 16 trace
    → AreBytes 8 parent
    → trace_id_from_trace_parent (generate_trace_parent trace parent) ≡ hex_encode trace
unfolding trace_id_from_trace_parent generate_trace_parent second_of_four split prepend
generated-id trace parent h k =
    rw
      (
        split-hex (hex_encode trace) (hex_encode parent ++ b'-' ∷ b'0' ∷ b'1' ∷ [])
            (hex_encode-hex 16 trace h),
        split-hex (hex_encode parent) (b'0' ∷ b'1' ∷ []) (hex_encode-hex 8 parent k),
      )
      refl

valid-id :
    (parts : List Bytes) → valid_parts parts ≡ true → is_lower_hex (second_of_four parts) 32 ≡ true
unfolding valid_parts second_of_four
valid-id parts h = ground arith

encoded-lower_hex : (n : ℕ) (s : Bytes) → AreBytes n s → is_lower_hex (hex_encode s) (2 * n) ≡ true
unfolding is_lower_hex
encoded-lower_hex n s h = ground (arith, length-hex_encode n s h, hex_encode-hex n s h)

hex_char-id : (c : ℕ) → is_hex_char c ≡ true → is_id_char c ≡ true
unfolding is_hex_char is_id_char
hex_char-id c h = ground arith

hex-id : (s : Bytes) → every is_hex_char s ≡ true → every is_id_char s ≡ true
hex-id [] h = refl
hex-id (c ∷ s) h = ground (arith, hex_char-id c, hex-id s)

sent-trace :
    (tp : Bytes)
    → is_valid_trace_parent tp ≡ true
    → is_lower_hex (trace_id_from_trace_parent tp) 32 ≡ true
unfolding is_valid_trace_parent trace_id_from_trace_parent
sent-trace tp e = valid-id (split tp) e

abbrev Safe : Bytes → Type 0
Safe s = (0 < length s) × (length s ≤ 128) × (every is_id_char s ≡ true)

generated-Safe : (s : Bytes) → AreBytes 12 s → Safe (codes "req_" ++ hex_encode s)
unfolding is_id_char
generated-Safe s h =
    ground (arith, length-hex_encode 12 s h, hex-id (hex_encode s) (hex_encode-hex 12 s h))

module _ (trim_space : Bytes → Bytes) (to_lower : Bytes → Bytes) where
  chosen-Safe : (i : MetaInput) → AreBytes 12 i.id_bytes → Safe (chosen_id trim_space to_lower i)
  unfolding chosen_id sanitize_request_id
  chosen-Safe i h = ground (arith, generated-Safe i.id_bytes h)

  chosen-trace :
      (i : MetaInput)
      → AreBytes 16 i.trace_bytes
      → AreBytes 8 i.parent_bytes
      → is_lower_hex (trace_id_from_trace_parent (chosen_parent trim_space to_lower i)) 32 ≡ true
  unfolding chosen_parent
  chosen-trace i h k =
      elim (Bool-cases (is_valid_trace_parent (to_lower (trim_space i.traceparent)))) [
        | inl e ↦ rw e (sent-trace (to_lower (trim_space i.traceparent)) e)
        | inr e ↦
            rw (e, generated-id i.trace_bytes i.parent_bytes h k)
              (encoded-lower_hex 16 i.trace_bytes h)
      ]

  -- The request identifier is a text of 1 to 128 characters that are letters, digits or one of
  -- "-_.:/", and the trace identifier is a text of 32 lower-case hexadecimal digits, whatever the
  -- headers are, where the random bytes are 12, 16 and 8 bytes.
  pub build_request_meta-Safe :
      (i : MetaInput)
      → AreBytes 12 i.id_bytes
      → AreBytes 16 i.trace_bytes
      → AreBytes 8 i.parent_bytes
      → (0 < length (build_request_meta trim_space to_lower i).request_id)
        × (length (build_request_meta trim_space to_lower i).request_id ≤ 128)
        × Every IsIdChar (build_request_meta trim_space to_lower i).request_id
        × (length (build_request_meta trim_space to_lower i).trace_id ≡ 32)
        × Every IsHexChar (build_request_meta trim_space to_lower i).trace_id
  unfolding build_request_meta
  build_request_meta-Safe i g h k =
      let id = chosen-Safe i g in
      let trace = is_lower_hex-IsHexChar _ 32 (chosen-trace i h k) in
      (id.0, id.1, every-Every is_id_char IsIdChar is_id_char-IsIdChar _ id.2, trace.0, trace.1)
