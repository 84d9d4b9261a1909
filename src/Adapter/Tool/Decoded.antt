-- ===== src/Adapter/Tool/Decoded.antt =====
-- The strings that `appendQuotedJSONBytes` of internal/adapter/anthropic_response_tool_fast.go writes,
-- read back as RFC 8259 says: a description of JSON strings apart from that code. `\u` is read for
-- ASCII only, which is all that is written.
use strait.Base.{
  ℕ, zero, suc, ◌+◌, ◌*◌, ◌/◌, ◌%◌, ◌-◌, ◌<◌, Bool, true, false, ◌&&◌, ◌||◌, Option, none, some, [],
  ◌∷◌, ◌++◌, Bytes, codes, is_empty, ltb, leb, ◌==◌, if◌then◌else◌, ◌≡◌, refl, sym, ◌∙◌, ap, ==→eq,
  arith,
}
use strait.Adapter.Tool.Quoted.{hex_of, quoted_byte, quoted_bytes, append_quoted_json_bytes}

-- Where in a string: between characters, behind a backslash, or in the digits of `\u`.
pub data StringPlace : Type 0 where
  plain escaped : StringPlace
  unicode : ℕ → ℕ → StringPlace

abbrev with_byte : ℕ → Option Bytes → Option Bytes
with_byte b none = none
with_byte b (some s) = some (b ∷ s)

abbrev hex_value : ℕ → Option ℕ
hex_value c =
    if leb b'0' c && leb c b'9'
    then some (c - b'0')
    else if leb b'a' c && leb c b'f'
    then some (c - 87)
    else if leb b'A' c && leb c b'F'
    then some (c - 55)
    else none

abbrev ascii : ℕ → Option Bytes → Option Bytes
ascii v rest = if ltb v 0x80 then with_byte v rest else none

abbrev digit_read : Option ℕ → (ℕ → Option Bytes) → Option Bytes
digit_read none next = none
digit_read (some d) next = next d

abbrev escape_read : ℕ → Option Bytes → Option Bytes → Option Bytes
escape_read c rest hex =
    if c == b'"' || c == b'\\' || c == b'/'
    then with_byte c rest
    else if c == b'b'
    then with_byte 0x08 rest
    else if c == b'f'
    then with_byte 0x0c rest
    else if c == b'n'
    then with_byte b'\n' rest
    else if c == b'r'
    then with_byte b'\r' rest
    else if c == b't'
    then with_byte b'\t' rest
    else if c == b'u'
    then hex
    else none

unfoldable pub read_from : StringPlace → Bytes → Option Bytes
read_from place [] = none
read_from plain (c ∷ s) =
    let rest = read_from plain s in
    let behind = read_from escaped s in
    if c == b'"'
    then (if is_empty s then some [] else none)
    else if c == b'\\'
    then behind
    else if ltb c 0x20
    then none
    else with_byte c rest
read_from escaped (c ∷ s) = escape_read c (read_from plain s) (read_from (unicode 3 0) s)
read_from (unicode zero v) (c ∷ s) =
    digit_read (hex_value c) (λ d. ascii (v * 16 + d) (read_from plain s))
read_from (unicode (suc k) v) (c ∷ s) =
    digit_read (hex_value c) (λ d. read_from (unicode k (v * 16 + d)) s)

-- The text of a JSON string, its quotes included.
abbrev pub json_string_text : Bytes → Option Bytes
json_string_text [] = none
json_string_text (c ∷ s) = if c == b'"' then read_from plain s else none

hex_value-hex_of : (d : ℕ) → d < 16 → hex_value (hex_of d) ≡ some d
unfolding hex_of
hex_value-hex_of d h = ground arith

ascii-below : (v b : ℕ) (rest : Option Bytes) → v ≡ b → b < 32 → ascii v rest ≡ with_byte b rest
ascii-below v b rest h l = rw h (ground arith)

unicode-read :
    (b : ℕ) (s : Bytes)
    → b < 32
    → read_from escaped (codes "u00" ++ (hex_of (b / 16) ∷ hex_of (b % 16) ∷ s))
      ≡ with_byte b (read_from plain s)
unfolding read_from
unicode-read b s h =
    rw (hex_value-hex_of (b / 16) (omega arith), hex_value-hex_of (b % 16) (omega arith))
      (ascii-below _ b (read_from plain s) (omega arith) h)

byte-eq : (b k : ℕ) (rest : Option Bytes) → (b == k) ≡ true → with_byte k rest ≡ with_byte b rest
byte-eq b k rest h = ap (λ x. with_byte x rest) (sym (==→eq b k h))

-- A text that is read as a byte, before `s`.
abbrev Reads : ℕ → Bytes → Bytes → Type 0
Reads b s text = read_from plain (text ++ s) ≡ with_byte b (read_from plain s)

if-Reads :
    (b : ℕ) (s : Bytes) (test : Bool) (p q : Bytes)
    → (test ≡ true → Reads b s p)
    → (test ≡ false → Reads b s q)
    → Reads b s (if test then p else q)
if-Reads b s true p q h k = h refl
if-Reads b s false p q h k = k refl

escape_sign-read :
    (b : ℕ) (s : Bytes) → (b == b'\\' || b == b'"') ≡ true → Reads b s (b'\\' ∷ b ∷ [])
unfolding read_from
escape_sign-read b s h = ground arith

plain-read :
    (b : ℕ) (s : Bytes)
    → (b == b'\\' || b == b'"') ≡ false
    → ltb b 0x20 ≡ false
    → Reads b s (b ∷ [])
unfolding read_from
plain-read b s h k = ground arith

read_from-quoted_byte : (b : ℕ) (s : Bytes) → Reads b s (quoted_byte b)
unfolding quoted_byte read_from
read_from-quoted_byte b s =
    let rest = read_from plain s in
    if-Reads b s _ _ _ (escape_sign-read b s) λ no_sign.
      if-Reads b s (b == 0x08) (codes "\\b") _ (byte-eq b 0x08 rest) λ _.
        if-Reads b s (b == 0x0c) (codes "\\f") _ (byte-eq b 0x0c rest) λ _.
          if-Reads b s (b == b'\n') (codes "\\n") _ (byte-eq b b'\n' rest) λ _.
            if-Reads b s (b == b'\r') (codes "\\r") _ (byte-eq b b'\r' rest) λ _.
              if-Reads b s (b == b'\t') (codes "\\t") _ (byte-eq b b'\t' rest) λ _.
                if-Reads b s (ltb b 0x20) _ (b ∷ []) (λ low. unicode-read b s (ground (arith, low)))
                  (plain-read b s no_sign)

read_from-quoted_bytes : (raw : Bytes) → read_from plain (quoted_bytes raw) ≡ some raw
unfolding quoted_bytes read_from
read_from-quoted_bytes [] = refl
read_from-quoted_bytes (b ∷ raw) =
    read_from-quoted_byte b (quoted_bytes raw) ∙ ap (with_byte b) (read_from-quoted_bytes raw)

-- Any bytes, appended as a quoted JSON string to an empty buffer, are read back from it unchanged
-- by the rules of JSON for strings.
pub json_string_text-append_quoted_json_bytes :
    (raw : Bytes) → json_string_text (append_quoted_json_bytes [] raw) ≡ some raw
unfolding append_quoted_json_bytes
json_string_text-append_quoted_json_bytes raw = read_from-quoted_bytes raw
