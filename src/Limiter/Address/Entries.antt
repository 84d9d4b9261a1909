-- ===== src/Limiter/Address/Entries.antt =====
-- Entries between commas, and texts in brackets, for internal/middleware/ip_cidr.go.
use strait.Base.{
  ℕ, suc, ap, ◌∙◌, arith, Every, Bool, true, false, ◌&&◌, Option, none, some, List, [], ◌∷◌, ◌++◌,
  append_assoc, append-nil, Bytes, length, take, ◌-◌, ◌==◌, leb, has_prefix, if◌then◌else◌, ◌≡◌,
  refl,
}
use strait.Limiter.Address.{ends_in_bracket, split_commas, trim_ipv6_brackets}

-- The text before a closing bracket at the end.
abbrev pub before_bracket : Bytes → Option Bytes
before_bracket [] = none
before_bracket (c ∷ []) = if c == b']' then some [] else none
before_bracket (c ∷ d ∷ s) = elim (before_bracket (d ∷ s)) [ none ↦ none | some t ↦ some (c ∷ t) ]

-- A text in square brackets without them, and any other text as it is.
abbrev pub unbracketed : Bytes → Bytes
unbracketed [] = []
unbracketed (c ∷ s) =
    if c == b'[' then elim (before_bracket s) [ none ↦ c ∷ s | some t ↦ t ] else c ∷ s

ends_in_bracket-cons : (c d : ℕ) (s : Bytes) → ends_in_bracket (c ∷ d ∷ s) ≡ ends_in_bracket (d ∷ s)
unfolding ends_in_bracket
ends_in_bracket-cons c d s = refl

ends_in_bracket-one : (c : ℕ) → ends_in_bracket (c ∷ []) ≡ (c == b']')
unfolding ends_in_bracket
ends_in_bracket-one c = refl

with_front :
    (b : Bool) (c : ℕ) (t : Bytes)
    → (elim (if◌then◌else◌ {A = Option Bytes} b (some t) none) [
      | none ↦ none
      | some u ↦ some (c ∷ u)
    ])
      ≡ (if◌then◌else◌ {A = Option Bytes} b (some (c ∷ t)) none)
with_front true c t = refl
with_front false c t = refl

before_bracket-lem :
    (c : ℕ) (s : Bytes)
    → before_bracket (c ∷ s)
      ≡ (if ends_in_bracket (c ∷ s) then some (take (length s) (c ∷ s)) else none)
before_bracket-lem c [] = rw (ends_in_bracket-one c) refl
before_bracket-lem c (d ∷ s) =
    rw (before_bracket-lem d s, ends_in_bracket-cons c d s)
      (with_front (ends_in_bracket (d ∷ s)) c (take (length s) (d ∷ s)))

in_brackets :
    (p b : Bool) (whole t : Bytes)
    → (if p && b then t else whole) ≡ (
        if p
        then elim (if◌then◌else◌ {A = Option Bytes} b (some t) none) [ none ↦ whole | some u ↦ u ]
        else whole)
in_brackets true true whole t = refl
in_brackets true false whole t = refl
in_brackets false b whole t = refl

prefix_bracket : (c : ℕ) (s : Bytes) → has_prefix (c ∷ s) (b'[' ∷ []) ≡ (c == b'[')
unfolding has_prefix
prefix_bracket c s = ground arith

two_or_more : (n : ℕ) → leb 2 (suc (suc n)) ≡ true
two_or_more n = ground arith

without_two : (n : ℕ) → suc (suc n) - 2 ≡ n
without_two n = omega arith

pub trim_ipv6_brackets-lem : (s : Bytes) → trim_ipv6_brackets s ≡ unbracketed s
unfolding trim_ipv6_brackets
trim_ipv6_brackets-lem [] = refl
trim_ipv6_brackets-lem (c ∷ []) = ground arith
trim_ipv6_brackets-lem (c ∷ d ∷ s) =
    rw
      (
        prefix_bracket c (d ∷ s),
        two_or_more (length s),
        without_two (length s),
        before_bracket-lem d s,
        ends_in_bracket-cons c d s,
      )
      (in_brackets (c == b'[') (ends_in_bracket (d ∷ s)) (c ∷ d ∷ s) (take (length s) (d ∷ s)))

abbrev pub HasNoComma : Bytes → Type 0
HasNoComma [] = Unit
HasNoComma (c ∷ s) = ((c == b',') ≡ false) × HasNoComma s

split_commas-part :
    (part s rest : Bytes)
    → HasNoComma s
    → split_commas part (s ++ b',' ∷ rest) ≡ (part ++ s) ∷ split_commas [] rest
unfolding split_commas
split_commas-part part [] rest plain = rw (append-nil part) refl
split_commas-part part (c ∷ s) rest (apart, plain) =
    rw
      (
        split_commas,
        apart,
        split_commas-part (part ++ c ∷ []) s rest plain,
        append_assoc part (c ∷ []) s,
      )
      refl

split_commas-last : (part s : Bytes) → HasNoComma s → split_commas part s ≡ (part ++ s) ∷ []
unfolding split_commas
split_commas-last part [] plain = rw (append-nil part) refl
split_commas-last part (c ∷ s) (apart, plain) =
    rw
      (
        split_commas,
        apart,
        split_commas-last (part ++ c ∷ []) s plain,
        append_assoc part (c ∷ []) s,
      )
      refl

-- The entries before one entry, that entry, and what may follow its comma.
abbrev pub between_commas : List Bytes → Bytes → Option Bytes → Bytes
between_commas [] entry none = entry
between_commas [] entry (some others) = entry ++ b',' ∷ others
between_commas (x ∷ before) entry others = x ++ b',' ∷ between_commas before entry others

pub split_commas-between :
    (before : List Bytes) (entry : Bytes) (others : Option Bytes)
    → Every HasNoComma before
    → HasNoComma entry
    → (rest : List Bytes) × (split_commas [] (between_commas before entry others)
        ≡ before ++ entry ∷ rest)
split_commas-between [] entry none hs h = ([], split_commas-last [] entry h)
split_commas-between [] entry (some others) hs h =
    (split_commas [] others, split_commas-part [] entry others h)
split_commas-between (x ∷ before) entry others (g, hs) h =
    let rest = split_commas-between before entry others hs h in
    (
      rest.0,
      split_commas-part [] x (between_commas before entry others) g
          ∙ ap (λ parts. x ∷ parts) rest.1,
    )
