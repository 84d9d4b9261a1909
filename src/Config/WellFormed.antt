-- ===== src/Config/WellFormed.antt =====
-- What the parts of `validateConfig` of internal/config/config.go accept, said without them.
use strait.Base.{
  IsNotNegative, below_zero_iff, is_empty_iff, Every, Bool, true, false, Option, none, some, List,
  [], ◌∷◌, Bytes, codes, same_iff, if◌then◌else◌, ℤ, pos, ◌≤ℤ◌, ◌≡◌, ◌≢◌, ◌↔◌, ◌⊎◌, inl, inr,
  Bool-cases, arith,
}
use strait.Config.Types.{ClientTokenConfig, ConfigError}
use strait.Config.Normalize.{member}
use strait.Config.Validate.{
  Url, Ip, first_error, check_duration, check_tokens, validate_positive_duration,
  validate_durations, is_private_or_loopback_host, is_local_ip, check_url, validate_cidrs,
}

-- No name stands twice.
abbrev pub Apart : List Bytes → Type 0
Apart [] = Unit
Apart (n ∷ ns) = Every (λ m. n ≢ m) ns × Apart ns

abbrev pub IsPositive : Option ℤ → Type 0
IsPositive none = ⊥
IsPositive (some d) = pos 1 ≤ℤ d

-- A guard that returns an error.
pub guard_iff :
    (b : Bool) (e : ConfigError) (m : Option ConfigError)
    → ((if b then some e else m) ≡ none) ↔ ((b ≡ false) × (m ≡ none))
guard_iff b e m = ground arith

pub first_error_iff :
    (m n : Option ConfigError) → (first_error m n ≡ none) ↔ ((m ≡ none) × (n ≡ none))
unfolding first_error
first_error_iff none n = ground arith
first_error_iff (some e) n = ground arith

pub check_duration_iff : (o : Option ℤ) → (check_duration o ≡ none) ↔ IsPositive o
unfolding check_duration
check_duration_iff none = ground arith
check_duration_iff (some d) = ground arith

-- The names that were seen, and the rest.
abbrev pub Unseen : List Bytes → List Bytes → Type 0
Unseen seen ns = Every (λ n. member n seen ≡ false) ns

pub Unseen-cons :
    (x : Bytes) (seen ns : List Bytes)
    → Unseen (x ∷ seen) ns ↔ (Every (λ m. x ≢ m) ns × Unseen seen ns)
Unseen-cons x seen [] = ground arith
Unseen-cons x seen (n ∷ ns) = ground (arith, same_iff x n, Unseen-cons x seen ns)

-- A token that is in use.
abbrev pub FitsToken : ClientTokenConfig → Type 0
FitsToken t =
    (t.name ≢ []) × (t.value ≢ []) × IsNotNegative t.rate_limit_qps × (pos 0 ≤ℤ t.rate_limit_burst)

abbrev pub in_use : List ClientTokenConfig → List ClientTokenConfig
in_use [] = []
in_use (t ∷ ts) = if t.disabled then in_use ts else t ∷ in_use ts

abbrev pub names_of : List ClientTokenConfig → List Bytes
names_of [] = []
names_of (t ∷ ts) = t.name ∷ names_of ts

abbrev pub values_of : List ClientTokenConfig → List Bytes
values_of [] = []
values_of (t ∷ ts) = t.value ∷ values_of ts

-- The tokens in use fit, and no two have the same name or the same value.
abbrev pub WellFormedTokens : List ClientTokenConfig → Type 0
WellFormedTokens ts =
    Every FitsToken (in_use ts) × Apart (names_of (in_use ts)) × Apart (values_of (in_use ts))

pub check_tokens_iff :
    (seen_names seen_values : List Bytes) (ts : List ClientTokenConfig)
    → (check_tokens seen_names seen_values ts ≡ none) ↔ (
        Unseen seen_names (names_of (in_use ts))
        × Unseen seen_values (values_of (in_use ts))
        × WellFormedTokens ts)
unfolding check_tokens
check_tokens_iff seen_names seen_values [] = ground arith
check_tokens_iff seen_names seen_values (t ∷ ts) = elim (Bool-cases t.disabled) [
  | inl e ↦ rw (e, check_tokens) (check_tokens_iff seen_names seen_values ts)
  | inr e ↦
      rw (e, check_tokens)
        (ground (
          arith,
          below_zero_iff t.rate_limit_qps,
          is_empty_iff t.name,
          is_empty_iff t.value,
          Unseen-cons t.name seen_names (names_of (in_use ts)),
          Unseen-cons t.value seen_values (values_of (in_use ts)),
          check_tokens_iff (t.name ∷ seen_names) (t.value ∷ seen_values) ts,
        ))
]

module _ (trim_space : Bytes → Bytes) (parse_duration : Bytes → Option ℤ) where
  abbrev pub IsDuration : Bytes → Type 0
  IsDuration raw = IsPositive (parse_duration (trim_space raw))

  pub validate_durations_iff :
      (raws : List Bytes)
      → (validate_durations trim_space parse_duration raws ≡ none) ↔ Every IsDuration raws
  unfolding validate_durations validate_positive_duration
  validate_durations_iff [] = ground arith
  validate_durations_iff (raw ∷ raws) = ground (
    arith,
    check_duration_iff (parse_duration (trim_space raw)),
    validate_durations_iff raws,
    first_error_iff (check_duration (parse_duration (trim_space raw)))
        (validate_durations trim_space parse_duration raws),
  )

module _ (cidr_ok : Bytes → Bool) where
  pub validate_cidrs_iff :
      (e : ConfigError) (cidrs : List Bytes)
      → (validate_cidrs cidr_ok e cidrs ≡ none) ↔ Every (λ c. cidr_ok c ≡ true) cidrs
  unfolding validate_cidrs
  validate_cidrs_iff e [] = ground arith
  validate_cidrs_iff e (c ∷ cidrs) = ground (arith, validate_cidrs_iff e cidrs)

module _ (trim_space : Bytes → Bytes) (parse_url : Bytes → Option Url)
    (parse_ip : Bytes → Option Ip) where
  -- An address of a loopback or of a private network.
  abbrev IsLocalIp : Option Ip → Type 0
  IsLocalIp none = ⊥
  IsLocalIp (some ip) = (ip.is_loopback ≡ true) ⊎ (ip.is_private ≡ true)

  abbrev IsLocalHost : Bytes → Type 0
  IsLocalHost host = (trim_space host ≡ codes "localhost") ⊎ IsLocalIp (parse_ip (trim_space host))

  is_local_ip_iff : (o : Option Ip) → (is_local_ip o ≡ true) ↔ IsLocalIp o
  unfolding is_local_ip
  is_local_ip_iff none = ground arith
  is_local_ip_iff (some ip) = ground arith

  is_private_or_loopback_host_iff :
      (host : Bytes)
      → (is_private_or_loopback_host trim_space parse_url parse_ip host ≡ true) ↔ IsLocalHost host
  unfolding is_private_or_loopback_host
  is_private_or_loopback_host_iff host = ground (
    arith,
    same_iff (trim_space host) (codes "localhost"),
    is_local_ip_iff (parse_ip (trim_space host)),
  )

  abbrev pub SafeUrl : Option Url → Type 0
  SafeUrl none = ⊥
  SafeUrl (some u) =
      (u.host ≢ [])
      × ((u.scheme ≡ codes "https") ⊎ ((u.scheme ≡ codes "http") × IsLocalHost u.hostname))

  pub check_url_iff :
      (o : Option Url) → (check_url trim_space parse_url parse_ip o ≡ none) ↔ SafeUrl o
  unfolding check_url
  check_url_iff none = ground arith
  check_url_iff (some u) = ground (
    arith,
    is_empty_iff u.scheme,
    is_empty_iff u.host,
    same_iff u.scheme (codes "https"),
    same_iff u.scheme (codes "http"),
    is_private_or_loopback_host_iff u.hostname,
  )
