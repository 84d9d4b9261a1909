-- ===== src/Config/Clients.antt =====
-- The tokens of a configuration that `LoadConfig` of internal/config/config.go sets, in the registry of
-- internal/middleware/auth.go.
use strait.Base.{
  Every, Bool, true, false, Option, some, List, [], ◌∷◌, ◌++◌, map, Bytes, same_iff, same_refl,
  is_empty, lookup, put, lookup-put, Dict, if◌then◌else◌, ℤ, ◌≡◌, ◌≢◌, refl, sym, subst, ap, ◌∙◌,
  arith,
}
use strait.Config.Types.{ClientTokenConfig, Config}
use strait.Config.Normalize.{normalize_config, apply_upstream_defaults, normalize_token}
use strait.Config.Resolve.{settled}
use strait.Config.Validate.{Url, Ip}
use strait.Config.Load.{load_config}
use strait.Config.WellFormed.{Apart, in_use, names_of, values_of, FitsToken, WellFormedTokens}
use strait.Config.Accepts.{WellFormedConfig-tokens}
use strait.Config.Loaded.{load_config-Holds, load_config-WellFormed}
use strait.Auth.Tokens
use strait.Auth.Resolved.{configured, identity_of-lem}
use strait.Auth.Tokens.{TokenIdentity, identity_of, register, resolve_token}

-- The token as `rebuildTokenRegistry` reads it.
abbrev pub token_config : ClientTokenConfig → Tokens.ClientTokenConfig
token_config t = record {
  name = t.name;
  value = t.value;
  disabled = t.disabled;
  rate_limit_qps = t.rate_limit_qps;
  rate_limit_burst = t.rate_limit_burst;
  allowed_models = t.allowed_models;
}

-- A round of the registry, for another token and for its own.
round-other :
    (disabled : Bool) (v w : Bytes) (i : TokenIdentity) (d : Dict TokenIdentity)
    → (disabled ≡ false → v ≢ w)
    → lookup v (if disabled then d else if is_empty w then d else put w i d) ≡ lookup v d
round-other true v w i d h = refl
round-other false v [] i d h = refl
round-other false v (c ∷ w) i d h =
    lookup-put (c ∷ w) v i d ∙ ground (arith, h refl, same_iff (c ∷ w) v)

round_self :
    (disabled : Bool) (w : Bytes) (i : TokenIdentity) (d : Dict TokenIdentity)
    → disabled ≡ false
    → w ≢ []
    → lookup w (if disabled then d else if is_empty w then d else put w i d) ≡ some i
round_self true w i d e h = ground arith
round_self false [] i d e h = elim (h refl) [ ]
round_self false (c ∷ w) i d e h = lookup-put (c ∷ w) (c ∷ w) i d ∙ rw (same_refl (c ∷ w)) refl

-- One more token in front.
tail-Every :
    (P : Bytes → Type 0) (b : Bool) (t : ClientTokenConfig) (ts : List ClientTokenConfig)
    → Every P (values_of (if b then ts else t ∷ ts))
    → Every P (values_of ts)
tail-Every P true t ts h = h
tail-Every P false t ts h = h.1

head-Every :
    (P : Bytes → Type 0) (b : Bool) (t : ClientTokenConfig) (ts : List ClientTokenConfig)
    → Every P (values_of (if b then ts else t ∷ ts))
    → b ≡ false
    → P t.value
head-Every P true t ts h e = ground arith
head-Every P false t ts h e = h.0

abbrev WellFormedIn : List ClientTokenConfig → Type 0
WellFormedIn ts = Every FitsToken ts × Apart (names_of ts) × Apart (values_of ts)

tail-WellFormed :
    (b : Bool) (t : ClientTokenConfig) (ts : List ClientTokenConfig)
    → WellFormedIn (if b then ts else t ∷ ts)
    → WellFormedIn ts
tail-WellFormed true t ts h = h
tail-WellFormed false t ts (h, k, l) = (h.1, k.1, l.1)

head-WellFormed :
    (b : Bool) (t : ClientTokenConfig) (ts : List ClientTokenConfig)
    → WellFormedIn (if b then ts else t ∷ ts)
    → b ≡ false
    → (t.value ≢ []) × Every (λ w. t.value ≢ w) (values_of ts)
head-WellFormed true t ts h e = ground arith
head-WellFormed false t ts ((fits, _), k, l) e = (fits.1, l.0)

at-WellFormed :
    (before : List ClientTokenConfig) (t : ClientTokenConfig) (after : List ClientTokenConfig)
    → WellFormedTokens (before ++ t ∷ after)
    → t.disabled ≡ false
    → (t.value ≢ []) × Every (λ w. t.value ≢ w) (values_of (in_use after))
at-WellFormed [] t after h e = head-WellFormed t.disabled t (in_use after) h e
at-WellFormed (b ∷ before) t after h e =
    at-WellFormed before t after (tail-WellFormed b.disabled b (in_use (before ++ t ∷ after)) h) e

module _ (trim_space : Bytes → Bytes) (fingerprint : Bytes → Bytes) where
  abbrev IsTrimmed : ClientTokenConfig → Type 0
  IsTrimmed t = trim_space t.value ≡ t.value

  register-other :
      (v : Bytes) (ts : List ClientTokenConfig) (d : Dict TokenIdentity)
      → Every IsTrimmed ts
      → Every (λ w. v ≢ w) (values_of (in_use ts))
      → lookup v (register trim_space fingerprint (map token_config ts) d) ≡ lookup v d
  unfolding register
  register-other v [] d h k = refl
  register-other v (t ∷ ts) d (h, hs) k =
      register-other v ts _ hs (tail-Every (λ w. v ≢ w) t.disabled t (in_use ts) k)
      ∙ round-other t.disabled v (trim_space t.value) _ d
          (λ e. subst (λ w. v ≢ w) (sym h) (head-Every (λ w. v ≢ w) t.disabled t (in_use ts) k e))

  register_self :
      (before : List ClientTokenConfig) (t : ClientTokenConfig) (after : List ClientTokenConfig)
      (d : Dict TokenIdentity)
      → Every IsTrimmed (before ++ t ∷ after)
      → t.disabled ≡ false
      → t.value ≢ []
      → Every (λ w. t.value ≢ w) (values_of (in_use after))
      → lookup
          (trim_space t.value)
          (register trim_space fingerprint (map token_config (before ++ t ∷ after)) d)
        ≡ some (identity_of trim_space fingerprint (token_config t))
  unfolding register
  register_self [] t after d (h, hs) e n k =
      ap (λ v. lookup v (register trim_space fingerprint (map token_config (t ∷ after)) d)) h
      ∙ register-other t.value after _ hs k
      ∙ subst
          (λ w.
            lookup t.value (
              if t.disabled
              then d
              else if is_empty w
              then d
              else put w (identity_of trim_space fingerprint (token_config t)) d)
            ≡ some (identity_of trim_space fingerprint (token_config t)))
          (sym h) (round_self t.disabled t.value _ d e n)
  register_self (b ∷ before) t after d (h, hs) e n k = register_self before t after _ hs e n k

  normalized-IsTrimmed :
      ((s : Bytes) → trim_space (trim_space s) ≡ trim_space s)
      → (ts : List ClientTokenConfig) → Every IsTrimmed (map (normalize_token trim_space) ts)
  unfolding normalize_token
  normalized-IsTrimmed idem [] = tt
  normalized-IsTrimmed idem (t ∷ ts) = (idem t.value, normalized-IsTrimmed idem ts)

  module _ (lookup_env : Bytes → Option Bytes) (parse_duration : Bytes → Option ℤ)
      (cidr_ok : Bytes → Bool) (parse_url : Bytes → Option Url) (parse_ip : Bytes → Option Ip) where
    loaded-IsTrimmed :
        (file : Option (Config → Option Config)) (c : Config)
        → ((s : Bytes) → trim_space (trim_space s) ≡ trim_space s)
        → load_config trim_space lookup_env parse_duration cidr_ok parse_url parse_ip file
          ≡ settled c
        → Every IsTrimmed c.auth.tokens
    unfolding normalize_config apply_upstream_defaults
    loaded-IsTrimmed file c idem e =
        load_config-Holds trim_space lookup_env parse_duration cidr_ok parse_url parse_ip
          (λ c'. Every IsTrimmed c'.auth.tokens) file c
          (λ c' h. normalized-IsTrimmed idem c'.auth.tokens) e

    -- Where trimming twice is trimming once, the value of every token in use of a loaded
    -- configuration resolves to the identity of that token.
    pub loaded_token-resolves :
        (file : Option (Config → Option Config)) (c : Config) (before : List ClientTokenConfig)
        (t : ClientTokenConfig) (after : List ClientTokenConfig)
        → ((s : Bytes) → trim_space (trim_space s) ≡ trim_space s)
        → load_config trim_space lookup_env parse_duration cidr_ok parse_url parse_ip file
          ≡ settled c
        → c.auth.tokens ≡ before ++ t ∷ after
        → t.disabled ≡ false
        → resolve_token trim_space fingerprint (map token_config c.auth.tokens) t.value
          ≡ some (configured trim_space fingerprint (token_config t))
    unfolding resolve_token
    loaded_token-resolves file c before t after idem e at in_use_now =
        let wf =
          load_config-WellFormed trim_space lookup_env parse_duration cidr_ok parse_url parse_ip
            file c e in
        let tokens =
          WellFormedConfig-tokens trim_space parse_duration cidr_ok parse_url parse_ip c wf in
        let fits = at-WellFormed before t after (subst WellFormedTokens at tokens) in_use_now in
        rw at (
          register_self before t after []
            (subst (λ ts. Every IsTrimmed ts) at (loaded-IsTrimmed file c idem e)) in_use_now fits.0
            fits.1)
        ∙ ap some (identity_of-lem trim_space fingerprint (token_config t))
