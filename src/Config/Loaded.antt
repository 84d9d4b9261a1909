-- ===== src/Config/Loaded.antt =====
-- A configuration that `LoadConfig` of internal/config/config.go sets is well formed.
use strait.Base.{Bool, Option, none, some, Bytes, ℤ, ◌≡◌, refl, subst}
use strait.Config.Types.{Config, ConfigError}
use strait.Config.Normalize.{set_defaults, normalize_config, apply_upstream_defaults}
use strait.Config.Resolve.{Resolved, settled, refused, ◌>>=◌}
use strait.Config.Validate.{Url, Ip, validate_config}
use strait.Config.Load.{
  accepted, empty_config, resolve_environment, finish_config, decoded_config, load_config,
}
use strait.Config.Accepts.{WellFormedConfig, validate_config_iff}

-- `A` holds of the configuration, if there is one.
abbrev pub Holds : (Config → Type 0) → Resolved Config → Type 0
Holds P (settled c) = P c
Holds P (refused e) = Unit

abbrev IsRefused : Resolved Config → Type 0
IsRefused (settled c) = ⊥
IsRefused (refused e) = Unit

accepted-Holds :
    (P : Config → Type 0) (c : Config) (o : Option ConfigError)
    → (o ≡ none → P c)
    → Holds P (accepted c o)
unfolding accepted
accepted-Holds P c none h = h refl
accepted-Holds P c (some e) h = tt

bind-Holds :
    (P : Config → Type 0) (m : Resolved Config) (f : Config → Resolved Config)
    → ((c : Config) → Holds P (f c))
    → Holds P (m >>= f)
bind-Holds P (settled c) f h = h c
bind-Holds P (refused e) f h = tt

module _ (trim_space : Bytes → Bytes) (lookup_env : Bytes → Option Bytes)
    (parse_duration : Bytes → Option ℤ) (cidr_ok : Bytes → Bool) (parse_url : Bytes → Option Url)
    (parse_ip : Bytes → Option Ip) where
  -- What holds of each normal form that is well formed holds of what is loaded.
  finish_config-Holds :
      (P : Config → Type 0) (c : Config)
      → ((c' : Config)
          → WellFormedConfig trim_space parse_duration cidr_ok parse_url parse_ip
              (apply_upstream_defaults trim_space (normalize_config trim_space c'))
          → P (apply_upstream_defaults trim_space (normalize_config trim_space c')))
      → Holds P (finish_config trim_space lookup_env parse_duration cidr_ok parse_url parse_ip c)
  unfolding finish_config
  finish_config-Holds P c h =
      let final = apply_upstream_defaults trim_space (normalize_config trim_space c) in
      accepted-Holds P final
        (validate_config trim_space parse_duration cidr_ok parse_url parse_ip final)
        λ e.
          h c ((validate_config_iff trim_space parse_duration cidr_ok parse_url parse_ip final).0 e)

  decoded_config-Holds :
      (P : Config → Type 0) (o : Option Config)
      → ((c : Config)
          → WellFormedConfig trim_space parse_duration cidr_ok parse_url parse_ip
              (apply_upstream_defaults trim_space (normalize_config trim_space c))
          → P (apply_upstream_defaults trim_space (normalize_config trim_space c)))
      → Holds P (decoded_config trim_space lookup_env parse_duration cidr_ok parse_url parse_ip o)
  unfolding decoded_config
  decoded_config-Holds P none h = tt
  decoded_config-Holds P (some c) h =
      bind-Holds P
        (resolve_environment trim_space lookup_env parse_duration cidr_ok parse_url parse_ip c) _
        (λ c'. finish_config-Holds P c' h)

  pub load_config-Holds :
      (P : Config → Type 0) (file : Option (Config → Option Config)) (c : Config)
      → ((c' : Config)
          → WellFormedConfig trim_space parse_duration cidr_ok parse_url parse_ip
              (apply_upstream_defaults trim_space (normalize_config trim_space c'))
          → P (apply_upstream_defaults trim_space (normalize_config trim_space c')))
      → load_config trim_space lookup_env parse_duration cidr_ok parse_url parse_ip file ≡ settled c
      → P c
  unfolding load_config
  load_config-Holds P none c h e = elim (subst IsRefused e tt) [ ]
  load_config-Holds P (some decode) c h e =
      subst (Holds P) e (decoded_config-Holds P (decode (set_defaults empty_config)) h)

  -- A configuration that LoadConfig sets has a port from 1 to 65535, twelve positive durations, a
  -- positive default burst and a default rate that is positive or NaN, networks that are read,
  -- tokens, and providers with names that are not empty and differ, base URLs of the scheme https,
  -- or http to localhost or to a loopback or private address, models, no negative number of
  -- retries and positive timeouts or none; its tokens in use have names and values that are not
  -- empty and differ, a burst that is not negative and a rate that is not negative or NaN.
  pub load_config-WellFormed :
      (file : Option (Config → Option Config)) (c : Config)
      → load_config trim_space lookup_env parse_duration cidr_ok parse_url parse_ip file ≡ settled c
      → WellFormedConfig trim_space parse_duration cidr_ok parse_url parse_ip c
  load_config-WellFormed file c e =
      load_config-Holds (WellFormedConfig trim_space parse_duration cidr_ok parse_url parse_ip) file
        c (λ c' h. h) e
