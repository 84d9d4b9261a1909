-- ===== src/Config/Resolve.antt =====
-- What `LoadConfig` of internal/config/config.go reads from the environment. `trim_space` stands for
-- `strings.TrimSpace` and `lookup_env` for `os.LookupEnv`.
use strait.Base.{not, Option, none, some, List, [], ◌∷◌, Bytes, is_empty, if◌then◌else◌}
use strait.Config.Types.{
  ClientTokenConfig, MetricsConfig, ProviderConfig, ConfigError, inline_token_value, no_value_env,
  token_env_unset, inline_api_key, api_key_env_unset, inline_bearer_token,
}

-- The configuration, or the error that is returned.
pub data Resolved (A : Type 0) : Type 0 where
  settled : A → Resolved A
  refused : ConfigError → Resolved A

infixl 5 ◌>>=◌
abbrev pub ◌>>=◌ : {A B : Type 0} → Resolved A → (A → Resolved B) → Resolved B
refused e >>= next = refused e
settled a >>= next = next a

unfoldable pub with_token_env : ClientTokenConfig → Option Bytes → Resolved ClientTokenConfig
with_token_env t none = refused token_env_unset
with_token_env t (some value) = settled (record t { value = value })

unfoldable pub with_api_key_env : ProviderConfig → Option Bytes → Resolved ProviderConfig
with_api_key_env p none = refused api_key_env_unset
with_api_key_env p (some value) = settled (record p { api_key = value })

unfoldable pub with_bearer_token : MetricsConfig → Option Bytes → MetricsConfig
with_bearer_token m none = m
with_bearer_token m (some value) = record m { bearer_token = value }

-- A variable that is set to more than white space, trimmed.
unfoldable pub env_text : (Bytes → Bytes) → Option Bytes → Option Bytes
env_text trim_space none = none
env_text trim_space (some value) =
    if is_empty (trim_space value) then none else some (trim_space value)

module _ (trim_space : Bytes → Bytes) (lookup_env : Bytes → Option Bytes) where
  -- A round of the loop of `resolveStructuredTokens`.
  unfoldable pub resolve_token_value : ClientTokenConfig → Resolved ClientTokenConfig
  unfolding env_text with_token_env
  resolve_token_value t =
      if t.disabled
      then settled t
      else if not (is_empty (trim_space t.value))
      then refused inline_token_value
      else if is_empty t.value_env
      then refused no_value_env
      else with_token_env t (env_text trim_space (lookup_env t.value_env))

  -- `resolveStructuredTokens`
  unfoldable pub resolve_structured_tokens :
      List ClientTokenConfig → Resolved (List ClientTokenConfig)
  unfolding resolve_token_value
  resolve_structured_tokens [] = settled []
  resolve_structured_tokens (t ∷ ts) = do
    t' ← resolve_token_value t
    ts' ← resolve_structured_tokens ts
    settled (t' ∷ ts')

  unfoldable pub resolve_api_key : ProviderConfig → Resolved ProviderConfig
  unfolding env_text with_api_key_env
  resolve_api_key p =
      if not (is_empty (trim_space p.api_key))
      then refused inline_api_key
      else if is_empty (trim_space p.api_key_env)
      then settled p
      else with_api_key_env p (env_text trim_space (lookup_env (trim_space p.api_key_env)))

  -- `resolveProviderAPIKeys`
  unfoldable pub resolve_provider_api_keys : List ProviderConfig → Resolved (List ProviderConfig)
  unfolding resolve_api_key
  resolve_provider_api_keys [] = settled []
  resolve_provider_api_keys (p ∷ ps) = do
    p' ← resolve_api_key p
    ps' ← resolve_provider_api_keys ps
    settled (p' ∷ ps')

  -- `resolveMetricsConfig`
  unfoldable pub resolve_metrics_config : MetricsConfig → Resolved MetricsConfig
  unfolding env_text with_bearer_token
  resolve_metrics_config m =
      if not (is_empty (trim_space m.bearer_token))
      then refused inline_bearer_token
      else if is_empty (trim_space m.bearer_token_env)
      then settled m
      else settled
          (with_bearer_token m (env_text trim_space (lookup_env (trim_space m.bearer_token_env))))
