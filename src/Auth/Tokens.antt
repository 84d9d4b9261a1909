-- ===== src/Auth/Tokens.antt =====
-- `AuthMiddleware` of internal/middleware/auth.go and `ModelAllowlistMiddleware` of
-- internal/middleware/model_allowlist.go. `trim_space` stands for `strings.TrimSpace`, `to_lower`
-- for `strings.ToLower`, and `fingerprint` for `tokenFingerprint`, a text of the token's hash.
use strait.Base.{
  Float64, Bool, true, false, not, ◌||◌, Option, none, some, List, [], ◌∷◌, Bytes, codes, same,
  has_prefix, length, drop, is_empty, if◌then◌else◌, Dict, lookup, put, ℤ,
}

-- `ClientTokenConfig` of internal/config/config.go, as `rebuildTokenRegistry` reads it
pub record ClientTokenConfig : Type 0 where
  pub name : Bytes
  pub value : Bytes
  pub disabled : Bool
  pub rate_limit_qps : Float64
  pub rate_limit_burst : ℤ
  pub allowed_models : List Bytes

-- `TokenIdentity`, and `ClientAuthContext` with `token_name` for `name`
pub record TokenIdentity : Type 0 where
  pub token : Bytes
  pub token_fingerprint : Bytes
  pub name : Bytes
  pub rate_limit_qps : Float64
  pub rate_limit_burst : ℤ
  pub allowed_models : List Bytes

-- The error replies of `AuthMiddleware`; each has the status 401.
pub data AuthError : Type 0 where
  missing_authorization_header invalid_authorization_header : AuthError
  missing_bearer_token invalid_api_key : AuthError

pub data AuthReply : Type 0 where
  rejected : AuthError → AuthReply
  next : TokenIdentity → AuthReply

abbrev pub bearer : Bytes
bearer = codes "Bearer "

module _ (trim_space : Bytes → Bytes) where
  -- `normalizeStringSlice`
  unfoldable pub normalize_string_slice : List Bytes → List Bytes
  normalize_string_slice [] = []
  normalize_string_slice (s ∷ ss) =
      let rest = normalize_string_slice ss in
      if is_empty (trim_space s) then rest else trim_space s ∷ rest

module _ (trim_space : Bytes → Bytes) (fingerprint : Bytes → Bytes) where
  unfoldable pub identity_of : ClientTokenConfig → TokenIdentity
  unfolding normalize_string_slice
  identity_of item = record {
    token = trim_space item.value;
    token_fingerprint = fingerprint (trim_space item.value);
    name = item.name;
    rate_limit_qps = item.rate_limit_qps;
    rate_limit_burst = item.rate_limit_burst;
    allowed_models = normalize_string_slice trim_space item.allowed_models;
  }

  -- The loop of `rebuildTokenRegistry`.
  unfoldable pub register : List ClientTokenConfig → Dict TokenIdentity → Dict TokenIdentity
  unfolding identity_of
  register [] registry = registry
  register (item ∷ items) registry = register items (
      if item.disabled
      then registry
      else if is_empty (trim_space item.value)
      then registry
      else put (trim_space item.value) (identity_of item) registry)

  -- `resolveToken`
  unfoldable pub resolve_token : List ClientTokenConfig → Bytes → Option TokenIdentity
  unfolding register
  resolve_token tokens raw = lookup (trim_space raw) (register tokens [])

  unfoldable pub authenticated : Bytes → Option TokenIdentity → AuthReply
  authenticated client_token none = rejected invalid_api_key
  authenticated client_token (some identity) = next (record identity { token = client_token })

  unfoldable pub check_token : List ClientTokenConfig → Bytes → AuthReply
  unfolding resolve_token authenticated
  check_token tokens client_token =
      if is_empty client_token
      then rejected missing_bearer_token
      else authenticated client_token (resolve_token tokens client_token)

  -- `AuthMiddleware`, on the value of the header `Authorization`
  unfoldable pub auth : List ClientTokenConfig → Bytes → AuthReply
  unfolding check_token
  auth tokens header =
      let auth_header = trim_space header in
      if is_empty auth_header
      then rejected missing_authorization_header
      else if not (has_prefix auth_header bearer)
      then rejected invalid_authorization_header
      else check_token tokens (trim_space (drop (length bearer) auth_header))

-- `isModelAllowed`
unfoldable pub is_model_allowed : (Bytes → Bytes) → Bytes → List Bytes → Bool
is_model_allowed to_lower model [] = false
is_model_allowed to_lower model (allowed ∷ rest) =
    same (to_lower allowed) (to_lower model) || is_model_allowed to_lower model rest

-- `ModelAllowlistMiddleware`: whether the next handler is called; otherwise the answer is 403. The
-- body is absent, or has the flag of its decoding error and its model.
unfoldable pub model_allowlist :
    (Bytes → Bytes) → Option TokenIdentity → Option (Bool × Bytes) → Bool
unfolding is_model_allowed
model_allowlist to_lower none body = true
model_allowlist to_lower (some identity) none = true
model_allowlist to_lower (some identity) (some (decode_failed, model)) =
    if is_empty identity.allowed_models
    then true
    else if decode_failed
    then true
    else if is_empty model
    then true
    else is_model_allowed to_lower model identity.allowed_models
