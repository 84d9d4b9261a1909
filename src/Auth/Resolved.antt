-- ===== src/Auth/Resolved.antt =====
-- Which header authenticates a client, from the configured tokens alone.
use strait.Base.{
  Bool, true, false, not, ◌&&◌, Option, none, some, List, [], ◌∷◌, ◌≡◌, ◌↔◌, refl, ap, ◌∙◌, arith,
  Bytes, same, has_prefix, is_empty, length, drop, lookup, put, lookup-put, Dict, if◌then◌else◌,
}
use strait.Auth.Tokens.{
  ClientTokenConfig, TokenIdentity, next, bearer, identity_of, normalize_string_slice, register,
  resolve_token, authenticated, check_token, auth,
}

module _ (trim_space : Bytes → Bytes) (fingerprint : Bytes → Bytes) where
  -- This token is configured by `item`, and `item` is in use.
  abbrev matches : Bytes → ClientTokenConfig → Bool
  matches token item =
      not item.disabled
      && not (is_empty (trim_space item.value))
      && same (trim_space item.value) token

  -- The models that are not blank, without spaces around them.
  abbrev named : List Bytes → List Bytes
  named [] = []
  named (s ∷ ss) = if is_empty (trim_space s) then named ss else trim_space s ∷ named ss

  -- The identity that an item of the configuration stands for.
  abbrev pub configured : ClientTokenConfig → TokenIdentity
  configured item = record {
    token = trim_space item.value;
    token_fingerprint = fingerprint (trim_space item.value);
    name = item.name;
    rate_limit_qps = item.rate_limit_qps;
    rate_limit_burst = item.rate_limit_burst;
    allowed_models = named item.allowed_models;
  }

  normalize_string_slice-lem : (ss : List Bytes) → normalize_string_slice trim_space ss ≡ named ss
  unfolding normalize_string_slice
  normalize_string_slice-lem [] = refl
  normalize_string_slice-lem (s ∷ ss) = rw (normalize_string_slice-lem ss) refl

  pub identity_of-lem :
      (item : ClientTokenConfig) → identity_of trim_space fingerprint item ≡ configured item
  unfolding identity_of
  identity_of-lem item = rw (normalize_string_slice-lem item.allowed_models) refl

  -- The last item in use with this token.
  abbrev pub last_match :
      Bytes → List ClientTokenConfig → Option TokenIdentity → Option TokenIdentity
  last_match token [] found = found
  last_match token (item ∷ items) found =
      last_match token items (if matches token item then some (configured item) else found)

  lookup-step :
      (token : Bytes) (item : ClientTokenConfig) (d : Dict TokenIdentity)
      → lookup token (
          if item.disabled
          then d
          else if is_empty (trim_space item.value)
          then d
          else put (trim_space item.value) (identity_of trim_space fingerprint item) d)
        ≡ (if matches token item then some (configured item) else lookup token d)
  lookup-step token item d =
      rw (identity_of-lem item)
        (ground (arith, lookup-put (trim_space item.value) token (configured item) d))

  lookup-register :
      (token : Bytes) (items : List ClientTokenConfig) (d : Dict TokenIdentity)
      → lookup token (register trim_space fingerprint items d)
        ≡ last_match token items (lookup token d)
  unfolding register
  lookup-register token [] d = refl
  lookup-register token (item ∷ items) d =
      lookup-register token items _ ∙ ap (last_match token items) (lookup-step token item d)

  -- The token behind "Bearer ".
  abbrev pub token_of : Bytes → Bytes
  token_of header = trim_space (drop (length bearer) (trim_space header))

  -- The identity of a request that sends `token`.
  abbrev pub sent_as : Bytes → Option TokenIdentity → Option TokenIdentity
  sent_as token none = none
  sent_as token (some found) = some (record found { token = token })

  authenticated-next :
      (token : Bytes) (o : Option TokenIdentity) (identity : TokenIdentity)
      → (authenticated trim_space fingerprint token o ≡ next identity)
        ↔ (sent_as token o ≡ some identity)
  unfolding authenticated
  authenticated-next token none identity = ground arith
  authenticated-next token (some found) identity = ground arith

  resolve_token-last :
      (tokens : List ClientTokenConfig) (raw : Bytes)
      → resolve_token trim_space fingerprint tokens raw ≡ last_match (trim_space raw) tokens none
  unfolding resolve_token lookup
  resolve_token-last tokens raw = lookup-register (trim_space raw) tokens []

  -- A header `Authorization` authenticates a client as `identity` exactly when it is not blank, it
  -- begins with "Bearer ", the token behind that is not empty, and `identity` is that of the last
  -- configured item that is not disabled and has this token. In particular a disabled item never
  -- authenticates a client.
  pub auth_iff :
      (tokens : List ClientTokenConfig) (header : Bytes) (identity : TokenIdentity)
      → (auth trim_space fingerprint tokens header ≡ next identity)
        ↔ (is_empty (trim_space header) ≡ false)
          × (has_prefix (trim_space header) bearer ≡ true)
          × (is_empty (token_of header) ≡ false)
          × (sent_as (token_of header) (last_match (trim_space (token_of header)) tokens none)
              ≡ some identity)
  unfolding auth check_token
  auth_iff tokens header identity = ground (
    arith,
    authenticated-next (token_of header)
        (resolve_token trim_space fingerprint tokens (token_of header)) identity,
    resolve_token-last tokens (token_of header),
  )
