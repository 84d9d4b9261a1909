-- ===== src/Auth/Allowed.antt =====
-- Which models a token may use, internal/middleware/model_allowlist.go.
use strait.Base.{
  is_empty_iff, Bool, true, false, Option, none, some, ◌≢◌, List, [], ◌∷◌, ◌≡◌, ◌↔◌, ◌⊎◌, arith,
  Bytes, same_iff,
}
use strait.Auth.Tokens.{TokenIdentity, is_model_allowed, model_allowlist}

module _ (to_lower : Bytes → Bytes) where
  -- The model is in the list, but for the case of its letters.
  abbrev pub Listed : Bytes → List Bytes → Type 0
  Listed model [] = ⊥
  Listed model (allowed ∷ rest) = (to_lower allowed ≡ to_lower model) ⊎ Listed model rest

  is_model_allowed_iff :
      (model : Bytes) (allowed : List Bytes)
      → (is_model_allowed to_lower model allowed ≡ true) ↔ Listed model allowed
  unfolding is_model_allowed
  is_model_allowed_iff model [] = ground arith
  is_model_allowed_iff model (allowed ∷ rest) =
      ground (arith, same_iff (to_lower allowed) (to_lower model), is_model_allowed_iff model rest)

  -- Why a request is stopped: from its token, and the flag and the model of its body.
  abbrev pub IsStopped : Option TokenIdentity → Option (Bool × Bytes) → Type 0
  IsStopped none body = ⊥
  IsStopped (some identity) none = ⊥
  IsStopped (some identity) (some (decode_failed, model)) =
      (decode_failed ≡ false)
      × (model ≢ [])
      × (identity.allowed_models ≢ [])
      × (Listed model identity.allowed_models → ⊥)

  -- A request is stopped exactly when it has a token and a body, the body is decoded and names a
  -- model, the token has a list of models, and the model is not in the list, whatever the case of
  -- the letters. A request without a token or without a body passes.
  pub model_allowlist_iff :
      (identity : Option TokenIdentity) (body : Option (Bool × Bytes))
      → (model_allowlist to_lower identity body ≡ false) ↔ IsStopped identity body
  unfolding model_allowlist
  model_allowlist_iff none body = ground arith
  model_allowlist_iff (some identity) none = ground arith
  model_allowlist_iff (some identity) (some (decode_failed, model)) = ground (
    arith,
    is_empty_iff model,
    is_empty_iff identity.allowed_models,
    is_model_allowed_iff model identity.allowed_models,
  )
