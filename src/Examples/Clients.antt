-- ===== src/Examples/Clients.antt =====
-- A configured client, a disabled one, and a list of models.
use strait.Base.{
  finite, true, false, ◌≡◌, ◌↔◌, none, some, List, [], ◌∷◌, Bytes, codes, has_prefix, is_empty, pos,
}
use strait.Auth.Tokens.{ClientTokenConfig, TokenIdentity, next, bearer, auth, model_allowlist}
use strait.Auth.Resolved.{last_match, sent_as, auth_iff}
use strait.Auth.Allowed.{IsStopped, model_allowlist_iff}

abbrev as_is : Bytes → Bytes
as_is s = s

abbrev client : Bytes → ClientTokenConfig
client name = record {
  name = name;
  value = codes "k";
  disabled = false;
  rate_limit_qps = finite (pos 0);
  rate_limit_burst = pos 0;
  allowed_models = codes "m" ∷ [];
}

abbrev two_clients : List ClientTokenConfig
two_clients = client (codes "a") ∷ record (client (codes "b")) { disabled = true } ∷ []

abbrev client_a : TokenIdentity
client_a = record {
  token = codes "k";
  token_fingerprint = codes "k";
  name = codes "a";
  rate_limit_qps = finite (pos 0);
  rate_limit_burst = pos 0;
  allowed_models = codes "m" ∷ [];
}

auth_iff_example :
    (auth as_is as_is two_clients (codes "Bearer k") ≡ next client_a)
    ↔ (is_empty (codes "Bearer k") ≡ false)
      × (has_prefix (codes "Bearer k") bearer ≡ true)
      × (is_empty (codes "k") ≡ false)
      × (sent_as as_is as_is (codes "k") (last_match as_is as_is (codes "k") two_clients none)
          ≡ some client_a)
auth_iff_example = auth_iff as_is as_is two_clients (codes "Bearer k") client_a

model_allowlist_iff_example :
    (model_allowlist as_is (some client_a) (some (false, codes "n")) ≡ false)
    ↔ IsStopped as_is (some client_a) (some (false, codes "n"))
model_allowlist_iff_example = model_allowlist_iff as_is (some client_a) (some (false, codes "n"))
