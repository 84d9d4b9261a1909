-- ===== src/Health/Agreement.antt =====
-- Routing and readiness have the same view of a provider.
use strait.Base.{false, ◌≡◌, List, [], ◌∷◌, Bytes, same}
use strait.Health.{ProviderConfig}

-- No configured provider has this name.
abbrev pub IsUnnamed : Bytes → List ProviderConfig → Type 0
IsUnnamed name [] = Unit
IsUnnamed name (p ∷ ps) = (same p.name name ≡ false) × IsUnnamed name ps
