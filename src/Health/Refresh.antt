-- ===== src/Health/Refresh.antt =====
-- What a refresh of the snapshot keeps, adds and drops.
use strait.Base.{
  ℕ, true, ◌≡◌, refl, ◌∙◌, Option, none, some, List, [], ◌∷◌, ◌++◌, Bytes, same_refl, lookup, put,
  lookup-put,
}
use strait.Health.{
  ProviderConfig, ProviderDependencyStatus, HealthMap, bootstrap_status, kept_status, refresh_loop,
  refresh_provider_health_snapshot,
}
use strait.Health.Agreement.{IsUnnamed}

-- The new status of `q`, from the old one.
abbrev pub Carries :
    ProviderConfig → Option ProviderDependencyStatus → ProviderDependencyStatus → Type 0
Carries q none st = (st.healthy ≡ true) × (st.base_url ≡ q.base_url) × (st.name ≡ q.name)
Carries q (some s) st = st ≡ record s { base_url = q.base_url }

lookup-nil : (k : Bytes) → lookup {V = ProviderDependencyStatus} k [] ≡ none
unfolding lookup
lookup-nil k = refl

module _ (now : ℕ) (old : HealthMap) where
  refresh_loop-other :
      (name : Bytes) (ps : List ProviderConfig) (next : HealthMap)
      → IsUnnamed name ps
      → lookup name (refresh_loop now old next ps) ≡ lookup name next
  unfolding refresh_loop
  refresh_loop-other name [] next u = refl
  refresh_loop-other name (p ∷ ps) next (h, u) =
      refresh_loop-other name ps (put p.name (kept_status now p (lookup p.name old)) next) u
      ∙ rw (lookup-put, h)

  refresh_loop_self :
      (before after : List ProviderConfig) (q : ProviderConfig) (next : HealthMap)
      → IsUnnamed q.name after
      → lookup q.name (refresh_loop now old next (before ++ q ∷ after))
        ≡ some (kept_status now q (lookup q.name old))
  unfolding refresh_loop
  refresh_loop_self [] after q next a =
      refresh_loop-other q.name after (put q.name (kept_status now q (lookup q.name old)) next) a
      ∙ rw (lookup-put, same_refl q.name)
  refresh_loop_self (p ∷ ps) after q next a =
      refresh_loop_self ps after q (put p.name (kept_status now p (lookup p.name old)) next) a

  kept_status-Carries :
      (q : ProviderConfig) (o : Option ProviderDependencyStatus) → Carries q o (kept_status now q o)
  unfolding kept_status bootstrap_status
  kept_status-Carries q none = (refl, refl, refl)
  kept_status-Carries q (some s) = refl

  -- After a refresh a name that no provider has is gone. The last provider `q` with its name has
  -- its old status with the configured base URL, if there was one, and is otherwise healthy, at
  -- that base URL.
  pub refresh_exact :
      (before after : List ProviderConfig) (q : ProviderConfig) (gone : Bytes)
      → IsUnnamed q.name after
      → IsUnnamed gone (before ++ q ∷ after)
      → (lookup gone (refresh_provider_health_snapshot now (before ++ q ∷ after) old) ≡ none)
        × (st : ProviderDependencyStatus) × (lookup q.name
              (refresh_provider_health_snapshot now (before ++ q ∷ after) old)
            ≡ some st)
        × Carries q (lookup q.name old) st
  unfolding refresh_provider_health_snapshot
  refresh_exact before after q gone a g = (
    refresh_loop-other gone (before ++ q ∷ after) [] g ∙ lookup-nil gone,
    kept_status now q (lookup q.name old),
    refresh_loop_self before after q [] a,
    kept_status-Carries q (lookup q.name old),
  )
