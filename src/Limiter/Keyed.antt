-- ===== src/Limiter/Keyed.antt =====
-- `keyedLocalLimiter` of internal/middleware/local_limiter.go and the limits of
-- `RateLimitMiddleware` in ratelimit.go. A call is one step: another call that runs between the
-- lookup of a bucket and its own use of it is not modelled. The client's address, which
-- `extractClientIP` finds, is an argument.
use strait.Base.{
  ℕ, ◌+◌, ◌%◌, ◌^◌, Bool, false, not, ◌&&◌, Option, none, some, [], ◌∷◌, ◌++◌, ◌==◌, if◌then◌else◌,
  Bytes, codes, is_empty, Dict, lookup, put, ℤ, pos, negsuc, sub_ℕ, ◌/◌, suc, pos_part, ◌-ℤ◌, ltz,
}
use strait.Limiter.Bucket.{Bucket, new_local_token_bucket, bucket_allow, billion}

-- `localLimiterBucketTTL`, in nanoseconds
abbrev pub bucket_ttl : ℕ
bucket_ttl = 600000000000

-- `localLimiterCleanupInterval`
abbrev pub cleanup_interval : ℕ
cleanup_interval = 1024

-- `keyedLocalLimiter`
pub record Limiter : Type 0 where
  pub buckets : Dict Bucket
  pub calls : ℕ

-- `newKeyedLocalLimiter`
unfoldable pub new_keyed_local_limiter : Limiter
new_keyed_local_limiter = record { buckets = []; calls = 0 }

-- `bucketExpired`, of a bucket that is not nil
unfoldable pub bucket_expired : Bucket → ℤ → Bool
bucket_expired b now =
    if not (ltz b.last_seen (pos 0)) && not (ltz (pos 0) b.last_seen)
    then false
    else ltz (pos bucket_ttl) (now -ℤ b.last_seen)

-- The loop of `maybeCleanup`.
unfoldable pub sweep : ℤ → Dict Bucket → Dict Bucket
sweep cutoff [] = []
sweep cutoff ((k, b) ∷ buckets) =
    let rest = sweep cutoff buckets in if ltz b.last_seen cutoff then rest else (k, b) ∷ rest

-- `maybeCleanup`; the counter has 64 bits.
unfoldable pub maybe_cleanup : ℤ → Limiter → Limiter
unfolding sweep
maybe_cleanup now l =
    let calls = (l.calls + 1) % 2 ^ 64 in
    if not (calls % cleanup_interval == 0)
    then record l { calls = calls }
    else record { calls = calls; buckets = sweep (now -ℤ pos bucket_ttl) l.buckets }

-- The bucket of a call: the one of its key, or a new one.
unfoldable pub bucket_for : ℕ → ℕ → ℤ → Option Bucket → Bucket
unfolding bucket_expired new_local_token_bucket
bucket_for rate burst now none = new_local_token_bucket rate burst now
bucket_for rate burst now (some b) =
    if bucket_expired b now then new_local_token_bucket rate burst now else b

-- `(*keyedLocalLimiter).Allow` at the time `now`
unfoldable pub limiter_allow : Bytes → ℕ → ℕ → ℤ → Limiter → Limiter × Bool
unfolding maybe_cleanup bucket_for bucket_allow
limiter_allow key rate burst now l =
    let swept = maybe_cleanup now l in
    let r = bucket_allow rate burst now (bucket_for rate burst now (lookup key swept.buckets)) in
    (record swept { buckets = put key r.0 swept.buckets }, r.1)

-- The parts of `ClientAuthContext` that the rate limit reads. A rate for one second, a `float64`
-- of the source, is a finite one here, counted in billionths; NaN and infinite rates are left out.
pub record ClientAuth : Type 0 where
  pub token : Bytes
  pub fingerprint : Bytes
  pub rate_limit_qps : ℤ
  pub rate_limit_burst : ℤ

-- The scope of a limit.
pub data Scope : Type 0 where
  by_token by_ip : Scope

-- `value` if it is above 0, else `fallback`
unfoldable pub positive_or : ℤ → ℕ → ℕ
positive_or value fallback = if ltz (pos 0) value then pos_part value else fallback

-- `int(qps)`, which truncates
unfoldable pub truncated : ℤ → ℤ
truncated (pos n) = pos (n / billion)
truncated (negsuc n) = sub_ℕ 0 (suc n / billion)

-- The rate and the burst of a request, from the configuration and the client's own limits.
unfoldable pub request_limits : ℤ → ℤ → Option ClientAuth → ℕ × ℕ
unfolding positive_or truncated
request_limits default_qps default_burst none =
    let qps = positive_or (truncated default_qps) 1 in (qps, positive_or default_burst qps)
request_limits default_qps default_burst (some auth) =
    let qps = positive_or (truncated default_qps) 1 in
    (
      if ltz (pos 0) auth.rate_limit_qps then pos_part (truncated auth.rate_limit_qps) else qps,
      positive_or auth.rate_limit_burst (positive_or default_burst qps),
    )

module _ (trim_space : Bytes → Bytes) where
  -- `buildRateLimitIdentity`
  unfoldable pub build_rate_limit_identity : Option ClientAuth → Bytes → Scope × Bytes
  build_rate_limit_identity none ip = (by_ip, codes "rate_limit:ip:" ++ ip)
  build_rate_limit_identity (some auth) ip =
      if not (is_empty (trim_space auth.token)) && not (is_empty auth.fingerprint)
      then (by_token, codes "rate_limit:token:" ++ auth.fingerprint)
      else (by_ip, codes "rate_limit:ip:" ++ ip)

  -- `RateLimitMiddleware`: the flag tells whether the next handler is called; otherwise the answer
  -- is a rate limit error.
  unfoldable pub rate_limit : ℤ → ℤ → Option ClientAuth → Bytes → ℤ → Limiter → Limiter × Bool
  unfolding request_limits build_rate_limit_identity limiter_allow
  rate_limit default_qps default_burst auth ip now l =
      let limits = request_limits default_qps default_burst auth in
      limiter_allow (build_rate_limit_identity auth ip).1 limits.0 limits.1 now l
