-- ===== src/Limiter/Fresh.antt =====
-- Clients do not spend each other's tokens, and a new client is served.
use strait.Base.{
  ℕ, ◌*◌, ◌<◌, ◌≤◌, List, negsuc, true, false, Option, none, some, [], ◌∷◌, ◌≡◌, refl, arith, Bytes,
  same, same_iff, Dict, lookup, put, lookup-put, if◌then◌else◌, ℤ, pos, pos_part, ◌-ℤ◌, -ℤ_parts,
  +ℤ_parts, scale, scale-sub_parts, ltz,
}
use strait.Limiter.Bucket.{
  billion, Bucket, new_local_token_bucket, bucket_allow, with_rate, with_burst, refill, cap,
  take_token, allow_all,
}
use strait.Limiter.Bound.{Ascending, latest, new_bucket-bounded}
use strait.Limiter.Keyed.{
  Limiter, bucket_ttl, sweep, maybe_cleanup, bucket_expired, bucket_for, limiter_allow, ClientAuth,
  rate_limit, request_limits, truncated, positive_or, build_rate_limit_identity,
}

new_bucket-allow :
    (rate burst : ℕ) (now : ℤ)
    → 0 < burst
    → (bucket_allow rate burst now (new_local_token_bucket rate burst now)).1 ≡ true
unfolding bucket_allow new_local_token_bucket with_rate with_burst refill cap take_token
new_bucket-allow rate burst now h = ground (
  arith,
  +ℤ_parts (pos (burst * billion)) (scale (now -ℤ now) rate),
  scale-sub_parts now now rate,
)

request_limits-burst : (q b : ℤ) (auth : Option ClientAuth) → 0 < (request_limits q b auth).1
unfolding request_limits positive_or truncated
request_limits-burst q b none = ground arith
request_limits-burst q b (some auth) = ground arith

-- With limits from `RateLimitMiddleware`, the first request of a client that has no bucket is
-- allowed, whatever the configured limits and the client's own.
pub rate_limit-first :
    (trim_space : Bytes → Bytes) (q b : ℤ) (auth : Option ClientAuth) (ip : Bytes) (now : ℤ)
    (l : Limiter)
    → lookup (build_rate_limit_identity trim_space auth ip).1 (maybe_cleanup now l).buckets ≡ none
    → (rate_limit trim_space q b auth ip now l).1 ≡ true
unfolding rate_limit limiter_allow bucket_for
rate_limit-first trim_space q b auth ip now l h = rw h (
    new_bucket-allow (request_limits q b auth).0 (request_limits q b auth).1 now
      (request_limits-burst q b auth))

-- Each key has one bucket.
abbrev pub Distinct : Dict Bucket → Type 0
Distinct [] = Unit
Distinct ((k, b) ∷ m) = (lookup k m ≡ none) × Distinct m

abbrev kept : ℤ → Option Bucket → Option Bucket
kept cutoff none = none
kept cutoff (some b) = if ltz b.last_seen cutoff then none else some b

lookup-sweep :
    (key : Bytes) (cutoff : ℤ) (m : Dict Bucket)
    → Distinct m
    → lookup key (sweep cutoff m) ≡ kept cutoff (lookup key m)
unfolding lookup sweep
lookup-sweep key cutoff [] h = refl
lookup-sweep key cutoff ((k, b) ∷ m) (h, d) =
    ground (arith, same_iff k key, lookup-sweep key cutoff m d)

sweep-Distinct : (cutoff : ℤ) (m : Dict Bucket) → Distinct m → Distinct (sweep cutoff m)
unfolding sweep
sweep-Distinct cutoff [] h = tt
sweep-Distinct cutoff ((k, b) ∷ m) (h, d) =
    ground (arith, lookup-sweep k cutoff m d, sweep-Distinct cutoff m d)

put-Distinct : (k : Bytes) (b : Bucket) (m : Dict Bucket) → Distinct m → Distinct (put k b m)
unfolding put lookup
put-Distinct k b [] h = (refl, tt)
put-Distinct k b ((j, c) ∷ m) (h, d) =
    ground (arith, same_iff j k, same_iff k j, lookup-put k j b m, put-Distinct k b m d)

cleanup-Distinct :
    (now : ℤ) (l : Limiter) → Distinct l.buckets → Distinct (maybe_cleanup now l).buckets
unfolding maybe_cleanup
cleanup-Distinct now l d = ground (arith, sweep-Distinct (now -ℤ pos bucket_ttl) l.buckets d)

-- A bucket that a call has used carries the time of the call.
abbrev pub Stamped : Option Bucket → Type 0
Stamped none = Unit
Stamped (some b) = 0 < pos_part b.last_seen

kept-bucket :
    (rate burst : ℕ) (now : ℤ) (x : Option Bucket)
    → Stamped x
    → bucket_for rate burst now (kept (now -ℤ pos bucket_ttl) x) ≡ bucket_for rate burst now x
unfolding bucket_for bucket_expired
kept-bucket rate burst now none h = refl
kept-bucket rate burst now (some b) h =
    ground (arith, -ℤ_parts now (pos bucket_ttl), -ℤ_parts now b.last_seen)

cleanup-bucket :
    (rate burst : ℕ) (now : ℤ) (key : Bytes) (l : Limiter)
    → Distinct l.buckets
    → Stamped (lookup key l.buckets)
    → bucket_for rate burst now (lookup key (maybe_cleanup now l).buckets)
      ≡ bucket_for rate burst now (lookup key l.buckets)
unfolding maybe_cleanup
cleanup-bucket rate burst now key l d h = ground (
  arith,
  kept-bucket rate burst now (lookup key l.buckets) h,
  lookup-sweep key (now -ℤ pos bucket_ttl) l.buckets d,
)

-- A call for one key keeps one bucket for each key, and leaves the bucket that a call for another
-- key finds at the same time as it was, also when it sweeps the expired buckets out. The other
-- key's bucket, if it has one, was last used after the time 0 of the Unix clock.
pub limiter_allow-apart :
    (key other : Bytes) (rate burst rate' burst' : ℕ) (now : ℤ) (l : Limiter)
    → Distinct l.buckets
    → Stamped (lookup other l.buckets)
    → same key other ≡ false
    → Distinct (limiter_allow key rate burst now l).0.buckets
      × (bucket_for rate' burst' now (lookup other (limiter_allow key rate burst now l).0.buckets)
          ≡ bucket_for rate' burst' now (lookup other l.buckets))
unfolding limiter_allow
limiter_allow-apart key other rate burst rate' burst' now l d s e = (
  put-Distinct key _ (maybe_cleanup now l).buckets (cleanup-Distinct now l d),
  rw
      (
        lookup-put key other
            (bucket_allow rate burst now
              (bucket_for rate burst now (lookup key (maybe_cleanup now l).buckets))).0
            (maybe_cleanup now l).buckets,
        e,
      )
      (cleanup-bucket rate' burst' now other l d s),
)

positive : (x : ℤ) → 0 < pos_part x → ltz (pos 0) x ≡ true
positive (pos n) h = ground arith
positive (negsuc n) h = absurd (omega arith)

below_one : (x : ℤ) → 0 < pos_part x → pos_part x < billion → pos_part (truncated x) ≡ 0
unfolding truncated
below_one (pos n) h k = ground arith
below_one (negsuc n) h k = absurd (omega arith)

slow_rate :
    (q b : ℤ) (auth : ClientAuth)
    → 0 < pos_part auth.rate_limit_qps
    → pos_part auth.rate_limit_qps < billion
    → (request_limits q b (some auth)).0 ≡ 0
unfolding request_limits truncated
slow_rate q b auth h k = rw (positive auth.rate_limit_qps h, below_one auth.rate_limit_qps h k) refl

-- A client whose own limit is above 0 and below one request in a second gets the rate 0: however
-- much time its calls take, no more than the burst are allowed on its bucket.
pub slow_client-starves :
    (q b : ℤ) (auth : ClientAuth) (t : ℤ) (times : List ℤ)
    → 0 < pos_part auth.rate_limit_qps
    → pos_part auth.rate_limit_qps < billion
    → Ascending t times
    → (allow_all (request_limits q b (some auth)).0 (request_limits q b (some auth)).1 times (
        new_local_token_bucket
          (request_limits q b (some auth)).0
          (request_limits q b (some auth)).1
          t)).1
      ≤ (request_limits q b (some auth)).1
slow_client-starves q b auth t times h k a =
    rw (slow_rate q b auth h k) (within_burst (request_limits q b (some auth)).1)
  where
    within_burst : (n : ℕ) → (allow_all 0 n times (new_local_token_bucket 0 n t)).1 ≤ n
    within_burst n = omega (
      arith,
      new_bucket-bounded 0 n t times a,
      +ℤ_parts (pos (n * billion)) (scale (latest t times -ℤ t) 0),
      scale-sub_parts (latest t times) t 0,
    )
