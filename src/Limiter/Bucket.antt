-- ===== src/Limiter/Bucket.antt =====
-- `localTokenBucket` of internal/middleware/local_limiter.go. Tokens are counted in units of a
-- billionth and times in nanoseconds, so that the product of a time and a rate is exact; the
-- source computes with `float64`. Rates and bursts are the integers that `RateLimitMiddleware`
-- passes. A call holds the lock of its bucket, so calls on one bucket follow each other.
use strait.Base.{
  ℕ, ◌+◌, ◌*◌, Bool, true, false, not, ◌&&◌, List, [], ◌∷◌, ◌==◌, ltb, if◌then◌else◌, ℤ, pos, ◌+ℤ◌,
  ◌-ℤ◌, scale, ltz,
}

abbrev pub billion : ℕ
billion = 1000000000

-- `localTokenBucket`
pub record Bucket : Type 0 where
  pub rate : ℕ
  pub burst : ℕ
  pub tokens : ℤ
  pub last : ℤ
  pub last_seen : ℤ

-- `newLocalTokenBucket`
unfoldable pub new_local_token_bucket : ℕ → ℕ → ℤ → Bucket
new_local_token_bucket rate burst now = record {
  rate = rate;
  burst = burst;
  tokens = pos (burst * billion);
  last = now;
  last_seen = now;
}

unfoldable pub cap : Bucket → Bucket
cap b =
    if ltz (pos (b.burst * billion)) b.tokens
    then record b { tokens = pos (b.burst * billion) }
    else b

-- A rate above 0 replaces the rate of the bucket.
unfoldable pub with_rate : ℕ → Bucket → Bucket
with_rate rate b = if ltb 0 rate then record b { rate = rate } else b

-- A burst above 0 replaces the burst of the bucket, and fills the bucket when it grows.
unfoldable pub with_burst : ℕ → Bucket → Bucket
unfolding cap
with_burst burst b =
    if ltb 0 burst && not (burst == b.burst)
    then cap
        (record (if ltb b.burst burst then record b { tokens = pos (burst * billion) } else b) {
          burst = burst;
        })
    else b

-- The tokens of the time since the last call.
unfoldable pub refill : ℤ → Bucket → Bucket
unfolding cap
refill now b =
    cap
      (record b { last = now; last_seen = now; tokens = b.tokens +ℤ scale (now -ℤ b.last) b.rate })

unfoldable pub take_token : Bucket → Bucket × Bool
take_token b =
    if ltz b.tokens (pos billion)
    then (b, false)
    else (record b { tokens = b.tokens -ℤ pos billion }, true)

-- `(*localTokenBucket).Allow`
unfoldable pub bucket_allow : ℕ → ℕ → ℤ → Bucket → Bucket × Bool
unfolding with_rate with_burst refill take_token
bucket_allow rate burst now b = take_token (refill now (with_burst burst (with_rate rate b)))

-- Calls on one bucket with the same rate and burst, and the number of those that are allowed.
unfoldable pub allow_all : ℕ → ℕ → List ℤ → Bucket → Bucket × ℕ
unfolding bucket_allow
allow_all rate burst [] b = (b, 0)
allow_all rate burst (now ∷ times) b =
    let r = bucket_allow rate burst now b in
    let rest = allow_all rate burst times r.0 in (rest.0, (if r.1 then 1 else 0) + rest.1)
