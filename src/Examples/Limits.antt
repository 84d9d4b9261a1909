-- ===== src/Examples/Limits.antt =====
-- Calls of the rate limiter.
use strait.Base.{
  ◌≡◌, ◌≤◌, ◌*◌, refl, true, none, some, [], ◌∷◌, Bytes, codes, same, lookup, arith, pos, ◌+ℤ◌,
  ◌-ℤ◌, ◌≤ℤ◌, scale,
}
use strait.Limiter.Bucket.{billion, new_local_token_bucket, allow_all}
use strait.Limiter.Bound.{new_bucket-bounded}
use strait.Limiter.Keyed.{
  Limiter, ClientAuth, request_limits, new_keyed_local_limiter, bucket_for, limiter_allow,
  rate_limit, maybe_cleanup, sweep,
}
use strait.Limiter.Fresh.{Distinct, rate_limit-first, limiter_allow-apart, slow_client-starves}

-- Three calls in one second, with a rate of 1 and a burst of 2.
new_bucket-bounded_example :
    pos (
      (allow_all 1 2 (pos 5 ∷ pos 6 ∷ pos 1000000005 ∷ []) (new_local_token_bucket 1 2 (pos 5))).1
      * billion)
    ≤ℤ (pos (2 * billion) +ℤ scale (pos 1000000005 -ℤ pos 5) 1)
new_bucket-bounded_example =
    new_bucket-bounded 1 2 (pos 5) (pos 5 ∷ pos 6 ∷ pos 1000000005 ∷ [])
      (omega arith, (omega arith, (omega arith, tt)))

abbrev two_clients : Limiter
two_clients = record {
  buckets =
      (codes "a", new_local_token_bucket 1 2 (pos 5))
      ∷ (codes "b", new_local_token_bucket 1 2 (pos 7))
      ∷ [];
  calls = 2;
}

limiter_allow-apart_example :
    Distinct (limiter_allow (codes "a") 1 2 (pos 9) two_clients).0.buckets
    × (bucket_for 1 2
          (pos 9)
          (lookup (codes "b") (limiter_allow (codes "a") 1 2 (pos 9) two_clients).0.buckets)
        ≡ bucket_for 1 2 (pos 9) (lookup (codes "b") two_clients.buckets))
unfolding same lookup new_local_token_bucket
limiter_allow-apart_example =
    limiter_allow-apart (codes "a") (codes "b") 1 2 1 2 (pos 9) two_clients (refl, (refl, tt))
      (omega arith) refl

abbrev as_is : Bytes → Bytes
as_is s = s

rate_limit-first_example :
    (rate_limit as_is (pos 0) (pos 0) none (codes "10.0.0.1") (pos 9) new_keyed_local_limiter).1
    ≡ true
unfolding maybe_cleanup new_keyed_local_limiter lookup sweep
rate_limit-first_example =
    rate_limit-first as_is (pos 0) (pos 0) none (codes "10.0.0.1") (pos 9) new_keyed_local_limiter
      refl

-- A limit of one request in two seconds.
abbrev slow_client : ClientAuth
slow_client = record {
  token = codes "t";
  fingerprint = codes "f";
  rate_limit_qps = pos 500000000;
  rate_limit_burst = pos 1;
}

slow_client-starves_example :
    (allow_all
      (request_limits (pos 0) (pos 0) (some slow_client)).0
      (request_limits (pos 0) (pos 0) (some slow_client)).1
      (pos 5 ∷ pos 9000000000 ∷ [])
      (new_local_token_bucket
        (request_limits (pos 0) (pos 0) (some slow_client)).0
        (request_limits (pos 0) (pos 0) (some slow_client)).1
        (pos 5))).1
    ≤ (request_limits (pos 0) (pos 0) (some slow_client)).1
slow_client-starves_example =
    slow_client-starves (pos 0) (pos 0) slow_client (pos 5) (pos 5 ∷ pos 9000000000 ∷ [])
      (omega arith) (omega arith) (omega arith, (omega arith, tt))
