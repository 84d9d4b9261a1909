-- ===== src/Limiter/Bound.antt =====
-- The calls that a token bucket allows are bounded by its burst and its rate.
use strait.Base.{
  ℕ, zero, suc, ◌+◌, ◌*◌, ◌≤◌, ◌≡◌, refl, sym, ap, ◌∙◌, subst, arith, Bool, List, [], ◌∷◌,
  if◌then◌else◌, ℤ, pos, pos_part, neg_part, ◌+ℤ◌, ◌-ℤ◌, ◌≤ℤ◌, scale, +ℤ_parts, -ℤ_parts,
  scale-sub_parts,
}
use strait.Limiter.Bucket.{
  billion, Bucket, new_local_token_bucket, cap, with_rate, with_burst, refill, take_token,
  bucket_allow, allow_all,
}

-- A bucket with this rate and burst that holds at least no and at most `burst` tokens.
abbrev Fits : ℕ → ℕ → Bucket → Type 0
Fits rate burst b =
    (b.rate ≡ rate)
    × (b.burst ≡ burst)
    × (neg_part b.tokens ≤ pos_part b.tokens)
    × (pos_part b.tokens ≤ burst * billion + neg_part b.tokens)

-- From `b` to `b'` with `n` calls allowed: the tokens spent and left come from those that were
-- there and from the time.
abbrev Paid : ℕ → Bucket → Bucket → ℕ → Type 0
Paid rate b b' n =
    n * billion
      + pos_part b'.tokens
      + neg_part b.tokens
      + pos_part b.last * rate
      + neg_part b'.last * rate
    ≤ pos_part b.tokens + neg_part b'.tokens + pos_part b'.last * rate + neg_part b.last * rate

settled_limits :
    (rate burst : ℕ) (b : Bucket)
    → b.rate ≡ rate
    → b.burst ≡ burst
    → with_burst burst (with_rate rate b) ≡ b
unfolding with_burst with_rate
settled_limits rate burst b h k = ground (arith)

mul_le : (x y k : ℕ) → x ≤ y → x * k ≤ y * k
mul_le x y zero h = omega arith
mul_le x y (suc k) h = omega (arith, mul_le x y k h)

refill-Paid :
    (rate burst : ℕ) (now : ℤ) (b : Bucket)
    → Fits rate burst b
    → b.last ≤ℤ now
    → Fits rate burst (refill now b) × Paid rate b (refill now b) 0
unfolding refill cap
refill-Paid rate burst now b h l = ground (
  arith,
  +ℤ_parts b.tokens (scale (now -ℤ b.last) b.rate),
  scale-sub_parts now b.last rate,
  mul_le (pos_part b.last + neg_part now) (pos_part now + neg_part b.last) rate l,
)

refill_last : (now : ℤ) (b : Bucket) → (refill now b).last ≡ now
unfolding refill cap
refill_last now b = ground arith

take_token_last : (b : Bucket) → (take_token b).0.last ≡ b.last
unfolding take_token
take_token_last b = ground arith

-- Payments add up.
Paid-trans :
    (rate : ℕ) (a b c : Bucket) (m n : ℕ)
    → Paid rate a b m
    → Paid rate b c n
    → Paid rate a c (m + n)
Paid-trans rate a b c m n h k = omega arith

free_first :
    (rate : ℕ) (a b c : Bucket) (n : ℕ) → Paid rate a b 0 → Paid rate b c n → Paid rate a c n
free_first rate a b c n h k = omega arith

take_token-Paid :
    (rate burst : ℕ) (b : Bucket)
    → Fits rate burst b
    → Fits rate burst (take_token b).0
      × Paid rate b (take_token b).0 (if (take_token b).1 then 1 else 0)
unfolding take_token
take_token-Paid rate burst b h = ground (arith, -ℤ_parts b.tokens (pos billion))

bucket_allow-Paid :
    (rate burst : ℕ) (now : ℤ) (b : Bucket)
    → Fits rate burst b
    → b.last ≤ℤ now
    → Fits rate burst (bucket_allow rate burst now b).0
      × Paid rate b
          (bucket_allow rate burst now b).0
          (if (bucket_allow rate burst now b).1 then 1 else 0)
      × ((bucket_allow rate burst now b).0.last ≡ now)
unfolding bucket_allow
bucket_allow-Paid rate burst now b h l =
    rw (settled_limits rate burst b h.0 h.1)
      (chain (refill now b) (refill-Paid rate burst now b h l) (refill_last now b))
  where
    chain :
        (c : Bucket)
        → Fits rate burst c × Paid rate b c 0
        → c.last ≡ now
        → Fits rate burst (take_token c).0
          × Paid rate b (take_token c).0 (if (take_token c).1 then 1 else 0)
          × ((take_token c).0.last ≡ now)
    chain c (f, p) e = (
      (take_token-Paid rate burst c f).0,
      free_first rate b c (take_token c).0 (if (take_token c).1 then 1 else 0) p
          (take_token-Paid rate burst c f).1,
      take_token_last c ∙ e,
    )

-- The times of the calls do not go back, from `t` on.
abbrev pub Ascending : ℤ → List ℤ → Type 0
Ascending t [] = Unit
Ascending t (u ∷ times) = (t ≤ℤ u) × Ascending u times

abbrev pub latest : ℤ → List ℤ → ℤ
latest t [] = t
latest t (u ∷ times) = latest u times

allow_all-Paid :
    (rate burst : ℕ) (times : List ℤ) (b : Bucket)
    → Fits rate burst b
    → Ascending b.last times
    → Fits rate burst (allow_all rate burst times b).0
      × Paid rate b (allow_all rate burst times b).0 (allow_all rate burst times b).1
      × ((allow_all rate burst times b).0.last ≡ latest b.last times)
unfolding allow_all
allow_all-Paid rate burst [] b h a = (h, omega arith, refl)
allow_all-Paid rate burst (now ∷ times) b h (l, a) =
    more (bucket_allow rate burst now b) (bucket_allow-Paid rate burst now b h l)
      (λ c f a'. allow_all-Paid rate burst times c f a')
  where
    further :
        (c : Bucket) (g m : ℕ) (d : Bucket)
        → Paid rate b c g
        → c.last ≡ now
        → Fits rate burst d × Paid rate c d m × (d.last ≡ latest c.last times)
        → Fits rate burst d × Paid rate b d (g + m) × (d.last ≡ latest now times)
    further c g m d p e (f', p', e') =
        (f', Paid-trans rate b c d g m p p', e' ∙ ap (λ t. latest t times) e)

    more :
        (r : Bucket × Bool)
        → Fits rate burst r.0 × Paid rate b r.0 (if r.1 then 1 else 0) × (r.0.last ≡ now)
        → ((c : Bucket)
            → Fits rate burst c
            → Ascending c.last times
            → Fits rate burst (allow_all rate burst times c).0
              × Paid rate c (allow_all rate burst times c).0 (allow_all rate burst times c).1
              × ((allow_all rate burst times c).0.last ≡ latest c.last times))
        → Fits rate burst (allow_all rate burst times r.0).0
          × Paid rate b
              (allow_all rate burst times r.0).0
              ((if r.1 then 1 else 0) + (allow_all rate burst times r.0).1)
          × ((allow_all rate burst times r.0).0.last ≡ latest now times)
    more (c, g) (f, p, e) later =
        further c (if g then 1 else 0) (allow_all rate burst times c).1
          (allow_all rate burst times c).0 p e
          (later c f (subst (λ t. Ascending t times) (sym e) a))

-- Of the calls on a new bucket with its rate and its burst, at times that do not go back from the
-- creation at `t` on, at most as many are allowed as the burst and the tokens that the rate yields
-- up to the latest call.
pub new_bucket-bounded :
    (rate burst : ℕ) (t : ℤ) (times : List ℤ)
    → Ascending t times
    → pos ((allow_all rate burst times (new_local_token_bucket rate burst t)).1 * billion)
      ≤ℤ (pos (burst * billion) +ℤ scale (latest t times -ℤ t) rate)
unfolding new_local_token_bucket
new_bucket-bounded rate burst t times a = spent (
    allow_all-Paid rate burst times (new_local_token_bucket rate burst t)
      (refl, refl, omega arith, omega arith) a)
  where
    b' : Bucket
    b' = (allow_all rate burst times (new_local_token_bucket rate burst t)).0

    n : ℕ
    n = (allow_all rate burst times (new_local_token_bucket rate burst t)).1

    spent :
        Fits rate burst b'
          × Paid rate (new_local_token_bucket rate burst t) b' n
          × (b'.last ≡ latest t times)
        → pos (n * billion) ≤ℤ (pos (burst * billion) +ℤ scale (latest t times -ℤ t) rate)
    spent (f, p, e) = omega (
      arith,
      +ℤ_parts (pos (burst * billion)) (scale (latest t times -ℤ t) rate),
      scale-sub_parts (latest t times) t rate,
      ap (λ x. pos_part x * rate) e,
      ap (λ x. neg_part x * rate) e,
    )
