-- ===== src/Base/Scans.antt =====
-- Results of functions that scan a text from a position on: the unread bytes stand for the position.
-- `panic` is an access out of range, and `exhausted` a loop that ran out of a model's fuel.
use Prim.Native.Nat.{ℕ, ◌≤◌, ◌<◌}
use native.Mathlib.Omega.{arith}
use strait.Base.Lists.{length}
use strait.Base.Text.{Bytes}

pub data Scanned {ℓ} (E : Type 0) (A : Type ℓ) : Type ℓ where
  ok : A → Scanned E A
  fail : E → Scanned E A
  panic exhausted : Scanned E A

infixl 5 ◌>>=◌
abbrev pub ◌>>=◌ {ℓ κ} :
    {E : Type 0} {X : Type ℓ} {Y : Type κ} → Scanned E X → (X → Scanned E Y) → Scanned E Y
panic >>= next = panic
exhausted >>= next = exhausted
fail e >>= next = fail e
ok x >>= next = next x

module _ {E : Type 0} where
  -- A scan of fewer than `n` bytes that neither panics nor runs out of fuel.
  abbrev pub Below : ℕ → Scanned E Bytes → Type 0
  Below n (ok rest) = length rest < n
  Below n (fail e) = Unit
  Below n panic = ⊥
  Below n exhausted = ⊥

  abbrev pub PairBelow {ℓ} : {A : Type ℓ} → ℕ → Scanned E (A × Bytes) → Type 0
  PairBelow n (ok (a, rest)) = length rest < n
  PairBelow n (fail e) = Unit
  PairBelow n panic = ⊥
  PairBelow n exhausted = ⊥

  pub Below-mono : (m n : ℕ) (r : Scanned E Bytes) → m ≤ n → Below m r → Below n r
  Below-mono m n (ok rest) h b = omega arith
  Below-mono m n (fail e) h b = tt
  Below-mono m n panic h b = b
  Below-mono m n exhausted h b = b

  -- The rules for a chain of scans.
  pub Below-bind :
      (n k : ℕ) (m : Scanned E Bytes) (f : Bytes → Scanned E Bytes)
      → Below n m
      → ((rest : Bytes) → length rest < n → Below k (f rest))
      → Below k (m >>= f)
  Below-bind n k (ok rest) f b h = h rest b
  Below-bind n k (fail e) f b h = tt
  Below-bind n k panic f b h = b
  Below-bind n k exhausted f b h = b

  pub Below-bind_pair {ℓ} :
      {A : Type ℓ} (n k : ℕ) (m : Scanned E (A × Bytes)) (f : A × Bytes → Scanned E Bytes)
      → PairBelow n m
      → ((a : A) (rest : Bytes) → length rest < n → Below k (f (a, rest)))
      → Below k (m >>= f)
  Below-bind_pair n k (ok (a, rest)) f b h = h a rest b
  Below-bind_pair n k (fail e) f b h = tt
  Below-bind_pair n k panic f b h = b
  Below-bind_pair n k exhausted f b h = b

  -- On fewer than `n` unread bytes a scan moves forward.
  abbrev pub Skips : ℕ → (Bytes → Scanned E Bytes) → Type 0
  Skips n skip = (s : Bytes) → length s < n → Below (length s) (skip s)

  pub PairBelow-mono {ℓ} :
      {A : Type ℓ} (m n : ℕ) (r : Scanned E (A × Bytes)) → m ≤ n → PairBelow m r → PairBelow n r
  PairBelow-mono m n (ok (a, rest)) h b = omega arith
  PairBelow-mono m n (fail e) h b = tt
  PairBelow-mono m n panic h b = b
  PairBelow-mono m n exhausted h b = b

  pub PairBelow-bind {ℓ} :
      {B : Type ℓ} (n k : ℕ) (m : Scanned E Bytes) (f : Bytes → Scanned E (B × Bytes))
      → Below n m
      → ((rest : Bytes) → length rest < n → PairBelow k (f rest))
      → PairBelow k (m >>= f)
  PairBelow-bind n k (ok rest) f b h = h rest b
  PairBelow-bind n k (fail e) f b h = tt
  PairBelow-bind n k panic f b h = b
  PairBelow-bind n k exhausted f b h = b

  pub PairBelow-bind_pair {ℓ κ} :
      {A : Type ℓ} {B : Type κ} (n k : ℕ) (m : Scanned E (A × Bytes))
      (f : A × Bytes → Scanned E (B × Bytes))
      → PairBelow n m
      → ((a : A) (rest : Bytes) → length rest < n → PairBelow k (f (a, rest)))
      → PairBelow k (m >>= f)
  PairBelow-bind_pair n k (ok (a, rest)) f b h = h a rest b
  PairBelow-bind_pair n k (fail e) f b h = tt
  PairBelow-bind_pair n k panic f b h = b
  PairBelow-bind_pair n k exhausted f b h = b

  -- The loops thread a value through the scan.
  abbrev pub Threads {ℓ} : {A : Type ℓ} → ℕ → (A → Bytes → Scanned E (A × Bytes)) → Type ℓ
  Threads {A} n f = (a : A) (s : Bytes) → length s < n → PairBelow (length s) (f a s)
