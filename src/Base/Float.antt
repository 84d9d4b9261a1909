-- ===== src/Base/Float.antt =====
-- `float64` as the program compares it with constants. A finite value is an integer count of
-- billionths; a comparison with the value that is no number is false.
use mathlib.Core.Bool.{Bool, true, false}
use mathlib.Core.Logic.{◌↔◌}
use mathlib.Core.Path.{◌≡◌}
use native.Mathlib.Omega.{arith}
use strait.Base.Int.{ℤ, pos, ltz, lez, ◌≤ℤ◌}

pub data Float64 : Type 0 where
  nan minus_infinity plus_infinity : Float64
  finite : ℤ → Float64

-- `x <= 0`
abbrev pub at_most_zero : Float64 → Bool
at_most_zero nan = false
at_most_zero minus_infinity = true
at_most_zero plus_infinity = false
at_most_zero (finite z) = lez z (pos 0)

-- `x < 0`
abbrev pub below_zero : Float64 → Bool
below_zero nan = false
below_zero minus_infinity = true
below_zero plus_infinity = false
below_zero (finite z) = ltz z (pos 0)

-- `x > 1`
abbrev pub above_one : Float64 → Bool
above_one nan = false
above_one minus_infinity = false
above_one plus_infinity = true
above_one (finite z) = ltz (pos 1000000000) z

-- A positive value, infinity included, or no number.
abbrev pub IsPositiveOrNan : Float64 → Type 0
IsPositiveOrNan nan = Unit
IsPositiveOrNan minus_infinity = ⊥
IsPositiveOrNan plus_infinity = Unit
IsPositiveOrNan (finite z) = pos 1 ≤ℤ z

-- A value that is not negative, infinity included, or no number.
abbrev pub IsNotNegative : Float64 → Type 0
IsNotNegative nan = Unit
IsNotNegative minus_infinity = ⊥
IsNotNegative plus_infinity = Unit
IsNotNegative (finite z) = pos 0 ≤ℤ z

pub at_most_zero_iff : (x : Float64) → (at_most_zero x ≡ false) ↔ IsPositiveOrNan x
at_most_zero_iff nan = ground arith
at_most_zero_iff minus_infinity = ground arith
at_most_zero_iff plus_infinity = ground arith
at_most_zero_iff (finite z) = ground arith

pub below_zero_iff : (x : Float64) → (below_zero x ≡ false) ↔ IsNotNegative x
below_zero_iff nan = ground arith
below_zero_iff minus_infinity = ground arith
below_zero_iff plus_infinity = ground arith
below_zero_iff (finite z) = ground arith
