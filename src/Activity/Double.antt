-- ===== src/Activity/Double.antt =====
-- IEEE 754 binary64 arithmetic on non-negative numbers, as far as the percentages and scores use
-- it. A finite double is a multiple of 2^-1074, and stands as that multiple.
use hsk_3_0_app.Base.{ℕ, zero, suc, ◌+◌, ◌-◌, ◌*◌, ◌/◌, ◌%◌, ◌^◌, if◌then◌else◌, ltb, ◌==◌}

-- The double 1.
pub unit : ℕ
unit = 2 ^ 1074

-- The number of binary digits of `n`, at most `fuel`.
bits : (fuel n : ℕ) → ℕ
bits zero n = 0
bits (suc fuel) n = let rest = suc (bits fuel (n / 2)) in if n == 0 then 0 else rest

-- The distance of the doubles about a number with integer part `q`: 53 binary digits are kept.
-- Quotients here are below 2^1023, so 2200 rounds are enough for `q`.
spacing : ℕ → ℕ
unfolding bits
spacing q = 2 ^ (bits 2200 q - 53)

-- `a / b` rounded to a multiple of `step`, ties to the even multiple.
pub round_even : (a b step : ℕ) → ℕ
round_even a b step =
    let d = b * step in
    let k = a / d in
    let r = a % d in
    if ltb (2 * r) d
    then k * step
    else if ltb d (2 * r)
    then (k + 1) * step
    else if k % 2 == 0
    then k * step
    else (k + 1) * step

-- The double nearest to the ratio of two integers.
unfoldable pub divide : (a b : ℕ) → ℕ
unfolding unit spacing round_even
divide a b = round_even (a * unit) b (spacing (a * unit / b))

-- The product of a double and an integer.
unfoldable pub scale : (x n : ℕ) → ℕ
unfolding spacing round_even
scale x n = round_even (x * n) 1 (spacing (x * n))

-- `Math.round`: the nearest integer, ties upward.
unfoldable pub math_round : ℕ → ℕ
unfolding unit
math_round x = (2 * x + unit) / (2 * unit)
