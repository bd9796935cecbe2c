-- ===== src/Prelude/Doubles.antt =====
-- Python's `int(d.total_seconds() * 1000)` of a `timedelta`, in IEEE doubles: a quotient and a product, each
-- rounded to 53 bits. The differences of two times stay far below the 2^53 seconds for which it is exact.
use Prim.Native.Nat.{ℕ, zero, suc, ◌+◌, ◌*◌, ◌/◌, ◌%◌, ◌^◌}
use mathlib.Core.Path.{◌≡◌, refl}
use keviq_core.Prelude.Tests.{ltb, leb, if◌then◌else◌}

-- To the nearest, and to the even one of two.
abbrev pub half_even : (n d : ℕ) → ℕ
half_even n d =
    if ltb (2 * (n % d)) d
    then n / d
    else if ltb d (2 * (n % d))
    then n / d + 1
    else n / d + n / d % 2

-- How often a number of microseconds is doubled until its seconds have 53 bits; 72 times is enough.
unfoldable pub exponent : (fuel microseconds : ℕ) → ℕ
exponent zero u = 0
exponent (suc fuel) u =
    let more = exponent fuel (2 * u) in if leb (2 ^ 52 * 1000000) u then 0 else suc more

-- `total_seconds()`, with the exponent
abbrev pub seconds : (exponent microseconds : ℕ) → ℕ
seconds s u = half_even (u * 2 ^ s) 1000000

-- The product of a number of 53 bits and 1000, rounded to 53 bits.
abbrev pub thousandfold : ℕ → ℕ
thousandfold m =
    if ltb (m * 1000) (2 ^ 62)
    then half_even (m * 1000) (2 ^ 9) * 2 ^ 9
    else half_even (m * 1000) (2 ^ 10) * 2 ^ 10

unfoldable pub milliseconds : (microseconds : ℕ) → ℕ
unfolding exponent
milliseconds u = let s = exponent 72 u in thousandfold (seconds s u) / 2 ^ s

-- One less than the exact quotient.
milliseconds_1001 : milliseconds 1001000 ≡ 1000
unfolding milliseconds
milliseconds_1001 = refl

milliseconds_2000 : milliseconds 2000999 ≡ 2000
unfolding milliseconds
milliseconds_2000 = refl
